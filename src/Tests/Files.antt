-- ===== src/Tests/Files.antt =====
-- The audit file after one append, with a file library that joins and splits lines.
use Prim.Native.String
use gui_shell_public.Prelude.{
  String, ◌<>◌, ◌≡◌, refl, ap, Bool, true, false, List, [], ◌∷◌, ◌++◌, Option, none, some, ◌==◌,
  if◌then◌else◌, length,
}
use gui_shell_public.Prelude.Int.{pos, int_text}
use gui_shell_public.Outcome.{Result, ok, err}
use gui_shell_public.Platform.{Platform}
use gui_shell_public.Value.{Value, null, str, obj, Fields, end, dict, get}
use gui_shell_public.Value.Text.{json_dumps}
use gui_shell_public.Store.{text_key}
use gui_shell_public.AuditChain.{Verification, chain_event, verify_audit_chain}
use gui_shell_public.Persistence.{
  FileLib, Disk, AuditReport, audit_events, anchor_record, with_line, append_audit_event,
  verify_audit_anchor, verify_audit_file, detect_tamper, latest_hash,
}
use gui_shell_public.Persistence.Appended.{append_audit_event-verifies}
use gui_shell_public.Persistence.Verified.{IsIntact, detect_tamper_iff}
use gui_shell_public.Persistence.Anchor.{anchor_pins_chain}
use gui_shell_public.Tests.World.{world}

-- The lines of a text, the first of them behind `line`.
lines_behind : String → String → List String
lines_behind line String.[] = if line == "" then [] else line ∷ []
lines_behind line (String.◌∷◌ c s) =
    if String.◌∷◌ c String.[] == "\n"
    then line ∷ lines_behind "" s
    else lines_behind (line <> String.◌∷◌ c String.[]) s

files : FileLib
files = record {
  split_lines = lines_behind "";
  json_message = λ s. "Expecting value";
  json_exception = λ s. "Expecting value";
  indented = json_dumps;
  is_hex = λ s. true;
  hmac = λ key message. key <> int_text (pos (String.len message));
  new_key = "00";
}

abbrev empty_disk : Disk
empty_disk = record { audit_text = none; anchor_text = none; key_text = none }

abbrev opened : Fields
opened = dict (("event_id", str "audit-1") ∷ ("action", str "file.open") ∷ [])

chained : Fields
chained = chain_event world opened null

anchor_in : Disk × Result Fields → Fields
anchor_in (d, ok anchor) = anchor
anchor_in (d, err e) = end

anchor : Fields
anchor = anchor_in (anchor_record world files empty_disk (chained ∷ []))

after : Disk
after = (append_audit_event world files empty_disk opened).0

-- The platform that reads back the two texts of that disk.
reading : Platform
reading = record world {
  json_loads = λ text.
      if text == json_dumps (obj chained)
      then some (obj chained)
      else if text == json_dumps (obj anchor) <> "\n"
      then some (obj anchor)
      else none;
}

report_in : Disk × Result AuditReport → AuditReport
report_in (d, ok report) = report
report_in (d, err e) = record {
  verified = false;
  event_count = 0;
  latest_event_hash = null;
  errors = [];
  anchor_verified = false;
}

report : AuditReport
report = report_in (verify_audit_file reading files after)

append_runs : append_audit_event world files empty_disk opened ≡ (after, ok chained)
unfolding append_audit_event after chained gui_shell_public.Persistence.next_event
    gui_shell_public.Value.truthy get audit_events gui_shell_public.Persistence.audit_events_report
    verify_audit_chain gui_shell_public.AuditChain.check_events gui_shell_public.Prelude.any_of
    gui_shell_public.Persistence.write_audit_anchor anchor_record with_line latest_hash files world
append_runs = refl

append_audit_event-verifies_example :
    (events : List Fields) × (written : Fields) × (w : Verification) × (audit_events world files
        empty_disk
      ≡ ok events)
    × (verify_audit_chain world (events ++ (chained ∷ [])) ≡ ok w)
    × (w.verified ≡ true)
    × (after.audit_text ≡ (with_line world files empty_disk chained).audit_text)
    × ((anchor_record world files
          (with_line world files empty_disk chained)
          (events ++ (chained ∷ []))).1
        ≡ ok written)
    × (after.anchor_text ≡ some (files.indented (obj written) <> "\n"))
unfolding get gui_shell_public.Store.key_of
append_audit_event-verifies_example =
    append_audit_event-verifies world files empty_disk after opened chained (text_key "audit-1")
      refl append_runs

file_runs : (verify_audit_file reading files after ≡ (after, ok report)) × (report.verified ≡ true)
unfolding verify_audit_file reading report after report_in verify_audit_chain
    gui_shell_public.AuditChain.check_events gui_shell_public.Persistence.audit_events_report
    append_audit_event gui_shell_public.Persistence.next_event gui_shell_public.Value.truthy get
    audit_events gui_shell_public.Prelude.any_of gui_shell_public.Persistence.write_audit_anchor
    anchor_record with_line files lines_behind json_dumps chain_event gui_shell_public.Value.put
    gui_shell_public.Value.without gui_shell_public.Hash.canonical_hash world latest_hash
    gui_shell_public.Normalization.Text.strip chained gui_shell_public.AuditChain.check_event
    gui_shell_public.AuditChain.check_id gui_shell_public.Store.key_of verify_audit_anchor
    gui_shell_public.Persistence.anchor_body anchor anchor_in
    gui_shell_public.Persistence.audit_report gui_shell_public.AuditChain.check_links
    gui_shell_public.Value.Equal.py_eq gui_shell_public.Value.Equal.size gui_shell_public.Value.has
file_runs = (refl, refl)

tamper_runs : detect_tamper reading files after ≡ (after, ok false)
unfolding detect_tamper
tamper_runs = rw (file_runs.0, file_runs.1)

detect_tamper_iff_example : IsIntact reading files after
detect_tamper_iff_example =
    (detect_tamper_iff reading files after).0 (ap (λ (x : Disk × Result Bool). x.1) tamper_runs)

anchored :
    (after.anchor_text ≡ some (json_dumps (obj anchor) <> "\n"))
    × (verify_audit_anchor reading files after (chained ∷ []) ≡ (after, ok []))
unfolding after verify_audit_anchor anchor append_audit_event
    gui_shell_public.Persistence.next_event gui_shell_public.Value.truthy get audit_events
    gui_shell_public.Persistence.audit_events_report verify_audit_chain
    gui_shell_public.AuditChain.check_events gui_shell_public.Prelude.any_of
    gui_shell_public.Persistence.write_audit_anchor anchor_record with_line json_dumps files
    anchor_in gui_shell_public.Value.put chained chain_event
    gui_shell_public.Persistence.anchor_body latest_hash reading gui_shell_public.Value.without
    gui_shell_public.Hash.canonical_hash world gui_shell_public.AuditChain.unless
    gui_shell_public.Value.Equal.py_eq gui_shell_public.Value.Equal.size gui_shell_public.Value.has
    gui_shell_public.Normalization.Text.strip
anchored = (refl, refl)

anchor_reads :
    (reading.json_loads (json_dumps (obj anchor) <> "\n") ≡ some (obj anchor))
    × (get anchor "event_count" ≡ gui_shell_public.Value.num (pos (length (chained ∷ []))))
    × (get anchor "head_event_hash" ≡ latest_hash (chained ∷ []))
unfolding reading anchor json_dumps anchor_in anchor_record gui_shell_public.Value.put
    gui_shell_public.Persistence.anchor_body files latest_hash get chained chain_event
    gui_shell_public.Value.without gui_shell_public.Hash.canonical_hash world
anchor_reads = (refl, refl, refl)

anchor_pins_chain_example :
    (length (chained ∷ []) ≡ length (chained ∷ []))
    × ((head : String)
        → latest_hash (chained ∷ []) ≡ str head
        → latest_hash (chained ∷ []) ≡ str head)
anchor_pins_chain_example =
    anchor_pins_chain reading files after after (chained ∷ []) (chained ∷ [])
      (json_dumps (obj anchor) <> "\n") anchor anchored.0 anchor_reads.0 anchor_reads.1
      anchor_reads.2 anchored.1
