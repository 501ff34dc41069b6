-- ===== src/Persistence.antt =====
-- packages/shell_core/persistence.py: the audit file, its anchor and the anchor's key.
pub mod Appended
pub mod Lines
pub mod Anchored
pub mod Verified
pub mod Anchor
use gui_shell_public.Prelude.{
  String, ◌<>◌, Bool, true, false, not, ◌&&◌, ◌==◌, ℕ, suc, List, [], ◌∷◌, ◌++◌, Option, none, some,
  join, is_empty, length, any_of, if◌then◌else◌,
}
use gui_shell_public.Prelude.Int.{pos, int_text}
use gui_shell_public.Outcome.{Exc, Result, ok, err, value_error, guard, ◌>>=◌, ◌>>◌}
use gui_shell_public.Platform.{Platform}
use gui_shell_public.Value.{Value, null, num, str, obj, Fields, get, put, dict, truthy}
use gui_shell_public.Value.Equal.{py_eq}
use gui_shell_public.Value.Text.{json_dumps, text_of}
use gui_shell_public.Normalization.Text.{strip}
use gui_shell_public.AuditChain.{Verification, unless, chain_event, verify_audit_chain}

-- What the file code takes from Python.
--   split_lines     s.splitlines()
--   json_message    exc.msg of the JSONDecodeError for this text
--   json_exception  str(exc) of it
--   indented        json.dumps(v, sort_keys=True, indent=2)
--   is_hex          bytes.fromhex(s) returns
--   hmac            hmac.new(bytes.fromhex(key), message.encode("utf-8"), "sha256").hexdigest()
--   new_key         secrets.token_bytes(32).hex()
pub record FileLib : Type 0 where
  pub split_lines : String → List String
  pub json_message : String → String
  pub json_exception : String → String
  pub indented : Value → String
  pub is_hex : String → Bool
  pub hmac : String → String → String
  pub new_key : String

-- The texts of audit.jsonl, audit_anchor.json and audit_anchor.key, none for a file that is missing.
pub record Disk : Type 0 where
  pub audit_text : Option String
  pub anchor_text : Option String
  pub key_text : Option String

-- A call that may change the files, also if it raises.
abbrev pub then_on {ℓ κ} :
    {A : Type ℓ} {B : Type κ} → Disk × Result A → (A → Disk → Disk × Result B) → Disk × Result B
then_on (d, ok a) f = f a d
then_on (d, err e) f = (d, err e)

pub record AuditReport : Type 0 where
  pub verified : Bool
  pub event_count : ℕ
  pub latest_event_hash : Value
  pub errors : List String
  pub anchor_verified : Bool

-- events[-1].get("event_hash") if events else None
unfoldable pub latest_hash : List Fields → Value
latest_hash [] = null
latest_hash (event ∷ []) = get event "event_hash"
latest_hash (event ∷ next ∷ events) = latest_hash (next ∷ events)

abbrev text_or_empty : Option String → String
text_or_empty none = ""
text_or_empty (some text) = text

module _ (P : Platform) (L : FileLib) where
  read_line : ℕ → String → Option Value → List Fields × List String → List Fields × List String
  read_line i line none (events, errors) = (
    events,
    ("audit JSONL の " <> (int_text (pos i) <> (" 行目が破損しています: " <> L.json_message line))) ∷ errors,
  )
  read_line i line (some (obj event)) (events, errors) = (event ∷ events, errors)
  read_line i line (some v) (events, errors) = (
    events,
    ("audit JSONL の " <> (int_text (pos i) <> " 行目が破損しています: event が object ではありません")) ∷ errors,
  )

  -- The events and the errors of the lines from line `i` on.
  read_lines : ℕ → List String → List Fields × List String
  read_lines i [] = ([], [])
  read_lines i (line ∷ lines) =
      let rest = read_lines (suc i) lines in
      if strip line == "" then rest else read_line i line (P.json_loads line) rest

  unfoldable pub audit_events_report : Disk → List Fields × List String
  unfolding read_line read_lines
  audit_events_report d = elim d.audit_text [
    | none ↦ ([], [])
    | some text ↦ read_lines 1 (L.split_lines text)
  ]

  unfoldable pub audit_events : Disk → Result (List Fields)
  audit_events d = do
    let (events, errors) = audit_events_report d
    guard (is_empty errors) (value_error (join "; " errors))
    ok events

  key_from : Option String → Disk → Disk × Result String
  key_from none d = (record d { key_text = some L.new_key }, ok L.new_key)
  key_from (some text) d =
      if L.is_hex (strip text) then (d, ok (strip text)) else (d, err (value_error ""))

  -- `_audit_anchor_key`, the key as its hexadecimal text
  anchor_key : Disk → Disk × Result String
  unfolding key_from
  anchor_key d = key_from d.key_text d

  unfoldable pub anchor_body : List Fields → Fields
  anchor_body events = dict (
      ("version", num (pos 1))
      ∷ ("event_count", num (pos (length events)))
      ∷ ("head_event_hash", latest_hash events)
      ∷ [])

  -- `_anchor_record`
  unfoldable pub anchor_record : Disk → List Fields → Disk × Result Fields
  unfolding anchor_key
  anchor_record d events = then_on (anchor_key d) λ key d'.
      let code = L.hmac key (json_dumps (obj (anchor_body events))) in
      (d', ok (put (anchor_body events) "anchor_hmac" (str ("sha256:" <> code))))

  -- `_write_audit_anchor`
  unfoldable pub write_audit_anchor : Disk → List Fields → Disk × Result (Unit {0})
  write_audit_anchor d events =
      then_on (anchor_record d events)
        λ anchor d'. (record d' { anchor_text = some (L.indented (obj anchor) <> "\n") }, ok tt)

  -- The checks of `append_audit_event`: the events of the file, and the event that follows them.
  unfoldable pub next_event : Disk → Fields → Result (List Fields × Fields)
  next_event d event = do
    let event_id = get event "event_id"
    guard (truthy event_id) (value_error "audit event_id は必須です")
    events ← audit_events d
    v ← verify_audit_chain P events
    guard v.verified (value_error ("不正な audit chain へ追記できません: " <> join "; " v.errors))
    guard (not (any_of (λ stored. py_eq (get stored "event_id") event_id) events))
        (value_error ("重複した audit event_id です: " <> text_of P.repr_str event_id))
    ok (events, chain_event P event (latest_hash events))

  unfoldable pub with_line : Disk → Fields → Disk
  with_line d event = record d {
    audit_text = some (text_or_empty d.audit_text <> (json_dumps (obj event) <> "\n"));
  }

  -- `append_audit_event`
  unfoldable pub append_audit_event : Disk → Fields → Disk × Result Fields
  append_audit_event d event =
      then_on (d, next_event d event)
        λ (events, chained) d'.
          then_on (write_audit_anchor (with_line d' chained) (events ++ (chained ∷ [])))
            λ u d''. (d'', ok chained)

  compare_anchor : Disk → List Fields → String → Option Value → Disk × Result (List String)
  compare_anchor d events text none =
      (d, ok (("audit anchor を読み取れません: " <> L.json_exception text) ∷ []))
  compare_anchor d events text (some stored) = then_on (anchor_record d events) λ expected d'.
      (d', ok (unless (py_eq stored (obj expected)) "audit anchor HMAC が audit chain head と一致しません"))

  check_anchor : Disk → List Fields → Option String → Disk × Result (List String)
  check_anchor d events none =
      (d, ok (unless (is_empty events) "空でない audit chain に audit anchor がありません"))
  check_anchor d events (some text) = compare_anchor d events text (P.json_loads text)

  -- `_verify_audit_anchor`: the errors, of which there are none exactly when it says ok
  unfoldable pub verify_audit_anchor : Disk → List Fields → Disk × Result (List String)
  unfolding compare_anchor check_anchor
  verify_audit_anchor d events = check_anchor d events d.anchor_text

  -- The report of both checks.
  unfoldable pub audit_report : Verification → List String → List String → AuditReport
  audit_report v errors anchor_errors = record {
    verified = v.verified && (is_empty errors && is_empty anchor_errors);
    event_count = v.event_count;
    latest_event_hash = v.latest_event_hash;
    errors = errors ++ (v.errors ++ anchor_errors);
    anchor_verified = is_empty anchor_errors;
  }

  -- `verify_audit_chain` of JsonPersistence
  unfoldable pub verify_audit_file : Disk → Disk × Result AuditReport
  verify_audit_file d =
      let (events, errors) = audit_events_report d in
      then_on (d, verify_audit_chain P events)
        λ v d'.
          then_on (verify_audit_anchor d' events)
            λ anchor_errors d''. (d'', ok (audit_report v errors anchor_errors))

  unfoldable pub detect_tamper : Disk → Disk × Result Bool
  detect_tamper d = then_on (verify_audit_file d) λ report d'. (d', ok (not report.verified))
