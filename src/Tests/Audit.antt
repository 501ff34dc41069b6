-- ===== src/Tests/Audit.antt =====
-- The audit chain and its store, on two events.
use gui_shell_public.Prelude.{
  String, ◌≡◌, ◌≢◌, refl, Bool, true, false, List, [], ◌∷◌, ◌++◌, ◌==◌, eq_iff,
}
use gui_shell_public.Outcome.{Result, ok, err}
use gui_shell_public.Value.{Value, null, str, Fields, dict}
use gui_shell_public.Store.{text_key}
use gui_shell_public.AuditChain.{Verification, start, chain_event, verify_audit_chain}
use gui_shell_public.AuditChain.Tamper.{body_text, Collision, changed_event_collides}
use gui_shell_public.AuditStore.{append}
use gui_shell_public.AuditStore.Chained.{append-verifies}
use gui_shell_public.Tests.World.{world}

abbrev opened : Fields
opened = dict (("event_id", str "audit-1") ∷ ("action", str "file.open") ∷ [])

abbrev saved : Fields
saved = dict (("event_id", str "audit-2") ∷ ("action", str "file.save") ∷ [])

-- An event of the same length, which the digest of the concrete platform does not tell apart.
abbrev forged : Fields
forged = dict (("event_id", str "audit-1") ∷ ("action", str "file.wipe") ∷ [])

-- Texts that the test tells apart are different.
apart : (s t : String) → (s == t) ≡ false → s ≢ t
apart s t h same = cc ((eq_iff s t).1 same)

chained : Fields → Fields
chained event = chain_event world event null

verification_of : Result Verification → Verification
verification_of (ok v) = v
verification_of (err e) = record {
  verified = false;
  event_count = 0;
  latest_event_hash = null;
  errors = [];
}

verified : List Fields → Verification
verified events = verification_of (verify_audit_chain world events)

stored_by : Result (List Fields × Fields) → List Fields × Fields
stored_by (ok x) = x
stored_by (err e) = ([], opened)

second : List Fields × Fields
second = stored_by (append world (chained opened ∷ []) saved)

opened_is_verified :
    verify_audit_chain world (chained opened ∷ []) ≡ ok (verified (chained opened ∷ []))
unfolding verified verify_audit_chain gui_shell_public.AuditChain.check_events
    gui_shell_public.AuditChain.check_event gui_shell_public.AuditChain.check_id
    gui_shell_public.Value.truthy gui_shell_public.Value.get chained chain_event
    gui_shell_public.Value.put gui_shell_public.Value.without gui_shell_public.Store.key_of
    verification_of world
opened_is_verified = refl

bodies_differ :
    (body_text world (chained opened) null == body_text world (chained forged) null) ≡ false
unfolding body_text world gui_shell_public.Value.Text.json_dumps gui_shell_public.AuditChain.body
    gui_shell_public.Value.without gui_shell_public.Value.put chained chain_event
bodies_differ = refl

changed_event_collides_example :
    Collision world (body_text world (chained opened) null) (body_text world (chained forged) null)
unfolding verified verify_audit_chain gui_shell_public.AuditChain.check_events
    gui_shell_public.AuditChain.check_event gui_shell_public.AuditChain.check_id
    gui_shell_public.Value.truthy gui_shell_public.Value.get chained chain_event
    gui_shell_public.Value.put gui_shell_public.Value.without gui_shell_public.Store.key_of
    verification_of gui_shell_public.Prelude.any_of gui_shell_public.AuditChain.check_links
    gui_shell_public.Value.Equal.py_eq gui_shell_public.Hash.canonical_hash world
    gui_shell_public.Value.Text.json_dumps
changed_event_collides_example =
    changed_event_collides world [] [] (chained opened) (chained forged)
      (verified (chained opened ∷ [])) (verified (chained forged ∷ [])) start refl refl refl refl
      refl refl (apart _ _ bodies_differ)

append-verifies_example :
    (w : Verification) × (verify_audit_chain world second.0 ≡ ok w) × (w.verified ≡ true)
unfolding second verify_audit_chain gui_shell_public.AuditChain.check_events
    gui_shell_public.AuditChain.check_event gui_shell_public.AuditChain.check_id
    gui_shell_public.Value.truthy gui_shell_public.Value.get chained chain_event
    gui_shell_public.Value.put gui_shell_public.Value.without gui_shell_public.Store.key_of verified
    verification_of gui_shell_public.Prelude.any_of gui_shell_public.AuditChain.check_links
    gui_shell_public.Value.Equal.py_eq gui_shell_public.Hash.canonical_hash world
    gui_shell_public.Value.Text.json_dumps gui_shell_public.Value.has append
    gui_shell_public.AuditStore.last_hash gui_shell_public.Value.index stored_by
    gui_shell_public.AuditStore.sealed
append-verifies_example =
    append-verifies world (chained opened ∷ []) second.0 saved second.1
      (verified (chained opened ∷ [])) (text_key "audit-2") refl refl refl refl refl
