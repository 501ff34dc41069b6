-- ===== src/AuditChain/Tamper.antt =====
-- packages/shell_core/audit_chain.py: two verified chains that differ in one event.
use text.Mathlib.TextLemmas.{append_cancel_left}
use gui_shell_public.Prelude.{
  String, ◌<>◌, ◌≡◌, ◌≢◌, ap, sym, ◌∙◌, true, List, [], ◌∷◌, ◌++◌, append-eq-nil, is_empty_iff,
}
use gui_shell_public.Outcome.{ok, >>=-eq-ok, ok-injective}
use gui_shell_public.Platform.{Platform}
use gui_shell_public.Value.{Value, str, obj, Fields, get, without}
use gui_shell_public.Value.Equal.{py_eq-str}
use gui_shell_public.Value.Text.{json_dumps}
use gui_shell_public.Hash.{canonical_hash}
use gui_shell_public.AuditChain.{
  Check, Verification, start, body, check_links, check_event, check_events, verify_audit_chain,
}
use gui_shell_public.AuditChain.Laws.{
  check_events-append, check_event_parts, check_events_errors, check_links-eq-nil,
}

str-injective : {s t : String} → str s ≡ str t → s ≡ t
str-injective h = cc

module _ (P : Platform) where
  -- The canonical text of what the event's hash is taken of, behind this predecessor.
  unfoldable pub body_text : Fields → Value → String
  body_text event previous = json_dumps (obj (body P (without event "event_hash") previous))

  -- Two different texts with the same digest.
  abbrev pub Collision : String → String → Type 0
  Collision s t = (s ≢ t) × (P.sha256 s ≡ P.sha256 t)

  -- What the rest of a chain, and its latest hash, say of the hash of the event in front.
  anchor : List Fields → Value → Value
  anchor [] latest = latest
  anchor (next ∷ events) latest = get next "previous_event_hash"

  -- The first round of a run that ended without errors had none.
  first_round :
      (c d : Check) (event : Fields) (events : List Fields)
      → check_events P c (event ∷ events) ≡ ok d
      → d.errors ≡ []
      → (c' : Check) × (check_events P c' events ≡ ok d)
        × (c'.previous ≡ get event "event_hash")
        × (check_links P c event ≡ [])
  unfolding check_events
  first_round c d event events h e =
      let (c', first, rest) = >>=-eq-ok (check_event P c event) _ h in
      let (ids, seen, _, previous, _, errors) = check_event_parts P c c' event first in
      let nothing =
        append-eq-nil c.errors _ (sym errors ∙ check_events_errors P c' d events rest e) in
      (c', rest, previous, (append-eq-nil ids _ nothing.1).1)

  -- In a verified run the event in front holds the hash of its body, and what follows names it.
  head_hash :
      (c d : Check) (event : Fields) (events : List Fields)
      → check_events P c (event ∷ events) ≡ ok d
      → d.errors ≡ []
      → (get event "event_hash" ≡ str ("sha256:" <> P.sha256 (body_text event c.previous)))
        × (get event "event_hash" ≡ anchor events d.previous)
  unfolding anchor body_text canonical_hash check_events
  head_hash c d event [] h e =
      let (c', rest, previous, clean) = first_round c d event [] h e in
      (
        (check_links-eq-nil P c event clean).1,
        sym previous ∙ ap (λ (x : Check). x.previous) (ok-injective rest),
      )
  head_hash c d event (next ∷ events) h e =
      let (c', rest, previous, clean) = first_round c d event (next ∷ events) h e in
      let hash = (check_links-eq-nil P c event clean).1 in
      let (_, _, _, clean') = first_round c' d next events rest e in
      let named = (check_links-eq-nil P c' next clean').0 in
      (
        hash,
        hash
            ∙ sym ((py_eq-str (get next "previous_event_hash") _).0 (rw (previous, hash) at named)),
      )

  verified_run :
      (before after : List Fields) (event : Fields) (v : Verification)
      → verify_audit_chain P (before ++ event ∷ after) ≡ ok v
      → v.verified ≡ true
      → (c : Check) × (d : Check) × (check_events P start before ≡ ok c)
        × (check_events P c (event ∷ after) ≡ ok d)
        × (d.errors ≡ [])
        × (v.latest_event_hash ≡ d.previous)
  unfolding verify_audit_chain
  verified_run before after event v h good =
      let (d, run, same) = >>=-eq-ok (check_events P start (before ++ event ∷ after)) _ h in
      let flag = ap (λ (x : Verification). x.verified) (ok-injective same) in
      let latest = ap (λ (x : Verification). x.latest_event_hash) (ok-injective same) in
      let (c, first, rest) =
        >>=-eq-ok (check_events P start before) (λ x. check_events P x (event ∷ after))
          (sym (check_events-append P start before (event ∷ after)) ∙ run) in
      (c, d, first, rest, (is_empty_iff d.errors).0 (flag ∙ good), sym latest)

  -- Two chains that verify, with the same latest hash, and that differ in one event: either the two
  -- events have the same canonical body, or their bodies are two texts with one SHA-256 digest.
  pub changed_event_collides :
      (before after : List Fields) (event forged : Fields) (v w : Verification) (c : Check)
      → verify_audit_chain P (before ++ event ∷ after) ≡ ok v
      → v.verified ≡ true
      → verify_audit_chain P (before ++ forged ∷ after) ≡ ok w
      → w.verified ≡ true
      → v.latest_event_hash ≡ w.latest_event_hash
      → check_events P start before ≡ ok c
      → body_text event c.previous ≢ body_text forged c.previous
      → Collision (body_text event c.previous) (body_text forged c.previous)
  changed_event_collides before after event forged v w c hv gv hw gw latest run differ =
      let (c₁, d₁, first₁, rest₁, clean₁, l₁) = verified_run before after event v hv gv in
      let (c₂, d₂, first₂, rest₂, clean₂, l₂) = verified_run before after forged w hw gw in
      let e₁ : c₁ ≡ c = ok-injective (sym first₁ ∙ run) in
      let e₂ : c₂ ≡ c = ok-injective (sym first₂ ∙ run) in
      let (hash₁, at₁) = head_hash c d₁ event after (rw e₁ at rest₁) clean₁ in
      let (hash₂, at₂) = head_hash c d₂ forged after (rw e₂ at rest₂) clean₂ in
      let same_hash : get event "event_hash" ≡ get forged "event_hash" =
        at₁ ∙ ap (anchor after) (sym l₁ ∙ latest ∙ l₂) ∙ sym at₂ in
      let same_text = str-injective (sym hash₁ ∙ same_hash ∙ hash₂) in
      (differ, append_cancel_left "sha256:" _ _ same_text)
