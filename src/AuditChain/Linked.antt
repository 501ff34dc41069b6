-- ===== src/AuditChain/Linked.antt =====
-- packages/shell_core/audit_chain.py: when `verify_audit_chain` calls a chain verified, stated event by
-- event.
use gui_shell_public.Prelude.{
  String, ◌≡◌, refl, ap, sym, ◌∙◌, ◌↔◌, true, false, suc, length, List, [], ◌∷◌, append-eq-nil,
  any_of, is_empty, is_empty_iff, Bool-cases, inl, inr,
}
use gui_shell_public.Outcome.{ok, >>=-eq-ok, ok-injective}
use gui_shell_public.Platform.{Platform}
use gui_shell_public.Value.{Value, null, str, obj, Fields, get, without, truthy}
use gui_shell_public.Value.Equal.{py_eq, py_eq-str}
use gui_shell_public.Store.{Key, key_of, key_eqb}
use gui_shell_public.Hash.{canonical_hash}
use gui_shell_public.AuditChain.{
  Check, Verification, start, unless, body, check_id, check_links, check_event, check_events,
  verify_audit_chain,
}
use gui_shell_public.AuditChain.Laws.{
  check_event_parts, check_events_errors, check_links-eq-nil, get-chain_event,
}

module _ (P : Platform) where
  -- An event that names this predecessor and holds the hash of its own body behind it.
  abbrev pub IsLinked : Value → Fields → Type 0
  IsLinked previous event =
      (py_eq (get event "previous_event_hash") previous ≡ true)
      × (get event "event_hash"
          ≡ str (canonical_hash P (obj (body P (without event "event_hash") previous))))

  -- Events behind this predecessor: each has an id that is none of the keys seen so far, and is linked
  -- to the event in front of it.
  unfoldable pub IsChain : List Key → Value → List Fields → Type 0
  IsChain seen previous [] = Unit
  IsChain seen previous (event ∷ events) =
      (k : Key) × (truthy (get event "event_id") ≡ true)
      × (key_of (get event "event_id") ≡ ok k)
      × (any_of (key_eqb k) seen ≡ false)
      × IsLinked previous event
      × IsChain (k ∷ seen) (get event "event_hash") events

  check_id-eq-nil :
      (c : Check) (v : Value) (seen : List Key)
      → check_id P c v ≡ ok ([], seen)
      → (k : Key) × (truthy v ≡ true)
        × (key_of v ≡ ok k)
        × (any_of (key_eqb k) c.seen ≡ false)
        × (seen ≡ k ∷ c.seen)
  unfolding check_id
  check_id-eq-nil c v seen h = elim (Bool-cases (truthy v)) [
    | inr nameless ↦ cc (ap (λ (x : List String × List Key). x.0) (ok-injective (rw nameless at h)))
    | inl named ↦
        let (k, own, e) = >>=-eq-ok (key_of v) _ (rw named at h) in
        elim (Bool-cases (any_of (key_eqb k) c.seen)) [
          | inl again ↦ cc (ap (λ (x : List String × List Key). x.0) (ok-injective (rw again at e)))
          | inr new ↦ (
            k,
            named,
            own,
            new,
            sym (ap (λ (x : List String × List Key). x.1) (ok-injective (rw new at e))),
          )
        ]
  ]

  check_links-of_linked :
      (c : Check) (event : Fields) → IsLinked c.previous event → check_links P c event ≡ []
  unfolding check_links unless
  check_links-of_linked c event (named, hashed) =
      rw (named, get-chain_event, (py_eq-str (get event "event_hash") _).1 hashed) refl

  check_events-IsChain :
      (c d : Check) (events : List Fields)
      → check_events P c events ≡ ok d
      → d.errors ≡ []
      → IsChain c.seen c.previous events
  unfolding check_events IsChain
  check_events-IsChain c d [] h e = tt
  check_events-IsChain c d (event ∷ events) h e =
      let (c', first, rest) = >>=-eq-ok (check_event P c event) _ h in
      let (ids, seen, checked, previous, same, errors) = check_event_parts P c c' event first in
      let (_, nothing) =
        append-eq-nil c.errors _ (sym errors ∙ check_events_errors P c' d events rest e) in
      let (no_ids, no_links) = append-eq-nil ids _ nothing in
      let (k, named, own, new, grown) =
        check_id-eq-nil c (get event "event_id") seen (rw no_ids at checked) in
      (
        k,
        named,
        own,
        new,
        check_links-eq-nil P c event no_links,
        rw (same ∙ grown, previous) at (check_events-IsChain c' d events rest e),
      )

  IsChain-check_events :
      (c : Check) (events : List Fields)
      → c.errors ≡ []
      → IsChain c.seen c.previous events
      → (d : Check) × (check_events P c events ≡ ok d) × (d.errors ≡ [])
  unfolding check_events check_event check_id IsChain
  IsChain-check_events c [] clean chain = (c, refl, clean)
  IsChain-check_events c (event ∷ events) clean (k, named, own, new, linked, rest) =
      let (d, run, good) =
        IsChain-check_events
          (record {
            index = suc c.index;
            previous = get event "event_hash";
            seen = k ∷ c.seen;
            errors = [];
          })
          events refl rest in
      (d, rw (named, own, new, check_links-of_linked c event linked, clean) run, good)

  -- `verify_audit_chain` returns a verified result exactly for the chains of that form that start
  -- without predecessor.
  pub verified_iff_IsChain :
      (events : List Fields)
      → ((v : Verification) × (verify_audit_chain P events ≡ ok v) × (v.verified ≡ true))
        ↔ IsChain [] null events
  unfolding verify_audit_chain
  verified_iff_IsChain events = (
    λ (v, checked, good).
        let (d, run, same) = >>=-eq-ok (check_events P start events) _ checked in
        check_events-IsChain start d events run (
          (is_empty_iff d.errors).0
            (ap (λ (x : Verification). x.verified) (ok-injective same) ∙ good)),
    λ chain.
        let (d, run, clean) = IsChain-check_events start events refl chain in
        (
          record {
            verified = is_empty d.errors;
            event_count = length events;
            latest_event_hash = d.previous;
            errors = d.errors;
          },
          rw run refl,
          (is_empty_iff d.errors).1 clean,
        ),
  )
