-- ===== src/AuditStore/Chained.antt =====
-- audit_store.py: `AuditStore.append` against `verify_audit_chain`.
use gui_shell_public.Prelude.{
  ◌≡◌, refl, ap, sym, ◌∙◌, inl, inr, true, false, not, List, [], ◌∷◌, ◌++◌, arith, suc, length,
  any_of, Bool-cases, is_empty, is_empty_iff, not-eq-true,
}
use gui_shell_public.Outcome.{ok, guard, guard-eq-ok, >>=-eq-ok, ok-injective}
use gui_shell_public.Platform.{Platform}
use gui_shell_public.Value.{Value, null, str, obj, Fields, get, has, put, without, truthy, index}
use gui_shell_public.Value.Equal.{py_eq, py_eq-str}
use gui_shell_public.Value.Laws.{
  dict_laws, without-put_self, put-put_self, without_of_absent, has-put,
}
use gui_shell_public.Store.{Key, key_of, key_eqb}
use gui_shell_public.Hash.{canonical_hash}
use gui_shell_public.AuditChain.{
  Check, Verification, start, unless, body, check_id, check_links, check_event, check_events,
  verify_audit_chain,
}
use gui_shell_public.AuditChain.Laws.{
  last_link, is_link, py_eq_link, check_events-append, check_events_previous, check_events_seen,
  get-chain_event,
}
use gui_shell_public.AuditStore.{last_hash, sealed, append}

last_hash-last_link :
    (events : List Fields) (previous : Value)
    → last_hash events ≡ ok previous
    → last_link null events ≡ previous
unfolding last_hash last_link index
last_hash-last_link [] previous h = ok-injective h
last_hash-last_link (e ∷ []) previous h = ground arith
last_hash-last_link (e ∷ f ∷ events) previous h = last_hash-last_link (f ∷ events) previous h

module _ (P : Platform) where
  -- What `append` has found and stored if it returned.
  appended :
      (events events' : List Fields) (event stored : Fields)
      → append P events event ≡ ok (events', stored)
      → (previous : Value) × (truthy (get event "event_id") ≡ true)
        × (any_of (λ old. py_eq (get old "event_id") (get event "event_id")) events ≡ false)
        × (last_hash events ≡ ok previous)
        × (stored ≡ sealed P event previous)
        × (events' ≡ events ++ (sealed P event previous ∷ []))
  unfolding append
  appended events events' event stored h =
      let (u, named, h1) = >>=-eq-ok (guard (truthy (get event "event_id")) _) _ h in
      let (w, new, h2) = >>=-eq-ok (guard (not (any_of _ events)) _) _ h1 in
      let (previous, last, h3) = >>=-eq-ok (last_hash events) _ h2 in
      let same = ok-injective h3 in
      (
        previous,
        guard-eq-ok _ _ named,
        not-eq-true _ (guard-eq-ok _ _ new),
        last,
        sym (ap (λ (x : List Fields × Fields). x.1) same),
        sym (ap (λ (x : List Fields × Fields). x.0) same),
      )

  module _ (event : Fields) (previous : Value) (unsealed : has event "event_hash" ≡ false) where
    stored_body :
        body P (without (sealed P event previous) "event_hash") previous
        ≡ put event "previous_event_hash" previous
    unfolding sealed body
    stored_body =
        let absent : has (put event "previous_event_hash" previous) "event_hash" ≡ false =
          rw (has-put, unsealed) in
        simp (without-put_self, without_of_absent _ "event_hash" absent, put-put_self)

    own_previous : get (sealed P event previous) "previous_event_hash" ≡ previous
    unfolding sealed
    own_previous = simp dict_laws

    own_hash :
        get (sealed P event previous) "event_hash"
        ≡ str (canonical_hash P (obj (put event "previous_event_hash" previous)))
    unfolding sealed
    own_hash = simp dict_laws

    own_id : get (sealed P event previous) "event_id" ≡ get event "event_id"
    unfolding sealed
    own_id = simp dict_laws

    -- The record that `append` stores has the two hashes that the check expects.
    sealed_links :
        (c : Check)
        → c.previous ≡ previous
        → is_link previous ≡ true
        → check_links P c (sealed P event previous) ≡ []
    unfolding check_links
    sealed_links c same linked =
        let own : get (sealed P event previous) "previous_event_hash" ≡ previous = own_previous in
        let hash : get (sealed P event previous) "event_hash"
            ≡ str (canonical_hash P (obj (put event "previous_event_hash" previous))) =
          own_hash in
        rw (
          same,
          own,
          hash,
          get-chain_event P (without (sealed P event previous) "event_hash") previous,
          stored_body,
          py_eq_link previous linked,
          (py_eq-str (str _) _).1 refl,
          unless,
        )

    -- A verified chain goes on: one round over the stored record finds no error.
    pub check_sealed :
        (c : Check) (k : Key)
        → c.previous ≡ previous
        → is_link previous ≡ true
        → c.errors ≡ []
        → truthy (get event "event_id") ≡ true
        → key_of (get event "event_id") ≡ ok k
        → any_of (key_eqb k) c.seen ≡ false
        → (d : Check) × (check_event P c (sealed P event previous) ≡ ok d) × (d.errors ≡ [])
    unfolding check_event check_id
    check_sealed c k same linked clean named hashed new =
        let d : Check = record {
          index = suc c.index;
          previous = get (sealed P event previous) "event_hash";
          seen = k ∷ c.seen;
          errors = [];
        } in
        (d, rw (own_id, named, hashed, new, sealed_links c same linked, clean), refl)

  pub check_events_one :
      (c d : Check) (event : Fields)
      → check_event P c event ≡ ok d
      → check_events P c (event ∷ []) ≡ ok d
  unfolding check_events
  check_events_one c d event h = rw h

  pub not_seen :
      (c : Check) (events : List Fields) (v : Value) (k : Key)
      → key_of v ≡ ok k
      → check_events P start events ≡ ok c
      → any_of (λ old. py_eq (get old "event_id") v) events ≡ false
      → any_of (key_eqb k) c.seen ≡ false
  not_seen c events v k own run new = elim (Bool-cases (any_of (key_eqb k) c.seen)) [
    | inr unseen ↦ unseen
    | inl seen ↦ elim (check_events_seen P start c events v k own run seen) [
      | inl before ↦ unfold any_of in cc
      | inr among ↦ cc
    ]
  ]

  pub verified_check :
      (events : List Fields) (v : Verification)
      → verify_audit_chain P events ≡ ok v
      → (c : Check) × (check_events P start events ≡ ok c) × (v.verified ≡ is_empty c.errors)
  unfolding verify_audit_chain
  verified_check events v h =
      let (c, e, same) = >>=-eq-ok (check_events P start events) _ h in
      (c, e, sym (ap (λ (x : Verification). x.verified) (ok-injective same)))

  pub verified_of_check :
      (events : List Fields) (c : Check)
      → check_events P start events ≡ ok c
      → c.errors ≡ []
      → (w : Verification) × (verify_audit_chain P events ≡ ok w) × (w.verified ≡ true)
  unfolding verify_audit_chain
  verified_of_check events c e clean =
      let w : Verification = record {
        verified = is_empty c.errors;
        event_count = length events;
        latest_event_hash = c.previous;
        errors = c.errors;
      } in
      (w, rw e, rw clean)

  -- If a chain verifies and `append` returns for an event that carries no `event_hash` and whose id
  -- is hashable, then the chain that the store holds afterwards verifies.
  pub append-verifies :
      (events events' : List Fields) (event stored : Fields) (v : Verification) (k : Key)
      → verify_audit_chain P events ≡ ok v
      → v.verified ≡ true
      → has event "event_hash" ≡ false
      → key_of (get event "event_id") ≡ ok k
      → append P events event ≡ ok (events', stored)
      → (w : Verification) × (verify_audit_chain P events' ≡ ok w) × (w.verified ≡ true)
  unfolding is_link
  append-verifies events events' event stored v k checked good unsealed hashed done =
      let (previous, named, new, last, _, same) = appended events events' event stored done in
      let (c, run, flag) = verified_check events v checked in
      let clean = (is_empty_iff c.errors).0 (sym flag ∙ good) in
      let (at_last, linked) = check_events_previous P start c events run clean refl in
      let at_previous = at_last ∙ last_hash-last_link events previous last in
      let unseen = not_seen c events (get event "event_id") k hashed run new in
      let (d, step, no_errors) =
        check_sealed event previous unsealed c k at_previous (rw at_previous at linked) clean named
          hashed unseen in
      rw same (
        verified_of_check (events ++ (sealed P event previous ∷ [])) d
          (check_events-append P start events _ ∙ rw run (check_events_one c d _ step)) no_errors)
