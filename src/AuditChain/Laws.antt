-- ===== src/AuditChain/Laws.antt =====
-- The loop of `verify_audit_chain` as a fold: what it remembers of the events that it has passed.
use gui_shell_public.Prelude.{
  String, ◌≡◌, refl, ap, sym, ◌∙◌, ◌⊎◌, inl, inr, Bool, true, false, List, [], ◌∷◌, ◌++◌, arith,
  append-eq-nil, any_of, Bool-cases, if◌then◌else◌,
}
use mathlib.Core.Path.{fun_ext}
use gui_shell_public.Outcome.{Result, ok, ◌>>=◌, >>=-eq-ok, >>=_assoc, ok-injective}
use gui_shell_public.Platform.{Platform}
use gui_shell_public.Value.{Value, null, str, obj, Fields, get, without, truthy}
use gui_shell_public.Value.Equal.{py_eq, py_eq-str}
use gui_shell_public.Value.Laws.{dict_laws}
use gui_shell_public.Hash.{canonical_hash}
use gui_shell_public.Store.{Key, key_of, key_eqb}
use gui_shell_public.Store.Laws.{py_eq-key_eqb, key_eqb_iff}
use gui_shell_public.AuditChain.{
  Check, unless, check_id, check_links, check_event, check_events, body, chain_event,
}

-- The hash that a next event has to name.
unfoldable pub last_link : Value → List Fields → Value
last_link previous [] = previous
last_link previous (event ∷ events) = last_link (get event "event_hash") events

-- None or a text: what a verified event can name as its predecessor.
unfoldable pub is_link : Value → Bool
is_link null = true
is_link (str s) = true
is_link _ = false

pub py_eq_link : (v : Value) → is_link v ≡ true → py_eq v v ≡ true
unfolding py_eq is_link
py_eq_link null h = refl
py_eq_link (str s) h = (py_eq-str (str s) s).1 refl
py_eq_link _ h = cc

unless-eq-nil : (b : Bool) (message : String) → unless b message ≡ [] → b ≡ true
unfolding unless
unless-eq-nil b message h = ground arith

module _ (P : Platform) where
  pub check_events-append :
      (c : Check) (xs ys : List Fields)
      → check_events P c (xs ++ ys) ≡ (check_events P c xs >>= λ d. check_events P d ys)
  unfolding check_events
  check_events-append c [] ys = refl
  check_events-append c (x ∷ xs) ys =
      ap (λ f. check_event P c x >>= f) (fun_ext λ d. check_events-append d xs ys)
      ∙ sym (>>=_assoc (check_event P c x) (λ d. check_events P d xs) (λ d. check_events P d ys))

  -- One round that returned, taken apart.
  pub check_event_parts :
      (c d : Check) (event : Fields)
      → check_event P c event ≡ ok d
      → (ids : List String) × (seen : List Key) × (check_id P c (get event "event_id")
          ≡ ok (ids, seen))
        × (d.previous ≡ get event "event_hash")
        × (d.seen ≡ seen)
        × (d.errors ≡ c.errors ++ (ids ++ check_links P c event))
  unfolding check_event
  check_event_parts c d event h =
      let ((ids, seen), e, same) = >>=-eq-ok (check_id P c (get event "event_id")) _ h in
      let q = sym (ok-injective same) in
      (
        ids,
        seen,
        e,
        ap (λ (x : Check). x.previous) q,
        ap (λ (x : Check). x.seen) q,
        ap (λ (x : Check). x.errors) q,
      )

  -- Errors are never taken back.
  pub check_events_errors :
      (c d : Check) (events : List Fields)
      → check_events P c events ≡ ok d
      → d.errors ≡ []
      → c.errors ≡ []
  unfolding check_events
  check_events_errors c d [] h e = ap (λ (x : Check). x.errors) (ok-injective h) ∙ e
  check_events_errors c d (x ∷ xs) h e =
      let (c', first, rest) = >>=-eq-ok (check_event P c x) _ h in
      let (ids, seen, _, _, _, errors) = check_event_parts c c' x first in
      (append-eq-nil c.errors _ (sym errors ∙ check_events_errors c' d xs rest e)).0

  pub get-chain_event :
      (event : Fields) (previous : Value)
      → get (chain_event P event previous) "event_hash"
        ≡ str (canonical_hash P (obj (body P event previous)))
  unfolding chain_event
  get-chain_event event previous = simp dict_laws

  -- An event without link errors names its predecessor and holds the hash of its own body.
  pub check_links-eq-nil :
      (c : Check) (event : Fields)
      → check_links P c event ≡ []
      → (py_eq (get event "previous_event_hash") c.previous ≡ true)
        × (get event "event_hash"
            ≡ str (canonical_hash P (obj (body P (without event "event_hash") c.previous))))
  unfolding check_links
  check_links-eq-nil c event h =
      let (a, b) =
        append-eq-nil (unless (py_eq (get event "previous_event_hash") c.previous) _)
          (unless (py_eq (get event "event_hash") _) _) h in
      let same = unless-eq-nil _ _ b in
      (
        unless-eq-nil _ _ a,
        (py_eq-str (get event "event_hash") _).0
            (rw (get-chain_event (without event "event_hash") c.previous) at same),
      )

  -- After a run without errors the loop holds the hash of the last event, which is a link.
  pub check_events_previous :
      (c d : Check) (events : List Fields)
      → check_events P c events ≡ ok d
      → d.errors ≡ []
      → is_link c.previous ≡ true
      → (d.previous ≡ last_link c.previous events) × (is_link d.previous ≡ true)
  unfolding check_events last_link is_link
  check_events_previous c d [] h e l =
      let q = ap (λ (x : Check). x.previous) (ok-injective h) in (sym q, rw (← q) l)
  check_events_previous c d (x ∷ xs) h e l =
      let (c', first, rest) = >>=-eq-ok (check_event P c x) _ h in
      let (ids, seen, _, previous, _, errors) = check_event_parts c c' x first in
      let nothing = append-eq-nil c.errors _ (sym errors ∙ check_events_errors c' d xs rest e) in
      let linked = (check_links-eq-nil c x (append-eq-nil ids _ nothing.1).1).1 in
      rw (← previous) (check_events_previous c' d xs rest e (rw (previous, linked)))

  seen_cases :
      {r : Result Key} (k j : Key) (old : List Key) (message : String) (ids : List String)
      (seen : List Key)
      → ◌≡◌ {A = List String × List Key}
          (if any_of (key_eqb j) old then (message ∷ [], old) else ([], j ∷ old))
          (ids, seen)
      → any_of (key_eqb k) seen ≡ true
      → r ≡ ok j
      → (any_of (key_eqb k) old ≡ true) ⊎ (r ≡ ok k)
  unfolding any_of
  seen_cases k j old message ids seen e m own = ground (arith, key_eqb_iff k j)

  check_id_seen :
      (c : Check) (v : Value) (k : Key) (ids : List String) (seen : List Key)
      → check_id P c v ≡ ok (ids, seen)
      → any_of (key_eqb k) seen ≡ true
      → (any_of (key_eqb k) c.seen ≡ true) ⊎ (key_of v ≡ ok k)
  unfolding check_id any_of
  check_id_seen c v k ids seen h m = elim (Bool-cases (truthy v)) [
    | inl named ↦
        let (j, own, e) = >>=-eq-ok (key_of v) _ (rw named at h) in
        seen_cases k j c.seen _ ids seen (ok-injective e) m own
    | inr nameless ↦ inl (
        ap (λ (x : List String × List Key). any_of (key_eqb k) x.1)
          (ok-injective (rw nameless at h))
        ∙ m)
  ]

  -- An id that the loop has seen is the id of an event that it has passed.
  pub check_events_seen :
      (c d : Check) (events : List Fields) (v : Value) (k : Key)
      → key_of v ≡ ok k
      → check_events P c events ≡ ok d
      → any_of (key_eqb k) d.seen ≡ true
      → (any_of (key_eqb k) c.seen ≡ true)
        ⊎ (any_of (λ stored. py_eq (get stored "event_id") v) events ≡ true)
  unfolding check_events any_of
  check_events_seen c d [] v k own h m =
      inl (ap (λ (x : Check). any_of (key_eqb k) x.seen) (ok-injective h) ∙ m)
  check_events_seen c d (x ∷ xs) v k own h m =
      let (c', first, rest) = >>=-eq-ok (check_event P c x) _ h in
      let (ids, seen, e, _, same, _) = check_event_parts c c' x first in
      elim (check_events_seen c' d xs v k own rest m) [
        | inr later ↦ inr (ground arith)
        | inl before ↦ elim (check_id_seen c (get x "event_id") k ids seen e (rw same at before)) [
          | inl earlier ↦ inl earlier
          | inr here ↦
              inr (rw (py_eq-key_eqb (get x "event_id") v here own, (key_eqb_iff k k).1 refl))
        ]
      ]
