-- ===== src/StateSnapshot/Shown.antt =====
-- packages/shell_core/state_snapshot.py: the snapshot against the tables.
use gui_shell_public.Prelude.{
  String, ◌≡◌, refl, sym, ap, ◌∙◌, Bool, true, ℕ, suc, ◌+◌, List, [], ◌∷◌, map, arith,
  if◌then◌else◌, length, Bool-cases, inl, inr,
}
use gui_shell_public.Prelude.Int.{pos}
use gui_shell_public.Outcome.{ok, >>=-eq-ok, ok-injective}
use gui_shell_public.Platform.{Platform}
use gui_shell_public.Value.{Value, num, obj, Fields, get, list}
use gui_shell_public.Store.{Key, Table}
use gui_shell_public.Registry.Keyed.{records}
use gui_shell_public.RuntimeState.{RuntimeState, pending_approvals}
use gui_shell_public.Installer.{Machine}
use gui_shell_public.InvariantEvaluator.{Repository, evaluate_invariants}
use gui_shell_public.StateSnapshot.{
  sort_key, value_lt, insert_value, sorted_by, sorted_values, audit_summary, recovery_summary,
  update_summary, values_at, create_state_snapshot,
}

-- How many of the records pass a test.
abbrev pub count : (Fields → Bool) → List Fields → ℕ
count test [] = 0
count test (r ∷ rs) = (if test r then 1 else 0) + count test rs

-- The same records, each as often.
abbrev pub IsSameRecords : List Fields → Table → Type 0
IsSameRecords rs t = (test : Fields → Bool) → count test rs ≡ count test (records t)

count-insert :
    (test : Fields → Bool) (key_name : String) (k : Key) (r : Fields) (t : Table) {out : Table}
    → insert_value key_name k r t ≡ ok out
    → count test (records out) ≡ (if test r then 1 else 0) + count test (records t)
unfolding insert_value records
count-insert test key_name k r [] h = sym (ap (λ u. count test (records u)) (ok-injective h))
count-insert test key_name k r ((j, other) ∷ t) h =
    let (before, decided, after) =
      >>=-eq-ok (value_lt (sort_key key_name j other) (sort_key key_name k r)) _ h in
    elim (Bool-cases before) [
      | inl behind ↦
          let (rest, inserted, ends) =
            >>=-eq-ok (insert_value key_name k r t) (λ u. ok ((j, other) ∷ u))
              (rw behind at after) in
          let here = sym (ap (λ u. count test (records u)) (ok-injective ends)) in
          omega (arith, here, count-insert test key_name k r t inserted)
      | inr front ↦ sym (ap (λ u. count test (records u)) (ok-injective (rw front at after)))
    ]

count-sorted :
    (test : Fields → Bool) (key_name : String) (t : Table) {out : Table}
    → sorted_by key_name t ≡ ok out
    → count test (records out) ≡ count test (records t)
unfolding sorted_by records
count-sorted test key_name [] h = sym (ap (λ u. count test (records u)) (ok-injective h))
count-sorted test key_name ((k, r) ∷ t) h =
    let (rest, sorts, inserted) = >>=-eq-ok (sorted_by key_name t) _ h in
    omega (arith, count-insert test key_name k r rest inserted, count-sorted test key_name t sorts)

sorted_values-IsSameRecords :
    (t : Table) (key_name : String) {rs : List Fields}
    → sorted_values t key_name ≡ ok rs
    → IsSameRecords rs t
unfolding sorted_values
sorted_values-IsSameRecords t key_name h test =
    let (entries, sorts, ends) = >>=-eq-ok (sorted_by key_name t) _ h in
    sym (ap (count test) (ok-injective ends)) ∙ count-sorted test key_name t sorts

-- A count of every record is the length.
count-all : (rs : List Fields) → count (λ r. true) rs ≡ length rs
count-all [] = refl
count-all (r ∷ rs) = omega (arith, count-all rs)

length-records : (t : Table) → length (records t) ≡ length t
unfolding records
length-records [] = refl
length-records ((k, r) ∷ t) = ap suc (length-records t)

-- The same records are as many.
length-sorted : (rs : List Fields) (t : Table) → IsSameRecords rs t → length rs ≡ length t
length-sorted rs t same =
    sym (count-all rs) ∙ (same (λ r. true) ∙ (count-all (records t) ∙ length-records t))

audit_summary-counts :
    (events : List Fields) {audit : Value}
    → audit_summary events ≡ ok audit
    → (summary : Fields) × (audit ≡ obj summary)
      × (get summary "event_count" ≡ num (pos (length events)))
unfolding audit_summary get
audit_summary-counts events h =
    let (ids, named, ends) = >>=-eq-ok (values_at "event_id" events) _ h in
    (_, sym (ok-injective ends), refl)

-- A snapshot shows each runtime, adapter and permission of the state as often as it is registered, and
-- no other; the audit summary counts the audit events.
pub create_state_snapshot-shows :
    (P : Platform) (R : Repository) (M : Machine) (s : RuntimeState) {snapshot : Fields}
    → create_state_snapshot P R M s ≡ ok snapshot
    → (runtimes adapters permissions : List Fields) × (summary : Fields) × (get snapshot "runtimes"
        ≡ list (map obj runtimes))
      × IsSameRecords runtimes s.runtimes
      × (get snapshot "adapters" ≡ list (map obj adapters))
      × IsSameRecords adapters s.adapters
      × (get snapshot "permissions" ≡ list (map obj permissions))
      × IsSameRecords permissions s.permissions
      × (get snapshot "audit_summary" ≡ obj summary)
      × (get summary "event_count" ≡ num (pos (length s.audit_events)))
unfolding create_state_snapshot get
create_state_snapshot-shows P R M s h =
    let (events, e, h1) = >>=-eq-ok (sorted_values s.audit_events "event_id") _ h in
    let (actions, a, h2) = >>=-eq-ok (sorted_values s.recovery_actions "recovery_id") _ h1 in
    let (policies, u, h3) = >>=-eq-ok (sorted_values s.update_policies "policy_id") _ h2 in
    let (runtimes, r, h4) = >>=-eq-ok (sorted_values s.runtimes "runtime_id") _ h3 in
    let (adapters, d, h5) = >>=-eq-ok (sorted_values s.adapters "adapter_id") _ h4 in
    let (permissions, p, h6) = >>=-eq-ok (sorted_values s.permissions "permission_id") _ h5 in
    let (approvals, w, h7) = >>=-eq-ok (pending_approvals s) _ h6 in
    let (audit, audited, h8) = >>=-eq-ok (audit_summary events) _ h7 in
    let (recovery, c, h9) = >>=-eq-ok (recovery_summary actions) _ h8 in
    let (update, q, h10) = >>=-eq-ok (update_summary policies) _ h9 in
    let (flags, f, ends) = >>=-eq-ok (evaluate_invariants P R M) _ h10 in
    let shown = ok-injective ends in
    let (summary, is_summary, counted) = audit_summary-counts events audited in
    (
      runtimes,
      adapters,
      permissions,
      summary,
      sym (ap (λ x. get x "runtimes") shown),
      sorted_values-IsSameRecords s.runtimes "runtime_id" r,
      sym (ap (λ x. get x "adapters") shown),
      sorted_values-IsSameRecords s.adapters "adapter_id" d,
      sym (ap (λ x. get x "permissions") shown),
      sorted_values-IsSameRecords s.permissions "permission_id" p,
      sym (ap (λ x. get x "audit_summary") shown) ∙ is_summary,
      counted
          ∙ ap (λ n. num (pos n))
              (length-sorted events s.audit_events
                (sorted_values-IsSameRecords s.audit_events "event_id" e)),
    )
