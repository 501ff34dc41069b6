-- ===== src/RuntimeState/Registered.antt =====
-- What the tables hold in every state that the registration methods can reach.
use gui_shell_public.Prelude.{
  String, ◌≡◌, refl, sym, true, not, Option, none, some, arith, inl, inr,
}
use gui_shell_public.Outcome.{ok, ◌>>=◌, >>=-eq-ok, guard, guard-eq-ok, ok-injective}
use gui_shell_public.Platform.{Platform}
use gui_shell_public.Value.{Fields, get, index}
use gui_shell_public.Value.Laws.{index-get}
use gui_shell_public.Store.{Key, key_of, Table, find, set, assign}
use gui_shell_public.Store.Laws.{find-set, key_eqb_iff, find-set_cases}
use gui_shell_public.Schema.Validation.{validate_contract}
use gui_shell_public.AdapterLoader.{load_adapter}
use gui_shell_public.RuntimeState.{
  RuntimeState, new_state, adapter_entry, is_some, admit, register_runtime, register_adapter,
  register_capability, record_permission, enqueue_approval, append_audit_event,
  register_recovery_action, register_update_policy,
}

not_found : (o : Option Fields) → not (is_some o) ≡ true → o ≡ none
unfolding is_some
not_found none h = refl
not_found (some r) h = cc

module _ (P : Platform) (catalog : Fields) where
  -- Every record of the table has passed this schema and stands under its own id.
  abbrev pub IsAdmitted : String → String → Table → Type 0
  IsAdmitted schema_name id_field table =
      (k : Key) (r : Fields)
      → find table k ≡ some r
      → (validate_contract P catalog r schema_name ≡ ok tt) × (key_of (get r id_field) ≡ ok k)

  IsAdmitted-set :
      (schema_name id_field : String) (t : Table) (k : Key) (r : Fields)
      → IsAdmitted schema_name id_field t
      → validate_contract P catalog r schema_name ≡ ok tt
      → key_of (get r id_field) ≡ ok k
      → IsAdmitted schema_name id_field (set t k r)
  IsAdmitted-set schema_name id_field t k r before valid own j q h =
      elim (find-set_cases t k j r h) [
        | inl (same, new) ↦ rw (same, new) (valid, own)
        | inr old ↦ before j q old
      ]

  admit-IsAdmitted :
      (schema_name id_field : String) (t u : Table) (r : Fields)
      → IsAdmitted schema_name id_field t
      → admit P catalog schema_name id_field t r ≡ ok u
      → IsAdmitted schema_name id_field u
  unfolding admit assign
  admit-IsAdmitted schema_name id_field t u r before h =
      let (valid, checked, h1) = >>=-eq-ok (validate_contract P catalog r schema_name) _ h in
      let (id, own, h2) = >>=-eq-ok (index r id_field) _ h1 in
      let (k, hashed, h3) = >>=-eq-ok (key_of id) _ h2 in
      rw (← ok-injective h3) (
        IsAdmitted-set schema_name id_field t k r before checked
          (rw (index-get r id_field id own) hashed))

  -- The tables of a state, apart from the adapters', whose entries the state builds itself.
  pub record IsSound (s : RuntimeState) : Type 0 where
    pub runtimes : IsAdmitted "runtime.schema.json" "runtime_id" s.runtimes
    pub capabilities : IsAdmitted "capability.schema.json" "capability_id" s.capabilities
    pub permissions : IsAdmitted "permission.schema.json" "permission_id" s.permissions
    pub approvals : IsAdmitted "approval.schema.json" "approval_id" s.approvals
    pub audit_events : IsAdmitted "audit.schema.json" "event_id" s.audit_events
    pub recovery_actions : IsAdmitted "recovery.schema.json" "recovery_id" s.recovery_actions
    pub update_policies : IsAdmitted "update.schema.json" "policy_id" s.update_policies

  -- One call of a registration method that returned.
  pub data Step (s t : RuntimeState) : Type 0 where
    runtime : (r : Fields) → register_runtime P catalog s r ≡ ok t → Step s t
    adapter : (r : Fields) → register_adapter P catalog s r ≡ ok t → Step s t
    capability : (r : Fields) → register_capability P catalog s r ≡ ok t → Step s t
    permission : (r : Fields) → record_permission P catalog s r ≡ ok t → Step s t
    approval : (r : Fields) → enqueue_approval P catalog s r ≡ ok t → Step s t
    audit_event : (r : Fields) → append_audit_event P catalog s r ≡ ok t → Step s t
    recovery_action : (r : Fields) → register_recovery_action P catalog s r ≡ ok t → Step s t
    update_policy : (r : Fields) → register_update_policy P catalog s r ≡ ok t → Step s t

  pub data Reach : RuntimeState → Type 0 where
    started : Reach new_state
    and_then : {s t : RuntimeState} → Reach s → Step s t → Reach t

  -- A method that admits a record to one table.
  admitted :
      (schema_name id_field : String) (t : Table) (r : Fields) (f : Table → RuntimeState)
      {s' : RuntimeState}
      → IsAdmitted schema_name id_field t
      → (admit P catalog schema_name id_field t r >>= λ u. ok (f u)) ≡ ok s'
      → (u : Table) × IsAdmitted schema_name id_field u × (f u ≡ s')
  admitted schema_name id_field t r f before h =
      let (u, e, same) = >>=-eq-ok (admit P catalog schema_name id_field t r) _ h in
      (u, admit-IsAdmitted schema_name id_field t u r before e, ok-injective same)

  -- What `append_audit_event` has done if it returned.
  audit_appended :
      (s t : RuntimeState) (r : Fields)
      → append_audit_event P catalog s r ≡ ok t
      → (k : Key) × (validate_contract P catalog r "audit.schema.json" ≡ ok tt)
        × (key_of (get r "event_id") ≡ ok k)
        × (find s.audit_events k ≡ none)
        × (t ≡ record s { audit_events = set s.audit_events k r })
  unfolding append_audit_event
  audit_appended s t r h =
      let (valid, checked, h1) =
        >>=-eq-ok (validate_contract P catalog r "audit.schema.json") _ h in
      let (id, own, h2) = >>=-eq-ok (index r "event_id") _ h1 in
      let (k, hashed, h3) = >>=-eq-ok (key_of id) _ h2 in
      let (u, fresh, h4) = >>=-eq-ok (guard (not (is_some (find s.audit_events k))) _) _ h3 in
      (
        k,
        checked,
        rw (index-get r "event_id" id own) hashed,
        not_found (find s.audit_events k) (guard-eq-ok _ _ fresh),
        sym (ok-injective h4),
      )

  adapter_added :
      (s t : RuntimeState) (r : Fields)
      → register_adapter P catalog s r ≡ ok t
      → (u : Table) × (t ≡ record s { adapters = u })
  unfolding register_adapter assign
  adapter_added s t r h =
      let (valid, checked, h1) =
        >>=-eq-ok (validate_contract P catalog r "adapter.schema.json") _ h in
      let (a, loaded, h2) = >>=-eq-ok (load_adapter P r) _ h1 in
      let (u, e, h3) = >>=-eq-ok (assign s.adapters a.adapter_id (adapter_entry a)) _ h2 in
      (u, sym (ok-injective h3))

  Step-IsSound : {s t : RuntimeState} → Step s t → IsSound s → IsSound t
  unfolding register_runtime register_capability record_permission enqueue_approval
      register_recovery_action register_update_policy register_adapter
  Step-IsSound {s} (runtime r h) i =
      let (u, new, same) =
        admitted "runtime.schema.json" "runtime_id" s.runtimes r _ i.runtimes h in
      rw (← same) (assumption new)
  Step-IsSound {s} (capability r h) i =
      let (u, new, same) =
        admitted "capability.schema.json" "capability_id" s.capabilities r _ i.capabilities h in
      rw (← same) (assumption new)
  Step-IsSound {s} (permission r h) i =
      let (u, new, same) =
        admitted "permission.schema.json" "permission_id" s.permissions r _ i.permissions h in
      rw (← same) (assumption new)
  Step-IsSound {s} (approval r h) i =
      let (u, new, same) =
        admitted "approval.schema.json" "approval_id" s.approvals r _ i.approvals h in
      rw (← same) (assumption new)
  Step-IsSound {s} (recovery_action r h) i =
      let (u, new, same) =
        admitted "recovery.schema.json" "recovery_id" s.recovery_actions r _ i.recovery_actions h in
      rw (← same) (assumption new)
  Step-IsSound {s} (update_policy r h) i =
      let (u, new, same) =
        admitted "update.schema.json" "policy_id" s.update_policies r _ i.update_policies h in
      rw (← same) (assumption new)
  Step-IsSound {s} {t} (audit_event r h) i =
      let (k, valid, own, fresh, same) = audit_appended s t r h in
      let new =
        IsAdmitted-set "audit.schema.json" "event_id" s.audit_events k r i.audit_events valid own in
      rw same (assumption new)
  Step-IsSound {s} {t} (adapter r h) i =
      let (u, same) = adapter_added s t r h in rw same (assumption)

  IsSound-new : IsSound new_state
  unfolding find
  IsSound-new = record {
    runtimes = λ k r e. cc;
    capabilities = λ k r e. cc;
    permissions = λ k r e. cc;
    approvals = λ k r e. cc;
    audit_events = λ k r e. cc;
    recovery_actions = λ k r e. cc;
    update_policies = λ k r e. cc;
  }

  -- In every state that registrations reach from the empty one, each stored runtime, capability,
  -- permission, approval, audit event, recovery action and update policy has passed its own schema
  -- and stands under the key of its own id.
  pub Reach-IsSound : {s : RuntimeState} → Reach s → IsSound s
  Reach-IsSound started = IsSound-new
  Reach-IsSound (and_then r step) = Step-IsSound step (Reach-IsSound r)

  -- No registration changes or removes an audit event that is stored.
  pub Step-keeps_audit :
      {s t : RuntimeState} (k : Key) (event : Fields)
      → Step s t
      → find s.audit_events k ≡ some event
      → find t.audit_events k ≡ some event
  unfolding register_runtime register_capability record_permission enqueue_approval
      register_recovery_action register_update_policy
  Step-keeps_audit {s} {t} k event (audit_event r h) e =
      let (j, valid, own, fresh, same) = audit_appended s t r h in
      rw (same, find-set) (ground (arith, key_eqb_iff j k))
  Step-keeps_audit {s} {t} k event (adapter r h) e =
      let (u, same) = adapter_added s t r h in rw same e
  Step-keeps_audit {s} {t} k event (runtime r h) e = ground arith
  Step-keeps_audit {s} {t} k event (capability r h) e = ground arith
  Step-keeps_audit {s} {t} k event (permission r h) e = ground arith
  Step-keeps_audit {s} {t} k event (approval r h) e = ground arith
  Step-keeps_audit {s} {t} k event (recovery_action r h) e = ground arith
  Step-keeps_audit {s} {t} k event (update_policy r h) e = ground arith
