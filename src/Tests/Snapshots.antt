-- ===== src/Tests/Snapshots.antt =====
-- The snapshot of a state with two runtimes, registered in the order of their ids reversed.
use gui_shell_public.Prelude.{String, ◌≡◌, refl, Bool, true, false, List, [], ◌∷◌, map, length}
use gui_shell_public.Prelude.Int.{pos}
use gui_shell_public.Outcome.{Result, ok, err}
use gui_shell_public.Value.{Value, num, str, obj, Fields, end, dict, list, get}
use gui_shell_public.Store.{text_key}
use gui_shell_public.RuntimeState.{RuntimeState, new_state}
use gui_shell_public.StateSnapshot.{sorted_values, create_state_snapshot}
use gui_shell_public.StateSnapshot.Shown.{IsSameRecords, create_state_snapshot-shows}
use gui_shell_public.Tests.World.{world}
use gui_shell_public.Tests.Machines.{machine, repository}

abbrev runtime : String → Fields
runtime id = dict (("runtime_id", str id) ∷ [])

abbrev state : RuntimeState
state = record new_state {
  runtimes = (text_key "b", runtime "b") ∷ (text_key "a", runtime "a") ∷ [];
}

in_order : sorted_values state.runtimes "runtime_id" ≡ ok (runtime "a" ∷ runtime "b" ∷ [])
unfolding sorted_values gui_shell_public.StateSnapshot.sorted_by
    gui_shell_public.StateSnapshot.insert_value gui_shell_public.StateSnapshot.value_lt
    gui_shell_public.Store.key_of gui_shell_public.StateSnapshot.sort_key
    gui_shell_public.Value.get_or gui_shell_public.Store.key_lt gui_shell_public.Prelude.text_lt
    gui_shell_public.Registry.Keyed.records
in_order = refl

fields_of : Result Fields → Fields
fields_of (ok snapshot) = snapshot
fields_of (err e) = end

snapshot : Fields
snapshot = fields_of (create_state_snapshot world repository machine state)

snapshot_runs : create_state_snapshot world repository machine state ≡ ok snapshot
unfolding snapshot fields_of create_state_snapshot sorted_values
    gui_shell_public.StateSnapshot.sorted_by gui_shell_public.StateSnapshot.insert_value
    gui_shell_public.StateSnapshot.value_lt gui_shell_public.Store.key_of
    gui_shell_public.StateSnapshot.sort_key gui_shell_public.Value.get_or
    gui_shell_public.Store.key_lt gui_shell_public.Prelude.text_lt
    gui_shell_public.RuntimeState.pending_approvals gui_shell_public.Store.sorted_entries
    gui_shell_public.StateSnapshot.audit_summary gui_shell_public.StateSnapshot.values_at
    gui_shell_public.Registry.Keyed.records gui_shell_public.StateSnapshot.recovery_summary
    gui_shell_public.StateSnapshot.update_summary
    gui_shell_public.InvariantEvaluator.evaluate_invariants world
    gui_shell_public.InvariantEvaluator.adapter_metadata_can_escalate_authority
    gui_shell_public.AdapterLoader.load_adapter gui_shell_public.Value.index
    gui_shell_public.Schema.Validation.iterate
    gui_shell_public.Normalization.Findings.authority_values_in
    gui_shell_public.Normalization.Strip.strip_authority_keys
    gui_shell_public.Normalization.Keys.canonical_authority_key
    gui_shell_public.Normalization.Keys.normalize_key gui_shell_public.Value.put
    gui_shell_public.Normalization.Keys.is_authority_value
    gui_shell_public.InvariantEvaluator.full_payload_projected_without_full_visibility
    gui_shell_public.ContentExposure.project_approval_content gui_shell_public.Value.Equal.py_eq
snapshot_runs = refl

create_state_snapshot-shows_example :
    (runtimes adapters permissions : List Fields) × (summary : Fields) × (get snapshot "runtimes"
      ≡ list (map obj runtimes))
    × IsSameRecords runtimes state.runtimes
    × (get snapshot "adapters" ≡ list (map obj adapters))
    × IsSameRecords adapters state.adapters
    × (get snapshot "permissions" ≡ list (map obj permissions))
    × IsSameRecords permissions state.permissions
    × (get snapshot "audit_summary" ≡ obj summary)
    × (get summary "event_count" ≡ num (pos (length state.audit_events)))
create_state_snapshot-shows_example =
    create_state_snapshot-shows world repository machine state snapshot_runs
