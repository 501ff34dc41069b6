-- ===== src/StateSnapshot.antt =====
-- packages/shell_core/state_snapshot.py and state_store.py: what the broker shows of its state, and the
-- file it is kept in.
pub mod Shown
use gui_shell_public.Prelude.{
  String, Bool, true, false, not, List, [], ◌∷◌, map, Option, none, some, any_of, length,
}
use gui_shell_public.Prelude.Int.{pos}
use gui_shell_public.Outcome.{Result, ok, err, value_error, ◌>>=◌}
use gui_shell_public.Platform.{Platform}
use gui_shell_public.Value.{
  Value, null, bool, num, str, arr, obj, Fields, dict, list, get, get_or, index, is_true,
}
use gui_shell_public.Value.Text.{json_dumps}
use gui_shell_public.Store.{Key, none_key, int_key, text_key, key_of, key_lt, Table}
use gui_shell_public.Registry.Keyed.{records}
use gui_shell_public.RuntimeState.{RuntimeState, pending_approvals}
use gui_shell_public.Installer.{Machine}
use gui_shell_public.InvariantEvaluator.{Repository, evaluate_invariants}

key_value : Key → Value
key_value none_key = null
key_value (int_key n) = num n
key_value (text_key s) = str s

-- values[item].get(key_name, item)
unfoldable pub sort_key : String → Key → Fields → Value
unfolding key_value
sort_key key_name k r = get_or r key_name (key_value k)

-- a < b on the values of ids; a list or a dict, which is no id of a stored record, is refused here
unfoldable pub value_lt : Value → Value → Result Bool
value_lt a b = do j ← key_of a; k ← key_of b; key_lt j k

unfoldable pub insert_value : String → Key → Fields → Table → Result Table
insert_value key_name k r [] = ok ((k, r) ∷ [])
insert_value key_name k r ((j, other) ∷ t) =
    let more = insert_value key_name k r t in
    value_lt (sort_key key_name j other) (sort_key key_name k r) >>= λ before. elim before [
      | true ↦ (do rest ← more; ok ((j, other) ∷ rest))
      | false ↦ ok ((k, r) ∷ (j, other) ∷ t)
    ]

unfoldable pub sorted_by : String → Table → Result Table
sorted_by key_name [] = ok []
sorted_by key_name ((k, r) ∷ t) = do rest ← sorted_by key_name t; insert_value key_name k r rest

-- `_sorted_values`
unfoldable pub sorted_values : Table → String → Result (List Fields)
sorted_values t key_name = do entries ← sorted_by key_name t; ok (records entries)

-- [record[key] for record in records]
unfoldable pub values_at : String → List Fields → Result (List Value)
values_at key [] = ok []
values_at key (r ∷ rs) = do v ← index r key; rest ← values_at key rs; ok (v ∷ rest)

-- audit_events[-1].get("event_hash") if audit_events else None
unfoldable pub newest_hash : List Fields → Value
newest_hash [] = null
newest_hash (event ∷ []) = get event "event_hash"
newest_hash (event ∷ next ∷ events) = newest_hash (next ∷ events)

unfoldable pub audit_summary : List Fields → Result Value
audit_summary events = do
  ids ← values_at "event_id" events
  ok (
      obj (
        dict (
          ("event_count", num (pos (length events)))
          ∷ ("event_ids", list ids)
          ∷ ("latest_event_hash", newest_hash events)
          ∷ [])))

unfoldable pub recovery_summary : List Fields → Result Value
recovery_summary actions = do
  ids ← values_at "recovery_id" actions
  ok (obj (dict (("action_count", num (pos (length actions))) ∷ ("recovery_ids", list ids) ∷ [])))

unfoldable pub is_unsigned : Fields → Bool
is_unsigned policy = not (is_true (get policy "signature_required"))

unfoldable pub update_summary : List Fields → Result Value
update_summary policies = do
  ids ← values_at "policy_id" policies
  ok (
      obj (
        dict (
          ("policy_count", num (pos (length policies)))
          ∷ ("policy_ids", list ids)
          ∷ ("signature_required", bool (not (any_of is_unsigned policies)))
          ∷ [])))

module _ (P : Platform) (R : Repository) (M : Machine) where
  unfoldable pub create_state_snapshot : RuntimeState → Result Fields
  create_state_snapshot state = do
    audit_events ← sorted_values state.audit_events "event_id"
    recovery_actions ← sorted_values state.recovery_actions "recovery_id"
    update_policies ← sorted_values state.update_policies "policy_id"
    runtimes ← sorted_values state.runtimes "runtime_id"
    adapters ← sorted_values state.adapters "adapter_id"
    permissions ← sorted_values state.permissions "permission_id"
    approvals ← pending_approvals state
    audit ← audit_summary audit_events
    recovery ← recovery_summary recovery_actions
    update ← update_summary update_policies
    flags ← evaluate_invariants P R M
    ok (
        dict (
          ("runtimes", list (map obj runtimes))
          ∷ ("adapters", list (map obj adapters))
          ∷ ("permissions", list (map obj permissions))
          ∷ ("pending_approvals", list (map obj approvals))
          ∷ ("audit_summary", audit)
          ∷ ("recovery_catalog_summary", recovery)
          ∷ ("update_policy_summary", update)
          ∷ ("invariant_flags", obj flags)
          ∷ []))

  unfoldable pub deterministic_snapshot_json : RuntimeState → Result String
  deterministic_snapshot_json state = do
    snapshot ← create_state_snapshot state
    ok (json_dumps (obj snapshot))

  -- `save_snapshot` of state_store.py: the text that it writes, and the snapshot; `indented` is
  -- json.dumps(v, sort_keys=True, indent=2)
  unfoldable pub save_snapshot : (Value → String) → RuntimeState → Result (String × Fields)
  save_snapshot indented state = do
    snapshot ← create_state_snapshot state
    ok (indented (obj snapshot), snapshot)

abbrev decoded : Option Value → Result Value
decoded none = err (value_error "")
decoded (some v) = ok v

-- `load_snapshot` of state_store.py, of the text of the file
unfoldable pub load_snapshot : Platform → String → Result Value
load_snapshot P text = decoded (P.json_loads text)
