-- ===== src/RuntimeState.antt =====
-- packages/shell_core/runtime_state.py: the tables of the broker. A record enters one only if it
-- passes the schema of its kind; `catalog` is what `load_default_catalog()` loads.
pub mod Registered
use gui_shell_public.Prelude.{
  String, ◌<>◌, Bool, true, false, List, [], ◌∷◌, Option, none, some, any_of, not, if◌then◌else◌,
}
use gui_shell_public.Outcome.{Result, ok, err, value_error, guard, ◌>>=◌, ◌>>◌}
use gui_shell_public.Platform.{Platform}
use gui_shell_public.Value.{Value, str, bool, arr, obj, Fields, end, field, get, index}
use gui_shell_public.Value.Text.{text_of}
use gui_shell_public.Store.{
  Key, text_key, key_of, key_eqb, Table, find, set, lookup, assign, sorted_entries,
}
use gui_shell_public.Schema.Validation.{validate_contract}
use gui_shell_public.AdapterLoader.{AdapterRecord, load_adapter}

pub record RuntimeState : Type 0 where
  pub runtimes : Table
  pub adapters : Table
  pub capabilities : Table
  pub permissions : Table
  pub approvals : Table
  pub audit_events : Table
  pub recovery_actions : Table
  pub update_policies : Table

-- RuntimeState()
abbrev pub new_state : RuntimeState
new_state = record {
  runtimes = [];
  adapters = [];
  capabilities = [];
  permissions = [];
  approvals = [];
  audit_events = [];
  recovery_actions = [];
  update_policies = [];
}

-- What `register_adapter` stores of an adapter.
unfoldable pub adapter_entry : AdapterRecord → Fields
adapter_entry a = field "adapter_id" a.adapter_id (
    field "runtime_id" a.runtime_id (
      field "contract_version" a.contract_version (
        field "transport" a.transport (
          field "authority_strip" (bool true) (
            field "declared_capabilities" (arr a.declared_capabilities)
              (field "metadata" a.metadata end))))))

is_some : Option Fields → Bool
is_some none = false
is_some (some r) = true

module _ (P : Platform) (catalog : Fields) where
  -- The table with a record that passed its schema, under the record's own id.
  unfoldable pub admit : String → String → Table → Fields → Result Table
  admit schema_name id_field table contract = do
    validate_contract P catalog contract schema_name
    id ← index contract id_field
    assign table id contract

  unfoldable pub register_runtime : RuntimeState → Fields → Result RuntimeState
  register_runtime s runtime = do
    t ← admit "runtime.schema.json" "runtime_id" s.runtimes runtime
    ok (record s { runtimes = t })

  unfoldable pub register_adapter : RuntimeState → Fields → Result RuntimeState
  register_adapter s adapter = do
    validate_contract P catalog adapter "adapter.schema.json"
    a ← load_adapter P adapter
    t ← assign s.adapters a.adapter_id (adapter_entry a)
    ok (record s { adapters = t })

  unfoldable pub register_capability : RuntimeState → Fields → Result RuntimeState
  register_capability s capability = do
    t ← admit "capability.schema.json" "capability_id" s.capabilities capability
    ok (record s { capabilities = t })

  unfoldable pub record_permission : RuntimeState → Fields → Result RuntimeState
  record_permission s permission = do
    t ← admit "permission.schema.json" "permission_id" s.permissions permission
    ok (record s { permissions = t })

  unfoldable pub enqueue_approval : RuntimeState → Fields → Result RuntimeState
  enqueue_approval s approval = do
    t ← admit "approval.schema.json" "approval_id" s.approvals approval
    ok (record s { approvals = t })

  unfoldable pub append_audit_event : RuntimeState → Fields → Result RuntimeState
  unfolding is_some
  append_audit_event s event = do
    validate_contract P catalog event "audit.schema.json"
    event_id ← index event "event_id"
    k ← key_of event_id
    guard (not (is_some (find s.audit_events k)))
        (value_error ("重複した audit event_id です: " <> text_of P.repr_str event_id))
    ok (record s { audit_events = set s.audit_events k event })

  unfoldable pub register_recovery_action : RuntimeState → Fields → Result RuntimeState
  register_recovery_action s recovery_action = do
    t ← admit "recovery.schema.json" "recovery_id" s.recovery_actions recovery_action
    ok (record s { recovery_actions = t })

  unfoldable pub register_update_policy : RuntimeState → Fields → Result RuntimeState
  register_update_policy s update_policy = do
    t ← admit "update.schema.json" "policy_id" s.update_policies update_policy
    ok (record s { update_policies = t })

-- status in {"pending", "requires_validation"}
unfoldable pub waits : Fields → Result Bool
waits approval = do
  k ← key_of (get approval "status")
  ok (any_of (key_eqb k) (text_key "pending" ∷ text_key "requires_validation" ∷ []))

waiting : Table → Result (List Fields)
waiting [] = ok []
waiting ((k, approval) ∷ t) = do
  w ← waits approval
  rest ← waiting t
  ok (if w then approval ∷ rest else rest)

unfoldable pub pending_approvals : RuntimeState → Result (List Fields)
unfolding waiting
pending_approvals s = do entries ← sorted_entries s.approvals; waiting entries

-- A deep copy; a model's values cannot be changed through another name.
unfoldable pub clone : RuntimeState → RuntimeState
clone s = record {
  runtimes = s.runtimes;
  adapters = s.adapters;
  capabilities = s.capabilities;
  permissions = s.permissions;
  approvals = s.approvals;
  audit_events = s.audit_events;
  recovery_actions = s.recovery_actions;
  update_policies = s.update_policies;
}
