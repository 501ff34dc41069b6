-- ===== src/ActionEnvelope.antt =====
-- packages/shell_core/action_envelope.py: the envelope of an action that was allowed.
use gui_shell_public.Prelude.{true}
use gui_shell_public.Outcome.{Result, ok, ◌>>=◌, ◌>>◌}
use gui_shell_public.Platform.{Platform}
use gui_shell_public.Value.{str, bool, obj, Fields, end, field, get, index, subscript}
use gui_shell_public.Schema.Validation.{validate_contract}
use gui_shell_public.Hash.{canonical_hash}

module _ (P : Platform) (catalog : Fields) where
  -- `build_action_envelope` with its default envelope id, the only one in use.
  unfoldable pub build_action_envelope : Fields → Result Fields
  build_action_envelope action = do
    let payload = get action "payload"
    runtime_id ← index action "runtime_id"
    operation ← index action "operation"
    capability_id ← index action "capability_id"
    permission_id ← index action "permission_id"
    approval_id ← index action "approval_id"
    recovery_action ← index action "recovery_action"
    recovery_id ← subscript recovery_action "recovery_id"
    target_scope ← index action "target_scope"
    let envelope = field "envelope_id" (str "action-envelope-evaluated") (
        field "runtime_id" runtime_id (
          field "operation" operation (
            field "capability_id" capability_id (
              field "permission_id" permission_id (
                field "approval_id" approval_id (
                  field "recovery_id" recovery_id (
                    field "target_scope" target_scope (
                      field "payload_hash" (str (canonical_hash P payload)) (
                        field "authority_source" (str "broker_internal") (
                          field "audit_event_required" (bool true) (
                            field "metadata"
                              (obj (field "evidence_class" (str "INTERNAL_STATE") end))
                              end)))))))))))
    validate_contract P catalog envelope "action_envelope.schema.json"
    ok envelope
