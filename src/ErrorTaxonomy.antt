-- ===== src/ErrorTaxonomy.antt =====
-- packages/shell_core/error_taxonomy.py: the error codes, their recovery hints and the error record.
use gui_shell_public.Prelude.{String, Bool, true, Option, none, some, ◌==◌, if◌then◌else◌}
use gui_shell_public.Value.{Value, bool, str, obj, Fields, end, field}

abbrev pub unknown_runtime : String
unknown_runtime = "unknown_runtime"

abbrev pub unknown_capability : String
unknown_capability = "unknown_capability"

abbrev pub unknown_permission : String
unknown_permission = "unknown_permission"

abbrev pub permission_denied : String
permission_denied = "permission_denied"

abbrev pub relation_mismatch : String
relation_mismatch = "relation_mismatch"

abbrev pub payload_hash_mismatch : String
payload_hash_mismatch = "payload_hash_mismatch"

abbrev pub approval_missing : String
approval_missing = "approval_missing"

abbrev pub approval_not_valid : String
approval_not_valid = "approval_not_valid"

abbrev pub audit_mapping_missing : String
audit_mapping_missing = "audit_mapping_missing"

abbrev pub recovery_mapping_missing : String
recovery_mapping_missing = "recovery_mapping_missing"

abbrev pub content_visibility_violation : String
content_visibility_violation = "content_visibility_violation"

abbrev pub adapter_metadata_escalation_attempt : String
adapter_metadata_escalation_attempt = "adapter_metadata_escalation_attempt"

abbrev pub non_authority_source_attempt : String
non_authority_source_attempt = "non_authority_source_attempt"

abbrev pub update_signature_required : String
update_signature_required = "update_signature_required"

abbrev pub schema_contract_missing : String
schema_contract_missing = "schema_contract_missing"

-- RECOVERY_HINTS.get(code)
unfoldable pub hint_of : String → Option String
hint_of code =
    if code == unknown_runtime
    then some "この操作を route する前に runtime を登録してください。"
    else if code == unknown_capability
    then some "利用前に capability を Shell Core へ登録してください。"
    else if code == unknown_permission
    then some "利用前に明示的な permission 判定を記録してください。"
    else if code == permission_denied
    then some "権限源を通じて permission を要求または付与してください。"
    else if code == relation_mismatch
    then some
        "broker が所有する一つの action 関係から runtime、capability、permission、approval、recovery、target scope を解決してください。"
    else if code == payload_hash_mismatch
    then some "正規 payload hash を再計算し、approval/audit を送信 payload へ結び付けてください。"
    else if code == approval_missing
    then some "approval を作成し、approved 状態を待ってください。"
    else if code == approval_not_valid
    then some "現在の approval 要求を再検証または承認してください。"
    else if code == audit_mapping_missing
    then some "event_id と必要な payload_hash を持つ AuditEvent を付与してください。"
    else if code == recovery_mapping_missing
    then some "recovery_id を持つ RecoveryAction を付与してください。"
    else if code == content_visibility_violation
    then some "content_visibility に従って approval 内容を射影してください。"
    else if code == adapter_metadata_escalation_attempt
    then some "adapter metadata から権限主張を削除してください。"
    else if code == non_authority_source_attempt
    then some "権限源を利用してください。memory、cache、previous_state、local_ui_state は権限を与えられません。"
    else if code == update_signature_required
    then some "update 操作の前に有効な update 署名を必須にしてください。"
    else if code == schema_contract_missing
    then some "検証前に必要な schema 契約を読み込んでください。"
    else none

-- The `operation` is whatever the action holds under that key.
pub record ShellCoreError : Type 0 where
  pub code : String
  pub message : String
  pub operation : Value
  pub recoverable : Bool
  pub recovery_hint : Option String

-- The entry of the hint in front of no others: left out if it is missing or empty.
abbrev hint_field : Option String → Fields
hint_field none = end
hint_field (some hint) = if hint == "" then end else field "recovery_hint" (str hint) end

unfoldable pub to_dict : ShellCoreError → Value
to_dict e = obj (
    field "code" (str e.code) (
      field "message" (str e.message) (
        field "operation" e.operation
          (field "recoverable" (bool e.recoverable) (hint_field e.recovery_hint)))))

-- `shell_error` with the defaults of its keyword arguments, which is what its callers pass.
unfoldable pub shell_error : String → String → Value → ShellCoreError
shell_error code message operation = record {
  code = code;
  message = message;
  operation = operation;
  recoverable = true;
  recovery_hint = hint_of code;
}
