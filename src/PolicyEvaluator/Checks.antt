-- ===== src/PolicyEvaluator/Checks.antt =====
-- The checks of `PolicyEvaluator.evaluate`, one for each part of the action: each gives the errors
-- that the source appends there.
pub mod Meets
use gui_shell_public.Prelude.{
  String, ◌<>◌, Bool, true, false, not, ◌||◌, ◌&&◌, List, [], ◌∷◌, ◌++◌, Option, none, some,
  if◌then◌else◌, any_of,
}
use gui_shell_public.Outcome.{Result, ok, ◌>>=◌}
use gui_shell_public.Platform.{Platform}
use gui_shell_public.Value.{
  Value, null, str, arr, obj, Items, Fields, end, has, get, get_or, truthy, is_null, is_true,
}
use gui_shell_public.Value.Equal.{py_eq, contains}
use gui_shell_public.Value.Text.{text_of}
use gui_shell_public.Store.{Key, none_key, text_key, key_of, key_eqb, lookup}
use gui_shell_public.Hash.{canonical_hash}
use gui_shell_public.ErrorTaxonomy.{
  ShellCoreError, shell_error, unknown_runtime, unknown_capability, unknown_permission,
  permission_denied, relation_mismatch, payload_hash_mismatch, approval_missing, approval_not_valid,
  audit_mapping_missing, recovery_mapping_missing, adapter_metadata_escalation_attempt,
  non_authority_source_attempt,
}
use gui_shell_public.Normalization.Inbound.{attempts_authority}
use gui_shell_public.PermissionLedger.{non_authority_sources}
use gui_shell_public.RuntimeState.{RuntimeState}

abbrev pub Errors : Type 0
Errors = List ShellCoreError

-- if test: errors.append(error)
unfoldable pub when : Bool → ShellCoreError → Errors
when test e = if test then e ∷ [] else []

-- operation = action.get("operation", "unknown")
unfoldable pub operation_of : Fields → Value
operation_of action = get_or action "operation" (str "unknown")

unfoldable pub has_payload : Fields → Bool
has_payload action =
    has action "payload" || has action "full_payload" || has action "redacted_payload"

-- for field in names: if left.get(field) != right.get(field)
unfoldable pub mismatches : Value → Fields → Fields → List String → String → Errors
mismatches operation left right [] label = []
mismatches operation left right (name ∷ names) label =
    when (not (py_eq (get left name) (get right name)))
      (shell_error relation_mismatch (label <> (" " <> (name <> " が要求 action と一致しません"))) operation)
    ++ mismatches operation left right names label

-- isinstance(operations, list) and operation not in operations
unfoldable pub excludes : Value → Value → Bool
excludes (arr operations) operation = not (contains operations operation)
excludes _ operation = false

-- decision in ALLOWED_PERMISSION_DECISIONS
unfoldable pub is_allowing : Value → Result Bool
is_allowing decision = do
  k ← key_of decision
  ok (any_of (key_eqb k) (text_key "allow" ∷ text_key "approved" ∷ []))

-- stored.get("action") in {None, operation}
unfoldable pub names_operation : Value → Value → Result Bool
names_operation stored_action operation = do
  o ← key_of operation
  k ← key_of stored_action
  ok (key_eqb k none_key || key_eqb k o)

module _ (P : Platform) (s : RuntimeState) (action : Fields) where
  raised : String → String → ShellCoreError
  raised code message = shell_error code message (operation_of action)

  abbrev text : Value → String
  text = text_of P.repr_str

  runtime_errors : Option Fields → Errors
  runtime_errors none =
      raised unknown_runtime ("未知の runtime です: " <> text (get action "runtime_id")) ∷ []
  runtime_errors (some runtime) = []

  unfoldable pub check_runtime : Result Errors
  unfolding runtime_errors raised
  check_runtime =
      if truthy (get action "runtime_id")
      then (do found ← lookup s.runtimes (get action "runtime_id"); ok (runtime_errors found))
      else ok (raised unknown_runtime "runtime_id は必須です" ∷ [])

  capability_errors : Option Fields → Errors
  capability_errors none =
      raised unknown_capability ("未知の capability です: " <> text (get action "capability_id")) ∷ []
  capability_errors (some capability) =
      when
        (truthy (get action "runtime_id")
          && not (py_eq (get capability "runtime_id") (get action "runtime_id")))
        (raised relation_mismatch "capability が要求された runtime に属していません")
      ++ when (excludes (get capability "operations") (operation_of action))
          (raised relation_mismatch "capability が要求操作を許可していません")

  unfoldable pub check_capability : Result Errors
  unfolding capability_errors raised when
  check_capability = do
    found ← lookup s.capabilities (get action "capability_id")
    ok (capability_errors found)

  permission_errors : Option Fields → Result Errors
  permission_errors none =
      ok (
        raised unknown_permission ("未知の permission です: " <> text (get action "permission_id")) ∷ [])
  permission_errors (some permission) = do
    allowing ← is_allowing (get permission "decision")
    ok (
        when (not allowing) (
          raised permission_denied
            ("permission 判定が allow または approved ではありません: " <> text (get permission "decision")))
        ++ (when
              (not (is_null (get action "capability_id"))
                && not (py_eq (get permission "capability_id") (get action "capability_id")))
              (raised permission_denied "permission が要求された capability を許可していません")
            ++ mismatches (operation_of action) action permission
                ("runtime_id" ∷ "operation" ∷ "target_scope" ∷ []) "permission"))

  unfoldable pub check_permission : Result Errors
  unfolding permission_errors raised when mismatches
  check_permission = do
    found ← lookup s.permissions (get action "permission_id")
    permission_errors found

  approval_errors : Option Fields → Errors
  approval_errors none =
      raised approval_missing ("未知の approval です: " <> text (get action "approval_id")) ∷ []
  approval_errors (some approval) =
      if py_eq (get approval "status") (str "approved")
      then mismatches (operation_of action) action approval
          ("runtime_id" ∷ "operation" ∷ "target_scope" ∷ []) "approval"
        ++ when
            (has_payload action
              && not (
                  py_eq (get approval "payload_hash")
                    (str (canonical_hash P (get action "payload")))))
            (raised payload_hash_mismatch "approval payload_hash が正規 action payload と一致しません")
      else raised approval_not_valid
          ("approval が approved ではありません: " <> text (get action "approval_id"))
        ∷ []

  unfoldable pub check_approval : Result Errors
  unfolding approval_errors raised when mismatches
  check_approval =
      if is_null (get action "approval_id")
      then ok (raised approval_missing "approval_id は必須です" ∷ [])
      else (do found ← lookup s.approvals (get action "approval_id"); ok (approval_errors found))

  -- What both payload hashes of an audit event are compared with.
  unfoldable pub expected_audit_hash : Fields → Value
  expected_audit_hash event =
      if has_payload action
      then str (canonical_hash P (get action "payload"))
      else get event "payload_hash"

  stored_audit_errors : Fields → Option Fields → Result Errors
  stored_audit_errors event none =
      ok (raised audit_mapping_missing "audit_event がbroker所有のaudit storeに存在しません" ∷ [])
  stored_audit_errors event (some stored) = do
    same ← names_operation (get stored "action") (operation_of action)
    ok (
        when
          (not (py_eq (get event "payload_hash") (expected_audit_hash event))
            || not (py_eq (get stored "payload_hash") (expected_audit_hash event)))
          (raised payload_hash_mismatch "audit payload_hash が正規 action payload と一致しません")
        ++ when (not same) (raised relation_mismatch "audit action が要求操作と一致しません"))

  -- The errors about the event itself, in front of those about the stored one.
  event_errors : Fields → Errors → Errors
  event_errors event stored =
      when (not (truthy (get event "event_id")))
        (raised audit_mapping_missing "audit_event.event_id は必須です")
      ++ (when (has_payload action && not (truthy (get event "payload_hash")))
            (raised audit_mapping_missing "payload がある場合は audit_event.payload_hash が必須です")
          ++ stored)

  audit_errors : Value → Result Errors
  audit_errors (obj event) = do
    found ← lookup s.audit_events (get event "event_id")
    stored ← stored_audit_errors event found
    ok (event_errors event stored)
  audit_errors _ = ok (raised audit_mapping_missing "audit_event は必須です" ∷ [])

  unfoldable pub check_audit : Result Errors
  unfolding audit_errors event_errors stored_audit_errors raised when
  check_audit = audit_errors (get action "audit_event")

  stored_recovery_errors : Value → Option Fields → Errors
  stored_recovery_errors recovery_id none =
      raised recovery_mapping_missing ("未知の recovery action です: " <> text recovery_id) ∷ []
  stored_recovery_errors recovery_id (some stored) =
      mismatches (operation_of action) stored action ("runtime_id" ∷ "operation" ∷ []) "recovery"

  recovery_errors : Value → Result Errors
  recovery_errors (obj recovery) =
      if truthy (get recovery "recovery_id")
      then (do
        found ← lookup s.recovery_actions (get recovery "recovery_id")
        ok (stored_recovery_errors (get recovery "recovery_id") found))
      else ok (raised recovery_mapping_missing "recovery_action.recovery_id は必須です" ∷ [])
  recovery_errors _ = ok (raised recovery_mapping_missing "recovery_action.recovery_id は必須です" ∷ [])

  unfoldable pub check_recovery : Result Errors
  unfolding recovery_errors stored_recovery_errors raised
  check_recovery = recovery_errors (get action "recovery_action")

  unfoldable pub check_metadata : Errors
  unfolding raised when
  check_metadata =
      when (attempts_authority P (get_or action "adapter_metadata" (obj end)))
        (raised adapter_metadata_escalation_attempt "adapter metadata が権限を主張しようとしました")

  -- The action claims this source, by its name or by a flag.
  unfoldable pub claims_source : String → Bool
  claims_source source =
      py_eq (get action "authority_source") (str source)
      || is_true (get action (source <> "_grants_authority"))

  sources_errors : List String → Errors
  sources_errors [] = []
  sources_errors (source ∷ sources) =
      when (claims_source source) (raised non_authority_source_attempt (source <> " は権限を与えられません"))
      ++ sources_errors sources

  unfoldable pub check_sources : Errors
  unfolding sources_errors raised when
  check_sources = sources_errors non_authority_sources
