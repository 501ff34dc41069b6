-- ===== src/PolicyEvaluator/Spec.antt =====
-- What the broker promises of an action that it allows, said over its tables: one relation between
-- the action and the runtime, capability, permission, approval, audit event and recovery action that
-- it names, and no authority from anywhere else.
use gui_shell_public.Prelude.{String, ◌<>◌, ◌≡◌, true, false, List, [], ◌∷◌, some, All}
use gui_shell_public.Outcome.{ok}
use gui_shell_public.Platform.{Platform}
use gui_shell_public.Value.{str, obj, Fields, end, get, get_or, truthy, is_null, is_true}
use gui_shell_public.Value.Equal.{py_eq}
use gui_shell_public.Store.{Table, lookup}
use gui_shell_public.Hash.{canonical_hash}
use gui_shell_public.Normalization.Strip.{strip_authority_keys}
use gui_shell_public.Normalization.Claims.{names_authority, grants_by_value}
use gui_shell_public.PermissionLedger.{non_authority_sources}
use gui_shell_public.RuntimeState.{RuntimeState}
use gui_shell_public.PolicyEvaluator.Checks.{
  operation_of, has_payload, excludes, is_allowing, names_operation, expected_audit_hash,
}

-- The two records hold equal values under each of the names.
abbrev pub Agree : Fields → Fields → List String → Type 0
Agree left right = All (λ name. py_eq (get left name) (get right name) ≡ true)

-- The table has this record under the action's value for `name`.
abbrev pub Names : Table → Fields → String → Fields → Type 0
Names table action name r = lookup table (get action name) ≡ ok (some r)

abbrev pub relation_fields : List String
relation_fields = "runtime_id" ∷ "operation" ∷ "target_scope" ∷ []

module _ (P : Platform) (s : RuntimeState) (action : Fields) where
  abbrev pub HasRuntime : Type 0
  HasRuntime =
      (runtime : Fields) × (truthy (get action "runtime_id") ≡ true)
      × Names s.runtimes action "runtime_id" runtime

  abbrev pub HasCapability : Type 0
  HasCapability =
      (capability : Fields) × Names s.capabilities action "capability_id" capability
      × (truthy (get action "runtime_id") ≡ true
          → py_eq (get capability "runtime_id") (get action "runtime_id") ≡ true)
      × (excludes (get capability "operations") (operation_of action) ≡ false)

  abbrev pub HasPermission : Type 0
  HasPermission =
      (permission : Fields) × Names s.permissions action "permission_id" permission
      × (is_allowing (get permission "decision") ≡ ok true)
      × (is_null (get action "capability_id") ≡ false
          → py_eq (get permission "capability_id") (get action "capability_id") ≡ true)
      × Agree action permission relation_fields

  abbrev pub HasApproval : Type 0
  HasApproval =
      (approval : Fields) × (is_null (get action "approval_id") ≡ false)
      × Names s.approvals action "approval_id" approval
      × (get approval "status" ≡ str "approved")
      × Agree action approval relation_fields
      × (has_payload action ≡ true
          → get approval "payload_hash" ≡ str (canonical_hash P (get action "payload")))

  abbrev pub HasAudit : Type 0
  HasAudit =
      (event : Fields) × (stored : Fields) × (get action "audit_event" ≡ obj event)
      × (truthy (get event "event_id") ≡ true)
      × (has_payload action ≡ true → truthy (get event "payload_hash") ≡ true)
      × Names s.audit_events event "event_id" stored
      × (py_eq (get event "payload_hash") (expected_audit_hash P s action event) ≡ true)
      × (py_eq (get stored "payload_hash") (expected_audit_hash P s action event) ≡ true)
      × (names_operation (get stored "action") (operation_of action) ≡ ok true)

  abbrev pub HasRecovery : Type 0
  HasRecovery =
      (recovery : Fields) × (stored : Fields) × (get action "recovery_action" ≡ obj recovery)
      × (truthy (get recovery "recovery_id") ≡ true)
      × Names s.recovery_actions recovery "recovery_id" stored
      × Agree stored action ("runtime_id" ∷ "operation" ∷ [])

  -- The adapter's metadata claims no authority, by its keys or by what they leave.
  abbrev pub HasCleanMetadata : Type 0
  HasCleanMetadata =
      let metadata = get_or action "adapter_metadata" (obj end) in
      (names_authority P metadata ≡ false)
      × (grants_by_value P (strip_authority_keys P metadata) ≡ false)

  -- No source without authority is named, or flagged as granting it.
  abbrev pub HasNoForeignSource : Type 0
  HasNoForeignSource =
      All
        (λ source.
          (py_eq (get action "authority_source") (str source) ≡ false)
          × (is_true (get action (source <> "_grants_authority")) ≡ false))
        non_authority_sources

  pub record IsAuthorized : Type 0 where
    pub runtime : HasRuntime
    pub capability : HasCapability
    pub permission : HasPermission
    pub approval : HasApproval
    pub audit : HasAudit
    pub recovery : HasRecovery
    pub metadata : HasCleanMetadata
    pub sources : HasNoForeignSource
