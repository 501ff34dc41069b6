-- ===== src/Tests/Tables.antt =====
-- The tables of the shell on single records: approvals, permissions, registries and the state.
use gui_shell_public.Prelude.{
  String, ◌≡◌, ◌≢◌, refl, Bool, true, false, List, [], ◌∷◌, ◌==◌, Option, none, some, inl,
  if◌then◌else◌,
}
use gui_shell_public.Outcome.{Result, ok, err}
use gui_shell_public.Value.{
  Value, bool, str, obj, arr, nil, Fields, end, dict, list, get, get_or, has, put,
}
use gui_shell_public.Store.{Key, text_key, Table, find}
use gui_shell_public.Hash.{canonical_hash}
use gui_shell_public.ApprovalQueue.{edit, set_of, member, protected_fields, protected_edit_fields}
use gui_shell_public.ApprovalQueue.Edits.{edit_revalidates, edit_keeps_rest, edit_only_editable}
use gui_shell_public.ContentExposure.{project_approval_content}
use gui_shell_public.ContentExposure.Exposure.{projection_shows}
use gui_shell_public.PermissionLedger.{record_permission, decision_for}
use gui_shell_public.PermissionLedger.Authority.{decision_for-record_permission}
use gui_shell_public.Registry.Keyed.{register_under}
use gui_shell_public.Registry.Signed.{
  IsTrusted, IsSigned, IsStripped, AllRecords, RequiresSignature, register_policy,
  register_policy-RequiresSignature, register_runtime_manifest, register_manifest-IsTrusted,
}
use gui_shell_public.Tests.World.{world}

abbrev approval : Fields
approval = dict (
    ("approval_id", str "approval-1")
    ∷ ("status", str "approved")
    ∷ ("content_visibility", str "redacted")
    ∷ ("full_payload", obj (dict (("path", str "notes/today.md") ∷ [])))
    ∷ ("editable_fields", list (str "path" ∷ []))
    ∷ ("sealed_fields", list (str "runtime_id" ∷ []))
    ∷ [])

abbrev queue : Table
queue = (text_key "approval-1", approval) ∷ []

queue_and : Result (Table × Fields) → Table × Fields
queue_and (ok x) = x
queue_and (err e) = ([], end)

after_edit : Table × Fields
after_edit = queue_and (edit world queue "approval-1" "path" (str "notes/new.md"))

editing : edit world queue "approval-1" "path" (str "notes/new.md") ≡ ok after_edit
unfolding after_edit edit gui_shell_public.ApprovalQueue.can_edit
    gui_shell_public.ApprovalQueue.get_approval find set_of
    gui_shell_public.Schema.Validation.iterate get_or gui_shell_public.Store.key_of member
    gui_shell_public.Prelude.any_of protected_fields protected_edit_fields
    gui_shell_public.ApprovalQueue.put_in queue_and world
editing = refl

edit_revalidates_example :
    (payload : Fields) × (find after_edit.0 (text_key "approval-1") ≡ some after_edit.1)
    × (get after_edit.1 "status" ≡ str "requires_validation")
    × (get after_edit.1 "full_payload" ≡ obj payload)
    × (get payload "path" ≡ str "notes/new.md")
    × (get after_edit.1 "payload_hash" ≡ str (canonical_hash world (obj payload)))
edit_revalidates_example =
    edit_revalidates world queue after_edit.0 "approval-1" "path" (str "notes/new.md")
      {approval = after_edit.1} editing

edit_keeps_rest_example :
    (old : Fields) × (find queue (text_key "approval-1") ≡ some old)
    × ((k : Key) → k ≢ text_key "approval-1" → find after_edit.0 k ≡ find queue k)
    × ((j : String)
        → j ≢ "full_payload"
        → j ≢ "payload_hash"
        → j ≢ "status"
        → get after_edit.1 j ≡ get old j)
edit_keeps_rest_example =
    edit_keeps_rest world queue after_edit.0 "approval-1" "path" (str "notes/new.md")
      {approval = after_edit.1} editing

edit_only_editable_example :
    (old : Fields) × (editable : List Key) × (protected : List Key) × (find queue
        (text_key "approval-1")
      ≡ some old)
    × (set_of (get_or old "editable_fields" (arr nil)) ≡ ok editable)
    × (member editable "path" ≡ true)
    × (protected_fields old ≡ ok protected)
    × (member protected "path" ≡ false)
    × (member protected_edit_fields "path" ≡ false)
edit_only_editable_example =
    edit_only_editable world queue after_edit.0 "approval-1" "path" (str "notes/new.md")
      {approval = after_edit.1} editing

abbrev shown : Fields
shown = dict (("redacted_payload", obj end) ∷ [])

projection_shows_example :
    (has shown "full_payload" ≡ true → get approval "content_visibility" ≡ str "full")
    × (has shown "redacted_payload" ≡ true → get approval "content_visibility" ≡ str "redacted")
unfolding project_approval_content gui_shell_public.Value.Equal.py_eq get get_or world
projection_shows_example = projection_shows world approval shown refl

abbrev permission : Fields
permission = dict (("permission_id", str "permission-1") ∷ ("decision", str "allow") ∷ [])

decision_for-record_permission_example :
    decision_for ((text_key "permission-1", permission) ∷ []) "permission-2" ≡ (
      if "permission-1" == "permission-2"
      then get_or permission "decision" (str "deny")
      else decision_for [] "permission-2")
unfolding record_permission gui_shell_public.Value.index gui_shell_public.Store.assign
    gui_shell_public.Store.key_of gui_shell_public.Store.set
decision_for-record_permission_example =
    decision_for-record_permission [] ((text_key "permission-1", permission) ∷ []) permission
      "permission-1" "permission-2" refl refl

abbrev runtime_record : Fields
runtime_record = dict (("name", str "local") ∷ ("runtime_id", str "runtime-1") ∷ [])

abbrev policy : Fields
policy = dict (("policy_id", str "policy-1") ∷ ("signature_required", bool true) ∷ [])

nothing_stored : (Q : Fields → Type 0) → AllRecords Q []
unfolding find
nothing_stored Q k r there = cc

register_policy-RequiresSignature_example :
    AllRecords RequiresSignature ((text_key "policy-1", policy) ∷ [])
unfolding register_policy get register_under gui_shell_public.Value.index
    gui_shell_public.Store.assign gui_shell_public.Store.key_of gui_shell_public.Store.set
register_policy-RequiresSignature_example =
    register_policy-RequiresSignature [] ((text_key "policy-1", policy) ∷ []) policy
      (nothing_stored RequiresSignature) refl

abbrev manifest : Fields
manifest = dict (("runtime_id", str "blue_tanuki") ∷ ("signed_manifest", bool true) ∷ [])

register_manifest-IsTrusted_example :
    IsTrusted (record { runtimes = (text_key "blue_tanuki", manifest) ∷ []; adapters = [] })
unfolding register_runtime_manifest get register_under gui_shell_public.Value.index
    gui_shell_public.Store.assign gui_shell_public.Store.key_of gui_shell_public.Store.set
register_manifest-IsTrusted_example =
    register_manifest-IsTrusted (record { runtimes = []; adapters = [] })
      (record { runtimes = (text_key "blue_tanuki", manifest) ∷ []; adapters = [] }) manifest
      (record {
        runtimes = nothing_stored IsSigned;
        adapters = nothing_stored (λ m. IsSigned m × IsStripped m);
      })
      (inl refl)
