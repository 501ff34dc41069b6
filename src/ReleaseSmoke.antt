-- ===== src/ReleaseSmoke.antt =====
-- packages/shell_core/release_smoke.py: the reference state and the reference action.
use gui_shell_public.Prelude.{true, [], ◌∷◌}
use gui_shell_public.Outcome.{Result, ◌>>=◌}
use gui_shell_public.Platform.{Platform}
use gui_shell_public.Value.{Value, null, bool, str, obj, Fields, dict, list}
use gui_shell_public.Hash.{canonical_hash}
use gui_shell_public.RuntimeState.{
  RuntimeState, new_state, register_runtime, register_adapter, register_capability,
  record_permission, enqueue_approval, append_audit_event, register_recovery_action,
}

abbrev pub reference_payload : Value
reference_payload = obj (dict (("path", str "notes/today.md") ∷ ("content", str "hello") ∷ []))

abbrev pub reference_runtime : Fields
reference_runtime = dict (
    ("runtime_id", str "blue_tanuki")
    ∷ ("name", str "BLUE-TANUKI")
    ∷ ("kind", str "reference_runtime")
    ∷ ("status", str "ready")
    ∷ ("adapter_id", str "blue_tanuki_reference")
    ∷ [])

abbrev pub reference_adapter : Fields
reference_adapter = dict (
    ("adapter_id", str "blue_tanuki_reference")
    ∷ ("runtime_id", str "blue_tanuki")
    ∷ ("contract_version", str "v1.0")
    ∷ ("transport", str "mock")
    ∷ ("authority_strip", bool true)
    ∷ ("declared_capabilities", list (str "filesystem.write" ∷ []))
    ∷ [])

abbrev pub reference_capability : Fields
reference_capability = dict (
    ("capability_id", str "filesystem.write")
    ∷ ("runtime_id", str "blue_tanuki")
    ∷ ("name", str "ファイルシステム書込み")
    ∷ ("risk_level", str "high")
    ∷ ("default_permission", str "ask")
    ∷ ("requires_approval", bool true)
    ∷ ("operations", list (str "filesystem.write" ∷ []))
    ∷ [])

abbrev pub reference_permission : Fields
reference_permission = dict (
    ("permission_id", str "permission.fs.write.workspace")
    ∷ ("runtime_id", str "blue_tanuki")
    ∷ ("capability_id", str "filesystem.write")
    ∷ ("operation", str "filesystem.write")
    ∷ ("target_scope", str "workspace")
    ∷ ("scope", str "target")
    ∷ ("decision", str "allow")
    ∷ ("source", str "policy")
    ∷ ("expires_at", null)
    ∷ ("constraints", obj (dict (("root", str "workspace") ∷ [])))
    ∷ [])

abbrev pub reference_recovery : Fields
reference_recovery = dict (
    ("recovery_id", str "recover-1")
    ∷ ("runtime_id", str "blue_tanuki")
    ∷ ("operation", str "filesystem.write")
    ∷ ("class", str "permission_denied")
    ∷ ("severity", str "warning")
    ∷ ("safe_to_retry", bool true)
    ∷ ("user_visible_message", str "この action を実行する前に permission が必要です。")
    ∷ [])

module _ (P : Platform) where
  abbrev pub reference_hash : Value
  reference_hash = str (canonical_hash P reference_payload)

  abbrev pub reference_approval : Fields
  reference_approval = dict (
      ("approval_id", str "approval-1")
      ∷ ("runtime_id", str "blue_tanuki")
      ∷ ("operation", str "filesystem.write")
      ∷ ("target_scope", str "workspace")
      ∷ ("status", str "approved")
      ∷ ("content_visibility", str "redacted")
      ∷ ("payload_hash", reference_hash)
      ∷ ("full_payload", reference_payload)
      ∷ (
        "redacted_payload",
        obj (dict (("path", str "notes/today.md") ∷ ("content", str "[redacted]") ∷ [])),
      )
      ∷ ("editable_fields", list (str "path" ∷ []))
      ∷ ("authority_fields", list (str "permission_id" ∷ []))
      ∷ ("sealed_fields", list (str "runtime_id" ∷ []))
      ∷ ("hidden_fields", list (str "credential" ∷ []))
      ∷ ("sacred_fields", list (str "authority_context" ∷ []))
      ∷ [])

  abbrev pub reference_audit : Fields
  reference_audit = dict (
      ("event_id", str "audit-1")
      ∷ ("timestamp", str "2026-06-05T00:00:00Z")
      ∷ ("actor", str "shell")
      ∷ ("action", str "filesystem.write")
      ∷ ("target", str "blue_tanuki")
      ∷ ("result", str "success")
      ∷ ("payload_hash", reference_hash)
      ∷ [])

  unfoldable pub build_reference_state : Fields → Result RuntimeState
  build_reference_state catalog = do
    s1 ← register_runtime P catalog new_state reference_runtime
    s2 ← register_adapter P catalog s1 reference_adapter
    s3 ← register_capability P catalog s2 reference_capability
    s4 ← record_permission P catalog s3 reference_permission
    s5 ← enqueue_approval P catalog s4 reference_approval
    s6 ← register_recovery_action P catalog s5 reference_recovery
    append_audit_event P catalog s6 reference_audit

  unfoldable pub build_sensitive_action : Fields
  build_sensitive_action = dict (
      ("runtime_id", str "blue_tanuki")
      ∷ ("operation", str "filesystem.write")
      ∷ ("capability_id", str "filesystem.write")
      ∷ ("permission_id", str "permission.fs.write.workspace")
      ∷ ("approval_id", str "approval-1")
      ∷ ("target_scope", str "workspace")
      ∷ ("payload", reference_payload)
      ∷ (
        "audit_event",
        obj (
            dict (
              ("event_id", str "audit-1")
              ∷ ("action", str "filesystem.write")
              ∷ ("result", str "requested")
              ∷ ("payload_hash", reference_hash)
              ∷ [])),
      )
      ∷ ("recovery_action", obj (dict (("recovery_id", str "recover-1") ∷ [])))
      ∷ [])
