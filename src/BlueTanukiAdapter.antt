-- ===== src/BlueTanukiAdapter.antt =====
-- packages/blue_tanuki_adapter: the reference adapter, whose reports are constants.
pub mod Approvals
use gui_shell_public.Prelude.{String, ◌<>◌, Bool, true, false, List, [], ◌∷◌, ◌==◌, if◌then◌else◌}
use gui_shell_public.Value.{Value, null, bool, str, arr, obj, Fields, dict, list}

-- `health` of health.py
abbrev pub adapter_health : Value
adapter_health = obj (
    dict (
      ("runtime_id", str "blue_tanuki")
      ∷ ("status", str "ready")
      ∷ ("message", str "参照 runtime mock の health は準備済みです")
      ∷ []))

-- `ready` of health.py
abbrev pub adapter_ready : Value
adapter_ready = obj (dict (("runtime_id", str "blue_tanuki") ∷ ("ready", bool true) ∷ []))

-- `authority_trace` of authority_trace.py
abbrev pub adapter_authority_trace : Value
adapter_authority_trace = obj (
    dict (
      ("runtime_id", str "blue_tanuki")
      ∷ ("adapter_id", str "blue_tanuki_reference")
      ∷ ("metadata_trusted", bool false)
      ∷ ("adapter_can_grant_permission", bool false)
      ∷ ("adapter_can_approve", bool false)
      ∷ ("authority_source", str "shell_core")
      ∷ []))

-- `runtime_snapshot` of runtime_snapshot.py
abbrev pub adapter_runtime_snapshot : Value
adapter_runtime_snapshot = obj (
    dict (
      ("runtime_id", str "blue_tanuki")
      ∷ ("name", str "BLUE-TANUKI")
      ∷ ("kind", str "reference_runtime")
      ∷ ("status", str "ready")
      ∷ ("adapter_id", str "blue_tanuki_reference")
      ∷ ("version", str "mock-contract")
      ∷ (
        "endpoints",
        obj (
            dict (
              ("health", str "/health")
              ∷ ("ready", str "/ready")
              ∷ ("runtime_snapshot", str "/runtime/snapshot")
              ∷ ("authority_trace", str "/authority/trace")
              ∷ ("notifications", str "/notifications")
              ∷ ("approvals", str "/approvals")
              ∷ ("audit_events", str "/audit/events")
              ∷ ("diagnostics_export", str "/diagnostics/export")
              ∷ ("recovery", str "/recovery")
              ∷ [])),
      )
      ∷ (
        "capabilities",
        list (
            str "runtime.read"
            ∷ str "approval.review"
            ∷ str "audit.read"
            ∷ str "diagnostics.read"
            ∷ str "recovery.read"
            ∷ []),
      )
      ∷ ("diagnostic_summary", str "mock adapter 契約を利用できます")
      ∷ []))

-- `notifications` of notifications.py
abbrev pub adapter_notifications : Value
adapter_notifications = list (
    obj (
      dict (
        ("notification_id", str "blue-tanuki-runtime-ready")
        ∷ ("runtime_id", str "blue_tanuki")
        ∷ ("severity", str "info")
        ∷ ("message", str "BLUE-TANUKI 参照 runtime mock は準備済みです。")
        ∷ []))
    ∷ [])

-- `audit_events` of audit_export.py
abbrev pub adapter_audit_events : Value
adapter_audit_events = list (
    obj (
      dict (
        ("event_id", str "blue-tanuki-adapter-audit-1")
        ∷ ("timestamp", str "2026-05-25T00:00:00Z")
        ∷ ("actor", str "adapter")
        ∷ ("action", str "runtime.snapshot")
        ∷ ("target", str "blue_tanuki")
        ∷ ("result", str "success")
        ∷ (
          "payload_hash",
          str "sha256:4444444444444444444444444444444444444444444444444444444444444444",
        )
        ∷ ("previous_event_hash", null)
        ∷ ("metadata", obj (dict (("adapter_id", str "blue_tanuki_reference") ∷ [])))
        ∷ []))
    ∷ [])

-- `diagnostics_export` of diagnostics.py
abbrev pub adapter_diagnostics_export : Value
adapter_diagnostics_export = obj (
    dict (
      ("diagnostic_id", str "blue-tanuki-diagnostic-1")
      ∷ ("runtime_id", str "blue_tanuki")
      ∷ ("status", str "pass")
      ∷ (
        "checks",
        list (
            obj (
              dict (
                ("check_id", str "adapter_contract")
                ∷ ("status", str "pass")
                ∷ ("message", str "mock adapter 契約を利用できます")
                ∷ []))
            ∷ []),
      )
      ∷ []))

-- `recovery_candidates` of recovery.py
unfoldable pub recovery_candidates : String → Value
recovery_candidates reason =
    let recovery_class = if reason == "runtime_down" then "runtime_down" else "unknown" in
    list (
      obj (
        dict (
          ("recovery_id", str ("blue-tanuki-" <> recovery_class))
          ∷ ("runtime_id", str "blue_tanuki")
          ∷ ("operation", str "runtime.read")
          ∷ ("class", str recovery_class)
          ∷ ("severity", str "warning")
          ∷ ("user_visible_message", str "BLUE-TANUKI runtime の接続を確認し、準備完了後に再実行してください。")
          ∷ ("safe_to_retry", bool true)
          ∷ (
            "steps",
            list (
                str "実行系センターを開いてください。"
                ∷ str "BLUE-TANUKI adapter の health を確認してください。"
                ∷ str "runtime 状態が ready になってから再実行してください。"
                ∷ []),
          )
          ∷ ("requires_user_action", bool true)
          ∷ []))
      ∷ [])

-- `recovery_actions` of adapter.py
unfoldable pub recovery_actions : Value
recovery_actions = recovery_candidates "runtime_down"
