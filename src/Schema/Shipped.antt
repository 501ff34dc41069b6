-- ===== src/Schema/Shipped.antt =====
-- The schemas of specs/ that the shell core checks its records against, as `json.loads` reads them.
use gui_shell_public.Prelude.{true, false, [], ◌∷◌}
use gui_shell_public.Prelude.Int.{pos}
use gui_shell_public.Value.{Value, bool, num, str, obj, Fields, dict, list}

-- specs/runtime.schema.json
unfoldable pub runtime_schema : Value
runtime_schema = obj (
    dict (
      ("$schema", str "https://json-schema.org/draft/2020-12/schema")
      ∷ ("$id", str "https://example.invalid/gui-shell/schemas/runtime.schema.json")
      ∷ ("title", str "実行系（Runtime）")
      ∷ ("type", str "object")
      ∷ (
        "required",
        list (str "runtime_id" ∷ str "name" ∷ str "kind" ∷ str "status" ∷ str "adapter_id" ∷ []),
      )
      ∷ ("additionalProperties", bool false)
      ∷ (
        "properties",
        obj (
            dict (
              ("runtime_id", obj (dict (("type", str "string") ∷ ("minLength", num (pos 1)) ∷ [])))
              ∷ ("name", obj (dict (("type", str "string") ∷ ("minLength", num (pos 1)) ∷ [])))
              ∷ (
                "kind",
                obj (
                    dict (
                      ("type", str "string")
                      ∷ (
                        "enum",
                        list (
                            str "agent"
                            ∷ str "tool"
                            ∷ str "local_service"
                            ∷ str "remote_service"
                            ∷ str "reference_runtime"
                            ∷ []),
                      )
                      ∷ [])),
              )
              ∷ (
                "status",
                obj (
                    dict (
                      ("type", str "string")
                      ∷ (
                        "enum",
                        list (
                            str "unknown"
                            ∷ str "offline"
                            ∷ str "starting"
                            ∷ str "ready"
                            ∷ str "degraded"
                            ∷ str "failed"
                            ∷ str "stopped"
                            ∷ []),
                      )
                      ∷ [])),
              )
              ∷ (
                "adapter_id",
                obj (dict (("type", str "string") ∷ ("minLength", num (pos 1)) ∷ [])),
              )
              ∷ ("version", obj (dict (("type", str "string") ∷ [])))
              ∷ (
                "endpoints",
                obj (
                    dict (
                      ("type", str "object")
                      ∷ ("additionalProperties", obj (dict (("type", str "string") ∷ [])))
                      ∷ [])),
              )
              ∷ (
                "capabilities",
                obj (
                    dict (
                      ("type", str "array")
                      ∷ ("items", obj (dict (("type", str "string") ∷ [])))
                      ∷ [])),
              )
              ∷ ("diagnostic_summary", obj (dict (("type", str "string") ∷ [])))
              ∷ [])),
      )
      ∷ []))

-- specs/adapter.schema.json
unfoldable pub adapter_schema : Value
adapter_schema = obj (
    dict (
      ("$schema", str "https://json-schema.org/draft/2020-12/schema")
      ∷ ("$id", str "https://example.invalid/gui-shell/schemas/adapter.schema.json")
      ∷ ("title", str "アダプター（Adapter）")
      ∷ ("type", str "object")
      ∷ (
        "required",
        list (
            str "adapter_id"
            ∷ str "runtime_id"
            ∷ str "contract_version"
            ∷ str "authority_strip"
            ∷ []),
      )
      ∷ ("additionalProperties", bool false)
      ∷ (
        "properties",
        obj (
            dict (
              ("adapter_id", obj (dict (("type", str "string") ∷ ("minLength", num (pos 1)) ∷ [])))
              ∷ (
                "runtime_id",
                obj (dict (("type", str "string") ∷ ("minLength", num (pos 1)) ∷ [])),
              )
              ∷ (
                "contract_version",
                obj (dict (("type", str "string") ∷ ("pattern", str "^v[0-9]+\\.[0-9]+$") ∷ [])),
              )
              ∷ (
                "transport",
                obj (
                    dict (
                      ("type", str "string")
                      ∷ ("enum", list (str "http" ∷ str "stdio" ∷ str "ipc" ∷ str "mock" ∷ []))
                      ∷ [])),
              )
              ∷ (
                "authority_strip",
                obj (dict (("type", str "boolean") ∷ ("const", bool true) ∷ [])),
              )
              ∷ ("content_exposure_policy_id", obj (dict (("type", str "string") ∷ [])))
              ∷ (
                "declared_capabilities",
                obj (
                    dict (
                      ("type", str "array")
                      ∷ ("items", obj (dict (("type", str "string") ∷ [])))
                      ∷ [])),
              )
              ∷ (
                "metadata",
                obj (
                    dict (
                      ("type", str "object")
                      ∷ ("description", str "信頼しないメタデータです。権限を付与してはなりません。")
                      ∷ ("additionalProperties", bool true)
                      ∷ [])),
              )
              ∷ [])),
      )
      ∷ []))

-- specs/capability.schema.json
unfoldable pub capability_schema : Value
capability_schema = obj (
    dict (
      ("$schema", str "https://json-schema.org/draft/2020-12/schema")
      ∷ ("$id", str "https://example.invalid/gui-shell/schemas/capability.schema.json")
      ∷ ("title", str "能力（Capability）")
      ∷ ("type", str "object")
      ∷ (
        "required",
        list (
            str "capability_id"
            ∷ str "runtime_id"
            ∷ str "name"
            ∷ str "risk_level"
            ∷ str "default_permission"
            ∷ str "operations"
            ∷ []),
      )
      ∷ ("additionalProperties", bool false)
      ∷ (
        "properties",
        obj (
            dict (
              (
                "capability_id",
                obj (dict (("type", str "string") ∷ ("minLength", num (pos 1)) ∷ [])),
              )
              ∷ (
                "runtime_id",
                obj (dict (("type", str "string") ∷ ("minLength", num (pos 1)) ∷ [])),
              )
              ∷ ("name", obj (dict (("type", str "string") ∷ ("minLength", num (pos 1)) ∷ [])))
              ∷ ("description", obj (dict (("type", str "string") ∷ [])))
              ∷ (
                "risk_level",
                obj (
                    dict (
                      ("type", str "string")
                      ∷ ("enum", list (str "low" ∷ str "medium" ∷ str "high" ∷ str "critical" ∷ []))
                      ∷ [])),
              )
              ∷ (
                "default_permission",
                obj (
                    dict (
                      ("type", str "string")
                      ∷ ("enum", list (str "deny" ∷ str "ask" ∷ str "allow" ∷ []))
                      ∷ [])),
              )
              ∷ (
                "requires_approval",
                obj (dict (("type", str "boolean") ∷ ("default", bool true) ∷ [])),
              )
              ∷ (
                "operations",
                obj (
                    dict (
                      ("type", str "array")
                      ∷ (
                        "items",
                        obj (dict (("type", str "string") ∷ ("minLength", num (pos 1)) ∷ [])),
                      )
                      ∷ ("minItems", num (pos 1))
                      ∷ [])),
              )
              ∷ [])),
      )
      ∷ []))

-- specs/permission.schema.json
unfoldable pub permission_schema : Value
permission_schema = obj (
    dict (
      ("$schema", str "https://json-schema.org/draft/2020-12/schema")
      ∷ ("$id", str "https://example.invalid/gui-shell/schemas/permission.schema.json")
      ∷ ("title", str "許可（Permission）")
      ∷ ("type", str "object")
      ∷ (
        "required",
        list (
            str "permission_id"
            ∷ str "runtime_id"
            ∷ str "capability_id"
            ∷ str "operation"
            ∷ str "target_scope"
            ∷ str "scope"
            ∷ str "decision"
            ∷ str "source"
            ∷ []),
      )
      ∷ ("additionalProperties", bool false)
      ∷ (
        "properties",
        obj (
            dict (
              (
                "permission_id",
                obj (dict (("type", str "string") ∷ ("minLength", num (pos 1)) ∷ [])),
              )
              ∷ (
                "runtime_id",
                obj (dict (("type", str "string") ∷ ("minLength", num (pos 1)) ∷ [])),
              )
              ∷ (
                "capability_id",
                obj (dict (("type", str "string") ∷ ("minLength", num (pos 1)) ∷ [])),
              )
              ∷ ("operation", obj (dict (("type", str "string") ∷ ("minLength", num (pos 1)) ∷ [])))
              ∷ (
                "target_scope",
                obj (dict (("type", str "string") ∷ ("minLength", num (pos 1)) ∷ [])),
              )
              ∷ (
                "scope",
                obj (
                    dict (
                      ("type", str "string")
                      ∷ (
                        "enum",
                        list (
                            str "operation"
                            ∷ str "target"
                            ∷ str "session"
                            ∷ str "time_window"
                            ∷ str "global"
                            ∷ []),
                      )
                      ∷ [])),
              )
              ∷ (
                "decision",
                obj (
                    dict (
                      ("type", str "string")
                      ∷ ("enum", list (str "deny" ∷ str "ask" ∷ str "allow" ∷ []))
                      ∷ [])),
              )
              ∷ (
                "source",
                obj (
                    dict (
                      ("type", str "string")
                      ∷ (
                        "enum",
                        list
                            (str "user" ∷ str "policy" ∷ str "runtime" ∷ str "system_default" ∷ []),
                      )
                      ∷ [])),
              )
              ∷ (
                "expires_at",
                obj (
                    dict (
                      ("type", list (str "string" ∷ str "null" ∷ []))
                      ∷ ("format", str "date-time")
                      ∷ [])),
              )
              ∷ (
                "constraints",
                obj (dict (("type", str "object") ∷ ("additionalProperties", bool true) ∷ [])),
              )
              ∷ [])),
      )
      ∷ []))

-- specs/approval.schema.json
unfoldable pub approval_schema : Value
approval_schema = obj (
    dict (
      ("$schema", str "https://json-schema.org/draft/2020-12/schema")
      ∷ ("$id", str "https://example.invalid/gui-shell/schemas/approval.schema.json")
      ∷ ("title", str "承認（Approval）")
      ∷ ("type", str "object")
      ∷ (
        "required",
        list (
            str "approval_id"
            ∷ str "runtime_id"
            ∷ str "operation"
            ∷ str "target_scope"
            ∷ str "status"
            ∷ str "content_visibility"
            ∷ str "payload_hash"
            ∷ str "editable_fields"
            ∷ []),
      )
      ∷ ("additionalProperties", bool false)
      ∷ (
        "properties",
        obj (
            dict (
              ("approval_id", obj (dict (("type", str "string") ∷ ("minLength", num (pos 1)) ∷ [])))
              ∷ (
                "runtime_id",
                obj (dict (("type", str "string") ∷ ("minLength", num (pos 1)) ∷ [])),
              )
              ∷ ("operation", obj (dict (("type", str "string") ∷ ("minLength", num (pos 1)) ∷ [])))
              ∷ (
                "target_scope",
                obj (dict (("type", str "string") ∷ ("minLength", num (pos 1)) ∷ [])),
              )
              ∷ (
                "status",
                obj (
                    dict (
                      ("type", str "string")
                      ∷ (
                        "enum",
                        list (
                            str "pending"
                            ∷ str "approved"
                            ∷ str "rejected"
                            ∷ str "expired"
                            ∷ str "requires_validation"
                            ∷ []),
                      )
                      ∷ [])),
              )
              ∷ (
                "content_visibility",
                obj (
                    dict (
                      ("type", str "string")
                      ∷ (
                        "enum",
                        list (
                            str "none"
                            ∷ str "hash_only"
                            ∷ str "summary"
                            ∷ str "redacted"
                            ∷ str "full"
                            ∷ []),
                      )
                      ∷ [])),
              )
              ∷ (
                "payload_hash",
                obj (dict (("type", str "string") ∷ ("pattern", str "^sha256:[a-f0-9]{64}$") ∷ [])),
              )
              ∷ ("summary", obj (dict (("type", str "string") ∷ [])))
              ∷ (
                "redacted_payload",
                obj (dict (("type", str "object") ∷ ("additionalProperties", bool true) ∷ [])),
              )
              ∷ (
                "full_payload",
                obj (
                    dict (
                      ("type", str "object")
                      ∷ (
                        "description",
                        str "保管専用の完全内容です。content_visibility=fullでない限り、UI射影で公開してはなりません。",
                      )
                      ∷ ("additionalProperties", bool true)
                      ∷ [])),
              )
              ∷ (
                "editable_fields",
                obj (
                    dict (
                      ("type", str "array")
                      ∷ ("items", obj (dict (("type", str "string") ∷ [])))
                      ∷ ("description", str "権限を持たない項目のうち、ここで列挙した項目だけ編集できます。")
                      ∷ [])),
              )
              ∷ (
                "sealed_fields",
                obj (
                    dict (
                      ("type", str "array")
                      ∷ ("items", obj (dict (("type", str "string") ∷ [])))
                      ∷ [])),
              )
              ∷ (
                "hidden_fields",
                obj (
                    dict (
                      ("type", str "array")
                      ∷ ("items", obj (dict (("type", str "string") ∷ [])))
                      ∷ ("description", str "UIで表示または編集してはならない項目です。")
                      ∷ [])),
              )
              ∷ (
                "sacred_fields",
                obj (
                    dict (
                      ("type", str "array")
                      ∷ ("items", obj (dict (("type", str "string") ∷ [])))
                      ∷ ("description", str "UIまたはアダプターで編集してはならない領域重要項目です。")
                      ∷ [])),
              )
              ∷ (
                "authority_fields",
                obj (
                    dict (
                      ("type", str "array")
                      ∷ ("items", obj (dict (("type", str "string") ∷ [])))
                      ∷ [])),
              )
              ∷ [])),
      )
      ∷ []))

-- specs/audit.schema.json
unfoldable pub audit_schema : Value
audit_schema = obj (
    dict (
      ("$schema", str "https://json-schema.org/draft/2020-12/schema")
      ∷ ("$id", str "https://example.invalid/gui-shell/schemas/audit.schema.json")
      ∷ ("title", str "監査事象（AuditEvent）")
      ∷ ("type", str "object")
      ∷ (
        "required",
        list (
            str "event_id"
            ∷ str "timestamp"
            ∷ str "actor"
            ∷ str "action"
            ∷ str "target"
            ∷ str "result"
            ∷ str "payload_hash"
            ∷ []),
      )
      ∷ ("additionalProperties", bool false)
      ∷ (
        "properties",
        obj (
            dict (
              ("event_id", obj (dict (("type", str "string") ∷ ("minLength", num (pos 1)) ∷ [])))
              ∷ (
                "timestamp",
                obj (dict (("type", str "string") ∷ ("format", str "date-time") ∷ [])),
              )
              ∷ (
                "actor",
                obj (
                    dict (
                      ("type", str "string")
                      ∷ (
                        "enum",
                        list (
                            str "user"
                            ∷ str "shell"
                            ∷ str "runtime"
                            ∷ str "adapter"
                            ∷ str "rust_helper"
                            ∷ []),
                      )
                      ∷ [])),
              )
              ∷ ("action", obj (dict (("type", str "string") ∷ ("minLength", num (pos 1)) ∷ [])))
              ∷ ("target", obj (dict (("type", str "string") ∷ ("minLength", num (pos 1)) ∷ [])))
              ∷ (
                "result",
                obj (
                    dict (
                      ("type", str "string")
                      ∷ (
                        "enum",
                        list (str "success" ∷ str "denied" ∷ str "failed" ∷ str "suspended" ∷ []),
                      )
                      ∷ [])),
              )
              ∷ (
                "payload_hash",
                obj (dict (("type", str "string") ∷ ("pattern", str "^sha256:[a-f0-9]{64}$") ∷ [])),
              )
              ∷ (
                "previous_event_hash",
                obj (
                    dict (
                      ("type", list (str "string" ∷ str "null" ∷ []))
                      ∷ ("pattern", str "^(sha256:[a-f0-9]{64})?$")
                      ∷ [])),
              )
              ∷ (
                "metadata",
                obj (dict (("type", str "object") ∷ ("additionalProperties", bool true) ∷ [])),
              )
              ∷ [])),
      )
      ∷ []))

-- specs/recovery.schema.json
unfoldable pub recovery_schema : Value
recovery_schema = obj (
    dict (
      ("$schema", str "https://json-schema.org/draft/2020-12/schema")
      ∷ ("$id", str "https://example.invalid/gui-shell/schemas/recovery.schema.json")
      ∷ ("title", str "復旧対応（RecoveryAction）")
      ∷ ("type", str "object")
      ∷ (
        "required",
        list (
            str "recovery_id"
            ∷ str "runtime_id"
            ∷ str "operation"
            ∷ str "class"
            ∷ str "severity"
            ∷ str "user_visible_message"
            ∷ str "safe_to_retry"
            ∷ []),
      )
      ∷ ("additionalProperties", bool false)
      ∷ (
        "properties",
        obj (
            dict (
              ("recovery_id", obj (dict (("type", str "string") ∷ ("minLength", num (pos 1)) ∷ [])))
              ∷ (
                "runtime_id",
                obj (dict (("type", str "string") ∷ ("minLength", num (pos 1)) ∷ [])),
              )
              ∷ ("operation", obj (dict (("type", str "string") ∷ ("minLength", num (pos 1)) ∷ [])))
              ∷ (
                "class",
                obj (
                    dict (
                      ("type", str "string")
                      ∷ (
                        "enum",
                        list (
                            str "configuration"
                            ∷ str "dependency"
                            ∷ str "runtime_down"
                            ∷ str "permission_denied"
                            ∷ str "network"
                            ∷ str "filesystem"
                            ∷ str "unknown"
                            ∷ []),
                      )
                      ∷ [])),
              )
              ∷ (
                "severity",
                obj (
                    dict (
                      ("type", str "string")
                      ∷ (
                        "enum",
                        list (str "info" ∷ str "warning" ∷ str "error" ∷ str "critical" ∷ []),
                      )
                      ∷ [])),
              )
              ∷ (
                "user_visible_message",
                obj (dict (("type", str "string") ∷ ("minLength", num (pos 1)) ∷ [])),
              )
              ∷ ("safe_to_retry", obj (dict (("type", str "boolean") ∷ [])))
              ∷ (
                "steps",
                obj (
                    dict (
                      ("type", str "array")
                      ∷ ("items", obj (dict (("type", str "string") ∷ [])))
                      ∷ [])),
              )
              ∷ (
                "requires_user_action",
                obj (dict (("type", str "boolean") ∷ ("default", bool true) ∷ [])),
              )
              ∷ [])),
      )
      ∷ []))

-- specs/update.schema.json
unfoldable pub update_schema : Value
update_schema = obj (
    dict (
      ("$schema", str "https://json-schema.org/draft/2020-12/schema")
      ∷ ("$id", str "https://example.invalid/gui-shell/schemas/update.schema.json")
      ∷ ("title", str "更新方針（UpdatePolicy）")
      ∷ ("type", str "object")
      ∷ (
        "required",
        list (str "policy_id" ∷ str "channel" ∷ str "auto_update" ∷ str "signature_required" ∷ []),
      )
      ∷ ("additionalProperties", bool false)
      ∷ (
        "properties",
        obj (
            dict (
              ("policy_id", obj (dict (("type", str "string") ∷ ("minLength", num (pos 1)) ∷ [])))
              ∷ (
                "channel",
                obj (
                    dict (
                      ("type", str "string")
                      ∷ ("enum", list (str "stable" ∷ str "beta" ∷ str "dev" ∷ str "pinned" ∷ []))
                      ∷ [])),
              )
              ∷ ("auto_update", obj (dict (("type", str "boolean") ∷ [])))
              ∷ (
                "signature_required",
                obj (dict (("type", str "boolean") ∷ ("const", bool true) ∷ [])),
              )
              ∷ (
                "rollback_enabled",
                obj (dict (("type", str "boolean") ∷ ("default", bool true) ∷ [])),
              )
              ∷ [])),
      )
      ∷ []))

-- specs/action_envelope.schema.json
unfoldable pub action_envelope_schema : Value
action_envelope_schema = obj (
    dict (
      ("$schema", str "https://json-schema.org/draft/2020-12/schema")
      ∷ ("$id", str "https://example.invalid/gui-shell/schemas/action_envelope.schema.json")
      ∷ ("title", str "作用封筒（ActionEnvelope）")
      ∷ ("type", str "object")
      ∷ (
        "required",
        list (
            str "envelope_id"
            ∷ str "runtime_id"
            ∷ str "operation"
            ∷ str "capability_id"
            ∷ str "permission_id"
            ∷ str "approval_id"
            ∷ str "recovery_id"
            ∷ str "target_scope"
            ∷ str "payload_hash"
            ∷ str "authority_source"
            ∷ str "audit_event_required"
            ∷ []),
      )
      ∷ ("additionalProperties", bool false)
      ∷ (
        "properties",
        obj (
            dict (
              ("envelope_id", obj (dict (("type", str "string") ∷ ("minLength", num (pos 1)) ∷ [])))
              ∷ (
                "runtime_id",
                obj (dict (("type", str "string") ∷ ("minLength", num (pos 1)) ∷ [])),
              )
              ∷ ("operation", obj (dict (("type", str "string") ∷ ("minLength", num (pos 1)) ∷ [])))
              ∷ (
                "capability_id",
                obj (dict (("type", str "string") ∷ ("minLength", num (pos 1)) ∷ [])),
              )
              ∷ (
                "permission_id",
                obj (dict (("type", str "string") ∷ ("minLength", num (pos 1)) ∷ [])),
              )
              ∷ (
                "approval_id",
                obj (dict (("type", str "string") ∷ ("minLength", num (pos 1)) ∷ [])),
              )
              ∷ (
                "recovery_id",
                obj (dict (("type", str "string") ∷ ("minLength", num (pos 1)) ∷ [])),
              )
              ∷ (
                "target_scope",
                obj (dict (("type", str "string") ∷ ("minLength", num (pos 1)) ∷ [])),
              )
              ∷ (
                "payload_hash",
                obj (dict (("type", str "string") ∷ ("pattern", str "^sha256:[a-f0-9]{64}$") ∷ [])),
              )
              ∷ (
                "authority_source",
                obj (
                    dict (
                      ("type", str "string")
                      ∷ (
                        "enum",
                        list (
                            str "broker_internal" ∷ str "user" ∷ str "policy" ∷ str "runtime" ∷ []),
                      )
                      ∷ [])),
              )
              ∷ (
                "audit_event_required",
                obj (dict (("type", str "boolean") ∷ ("const", bool true) ∷ [])),
              )
              ∷ (
                "metadata",
                obj (dict (("type", str "object") ∷ ("additionalProperties", bool true) ∷ [])),
              )
              ∷ [])),
      )
      ∷ []))

-- The part of `load_default_catalog()` that the shell core asks for.
unfoldable pub shipped_catalog : Fields
unfolding runtime_schema adapter_schema capability_schema permission_schema approval_schema
    audit_schema recovery_schema update_schema action_envelope_schema
shipped_catalog = dict (
    ("runtime.schema.json", runtime_schema)
    ∷ ("adapter.schema.json", adapter_schema)
    ∷ ("capability.schema.json", capability_schema)
    ∷ ("permission.schema.json", permission_schema)
    ∷ ("approval.schema.json", approval_schema)
    ∷ ("audit.schema.json", audit_schema)
    ∷ ("recovery.schema.json", recovery_schema)
    ∷ ("update.schema.json", update_schema)
    ∷ ("action_envelope.schema.json", action_envelope_schema)
    ∷ [])
