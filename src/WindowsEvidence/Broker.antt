-- ===== src/WindowsEvidence/Broker.antt =====
-- tooling/windows_release_evidence.py: the evidence of the installed broker.
use gui_shell_public.Prelude.{
  String, ◌<>◌, Bool, true, false, not, ◌||◌, List, [], ◌∷◌, ◌++◌, sort_texts,
}
use gui_shell_public.Value.{
  Value, null, arr, obj, nil, Fields, end, field, has, get, truthy, is_true, is_false, is_null,
}
use gui_shell_public.Value.Equal.{py_eq}
use gui_shell_public.AuditChain.{unless}
use gui_shell_public.WindowsEvidence.{EvidenceResult, conclusion, get_dotted, is_text, one_of}

abbrev pub required_broker_true_fields : List String
required_broker_true_fields =
    "helper_exe_exists" ∷ "session_file_created" ∷ "restricted_loopback_bind"
    ∷ "authenticated_ipc_connection" ∷ "durable_store_ready" ∷ "restart_replay_rejected"
    ∷ "fresh_health_after_restart" ∷ "crash_fail_closed" ∷ []

unfoldable pub broker_source_errors : Value → List String
broker_source_errors (obj source) =
    unless (is_text (get source "collector") "installer/windows/collect_broker_smoke.ps1")
      "broker の evidence_source.collector は installer/windows/collect_broker_smoke.ps1 でなければならない"
    ++ (unless (truthy (get source "collector_version"))
          "broker の evidence_source.collector_version がない"
        ++ (unless (is_false (get source "synthetic")) "合成した broker evidence は受理しない"
            ++ unless (truthy (get source "command")) "broker の evidence_source.command がない"))
broker_source_errors _ = "broker の evidence_source がない" ∷ []

measured_errors : String → Value → List String
measured_errors name (obj entry) =
    unless (is_text (get entry "source_type") "directly_measured")
      ("broker の field_provenance." <> (name <> ".source_type は directly_measured でなければならない"))
    ++ unless (one_of (get entry "evidence_class") ("LIVE_RUNTIME" ∷ "EXTERNAL_EVIDENCE" ∷ [])) (
        "broker の field_provenance."
        <> (name <> ".evidence_class は LIVE_RUNTIME または EXTERNAL_EVIDENCE でなければならない"))
measured_errors name _ = ("broker の field_provenance." <> (name <> " がない")) ∷ []

-- The errors about where a field's value comes from, if `field_provenance` is a dict.
unfoldable pub measured_by : String → Value → List String
unfolding measured_errors
measured_by name (obj provenance) = measured_errors name (get provenance name)
measured_by name _ = []

unfoldable pub broker_field_errors : Fields → List String → List String
broker_field_errors broker [] = []
broker_field_errors broker (name ∷ names) =
    unless (is_true (get broker name)) ("broker." <> (name <> " は true でなければならない"))
    ++ (measured_by name (get broker "field_provenance") ++ broker_field_errors broker names)

unfoldable pub declared_errors : Fields → List String
declared_errors end = []
declared_errors (field key (obj declared) rest) =
    unless (is_false (get declared "formal_runtime_proof"))
      ("broker の unmeasured_declarations." <> (key <> ".formal_runtime_proof は false でなければならない"))
    ++ declared_errors rest
declared_errors (field key v rest) =
    ("broker の unmeasured_declarations." <> (key <> " は object でなければならない")) ∷ declared_errors rest

unfoldable pub declarations_errors : Value → List String
declarations_errors null = []
declarations_errors (obj declarations) = declared_errors declarations
declarations_errors _ = "broker の unmeasured_declarations は、存在する場合 object でなければならない" ∷ []

unfoldable pub is_dict : Value → Bool
is_dict (obj d) = true
is_dict _ = false

-- value in (None, []), also for the second test of the source, which is true only of []
unfoldable pub is_none_or_empty : Value → Bool
is_none_or_empty v = is_null v || py_eq v (arr nil)

unfoldable pub broker_errors : Value → List String
broker_errors (obj broker) =
    unless (is_text (get broker "status") "passed") "broker.status は passed でなければならない"
    ++ (broker_source_errors (get broker "evidence_source")
        ++ (unless (is_dict (get broker "field_provenance")) "broker の field_provenance がない"
            ++ (broker_field_errors broker (sort_texts required_broker_true_fields)
                ++ (unless (is_text (get broker "endpoint_host") "127.0.0.1")
                      "broker の endpoint_host は 127.0.0.1 でなければならない"
                    ++ (unless (is_text (get broker "replay_error_code") "broker_replay_detected")
                          "broker の replay_error_code は broker_replay_detected でなければならない"
                        ++ (unless (not (has broker "python_runtime_required_for_authority"))
                              "broker の top-level declaration python_runtime_required_for_authority は測定済み broker evidence として受理しない"
                            ++ (unless (not (has broker "flutter_rust_ffi_authority_bridge"))
                                  "broker の top-level declaration flutter_rust_ffi_authority_bridge は測定済み broker evidence として受理しない"
                                ++ (declarations_errors (get broker "unmeasured_declarations")
                                    ++ unless (is_none_or_empty (get broker "errors"))
                                        "broker の errors は空でなければならない"))))))))
broker_errors _ = "broker evidence object がない" ∷ []

unfoldable pub validate_broker_smoke : Fields → EvidenceResult
validate_broker_smoke evidence =
    conclusion (broker_errors (get_dotted evidence "broker")) "windows_broker_installed_smoke"
      "installed Rust broker helper に対して installer/windows/collect_broker_smoke.ps1 を実行し、測定済みの IPC/restart/crash field provenance だけを release_evidence/windows_installed_smoke.json に含める。"
      "Windows installed-path broker の launch/connect/restart/crash evidence が機械検証に合格した。no-Python/no-FFI は個別に分類された static evidence または installed-launch evidence のままである。"
      "release candidate ごとに broker の installed-path smoke evidence を最新に保つ。"
