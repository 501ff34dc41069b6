-- ===== src/WindowsEvidence/SetupDoctor.antt =====
-- tooling/windows_release_evidence.py: the evidence of the setup doctor.
use gui_shell_public.Prelude.{
  String, ◌<>◌, not, List, [], ◌∷◌, ◌++◌, is_empty, join, sort_texts, difference,
}
use gui_shell_public.Value.{Value, arr, obj, cons, Fields, get, truthy, is_true, is_false}
use gui_shell_public.AuditChain.{unless}
use gui_shell_public.WindowsEvidence.{
  EvidenceResult, conclusion, get_dotted, is_text, one_of, any_record, texts_under,
}

abbrev pub required_setup_checks : List String
required_setup_checks =
    "windows.installed_app_path" ∷ "windows.artifact_hash" ∷ "first_run.config_created"
    ∷ "first_run.audit_dir_writable" ∷ "setup_doctor.ran_from_installed_app_path"
    ∷ "setup_doctor.runtime_connection" ∷ "setup_doctor.authority_boundary"
    ∷ "setup_doctor.network_public_bind" ∷ "setup_doctor.recovery_instruction"
    ∷ "setup_doctor.audit_storage" ∷ []

unfoldable pub setup_source_errors : Value → List String
setup_source_errors (obj source) =
    unless (is_text (get source "source_kind") "installed_app_machine_readable_export")
      "Setup Doctor の evidence_source.source_kind は installed_app_machine_readable_export でなければならない"
    ++ (unless (is_true (get source "product_generated"))
          "Setup Doctor evidence は installed app が生成しなければならない"
        ++ (unless (is_false (get source "collector_derives_checks"))
              "Setup Doctor collector は product diagnostic check を導出してはならない"
            ++ (unless (is_false (get source "synthetic")) "合成した Setup Doctor evidence は受理しない"
                ++ unless (truthy (get source "command"))
                    "Setup Doctor の evidence_source.command がない")))
setup_source_errors _ = "Setup Doctor の evidence_source がない" ∷ []

unfoldable pub setup_check_errors : Value → List String
setup_check_errors (arr (cons check checks)) =
    let items = cons check checks in
    let missing = sort_texts (difference required_setup_checks (texts_under "check_id" items)) in
    unless (not (any_record (λ c. is_text (get c "status") "fail") items))
      "Setup Doctor に失敗した check が含まれる"
    ++ (unless (not (any_record (λ c. not (is_false (get c "grants_authority"))) items))
          "Setup Doctor check が権限を付与している、または grants_authority=false がない"
        ++ (unless (is_empty missing) ("Setup Doctor に次の必須 check がない: " <> join ", " missing)
            ++ unless (not (any_record (λ c. not (truthy (get c "recovery_instruction"))) items))
                "Setup Doctor の checks は recovery instruction を含まなければならない"))
setup_check_errors _ = "Setup Doctor の checks は空でない list でなければならない" ∷ []

unfoldable pub setup_errors : Value → List String
setup_errors (obj setup) =
    unless (is_true (get setup "formal_product_evidence"))
      "Setup Doctor は外部 probe ではなく installed-app product evidence でなければならない"
    ++ (unless (one_of (get setup "status") ("pass" ∷ "warning" ∷ []))
          "setup_doctor.status は pass または warning でなければならない"
        ++ (setup_source_errors (get setup "evidence_source")
            ++ (unless (truthy (get setup "ran_from_installed_app_path"))
                  "Setup Doctor が installed app path から実行されなかった"
                ++ (unless (truthy (get setup "operator_readable"))
                      "Setup Doctor の operator readability を確認できなかった"
                    ++ (unless (is_false (get setup "installer_grants_authority"))
                          "Setup Doctor の installer_grants_authority は false でなければならない"
                        ++ (unless (is_false (get setup "installer_silently_approves_permissions"))
                              "Setup Doctor の installer_silently_approves_permissions は false でなければならない"
                            ++ setup_check_errors (get setup "checks")))))))
setup_errors _ = "setup_doctor object がない" ∷ []

unfoldable pub validate_setup_doctor : Fields → EvidenceResult
validate_setup_doctor evidence =
    conclusion (setup_errors (get_dotted evidence "setup_doctor")) "windows_setup_doctor_smoke"
      "Windows の native installed smoke を実行し、installed app に機械可読な Setup Doctor の product evidence を書き出させる。外部 collector probe の出力は product evidence として受理しない。"
      "Windows installed-path の Setup Doctor evidence が機械検証に合格した。"
      "release candidate ごとに Windows Setup Doctor evidence を最新に保つ。"
