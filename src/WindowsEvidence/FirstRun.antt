-- ===== src/WindowsEvidence/FirstRun.antt =====
-- tooling/windows_release_evidence.py: the evidence of the first run of the installed program.
use gui_shell_public.Prelude.{
  String, ◌<>◌, Bool, not, ◌&&◌, List, [], ◌∷◌, ◌++◌, any_of, if◌then◌else◌, sort_texts, ends_with,
}
use gui_shell_public.Prelude.Int.{pos}
use gui_shell_public.Outcome.{Result, ok, ◌>>=◌}
use gui_shell_public.Platform.{Platform}
use gui_shell_public.Value.{
  Value, num, arr, obj, Items, nil, cons, Fields, get, truthy, is_true, is_false,
}
use gui_shell_public.Value.Equal.{py_eq}
use gui_shell_public.Store.{Key, text_key, key_of, key_eqb}
use gui_shell_public.AuditChain.{unless}
use gui_shell_public.ReleaseGate.{in_set}
use gui_shell_public.Schema.Validation.{iterate}
use gui_shell_public.WindowsEvidence.{
  EvidenceResult, SearchLib, conclusion, get_dotted, dotted_is_true, dotted_is_false, str_or_empty,
  is_sha256_tag, is_text, is_int,
}
use gui_shell_public.WindowsEvidence.Surfaces.{
  required_visible_surfaces, validate_surface_match_evidence,
}

unfoldable pub launch_source_errors : Value → List String
launch_source_errors (obj source) =
    unless (is_text (get source "collector") "installer/windows/collect_installed_smoke.ps1")
      "evidence_source.collector は Windows installed smoke collector でなければならない"
    ++ (unless (truthy (get source "collector_version")) "evidence_source.collector_version がない"
        ++ unless (is_false (get source "manual_confirmation"))
            "厳格な release では手動確認の evidence を受理しない")
launch_source_errors _ = "evidence_source object がない" ∷ []

unfoldable pub python_command_errors : Value → List String
python_command_errors (arr items) =
    unless (not (truthy (arr items))) "first-run 起動前に Python command が可視のまま残った"
python_command_errors _ = "first_run.python_commands_visible_after_scrub は list でなければならない" ∷ []

unfoldable pub probe_errors : Value → List String
probe_errors (obj probe) =
    unless
      (not (
        any_of (λ key. not (is_true (get probe key)))
          ("attempted" ∷ "write" ∷ "read" ∷ "delete" ∷ [])))
      "audit の write/read/delete probe が合格しなかった"
probe_errors _ = "audit write probe がない" ∷ []

hashed_items : Items → Result (List Key)
hashed_items nil = ok []
hashed_items (cons v items) = do k ← key_of v; rest ← hashed_items items; ok (k ∷ rest)

-- set(value or [])
unfoldable pub hashed_set : Value → Result (List Key)
unfolding hashed_items
hashed_set v = if truthy v then (do items ← iterate v; hashed_items items) else ok []

unfoldable pub unseen_labels : List Key → List String → List String
unseen_labels visible [] = []
unseen_labels visible (label ∷ labels) =
    unless (any_of (key_eqb (text_key label)) visible) (label <> " が可視として記録されていない")
    ++ unseen_labels visible labels

-- isinstance(value, int) and value != 0
unfoldable pub is_handle : Value → Bool
is_handle v = is_int v && not (py_eq v (num (pos 0)))

module _ (P : Platform) (S : SearchLib) where
  -- The errors about the start of the program.
  unfoldable pub launch_errors : Fields → List String
  launch_errors evidence =
      unless (is_text (get evidence "platform") "windows") "platform は windows でなければならない"
      ++ (launch_source_errors (get_dotted evidence "evidence_source")
          ++ (unless (is_sha256_tag P (get_dotted evidence "artifact.sha256"))
                "artifact.sha256 には sha256 tag が必要である"
              ++ (unless (dotted_is_true evidence "artifact.installed_exe_exists")
                    "installed executable の存在を確認できなかった"
                  ++ (unless
                        (ends_with
                          (S.lower
                            (str_or_empty P (get_dotted evidence "artifact.installed_exe_path")))
                          ".exe")
                        "artifact.installed_exe_path は installed Flutter executable を指さなければならない"
                      ++ (unless (is_text (get_dotted evidence "first_run.status") "passed")
                            "first_run.status は passed でなければならない"
                          ++ (unless
                                (dotted_is_true evidence "first_run.launched_from_installed_path")
                                "first run が installed app path から起動しなかった"
                              ++ (unless
                                    (dotted_is_true evidence
                                      "first_run.process_running_after_launch")
                                    "起動後に process が動作していることを確認できなかった"
                                  ++ (unless (is_int (get_dotted evidence "first_run.process_id"))
                                        "first_run.process_id がない"
                                      ++ unless
                                          (is_handle
                                            (get_dotted evidence "first_run.main_window_handle"))
                                          "MainWindowHandle を確認できなかった"))))))))

  -- The errors about the window, the broker and the absence of Python.
  unfoldable pub mediation_errors : Fields → List String
  mediation_errors evidence =
      unless (dotted_is_true evidence "first_run.first_window_visible")
        "最初の window が可視であることを確認できなかった"
      ++ (unless (dotted_is_true evidence "first_run.broker_mediated_launch")
            "first run が Rust broker を介して起動されなかった"
          ++ (unless (truthy (get_dotted evidence "first_run.broker_helper_path"))
                "first_run.broker_helper_path がない"
              ++ (unless (truthy (get_dotted evidence "first_run.broker_endpoint_file"))
                    "first_run.broker_endpoint_file がない"
                  ++ (unless (dotted_is_true evidence "first_run.broker_endpoint_created")
                        "first run で broker endpoint file の作成を確認できなかった"
                      ++ (unless
                            (is_text (get_dotted evidence "first_run.broker_transport")
                              "authenticated_loopback_tcp")
                            "first_run.broker_transport は authenticated_loopback_tcp でなければならない"
                          ++ (unless
                                (dotted_is_true evidence "first_run.no_python_runtime_requested")
                                "first run が no-Python runtime evidence mode を要求しなかった"
                              ++ (unless
                                    (dotted_is_true evidence
                                      "first_run.python_runtime_path_scrubbed")
                                    "first-run 起動前に Python runtime PATH scrub が適用されなかった"
                                  ++ (unless
                                        (py_eq
                                          (get_dotted evidence
                                            "first_run.python_path_entries_remaining_count")
                                          (num (pos 0)))
                                        "first-run 起動前に Python PATH entry が可視のまま残った"
                                      ++ (python_command_errors (
                                            get_dotted evidence
                                              "first_run.python_commands_visible_after_scrub")
                                          ++ unless
                                              (dotted_is_true evidence
                                                "first_run.visible_surfaces_complete")
                                              "first_run.visible_surfaces_complete は true でなければならない")))))))))

  unfoldable pub surface_errors : Value → Result (List String)
  surface_errors (obj evidence) = do
    known ←
        in_set (get evidence "source")
          ("uiautomation" ∷ "accessibility_tree" ∷ "flutter_semantics_runtime_export" ∷ [])
    ok (
        unless known
          "可視 surface の evidence source は uiautomation、accessibility_tree、flutter_semantics_runtime_export のいずれかでなければならない"
        ++ (unless (truthy (get evidence "path")) "可視 surface の evidence path がない"
            ++ validate_surface_match_evidence P S evidence))
  surface_errors _ = ok ("可視 surface の evidence がない" ∷ [])

  -- The errors about the configuration, the audit directory and the installer.
  unfoldable pub boundary_errors : Fields → List String
  boundary_errors evidence =
      unless (dotted_is_true evidence "first_run.config_created") "first-run config の作成を確認できなかった"
      ++ (unless (dotted_is_true evidence "first_run.config_json_valid")
            "first-run config JSON の妥当性を確認できなかった"
          ++ (unless (truthy (get_dotted evidence "first_run.config_path"))
                "first-run config path がない"
              ++ (unless (dotted_is_true evidence "first_run.audit_dir_writable")
                    "audit directory の書込み可能性を確認できなかった"
                  ++ (probe_errors (get_dotted evidence "first_run.audit_write_probe")
                      ++ (unless (truthy (get_dotted evidence "first_run.audit_dir"))
                            "audit dir path がない"
                          ++ (unless
                                (dotted_is_false evidence "first_run.installer_grants_authority")
                                "installer authority boundary が false であることを確認できなかった"
                              ++ unless
                                  (dotted_is_false evidence
                                    "first_run.installer_silently_approves_permissions")
                                  "silent approval boundary が false であることを確認できなかった"))))))

  unfoldable pub first_run_evidence_errors : Fields → Result (List String)
  first_run_evidence_errors evidence = do
    visible ← hashed_set (get_dotted evidence "first_run.visible_surfaces")
    surfaces ← surface_errors (get_dotted evidence "first_run.visible_surfaces_evidence")
    ok (
        launch_errors evidence
        ++ (mediation_errors evidence
            ++ (unseen_labels visible (sort_texts required_visible_surfaces)
                ++ (surfaces ++ boundary_errors evidence))))

  unfoldable pub validate_installer_first_run : Fields → Result EvidenceResult
  validate_installer_first_run evidence = do
    errors ← first_run_evidence_errors evidence
    ok (
        conclusion errors "windows_installer_first_run_smoke"
          "-BrokerHelperExe と -NoPythonRuntime を指定して Windows installed first-run smoke を実行し、妥当な release_evidence/windows_installed_smoke.json を記録する。"
          "Windows installed executable の first-run smoke evidence が機械検証に合格した。"
          "release candidate ごとに Windows installed first-run evidence を最新に保つ。")
