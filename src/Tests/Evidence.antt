-- ===== src/Tests/Evidence.antt =====
-- Windows evidence that is complete, and the exit code for it.
use gui_shell_public.Prelude.{
  String, ◌<>◌, ◌≡◌, refl, Bool, true, false, List, [], ◌∷◌, Option, none, some, is_part,
}
use gui_shell_public.Prelude.Int.{pos}
use gui_shell_public.Outcome.{ok}
use gui_shell_public.Value.{Value, bool, num, str, obj, Fields, dict, list, get, put}
use gui_shell_public.Value.Text.{json_dumps}
use gui_shell_public.Manifest.Check.{JsonLib}
use gui_shell_public.WindowsEvidence.{SearchLib}
use gui_shell_public.WindowsEvidence.Release.{EvidenceFile, load_evidence, evidence_main}
use gui_shell_public.WindowsEvidence.Accepted.{ShowsAll, accepted_evidence}
use gui_shell_public.Tests.World.{world}

-- A digest tag, and one class of evidence.
abbrev tag : String
tag = "sha256:0000000000000000000000000000000000000000000000000000000000000000"

abbrev live : Value
live = str "LIVE_RUNTIME"

abbrev origin : Fields
origin =
    (dict (
      ("run_id", (str "run1"))
      ∷ ("source_commit", (str "0000000000000000000000000000000000000000"))
      ∷ ("source_worktree_clean", bool true)
      ∷ ("build_command", (str "build"))
      ∷ ("build_timestamp", (str "t"))
      ∷ ("staged_manifest_path", (str "m"))
      ∷ ("installed_manifest_sha256", (str tag))
      ∷ ("app_artifact_sha256", (str tag))
      ∷ ("broker_artifact_sha256", (str tag))
      ∷ ("evidence_bundle_sha256", (str tag))
      ∷ (
        "isolation",
        (obj (
            dict (
              ("uses_shared_fixed_install_root", bool false)
              ∷ ("isolated_install_root", (str "C:/run1/isolated_install_root"))
              ∷ ("isolated_runtime_dir", (str "C:/run1/isolated_runtime_dir"))
              ∷ ("isolated_store_dir", (str "C:/run1/isolated_store_dir"))
              ∷ ("isolated_config_dir", (str "C:/run1/isolated_config_dir"))
              ∷ ("isolated_audit_dir", (str "C:/run1/isolated_audit_dir"))
              ∷ []))),
      )
      ∷ (
        "evidence_bundle_files",
        (list (
            (obj (
              dict (
                ("kind", (str "setup_doctor"))
                ∷ ("path", (str "setup_doctor"))
                ∷ ("sha256", (str tag))
                ∷ [])))
            ∷ (obj (
                dict (
                  ("kind", (str "broker_smoke"))
                  ∷ ("path", (str "broker_smoke"))
                  ∷ ("sha256", (str tag))
                  ∷ [])))
            ∷ (obj (
                dict (
                  ("kind", (str "visible_surfaces"))
                  ∷ ("path", (str "visible_surfaces"))
                  ∷ ("sha256", (str tag))
                  ∷ [])))
            ∷ (obj (
                dict (
                  ("kind", (str "runtime_assertions"))
                  ∷ ("path", (str "runtime_assertions"))
                  ∷ ("sha256", (str tag))
                  ∷ [])))
            ∷ (obj (
                dict (
                  ("kind", (str "audit_anchor_external_tamper_evidence"))
                  ∷ ("path", (str "audit_anchor_external_tamper_evidence"))
                  ∷ ("sha256", (str tag))
                  ∷ [])))
            ∷ [])),
      )
      ∷ ("final_evidence_sha256", (str tag))
      ∷ []))

abbrev sources : Fields
sources =
    (dict (
      (
        "artifact",
        (obj (
            dict (
              ("source_type", (str "directly_measured"))
              ∷ ("evidence_class", (str "EXTERNAL_EVIDENCE"))
              ∷ ("formal_release_input", bool true)
              ∷ []))),
      )
      ∷ (
        "first_run.process",
        (obj (
            dict (
              ("source_type", (str "directly_measured"))
              ∷ ("evidence_class", live)
              ∷ ("formal_release_input", bool true)
              ∷ []))),
      )
      ∷ (
        "first_run.visible_surfaces",
        (obj (
            dict (
              ("source_type", (str "directly_measured"))
              ∷ ("evidence_class", (list (live ∷ [])))
              ∷ ("formal_release_input", bool true)
              ∷ []))),
      )
      ∷ (
        "first_run.config_audit",
        (obj (
            dict (
              ("source_type", (str "directly_measured"))
              ∷ ("evidence_class", live)
              ∷ ("formal_release_input", bool true)
              ∷ []))),
      )
      ∷ (
        "first_run.installer_authority_boundary",
        (obj (
            dict (
              ("source_type", (str "static_assertion"))
              ∷ ("evidence_class", (str "CONFIG"))
              ∷ ("formal_release_input", bool true)
              ∷ []))),
      )
      ∷ (
        "setup_doctor",
        (obj (
            dict (
              ("source_type", (str "product_export"))
              ∷ ("evidence_class", live)
              ∷ ("formal_release_input", bool true)
              ∷ []))),
      )
      ∷ (
        "broker.ipc_restart_crash",
        (obj (
            dict (
              ("source_type", (str "directly_measured"))
              ∷ ("evidence_class", live)
              ∷ ("formal_release_input", bool true)
              ∷ []))),
      )
      ∷ (
        "release_runtime_assertions",
        (obj (
            dict (
              ("source_type", (str "static_assertion"))
              ∷ ("evidence_class", (str "CONFIG"))
              ∷ ("formal_release_input", bool true)
              ∷ []))),
      )
      ∷ (
        "audit_anchor.external_tamper_evidence",
        (obj (
            dict (
              ("source_type", (str "directly_measured"))
              ∷ ("evidence_class", live)
              ∷ ("formal_release_input", bool true)
              ∷ []))),
      )
      ∷ ("unsupported_claims", (list ([])))
      ∷ []))

abbrev surfaces : Fields
surfaces =
    (dict (
      ("source", (str "uiautomation"))
      ∷ ("path", (str "tree.json"))
      ∷ ("aggregate_surface_shortcut_detected", bool false)
      ∷ ("surface_match_requirements_met", bool true)
      ∷ (
        "surface_matches",
        (obj (
            dict (
              (
                "Dashboard",
                (obj (
                    dict (
                      ("matched", bool true)
                      ∷ ("name", (str "Dashboard"))
                      ∷ ("automation_id", (str ""))
                      ∷ ("control_type", (str "Text"))
                      ∷ ("element_key", (str "e0"))
                      ∷ []))),
              )
              ∷ (
                "NavigationRail",
                (obj (
                    dict (
                      ("matched", bool true)
                      ∷ ("name", (str "NavigationRail"))
                      ∷ ("automation_id", (str ""))
                      ∷ ("control_type", (str "Text"))
                      ∷ ("element_key", (str "e1"))
                      ∷ []))),
              )
              ∷ (
                "Runtime Status",
                (obj (
                    dict (
                      ("matched", bool true)
                      ∷ ("name", (str "Runtime Status"))
                      ∷ ("automation_id", (str ""))
                      ∷ ("control_type", (str "Text"))
                      ∷ ("element_key", (str "e2"))
                      ∷ []))),
              )
              ∷ (
                "Invariant Status",
                (obj (
                    dict (
                      ("matched", bool true)
                      ∷ ("name", (str "Invariant Status"))
                      ∷ ("automation_id", (str ""))
                      ∷ ("control_type", (str "Text"))
                      ∷ ("element_key", (str "e3"))
                      ∷ []))),
              )
              ∷ []))),
      )
      ∷ (
        "diagnostic_tree",
        (obj (
            dict (
              (
                "observed_elements",
                (list (
                    (obj (
                      dict (
                        ("element_key", (str "element_key"))
                        ∷ ("runtime_id", (str "runtime_id"))
                        ∷ ("parent_runtime_id", (str "parent_runtime_id"))
                        ∷ ("name", (str "name"))
                        ∷ ("automation_id", (str "automation_id"))
                        ∷ ("control_type", (str "control_type"))
                        ∷ ("class_name", (str "class_name"))
                        ∷ ("framework_id", (str "framework_id"))
                        ∷ ("supported_patterns", (str "supported_patterns"))
                        ∷ [])))
                    ∷ [])),
              )
              ∷ ("tree_edges", (list ([])))
              ∷ []))),
      )
      ∷ []))

abbrev launch : Fields
launch =
    (dict (
      ("status", (str "passed"))
      ∷ ("launched_from_installed_path", bool true)
      ∷ ("process_running_after_launch", bool true)
      ∷ ("process_id", num (pos 7))
      ∷ ("main_window_handle", num (pos 9))
      ∷ ("first_window_visible", bool true)
      ∷ ("broker_mediated_launch", bool true)
      ∷ ("broker_helper_path", (str "b"))
      ∷ ("broker_endpoint_file", (str "e"))
      ∷ ("broker_endpoint_created", bool true)
      ∷ ("broker_transport", (str "authenticated_loopback_tcp"))
      ∷ ("no_python_runtime_requested", bool true)
      ∷ ("python_runtime_path_scrubbed", bool true)
      ∷ ("python_path_entries_remaining_count", num (pos 0))
      ∷ ("python_commands_visible_after_scrub", (list ([])))
      ∷ ("visible_surfaces_complete", bool true)
      ∷ (
        "visible_surfaces",
        (list (
            (str "Dashboard")
            ∷ (str "NavigationRail")
            ∷ (str "Runtime Status")
            ∷ (str "Invariant Status")
            ∷ [])),
      )
      ∷ ("config_created", bool true)
      ∷ ("config_json_valid", bool true)
      ∷ ("config_path", (str "c"))
      ∷ ("audit_dir_writable", bool true)
      ∷ (
        "audit_write_probe",
        (obj (
            dict (
              ("attempted", bool true)
              ∷ ("write", bool true)
              ∷ ("read", bool true)
              ∷ ("delete", bool true)
              ∷ []))),
      )
      ∷ ("audit_dir", (str "a"))
      ∷ ("installer_grants_authority", bool false)
      ∷ ("installer_silently_approves_permissions", bool false)
      ∷ ("visible_surfaces_evidence", obj surfaces)
      ∷ []))

abbrev setup : Fields
setup =
    (dict (
      ("formal_product_evidence", bool true)
      ∷ ("status", (str "pass"))
      ∷ (
        "evidence_source",
        (obj (
            dict (
              ("source_kind", (str "installed_app_machine_readable_export"))
              ∷ ("product_generated", bool true)
              ∷ ("collector_derives_checks", bool false)
              ∷ ("synthetic", bool false)
              ∷ ("command", (str "c"))
              ∷ []))),
      )
      ∷ ("ran_from_installed_app_path", bool true)
      ∷ ("operator_readable", bool true)
      ∷ ("installer_grants_authority", bool false)
      ∷ ("installer_silently_approves_permissions", bool false)
      ∷ (
        "checks",
        (list (
            (obj (
              dict (
                ("check_id", (str "windows.installed_app_path"))
                ∷ ("status", (str "pass"))
                ∷ ("grants_authority", bool false)
                ∷ ("recovery_instruction", (str "r"))
                ∷ [])))
            ∷ (obj (
                dict (
                  ("check_id", (str "windows.artifact_hash"))
                  ∷ ("status", (str "pass"))
                  ∷ ("grants_authority", bool false)
                  ∷ ("recovery_instruction", (str "r"))
                  ∷ [])))
            ∷ (obj (
                dict (
                  ("check_id", (str "first_run.config_created"))
                  ∷ ("status", (str "pass"))
                  ∷ ("grants_authority", bool false)
                  ∷ ("recovery_instruction", (str "r"))
                  ∷ [])))
            ∷ (obj (
                dict (
                  ("check_id", (str "first_run.audit_dir_writable"))
                  ∷ ("status", (str "pass"))
                  ∷ ("grants_authority", bool false)
                  ∷ ("recovery_instruction", (str "r"))
                  ∷ [])))
            ∷ (obj (
                dict (
                  ("check_id", (str "setup_doctor.ran_from_installed_app_path"))
                  ∷ ("status", (str "pass"))
                  ∷ ("grants_authority", bool false)
                  ∷ ("recovery_instruction", (str "r"))
                  ∷ [])))
            ∷ (obj (
                dict (
                  ("check_id", (str "setup_doctor.runtime_connection"))
                  ∷ ("status", (str "pass"))
                  ∷ ("grants_authority", bool false)
                  ∷ ("recovery_instruction", (str "r"))
                  ∷ [])))
            ∷ (obj (
                dict (
                  ("check_id", (str "setup_doctor.authority_boundary"))
                  ∷ ("status", (str "pass"))
                  ∷ ("grants_authority", bool false)
                  ∷ ("recovery_instruction", (str "r"))
                  ∷ [])))
            ∷ (obj (
                dict (
                  ("check_id", (str "setup_doctor.network_public_bind"))
                  ∷ ("status", (str "pass"))
                  ∷ ("grants_authority", bool false)
                  ∷ ("recovery_instruction", (str "r"))
                  ∷ [])))
            ∷ (obj (
                dict (
                  ("check_id", (str "setup_doctor.recovery_instruction"))
                  ∷ ("status", (str "pass"))
                  ∷ ("grants_authority", bool false)
                  ∷ ("recovery_instruction", (str "r"))
                  ∷ [])))
            ∷ (obj (
                dict (
                  ("check_id", (str "setup_doctor.audit_storage"))
                  ∷ ("status", (str "pass"))
                  ∷ ("grants_authority", bool false)
                  ∷ ("recovery_instruction", (str "r"))
                  ∷ [])))
            ∷ [])),
      )
      ∷ []))

abbrev measured : Fields
measured =
    (dict (
      ("status", (str "passed"))
      ∷ (
        "evidence_source",
        (obj (
            dict (
              ("collector", (str "installer/windows/collect_broker_smoke.ps1"))
              ∷ ("collector_version", (str "1"))
              ∷ ("synthetic", bool false)
              ∷ ("command", (str "c"))
              ∷ []))),
      )
      ∷ (
        "field_provenance",
        (obj (
            dict (
              (
                "helper_exe_exists",
                (obj (
                    dict (
                      ("source_type", (str "directly_measured")) ∷ ("evidence_class", live) ∷ []))),
              )
              ∷ (
                "session_file_created",
                (obj (
                    dict (
                      ("source_type", (str "directly_measured")) ∷ ("evidence_class", live) ∷ []))),
              )
              ∷ (
                "restricted_loopback_bind",
                (obj (
                    dict (
                      ("source_type", (str "directly_measured")) ∷ ("evidence_class", live) ∷ []))),
              )
              ∷ (
                "authenticated_ipc_connection",
                (obj (
                    dict (
                      ("source_type", (str "directly_measured")) ∷ ("evidence_class", live) ∷ []))),
              )
              ∷ (
                "durable_store_ready",
                (obj (
                    dict (
                      ("source_type", (str "directly_measured")) ∷ ("evidence_class", live) ∷ []))),
              )
              ∷ (
                "restart_replay_rejected",
                (obj (
                    dict (
                      ("source_type", (str "directly_measured")) ∷ ("evidence_class", live) ∷ []))),
              )
              ∷ (
                "fresh_health_after_restart",
                (obj (
                    dict (
                      ("source_type", (str "directly_measured")) ∷ ("evidence_class", live) ∷ []))),
              )
              ∷ (
                "crash_fail_closed",
                (obj (
                    dict (
                      ("source_type", (str "directly_measured")) ∷ ("evidence_class", live) ∷ []))),
              )
              ∷ []))),
      )
      ∷ ("helper_exe_exists", bool true)
      ∷ ("session_file_created", bool true)
      ∷ ("restricted_loopback_bind", bool true)
      ∷ ("authenticated_ipc_connection", bool true)
      ∷ ("durable_store_ready", bool true)
      ∷ ("restart_replay_rejected", bool true)
      ∷ ("fresh_health_after_restart", bool true)
      ∷ ("crash_fail_closed", bool true)
      ∷ ("endpoint_host", (str "127.0.0.1"))
      ∷ ("replay_error_code", (str "broker_replay_detected"))
      ∷ []))

abbrev anchor : Fields
anchor =
    (dict (
      ("status", (str "passed"))
      ∷ ("installed_path_verified", bool true)
      ∷ ("key_anchor_log_same_user_rewrite_mitigated", bool true)
      ∷ ("dpapi_verified", bool true)
      ∷ (
        "evidence_source",
        (obj (
            dict (
              ("source_kind", (str "windows_acl_dpapi_probe"))
              ∷ ("evidence_class", live)
              ∷ ("synthetic", bool false)
              ∷ ("command", (str "c"))
              ∷ ("path", (str "p"))
              ∷ ("sha256", (str tag))
              ∷ []))),
      )
      ∷ []))

abbrev pub evidence : Fields
evidence = dict (
    ("platform", str "windows")
    ∷ (
      "evidence_source",
      obj (
          dict (
            ("collector", str "installer/windows/collect_installed_smoke.ps1")
            ∷ ("collector_version", str "1")
            ∷ ("manual_confirmation", bool false)
            ∷ [])),
    )
    ∷ (
      "artifact",
      obj (
          dict (
            ("sha256", str tag)
            ∷ ("installed_exe_exists", bool true)
            ∷ ("installed_exe_path", str "C:/run1/shell.exe")
            ∷ [])),
    )
    ∷ ("first_run", obj launch)
    ∷ ("setup_doctor", obj setup)
    ∷ ("broker", obj measured)
    ∷ ("provenance", obj origin)
    ∷ ("field_provenance", obj sources)
    ∷ ("audit_anchor_external_tamper_evidence", obj anchor)
    ∷ [])

json : JsonLib
json = record {
  loads = λ text. some (obj evidence);
  message = λ text. "Expecting value";
  indented = json_dumps;
}

unfoldable pub search : SearchLib
search = record { lower = λ s. s; search_label = λ label s. is_part label s }

abbrev pub evidence_file : EvidenceFile
evidence_file = record {
  path = "release_evidence/windows_installed_smoke.json";
  content = some ("{}", tag);
}

accepted : evidence_main world json search evidence_file ≡ ok 0
unfolding evidence_main gui_shell_public.WindowsEvidence.Release.validate_windows_release_evidence
    gui_shell_public.WindowsEvidence.Release.results_of load_evidence json
    gui_shell_public.WindowsEvidence.FirstRun.validate_installer_first_run
    gui_shell_public.WindowsEvidence.FirstRun.first_run_evidence_errors
    gui_shell_public.WindowsEvidence.FirstRun.hashed_set gui_shell_public.Value.truthy
    gui_shell_public.WindowsEvidence.get_dotted gui_shell_public.Prelude.split_on
    gui_shell_public.Value.has get gui_shell_public.Schema.Validation.iterate
    gui_shell_public.Store.key_of gui_shell_public.WindowsEvidence.FirstRun.surface_errors
    gui_shell_public.ReleaseGate.in_set
    gui_shell_public.WindowsEvidence.Anchor.validate_audit_anchor search world
    gui_shell_public.WindowsEvidence.Anchor.anchor_provenance_errors
    gui_shell_public.WindowsEvidence.Anchor.kinds_hash
    gui_shell_public.WindowsEvidence.Anchor.tamper_errors
    gui_shell_public.WindowsEvidence.Anchor.anchor_source_errors
    gui_shell_public.WindowsEvidence.Release.exit_code gui_shell_public.Prelude.any_of
    gui_shell_public.WindowsEvidence.Release.blocks
    gui_shell_public.WindowsEvidence.Provenance.validate_provenance_and_isolation
    gui_shell_public.WindowsEvidence.conclusion
    gui_shell_public.WindowsEvidence.Provenance.provenance_errors gui_shell_public.AuditChain.unless
    gui_shell_public.WindowsEvidence.str_or_empty gui_shell_public.Value.Text.text_of
    gui_shell_public.WindowsEvidence.is_sha256_tag gui_shell_public.Value.Equal.py_eq
    gui_shell_public.WindowsEvidence.Provenance.path_contains_run_id is_part
    gui_shell_public.WindowsEvidence.with_backslashes gui_shell_public.Prelude.ends_with
    gui_shell_public.Prelude.sort_texts gui_shell_public.Prelude.difference
    gui_shell_public.Prelude.member gui_shell_public.WindowsEvidence.texts_under
    gui_shell_public.WindowsEvidence.Provenance.validate_field_provenance
    gui_shell_public.WindowsEvidence.Provenance.groups_errors
    gui_shell_public.WindowsEvidence.Provenance.group_errors
    gui_shell_public.WindowsEvidence.is_text
    gui_shell_public.WindowsEvidence.Provenance.observed_classes
    gui_shell_public.WindowsEvidence.passed gui_shell_public.WindowsEvidence.FirstRun.launch_errors
    gui_shell_public.WindowsEvidence.FirstRun.launch_source_errors
    gui_shell_public.WindowsEvidence.dotted_is_true gui_shell_public.WindowsEvidence.is_int
    gui_shell_public.WindowsEvidence.FirstRun.is_handle
    gui_shell_public.WindowsEvidence.FirstRun.mediation_errors
    gui_shell_public.WindowsEvidence.FirstRun.python_command_errors
    gui_shell_public.WindowsEvidence.FirstRun.unseen_labels gui_shell_public.Prelude.text_lt
    gui_shell_public.Store.key_eqb
    gui_shell_public.WindowsEvidence.Surfaces.validate_surface_match_evidence
    gui_shell_public.WindowsEvidence.Surfaces.match_errors
    gui_shell_public.WindowsEvidence.Surfaces.contains_surface_label
    gui_shell_public.WindowsEvidence.Surfaces.contains_all_required_surfaces
    gui_shell_public.WindowsEvidence.Surfaces.normalised_text
    gui_shell_public.Normalization.Text.strip gui_shell_public.WindowsEvidence.Surfaces.matched_keys
    gui_shell_public.Prelude.as_set gui_shell_public.Prelude.take gui_shell_public.Value.values
    gui_shell_public.Value.keys gui_shell_public.WindowsEvidence.FirstRun.boundary_errors
    gui_shell_public.WindowsEvidence.FirstRun.probe_errors
    gui_shell_public.WindowsEvidence.dotted_is_false
    gui_shell_public.WindowsEvidence.SetupDoctor.validate_setup_doctor
    gui_shell_public.WindowsEvidence.SetupDoctor.setup_errors
    gui_shell_public.WindowsEvidence.one_of
    gui_shell_public.WindowsEvidence.SetupDoctor.setup_source_errors
    gui_shell_public.WindowsEvidence.SetupDoctor.setup_check_errors
    gui_shell_public.WindowsEvidence.any_record
    gui_shell_public.WindowsEvidence.Broker.validate_broker_smoke
    gui_shell_public.WindowsEvidence.Broker.broker_errors
    gui_shell_public.WindowsEvidence.Broker.broker_source_errors
    gui_shell_public.WindowsEvidence.Broker.is_dict
    gui_shell_public.WindowsEvidence.Broker.broker_field_errors
    gui_shell_public.WindowsEvidence.Broker.measured_by
    gui_shell_public.WindowsEvidence.Broker.declarations_errors
    gui_shell_public.WindowsEvidence.Broker.is_none_or_empty
    gui_shell_public.WindowsEvidence.Anchor.is_protected
    gui_shell_public.WindowsEvidence.Anchor.claim_is_backed
accepted = refl

accepted_evidence_example :
    (found : Fields) × (error : String) × (load_evidence json evidence_file ≡ (some found, error))
    × ShowsAll found
accepted_evidence_example = accepted_evidence world json search evidence_file accepted
