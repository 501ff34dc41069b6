-- ===== src/Installer.antt =====
-- installer/setup_doctor.py and installer/first_run.py: the report on a machine, and the first run.
pub mod Authority
use gui_shell_public.Prelude.{
  String, ◌<>◌, Bool, true, false, not, ◌&&◌, ◌||◌, ◌==◌, ℕ, List, [], ◌∷◌, ◌++◌, Option, none,
  some, map, any_of, is_empty, if◌then◌else◌,
}
use gui_shell_public.Prelude.Int.{ℤ, pos, int_text, int_eqb}
use gui_shell_public.Value.{Value, null, bool, str, obj, Fields, dict, list, get, is_false}
use gui_shell_public.Value.Equal.{py_eq}

-- What the probes find. `write_error` is the text of the OSError that writing to a directory raises.
pub record Machine : Type 0 where
  pub system : String
  pub platform_text : String
  pub architecture : String
  pub processor : String
  pub which : String → Option String
  pub connect_ex : ℕ → ℤ
  pub exists : String → Bool
  pub write_error : String → Option String
  pub root : String
  pub audit_storage : String

text_or_none : Option String → Value
text_or_none none = null
text_or_none (some text) = str text

-- `check_result`, its keyword arguments behind the others
unfoldable pub check_result : String → String → String → Option String → String → Bool → Fields
unfolding text_or_none
check_result check_id status message recovery_action technical_detail can_continue = dict (
    ("check_id", str check_id)
    ∷ ("status", str status)
    ∷ ("message", str message)
    ∷ ("technical_detail", str technical_detail)
    ∷ ("recovery_action", text_or_none recovery_action)
    ∷ ("recovery_instruction", text_or_none recovery_action)
    ∷ ("can_continue", bool can_continue)
    ∷ ("grants_authority", bool false)
    ∷ [])

-- The result of `shutil.which`, of which the empty text counts as not found.
found_at : Option String → Option String
found_at none = none
found_at (some path) = if path == "" then none else some path

tool_result : String → String → Bool → Option String → Fields
tool_result name recovery required none =
    check_result ("tool." <> name) (if required then "fail" else "warning") (name <> " not found")
      (some recovery) "not on PATH" (not required)
tool_result name recovery required (some path) =
    check_result ("tool." <> name) "pass" (name <> " found") none path true

access_result : String → Option String → Fields
access_result path none =
    check_result "filesystem.permission" "pass" "audit storage path writable" none path true
access_result path (some problem) =
    check_result "filesystem.permission" "fail" "audit storage path not writable"
      (some "Choose a writable local audit storage directory.") problem false

unfoldable pub check_public_bind : Fields
check_public_bind =
    check_result "network.public_bind" "warning" "Public bind requires explicit operator review"
      (some
        "Keep runtimes on localhost unless a permission and approval explicitly allow public bind.")
      "0.0.0.0 and external interfaces are not approved by default" true

module _ (M : Machine) where
  unfoldable pub check_tool : String → String → Bool → Fields
  unfolding tool_result found_at
  check_tool name recovery required = tool_result name recovery required (found_at (M.which name))

  -- The path is given from the root.
  unfoldable pub check_path : String → String → String → Fields
  check_path path check_id recovery =
      let there = M.exists path in
      check_result check_id (if there then "pass" else "fail")
        (path <> (if there then " exists" else " missing")) (if there then none else some recovery)
        (M.root <> ("/" <> path)) there

  unfoldable pub check_os : Fields
  check_os = check_result "host.os" "pass" ("OS: " <> M.system) none M.platform_text true

  unfoldable pub check_arch : Fields
  check_arch =
      check_result "host.arch" "pass" ("CPU architecture: " <> M.architecture) none M.processor true

  unfoldable pub check_port_available : ℕ → Fields
  check_port_available port =
      let text = int_text (pos port) in
      let available = not (int_eqb (M.connect_ex port) (pos 0)) in
      check_result ("port." <> text) (if available then "pass" else "warning")
        ("localhost port " <> (text <> (if available then " available" else " already in use")))
        (if available
          then none
          else some
              ("Stop the process using port " <> (text <> " or choose a different runtime port.")))
        ("connect_ex=" <> int_text (M.connect_ex port)) true

  unfoldable pub check_filesystem_permission : String → Fields
  unfolding access_result
  check_filesystem_permission path = access_result path (M.write_error path)

  unfoldable pub all_checks : List Fields
  all_checks =
      check_os
      ∷ check_arch
      ∷ check_tool "python3" "Install Python 3 and rerun Setup Doctor." true
      ∷ check_tool "cargo" "Install Rust/Cargo before running native helper tests." false
      ∷ check_tool "flutter"
          "Install Flutter before analyzing or launching the desktop operator shell." false
      ∷ check_port_available 11434
      ∷ check_public_bind
      ∷ check_filesystem_permission M.audit_storage
      ∷ check_path "examples/contracts/runtime_manifest.valid.json" "runtime.catalog"
          "Restore runtime manifest contract examples."
      ∷ check_path "examples/contracts/adapter_manifest.valid.json" "adapter.manifest"
          "Restore adapter manifest contract examples."
      ∷ check_path "examples/contracts/agent_workspace.valid.json" "agent.workspace_boundary"
          "Restore agent workspace contract examples."
      ∷ check_path "packages/blue_tanuki_adapter" "adapter.readiness"
          "Restore the reference adapter package."
      ∷ check_path "examples/contracts/update.valid.json" "update.policy"
          "Restore update policy contract examples."
      ∷ check_path "examples/contracts/audit.valid.json" "audit.storage_contract"
          "Restore audit contract examples."
      ∷ check_path "examples/contracts/recovery.valid.json" "recovery.catalog"
          "Restore recovery contract examples."
      ∷ []

  -- A report: its dict, and the list that stands in it under "checks".
  unfoldable pub setup_doctor_report : Fields × List Fields
  setup_doctor_report =
      let status =
        if any_of (λ check. not (py_eq (get check "status") (str "pass"))) all_checks
        then "warning"
        else "pass" in
      (
        dict (
            ("status", str status)
            ∷ ("checks", list (map obj all_checks))
            ∷ ("installer_grants_authority", bool false)
            ∷ ("installer_silently_approves_permissions", bool false)
            ∷ ("operator_readable", bool true)
            ∷ []),
        all_checks,
      )

-- if value is not False: errors.append(message)
unfoldable pub unless_false : Value → String → List String
unless_false v message = if is_false v then [] else message ∷ []

-- The errors of `first_run_smoke` about a report.
unfoldable pub first_run_errors : Fields × List Fields → List String
first_run_errors (report, checks) =
    unless_false (get report "installer_grants_authority") "環境診断が権限を付与している"
    ++ (unless_false (get report "installer_silently_approves_permissions") "環境診断が権限要求を無言で承認している"
        ++ (if any_of (λ check. not (is_false (get check "grants_authority"))) checks
            then "環境診断の検査項目が権限を付与している" ∷ []
            else []))

-- The directory of the application, and the text of its config/gui_shell.json if there is one.
pub record AppFiles : Type 0 where
  pub app_root : String
  pub config_text : Option String

-- What a first run writes into the configuration; the audit directory is a text.
unfoldable pub first_config : String → Fields
first_config audit_dir = dict (
    ("first_run_complete", bool true)
    ∷ ("installer_grants_authority", bool false)
    ∷ ("installer_silently_approves_permissions", bool false)
    ∷ ("audit_dir", str audit_dir)
    ∷ [])

kept_or : Option String → String → String
kept_or none text = text
kept_or (some old) text = old

-- `first_run_smoke`: the files after it, and its report; `indented` is json.dumps with indent=2.
unfoldable pub first_run_smoke : Machine → (Value → String) → AppFiles → AppFiles × Fields
unfolding kept_or
first_run_smoke M indented files =
    let audit_dir = files.app_root <> "/audit" in
    let errors = first_run_errors (setup_doctor_report M) in
    (
      record files {
        config_text = some (kept_or files.config_text (indented (obj (first_config audit_dir))));
      },
      dict (
          ("ok", bool (is_empty errors))
          ∷ ("errors", list (map str errors))
          ∷ ("config_path", str (files.app_root <> "/config/gui_shell.json"))
          ∷ ("audit_dir", str audit_dir)
          ∷ ("config_created", bool true)
          ∷ ("audit_dir_writable", bool true)
          ∷ ("setup_doctor_status", get (setup_doctor_report M).0 "status")
          ∷ ("installer_grants_authority", bool false)
          ∷ ("installer_silently_approves_permissions", bool false)
          ∷ []),
    )
