-- ===== src/Tests/Machines.antt =====
-- The setup doctor and first runs on a machine where every probe succeeds, and the invariant report.
use gui_shell_public.Prelude.{
  String, ◌≡◌, refl, Bool, true, false, List, [], ◌∷◌, Option, none, some, ◌↔◌, ◌==◌, if◌then◌else◌,
}
use gui_shell_public.Prelude.Int.{pos}
use gui_shell_public.Value.{bool, str, obj, Fields, end, get}
use gui_shell_public.Value.Text.{json_dumps}
use gui_shell_public.InvariantEvaluator.{
  Repository, shell_core_imports_forbidden, evaluate_invariants,
}
use gui_shell_public.InvariantEvaluator.Imports.{IsIndependent, evaluate_invariants-imports_iff}
use gui_shell_public.Outcome.{Result, ok, err}
use gui_shell_public.Tests.World.{world}
use gui_shell_public.Installer.{
  Machine, AppFiles, setup_doctor_report, first_run_smoke, first_config, check_tool,
}
use gui_shell_public.Installer.Authority.{setup_doctor_always_warns, first_runs, first_runs-config}

abbrev pub machine : Machine
machine = record {
  system = "Linux";
  platform_text = "Linux-6.1";
  architecture = "x86_64";
  processor = "x86_64";
  which = λ name. some "/usr/bin/python3";
  connect_ex = λ port. pos 111;
  exists = λ path. true;
  write_error = λ path. none;
  root = "/opt/gui_shell";
  audit_storage = "/opt/gui_shell/.gui-shell/audit";
}

abbrev fresh : AppFiles
fresh = record { app_root = "/home/user/gui_shell"; config_text = none }

-- The files whose configuration the user has edited.
abbrev edited_files : AppFiles
edited_files = record {
  app_root = "/home/user/gui_shell";
  config_text = some "{\"first_run_complete\": true, \"theme\": \"dark\"}";
}

edited_config_stays :
    (first_run_smoke machine json_dumps edited_files).0.config_text ≡ edited_files.config_text
unfolding first_run_smoke
edited_config_stays = refl

python_is_found : get (check_tool machine "python3" "Install Python 3." true) "status" ≡ str "pass"
unfolding check_tool get gui_shell_public.Installer.check_result
python_is_found = refl

setup_doctor_always_warns_example : get (setup_doctor_report machine).0 "status" ≡ str "warning"
setup_doctor_always_warns_example = setup_doctor_always_warns machine

first_runs-config_example :
    ((text : String)
      → edited_files.config_text ≡ some text
      → (first_runs json_dumps (machine ∷ machine ∷ []) edited_files).config_text ≡ some text)
    × (edited_files.config_text ≡ none
        → (first_runs json_dumps (machine ∷ machine ∷ []) edited_files).config_text
          ≡ some (json_dumps (obj (first_config "/home/user/gui_shell/audit"))))
first_runs-config_example = first_runs-config json_dumps edited_files machine (machine ∷ [])

abbrev pub repository : Repository
repository = record {
  shell_core = some (
      record {
        parts = "packages" ∷ "shell_core" ∷ "audit_chain.py" ∷ [];
        lines = "import copy" ∷ [];
      }
      ∷ []);
  mobile_texts = none;
  lower = λ s. s;
}

-- One file that imports Flutter behind white space and in capitals.
abbrev flutter_repository : Repository
flutter_repository = record repository {
  shell_core = some (
      record {
        parts = "packages" ∷ "shell_core" ∷ "view.py" ∷ [];
        lines = "import copy" ∷ "  From Flutter import app" ∷ [];
      }
      ∷ []);
  lower = λ s. if s == "From Flutter import app" then "from flutter import app" else s;
}

flags_of : Result Fields → Fields
flags_of (ok flags) = flags
flags_of (err e) = end

flags : Fields
flags = flags_of (evaluate_invariants world repository machine)

flags_run : evaluate_invariants world repository machine ≡ ok flags
unfolding flags flags_of evaluate_invariants
    gui_shell_public.InvariantEvaluator.adapter_metadata_can_escalate_authority
    gui_shell_public.AdapterLoader.load_adapter get gui_shell_public.Value.index
    gui_shell_public.Schema.Validation.iterate gui_shell_public.Value.get_or
    gui_shell_public.Normalization.Findings.authority_values_in
    gui_shell_public.Normalization.Strip.strip_authority_keys
    gui_shell_public.Normalization.Keys.canonical_authority_key
    gui_shell_public.Normalization.Keys.normalize_key world gui_shell_public.Value.put
    gui_shell_public.Normalization.Keys.is_authority_value
    gui_shell_public.InvariantEvaluator.full_payload_projected_without_full_visibility
    gui_shell_public.ContentExposure.project_approval_content gui_shell_public.Value.Equal.py_eq
flags_run = refl

no_flutter_import : shell_core_imports_forbidden repository "flutter" ≡ false
unfolding shell_core_imports_forbidden gui_shell_public.Prelude.any_of
    gui_shell_public.Normalization.Text.strip
no_flutter_import = refl

evaluate_invariants-imports_iff_example :
    ((get flags "flutter_imported_by_shell_core" ≡ bool false) ↔ IsIndependent repository "flutter")
    × ((get flags "blue_tanuki_imported_by_shell_core" ≡ bool false)
        ↔ IsIndependent repository "blue_tanuki")
evaluate_invariants-imports_iff_example =
    evaluate_invariants-imports_iff world repository machine flags flags_run

flutter_import : shell_core_imports_forbidden flutter_repository "flutter" ≡ true
unfolding shell_core_imports_forbidden gui_shell_public.Prelude.any_of
    gui_shell_public.Normalization.Text.strip
flutter_import = refl
