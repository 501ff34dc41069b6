-- ===== src/Installer/Authority.antt =====
-- installer/setup_doctor.py and installer/first_run.py on any machine: the grants of authority in the
-- report, and the configuration after first runs.
use gui_shell_public.Prelude.{
  String, ◌<>◌, ◌≡◌, refl, Bool, true, false, not, List, [], ◌∷◌, Option, none, some, All, any_of,
  Bool-cases, inl, inr,
}
use gui_shell_public.Value.{Value, bool, str, obj, Fields, get, is_false}
use gui_shell_public.Value.Equal.{py_eq}
use gui_shell_public.Installer.{
  Machine, check_result, check_tool, check_path, check_os, check_arch, check_port_available,
  check_public_bind, check_filesystem_permission, all_checks, setup_doctor_report, unless_false,
  first_run_errors, AppFiles, first_config, kept_or, first_run_smoke, tool_result, access_result,
}

-- A check that does not grant authority.
abbrev pub GrantsNothing : Fields → Type 0
GrantsNothing check = get check "grants_authority" ≡ bool false

check_result-GrantsNothing :
    (id status message : String) (recovery : Option String) (detail : String) (goes_on : Bool)
    → GrantsNothing (check_result id status message recovery detail goes_on)
unfolding check_result get
check_result-GrantsNothing id status message recovery detail goes_on = refl

tool_result-GrantsNothing :
    (name recovery : String) (required : Bool) (path : Option String)
    → GrantsNothing (tool_result name recovery required path)
unfolding tool_result
tool_result-GrantsNothing name recovery required none = check_result-GrantsNothing _ _ _ _ _ _
tool_result-GrantsNothing name recovery required (some path) =
    check_result-GrantsNothing _ _ _ _ _ _

access_result-GrantsNothing :
    (path : String) (problem : Option String) → GrantsNothing (access_result path problem)
unfolding access_result
access_result-GrantsNothing path none = check_result-GrantsNothing _ _ _ _ _ _
access_result-GrantsNothing path (some problem) = check_result-GrantsNothing _ _ _ _ _ _

pub none_grants :
    (checks : List Fields)
    → All GrantsNothing checks
    → any_of (λ check. not (is_false (get check "grants_authority"))) checks ≡ false
unfolding any_of
none_grants [] h = refl
none_grants (check ∷ checks) h = rw (h.0) (none_grants checks h.1)

any_of_later :
    (test : Fields → Bool) (check : Fields) (checks : List Fields)
    → any_of test checks ≡ true
    → any_of test (check ∷ checks) ≡ true
unfolding any_of
any_of_later test check checks h = elim (Bool-cases (test check)) [
  | inl a ↦ rw a
  | inr a ↦ rw (a, h)
]

abbrev is_not_pass : Fields → Bool
is_not_pass check = not (py_eq (get check "status") (str "pass"))

public_bind_warns : (checks : List Fields) → any_of is_not_pass (check_public_bind ∷ checks) ≡ true
unfolding any_of check_public_bind check_result get py_eq
public_bind_warns checks = refl

module _ (M : Machine) where
  check_tool-GrantsNothing :
      (name recovery : String) (required : Bool)
      → GrantsNothing (check_tool M name recovery required)
  unfolding check_tool
  check_tool-GrantsNothing name recovery required =
      tool_result-GrantsNothing name recovery required _

  pub all_checks-GrantsNothing : All GrantsNothing (all_checks M)
  unfolding all_checks check_path check_os check_arch check_port_available check_public_bind
      check_filesystem_permission get check_result
  all_checks-GrantsNothing =
      let tool = check_tool-GrantsNothing in
      let access = access_result-GrantsNothing M.audit_storage (M.write_error M.audit_storage) in
      (
        refl,
        (
          refl,
          (
            tool _ _ _,
            (
              tool _ _ _,
              (
                tool _ _ _,
                (
                  refl,
                  (refl, (access, (refl, (refl, (refl, (refl, (refl, (refl, (refl, tt))))))))),
                ),
              ),
            ),
          ),
        ),
      )

  -- On any machine, the first run finds no grant of authority in the setup doctor's report.
  pub first_run_finds_no_grant : first_run_errors (setup_doctor_report M) ≡ []
  unfolding first_run_errors setup_doctor_report unless_false get
  first_run_finds_no_grant = rw (none_grants (all_checks M) all_checks-GrantsNothing)

  some_check_fails : any_of is_not_pass (all_checks M) ≡ true
  unfolding all_checks
  some_check_fails =
      let later = any_of_later is_not_pass in
      later _ _ (later _ _ (later _ _ (later _ _ (later _ _ (later _ _ (public_bind_warns _))))))

  -- On any machine, the setup doctor's status is `warning`, also where every probe succeeds.
  pub setup_doctor_always_warns : get (setup_doctor_report M).0 "status" ≡ str "warning"
  unfolding setup_doctor_report get
  setup_doctor_always_warns = rw (some_check_fails)

-- First runs one after the other, each on the machine as it finds it then.
unfoldable pub first_runs : (Value → String) → List Machine → AppFiles → AppFiles
first_runs indented [] files = files
first_runs indented (M ∷ Ms) files = first_runs indented Ms (first_run_smoke M indented files).0

-- A configuration that is there stays, whatever it says.
first_runs_keep :
    (indented : Value → String) (files : AppFiles) (text : String) (Ms : List Machine)
    → files.config_text ≡ some text
    → (first_runs indented Ms files).config_text ≡ some text
unfolding first_runs first_run_smoke kept_or
first_runs_keep indented files text [] h = h
first_runs_keep indented files text (M ∷ Ms) h =
    first_runs_keep indented (first_run_smoke M indented files).0 text Ms (rw h)

-- After one or more first runs, on any machines, the text of the configuration is the one that stood
-- there before them, edited or not, and where there was none the one that a first run writes for the
-- audit directory below the application's root.
pub first_runs-config :
    (indented : Value → String) (files : AppFiles) (M : Machine) (Ms : List Machine)
    → ((text : String)
        → files.config_text ≡ some text
        → (first_runs indented (M ∷ Ms) files).config_text ≡ some text)
      × (files.config_text ≡ none
          → (first_runs indented (M ∷ Ms) files).config_text
            ≡ some (indented (obj (first_config (files.app_root <> "/audit")))))
unfolding first_runs first_run_smoke kept_or
first_runs-config indented files M Ms = (
  λ text h. first_runs_keep indented files text (M ∷ Ms) h,
  λ h. first_runs_keep indented (first_run_smoke M indented files).0 _ Ms (rw h),
)
