-- ===== src/InvariantEvaluator.antt =====
-- packages/shell_core/invariant_evaluator.py: the flags that say whether a boundary is open.
pub mod Imports
use gui_shell_public.Prelude.{
  String, ◌<>◌, Bool, true, false, not, ◌||◌, ◌==◌, List, [], ◌∷◌, Option, none, some, any_of, map,
  join, if◌then◌else◌, starts_with, is_part,
}
use gui_shell_public.Outcome.{Result, ok, ◌>>=◌}
use gui_shell_public.Platform.{Platform}
use gui_shell_public.Value.{bool, str, arr, obj, Fields, dict, list, has, get, put, is_false}
use gui_shell_public.Value.Equal.{py_eq}
use gui_shell_public.Normalization.Text.{strip}
use gui_shell_public.PermissionLedger.{non_authority_sources, can_grant_authority_from_source}
use gui_shell_public.ContentExposure.{project_approval_content}
use gui_shell_public.AdapterLoader.{load_adapter, effective_capabilities}
use gui_shell_public.Installer.{Machine, setup_doctor_report}

-- A Python file below packages/shell_core: the parts of its path, and its lines.
pub record CodeFile : Type 0 where
  pub parts : List String
  pub lines : List String

-- The repository as the evaluator sees it, none for a directory that is missing, and s.lower(). The
-- files come in the order of `sorted`.
pub record Repository : Type 0 where
  pub shell_core : Option (List CodeFile)
  pub mobile_texts : Option (List String)
  pub lower : String → String

module _ (R : Repository) where
  imports_module : String → String → Bool
  imports_module forbidden line =
      let normalized = R.lower (strip line) in
      starts_with normalized ("import " <> forbidden)
      || starts_with normalized ("from " <> forbidden)

  file_imports : String → CodeFile → Bool
  file_imports forbidden file =
      if any_of (λ part. part == "__pycache__") file.parts
      then false
      else any_of (imports_module forbidden) file.lines

  unfoldable pub shell_core_imports_forbidden : String → Bool
  unfolding file_imports imports_module starts_with
  shell_core_imports_forbidden forbidden = elim R.shell_core [
    | none ↦ true
    | some files ↦ any_of (file_imports forbidden) files
  ]

  unfoldable pub mobile_device_state_can_grant_authority : Bool
  unfolding is_part
  mobile_device_state_can_grant_authority = elim R.mobile_texts [
    | none ↦ false
    | some texts ↦
        any_of (λ pattern. is_part pattern (join "\n" (map R.lower texts)))
          ("independent authority: true" ∷ "silently pair" ∷ "adapter_can_approve: true"
            ∷ "metadata_trusted: true" ∷ [])
  ]

abbrev probe_adapter : Fields
probe_adapter = dict (
    ("adapter_id", str "invariant_probe")
    ∷ ("runtime_id", str "runtime_probe")
    ∷ ("contract_version", str "1.0.0")
    ∷ ("authority_strip", bool true)
    ∷ ("declared_capabilities", list (str "runtime.read" ∷ []))
    ∷ (
      "metadata",
      obj (
          dict (
            ("Trust_Level", str "root")
            ∷ ("permissionGrant", str "all")
            ∷ ("safe_label", str "probe")
            ∷ [])),
    )
    ∷ [])

abbrev probe_approval : Fields
probe_approval = dict (
    ("content_visibility", str "redacted")
    ∷ (
      "payload_hash",
      str "sha256:1111111111111111111111111111111111111111111111111111111111111111",
    )
    ∷ ("summary", str "summary")
    ∷ ("redacted_payload", obj (dict (("path", str "notes/today.md") ∷ [])))
    ∷ ("full_payload", obj (dict (("path", str "notes/today.md") ∷ ("content", str "secret") ∷ [])))
    ∷ [])

unfoldable pub non_authority_sources_can_grant_authority : Bool
non_authority_sources_can_grant_authority =
    any_of can_grant_authority_from_source non_authority_sources

unfoldable pub installer_setup_state_can_grant_authority : Machine → Bool
installer_setup_state_can_grant_authority M =
    let (report, checks) = setup_doctor_report M in
    if not (is_false (get report "installer_grants_authority"))
    then true
    else if not (is_false (get report "installer_silently_approves_permissions"))
    then true
    else any_of (λ check. not (is_false (get check "grants_authority"))) checks

module _ (P : Platform) where
  unfoldable pub adapter_metadata_can_escalate_authority : Result Bool
  adapter_metadata_can_escalate_authority = do
    a ← load_adapter P probe_adapter
    ok (
        not (py_eq a.metadata (obj (dict (("safe_label", str "probe") ∷ []))))
        || not (py_eq (arr (effective_capabilities a)) (list (str "runtime.read" ∷ []))))

  shows_full : List String → Result Bool
  shows_full [] = ok false
  shows_full (visibility ∷ rest) =
      let after = shows_full rest in
      project_approval_content P (put probe_approval "content_visibility" (str visibility))
      >>= λ shown. elim (has shown "full_payload") [ true ↦ ok true | false ↦ after ]

  unfoldable pub full_payload_projected_without_full_visibility : Result Bool
  unfolding shows_full
  full_payload_projected_without_full_visibility =
      shows_full ("none" ∷ "hash_only" ∷ "summary" ∷ "redacted" ∷ [])

  -- `evaluate`
  unfoldable pub evaluate_invariants : Repository → Machine → Result Fields
  evaluate_invariants R M = do
    metadata ← adapter_metadata_can_escalate_authority
    full ← full_payload_projected_without_full_visibility
    ok (
        dict (
          ("flutter_imported_by_shell_core", bool (shell_core_imports_forbidden R "flutter"))
          ∷ (
            "blue_tanuki_imported_by_shell_core",
            bool (shell_core_imports_forbidden R "blue_tanuki"),
          )
          ∷ ("adapter_metadata_can_escalate_authority", bool metadata)
          ∷ (
            "memory_cache_previous_state_can_grant_authority",
            bool non_authority_sources_can_grant_authority,
          )
          ∷ ("full_payload_projected_without_full_visibility", bool full)
          ∷ (
            "installer_setup_state_can_grant_authority",
            bool (installer_setup_state_can_grant_authority M),
          )
          ∷ (
            "mobile_device_state_can_grant_authority",
            bool (mobile_device_state_can_grant_authority R),
          )
          ∷ []))
