-- ===== src/Tests/Bundles.antt =====
-- The bundle of evidence when the evidence file is missing.
use gui_shell_public.Prelude.{◌≡◌, refl, ◌↔◌, true, false, [], ◌∷◌, none}
use gui_shell_public.Outcome.{Result, ok, err}
use gui_shell_public.Value.{bool, str, Fields, end, dict, list, get}
use gui_shell_public.Value.Text.{json_dumps}
use gui_shell_public.Manifest.Check.{JsonLib}
use gui_shell_public.WindowsEvidence.Release.{
  EvidenceFile, all_failed, validate_windows_release_evidence,
}
use gui_shell_public.EvidenceBundle.{Reports, build_evidence_bundle, validate_evidence_bundle}
use gui_shell_public.EvidenceBundle.Claims.{IsSupported, built_bundle_iff}
use gui_shell_public.Tests.World.{world}
use gui_shell_public.Tests.Evidence.{search}

abbrev no_json : JsonLib
no_json = record {
  loads = λ text. none;
  message = λ text. "Expecting value";
  indented = json_dumps;
}

abbrev missing : EvidenceFile
missing = record { path = "evidence.json"; content = none }

reports : Reports
reports = record {
  windows_evidence = all_failed "evidence.json がない";
  assertions = dict (("ok", bool true) ∷ []);
  smoke = dict (("ok", bool true) ∷ []);
  snapshot = dict (
      ("trust_records", list (str "core" ∷ [])) ∷ ("authority_map", list (str "broker" ∷ [])) ∷ []);
  doctor = dict (
      ("installer_grants_authority", bool false)
      ∷ ("installer_silently_approves_permissions", bool false)
      ∷ ("checks", list (str "os" ∷ []))
      ∷ []);
}

bundle_in : Result Fields → Fields
bundle_in (ok bundle) = bundle
bundle_in (err e) = end

bundle : Fields
bundle = bundle_in (build_evidence_bundle reports)

no_evidence_runs :
    validate_windows_release_evidence world no_json search missing ≡ ok reports.windows_evidence
unfolding validate_windows_release_evidence gui_shell_public.WindowsEvidence.Release.results_of
    gui_shell_public.WindowsEvidence.Release.load_evidence reports all_failed search world
no_evidence_runs = refl

bundle_runs : build_evidence_bundle reports ≡ ok bundle
unfolding bundle build_evidence_bundle gui_shell_public.Value.index reports bundle_in
    gui_shell_public.EvidenceBundle.bundle_of
bundle_runs = refl

bundle_is_valid : validate_evidence_bundle bundle ≡ ok []
unfolding bundle validate_evidence_bundle gui_shell_public.EvidenceBundle.part
    gui_shell_public.Value.get_or bundle_in build_evidence_bundle gui_shell_public.Value.index
    reports gui_shell_public.EvidenceBundle.bundle_of gui_shell_public.Schema.Validation.iterate
    gui_shell_public.AuditChain.unless gui_shell_public.Value.truthy
    gui_shell_public.EvidenceBundle.bundle_blocker_errors
    gui_shell_public.EvidenceBundle.bundle_blockers all_failed
    gui_shell_public.WindowsEvidence.failed gui_shell_public.EvidenceBundle.blocker_fields
    gui_shell_public.WindowsEvidence.is_text gui_shell_public.Value.Equal.py_eq
bundle_is_valid = refl

built_bundle_iff_example :
    ((validate_evidence_bundle bundle ≡ ok []) ↔ IsSupported reports)
    × (get bundle "release_ready" ≡ bool false)
built_bundle_iff_example =
    built_bundle_iff world no_json search missing reports bundle no_evidence_runs bundle_runs
