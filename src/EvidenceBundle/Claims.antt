-- ===== src/EvidenceBundle/Claims.antt =====
-- tooling/evidence_bundle.py: when a bundle that was just built is valid.
use gui_shell_public.Prelude.{
  String, ◌≡◌, refl, sym, ap, ◌∙◌, ◌↔◌, true, false, ◌==◌, eq_iff, arith, ℕ, suc, List, [], ◌∷◌,
  map, Option, none, some, All, Bool-cases, inl, inr,
}
use gui_shell_public.Outcome.{ok, >>=-eq-ok, ok-injective}
use gui_shell_public.Platform.{Platform}
use gui_shell_public.Value.{
  Value, bool, obj, of_list, Items, cons, Fields, get, get_or, has, index, truthy,
}
use gui_shell_public.Value.Equal.{py_eq}
use gui_shell_public.Value.Laws.{index-get, is_true_iff, is_false_iff}
use gui_shell_public.Schema.Validation.{iterate}
use gui_shell_public.AuditChain.{unless}
use gui_shell_public.ReleaseGate.Resolved.{true_and_false}
use gui_shell_public.Manifest.Check.{JsonLib}
use gui_shell_public.WindowsEvidence.{
  EvidenceResult, SearchLib, failed, passed, conclusion, is_text,
}
use gui_shell_public.WindowsEvidence.Provenance.{validate_provenance_and_isolation}
use gui_shell_public.WindowsEvidence.FirstRun.{
  first_run_evidence_errors, validate_installer_first_run,
}
use gui_shell_public.WindowsEvidence.SetupDoctor.{validate_setup_doctor}
use gui_shell_public.WindowsEvidence.Broker.{validate_broker_smoke}
use gui_shell_public.WindowsEvidence.Anchor.{
  anchor_provenance_errors, tamper_errors, validate_audit_anchor,
}
use gui_shell_public.WindowsEvidence.Release.{
  EvidenceFile, load_evidence, all_failed, results_of, validate_windows_release_evidence,
}
use gui_shell_public.EvidenceBundle.{
  Reports, blocker_fields, bundle_blockers, bundle_of, build_evidence_bundle, part,
  bundle_blocker_errors, validate_evidence_bundle, missing_keys,
}

-- A result that is a release blocker says that it blocks the release.
abbrev pub IsConsistent : EvidenceResult → Type 0
IsConsistent r = r.classification ≡ "release_blocker" → r.blocks_release ≡ "yes"

conclusion-IsConsistent :
    (errors : List String) (name required reason kept : String)
    → IsConsistent (conclusion errors name required reason kept)
unfolding conclusion failed passed
conclusion-IsConsistent [] name required reason kept h =
    absurd (true_and_false ((eq_iff "none" "release_blocker").1 h) refl)
conclusion-IsConsistent (e ∷ errors) name required reason kept h = refl

one_blocker :
    (r : EvidenceResult) (i : ℕ) (items : Items)
    → r.classification ≡ "release_blocker"
    → r.blocks_release ≡ "yes"
    → bundle_blocker_errors i (cons (obj (blocker_fields r)) items)
      ≡ bundle_blocker_errors (suc i) items
unfolding bundle_blocker_errors blocker_fields missing_keys has get unless is_text py_eq
one_blocker r i items blocks says =
    rw
      ((eq_iff r.classification "release_blocker").1 blocks, (eq_iff r.blocks_release "yes").1 says)
      refl

-- The blockers of consistent results have no errors.
blockers_fine :
    (results : List EvidenceResult) (i : ℕ)
    → All IsConsistent results
    → bundle_blocker_errors i (of_list (map obj (bundle_blockers results))) ≡ []
unfolding bundle_blockers bundle_blocker_errors
blockers_fine [] i h = refl
blockers_fine (r ∷ results) i (here, rest) =
    elim (Bool-cases (r.classification == "release_blocker")) [
      | inl blocks ↦
          let named = (eq_iff r.classification "release_blocker").0 blocks in
          rw blocks (one_blocker r i _ named (here named) ∙ blockers_fine results (suc i) rest)
      | inr other ↦ rw other (blockers_fine results i rest)
    ]

first_run-IsConsistent :
    (P : Platform) (S : SearchLib) (evidence : Fields) (r : EvidenceResult)
    → validate_installer_first_run P S evidence ≡ ok r
    → IsConsistent r
unfolding validate_installer_first_run
first_run-IsConsistent P S evidence r h =
    let (errors, found, ends) = >>=-eq-ok (first_run_evidence_errors P S evidence) _ h in
    rw (← ok-injective ends) (conclusion-IsConsistent errors _ _ _ _)

audit_anchor-IsConsistent :
    (P : Platform) (evidence : Fields) (r : EvidenceResult)
    → validate_audit_anchor P evidence ≡ ok r
    → IsConsistent r
unfolding validate_audit_anchor
audit_anchor-IsConsistent P evidence r h =
    let (origin, o, after) = >>=-eq-ok (anchor_provenance_errors (get evidence "provenance")) _ h in
    let (tamper, t, ends) =
      >>=-eq-ok (tamper_errors P (get evidence "audit_anchor_external_tamper_evidence")) _ after in
    rw (← ok-injective ends) (conclusion-IsConsistent _ _ _ _ _)

results-IsConsistent :
    (P : Platform) (J : JsonLib) (S : SearchLib) (file : EvidenceFile) (p : Option Fields × String)
    (results : List EvidenceResult)
    → results_of P J S file p ≡ ok results
    → All IsConsistent results
unfolding results_of all_failed failed validate_provenance_and_isolation validate_setup_doctor
    validate_broker_smoke
results-IsConsistent P J S file (none, error) results h =
    let yes : ◌≡◌ {A = String} "release_blocker" "release_blocker" → ◌≡◌ {A = String} "yes" "yes" =
      λ u. refl in
    rw (← ok-injective h) (yes, (yes, (yes, (yes, (yes, tt)))))
results-IsConsistent P J S file (some evidence, error) results h =
    let (first, f, after) = >>=-eq-ok (validate_installer_first_run P S evidence) _ h in
    let (anchor, a, ends) = >>=-eq-ok (validate_audit_anchor P evidence) _ after in
    rw (← ok-injective ends) (
      conclusion-IsConsistent _ _ _ _ _,
      (
        first_run-IsConsistent P S evidence first f,
        (
          conclusion-IsConsistent _ _ _ _ _,
          (conclusion-IsConsistent _ _ _ _ _, (audit_anchor-IsConsistent P evidence anchor a, tt)),
        ),
      ),
    )

bundle_of-valid :
    (R : Reports) (mediated grants silent : Value)
    → All IsConsistent R.windows_evidence
    → (validate_evidence_bundle (bundle_of R mediated grants silent) ≡ ok []) ↔ (
        (mediated ≡ bool true)
        × (grants ≡ bool false)
        × (truthy (get R.snapshot "trust_records") ≡ true)
        × (truthy (get R.snapshot "authority_map") ≡ true)
        × (truthy (get R.doctor "checks") ≡ true)
        × (truthy (get R.smoke "ok") ≡ true)
        × (truthy (get R.assertions "ok") ≡ true))
unfolding validate_evidence_bundle bundle_of part get_or has get iterate unless
bundle_of-valid R mediated grants silent consistent =
    rw (blockers_fine R.windows_evidence 0 consistent)
      (ground (arith, is_true_iff mediated, is_false_iff grants))

-- The reports say that the Flutter surface is mediated, that the installer grants no authority and that
-- the release smokes passed, and there are trust records, an authority map and setup checks.
abbrev pub IsSupported : Reports → Type 0
IsSupported R =
    (get R.assertions "ok" ≡ bool true)
    × (get R.doctor "installer_grants_authority" ≡ bool false)
    × (truthy (get R.snapshot "trust_records") ≡ true)
    × (truthy (get R.snapshot "authority_map") ≡ true)
    × (truthy (get R.doctor "checks") ≡ true)
    × (truthy (get R.smoke "ok") ≡ true)

-- A bundle that was built on the results of the Windows evidence is valid exactly if its reports
-- support it, whatever the results are, and it never says that the release is ready.
pub built_bundle_iff :
    (P : Platform) (J : JsonLib) (S : SearchLib) (file : EvidenceFile) (R : Reports)
    (bundle : Fields)
    → validate_windows_release_evidence P J S file ≡ ok R.windows_evidence
    → build_evidence_bundle R ≡ ok bundle
    → ((validate_evidence_bundle bundle ≡ ok []) ↔ IsSupported R)
      × (get bundle "release_ready" ≡ bool false)
unfolding build_evidence_bundle validate_windows_release_evidence bundle_of get truthy
built_bundle_iff P J S file R bundle results built =
    let (mediated, m, h1) = >>=-eq-ok (index R.assertions "ok") _ built in
    let (grants, g, h2) = >>=-eq-ok (index R.doctor "installer_grants_authority") _ h1 in
    let (silent, s, ends) =
      >>=-eq-ok (index R.doctor "installer_silently_approves_permissions") _ h2 in
    let consistent = results-IsConsistent P J S file (load_evidence J file) _ results in
    let valid = bundle_of-valid R mediated grants silent consistent in
    let a = index-get R.assertions "ok" mediated m in
    let b = index-get R.doctor "installer_grants_authority" grants g in
    rw (← ok-injective ends) (
      (
        λ h.
            let (says, grants_none, trust, authority, checks, smoke, truth) = valid.0 h in
            (a ∙ says, b ∙ grants_none, trust, authority, checks, smoke),
        λ (says, grants_none, trust, authority, checks, smoke).
            valid.1
              (sym a ∙ says, sym b ∙ grants_none, trust, authority, checks, smoke, ap truthy says),
      ),
      refl,
    )
