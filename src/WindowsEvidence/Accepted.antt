-- ===== src/WindowsEvidence/Accepted.antt =====
-- tooling/windows_release_evidence.py: what the evidence shows when the program exits with 0.
use gui_shell_public.Prelude.{
  String, ◌≡◌, refl, ap, ◌∙◌, ◌≢◌, Bool, true, false, ◌==◌, ℕ, List, [], ◌∷◌, ◌++◌, Option, none,
  some, any_of, append-eq-nil, or-eq-false, arith, sort_texts,
}
use gui_shell_public.Outcome.{ok, >>=-eq-ok, ok-injective}
use gui_shell_public.Platform.{Platform}
use gui_shell_public.Value.{obj, Fields, get}
use gui_shell_public.Manifest.Check.{JsonLib}
use gui_shell_public.WindowsEvidence.{
  EvidenceResult, SearchLib, conclusion, get_dotted, dotted_is_false, any_record, texts_under,
  is_text,
}
use gui_shell_public.ReleaseGate.Resolved.{true_and_false}
use gui_shell_public.WindowsEvidence.Provenance.{validate_field_provenance}
use gui_shell_public.WindowsEvidence.Surfaces.{required_visible_surfaces}
use gui_shell_public.WindowsEvidence.FirstRun.{
  launch_errors, mediation_errors, unseen_labels, surface_errors, hashed_set,
  first_run_evidence_errors, validate_installer_first_run,
}
use gui_shell_public.WindowsEvidence.SetupDoctor.{validate_setup_doctor}
use gui_shell_public.WindowsEvidence.Broker.{validate_broker_smoke}
use gui_shell_public.WindowsEvidence.Anchor.{
  tamper_errors, validate_audit_anchor, anchor_provenance_errors, audit_required_field_provenance,
}
use gui_shell_public.WindowsEvidence.Release.{
  EvidenceFile, load_evidence, results_of, all_failed, blocks, exit_code,
  validate_windows_release_evidence, evidence_main,
}
use gui_shell_public.WindowsEvidence.Shown.{
  ShowsSetup, ShowsBroker, ShowsAnchor, ShowsInstaller, setup_shown, broker_shown, anchor_shown,
  installer_shown,
}

conclusion-clean :
    (errors : List String) (name required reason kept : String)
    → ((conclusion errors name required reason kept).classification == "release_blocker") ≡ false
    → errors ≡ []
unfolding conclusion gui_shell_public.WindowsEvidence.passed gui_shell_public.WindowsEvidence.failed
conclusion-clean [] name required reason kept h = refl
conclusion-clean (e ∷ errors) name required reason kept h = absurd (true_and_false refl h)

-- What is shown of the installer, the setup doctor, the broker and the audit anchor.
abbrev pub ShowsAll : Fields → Type 0
ShowsAll evidence =
    ShowsInstaller evidence
    × ((setup : Fields) × (get_dotted evidence "setup_doctor" ≡ obj setup) × ShowsSetup setup)
    × ((broker : Fields) × (get_dotted evidence "broker" ≡ obj broker) × ShowsBroker broker)
    × ((anchor : Fields) × (get evidence "audit_anchor_external_tamper_evidence" ≡ obj anchor)
        × ShowsAnchor anchor)

exit_zero : (b : Bool) → ok (exit_code b) ≡ ok 0 → b ≡ false
unfolding exit_code
exit_zero true h = absurd (one_is_not_zero (ok-injective h))
  where
    one_is_not_zero : ◌≢◌ {A = ℕ} 1 0
    one_is_not_zero k = omega arith
exit_zero false h = refl

first_run_shown :
    (P : Platform) (S : SearchLib) (evidence : Fields) {r : EvidenceResult}
    → validate_installer_first_run P S evidence ≡ ok r
    → blocks r ≡ false
    → ShowsInstaller evidence
unfolding validate_installer_first_run first_run_evidence_errors blocks
first_run_shown P S evidence h clean =
    let (errors, found, ends) = >>=-eq-ok (first_run_evidence_errors P S evidence) _ h in
    let none_found = conclusion-clean errors _ _ _ _ (ap blocks (ok-injective ends) ∙ clean) in
    let (visible, seen, after) =
      >>=-eq-ok (hashed_set (get_dotted evidence "first_run.visible_surfaces")) _
        (found ∙ ap ok none_found) in
    let (surfaces, matched, all) =
      >>=-eq-ok (surface_errors P S (get_dotted evidence "first_run.visible_surfaces_evidence")) _
        after in
    let labels = sort_texts required_visible_surfaces in
    let (launch, r1) = append-eq-nil (launch_errors P S evidence) _ (ok-injective all) in
    let (mediation, r2) = append-eq-nil (mediation_errors P S evidence) _ r1 in
    let (unseen, r3) = append-eq-nil (unseen_labels visible labels) _ r2 in
    installer_shown P S evidence (append-eq-nil surfaces _ r3).1

anchor_result_shown :
    (P : Platform) (evidence : Fields) {r : EvidenceResult}
    → validate_audit_anchor P evidence ≡ ok r
    → blocks r ≡ false
    → (anchor : Fields) × (get evidence "audit_anchor_external_tamper_evidence" ≡ obj anchor)
      × ShowsAnchor anchor
unfolding validate_audit_anchor blocks
anchor_result_shown P evidence h clean =
    let (origin, o, after) = >>=-eq-ok (anchor_provenance_errors (get evidence "provenance")) _ h in
    let (tamper, t, ends) =
      >>=-eq-ok (tamper_errors P (get evidence "audit_anchor_external_tamper_evidence")) _ after in
    let none_found = conclusion-clean _ _ _ _ _ (ap blocks (ok-injective ends) ∙ clean) in
    let fields = validate_field_provenance evidence audit_required_field_provenance false in
    let (o', r) = append-eq-nil origin (fields ++ tamper) none_found in
    anchor_shown P (get evidence "audit_anchor_external_tamper_evidence")
      (t ∙ ap ok (append-eq-nil fields tamper r).1)

module _ (P : Platform) (J : JsonLib) (S : SearchLib) (file : EvidenceFile) where
  results_shown :
      (p : Option Fields × String) (results : List EvidenceResult)
      → results_of P J S file p ≡ ok results
      → any_of blocks results ≡ false
      → (evidence : Fields) × (error : String) × (p ≡ (some evidence, error)) × ShowsAll evidence
  unfolding results_of any_of blocks all_failed gui_shell_public.WindowsEvidence.failed
      validate_setup_doctor validate_broker_smoke
  results_shown (none, error) results h clean =
      absurd (true_and_false refl (ap (any_of blocks) (ok-injective h) ∙ clean))
  results_shown (some evidence, error) results h clean =
      let (first, f, after) = >>=-eq-ok (validate_installer_first_run P S evidence) _ h in
      let (anchor, a, ends) = >>=-eq-ok (validate_audit_anchor P evidence) _ after in
      let (provenance, r1) = or-eq-false _ _ (ap (any_of blocks) (ok-injective ends) ∙ clean) in
      let (first_run, r2) = or-eq-false (blocks first) _ r1 in
      let (setup, r3) = or-eq-false (blocks (validate_setup_doctor evidence)) _ r2 in
      let (broker, r4) = or-eq-false (blocks (validate_broker_smoke evidence)) _ r3 in
      let (kept, r5) = or-eq-false (blocks anchor) _ r4 in
      (
        evidence,
        error,
        refl,
        (
          first_run_shown P S evidence f first_run,
          setup_shown (get_dotted evidence "setup_doctor") (conclusion-clean _ _ _ _ _ setup),
          broker_shown (get_dotted evidence "broker") (conclusion-clean _ _ _ _ _ broker),
          anchor_result_shown P evidence a kept,
        ),
      )

  -- If the program exits with 0, then the evidence file reads as an object that shows: the installer
  -- granted no authority and approved nothing silently; the setup doctor has all required checks, none
  -- failed or grants authority; every measured field of the broker is True; and the audit anchor is
  -- kept from a rewrite by the same user, with an external anchor or a signature behind any claim to
  -- resist an administrator.
  pub accepted_evidence :
      evidence_main P J S file ≡ ok 0
      → (evidence : Fields) × (error : String) × (load_evidence J file ≡ (some evidence, error))
        × ShowsAll evidence
  unfolding evidence_main validate_windows_release_evidence blocks
  accepted_evidence h =
      let (results, found, exit) = >>=-eq-ok (validate_windows_release_evidence P J S file) _ h in
      results_shown (load_evidence J file) results found (exit_zero (any_of blocks results) exit)
