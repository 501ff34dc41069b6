-- ===== src/ReleaseGate/Passes.antt =====
-- tooling/release_gate_check.py: what a release that the gate lets pass has.
use gui_shell_public.Prelude.{
  String, ◌≡◌, refl, ap, ◌∙◌, ◌≢◌, ◌⊎◌, inl, inr, Bool, true, false, ◌==◌, ℕ, List, [], ◌∷◌, ◌++◌,
  is_empty, is_empty_iff, Bool-cases, if◌then◌else◌, append-eq-nil, arith, join, eq_iff,
}
use gui_shell_public.Outcome.{ok, >>=-eq-ok, ok-injective}
use gui_shell_public.Platform.{Platform}
use gui_shell_public.Normalization.Text.{strip}
use gui_shell_public.Value.{obj, str, arr, Items, nil, cons, Fields, get, get_or}
use gui_shell_public.Value.Equal.{py_eq, py_eq-str}
use gui_shell_public.Schema.Validation.{iterate}
use gui_shell_public.Manifest.Check.{JsonLib, run_check, check_manifest}
use gui_shell_public.Manifest.Entries.{cons-nonempty, map-eq-nil}
use gui_shell_public.Manifest.Current.{IsUpToDate, check_manifest_iff}
use gui_shell_public.ReleaseGate.{windows_evidence_status_source, registry_errors}
use gui_shell_public.WindowsEvidence.{EvidenceResult, SearchLib}
use gui_shell_public.WindowsEvidence.Release.{validate_windows_release_evidence}
use gui_shell_public.ReleaseGate.Blockers.{
  effective_release_blocker, is_unresolved, unresolved_among, windows_evidence_results,
  unresolved_active_blockers,
}
use gui_shell_public.ReleaseGate.Resolved.{
  IsWindows, IsPassed, IsBlocking, effective-unresolved_iff, IsPassed-or_not, true_and_false,
}
use gui_shell_public.ReleaseGate.Docs.{TextLib, macos_support_claim_errors}
use gui_shell_public.ReleaseGate.Gate.{
  blocker_message, Inputs, scan_all, claim_errors, combined_text, scan_files, sync_errors,
  load_release_blocker_registry, manifest_check_errors, blocker_messages, strict_errors,
  last_errors, gate_errors, gate_report, gate_main,
}

-- The Windows evidence that the blocker asks for has passed, or its own status is no longer
-- "unresolved".
abbrev pub IsSettled : Platform → List EvidenceResult → Fields → Type 0
IsSettled P evidence b =
    (IsWindows b × IsPassed P evidence b) ⊎ ((¬ IsWindows b) × (get b "status" ≢ str "unresolved"))

-- The predicate holds of every record of the list.
abbrev pub AllBlockers {ℓ} : (Fields → Type ℓ) → Items → Type ℓ
AllBlockers Q nil = Unit
AllBlockers Q (cons (obj b) items) = Q b × AllBlockers Q items
AllBlockers Q (cons v items) = AllBlockers Q items

settled :
    (P : Platform) (results : List EvidenceResult) (b : Fields)
    → is_unresolved (effective_release_blocker P b results) ≡ false
    → IsBlocking b
    → IsSettled P results b
settled P results b resolved blocks =
    let reads = py_eq-str (get b "status_source") windows_evidence_status_source in
    let counts = effective-unresolved_iff P b results in
    elim (Bool-cases (py_eq (get b "status_source") (str windows_evidence_status_source))) [
      | inl windows ↦ elim (IsPassed-or_not P results b) [
        | inl passed ↦ inl (reads.0 windows, passed)
        | inr failed ↦ absurd (
            true_and_false
              (counts.1 (blocks, λ source. failed, λ other. absurd (other (reads.0 windows))))
              resolved)
      ]
      | inr manual ↦
          let differs : ¬ IsWindows b = λ source. true_and_false (reads.1 source) manual in
          inr (
            differs,
            λ own.
                true_and_false (counts.1 (blocks, λ source. absurd (differs source), λ other. own))
                  resolved,
          )
    ]

none_before :
    {A : Type 0} (b : Bool) (x : A) (xs : List A)
    → (if b then x ∷ xs else xs) ≡ []
    → (b ≡ false) × (xs ≡ [])
none_before true x xs h = cc
none_before false x xs h = (refl, h)

all-IsSettled :
    (P : Platform) (results : List EvidenceResult) (items : Items)
    → unresolved_among P results items ≡ []
    → AllBlockers (λ b. IsBlocking b → IsSettled P results b) items
unfolding unresolved_among
all-IsSettled P results nil h = tt
all-IsSettled P results (cons (obj b) items) h =
    let (here, rest) = none_before _ (effective_release_blocker P b results) _ h in
    (settled P results b here, all-IsSettled P results items rest)
all-IsSettled P results (cons _ items) h = all-IsSettled P results items h

-- What `main` returns without errors.
clean_exit : (errors lines : List String) → ok (gate_report errors) ≡ ok (0, lines) → errors ≡ []
unfolding gate_report
clean_exit [] lines h = refl
clean_exit (e ∷ errors) lines h = absurd (one_is_not_zero (ap (λ r. r.0) (ok-injective h)))
  where
    one_is_not_zero : ◌≢◌ {A = ℕ} 1 0
    one_is_not_zero k = omega arith

no_messages :
    (P : Platform) (blockers : List Fields) → blocker_messages P blockers ≡ ok [] → blockers ≡ []
unfolding blocker_messages
no_messages P [] h = refl
no_messages P (b ∷ blockers) h =
    let (message, here, after) = >>=-eq-ok (blocker_message P b) _ h in
    let (rest, later, both) = >>=-eq-ok (blocker_messages P blockers) _ after in
    absurd (cons-nonempty (ok-injective both))

-- A text that is not empty has a line.
abbrev pub IsSplitting : TextLib → Type 0
IsSplitting T = (s : String) → s ≢ "" → T.split_lines s ≢ []

failed_check :
    (T : TextLib) (printed : List String)
    → IsSplitting T
    → manifest_check_errors T (1, printed) ≢ []
unfolding manifest_check_errors
failed_check T printed splits h = elim (Bool-cases (strip (join "\n" printed) == "")) [
  | inl silent ↦ absurd (cons-nonempty (rw silent at h))
  | inr spoken ↦
      splits (strip (join "\n" printed))
        (λ same. true_and_false ((eq_iff (strip (join "\n" printed)) "").1 same) spoken)
        ((map-eq-nil _ (T.split_lines (strip (join "\n" printed)))).0 (rw spoken at h))
]

manifest_clean :
    (T : TextLib) (J : JsonLib) (I : Inputs)
    → IsSplitting T
    → manifest_check_errors T (run_check J I.workspace) ≡ []
    → check_manifest J I.workspace ≡ []
unfolding run_check
manifest_clean T J I splits h = elim (Bool-cases (is_empty (check_manifest J I.workspace))) [
  | inl clean ↦ (is_empty_iff (check_manifest J I.workspace)).0 clean
  | inr dirty ↦ absurd (failed_check T _ splits (rw dirty at h))
]

module _ (P : Platform) (J : JsonLib) (T : TextLib) (S : SearchLib) (I : Inputs) where
  -- The blockers of the registry that the code goes through.
  abbrev pub IsBlockerList : Items → Type 0
  IsBlockerList items =
      (registry : Fields) × (load_release_blocker_registry J I.registry_text ≡ ok registry)
      × (iterate (get_or registry "blockers" (arr nil)) ≡ ok items)

  -- Every active blocker of the registry is settled, in view of the results of the Windows evidence if
  -- one of the blockers asks for them.
  abbrev pub IsReleasable : Type 0
  IsReleasable =
      (items : Items) × (results : List EvidenceResult) × IsBlockerList items
      × (windows_evidence_results (validate_windows_release_evidence P J S I.evidence_file) items
          ≡ ok results)
      × AllBlockers (λ b. IsBlocking b → IsSettled P results b) items

  strict_clean : strict_errors P J T S I true [] ≡ ok [] → IsReleasable
  unfolding strict_errors unresolved_active_blockers
  strict_clean h =
      let evidence = validate_windows_release_evidence P J S I.evidence_file in
      let (registry, loads, after) =
        >>=-eq-ok (load_release_blocker_registry J I.registry_text) _ h in
      let (blockers, found, messages) =
        >>=-eq-ok (unresolved_active_blockers P evidence registry) _ after in
      let (items, lists, r1) = >>=-eq-ok (iterate (get_or registry "blockers" (arr nil))) _ found in
      let (results, asked, among) = >>=-eq-ok (windows_evidence_results evidence items) _ r1 in
      let none_left = ok-injective among ∙ no_messages P blockers messages in
      (items, results, (registry, loads, lists), asked, all-IsSettled P results items none_left)

  -- If the gate passes in a strict release, then the registry of release blockers has no error, it
  -- reads as an object, every active blocker in it is settled by Windows evidence that has passed or
  -- by its own status, and the manifest is up to date. Relied on: a text that is not empty has lines.
  pub strict_release_passes :
      (lines : List String)
      → IsSplitting T
      → gate_main P J T S I true ≡ ok (0, lines)
      → (registry_errors P J I.registry_text ≡ ok []) × IsReleasable × IsUpToDate J I.workspace
  unfolding gate_main gate_errors last_errors
  strict_release_passes lines splits h =
      let (errors, collected, exit) = >>=-eq-ok (gate_errors P J T S I true) _ h in
      let (found, registry, e1) = >>=-eq-ok (registry_errors P J I.registry_text) _ collected in
      let scanned = scan_all T I.docs scan_files ++ found in
      let (synced, sync, e2) = >>=-eq-ok (sync_errors P J T S I scanned) _ e1 in
      let (unresolved, strict, e3) =
        >>=-eq-ok (strict_errors P J T S I true (scanned ++ synced)) _ e2 in
      let (s, r1) = append-eq-nil scanned _ (ok-injective e3 ∙ clean_exit errors lines exit) in
      let (y, r2) = append-eq-nil synced _ r1 in
      let (u, r3) = append-eq-nil unresolved _ r2 in
      let f = (append-eq-nil (scan_all T I.docs scan_files) found s).1 in
      let (m, manifest) =
        append-eq-nil (macos_support_claim_errors T (combined_text I.docs scan_files)) _
          (append-eq-nil (claim_errors P J T S I (combined_text I.docs scan_files)) _ r3).1 in
      let nothing = strict_clean (rw (s, y, u) at strict) in
      (
        registry ∙ ap ok f,
        nothing,
        (check_manifest_iff J I.workspace).0 (manifest_clean T J I splits manifest),
      )
