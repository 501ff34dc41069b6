-- ===== src/ReleaseGate/Resolved.antt =====
-- tooling/release_gate_check.py: when a release blocker counts as unresolved.
use gui_shell_public.Prelude.{
  String, ◌≡◌, refl, sym, ◌∙◌, ◌↔◌, ◌≢◌, ◌⊎◌, inl, inr, Bool, true, false, ◌==◌, eq_iff, arith,
  List, Option, none, some, Bool-cases, Option-cases, if◌then◌else◌,
}
use gui_shell_public.Platform.{Platform}
use gui_shell_public.Value.{bool, str, Fields, get, put}
use gui_shell_public.Value.Equal.{py_eq, py_eq-str}
use gui_shell_public.Value.Laws.{is_true_iff, get-put}
use gui_shell_public.ReleaseGate.{windows_evidence_status_source}
use gui_shell_public.WindowsEvidence.{EvidenceResult}
use gui_shell_public.ReleaseGate.Blockers.{
  result_named, result_passed, by_evidence, evidence_name, effective_release_blocker, is_unresolved,
}

-- The blocker takes its status from the Windows evidence.
abbrev pub IsWindows : Fields → Type 0
IsWindows blocker = get blocker "status_source" ≡ str windows_evidence_status_source

-- The blocker's evidence is there, has passed and is not itself a release blocker.
abbrev pub IsPassed : Platform → List EvidenceResult → Fields → Type 0
IsPassed P results blocker =
    (r : EvidenceResult) × (result_named results (evidence_name P blocker) ≡ some r)
    × (r.status ≡ "passed")
    × (r.classification ≢ "release_blocker")

-- An active record that blocks the release.
abbrev pub IsBlocking : Fields → Type 0
IsBlocking blocker =
    (get blocker "active" ≡ bool true)
    × (get blocker "classification" ≡ str "release_blocker")
    × (get blocker "blocks_release" ≡ bool true)

is_unresolved_iff :
    (e : Fields) → (is_unresolved e ≡ true) ↔ (IsBlocking e × (get e "status" ≡ str "unresolved"))
unfolding is_unresolved
is_unresolved_iff e = ground (
  arith,
  is_true_iff (get e "active"),
  is_true_iff (get e "blocks_release"),
  py_eq-str (get e "status") "unresolved",
  py_eq-str (get e "classification") "release_blocker",
)

-- An entry under another key than the three that the evidence sets.
by_evidence-other :
    (e : Fields) (name : String) (o : Option EvidenceResult) (j : String)
    → ("status" == j) ≡ false
    → ("reason" == j) ≡ false
    → ("required_action" == j) ≡ false
    → get (by_evidence e name o) j ≡ get e j
unfolding by_evidence
by_evidence-other e name none j a b c = rw (get-put, c, get-put, b, get-put, a) refl
by_evidence-other e name (some r) j a b c = elim (Bool-cases (result_passed r)) [
  | inl passed ↦ rw (passed, get-put, c, get-put, b, get-put, a) refl
  | inr failed ↦ rw (failed, get-put, c, get-put, b, get-put, a) refl
]

effective-other :
    (P : Platform) (b : Fields) (results : List EvidenceResult) (j : String)
    → ("status" == j) ≡ false
    → ("reason" == j) ≡ false
    → ("required_action" == j) ≡ false
    → ("effective_status_source" == j) ≡ false
    → get (effective_release_blocker P b results) j ≡ get b j
unfolding effective_release_blocker
effective-other P b results j p q r s =
    elim (Bool-cases (py_eq (get b "status_source") (str windows_evidence_status_source))) [
      | inl windows ↦ rw (windows, by_evidence-other _ _ _ j p q r) (get-put b _ j _ ∙ rw s refl)
      | inr manual ↦ rw manual (get-put b _ j _ ∙ rw s refl)
    ]

-- Only the status, the reason, the action and the source in effect differ.
effective-kept :
    (P : Platform) (b : Fields) (results : List EvidenceResult)
    → IsBlocking (effective_release_blocker P b results) ↔ IsBlocking b
effective-kept P b results =
    rw
      (
        effective-other P b results "active" refl refl refl refl,
        effective-other P b results "classification" refl refl refl refl,
        effective-other P b results "blocks_release" refl refl refl refl,
      )
      (λ h. h, λ h. h)

by_evidence-status :
    (e : Fields) (name : String) (o : Option EvidenceResult)
    → get (by_evidence e name o) "status"
      ≡ str (elim o [
        | none ↦ "unresolved"
        | some r ↦ if result_passed r then "resolved" else "unresolved"
      ])
unfolding by_evidence
by_evidence-status e name none = rw (get-put, get-put, get-put) refl
by_evidence-status e name (some r) = elim (Bool-cases (result_passed r)) [
  | inl passed ↦ rw (passed, get-put, get-put, get-put) refl
  | inr failed ↦ rw (failed, get-put, get-put, get-put) refl
]

result_passed_iff :
    (r : EvidenceResult)
    → (result_passed r ≡ true) ↔ ((r.status ≡ "passed") × (r.classification ≢ "release_blocker"))
unfolding result_passed
result_passed_iff r =
    ground (arith, eq_iff r.status "passed", eq_iff r.classification "release_blocker")

pub true_and_false : {b : Bool} → b ≡ true → b ≢ false
true_and_false h k = cc

not_unresolved : str "resolved" ≢ str "unresolved"
not_unresolved h = cc

passed_and_failed :
    (r q : EvidenceResult) → some r ≡ some q → result_passed r ≡ false → result_passed q ≢ true
passed_and_failed r q same failed passed = cc

pub IsPassed-or_not :
    (P : Platform) (results : List EvidenceResult) (b : Fields)
    → IsPassed P results b ⊎ (¬ IsPassed P results b)
IsPassed-or_not P results b = elim (Option-cases (result_named results (evidence_name P b))) [
  | inl missing ↦ inr (λ (r, found, passed, other). cc)
  | inr (r, found) ↦ elim (Bool-cases (result_passed r)) [
    | inl passed ↦
        let (is_passed, other) = (result_passed_iff r).0 passed in inl (r, found, is_passed, other)
    | inr failed ↦ inr (λ (q, same, is_passed, other).
        passed_and_failed r q (sym found ∙ same) failed
          ((result_passed_iff q).1 (is_passed, other)))
  ]
]

evidence_status_iff :
    (P : Platform) (results : List EvidenceResult) (e b : Fields)
    → (get (by_evidence e (evidence_name P b) (result_named results (evidence_name P b))) "status"
        ≡ str "unresolved")
      ↔ (¬ IsPassed P results b)
evidence_status_iff P results e b = elim (Option-cases (result_named results (evidence_name P b))) [
  | inl missing ↦ rw (by_evidence-status, missing) (λ h (r, found, passed, other). cc, λ h. refl)
  | inr (r, found) ↦ elim (Bool-cases (result_passed r)) [
    | inl passed ↦
        let (is_passed, other) = (result_passed_iff r).0 passed in
        rw (by_evidence-status, found, passed)
          (λ h. absurd (not_unresolved h), λ k. absurd (k (r, refl, is_passed, other)))
    | inr failed ↦
        rw (by_evidence-status, found, failed)
          (
            λ h (q, same, is_passed, other).
                passed_and_failed r q same failed ((result_passed_iff q).1 (is_passed, other)),
            λ k. refl,
          )
  ]
]

status_iff :
    (P : Platform) (b : Fields) (results : List EvidenceResult)
    → (get (effective_release_blocker P b results) "status" ≡ str "unresolved") ↔ (
        (IsWindows b → ¬ IsPassed P results b)
        × (¬ IsWindows b → get b "status" ≡ str "unresolved"))
unfolding effective_release_blocker
status_iff P b results =
    let reads = py_eq-str (get b "status_source") windows_evidence_status_source in
    elim (Bool-cases (py_eq (get b "status_source") (str windows_evidence_status_source))) [
      | inl windows ↦
          let decides =
            evidence_status_iff P results
              (put b "effective_status_source" (str windows_evidence_status_source)) b in
          rw windows (
            λ h. (λ source. decides.0 h, λ other. absurd (other (reads.0 windows))),
            λ (unless_passed, own). decides.1 (unless_passed (reads.0 windows)),
          )
      | inr manual ↦
          let differs : ¬ IsWindows b = λ source. true_and_false (reads.1 source) manual in
          rw (manual, get-put)
            (λ h. (λ source. absurd (differs source), λ other. h), λ (w, own). own differs)
    ]

-- A blocker counts as unresolved exactly if it is active, classified as a release blocker and blocks
-- the release, and further: if its status comes from the Windows evidence, then the evidence of its
-- name is missing, has not passed or is itself a release blocker; if not, its own status says
-- "unresolved".
pub effective-unresolved_iff :
    (P : Platform) (b : Fields) (results : List EvidenceResult)
    → (is_unresolved (effective_release_blocker P b results) ≡ true) ↔ (
        IsBlocking b
        × (IsWindows b → ¬ IsPassed P results b)
        × (¬ IsWindows b → get b "status" ≡ str "unresolved"))
effective-unresolved_iff P b results =
    let kept = effective-kept P b results in
    let status = status_iff P b results in
    let parts = is_unresolved_iff (effective_release_blocker P b results) in
    (
      λ h.
          let (blocks, says) = parts.0 h in
          let (windows, own) = status.0 says in (kept.0 blocks, windows, own),
      λ (blocks, windows, own). parts.1 (kept.1 blocks, status.1 (windows, own)),
    )
