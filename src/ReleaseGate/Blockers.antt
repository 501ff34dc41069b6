-- ===== src/ReleaseGate/Blockers.antt =====
-- tooling/release_gate_check.py: which release blockers are unresolved, in view of the Windows
-- evidence.
use gui_shell_public.Prelude.{
  String, ◌<>◌, Bool, false, not, ◌&&◌, ◌||◌, ◌==◌, List, [], ◌∷◌, Option, none, some,
  if◌then◌else◌,
}
use gui_shell_public.Outcome.{Result, ok, ◌>>=◌}
use gui_shell_public.Platform.{Platform}
use gui_shell_public.Value.{
  Value, str, arr, obj, Items, nil, cons, Fields, get, get_or, put, truthy, is_true,
}
use gui_shell_public.Value.Equal.{py_eq}
use gui_shell_public.Value.Text.{text_of}
use gui_shell_public.Schema.Validation.{iterate}
use gui_shell_public.WindowsEvidence.{EvidenceResult}
use gui_shell_public.ReleaseGate.{windows_evidence_status_source}

-- {result.name: result for result in results}.get(name): the last result of that name
unfoldable pub result_named : List EvidenceResult → String → Option EvidenceResult
result_named [] name = none
result_named (r ∷ results) name =
    let later = result_named results name in
    elim later [ some result ↦ some result | none ↦ if r.name == name then some r else none ]

-- a or b
abbrev python_or : Value → Value → Value
python_or a b = if truthy a then a else b

unfoldable pub result_passed : EvidenceResult → Bool
result_passed r = r.status == "passed" && not (r.classification == "release_blocker")

-- The blocker as its evidence makes it.
unfoldable pub by_evidence : Fields → String → Option EvidenceResult → Fields
by_evidence effective name none =
    put
      (put (put effective "status" (str "unresolved")) "reason"
        (str ("Windows evidence resultがない: " <> name)))
      "required_action"
      (str "tooling/windows_release_evidence.pyを実行し、registryのevidence_result nameを同期させる。")
by_evidence effective name (some r) =
    if result_passed r
    then put
        (put (put effective "status" (str "resolved")) "reason"
          (str ("Windows evidenceにより解決: " <> r.reason)))
        "required_action" (str r.required_action)
    else put (put (put effective "status" (str "unresolved")) "reason" (str r.reason))
        "required_action" (str r.required_action)

-- The name under which a blocker's evidence is looked up.
unfoldable pub evidence_name : Platform → Fields → String
evidence_name P blocker =
    text_of P.repr_str
      (python_or (python_or (get blocker "evidence_result") (get blocker "name")) (str ""))

unfoldable pub effective_release_blocker : Platform → Fields → List EvidenceResult → Fields
effective_release_blocker P blocker results =
    if py_eq (get blocker "status_source") (str windows_evidence_status_source)
    then by_evidence (put blocker "effective_status_source" (str windows_evidence_status_source))
        (evidence_name P blocker) (result_named results (evidence_name P blocker))
    else put blocker "effective_status_source" (get_or blocker "status_source" (str "manual"))

unfoldable pub is_unresolved : Fields → Bool
is_unresolved effective =
    is_true (get effective "active")
    && (py_eq (get effective "status") (str "unresolved")
        && (py_eq (get effective "classification") (str "release_blocker")
            && is_true (get effective "blocks_release")))

unfoldable pub has_windows_source : Value → Bool
has_windows_source (obj blocker) =
    py_eq (get blocker "status_source") (str windows_evidence_status_source)
has_windows_source _ = false

unfoldable pub any_windows : Items → Bool
any_windows nil = false
any_windows (cons v items) = has_windows_source v || any_windows items

-- `_windows_evidence_results_by_name`, `evidence` being what `validate_windows_release_evidence()`
-- returns or raises
unfoldable pub windows_evidence_results :
    Result (List EvidenceResult) → Items → Result (List EvidenceResult)
windows_evidence_results evidence blockers = if any_windows blockers then evidence else ok []

unfoldable pub unresolved_among : Platform → List EvidenceResult → Items → List Fields
unresolved_among P results nil = []
unresolved_among P results (cons (obj blocker) items) =
    let rest = unresolved_among P results items in
    let effective = effective_release_blocker P blocker results in
    if is_unresolved effective then effective ∷ rest else rest
unresolved_among P results (cons v items) = unresolved_among P results items

-- `unresolved_active_blockers`, of the registry
unfoldable pub unresolved_active_blockers :
    Platform → Result (List EvidenceResult) → Fields → Result (List Fields)
unresolved_active_blockers P evidence registry = do
  items ← iterate (get_or registry "blockers" (arr nil))
  results ← windows_evidence_results evidence items
  ok (unresolved_among P results items)
