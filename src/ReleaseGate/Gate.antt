-- ===== src/ReleaseGate/Gate.antt =====
-- tooling/release_gate_check.py: the whole gate.
use gui_shell_public.Prelude.{
  String, ◌<>◌, Bool, true, ◌==◌, ℕ, eqb, List, [], ◌∷◌, ◌++◌, map, Option, none, some, is_empty,
  if◌then◌else◌, join,
}
use gui_shell_public.Outcome.{Result, ok, err, value_error, attribute_error, ◌>>=◌}
use gui_shell_public.Platform.{Platform}
use gui_shell_public.Value.{Value, obj, Fields, index}
use gui_shell_public.Value.Text.{text_of}
use gui_shell_public.Normalization.Text.{strip}
use gui_shell_public.Manifest.{Workspace}
use gui_shell_public.Manifest.Check.{JsonLib, run_check}
use gui_shell_public.ReleaseGate.{registry_errors, registry_blocker_names}
use gui_shell_public.WindowsEvidence.{SearchLib}
use gui_shell_public.WindowsEvidence.Release.{EvidenceFile, validate_windows_release_evidence}
use gui_shell_public.ReleaseGate.Blockers.{unresolved_active_blockers}
use gui_shell_public.ReleaseGate.Docs.{
  TextLib, Documents, scan_file, release_claim_exists_without_classification,
  macos_support_claim_errors,
}
use gui_shell_public.ReleaseGate.DocSync.{release_blocker_doc_sync_errors}

abbrev pub scan_files : List String
scan_files =
    "README.md" ∷ "CLAIM.md" ∷ "RELEASE_CHECKLIST.md" ∷ "CONFORMANCE_REPORT.md"
    ∷ "SECURITY_REVIEW.md" ∷ "AUDIT_EVIDENCE.md" ∷ "INSTALLER_STATUS.md" ∷ "MOBILE_STATUS.md"
    ∷ "COMPATIBILITY_MATRIX.md" ∷ "docs/DESKTOP_PLATFORM_MATRIX.md"
    ∷ "docs/GUI_OPERATION_SURFACES.md" ∷ "docs/security/IPC_THREAT_MODEL.md"
    ∷ "docs/WINDOWS_RELEASE_PLAN.md" ∷ "docs/PRODUCT_COMPLETION_PLAN.md"
    ∷ "docs/RELEASE_VALIDATION.md" ∷ "docs/WINDOWS_RELEASE_EVIDENCE.md"
    ∷ "docs/public/PROJECT_OVERVIEW.md" ∷ "docs/public/SAFETY_AND_RELEASE_GATES.md"
    ∷ "docs/public/WINDOWS_PROOF_SUMMARY.md" ∷ []

-- What the gate reads: the documents, the text of release_blockers.registry.json, the directory of the
-- manifest, and the file with the Windows evidence.
pub record Inputs : Type 0 where
  pub docs : Documents
  pub registry_text : Option String
  pub workspace : Workspace
  pub evidence_file : EvidenceFile

parsed_fields : Option Value → Result Fields
parsed_fields none = err (value_error "")
parsed_fields (some (obj registry)) = ok registry
parsed_fields (some _) = err (attribute_error "")

-- `load_release_blocker_registry`; a registry that is no object raises at the `get` that follows
unfoldable pub load_release_blocker_registry : JsonLib → Option String → Result Fields
unfolding parsed_fields
load_release_blocker_registry J none = err (value_error "")
load_release_blocker_registry J (some text) = parsed_fields (J.loads text)

-- `manifest_check_errors`, of the exit code and the output of tooling/manifest.py --check
unfoldable pub manifest_check_errors : TextLib → ℕ × List String → List String
manifest_check_errors T (code, printed) =
    let output = strip (join "\n" printed) in
    if eqb code 0
    then []
    else if output == ""
    then "manifest checkが出力なしで失敗" ∷ []
    else map (λ line. "manifest checkが失敗: " <> line) (T.split_lines output)

unfoldable pub combined_text : Documents → List String → String
combined_text docs [] = ""
combined_text docs (path ∷ paths) =
    let rest = combined_text docs paths in
    elim (docs path) [ none ↦ rest | some text ↦ "\n" <> (text <> rest) ]

unfoldable pub scan_all : TextLib → Documents → List String → List String
scan_all T docs [] = []
scan_all T docs (path ∷ paths) = scan_file T docs path ++ scan_all T docs paths

unfoldable pub blocker_message : Platform → Fields → Result String
blocker_message P blocker = do
  name ← index blocker "name"
  reason ← index blocker "reason"
  ok (
      "strict releaseのactive blockerが未解決: "
      <> (text_of P.repr_str name <> (" - " <> text_of P.repr_str reason)))

unfoldable pub blocker_messages : Platform → List Fields → Result (List String)
unfolding blocker_message
blocker_messages P [] = ok []
blocker_messages P (blocker ∷ blockers) = do
  message ← blocker_message P blocker
  rest ← blocker_messages P blockers
  ok (message ∷ rest)

unfoldable pub gate_report : List String → ℕ × List String
gate_report errors =
    if is_empty errors
    then (0, "release gate checkが合格" ∷ [])
    else (1, "release gate checkが失敗:" ∷ map (λ error. "  - " <> error) errors)

module _ (P : Platform) (J : JsonLib) (T : TextLib) (S : SearchLib) (I : Inputs) where
  -- The errors of the documents' blocks, looked for if there is no error before.
  unfoldable pub sync_errors : List String → Result (List String)
  sync_errors [] = do
    registry ← load_release_blocker_registry J I.registry_text
    names ← registry_blocker_names registry
    ok (release_blocker_doc_sync_errors T I.docs names)
  sync_errors (error ∷ errors) = ok []

  -- The unresolved blockers, looked for in a strict release if there is no error before.
  unfoldable pub strict_errors : Bool → List String → Result (List String)
  strict_errors true [] = do
    registry ← load_release_blocker_registry J I.registry_text
    blockers ←
        unresolved_active_blockers P (validate_windows_release_evidence P J S I.evidence_file)
          registry
    blocker_messages P blockers
  strict_errors _ _ = ok []

  unfoldable pub claim_errors : String → List String
  claim_errors combined =
      if release_claim_exists_without_classification T combined
      then "release_blockerが存在するのにrelease claimがある" ∷ []
      else []

  -- The errors of the scans of all documents together, and of the manifest.
  unfoldable pub last_errors : List String
  last_errors =
      let combined = combined_text I.docs scan_files in
      claim_errors combined
      ++ (macos_support_claim_errors T combined
          ++ manifest_check_errors T (run_check J I.workspace))

  -- The errors that `main` collects.
  unfoldable pub gate_errors : Bool → Result (List String)
  unfolding scan_all sync_errors
  gate_errors strict = do
    found ← registry_errors P J I.registry_text
    let scanned = scan_all T I.docs scan_files ++ found
    synced ← sync_errors scanned
    unresolved ← strict_errors strict (scanned ++ synced)
    ok (scanned ++ (synced ++ (unresolved ++ last_errors)))

  -- `main`: the exit code and the lines printed
  unfoldable pub gate_main : Bool → Result (ℕ × List String)
  gate_main strict = do errors ← gate_errors strict; ok (gate_report errors)
