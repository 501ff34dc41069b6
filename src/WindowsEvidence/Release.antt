-- ===== src/WindowsEvidence/Release.antt =====
-- tooling/windows_release_evidence.py: the five results, and the exit code.
use gui_shell_public.Prelude.{
  String, ◌<>◌, Bool, ◌==◌, ℕ, List, [], ◌∷◌, Option, none, some, any_of, if◌then◌else◌,
}
use gui_shell_public.Outcome.{Result, ok, ◌>>=◌}
use gui_shell_public.Platform.{Platform}
use gui_shell_public.Value.{Value, obj, Fields}
use gui_shell_public.Manifest.Check.{JsonLib}
use gui_shell_public.WindowsEvidence.{EvidenceResult, SearchLib, failed}
use gui_shell_public.WindowsEvidence.Provenance.{validate_provenance_and_isolation}
use gui_shell_public.WindowsEvidence.FirstRun.{validate_installer_first_run}
use gui_shell_public.WindowsEvidence.SetupDoctor.{validate_setup_doctor}
use gui_shell_public.WindowsEvidence.Broker.{validate_broker_smoke}
use gui_shell_public.WindowsEvidence.Anchor.{validate_audit_anchor}

-- The evidence file: its path relative to the root, its text without a byte order mark, and
-- `_hash_file` of it, none if it is missing.
pub record EvidenceFile : Type 0 where
  pub path : String
  pub content : Option (String × String)

loaded_evidence : JsonLib → String → String → Option Value → Option Fields × String
loaded_evidence J path text none = (none, path <> (" は無効な JSON である: " <> J.message text))
loaded_evidence J path text (some (obj evidence)) = (some evidence, "")
loaded_evidence J path text (some _) = (none, path <> " は JSON object を含まなければならない")

-- `load_evidence`: the evidence, or the error
unfoldable pub load_evidence : JsonLib → EvidenceFile → Option Fields × String
unfolding loaded_evidence
load_evidence J file = elim file.content [
  | none ↦ (none, file.path <> " がない")
  | some (text, hash) ↦ loaded_evidence J file.path text (J.loads text)
]

file_hash : EvidenceFile → Option String
file_hash file = elim file.content [ none ↦ none | some (text, hash) ↦ some hash ]

-- The results without evidence; the error is never empty.
unfoldable pub all_failed : String → List EvidenceResult
all_failed error =
    failed "windows_evidence_provenance_isolation" error
      "正確な source commit と artifact hash に結び付いた分離済み native Windows run から release_evidence/windows_installed_smoke.json を作成する。"
    ∷ failed "windows_installer_first_run_smoke" error
        "broker を介した Flutter .exe 起動、-NoPythonRuntime 起動、測定済み window、visible-surface、config、audit probe evidence を含む native Windows installed-app smoke から release_evidence/windows_installed_smoke.json を作成する。"
    ∷ failed "windows_setup_doctor_smoke" error
        "Windows の native installed smoke を実行し、installed app に機械可読な Setup Doctor の product evidence を書き出させる。外部 collector probe の出力は product evidence として受理しない。"
    ∷ failed "windows_broker_installed_smoke" error
        "installer/windows/collect_broker_smoke.ps1 を実行し、broker evidence を release_evidence/windows_installed_smoke.json に含める。"
    ∷ failed "audit_anchor_external_tamper_evidence_proof" error
        "product release claim の前に、audit_anchor.key、audit_anchor.json、audit.jsonl に対する Windows installed-path の ACL/DPAPI、external-anchor、signed-evidence のいずれかの証明を収集する。"
    ∷ []

unfoldable pub blocks : EvidenceResult → Bool
blocks r = r.classification == "release_blocker"

unfoldable pub exit_code : Bool → ℕ
exit_code blocked = if blocked then 1 else 0

module _ (P : Platform) (J : JsonLib) (S : SearchLib) where
  unfoldable pub results_of : EvidenceFile → Option Fields × String → Result (List EvidenceResult)
  unfolding file_hash
  results_of file (none, error) = ok (all_failed error)
  results_of file (some evidence, error) = do
    first_run ← validate_installer_first_run P S evidence
    anchor ← validate_audit_anchor P evidence
    ok (
        validate_provenance_and_isolation P evidence (file_hash file)
        ∷ first_run
        ∷ validate_setup_doctor evidence
        ∷ validate_broker_smoke evidence
        ∷ anchor
        ∷ [])

  unfoldable pub validate_windows_release_evidence : EvidenceFile → Result (List EvidenceResult)
  validate_windows_release_evidence file = results_of file (load_evidence J file)

  -- The exit code of `main`.
  unfoldable pub evidence_main : EvidenceFile → Result ℕ
  evidence_main file = do
    results ← validate_windows_release_evidence file
    ok (exit_code (any_of blocks results))
