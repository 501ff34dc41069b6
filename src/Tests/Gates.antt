-- ===== src/Tests/Gates.antt =====
-- The release gate on a repository that may be released: one blocker, whose evidence has passed.
use gui_shell_public.Prelude.{
  String, ◌≡◌, refl, Bool, true, false, ◌==◌, List, [], ◌∷◌, Option, none, some, All, arith,
  if◌then◌else◌, length, is_part, starts_with,
}
use gui_shell_public.Outcome.{ok}
use gui_shell_public.Value.{Value, bool, str, obj, Fields, Items, dict, list, of_list, get}
use gui_shell_public.Value.Text.{json_dumps}
use gui_shell_public.Manifest.{build_manifest}
use gui_shell_public.Manifest.Check.{JsonLib, write_manifest}
use gui_shell_public.Manifest.Current.{IsUpToDate}
use gui_shell_public.ReleaseGate.{registry_errors}
use gui_shell_public.WindowsEvidence.{EvidenceResult}
use gui_shell_public.ReleaseGate.Blockers.{effective_release_blocker, is_unresolved}
use gui_shell_public.ReleaseGate.Docs.{TextLib}
use gui_shell_public.ReleaseGate.DocSync.{doc_blocks, release_blocker_doc_blocks}
use gui_shell_public.ReleaseGate.Gate.{Inputs, gate_main}
use gui_shell_public.ReleaseGate.Resolved.{
  IsWindows, IsPassed, IsBlocking, effective-unresolved_iff,
}
use gui_shell_public.ReleaseGate.Rounds.{
  Numbered, doc_blocks-enough, release_blocker_doc_blocks-Numbered,
}
use gui_shell_public.ReleaseGate.Passes.{IsReleasable, strict_release_passes}
use gui_shell_public.Tests.World.{world}
use gui_shell_public.Tests.Manifests.{bare}
use gui_shell_public.Tests.Evidence.{evidence, evidence_file, search}
use gui_shell_public.WindowsEvidence.Release.{validate_windows_release_evidence}
use gui_shell_public.ReleaseGate.Gate.{strict_errors}

-- Patterns that are the plain texts "- item: " and "| ", one line per text.
texts : TextLib
texts = record {
  lower = λ s. s;
  split_lines = λ s. s ∷ [];
  matches = λ pattern s. starts_with s "- item: ";
  searches = λ pattern s. is_part "release_blocker" s;
  groups = λ pattern s. [];
  spans = λ pattern s. [];
  splits = λ pattern s. s ∷ [];
}

abbrev blocker : Fields
blocker = dict (
    ("name", str "windows_setup_doctor")
    ∷ ("status", str "unresolved")
    ∷ ("status_source", str "windows_release_evidence")
    ∷ ("evidence_result", str "windows_setup_doctor_smoke")
    ∷ ("active", bool true)
    ∷ ("classification", str "release_blocker")
    ∷ ("blocks_release", bool true)
    ∷ ("reason", str "no evidence")
    ∷ ("required_action", str "run the setup doctor")
    ∷ [])

json : JsonLib
json = record {
  loads = λ text.
      if text == "registry"
      then some (obj (dict (("blockers", list (obj blocker ∷ [])) ∷ [])))
      else if text == "{}"
      then some (obj evidence)
      else some (obj (build_manifest bare).0);
  message = λ text. "Expecting value";
  indented = json_dumps;
}

inputs : Inputs
inputs = record {
  docs = λ path. some "fine";
  registry_text = some "registry";
  workspace = (write_manifest json bare).0;
  evidence_file = evidence_file;
}

strict_runs : strict_errors world json texts search inputs true [] ≡ ok []
unfolding strict_errors gui_shell_public.ReleaseGate.Gate.load_release_blocker_registry inputs json
    gui_shell_public.ReleaseGate.Blockers.unresolved_active_blockers
    gui_shell_public.Schema.Validation.iterate gui_shell_public.Value.get_or
    gui_shell_public.ReleaseGate.Blockers.windows_evidence_results
    gui_shell_public.ReleaseGate.Blockers.any_windows
    gui_shell_public.ReleaseGate.Blockers.has_windows_source gui_shell_public.Value.Equal.py_eq
    validate_windows_release_evidence gui_shell_public.WindowsEvidence.Release.results_of
    gui_shell_public.WindowsEvidence.Release.load_evidence
    gui_shell_public.WindowsEvidence.FirstRun.validate_installer_first_run
    gui_shell_public.WindowsEvidence.FirstRun.first_run_evidence_errors
    gui_shell_public.WindowsEvidence.FirstRun.hashed_set gui_shell_public.Value.truthy search texts
    world gui_shell_public.WindowsEvidence.get_dotted gui_shell_public.Prelude.split_on
    gui_shell_public.Store.key_of gui_shell_public.WindowsEvidence.FirstRun.surface_errors
    gui_shell_public.ReleaseGate.in_set
    gui_shell_public.WindowsEvidence.Anchor.validate_audit_anchor
    gui_shell_public.WindowsEvidence.Anchor.anchor_provenance_errors
    gui_shell_public.WindowsEvidence.Anchor.kinds_hash
    gui_shell_public.WindowsEvidence.Anchor.tamper_errors
    gui_shell_public.WindowsEvidence.Anchor.anchor_source_errors
    gui_shell_public.ReleaseGate.Gate.blocker_messages
    gui_shell_public.ReleaseGate.Blockers.unresolved_among is_unresolved effective_release_blocker
    gui_shell_public.ReleaseGate.Blockers.by_evidence
    gui_shell_public.ReleaseGate.Blockers.result_named gui_shell_public.WindowsEvidence.conclusion
    gui_shell_public.AuditChain.unless gui_shell_public.Prelude.sort_texts
    gui_shell_public.Prelude.difference gui_shell_public.Prelude.member
    gui_shell_public.WindowsEvidence.texts_under
    gui_shell_public.WindowsEvidence.Provenance.validate_field_provenance
    gui_shell_public.WindowsEvidence.Provenance.groups_errors
    gui_shell_public.WindowsEvidence.Provenance.group_errors
    gui_shell_public.WindowsEvidence.is_text gui_shell_public.Prelude.any_of
    gui_shell_public.WindowsEvidence.Provenance.observed_classes
    gui_shell_public.WindowsEvidence.Anchor.is_protected
    gui_shell_public.WindowsEvidence.Anchor.claim_is_backed gui_shell_public.Store.key_eqb
    gui_shell_public.WindowsEvidence.one_of gui_shell_public.WindowsEvidence.is_sha256_tag
    gui_shell_public.WindowsEvidence.passed gui_shell_public.ReleaseGate.Blockers.evidence_name
    gui_shell_public.Value.Text.text_of
    gui_shell_public.WindowsEvidence.Broker.validate_broker_smoke
    gui_shell_public.WindowsEvidence.Broker.broker_errors
    gui_shell_public.WindowsEvidence.Broker.broker_source_errors
    gui_shell_public.WindowsEvidence.Broker.is_dict
    gui_shell_public.WindowsEvidence.Broker.broker_field_errors gui_shell_public.Prelude.text_lt
    gui_shell_public.WindowsEvidence.Broker.measured_by
    gui_shell_public.WindowsEvidence.Broker.declarations_errors
    gui_shell_public.WindowsEvidence.Broker.is_none_or_empty
    gui_shell_public.WindowsEvidence.SetupDoctor.validate_setup_doctor
    gui_shell_public.WindowsEvidence.SetupDoctor.setup_errors
    gui_shell_public.WindowsEvidence.SetupDoctor.setup_source_errors
    gui_shell_public.WindowsEvidence.SetupDoctor.setup_check_errors
    gui_shell_public.WindowsEvidence.any_record gui_shell_public.ReleaseGate.Blockers.result_passed
    gui_shell_public.Value.put
strict_runs = refl

gate_runs : gate_main world json texts search inputs true ≡ ok (0, "release gate checkが合格" ∷ [])
unfolding gate_main gui_shell_public.ReleaseGate.Gate.gate_errors registry_errors inputs
    gui_shell_public.ReleaseGate.parsed_registry json gui_shell_public.ReleaseGate.with_blockers get
    gui_shell_public.ReleaseGate.blockers_errors gui_shell_public.ReleaseGate.blocker_errors
    gui_shell_public.ReleaseGate.in_set gui_shell_public.Store.key_of
    gui_shell_public.ReleaseGate.Docs.scan_file texts is_part
    gui_shell_public.ReleaseGate.missing_errors gui_shell_public.AuditChain.unless
    gui_shell_public.Prelude.sort_texts world gui_shell_public.Prelude.difference
    gui_shell_public.Prelude.member gui_shell_public.Value.keys
    gui_shell_public.ReleaseGate.name_errors gui_shell_public.ReleaseGate.plain_errors
    gui_shell_public.Value.Equal.py_eq gui_shell_public.Prelude.any_of
    gui_shell_public.Store.key_eqb gui_shell_public.ReleaseGate.evidence_errors
    gui_shell_public.ReleaseGate.is_nonempty_text gui_shell_public.ReleaseGate.required_text_errors
    gui_shell_public.ReleaseGate.Gate.load_release_blocker_registry
    gui_shell_public.ReleaseGate.registry_blocker_names gui_shell_public.Schema.Validation.iterate
    gui_shell_public.Value.get_or gui_shell_public.ReleaseGate.Gate.strict_errors
    gui_shell_public.ReleaseGate.DocSync.release_blocker_doc_sync_errors release_blocker_doc_blocks
    doc_blocks gui_shell_public.ReleaseGate.DocSync.blocks_or_none
    gui_shell_public.ReleaseGate.DocSync.kept_row gui_shell_public.ReleaseGate.DocSync.is_item
    starts_with gui_shell_public.ReleaseGate.DocSync.is_rule
    gui_shell_public.ReleaseGate.Blockers.unresolved_active_blockers
    gui_shell_public.ReleaseGate.Gate.blocker_messages
    gui_shell_public.ReleaseGate.Blockers.unresolved_among is_unresolved effective_release_blocker
    gui_shell_public.ReleaseGate.Blockers.by_evidence
    gui_shell_public.ReleaseGate.Blockers.result_named
    gui_shell_public.ReleaseGate.Blockers.windows_evidence_results
    gui_shell_public.ReleaseGate.Blockers.any_windows
    gui_shell_public.ReleaseGate.Blockers.has_windows_source
    gui_shell_public.ReleaseGate.Blockers.evidence_name gui_shell_public.Value.Text.text_of
    gui_shell_public.Value.truthy gui_shell_public.ReleaseGate.Blockers.result_passed
    gui_shell_public.Value.put gui_shell_public.ReleaseGate.Gate.gate_report
    gui_shell_public.ReleaseGate.Gate.last_errors gui_shell_public.ReleaseGate.Gate.claim_errors
    gui_shell_public.ReleaseGate.Docs.release_claim_exists_without_classification
    gui_shell_public.ReleaseGate.Gate.combined_text
    gui_shell_public.ReleaseGate.Docs.macos_support_claim_errors
    gui_shell_public.ReleaseGate.Gate.manifest_check_errors
    gui_shell_public.Manifest.Check.run_check gui_shell_public.Manifest.Check.check_manifest
    gui_shell_public.Manifest.Check.against_list gui_shell_public.Manifest.Check.load_manifest
    write_manifest build_manifest gui_shell_public.Manifest.expected_files
    gui_shell_public.Manifest.git_tracked_files json_dumps gui_shell_public.Manifest.manifest_dict
    gui_shell_public.Prelude.as_set gui_shell_public.Manifest.included
    gui_shell_public.Manifest.is_excluded_relative gui_shell_public.Manifest.with_slashes
    gui_shell_public.Manifest.posix_parts gui_shell_public.Prelude.split_on
    gui_shell_public.Manifest.entry_dict gui_shell_public.Manifest.entry_of
    gui_shell_public.Manifest.Check.check_entries gui_shell_public.Value.values
    gui_shell_public.Manifest.Check.listed_entry gui_shell_public.Manifest.Check.entry_errors
    gui_shell_public.Manifest.Check.file_errors gui_shell_public.Manifest.Check.is_core
    gui_shell_public.Prelude.ends_with
gate_runs = rw strict_runs refl

strict_release_passes_example :
    (registry_errors world json inputs.registry_text ≡ ok [])
    × IsReleasable world json texts search inputs
    × IsUpToDate json inputs.workspace
unfolding texts
strict_release_passes_example =
    strict_release_passes world json texts search inputs ("release gate checkが合格" ∷ [])
      (λ s some_text h. cc) gate_runs

no_evidence : is_unresolved (effective_release_blocker world blocker []) ≡ true
unfolding is_unresolved get effective_release_blocker gui_shell_public.Value.Equal.py_eq
    gui_shell_public.ReleaseGate.Blockers.by_evidence
    gui_shell_public.ReleaseGate.Blockers.result_named gui_shell_public.Value.put world
no_evidence = refl

effective-unresolved_iff_example :
    IsBlocking blocker
    × (IsWindows blocker → ¬ IsPassed world [] blocker)
    × (¬ IsWindows blocker → get blocker "status" ≡ str "unresolved")
effective-unresolved_iff_example = (effective-unresolved_iff world blocker []).0 no_evidence

abbrev document : List String
document = "# Title" ∷ "- item: release_blocker" ∷ "  more" ∷ "| release_blocker |" ∷ []

doc_blocks-enough_example :
    doc_blocks texts 9 1 document ≡ some (release_blocker_doc_blocks texts document)
doc_blocks-enough_example = doc_blocks-enough texts 9 document (omega arith)

release_blocker_doc_blocks-Numbered_example :
    All (Numbered texts 1 (length document)) (release_blocker_doc_blocks texts document)
release_blocker_doc_blocks-Numbered_example = release_blocker_doc_blocks-Numbered texts document
