-- ===== src/WindowsEvidence/Provenance.antt =====
-- tooling/windows_release_evidence.py: where the evidence comes from, and that its run was isolated.
use gui_shell_public.Prelude.{
  String, ◌<>◌, Bool, true, not, ◌&&◌, ◌||◌, ◌==◌, ℕ, suc, List, [], ◌∷◌, ◌++◌, Option, none, some,
  any_of, is_empty, if◌then◌else◌, join, member, sort_texts, difference, ends_with, is_part,
}
use gui_shell_public.Prelude.Int.{pos, int_text}
use gui_shell_public.Platform.{Platform}
use gui_shell_public.Value.{
  Value, str, arr, obj, Items, nil, cons, Fields, get, truthy, is_true, is_false, is_null,
}
use gui_shell_public.Value.Equal.{py_eq}
use gui_shell_public.AuditChain.{unless}
use gui_shell_public.WindowsEvidence.{
  EvidenceResult, conclusion, get_dotted, str_or_empty, is_sha256_tag, is_text, texts_under,
  with_backslashes,
}

-- A group of fields, with the source type and the classes of evidence that it needs.
pub record Required : Type 0 where
  pub group : String
  pub source_type : String
  pub classes : List String

abbrev live_or_external : List String
live_or_external = "LIVE_RUNTIME" ∷ "EXTERNAL_EVIDENCE" ∷ []

abbrev requires : String → String → List String → Required
requires group source_type classes = record {
  group = group;
  source_type = source_type;
  classes = classes;
}

abbrev pub base_required_field_provenance : List Required
base_required_field_provenance =
    requires "artifact" "directly_measured" ("EXTERNAL_EVIDENCE" ∷ [])
    ∷ requires "first_run.process" "directly_measured" live_or_external
    ∷ requires "first_run.visible_surfaces" "directly_measured" live_or_external
    ∷ requires "first_run.config_audit" "directly_measured" live_or_external
    ∷ requires "first_run.installer_authority_boundary" "static_assertion" ("CONFIG" ∷ [])
    ∷ requires "setup_doctor" "product_export" live_or_external
    ∷ requires "broker.ipc_restart_crash" "directly_measured" live_or_external
    ∷ requires "release_runtime_assertions" "static_assertion" ("CONFIG" ∷ "FIXTURE" ∷ [])
    ∷ []

abbrev pub base_required_evidence_bundle_kinds : List String
base_required_evidence_bundle_kinds =
    "setup_doctor" ∷ "broker_smoke" ∷ "visible_surfaces" ∷ "runtime_assertions" ∷ []

text_items : Items → List String
text_items nil = []
text_items (cons (str s) items) = s ∷ text_items items
text_items (cons v items) = text_items items

unfoldable pub observed_classes : Value → List String
unfolding text_items
observed_classes (str s) = s ∷ []
observed_classes (arr items) = text_items items
observed_classes _ = []

unfoldable pub group_errors : Required → Value → List String
group_errors r (obj entry) =
    let name = "field_provenance." <> r.group in
    unless (is_text (get entry "source_type") r.source_type)
      (name <> (".source_type は " <> (r.source_type <> " でなければならない")))
    ++ (unless (any_of (λ c. member c r.classes) (observed_classes (get entry "evidence_class"))) (
          name
          <> (".evidence_class は " <> (join ", " (sort_texts r.classes) <> " のいずれかを含まなければならない")))
        ++ unless (is_true (get entry "formal_release_input"))
            (name <> ".formal_release_input は true でなければならない"))
group_errors r _ = ("field_provenance." <> (r.group <> " がない")) ∷ []

unfoldable pub groups_errors : Fields → List Required → List String
groups_errors provenance [] = []
groups_errors provenance (r ∷ rs) =
    group_errors r (get provenance r.group) ++ groups_errors provenance rs

field_errors : Value → List Required → Bool → List String
field_errors (obj provenance) required check_unsupported =
    let unsupported = get provenance "unsupported_claims" in
    groups_errors provenance required
    ++ unless (not check_unsupported || (is_null unsupported || py_eq unsupported (arr nil)))
        "厳格な Windows 証拠では field_provenance.unsupported_claims は空でなければならない"
field_errors _ required check_unsupported = "field_provenance object がない" ∷ []

-- `_validate_field_provenance`
unfoldable pub validate_field_provenance : Fields → List Required → Bool → List String
unfolding field_errors
validate_field_provenance evidence required check_unsupported =
    field_errors (get evidence "field_provenance") required check_unsupported

missing_fields : Fields → List String → List String
missing_fields provenance [] = []
missing_fields provenance (name ∷ names) =
    unless (truthy (get provenance name)) ("provenance." <> (name <> " がない"))
    ++ missing_fields provenance names

module _ (P : Platform) where
  -- `_path_contains_run_id`
  unfoldable pub path_contains_run_id : Value → String → Bool
  path_contains_run_id v run_id =
      not (run_id == "")
      && is_part (P.casefold run_id) (P.casefold (with_backslashes (str_or_empty P v)))

  untagged_fields : Fields → List String → List String
  untagged_fields provenance [] = []
  untagged_fields provenance (name ∷ names) =
      unless (is_sha256_tag P (get provenance name))
        ("provenance." <> (name <> " には sha256 tag が必要である"))
      ++ untagged_fields provenance names

  path_errors : Fields → String → List String → List String
  path_errors isolation run_id [] = []
  path_errors isolation run_id (name ∷ names) =
      let v = get isolation name in
      (if not (truthy v)
        then ("provenance.isolation." <> (name <> " がない")) ∷ []
        else unless (path_contains_run_id v run_id)
            ("provenance.isolation." <> (name <> " は run_id を含まなければならない")))
      ++ path_errors isolation run_id names

  isolation_errors : String → Value → List String
  unfolding path_errors
  isolation_errors run_id (obj isolation) =
      let install_root =
        P.casefold (with_backslashes (str_or_empty P (get isolation "isolated_install_root"))) in
      unless (is_false (get isolation "uses_shared_fixed_install_root"))
        "provenance.isolation.uses_shared_fixed_install_root は false でなければならない"
      ++ (path_errors isolation run_id (
            "isolated_install_root" ∷ "isolated_runtime_dir" ∷ "isolated_store_dir"
            ∷ "isolated_config_dir" ∷ "isolated_audit_dir" ∷ [])
          ++ unless (not (ends_with install_root "\\gui-shell\\installed"))
              "provenance.isolation.isolated_install_root が旧式の共有固定 install root を使用している")
  isolation_errors run_id _ = "provenance.isolation object がない" ∷ []

  bundle_label : ℕ → String
  bundle_label index = "provenance.evidence_bundle_files[" <> (int_text (pos index) <> "]")

  bundle_item_errors : ℕ → Items → List String
  unfolding bundle_label
  bundle_item_errors index nil = []
  bundle_item_errors index (cons (obj item) items) =
      unless (truthy (get item "path")) (bundle_label index <> ".path がない")
      ++ (unless (is_sha256_tag P (get item "sha256"))
            (bundle_label index <> ".sha256 には sha256 tag が必要である")
          ++ bundle_item_errors (suc index) items)
  bundle_item_errors index (cons v items) =
      (bundle_label index <> " は object でなければならない") ∷ bundle_item_errors (suc index) items

  bundle_errors : Value → List String
  unfolding bundle_item_errors
  bundle_errors (arr (cons item items)) =
      let missing =
        sort_texts
          (difference base_required_evidence_bundle_kinds (texts_under "kind" (cons item items))) in
      bundle_item_errors 0 (cons item items)
      ++ unless (is_empty missing)
          ("provenance.evidence_bundle_files に次の kind がない: " <> join ", " missing)
  bundle_errors _ = "provenance.evidence_bundle_files がない" ∷ []

  final_hash_errors : Value → Option String → List String
  final_hash_errors final none = []
  final_hash_errors final (some actual) =
      unless (not (is_sha256_tag P final && not (is_text final actual)))
        "provenance.final_evidence_sha256 がこの evidence file と一致しない"

  -- The errors of the evidence, `file_hash` being `_hash_file(path)`, none if the file is missing.
  unfoldable pub provenance_errors : Fields → Option String → Value → List String
  unfolding missing_fields untagged_fields isolation_errors bundle_errors final_hash_errors
  provenance_errors evidence file_hash (obj provenance) =
      let run_id = str_or_empty P (get provenance "run_id") in
      let artifact_hash = get_dotted evidence "artifact.sha256" in
      unless (not (run_id == "")) "provenance.run_id がない"
      ++ (unless (P.re_match "^[0-9a-f]{40}$" (str_or_empty P (get provenance "source_commit")))
            "provenance.source_commit は40文字の commit SHA でなければならない"
          ++ (unless (is_true (get provenance "source_worktree_clean"))
                "provenance.source_worktree_clean は true でなければならない"
              ++ (unless (str_or_empty P (get provenance "source_status_porcelain") == "")
                    "provenance.source_status_porcelain は空でなければならない"
                  ++ (missing_fields provenance
                        ("build_command" ∷ "build_timestamp" ∷ "staged_manifest_path" ∷ [])
                      ++ (untagged_fields provenance (
                            "installed_manifest_sha256" ∷ "app_artifact_sha256"
                            ∷ "broker_artifact_sha256" ∷ "evidence_bundle_sha256" ∷ [])
                          ++ (unless
                                (not (
                                  is_sha256_tag P artifact_hash
                                  && not
                                      (py_eq (get provenance "app_artifact_sha256") artifact_hash)))
                                "provenance.app_artifact_sha256 は artifact.sha256 と一致しなければならない"
                              ++ (isolation_errors run_id (get provenance "isolation")
                                  ++ (bundle_errors (get provenance "evidence_bundle_files")
                                      ++ (validate_field_provenance evidence
                                            base_required_field_provenance true
                                          ++ final_hash_errors
                                              (get provenance "final_evidence_sha256")
                                              file_hash)))))))))
  provenance_errors evidence file_hash _ = "provenance object がない" ∷ []

  unfoldable pub validate_provenance_and_isolation : Fields → Option String → EvidenceResult
  validate_provenance_and_isolation evidence file_hash =
      conclusion (provenance_errors evidence file_hash (get evidence "provenance"))
        "windows_evidence_provenance_isolation"
        "一意に stage した Windows run から、source commit、clean worktree、artifact hash、分離した install/runtime/config/audit/store path、field provenance、evidence bundle hash を収集する。"
        "Windows installed 証拠は、clean source commit、分離した run path、artifact hash、field 単位の evidence provenance に結び付いている。"
        "Windows の正式 evidence run をすべて分離し、commit との結び付きを維持する。"
