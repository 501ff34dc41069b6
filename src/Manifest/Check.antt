-- ===== src/Manifest/Check.antt =====
-- tooling/manifest.py: reading, checking and writing the manifest, and the program's two commands.
use gui_shell_public.Prelude.{
  String, ◌<>◌, Bool, not, ◌&&◌, ◌==◌, ℕ, suc, List, [], ◌∷◌, ◌++◌, map, Option, none, some, any_of,
  is_empty, if◌then◌else◌, starts_with, ends_with, member, sort_texts, as_set, difference, length,
}
use gui_shell_public.Prelude.Int.{pos, int_text}
use gui_shell_public.Value.{Value, str, arr, obj, values, get}
use gui_shell_public.AuditChain.{unless}
use gui_shell_public.Manifest.{
  Workspace, ManifestEntry, is_excluded_relative, expected_files, build_manifest,
}

-- What the manifest's code takes from Python's json module.
--   loads    json.loads(s), none for a JSONDecodeError
--   message  str(exc) of that JSONDecodeError
--   indented json.dumps(v, indent=2, sort_keys=False)
pub record JsonLib : Type 0 where
  pub loads : String → Option Value
  pub message : String → String
  pub indented : Value → String

unfoldable pub with_files : Value → Option (List Value) × List String
with_files (arr files) = (some (values files), [])
with_files _ = (none, "MANIFEST.sha256.jsonはfiles listを含まなければならない" ∷ [])

unfoldable pub loaded_manifest : JsonLib → String → Option Value → Option (List Value) × List String
unfolding with_files
loaded_manifest J text none = (none, ("MANIFEST.sha256.jsonが無効なJSON: " <> J.message text) ∷ [])
loaded_manifest J text (some (obj manifest)) = with_files (get manifest "files")
loaded_manifest J text (some _) = (none, "MANIFEST.sha256.jsonはJSON objectを含まなければならない" ∷ [])

unfoldable pub read_text : JsonLib → Option String → Option (List Value) × List String
unfolding loaded_manifest
read_text J none = (none, "MANIFEST.sha256.jsonがない" ∷ [])
read_text J (some text) = loaded_manifest J text (J.loads text)

-- `load_manifest`: the list under "files", the only part of the manifest that is read
unfoldable pub load_manifest : JsonLib → Workspace → Option (List Value) × List String
unfolding read_text
load_manifest J W = read_text J W.manifest_text

both_texts : Value → Value → Option ManifestEntry
both_texts (str path) (str digest) = some (record { path = path; sha256 = digest })
both_texts _ _ = none

-- What an element of "files" lists.
unfoldable pub listed_entry : Value → Option ManifestEntry
unfolding both_texts
listed_entry (obj entry) = both_texts (get entry "path") (get entry "sha256")
listed_entry _ = none

entry_label : ℕ → String
unfolding int_text
entry_label index = "manifest entry " <> int_text (pos index)

malformed : ℕ → Value → String
unfolding entry_label
malformed index (obj entry) = entry_label index <> "はstringのpathとsha256を含まなければならない"
malformed index _ = entry_label index <> "がobjectではない"

unfoldable pub file_errors : Workspace → ManifestEntry → List String
file_errors W e =
    if not (W.exists e.path)
    then ("記載fileがない: " <> e.path) ∷ []
    else if W.is_file e.path
    then unless (W.digest e.path == e.sha256) ("hashが不一致: " <> e.path)
    else []

-- The errors of an entry behind the paths `seen`.
unfoldable pub entry_errors : Workspace → List String → ManifestEntry → List String
entry_errors W seen e =
    unless (not (member e.path seen)) ("manifest entryが重複: " <> e.path)
    ++ (unless (not (is_excluded_relative e.path)) ("禁止された生成fileまたは自己参照fileが記載されている: " <> e.path)
        ++ file_errors W e)

-- The loop of `check_manifest`: the errors, and the keys of `actual_by_path`, whose values are not
-- read again.
unfoldable pub check_entries : Workspace → ℕ → List String → List Value → List String × List String
unfolding malformed
check_entries W index seen [] = ([], seen)
check_entries W index seen (v ∷ vs) = elim (listed_entry v) [
  | none ↦
      let (errors, listed) = check_entries W (suc index) seen vs in
      (malformed index v ∷ errors, listed)
  | some e ↦
      let (errors, listed) = check_entries W (suc index) (seen ++ (e.path ∷ [])) vs in
      (entry_errors W seen e ++ errors, listed)
]

unfoldable pub is_core : String → Bool
is_core path = starts_with path "packages/shell_core/" && ends_with path ".py"

unfoldable pub missing_message : String → String
missing_message path = "manifestに必須source fileがない: " <> path

unfoldable pub against_list : Workspace → Option (List Value) × List String → List String
unfolding missing_message
against_list W (none, load_errors) = (expected_files W).1 ++ load_errors
against_list W (some vs, load_errors) =
    let (expected, expected_errors) = expected_files W in
    let (errors, listed) = check_entries W 0 [] vs in
    expected_errors
    ++ (load_errors
        ++ (errors
            ++ (map missing_message (sort_texts (difference (as_set expected) listed))
                ++ unless (any_of is_core listed) "manifestにShell Coreの中核fileがない")))

unfoldable pub check_manifest : JsonLib → Workspace → List String
check_manifest J W = against_list W (load_manifest J W)

-- `write_manifest`: the workspace after it, the exit code, and the lines printed
unfoldable pub write_manifest : JsonLib → Workspace → Workspace × ℕ × List String
unfolding int_text
write_manifest J W =
    let (manifest, errors) = build_manifest W in
    if is_empty errors
    then (
      record W { manifest_text = some (J.indented (obj manifest) <> "\n") },
      0,
      ("MANIFEST.sha256.jsonへfile " <> (int_text (pos (length (expected_files W).0)) <> "件を書込んだ"))
          ∷ [],
    )
    else (W, 1, map (λ error. "manifest生成が失敗: " <> error) errors)

unfoldable pub run_check : JsonLib → Workspace → ℕ × List String
run_check J W =
    let errors = check_manifest J W in
    if is_empty errors
    then (0, "manifest checkが合格" ∷ [])
    else (1, "manifest checkが失敗:" ∷ map (λ error. "  - " <> error) errors)
