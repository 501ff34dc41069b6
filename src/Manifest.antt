-- ===== src/Manifest.antt =====
-- tooling/manifest.py: the manifest of the repository's files and their hashes.
pub mod Check
pub mod Entries
pub mod Current
pub mod Written
use gui_shell_public.Prelude.{
  String, ◌<>◌, Char, code, Bool, true, false, not, ◌&&◌, ◌||◌, ◌==◌, eqb, ℕ, List, [], ◌∷◌, ◌++◌,
  map, Option, none, some, any_of, is_empty, if◌then◌else◌, starts_with, split_on, member, as_set,
  sort_texts, length,
}
use gui_shell_public.Prelude.Int.{ℤ, pos, int_eqb}
use gui_shell_public.Value.{Value, num, str, obj, Fields, dict, list}

abbrev pub glob_patterns : List String
glob_patterns =
    "packages/shell_core/**/*.py" ∷ "tooling/**/*.py" ∷ "schemas/**/*.json" ∷ "specs/**/*.json"
    ∷ "examples/**/*.json" ∷ "apps/desktop_flutter/lib/**/*.dart"
    ∷ "apps/desktop_flutter/test/**/*.dart" ∷ "native/rust_helper/Cargo.toml"
    ∷ "native/rust_helper/Cargo.lock" ∷ "native/rust_helper/src/**/*.rs"
    ∷ "native/rust_helper/tests/**/*.rs" ∷ "installer/**/*.py" ∷ "installer/**/*.ps1"
    ∷ "installer/**/*.md" ∷ "scripts/**/*" ∷ "docs/**/*.md" ∷ []

abbrev pub exact_files : List String
exact_files =
    ".gitattributes" ∷ "AGENTS.md" ∷ "ROADMAP.md" ∷ "CONFORMANCE_REPORT.md"
    ∷ "COMPATIBILITY_MATRIX.md" ∷ "apps/desktop_flutter/pubspec.yaml" ∷ "README.md"
    ∷ "QUICKSTART.md" ∷ "CHANGELOG.md" ∷ "CLAIM.md" ∷ "RELEASE_CHECKLIST.md"
    ∷ "release_blockers.registry.json" ∷ "AUDIT_EVIDENCE.md" ∷ "INSTALLER_STATUS.md"
    ∷ "SECURITY_REVIEW.md" ∷ "SECURITY.md" ∷ "TROUBLESHOOTING.md" ∷ "MOBILE_STATUS.md" ∷ []

abbrev pub excluded_paths : List String
excluded_paths =
    "MANIFEST.sha256.json" ∷ "apps/mobile_flutter/pubspec.lock"
    ∷ "apps/desktop_flutter/flutter_01.log" ∷ []

abbrev pub excluded_parts : List String
excluded_parts =
    ".git" ∷ ".idea" ∷ ".dart_tool" ∷ "build" ∷ "ephemeral" ∷ "target" ∷ "__pycache__"
    ∷ "release_evidence" ∷ []

-- How `git ls-files -z` ended: its return code and what it printed.
pub record GitRun : Type 0 where
  pub returncode : ℤ
  pub stdout : String

-- The repository's root directory. A path is its text relative to the root, as `relative` gives it
-- back; the fields describe the files other than the manifest.
--   has_git           (ROOT / ".git").exists()
--   git               the run of git, none if it raises OSError
--   walked            the paths of ROOT.rglob("*")
--   shell_core_files  the paths of (ROOT / "packages" / "shell_core").glob("**/*.py")
--   exists, is_file   (ROOT / path).exists() and (ROOT / path).is_file()
--   digest            sha256(ROOT / path)
--   manifest_text     the text of MANIFEST.sha256.json, none if it is missing
pub record Workspace : Type 0 where
  pub has_git : Bool
  pub git : Option GitRun
  pub walked : List String
  pub shell_core_files : List String
  pub exists : String → Bool
  pub is_file : String → Bool
  pub digest : String → String
  pub manifest_text : Option String

pub record ManifestEntry : Type 0 where
  pub path : String
  pub sha256 : String

-- path.replace("\\", "/")
unfoldable pub with_slashes : String → String
with_slashes String.[] = ""
with_slashes (String.◌∷◌ c s) =
    String.◌∷◌ (elim (eqb (code c) 92) [ true ↦ "/" | false ↦ c ]) (with_slashes s)

kept_parts : List String → List String
kept_parts [] = []
kept_parts (part ∷ parts) =
    let rest = kept_parts parts in if part == "" || part == "." then rest else part ∷ rest

-- PurePosixPath(path).parts, for a path that does not start with "/"
unfoldable pub posix_parts : String → List String
unfolding kept_parts
posix_parts path = kept_parts (split_on "/" path)

unfoldable pub is_excluded_relative : String → Bool
is_excluded_relative path =
    let normalized = with_slashes path in
    let parts = posix_parts normalized in
    normalized == ""
    || starts_with normalized "/"
    || member normalized excluded_paths
    || member ".." parts
    || any_of (λ part. member part excluded_parts) parts

nonempty : List String → List String
nonempty [] = []
nonempty (item ∷ items) = let rest = nonempty items in if item == "" then rest else item ∷ rest

-- The listed files, of a run that returned.
git_files : Option GitRun → Option (List String)
unfolding nonempty
git_files none = none
git_files (some run) =
    if int_eqb run.returncode (pos 0) then some (nonempty (split_on "\0" run.stdout)) else none

unfoldable pub git_tracked_files : Workspace → Option (List String)
unfolding git_files
git_tracked_files W = if W.has_git then git_files W.git else none

-- The paths that are files and not excluded.
unfoldable pub included : (String → Bool) → List String → List String
included is_file [] = []
included is_file (path ∷ paths) =
    let rest = included is_file paths in
    if is_file path && not (is_excluded_relative path) then path ∷ rest else rest

missing_files : (String → Bool) → List String → List String
missing_files exists [] = []
missing_files exists (name ∷ names) =
    let rest = missing_files exists names in
    if exists name then rest else ("workspaceに必須fileがない: " <> name) ∷ rest

unless_empty : List String → String → List String
unless_empty xs message = if is_empty xs then message ∷ [] else []

unfoldable pub expected_from : Workspace → Option (List String) → List String × List String
unfolding missing_files unless_empty
expected_from W (some tracked) =
    let files = included W.is_file tracked in
    (sort_texts (as_set files), unless_empty files "Git追跡済みsource file一覧が空である")
expected_from W none = (
  sort_texts (as_set (included W.is_file W.walked)),
  missing_files W.exists exact_files ++ unless_empty W.shell_core_files "Shell Coreの中核fileがない",
)

-- `expected_files`: the files, and the errors
unfoldable pub expected_files : Workspace → List String × List String
unfolding expected_from
expected_files W = expected_from W (git_tracked_files W)

unfoldable pub entry_of : (String → String) → String → ManifestEntry
entry_of digest path = record { path = path; sha256 = digest path }

-- ManifestEntry(…).__dict__
unfoldable pub entry_dict : ManifestEntry → Value
entry_dict e = obj (dict (("path", str e.path) ∷ ("sha256", str e.sha256) ∷ []))

unfoldable pub manifest_dict : List ManifestEntry → Fields
manifest_dict entries = dict (
    ("version", num (pos 1))
    ∷ ("hash", str "sha256")
    ∷ ("self_reference_policy", str "MANIFEST.sha256.jsonは自身のfile一覧から除外する。")
    ∷ (
      "coverage",
      obj (
          dict (
            ("glob_patterns", list (map str glob_patterns))
            ∷ ("exact_files", list (map str exact_files))
            ∷ ("excluded_paths", list (map str (sort_texts excluded_paths)))
            ∷ ("excluded_directory_names", list (map str (sort_texts excluded_parts)))
            ∷ [])),
    )
    ∷ ("files", list (map entry_dict entries))
    ∷ [])

unfoldable pub build_manifest : Workspace → Fields × List String
build_manifest W =
    let (files, errors) = expected_files W in
    (manifest_dict (map (entry_of W.digest) files), errors)
