-- ===== src/Tests/Manifests.antt =====
-- The manifest of a directory with two files, one of them a cache, and git missing.
use gui_shell_public.Prelude.{
  String, ◌<>◌, ◌≡◌, refl, Bool, true, false, not, ◌||◌, ◌==◌, List, [], ◌∷◌, Option, none, some,
  ends_with,
}
use gui_shell_public.Value.{obj}
use gui_shell_public.Value.Text.{json_dumps}
use gui_shell_public.Manifest.{Workspace, is_excluded_relative, expected_files, build_manifest}
use gui_shell_public.Manifest.Check.{JsonLib, is_core, check_manifest, write_manifest}
use gui_shell_public.Manifest.Current.{IsUpToDate, check_manifest_iff}
use gui_shell_public.Manifest.Written.{write_manifest-check}

abbrev pub bare : Workspace
bare = record {
  has_git = false;
  git = none;
  walked = "packages/shell_core/a.py" ∷ "packages/__pycache__/a.pyc" ∷ "README.md" ∷ [];
  shell_core_files = "packages/shell_core/a.py" ∷ [];
  exists = λ path. true;
  is_file = λ path. not (path == "packages");
  digest = λ path. "digest of " <> path;
  manifest_text = none;
}

-- A library that reads back the one manifest of that directory.
json : JsonLib
json = record {
  loads = λ text. some (obj (build_manifest bare).0);
  message = λ text. "Expecting value";
  indented = json_dumps;
}

excluded_names :
    (is_excluded_relative "tooling/../x.py" ≡ true)
    × (is_excluded_relative "build\\x.py" ≡ true)
    × (is_excluded_relative "tooling/build.py" ≡ false)
unfolding is_excluded_relative gui_shell_public.Manifest.with_slashes
    gui_shell_public.Prelude.starts_with gui_shell_public.Prelude.member
    gui_shell_public.Manifest.posix_parts gui_shell_public.Prelude.split_on
    gui_shell_public.Prelude.any_of
excluded_names = (refl, refl, refl)

two_files : expected_files bare ≡ ("README.md" ∷ "packages/shell_core/a.py" ∷ [], [])
unfolding expected_files gui_shell_public.Manifest.git_tracked_files
    gui_shell_public.Prelude.sort_texts gui_shell_public.Prelude.as_set
    gui_shell_public.Manifest.included is_excluded_relative gui_shell_public.Manifest.with_slashes
    gui_shell_public.Prelude.starts_with gui_shell_public.Prelude.member
    gui_shell_public.Manifest.posix_parts gui_shell_public.Prelude.split_on
    gui_shell_public.Prelude.any_of gui_shell_public.Prelude.text_lt
two_files = refl

write_manifest-check_example :
    ((write_manifest json bare).1 ≡ 0) × (check_manifest json (write_manifest json bare).0 ≡ [])
unfolding json is_core expected_files gui_shell_public.Prelude.any_of
    gui_shell_public.Manifest.git_tracked_files gui_shell_public.Prelude.sort_texts
    gui_shell_public.Prelude.as_set gui_shell_public.Manifest.included is_excluded_relative
    gui_shell_public.Manifest.with_slashes gui_shell_public.Prelude.starts_with
    gui_shell_public.Prelude.member gui_shell_public.Manifest.posix_parts
    gui_shell_public.Prelude.split_on gui_shell_public.Prelude.text_lt ends_with
write_manifest-check_example = write_manifest-check json bare refl (λ path h. refl) refl refl

written_is_clean : check_manifest json (write_manifest json bare).0 ≡ []
unfolding json is_core expected_files gui_shell_public.Prelude.any_of
    gui_shell_public.Manifest.git_tracked_files gui_shell_public.Prelude.sort_texts
    gui_shell_public.Prelude.as_set gui_shell_public.Manifest.included is_excluded_relative
    gui_shell_public.Manifest.with_slashes gui_shell_public.Prelude.starts_with
    gui_shell_public.Prelude.member gui_shell_public.Manifest.posix_parts
    gui_shell_public.Prelude.split_on gui_shell_public.Prelude.text_lt ends_with
written_is_clean = (write_manifest-check json bare refl (λ path h. refl) refl refl).1

check_manifest_iff_example : IsUpToDate json (write_manifest json bare).0
check_manifest_iff_example =
    (check_manifest_iff json (write_manifest json bare).0).0 written_is_clean
