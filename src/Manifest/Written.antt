-- ===== src/Manifest/Written.antt =====
-- tooling/manifest.py: the check of a manifest that was just written.
use gui_shell_public.Prelude.{
  String, ◌<>◌, ◌≡◌, refl, sym, ap, ◌∙◌, Bool, true, false, eq_iff, List, [], ◌∷◌, map, Option,
  none, some, any_of, All, member, as_set, arith, Distinct, member-sort_texts, member-as_set,
  Distinct-sort_texts, Distinct-as_set,
}
use gui_shell_public.Value.{obj, of_list, values, get}
use gui_shell_public.Manifest.{
  Workspace, ManifestEntry, is_excluded_relative, included, expected_files, expected_from,
  git_tracked_files, entry_of, entry_dict, build_manifest, manifest_dict,
}
use gui_shell_public.Manifest.Check.{
  JsonLib, load_manifest, listed_entry, is_core, check_manifest, write_manifest, read_text,
  loaded_manifest, with_files,
}
use gui_shell_public.Manifest.Entries.{paths, IsRight, IsRead}
use gui_shell_public.Manifest.Current.{IsCurrent, check_manifest_iff}

included-right :
    (is_file : String → Bool) (p : String) (ps : List String)
    → member p (included is_file ps) ≡ true
    → (is_file p ≡ true) × (is_excluded_relative p ≡ false)
unfolding member included
included-right is_file p [] h = cc
included-right is_file p (q ∷ ps) h = ground (arith, included-right is_file p ps, eq_iff q p)

-- An expected file is a file, and not excluded.
expected-right :
    (W : Workspace) (p : String)
    → member p (expected_files W).0 ≡ true
    → (W.is_file p ≡ true) × (is_excluded_relative p ≡ false)
unfolding expected_files expected_from
expected-right W p h = from (git_tracked_files W) h
  where
    from :
        (o : Option (List String))
        → member p (expected_from W o).0 ≡ true
        → (W.is_file p ≡ true) × (is_excluded_relative p ≡ false)
    from none h = included-right W.is_file p W.walked (
        sym (member-as_set p (included W.is_file W.walked))
        ∙ (sym (member-sort_texts p (as_set (included W.is_file W.walked))) ∙ h))
    from (some ps) h = included-right W.is_file p ps (
        sym (member-as_set p (included W.is_file ps))
        ∙ (sym (member-sort_texts p (as_set (included W.is_file ps))) ∙ h))

expected-Distinct : (W : Workspace) → Distinct (expected_files W).0
unfolding expected_files expected_from
expected-Distinct W = from (git_tracked_files W)
  where
    from : (o : Option (List String)) → Distinct (expected_from W o).0
    from none = Distinct-sort_texts _ (Distinct-as_set (included W.is_file W.walked))
    from (some ps) = Distinct-sort_texts _ (Distinct-as_set (included W.is_file ps))

paths-entries :
    (digest : String → String) (ps : List String) → paths (map (entry_of digest) ps) ≡ ps
unfolding entry_of
paths-entries digest [] = refl
paths-entries digest (p ∷ ps) = ap (λ qs. p ∷ qs) (paths-entries digest ps)

All-entries :
    (Q : ManifestEntry → Type 0) (digest : String → String) (ps : List String)
    → ((p : String) → member p ps ≡ true → Q (entry_of digest p))
    → All Q (map (entry_of digest) ps)
unfolding member
All-entries Q digest [] h = tt
All-entries Q digest (p ∷ ps) h = (
  h p (ground (arith, eq_iff p p)),
  All-entries Q digest ps λ q there. h q (ground (arith, there)),
)

IsRead-back :
    (digest : String → String) (ps : List String)
    → IsRead
        (values (of_list (map entry_dict (map (entry_of digest) ps))))
        (map (entry_of digest) ps)
unfolding listed_entry entry_dict entry_of values get
IsRead-back digest [] = refl
IsRead-back digest (p ∷ ps) = ap (λ r. some (entry_of digest p) ∷ r) (IsRead-back digest ps)

abbrev with_text : Workspace → String → Workspace
with_text W text = record W { manifest_text = some text }

-- The manifest's own text is no source of the expected files.
expected_with_text :
    (W : Workspace) (text : String) → expected_files (with_text W text) ≡ expected_files W
unfolding expected_files expected_from git_tracked_files
expected_with_text W text = refl

load_with_text :
    (J : JsonLib) (W : Workspace) (text : String) (entries : List ManifestEntry)
    → J.loads text ≡ some (obj (manifest_dict entries))
    → load_manifest J (with_text W text) ≡ (some (values (of_list (map entry_dict entries))), [])
unfolding load_manifest read_text loaded_manifest with_files manifest_dict get
load_with_text J W text entries reads = rw (loaded_manifest, reads) refl

IsCurrent-with_text :
    (W : Workspace) (text : String)
    → ((p : String) → W.is_file p ≡ true → W.exists p ≡ true)
    → any_of is_core (expected_files W).0 ≡ true
    → IsCurrent (with_text W text) (map (entry_of W.digest) (expected_files W).0)
unfolding entry_of
IsCurrent-with_text W text present core = record {
  right =
      All-entries (IsRight (with_text W text)) W.digest (expected_files W).0
        λ p there. let (file, kept) = expected-right W p there in (kept, present p file, λ h. refl);
  distinct = rw (paths-entries W.digest (expected_files W).0) (expected-Distinct W);
  complete = λ p there.
      rw (paths-entries W.digest (expected_files W).0)
        (sym (ap (λ r. member p r.0) (expected_with_text W text)) ∙ there);
  core = rw (paths-entries W.digest (expected_files W).0) core;
}

-- If there is no error about the expected files and some of them is a Shell Core file, and if the
-- JSON library reads back the manifest it prints and every file exists, then writing the manifest
-- exits with 0, and the check finds nothing afterwards.
pub write_manifest-check :
    (J : JsonLib) (W : Workspace)
    → J.loads (J.indented (obj (build_manifest W).0) <> "\n") ≡ some (obj (build_manifest W).0)
    → ((p : String) → W.is_file p ≡ true → W.exists p ≡ true)
    → any_of is_core (expected_files W).0 ≡ true
    → (expected_files W).1 ≡ []
    → ((write_manifest J W).1 ≡ 0) × (check_manifest J (write_manifest J W).0 ≡ [])
unfolding write_manifest build_manifest expected_files
write_manifest-check J W reads present core fine =
    let text = J.indented (obj (build_manifest W).0) <> "\n" in
    rw fine (
      refl,
      (check_manifest_iff J (with_text W text)).1 (
        _,
        map (entry_of W.digest) (expected_files W).0,
        load_with_text J W text _ reads,
        ap (λ r. r.1) (expected_with_text W text) ∙ fine,
        IsRead-back W.digest (expected_files W).0,
        IsCurrent-with_text W text present core,
      ),
    )
