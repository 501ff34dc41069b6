-- ===== src/Manifest/Current.antt =====
-- tooling/manifest.py: when the check of the manifest finds nothing.
use gui_shell_public.Prelude.{
  Unseen-of_nothing, String, ◌≡◌, refl, sym, ap, ◌∙◌, ◌↔◌, ◌⊎◌, true, List, [], ◌∷◌, map, Option,
  none, some, inl, inr, any_of, All, member, sort_texts, as_set, difference, append-eq-nil, arith,
  Distinct, member-difference, member-sort_texts, member-as_set, no_member_iff,
}
use gui_shell_public.Value.{Value, get}
use gui_shell_public.Manifest.{Workspace, ManifestEntry, expected_files}
use gui_shell_public.Manifest.Check.{
  JsonLib, load_manifest, check_entries, is_core, against_list, check_manifest, missing_message,
  with_files, loaded_manifest, read_text,
}
use gui_shell_public.Manifest.Entries.{
  paths, IsRight, IsRead, unless-eq-nil, map-eq-nil, cons-nonempty, check_entries-listed,
  check_entries-clean, check_entries-passes,
}

-- Every entry is right, no path is listed twice, every expected file is listed, and so is some file
-- of the Shell Core.
pub record IsCurrent (W : Workspace) (entries : List ManifestEntry) : Type 0 where
  pub right : All (IsRight W) entries
  pub distinct : Distinct (paths entries)
  pub complete :
      (path : String) → member path (expected_files W).0 ≡ true → member path (paths entries) ≡ true
  pub core : any_of is_core (paths entries) ≡ true

complete_iff :
    (expected listed : List String)
    → (sort_texts (difference (as_set expected) listed) ≡ [])
      ↔ ((path : String) → member path expected ≡ true → member path listed ≡ true)
complete_iff expected listed = (
  λ h path wanted.
      let none_left = (no_member_iff (sort_texts (difference (as_set expected) listed))).0 h path in
      ground (
        arith,
        none_left,
        member-sort_texts path (difference (as_set expected) listed),
        member-difference path (as_set expected) listed,
        member-as_set path expected,
      ),
  λ h. (no_member_iff (sort_texts (difference (as_set expected) listed))).1 λ path. ground (
    arith,
    h path,
    member-sort_texts path (difference (as_set expected) listed),
    member-difference path (as_set expected) listed,
    member-as_set path expected,
  ),
)

-- What follows a manifest that was read: no error is left exactly if it is current.
against_list_iff :
    (W : Workspace) (vs : List Value)
    → (against_list W (some vs, []) ≡ []) ↔ (
        (entries : List ManifestEntry) × ((expected_files W).1 ≡ [])
        × IsRead vs entries
        × IsCurrent W entries)
unfolding against_list
against_list_iff W vs = (
  λ h.
      let (fine, h1) = append-eq-nil _ _ h in
      let (clean, h2) = append-eq-nil (check_entries W 0 [] vs).0 _ h1 in
      let (missing, core) =
        append-eq-nil
          (map missing_message
            (sort_texts (difference (as_set (expected_files W).0) (check_entries W 0 [] vs).1)))
          _ h2 in
      let (entries, read, right, distinct, unseen) = check_entries-clean W 0 [] vs clean in
      let listed = check_entries-listed W 0 [] vs entries read in
      let current : IsCurrent W entries = record {
        right = right;
        distinct = distinct;
        complete = rw (← listed) (
            (complete_iff (expected_files W).0 (check_entries W 0 [] vs).1).0
              ((map-eq-nil missing_message _).0 missing));
        core = rw (← listed) ((unless-eq-nil _ _).0 core);
      } in
      (entries, fine, read, current),
  λ (entries, fine, read, current).
      rw
        (
          against_list,
          fine,
          check_entries-listed W 0 [] vs entries read,
          check_entries-passes W 0 [] vs entries read current.right current.distinct
              (Unseen-of_nothing (paths entries)),
          (complete_iff (expected_files W).0 (paths entries)).1 current.complete,
        )
        ((unless-eq-nil _ _).1 current.core),
)

-- A load gives a list, or one error.
abbrev LoadCases : Option (List Value) × List String → Type 0
LoadCases p =
    ((vs : List Value) × (p ≡ (some vs, []))) ⊎ ((message : String) × (p ≡ (none, message ∷ [])))

with_files-cases : (v : Value) → LoadCases (with_files v)
unfolding with_files
with_files-cases (Value.arr xs) = inl (_, refl)
with_files-cases _ = inr (_, refl)

loaded_manifest-cases :
    (J : JsonLib) (text : String) (o : Option Value) → LoadCases (loaded_manifest J text o)
unfolding loaded_manifest
loaded_manifest-cases J text none = inr (_, refl)
loaded_manifest-cases J text (some (Value.obj manifest)) = with_files-cases (get manifest "files")
loaded_manifest-cases J text (some _) = inr (_, refl)

read_text-cases : (J : JsonLib) (o : Option String) → LoadCases (read_text J o)
unfolding read_text
read_text-cases J none = inr (_, refl)
read_text-cases J (some text) = loaded_manifest-cases J text (J.loads text)

-- There is no error about the expected files, and the manifest reads as an object with a list under
-- "files" that is current.
abbrev pub IsUpToDate : JsonLib → Workspace → Type 0
IsUpToDate J W =
    (vs : List Value) × (entries : List ManifestEntry) × (load_manifest J W ≡ (some vs, []))
    × ((expected_files W).1 ≡ [])
    × IsRead vs entries
    × IsCurrent W entries

-- The check of the manifest finds nothing exactly if the expected files gave no error, the manifest
-- reads as an object with a list under "files", every element of that list is an object with texts
-- for its path and digest, every path exists and is not excluded, a file has the digest, no path is
-- there twice, every expected file is there, and so is some file of the Shell Core.
pub check_manifest_iff : (J : JsonLib) (W : Workspace) → (check_manifest J W ≡ []) ↔ IsUpToDate J W
unfolding check_manifest load_manifest against_list
check_manifest_iff J W = (
  λ h. elim (read_text-cases J W.manifest_text) [
    | inl (vs, loads) ↦
        let (entries, fine, read, current) =
          (against_list_iff W vs).0 (sym (ap (against_list W) loads) ∙ h) in
        (vs, entries, loads, fine, read, current)
    | inr (message, fails) ↦ absurd (
        cons-nonempty
          (append-eq-nil (expected_files W).1 _ (sym (ap (against_list W) fails) ∙ h)).1)
  ],
  λ (vs, entries, loads, fine, read, current).
      ap (against_list W) loads ∙ (against_list_iff W vs).1 (entries, fine, read, current),
)
