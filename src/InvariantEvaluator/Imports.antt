-- ===== src/InvariantEvaluator/Imports.antt =====
-- packages/shell_core/invariant_evaluator.py: what the report says of the imports of packages/shell_core.
use gui_shell_public.Prelude.{
  String, ◌<>◌, ◌≡◌, refl, ap, sym, ◌↔◌, ◌⊎◌, inl, inr, Bool, true, false, ◌==◌, List, [], ◌∷◌,
  Option, none, some, any_of, member, All, Bool-cases, or-eq-false, starts_with,
}
use mathlib.Core.Path.{subst}
use mathlib.Core.Option.{some-injective}
use gui_shell_public.Outcome.{ok, >>=-eq-ok, ok-injective}
use gui_shell_public.Platform.{Platform}
use gui_shell_public.Value.{bool, Fields, get}
use gui_shell_public.Normalization.Text.{strip}
use gui_shell_public.Installer.{Machine}
use gui_shell_public.InvariantEvaluator.{
  CodeFile, Repository, imports_module, file_imports, shell_core_imports_forbidden,
  adapter_metadata_can_escalate_authority, full_payload_projected_without_full_visibility,
  evaluate_invariants,
}

-- No element passes the test exactly when each of them fails it.
any_of-eq-false_iff :
    {A : Type 0} (test : A → Bool) (Q : A → Type 0)
    → ((x : A) → (test x ≡ false) ↔ Q x)
    → (xs : List A) → (any_of test xs ≡ false) ↔ All Q xs
unfolding any_of
any_of-eq-false_iff test Q each [] = (λ h. tt, λ h. refl)
any_of-eq-false_iff test Q each (x ∷ xs) =
    let rest = any_of-eq-false_iff test Q each xs in
    (
      λ h. let (here, later) = or-eq-false (test x) _ h in ((each x).0 here, rest.0 later),
      λ (here, later). rw ((each x).1 here, rest.1 later) refl,
    )

any_of-member :
    (t : String) (texts : List String) → any_of (λ text. text == t) texts ≡ member t texts
unfolding any_of member
any_of-member t [] = refl
any_of-member t (text ∷ texts) = rw (any_of-member t texts) refl

bool-injective : {a b : Bool} → bool a ≡ bool b → a ≡ b
bool-injective h = cc

module _ (R : Repository) (name : String) where
  -- A line that, without the white space around it and in lower case, begins with neither import.
  abbrev pub HasNoImport : String → Type 0
  HasNoImport line =
      (starts_with (R.lower (strip line)) ("import " <> name) ≡ false)
      × (starts_with (R.lower (strip line)) ("from " <> name) ≡ false)

  -- A file below a directory `__pycache__`, or one of which no line imports the module.
  abbrev pub IsFree : CodeFile → Type 0
  IsFree file = (member "__pycache__" file.parts ≡ true) ⊎ All HasNoImport file.lines

  line_iff : (line : String) → (imports_module R name line ≡ false) ↔ HasNoImport line
  unfolding imports_module
  line_iff line = (λ h. or-eq-false _ _ h, λ (a, b). rw (a, b) refl)

  file_iff : (file : CodeFile) → (file_imports R name file ≡ false) ↔ IsFree file
  unfolding file_imports
  file_iff file =
      let lines = any_of-eq-false_iff (imports_module R name) HasNoImport line_iff file.lines in
      let at = any_of-member "__pycache__" file.parts in
      elim (Bool-cases (member "__pycache__" file.parts)) [
        | inl cached ↦ (λ h. inl cached, λ h. rw (at, cached) refl)
        | inr source ↦ (
          λ h. inr (lines.0 (rw (at, source) at h)),
          elim [ inl cached ↦ cc | inr free ↦ rw (at, source) (lines.1 free) ],
        )
      ]

  -- The directory exists and every Python file in it is free of the import.
  abbrev pub IsIndependent : Type 0
  IsIndependent = (files : List CodeFile) × (R.shell_core ≡ some files) × All IsFree files

  forbidden_iff :
      (directory : Option (List CodeFile))
      → ◌≡◌ {A = Bool}
          (elim directory [ none ↦ true | some files ↦ any_of (file_imports R name) files ])
          false
        ↔ ((files : List CodeFile) × (directory ≡ some files) × All IsFree files)
  forbidden_iff none = (λ h. cc, λ (files, there, free). cc)
  forbidden_iff (some files) =
      let each = any_of-eq-false_iff (file_imports R name) IsFree file_iff in
      (
        λ h. (files, refl, (each files).0 h),
        λ (others, same, free).
            (each files).1 (subst (All IsFree) (sym (some-injective _ _ same)) free),
      )

  shell_core_imports_forbidden_iff : (shell_core_imports_forbidden R name ≡ false) ↔ IsIndependent
  unfolding shell_core_imports_forbidden
  shell_core_imports_forbidden_iff = forbidden_iff R.shell_core

-- If the invariant report returns, then for each of flutter and blue_tanuki its flag is False exactly
-- when packages/shell_core exists and in every Python file of it, those below a `__pycache__`
-- excepted, no line begins, stripped and in lower case, with `import` or `from` and that name.
pub evaluate_invariants-imports_iff :
    (P : Platform) (R : Repository) (M : Machine) (flags : Fields)
    → evaluate_invariants P R M ≡ ok flags
    → ((get flags "flutter_imported_by_shell_core" ≡ bool false) ↔ IsIndependent R "flutter")
      × ((get flags "blue_tanuki_imported_by_shell_core" ≡ bool false)
          ↔ IsIndependent R "blue_tanuki")
unfolding evaluate_invariants get
evaluate_invariants-imports_iff P R M flags h =
    let (metadata, _, h1) = >>=-eq-ok (adapter_metadata_can_escalate_authority P) _ h in
    let (full, _, h2) = >>=-eq-ok (full_payload_projected_without_full_visibility P) _ h1 in
    let same = ok-injective h2 in
    let flutter = shell_core_imports_forbidden_iff R "flutter" in
    let tanuki = shell_core_imports_forbidden_iff R "blue_tanuki" in
    rw (← same) (
      (λ flag. flutter.0 (bool-injective flag), λ free. ap bool (flutter.1 free)),
      (λ flag. tanuki.0 (bool-injective flag), λ free. ap bool (tanuki.1 free)),
    )
