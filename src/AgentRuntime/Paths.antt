-- ===== src/AgentRuntime/Paths.antt =====
-- Which paths `path_allowed` admits.
use gui_shell_public.Prelude.{
  String, ◌≡◌, refl, ◌∙◌, ◌↔◌, Bool, true, false, ◌||◌, List, [], ◌∷◌, ◌++◌, ◌==◌, any_of, arith,
  All, Bool-cases, inl, inr, eq_iff, and-eq-true, or-eq-false, not-eq-true,
}
use gui_shell_public.AgentRuntime.{
  Parts, PathLib, AgentRuntimeContract, is_absolute, is_below, is_proper_parent, same_parts,
  secret_path_parts, resolve_path, names_secret, is_secret_path, path_allowed,
}

-- `resolve` returns an absolute path, and keeps a path that it has returned.
pub record IsResolving (L : PathLib) : Type 0 where
  pub absolute : (path : Parts) → is_absolute (L.resolve path) ≡ true
  pub stable : (path : Parts) → L.resolve (L.resolve path) ≡ L.resolve path

-- The path begins with the parts of the other one.
abbrev pub StartsWith : Parts → Parts → Type 0
StartsWith path other = (rest : Parts) × (path ≡ other ++ rest)

is_below-StartsWith : (other path : Parts) → is_below other path ≡ true → StartsWith path other
unfolding is_below
is_below-StartsWith [] path h = (path, refl)
is_below-StartsWith (part ∷ other) [] h = cc
is_below-StartsWith (part ∷ other) (p ∷ path) h =
    let (same, more) = and-eq-true (part == p) _ h in
    let (rest, e) = is_below-StartsWith other path more in (rest, cc ((eq_iff part p).0 same))

StartsWith-is_below : (other rest : Parts) → is_below other (other ++ rest) ≡ true
unfolding is_below
StartsWith-is_below [] rest = refl
StartsWith-is_below (part ∷ other) rest =
    rw ((eq_iff part part).1 refl) (StartsWith-is_below other rest)

-- A path is another one or below it exactly when it begins with its parts.
same_or_below :
    (path other : Parts)
    → (same_parts path other || is_proper_parent other path) ≡ is_below other path
unfolding same_parts is_proper_parent is_below
same_or_below [] [] = refl
same_or_below (p ∷ path) [] = refl
same_or_below [] (q ∷ other) = refl
same_or_below (p ∷ path) (q ∷ other) =
    ground (arith, same_or_below path other, eq_iff p q, eq_iff q p)

not_any :
    {A : Type 0} (test : A → Bool) (xs : List A)
    → (any_of test xs ≡ false) ↔ All (λ x. test x ≡ false) xs
unfolding any_of
not_any test [] = (λ h. tt, λ h. refl)
not_any test (x ∷ xs) = (
  λ h. let (a, b) = or-eq-false (test x) _ h in (a, (not_any test xs).0 b),
  λ h. rw (h.0, (not_any test xs).1 h.1),
)

module _ (L : PathLib) (lib : IsResolving L) (c : AgentRuntimeContract) where
  resolved :
      (path : Parts)
      → resolve_path L c.root_path (resolve_path L c.root_path path)
        ≡ resolve_path L c.root_path path
  unfolding resolve_path
  resolved path = elim (Bool-cases (is_absolute path)) [
    | inl a ↦ rw (a, lib.absolute, lib.stable)
    | inr a ↦ rw (a, lib.absolute, lib.stable)
  ]

  outside :
      (path secret : Parts)
      → (same_parts path secret || is_proper_parent secret path) ≡ false
      → ¬ StartsWith path secret
  outside path secret h (rest, e) =
      cc (rw (same_or_below path secret, e, StartsWith-is_below secret rest) at h)

  outside_of_not :
      (path secret : Parts)
      → ¬ StartsWith path secret
      → (same_parts path secret || is_proper_parent secret path) ≡ false
  outside_of_not path secret apart = elim (Bool-cases (is_below secret path)) [
    | inl below ↦ elim (apart (is_below-StartsWith secret path below)) [ ]
    | inr free ↦ same_or_below path secret ∙ free
  ]

  outside_each :
      (path : Parts) (secrets : List Parts)
      → All (λ secret. (same_parts path secret || is_proper_parent secret path) ≡ false) secrets
        ↔ All (λ secret. ¬ StartsWith path secret) secrets
  outside_each path [] = (λ h. tt, λ h. tt)
  outside_each path (secret ∷ secrets) = (
    λ h. (outside path secret h.0, (outside_each path secrets).0 h.1),
    λ h. (outside_of_not path secret h.0, (outside_each path secrets).1 h.1),
  )

  -- The path is at the root or below it, has no secret part, and is not at a declared secret path or
  -- below one.
  abbrev pub IsOpen : Parts → Type 0
  IsOpen path =
      StartsWith path c.root_path
      × All (λ part. any_of (λ secret. secret == part) secret_path_parts ≡ false) path
      × All (λ secret. ¬ StartsWith path secret) c.resolved_secret_paths

  names_secret_iff :
      (path : Parts)
      → (names_secret L c.resolved_secret_paths path ≡ false) ↔ (
          All (λ part. any_of (λ secret. secret == part) secret_path_parts ≡ false) path
          × All (λ secret. ¬ StartsWith path secret) c.resolved_secret_paths)
  unfolding names_secret
  names_secret_iff path = (
    λ h.
        let (parts, declared) = or-eq-false _ _ h in
        (
          (not_any _ path).0 parts,
          (outside_each path c.resolved_secret_paths).0
              ((not_any _ c.resolved_secret_paths).0 declared),
        ),
    λ (parts, declared). rw (
      (not_any _ path).1 parts,
      (not_any _ c.resolved_secret_paths).1
          ((outside_each path c.resolved_secret_paths).1 declared),
    ),
  )

  -- If `resolve` returns absolute paths and keeps a path that it has returned, then `path_allowed`
  -- holds exactly when the candidate resolves to a path at the root or below it that has no secret
  -- part and is neither a declared secret path nor below one.
  pub path_allowed_iff :
      (candidate : String)
      → (path_allowed L c candidate ≡ true)
        ↔ IsOpen (resolve_path L c.root_path (L.of_text candidate))
  unfolding path_allowed is_secret_path
  path_allowed_iff candidate =
      let path = resolve_path L c.root_path (L.of_text candidate) in
      let again : resolve_path L c.root_path path ≡ path = resolved (L.of_text candidate) in
      elim (Bool-cases (is_below c.root_path path)) [
        | inl below ↦ (
          λ h.
              let free = not-eq-true _ (rw (below, again) at h) in
              let (parts, declared) = (names_secret_iff path).0 free in
              (is_below-StartsWith c.root_path path below, parts, declared),
          λ (_, parts, declared). rw (below, again, (names_secret_iff path).1 (parts, declared)),
        )
        | inr above ↦ (
          λ h. cc (rw above at h),
          λ ((rest, e), _, _). cc (rw (e, StartsWith-is_below c.root_path rest) at above),
        )
      ]
