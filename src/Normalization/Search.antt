-- ===== src/Normalization/Search.antt =====
-- What the searches of normalization.py decide.
use gui_shell_public.Prelude.{
  String, ◌≡◌, refl, Bool, ◌&&◌, ◌||◌, not, ℕ, suc, arith, is_empty, is_empty-append,
}
use gui_shell_public.Platform.{Platform}
use gui_shell_public.Value.{
  Value, null, bool, num, str, arr, obj, Items, nil, cons, Fields, end, field,
}
use gui_shell_public.Normalization.Keys.{normalize_key, canonical_authority_key, claims_authority}
use gui_shell_public.Normalization.Strip.{strip_authority_keys}
use gui_shell_public.Normalization.Findings.{
  key_finding, child_path, item_path, authority_keys_in, authority_keys_in_items,
  authority_keys_in_fields, authority_values_in, authority_values_in_items,
  authority_values_in_fields,
}
use gui_shell_public.Normalization.Inbound.{attempts_authority}
use gui_shell_public.Normalization.Claims.{
  names_authority, names_in_items, names_in_fields, grants_by_value, grants_in_items,
  grants_in_fields,
}

module _ (P : Platform) where
  key_finding-claims :
      (path k : String)
      → is_empty (key_finding path k (canonical_authority_key P k)) ≡ not (claims_authority P k)
  key_finding-claims path k = ground arith

  and-not : (a b : Bool) → (not a && not b) ≡ not (a || b)
  and-not a b = ground arith

  mutual
    unfolding authority_keys_in names_authority

    keys-found :
        (v : Value) (path : String)
        → is_empty (authority_keys_in P v path) ≡ not (names_authority P v)
    keys-found null path = refl
    keys-found (bool b) path = refl
    keys-found (num n) path = refl
    keys-found (str s) path = refl
    keys-found (arr xs) path = keys-found_items xs path 0
    keys-found (obj d) path = keys-found_fields d path

    keys-found_items :
        (xs : Items) (path : String) (i : ℕ)
        → is_empty (authority_keys_in_items P xs path i) ≡ not (names_in_items P xs)
    keys-found_items nil path i = refl
    keys-found_items (cons v xs) path i = rw (
      is_empty-append,
      keys-found v (item_path path i),
      keys-found_items xs path (suc i),
      and-not (names_authority P v),
    )

    keys-found_fields :
        (d : Fields) (path : String)
        → is_empty (authority_keys_in_fields P d path) ≡ not (names_in_fields P d)
    keys-found_fields end path = refl
    keys-found_fields (field k v d) path =
        let here = child_path path (normalize_key P k) in
        rw (
          is_empty-append,
          is_empty-append,
          key_finding-claims here k,
          keys-found v here,
          keys-found_fields d path,
          and-not (names_authority P v),
          and-not (claims_authority P k),
        )

  -- `authority_keys_in` finds nothing exactly when no key of the value, at any depth, claims
  -- authority, whatever the path.
  pub authority_keys_in_decides :
      (v : Value) (path : String)
      → is_empty (authority_keys_in P v path) ≡ not (names_authority P v)
  authority_keys_in_decides v path = keys-found v path

  mutual
    unfolding authority_values_in grants_by_value

    values-found :
        (v : Value) (path : String)
        → is_empty (authority_values_in P v path) ≡ not (grants_by_value P v)
    values-found null path = refl
    values-found (bool b) path = refl
    values-found (num n) path = refl
    values-found (str s) path = ground arith
    values-found (arr xs) path = values-found_items xs path 0
    values-found (obj d) path = values-found_fields d path

    values-found_items :
        (xs : Items) (path : String) (i : ℕ)
        → is_empty (authority_values_in_items P xs path i) ≡ not (grants_in_items P xs)
    values-found_items nil path i = refl
    values-found_items (cons v xs) path i = rw (
      is_empty-append,
      values-found v (item_path path i),
      values-found_items xs path (suc i),
      and-not (grants_by_value P v),
    )

    values-found_fields :
        (d : Fields) (path : String)
        → is_empty (authority_values_in_fields P d path) ≡ not (grants_in_fields P d)
    values-found_fields end path = refl
    values-found_fields (field k v d) path = rw (
      is_empty-append,
      values-found v (child_path path (normalize_key P k)),
      values-found_fields d path,
      and-not (grants_by_value P v),
    )

  -- `authority_values_in` finds nothing exactly when no text of the value, at any depth, reads as an
  -- authority value, whatever the path.
  pub authority_values_in_decides :
      (v : Value) (path : String)
      → is_empty (authority_values_in P v path) ≡ not (grants_by_value P v)
  authority_values_in_decides v path = values-found v path

  not-and-not : (a b : Bool) → not (not a && not b) ≡ (a || b)
  not-and-not a b = ground arith

  -- The test for an authority claim holds exactly when some key, at any depth, is an authority key or
  -- an alias of one, or some text that is left without those keys reads as an authority value.
  pub attempts_authority_decides :
      (v : Value)
      → attempts_authority P v
        ≡ (names_authority P v || grants_by_value P (strip_authority_keys P v))
  unfolding attempts_authority
  attempts_authority_decides v =
      rw (keys-found v "", values-found (strip_authority_keys P v) "")
        (not-and-not (names_authority P v) _)
