-- ===== src/Normalization/Removal.antt =====
-- What the removal of authority keys achieves.
use gui_shell_public.Prelude.{
  String, ◌≡◌, refl, true, false, is_empty, Bool-cases, inl, inr, or-eq-false, and-eq-true, ◌==◌,
}
use gui_shell_public.Platform.{Platform, IsUnicode}
use gui_shell_public.Value.{
  Value, null, bool, num, str, arr, obj, Items, nil, cons, Fields, end, field, put,
}
use gui_shell_public.Normalization.Keys.{normalize_key, canonical_authority_key, claims_authority}
use gui_shell_public.Normalization.Strip.{strip_authority_keys, strip_items, strip_fields}
use gui_shell_public.Normalization.Findings.{authority_keys_in}
use gui_shell_public.Normalization.Idempotence.{IsPlainKey, normalize_key_idem}
use gui_shell_public.Normalization.Search.{authority_keys_in_decides}
use gui_shell_public.Normalization.Claims.{
  names_authority, names_in_items, names_in_fields, has_plain_keys, plain_items, plain_fields,
}

module _ (P : Platform) where
  names-put :
      (d : Fields) (k : String) (v : Value)
      → claims_authority P k ≡ false
      → names_authority P v ≡ false
      → names_in_fields P d ≡ false
      → names_in_fields P (put d k v) ≡ false
  unfolding names_authority put
  names-put end k v hk hv hd = rw (hk, hv)
  names-put (field j w d) k v hk hv hd =
      let (a, b) = or-eq-false (claims_authority P j) _ hd in
      let (b0, b1) = or-eq-false (names_authority P w) _ b in
      elim (Bool-cases (j == k)) [
        | inl same ↦ rw (same, a, hv, b1)
        | inr other ↦ rw (other, a, b0, names-put d k v hk hv b1)
      ]

  claims-normalize_key :
      IsUnicode P
      → (k : String) → IsPlainKey P k
      → claims_authority P k ≡ false
      → claims_authority P (normalize_key P k) ≡ false
  unfolding canonical_authority_key
  claims-normalize_key unicode k plain h =
      rw (normalize_key_idem P unicode k plain, claims_authority) h

module _ (P : Platform) (unicode : IsUnicode P) where
  mutual
    unfolding strip_authority_keys names_authority has_plain_keys

    pub removed :
        (v : Value)
        → has_plain_keys P v ≡ true
        → names_authority P (strip_authority_keys P v) ≡ false
    removed null h = refl
    removed (bool b) h = refl
    removed (num n) h = refl
    removed (str s) h = refl
    removed (arr xs) h = removed_items xs h
    removed (obj d) h = removed_fields d end h refl

    removed_items :
        (xs : Items) → plain_items P xs ≡ true → names_in_items P (strip_items P xs) ≡ false
    removed_items nil h = refl
    removed_items (cons v xs) h =
        let (hv, hxs) = and-eq-true (has_plain_keys P v) _ h in
        rw (removed v hv, removed_items xs hxs)

    removed_fields :
        (d made : Fields)
        → plain_fields P d ≡ true
        → names_in_fields P made ≡ false
        → names_in_fields P (strip_fields P d made) ≡ false
    removed_fields end made h clean = clean
    removed_fields (field k v d) made h clean =
        let (hk, more) = and-eq-true _ _ h in
        let (hv, hd) = and-eq-true (has_plain_keys P v) _ more in
        elim (Bool-cases (claims_authority P k)) [
          | inl claim ↦ rw claim (removed_fields d made hd clean)
          | inr free ↦ rw free (
              removed_fields d _ hd (
                names-put P made (normalize_key P k) (strip_authority_keys P v)
                  (claims-normalize_key P unicode k hk free) (removed v hv) clean))
        ]

  -- Under the Unicode laws of ASCII texts: if the letters of every key are ASCII after NFKC and the
  -- removal of zero-width characters, then `strip_authority_keys` leaves no key, at any depth, that
  -- `canonical_authority_key` still maps to an authority key.
  pub strip_authority_keys_removes_all :
      (v : Value) (path : String)
      → has_plain_keys P v ≡ true
      → is_empty (authority_keys_in P (strip_authority_keys P v) path) ≡ true
  strip_authority_keys_removes_all v path h =
      rw (authority_keys_in_decides P (strip_authority_keys P v) path, removed v h)
