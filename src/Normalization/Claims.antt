-- ===== src/Normalization/Claims.antt =====
-- What it means that a payload claims authority, said without paths and lists of findings.
use gui_shell_public.Prelude.{Bool, true, false, ◌&&◌, ◌||◌, all_chars}
use gui_shell_public.Platform.{Platform, is_ascii}
use gui_shell_public.Value.{Value, str, arr, obj, Items, nil, cons, Fields, end, field}
use gui_shell_public.Normalization.Text.{drop_zero_width}
use gui_shell_public.Normalization.Keys.{normalize_key, claims_authority, is_authority_value}

module _ (P : Platform) where
  -- A key somewhere in the value claims authority.
  unfoldable mutual
    pub names_authority : Value → Bool
    names_authority (obj d) = names_in_fields d
    names_authority (arr xs) = names_in_items xs
    names_authority v = false

    pub names_in_items : Items → Bool
    names_in_items nil = false
    names_in_items (cons v xs) = names_authority v || names_in_items xs

    pub names_in_fields : Fields → Bool
    names_in_fields end = false
    names_in_fields (field k v d) = claims_authority P k || (names_authority v || names_in_fields d)

  -- A text somewhere in the value reads as an authority value.
  unfoldable mutual
    pub grants_by_value : Value → Bool
    grants_by_value (obj d) = grants_in_fields d
    grants_by_value (arr xs) = grants_in_items xs
    grants_by_value (str s) = is_authority_value (normalize_key P s)
    grants_by_value v = false

    pub grants_in_items : Items → Bool
    grants_in_items nil = false
    grants_in_items (cons v xs) = grants_by_value v || grants_in_items xs

    pub grants_in_fields : Fields → Bool
    grants_in_fields end = false
    grants_in_fields (field k v d) = grants_by_value v || grants_in_fields d

  -- Every key, at any depth, is plain.
  unfoldable mutual
    pub has_plain_keys : Value → Bool
    has_plain_keys (obj d) = plain_fields d
    has_plain_keys (arr xs) = plain_items xs
    has_plain_keys v = true

    pub plain_items : Items → Bool
    plain_items nil = true
    plain_items (cons v xs) = has_plain_keys v && plain_items xs

    pub plain_fields : Fields → Bool
    plain_fields end = true
    plain_fields (field k v d) =
        all_chars is_ascii (drop_zero_width (P.nfkc k)) && (has_plain_keys v && plain_fields d)
