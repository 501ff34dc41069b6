-- ===== src/Normalization/Strip.antt =====
-- packages/shell_core/normalization.py: `normalize_payload` and `strip_authority_keys`.
use gui_shell_public.Prelude.{if◌then◌else◌}
use gui_shell_public.Value.{Value, str, arr, obj, Items, nil, cons, Fields, end, field, put}
use gui_shell_public.Platform.{Platform}
use gui_shell_public.Normalization.Text.{strip}
use gui_shell_public.Normalization.Keys.{normalize_key, claims_authority}

module _ (P : Platform) where
  unfoldable mutual
    pub normalize_payload : Value → Value
    normalize_payload (obj d) = obj (normalize_fields d end)
    normalize_payload (arr xs) = arr (normalize_items xs)
    normalize_payload (str s) = str (strip (P.nfkc s))
    normalize_payload v = v

    pub normalize_items : Items → Items
    normalize_items nil = nil
    normalize_items (cons v xs) = cons (normalize_payload v) (normalize_items xs)

    -- The entries of a dict comprehension, put in turn into the dict made so far.
    pub normalize_fields : Fields → Fields → Fields
    normalize_fields end made = made
    normalize_fields (field k v d) made =
        normalize_fields d (put made (normalize_key P k) (normalize_payload v))

  unfoldable mutual
    pub strip_authority_keys : Value → Value
    strip_authority_keys (obj d) = obj (strip_fields d end)
    strip_authority_keys (arr xs) = arr (strip_items xs)
    strip_authority_keys v = v

    pub strip_items : Items → Items
    strip_items nil = nil
    strip_items (cons v xs) = cons (strip_authority_keys v) (strip_items xs)

    pub strip_fields : Fields → Fields → Fields
    strip_fields end made = made
    strip_fields (field k v d) made =
        let kept = put made (normalize_key P k) (strip_authority_keys v) in
        strip_fields d (if claims_authority P k then made else kept)
