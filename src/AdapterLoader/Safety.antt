-- ===== src/AdapterLoader/Safety.antt =====
-- packages/shell_core/adapter_loader.py: the metadata of a loaded adapter.
use gui_shell_public.Prelude.{◌≡◌, ap, sym, ◌∙◌, true, false, is_empty, not-eq-true}
use gui_shell_public.Outcome.{ok, guard, guard-eq-ok, >>=-eq-ok, ok-injective}
use gui_shell_public.Platform.{Platform, IsUnicode}
use gui_shell_public.Value.{arr, obj, nil, Fields, end, get, get_or, index, is_true}
use gui_shell_public.Normalization.Strip.{strip_authority_keys}
use gui_shell_public.Normalization.Findings.{authority_values_in}
use gui_shell_public.Normalization.Claims.{names_authority, grants_by_value, has_plain_keys}
use gui_shell_public.Normalization.Search.{authority_values_in_decides}
use gui_shell_public.Normalization.Removal.{removed}
use gui_shell_public.Schema.Validation.{iterate}
use gui_shell_public.AdapterLoader.{AdapterRecord, load_adapter}

module _ (P : Platform) (adapter : Fields) (a : AdapterRecord)
    (loaded : load_adapter P adapter ≡ ok a) where
  loaded_parts :
      (is_true (get adapter "authority_strip") ≡ true)
      × (a.metadata ≡ strip_authority_keys P (get_or adapter "metadata" (obj end)))
      × (is_empty (
            authority_values_in P (strip_authority_keys P (get_or adapter "metadata" (obj end))) "")
          ≡ true)
  unfolding load_adapter
  loaded_parts =
      let (u, strip, h1) = >>=-eq-ok (guard (is_true (get adapter "authority_strip")) _) _ loaded in
      let (b, _, h2) = >>=-eq-ok (index adapter "adapter_id") _ h1 in
      let (c, _, h3) = >>=-eq-ok (index adapter "runtime_id") _ h2 in
      let (d, _, h4) = >>=-eq-ok (index adapter "contract_version") _ h3 in
      let (e, _, h5) =
        >>=-eq-ok (iterate (get_or adapter "declared_capabilities" (arr nil))) _ h4 in
      let (w, clean, h6) = >>=-eq-ok (guard (is_empty (authority_values_in P _ "")) _) _ h5 in
      (
        guard-eq-ok _ _ strip,
        sym (ap (λ (x : AdapterRecord). x.metadata) (ok-injective h6)),
        guard-eq-ok _ _ clean,
      )

  -- Under the Unicode laws of ASCII texts: if `load_adapter` returns for an adapter whose metadata has
  -- plain keys, the adapter declared authority_strip=true, and in the metadata of its record no key, at
  -- any depth, names authority and no text reads as an authority value.
  pub load_adapter_claims_nothing :
      IsUnicode P
      → has_plain_keys P (get_or adapter "metadata" (obj end)) ≡ true
      → (is_true (get adapter "authority_strip") ≡ true)
        × (names_authority P a.metadata ≡ false)
        × (grants_by_value P a.metadata ≡ false)
  load_adapter_claims_nothing unicode plain =
      let (strip, same, clean) = loaded_parts in
      let quiet =
        authority_values_in_decides P (strip_authority_keys P (get_or adapter "metadata" (obj end)))
          "" in
      (
        strip,
        rw same (removed P unicode (get_or adapter "metadata" (obj end)) plain),
        rw same (not-eq-true _ (sym quiet ∙ clean)),
      )
