-- ===== src/Normalization/Keys.antt =====
-- packages/shell_core/authority_keys.py and the key tables of normalization.py.
use gui_shell_public.Prelude.{
  String, Bool, true, false, ◌||◌, Option, none, some, ◌==◌, if◌then◌else◌,
}
use gui_shell_public.Platform.{Platform}
use gui_shell_public.Normalization.Text.{drop_zero_width, strip, split_camel, join_dashes, squeeze}

unfoldable pub is_authority_key : String → Bool
is_authority_key k =
    k == "authority"
    || k == "authority_context"
    || k == "authority_trace"
    || k == "approval_state"
    || k == "approved_by"
    || k == "permission_grant"
    || k == "permission_override"
    || k == "role"
    || k == "scope_escalation"
    || k == "trust_level"

unfoldable pub alias_of : String → Option String
alias_of k =
    if k == "admin_context"
    then some "authority_context"
    else if k == "elevated"
    then some "scope_escalation"
    else if k == "grant"
        || k == "grants"
        || k == "permission"
        || k == "permissions"
        || k == "permissions_granted"
        || k == "privilege"
        || k == "privileges"
        || k == "permissiongrant"
    then some "permission_grant"
    else none

unfoldable pub is_authority_value : String → Bool
is_authority_value s =
    s == "admin" || s == "all" || s == "approved" || s == "elevated" || s == "root"

module _ (P : Platform) where
  unfoldable pub normalize_key : String → String
  unfolding drop_zero_width strip split_camel join_dashes squeeze
  normalize_key key =
      squeeze false
        (join_dashes false (P.casefold (split_camel false (strip (drop_zero_width (P.nfkc key))))))

  unfoldable pub canonical_authority_key : String → Option String
  unfolding is_authority_key alias_of
  canonical_authority_key key =
      let normalized = normalize_key key in
      if is_authority_key normalized then some normalized else alias_of normalized

  abbrev pub claims_authority : String → Bool
  claims_authority key = elim (canonical_authority_key key) [ none ↦ false | some c ↦ true ]
