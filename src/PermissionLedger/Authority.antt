-- ===== src/PermissionLedger/Authority.antt =====
-- Which sources can grant authority, and what a recorded permission decides.
use gui_shell_public.Prelude.{
  String, ◌≡◌, refl, true, false, List, [], ◌∷◌, ◌==◌, eq_iff, any_of, if◌then◌else◌, arith, All,
  Bool-cases, inl, inr,
}
use gui_shell_public.Outcome.{ok, ok-injective}
use gui_shell_public.Value.{str, Fields, get_or, index}
use gui_shell_public.Store.{text_key, key_of, Table, assign}
use gui_shell_public.Store.Laws.{find-set, key_eqb_iff}
use gui_shell_public.PermissionLedger.{
  non_authority_sources, authority_sources, record_permission, decision_for,
  can_grant_authority_from_source,
}

-- What holds of every text of a list holds of a text that is found in it.
holds_of_found :
    (Q : String → Type 0) (xs : List String) (source : String)
    → All Q xs
    → any_of (λ s. s == source) xs ≡ true
    → Q source
unfolding any_of
holds_of_found Q [] source all h = cc
holds_of_found Q (x ∷ xs) source all h = elim (Bool-cases (x == source)) [
  | inl same ↦ rw (← (eq_iff x source).0 same) all.0
  | inr other ↦ holds_of_found Q xs source all.1 (rw other at h)
]

-- No source of the list of those without authority can grant authority.
pub non_authority_source-grants_nothing :
    (source : String)
    → any_of (λ s. s == source) non_authority_sources ≡ true
    → can_grant_authority_from_source source ≡ false
unfolding non_authority_sources can_grant_authority_from_source any_of
non_authority_source-grants_nothing source h =
    holds_of_found (λ s. any_of (λ a. a == s) authority_sources ≡ false) non_authority_sources
      source
      (
        refl,
        (
          refl,
          (
            refl,
            (
              refl,
              (
                refl,
                (
                  refl,
                  (
                    refl,
                    (refl, (refl, (refl, (refl, (refl, (refl, (refl, (refl, (refl, tt))))))))),
                  ),
                ),
              ),
            ),
          ),
        ),
      )
      h

-- If `record` returns for a permission whose id is a text, that id decides by the permission's own
-- decision, deny if it has none, and every other id as before.
pub decision_for-record_permission :
    (ledger ledger' : Table) (permission : Fields) (id j : String)
    → index permission "permission_id" ≡ ok (str id)
    → record_permission ledger permission ≡ ok ledger'
    → decision_for ledger' j
      ≡ (if id == j then get_or permission "decision" (str "deny") else decision_for ledger j)
unfolding record_permission decision_for assign key_of
decision_for-record_permission ledger ledger' permission id j named h =
    rw (← ok-injective (rw named at h), find-set)
      (ground (arith, eq_iff id j, key_eqb_iff (text_key id) (text_key j)))
