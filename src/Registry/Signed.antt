-- ===== src/Registry/Signed.antt =====
-- packages/shell_core/update_policy_store.py and packages/runtime_catalog/catalog.py: registries
-- that refuse what is not signed, or keeps its authority.
use gui_shell_public.Prelude.{String, ◌≡◌, Bool, true, false, List, some, ◌⊎◌, inl, inr}
use gui_shell_public.Outcome.{
  Result, ok, value_error, guard, guard-eq-ok, ◌>>=◌, ◌>>◌, >>=-eq-ok, ok-injective,
}
use gui_shell_public.Platform.{Platform}
use gui_shell_public.Value.{Value, Fields, get, index, is_true}
use gui_shell_public.Store.{Key, Table, find, assign, key_of}
use gui_shell_public.Store.Laws.{find-set_cases}
use gui_shell_public.ErrorTaxonomy.{update_signature_required}
use gui_shell_public.Normalization.Inbound.{attempts_authority}
use gui_shell_public.Registry.Keyed.{register_under, get_from, sorted_records}

-- UpdatePolicyStore.register; the message is the code of the shell error that the source builds
unfoldable pub register_policy : Table → Fields → Result Table
register_policy t policy = do
  guard (is_true (get policy "signature_required")) (value_error update_signature_required)
  register_under "policy_id" t policy

unfoldable pub get_policy : Table → String → Result Fields
get_policy = get_from "未登録の update policy です: "

-- RuntimeCatalog
pub record RuntimeCatalog : Type 0 where
  pub runtimes : Table
  pub adapters : Table

unfoldable pub register_runtime_manifest : RuntimeCatalog → Fields → Result RuntimeCatalog
register_runtime_manifest c manifest = do
  guard (is_true (get manifest "signed_manifest")) (value_error "runtime manifest には署名が必要です")
  t ← register_under "runtime_id" c.runtimes manifest
  ok (record c { runtimes = t })

unfoldable pub register_adapter_manifest : RuntimeCatalog → Fields → Result RuntimeCatalog
register_adapter_manifest c manifest = do
  guard (is_true (get manifest "authority_strip"))
      (value_error "adapter manifest は authority_strip=true を必須としなければなりません")
  guard (is_true (get manifest "signed_manifest")) (value_error "adapter manifest には署名が必要です")
  t ← register_under "adapter_id" c.adapters manifest
  ok (record c { adapters = t })

unfoldable pub runtime_manifests : RuntimeCatalog → Result (List Fields)
runtime_manifests c = sorted_records c.runtimes

unfoldable pub adapter_manifests : RuntimeCatalog → Result (List Fields)
adapter_manifests c = sorted_records c.adapters

unfoldable pub can_grant_authority : RuntimeCatalog → Fields → Bool
can_grant_authority c manifest = false

-- RuntimeCatalog.metadata_attempts_authority, and `metadata_attempts_authority` of
-- packages/blue_tanuki_adapter/authority_trace.py
unfoldable pub metadata_attempts_authority : Platform → Value → Bool
metadata_attempts_authority P metadata = attempts_authority P metadata

abbrev pub AllRecords {ℓ} : (Fields → Type ℓ) → Table → Type ℓ
AllRecords Q t = (k : Key) (r : Fields) → find t k ≡ some r → Q r

register_under-keeps :
    {Q : Fields → Type 0} (id_field : String) (t t' : Table) (r : Fields)
    → AllRecords Q t
    → Q r
    → register_under id_field t r ≡ ok t'
    → AllRecords Q t'
unfolding register_under assign
register_under-keeps {Q} id_field t t' r old new h k q there =
    let (id, _, h1) = >>=-eq-ok (index r id_field) _ h in
    let (j, _, h2) = >>=-eq-ok (key_of id) _ h1 in
    elim (find-set_cases t j k r (rw (← ok-injective h2) at there)) [
      | inl (_, same) ↦ rw same new
      | inr before ↦ old k q before
    ]

abbrev pub RequiresSignature : Fields → Type 0
RequiresSignature policy = is_true (get policy "signature_required") ≡ true

-- If every stored update policy requires a signature, so does every one after a registration.
pub register_policy-RequiresSignature :
    (t t' : Table) (policy : Fields)
    → AllRecords RequiresSignature t
    → register_policy t policy ≡ ok t'
    → AllRecords RequiresSignature t'
unfolding register_policy
register_policy-RequiresSignature t t' policy old h =
    let (u, signed, rest) = >>=-eq-ok (guard (is_true (get policy "signature_required")) _) _ h in
    register_under-keeps {Q = RequiresSignature} "policy_id" t t' policy old
      (guard-eq-ok _ _ signed) rest

abbrev pub IsSigned : Fields → Type 0
IsSigned manifest = is_true (get manifest "signed_manifest") ≡ true

abbrev pub IsStripped : Fields → Type 0
IsStripped manifest = is_true (get manifest "authority_strip") ≡ true

-- The manifests of a catalog are signed, and those of adapters give up their authority.
pub record IsTrusted (c : RuntimeCatalog) : Type 0 where
  pub runtimes : AllRecords IsSigned c.runtimes
  pub adapters : AllRecords (λ m. IsSigned m × IsStripped m) c.adapters

-- A trusted catalog stays trusted when either registration of a manifest returns.
pub register_manifest-IsTrusted :
    (c c' : RuntimeCatalog) (manifest : Fields)
    → IsTrusted c
    → (register_runtime_manifest c manifest ≡ ok c')
      ⊎ (register_adapter_manifest c manifest ≡ ok c')
    → IsTrusted c'
unfolding register_runtime_manifest register_adapter_manifest
register_manifest-IsTrusted c c' manifest i (inl h) =
    let (u, signed, h1) = >>=-eq-ok (guard (is_true (get manifest "signed_manifest")) _) _ h in
    let (t, e, same) = >>=-eq-ok (register_under "runtime_id" c.runtimes manifest) _ h1 in
    let new =
      register_under-keeps {Q = IsSigned} "runtime_id" c.runtimes t manifest i.runtimes
        (guard-eq-ok _ _ signed) e in
    rw (← ok-injective same) (assumption new)
register_manifest-IsTrusted c c' manifest i (inr h) =
    let (u, strip, h1) = >>=-eq-ok (guard (is_true (get manifest "authority_strip")) _) _ h in
    let (w, signed, h2) = >>=-eq-ok (guard (is_true (get manifest "signed_manifest")) _) _ h1 in
    let (t, e, same) = >>=-eq-ok (register_under "adapter_id" c.adapters manifest) _ h2 in
    let new =
      register_under-keeps {Q = λ m. IsSigned m × IsStripped m} "adapter_id" c.adapters t manifest
        i.adapters (guard-eq-ok _ _ signed, guard-eq-ok _ _ strip) e in
    rw (← ok-injective same) (assumption new)
