-- ===== src/AdapterLoader.antt =====
-- packages/shell_core/adapter_loader.py: an adapter's record, without the authority that it claims.
pub mod Safety
use gui_shell_public.Prelude.{String, Bool, true, false, is_empty}
use gui_shell_public.Outcome.{Result, ok, value_error, guard, ◌>>=◌, ◌>>◌}
use gui_shell_public.Platform.{Platform}
use gui_shell_public.Value.{
  Value, str, arr, obj, Items, nil, Fields, end, get, get_or, index, is_true,
}
use gui_shell_public.Normalization.Strip.{strip_authority_keys}
use gui_shell_public.Normalization.Findings.{authority_values_in}
use gui_shell_public.Schema.Validation.{iterate}

pub record AdapterRecord : Type 0 where
  pub adapter_id : Value
  pub runtime_id : Value
  pub contract_version : Value
  pub transport : Value
  pub declared_capabilities : Items
  pub metadata : Value

unfoldable pub effective_capabilities : AdapterRecord → Items
effective_capabilities a = a.declared_capabilities

module _ (P : Platform) where
  unfoldable pub load_adapter : Fields → Result AdapterRecord
  load_adapter adapter = do
    guard (is_true (get adapter "authority_strip"))
        (value_error "adapter は authority_strip=true を宣言しなければなりません")
    adapter_id ← index adapter "adapter_id"
    runtime_id ← index adapter "runtime_id"
    contract_version ← index adapter "contract_version"
    let transport = get_or adapter "transport" (str "mock")
    capabilities ← iterate (get_or adapter "declared_capabilities" (arr nil))
    let metadata = strip_authority_keys P (get_or adapter "metadata" (obj end))
    guard (is_empty (authority_values_in P metadata ""))
        (value_error "adapter metadata に権限と誤認される値が含まれています")
    ok (record {
      adapter_id = adapter_id;
      runtime_id = runtime_id;
      contract_version = contract_version;
      transport = transport;
      declared_capabilities = capabilities;
      metadata = metadata;
    })
