-- ===== src/Tests/Keys.antt =====
-- The normalization of keys and the removal of authority, on a small payload.
use gui_shell_public.Prelude.{◌≡◌, refl, ◌||◌, not, true, false, [], ◌∷◌, is_empty}
use gui_shell_public.Value.{Value, bool, str, obj, Fields, dict, list, is_true, get}
use gui_shell_public.Normalization.Keys.{normalize_key}
use gui_shell_public.Normalization.Strip.{strip_authority_keys}
use gui_shell_public.Normalization.Findings.{authority_keys_in, authority_values_in}
use gui_shell_public.Normalization.Inbound.{attempts_authority}
use gui_shell_public.Normalization.Claims.{names_authority, grants_by_value}
use gui_shell_public.Normalization.Idempotence.{normalize_key_idem}
use gui_shell_public.Normalization.Removal.{strip_authority_keys_removes_all}
use gui_shell_public.Normalization.Search.{
  authority_keys_in_decides, authority_values_in_decides, attempts_authority_decides,
}
use gui_shell_public.AdapterLoader.{AdapterRecord, load_adapter}
use gui_shell_public.AdapterLoader.Safety.{load_adapter_claims_nothing}
use gui_shell_public.Outcome.{Result, ok, err}
use gui_shell_public.Tests.World.{world, world-IsUnicode}

-- A payload that names a permission in a list, in camel case, beside a text that is harmless.
abbrev payload : Value
payload = obj (
    dict (
      ("note", str "hello")
      ∷ (
        "items",
        list (obj (dict (("permissionGrant", str "allow") ∷ ("size", str "small") ∷ [])) ∷ []),
      )
      ∷ []))

abbrev adapter : Fields
adapter = dict (
    ("adapter_id", str "mock-adapter")
    ∷ ("runtime_id", str "mock")
    ∷ ("contract_version", str "v1.0")
    ∷ ("authority_strip", bool true)
    ∷ ("metadata", payload)
    ∷ [])

abbrev no_record : AdapterRecord
no_record = record {
  adapter_id = str "";
  runtime_id = str "";
  contract_version = str "";
  transport = str "";
  declared_capabilities = gui_shell_public.Value.nil;
  metadata = str "";
}

record_of : Result AdapterRecord → AdapterRecord
record_of (ok a) = a
record_of (err e) = no_record

loaded : AdapterRecord
loaded = record_of (load_adapter world adapter)

payload_claims : names_authority world payload ≡ true
unfolding world names_authority gui_shell_public.Normalization.Keys.canonical_authority_key
    normalize_key
payload_claims = refl

normalize_key_idem_example :
    normalize_key world (normalize_key world " permissionGrant")
    ≡ normalize_key world " permissionGrant"
unfolding world gui_shell_public.Prelude.all_chars
    gui_shell_public.Normalization.Text.drop_zero_width
normalize_key_idem_example = normalize_key_idem world world-IsUnicode " permissionGrant" refl

strip_authority_keys_removes_all_example :
    is_empty (authority_keys_in world (strip_authority_keys world payload) "") ≡ true
unfolding world gui_shell_public.Normalization.Claims.has_plain_keys
    gui_shell_public.Prelude.all_chars gui_shell_public.Normalization.Text.drop_zero_width
strip_authority_keys_removes_all_example =
    strip_authority_keys_removes_all world world-IsUnicode payload "" refl

authority_keys_in_decides_example :
    is_empty (authority_keys_in world payload "") ≡ not (names_authority world payload)
authority_keys_in_decides_example = authority_keys_in_decides world payload ""

authority_values_in_decides_example :
    is_empty (authority_values_in world payload "") ≡ not (grants_by_value world payload)
authority_values_in_decides_example = authority_values_in_decides world payload ""

attempts_authority_decides_example :
    attempts_authority world payload
    ≡ (names_authority world payload || grants_by_value world (strip_authority_keys world payload))
attempts_authority_decides_example = attempts_authority_decides world payload

load_adapter_claims_nothing_example :
    (is_true (get adapter "authority_strip") ≡ true)
    × (names_authority world loaded.metadata ≡ false)
    × (grants_by_value world loaded.metadata ≡ false)
unfolding loaded load_adapter get gui_shell_public.Value.index
    gui_shell_public.Schema.Validation.iterate gui_shell_public.Value.get_or authority_values_in
    strip_authority_keys gui_shell_public.Normalization.Keys.canonical_authority_key normalize_key
    world gui_shell_public.Value.put gui_shell_public.Normalization.Keys.is_authority_value
    record_of gui_shell_public.Normalization.Claims.has_plain_keys
    gui_shell_public.Prelude.all_chars
load_adapter_claims_nothing_example =
    load_adapter_claims_nothing world adapter loaded refl world-IsUnicode refl
