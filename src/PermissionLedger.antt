-- ===== src/PermissionLedger.antt =====
-- packages/shell_core/permission_ledger.py: recorded permissions, and which sources carry authority.
pub mod Authority
use gui_shell_public.Prelude.{
  String, Bool, true, false, ◌||◌, List, [], ◌∷◌, Option, none, some, ◌==◌, ◌≡◌, refl, any_of,
  if◌then◌else◌, arith,
}
use gui_shell_public.Outcome.{Result, ok, err, ◌>>=◌}
use gui_shell_public.Value.{Value, str, Fields, get_or, index}
use gui_shell_public.Store.{Table, find, text_key, assign}

-- NON_AUTHORITY_SOURCES, in the order of `sorted`
unfoldable pub non_authority_sources : List String
non_authority_sources =
    "adapter_metadata" ∷ "cache" ∷ "diagnostics" ∷ "external_metadata" ∷ "generated_config"
    ∷ "generated_output" ∷ "gui_state" ∷ "history" ∷ "local_ui_state" ∷ "memory" ∷ "metadata"
    ∷ "model_output" ∷ "previous_state" ∷ "tool_output" ∷ "tool_response" ∷ "ui_state" ∷ []

-- AUTHORITY_SOURCES
unfoldable pub authority_sources : List String
authority_sources = "broker_internal_policy" ∷ "policy" ∷ "runtime" ∷ "rust_security_broker" ∷ []

-- `record`; the ledger is its dict `_permissions`
unfoldable pub record_permission : Table → Fields → Result Table
record_permission ledger permission = do
  permission_id ← index permission "permission_id"
  assign ledger permission_id permission

decision_of : Option Fields → Value
decision_of none = str "deny"
decision_of (some permission) = get_or permission "decision" (str "deny")

unfoldable pub decision_for : Table → String → Value
unfolding decision_of
decision_for ledger permission_id = decision_of (find ledger (text_key permission_id))

unfoldable pub can_grant_authority_from_source : String → Bool
unfolding authority_sources
can_grant_authority_from_source source = any_of (λ s. s == source) authority_sources
