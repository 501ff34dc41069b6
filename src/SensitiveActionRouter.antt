-- ===== src/SensitiveActionRouter.antt =====
-- packages/shell_core/sensitive_action_router.py: the one way in for a sensitive action.
pub mod Routing
use gui_shell_public.Prelude.{
  String, ◌<>◌, Bool, true, false, List, [], ◌∷◌, Option, none, some, is_empty, join, if◌then◌else◌,
}
use gui_shell_public.Outcome.{Result, ok, err, value_error, guard, ◌>>=◌, ◌>>◌}
use gui_shell_public.Platform.{Platform}
use gui_shell_public.Value.{
  Value, str, bool, arr, obj, nil, cons, Fields, end, field, has, get, get_or, put,
}
use gui_shell_public.ErrorTaxonomy.{shell_error, to_dict, schema_contract_missing}
use gui_shell_public.RuntimeState.{RuntimeState}
use gui_shell_public.PolicyEvaluator.Decision.{PolicyResult, evaluate, result_dict}

-- `required`, in the order of `sorted`
unfoldable pub required_keys : List String
required_keys =
    "approval_id" ∷ "audit_event" ∷ "capability_id" ∷ "operation" ∷ "permission_id"
    ∷ "recovery_action" ∷ "runtime_id" ∷ "target_scope" ∷ []

-- sorted(required - set(action))
unfoldable pub missing_from : List String → Fields → List String
missing_from [] action = []
missing_from (k ∷ ks) action =
    let rest = missing_from ks action in if has action k then rest else k ∷ rest

-- The answer of a router that has no evaluator.
unfoldable pub unrouted : Fields → Fields
unrouted action = put (put action "routed" (bool false)) "policy_result" (
    obj (
      field "allowed" (bool false) (
        field "errors"
          (arr (
            cons
              (to_dict (
                shell_error schema_contract_missing
                  "製品用の機密 action router には evaluator と broker 所有 state が必要です"
                  (get_or action "operation" (str "unknown"))))
              nil))
          (field "required_recovery" (get action "recovery_action")
            (field "audit_required" (bool true) end)))))

module _ (P : Platform) (catalog : Fields) where
  routed_by : Option RuntimeState → Fields → Result Fields
  routed_by none action = ok (unrouted action)
  routed_by (some s) action = do
    r ← evaluate P catalog s action
    ok (put (put action "policy_result" (result_dict r)) "routed" (bool r.allowed))

  -- `route`; the state is none where the router was made without one.
  unfoldable pub route : Option RuntimeState → Fields → Result Fields
  unfolding routed_by
  route state action = do
    let missing = missing_from required_keys action
    guard (is_empty missing) (value_error ("機密 action に必須の対応がありません: " <> join ", " missing))
    routed_by state action
