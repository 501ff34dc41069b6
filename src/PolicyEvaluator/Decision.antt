-- ===== src/PolicyEvaluator/Decision.antt =====
-- `PolicyEvaluator.evaluate`: all checks in turn, then the envelope if nothing was found.
use gui_shell_public.Prelude.{
  String, ◌<>◌, Bool, true, [], ◌∷◌, ◌++◌, Option, none, some, is_empty, map,
}
use gui_shell_public.Outcome.{
  Exc, Result, ok, err, value_error, key_error, type_error, attribute_error, ◌>>=◌,
}
use gui_shell_public.Platform.{Platform}
use gui_shell_public.Value.{Value, null, bool, arr, obj, Fields, end, field, get, of_list}
use gui_shell_public.ErrorTaxonomy.{shell_error, to_dict, relation_mismatch}
use gui_shell_public.ActionEnvelope.{build_action_envelope}
use gui_shell_public.RuntimeState.{RuntimeState}
use gui_shell_public.PolicyEvaluator.Checks.{
  Errors, operation_of, check_runtime, check_capability, check_permission, check_approval,
  check_audit, check_recovery, check_metadata, check_sources,
}

pub record PolicyResult : Type 0 where
  pub allowed : Bool
  pub errors : Errors
  pub required_recovery : Value
  pub audit_required : Bool
  pub action_envelope : Option Fields

-- recovery_action if errors and isinstance(recovery_action, dict) else None
unfoldable pub recovery_of : Errors → Value → Value
recovery_of [] recovery = null
recovery_of (e ∷ errors) (obj d) = obj d
recovery_of (e ∷ errors) _ = null

-- str(exc)
unfoldable pub exception_text : Platform → Exc → String
exception_text P (value_error s) = s
exception_text P (key_error k) = P.repr_str k
exception_text P (type_error s) = s
exception_text P (attribute_error s) = s

-- The errors of one part and then those of the rest.
unfoldable pub also : Result Errors → Result Errors → Result Errors
also m n = do xs ← m; ys ← n; ok (xs ++ ys)

module _ (P : Platform) where
  unfoldable pub decided : Errors → Value → Option Fields → PolicyResult
  decided errors recovery envelope = record {
    allowed = is_empty errors;
    errors = errors;
    required_recovery = recovery_of errors recovery;
    audit_required = true;
    action_envelope = envelope;
  }

  refusal : Fields → Exc → Result PolicyResult
  refusal action (attribute_error s) = err (attribute_error s)
  refusal action e = ok (
      decided
        (shell_error relation_mismatch ("action envelope が不正です: " <> exception_text P e)
            (operation_of action)
          ∷ [])
        (get action "recovery_action") none)

  -- try: build_action_envelope; except (KeyError, TypeError, ValueError)
  unfoldable pub with_envelope : Fields → Result Fields → Result PolicyResult
  unfolding refusal
  with_envelope action (ok envelope) =
      ok (decided [] (get action "recovery_action") (some envelope))
  with_envelope action (err e) = refusal action e

  module _ (catalog : Fields) (s : RuntimeState) where
    unfoldable pub check_all : Fields → Result Errors
    check_all action = also (check_runtime P s action) (
        also (check_capability P s action) (
          also (check_permission P s action) (
            also (check_approval P s action) (
              also (check_audit P s action) (
                also (check_recovery P s action)
                  (ok (check_metadata P s action ++ check_sources P s action)))))))

    unfoldable pub conclude : Fields → Errors → Result PolicyResult
    conclude action [] = with_envelope action (build_action_envelope P catalog action)
    conclude action (e ∷ errors) = ok (decided (e ∷ errors) (get action "recovery_action") none)

    unfoldable pub evaluate : Fields → Result PolicyResult
    evaluate action = do errors ← check_all action; conclude action errors

-- The dict that `evaluate` returns.
envelope_value : Option Fields → Value
envelope_value none = null
envelope_value (some envelope) = obj envelope

unfoldable pub result_dict : PolicyResult → Value
unfolding envelope_value
result_dict r = obj (
    field "allowed" (bool r.allowed) (
      field "errors" (arr (of_list (map to_dict r.errors))) (
        field "required_recovery" r.required_recovery (
          field "audit_required" (bool r.audit_required)
            (field "action_envelope" (envelope_value r.action_envelope) end)))))
