-- ===== src/PolicyEvaluator/Refusal.antt =====
-- packages/shell_core/policy_evaluator.py: the results of `evaluate` that refuse, also for an
-- edited approval.
use gui_shell_public.Prelude.{
  String, ◌≡◌, refl, sym, ap, ◌∙◌, false, [], ◌∷◌, none, some, is_empty, Bool-cases, inl, inr,
}
use gui_shell_public.Outcome.{
  Result, ok, err, value_error, key_error, type_error, attribute_error, >>=-eq-ok, ok-injective,
}
use gui_shell_public.Platform.{Platform}
use gui_shell_public.Value.{Value, str, obj, Fields, get}
use gui_shell_public.Store.{Table, lookup}
use gui_shell_public.ActionEnvelope.{build_action_envelope}
use gui_shell_public.ApprovalQueue.{edit}
use gui_shell_public.ApprovalQueue.Edits.{edit_revalidates}
use gui_shell_public.RuntimeState.{RuntimeState}
use gui_shell_public.PolicyEvaluator.Checks.{Errors}
use gui_shell_public.PolicyEvaluator.Decision.{
  PolicyResult, recovery_of, decided, with_envelope, check_all, conclude, evaluate,
}
use gui_shell_public.PolicyEvaluator.Soundness.{evaluate_allows_iff}

status-injective : {a b : String} → str a ≡ str b → a ≡ b
status-injective h = cc

module _ (P : Platform) (catalog : Fields) (s : RuntimeState) (action : Fields) where
  -- A refusal has an error, no envelope, and the recovery action that the action itself gives.
  abbrev pub IsRefusal : PolicyResult → Type 0
  IsRefusal r =
      (r.allowed ≡ false)
      × (is_empty r.errors ≡ false)
      × (r.action_envelope ≡ none)
      × ((recovery : Fields)
          → get action "recovery_action" ≡ obj recovery
          → r.required_recovery ≡ obj recovery)

  refused_with :
      (errors : Errors)
      → is_empty errors ≡ false
      → IsRefusal (decided P errors (get action "recovery_action") none)
  unfolding decided recovery_of
  refused_with [] h = cc
  refused_with (e ∷ errors) h = (refl, refl, refl, λ recovery given. rw given)

  built_or_refused :
      (built : Result Fields) (r : PolicyResult)
      → with_envelope P action built ≡ ok r
      → r.allowed ≡ false
      → IsRefusal r
  unfolding with_envelope decided
  built_or_refused (ok envelope) r h refused =
      cc (ap (λ (q : PolicyResult). q.allowed) (ok-injective h))
  built_or_refused (err (attribute_error m)) r h refused = cc
  built_or_refused (err (value_error m)) r h refused =
      rw (← ok-injective h) (refused_with (_ ∷ []) refl)
  built_or_refused (err (key_error m)) r h refused =
      rw (← ok-injective h) (refused_with (_ ∷ []) refl)
  built_or_refused (err (type_error m)) r h refused =
      rw (← ok-injective h) (refused_with (_ ∷ []) refl)

  concluded :
      (errors : Errors) (r : PolicyResult)
      → conclude P catalog s action errors ≡ ok r
      → r.allowed ≡ false
      → IsRefusal r
  unfolding conclude
  concluded [] r h refused = built_or_refused (build_action_envelope P catalog action) r h refused
  concluded (e ∷ errors) r h refused = rw (← ok-injective h) (refused_with (e ∷ errors) refl)

  -- If `evaluate` returns a result that does not allow the action, the result lists an error, has no
  -- envelope, and requires the recovery action that the action gives if that is a dict.
  pub evaluate_refuses :
      (r : PolicyResult) → evaluate P catalog s action ≡ ok r → r.allowed ≡ false → IsRefusal r
  unfolding evaluate
  evaluate_refuses r h refused =
      let (errors, _, c) =
        >>=-eq-ok (check_all P catalog s action) (conclude P catalog s action) h in
      concluded errors r c refused

  -- If an edit of the approval queue returned the approval that the state holds under the action's
  -- approval id, then no result of `evaluate` allows the action.
  pub evaluate_refuses_edited :
      (queue queue' : Table) (id name : String) (value : Value) (approval : Fields)
      (r : PolicyResult)
      → edit P queue id name value ≡ ok (queue', approval)
      → lookup s.approvals (get action "approval_id") ≡ ok (some approval)
      → evaluate P catalog s action ≡ ok r
      → r.allowed ≡ false
  evaluate_refuses_edited queue queue' id name value approval r done held run =
      elim (Bool-cases r.allowed) [
        | inr refused ↦ refused
        | inl allowed ↦
            let authorized = ((evaluate_allows_iff P catalog s action r).0 (run, allowed)).0 in
            let (found, _, named, approved, _, _) = authorized.approval in
            let (_, _, status, _, _, _) = edit_revalidates P queue queue' id name value done in
            let same : found ≡ approval = cc (ok-injective (sym named ∙ held)) in
            cc (status-injective (sym status ∙ rw same at approved))
      ]
