-- ===== src/Tests/Refusals.antt =====
-- Actions, approvals and paths that are refused.
use gui_shell_public.Prelude.{
  String, ◌≡◌, ◌≢◌, refl, inl, Bool, true, false, Option, none, some, List, [], ◌∷◌,
}
use gui_shell_public.Outcome.{Result, ok, err}
use gui_shell_public.Value.{Value, null, bool, str, obj, Fields, end, get, dict}
use gui_shell_public.Store.{Table, text_key, lookup}
use gui_shell_public.Schema.Shipped.{shipped_catalog}
use gui_shell_public.ApprovalQueue.{edit}
use gui_shell_public.RuntimeState.{RuntimeState, new_state}
use gui_shell_public.ReleaseSmoke.{build_sensitive_action, reference_approval}
use gui_shell_public.PolicyEvaluator.Decision.{PolicyResult, decided, evaluate}
use gui_shell_public.PolicyEvaluator.Refusal.{IsRefusal, evaluate_refuses, evaluate_refuses_edited}
use gui_shell_public.BlueTanukiAdapter.Approvals.{normalize_approval, adapter_cannot_approve}
use gui_shell_public.Tests.World.{world}

abbrev action : Fields
action = build_sensitive_action world

result_of : Result PolicyResult → PolicyResult
result_of (ok r) = r
result_of (err e) = decided world [] null none

refusal : PolicyResult
refusal = result_of (evaluate world shipped_catalog new_state action)

refusal_runs :
    (evaluate world shipped_catalog new_state action ≡ ok refusal) × (refusal.allowed ≡ false)
unfolding refusal result_of evaluate gui_shell_public.PolicyEvaluator.Decision.check_all
    gui_shell_public.PolicyEvaluator.Decision.also
    gui_shell_public.PolicyEvaluator.Checks.check_runtime gui_shell_public.Value.truthy get
    build_sensitive_action lookup gui_shell_public.Store.key_of
    gui_shell_public.PolicyEvaluator.Checks.check_capability
    gui_shell_public.PolicyEvaluator.Checks.check_permission gui_shell_public.Store.find
    gui_shell_public.PolicyEvaluator.Checks.check_approval
    gui_shell_public.PolicyEvaluator.Checks.check_audit
    gui_shell_public.PolicyEvaluator.Checks.check_recovery
    gui_shell_public.PolicyEvaluator.Decision.conclude decided shipped_catalog world
refusal_runs = (refl, refl)

evaluate_refuses_example : IsRefusal world shipped_catalog new_state action refusal
evaluate_refuses_example =
    evaluate_refuses world shipped_catalog new_state action refusal refusal_runs.0 refusal_runs.1

abbrev queue : Table
queue = (text_key "approval-1", reference_approval world) ∷ []

after_edit : Result (Table × Fields) → Table × Fields
after_edit (ok x) = x
after_edit (err e) = ([], end)

edited_queue : Table × Fields
edited_queue = after_edit (edit world queue "approval-1" "path" (str "notes/new.md"))

edited_approval_runs : edit world queue "approval-1" "path" (str "notes/new.md") ≡ ok edited_queue
unfolding edited_queue after_edit edit gui_shell_public.ApprovalQueue.can_edit
    gui_shell_public.ApprovalQueue.get_approval gui_shell_public.Store.find
    gui_shell_public.ApprovalQueue.set_of gui_shell_public.Schema.Validation.iterate
    gui_shell_public.Value.get_or gui_shell_public.Store.key_of
    gui_shell_public.ApprovalQueue.member gui_shell_public.Prelude.any_of
    gui_shell_public.ApprovalQueue.protected_fields
    gui_shell_public.ApprovalQueue.protected_edit_fields gui_shell_public.ApprovalQueue.put_in world
edited_approval_runs = refl

edited_state : RuntimeState
edited_state = record new_state { approvals = (text_key "approval-1", edited_queue.1) ∷ [] }

edited_held : lookup edited_state.approvals (get action "approval_id") ≡ ok (some edited_queue.1)
unfolding edited_state lookup gui_shell_public.Store.key_of get build_sensitive_action
    gui_shell_public.Store.find edited_queue
edited_held = refl

edited_refusal : PolicyResult
edited_refusal = result_of (evaluate world shipped_catalog edited_state action)

edited_refusal_runs : evaluate world shipped_catalog edited_state action ≡ ok edited_refusal
unfolding edited_refusal result_of evaluate edited_state
    gui_shell_public.PolicyEvaluator.Decision.check_all
    gui_shell_public.PolicyEvaluator.Decision.also
    gui_shell_public.PolicyEvaluator.Checks.check_runtime gui_shell_public.Value.truthy get
    build_sensitive_action lookup gui_shell_public.Store.key_of
    gui_shell_public.PolicyEvaluator.Checks.check_capability
    gui_shell_public.PolicyEvaluator.Checks.check_permission gui_shell_public.Store.find
    gui_shell_public.PolicyEvaluator.Checks.check_approval
    gui_shell_public.PolicyEvaluator.Checks.check_audit
    gui_shell_public.PolicyEvaluator.Checks.check_recovery
    gui_shell_public.PolicyEvaluator.Decision.conclude shipped_catalog world
edited_refusal_runs = refl

evaluate_refuses_edited_example : edited_refusal.allowed ≡ false
evaluate_refuses_edited_example =
    evaluate_refuses_edited world shipped_catalog edited_state action queue edited_queue.0
      "approval-1" "path" (str "notes/new.md") edited_queue.1 edited_refusal edited_approval_runs
      edited_held edited_refusal_runs

abbrev adapter_source : Fields
adapter_source = dict (("status", str "approved") ∷ ("adapter_approved", bool true) ∷ [])

adapter_cannot_approve_example : get (normalize_approval adapter_source) "status" ≢ str "approved"
unfolding get
adapter_cannot_approve_example = adapter_cannot_approve adapter_source (inl refl)
