-- ===== src/Tests/Evaluation.antt =====
-- The reference action against the reference state, and the theorems on the evaluator at them.
use gui_shell_public.Prelude.{◌≡◌, refl, Bool, true, false, Option, none, some, [], All}
use gui_shell_public.Outcome.{Result, ok, err}
use gui_shell_public.Value.{Value, null, bool, Fields, end, has, get, put}
use gui_shell_public.Value.Laws.{dict_laws}
use gui_shell_public.Schema.Shipped.{shipped_catalog}
use gui_shell_public.ActionEnvelope.{build_action_envelope}
use gui_shell_public.RuntimeState.{RuntimeState, new_state}
use gui_shell_public.ReleaseSmoke.{build_reference_state, build_sensitive_action}
use gui_shell_public.PolicyEvaluator.Decision.{PolicyResult, decided, evaluate, result_dict}
use gui_shell_public.PolicyEvaluator.Spec.{IsAuthorized}
use gui_shell_public.PolicyEvaluator.Soundness.{evaluate_allows_iff}
use gui_shell_public.SensitiveActionRouter.{required_keys, missing_from, route}
use gui_shell_public.SensitiveActionRouter.Routing.{routed-IsAuthorized}
use gui_shell_public.Tests.World.{world}

abbrev or_empty : Result RuntimeState → RuntimeState
or_empty (ok s) = s
or_empty (err e) = new_state

reference_state : RuntimeState
reference_state = or_empty (build_reference_state world shipped_catalog)

abbrev action : Fields
action = build_sensitive_action world

result_of : Result PolicyResult → PolicyResult
result_of (ok r) = r
result_of (err e) = decided world [] null none

result : PolicyResult
result = result_of (evaluate world shipped_catalog reference_state action)

fields_of : Result Fields → Fields
fields_of (ok d) = d
fields_of (err e) = end

routed : Fields
routed = put (put action "policy_result" (result_dict result)) "routed" (bool result.allowed)

refused : Fields
refused = fields_of (route world shipped_catalog none action)

reference_runs :
    (evaluate world shipped_catalog reference_state action ≡ ok result) × (result.allowed ≡ true)
unfolding evaluate build_reference_state build_sensitive_action
    gui_shell_public.PolicyEvaluator.Decision.check_all
    gui_shell_public.PolicyEvaluator.Decision.also
    gui_shell_public.PolicyEvaluator.Checks.check_runtime gui_shell_public.Value.truthy
    gui_shell_public.Value.get gui_shell_public.Store.lookup gui_shell_public.Store.key_of
    gui_shell_public.PolicyEvaluator.Checks.check_capability
    gui_shell_public.PolicyEvaluator.Checks.check_permission gui_shell_public.Store.find
    gui_shell_public.RuntimeState.register_runtime gui_shell_public.RuntimeState.admit
    gui_shell_public.Schema.Validation.validate_contract gui_shell_public.Schema.Catalog.get_schema
    gui_shell_public.Value.has shipped_catalog gui_shell_public.Schema.Validation.validate_instance
    world gui_shell_public.Schema.Validation.checked gui_shell_public.Schema.Validation.type_errors
    gui_shell_public.Schema.Validation.enum_errors
    gui_shell_public.Schema.Validation.required_errors gui_shell_public.Schema.Validation.iterate
    gui_shell_public.Value.get_or gui_shell_public.Schema.Validation.py_in
    gui_shell_public.Schema.Validation.extra_errors gui_shell_public.Value.subscript
    gui_shell_public.Schema.Validation.text_errors gui_shell_public.Schema.Validation.length_errors
    gui_shell_public.Schema.Validation.pattern_errors
    gui_shell_public.Schema.Validation.const_errors gui_shell_public.Schema.Validation.below
    gui_shell_public.Value.Equal.contains gui_shell_public.Store.assign
    gui_shell_public.RuntimeState.register_adapter gui_shell_public.Schema.Validation.count_errors
    gui_shell_public.AdapterLoader.load_adapter
    gui_shell_public.Normalization.Findings.authority_values_in
    gui_shell_public.Normalization.Strip.strip_authority_keys
    gui_shell_public.RuntimeState.register_capability gui_shell_public.Value.values
    gui_shell_public.RuntimeState.record_permission gui_shell_public.RuntimeState.enqueue_approval
    gui_shell_public.RuntimeState.register_recovery_action
    gui_shell_public.RuntimeState.append_audit_event gui_shell_public.Store.set
    gui_shell_public.PolicyEvaluator.Checks.is_allowing
    gui_shell_public.PolicyEvaluator.Checks.check_approval
    gui_shell_public.PolicyEvaluator.Checks.check_audit
    gui_shell_public.PolicyEvaluator.Checks.names_operation
    gui_shell_public.PolicyEvaluator.Checks.operation_of
    gui_shell_public.PolicyEvaluator.Checks.check_recovery
    gui_shell_public.PolicyEvaluator.Decision.conclude
    gui_shell_public.PolicyEvaluator.Checks.excludes gui_shell_public.Prelude.any_of
    gui_shell_public.PolicyEvaluator.Checks.has_payload gui_shell_public.Hash.canonical_hash
    gui_shell_public.Value.Text.json_dumps
    gui_shell_public.PolicyEvaluator.Checks.expected_audit_hash
    gui_shell_public.PolicyEvaluator.Checks.check_metadata
    gui_shell_public.Normalization.Inbound.attempts_authority
    gui_shell_public.Normalization.Findings.authority_keys_in
    gui_shell_public.PolicyEvaluator.Checks.check_sources
    gui_shell_public.PermissionLedger.non_authority_sources
    gui_shell_public.PolicyEvaluator.Checks.claims_source
    gui_shell_public.PolicyEvaluator.Decision.with_envelope
    gui_shell_public.ActionEnvelope.build_action_envelope
    gui_shell_public.PolicyEvaluator.Decision.decided result reference_state result_of
reference_runs = (refl, refl)

evaluate_allows_iff_example :
    IsAuthorized world reference_state action
    × ((envelope : Fields) × (build_action_envelope world shipped_catalog action ≡ ok envelope)
        × (result ≡ decided world [] (get action "recovery_action") (some envelope)))
evaluate_allows_iff_example =
    (evaluate_allows_iff world shipped_catalog reference_state action result).0 reference_runs

routes : route world shipped_catalog (some reference_state) action ≡ ok routed
unfolding route routed missing_from required_keys has build_sensitive_action
routes = rw reference_runs.0

routed_says : get routed "routed" ≡ bool true
unfolding routed
routed_says = simp (dict_laws, reference_runs.1)

routed-IsAuthorized_example :
    All (λ k. has action k ≡ true) required_keys × IsAuthorized world reference_state action
routed-IsAuthorized_example =
    routed-IsAuthorized world shipped_catalog reference_state action routed routes routed_says

refuses : route world shipped_catalog none action ≡ ok refused
unfolding route refused fields_of build_sensitive_action world
    gui_shell_public.SensitiveActionRouter.missing_from required_keys has shipped_catalog
refuses = refl
