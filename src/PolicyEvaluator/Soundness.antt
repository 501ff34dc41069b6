-- ===== src/PolicyEvaluator/Soundness.antt =====
-- packages/shell_core/policy_evaluator.py: `evaluate` against the specification.
use gui_shell_public.Prelude.{◌≡◌, refl, ap, ◌↔◌, true, [], ◌∷◌, some, arith, append-eq-nil, ◌∙◌}
use gui_shell_public.Outcome.{Result, ok, err, attribute_error, ok-injective, >>=-eq-ok}
use gui_shell_public.Platform.{Platform}
use gui_shell_public.Value.{Fields, get}
use gui_shell_public.ActionEnvelope.{build_action_envelope}
use gui_shell_public.RuntimeState.{RuntimeState}
use gui_shell_public.PolicyEvaluator.Checks.{Errors, check_metadata, check_sources}
use gui_shell_public.PolicyEvaluator.Checks.Meets.{
  runtime-meets, capability-meets, permission-meets, approval-meets, audit-meets, recovery-meets,
  metadata-meets, sources-meets,
}
use gui_shell_public.PolicyEvaluator.Decision.{
  PolicyResult, decided, also, with_envelope, check_all, conclude, evaluate,
}
use gui_shell_public.PolicyEvaluator.Spec.{IsAuthorized}

also-eq-nil : (m n : Result Errors) → also m n ≡ ok [] → (m ≡ ok []) × (n ≡ ok [])
unfolding also
also-eq-nil (ok xs) (ok ys) h = let (a, b) = append-eq-nil xs ys (cc) in (ap ok a, ap ok b)
also-eq-nil (ok xs) (err e) h = cc
also-eq-nil (err e) n h = cc

module _ (P : Platform) (catalog : Fields) (s : RuntimeState) (action : Fields) where
  pub check_all-meets : (check_all P catalog s action ≡ ok []) ↔ IsAuthorized P s action
  unfolding check_all also
  check_all-meets = (
    λ h.
        let (a, h1) = also-eq-nil _ _ h in
        let (b, h2) = also-eq-nil _ _ h1 in
        let (c, h3) = also-eq-nil _ _ h2 in
        let (d, h4) = also-eq-nil _ _ h3 in
        let (e, h5) = also-eq-nil _ _ h4 in
        let (f, h6) = also-eq-nil _ _ h5 in
        let (g, k) =
          append-eq-nil (check_metadata P s action) (check_sources P s action) (ok-injective h6) in
        record {
          runtime = (runtime-meets P s action).0 a;
          capability = (capability-meets P s action).0 b;
          permission = (permission-meets P s action).0 c;
          approval = (approval-meets P s action).0 d;
          audit = (audit-meets P s action).0 e;
          recovery = (recovery-meets P s action).0 f;
          metadata = (metadata-meets P s action).0 g;
          sources = (sources-meets P s action).0 k;
        },
    λ a. rw (
      (runtime-meets P s action).1 a.runtime,
      (capability-meets P s action).1 a.capability,
      (permission-meets P s action).1 a.permission,
      (approval-meets P s action).1 a.approval,
      (audit-meets P s action).1 a.audit,
      (recovery-meets P s action).1 a.recovery,
      (metadata-meets P s action).1 a.metadata,
      (sources-meets P s action).1 a.sources,
    ),
  )

  allows_built :
      (built : Result Fields) (r : PolicyResult)
      → ((with_envelope P action built ≡ ok r) × (r.allowed ≡ true)) ↔ (
          (◌≡◌ {A = Errors} [] [])
          × ((envelope : Fields) × (built ≡ ok envelope)
              × (r ≡ decided P [] (get action "recovery_action") (some envelope))))
  unfolding with_envelope decided
  allows_built (ok envelope) r = (
    λ (e, _). (refl, (envelope, refl, cc)),
    λ (_, (x, e, same)). (cc, ap (λ (q : PolicyResult). q.allowed) same),
  )
  allows_built (err (attribute_error m)) r = (λ (a, b). cc, λ (_, (x, e, _)). cc)
  allows_built (err _) r = (λ (a, b). ground arith, λ (_, (x, e, _)). cc)

  conclude_allows :
      (errors : Errors) (r : PolicyResult)
      → ((conclude P catalog s action errors ≡ ok r) × (r.allowed ≡ true)) ↔ (
          (errors ≡ [])
          × ((envelope : Fields) × (build_action_envelope P catalog action ≡ ok envelope)
              × (r ≡ decided P [] (get action "recovery_action") (some envelope))))
  unfolding conclude with_envelope decided
  conclude_allows [] r = allows_built (build_action_envelope P catalog action) r
  conclude_allows (e ∷ errors) r = (λ (a, b). ground arith, λ (a, _). cc)

  -- `evaluate` returns a result that allows the action exactly when the action is authorized by the
  -- broker's tables and its envelope can be built; the result then holds that envelope and no errors.
  pub evaluate_allows_iff :
      (r : PolicyResult)
      → ((evaluate P catalog s action ≡ ok r) × (r.allowed ≡ true)) ↔ (
          IsAuthorized P s action
          × ((envelope : Fields) × (build_action_envelope P catalog action ≡ ok envelope)
              × (r ≡ decided P [] (get action "recovery_action") (some envelope))))
  unfolding evaluate
  evaluate_allows_iff r = (
    λ (e, allowed).
        let (errors, found, c) =
          >>=-eq-ok (check_all P catalog s action) (conclude P catalog s action) e in
        let (none_found, rest) = (conclude_allows errors r).0 (c, allowed) in
        (check_all-meets.0 (found ∙ ap ok none_found), rest),
    λ (a, rest). rw (check_all-meets.1 a) ((conclude_allows [] r).1 (refl, rest)),
  )
