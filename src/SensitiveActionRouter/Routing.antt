-- ===== src/SensitiveActionRouter/Routing.antt =====
-- packages/shell_core/sensitive_action_router.py: the router against the specification of the
-- evaluator.
use gui_shell_public.Prelude.{
  String, ◌≡◌, sym, ◌∙◌, Bool, true, List, [], ◌∷◌, some, is_empty, All, Bool-cases, inl, inr,
}
use gui_shell_public.Outcome.{ok, guard, guard-eq-ok, >>=-eq-ok, ok-injective}
use gui_shell_public.Platform.{Platform}
use gui_shell_public.Value.{bool, Fields, has, get}
use gui_shell_public.Value.Laws.{dict_laws}
use gui_shell_public.RuntimeState.{RuntimeState}
use gui_shell_public.PolicyEvaluator.Decision.{evaluate}
use gui_shell_public.PolicyEvaluator.Spec.{IsAuthorized}
use gui_shell_public.PolicyEvaluator.Soundness.{evaluate_allows_iff}
use gui_shell_public.SensitiveActionRouter.{required_keys, missing_from, route}

-- Nothing is missing exactly when every key is there.
missing_from-eq-nil :
    (ks : List String) (action : Fields)
    → is_empty (missing_from ks action) ≡ true
    → All (λ k. has action k ≡ true) ks
unfolding missing_from
missing_from-eq-nil [] action h = tt
missing_from-eq-nil (k ∷ ks) action h = elim (Bool-cases (has action k)) [
  | inl there ↦ (there, missing_from-eq-nil ks action (rw there at h))
  | inr missing ↦ cc (rw missing at h)
]

module _ (P : Platform) (catalog : Fields) where
  bool-injective : {a b : Bool} → bool a ≡ bool b → a ≡ b
  bool-injective h = cc

  -- If the router with a broker state returns and says routed=true, the action has every required
  -- key and is authorized by the tables of that state.
  pub routed-IsAuthorized :
      (s : RuntimeState) (action out : Fields)
      → route P catalog (some s) action ≡ ok out
      → get out "routed" ≡ bool true
      → All (λ k. has action k ≡ true) required_keys × IsAuthorized P s action
  unfolding route
  routed-IsAuthorized s action out h routed =
      let (u, complete, e) =
        >>=-eq-ok (guard (is_empty (missing_from required_keys action)) _) _ h in
      let (r, decided, same) = >>=-eq-ok (evaluate P catalog s action) _ e in
      let flag : get out "routed" ≡ bool r.allowed = rw (← ok-injective same) (simp dict_laws) in
      (
        missing_from-eq-nil required_keys action (guard-eq-ok _ _ complete),
        ((evaluate_allows_iff P catalog s action r).0
            (decided, bool-injective (sym flag ∙ routed))).0,
      )
