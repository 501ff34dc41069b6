-- ===== src/PolicyEvaluator.antt =====
-- packages/shell_core/policy_evaluator.py: whether an action is allowed, and the errors if not.
pub mod Checks
pub mod Decision
pub mod Spec
pub mod Soundness
pub mod Refusal
