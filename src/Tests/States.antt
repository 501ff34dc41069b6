-- ===== src/Tests/States.antt =====
-- A state that two registrations of the reference records reach.
use gui_shell_public.Prelude.{◌≡◌, refl, some, [], ◌∷◌}
use gui_shell_public.Value.{Fields}
use gui_shell_public.Store.{Key, text_key, find}
use gui_shell_public.Schema.Shipped.{shipped_catalog}
use gui_shell_public.RuntimeState.{
  RuntimeState, new_state, append_audit_event, register_recovery_action,
}
use gui_shell_public.RuntimeState.Registered.{
  IsSound, Step, started, and_then, audit_event, recovery_action, Reach-IsSound, Step-keeps_audit,
}
use gui_shell_public.ReleaseSmoke.{reference_audit, reference_recovery}
use gui_shell_public.Tests.World.{world}

abbrev audited : RuntimeState
audited = record new_state { audit_events = (text_key "audit-1", reference_audit world) ∷ [] }

abbrev recoverable : RuntimeState
recoverable = record audited { recovery_actions = (text_key "recover-1", reference_recovery) ∷ [] }

first_step : Step world shipped_catalog new_state audited
unfolding append_audit_event gui_shell_public.Schema.Validation.validate_contract
    gui_shell_public.Schema.Catalog.get_schema gui_shell_public.Value.has shipped_catalog
    gui_shell_public.Schema.Validation.validate_instance gui_shell_public.Schema.Validation.checked
    gui_shell_public.Value.get gui_shell_public.Schema.Validation.type_errors
    gui_shell_public.Schema.Validation.enum_errors
    gui_shell_public.Schema.Validation.required_errors gui_shell_public.Schema.Validation.iterate
    gui_shell_public.Value.get_or gui_shell_public.Schema.Validation.py_in
    gui_shell_public.Schema.Validation.extra_errors gui_shell_public.Value.subscript
    gui_shell_public.Schema.Validation.text_errors gui_shell_public.Schema.Validation.length_errors
    world gui_shell_public.Schema.Validation.pattern_errors
    gui_shell_public.Schema.Validation.const_errors gui_shell_public.Schema.Validation.below
    gui_shell_public.Value.Equal.contains gui_shell_public.Store.key_of find
    gui_shell_public.Store.set
first_step = audit_event (reference_audit world) refl

second_step : Step world shipped_catalog audited recoverable
unfolding register_recovery_action gui_shell_public.RuntimeState.admit
    gui_shell_public.Schema.Validation.validate_contract gui_shell_public.Schema.Catalog.get_schema
    gui_shell_public.Value.has shipped_catalog gui_shell_public.Schema.Validation.validate_instance
    gui_shell_public.Schema.Validation.checked gui_shell_public.Value.get
    gui_shell_public.Schema.Validation.type_errors gui_shell_public.Schema.Validation.enum_errors
    gui_shell_public.Schema.Validation.required_errors gui_shell_public.Schema.Validation.iterate
    gui_shell_public.Value.get_or gui_shell_public.Schema.Validation.py_in
    gui_shell_public.Schema.Validation.extra_errors gui_shell_public.Value.subscript
    gui_shell_public.Schema.Validation.text_errors world
    gui_shell_public.Schema.Validation.length_errors
    gui_shell_public.Schema.Validation.pattern_errors
    gui_shell_public.Schema.Validation.const_errors gui_shell_public.Schema.Validation.below
    gui_shell_public.Value.Equal.contains gui_shell_public.Store.assign
    gui_shell_public.Store.key_of gui_shell_public.Store.set
second_step = recovery_action reference_recovery refl

Reach-IsSound_example : IsSound world shipped_catalog recoverable
Reach-IsSound_example =
    Reach-IsSound world shipped_catalog (and_then (and_then started first_step) second_step)

Step-keeps_audit_example :
    find recoverable.audit_events (text_key "audit-1") ≡ some (reference_audit world)
unfolding find
Step-keeps_audit_example =
    Step-keeps_audit world shipped_catalog (text_key "audit-1") (reference_audit world) second_step
      refl
