-- ===== src/AuditStore.antt =====
-- packages/shell_core/audit_store.py: the append-only store of audit events in memory.
pub mod Chained
use gui_shell_public.Prelude.{
  String, ◌<>◌, Bool, true, false, List, [], ◌∷◌, ◌++◌, if◌then◌else◌, any_of, not,
}
use gui_shell_public.Outcome.{Result, ok, err, value_error, guard, ◌>>=◌, ◌>>◌}
use gui_shell_public.Platform.{Platform}
use gui_shell_public.Value.{Value, null, str, obj, Fields, get, put, truthy, index}
use gui_shell_public.Value.Equal.{py_eq}
use gui_shell_public.Value.Text.{text_of}
use gui_shell_public.Hash.{canonical_hash}

-- events[-1]["event_hash"] if events else None
unfoldable pub last_hash : List Fields → Result Value
last_hash [] = ok null
last_hash (event ∷ []) = index event "event_hash"
last_hash (event ∷ next ∷ events) = last_hash (next ∷ events)

module _ (P : Platform) where
  -- The record that `append` stores, behind an event with this hash.
  unfoldable pub sealed : Fields → Value → Fields
  sealed event previous =
      let stored = put event "previous_event_hash" previous in
      put stored "event_hash" (str (canonical_hash P (obj stored)))

  -- `append`: the events with the new one, and a copy of it.
  unfoldable pub append : List Fields → Fields → Result (List Fields × Fields)
  append events event = do
    let event_id = get event "event_id"
    guard (truthy event_id) (value_error "audit event_id は必須です")
    guard (not (any_of (λ stored. py_eq (get stored "event_id") event_id) events))
        (value_error ("重複した audit event_id です: " <> text_of P.repr_str event_id))
    previous ← last_hash events
    let stored = sealed event previous
    ok (events ++ (stored ∷ []), stored)
