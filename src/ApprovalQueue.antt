-- ===== src/ApprovalQueue.antt =====
-- packages/shell_core/approval_queue.py: approvals that wait, and the edit of one of them.
pub mod Edits
use gui_shell_public.Prelude.{
  String, ◌<>◌, Bool, true, false, List, [], ◌∷◌, ◌++◌, Option, none, some, ◌&&◌, not,
  if◌then◌else◌, any_of,
}
use gui_shell_public.Outcome.{
  Result, ok, err, value_error, key_error, type_error, guard, ◌>>=◌, ◌>>◌,
}
use gui_shell_public.Platform.{Platform}
use gui_shell_public.Value.{
  Value, null, str, arr, obj, Items, nil, cons, Fields, end, get, get_or, put, index,
}
use gui_shell_public.Store.{Key, text_key, key_of, key_eqb, Table, find, set, assign}
use gui_shell_public.Schema.Validation.{iterate}
use gui_shell_public.Hash.{canonical_hash}

keys_in : Items → Result (List Key)
keys_in nil = ok []
keys_in (cons v xs) = do k ← key_of v; rest ← keys_in xs; ok (k ∷ rest)

-- set(v)
unfoldable pub set_of : Value → Result (List Key)
unfolding keys_in
set_of v = do xs ← iterate v; keys_in xs

unfoldable pub member : List Key → String → Bool
member ks s = any_of (key_eqb (text_key s)) ks

-- PROTECTED_EDIT_FIELDS
unfoldable pub protected_edit_fields : List Key
protected_edit_fields =
    text_key "runtime_id"
    ∷ text_key "permission_id"
    ∷ text_key "audit_id"
    ∷ text_key "audit_event_id"
    ∷ text_key "payload_hash"
    ∷ []

unfoldable pub protected_fields : Fields → Result (List Key)
protected_fields approval = do
  authority ← set_of (get_or approval "authority_fields" (arr nil))
  sealed ← set_of (get_or approval "sealed_fields" (arr nil))
  hidden ← set_of (get_or approval "hidden_fields" (arr nil))
  sacred ← set_of (get_or approval "sacred_fields" (arr nil))
  ok (authority ++ (sealed ++ (hidden ++ (sacred ++ protected_edit_fields))))

-- The queue is its dict `_approvals`.
unfoldable pub enqueue : Table → Fields → Result Table
enqueue queue approval = do
  approval_id ← index approval "approval_id"
  assign queue approval_id approval

found : String → Option Fields → Result Fields
found message none = err (key_error message)
found message (some r) = ok r

unfoldable pub get_approval : Table → String → Result Fields
unfolding found
get_approval queue approval_id =
    found ("queue にない approval です: " <> approval_id) (find queue (text_key approval_id))

unfoldable pub can_edit : Table → String → String → Result Bool
can_edit queue approval_id name = do
  approval ← get_approval queue approval_id
  editable ← set_of (get_or approval "editable_fields" (arr nil))
  if member editable name
      then (do protected ← protected_fields approval; ok (not (member protected name)))
      else ok false

-- payload[field] = value
unfoldable pub put_in : Value → String → Value → Result Value
put_in (obj d) name value = ok (obj (put d name value))
put_in _ name value = err (type_error "")

module _ (P : Platform) where
  -- The approval that an edit stores.
  unfoldable pub edited : Fields → Value → Fields
  edited approval payload =
      put
        (put (put approval "full_payload" payload) "payload_hash" (str (canonical_hash P payload)))
        "status" (str "requires_validation")

  -- `edit`: the queue after it, and the approval that it returns.
  unfoldable pub edit : Table → String → String → Value → Result (Table × Fields)
  edit queue approval_id name value = do
    allowed ← can_edit queue approval_id name
    guard allowed (value_error ("編集できない field です: " <> name))
    approval ← get_approval queue approval_id
    payload ← put_in (get_or approval "full_payload" (obj end)) name value
    let approval' = edited approval payload
    ok (set queue (text_key approval_id) approval', approval')
