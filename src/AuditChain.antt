-- ===== src/AuditChain.antt =====
-- packages/shell_core/audit_chain.py: events linked by the hashes of their predecessors.
pub mod Laws
pub mod Linked
pub mod Tamper
use gui_shell_public.Prelude.{
  String, ◌<>◌, Bool, true, false, not, ◌||◌, ℕ, suc, List, [], ◌∷◌, ◌++◌, if◌then◌else◌, length,
  is_empty, any_of,
}
use gui_shell_public.Prelude.Int.{pos, int_text}
use gui_shell_public.Outcome.{Result, ok, err, ◌>>=◌}
use gui_shell_public.Platform.{Platform}
use gui_shell_public.Value.{Value, null, str, obj, Fields, get, put, without, truthy}
use gui_shell_public.Value.Equal.{py_eq}
use gui_shell_public.Value.Text.{text_of}
use gui_shell_public.Store.{Key, key_of, key_eqb}
use gui_shell_public.Hash.{canonical_hash}

-- The variables of the loop of `verify_audit_chain`.
pub record Check : Type 0 where
  pub index : ℕ
  pub previous : Value
  pub seen : List Key
  pub errors : List String

pub record Verification : Type 0 where
  pub verified : Bool
  pub event_count : ℕ
  pub latest_event_hash : Value
  pub errors : List String

abbrev pub start : Check
start = record { index = 0; previous = null; seen = []; errors = [] }

unfoldable pub unless : Bool → String → List String
unless holds message = if holds then [] else message ∷ []

-- f"event {index}"
event_label : ℕ → String
unfolding int_text
event_label i = "event " <> int_text (pos i)

module _ (P : Platform) where
  -- What `chain_event` hashes.
  unfoldable pub body : Fields → Value → Fields
  body event previous = without (put event "previous_event_hash" previous) "event_hash"

  unfoldable pub chain_event : Fields → Value → Fields
  unfolding body
  chain_event event previous =
      let chained = body event previous in
      put chained "event_hash" (str (canonical_hash P (obj chained)))

  -- The checks of an event's id: the errors, and the ids that have been seen.
  unfoldable pub check_id : Check → Value → Result (List String × List Key)
  unfolding event_label
  check_id c event_id =
      if truthy event_id
      then (do
        k ← key_of event_id
        ok (
            if any_of (key_eqb k) c.seen
            then (
              (event_label c.index
                    <> (" の event_id " <> (text_of P.repr_str event_id <> " が重複しています")))
                  ∷ [],
              c.seen,
            )
            else ([], k ∷ c.seen)))
      else ok ((event_label c.index <> " に event_id がありません") ∷ [], c.seen)

  -- The checks of an event's two hashes.
  unfoldable pub check_links : Check → Fields → List String
  unfolding unless event_label
  check_links c event =
      let expected = get (chain_event (without event "event_hash") c.previous) "event_hash" in
      unless (py_eq (get event "previous_event_hash") c.previous)
        (event_label c.index <> " の previous hash が一致しません")
      ++ unless (py_eq (get event "event_hash") expected) (event_label c.index <> " の hash が一致しません")

  -- One round of the loop.
  unfoldable pub check_event : Check → Fields → Result Check
  check_event c event = do
    (id_errors, seen) ← check_id c (get event "event_id")
    ok (record {
      index = suc c.index;
      previous = get event "event_hash";
      seen = seen;
      errors = c.errors ++ (id_errors ++ check_links c event);
    })

  unfoldable pub check_events : Check → List Fields → Result Check
  check_events c [] = ok c
  check_events c (event ∷ events) = do c' ← check_event c event; check_events c' events

  unfoldable pub verify_audit_chain : List Fields → Result Verification
  verify_audit_chain events = do
    c ← check_events start events
    ok (record {
      verified = is_empty c.errors;
      event_count = length events;
      latest_event_hash = c.previous;
      errors = c.errors;
    })
