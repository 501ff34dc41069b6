-- ===== src/Store.antt =====
-- The `dict[str, dict]` tables of the shell: records under hashable keys. Python takes True for 1 and
-- False for 0 as a key, and raises TypeError for a key that is a list or a dict.
pub mod Laws
use gui_shell_public.Prelude.{
  String, Bool, true, false, ◌||◌, List, [], ◌∷◌, Option, none, some, ◌==◌, if◌then◌else◌, text_lt,
  ltb, ◌&&◌,
}
use gui_shell_public.Prelude.Int.{ℤ, pos, negsuc, int_eqb}
use gui_shell_public.Outcome.{Result, ok, err, type_error, ◌>>=◌}
use gui_shell_public.Value.{Value, null, bool, num, str, arr, obj, Fields}
use gui_shell_public.Value.Equal.{int_of}

pub data Key : Type 0 where
  none_key : Key
  int_key : ℤ → Key
  text_key : String → Key

-- hash(v): the keys that are one key to a dict
unfoldable pub key_of : Value → Result Key
key_of null = ok none_key
key_of (bool b) = ok (int_key (int_of b))
key_of (num n) = ok (int_key n)
key_of (str s) = ok (text_key s)
key_of _ = err (type_error "unhashable type")

unfoldable pub key_eqb : Key → Key → Bool
key_eqb none_key none_key = true
key_eqb (int_key a) (int_key b) = int_eqb a b
key_eqb (text_key s) (text_key t) = s == t
key_eqb _ _ = false

abbrev pub Table : Type 0
Table = List (Key × Fields)

unfoldable pub find : Table → Key → Option Fields
unfolding key_eqb
find [] k = none
find ((j, r) ∷ t) k = if key_eqb j k then some r else find t k

-- table[key] = record
unfoldable pub set : Table → Key → Fields → Table
unfolding key_eqb
set [] k r = (k, r) ∷ []
set ((j, old) ∷ t) k r = if key_eqb j k then (j, r) ∷ t else (j, old) ∷ set t k r

-- table.get(key), for any key
unfoldable pub lookup : Table → Value → Result (Option Fields)
lookup t v = do k ← key_of v; ok (find t k)

-- table[key] = record, for any key
unfoldable pub assign : Table → Value → Fields → Result Table
assign t v r = do k ← key_of v; ok (set t k r)

-- j < k on keys: ints and texts have an order of their own, other pairs have none
unfoldable pub key_lt : Key → Key → Result Bool
key_lt (int_key (pos a)) (int_key (pos b)) = ok (ltb a b)
key_lt (int_key (negsuc a)) (int_key (negsuc b)) = ok (ltb b a)
key_lt (int_key (negsuc a)) (int_key (pos b)) = ok true
key_lt (int_key (pos a)) (int_key (negsuc b)) = ok false
key_lt (text_key s) (text_key t) = ok (text_lt s t)
key_lt _ _ = err (type_error "'<' not supported")

insert_sorted : Key → Fields → Table → Result Table
insert_sorted k r [] = ok ((k, r) ∷ [])
insert_sorted k r ((j, other) ∷ t) =
    let more = insert_sorted k r t in
    key_lt j k >>= λ before. elim before [
      | true ↦ (do rest ← more; ok ((j, other) ∷ rest))
      | false ↦ ok ((k, r) ∷ (j, other) ∷ t)
    ]

-- The entries in the order of `sorted(table)`; keys that cannot be compared raise TypeError.
unfoldable pub sorted_entries : Table → Result Table
unfolding insert_sorted
sorted_entries [] = ok []
sorted_entries ((k, r) ∷ t) = do rest ← sorted_entries t; insert_sorted k r rest
