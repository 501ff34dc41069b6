-- ===== src/Registry/Keyed.antt =====
-- What the registries share: a record is kept under its own id, and an id without record is a
-- KeyError.
use gui_shell_public.Prelude.{
  String, ◌<>◌, ◌≡◌, refl, Option, none, some, arith, List, [], ◌∷◌, if◌then◌else◌, ◌==◌, eq_iff,
}
use gui_shell_public.Outcome.{Result, ok, err, key_error, ◌>>=◌, ok-injective}
use gui_shell_public.Value.{str, Fields, index}
use gui_shell_public.Store.{text_key, key_of, Table, find, set, assign, sorted_entries}
use gui_shell_public.Store.Laws.{find-set, key_eqb_iff}

-- self._table[record[id_field]] = record
unfoldable pub register_under : String → Table → Fields → Result Table
register_under id_field t r = do id ← index r id_field; assign t id r

or_key_error : String → Option Fields → Result Fields
or_key_error message none = err (key_error message)
or_key_error message (some r) = ok r

-- The record of a text id, or a KeyError whose message ends with the id.
unfoldable pub get_from : String → Table → String → Result Fields
unfolding or_key_error
get_from message t id = or_key_error (message <> id) (find t (text_key id))

unfoldable pub records : Table → List Fields
records [] = []
records ((k, r) ∷ t) = r ∷ records t

-- [table[key] for key in sorted(table)]
unfoldable pub sorted_records : Table → Result (List Fields)
sorted_records t = do entries ← sorted_entries t; ok (records entries)

-- A record whose id is a text is registered.
pub register_under-text :
    (id_field : String) (t : Table) (r : Fields) (id : String)
    → index r id_field ≡ ok (str id)
    → (t' : Table) × (register_under id_field t r ≡ ok t')
unfolding register_under assign key_of
register_under-text id_field t r id named = (set t (text_key id) r, rw named refl)

-- If a registration returns for a record whose id is a text, that id gives back the record, and
-- every other id gives what it gave before.
pub get_from-register_under :
    (id_field message : String) (t t' : Table) (r : Fields) (id j : String)
    → index r id_field ≡ ok (str id)
    → register_under id_field t r ≡ ok t'
    → get_from message t' j ≡ (if id == j then ok r else get_from message t j)
unfolding get_from register_under assign key_of
get_from-register_under id_field message t t' r id j named h =
    rw (← ok-injective (rw named at h), find-set)
      (ground (arith, eq_iff id j, key_eqb_iff (text_key id) (text_key j)))
