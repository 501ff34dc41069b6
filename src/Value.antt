-- ===== src/Value.antt =====
-- The values of Python that the shell's records hold: what `json.loads` returns. A dict keeps its
-- entries in insertion order, with text keys. `copy.deepcopy` is the identity on these values.
pub mod Laws
pub mod Text
pub mod Equal
use gui_shell_public.Prelude.{String, Bool, true, false, ◌||◌, List, [], ◌∷◌, ℕ, suc, zero, ◌==◌}
use gui_shell_public.Prelude.{if◌then◌else◌}
use gui_shell_public.Prelude.Int.{ℤ, pos, negsuc}
use gui_shell_public.Outcome.{Result, ok, err, key_error, type_error}

mutual
  pub data Value : Type 0 where
    null : Value
    bool : Bool → Value
    num : ℤ → Value
    str : String → Value
    arr : Items → Value
    obj : Fields → Value

  pub data Fields : Type 0 where
    end : Fields
    field : String → Value → Fields → Fields

  pub data Items : Type 0 where
    nil : Items
    cons : Value → Items → Items

-- key in d
unfoldable pub has : Fields → String → Bool
has end k = false
has (field j v d) k = j == k || has d k

-- d.get(key), which is None on a missing key
unfoldable pub get : Fields → String → Value
get end k = null
get (field j v d) k = if j == k then v else get d k

-- d.get(key, default)
unfoldable pub get_or : Fields → String → Value → Value
unfolding has get
get_or d k v = if has d k then get d k else v

-- d[key]
unfoldable pub index : Fields → String → Result Value
unfolding has get
index d k = if has d k then ok (get d k) else err (key_error k)

-- d[key] = value: in place if the key is there, and at the end if not
unfoldable pub put : Fields → String → Value → Fields
put end k v = field k v end
put (field j w d) k v = if j == k then field j v d else field j w (put d k v)

-- d.pop(key, None), and {k: v for k, v in d.items() if k != key}
unfoldable pub without : Fields → String → Fields
without end k = end
without (field j w d) k = let rest = without d k in if j == k then rest else field j w rest

-- list(d)
unfoldable pub keys : Fields → List String
keys end = []
keys (field k v d) = k ∷ keys d

unfoldable pub values : Items → List Value
values nil = []
values (cons v xs) = v ∷ values xs

abbrev pub of_list : List Value → Items
of_list [] = nil
of_list (v ∷ vs) = cons v (of_list vs)

-- bool(v)
unfoldable pub truthy : Value → Bool
truthy null = false
truthy (bool b) = b
truthy (num (pos zero)) = false
truthy (num (pos (suc n))) = true
truthy (num (negsuc n)) = true
truthy (str s) = if s == "" then false else true
truthy (arr nil) = false
truthy (arr (cons v xs)) = true
truthy (obj end) = false
truthy (obj (field k v d)) = true

-- v is True
abbrev pub is_true : Value → Bool
is_true (bool true) = true
is_true _ = false

-- v is False
abbrev pub is_false : Value → Bool
is_false (bool false) = true
is_false _ = false

-- v is None
abbrev pub is_null : Value → Bool
is_null null = true
is_null _ = false

-- v[key] on a value that need not be a dict
unfoldable pub subscript : Value → String → Result Value
unfolding index
subscript (obj d) k = index d k
subscript _ k = err (type_error "")

-- A dict display, {k: v, …}, with distinct keys.
abbrev pub dict : List (String × Value) → Fields
dict [] = end
dict ((k, v) ∷ entries) = field k v (dict entries)

-- A list display, [v, …].
abbrev pub list : List Value → Value
list vs = arr (of_list vs)
