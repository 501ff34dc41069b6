-- ===== src/Value/Equal.antt =====
-- Python's `==` and `in` on values. True equals 1 and False equals 0; a dict equals a dict with the
-- same entries in any order.
use gui_shell_public.Prelude.{String, ◌≡◌, ℕ, suc, Bool, true, false, ◌&&◌, ◌||◌, ◌↔◌}
use gui_shell_public.Prelude.{arith, ◌==◌, eq_iff, eqb}
use gui_shell_public.Prelude.Int.{ℤ, pos, int_eqb}
use gui_shell_public.Value.{
  Value, null, bool, num, str, arr, obj, Items, nil, cons, Fields, end, field, has, get,
}

abbrev pub int_of : Bool → ℤ
int_of true = pos 1
int_of false = pos 0

unfoldable pub size : Fields → ℕ
size end = 0
size (field k v d) = suc (size d)

unfoldable mutual
  pub py_eq : Value → Value → Bool
  py_eq null null = true
  py_eq (bool a) (bool b) = int_eqb (int_of a) (int_of b)
  py_eq (bool a) (num n) = int_eqb (int_of a) n
  py_eq (num m) (bool b) = int_eqb m (int_of b)
  py_eq (num m) (num n) = int_eqb m n
  py_eq (str s) (str t) = s == t
  py_eq (arr xs) (arr ys) = items_eq xs ys
  py_eq (obj d) (obj e) = eqb (size d) (size e) && fields_within d e
  py_eq _ _ = false

  items_eq : Items → Items → Bool
  items_eq nil nil = true
  items_eq (cons x xs) (cons y ys) = py_eq x y && items_eq xs ys
  items_eq _ _ = false

  pub fields_within : Fields → Fields → Bool
  fields_within end e = true
  fields_within (field k v d) e = has e k && py_eq v (get e k) && fields_within d e

-- value in list
unfoldable pub contains : Items → Value → Bool
unfolding py_eq
contains nil v = false
contains (cons x xs) v = py_eq x v || contains xs v

-- On texts, `==` is equality.
pub py_eq-str : (v : Value) (s : String) → (py_eq v (str s) ≡ true) ↔ (v ≡ str s)
unfolding py_eq
py_eq-str null s = ground arith
py_eq-str (bool b) s = ground arith
py_eq-str (num n) s = ground arith
py_eq-str (str t) s = ground (arith, eq_iff t s)
py_eq-str (arr xs) s = ground arith
py_eq-str (obj d) s = ground arith

pub py_eq-null : (v : Value) → (py_eq v null ≡ true) ↔ (v ≡ null)
unfolding py_eq
py_eq-null null = ground arith
py_eq-null (bool b) = ground arith
py_eq-null _ = ground arith
