-- ===== src/Store/Laws.antt =====
-- What a lookup sees after an assignment.
use gui_shell_public.Prelude.{
  ◌≡◌, refl, ap, true, [], ◌∷◌, some, eq_iff, ◌↔◌, ◌⊎◌, arith, if◌then◌else◌,
}
use gui_shell_public.Prelude.Int.{int_eqb_iff}
use gui_shell_public.Outcome.{ok}
use gui_shell_public.Value.{Value, Fields, null}
use gui_shell_public.Value.Equal.{py_eq}
use gui_shell_public.Store.{Key, none_key, int_key, text_key, key_of, key_eqb, Table, find, set}

pub key_eqb_iff : (j k : Key) → (key_eqb j k ≡ true) ↔ (j ≡ k)
unfolding key_eqb
key_eqb_iff none_key none_key = (λ h. refl, λ h. refl)
key_eqb_iff (int_key a) (int_key b) =
    (λ h. ap int_key ((int_eqb_iff a b).0 h), λ h. (int_eqb_iff a b).1 (cc))
key_eqb_iff (text_key s) (text_key t) =
    (λ h. ap text_key ((eq_iff s t).0 h), λ h. (eq_iff s t).1 (cc))
key_eqb_iff none_key (int_key b) = (λ h. cc, λ h. cc)
key_eqb_iff none_key (text_key b) = (λ h. cc, λ h. cc)
key_eqb_iff (int_key a) none_key = (λ h. cc, λ h. cc)
key_eqb_iff (int_key a) (text_key b) = (λ h. cc, λ h. cc)
key_eqb_iff (text_key a) none_key = (λ h. cc, λ h. cc)
key_eqb_iff (text_key a) (int_key b) = (λ h. cc, λ h. cc)

pub key_eqb_refl : (k : Key) → key_eqb k k ≡ true
key_eqb_refl k = (key_eqb_iff k k).1 refl

pub find-set :
    (t : Table) (k j : Key) (r : Fields)
    → find (set t k r) j ≡ (if key_eqb k j then some r else find t j)
unfolding find set
find-set [] k j r = refl
find-set ((i, old) ∷ t) k j r =
    ground (arith, find-set t k j r, key_eqb_iff i k, key_eqb_iff i j, key_eqb_iff k j)

pub find-set_self : (t : Table) (k : Key) (r : Fields) → find (set t k r) k ≡ some r
find-set_self t k r = rw (find-set, key_eqb_refl k)

-- An entry of a table after an assignment is the new one or an old one.
pub find-set_cases :
    (t : Table) (k j : Key) (r : Fields) {q : Fields}
    → find (set t k r) j ≡ some q
    → ((j ≡ k) × (q ≡ r)) ⊎ (find t j ≡ some q)
find-set_cases t k j r h = ground (arith, find-set t k j r, key_eqb_iff k j)

-- Python's `==` on two keys is the dict's own test of keys.
pub py_eq-key_eqb :
    (v w : Value) {j k : Key} → key_of v ≡ ok j → key_of w ≡ ok k → py_eq v w ≡ key_eqb j k
unfolding py_eq key_of key_eqb
py_eq-key_eqb null null p q = ground arith
py_eq-key_eqb _ _ p q = ground arith
