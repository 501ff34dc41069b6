-- ===== src/Value/Laws.antt =====
-- The laws of dicts: what `get` and `in` see after an update.
use gui_shell_public.Prelude.{String, ◌≡◌, refl, ◌↔◌, Bool, true, false, ◌||◌, arith, ◌==◌, eq_iff}
use gui_shell_public.Prelude.{if◌then◌else◌, eq_refl}
use gui_shell_public.Value.{
  Value, null, bool, is_true, is_false, Fields, end, field, has, get, put, without, index,
}
use gui_shell_public.Outcome.{ok}

pub get-put :
    (d : Fields) (k j : String) (v : Value) → get (put d k v) j ≡ (if k == j then v else get d j)
unfolding get put
get-put end k j v = ground arith
get-put (field i w d) k j v = ground (arith, eq_iff i k, eq_iff i j, eq_iff k j, get-put d k j v)

pub has-put : (d : Fields) (k j : String) (v : Value) → has (put d k v) j ≡ (k == j || has d j)
unfolding has put
has-put end k j v = ground arith
has-put (field i w d) k j v = ground (arith, eq_iff i k, eq_iff i j, eq_iff k j, has-put d k j v)

pub get-without :
    (d : Fields) (k j : String) → get (without d k) j ≡ (if k == j then null else get d j)
unfolding get without
get-without end k j = ground arith
get-without (field i w d) k j =
    ground (arith, eq_iff i k, eq_iff i j, eq_iff k j, get-without d k j)

pub has-without :
    (d : Fields) (k j : String) → has (without d k) j ≡ (if k == j then false else has d j)
unfolding has without
has-without end k j = ground arith
has-without (field i w d) k j =
    ground (arith, eq_iff i k, eq_iff i j, eq_iff k j, has-without d k j)

-- A missing key reads as None.
pub get_of_absent : (d : Fields) (k : String) → has d k ≡ false → get d k ≡ null
unfolding get has
get_of_absent end k h = refl
get_of_absent (field i w d) k h = ground (arith, get_of_absent d k)

-- A key that is absent is not there to be removed.
pub without_of_absent : (d : Fields) (k : String) → has d k ≡ false → without d k ≡ d
unfolding without has
without_of_absent end k h = refl
without_of_absent (field i w d) k h = ground (arith, without_of_absent d k)

pub without-put_self : (d : Fields) (k : String) (v : Value) → without (put d k v) k ≡ without d k
unfolding without put
without-put_self end k v = simp eq_refl
without-put_self (field i w d) k v = ground (arith, without-put_self d k v)

pub put-put_self : (d : Fields) (k : String) (v w : Value) → put (put d k v) k w ≡ put d k w
unfolding put
put-put_self end k v w = simp eq_refl
put-put_self (field i u d) k v w = ground (arith, put-put_self d k v w)

-- The removal of one key and an update of another can change places.
pub without-put_other :
    (d : Fields) (k j : String) (v : Value)
    → (k == j) ≡ false
    → without (put d k v) j ≡ put (without d j) k v
unfolding without put
without-put_other end k j v h = rw h
without-put_other (field i w d) k j v h =
    ground (arith, eq_iff i k, eq_iff i j, eq_iff k j, without-put_other d k j v h)

pub ruleset dict_laws = (get-put, has-put, get-without, has-without, eq_refl)

-- d[key] that returns is d.get(key).
pub index-get : (d : Fields) (k : String) (v : Value) → index d k ≡ ok v → get d k ≡ v
unfolding index
index-get d k v h = ground arith

pub is_true_iff : (v : Value) → (is_true v ≡ true) ↔ (v ≡ bool true)
is_true_iff (bool true) = (λ h. refl, λ h. refl)
is_true_iff (bool false) = (λ h. cc, λ h. cc)
is_true_iff _ = (λ h. cc, λ h. cc)

pub is_false_iff : (v : Value) → (is_false v ≡ true) ↔ (v ≡ bool false)
is_false_iff (bool false) = (λ h. refl, λ h. refl)
is_false_iff (bool true) = (λ h. cc, λ h. cc)
is_false_iff _ = (λ h. cc, λ h. cc)
