-- ===== src/Outcome.antt =====
-- A call that may raise: its value, or the Python exception with the text that `str(exc)` gives.
use gui_shell_public.Prelude.{String, ◌≡◌, refl, Bool, true, false}

pub data Exc : Type 0 where
  value_error : String → Exc
  key_error : String → Exc
  type_error : String → Exc
  attribute_error : String → Exc

pub data Result {ℓ} (A : Type ℓ) : Type ℓ where
  ok : A → Result A
  err : Exc → Result A

pub ok-injective {ℓ} : {A : Type ℓ} {a b : A} → ok a ≡ ok b → a ≡ b
ok-injective h = cc

-- if not test: raise e
abbrev pub guard : Bool → Exc → Result (Unit {0})
guard true e = ok tt
guard false e = err e

infixl 5 ◌>>=◌ ◌>>◌
-- A call, and what follows it unless it raises.
abbrev pub ◌>>=◌ {ℓ κ} :
    {A : Type ℓ} {B : Type κ} (call : Result A) (follow : A → Result B) → Result B
ok value >>= follow = follow value
err e >>= follow = err e

abbrev pub ◌>>◌ {ℓ} : {B : Type ℓ} (check : Result (Unit {0})) (follow : Result B) → Result B
check >> follow = check >>= λ u. follow

module _ {ℓ κ} {A : Type ℓ} {B : Type κ} where
  -- What a call returned, and what went on with it, if both returned.
  pub >>=-eq-ok :
      (call : Result A) (follow : A → Result B) {out : B}
      → (call >>= follow) ≡ ok out
      → (mid : A) × (call ≡ ok mid) × (follow mid ≡ ok out)
  >>=-eq-ok (err e) follow returned = cc
  >>=-eq-ok (ok mid) follow returned = (mid, refl, returned)

pub guard-eq-ok : (b : Bool) (e : Exc) {u : Unit {0}} → guard b e ≡ ok u → b ≡ true
guard-eq-ok true e h = refl
guard-eq-ok false e h = cc

pub >>=_assoc {ℓ κ μ} :
    {A : Type ℓ} {B : Type κ} {C : Type μ} (m : Result A) (f : A → Result B) (g : B → Result C)
    → (m >>= f >>= g) ≡ (m >>= λ a. f a >>= g)
>>=_assoc (ok a) f g = refl
>>=_assoc (err e) f g = refl
