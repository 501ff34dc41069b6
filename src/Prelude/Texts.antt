-- ===== src/Prelude/Texts.antt =====
-- Operations on texts that Python's `str` has: joining, and the order of code points.
use Prim.Native.Nat.{Ordering, ℕ, zero, suc}
use Prim.Native.String.{String, ◌++◌, compare}
use Prim.Native.Char.{Char}
use mathlib.Core.Path.{◌≡◌, refl}
use native.Mathlib.Omega.{arith}
use text.Mathlib.Text.{◌==◌, find?}
use mathlib.Core.Option.{none, some}
use mathlib.Core.Bool.{Bool, true, false, ◌&&◌, ◌||◌}
use mathlib.Core.List.{List, [], ◌∷◌}
use gui_shell_public.Prelude.Tests.{if◌then◌else◌}

-- separator.join(parts)
unfoldable pub join : String → List String → String
join separator [] = ""
join separator (part ∷ []) = part
join separator (part ∷ next ∷ parts) = part ++ (separator ++ join separator (next ∷ parts))

-- s < t on `str`
unfoldable pub text_lt : String → String → Bool
text_lt s t = elim (compare s t) [ Ordering.lt ↦ true | _ ↦ false ]

unfoldable pub all_chars : (Char → Bool) → String → Bool
all_chars test String.[] = true
all_chars test (String.◌∷◌ c s) = test c && all_chars test s

pub all_chars_mono :
    (p q : Char → Bool) (s : String)
    → ((c : Char) → p c ≡ true → q c ≡ true)
    → all_chars p s ≡ true
    → all_chars q s ≡ true
unfolding all_chars
all_chars_mono p q String.[] k h = refl
all_chars_mono p q (String.◌∷◌ c s) k h = ground (arith, k c, all_chars_mono p q s k)

-- s.startswith(prefix)
unfoldable pub starts_with : String → String → Bool
starts_with s String.[] = true
starts_with String.[] (String.◌∷◌ c prefix) = false
starts_with (String.◌∷◌ d s) (String.◌∷◌ c prefix) =
    String.◌∷◌ d String.[] == String.◌∷◌ c String.[] && starts_with s prefix

-- part in text
unfoldable pub is_part : String → String → Bool
is_part part text = elim (find? text part) [ none ↦ false | some i ↦ true ]

-- s.endswith(suffix)
unfoldable pub ends_with : String → String → Bool
ends_with String.[] suffix = "" == suffix
ends_with (String.◌∷◌ c s) suffix = String.◌∷◌ c s == suffix || ends_with s suffix

-- s.split(separator), for a separator of one character, the first part behind `part`
split_behind : String → String → String → List String
split_behind separator part String.[] = part ∷ []
split_behind separator part (String.◌∷◌ c s) =
    if String.◌∷◌ c String.[] == separator
    then part ∷ split_behind separator "" s
    else split_behind separator (part ++ String.◌∷◌ c String.[]) s

unfoldable pub split_on : String → String → List String
unfolding split_behind
split_on separator s = split_behind separator "" s

unfoldable pub drop_chars : ℕ → String → String
drop_chars n String.[] = String.[]
drop_chars zero (String.◌∷◌ c s) = String.◌∷◌ c s
drop_chars (suc n) (String.◌∷◌ c s) = drop_chars n s

unfoldable pub take_chars : ℕ → String → String
take_chars n String.[] = String.[]
take_chars zero (String.◌∷◌ c s) = String.[]
take_chars (suc n) (String.◌∷◌ c s) = String.◌∷◌ c (take_chars n s)
