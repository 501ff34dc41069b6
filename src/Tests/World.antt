-- ===== src/Tests/World.antt =====
-- A concrete platform for the runs: ASCII case folding, a digest that is the length of the text, and
-- patterns that match.
use Prim.Native.String
use gui_shell_public.Prelude.{
  String, ◌<>◌, Char, code, ◌≡◌, refl, Bool, true, none, ◌-◌, ℕ, zero, suc, Bool-cases, inl, inr,
  not-eq-true, if◌then◌else◌, all_chars, and-eq-true,
}
use gui_shell_public.Prelude.Int.{pos, int_text}
use gui_shell_public.Platform.{Platform, IsUnicode, is_ascii, is_folded, is_upper}

-- The character of `s` at `n`.
pick : ℕ → String → Char
pick n String.[] = "a"
pick zero (String.◌∷◌ c s) = c
pick (suc n) (String.◌∷◌ c s) = pick n s

abbrev alphabet : String
alphabet = "abcdefghijklmnopqrstuvwxyz"

lower : Char → Char
lower c = if is_upper c then pick (code c - 65) alphabet else c

fold : String → String
fold String.[] = ""
fold (String.◌∷◌ c s) = String.◌∷◌ (lower c) (fold s)

unfoldable pub world : Platform
unfolding fold lower pick int_text
world = record {
  nfkc = λ s. s;
  casefold = fold;
  repr_str = λ s. "'" <> (s <> "'");
  sha256 = λ s. int_text (pos (String.len s));
  re_match = λ pattern s. true;
  json_loads = λ s. none;
}

pick-holds :
    (p : Char → Bool) (n : ℕ) (s : String)
    → p "a" ≡ true
    → all_chars p s ≡ true
    → p (pick n s) ≡ true
unfolding pick all_chars
pick-holds p n String.[] a h = a
pick-holds p zero (String.◌∷◌ c s) a h = (and-eq-true (p c) _ h).0
pick-holds p (suc n) (String.◌∷◌ c s) a h = pick-holds p n s a (and-eq-true (p c) _ h).1

lower-is_folded : (c : Char) → is_ascii c ≡ true → is_folded (lower c) ≡ true
unfolding lower all_chars
lower-is_folded c h = elim (Bool-cases (is_upper c)) [
  | inl capital ↦ rw capital (pick-holds is_folded (code c - 65) alphabet refl refl)
  | inr other ↦ rw other (rw (h, other))
]

fold-is_folded : (s : String) → all_chars is_ascii s ≡ true → all_chars is_folded (fold s) ≡ true
unfolding fold all_chars
fold-is_folded String.[] h = refl
fold-is_folded (String.◌∷◌ c s) h =
    let (a, rest) = and-eq-true (is_ascii c) _ h in rw (lower-is_folded c a, fold-is_folded s rest)

fold_folded : (s : String) → all_chars is_folded s ≡ true → fold s ≡ s
unfolding fold lower all_chars
fold_folded String.[] h = refl
fold_folded (String.◌∷◌ c s) h =
    let (folded, rest) = and-eq-true (is_folded c) _ h in
    let small = not-eq-true (is_upper c) (and-eq-true (is_ascii c) _ folded).1 in
    rw (small, fold_folded s rest)

pub world-IsUnicode : IsUnicode world
unfolding world
world-IsUnicode = record {
  nfkc_ascii = λ s h. refl;
  casefold_ascii = fold-is_folded;
  casefold_folded = fold_folded;
}
