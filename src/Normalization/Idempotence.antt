-- ===== src/Normalization/Idempotence.antt =====
-- packages/shell_core/normalization.py: `normalize_key` on its own results.
use gui_shell_public.Prelude.{
  String, Char, code, ◌≡◌, refl, ◌∙◌, Bool, true, false, ◌&&◌, ◌||◌, not, arith, ℕ, and-eq-true,
  or-eq-false, not-eq-true, Bool-cases, inl, inr, eqb, ltb, ◌==◌, all_chars, all_chars_mono,
}
use gui_shell_public.Platform.{Platform, IsUnicode, is_ascii, is_folded, is_upper}
use gui_shell_public.Normalization.Text.{
  is_zero_width, is_space, is_dash, is_underscore, is_lower_or_digit, drop_zero_width, strip_left,
  strip_right, split_camel, join_dashes, squeeze,
}
use gui_shell_public.Normalization.Keys.{normalize_key}

-- What the characters of a normalized ASCII key are: no capital, no space, no hyphen.
abbrev pub is_key_char : Char → Bool
is_key_char c = is_folded c && not (is_dash c)

-- The passes that only drop characters keep what holds of every character.
module _ (p : Char → Bool) where
  all-strip_left : (s : String) → all_chars p s ≡ true → all_chars p (strip_left s) ≡ true
  unfolding strip_left all_chars
  all-strip_left String.[] h = refl
  all-strip_left (String.◌∷◌ c s) h = ground (arith, all-strip_left s)

  all-strip_right : (s : String) → all_chars p s ≡ true → all_chars p (strip_right s) ≡ true
  unfolding strip_right all_chars
  all-strip_right String.[] h = refl
  all-strip_right (String.◌∷◌ c s) h =
      let ih = all-strip_right s (and-eq-true (p c) _ h).1 in
      elim (Bool-cases (is_space c && strip_right s == "")) [
        | inl drop ↦ rw drop
        | inr keep ↦ rw (keep, (and-eq-true (p c) _ h).0, ih)
      ]

  all-squeeze :
      (run : Bool) (s : String) → all_chars p s ≡ true → all_chars p (squeeze run s) ≡ true
  unfolding squeeze all_chars
  all-squeeze run String.[] h = refl
  all-squeeze run (String.◌∷◌ c s) h =
      let ih = all-squeeze (is_underscore c) s (and-eq-true (p c) _ h).1 in
      elim (Bool-cases (is_underscore c && run)) [
        | inl drop ↦ rw (drop, ih)
        | inr keep ↦ rw (keep, (and-eq-true (p c) _ h).0, ih)
      ]

ascii-split_camel :
    (after : Bool) (s : String)
    → all_chars is_ascii s ≡ true
    → all_chars is_ascii (split_camel after s) ≡ true
unfolding split_camel all_chars
ascii-split_camel after String.[] h = refl
ascii-split_camel after (String.◌∷◌ c s) h =
    ground (arith, ascii-split_camel (is_lower_or_digit c) s)

key_chars-join_dashes :
    (run : Bool) (s : String)
    → all_chars is_folded s ≡ true
    → all_chars is_key_char (join_dashes run s) ≡ true
unfolding join_dashes all_chars
key_chars-join_dashes run String.[] h = refl
key_chars-join_dashes run (String.◌∷◌ c s) h =
    let (good, rest) = and-eq-true (is_folded c) _ h in
    elim (Bool-cases (is_dash c)) [
      | inl dash ↦ elim (Bool-cases run) [
        | inl r ↦ rw (dash, r) (key_chars-join_dashes true s rest)
        | inr r ↦ rw (dash, r) (key_chars-join_dashes true s rest)
      ]
      | inr other ↦ rw (other, good) (rw other (key_chars-join_dashes false s rest))
    ]

-- The passes keep a text of key characters, the last one after it has run once.
zero_width_of_ascii :
    (n : ℕ) → ltb n 128 ≡ true → (eqb n 8203 || eqb n 8204 || eqb n 8205 || eqb n 65279) ≡ false
zero_width_of_ascii n h = ground arith

key_char_facts :
    (c : Char)
    → is_key_char c ≡ true
    → (is_zero_width c ≡ false) × (is_space c ≡ false) × (is_upper c ≡ false) × (is_dash c ≡ false)
key_char_facts c h =
    let (folded, plain) = and-eq-true (is_folded c) _ h in
    let (ascii, small) = and-eq-true (is_ascii c) _ folded in
    let dash = not-eq-true (is_dash c) plain in
    (
      zero_width_of_ascii (code c) ascii,
      (or-eq-false (is_space c) _ dash).0,
      not-eq-true (is_upper c) small,
      dash,
    )

key_char-is_folded : (c : Char) → is_key_char c ≡ true → is_folded c ≡ true
key_char-is_folded c h = (and-eq-true (is_folded c) _ h).0

folded-is_ascii : (c : Char) → is_folded c ≡ true → is_ascii c ≡ true
folded-is_ascii c h = (and-eq-true (is_ascii c) _ h).0

drop_zero_width_key : (s : String) → all_chars is_key_char s ≡ true → drop_zero_width s ≡ s
unfolding drop_zero_width all_chars
drop_zero_width_key String.[] h = refl
drop_zero_width_key (String.◌∷◌ c s) h =
    let (good, rest) = and-eq-true (is_key_char c) _ h in
    rw ((key_char_facts c good).0, drop_zero_width_key s rest)

strip_left_key : (s : String) → all_chars is_key_char s ≡ true → strip_left s ≡ s
unfolding strip_left all_chars
strip_left_key String.[] h = refl
strip_left_key (String.◌∷◌ c s) h =
    let (good, rest) = and-eq-true (is_key_char c) _ h in rw ((key_char_facts c good).1)

strip_right_key : (s : String) → all_chars is_key_char s ≡ true → strip_right s ≡ s
unfolding strip_right all_chars
strip_right_key String.[] h = refl
strip_right_key (String.◌∷◌ c s) h =
    let (good, rest) = and-eq-true (is_key_char c) _ h in
    rw ((key_char_facts c good).1, strip_right_key s rest)

split_camel_key :
    (after : Bool) (s : String) → all_chars is_key_char s ≡ true → split_camel after s ≡ s
unfolding split_camel all_chars
split_camel_key after String.[] h = refl
split_camel_key after (String.◌∷◌ c s) h =
    let (good, rest) = and-eq-true (is_key_char c) _ h in
    rw ((key_char_facts c good).2, split_camel_key (is_lower_or_digit c) s rest)
      (elim (Bool-cases after) [ inl a ↦ rw a | inr a ↦ rw a ])

join_dashes_key : (run : Bool) (s : String) → all_chars is_key_char s ≡ true → join_dashes run s ≡ s
unfolding join_dashes all_chars
join_dashes_key run String.[] h = refl
join_dashes_key run (String.◌∷◌ c s) h =
    let (good, rest) = and-eq-true (is_key_char c) _ h in
    rw (key_char_facts c good).3 (rw (join_dashes_key false s rest))

squeeze_idem : (run : Bool) (s : String) → squeeze run (squeeze run s) ≡ squeeze run s
unfolding squeeze
squeeze_idem run String.[] = refl
squeeze_idem run (String.◌∷◌ c s) = elim (Bool-cases (is_underscore c)) [
  | inl u ↦ elim (Bool-cases run) [
    | inl r ↦ rw (u, r) (squeeze_idem true s)
    | inr r ↦ rw (u, r) (rw u (rw (squeeze_idem true s)))
  ]
  | inr u ↦ rw u (rw u (rw (squeeze_idem false s)))
]

module _ (P : Platform) where
  -- The letters that the passes of `normalize_key` work on are ASCII.
  abbrev pub IsPlainKey : String → Type 0
  IsPlainKey k = all_chars is_ascii (drop_zero_width (P.nfkc k)) ≡ true

module _ (P : Platform) (unicode : IsUnicode P) where
  key_chars-normalize_key :
      (k : String) → IsPlainKey P k → all_chars is_key_char (normalize_key P k) ≡ true
  unfolding normalize_key
  key_chars-normalize_key k h = all-squeeze is_key_char false _ (
      key_chars-join_dashes false _ (
        unicode.casefold_ascii _
          (ascii-split_camel false _ (all-strip_right is_ascii _ (all-strip_left is_ascii _ h)))))

  normalize_key_fixed :
      (s : String) → all_chars is_key_char s ≡ true → normalize_key P s ≡ squeeze false s
  unfolding normalize_key
  normalize_key_fixed s h =
      let folded = all_chars_mono is_key_char is_folded s key_char-is_folded h in
      let ascii = all_chars_mono is_folded is_ascii s folded-is_ascii folded in
      rw (
        unicode.nfkc_ascii s ascii,
        drop_zero_width_key s h,
        strip_left_key s h,
        strip_right_key s h,
        split_camel_key false s h,
        unicode.casefold_folded s folded,
        join_dashes_key false s h,
      )

  squeeze-normalize_key : (k : String) → squeeze false (normalize_key P k) ≡ normalize_key P k
  unfolding normalize_key
  squeeze-normalize_key k = rw squeeze_idem

  -- On a platform with Python's NFKC and case folding on ASCII, if every character of a key is ASCII
  -- once NFKC is applied and the zero-width characters are removed, normalizing the normalized key again
  -- changes nothing.
  pub normalize_key_idem :
      (k : String) → IsPlainKey P k → normalize_key P (normalize_key P k) ≡ normalize_key P k
  normalize_key_idem k h =
      normalize_key_fixed _ (key_chars-normalize_key k h) ∙ squeeze-normalize_key k
