-- ===== src/Platform.antt =====
-- What the shell calls and this repository does not define: tables and primitives of Python's C code.
--   nfkc       unicodedata.normalize("NFKC", s)
--   casefold   s.casefold()
--   repr_str   repr(s) of a text
--   sha256     hashlib.sha256(s.encode("utf-8")).hexdigest()
--   re_match   re.match(pattern, s) is not None
--   json_loads json.loads(s), none for a JSONDecodeError
use gui_shell_public.Prelude.{String, ◌≡◌, Bool, true, Option, ◌&&◌, not, Char, code, ltb, leb}
use gui_shell_public.Prelude.{all_chars}
use gui_shell_public.Value.{Value}

pub record Platform : Type 0 where
  pub nfkc : String → String
  pub casefold : String → String
  pub repr_str : String → String
  pub sha256 : String → String
  pub re_match : String → String → Bool
  pub json_loads : String → Option Value

abbrev pub is_upper : Char → Bool
is_upper c = leb 65 (code c) && leb (code c) 90

abbrev pub is_ascii : Char → Bool
is_ascii c = ltb (code c) 128

-- An ASCII character that case folding keeps.
abbrev pub is_folded : Char → Bool
is_folded c = is_ascii c && not (is_upper c)

-- What the Unicode standard says of ASCII texts: they are in NFKC form, their case folding is ASCII
-- without capitals, and it keeps a text that has no capitals.
pub record IsUnicode (P : Platform) : Type 0 where
  pub nfkc_ascii : (s : String) → all_chars is_ascii s ≡ true → P.nfkc s ≡ s
  pub casefold_ascii :
      (s : String) → all_chars is_ascii s ≡ true → all_chars is_folded (P.casefold s) ≡ true
  pub casefold_folded : (s : String) → all_chars is_folded s ≡ true → P.casefold s ≡ s
