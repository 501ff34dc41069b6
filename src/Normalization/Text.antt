-- ===== src/Normalization/Text.antt =====
-- packages/shell_core/normalization.py: the passes of `normalize_key` over a text.
use gui_shell_public.Prelude.{String, Char, code, Bool, ◌&&◌, ◌||◌, ◌==◌, eqb, leb, if◌then◌else◌}
use gui_shell_public.Platform.{is_upper}

abbrev pub is_zero_width : Char → Bool
is_zero_width c = eqb (code c) 8203 || eqb (code c) 8204 || eqb (code c) 8205 || eqb (code c) 65279

-- str.isspace, and the class \s of a text pattern
abbrev pub is_space : Char → Bool
is_space c =
    let n = code c in
    leb 9 n && leb n 13
    || leb 28 n && leb n 32
    || eqb n 133
    || eqb n 160
    || eqb n 5760
    || leb 8192 n && leb n 8202
    || eqb n 8232
    || eqb n 8233
    || eqb n 8239
    || eqb n 8287
    || eqb n 12288

abbrev pub is_dash : Char → Bool
is_dash c = is_space c || eqb (code c) 45

abbrev pub is_underscore : Char → Bool
is_underscore c = eqb (code c) 95

abbrev pub is_lower_or_digit : Char → Bool
is_lower_or_digit c = leb 97 (code c) && leb (code c) 122 || leb 48 (code c) && leb (code c) 57

unfoldable pub drop_zero_width : String → String
drop_zero_width String.[] = ""
drop_zero_width (String.◌∷◌ c s) =
    let rest = drop_zero_width s in if is_zero_width c then rest else String.◌∷◌ c rest

unfoldable pub strip_left : String → String
strip_left String.[] = ""
strip_left (String.◌∷◌ c s) = let rest = strip_left s in if is_space c then rest else String.◌∷◌ c s

unfoldable pub strip_right : String → String
strip_right String.[] = ""
strip_right (String.◌∷◌ c s) =
    let rest = strip_right s in if is_space c && rest == "" then "" else String.◌∷◌ c rest

-- s.strip()
unfoldable pub strip : String → String
unfolding strip_left strip_right
strip s = strip_right (strip_left s)

-- re.sub(r"(?<=[a-z0-9])(?=[A-Z])", "_", s); the flag is the look behind
unfoldable pub split_camel : Bool → String → String
split_camel after String.[] = ""
split_camel after (String.◌∷◌ c s) =
    let rest = String.◌∷◌ c (split_camel (is_lower_or_digit c) s) in
    if after && is_upper c then String.◌∷◌ "_" rest else rest

-- re.sub(r"[\s\-]+", "_", s); the flag says that a run has begun
unfoldable pub join_dashes : Bool → String → String
join_dashes run String.[] = ""
join_dashes run (String.◌∷◌ c s) =
    let rest = join_dashes (is_dash c) s in
    if is_dash c then if run then rest else String.◌∷◌ "_" rest else String.◌∷◌ c rest

-- re.sub(r"_+", "_", s)
unfoldable pub squeeze : Bool → String → String
squeeze run String.[] = ""
squeeze run (String.◌∷◌ c s) =
    let rest = squeeze (is_underscore c) s in
    if is_underscore c && run then rest else String.◌∷◌ c rest
