-- ===== src/Value/Text.antt =====
-- How Python writes values as text: `str`, `repr`, and `json.dumps(v, sort_keys=True,
-- separators=(",", ":"))`. The repr of a text (which code points print) is a parameter.
use gui_shell_public.Prelude.{
  String, ◌<>◌, Char, code, Bool, true, false, List, [], ◌∷◌, ℕ, zero, suc,
}
use gui_shell_public.Prelude.{
  ◌+◌, ◌-◌, ◌*◌, ◌/◌, ◌%◌, ltb, eqb, leb, if◌then◌else◌, join, text_lt, ◌&&◌,
}
use gui_shell_public.Prelude.Int.{int_text}
use gui_shell_public.Value.{
  Value, null, bool, num, str, arr, obj, Items, nil, cons, Fields, end, field,
}

module _ (repr_str : String → String) where
  unfoldable mutual
    pub repr : Value → String
    repr null = "None"
    repr (bool true) = "True"
    repr (bool false) = "False"
    repr (num n) = int_text n
    repr (str s) = repr_str s
    repr (arr xs) = "[" <> (join ", " (repr_items xs) <> "]")
    repr (obj d) = "{" <> (join ", " (repr_fields d) <> "}")

    repr_items : Items → List String
    repr_items nil = []
    repr_items (cons v xs) = repr v ∷ repr_items xs

    repr_fields : Fields → List String
    repr_fields end = []
    repr_fields (field k v d) = (repr_str k <> (": " <> repr v)) ∷ repr_fields d

  -- str(v), also in an f-string
  unfoldable pub text_of : Value → String
  unfolding repr
  text_of (str s) = s
  text_of v = repr v

hex_digit : ℕ → String
hex_digit n =
    if ltb n 10
    then int_text (gui_shell_public.Prelude.Int.pos n)
    else if eqb n 10
    then "a"
    else if eqb n 11
    then "b"
    else if eqb n 12
    then "c"
    else if eqb n 13
    then "d"
    else if eqb n 14
    then "e"
    else "f"

-- \uXXXX
unicode_escape : ℕ → String
unfolding hex_digit
unicode_escape n =
    "\\u"
    <> (hex_digit (n / 4096)
        <> (hex_digit (n / 256 % 16) <> (hex_digit (n / 16 % 16) <> hex_digit (n % 16))))

-- One character of a JSON text, `rest` behind it; a code point above 0xFFFF is a surrogate pair.
escape_onto : Char → String → String
unfolding unicode_escape
escape_onto c rest =
    let n = code c in
    if eqb n 34
    then "\\\"" <> rest
    else if eqb n 92
    then "\\\\" <> rest
    else if eqb n 10
    then "\\n" <> rest
    else if eqb n 13
    then "\\r" <> rest
    else if eqb n 9
    then "\\t" <> rest
    else if eqb n 8
    then "\\b" <> rest
    else if eqb n 12
    then "\\f" <> rest
    else if leb 32 n && ltb n 127
    then String.◌∷◌ c rest
    else if ltb n 65536
    then unicode_escape n <> rest
    else unicode_escape (55296 + (n - 65536) / 1024)
      <> (unicode_escape (56320 + (n - 65536) % 1024) <> rest)

escape : String → String
unfolding escape_onto
escape String.[] = ""
escape (String.◌∷◌ c s) = escape_onto c (escape s)

quote : String → String
unfolding escape
quote s = "\"" <> (escape s <> "\"")

-- An entry of an object, in front of the first entry with a larger key.
insert_entry : String → String → List (String × String) → List (String × String)
insert_entry k text [] = (k, text) ∷ []
insert_entry k text ((j, other) ∷ rest) =
    let more = insert_entry k text rest in
    if text_lt j k then (j, other) ∷ more else (k, text) ∷ (j, other) ∷ rest

entries_text : List (String × String) → List String
entries_text [] = []
entries_text ((k, text) ∷ rest) = (quote k <> (":" <> text)) ∷ entries_text rest

mutual
  dumps_value : Value → String
  dumps_value null = "null"
  dumps_value (bool true) = "true"
  dumps_value (bool false) = "false"
  dumps_value (num n) = int_text n
  dumps_value (str s) = quote s
  dumps_value (arr xs) = "[" <> (join "," (dumps_items xs) <> "]")
  dumps_value (obj d) = "{" <> (join "," (entries_text (dumps_fields d)) <> "}")

  dumps_items : Items → List String
  dumps_items nil = []
  dumps_items (cons v xs) = dumps_value v ∷ dumps_items xs

  -- The printed entries by key, in increasing order.
  dumps_fields : Fields → List (String × String)
  dumps_fields end = []
  dumps_fields (field k v d) = insert_entry k (dumps_value v) (dumps_fields d)

unfoldable pub json_dumps : Value → String
unfolding dumps_value entries_text insert_entry quote int_text join text_lt
json_dumps v = dumps_value v
