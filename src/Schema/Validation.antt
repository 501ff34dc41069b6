-- ===== src/Schema/Validation.antt =====
-- packages/shell_core/schema_validation.py. A schema is a value as it was loaded, and a malformed
-- schema raises what Python raises; the text of such an exception is not modelled.
use Prim.Native.String
use text.Mathlib.Text.{find?}
use gui_shell_public.Prelude.{
  String, ◌<>◌, Bool, true, false, not, ◌&&◌, ℕ, suc, List, [], ◌∷◌, ◌++◌, none, some, ◌==◌,
  if◌then◌else◌, ltb, join, is_empty, length,
}
use gui_shell_public.Prelude.Int.{ℤ, pos, negsuc}
use gui_shell_public.Outcome.{
  Result, ok, err, value_error, key_error, type_error, attribute_error, guard, ◌>>=◌,
}
use gui_shell_public.Platform.{Platform}
use gui_shell_public.Value.{
  Value, null, bool, num, str, arr, obj, Items, nil, cons, Fields, end, field, has, get, get_or,
  subscript, keys, values,
}
use gui_shell_public.Value.Equal.{py_eq, contains, int_of}
use gui_shell_public.Value.Text.{repr, text_of}
use gui_shell_public.Normalization.Findings.{item_path}
use gui_shell_public.Schema.Catalog.{get_schema}

-- isinstance(value, TYPE_MAP[expected]), with the source's cases for ints and bools
unfoldable pub type_matches : Value → Value → Result Bool
type_matches v (str t) =
    if t == "integer"
    then elim v [ num n ↦ ok true | _ ↦ ok false ]
    else if t == "boolean"
    then elim v [ bool b ↦ ok true | _ ↦ ok false ]
    else if t == "object"
    then elim v [ obj d ↦ ok true | _ ↦ ok false ]
    else if t == "array"
    then elim v [ arr xs ↦ ok true | _ ↦ ok false ]
    else if t == "string"
    then elim v [ str s ↦ ok true | _ ↦ ok false ]
    else if t == "null"
    then elim v [ null ↦ ok true | _ ↦ ok false ]
    else err (key_error t)
type_matches v (arr xs) = err (type_error "")
type_matches v (obj d) = err (type_error "")
type_matches v t = err (key_error "")

-- any(type_matches(v, item) for item in types)
any_type : Value → Items → Result Bool
unfolding type_matches
any_type v nil = ok false
any_type v (cons t ts) =
    let rest = any_type v ts in type_matches v t >>= λ m. elim m [ true ↦ ok true | false ↦ rest ]

-- `item in container`, for any container
unfoldable pub py_in : Value → Value → Result Bool
py_in (arr xs) v = ok (contains xs v)
py_in (obj d) (str k) = ok (has d k)
py_in (obj d) (arr xs) = err (type_error "")
py_in (obj d) (obj e) = err (type_error "")
py_in (obj d) v = ok false
py_in (str s) (str t) = ok (elim (find? s t) [ none ↦ false | some i ↦ true ])
py_in _ _ = err (type_error "")

keys_of : List String → Items
keys_of [] = nil
keys_of (k ∷ ks) = cons (str k) (keys_of ks)

characters : String → Items
characters String.[] = nil
characters (String.◌∷◌ c s) = cons (str (String.◌∷◌ c String.[])) (characters s)

-- What `for item in v` runs through.
unfoldable pub iterate : Value → Result Items
unfolding keys_of characters
iterate (arr xs) = ok xs
iterate (obj d) = ok (keys_of (keys d))
iterate (str s) = ok (characters s)
iterate _ = err (type_error "")

unfoldable pub below : ℕ → ℤ → Bool
below n (pos m) = ltb n m
below n (negsuc m) = false

-- n < bound, for any bound
abbrev pub shorter : ℕ → Value → Result Bool
shorter n (num m) = ok (below n m)
shorter n (bool b) = ok (below n (int_of b))
shorter n _ = err (type_error "")

unfoldable pub when : Bool → String → List String
when b message = if b then message ∷ [] else []

-- if errors: return errors
abbrev pub unless_empty : List String → Result (List String) → Result (List String)
unless_empty [] go = go
unless_empty (e ∷ es) go = ok (e ∷ es)

module _ (P : Platform) where
  -- The early return on the declared type: the errors, if there is one to return.
  unfoldable pub type_errors : Value → Fields → String → Result (List String)
  unfolding any_type when
  type_errors v schema path = elim (get schema "type") [
    | arr types ↦ (do
      m ← any_type v types
      ok (when (not m) (path <> (": " <> (repr P.repr_str (arr types) <> " のいずれかが必要です")))))
    | str t ↦ (do m ← type_matches v (str t); ok (when (not m) (path <> (": " <> (t <> " が必要です")))))
    | _ ↦ ok []
  ]

  unfoldable pub const_errors : Value → Fields → String → List String
  unfolding when
  const_errors v schema path =
      when (has schema "const" && not (py_eq v (get schema "const")))
        (path <> (": const " <> (repr P.repr_str (get schema "const") <> " が必要です")))

  unfoldable pub enum_errors : Value → Fields → String → Result (List String)
  unfolding when
  enum_errors v schema path =
      if has schema "enum"
      then (do
        m ← py_in (get schema "enum") v
        ok (when (not m) (path <> (": 値 " <> (repr P.repr_str v <> " が enum にありません")))))
      else ok []

  unfoldable pub length_errors : String → Fields → String → Result (List String)
  unfolding when
  length_errors s schema path =
      if has schema "minLength"
      then (do
        low ← shorter (String.count s) (get schema "minLength")
        ok (
            when low (
              path
              <> (": minLength " <> (text_of P.repr_str (get schema "minLength") <> " より短い値です")))))
      else ok []

  match_pattern : Value → String → Result Bool
  match_pattern (str pattern) s = ok (P.re_match pattern s)
  match_pattern _ s = err (type_error "")

  unfoldable pub pattern_errors : String → Fields → String → Result (List String)
  unfolding match_pattern when
  pattern_errors s schema path =
      if has schema "pattern"
      then (do
        m ← match_pattern (get schema "pattern") s
        ok (
            when (not m) (
              path <> (": pattern " <> (text_of P.repr_str (get schema "pattern") <> " と一致しません")))))
      else ok []

  unfoldable pub text_errors : String → Fields → String → Result (List String)
  text_errors s schema path = do
    short ← length_errors s schema path
    shape ← pattern_errors s schema path
    ok (short ++ shape)

  unfoldable pub count_errors : Items → Fields → String → Result (List String)
  unfolding when
  count_errors xs schema path =
      if has schema "minItems"
      then (do
        low ← shorter (length (values xs)) (get schema "minItems")
        ok (
            when low (
              path
              <> (": minItems "
                  <> (text_of P.repr_str (get schema "minItems") <> " より項目が少ない値です")))))
      else ok []

  required_from : Items → Fields → String → Result (List String)
  unfolding when
  required_from nil d path = ok []
  required_from (cons k ks) d path = do
    there ← py_in (obj d) k
    rest ← required_from ks d path
    ok (when (not there) (path <> (": 必須 key " <> (text_of P.repr_str k <> " がありません"))) ++ rest)

  unfoldable pub required_errors : Fields → Fields → String → Result (List String)
  unfolding required_from
  required_errors d schema path = do
    wanted ← iterate (get_or schema "required" (arr nil))
    required_from wanted d path

  extra_from : Fields → Value → String → Result (List String)
  unfolding when
  extra_from end properties path = ok []
  extra_from (field k v d) properties path = do
    known ← py_in properties (str k)
    rest ← extra_from d properties path
    ok (when (not known) (path <> (": 追加 property " <> (k <> " は許可されません"))) ++ rest)

  abbrev pub properties_of : Fields → Value
  properties_of schema = get_or schema "properties" (obj end)

  abbrev pub additional_of : Fields → Value
  additional_of schema = get_or schema "additionalProperties" (bool true)

  unfoldable pub extra_errors : Fields → Fields → String → Result (List String)
  unfolding extra_from
  extra_errors d schema path = elim (additional_of schema) [
    | bool b ↦ if b then ok [] else extra_from d (properties_of schema) path
    | _ ↦ ok []
  ]

  -- The checks that every value gets, in front of those of its own kind.
  unfoldable pub checked :
      Value → Value → String → (Fields → Result (List String)) → Result (List String)
  checked v (obj schema) path own = do
    early ← type_errors v schema path
    unless_empty early (do
      listed ← enum_errors v schema path
      more ← own schema
      ok (const_errors v schema path ++ (listed ++ more)))
  checked v _ path own = err (attribute_error "")

  unfoldable mutual
    pub validate_instance : Value → Value → String → Result (List String)
    validate_instance (str s) schema path = checked (str s) schema path λ d. text_errors s d path
    validate_instance (arr xs) schema path = checked (arr xs) schema path λ d. do
      few ← count_errors xs d path
      inner ← validate_items xs (get d "items") path 0
      ok (few ++ inner)
    validate_instance (obj e) schema path = checked (obj e) schema path λ d. do
      missing ← required_errors e d path
      extra ← extra_errors e d path
      inner ← validate_fields e (properties_of d) (additional_of d) path
      ok (missing ++ (extra ++ inner))
    validate_instance v schema path = checked v schema path λ d. ok []

    -- The loop over the items; an item schema that is no dict asks for nothing.
    pub validate_items : Items → Value → String → ℕ → Result (List String)
    validate_items nil schema path i = ok []
    validate_items (cons v xs) schema path i =
        let here = λ (d : Fields). validate_instance v (obj d) (item_path path i) in
        let after = validate_items xs schema path (suc i) in
        elim schema [ obj d ↦ (do first ← here d; rest ← after; ok (first ++ rest)) | _ ↦ ok [] ]

    pub validate_fields : Fields → Value → Value → String → Result (List String)
    validate_fields end properties additional path = ok []
    validate_fields (field k v d) properties additional path =
        let here = λ (schema : Value). validate_instance v schema (path <> ("." <> k)) in
        let after = validate_fields d properties additional path in
        do
          known ← py_in properties (str k)
          first ←
              (if known
                then (do schema ← subscript properties k; here schema)
                else elim additional [ obj a ↦ here (obj a) | _ ↦ ok [] ])
          rest ← after
          ok (first ++ rest)

  -- `catalog` is what load_default_catalog() loads
  unfoldable pub validate_contract : Fields → Fields → String → Result (Unit {0})
  validate_contract catalog contract schema_name = do
    schema ← get_schema catalog schema_name
    errors ← validate_instance (obj contract) schema "$"
    guard (is_empty errors) (value_error (schema_name <> (" の検証に失敗しました: " <> join "; " errors)))
