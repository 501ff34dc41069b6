-- ===== src/Normalization/Findings.antt =====
-- packages/shell_core/normalization.py: where a payload names or claims authority, and where two of
-- its keys collide. A path is the text that the source builds on the way down.
use gui_shell_public.Prelude.{
  String, ◌<>◌, ℕ, suc, List, [], ◌∷◌, ◌++◌, Option, none, some, ◌==◌, if◌then◌else◌,
}
use gui_shell_public.Prelude.Int.{pos, int_text}
use gui_shell_public.Value.{Value, str, arr, obj, Items, nil, cons, Fields, end, field}
use gui_shell_public.Platform.{Platform}
use gui_shell_public.Normalization.Keys.{normalize_key, canonical_authority_key, is_authority_value}

pub record KeyFinding : Type 0 where
  pub path : String
  pub key : String
  pub canonical_key : String

pub record ValueFinding : Type 0 where
  pub path : String
  pub value : String
  pub canonical_value : String

pub record CollisionFinding : Type 0 where
  pub path : String
  pub normalized_key : String
  pub first_key : String
  pub colliding_key : String

-- f"{path}.{key}" if path else key
unfoldable pub child_path : String → String → String
child_path path key = if path == "" then key else path <> ("." <> key)

-- f"{path}[{index}]"
unfoldable pub item_path : String → ℕ → String
unfolding int_text
item_path path i = path <> ("[" <> (int_text (pos i) <> "]"))

-- seen.get(key)
unfoldable pub first_seen : String → List (String × String) → Option String
first_seen k [] = none
first_seen k ((j, original) ∷ seen) = if j == k then some original else first_seen k seen

-- The finding of one key, if it is an authority key.
abbrev pub key_finding : String → String → Option String → List KeyFinding
key_finding path key none = []
key_finding path key (some canonical) =
    (record { path = path; key = key; canonical_key = canonical }) ∷ []

-- A key with the same normal form as an earlier key of another spelling.
abbrev pub collision : String → String → String → Option String → List CollisionFinding
collision path normalized key none = []
collision path normalized key (some first) =
    if first == key
    then []
    else (record {
      path = path;
      normalized_key = normalized;
      first_key = first;
      colliding_key = key;
    })
      ∷ []

-- `seen[normalized] = key`, unless the key collides.
abbrev pub remember :
    String → String → Option String → List (String × String) → List (String × String)
remember normalized key none seen = (normalized, key) ∷ seen
remember normalized key (some first) seen = seen

module _ (P : Platform) where
  unfoldable mutual
    pub authority_keys_in : Value → String → List KeyFinding
    authority_keys_in (obj d) path = authority_keys_in_fields d path
    authority_keys_in (arr xs) path = authority_keys_in_items xs path 0
    authority_keys_in v path = []

    pub authority_keys_in_items : Items → String → ℕ → List KeyFinding
    authority_keys_in_items nil path i = []
    authority_keys_in_items (cons v xs) path i =
        authority_keys_in v (item_path path i) ++ authority_keys_in_items xs path (suc i)

    pub authority_keys_in_fields : Fields → String → List KeyFinding
    authority_keys_in_fields end path = []
    authority_keys_in_fields (field k v d) path =
        let here = child_path path (normalize_key P k) in
        key_finding here k (canonical_authority_key P k)
        ++ (authority_keys_in v here ++ authority_keys_in_fields d path)

  unfoldable mutual
    pub authority_values_in : Value → String → List ValueFinding
    authority_values_in (obj d) path = authority_values_in_fields d path
    authority_values_in (arr xs) path = authority_values_in_items xs path 0
    authority_values_in (str s) path =
        let normalized = normalize_key P s in
        if is_authority_value normalized
        then (record { path = path; value = s; canonical_value = normalized }) ∷ []
        else []
    authority_values_in v path = []

    pub authority_values_in_items : Items → String → ℕ → List ValueFinding
    authority_values_in_items nil path i = []
    authority_values_in_items (cons v xs) path i =
        authority_values_in v (item_path path i) ++ authority_values_in_items xs path (suc i)

    pub authority_values_in_fields : Fields → String → List ValueFinding
    authority_values_in_fields end path = []
    authority_values_in_fields (field k v d) path =
        authority_values_in v (child_path path (normalize_key P k))
        ++ authority_values_in_fields d path

  unfoldable mutual
    pub normalization_collisions_in : Value → String → List CollisionFinding
    normalization_collisions_in (obj d) path = collisions_in_fields d path []
    normalization_collisions_in (arr xs) path = collisions_in_items xs path 0
    normalization_collisions_in v path = []

    pub collisions_in_items : Items → String → ℕ → List CollisionFinding
    collisions_in_items nil path i = []
    collisions_in_items (cons v xs) path i =
        normalization_collisions_in v (item_path path i) ++ collisions_in_items xs path (suc i)

    pub collisions_in_fields : Fields → String → List (String × String) → List CollisionFinding
    collisions_in_fields end path seen = []
    collisions_in_fields (field k v d) path seen =
        let n = normalize_key P k in
        let here = child_path path n in
        let earlier = first_seen n seen in
        collision here n k earlier
        ++ (normalization_collisions_in v here
            ++ collisions_in_fields d path (remember n k earlier seen))
