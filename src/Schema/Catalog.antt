-- ===== src/Schema/Catalog.antt =====
-- packages/shell_contracts/schema_loader.py: the schemas of a directory, by file name. The directory
-- is a list of file names and texts, and a parse error of one file ends the load.
use gui_shell_public.Prelude.{
  String, ◌<>◌, Bool, false, ◌||◌, List, [], ◌∷◌, Option, none, some, ◌==◌, if◌then◌else◌, text_lt,
  join, is_empty, sort_texts,
}
use gui_shell_public.Outcome.{Result, ok, err, value_error, key_error, ◌>>=◌}
use gui_shell_public.Platform.{Platform}
use gui_shell_public.Value.{Value, Fields, end, has, get, put, keys}

-- path.name matches *.schema.json
unfoldable pub is_schema_name : String → Bool
is_schema_name String.[] = false
is_schema_name (String.◌∷◌ c s) = String.◌∷◌ c s == ".schema.json" || is_schema_name s

insert_file : String × String → List (String × String) → List (String × String)
insert_file (name, text) [] = (name, text) ∷ []
insert_file (name, text) ((n, t) ∷ rest) =
    let more = insert_file (name, text) rest in
    if text_lt n name then (n, t) ∷ more else (name, text) ∷ (n, t) ∷ rest

-- sorted(directory.glob("*.schema.json"))
schema_files : List (String × String) → List (String × String)
unfolding is_schema_name insert_file
schema_files [] = []
schema_files ((name, text) ∷ rest) =
    let others = schema_files rest in
    if is_schema_name name then insert_file (name, text) others else others

abbrev parsed : Option Value → Result Value
parsed none = err (value_error "")
parsed (some v) = ok v

module _ (P : Platform) where
  load_files : List (String × String) → Fields → Result Fields
  load_files [] schemas = ok schemas
  load_files ((name, text) ∷ rest) schemas = do
    v ← parsed (P.json_loads text)
    load_files rest (put schemas name v)

  -- SchemaCatalog(specs_dir).load(); a catalog is its dict of schemas
  unfoldable pub load : List (String × String) → Result Fields
  unfolding schema_files load_files
  load directory = load_files (schema_files directory) end

-- catalog.get(name)
unfoldable pub get_schema : Fields → String → Result Value
get_schema catalog name =
    if has catalog name
    then ok (get catalog name)
    else err (key_error ("読込み済みでない schema です: " <> name))

-- catalog.names()
unfoldable pub names : Fields → List String
names catalog = sort_texts (keys catalog)

missing_names : List String → Fields → List String
missing_names [] catalog = []
missing_names (n ∷ ns) catalog =
    let rest = missing_names ns catalog in if has catalog n then rest else n ∷ rest

-- catalog.require(names), the names a set given by a list without repetition
unfoldable pub require : List String → Fields → Result (Unit {0})
unfolding missing_names
require wanted catalog =
    let missing = sort_texts (missing_names wanted catalog) in
    if is_empty missing then ok tt else err (key_error ("欠落した schema があります: " <> join ", " missing))
