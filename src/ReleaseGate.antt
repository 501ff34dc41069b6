-- ===== src/ReleaseGate.antt =====
-- tooling/release_gate_check.py: the registry of release blockers.
pub mod Blockers
pub mod Docs
pub mod DocSync
pub mod Rounds
pub mod Gate
pub mod Resolved
pub mod Passes
use gui_shell_public.Prelude.{
  String, ◌<>◌, Bool, true, false, not, ◌&&◌, ◌||◌, ◌==◌, ℕ, suc, List, [], ◌∷◌, ◌++◌, map, Option,
  none, some, any_of, is_empty, if◌then◌else◌, member, sort_texts, difference, join,
}
use gui_shell_public.Prelude.Int.{pos, int_text}
use gui_shell_public.Outcome.{Result, ok, err, ◌>>=◌}
use gui_shell_public.Platform.{Platform}
use gui_shell_public.Value.{
  Value, bool, str, arr, obj, Items, nil, cons, Fields, get, get_or, put, keys, truthy, is_true,
}
use gui_shell_public.Value.Equal.{py_eq}
use gui_shell_public.Value.Text.{text_of}
use gui_shell_public.Store.{key_of, key_eqb, text_key}
use gui_shell_public.AuditChain.{unless}
use gui_shell_public.Schema.Validation.{iterate}
use gui_shell_public.Manifest.Check.{JsonLib}

abbrev pub windows_evidence_status_source : String
windows_evidence_status_source = "windows_release_evidence"

abbrev pub required_fields : List String
required_fields =
    "name" ∷ "status" ∷ "status_source" ∷ "active" ∷ "classification" ∷ "blocks_release" ∷ "reason"
    ∷ "required_action" ∷ []

-- `value in texts` for a set of texts: a list or a dict has no hash
unfoldable pub in_set : Value → List String → Result Bool
in_set v texts = do k ← key_of v; ok (any_of (λ t. key_eqb k (text_key t)) texts)

-- isinstance(value, str) and value
unfoldable pub is_nonempty_text : Value → Bool
is_nonempty_text (str s) = not (s == "")
is_nonempty_text _ = false

-- f"{name or index}"
unfoldable pub label : Platform → ℕ → Value → String
label P index name = if truthy name then text_of P.repr_str name else int_text (pos index)

-- The error about the name of a blocker, and the names seen with it.
unfoldable pub name_errors : ℕ → List String → Value → List String × List String
name_errors index names (str name) =
    if name == ""
    then (("リリース阻止事項の登録項目 " <> (int_text (pos index) <> " のnameが無効")) ∷ [], names)
    else if member name names
    then (("release blocker nameが重複: " <> name) ∷ [], names)
    else ([], names ++ (name ∷ []))
name_errors index names v =
    (("リリース阻止事項の登録項目 " <> (int_text (pos index) <> " のnameが無効")) ∷ [], names)

unfoldable pub missing_errors : ℕ → List String → List String
missing_errors index missing =
    unless (is_empty missing)
      ("リリース阻止事項の登録項目 " <> (int_text (pos index) <> (" にfieldがない: " <> join ", " missing)))

-- The checks of the classification, of blocks_release and of active.
unfoldable pub plain_errors : Platform → ℕ → Fields → List String
unfolding missing_errors
plain_errors P index blocker =
    let l = "release blocker " <> label P index (get blocker "name") in
    unless (py_eq (get blocker "classification") (str "release_blocker"))
      (l <> "はrelease_blockerに分類しなければならない")
    ++ (unless (is_true (get blocker "blocks_release")) (l <> "はblocks_release=trueを設定しなければならない")
        ++ unless
            (py_eq (get blocker "active") (bool true) || py_eq (get blocker "active") (bool false))
            (l <> "のactiveはbooleanでなければならない"))

unfoldable pub evidence_errors : Platform → ℕ → Fields → List String
evidence_errors P index blocker =
    if py_eq (get blocker "status_source") (str windows_evidence_status_source)
    then unless (is_nonempty_text (get blocker "evidence_result")) (
        "release blocker "
        <> (label P index (get blocker "name")
            <> ("に" <> (windows_evidence_status_source <> "用evidence_resultがない"))))
    else []

unfoldable pub required_text_errors : Platform → ℕ → Fields → List String
required_text_errors P index blocker =
    let l = "release blocker " <> label P index (get blocker "name") in
    unless (is_nonempty_text (get blocker "reason")) (l <> "にreasonがない")
    ++ unless (is_nonempty_text (get blocker "required_action")) (l <> "にrequired_actionがない")

-- The errors of one blocker, with the error about its name.
unfoldable pub blocker_errors : Platform → ℕ → Fields → List String → Result (List String)
blocker_errors P index blocker wrong_name = do
  let l = "release blocker " <> label P index (get blocker "name")
  status ← in_set (get blocker "status") ("unresolved" ∷ "resolved" ∷ [])
  source ← in_set (get blocker "status_source") ("manual" ∷ windows_evidence_status_source ∷ [])
  ok (
      missing_errors index (sort_texts (difference required_fields (keys blocker)))
      ++ (wrong_name
          ++ (plain_errors P index blocker
              ++ (unless status (l <> "のstatusはunresolvedまたはresolvedでなければならない")
                  ++ (unless source (
                        l
                        <> ("のstatus_sourceはmanualまたは"
                            <> (windows_evidence_status_source <> "でなければならない")))
                      ++ (evidence_errors P index blocker
                          ++ required_text_errors P index blocker))))))

-- The loop of `registry_errors`.
unfoldable pub blockers_errors : Platform → ℕ → List String → Items → Result (List String)
blockers_errors P index names nil = ok []
blockers_errors P index names (cons (obj blocker) items) = do
  let (wrong_name, names') = name_errors index names (get blocker "name")
  errors ← blocker_errors P index blocker wrong_name
  rest ← blockers_errors P (suc index) names' items
  ok (errors ++ rest)
blockers_errors P index names (cons v items) = do
  rest ← blockers_errors P (suc index) names items
  ok (("リリース阻止事項の登録項目 " <> (int_text (pos index) <> " がobjectではない")) ∷ rest)

unfoldable pub with_blockers : Platform → Value → Result (List String)
with_blockers P (arr blockers) = blockers_errors P 0 [] blockers
with_blockers P _ = ok ("release blocker registryはblockers listを含まなければならない" ∷ [])

unfoldable pub parsed_registry : Platform → JsonLib → String → Option Value → Result (List String)
parsed_registry P J text none = ok (("release blocker registryが無効なJSON: " <> J.message text) ∷ [])
parsed_registry P J text (some (obj registry)) = with_blockers P (get registry "blockers")
parsed_registry P J text (some _) = ok ("release blocker registryはobjectでなければならない" ∷ [])

-- `registry_errors`, of the text of release_blockers.registry.json, none if it is missing
unfoldable pub registry_errors : Platform → JsonLib → Option String → Result (List String)
registry_errors P J none = ok ("release blocker registryがない" ∷ [])
registry_errors P J (some text) = parsed_registry P J text (J.loads text)

unfoldable pub names_among : Items → List String
names_among nil = []
names_among (cons (obj blocker) items) =
    let rest = names_among items in elim (get blocker "name") [ str name ↦ name ∷ rest | _ ↦ rest ]
names_among (cons v items) = names_among items

-- `registry_blocker_names`, of the registry
unfoldable pub registry_blocker_names : Fields → Result (List String)
registry_blocker_names registry = do
  items ← iterate (get_or registry "blockers" (arr nil))
  ok (names_among items)
