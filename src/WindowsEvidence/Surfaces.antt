-- ===== src/WindowsEvidence/Surfaces.antt =====
-- tooling/windows_release_evidence.py: the evidence that each surface of the first window was visible.
use gui_shell_public.Prelude.{
  String, ◌<>◌, Bool, true, false, not, ◌&&◌, ◌||◌, ◌==◌, ℕ, suc, eqb, List, [], ◌∷◌, ◌++◌, any_of,
  is_empty, if◌then◌else◌, join, as_set, sort_texts, difference, is_part, length, take,
}
use gui_shell_public.Prelude.Int.{pos, int_text}
use gui_shell_public.Platform.{Platform}
use gui_shell_public.Value.{
  Value, str, arr, obj, cons, Fields, get, keys, values, is_true, is_false,
}
use gui_shell_public.AuditChain.{unless}
use gui_shell_public.Normalization.Text.{strip, is_space}
use gui_shell_public.WindowsEvidence.{SearchLib, str_or_empty}

abbrev pub required_visible_surfaces : List String
required_visible_surfaces =
    "Dashboard" ∷ "NavigationRail" ∷ "Runtime Status" ∷ "Invariant Status" ∷ []

abbrev pub aggregate_surface_text : String
aggregate_surface_text = "GUI Shell Dashboard NavigationRail Runtime Status Invariant Status"

-- re.sub(r"\s+", " ", s), where `space` says that the character before was a space
spaces_joined : Bool → String → String
spaces_joined space String.[] = ""
spaces_joined space (String.◌∷◌ c s) =
    let rest = spaces_joined (is_space c) s in
    if is_space c then (if space then rest else String.◌∷◌ " " rest) else String.◌∷◌ c rest

module _ (P : Platform) (S : SearchLib) where
  unfoldable pub normalised_text : Value → String
  unfolding spaces_joined
  normalised_text v = strip (spaces_joined false (str_or_empty P v))

  unfoldable pub contains_surface_label : Value → String → Bool
  contains_surface_label v label = S.search_label label (str_or_empty P v)

  unfoldable pub contains_all_required_surfaces : Value → Bool
  contains_all_required_surfaces v =
      not (any_of (λ label. not (contains_surface_label v label)) required_visible_surfaces)

  -- The errors of the match of one label.
  unfoldable pub match_errors : String → Value → List String
  match_errors label (obj found) =
      let name = str_or_empty P (get found "name") in
      let automation_id = str_or_empty P (get found "automation_id") in
      let element_text = normalised_text (str (name <> (" " <> automation_id))) in
      let aggregate = P.casefold (normalised_text (str aggregate_surface_text)) in
      unless (is_true (get found "matched")) (label <> " の surface match は true でなければならない")
      ++ (unless (not (str_or_empty P (get found "element_key") == ""))
            (label <> " の surface match に element_key がない")
          ++ (unless (not (str_or_empty P (get found "control_type") == ""))
                (label <> " の surface match に control_type がない")
              ++ (unless
                    (contains_surface_label (str name) label
                      || contains_surface_label (str automation_id) label)
                    (label
                      <> " の surface match にある name または automation_id は surface label を含まなければならない")
                  ++ (unless (not (contains_all_required_surfaces (str element_text)))
                        (label <> " の surface match が必須 label をすべて含む単一の集約要素を使用している")
                      ++ unless
                          (not
                            (not (aggregate == "") && is_part aggregate (P.casefold element_text)))
                          (label <> " の surface match が禁止された集約 native surface title を使用している")))))
  match_errors label _ = (label <> " の surface 一致証拠がない") ∷ []

  matches_errors : Fields → List String → List String
  matches_errors matches [] = []
  matches_errors matches (label ∷ labels) =
      match_errors label (get matches label) ++ matches_errors matches labels

  key_of_match : Value → List String
  key_of_match (obj found) =
      let key = str_or_empty P (get found "element_key") in if key == "" then [] else key ∷ []
  key_of_match _ = []

  -- The element keys that were found.
  unfoldable pub matched_keys : Fields → List String → List String
  unfolding key_of_match
  matched_keys matches [] = []
  matched_keys matches (label ∷ labels) =
      key_of_match (get matches label) ++ matched_keys matches labels

  element_errors : ℕ → List Value → List String
  element_errors index [] = []
  element_errors index (obj element ∷ elements) =
      let rest = element_errors (suc index) elements in
      let missing = sort_texts (
        difference
          ("element_key" ∷ "runtime_id" ∷ "parent_runtime_id" ∷ "name" ∷ "automation_id"
            ∷ "control_type" ∷ "class_name" ∷ "framework_id" ∷ "supported_patterns" ∷ [])
          (keys element)) in
      if is_empty missing
      then rest
      else ("可視 surface の観測要素 "
          <> (int_text (pos index) <> (" に診断 key がない: " <> join ", " missing)))
        ∷ []
  element_errors index (v ∷ elements) =
      ("可視 surface の観測要素 " <> (int_text (pos index) <> " が object ではない"))
      ∷ element_errors (suc index) elements

  observed_errors : Value → List String
  unfolding element_errors
  observed_errors (arr (cons v items)) = element_errors 0 (take 20 (values (cons v items)))
  observed_errors _ = "可視 surface の diagnostic_tree.observed_elements がない" ∷ []

  is_list : Value → Bool
  is_list (arr items) = true
  is_list _ = false

  tree_errors : Value → List String
  unfolding observed_errors is_list
  tree_errors (obj tree) =
      observed_errors (get tree "observed_elements")
      ++ unless (is_list (get tree "tree_edges")) "可視 surface の diagnostic_tree.tree_edges がない"
  tree_errors _ = "可視 surface 証拠に diagnostic_tree がない" ∷ []

  after_matches : Fields → Value → List String
  unfolding matches_errors tree_errors
  after_matches evidence (obj matches) =
      let labels = sort_texts required_visible_surfaces in
      let found = matched_keys matches labels in
      matches_errors matches labels
      ++ (unless
            (not (
              eqb (length found) (length required_visible_surfaces)
              && eqb (length (as_set found)) 1))
            "必須 surface のすべてが単一の automation 要素に依存している"
          ++ tree_errors (get evidence "diagnostic_tree"))
  after_matches evidence _ = "可視 surface 証拠に surface_matches がない" ∷ []

  -- `_validate_surface_match_evidence`
  unfoldable pub validate_surface_match_evidence : Fields → List String
  unfolding after_matches
  validate_surface_match_evidence evidence =
      unless (is_false (get evidence "aggregate_surface_shortcut_detected"))
        "可視 surface 証拠が集約 surface shortcut を検出した、または不使用を確認できなかった"
      ++ (unless (is_true (get evidence "surface_match_requirements_met"))
            "可視 surface 証拠で個別 surface の一致要件を確認できなかった"
          ++ after_matches evidence (get evidence "surface_matches"))
