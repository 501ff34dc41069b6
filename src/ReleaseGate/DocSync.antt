-- ===== src/ReleaseGate/DocSync.antt =====
-- tooling/release_gate_check.py: the blocks about release blockers in the documents, and their
-- references to the registry.
use gui_shell_public.Prelude.{
  String, ◌<>◌, Char, Bool, true, false, not, ◌&&◌, ◌||◌, ◌==◌, ℕ, zero, suc, ◌+◌, List, [], ◌∷◌,
  ◌++◌, Option, none, some, any_of, is_empty, if◌then◌else◌, member, as_set, sort_texts, join,
  is_part, starts_with, length,
}
use gui_shell_public.Prelude.Int.{pos, int_text}
use gui_shell_public.Normalization.Text.{strip}
use gui_shell_public.ReleaseGate.Docs.{TextLib, Documents, doc_sync_markers}

abbrev pub current_facing_release_docs : List String
current_facing_release_docs =
    "README.md" ∷ "CLAIM.md" ∷ "RELEASE_CHECKLIST.md" ∷ "AUDIT_EVIDENCE.md" ∷ "SECURITY_REVIEW.md"
    ∷ "INSTALLER_STATUS.md" ∷ "MOBILE_STATUS.md" ∷ "COMPATIBILITY_MATRIX.md"
    ∷ "docs/security/IPC_THREAT_MODEL.md" ∷ "docs/WINDOWS_RELEASE_PLAN.md"
    ∷ "docs/WINDOWS_RELEASE_EVIDENCE.md" ∷ "docs/PRODUCT_COMPLETION_PLAN.md"
    ∷ "docs/RELEASE_VALIDATION.md" ∷ "docs/public/SAFETY_AND_RELEASE_GATES.md"
    ∷ "docs/public/WINDOWS_PROOF_SUMMARY.md" ∷ []

single : Char → String
single c = String.◌∷◌ c String.[]

-- s.strip(chars), in two passes
strip_chars_left : String → String → String
unfolding single
strip_chars_left chars String.[] = ""
strip_chars_left chars (String.◌∷◌ c s) =
    let rest = strip_chars_left chars s in if is_part (single c) chars then rest else String.◌∷◌ c s

strip_chars_right : String → String → String
unfolding single
strip_chars_right chars String.[] = ""
strip_chars_right chars (String.◌∷◌ c s) =
    let rest = strip_chars_right chars s in
    if rest == "" && is_part (single c) chars then "" else String.◌∷◌ c rest

strip_chars : String → String → String
unfolding strip_chars_left strip_chars_right
strip_chars chars s = strip_chars_right chars (strip_chars_left chars s)

-- s.replace("[", "").replace("]", "")
without_brackets : String → String
unfolding single
without_brackets String.[] = ""
without_brackets (String.◌∷◌ c s) =
    let rest = without_brackets s in if is_part (single c) "[]" then rest else String.◌∷◌ c rest

trimmed_parts : List String → List String
unfolding strip_chars
trimmed_parts [] = []
trimmed_parts (part ∷ parts) =
    let rest = trimmed_parts parts in
    let trimmed = strip_chars "`'\"" (strip part) in if trimmed == "" then rest else trimmed ∷ rest

known_words : List String
known_words = "" ∷ "none" ∷ "true" ∷ "false" ∷ "yes" ∷ "no" ∷ []

module _ (T : TextLib) where
  unfoldable pub split_metadata_values : String → List String
  unfolding strip_chars without_brackets trimmed_parts
  split_metadata_values raw =
      trimmed_parts (T.splits "[\\s,]+" (without_brackets (strip_chars "[]`" (strip raw))))

  split_all : List String → List String
  split_all [] = []
  split_all (raw ∷ raws) = split_metadata_values raw ++ split_all raws

  -- `_metadata_values`; re.escape is the identity on the keys it is called with
  unfoldable pub metadata_values : String → String → List String
  unfolding split_all
  metadata_values block key =
      split_all (T.groups ("(?im)^\\s*" <> (key <> "\\s*:\\s*(.+?)\\s*$")) block)
      ++ split_all (T.groups ("\\b" <> (key <> "=([A-Za-z0-9_,.-]+)")) block)

  unfoldable pub has_doc_sync_marker : String → Bool
  has_doc_sync_marker block =
      let lowered = T.lower block in
      any_of (λ marker. is_part (marker <> ":") lowered || is_part (marker <> "=") lowered)
        doc_sync_markers

  unfoldable pub has_truthy_marker : String → String → Bool
  has_truthy_marker block key =
      any_of (λ value. member (T.lower value) ("true" ∷ "yes" ∷ [])) (metadata_values block key)

  unknown_among : List String → List String → List String
  unfolding known_words
  unknown_among names [] = []
  unknown_among names (ref ∷ refs) =
      let rest = unknown_among names refs in
      if not (member (T.lower ref) known_words) && not (member ref names) then ref ∷ rest else rest

  unfoldable pub unknown_registry_refs : String → List String → List String
  unfolding unknown_among
  unknown_registry_refs block names = sort_texts (
      as_set (
        unknown_among names (
          metadata_values block "registry_id"
          ++ (metadata_values block "aggregate_of" ++ metadata_values block "superseded_by"))))

  unfoldable pub is_item : String → Bool
  is_item line = T.matches "^\\s*-\\s+item:\\s+" line

  unfoldable pub is_rule : String → Bool
  is_rule line = T.matches "^\\s*-\\s+classification:\\s*`?release_blocker`?\\s*$" line

  ends_block : Bool → String → Bool
  unfolding is_item
  ends_block rule line =
      is_item line || rule && T.matches "^\\s*-\\s+classification:\\s+" line || starts_with line "#"

  -- The lines up to the end of a block, and those after it: the inner loop.
  unfoldable pub split_block : Bool → List String → List String × List String
  unfolding ends_block
  split_block rule [] = ([], [])
  split_block rule (line ∷ lines) =
      let (block, after) = split_block rule lines in
      if ends_block rule line then ([], line ∷ lines) else (line ∷ block, after)

  unfoldable pub kept_block : ℕ → String → List (ℕ × String) → List (ℕ × String)
  kept_block number block rest =
      if T.searches "(?im)^\\s*classification:\\s*`?release_blocker`?\\s*$" block
      then (number, block) ∷ rest
      else rest

  unfoldable pub kept_row : ℕ → String → List (ℕ × String) → List (ℕ × String)
  kept_row number line rest =
      if is_part "|" line && is_part "release_blocker" line then (number, line) ∷ rest else rest

  -- The loop over the lines, of which line `number` is the first: none if it has not ended after
  -- `fuel` rounds.
  unfoldable pub doc_blocks : ℕ → ℕ → List String → Option (List (ℕ × String))
  doc_blocks zero number [] = some []
  doc_blocks zero number (line ∷ lines) = none
  doc_blocks (suc fuel) number [] = some []
  doc_blocks (suc fuel) number (line ∷ lines) = elim (is_item line || is_rule line) [
    | true ↦
        let (block, after) = split_block (is_rule line) lines in
        mathlib.Core.Option.map (kept_block number (join "\n" (line ∷ block)))
          (doc_blocks fuel (suc number + length block) after)
    | false ↦ mathlib.Core.Option.map (kept_row number line) (doc_blocks fuel (suc number) lines)
  ]

  unfoldable pub blocks_or_none : Option (List (ℕ × String)) → List (ℕ × String)
  blocks_or_none none = []
  blocks_or_none (some blocks) = blocks

  -- `_release_blocker_doc_blocks`; every round takes a line
  unfoldable pub release_blocker_doc_blocks : List String → List (ℕ × String)
  unfolding blocks_or_none
  release_blocker_doc_blocks lines = blocks_or_none (doc_blocks (length lines) 1 lines)

  at_line : String → ℕ → String → List String
  at_line path number message = (path <> (":" <> (int_text (pos number) <> (": " <> message)))) ∷ []

  unbound : String → Bool
  unbound block =
      is_empty (metadata_values block "registry_id")
      && is_empty (metadata_values block "aggregate_of")
      && is_empty (metadata_values block "superseded_by")
      && not (has_truthy_marker block "historical")
      && not (has_truthy_marker block "example")

  block_errors : List String → String → ℕ × String → List String
  unfolding at_line unbound
  block_errors names path (number, block) =
      if not (has_doc_sync_marker block)
      then at_line path number
          "release_blocker blockにregistry_id、aggregate_of、superseded_by、historical、example markerのいずれもない"
      else let unknown = unknown_registry_refs block names in
        (if is_empty unknown
          then []
          else at_line path number
              ("release_blocker blockが未知のregistry blockerを参照: " <> join ", " unknown))
        ++ (if unbound block
            then at_line path number
                "release_blocker markerは存在するがregistry、aggregate、superseded、historical=true、example=trueのいずれにも結び付かない"
            else [])

  blocks_errors : List String → String → List (ℕ × String) → List String
  unfolding block_errors
  blocks_errors names path [] = []
  blocks_errors names path (b ∷ bs) = block_errors names path b ++ blocks_errors names path bs

  docs_errors : Documents → List String → List String → List String
  unfolding blocks_errors
  docs_errors docs names [] = []
  docs_errors docs names (path ∷ paths) = elim (docs path) [
    | none ↦ (path <> "がrelease blocker文書同期scanにない") ∷ docs_errors docs names paths
    | some text ↦
        blocks_errors names path (release_blocker_doc_blocks (T.split_lines text))
        ++ docs_errors docs names paths
  ]

  -- `release_blocker_doc_sync_errors`, with the names of the registry's blockers
  unfoldable pub release_blocker_doc_sync_errors : Documents → List String → List String
  unfolding docs_errors
  release_blocker_doc_sync_errors docs names = docs_errors docs names current_facing_release_docs
