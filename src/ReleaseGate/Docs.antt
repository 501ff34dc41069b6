-- ===== src/ReleaseGate/Docs.antt =====
-- tooling/release_gate_check.py: the scans of the documents.
use gui_shell_public.Prelude.{
  String, ◌<>◌, Bool, not, ◌&&◌, ℕ, suc, ◌+◌, ◌-◌, List, [], ◌∷◌, ◌++◌, Option, none, some, any_of,
  if◌then◌else◌, join, is_part, take, drop, take_chars, drop_chars,
}
use gui_shell_public.Prelude.Int.{pos, int_text}

-- What the scans take from Python: s.lower(), s.splitlines() and the module re, whose patterns are
-- texts with (?im) or re.DOTALL in front where the source gives such flags.
--   matches pattern s   re.match(pattern, s) is not None
--   searches pattern s  re.search(pattern, s) is not None
--   groups pattern s    [match.group(1) for match in re.finditer(pattern, s)]
--   spans pattern s     [(match.start(), match.end()) for match in re.finditer(pattern, s)]
--   splits pattern s    re.split(pattern, s)
pub record TextLib : Type 0 where
  pub lower : String → String
  pub split_lines : String → List String
  pub matches : String → String → Bool
  pub searches : String → String → Bool
  pub groups : String → String → List String
  pub spans : String → String → List (ℕ × ℕ)
  pub splits : String → String → List String

-- The text of a file below the repository's root, none for a file that does not exist.
abbrev pub Documents : Type 0
Documents = String → Option String

abbrev pub patterns : List String
patterns =
    "not run" ∷ "not verified" ∷ "not implemented" ∷ "not complete" ∷ "still needed"
    ∷ "still required" ∷ "remaining" ∷ "TODO" ∷ "future work" ∷ "skeleton only" ∷ "mock only"
    ∷ "unavailable" ∷ "not found" ∷ "not tested" ∷ "pending" ∷ "incomplete" ∷ "placeholder"
    ∷ "scaffold" ∷ "stub" ∷ []

abbrev pub classifications : List String
classifications = "release_blocker" ∷ "post_v1_scope" ∷ "known_limitation" ∷ "required_for_v1" ∷ []

abbrev pub doc_sync_markers : List String
doc_sync_markers = "registry_id" ∷ "aggregate_of" ∷ "superseded_by" ∷ "historical" ∷ "example" ∷ []

abbrev pub macos_claim_patterns : List String
macos_claim_patterns =
    "\\bmacos\\b.{0,80}\\b(verified|supported|ready|complete|release-ready)\\b"
    ∷ "\\b(verified|supported|ready|complete|release-ready)\\b.{0,80}\\bmacos\\b" ∷ []

abbrev pub macos_negation_hints : List String
macos_negation_hints =
    "does not claim" ∷ "must not be advertised" ∷ "before claiming" ∷ "unverified"
    ∷ "known_limitation" ∷ "planned portability" ∷ "no macos validation environment" ∷ []

module _ (T : TextLib) where
  -- `classified_near`: lines[max(0, index - 2):min(len(lines), index + 4)] names a classification
  unfoldable pub classified_near : List String → ℕ → Bool
  classified_near lines index =
      let window = T.lower (join "\n" (take (index + 4 - (index - 2)) (drop (index - 2) lines))) in
      any_of (λ token. is_part token window) classifications

  unclassified_patterns : String → List String → ℕ → String → List String → List String
  unclassified_patterns path lines index lowered [] = []
  unclassified_patterns path lines index lowered (pattern ∷ rest) =
      let after = unclassified_patterns path lines index lowered rest in
      if is_part (T.lower pattern) lowered && not (classified_near lines index)
      then (path <> (":" <> (int_text (pos (suc index)) <> (": 未分類の未完了item: " <> pattern)))) ∷ after
      else after

  -- The errors of the lines from `index` on, in the file with these `lines`.
  scan_lines : String → List String → ℕ → List String → List String
  unfolding unclassified_patterns
  scan_lines path lines index [] = []
  scan_lines path lines index (line ∷ rest) =
      unclassified_patterns path lines index (T.lower line) patterns
      ++ scan_lines path lines (suc index) rest

  unfoldable pub scan_file : Documents → String → List String
  unfolding scan_lines
  scan_file docs path = elim (docs path) [
    | none ↦ (path <> " が存在しない") ∷ []
    | some text ↦ let lines = T.split_lines text in scan_lines path lines 0 lines
  ]

  unfoldable pub release_claim_exists_without_classification : String → Bool
  release_claim_exists_without_classification text =
      let lower = T.lower text in
      (T.searches "\\brelease\\b" lower && is_part "completed product release" lower)
      && is_part "release_blocker" lower
      && not (is_part "not yet a completed product release" lower)

  -- lower[max(0, start - 120):min(len(lower), end + 120)] has a hint
  is_negated : String → ℕ × ℕ → Bool
  is_negated lower (first, last) =
      let window = take_chars (last + 120 - (first - 120)) (drop_chars (first - 120) lower) in
      any_of (λ hint. is_part hint window) macos_negation_hints

  -- `macos_support_claim_errors`: the one error, if some match of some pattern is not negated
  unfoldable pub macos_support_claim_errors : String → List String
  unfolding is_negated
  macos_support_claim_errors text =
      let lower = T.lower text in
      if any_of (λ pattern. any_of (λ span. not (is_negated lower span)) (T.spans pattern lower))
        macos_claim_patterns
      then "validation evidenceなしにmacOS supportを主張しているように見える" ∷ []
      else []
