-- ===== src/ReleaseGate/Rounds.antt =====
-- tooling/release_gate_check.py: the rounds of the scan for blocks, and its line numbers.
use gui_shell_public.Prelude.{
  if◌then◌else◌, String, ◌≡◌, refl, ◌≤◌, ◌<◌, All, arith, Bool, true, false, ◌||◌, Bool-cases, inl,
  inr, ℕ, zero, suc, ◌+◌, List, [], ◌∷◌, length, join, Option, none, some,
}
use mathlib.Core.Option.{some-injective}
use gui_shell_public.ReleaseGate.Docs.{TextLib}
use gui_shell_public.ReleaseGate.DocSync.{
  is_item, is_rule, kept_block, kept_row, blocks_or_none, split_block, doc_blocks,
  release_blocker_doc_blocks,
}

module _ (T : TextLib) where
  split_block-shorter :
      (rule : Bool) (lines : List String) → length (split_block T rule lines).1 ≤ length lines
  unfolding split_block
  split_block-shorter rule [] = omega arith
  split_block-shorter rule (line ∷ lines) = ground (arith, split_block-shorter rule lines)

  doc_blocks-stable :
      (f g number : ℕ) (lines : List String)
      → length lines ≤ f
      → length lines ≤ g
      → doc_blocks T f number lines ≡ doc_blocks T g number lines
  unfolding doc_blocks
  doc_blocks-stable zero zero number lines a b = refl
  doc_blocks-stable zero (suc g) number [] a b = refl
  doc_blocks-stable zero (suc g) number (line ∷ lines) a b = absurd (omega arith)
  doc_blocks-stable (suc f) zero number [] a b = refl
  doc_blocks-stable (suc f) zero number (line ∷ lines) a b = absurd (omega arith)
  doc_blocks-stable (suc f) (suc g) number [] a b = refl
  doc_blocks-stable (suc f) (suc g) number (line ∷ lines) a b =
      let after = (split_block T (is_rule T line) lines).1 in
      let n = suc number + length (split_block T (is_rule T line) lines).0 in
      let shorter = split_block-shorter (is_rule T line) lines in
      let here = doc_blocks-stable f g (suc number) lines (omega arith) (omega arith) in
      let behind = doc_blocks-stable f g n after (omega arith) (omega arith) in
      elim (Bool-cases (is_item T line || is_rule T line)) [
        | inl opens ↦ rw (doc_blocks, opens, behind) refl
        | inr other ↦ rw (doc_blocks, other, here) refl
      ]

  -- Every round takes a line, so the loop has ended after as many rounds as there are lines.
  doc_blocks-ends :
      (fuel number : ℕ) (lines : List String)
      → length lines ≤ fuel
      → (blocks : List (ℕ × String)) × (doc_blocks T fuel number lines ≡ some blocks)
  unfolding doc_blocks
  doc_blocks-ends zero number [] a = ([], refl)
  doc_blocks-ends zero number (line ∷ lines) a = absurd (omega arith)
  doc_blocks-ends (suc fuel) number [] a = ([], refl)
  doc_blocks-ends (suc fuel) number (line ∷ lines) a =
      let (block, after) = split_block T (is_rule T line) lines in
      let n = suc number + length block in
      let shorter = split_block-shorter (is_rule T line) lines in
      let (below, here) = doc_blocks-ends fuel (suc number) lines (omega arith) in
      let (later, behind) = doc_blocks-ends fuel n after (omega arith) in
      elim (Bool-cases (is_item T line || is_rule T line)) [
        | inl opens ↦ (
          kept_block T number (join "\n" (line ∷ block)) later,
          rw (doc_blocks, opens, behind) refl,
        )
        | inr other ↦ (kept_row T number line below, rw (doc_blocks, other, here) refl)
      ]

  -- The scan of a document ends: with at least as many rounds as the document has lines the loop
  -- comes to its end, and the blocks that it has found then are those that
  -- `_release_blocker_doc_blocks` gives.
  pub doc_blocks-enough :
      (fuel : ℕ) (lines : List String)
      → length lines ≤ fuel
      → doc_blocks T fuel 1 lines ≡ some (release_blocker_doc_blocks T lines)
  unfolding release_blocker_doc_blocks blocks_or_none
  doc_blocks-enough fuel lines h =
      let (blocks, ends) = doc_blocks-ends (length lines) 1 lines (omega arith) in
      rw (doc_blocks-stable fuel (length lines) 1 lines h (omega arith), ends) refl

  -- A number of one of `count` lines from line `number` on.
  abbrev pub Numbered : ℕ → ℕ → ℕ × String → Type 0
  Numbered number count (n, block) = (number ≤ n) × (n < number + count)

  Numbered-within :
      (first count number fewer : ℕ) (blocks : List (ℕ × String))
      → number ≤ first
      → first + count ≤ number + fewer
      → All (Numbered first count) blocks
      → All (Numbered number fewer) blocks
  Numbered-within first count number fewer [] low high h = tt
  Numbered-within first count number fewer ((n, block) ∷ blocks) low high h =
      ((omega arith, omega arith), Numbered-within first count number fewer blocks low high h.1)

  All-if {ℓ} :
      {A : Type ℓ} (Q : A → Type 0) (b : Bool) (x : A) (rest : List A)
      → Q x
      → All Q rest
      → All Q (if b then x ∷ rest else rest)
  All-if Q true x rest h k = (h, k)
  All-if Q false x rest h k = k

  split_block-length :
      (rule : Bool) (lines : List String)
      → length (split_block T rule lines).0 + length (split_block T rule lines).1 ≡ length lines
  unfolding split_block
  split_block-length rule [] = refl
  split_block-length rule (line ∷ lines) = ground (arith, split_block-length rule lines)

  -- What a round adds to the blocks that the following rounds find.
  All-map :
      (Q : ℕ × String → Type 0) (f : List (ℕ × String) → List (ℕ × String))
      (found : Option (List (ℕ × String)))
      → ((rest : List (ℕ × String)) → found ≡ some rest → All Q (f rest))
      → (blocks : List (ℕ × String)) → mathlib.Core.Option.map f found ≡ some blocks
      → All Q blocks
  All-map Q f none h blocks e = cc
  All-map Q f (some rest) h blocks e = rw (← some-injective _ _ e) (h rest refl)

  doc_blocks-Numbered :
      (fuel number : ℕ) (lines : List String) (blocks : List (ℕ × String))
      → doc_blocks T fuel number lines ≡ some blocks
      → All (Numbered number (length lines)) blocks
  unfolding doc_blocks kept_block kept_row
  doc_blocks-Numbered zero number [] blocks e = rw (← some-injective _ _ e) tt
  doc_blocks-Numbered zero number (line ∷ lines) blocks e = cc
  doc_blocks-Numbered (suc fuel) number [] blocks e = rw (← some-injective _ _ e) tt
  doc_blocks-Numbered (suc fuel) number (line ∷ lines) blocks e =
      let (block, after) = split_block T (is_rule T line) lines in
      let n = suc number + length block in
      let whole = suc (length lines) in
      let lengths = split_block-length (is_rule T line) lines in
      elim (Bool-cases (is_item T line || is_rule T line)) [
        | inl opens ↦
            All-map (Numbered number whole) _ _
              (λ rest found.
                All-if (Numbered number whole) _ _ _ (omega arith, omega arith)
                  (Numbered-within n (length after) number whole rest (omega arith) (omega arith)
                    (doc_blocks-Numbered fuel n after rest found)))
              blocks (rw (doc_blocks, opens) at e)
        | inr other ↦
            All-map (Numbered number whole) _ _
              (λ rest found.
                All-if (Numbered number whole) _ _ _ (omega arith, omega arith)
                  (Numbered-within (suc number) (length lines) number whole rest (omega arith)
                    (omega arith) (doc_blocks-Numbered fuel (suc number) lines rest found)))
              blocks (rw (doc_blocks, other) at e)
      ]

  -- The numbers that the scan of a document gives with its blocks are numbers of its lines, from 1 on.
  pub release_blocker_doc_blocks-Numbered :
      (lines : List String) → All (Numbered 1 (length lines)) (release_blocker_doc_blocks T lines)
  unfolding release_blocker_doc_blocks blocks_or_none
  release_blocker_doc_blocks-Numbered lines =
      let (blocks, ends) = doc_blocks-ends (length lines) 1 lines (omega arith) in
      rw ends (doc_blocks-Numbered (length lines) 1 lines blocks ends)
