-- ===== src/Fuzz/Shrink.antt =====
-- `shrink_source` of tools/fuzz/mcfuzz.py: line-greedy reduction of a failing program. The oracle and
-- `finding_signature` are arguments; the oracle gives the same finding for the same text.
pub mod Laws
use modern_c.Prelude.{
  ℕ, zero, suc, ◌+◌, ◌-◌, String, Bool, true, false, List, [], ◌∷◌, Option, none, some, length,
  join, split, same_text, if◌then◌else◌,
}

-- `lines[:i] + lines[i + 1:]`.
unfoldable pub without_line : List String → ℕ → List String
without_line [] i = []
without_line (l ∷ ls) zero = ls
without_line (l ∷ ls) (suc i) = l ∷ without_line ls i

module _ (oracle : String → Option String) (finding_signature : String → String)
    (signature : String) where
  -- The oracle has a finding of the signature.
  unfoldable pub still_fails : List String → Bool
  unfolding join
  still_fails lines = elim (oracle (join "\n" lines)) [
    | none ↦ false
    | some finding ↦ same_text (finding_signature finding) signature
  ]

  -- `while i < len(lines)`: each round takes a line out or steps over it, so `left`, which counts
  -- `len(lines) - i`, goes down by one.
  unfoldable pub shrink_pass : (left i : ℕ) → List String → Bool → List String × Bool
  unfolding without_line
  shrink_pass zero i lines changed = (lines, changed)
  shrink_pass (suc left) i lines changed = elim (still_fails (without_line lines i)) [
    | true ↦ shrink_pass left i (without_line lines i) true
    | false ↦ shrink_pass left (i + 1) lines changed
  ]

  -- `while changed`, on fuel: `none` where it runs out.
  unfoldable pub shrink_loop : ℕ → List String → Option (List String)
  shrink_loop zero lines = none
  shrink_loop (suc fuel) lines =
      let (lines', changed) = shrink_pass (length lines) 0 lines false in
      let rest = shrink_loop fuel lines' in if changed then rest else some lines'

  unfoldable pub shrink_lines : String → Option (List String)
  unfolding split
  shrink_lines source = let lines = split b'\n' source in shrink_loop (suc (length lines)) lines

  unfoldable pub shrink_source : String → Option String
  unfolding join
  shrink_source source = elim (shrink_lines source) [
    | none ↦ none
    | some lines ↦ some (join "\n" lines)
  ]
