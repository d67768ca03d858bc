-- ===== src/Policy/Lines.antt =====
-- `addedLines` of src/services/write-policy.ts: the lines of the new text that the old one does not
-- account for, each as often as it has been added.
use brain_mcp_server.Prelude.{
  inl, inr, ℕ-cases, ℕ, zero, suc, ◌-◌, ◌≡◌, List, [], ◌∷◌, Text, text_eq, split, arith,
}
use brain_mcp_server.Prelude.Maps.{Map, get, set}
use brain_mcp_server.Prelude.Counts.{count, count_of, tally, count_of-set, count_of-tally_nil}

-- The filter over the new lines, with the map `remaining`.
filter_added : Map Text ℕ → List Text → List Text
filter_added remaining [] = []
filter_added remaining (line ∷ lines) = elim (count_of remaining line) [
  | zero ↦ line ∷ filter_added remaining lines
  | suc n ↦ filter_added (set line n remaining) lines
]

unfoldable pub added_lines : Text → Text → List Text
unfolding filter_added tally split get set
added_lines before after = filter_added (tally [] (split 10 before)) (split 10 after)

count-filter_added :
    (m : Map Text ℕ) (lines : List Text) (l : Text)
    → count l (filter_added m lines) ≡ count l lines - count_of m l
unfolding filter_added count
count-filter_added m [] l = ground arith
count-filter_added m (x ∷ xs) l = elim (ℕ-cases (count_of m x)) [
  | inl e ↦ ground (arith, text_eq.beq_iff x l, count-filter_added m xs l)
  | inr (n, e) ↦
      ground (arith, text_eq.beq_iff x l, count_of-set m x l n, count-filter_added (set x n m) xs l)
]

-- Every line occurs among the added lines as often as the new text has it more often than the old.
pub count-added_lines :
    (before after line : Text)
    → count line (added_lines before after)
      ≡ count line (split 10 after) - count line (split 10 before)
unfolding added_lines
count-added_lines before after line = omega (
  arith,
  count-filter_added (tally [] (split 10 before)) (split 10 after) line,
  count_of-tally_nil (split 10 before) line,
)
