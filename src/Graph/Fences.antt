-- ===== src/Graph/Fences.antt =====
-- withoutFencedCodeBlocks of src/services/brain-graph.ts: the lines of fenced code blocks become empty.
pub mod Closed
use brain_mcp_server.Prelude.{
  Bool, true, false, not, ◌&&◌, ◌||◌, Option, none, some, List, [], ◌∷◌, ℕ, zero, suc, Text, ◌==◌,
  nat_eq, if◌then◌else◌, leb, split, join, any, all,
}
use brain_mcp_server.Policy.Patterns.{is_space, is_terminator}
use brain_mcp_server.Graph.Paths.{drop_while}

pub record Fence : Type 0 where
  pub marker : ℕ
  pub length : ℕ

-- ` {0,3}`: at most `n` spaces are skipped.
unfoldable pub skip_indent : ℕ → Text → Text
skip_indent zero s = s
skip_indent (suc n) [] = []
skip_indent (suc n) (c ∷ s) = let rest = skip_indent n s in if c == 32 then rest else c ∷ s

unfoldable pub run_length : ℕ → Text → ℕ
run_length m [] = 0
run_length m (c ∷ s) = if c == m then suc (run_length m s) else 0

-- "(`{3,}|~{3,})" and what follows it.
abbrev run_from : Text → Option (Fence × Text)
run_from [] = none
run_from (c ∷ s) =
    let n = run_length c (c ∷ s) in
    if (c == b'`' || c == b'~') && leb 3 n
    then some (record { marker = c; length = n }, drop_while (λ d. d == c) (c ∷ s))
    else none

unfoldable pub fence_run : Text → Option (Fence × Text)
unfolding skip_indent run_length drop_while
fence_run line = run_from (skip_indent 3 line)

-- "(?:[^`~].*)?$"
abbrev may_open : Text → Bool
may_open [] = true
may_open (c ∷ s) = not (c == b'`' || c == b'~') && not (any is_terminator s)

abbrev opened : Option (Fence × Text) → Option Fence
opened none = none
opened (some (fence, rest)) = if may_open rest then some fence else none

unfoldable pub opening : Text → Option Fence
unfolding fence_run
opening line = opened (fence_run line)

abbrev closed_by : Fence → Option (Fence × Text) → Bool
closed_by open_fence none = false
closed_by open_fence (some (fence, rest)) =
    all is_space rest && (fence.marker == open_fence.marker) && leb open_fence.length fence.length

unfoldable pub closes : Fence → Text → Bool
unfolding fence_run
closes fence line = closed_by fence (fence_run line)

-- The callback of `map`: the line it gives, and the fence that stays open.
abbrev line_outside : Option Fence → Text → Text × Option Fence
line_outside none line = (line, none)
line_outside (some fence) line = ([], some fence)

unfoldable pub strip_line : Option Fence → Text → Text × Option Fence
unfolding opening closes
strip_line none line = line_outside (opening line) line
strip_line (some fence) line = ([], if closes fence line then none else some fence)

unfoldable pub strip_lines : Option Fence → List Text → List Text
unfolding strip_line
strip_lines fence [] = []
strip_lines fence (line ∷ lines) =
    (strip_line fence line).0 ∷ strip_lines (strip_line fence line).1 lines

unfoldable pub without_fenced_code_blocks : Text → Text
unfolding strip_lines
without_fenced_code_blocks content = join 10 (strip_lines none (split 10 content))
