-- ===== src/Graph/Fences/Closed.antt =====
-- What remains of a text without its fenced code blocks, in src/services/brain-graph.ts.
use brain_mcp_server.Prelude.{
  ◌≡◌, refl, ap, ◌∙◌, Option, none, some, List, [], ◌∷◌, Text, split, join, is_empty, All, length,
  arith, split-ne-nil, join-split, false,
}
use brain_mcp_server.Prelude.Lines.{IsLine, split-IsLine, split-join}
use brain_mcp_server.Graph.Fences.{
  Fence, opening, line_outside, strip_line, strip_lines, without_fenced_code_blocks,
}

abbrev OpensNothing : Text → Type 0
OpensNothing line = opening line ≡ none

opening-nil : opening [] ≡ none
unfolding opening
opening-nil = refl

strip_line-OpensNothing :
    (fence : Option Fence) (line : Text) → OpensNothing (strip_line fence line).0
unfolding strip_line
strip_line-OpensNothing none line = of (opening line) refl
  where
    of : (o : Option Fence) → opening line ≡ o → OpensNothing (line_outside o line).0
    of none e = e
    of (some fence) e = opening-nil
strip_line-OpensNothing (some fence) line = opening-nil

strip_lines-OpensNothing :
    (fence : Option Fence) (lines : List Text) → All OpensNothing (strip_lines fence lines)
unfolding strip_lines
strip_lines-OpensNothing fence [] = tt
strip_lines-OpensNothing fence (line ∷ lines) =
    (strip_line-OpensNothing fence line, strip_lines-OpensNothing (strip_line fence line).1 lines)

strip_line-IsLine :
    (fence : Option Fence) (line : Text) → IsLine 10 line → IsLine 10 (strip_line fence line).0
unfolding strip_line
strip_line-IsLine none line h = of (opening line)
  where
    of : (o : Option Fence) → IsLine 10 (line_outside o line).0
    of none = h
    of (some fence) = tt
strip_line-IsLine (some fence) line h = tt

strip_lines-IsLine :
    (fence : Option Fence) (lines : List Text)
    → All (IsLine 10) lines
    → All (IsLine 10) (strip_lines fence lines)
unfolding strip_lines
strip_lines-IsLine fence [] h = tt
strip_lines-IsLine fence (line ∷ lines) (h, hs) =
    (strip_line-IsLine fence line h, strip_lines-IsLine (strip_line fence line).1 lines hs)

length-strip_lines :
    (fence : Option Fence) (lines : List Text) → length (strip_lines fence lines) ≡ length lines
unfolding strip_lines
length-strip_lines fence [] = refl
length-strip_lines fence (line ∷ lines) =
    omega (arith, length-strip_lines (strip_line fence line).1 lines)

-- Lines that open nothing stay as they are.
strip_lines-closed : (lines : List Text) → All OpensNothing lines → strip_lines none lines ≡ lines
unfolding strip_lines strip_line
strip_lines-closed [] h = refl
strip_lines-closed (line ∷ lines) (h, hs) =
    rw h (ap (λ ls. line ∷ ls) (strip_lines-closed lines hs))

split-stripped :
    (content : Text)
    → split 10 (without_fenced_code_blocks content) ≡ strip_lines none (split 10 content)
unfolding without_fenced_code_blocks
split-stripped content = of (split 10 content) (split-ne-nil 10 content) (split-IsLine 10 content)
  where
    of :
        (lines : List Text)
        → is_empty lines ≡ false
        → All (IsLine 10) lines
        → split 10 (join 10 (strip_lines none lines)) ≡ strip_lines none lines
    of [] ne h = cc
    of (line ∷ lines) ne h =
        unfold strip_lines in split-join 10 _ _ (strip_lines-IsLine none (line ∷ lines) h)

stripped :
    (content : Text)
    → All OpensNothing (split 10 content)
    → without_fenced_code_blocks content ≡ content
unfolding without_fenced_code_blocks
stripped content h = ap (join 10) (strip_lines-closed (split 10 content) h) ∙ join-split 10 content

-- The text that remains has as many lines as the content, none of them opens a fence, and removing the
-- blocks again changes nothing.
pub without_fenced_code_blocks-closed :
    (content : Text)
    → (length (split 10 (without_fenced_code_blocks content)) ≡ length (split 10 content))
      × All (λ line. opening line ≡ none) (split 10 (without_fenced_code_blocks content))
      × (without_fenced_code_blocks (without_fenced_code_blocks content)
          ≡ without_fenced_code_blocks content)
without_fenced_code_blocks-closed content =
    (ap length (split-stripped content) ∙ length-strip_lines none (split 10 content), closed, again)
  where
    closed : All OpensNothing (split 10 (without_fenced_code_blocks content))
    closed = rw (split-stripped content) (strip_lines-OpensNothing none (split 10 content))

    again :
        without_fenced_code_blocks (without_fenced_code_blocks content)
        ≡ without_fenced_code_blocks content
    again = stripped (without_fenced_code_blocks content) closed
