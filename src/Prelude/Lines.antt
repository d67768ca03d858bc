-- ===== src/Prelude/Lines.antt =====
-- The lines of a text: splitting what was joined from lines without separators gives the lines back.
use Prim.Native.Nat.{ℕ}
use mathlib.Core.Path.{◌≡◌, refl, ap, ◌∙◌}
use mathlib.Core.Logic.{inl, inr}
use mathlib.Core.Bool.{false}
use mathlib.Core.List.{List, [], ◌∷◌, ◌++◌}
use brain_mcp_server.Prelude.Tests.{nat_beq, nat_beq_iff, Bool-cases}
use brain_mcp_server.Prelude.Texts.{Text, split, join, push_first}
use brain_mcp_server.Prelude.Lists.{All}

-- No unit of the text is the separator.
abbrev pub IsLine : ℕ → Text → Type 0
IsLine sep line = All (λ c. nat_beq c sep ≡ false) line

push_first-IsLine :
    (sep c : ℕ) (ls : List Text)
    → nat_beq c sep ≡ false
    → All (IsLine sep) ls
    → All (IsLine sep) (push_first c ls)
push_first-IsLine sep c [] h ls = ((h, tt), tt)
push_first-IsLine sep c (l ∷ ls) h (p, ps) = ((h, p), ps)

pub split-IsLine : (sep : ℕ) (s : Text) → All (IsLine sep) (split sep s)
unfolding split
split-IsLine sep [] = (tt, tt)
split-IsLine sep (c ∷ s) = elim (Bool-cases (nat_beq c sep)) [
  | inl e ↦ rw e (tt, split-IsLine sep s)
  | inr e ↦ rw e (push_first-IsLine sep c (split sep s) e (split-IsLine sep s))
]

split-line : (sep : ℕ) (line : Text) → IsLine sep line → split sep line ≡ line ∷ []
unfolding split
split-line sep [] h = refl
split-line sep (c ∷ line) (h, hs) = rw (h, split-line sep line hs)

split-line-append :
    (sep : ℕ) (line s : Text) → IsLine sep line → split sep (line ++ (sep ∷ s)) ≡ line ∷ split sep s
unfolding split
split-line-append sep [] s h = rw ((nat_beq_iff sep sep).1 refl)
split-line-append sep (c ∷ line) s (h, hs) = rw (h, split-line-append sep line s hs)

pub split-join :
    (sep : ℕ) (line : Text) (lines : List Text)
    → All (IsLine sep) (line ∷ lines)
    → split sep (join sep (line ∷ lines)) ≡ line ∷ lines
unfolding join
split-join sep line [] (h, hs) = split-line sep line h
split-join sep line (next ∷ lines) (h, hs) =
    split-line-append sep line (join sep (next ∷ lines)) h
    ∙ ap (λ ls. line ∷ ls) (split-join sep next lines hs)
