-- ===== src/Prelude/Texts.antt =====
-- JavaScript strings: lists of UTF-16 code units, with the operations of `String.prototype` that
-- the program uses, and `Number.prototype.toString` for natural numbers.
use Prim.Native.Nat.{ℕ}
use Prim.Native.Char.{code}
use Prim.Native.String.{String}
use mathlib.Core.Path.{◌≡◌, refl, ap}
use mathlib.Core.Logic.{◌↔◌, inl, inr}
use mathlib.Core.Option.{Option, none, some}
use mathlib.Core.Bool.{Bool, true, false, ◌&&◌, ◌||◌}
use mathlib.Core.List.{List, [], ◌∷◌, ◌++◌}
use native.Mathlib.Omega.{arith}
use brain_mcp_server.Prelude.Tests.{nat_beq, nat_beq_iff, if◌then◌else◌, Eq, nat_eq, Bool-cases}

abbrev pub Text : Type 0
Text = List ℕ

-- A literal.
abbrev pub codes : String → Text
codes String.[] = []
codes (String.◌∷◌ c s) = code c ∷ codes s

unfoldable pub text_beq : Text → Text → Bool
text_beq [] [] = true
text_beq (x ∷ xs) (y ∷ ys) = nat_beq x y && text_beq xs ys
text_beq _ _ = false

pub text_beq_iff : (s t : Text) → (text_beq s t ≡ true) ↔ (s ≡ t)
unfolding text_beq
text_beq_iff [] [] = ground arith
text_beq_iff [] (y ∷ ys) = ground arith
text_beq_iff (x ∷ xs) [] = ground arith
text_beq_iff (x ∷ xs) (y ∷ ys) = ground (arith, nat_beq_iff x y, text_beq_iff xs ys)

instance abbrev pub text_eq : Eq Text
text_eq = record { beq = text_beq; beq_iff = text_beq_iff }

pub text_beq_refl : (s : Text) → text_beq s s ≡ true
text_beq_refl s = (text_beq_iff s s).1 refl

-- A text is falsy if it is empty.
abbrev pub is_empty {ℓ} : {A : Type ℓ} → List A → Bool
is_empty [] = true
is_empty (x ∷ xs) = false

-- `s || other`, and `s || ""` for a text that may be absent.
abbrev pub or_text : Text → Text → Text
or_text [] other = other
or_text (c ∷ s) other = c ∷ s

abbrev pub or_empty : Option Text → Text
or_empty none = []
or_empty (some s) = s

-- `s.startsWith(p)`
unfoldable pub starts_with : Text → Text → Bool
starts_with s [] = true
starts_with [] (p ∷ ps) = false
starts_with (c ∷ s) (p ∷ ps) = nat_beq c p && starts_with s ps

-- What follows the prefix `p` of `s`.
unfoldable pub after_prefix : Text → Text → Option Text
after_prefix [] s = some s
after_prefix (p ∷ ps) [] = none
after_prefix (p ∷ ps) (c ∷ s) = if nat_beq c p then after_prefix ps s else none

-- `s.includes(p)`
unfoldable pub includes : Text → Text → Bool
unfolding starts_with
includes [] p = starts_with [] p
includes (c ∷ s) p = starts_with (c ∷ s) p || includes s p

-- `s.split(sep)` for a separator of one unit; the result is never empty.
abbrev pub push_first : ℕ → List Text → List Text
push_first c [] = (c ∷ []) ∷ []
push_first c (l ∷ ls) = (c ∷ l) ∷ ls

unfoldable pub split : ℕ → Text → List Text
split sep [] = [] ∷ []
split sep (c ∷ s) = if nat_beq c sep then [] ∷ split sep s else push_first c (split sep s)

-- `ls.join(sep)` for a separator of one unit.
unfoldable pub join : ℕ → List Text → Text
join sep [] = []
join sep (l ∷ []) = l
join sep (l ∷ m ∷ ls) = l ++ sep ∷ join sep (m ∷ ls)

join-push_first : (sep c : ℕ) (ls : List Text) → join sep (push_first c ls) ≡ c ∷ join sep ls
unfolding join
join-push_first sep c [] = refl
join-push_first sep c (l ∷ []) = refl
join-push_first sep c (l ∷ m ∷ ls) = refl

pub split-ne-nil : (sep : ℕ) (s : Text) → is_empty (split sep s) ≡ false
unfolding split
split-ne-nil sep [] = refl
split-ne-nil sep (c ∷ s) = elim (Bool-cases (nat_beq c sep)) [
  | inl e ↦ rw e
  | inr e ↦ rw e (push (split sep s))
]
  where
    push : (ls : List Text) → is_empty (push_first c ls) ≡ false
    push [] = refl
    push (l ∷ ls) = refl

join-nil-cons :
    (sep : ℕ) (ls : List Text) → is_empty ls ≡ false → join sep ([] ∷ ls) ≡ sep ∷ join sep ls
unfolding join
join-nil-cons sep [] h = cc
join-nil-cons sep (l ∷ ls) h = refl

-- Splitting and joining give the text back.
pub join-split : (sep : ℕ) (s : Text) → join sep (split sep s) ≡ s
unfolding split
join-split sep [] = unfold join in refl
join-split sep (c ∷ s) = elim (Bool-cases (nat_beq c sep)) [
  | inl e ↦ rw e (
      rw (join-nil-cons sep (split sep s) (split-ne-nil sep s))
        (cc ((nat_beq_iff c sep).0 e, join-split sep s)))
  | inr e ↦ rw e (rw (join-push_first sep c (split sep s)) (ap (λ t. c ∷ t) (join-split sep s)))
]
