-- ===== src/Wikilinks/Names.antt =====
-- The inside of a link in src/services/wikilinks.ts: a new target keeps the anchor and the alias.
use brain_mcp_server.Prelude.{
  ℕ, ◌≡◌, refl, sym, ap, inl, inr, Bool, false, ◌||◌, [], ◌∷◌, ◌++◌, Text, nat_eq, ◌==◌, arith,
  Bool-cases, is_empty, All, All-append, subst,
}
use brain_mcp_server.Policy.Patterns.{trim}
use brain_mcp_server.Wikilinks.{is_bracket, cut, at_alias, at_anchor, split_inner}
use brain_mcp_server.Wikilinks.Segments.{IsInner, IsPlain, append_nil}

-- A unit that begins neither an alias nor an anchor.
abbrev pub is_special : ℕ → Bool
is_special c = c == b'|' || c == b'#' || c == 92

-- A name that a link can hold: some text without brackets, bars, hashes and backslashes, and without
-- blanks at its ends.
pub record IsName (name : Text) : Type 0 where
  pub filled : is_empty name ≡ false
  pub plain : IsPlain name
  pub simple : All (λ c. is_special c ≡ false) name
  pub trimmed : trim name ≡ name

cut-join : (p : Text → Bool) (s : Text) → (cut p s).0 ++ (cut p s).1 ≡ s
unfolding cut
cut-join p [] = refl
cut-join p (c ∷ s) = elim (Bool-cases (p (c ∷ s))) [
  | inl e ↦ rw e refl
  | inr e ↦ rw e (ap (λ t. c ∷ t) (cut-join p s))
]

nil-append : (t u : Text) → [] ≡ t ++ u → u ≡ []
nil-append [] u h = sym h
nil-append (x ∷ t) u h = cc

tail_eq : {c d : ℕ} {s t : Text} → c ∷ s ≡ d ∷ t → s ≡ t
tail_eq h = cc

at_end : (p : Text → Bool) (u a : Text) → u ≡ [] → cut p a ≡ ([], a) → cut p (u ++ a) ≡ (u, a)
at_end p u a e h = subst (λ (v : Text). cut p (v ++ a) ≡ (v, a)) (sym e) h

cut-next :
    (p : Text → Bool) (c : ℕ) (s : Text)
    → p (c ∷ s) ≡ false
    → cut p (c ∷ s) ≡ (c ∷ (cut p s).0, (cut p s).1)
unfolding cut
cut-next p c s e = rw e refl

-- Cutting what ends the first part, with the second, cuts at the same place.
cut-suffix :
    (p : Text → Bool) (s t u : Text)
    → (cut p s).0 ≡ t ++ u
    → cut p (u ++ (cut p s).1) ≡ (u, (cut p s).1)
unfolding cut
cut-suffix p [] t u h = at_end p u [] (nil-append t u h) refl
cut-suffix p (c ∷ s) t u h = elim (Bool-cases (p (c ∷ s))) [
  | inl e ↦ rw e (at_end p u (c ∷ s) (nil-append t u (rw e at h)) (rw e refl))
  | inr e ↦ rw e (of e t (rw e at h) (cut-suffix p s))
]
  where
    of :
        p (c ∷ s) ≡ false
        → (t : Text) → c ∷ (cut p s).0 ≡ t ++ u
        → ((t u : Text) → (cut p s).0 ≡ t ++ u → cut p (u ++ (cut p s).1) ≡ (u, (cut p s).1))
        → cut p (u ++ (cut p s).1) ≡ (u, (cut p s).1)
    of e [] q ih =
        subst (λ (v : Text). cut p (v ++ (cut p s).1) ≡ (v, (cut p s).1)) q
          (subst (λ (v : Text). cut p (c ∷ v) ≡ (c ∷ (cut p s).0, (cut p s).1)) (sym (cut-join p s))
            (cut-next p c s e))
    of e (x ∷ t) q ih = ih t u (tail_eq q)

cut-All {ℓ} :
    (P : ℕ → Type ℓ) (p : Text → Bool) (s : Text) → All P s → All P (cut p s).0 × All P (cut p s).1
unfolding cut
cut-All P p [] h = (tt, tt)
cut-All P p (c ∷ s) (h, hs) = elim (Bool-cases (p (c ∷ s))) [
  | inl e ↦ rw e (tt, (h, hs))
  | inr e ↦ rw e (let (a, b) = cut-All P p s hs in ((h, a), b))
]

at_alias-simple : (c : ℕ) (s : Text) → is_special c ≡ false → at_alias (c ∷ s) ≡ false
at_alias-simple c [] h = ground (arith, h)
at_alias-simple c (d ∷ s) h = ground (arith, h)

cut_alias-name :
    (name rest : Text)
    → All (λ c. is_special c ≡ false) name
    → cut at_alias (name ++ rest) ≡ (name ++ (cut at_alias rest).0, (cut at_alias rest).1)
unfolding cut
cut_alias-name [] rest h = refl
cut_alias-name (c ∷ name) rest (h, hs) =
    rw (at_alias-simple c (name ++ rest) h, cut_alias-name name rest hs) refl

cut_anchor-name :
    (name rest : Text)
    → All (λ c. is_special c ≡ false) name
    → cut at_anchor (name ++ rest) ≡ (name ++ (cut at_anchor rest).0, (cut at_anchor rest).1)
unfolding cut
cut_anchor-name [] rest h = refl
cut_anchor-name (c ∷ name) rest (h, hs) =
    let sharp : (c == b'#') ≡ false = ground (arith, h) in
    rw (sharp, cut_anchor-name name rest hs) refl

-- The alias and the anchor of the inside of a link, and what stands before.
abbrev head_of_inner : Text → Text
head_of_inner inner = (cut at_alias inner).0

abbrev alias_of : Text → Text
alias_of inner = (cut at_alias inner).1

abbrev anchor_of : Text → Text
anchor_of inner = (cut at_anchor (head_of_inner inner)).1

cut_alias-suffix :
    (inner : Text)
    → cut at_alias (anchor_of inner ++ alias_of inner) ≡ (anchor_of inner, alias_of inner)
cut_alias-suffix inner =
    cut-suffix at_alias inner (cut at_anchor (head_of_inner inner)).0 (anchor_of inner)
      (sym (cut-join at_anchor (head_of_inner inner)))

cut_anchor-anchor : (inner : Text) → cut at_anchor (anchor_of inner) ≡ ([], anchor_of inner)
cut_anchor-anchor inner =
    cut-suffix at_anchor (head_of_inner inner) (cut at_anchor (head_of_inner inner)).0 []
      (sym (append_nil _))

-- A name before the suffix of a link is the target of the link that they make, with that suffix.
pub split_inner-name :
    (name inner : Text)
    → IsName name
    → split_inner (name ++ (split_inner inner).suffix)
      ≡ record { target = name; suffix = (split_inner inner).suffix }
unfolding split_inner
split_inner-name name inner h =
    rw (cut_alias-name name (anchor_of inner ++ alias_of inner) h.simple) (
      rw (cut_alias-suffix inner) (
        rw (cut_anchor-name name (anchor_of inner) h.simple)
          (rw (cut_anchor-anchor inner) (rw (append_nil name) (rw h.trimmed refl)))))

pub name-IsInner :
    (name inner : Text) → IsName name → IsInner inner → IsInner (name ++ (split_inner inner).suffix)
unfolding split_inner
name-IsInner name inner h i = record {
  filled = filled name (anchor_of inner ++ alias_of inner) h.filled;
  plain =
      let (head_plain, alias_plain) = cut-All (λ c. is_bracket c ≡ false) at_alias inner i.plain in
      let (target_plain, anchor_plain) =
        cut-All (λ c. is_bracket c ≡ false) at_anchor (head_of_inner inner) head_plain in
      All-append (λ c. is_bracket c ≡ false) name _ h.plain
        (All-append (λ c. is_bracket c ≡ false) (anchor_of inner) _ anchor_plain alias_plain);
}
  where
    filled : (s t : Text) → is_empty s ≡ false → is_empty (s ++ t) ≡ false
    filled [] t e = cc
    filled (c ∷ s) t e = refl
