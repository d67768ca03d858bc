-- ===== src/Wikilinks/Segments.antt =====
-- The segments of src/services/wikilinks.ts: a text is what they render to, and a text that is rendered from
-- rewritten segments has these segments again.
use brain_mcp_server.Prelude.{
  ℕ, zero, suc, ◌+◌, ◌≡◌, refl, sym, ap, ◌∙◌, inl, inr, true, false, ◌&&◌, Option, none, some, List,
  [], ◌∷◌, ◌++◌, Text, codes, nat_eq, ◌==◌, length, length-append, drop, starts_with, arith,
  Bool-cases, Option-cases, is_empty, nat_beq_iff, some_inj, subst, All,
}
use brain_mcp_server.Wikilinks.{
  is_bracket, until_close, filled_inner, link_at, Segment, outside, link, segment_at, skip_of,
  segments_from, segments, render_segment, render,
}

pub append_assoc : (xs ys zs : Text) → (xs ++ ys) ++ zs ≡ xs ++ (ys ++ zs)
append_assoc [] ys zs = refl
append_assoc (x ∷ xs) ys zs = ap (λ t. x ∷ t) (append_assoc xs ys zs)

pub append_nil : (xs : Text) → xs ++ [] ≡ xs
append_nil [] = refl
append_nil (x ∷ xs) = ap (λ t. x ∷ t) (append_nil xs)

abbrev pub IsPlain : Text → Type 0
IsPlain s = All (λ c. is_bracket c ≡ false) s

-- The inside of a link: some text without brackets.
pub record IsInner (inner : Text) : Type 0 where
  pub filled : is_empty inner ≡ false
  pub plain : IsPlain inner

abbrev pub closing : Text
closing = b']' ∷ b']' ∷ []

pub length-opened : (inner : Text) → length (b'[' ∷ (inner ++ closing)) ≡ length inner + 3
length-opened inner = omega (arith, length-append inner closing)

pub until_close-plain :
    (inner s : Text) → IsPlain inner → until_close (inner ++ (b']' ∷ b']' ∷ s)) ≡ some inner
unfolding until_close starts_with
until_close-plain [] s h = refl
until_close-plain (c ∷ inner) s (h, hs) = rw (h, until_close-plain inner s hs) refl

pub starts_with_nil : (s : Text) → starts_with s [] ≡ true
unfolding starts_with
starts_with_nil [] = refl
starts_with_nil (c ∷ s) = refl

pub unsome : {A : Type 0} {a : A} → ¬ (none ≡ some a)
unsome p = cc

pub suc-add-two : (n : ℕ) → suc n + 2 ≡ suc (n + 2)
suc-add-two n = omega arith

pub closed :
    (c : ℕ) (s : Text)
    → starts_with (c ∷ s) (codes "]]") ≡ true
    → c ∷ s ≡ b']' ∷ b']' ∷ drop 2 (c ∷ s)
unfolding starts_with
closed c [] e = ground (arith, e)
closed c (d ∷ s) e = ground (arith, e, nat_beq_iff c b']', nat_beq_iff d b']', starts_with_nil s)

pub at_link :
    (inner s : Text)
    → IsInner inner
    → link_at (b'[' ∷ b'[' ∷ (inner ++ (b']' ∷ b']' ∷ s))) ≡ some inner
unfolding link_at
at_link inner s good = rw (until_close-plain inner s good.plain) (filled inner good.filled)
  where
    filled : (t : Text) → is_empty t ≡ false → filled_inner (some t) ≡ some t
    filled [] h = cc
    filled (c ∷ t) h = refl

-- What a successful search for the end of a link has found.
pub until_close-some :
    (s inner : Text)
    → until_close s ≡ some inner
    → IsPlain inner × (s ≡ inner ++ (b']' ∷ b']' ∷ drop (length inner + 2) s))
unfolding until_close
until_close-some [] inner h = cc
until_close-some (c ∷ s) inner h = elim (Bool-cases (is_bracket c)) [
  | inl b ↦ elim (Bool-cases (starts_with (c ∷ s) (codes "]]"))) [
    | inl e ↦
        let same : some [] ≡ some inner = rw (b, e) at h in rw (← some_inj same) (tt, closed c s e)
    | inr e ↦ absurd (unsome (rw (b, e) at h))
  ]
  | inr b ↦ elim (Option-cases (until_close s)) [
    | inl e ↦ absurd (unsome (rw (b, e) at h))
    | inr (more, e) ↦
        let same : some (c ∷ more) ≡ some inner = rw (b, e) at h in
        let (plain, q) = until_close-some s more e in
        rw (← some_inj same) ((b, plain), rw (suc-add-two (length more)) (ap (λ t. c ∷ t) q))
  ]
]

pub link_at-some :
    (c : ℕ) (s inner : Text)
    → link_at (c ∷ s) ≡ some inner
    → IsInner inner × (c ∷ s ≡ b'[' ∷ b'[' ∷ (inner ++ (b']' ∷ b']' ∷ drop (length inner + 3) s)))
unfolding link_at
link_at-some c [] inner h = absurd (unsome h)
link_at-some c (d ∷ s) inner h = elim (Bool-cases ((c == b'[') && (d == b'['))) [
  | inr e ↦ absurd (unsome (rw e at h))
  | inl e ↦
      of (ground (arith, e, nat_beq_iff c b'[', nat_beq_iff d b'[')) (until_close s) refl
        (rw e at h)
]
  where
    three : (n : ℕ) → n + 3 ≡ suc (n + 2)
    three n = omega arith

    of :
        (c ≡ b'[') × (d ≡ b'[')
        → (o : Option Text) → until_close s ≡ o
        → filled_inner o ≡ some inner
        → IsInner inner
          × (c ∷ d ∷ s ≡ b'[' ∷ b'[' ∷ (inner ++ (b']' ∷ b']' ∷ drop (length inner + 3) (d ∷ s))))
    of both none q p = absurd (unsome p)
    of both (some []) q p = absurd (unsome p)
    of both (some (x ∷ xs)) q p =
        let (plain, t) = until_close-some s (x ∷ xs) q in
        rw (← some_inj p) (
          record { filled = refl; plain = plain },
          rw (both.0, both.1, three (length (x ∷ xs))) (ap (λ t. b'[' ∷ b'[' ∷ t) t),
        )

-- What the segments of a text satisfy: a link has an inside, and no link begins at a unit outside.
abbrev pub AreParsed : List Segment → Type 0
AreParsed [] = Unit
AreParsed (outside c ∷ rest) = (link_at (c ∷ render rest) ≡ none) × AreParsed rest
AreParsed (link inner ∷ rest) = IsInner inner × AreParsed rest

pub record IsReading (s : Text) (found : List Segment) : Type 0 where
  pub rendered : render found ≡ s
  pub parsed : AreParsed found

pub segments_from-IsReading : (skip : ℕ) (s : Text) → IsReading (drop skip s) (segments_from skip s)
unfolding segments_from render
segments_from-IsReading zero [] = record { rendered = refl; parsed = tt }
segments_from-IsReading (suc skip) [] = record { rendered = refl; parsed = tt }
segments_from-IsReading (suc skip) (c ∷ s) = segments_from-IsReading skip s
segments_from-IsReading zero (c ∷ s) =
    of (link_at (c ∷ s)) refl (segments_from-IsReading (skip_of (link_at (c ∷ s))) s)
  where
    of :
        (o : Option Text)
        → link_at (c ∷ s) ≡ o
        → IsReading (drop (skip_of o) s) (segments_from (skip_of o) s)
        → IsReading (c ∷ s) (segment_at c o ∷ segments_from (skip_of o) s)
    of none e r = record {
      rendered = ap (λ t. c ∷ t) r.rendered;
      parsed = (subst (λ (t : Text). link_at (c ∷ t) ≡ none) (sym r.rendered) e, r.parsed);
    }
    of (some inner) e r =
        let (good, whole) = link_at-some c s inner e in
        record {
          rendered =
              ap (λ t. b'[' ∷ b'[' ∷ t)
                (append_assoc inner (b']' ∷ b']' ∷ []) _
                  ∙ ap (λ t. inner ++ (b']' ∷ b']' ∷ t)) r.rendered)
              ∙ sym whole;
          parsed = (good, r.parsed);
        }

pub segments-IsReading : (s : Text) → IsReading s (segments s)
unfolding segments
segments-IsReading s = segments_from-IsReading 0 s

-- The segments of a text render to it.
pub render-segments : (s : Text) → render (segments s) ≡ s
render-segments s = (segments-IsReading s).rendered

pub segments-AreParsed : (s : Text) → AreParsed (segments s)
segments-AreParsed s = (segments-IsReading s).parsed

pub segments_from-skip : (xs t : Text) → segments_from (length xs) (xs ++ t) ≡ segments_from 0 t
unfolding segments_from
segments_from-skip [] t = refl
segments_from-skip (x ∷ xs) t = segments_from-skip xs t

pub segments_from-cons :
    (c : ℕ) (s : Text) (o : Option Text)
    → link_at (c ∷ s) ≡ o
    → segments_from 0 (c ∷ s) ≡ segment_at c o ∷ segments_from (skip_of o) s
unfolding segments_from
segments_from-cons c s o e = ap (λ p. segment_at c p ∷ segments_from (skip_of p) s) e

pub segments_from-link :
    (inner t : Text)
    → IsInner inner
    → segments_from 0 (render_segment (link inner) ++ t) ≡ link inner ∷ segments_from 0 t
segments_from-link inner t good =
    segments_from-cons b'[' (b'[' ∷ ((inner ++ closing) ++ t)) (some inner) found
    ∙ ap (λ r. link inner ∷ r) skipped
  where
    found : link_at (b'[' ∷ b'[' ∷ ((inner ++ closing) ++ t)) ≡ some inner
    found =
        subst (λ (u : Text). link_at (b'[' ∷ b'[' ∷ u) ≡ some inner)
          (sym (append_assoc inner closing t)) (at_link inner t good)

    skipped :
        segments_from (length inner + 3) (b'[' ∷ ((inner ++ closing) ++ t)) ≡ segments_from 0 t
    skipped =
        subst (λ (n : ℕ). segments_from n (b'[' ∷ ((inner ++ closing) ++ t)) ≡ segments_from 0 t)
          (length-opened inner) (segments_from-skip (b'[' ∷ (inner ++ closing)) t)

-- What is parsed is found again in what it renders to.
pub segments_from-render :
    (found : List Segment) → AreParsed found → segments_from 0 (render found) ≡ found
unfolding render
segments_from-render [] h = unfold segments_from in refl
segments_from-render (outside c ∷ rest) (e, hs) =
    segments_from-cons c (render rest) none e
    ∙ ap (λ r. outside c ∷ r) (segments_from-render rest hs)
segments_from-render (link inner ∷ rest) (good, hs) =
    segments_from-link inner (render rest) good
    ∙ ap (λ r. link inner ∷ r) (segments_from-render rest hs)

pub segments-render : (found : List Segment) → AreParsed found → segments (render found) ≡ found
unfolding segments
segments-render = segments_from-render
