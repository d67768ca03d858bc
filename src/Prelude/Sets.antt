-- ===== src/Prelude/Sets.antt =====
-- JavaScript's `Set` and `Array.prototype.sort` on lists, with what they do to membership.
use mathlib.Core.Logic.{inl, inr}
use mathlib.Core.Path.{◌≡◌, refl}
use mathlib.Core.Bool.{Bool, true, false, not, ◌&&◌, ◌||◌}
use mathlib.Core.List.{List, [], ◌∷◌, ◌++◌}
use native.Mathlib.Omega.{arith}
use brain_mcp_server.Prelude.Tests.{Bool-cases, if◌then◌else◌, Eq, ◌==◌, nat_beq, ltb}
use brain_mcp_server.Prelude.Texts.{Text}
use brain_mcp_server.Prelude.Lists.{All, contains, keep, any}

module _ {ℓ} {A : Type ℓ} where
  -- `xs.sort(…)`, which is stable, for the order `le`.
  unfoldable pub insert_sorted : (A → A → Bool) → A → List A → List A
  insert_sorted le x [] = x ∷ []
  insert_sorted le x (y ∷ ys) = if le x y then x ∷ y ∷ ys else y ∷ insert_sorted le x ys

  unfoldable pub sort_by : (A → A → Bool) → List A → List A
  unfolding insert_sorted
  sort_by le [] = []
  sort_by le (x ∷ xs) = insert_sorted le x (sort_by le xs)

  any-insert_sorted :
      (p : A → Bool) (le : A → A → Bool) (x : A) (xs : List A)
      → any p (insert_sorted le x xs) ≡ p x || any p xs
  unfolding insert_sorted
  any-insert_sorted p le x [] = refl
  any-insert_sorted p le x (y ∷ ys) = ground (arith, any-insert_sorted p le x ys)

  pub any-sort_by :
      (p : A → Bool) (le : A → A → Bool) (xs : List A) → any p (sort_by le xs) ≡ any p xs
  unfolding sort_by
  any-sort_by p le [] = refl
  any-sort_by p le (x ∷ xs) =
      ground (arith, any-insert_sorted p le x (sort_by le xs), any-sort_by p le xs)

  pub All-sort_by {κ} :
      (P : A → Type κ) (le : A → A → Bool) (xs : List A) → All P xs → All P (sort_by le xs)
  unfolding sort_by insert_sorted
  All-sort_by P le [] h = tt
  All-sort_by P le (x ∷ xs) h = insert (sort_by le xs) (All-sort_by P le xs h.1)
    where
      insert : (ys : List A) → All P ys → All P (insert_sorted le x ys)
      insert [] t = (h.0, tt)
      insert (y ∷ ys) t = elim (Bool-cases (le x y)) [
        | inl e ↦ rw e (h.0, t)
        | inr e ↦ rw e (t.0, insert ys t.1)
      ]

  pub any-append : (p : A → Bool) (xs ys : List A) → any p (xs ++ ys) ≡ any p xs || any p ys
  any-append p [] ys = refl
  any-append p (x ∷ xs) ys = ground (arith, any-append p xs ys)

module _ {ℓ} {A : Type ℓ} ⦃e : Eq A⦄ where
  -- `Array.from(new Set(xs))`: the first occurrences, in order.
  unfoldable pub distinct : List A → List A
  distinct [] = []
  distinct (x ∷ xs) = x ∷ keep (λ y. not (y == x)) (distinct xs)

  pub contains-sort_by :
      (a : A) (le : A → A → Bool) (xs : List A) → contains a (sort_by le xs) ≡ contains a xs
  contains-sort_by a le xs = any-sort_by (λ x. x == a) le xs

  pub contains-append :
      (a : A) (xs ys : List A) → contains a (xs ++ ys) ≡ contains a xs || contains a ys
  contains-append a xs ys = any-append (λ x. x == a) xs ys

  pub contains-keep :
      (a : A) (p : A → Bool) (xs : List A) → contains a (keep p xs) ≡ contains a xs && p a
  contains-keep a p [] = refl
  contains-keep a p (x ∷ xs) = ground (arith, e.beq_iff x a, contains-keep a p xs)

  pub contains-distinct : (a : A) (xs : List A) → contains a (distinct xs) ≡ contains a xs
  unfolding distinct
  contains-distinct a [] = refl
  contains-distinct a (x ∷ xs) = ground (
    arith,
    e.beq_iff x a,
    e.beq_iff a x,
    contains-keep a (λ y. not (y == x)) (distinct xs),
    contains-distinct a xs,
  )

-- The default order of `sort()`: by UTF-16 units.
unfoldable pub text_le : Text → Text → Bool
text_le [] t = true
text_le (c ∷ s) [] = false
text_le (c ∷ s) (d ∷ t) = ltb c d || nat_beq c d && text_le s t
