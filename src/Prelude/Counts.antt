-- ===== src/Prelude/Counts.antt =====
-- Tallies: a `Map` from values to how often they occurred, filled by
-- `m.set(x, (m.get(x) || 0) + 1)`.
use Prim.Native.Nat.{ℕ, suc, ◌+◌}
use mathlib.Core.Path.{◌≡◌}
use mathlib.Core.Option.{Option, none, some}
use mathlib.Core.List.{List, [], ◌∷◌, ◌++◌}
use native.Mathlib.Omega.{arith}
use brain_mcp_server.Prelude.Tests.{if◌then◌else◌, Eq, ◌==◌}
use brain_mcp_server.Prelude.Maps.{Map, get, set, get-set}

-- `n || 0`
abbrev pub or_zero : Option ℕ → ℕ
or_zero none = 0
or_zero (some n) = n

module _ {ℓ} {K : Type ℓ} ⦃e : Eq K⦄ where
  unfoldable pub count : K → List K → ℕ
  count k [] = 0
  count k (x ∷ xs) = if x == k then suc (count k xs) else count k xs

  abbrev pub count_of : Map K ℕ → K → ℕ
  count_of m k = or_zero (get k m)

  unfoldable pub tally : Map K ℕ → List K → Map K ℕ
  tally m [] = m
  tally m (x ∷ xs) = tally (set x (count_of m x + 1) m) xs

  pub count_of-set :
      (m : Map K ℕ) (x k : K) (n : ℕ)
      → count_of (set x n m) k ≡ (if x == k then n else count_of m k)
  count_of-set m x k n = rw (get-set x k n m) (ground arith)

  pub count_of-tally :
      (m : Map K ℕ) (xs : List K) (k : K) → count_of (tally m xs) k ≡ count_of m k + count k xs
  unfolding tally count
  count_of-tally m [] k = omega arith
  count_of-tally m (x ∷ xs) k = ground (
    arith,
    e.beq_iff x k,
    count_of-set m x k (count_of m x + 1),
    count_of-tally (set x (count_of m x + 1) m) xs k,
  )

  pub count_of-tally_nil : (xs : List K) (k : K) → count_of (tally [] xs) k ≡ count k xs
  unfolding get
  count_of-tally_nil xs k = omega (arith, count_of-tally [] xs k)

  pub count-append : (k : K) (xs ys : List K) → count k (xs ++ ys) ≡ count k xs + count k ys
  unfolding count
  count-append k [] ys = omega arith
  count-append k (x ∷ xs) ys = ground (arith, count-append k xs ys)
