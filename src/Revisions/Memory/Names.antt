-- ===== src/Revisions/Memory/Names.antt =====
-- Keys and generated ids of src/sync/memory-revision-store.ts determine what they are made of.
use brain_mcp_server.Prelude.{
  ℕ, ◌+◌, ◌≤◌, ◌≡◌, refl, false, [], ◌∷◌, ◌++◌, Text, text_eq, ◌==◌, text_beq, text_beq_iff, arith,
  any, nat_eq, Bool-cases, inl, inr, codes,
}
use brain_mcp_server.Prelude.Numbers.{decimal, decimal-injective}
use brain_mcp_server.Revisions.Memory.{key, revision_name, conflict_name}

append-cancel : (p s t : Text) → p ++ s ≡ p ++ t → s ≡ t
append-cancel [] s t h = h
append-cancel (c ∷ p) s t h = append-cancel p s t (cc)

pub revision_name-injective : (m n : ℕ) → revision_name m ≡ revision_name n → m ≡ n
unfolding revision_name
revision_name-injective m n h =
    decimal-injective m n (append-cancel (codes "rev_") (decimal m) (decimal n) h)

pub conflict_name-injective : (m n : ℕ) → conflict_name m ≡ conflict_name n → m ≡ n
unfolding conflict_name
conflict_name-injective m n h =
    decimal-injective m n (append-cancel (codes "conflict_") (decimal m) (decimal n) h)

-- An id that is generated later is another one.
pub revision_name-ne :
    (m n : ℕ) → m ≤ n → text_beq (revision_name (n + 1)) (revision_name m) ≡ false
revision_name-ne m n h = elim (Bool-cases (text_beq (revision_name (n + 1)) (revision_name m))) [
  | inl same ↦ absurd (omega (arith, revision_name-injective (n + 1) m ((text_beq_iff _ _).0 same)))
  | inr other ↦ other
]

pub key-filename : (brain_id f g : Text) → key brain_id f ≡ key brain_id g → f ≡ g
unfolding key
key-filename brain_id f g h = cc (append-cancel brain_id (0 ∷ f) (0 ∷ g) h)

-- A Brain id without the separating character.
abbrev pub HasNoNul : Text → Type 0
HasNoNul s = any (λ c. c == 0) s ≡ false

pub key-brain : (b c f g : Text) → HasNoNul b → HasNoNul c → key b f ≡ key c g → (b ≡ c) × (f ≡ g)
unfolding key
key-brain [] [] f g hb hc h = (refl, cc)
key-brain [] (x ∷ c) f g hb hc h = let zero : x ≡ 0 = cc in ground arith
key-brain (x ∷ b) [] f g hb hc h = let zero : x ≡ 0 = cc in ground arith
key-brain (x ∷ b) (y ∷ c) f g hb hc h =
    let (same, rest) = key-brain b c f g (ground arith) (ground arith) (cc) in
    let first : x ≡ y = cc in (cc, rest)
