-- ===== src/Policy/Queue/Quota.antt =====
-- When `assertQueuePolicy` of src/services/write-policy.ts lets a change of a queue file pass.
use brain_mcp_server.Prelude.{
  ℕ, ◌≤◌, ◌≡◌, ◌↔◌, refl, true, false, some, List, [], ◌∷◌, Text, text_eq, ◌==◌, arith, inl, inr,
  ℕ-cases, Bool-cases,
}
use brain_mcp_server.Prelude.Maps.{Map, set}
use brain_mcp_server.Prelude.Counts.{count, count_of, tally, count_of-set, count_of-tally_nil}
use brain_mcp_server.Policy.{Runtime, BrainWritePolicy, retired, ok}
use brain_mcp_server.Policy.Queue.{
  exceeds, adds_queue_block, active_queue_blocks, task_path, assert_queue_policy,
}

exceeds_sound :
    (m : Map Text ℕ) (xs : List Text)
    → exceeds m xs ≡ false
    → (b : Text) → count b xs ≤ count_of m b
unfolding exceeds count
exceeds_sound m [] h b = omega arith
exceeds_sound m (x ∷ xs) h b = elim (ℕ-cases (count_of m x)) [
  | inl e ↦ ground arith
  | inr (n, e) ↦ ground (
    arith,
    text_eq.beq_iff x b,
    count_of-set m x b n,
    λ (p : exceeds (set x n m) xs ≡ false). exceeds_sound (set x n m) xs p b,
  )
]

exceeds_complete :
    (m : Map Text ℕ) (xs : List Text)
    → ((b : Text) → count b xs ≤ count_of m b)
    → exceeds m xs ≡ false
unfolding exceeds count
exceeds_complete m [] h = refl
exceeds_complete m (x ∷ xs) h = elim (ℕ-cases (count_of m x)) [
  | inl e ↦ ground (arith, text_eq.beq_iff x x, h x)
  | inr (n, e) ↦
      rw (e, exceeds)
        (exceeds_complete (set x n m) xs
          (λ b. ground (arith, text_eq.beq_iff x b, count_of-set m x b n, h b)))
]

adds_queue_block_iff :
    (before after : Text)
    → (adds_queue_block before after ≡ false) ↔ (
        (block : Text)
        → count block (active_queue_blocks after) ≤ count block (active_queue_blocks before))
unfolding adds_queue_block
adds_queue_block_iff before after =
    let old = active_queue_blocks before in
    let new = active_queue_blocks after in
    (
      λ h b. rw (← count_of-tally_nil old b) (exceeds_sound (tally [] old) new h b),
      λ h. exceeds_complete (tally [] old) new (λ b. rw (count_of-tally_nil old b) (h b)),
    )

-- Under a policy that retired the general intake, a change of a queue file passes exactly if every
-- active block occurs in the new text at most as often as in the old one.
pub assert_queue_policy-retired_iff :
    (rt : Runtime) (brain_id : Text) (policy : BrainWritePolicy) (filename before after : Text)
    → policy.intake ≡ retired
    → task_path rt policy filename ≡ true
    → (assert_queue_policy rt brain_id (some policy) filename before after ≡ ok tt) ↔ (
        (block : Text)
        → count block (active_queue_blocks after) ≤ count block (active_queue_blocks before))
unfolding assert_queue_policy
assert_queue_policy-retired_iff rt brain_id policy filename before after r p =
    elim (Bool-cases (before == after)) [
      | inl same ↦
          (λ _ block. rw ((text_eq.beq_iff before after).0 same) (omega arith), λ _. ground arith)
      | inr other ↦ (
        λ h. (adds_queue_block_iff before after).0 (ground arith),
        λ h. let quiet = (adds_queue_block_iff before after).1 h in ground arith,
      )
    ]
