-- ===== src/Revisions/Memory/Steps/Removing.antt =====
-- `proposeDeletion` and `proposeRename` of src/sync/memory-revision-store.ts are sequences of steps.
use brain_mcp_server.Prelude.{
  option_eq, true, false, ◌≡◌, refl, ap, sym, ◌∙◌, Option, none, some, Text, arith, Bool-cases, inl,
  inr, not, ◌==◌, text_eq,
}
use brain_mcp_server.Policy.{Runtime, Actor, BrainWritePolicy, Result, ok, err}
use brain_mcp_server.Policy.Deployment.{Deployment, write_policy_for_brain}
use brain_mcp_server.Revisions.{Origin, Revision, RevisionDeletionProposal, RevisionRenameProposal}
use brain_mcp_server.Revisions.Memory.{Store, current_of, publish, advance, content_of, key}
use brain_mcp_server.Revisions.Memory.Writes.{Call}
use brain_mcp_server.Revisions.Memory.Removals.{
  propose_deletion, tombstone, delete_current, rename_both, renamed, propose_rename, rename_live,
  rename_to, checked_rename, rename_from, target_conflict, governed_rename, is_live_base,
}
use brain_mcp_server.Prelude.Maps.{get-set, get}
use brain_mcp_server.Policy.Queue.{assert_queue_policy}
use brain_mcp_server.Revisions.Memory.Steps.{
  IsNext, publishing, Steps, here, next, Steps-if, Steps-cases, recorded,
}

module _ (call : Call) where
  tombstone-IsNext :
      (brain_id filename : Text) (origin : Origin) (actor : Option Actor) (current : Revision)
      (to : Option Text) (s : Store)
      → current_of s brain_id filename ≡ some current
      → IsNext s (tombstone call brain_id filename origin actor current to s)
  unfolding tombstone
  tombstone-IsNext brain_id filename origin actor current to s h = record {
    id = refl;
    cursor = refl;
    parent = inr (rw h);
  }

  -- A deletion is a sequence of the steps of `Step`: a conflict is recorded, or one revision is
  -- published over the head of its file, or nothing happens.
  pub propose_deletion-Steps :
      (input : RevisionDeletionProposal) (s : Store) → Steps s (propose_deletion call input s).1
  unfolding propose_deletion
  propose_deletion-Steps input s = of (current_of s input.brain_id input.filename) refl
    where
      of :
          (c : Option Revision)
          → current_of s input.brain_id input.filename ≡ c
          → Steps s (delete_current call input c s).1
      of none h = unfold delete_current in recorded s call.now _
      of (some c) h =
          unfold delete_current in
          Steps-if c.deleted _ _ here (
            Steps-if (not (input.base_revision_id == some c.revision_id)) _ _
              (recorded s call.now _)
              (next here (
                publishing _
                  (tombstone-IsNext input.brain_id input.filename input.origin input.actor c none s
                    h)
                  refl)))

-- The new name of a rename is free: it has no head, or a tombstone.
abbrev IsFree : Option Revision → Type 0
IsFree none = Unit
IsFree (some r) = r.deleted ≡ true

module _ (call : Call) (input : RevisionRenameProposal) (from : Revision) (to : Option Revision)
    (s : Store) (at_from : current_of s input.brain_id input.from ≡ some from)
    (live : from.deleted ≡ false) (at_to : current_of s input.brain_id input.to ≡ to)
    (free : IsFree to) where
  renamed-IsNext : IsNext s (renamed call input from to s)
  unfolding renamed
  renamed-IsNext = record { id = refl; cursor = refl; parent = inl (rw at_to) }

  -- The write of the new name leaves the head of the old one.
  at_from_still :
      current_of (publish (renamed call input from to s) (advance s)) input.brain_id input.from
      ≡ some from
  unfolding publish renamed
  at_from_still =
      let k = key input.brain_id input.to in
      let j = key input.brain_id input.from in
      rw (get-set k j (renamed call input from to s) s.heads) (elim (Bool-cases (k == j)) [
        | inl same ↦ absurd (
            clash to free
              (sym at_to ∙ ap (λ x. get x s.heads) ((text_eq.beq_iff k j).0 same) ∙ at_from))
        | inr other ↦ rw other at_from
      ])
    where
      clash : (t : Option Revision) → IsFree t → t ≡ some from → ⊥
      clash none f e = cc
      clash (some r) f e = ground arith

  rename_both-Steps : Steps s (rename_both call input from to s)
  unfolding rename_both
  rename_both-Steps = next (next here (publishing _ renamed-IsNext refl)) (
      publishing _
        (tombstone-IsNext call input.brain_id input.from input.origin input.actor from
          (some input.to) (publish (renamed call input from to s) (advance s)) at_from_still)
        refl)

module _ (rt : Runtime) (d : Deployment) (call : Call) (input : RevisionRenameProposal) where
  rename_live-Steps :
      (from : Revision) (to : Option Revision) (s : Store)
      → Steps s (rename_both call input from to s)
      → Steps s (rename_live rt d call input from to s).1
  unfolding rename_live
  rename_live-Steps from to s steps = of (write_policy_for_brain rt d input.brain_id)
    where
      of_checked : (m : Result (Unit {0})) → Steps s (checked_rename call input from to m s).1
      of_checked (err e) = here
      of_checked (ok _) = steps

      of :
          (m : Result (Option BrainWritePolicy))
          → Steps s (governed_rename rt call input from to m s).1
      of (err e) = here
      of (ok policy) =
          of_checked
            (assert_queue_policy rt input.brain_id policy input.to (content_of to) from.content)

  rename_to-Steps :
      (from : Revision) (to : Option Revision) (s : Store)
      → current_of s input.brain_id input.from ≡ some from
      → from.deleted ≡ false
      → current_of s input.brain_id input.to ≡ to
      → Steps s (rename_to rt d call input from to s).1
  unfolding rename_to
  rename_to-Steps from none s a l t =
      rename_live-Steps from none s (rename_both-Steps call input from none s a l t tt)
  rename_to-Steps from (some r) s a l t =
      Steps-cases r.deleted _ _
        (λ gone.
          rename_live-Steps from (some r) s
            (rename_both-Steps call input from (some r) s a l t gone))
        (λ taken. recorded s call.now (target_conflict input from r))

  -- A renaming is a sequence of the steps of `Step`: both of its revisions have the next ids and cursors,
  -- and each has the head of its own file as its parent.
  pub propose_rename-Steps : (s : Store) → Steps s (propose_rename rt d call input s).1
  unfolding propose_rename
  propose_rename-Steps s = of (current_of s input.brain_id input.from) refl
    where
      of :
          (c : Option Revision)
          → current_of s input.brain_id input.from ≡ c
          → Steps s (rename_from rt d call input c s).1
      of none h = unfold rename_from in recorded s call.now _
      of (some from) h =
          unfold rename_from in
          elim (Bool-cases (is_live_base input.base_revision_id (some from))) [
            | inl live ↦ rw live (
                rename_to-Steps from (current_of s input.brain_id input.to) s h
                  (unfold is_live_base in ground arith) refl)
            | inr stale ↦ rw stale (recorded s call.now _)
          ]
