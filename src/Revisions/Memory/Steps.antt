-- ===== src/Revisions/Memory/Steps.antt =====
-- The changes that the operations of `MemoryRevisionStore` are made of, as a step relation, and rules
-- to compose them. The children prove that every operation is a sequence of such steps.
pub mod Revising
pub mod Removing
pub mod Resolving
use brain_mcp_server.Prelude.{
  option_eq, ◌+◌, Bool, true, false, ◌≡◌, refl, ap, sym, ◌∙◌, ◌⊎◌, Option, none, some, Text, arith,
  Bool-cases, inl, inr, if◌then◌else◌, subst, not, ◌==◌, text_eq, find,
}
use brain_mcp_server.Policy.{
  Runtime, Actor, BrainWritePolicy, BrainWriteContext, Verification, Result, ok, err,
}
use brain_mcp_server.Policy.Deployment.{Deployment, write_policy_for_brain}
use brain_mcp_server.Revisions.{
  Origin, Revision, RevisionProposal, RevisionDeletionProposal, RevisionRenameProposal,
  ConflictInput, ConflictResolutionInput, conflict, accepted, unchanged, ConflictRecord,
}
use brain_mcp_server.Revisions.Memory.{
  Store, current_of, revision_name, record_conflict, publish, advance, or_null, id_of,
  set_write_verification, content_of, read_file, key, is_open,
}
use brain_mcp_server.Revisions.Memory.Writes.{
  Call, Written, write_log, write_or_conflict, new_revision, and_logged, conflicted,
  is_same_content, is_stale_base, log_proposal, revision_conflict,
}
use brain_mcp_server.Revisions.Memory.Proposals.{
  apply_admitted, after_admission, apply_fresh, unless_earlier, apply_step, apply_log,
  apply_revision, propose_revision, or_restore, replayed, admission, live_content, earlier,
}
use brain_mcp_server.Revisions.Memory.Removals.{
  propose_deletion, tombstone, delete_current, rename_both, renamed, propose_rename, rename_live,
  rename_to, checked_rename, rename_from, target_conflict, governed_rename, is_live_base,
}
use brain_mcp_server.Revisions.Admission.{assert_replay}
use brain_mcp_server.Revisions.Admission.Kept.{IsKept, admit_revision-IsKept}
use brain_mcp_server.Revisions.Memory.Conflicts.{
  resolve_first, resolve_conflict, finish_resolution, resolve_found, is_reviewed,
  resolution_proposal, is_conflict,
}
use brain_mcp_server.Prelude.Maps.{get-set, get}
use brain_mcp_server.Policy.Queue.{assert_queue_policy}

-- A revision with the next id and the next cursor, whose parent is the head of its file.
pub record IsNext (s : Store) (r : Revision) : Type 0 where
  pub id : r.revision_id ≡ revision_name (s.revision_seq + 1)
  pub cursor : r.cursor ≡ s.cursor_seq + 1
  pub parent :
      (r.parent_revision_id ≡ or_null (id_of (current_of s r.brain_id r.filename)))
      ⊎ (r.parent_revision_id ≡ id_of (current_of s r.brain_id r.filename))

pub data Step (s t : Store) : Type 0 where
  recording : (now : Text) (input : ConflictInput) → t ≡ (record_conflict now input s).1 → Step s t
  publishing : (r : Revision) → IsNext s r → t ≡ publish r (advance s) → Step s t
  verifying :
      (brain_id id : Text) (state : Verification)
      → t ≡ (set_write_verification s brain_id id state).1
      → Step s t
  resolving :
      (brain_id conflict_id id now : Text)
      → t ≡ record s { conflicts = resolve_first brain_id conflict_id id now s.conflicts }
      → Step s t

pub data Steps (s : Store) : Store → Type 0 where
  here : Steps s s
  next : {t u : Store} → Steps s t → Step t u → Steps s u

pub Steps-trans : {s t u : Store} → Steps s t → Steps t u → Steps s u
Steps-trans p here = p
Steps-trans p (next q st) = next (Steps-trans p q) st

pub Steps-if :
    {A : Type 0} {s : Store} (b : Bool) (v w : A × Store)
    → Steps s v.1
    → Steps s w.1
    → Steps s (if b then v else w).1
Steps-if true v w p q = p
Steps-if false v w p q = q

-- The same where a branch needs its test.
pub Steps-cases :
    {A : Type 0} {s : Store} (b : Bool) (v w : A × Store)
    → (b ≡ true → Steps s v.1)
    → (b ≡ false → Steps s w.1)
    → Steps s (if b then v else w).1
Steps-cases true v w p q = p refl
Steps-cases false v w p q = q refl

pub recorded :
    (s : Store) (now : Text) (input : ConflictInput) → Steps s (record_conflict now input s).1
recorded s now input = next here (recording now input refl)
