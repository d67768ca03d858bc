-- ===== src/Revisions/Memory/Removed.antt =====
-- What `proposeDeletion` and `proposeRename` of src/sync/memory-revision-store.ts do to the files.
use brain_mcp_server.Prelude.{
  ◌≡◌, refl, ◌∙◌, true, false, not, Bool, Option, none, some, text_eq, option_eq, ◌==◌,
  if◌then◌else◌, text_beq_refl,
}
use brain_mcp_server.Revisions.{
  Revision, RevisionDeletionProposal, RevisionProposalResult, accepted, unchanged, conflict,
  head_of,
}
use brain_mcp_server.Revisions.Memory.Published.{current_of-publish}
use brain_mcp_server.Revisions.Memory.{Store, key, current_of, publish, advance, record_conflict}
use brain_mcp_server.Revisions.Memory.Writes.{Call}
use brain_mcp_server.Revisions.Memory.Removals.{
  propose_deletion, delete_current, tombstone, deletion_conflict,
}
use brain_mcp_server.Revisions.Memory.Answers.{IsSameFiles, record_conflict-IsSameFiles}

-- A deletion that was accepted: of the live head that it names, which stays in the history as the parent.
pub record IsDeletion (input : RevisionDeletionProposal) (s t : Store) (r : Revision) : Type 0 where
  pub deleted_head : Revision
  pub was_head : current_of s input.brain_id input.filename ≡ some deleted_head
  pub was_live : deleted_head.deleted ≡ false
  pub base : input.base_revision_id ≡ some deleted_head.revision_id
  pub parent : r.parent_revision_id ≡ some deleted_head.revision_id
  pub gone : r.deleted ≡ true
  pub is_head : current_of t input.brain_id input.filename ≡ some r

-- A deletion that conflicts: there is no head, or it is not the base.
abbrev pub IsStaleDeletion : RevisionDeletionProposal → Option Revision → Type 0
IsStaleDeletion input none = Unit
IsStaleDeletion input (some current) =
    (current.deleted ≡ false) × ((input.base_revision_id == some current.revision_id) ≡ false)

abbrev pub DeletionAnswer :
    RevisionDeletionProposal → Store → RevisionProposalResult × Store → Type 0
DeletionAnswer input s (accepted head r, t) = IsDeletion input s t r
DeletionAnswer input s (unchanged head r, t) =
    (current_of s input.brain_id input.filename ≡ some r) × (r.deleted ≡ true) × (t ≡ s)
DeletionAnswer input s (conflict c head, t) =
    IsStaleDeletion input (current_of s input.brain_id input.filename) × IsSameFiles s t

module _ (call : Call) (input : RevisionDeletionProposal) (s : Store) where
  delete_current-DeletionAnswer :
      (current : Option Revision)
      → current_of s input.brain_id input.filename ≡ current
      → DeletionAnswer input s (delete_current call input current s)
  unfolding delete_current
  delete_current-DeletionAnswer none h = (rw h tt, record_conflict-IsSameFiles call.now _ s)
  delete_current-DeletionAnswer (some current) h =
      of current.deleted (input.base_revision_id == some current.revision_id) refl refl
    where
      r : Revision
      r = tombstone call input.brain_id input.filename input.origin input.actor current none s

      of :
          (gone fresh : Bool)
          → current.deleted ≡ gone
          → (input.base_revision_id == some current.revision_id) ≡ fresh
          → DeletionAnswer input s (
              if gone
              then (unchanged (head_of current) current, s)
              else if not fresh
              then (
                conflict
                    (record_conflict call.now
                      (deletion_conflict input.brain_id input.filename input.base_revision_id
                        input.origin input.actor
                        (some current))
                      s).0
                    (some (head_of current)),
                (record_conflict call.now
                    (deletion_conflict input.brain_id input.filename input.base_revision_id
                      input.origin input.actor
                      (some current))
                    s).1,
              )
              else (accepted (head_of r) r, publish r (advance s)))
      of true fresh g f = (h, g, refl)
      of false false g f = (rw h (g, f), record_conflict-IsSameFiles call.now _ s)
      of false true g f = record {
        deleted_head = current;
        was_head = h;
        was_live = g;
        base = (option_eq.beq_iff input.base_revision_id (some current.revision_id)).0 f;
        parent = unfold tombstone in refl;
        gone = unfold tombstone in refl;
        is_head =
            current_of-publish r s input.brain_id input.filename
            ∙ (unfold tombstone in rw (text_beq_refl (key input.brain_id input.filename)) refl);
      }

  -- A deletion is accepted exactly over the live head that it names, and then the file's head is a
  -- tombstone with that head as its parent; a deleted file stays as it is; and where the base is stale
  -- or there is no file, a conflict is the answer and no file changes.
  pub propose_deletion-DeletionAnswer : DeletionAnswer input s (propose_deletion call input s)
  unfolding propose_deletion
  propose_deletion-DeletionAnswer =
      delete_current-DeletionAnswer (current_of s input.brain_id input.filename) refl
