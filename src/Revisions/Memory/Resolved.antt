-- ===== src/Revisions/Memory/Resolved.antt =====
-- What `resolveConflict` of src/sync/memory-revision-store.ts does: the conflict, the head that was reviewed,
-- and the revision that resolves them.
use brain_mcp_server.Prelude.{◌≡◌, ◌⊎◌, Option, some, Text, text_eq, option_eq, find}
use brain_mcp_server.Policy.{Runtime, Result, ok, err}
use brain_mcp_server.Policy.Deployment.{Deployment}
use brain_mcp_server.Revisions.{
  Revision, RevisionProposal, ConflictResolutionInput, ConflictRecord, opened, resolved,
}
use brain_mcp_server.Revisions.Memory.{Store, current_of, or_null, id_of}
use brain_mcp_server.Revisions.Memory.Writes.{Call}
use brain_mcp_server.Revisions.Memory.Conflicts.{resolution_proposal, is_conflict}
use brain_mcp_server.Revisions.Memory.Answers.{IsSameFiles, IsWrite, IsRepeated}

-- The proposal of a resolution: the content that was given, for the file of the conflict, over the head.
pub record IsProposed (input : ConflictResolutionInput) (path : Text) (head : Revision)
    (p : RevisionProposal) : Type 0 where
  pub brain_id : p.brain_id ≡ input.brain_id
  pub filename : p.filename ≡ path
  pub content : p.content ≡ input.content
  pub base : p.base_revision_id ≡ some head.revision_id

-- A conflict that was resolved: it was open, the head of its file was the revision that was reviewed, and the
-- proposal was written over that head, or found to be there. The record of the conflict then tells by which
-- revision and when, and the records of other conflicts stay.
pub record IsResolved (rt : Runtime) (now : Text) (input : ConflictResolutionInput) (s t : Store)
    (r : Revision) : Type 0 where
  pub found : ConflictRecord
  pub is_found : find (is_conflict input.brain_id input.conflict_id) s.conflicts ≡ some found
  pub was_open : found.status ≡ opened
  pub head : Revision
  pub was_head : current_of s input.brain_id found.filename ≡ some head
  pub reviewed : input.expected_revision_id ≡ some head.revision_id
  pub proposed : RevisionProposal
  pub is_proposed : IsProposed input found.filename head proposed
  pub middle : Store
  pub written : IsWrite rt proposed s middle r ⊎ ((middle ≡ s) × IsRepeated rt proposed s r)
  pub files : IsSameFiles middle t
  pub marked :
      find (is_conflict input.brain_id input.conflict_id) t.conflicts
      ≡ some (record found {
        status = resolved;
        resolution_revision_id = some r.revision_id;
        resolved_at = some now;
      })

-- A resolution that fails changes nothing.
abbrev pub ResolutionAnswer :
    Runtime → Text → ConflictResolutionInput → Store → Result Revision × Store → Type 0
ResolutionAnswer rt now input s (ok r, t) = IsResolved rt now input s t r
ResolutionAnswer rt now input s (err e, t) = t ≡ s

-- What a reviewed revision is: the head, with an id that is not empty.
record IsReviewed (expected : Option Text) (current : Option Revision) : Type 0 where
  head : Revision
  is_head : current ≡ some head
  id : expected ≡ some head.revision_id
  base : or_null (id_of current) ≡ some head.revision_id

module _ (rt : Runtime) (d : Deployment) (call : Call) (input : ConflictResolutionInput)
    (s : Store) where
  abbrev proposal_for : (found : ConflictRecord) → RevisionProposal
  proposal_for found =
      resolution_proposal call input found.filename (current_of s input.brain_id found.filename)
