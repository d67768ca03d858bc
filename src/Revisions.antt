-- ===== src/Revisions.antt =====
-- src/sync/types.ts: the records of the revision store. Hashes, ids and times are texts; a cursor, which
-- the program only compares as a number, is the number that its text denotes.
pub mod Admission
pub mod Memory
pub mod File
use brain_mcp_server.Prelude.{
  ℕ, ◌+◌, Bool, true, false, ◌&&◌, Option, none, some, List, [], ◌∷◌, Text, split, length, leb, ltb,
  if◌then◌else◌,
}
use brain_mcp_server.Policy.{Actor, BrainWriteContext}

pub data Origin : Type 0 where
  local_agent hosted_mcp import system : Origin

-- `RevisionContent`. A revision is a tombstone if it is `deleted`.
pub record Revision : Type 0 where
  pub brain_id : Text
  pub filename : Text
  pub revision_id : Text
  pub parent_revision_id : Option Text
  pub content_hash : Text
  pub updated_at : Text
  pub origin : Origin
  pub actor : Option Actor
  pub cursor : ℕ
  pub deleted : Bool
  pub renamed_from : Option Text
  pub renamed_to : Option Text
  pub content : Text
  pub write_context : Option BrainWriteContext

pub record FileHead : Type 0 where
  pub brain_id : Text
  pub filename : Text
  pub revision_id : Text
  pub content_hash : Text
  pub line_count : ℕ
  pub byte_count : ℕ
  pub updated_at : Text
  pub origin : Origin
  pub actor : Option Actor
  pub cursor : ℕ
  pub deleted : Bool
  pub renamed_from : Option Text
  pub renamed_to : Option Text

pub record RevisionProposal : Type 0 where
  pub write_context : Option BrainWriteContext
  pub brain_id : Text
  pub filename : Text
  pub base_revision_id : Option Text
  pub content : Text
  pub origin : Origin
  pub actor : Option Actor

pub record RevisionDeletionProposal : Type 0 where
  pub brain_id : Text
  pub filename : Text
  pub base_revision_id : Option Text
  pub origin : Origin
  pub actor : Option Actor

pub record RevisionRenameProposal : Type 0 where
  pub brain_id : Text
  pub from : Text
  pub to : Text
  pub base_revision_id : Option Text
  pub origin : Origin
  pub actor : Option Actor

pub record ConflictInput : Type 0 where
  pub brain_id : Text
  pub filename : Text
  pub local_base_revision_id : Option Text
  pub remote_head_revision_id : Option Text
  pub local_content_hash : Text
  pub remote_content_hash : Option Text
  pub local_origin : Origin
  pub remote_origin : Option Origin
  pub local_actor : Option Actor
  pub remote_actor : Option Actor

pub data ConflictStatus : Type 0 where
  opened resolved superseded : ConflictStatus

pub record ConflictRecord : Type 0 where
  pub input : ConflictInput
  pub open input use *
  pub conflict_id : Text
  pub created_at : Text
  pub status : ConflictStatus
  pub resolution_revision_id : Option Text
  pub resolved_at : Option Text

-- `RevisionAccepted` with its two statuses, and `RevisionConflict`.
pub data RevisionProposalResult : Type 0 where
  accepted unchanged : FileHead → Revision → RevisionProposalResult
  conflict : ConflictRecord → Option FileHead → RevisionProposalResult

pub record ConflictResolutionInput : Type 0 where
  pub expected_revision_id : Option Text
  pub brain_id : Text
  pub conflict_id : Text
  pub content : Text
  pub actor : Option Actor

pub record ChangeRecord : Type 0 where
  pub cursor : ℕ
  pub brain_id : Text
  pub filename : Text
  pub revision_id : Text
  pub content_hash : Text
  pub updated_at : Text
  pub origin : Origin
  pub actor : Option Actor

-- `Buffer.byteLength(s, "utf-8")`: a pair of surrogates takes four bytes, a lone one three.
abbrev unit_bytes : ℕ → ℕ
unit_bytes c = if ltb c 0x80 then 1 else if ltb c 0x800 then 2 else 3

abbrev is_pair : ℕ → ℕ → Bool
is_pair c d = leb 0xd800 c && leb c 0xdbff && leb 0xdc00 d && leb d 0xdfff

unfoldable pub byte_length : Text → ℕ
byte_length [] = 0
byte_length (c ∷ []) = unit_bytes c
byte_length (c ∷ d ∷ s) =
    let pair = 4 + byte_length s in
    let single = unit_bytes c + byte_length (d ∷ s) in if is_pair c d then pair else single

-- `headOf` of src/sync/memory-revision-store.ts.
unfoldable pub head_of : Revision → FileHead
unfolding split byte_length
head_of r = record {
  brain_id = r.brain_id;
  filename = r.filename;
  revision_id = r.revision_id;
  content_hash = r.content_hash;
  line_count = if r.deleted then 0 else length (split 10 r.content);
  byte_count = if r.deleted then 0 else byte_length r.content;
  updated_at = r.updated_at;
  origin = r.origin;
  actor = r.actor;
  cursor = r.cursor;
  deleted = r.deleted;
  renamed_from = r.renamed_from;
  renamed_to = r.renamed_to;
}
