-- ===== src/Sync.antt =====
-- The state that the local sync agent keeps, its report and its view of the revision store: src/sync/types.ts
-- and the head of src/sync/local-sync-agent.ts.
pub mod Deletions
mod Tests
pub mod Pull
use brain_mcp_server.Prelude.{
  false, text_beq, ◌≡◌, refl, ℕ, Option, none, some, List, [], ◌∷◌, Text, codes, Bool,
}
use brain_mcp_server.Prelude.Maps.{Map}
use brain_mcp_server.Policy.{ok, err, Actor, Code, Result}
use brain_mcp_server.Revisions.{
  Revision, FileHead, RevisionDeletionProposal, RevisionProposalResult, ConflictInput,
  ConflictRecord, ConflictStatus,
}

pub record LocalFileSyncState : Type 0 where
  pub revision_id : Option Text
  pub content_hash : Option Text
  pub local_hash : Option Text

-- A local file that a policy holds back. The sentence `next` is left out.
pub record AdmissionHold : Type 0 where
  pub fingerprint : Text
  pub local_hash : Text
  pub code : Code

-- `version` is always 1. The cursor is the number that its text holds, and an absent table of holds is
-- an empty one.
pub record LocalSyncState : Type 0 where
  pub client_id : Text
  pub cursor : Option ℕ
  pub files : Map Text LocalFileSyncState
  pub pending_deletions : Option (List Text)
  pub admission_holds : Map Text AdmissionHold

-- The reasons for `guardTripped`.
pub data Guard : Type 0 where
  empty_scan health_marker_missing : Guard
  mass_delete : (confirmed tracked : ℕ) → Guard
  incomplete_scan : Guard
  local_recovery : Text → Guard

-- `timings` are left out.
pub record LocalSyncReport : Type 0 where
  pub excluded_source_files : List Text
  pub admission_held : List (Text × Code)
  pub pushed : List Text
  pub pulled : List Text
  pub unchanged : List Text
  pub conflicts : List ConflictRecord
  pub deleted : List Text
  pub deletions_skipped : List Text
  pub guard_tripped : Option Guard

abbrev pub empty_report : LocalSyncReport
empty_report = record {
  excluded_source_files = [];
  admission_held = [];
  pushed = [];
  pulled = [];
  unchanged = [];
  conflicts = [];
  deleted = [];
  deletions_skipped = [];
  guard_tripped = none;
}

abbrev pub health_marker_files : List Text
health_marker_files = codes "00_loader.md" ∷ codes "NOW.md" ∷ []

-- The part of the interface `RevisionStore` that the agent's deletions and pulls call, over a store of
-- any kind.
pub record RevisionStore (S : Type 0) : Type 0 where
  pub get_head : Text → Text → S → Option FileHead
  pub read_revision : Text → Text → S → Option Revision
  pub list_files : Text → S → List FileHead
  pub list_conflicts : Text → Option ConflictStatus → S → List ConflictRecord
  pub propose_deletion : RevisionDeletionProposal → S → Result RevisionProposalResult × S
  pub record_conflict : ConflictInput → S → ConflictRecord × S

-- The agent's options, less the paths, with the limits of `syncDeleteLimits`.
pub record SyncOptions : Type 0 where
  pub brain_id : Text
  pub actor : Option Actor
  pub include_files : List Text
  pub max_deletes : ℕ
  -- `(confirmed / tracked) * 100 > maxPct`, computed in floating point
  pub is_above_pct : ℕ → ℕ → Bool

-- What `mutateLocalFile` answers: done, or an edit that was made meanwhile and has been preserved.
pub data Mutation : Type 0 where
  done : Mutation
  preserved : (recovery_path : Text) (current_hash : Option Text) → Mutation

-- The local files as the agent uses them, over a disk of any kind: `safeMarkdownPath` (whether it
-- throws), `readFileHash`, and `mutateLocalFile` with a new content (none removes the file) and with the
-- hash that it expects to find.
pub record LocalFiles (D : Type 0) : Type 0 where
  pub is_safe_path : Text → Bool
  pub read_hash : Text → D → Option Text
  pub mutate : Text → Option Text → Option Text → D → Mutation × D

-- A change of one file leaves the others alone.
pub record IsSeparate {D : Type 0} (local : LocalFiles D) : Type 0 where
  pub others :
      (f g : Text) (content expected : Option Text) (d : D)
      → text_beq f g ≡ false
      → local.read_hash g (local.mutate f content expected d).1 ≡ local.read_hash g d

-- One call after another on a store: an exception leaves the rest out.
abbrev pub and_then : {S A B : Type 0} → Result A × S → (A → S → Result B × S) → Result B × S
and_then (err e, s) k = (err e, s)
and_then (ok a, s) k = k a s

pub and_then-eq-ok :
    {S A B : Type 0} (m : Result A × S) (k : A → S → Result B × S) (b : B) (u : S)
    → and_then m k ≡ (ok b, u)
    → (a : A) × (s : S) × (m ≡ (ok a, s)) × (k a s ≡ (ok b, u))
and_then-eq-ok (err e, s) k b u h = cc
and_then-eq-ok (ok a, s) k b u h = (a, s, refl, h)
