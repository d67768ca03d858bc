-- ===== src/Revisions/File/Durable.antt =====
-- The file of src/sync/file-revision-store.ts over any sequence of its writes.
use brain_mcp_server.Prelude.{◌≡◌, refl, true, Text, text_eq, ◌==◌, nat_eq, Bool-cases, inl, inr}
use brain_mcp_server.Policy.{Runtime, Verification, Result, ok, err}
use brain_mcp_server.Policy.Deployment.{Deployment}
use brain_mcp_server.Revisions.{
  RevisionProposal, RevisionDeletionProposal, RevisionRenameProposal, ConflictInput,
  ConflictResolutionInput,
}
use brain_mcp_server.Revisions.Memory.{Store, empty, set_write_verification}
use brain_mcp_server.Revisions.Memory.Writes.{Call}
use brain_mcp_server.Revisions.Memory.Steps.{Steps, here, next, recorded, verifying}
use brain_mcp_server.Revisions.Memory.Steps.Revising.{propose_revision-Steps}
use brain_mcp_server.Revisions.Memory.Steps.Removing.{propose_deletion-Steps, propose_rename-Steps}
use brain_mcp_server.Revisions.Memory.Steps.Resolving.{resolve_conflict-Steps}
use brain_mcp_server.Revisions.Memory.Invariant.{
  IsWellFormed, IsWellFormed-empty, Steps-IsWellFormed,
}
use brain_mcp_server.Revisions.File.{
  StoreFile, absent, unreadable, holds, reparsed, load, saved, with_store, revise_stored,
  delete_stored, rename_stored, resolve_stored, record_stored_conflict, verify_stored,
}

-- What is in the file is well formed.
abbrev pub IsSoundFile : StoreFile → Type 0
IsSoundFile absent = Unit
IsSoundFile unreadable = Unit
IsSoundFile (holds version s) = IsWellFormed s

-- One write of the file store.
pub data FileStep (f g : StoreFile) : Type 0 where
  revising :
      (rt : Runtime) (d : Deployment) (call : Call) (input : RevisionProposal)
      → g ≡ (revise_stored rt d call input f).1
      → FileStep f g
  deleting :
      (call : Call) (input : RevisionDeletionProposal)
      → g ≡ (delete_stored call input f).1
      → FileStep f g
  renaming :
      (rt : Runtime) (d : Deployment) (call : Call) (input : RevisionRenameProposal)
      → g ≡ (rename_stored rt d call input f).1
      → FileStep f g
  resolving_stored :
      (rt : Runtime) (d : Deployment) (call : Call) (input : ConflictResolutionInput)
      → g ≡ (resolve_stored rt d call input f).1
      → FileStep f g
  recording_stored :
      (now : Text) (input : ConflictInput)
      → g ≡ (record_stored_conflict now input f).1
      → FileStep f g
  verifying_stored :
      (brain_id id : Text) (state : Verification)
      → g ≡ (verify_stored brain_id id state f).1
      → FileStep f g

pub data FileSteps (f : StoreFile) : StoreFile → Type 0 where
  start : FileSteps f f
  after : {g h : StoreFile} → FileSteps f g → FileStep g h → FileSteps f h

saved-IsSoundFile :
    {A : Type 0} (file : StoreFile) (w : Result A × Store)
    → IsSoundFile file
    → IsWellFormed w.1
    → IsSoundFile (saved true file w).1
saved-IsSoundFile file (err e, s) i w = i
saved-IsSoundFile file (ok a, s) i w = w

with_store-IsSoundFile :
    {A : Type 0} (f : Store → Result A × Store)
    → ((s : Store) → Steps s (f s).1)
    → (file : StoreFile) → IsSoundFile file
    → IsSoundFile (with_store true f file).1
unfolding with_store load
with_store-IsSoundFile f steps absent i =
    saved-IsSoundFile absent (f empty) tt (Steps-IsWellFormed (steps empty) IsWellFormed-empty)
with_store-IsSoundFile f steps unreadable i = tt
with_store-IsSoundFile f steps (holds version s) i = elim (Bool-cases (version == 1)) [
  | inl current ↦ rw current (
      saved-IsSoundFile (holds version s) (f (reparsed s)) i (
        Steps-IsWellFormed (steps (reparsed s)) (record {
          heads_ok = i.heads_ok;
          revisions_ok = i.revisions_ok;
          changes_ok = i.changes_ok;
        })))
  | inr other ↦ rw other i
]

verified :
    (s : Store) (brain_id id : Text) (state : Verification)
    → Steps s (set_write_verification s brain_id id state).1
verified s brain_id id state = next here (verifying brain_id id state refl)

FileStep-IsSoundFile : {f g : StoreFile} → FileStep f g → IsSoundFile f → IsSoundFile g
unfolding revise_stored delete_stored rename_stored resolve_stored record_stored_conflict
    verify_stored
FileStep-IsSoundFile {f} (revising rt d call input e) i =
    rw e (with_store-IsSoundFile _ (propose_revision-Steps rt d call input) f i)
FileStep-IsSoundFile {f} (deleting call input e) i =
    rw e (with_store-IsSoundFile _ (propose_deletion-Steps call input) f i)
FileStep-IsSoundFile {f} (renaming rt d call input e) i =
    rw e (with_store-IsSoundFile _ (propose_rename-Steps rt d call input) f i)
FileStep-IsSoundFile {f} (resolving_stored rt d call input e) i =
    rw e (with_store-IsSoundFile _ (resolve_conflict-Steps rt d call input) f i)
FileStep-IsSoundFile {f} (recording_stored now input e) i =
    rw e (with_store-IsSoundFile _ (λ s. recorded s now input) f i)
FileStep-IsSoundFile {f} (verifying_stored brain_id id state e) i =
    rw e (with_store-IsSoundFile _ (λ s. verified s brain_id id state) f i)

-- Whatever writes a file store goes through, loads and failures included, the file that it keeps holds a
-- well-formed store, where it did so at first.
pub FileSteps-IsSoundFile : {f g : StoreFile} → FileSteps f g → IsSoundFile f → IsSoundFile g
FileSteps-IsSoundFile start i = i
FileSteps-IsSoundFile (after p st) i = FileStep-IsSoundFile st (FileSteps-IsSoundFile p i)
