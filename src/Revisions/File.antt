-- ===== src/Revisions/File.antt =====
-- src/sync/file-revision-store.ts: the revision store in a JSON file. Every operation loads the store,
-- runs the one of the memory store, and saves the result if it changes the store and did not throw.
pub mod Durable
pub mod Verified
mod Tests
use brain_mcp_server.Prelude.{
  ℕ, Bool, true, false, ◌==◌, nat_eq, Option, Text, text_eq, if◌then◌else◌, List,
}
use brain_mcp_server.Prelude.Maps.{keys}
use brain_mcp_server.Policy.{
  Runtime, Verification, Result, ok, err, store_unreadable, unsupported_version,
}
use brain_mcp_server.Policy.Deployment.{Deployment}
use brain_mcp_server.Revisions.{
  Revision, FileHead, RevisionProposal, RevisionDeletionProposal, RevisionRenameProposal,
  RevisionProposalResult, ConflictInput, ConflictRecord, ConflictStatus, ConflictResolutionInput,
  ChangeRecord,
}
use brain_mcp_server.Revisions.Memory.{
  Store, empty, get_head, read_file, list_files, read_revision, find_write_operation,
  set_write_verification, record_conflict,
}
use brain_mcp_server.Revisions.Memory.Writes.{Call}
use brain_mcp_server.Revisions.Memory.Proposals.{propose_revision}
use brain_mcp_server.Revisions.Memory.Removals.{propose_deletion, propose_rename}
use brain_mcp_server.Revisions.Memory.Conflicts.{list_conflicts, resolve_conflict, list_changes}

-- The file: missing, not JSON or not readable, or a version with a snapshot.
pub data StoreFile : Type 0 where
  absent unreadable : StoreFile
  holds : (version : ℕ) → Store → StoreFile

-- `new MemoryRevisionStore(data)` of parsed JSON: no head is the same object as its revision.
abbrev pub reparsed : Store → Store
reparsed s = record s { parsed = keys s.revisions }

unfoldable pub load : StoreFile → Result Store
load absent = ok empty
load unreadable = err store_unreadable
load (holds version s) = if version == 1 then ok (reparsed s) else err unsupported_version

abbrev pub saved {ℓ} : {A : Type ℓ} → Bool → StoreFile → Result A × Store → Result A × StoreFile
saved write file (err e, s) = (err e, file)
saved true file (ok a, s) = (ok a, holds 1 s)
saved false file (ok a, s) = (ok a, file)

abbrev pub run_loaded {ℓ} :
    {A : Type ℓ}
    → Bool
    → (Store → Result A × Store)
    → StoreFile
    → Result Store
    → Result A × StoreFile
run_loaded write f file (err e) = (err e, file)
run_loaded write f file (ok s) = saved write file (f s)

-- `withStore`
unfoldable pub with_store {ℓ} :
    {A : Type ℓ} → Bool → (Store → Result A × Store) → StoreFile → Result A × StoreFile
with_store write f file = run_loaded write f file (load file)

-- An operation that does not throw, and one that only reads.
abbrev pub without_error {ℓ} : {A : Type ℓ} → (Store → A × Store) → Store → Result A × Store
without_error f s = let (a, t) = f s in (ok a, t)

abbrev pub reading {ℓ} : {A : Type ℓ} → (Store → A) → Store → Result A × Store
reading f s = (ok (f s), s)

-- The operations of `FileRevisionStore` that read, named like those that they load the store for.
unfoldable pub get_stored_head : Text → Text → StoreFile → Result (Option FileHead) × StoreFile
get_stored_head brain_id filename = with_store false (reading (λ s. get_head s brain_id filename))

unfoldable pub read_stored_file : Text → Text → StoreFile → Result Revision × StoreFile
read_stored_file brain_id filename = with_store false (λ s. (read_file s brain_id filename, s))

unfoldable pub list_stored_files :
    Runtime → Text → Bool → StoreFile → Result (List FileHead) × StoreFile
list_stored_files rt brain_id include_deleted =
    with_store false (reading (λ s. list_files rt s brain_id include_deleted))

unfoldable pub read_stored_revision : Text → Text → StoreFile → Result (Option Revision) × StoreFile
read_stored_revision brain_id id = with_store false (reading (λ s. read_revision s brain_id id))

unfoldable pub find_stored_operation :
    Text → Text → StoreFile → Result (Option Revision) × StoreFile
find_stored_operation brain_id id =
    with_store false (reading (λ s. find_write_operation s brain_id id))

unfoldable pub list_stored_conflicts :
    Text → Option ConflictStatus → StoreFile → Result (List ConflictRecord) × StoreFile
list_stored_conflicts brain_id status =
    with_store false (reading (λ s. list_conflicts s brain_id status))

unfoldable pub list_stored_changes :
    Text → Option ℕ → StoreFile → Result (List ChangeRecord × Option ℕ) × StoreFile
list_stored_changes brain_id since = with_store false (reading (λ s. list_changes s brain_id since))

-- The operations that write.
unfoldable pub revise_stored :
    Runtime
    → Deployment
    → Call
    → RevisionProposal
    → StoreFile
    → Result RevisionProposalResult × StoreFile
revise_stored rt d call input = with_store true (propose_revision rt d call input)

unfoldable pub delete_stored :
    Call → RevisionDeletionProposal → StoreFile → Result RevisionProposalResult × StoreFile
delete_stored call input = with_store true (without_error (propose_deletion call input))

unfoldable pub rename_stored :
    Runtime
    → Deployment
    → Call
    → RevisionRenameProposal
    → StoreFile
    → Result RevisionProposalResult × StoreFile
rename_stored rt d call input = with_store true (propose_rename rt d call input)

unfoldable pub resolve_stored :
    Runtime → Deployment → Call → ConflictResolutionInput → StoreFile → Result Revision × StoreFile
resolve_stored rt d call input = with_store true (resolve_conflict rt d call input)

unfoldable pub record_stored_conflict :
    Text → ConflictInput → StoreFile → Result ConflictRecord × StoreFile
record_stored_conflict now input = with_store true (without_error (record_conflict now input))

unfoldable pub verify_stored :
    Text → Text → Verification → StoreFile → Result (Unit {0}) × StoreFile
verify_stored brain_id id state = with_store true (λ s. set_write_verification s brain_id id state)
