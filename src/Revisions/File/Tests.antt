-- ===== src/Revisions/File/Tests.antt =====
-- Runs of src/sync/file-revision-store.ts on concrete inputs.
use brain_mcp_server.Prelude.{◌≡◌, refl, none, codes, true}
use brain_mcp_server.Policy.{err, Error, verified}
use brain_mcp_server.Policy.Tests.{test_runtime}
use brain_mcp_server.Revisions.Memory.Conflicts.{resolve_conflict}
use brain_mcp_server.Revisions.Memory.Tests.{no_policy, test_call, proposal, resolution, first}
use brain_mcp_server.Revisions.File.{
  StoreFile, absent, holds, load, with_store, revise_stored, verify_stored,
}
use brain_mcp_server.Revisions.File.Durable.{
  IsSoundFile, FileSteps, start, after, revising, FileSteps-IsSoundFile,
}
use brain_mcp_server.Revisions.File.Verified.{heads_of, verify_stored-heads}

abbrev first_file : StoreFile
first_file = (revise_stored test_runtime no_policy test_call (proposal none (codes "x")) absent).1

first_file-FileSteps : FileSteps absent first_file
first_file-FileSteps =
    after start (revising test_runtime no_policy test_call (proposal none (codes "x")) refl)

FileSteps-IsSoundFile_example : IsSoundFile first_file
FileSteps-IsSoundFile_example = FileSteps-IsSoundFile first_file-FileSteps tt

verify_stored-heads_example :
    heads_of (verify_stored (codes "b") (codes "rev_1") verified (holds 1 first)).1
    ≡ heads_of (holds 1 first)
verify_stored-heads_example =
    verify_stored-heads (codes "b") (codes "rev_1") verified (holds 1 first)

failed_test :
    (with_store true (resolve_conflict test_runtime no_policy test_call resolution) absent).0
    ≡ err (Error.conflict_not_found (codes "conflict_1"))
unfolding with_store load resolve_conflict
failed_test = refl
