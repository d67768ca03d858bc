-- ===== src/Revisions/Memory/Steps/Resolving.antt =====
-- `resolveConflict` of src/sync/memory-revision-store.ts is a sequence of steps.
use brain_mcp_server.Prelude.{option_eq, refl, Option, none, some, not, text_eq, find}
use brain_mcp_server.Policy.{Runtime, ok, err}
use brain_mcp_server.Policy.Deployment.{Deployment}
use brain_mcp_server.Revisions.{
  ConflictResolutionInput, conflict, accepted, unchanged, ConflictRecord,
}
use brain_mcp_server.Revisions.Memory.{Store, current_of, is_open}
use brain_mcp_server.Revisions.Memory.Writes.{Call, Written}
use brain_mcp_server.Revisions.Memory.Conflicts.{
  resolve_conflict, finish_resolution, resolve_found, is_reviewed, resolution_proposal, is_conflict,
}
use brain_mcp_server.Revisions.Memory.Steps.Revising.{propose_revision-Steps}
use brain_mcp_server.Revisions.Memory.Steps.{resolving, Steps, here, next, Steps-if}

-- The resolution of a conflict is a sequence of the steps of `Step`, on every branch.
pub resolve_conflict-Steps :
    (rt : Runtime) (d : Deployment) (call : Call) (input : ConflictResolutionInput) (s : Store)
    → Steps s (resolve_conflict rt d call input s).1
unfolding resolve_conflict
resolve_conflict-Steps rt d call input s =
    of (find (is_conflict input.brain_id input.conflict_id) s.conflicts)
  where
    finish-Steps : (w : Written) → Steps s w.1 → Steps s (finish_resolution call input w).1
    finish-Steps (err e, t) p = p
    finish-Steps (ok (conflict c head), t) p = p
    finish-Steps (ok (accepted head r), t) p =
        next p (resolving input.brain_id input.conflict_id r.revision_id call.now refl)
    finish-Steps (ok (unchanged head r), t) p =
        next p (resolving input.brain_id input.conflict_id r.revision_id call.now refl)

    of : (c : Option ConflictRecord) → Steps s (resolve_found rt d call input c s).1
    of none = here
    of (some c) =
        let current = current_of s input.brain_id c.filename in
        Steps-if (not (is_open c.status)) _ _ here (
          Steps-if (not (is_reviewed input.expected_revision_id current)) _ _ here (
            finish-Steps _ (
              propose_revision-Steps rt d call (resolution_proposal call input c.filename current)
                s)))
