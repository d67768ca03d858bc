-- ===== src/Revisions/Memory/Conflicts.antt =====
-- `listConflicts`, `resolveConflict` and `listChanges` of src/sync/memory-revision-store.ts.
use brain_mcp_server.Prelude.{
  ℕ, Bool, true, false, not, ◌&&◌, Option, none, some, List, [], ◌∷◌, Text, text_eq, option_eq,
  codes, ◌==◌, if◌then◌else◌, find, keep, ltb,
}
use brain_mcp_server.Policy.{Runtime, Result, ok, err, Error}
use brain_mcp_server.Policy.Deployment.{Deployment}
use brain_mcp_server.Revisions.{
  hosted_mcp, Revision, RevisionProposal, ConflictRecord, ConflictStatus, opened, resolved,
  superseded, accepted, unchanged, conflict, ConflictResolutionInput, ChangeRecord,
}
use brain_mcp_server.Revisions.Memory.{Store, current_of, or_null, id_of, is_open}
use brain_mcp_server.Revisions.Memory.Writes.{Call, Written, internal_write_context}
use brain_mcp_server.Revisions.Memory.Proposals.{propose_revision}

abbrev status_beq : ConflictStatus → ConflictStatus → Bool
status_beq opened opened = true
status_beq resolved resolved = true
status_beq superseded superseded = true
status_beq _ _ = false

abbrev has_status : Option ConflictStatus → ConflictRecord → Bool
has_status none c = true
has_status (some status) c = status_beq c.status status

-- `listConflicts`
unfoldable pub list_conflicts : Store → Text → Option ConflictStatus → List ConflictRecord
list_conflicts s brain_id status =
    keep (λ (c : ConflictRecord). c.brain_id == brain_id && has_status status c) s.conflicts

abbrev pub is_conflict : Text → Text → ConflictRecord → Bool
is_conflict brain_id conflict_id c = c.brain_id == brain_id && c.conflict_id == conflict_id

-- The mutation of the record that was found.
unfoldable pub resolve_first : Text → Text → Text → Text → List ConflictRecord → List ConflictRecord
resolve_first brain_id conflict_id revision_id now [] = []
resolve_first brain_id conflict_id revision_id now (c ∷ cs) =
    let rest = resolve_first brain_id conflict_id revision_id now cs in
    if is_conflict brain_id conflict_id c
    then record c {
      status = resolved;
      resolution_revision_id = some revision_id;
      resolved_at = some now;
    }
      ∷ cs
    else c ∷ rest

-- `!expected || expected !== current?.revisionId`
unfoldable pub is_reviewed : Option Text → Option Revision → Bool
is_reviewed (some (c ∷ id)) (some current) = (c ∷ id) == current.revision_id
is_reviewed _ _ = false

unfoldable pub resolution_proposal :
    Call → ConflictResolutionInput → Text → Option Revision → RevisionProposal
resolution_proposal call input filename current = record {
  write_context =
      some (internal_write_context call (codes "explicit reviewed conflict resolution"));
  brain_id = input.brain_id;
  filename = filename;
  base_revision_id = or_null (id_of current);
  content = input.content;
  origin = hosted_mcp;
  actor = input.actor;
}

abbrev pub finish : Call → ConflictResolutionInput → Revision → Store → Result Revision × Store
finish call input r s = (
  ok r,
  record s {
    conflicts = resolve_first input.brain_id input.conflict_id r.revision_id call.now s.conflicts;
  },
)

abbrev pub finish_resolution : Call → ConflictResolutionInput → Written → Result Revision × Store
finish_resolution call input (err e, s) = (err e, s)
finish_resolution call input (ok (conflict c head), s) =
    (err (Error.conflict_head_changed input.conflict_id), s)
finish_resolution call input (ok (accepted head r), s) = finish call input r s
finish_resolution call input (ok (unchanged head r), s) = finish call input r s

abbrev pub resolve_found :
    Runtime
    → Deployment
    → Call
    → ConflictResolutionInput
    → Option ConflictRecord
    → Store
    → Result Revision × Store
resolve_found rt d call input none s = (err (Error.conflict_not_found input.conflict_id), s)
resolve_found rt d call input (some c) s =
    let current = current_of s input.brain_id c.filename in
    let finished =
      finish_resolution call input
        (propose_revision rt d call (resolution_proposal call input c.filename current) s) in
    if not (is_open c.status)
    then (err (Error.conflict_not_open input.conflict_id), s)
    else if not (is_reviewed input.expected_revision_id current)
    then (err Error.stale_reviewed_revision, s)
    else finished

-- `resolveConflict`: the resolving revision; the conflict record is in the store.
unfoldable pub resolve_conflict :
    Runtime → Deployment → Call → ConflictResolutionInput → Store → Result Revision × Store
resolve_conflict rt d call input s =
    resolve_found rt d call input (find (is_conflict input.brain_id input.conflict_id) s.conflicts)
      s

-- `Number(sinceCursor)`, 0 for an absent cursor.
abbrev pub since : Option ℕ → ℕ
since none = 0
since (some n) = n

abbrev pub last_cursor : Option ℕ → List ChangeRecord → Option ℕ
last_cursor cursor [] = cursor
last_cursor cursor (c ∷ cs) = last_cursor (some c.cursor) cs

-- `listChanges`
unfoldable pub list_changes : Store → Text → Option ℕ → List ChangeRecord × Option ℕ
list_changes s brain_id since_cursor =
    let changes =
      keep (λ (c : ChangeRecord). c.brain_id == brain_id && ltb (since since_cursor) c.cursor)
        s.changes in
    (changes, last_cursor since_cursor changes)
