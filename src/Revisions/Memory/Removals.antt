-- ===== src/Revisions/Memory/Removals.antt =====
-- `proposeDeletion` and `proposeRename` of src/sync/memory-revision-store.ts.
use brain_mcp_server.Prelude.{
  ◌+◌, Bool, true, false, not, ◌&&◌, Option, none, some, [], Text, text_eq, option_eq, ◌==◌,
  if◌then◌else◌,
}
use brain_mcp_server.Policy.{Runtime, Actor, BrainWritePolicy, Result, ok, err}
use brain_mcp_server.Policy.Queue.{assert_queue_policy}
use brain_mcp_server.Policy.Deployment.{Deployment, write_policy_for_brain}
use brain_mcp_server.Revisions.{
  Origin, Revision, RevisionDeletionProposal, RevisionRenameProposal, ConflictInput,
  RevisionProposalResult, accepted, unchanged, conflict, head_of,
}
use brain_mcp_server.Revisions.Memory.{
  Store, tombstone_hash, current_of, revision_name, record_conflict, or_null, id_of, hash_of,
  origin_of, actor_of, content_of, publish, advance,
}
use brain_mcp_server.Revisions.Memory.Writes.{Call, Written, conflicted}

abbrev pub deletion_conflict :
    Text → Text → Option Text → Origin → Option Actor → Option Revision → ConflictInput
deletion_conflict brain_id filename base origin actor current = record {
  brain_id = brain_id;
  filename = filename;
  local_base_revision_id = base;
  remote_head_revision_id = or_null (id_of current);
  local_content_hash = tombstone_hash;
  remote_content_hash = or_null (hash_of current);
  local_origin = origin;
  remote_origin = origin_of current;
  local_actor = actor;
  remote_actor = actor_of current;
}

unfoldable pub tombstone :
    Call → Text → Text → Origin → Option Actor → Revision → Option Text → Store → Revision
tombstone call brain_id filename origin actor current renamed_to s = record {
  brain_id = brain_id;
  filename = filename;
  revision_id = revision_name (s.revision_seq + 1);
  parent_revision_id = some current.revision_id;
  content_hash = tombstone_hash;
  updated_at = call.now;
  origin = origin;
  actor = actor;
  cursor = s.cursor_seq + 1;
  deleted = true;
  renamed_from = none;
  renamed_to = renamed_to;
  content = [];
  write_context = none;
}

unfoldable pub delete_current :
    Call → RevisionDeletionProposal → Option Revision → Store → RevisionProposalResult × Store
delete_current call input none s =
    let (c, s') =
      record_conflict call.now
        (deletion_conflict input.brain_id input.filename input.base_revision_id input.origin
          input.actor none)
        s in
    (conflict c none, s')
delete_current call input (some current) s =
    let r = tombstone call input.brain_id input.filename input.origin input.actor current none s in
    let (c, s') =
      record_conflict call.now
        (deletion_conflict input.brain_id input.filename input.base_revision_id input.origin
          input.actor (some current))
        s in
    if current.deleted
    then (unchanged (head_of current) current, s)
    else if not (input.base_revision_id == some current.revision_id)
    then (conflict c (some (head_of current)), s')
    else (accepted (head_of r) r, publish r (advance s))

-- `proposeDeletion`
unfoldable pub propose_deletion :
    Call → RevisionDeletionProposal → Store → RevisionProposalResult × Store
propose_deletion call input s =
    delete_current call input (current_of s input.brain_id input.filename) s

-- The head of the new name, made from the live head of the old one.
unfoldable pub renamed :
    Call → RevisionRenameProposal → Revision → Option Revision → Store → Revision
renamed call input from to s = record {
  brain_id = input.brain_id;
  filename = input.to;
  revision_id = revision_name (s.revision_seq + 1);
  parent_revision_id = or_null (id_of to);
  content_hash = from.content_hash;
  updated_at = call.now;
  origin = input.origin;
  actor = input.actor;
  cursor = s.cursor_seq + 1;
  deleted = false;
  renamed_from = some input.from;
  renamed_to = none;
  content = from.content;
  write_context = none;
}

abbrev pub target_conflict : RevisionRenameProposal → Revision → Revision → ConflictInput
target_conflict input from to = record {
  brain_id = input.brain_id;
  filename = input.to;
  local_base_revision_id = none;
  remote_head_revision_id = some to.revision_id;
  local_content_hash = from.content_hash;
  remote_content_hash = some to.content_hash;
  local_origin = input.origin;
  remote_origin = some to.origin;
  local_actor = input.actor;
  remote_actor = to.actor;
}

-- The store after both writes of a rename: the new head, then the tombstone of the old name.
unfoldable pub rename_both :
    Call → RevisionRenameProposal → Revision → Option Revision → Store → Store
rename_both call input from to s =
    let s₁ = publish (renamed call input from to s) (advance s) in
    publish
      (tombstone call input.brain_id input.from input.origin input.actor from (some input.to) s₁)
      (advance s₁)

abbrev pub checked_rename :
    Call → RevisionRenameProposal → Revision → Option Revision → Result (Unit {0}) → Store → Written
checked_rename call input from to (err e) s = (err e, s)
checked_rename call input from to (ok _) s =
    let r = renamed call input from to s in
    (ok (accepted (head_of r) r), rename_both call input from to s)

abbrev pub governed_rename :
    Runtime
    → Call
    → RevisionRenameProposal
    → Revision
    → Option Revision
    → Result (Option BrainWritePolicy)
    → Store
    → Written
governed_rename rt call input from to (err e) s = (err e, s)
governed_rename rt call input from to (ok policy) s =
    checked_rename call input from to
      (assert_queue_policy rt input.brain_id policy input.to (content_of to) from.content) s

unfoldable pub rename_live :
    Runtime
    → Deployment
    → Call
    → RevisionRenameProposal
    → Revision
    → Option Revision
    → Store
    → Written
rename_live rt d call input from to s =
    governed_rename rt call input from to (write_policy_for_brain rt d input.brain_id) s

abbrev pub target_taken : Call → RevisionRenameProposal → Revision → Revision → Store → Written
target_taken call input from to s = conflicted call.now (target_conflict input from to) (some to) s

unfoldable pub rename_to :
    Runtime
    → Deployment
    → Call
    → RevisionRenameProposal
    → Revision
    → Option Revision
    → Store
    → Written
rename_to rt d call input from none s = rename_live rt d call input from none s
rename_to rt d call input from (some to) s =
    if to.deleted
    then rename_live rt d call input from (some to) s
    else target_taken call input from to s

-- `!fromHead || fromHead.deleted || base !== fromHead.revisionId`
unfoldable pub is_live_base : Option Text → Option Revision → Bool
is_live_base base none = false
is_live_base base (some from) = not from.deleted && base == some from.revision_id

unfoldable pub rename_from :
    Runtime → Deployment → Call → RevisionRenameProposal → Option Revision → Store → Written
rename_from rt d call input none s =
    conflicted call.now
      (deletion_conflict input.brain_id input.from input.base_revision_id input.origin input.actor
        none)
      none s
rename_from rt d call input (some from) s =
    let stale =
      conflicted call.now
        (deletion_conflict input.brain_id input.from input.base_revision_id input.origin input.actor
          (some from))
        (some from) s in
    if is_live_base input.base_revision_id (some from)
    then rename_to rt d call input from (current_of s input.brain_id input.to) s
    else stale

-- `proposeRename`
unfoldable pub propose_rename :
    Runtime → Deployment → Call → RevisionRenameProposal → Store → Written
propose_rename rt d call input s =
    rename_from rt d call input (current_of s input.brain_id input.from) s
