-- ===== src/Revisions/Memory/Writes.antt =====
-- New revisions of `applyRevision` of src/sync/memory-revision-store.ts, and the entry of LOG.md for them.
use brain_mcp_server.Prelude.{
  ◌+◌, Bool, true, false, not, ◌&&◌, Option, none, some, [], ◌∷◌, Text, text_eq, option_eq, codes,
  ◌==◌, if◌then◌else◌, is_some,
}
use brain_mcp_server.Policy.{
  Runtime, BrainWritePolicy, BrainWriteContext, user_directed, Result, ok, err,
}
use brain_mcp_server.Policy.Receipt.{format_automatic_change}
use brain_mcp_server.Log.{log_header, format_log_entry, append_log_entry_to_content}
use brain_mcp_server.Revisions.{
  system, Revision, RevisionProposal, ConflictInput, RevisionProposalResult, accepted, conflict,
  head_of,
}
use brain_mcp_server.Revisions.Memory.{
  Store, current_of, revision_name, record_conflict, or_null, id_of, hash_of, origin_of, actor_of,
  content_of, head_or_null, publish, advance,
}

-- What the runtime gives a call: its time, its date and a fresh id.
pub record Call : Type 0 where
  pub now : Text
  pub today : Text
  pub uuid : Text

abbrev pub Written : Type 0
Written = Result RevisionProposalResult × Store

-- `internalWriteContext`
unfoldable pub internal_write_context : Call → Text → BrainWriteContext
internal_write_context call reason = record {
  operation_id = call.uuid;
  kind = user_directed;
  reason = reason;
  evidence = [];
  maintenance = none;
  tool_request_hash = none;
  request_hash = none;
  verification = none;
  policy_digest = none;
  policy_version = none;
  internal = true;
}

abbrev pub log_md : Text
log_md = codes "LOG.md"

-- A stale proposal is recorded, and answered with the current head.
abbrev pub conflicted : Text → ConflictInput → Option Revision → Store → Written
conflicted now input current s =
    let (c, s') = record_conflict now input s in (ok (conflict c (head_or_null current)), s')

abbrev pub revision_conflict : Runtime → RevisionProposal → Option Revision → ConflictInput
revision_conflict rt input current = record {
  brain_id = input.brain_id;
  filename = input.filename;
  local_base_revision_id = input.base_revision_id;
  remote_head_revision_id = or_null (id_of current);
  local_content_hash = rt.sha256 input.content;
  remote_content_hash = or_null (hash_of current);
  local_origin = input.origin;
  remote_origin = origin_of current;
  local_actor = input.actor;
  remote_actor = actor_of current;
}

-- `(current && base !== current.revisionId) || (!current && base !== null)`, unless a tombstone is
-- written over with no base.
unfoldable pub is_stale_base : Option Text → Option Revision → Bool
is_stale_base base none = is_some base
is_stale_base none (some current) = not current.deleted
is_stale_base (some base) (some current) = not (base == current.revision_id)

-- `current && !current.deleted && current.contentHash === nextHash`
unfoldable pub is_same_content : Runtime → Text → Option Revision → Bool
is_same_content rt content none = false
is_same_content rt content (some current) =
    not current.deleted && current.content_hash == rt.sha256 content

unfoldable pub new_revision : Runtime → Call → RevisionProposal → Option Revision → Store → Revision
new_revision rt call input current s = record {
  brain_id = input.brain_id;
  filename = input.filename;
  revision_id = revision_name (s.revision_seq + 1);
  parent_revision_id = or_null (id_of current);
  content_hash = rt.sha256 input.content;
  updated_at = call.now;
  origin = input.origin;
  actor = input.actor;
  cursor = s.cursor_seq + 1;
  deleted = false;
  renamed_from = none;
  renamed_to = none;
  content = input.content;
  write_context = input.write_context;
}

-- `text || other`
abbrev pub or_default : Text → Text → Text
or_default [] other = other
or_default (c ∷ s) other = c ∷ s

-- The proposal of the automatic change index for a revision that was just published.
unfoldable pub log_proposal :
    Runtime
    → Call
    → BrainWritePolicy
    → BrainWriteContext
    → Revision
    → Text
    → Store
    → RevisionProposal
log_proposal rt call policy context r before s =
    let log = current_of s r.brain_id log_md in
    let summary =
      format_automatic_change rt call.now r.brain_id r.filename before r.content context r.actor
        r.revision_id policy in
    record {
      write_context = some (internal_write_context call (codes "automatic change index"));
      brain_id = r.brain_id;
      filename = log_md;
      base_revision_id = or_null (id_of log);
      content =
          append_log_entry_to_content (or_default (content_of log) log_header)
            (format_log_entry (codes "UPDATE") (r.filename ∷ []) summary call.today);
      origin = system;
      actor = r.actor;
    }

-- The result is that of the write, unless the write of the log throws.
abbrev pub and_logged : Revision → Written → Written
and_logged r (ok _, s) = (ok (accepted (head_of r) r), s)
and_logged r (err e, s) = (err e, s)

-- A policy is reported under only with the context that was admitted.
unfoldable pub write_log :
    (RevisionProposal → Store → Written)
    → Runtime
    → Call
    → Option BrainWritePolicy
    → Option BrainWriteContext
    → Revision
    → Text
    → Store
    → Written
write_log rec rt call (some policy) (some context) r before s =
    and_logged r (rec (log_proposal rt call policy context r before s) s)
write_log rec rt call _ _ r before s = (ok (accepted (head_of r) r), s)

-- A stale proposal becomes a conflict, another one the new head.
unfoldable pub write_or_conflict :
    (RevisionProposal → Store → Written)
    → Runtime
    → Call
    → Option Revision
    → Option BrainWritePolicy
    → RevisionProposal
    → Store
    → Written
write_or_conflict rec rt call current policy input s =
    let r = new_revision rt call input current s in
    let written =
      write_log rec rt call policy input.write_context r (content_of current)
        (publish r (advance s)) in
    let stale = conflicted call.now (revision_conflict rt input current) current s in
    if is_stale_base input.base_revision_id current then stale else written
