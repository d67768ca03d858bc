-- ===== src/Sync/Pull/Heads.antt =====
-- The loop of `pullHostedChanges` of src/sync/local-sync-agent.ts over the hosted heads.
use brain_mcp_server.Prelude.{
  Bool, true, false, not, ◌&&◌, Option, none, some, List, [], ◌∷◌, ◌++◌, Text, codes, text_eq,
  option_eq, starts_with, contains, ◌==◌, if◌then◌else◌, is_some,
}
use brain_mcp_server.Prelude.Maps.{get}
use brain_mcp_server.Policy.{
  BrainWritePolicy, Code, Result, ok, err, inconsistent_revision, unsafe_sync_path, ◌>>=◌,
}
use brain_mcp_server.Revisions.{Revision, FileHead, ConflictInput, local_agent, hosted_mcp}
use brain_mcp_server.Sync.{
  LocalFileSyncState, AdmissionHold, RevisionStore, LocalFiles, Mutation, done, preserved,
  SyncOptions, health_marker_files,
}
use brain_mcp_server.Sync.Pull.{
  Pull, is_tracked_hash, base_of, is_restrictive, in_sync, or_missing, seen, track, untrack,
  report_unchanged, report_pulled, report_deleted, report_excluded, report_held, trip_recovery,
  hold,
}

module _ {S D : Type 0} (store : RevisionStore S) (local : LocalFiles D) (options : SyncOptions)
    (policy : Option BrainWritePolicy)
    (admit : Text → Option LocalFileSyncState → Text → S → D → Option (Text × Code)) where
  abbrev conflict_input : Text → Option Text → FileHead → Option Text → ConflictInput
  conflict_input filename base head local_hash = record {
    brain_id = options.brain_id;
    filename = filename;
    local_base_revision_id = base;
    remote_head_revision_id = some head.revision_id;
    local_content_hash = or_missing local_hash;
    remote_content_hash = some head.content_hash;
    local_origin = local_agent;
    remote_origin = some hosted_mcp;
    local_actor = options.actor;
    remote_actor = none;
  }

  -- `report.conflicts.push(await this.recordPullConflict(…))`
  abbrev pub record_pull_conflict : FileHead → Option Text → Option Text → Pull S D → Pull S D
  record_pull_conflict head base local_hash p =
      let w = store.record_conflict (conflict_input head.filename base head local_hash) p.remote in
      record p {
        report = record p.report { conflicts = p.report.conflicts ++ w.0 ∷ [] };
        remote = w.1;
      }

  -- The answer to the removal of a local copy.
  unfoldable pub after_removal :
      FileHead → Option LocalFileSyncState → Mutation × D → Pull S D → Pull S D
  after_removal head tracked (done, d) p =
      report_deleted head.filename (untrack head.filename (record p { disk = d }))
  after_removal head tracked (preserved path current, d) p =
      record_pull_conflict head (base_of tracked) current
        (trip_recovery path (record p { disk = d }))

  -- A tombstone, on whether the file is a marker, and on the hash of the local copy.
  unfoldable pub pull_tombstone :
      Bool → FileHead → Option LocalFileSyncState → Option Text → Pull S D → Pull S D
  pull_tombstone true head tracked local_hash p = seen head p
  pull_tombstone false head tracked none p = untrack head.filename (seen head p)
  pull_tombstone false head tracked (some hash) p =
      if is_tracked_hash tracked (some hash)
      then after_removal head tracked (local.mutate head.filename none (some hash) p.disk)
          (seen head p)
      else record_pull_conflict head (base_of tracked) (some hash) (seen head p)

  unfoldable pub after_write :
      FileHead → Option LocalFileSyncState → Mutation × D → Pull S D → Pull S D
  after_write head tracked (done, d) p =
      seen head
        (report_pulled head.filename (track head.filename (in_sync head) (record p { disk = d })))
  after_write head tracked (preserved path current, d) p =
      record_pull_conflict head (base_of tracked) current
        (trip_recovery path (record p { disk = d }))

  abbrev pub is_of_head : FileHead → Revision → Bool
  is_of_head head r =
      not r.deleted && r.filename == head.filename && r.content_hash == head.content_hash

  -- The hosted revision, once it has been read.
  unfoldable pub write_revision :
      FileHead
      → Option LocalFileSyncState
      → Option Text
      → Option Revision
      → Pull S D
      → Result (Pull S D)
  write_revision head tracked local_hash none p = err (inconsistent_revision head.filename)
  write_revision head tracked local_hash (some r) p =
      if is_of_head head r
      then ok (
          after_write head tracked (local.mutate head.filename (some r.content) local_hash p.disk)
            p)
      else err (inconsistent_revision head.filename)

  abbrev pub has_local_change : Option LocalFileSyncState → Option Text → Bool
  has_local_change none local_hash = is_some local_hash
  has_local_change (some tracked) local_hash = not (local_hash == tracked.local_hash)

  -- A live head, on whether it is tracked and whether the local copy is already its content.
  unfoldable pub pull_live :
      Bool
      → Bool
      → FileHead
      → Option LocalFileSyncState
      → Option Text
      → Pull S D
      → Result (Pull S D)
  pull_live true same head tracked local_hash p = ok (report_unchanged head.filename (seen head p))
  pull_live false true head tracked local_hash p =
      ok (report_unchanged head.filename (seen head (track head.filename (in_sync head) p)))
  pull_live false false head tracked local_hash p =
      if has_local_change tracked local_hash
      then ok (record_pull_conflict head (base_of tracked) local_hash p)
      else write_revision head tracked local_hash
          (store.read_revision options.brain_id head.revision_id p.remote) p

  unfoldable pub pull_admitted :
      FileHead → Option LocalFileSyncState → Option Text → Pull S D → Result (Pull S D)
  pull_admitted head tracked local_hash p =
      if head.deleted
      then ok
          (pull_tombstone (contains head.filename health_marker_files) head tracked local_hash p)
      else pull_live (base_of tracked == some head.revision_id)
          (local_hash == some head.content_hash) head tracked local_hash p

  -- A changed local copy that the policy does not admit is held back.
  unfoldable pub pull_checked :
      FileHead
      → Option LocalFileSyncState
      → Option Text
      → Option (Text × Code)
      → Pull S D
      → Result (Pull S D)
  pull_checked head tracked local_hash none p = pull_admitted head tracked local_hash p
  pull_checked head tracked local_hash (some (fingerprint, code)) p = ok (
      report_held head.filename code (
        hold head.filename
          (record { fingerprint = fingerprint; local_hash = or_missing local_hash; code = code })
          p))

  abbrev pub admission_of :
      FileHead → Option LocalFileSyncState → Option Text → Pull S D → Option (Text × Code)
  admission_of head tracked none p = none
  admission_of head tracked (some hash) p =
      if is_restrictive policy
        && not (hash == head.content_hash)
        && not (is_tracked_hash tracked (some hash))
      then admit head.filename tracked hash p.remote p.disk
      else none

  unfoldable pub pull_held :
      FileHead
      → Option LocalFileSyncState
      → Option Text
      → Option AdmissionHold
      → Pull S D
      → Result (Pull S D)
  pull_held head tracked local_hash none p =
      pull_checked head tracked local_hash (admission_of head tracked local_hash p) p
  pull_held head tracked local_hash (some held) p =
      if is_tracked_hash tracked local_hash
      then pull_checked head tracked local_hash (admission_of head tracked local_hash p) p
      else ok (report_held head.filename held.code p)

  -- One round of the loop over the heads.
  unfoldable pub pull_head : FileHead → Pull S D → Result (Pull S D)
  pull_head head p =
      if starts_with head.filename (codes "sources/")
      then ok (report_excluded head.filename p)
      else if local.is_safe_path head.filename
      then pull_held head (get head.filename p.state.files) (local.read_hash head.filename p.disk)
          (get head.filename p.state.admission_holds) p
      else err (unsafe_sync_path head.filename)

  unfoldable pub pull_heads : List FileHead → Pull S D → Result (Pull S D)
  pull_heads [] p = ok p
  pull_heads (head ∷ heads) p = pull_head head p >>= pull_heads heads
