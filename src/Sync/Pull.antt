-- ===== src/Sync/Pull.antt =====
-- What a pull of src/sync/local-sync-agent.ts changes, and the small steps that change it.
pub mod Heads
pub mod Spared
pub mod Edits
pub mod Hosted
use brain_mcp_server.Prelude.{
  ℕ, max, Bool, true, false, not, ◌&&◌, ◌||◌, Option, none, some, List, [], ◌∷◌, ◌++◌, Text, codes,
  text_eq, option_eq, starts_with, contains, ◌==◌, if◌then◌else◌, is_some,
}
use brain_mcp_server.Prelude.Maps.{get, set, remove}
use brain_mcp_server.Policy.{
  Mode, observe, Intake, brain_scoped, legacy, Actor, BrainWritePolicy, enforce, retired, Code,
  Result, ok, err, inconsistent_revision, unsafe_sync_path, ◌>>=◌,
}
use brain_mcp_server.Revisions.{Revision, FileHead, ConflictInput, local_agent, hosted_mcp}
use brain_mcp_server.Sync.{
  LocalFileSyncState, AdmissionHold, LocalSyncState, LocalSyncReport, RevisionStore, LocalFiles,
  Mutation, done, preserved, SyncOptions, health_marker_files, local_recovery,
}

-- What one run changes: the report and the state, the cursor, the store and the disk.
pub record Pull (S D : Type 0) : Type 0 where
  pub report : LocalSyncReport
  pub state : LocalSyncState
  pub max_cursor : ℕ
  pub remote : S
  pub disk : D

-- `localHash === tracked?.localHash`
abbrev pub is_tracked_hash : Option LocalFileSyncState → Option Text → Bool
is_tracked_hash none local_hash = false
is_tracked_hash (some tracked) local_hash = local_hash == tracked.local_hash

-- `tracked?.revisionId ?? null`
abbrev pub base_of : Option LocalFileSyncState → Option Text
base_of none = none
base_of (some tracked) = tracked.revision_id

abbrev pub is_enforce : Mode → Bool
is_enforce observe = false
is_enforce enforce = true

abbrev pub is_retired_intake : Intake → Bool
is_retired_intake retired = true
is_retired_intake brain_scoped = false
is_retired_intake legacy = false

-- `mode === "enforce" || intake === "retired"`
abbrev pub is_restrictive : Option BrainWritePolicy → Bool
is_restrictive none = false
is_restrictive (some policy) = is_enforce policy.mode || is_retired_intake policy.intake

abbrev pub in_sync : FileHead → LocalFileSyncState
in_sync head = record {
  revision_id = some head.revision_id;
  content_hash = some head.content_hash;
  local_hash = some head.content_hash;
}

abbrev pub or_missing : Option Text → Text
or_missing none = codes "<missing>"
or_missing (some []) = codes "<missing>"
or_missing (some (c ∷ hash)) = c ∷ hash

module _ {S D : Type 0} where
  abbrev pub seen : FileHead → Pull S D → Pull S D
  seen head p = record p { max_cursor = max p.max_cursor head.cursor }

  abbrev pub track : Text → LocalFileSyncState → Pull S D → Pull S D
  track filename tracked p = record p {
    state = record p.state { files = set filename tracked p.state.files };
  }

  abbrev pub untrack : Text → Pull S D → Pull S D
  untrack filename p = record p { state = record p.state { files = remove filename p.state.files } }

  abbrev pub report_unchanged : Text → Pull S D → Pull S D
  report_unchanged filename p = record p {
    report = record p.report { unchanged = p.report.unchanged ++ filename ∷ [] };
  }

  abbrev pub report_pulled : Text → Pull S D → Pull S D
  report_pulled filename p = record p {
    report = record p.report { pulled = p.report.pulled ++ filename ∷ [] };
  }

  abbrev pub report_deleted : Text → Pull S D → Pull S D
  report_deleted filename p = record p {
    report = record p.report { deleted = p.report.deleted ++ filename ∷ [] };
  }

  abbrev pub report_excluded : Text → Pull S D → Pull S D
  report_excluded filename p = record p {
    report = record p.report {
      excluded_source_files = p.report.excluded_source_files ++ filename ∷ [];
    };
  }

  abbrev pub report_held : Text → Code → Pull S D → Pull S D
  report_held filename code p = record p {
    report = record p.report { admission_held = p.report.admission_held ++ (filename, code) ∷ [] };
  }

  abbrev pub trip_recovery : Text → Pull S D → Pull S D
  trip_recovery path p = record p {
    report = record p.report { guard_tripped = some (local_recovery path) };
  }

  abbrev pub hold : Text → AdmissionHold → Pull S D → Pull S D
  hold filename held p = record p {
    state = record p.state { admission_holds = set filename held p.state.admission_holds };
  }
