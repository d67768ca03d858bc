-- ===== src/Sync/Deletions.antt =====
-- `inferGuardedDeletions` of src/sync/local-sync-agent.ts.
pub mod Guards
pub mod Sent
use brain_mcp_server.Prelude.{
  ℕ, Bool, true, false, not, ◌&&◌, ◌||◌, Option, none, some, List, [], ◌∷◌, ◌++◌, Text, text_eq,
  keep, all, contains, is_empty, length, ltb, if◌then◌else◌, is_some,
}
use brain_mcp_server.Prelude.Maps.{Map, keys, get, remove}
use brain_mcp_server.Policy.{Result, ok, err, type_error}
use brain_mcp_server.Revisions.{
  RevisionDeletionProposal, RevisionProposalResult, accepted, unchanged, conflict, local_agent,
}
use brain_mcp_server.Sync.{
  and_then, LocalFileSyncState, LocalSyncState, LocalSyncReport, RevisionStore, SyncOptions,
  health_marker_files, Guard, empty_scan, health_marker_missing, mass_delete,
}

abbrev pub missing : Map Text LocalFileSyncState → List Text → List Text
missing files scanned = keep (λ f. not (contains f scanned)) (keys files)

-- Every marker that is tracked is in the scan.
abbrev pub markers_intact : List Text → List Text → Bool
markers_intact tracked scanned =
    all (λ marker. not (contains marker tracked) || contains marker scanned) health_marker_files

abbrev pub pending_of : LocalSyncState → List Text
pending_of state = elim state.pending_deletions [ none ↦ [] | some names ↦ names ]

-- Absent on two scans in a row.
abbrev pub confirmed_of : LocalSyncState → List Text → List Text
confirmed_of state candidates = keep (λ f. contains f (pending_of state)) candidates

abbrev pub is_over_threshold : SyncOptions → ℕ → ℕ → Bool
is_over_threshold options confirmed tracked =
    ltb options.max_deletes confirmed || options.is_above_pct confirmed tracked

abbrev reset_pending : LocalSyncState → LocalSyncState
reset_pending state = elim state.pending_deletions [
  | none ↦ state
  | some [] ↦ state
  | some (f ∷ fs) ↦ record state { pending_deletions = some [] }
]

abbrev skip : Guard → List Text → LocalSyncReport → LocalSyncReport
skip guard names report = record report {
  deletions_skipped = report.deletions_skipped ++ names;
  guard_tripped = some guard;
}

abbrev pub deletion_proposal : SyncOptions → Text → LocalFileSyncState → RevisionDeletionProposal
deletion_proposal options filename tracked = record {
  brain_id = options.brain_id;
  filename = filename;
  base_revision_id = tracked.revision_id;
  origin = local_agent;
  actor = options.actor;
}

abbrev forget_file : Text → LocalSyncState → LocalSyncState
forget_file filename state = record state { files = remove filename state.files }

-- What one answer of the store does to the report and to the state.
abbrev pub after_deletion :
    Text
    → RevisionProposalResult
    → LocalSyncReport × LocalSyncState
    → LocalSyncReport × LocalSyncState
after_deletion f (accepted head r) (report, state) =
    (record report { deleted = report.deleted ++ f ∷ [] }, forget_file f state)
after_deletion f (unchanged head r) (report, state) =
    (record report { deleted = report.deleted ++ f ∷ [] }, forget_file f state)
after_deletion f (conflict c head) (report, state) =
    (record report { conflicts = report.conflicts ++ c ∷ [] }, state)

module _ {S : Type 0} (store : RevisionStore S) (options : SyncOptions) where
  -- A name that is not tracked is read as `undefined.revisionId`, which throws.
  abbrev propose_tracked : Text → Option LocalFileSyncState → S → Result RevisionProposalResult × S
  propose_tracked f none s = (err type_error, s)
  propose_tracked f (some tracked) s =
      store.propose_deletion (deletion_proposal options f tracked) s

  -- The loop over the confirmed files. An exception leaves it.
  unfoldable pub delete_confirmed :
      List Text
      → LocalSyncReport × LocalSyncState
      → S
      → Result (LocalSyncReport × LocalSyncState) × S
  delete_confirmed [] p s = (ok p, s)
  delete_confirmed (f ∷ fs) p s =
      and_then (propose_tracked f (get f p.1.files) s)
        λ result t. delete_confirmed fs (after_deletion f result p) t

  -- The candidates that are still tracked wait for the next scan.
  abbrev remember :
      List Text
      → Result (LocalSyncReport × LocalSyncState) × S
      → Result (LocalSyncReport × LocalSyncState) × S
  remember candidates (err e, s) = (err e, s)
  remember candidates (ok (report, state), s) = (
    ok (
      report,
      record state {
        pending_deletions = some (keep (λ f. is_some (get f state.files)) candidates);
      },
    ),
    s,
  )

  -- Guard 3. `over`: the batch is larger than the limits allow.
  abbrev within_limits :
      Bool
      → List Text
      → LocalSyncReport
      → LocalSyncState
      → S
      → Result (LocalSyncReport × LocalSyncState) × S
  within_limits true confirmed report state s = (
    ok (skip (mass_delete (length confirmed) (length (keys state.files))) confirmed report, state),
    s,
  )
  within_limits false confirmed report state s = delete_confirmed confirmed (report, state) s

  abbrev after_health :
      List Text
      → LocalSyncReport
      → LocalSyncState
      → S
      → Result (LocalSyncReport × LocalSyncState) × S
  after_health candidates report state s =
      let confirmed = confirmed_of state candidates in
      remember candidates (
        within_limits
          (not (is_empty confirmed)
            && is_over_threshold options (length confirmed) (length (keys state.files)))
          confirmed report state s)

  -- Guard 1, on whether the scan found anything and whether the markers are in it.
  abbrev checked_health :
      Bool
      → Bool
      → List Text
      → LocalSyncReport
      → LocalSyncState
      → S
      → Result (LocalSyncReport × LocalSyncState) × S
  checked_health true intact candidates report state s =
      (ok (skip empty_scan candidates report, record state { pending_deletions = some [] }), s)
  checked_health false false candidates report state s = (
    ok (skip health_marker_missing candidates report, record state { pending_deletions = some [] }),
    s,
  )
  checked_health false true candidates report state s = after_health candidates report state s

  abbrev infer_missing :
      List Text
      → List Text
      → LocalSyncReport
      → LocalSyncState
      → S
      → Result (LocalSyncReport × LocalSyncState) × S
  infer_missing [] scanned report state s = (ok (report, reset_pending state), s)
  infer_missing (c ∷ cs) scanned report state s =
      checked_health (is_empty scanned) (markers_intact (keys state.files) scanned) (c ∷ cs) report
        state s

  unfoldable pub infer_guarded_deletions :
      List Text
      → LocalSyncReport
      → LocalSyncState
      → S
      → Result (LocalSyncReport × LocalSyncState) × S
  infer_guarded_deletions scanned report state s =
      infer_missing (missing state.files scanned) scanned report state s
