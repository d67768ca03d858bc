-- ===== src/Sync/Pull/Hosted.antt =====
-- `pullHostedChanges` of src/sync/local-sync-agent.ts as a whole: preserved edits are reported first, then
-- the hosted heads are gone through, and the cursor is stored.
use brain_mcp_server.Prelude.{
  ℕ, ◌||◌, Option, none, some, List, [], ◌∷◌, ◌++◌, Text, text_eq, keep, contains, is_empty, ltb,
  if◌then◌else◌, ◌≡◌, All, subst,
}
use brain_mcp_server.Prelude.Maps.{get}
use brain_mcp_server.Policy.{BrainWritePolicy, Code, Result, ok, ◌>>=◌, >>=-eq-ok, ok_inj}
use brain_mcp_server.Revisions.{FileHead, ConflictInput, local_agent, hosted_mcp}
use brain_mcp_server.Sync.{
  LocalFileSyncState, LocalSyncState, empty_report, RevisionStore, LocalFiles, IsSeparate,
  SyncOptions,
}
use brain_mcp_server.Sync.Pull.{Pull, base_of, or_missing, trip_recovery}
use brain_mcp_server.Sync.Pull.Heads.{pull_heads}
use brain_mcp_server.Sync.Pull.Edits.{IsEdited, IsForeign, pull_heads-IsEdited}

-- What `inspectLocalRecovery` has found and no resolved conflict accounts for.
pub record Recovery : Type 0 where
  pub filename : Text
  pub recovery_path : Text
  pub content_hash : Option Text

abbrev revision_of : Option FileHead → Option Text
revision_of none = none
revision_of (some head) = some head.revision_id

abbrev hash_of_head : Option FileHead → Option Text
hash_of_head none = none
hash_of_head (some head) = some head.content_hash

abbrev cursor_or_zero : Option ℕ → ℕ
cursor_or_zero none = 0
cursor_or_zero (some n) = n

-- `filterIncludedHeads`
abbrev pub included_heads : SyncOptions → List FileHead → List FileHead
included_heads options heads =
    keep
      (λ (h : FileHead).
        is_empty options.include_files || contains h.filename options.include_files)
      heads

module _ {S D : Type 0} (store : RevisionStore S) (local : LocalFiles D) (options : SyncOptions)
    (policy : Option BrainWritePolicy)
    (admit : Text → Option LocalFileSyncState → Text → S → D → Option (Text × Code)) where
  abbrev recovery_conflict : Recovery → Option LocalFileSyncState → Option FileHead → ConflictInput
  recovery_conflict item tracked head = record {
    brain_id = options.brain_id;
    filename = item.filename;
    local_base_revision_id = base_of tracked;
    remote_head_revision_id = revision_of head;
    local_content_hash = or_missing item.content_hash;
    remote_content_hash = hash_of_head head;
    local_origin = local_agent;
    remote_origin = some hosted_mcp;
    local_actor = options.actor;
    remote_actor = none;
  }

  unfoldable pub report_recovery : Recovery → Pull S D → Pull S D
  report_recovery item p =
      let w =
        store.record_conflict
          (recovery_conflict item (get item.filename p.state.files)
            (store.get_head options.brain_id item.filename p.remote))
          p.remote in
      trip_recovery item.recovery_path (record p {
        report = record p.report { conflicts = p.report.conflicts ++ w.0 ∷ [] };
        remote = w.1;
      })

  unfoldable pub report_recoveries : List Recovery → Pull S D → Pull S D
  report_recoveries [] p = p
  report_recoveries (item ∷ items) p = report_recoveries items (report_recovery item p)

  abbrev started : LocalSyncState → S → D → Pull S D
  started state s d = record {
    report = empty_report;
    state = state;
    max_cursor = cursor_or_zero state.cursor;
    remote = s;
    disk = d;
  }

  abbrev store_cursor : Pull S D → Pull S D
  store_cursor p = record p {
    state = record p.state {
      cursor = if ltb 0 p.max_cursor then some p.max_cursor else p.state.cursor;
    };
  }

  -- The heads that a run goes through.
  abbrev pub hosted_heads : Pull S D → List FileHead
  hosted_heads p = included_heads options (store.list_files options.brain_id p.remote)

  unfoldable pub pull_hosted_changes : List Recovery → LocalSyncState → S → D → Result (Pull S D)
  pull_hosted_changes recoveries state s d =
      let p = report_recoveries recoveries (started state s d) in
      pull_heads store local options policy admit (hosted_heads p) p >>= λ q. ok (store_cursor q)

  module _ (separate : IsSeparate local) (g hash : Text) where
    report_recoveries-IsEdited :
        (items : List Recovery) (p : Pull S D)
        → IsEdited local g hash p
        → IsEdited local g hash (report_recoveries items p)
    unfolding report_recoveries report_recovery
    report_recoveries-IsEdited [] p e = e
    report_recoveries-IsEdited (item ∷ items) p e =
        report_recoveries-IsEdited items (report_recovery item p)
          (record { present = e.present; changed = e.changed })

    -- A whole pull leaves every local edit on the disk that no hosted head already holds, and it stays an
    -- edit in the state that is stored, where a change of one local file leaves the others alone.
    pub pull_hosted_changes-IsEdited :
        (recoveries : List Recovery) (state : LocalSyncState) (s : S) (d : D) (q : Pull S D)
        → IsEdited local g hash (started state s d)
        → All (IsForeign g hash) (hosted_heads (report_recoveries recoveries (started state s d)))
        → pull_hosted_changes recoveries state s d ≡ ok q
        → IsEdited local g hash q
    pull_hosted_changes-IsEdited recoveries state s d q e a h =
        let p = report_recoveries recoveries (started state s d) in
        let (r, first, rest) =
          >>=-eq-ok (pull_heads store local options policy admit (hosted_heads p) p)
            (λ r. ok (store_cursor r)) q (unfold pull_hosted_changes in h) in
        let i =
          pull_heads-IsEdited store local options policy admit separate g hash (hosted_heads p) p r
            (report_recoveries-IsEdited recoveries (started state s d) e) a first in
        subst (IsEdited local g hash) (ok_inj rest)
          (record { present = i.present; changed = i.changed })
