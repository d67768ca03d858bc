-- ===== src/Sync/Deletions/Sent.antt =====
-- What `inferGuardedDeletions` of src/sync/local-sync-agent.ts asks of the store.
use brain_mcp_server.Prelude.{
  ◌≡◌, refl, ◌≤◌, ℕ, suc, Bool, true, false, not, ◌&&◌, ◌⊎◌, Option, none, some, List, [], ◌∷◌,
  Text, text_eq, All, All-keep, contains, is_empty, length, arith, inl, inr,
}
use brain_mcp_server.Prelude.Maps.{keys, get, get-remove}
use brain_mcp_server.Policy.{Result, ok, err}
use brain_mcp_server.Revisions.{RevisionProposalResult, accepted, unchanged, conflict, local_agent}
use brain_mcp_server.Sync.{
  LocalFileSyncState, LocalSyncState, LocalSyncReport, RevisionStore, SyncOptions, and_then,
}
use brain_mcp_server.Sync.Deletions.{
  missing, markers_intact, confirmed_of, is_over_threshold, after_deletion, delete_confirmed,
  infer_guarded_deletions, propose_tracked, remember, within_limits, after_health, checked_health,
  infer_missing, deletion_proposal,
}
use brain_mcp_server.Sync.Deletions.Guards.{
  IsDeletable, Deleted, infer_guarded_deletions-Deleted, confirmed-IsDeletable,
}

-- From one store to another by a number of proposals of deletions and nothing else, each of a file with
-- a tracked state that are allowed, with its tracked revision as the base.
pub data Sends {S : Type 0} (store : RevisionStore S) (options : SyncOptions)
    (Allowed : Text → LocalFileSyncState → Type 0) : ℕ → S → S → Type 0 where
  stop : {s : S} → Sends store options Allowed 0 s s
  send :
      {n : ℕ} {s t : S} (filename : Text) (tracked : LocalFileSyncState)
      → Allowed filename tracked
      → Sends store options Allowed n
          (store.propose_deletion
            (record {
              brain_id = options.brain_id;
              filename = filename;
              base_revision_id = tracked.revision_id;
              origin = local_agent;
              actor = options.actor;
            })
            s).1
          t
      → Sends store options Allowed (suc n) s t

-- A file may be deleted, and is tracked with this state.
abbrev pub IsTracked : LocalSyncState → List Text → Text → LocalFileSyncState → Type 0
IsTracked state scanned filename tracked =
    IsDeletable state scanned filename × (get filename state.files ≡ some tracked)

-- The deletions that a run may send: none, or no more than a batch that the limits allow.
abbrev pub IsWithin : SyncOptions → LocalSyncState → ℕ → Type 0
IsWithin options state sent =
    (sent ≡ 0)
    ⊎ ((batch : ℕ) × (sent ≤ batch)
        × (batch ≤ options.max_deletes)
        × (options.is_above_pct batch (length (keys state.files)) ≡ false))

abbrev pub Reports :
    SyncOptions
    → List Text
    → LocalSyncReport
    → LocalSyncState
    → Result (LocalSyncReport × LocalSyncState)
    → Type 0
Reports options scanned report state (err e) = Unit
Reports options scanned report state (ok q) =
    Deleted (IsDeletable state scanned) options.max_deletes report q.0

pub record IsGuarded {S : Type 0} (store : RevisionStore S) (options : SyncOptions)
    (scanned : List Text) (report : LocalSyncReport) (state : LocalSyncState) (s : S)
    (answer : Result (LocalSyncReport × LocalSyncState) × S) : Type 0 where
  pub sent : ℕ
  pub sends : Sends store options (IsTracked state scanned) sent s answer.1
  pub within : IsWithin options state sent
  pub reported : Reports options scanned report state answer.0

module _ {S : Type 0} (store : RevisionStore S) (options : SyncOptions) (scanned : List Text)
    (state : LocalSyncState) where
  -- What is tracked was tracked at first.
  abbrev Shrinks : LocalSyncState → Type 0
  Shrinks later =
      (filename : Text) (tracked : LocalFileSyncState)
      → get filename later.files ≡ some tracked
      → get filename state.files ≡ some tracked

  after_deletion-Shrinks :
      (f : Text) (result : RevisionProposalResult) (p : LocalSyncReport × LocalSyncState)
      → Shrinks p.1
      → Shrinks (after_deletion f result p).1
  after_deletion-Shrinks f (conflict c head) (report, later) h = h
  after_deletion-Shrinks f (accepted head r) (report, later) h =
      λ g tracked e. h g tracked (ground (arith, e, get-remove f g later.files))
  after_deletion-Shrinks f (unchanged head r) (report, later) h =
      λ g tracked e. h g tracked (ground (arith, e, get-remove f g later.files))

  abbrev SendsUpTo : ℕ → S → S → Type 0
  SendsUpTo most s t = (n : ℕ) × (n ≤ most) × Sends store options (IsTracked state scanned) n s t

  delete_confirmed-Sends :
      (fs : List Text) (p : LocalSyncReport × LocalSyncState) (s : S)
      → All (IsDeletable state scanned) fs
      → Shrinks p.1
      → SendsUpTo (length fs) s (delete_confirmed store options fs p s).1
  unfolding delete_confirmed
  delete_confirmed-Sends [] p s every h = (0, omega arith, stop)
  delete_confirmed-Sends (f ∷ fs) p s every h = of_tracked (get f p.1.files) (h f) (λ result t.
      delete_confirmed-Sends fs (after_deletion f result p) t every.1
        (after_deletion-Shrinks f result p h))
    where
      rest : RevisionProposalResult → S → Result (LocalSyncReport × LocalSyncState) × S
      rest result t = delete_confirmed store options fs (after_deletion f result p) t

      of_answer :
          (w : Result RevisionProposalResult × S)
          → ((result : RevisionProposalResult) (t : S) → SendsUpTo (length fs) t (rest result t).1)
          → SendsUpTo (length fs) w.1 (and_then w rest).1
      of_answer (err e, t) later = (0, omega arith, stop)
      of_answer (ok result, t) later = later result t

      of_tracked :
          (o : Option LocalFileSyncState)
          → ((tracked : LocalFileSyncState) → o ≡ some tracked → get f state.files ≡ some tracked)
          → ((result : RevisionProposalResult) (t : S) → SendsUpTo (length fs) t (rest result t).1)
          → SendsUpTo (suc (length fs)) s (and_then (propose_tracked store options f o s) rest).1
      of_tracked none known later = (0, omega arith, stop)
      of_tracked (some tracked) known later =
          let next =
            of_answer (store.propose_deletion (deletion_proposal options f tracked) s) later in
          (suc next.0, omega (arith, next.1), send f tracked (every.0, known tracked refl) next.2)

  module _ (report : LocalSyncReport) (s : S) where
    abbrev GuardedSends : S → Type 0
    GuardedSends t =
        (n : ℕ) × Sends store options (IsTracked state scanned) n s t × IsWithin options state n

    within_limits-Sends :
        (over : Bool) (fs : List Text)
        → All (IsDeletable state scanned) fs
        → (not (is_empty fs) && is_over_threshold options (length fs) (length (keys state.files)))
          ≡ over
        → GuardedSends (within_limits store options over fs report state s).1
    within_limits-Sends true fs every few = (0, stop, inl refl)
    within_limits-Sends false [] every few = (0, unfold delete_confirmed in stop, inl refl)
    within_limits-Sends false (f ∷ fs) every few =
        let sent = delete_confirmed-Sends (f ∷ fs) (report, state) s every (λ g tracked e. e) in
        (sent.0, sent.2, inr (length (f ∷ fs), sent.1, ground (arith, few), ground (arith, few)))

    remember-store :
        (cs : List Text) (w : Result (LocalSyncReport × LocalSyncState) × S)
        → (remember store options cs w).1 ≡ w.1
    remember-store cs (err e, t) = refl
    remember-store cs (ok q, t) = refl

    after_health-Sends :
        (cs : List Text)
        → All (IsDeletable state scanned) (confirmed_of state cs)
        → GuardedSends (after_health store options cs report state s).1
    after_health-Sends cs every =
        rw (remember-store cs _) (within_limits-Sends _ (confirmed_of state cs) every refl)

    checked_health-Sends :
        (empty intact : Bool) (cs : List Text)
        → All (λ f. contains f scanned ≡ false) cs
        → is_empty scanned ≡ empty
        → markers_intact (keys state.files) scanned ≡ intact
        → GuardedSends (checked_health store options empty intact cs report state s).1
    checked_health-Sends true intact cs a e m = (0, stop, inl refl)
    checked_health-Sends false false cs a e m = (0, stop, inl refl)
    checked_health-Sends false true cs a e m =
        after_health-Sends cs (confirmed-IsDeletable state scanned e m cs a)

    infer_missing-Sends :
        (cs : List Text)
        → All (λ f. contains f scanned ≡ false) cs
        → GuardedSends (infer_missing store options cs scanned report state s).1
    infer_missing-Sends [] a = (0, stop, inl refl)
    infer_missing-Sends (c ∷ cs) a = checked_health-Sends _ _ (c ∷ cs) a refl refl

    infer_guarded_deletions-Sends :
        GuardedSends (infer_guarded_deletions store options scanned report state s).1
    unfolding infer_guarded_deletions
    infer_guarded_deletions-Sends =
        infer_missing-Sends (missing state.files scanned)
          (All-keep _ _ (keys state.files) λ f absent. ground arith)

    -- Whatever inferGuardedDeletions answers, an exception included, it changes the store only by
    -- proposals of deletions: each of a tracked file, with its tracked revision as the base, that
    -- is absent from a scan which found some file and every tracked structural marker, and that
    -- was pending from the scan before. None is sent, or no more than a batch that is within the
    -- maximum and not above the percentage. A report that is returned adds only such files to the
    -- deleted ones, and at most the maximum.
    pub infer_guarded_deletions-IsGuarded :
        IsGuarded store options scanned report state s
          (infer_guarded_deletions store options scanned report state s)
    infer_guarded_deletions-IsGuarded =
        let sent = infer_guarded_deletions-Sends in
        record {
          sent = sent.0;
          sends = sent.1;
          within = sent.2;
          reported = of (infer_guarded_deletions store options scanned report state s) refl;
        }
      where
        of :
            (w : Result (LocalSyncReport × LocalSyncState) × S)
            → infer_guarded_deletions store options scanned report state s ≡ w
            → Reports options scanned report state w.0
        of (err e, t) h = tt
        of (ok q, t) h = infer_guarded_deletions-Deleted store options scanned report state s t q h
