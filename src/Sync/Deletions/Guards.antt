-- ===== src/Sync/Deletions/Guards.antt =====
-- The guards of `inferGuardedDeletions` of src/sync/local-sync-agent.ts: which files can be deleted.
use brain_mcp_server.Prelude.{
  ◌||◌, ◌⊎◌, all, ◌≡◌, refl, ap, ◌∙◌, sym, ◌≤◌, ℕ, Bool, true, false, not, ◌&&◌, List, [], ◌∷◌,
  ◌++◌, Text, text_eq, All, All-keep, contains, is_empty, length, arith, Bool-cases, inl, inr, ◌+◌,
  All-append, length-append, subst,
}
use brain_mcp_server.Prelude.Maps.{keys, get}
use brain_mcp_server.Policy.{Result, ok, err, ok_inj}
use brain_mcp_server.Revisions.{RevisionProposalResult, accepted, unchanged, conflict}
use brain_mcp_server.Sync.{
  LocalSyncState, LocalSyncReport, RevisionStore, SyncOptions, and_then-eq-ok, health_marker_files,
}
use brain_mcp_server.Sync.Deletions.{
  missing, markers_intact, pending_of, confirmed_of, is_over_threshold, after_deletion,
  delete_confirmed, infer_guarded_deletions, propose_tracked, remember, within_limits, after_health,
  checked_health, infer_missing,
}

-- The names that a deletion may have: in the batch.
abbrev Among : List Text → Text → Type 0
Among batch f = contains f batch ≡ true

-- What a run has deleted, at most a given number of files that satisfy `P`.
pub record Deleted (P : Text → Type 0) (most : ℕ) (before after : LocalSyncReport) : Type 0 where
  pub names : List Text
  pub reported : after.deleted ≡ before.deleted ++ names
  pub allowed : All P names
  pub few : length names ≤ most

append-nil : {A : Type 0} (xs : List A) → xs ≡ xs ++ []
append-nil [] = refl
append-nil (x ∷ xs) = ap (λ t. x ∷ t) (append-nil xs)

append_assoc : {A : Type 0} (xs ys zs : List A) → (xs ++ ys) ++ zs ≡ xs ++ (ys ++ zs)
append_assoc [] ys zs = refl
append_assoc (x ∷ xs) ys zs = ap (λ t. x ∷ t) (append_assoc xs ys zs)

module _ {S : Type 0} (store : RevisionStore S) (options : SyncOptions) (P : Text → Type 0) where
  none_deleted : (most : ℕ) (r t : LocalSyncReport) → t.deleted ≡ r.deleted → Deleted P most r t
  none_deleted most r t h = record {
    names = [];
    reported = h ∙ append-nil r.deleted;
    allowed = tt;
    few = omega arith;
  }

  after_deletion-Deleted :
      (f : Text) (result : RevisionProposalResult) (p : LocalSyncReport × LocalSyncState)
      → P f
      → Deleted P 1 p.0 (after_deletion f result p).0
  after_deletion-Deleted f (accepted head r) (report, state) h = record {
    names = f ∷ [];
    reported = refl;
    allowed = (h, tt);
    few = omega arith;
  }
  after_deletion-Deleted f (unchanged head r) (report, state) h = record {
    names = f ∷ [];
    reported = refl;
    allowed = (h, tt);
    few = omega arith;
  }
  after_deletion-Deleted f (conflict c head) (report, state) h = none_deleted 1 report _ refl

  Deleted-trans :
      (m n most : ℕ) (r s t : LocalSyncReport)
      → m + n ≤ most
      → Deleted P m r s
      → Deleted P n s t
      → Deleted P most r t
  Deleted-trans m n most r s t h d e = record {
    names = d.names ++ e.names;
    reported =
        e.reported ∙ ap (λ x. x ++ e.names) d.reported ∙ append_assoc r.deleted d.names e.names;
    allowed = All-append P d.names e.names d.allowed e.allowed;
    few = omega (arith, h, d.few, e.few, length-append d.names e.names);
  }

  delete_confirmed-Deleted :
      (fs : List Text) (p q : LocalSyncReport × LocalSyncState) (s t : S)
      → All P fs
      → delete_confirmed store options fs p s ≡ (ok q, t)
      → Deleted P (length fs) p.0 q.0
  delete_confirmed-Deleted [] p q s t every h =
      let same : ok p ≡ ok q = (unfold delete_confirmed in ap (λ x. x.0) h) in
      none_deleted 0 p.0 q.0 (ap (λ x. x.0.deleted) (sym (ok_inj same)))
  delete_confirmed-Deleted (f ∷ fs) p q s t every h =
      let (result, u, _, rest) =
        and_then-eq-ok (propose_tracked store options f (get f p.1.files) s)
          (λ result u. delete_confirmed store options fs (after_deletion f result p) u) q t
          (unfold delete_confirmed in h) in
      Deleted-trans 1 (length fs) (length (f ∷ fs)) p.0 (after_deletion f result p).0 q.0
        (omega arith) (after_deletion-Deleted f result p every.0)
        (delete_confirmed-Deleted fs (after_deletion f result p) q u t every.1 rest)

  within_limits-Deleted :
      (over : Bool) (fs : List Text) (report : LocalSyncReport) (state : LocalSyncState)
      (q : LocalSyncReport × LocalSyncState) (s t : S)
      → All P fs
      → (over ≡ false → length fs ≤ options.max_deletes)
      → within_limits store options over fs report state s ≡ (ok q, t)
      → Deleted P options.max_deletes report q.0
  within_limits-Deleted true fs report state q s t every few h =
      none_deleted _ report q.0 (ap (λ x. x.0.deleted) (sym (ok_inj (ap (λ x. x.0) h))))
  within_limits-Deleted false fs report state q s t every few h =
      let d = delete_confirmed-Deleted fs (report, state) q s t every h in
      record {
        names = d.names;
        reported = d.reported;
        allowed = d.allowed;
        few = omega (arith, d.few, few refl);
      }

remember-eq-ok :
    {S : Type 0} (store : RevisionStore S) (options : SyncOptions) (candidates : List Text)
    (w : Result (LocalSyncReport × LocalSyncState) × S) (q : LocalSyncReport × LocalSyncState)
    (t : S)
    → remember store options candidates w ≡ (ok q, t)
    → (p : LocalSyncReport × LocalSyncState) × (w ≡ (ok p, t)) × (p.0 ≡ q.0)
remember-eq-ok store options candidates (err e, s) q t h = cc
remember-eq-ok store options candidates (ok (report, state), s) q t h = (
  (report, state),
  ap (λ u. (ok (report, state), u)) (ap (λ x. x.1) h),
  ap (λ x. x.0) (ok_inj (ap (λ x. x.0) h)),
)

-- A marker that is tracked is in the scan.
abbrev pub IsThere : List Text → List Text → Text → Type 0
IsThere tracked scanned marker =
    (contains marker tracked ≡ false) ⊎ (contains marker scanned ≡ true)

pub markers_intact-IsThere :
    (tracked scanned : List Text)
    → markers_intact tracked scanned ≡ true
    → All (IsThere tracked scanned) health_marker_files
markers_intact-IsThere tracked scanned h = of health_marker_files h
  where
    of :
        (markers : List Text)
        → all (λ marker. not (contains marker tracked) || contains marker scanned) markers ≡ true
        → All (IsThere tracked scanned) markers
    of [] h = tt
    of (marker ∷ markers) h = elim (Bool-cases (contains marker tracked)) [
      | inr out ↦ (inl out, of markers (rw out at h))
      | inl known ↦ elim (Bool-cases (contains marker scanned)) [
        | inl there ↦ (inr there, of markers (rw (known, there) at h))
        | inr gone ↦ absurd (ground (arith, rw (known, gone) at h))
      ]
    ]

-- Absent from a healthy scan, and from the one before.
pub record IsDeletable (state : LocalSyncState) (scanned : List Text) (f : Text) : Type 0 where
  pub found_some : is_empty scanned ≡ false
  pub markers : All (IsThere (keys state.files) scanned) health_marker_files
  pub absent : contains f scanned ≡ false
  pub absent_before : contains f (pending_of state) ≡ true

-- The confirmed candidates of a healthy scan.
pub confirmed-IsDeletable :
    (state : LocalSyncState) (scanned : List Text)
    → is_empty scanned ≡ false
    → markers_intact (keys state.files) scanned ≡ true
    → (fs : List Text) → All (λ f. contains f scanned ≡ false) fs
    → All (IsDeletable state scanned) (confirmed_of state fs)
confirmed-IsDeletable state scanned e m [] a = tt
confirmed-IsDeletable state scanned e m (f ∷ fs) a =
    elim (Bool-cases (contains f (pending_of state))) [
      | inl was ↦ rw was (
        record {
          found_some = e;
          markers = markers_intact-IsThere (keys state.files) scanned m;
          absent = a.0;
          absent_before = was;
        },
        confirmed-IsDeletable state scanned e m fs a.1,
      )
      | inr other ↦ rw other (confirmed-IsDeletable state scanned e m fs a.1)
    ]

module _ {S : Type 0} (store : RevisionStore S) (options : SyncOptions) (scanned : List Text)
    (report : LocalSyncReport) (state : LocalSyncState) (s t : S)
    (q : LocalSyncReport × LocalSyncState) where
  after_health-Deleted :
      (cs : List Text)
      → All (λ f. contains f scanned ≡ false) cs
      → is_empty scanned ≡ false
      → markers_intact (keys state.files) scanned ≡ true
      → after_health store options cs report state s ≡ (ok q, t)
      → Deleted (IsDeletable state scanned) options.max_deletes report q.0
  after_health-Deleted cs absent e m h =
      let confirmed = confirmed_of state cs in
      let (p, h', same) = remember-eq-ok store options cs _ q t h in
      let d =
        within_limits-Deleted store options (IsDeletable state scanned) _ confirmed report state p s
          t (confirmed-IsDeletable state scanned e m cs absent) (λ within. few confirmed within)
          h' in
      subst (Deleted (IsDeletable state scanned) options.max_deletes report) same d
    where
      few :
          (fs : List Text)
          → (not (is_empty fs) && is_over_threshold options (length fs) (length (keys state.files)))
            ≡ false
          → length fs ≤ options.max_deletes
      few [] w = omega arith
      few (f ∷ fs) w = ground arith

  checked_health-Deleted :
      (empty intact : Bool) (cs : List Text)
      → All (λ f. contains f scanned ≡ false) cs
      → is_empty scanned ≡ empty
      → markers_intact (keys state.files) scanned ≡ intact
      → checked_health store options empty intact cs report state s ≡ (ok q, t)
      → Deleted (IsDeletable state scanned) options.max_deletes report q.0
  checked_health-Deleted true intact cs a e m h =
      none_deleted store options _ _ report q.0
        (ap (λ x. x.0.deleted) (sym (ok_inj (ap (λ x. x.0) h))))
  checked_health-Deleted false false cs a e m h =
      none_deleted store options _ _ report q.0
        (ap (λ x. x.0.deleted) (sym (ok_inj (ap (λ x. x.0) h))))
  checked_health-Deleted false true cs a e m h = after_health-Deleted cs a e m h

  infer_missing-Deleted :
      (cs : List Text)
      → All (λ f. contains f scanned ≡ false) cs
      → infer_missing store options cs scanned report state s ≡ (ok q, t)
      → Deleted (IsDeletable state scanned) options.max_deletes report q.0
  infer_missing-Deleted [] a h =
      none_deleted store options _ _ report q.0
        (ap (λ x. x.0.deleted) (sym (ok_inj (ap (λ x. x.0) h))))
  infer_missing-Deleted (c ∷ cs) a h = checked_health-Deleted _ _ (c ∷ cs) a refl refl h

  pub infer_guarded_deletions-Deleted :
      infer_guarded_deletions store options scanned report state s ≡ (ok q, t)
      → Deleted (IsDeletable state scanned) options.max_deletes report q.0
  infer_guarded_deletions-Deleted h =
      infer_missing-Deleted (missing state.files scanned)
        (All-keep _ _ (keys state.files) λ f absent. ground arith)
        (unfold infer_guarded_deletions in h)
