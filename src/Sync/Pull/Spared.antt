-- ===== src/Sync/Pull/Spared.antt =====
-- What one round of `pullHostedChanges` of src/sync/local-sync-agent.ts leaves alone.
use brain_mcp_server.Prelude.{
  option_eq, if◌then◌else◌, ◌≡◌, refl, true, false, Bool, Option, none, some, Text, text_eq,
  text_beq, ◌==◌, ◌⊎◌, inl, inr, arith, Bool-cases, contains,
}
use brain_mcp_server.Prelude.Maps.{get, get-set, get-remove}
use brain_mcp_server.Policy.{BrainWritePolicy, Code, Result, ok, err}
use brain_mcp_server.Revisions.{Revision, FileHead}
use brain_mcp_server.Sync.{
  LocalFileSyncState, AdmissionHold, RevisionStore, LocalFiles, IsSeparate, Mutation, done,
  preserved, SyncOptions, health_marker_files,
}
use brain_mcp_server.Sync.Pull.{Pull, is_tracked_hash, base_of, seen}
use brain_mcp_server.Sync.Pull.Heads.{
  record_pull_conflict, after_removal, pull_tombstone, after_write, write_revision, pull_live,
  pull_admitted, pull_checked, pull_held, is_of_head, has_local_change,
}

module _ {S D : Type 0} (local : LocalFiles D) (g : Text) where
  -- The local bytes of the file and what the agent knows of it are as they were.
  pub record IsUntouched (p q : Pull S D) : Type 0 where
    pub bytes : local.read_hash g q.disk ≡ local.read_hash g p.disk
    pub known : get g q.state.files ≡ get g p.state.files

  abbrev pub Leaves : Pull S D → Result (Pull S D) → Type 0
  Leaves p (ok q) = IsUntouched p q
  Leaves p (err e) = Unit

  Leaves-if :
      (p : Pull S D) (b : Bool) (v w : Result (Pull S D))
      → Leaves p v
      → Leaves p w
      → Leaves p (if b then v else w)
  Leaves-if p true v w l m = l
  Leaves-if p false v w l m = m

-- Another file than the head's, or a local edit of it that is not what is hosted.
abbrev pub Spared : Text → FileHead → Option LocalFileSyncState → Option Text → Type 0
Spared g head tracked local_hash =
    (text_beq head.filename g ≡ false)
    ⊎ ((hash : Text) × (local_hash ≡ some hash)
        × (is_tracked_hash tracked (some hash) ≡ false)
        × (text_beq hash head.content_hash ≡ false))

module _ {S D : Type 0} (store : RevisionStore S) (local : LocalFiles D) (options : SyncOptions)
    (policy : Option BrainWritePolicy)
    (admit : Text → Option LocalFileSyncState → Text → S → D → Option (Text × Code))
    (separate : IsSeparate local) (g : Text) (head : FileHead)
    (tracked : Option LocalFileSyncState) where
  after_removal-IsUntouched :
      (p : Pull S D) (w : Mutation × D)
      → text_beq head.filename g ≡ false
      → local.read_hash g w.1 ≡ local.read_hash g p.disk
      → IsUntouched local g p (after_removal store local options policy admit head tracked w p)
  unfolding after_removal
  after_removal-IsUntouched p (done, d) o h = record {
    bytes = h;
    known = rw (get-remove head.filename g p.state.files) (rw o refl);
  }
  after_removal-IsUntouched p (preserved path current, d) o h = record { bytes = h; known = refl }

  after_write-IsUntouched :
      (p : Pull S D) (w : Mutation × D)
      → text_beq head.filename g ≡ false
      → local.read_hash g w.1 ≡ local.read_hash g p.disk
      → IsUntouched local g p (after_write store local options policy admit head tracked w p)
  unfolding after_write
  after_write-IsUntouched p (done, d) o h = record {
    bytes = h;
    known = rw (get-set head.filename g _ p.state.files) (rw o refl);
  }
  after_write-IsUntouched p (preserved path current, d) o h = record { bytes = h; known = refl }

  pull_tombstone-IsUntouched :
      (marker : Bool) (local_hash : Option Text) (p : Pull S D)
      → Spared g head tracked local_hash
      → IsUntouched local g p
          (pull_tombstone store local options policy admit marker head tracked local_hash p)
  unfolding pull_tombstone
  pull_tombstone-IsUntouched true local_hash p w = record { bytes = refl; known = refl }
  pull_tombstone-IsUntouched false none p (inl o) = record {
    bytes = refl;
    known = rw (get-remove head.filename g p.state.files) (rw o refl);
  }
  pull_tombstone-IsUntouched false none p (inr (hash, e, _, _)) = absurd (cc)
  pull_tombstone-IsUntouched false (some h) p w = of (is_tracked_hash tracked (some h)) refl w
    where
      of :
          (clean : Bool)
          → is_tracked_hash tracked (some h) ≡ clean
          → Spared g head tracked (some h)
          → IsUntouched local g p (
              if clean
              then after_removal store local options policy admit head tracked
                  (local.mutate head.filename none (some h) p.disk)
                  (seen head p)
              else record_pull_conflict store local options policy admit head
                  (base_of tracked)
                  (some h)
                  (seen head p))
      of false e w = record { bytes = refl; known = refl }
      of true e (inl o) =
          let u =
            after_removal-IsUntouched (seen head p)
              (local.mutate head.filename none (some h) p.disk) o
              (separate.others head.filename g none (some h) p.disk o) in
          record { bytes = u.bytes; known = u.known }
      of true e (inr (hash, same, differs, _)) = absurd (cc)

  write_revision-Leaves :
      (local_hash : Option Text) (r : Option Revision) (p : Pull S D)
      → text_beq head.filename g ≡ false
      → Leaves local g p
          (write_revision store local options policy admit head tracked local_hash r p)
  unfolding write_revision
  write_revision-Leaves local_hash none p o = tt
  write_revision-Leaves local_hash (some r) p o =
      elim (Bool-cases (is_of_head store local options policy admit head r)) [
        | inl good ↦ rw good (
            after_write-IsUntouched p
              (local.mutate head.filename (some r.content) local_hash p.disk) o
              (separate.others head.filename g (some r.content) local_hash p.disk o))
        | inr bad ↦ rw bad tt
      ]

  pull_live-Leaves :
      (same_revision same : Bool) (local_hash : Option Text) (p : Pull S D)
      → Spared g head tracked local_hash
      → (local_hash == some head.content_hash) ≡ same
      → Leaves local g p
          (pull_live store local options policy admit same_revision same head tracked local_hash p)
  unfolding pull_live
  pull_live-Leaves true same local_hash p w e = record { bytes = refl; known = refl }
  pull_live-Leaves false true local_hash p (inl o) e = record {
    bytes = refl;
    known = rw (get-set head.filename g _ p.state.files) (rw o refl);
  }
  pull_live-Leaves false true local_hash p (inr (hash, h, _, differs)) e = absurd (ground arith)
  pull_live-Leaves false false local_hash p w e =
      of (has_local_change store local options policy admit tracked local_hash) refl w
    where
      of :
          (changed : Bool)
          → has_local_change store local options policy admit tracked local_hash ≡ changed
          → Spared g head tracked local_hash
          → Leaves local g p (
              if changed
              then ok (
                  record_pull_conflict store local options policy admit head
                    (base_of tracked)
                    local_hash
                    p)
              else write_revision store local options policy admit head tracked local_hash
                  (store.read_revision options.brain_id head.revision_id p.remote)
                  p)
      of true e w = record { bytes = refl; known = refl }
      of false e (inl o) = write_revision-Leaves local_hash _ p o
      of false e (inr (hash, h, t, _)) = absurd (edited tracked local_hash hash h t e)
        where
          edited :
              (k : Option LocalFileSyncState) (l : Option Text) (hash : Text)
              → l ≡ some hash
              → is_tracked_hash k (some hash) ≡ false
              → has_local_change store local options policy admit k l ≡ false
              → ⊥
          edited none l hash h t e = ground arith
          edited (some k) l hash h t e = ground arith

  pull_admitted-Leaves :
      (local_hash : Option Text) (p : Pull S D)
      → Spared g head tracked local_hash
      → Leaves local g p (pull_admitted store local options policy admit head tracked local_hash p)
  unfolding pull_admitted
  pull_admitted-Leaves local_hash p w =
      Leaves-if local g p head.deleted _ _
        (pull_tombstone-IsUntouched (contains head.filename health_marker_files) local_hash p w)
        (pull_live-Leaves _ _ local_hash p w refl)

  pull_checked-Leaves :
      (local_hash : Option Text) (failure : Option (Text × Code)) (p : Pull S D)
      → Spared g head tracked local_hash
      → Leaves local g p
          (pull_checked store local options policy admit head tracked local_hash failure p)
  unfolding pull_checked
  pull_checked-Leaves local_hash none p w = pull_admitted-Leaves local_hash p w
  pull_checked-Leaves local_hash (some (fingerprint, code)) p w = record {
    bytes = refl;
    known = refl;
  }

  pub pull_held-Leaves :
      (local_hash : Option Text) (held : Option AdmissionHold) (p : Pull S D)
      → Spared g head tracked local_hash
      → Leaves local g p (pull_held store local options policy admit head tracked local_hash held p)
  unfolding pull_held
  pull_held-Leaves local_hash none p w = pull_checked-Leaves local_hash _ p w
  pull_held-Leaves local_hash (some held) p w =
      elim (Bool-cases (is_tracked_hash tracked local_hash)) [
        | inl clean ↦ rw clean (pull_checked-Leaves local_hash _ p w)
        | inr changed ↦ rw changed (record { bytes = refl; known = refl })
      ]
