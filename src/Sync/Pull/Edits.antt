-- ===== src/Sync/Pull/Edits.antt =====
-- `pullHostedChanges` of src/sync/local-sync-agent.ts never writes over a local edit.
use brain_mcp_server.Prelude.{
  option_eq, if◌then◌else◌, ◌≡◌, refl, ◌∙◌, true, false, Bool, Option, some, List, [], ◌∷◌, Text,
  text_eq, text_beq, inl, inr, All, starts_with, codes, Bool-cases, subst, text_beq_iff,
}
use brain_mcp_server.Prelude.Maps.{get}
use brain_mcp_server.Policy.{BrainWritePolicy, Code, ok, err, >>=-eq-ok, ok_inj, unsafe_sync_path}
use brain_mcp_server.Revisions.{FileHead}
use brain_mcp_server.Sync.{LocalFileSyncState, RevisionStore, LocalFiles, IsSeparate, SyncOptions}
use brain_mcp_server.Sync.Pull.{Pull, is_tracked_hash, report_excluded}
use brain_mcp_server.Sync.Pull.Heads.{pull_held, pull_head, pull_heads}
use brain_mcp_server.Sync.Pull.Spared.{IsUntouched, Leaves, Spared, pull_held-Leaves}

-- A local edit: the file is on the disk with a hash that is not the one that the agent tracks.
pub record IsEdited {S D : Type 0} (local : LocalFiles D) (g hash : Text) (p : Pull S D)
    : Type 0 where
  pub present : local.read_hash g p.disk ≡ some hash
  pub changed : is_tracked_hash (get g p.state.files) (some hash) ≡ false

-- A head of another file, or with another content.
abbrev pub IsForeign : Text → Text → FileHead → Type 0
IsForeign g hash head = text_beq head.filename g ≡ true → text_beq hash head.content_hash ≡ false

module _ {S D : Type 0} (store : RevisionStore S) (local : LocalFiles D) (options : SyncOptions)
    (policy : Option BrainWritePolicy)
    (admit : Text → Option LocalFileSyncState → Text → S → D → Option (Text × Code))
    (separate : IsSeparate local) (g hash : Text) where
  pull_head-Leaves :
      (head : FileHead) (p : Pull S D)
      → IsEdited local g hash p
      → IsForeign g hash head
      → Leaves local g p (pull_head store local options policy admit head p)
  unfolding pull_head
  pull_head-Leaves head p e foreign =
      of (starts_with head.filename (codes "sources/")) (local.is_safe_path head.filename)
    where
      spared :
          Spared g head (get head.filename p.state.files) (local.read_hash head.filename p.disk)
      spared = elim (Bool-cases (text_beq head.filename g)) [
        | inl same ↦
            let h : head.filename ≡ g = (text_beq_iff head.filename g).0 same in
            inr (hash, rw h e.present, rw h e.changed, foreign same)
        | inr o ↦ inl o
      ]

      of :
          (source safe : Bool)
          → Leaves local g p (
              if source
              then ok (report_excluded head.filename p)
              else if safe
              then pull_held store local options policy admit head
                  (get head.filename p.state.files)
                  (local.read_hash head.filename p.disk)
                  (get head.filename p.state.admission_holds)
                  p
              else err (unsafe_sync_path head.filename))
      of true safe = record { bytes = refl; known = refl }
      of false true =
          pull_held-Leaves store local options policy admit separate g head _ _ _ p spared
      of false false = tt

  IsEdited-moved :
      (p q : Pull S D) → IsEdited local g hash p → IsUntouched local g p q → IsEdited local g hash q
  IsEdited-moved p q e u = record { present = u.bytes ∙ e.present; changed = rw u.known e.changed }

  -- Whatever heads are pulled, a local edit that none of them already holds stays on the disk, and
  -- stays an edit to the agent.
  pub pull_heads-IsEdited :
      (heads : List FileHead) (p q : Pull S D)
      → IsEdited local g hash p
      → All (IsForeign g hash) heads
      → pull_heads store local options policy admit heads p ≡ ok q
      → IsEdited local g hash q
  pull_heads-IsEdited [] p q e a h =
      let same : ok p ≡ ok q = (unfold pull_heads in h) in
      subst (IsEdited local g hash) (ok_inj same) e
  pull_heads-IsEdited (head ∷ heads) p q e a h =
      let (r, first, rest) =
        >>=-eq-ok (pull_head store local options policy admit head p)
          (pull_heads store local options policy admit heads) q (unfold pull_heads in h) in
      pull_heads-IsEdited heads r q
        (IsEdited-moved p r e (subst (Leaves local g p) first (pull_head-Leaves head p e a.0))) a.1
        rest
