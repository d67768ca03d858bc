-- ===== src/Revisions/Memory/Answers.antt =====
-- What the answers to a proposal mean, in src/sync/memory-revision-store.ts.
use brain_mcp_server.Prelude.{
  Bool, ◌⊎◌, arith, text_beq, text_beq_iff, option_eq, ◌+◌, true, false, ◌≡◌, refl, Option, none,
  some, Text, text_eq, find,
}
use brain_mcp_server.Policy.{Runtime, ok, err}
use brain_mcp_server.Revisions.{
  Revision, FileHead, RevisionProposal, accepted, unchanged, conflict, ConflictRecord,
  ConflictInput, head_of,
}
use brain_mcp_server.Prelude.Maps.{get}
use brain_mcp_server.Revisions.Admission.{assert_replay}
use brain_mcp_server.Revisions.Memory.{
  key, Store, current_of, record_conflict, record_found, is_same_conflict, or_null, id_of,
  head_or_null, revision_name,
}
use brain_mcp_server.Revisions.Memory.Writes.{Written, log_md, is_stale_base}
use brain_mcp_server.Revisions.Memory.Proposals.{earlier}

-- Files, history and counters are as they were.
pub record IsSameFiles (s t : Store) : Type 0 where
  pub heads : t.heads ≡ s.heads
  pub revisions : t.revisions ≡ s.revisions
  pub changes : t.changes ≡ s.changes
  pub revision_seq : t.revision_seq ≡ s.revision_seq
  pub cursor_seq : t.cursor_seq ≡ s.cursor_seq

pub IsSameFiles-refl : (s : Store) → IsSameFiles s s
IsSameFiles-refl s = record {
  heads = refl;
  revisions = refl;
  changes = refl;
  revision_seq = refl;
  cursor_seq = refl;
}

pub record_conflict-IsSameFiles :
    (now : Text) (input : ConflictInput) (s : Store) → IsSameFiles s (record_conflict now input s).1
unfolding record_conflict
record_conflict-IsSameFiles now input s = of (find (is_same_conflict input) s.conflicts)
  where
    of : (f : Option ConflictRecord) → IsSameFiles s (record_found now input f s).1
    of none = record {
      heads = refl;
      revisions = refl;
      changes = refl;
      revision_seq = refl;
      cursor_seq = refl;
    }
    of (some c) = IsSameFiles-refl s

-- The base of a proposal: no head or a tombstone where it names none, and otherwise the head that it names.
abbrev pub IsBase : Option Text → Option Revision → Type 0
IsBase none none = Unit
IsBase none (some current) = current.deleted ≡ true
IsBase (some base) none = ⊥
IsBase (some base) (some current) = base ≡ current.revision_id

pub is_stale_base-IsBase :
    (base : Option Text) (current : Option Revision)
    → is_stale_base base current ≡ false
    → IsBase base current
unfolding is_stale_base
is_stale_base-IsBase none none h = tt
is_stale_base-IsBase none (some current) h = ground (arith, h)
is_stale_base-IsBase (some base) none h = ground (arith, h)
is_stale_base-IsBase (some base) (some current) h =
    ground (arith, h, text_beq_iff base current.revision_id)

pub is_stale_base-ne-IsBase :
    (base : Option Text) (current : Option Revision)
    → is_stale_base base current ≡ true
    → ¬ IsBase base current
unfolding is_stale_base
is_stale_base-ne-IsBase none none h b = ground (arith, h)
is_stale_base-ne-IsBase none (some current) h b = ground (arith, h, b)
is_stale_base-ne-IsBase (some base) none h b = b
is_stale_base-ne-IsBase (some base) (some current) h b =
    ground (arith, h, b, text_beq_iff base current.revision_id)

-- The revision of an accepted proposal, over the head that it was based on.
pub record IsNew (rt : Runtime) (input : RevisionProposal) (s : Store) (r : Revision) : Type 0 where
  pub base : IsBase input.base_revision_id (current_of s input.brain_id input.filename)
  pub id : r.revision_id ≡ revision_name (s.revision_seq + 1)
  pub parent : r.parent_revision_id ≡ or_null (id_of (current_of s input.brain_id input.filename))
  pub brain_id : r.brain_id ≡ input.brain_id
  pub filename : r.filename ≡ input.filename
  pub content : r.content ≡ input.content
  pub content_hash : r.content_hash ≡ rt.sha256 input.content
  pub live : r.deleted ≡ false

-- It is stored, and it is the head of its file, which only the entry in LOG.md can replace if it is that
-- file. The files other than these two keep their heads, and the conflicts that are recorded stay.
pub record IsWrite (rt : Runtime) (input : RevisionProposal) (s t : Store) (r : Revision)
    : Type 0 where
  pub new : IsNew rt input s r
  pub stored : get r.revision_id t.revisions ≡ some r
  pub is_head :
      (text_beq (key input.brain_id log_md) (key input.brain_id input.filename) ≡ true)
      ⊎ (current_of t input.brain_id input.filename ≡ some r)
  pub others :
      (brain_id filename : Text)
      → text_beq (key input.brain_id input.filename) (key brain_id filename) ≡ false
      → text_beq (key input.brain_id log_md) (key brain_id filename) ≡ false
      → current_of t brain_id filename ≡ current_of s brain_id filename
  pub conflicts :
      (p : ConflictRecord → Bool) (c : ConflictRecord)
      → find p s.conflicts ≡ some c
      → find p t.conflicts ≡ some c

-- A conflict: the base was not the head, and no file changed.
pub record IsConflict (input : RevisionProposal) (s t : Store) (head : Option FileHead)
    : Type 0 where
  pub stale : ¬ IsBase input.base_revision_id (current_of s input.brain_id input.filename)
  pub current : head ≡ head_or_null (current_of s input.brain_id input.filename)
  pub files : IsSameFiles s t

-- Nothing to do: the revision of the same operation, which the replay check lets pass, or the live head
-- with the same content.
abbrev pub IsRepeated : Runtime → RevisionProposal → Store → Revision → Type 0
IsRepeated rt input s r =
    ((earlier input.write_context input.brain_id s ≡ some r) × (assert_replay rt input r ≡ ok tt))
    ⊎ ((current_of s input.brain_id input.filename ≡ some r)
        × (r.deleted ≡ false)
        × (r.content_hash ≡ rt.sha256 input.content))

-- What each answer to a proposal means.
abbrev pub Answer : Runtime → RevisionProposal → Store → Written → Type 0
Answer rt input s (ok (accepted head r), t) = (head ≡ head_of r) × IsWrite rt input s t r
Answer rt input s (ok (unchanged head r), t) =
    (head ≡ head_of r) × (t ≡ s) × IsRepeated rt input s r
Answer rt input s (ok (conflict c head), t) = IsConflict input s t head
Answer rt input s (err e, t) = t ≡ s
