-- ===== src/Revisions/Memory/Published.antt =====
-- What the writes of src/sync/memory-revision-store.ts leave in the maps, that of LOG.md included.
use brain_mcp_server.Prelude.{
  ◌+◌, ◌++◌, [], ◌∷◌, List, Bool, Bool-cases, inl, inr, false, ◌≡◌, refl, ◌∙◌, Option, none, some,
  Text, text_eq, text_beq, if◌then◌else◌, find,
}
use brain_mcp_server.Prelude.Maps.{get, get-set}
use brain_mcp_server.Policy.{Runtime, BrainWritePolicy, BrainWriteContext, err, Error}
use brain_mcp_server.Policy.Deployment.{Deployment}
use brain_mcp_server.Revisions.{Revision, RevisionProposal, ConflictInput, ConflictRecord}
use brain_mcp_server.Revisions.Memory.{
  Store, current_of, publish, advance, key, revision_name, record_conflict, record_found,
  is_same_conflict, content_of,
}
use brain_mcp_server.Revisions.Memory.Writes.{Call, Written, write_log, new_revision, log_md}
use brain_mcp_server.Revisions.Memory.Proposals.{apply_log, apply_step}
use brain_mcp_server.Revisions.Memory.Outcome.{
  before, Outcome, refused, repeated, kept, stale, written, with_admitted, apply_step-Outcome,
}

-- The head of a file after its revision has been published, and the heads of the others.
pub current_of-publish :
    (r : Revision) (s : Store) (brain_id filename : Text)
    → current_of (publish r (advance s)) brain_id filename ≡ (
        if text_beq (key r.brain_id r.filename) (key brain_id filename)
        then some r
        else current_of s brain_id filename)
unfolding publish
current_of-publish r s brain_id filename =
    get-set (key r.brain_id r.filename) (key brain_id filename) r s.heads

find-append :
    (p : ConflictRecord → Bool) (ys xs : List ConflictRecord) (c : ConflictRecord)
    → find p xs ≡ some c
    → find p (xs ++ ys) ≡ some c
find-append p ys [] c h = cc
find-append p ys (x ∷ xs) c h = elim (Bool-cases (p x)) [
  | inl e ↦ rw e (rw e at h)
  | inr e ↦ rw e (find-append p ys xs c (rw e at h))
]

-- At most the head of LOG.md changes, one revision is added under the next id, and the conflicts that are
-- recorded stay.
pub record LogsOnly (brain_id : Text) (s t : Store) : Type 0 where
  pub heads :
      (b filename : Text)
      → text_beq (key brain_id log_md) (key b filename) ≡ false
      → current_of t b filename ≡ current_of s b filename
  pub revisions :
      (id : Text)
      → text_beq (revision_name (s.revision_seq + 1)) id ≡ false
      → get id t.revisions ≡ get id s.revisions
  pub conflicts :
      (p : ConflictRecord → Bool) (c : ConflictRecord)
      → find p s.conflicts ≡ some c
      → find p t.conflicts ≡ some c

pub LogsOnly-refl : (brain_id : Text) (s : Store) → LogsOnly brain_id s s
LogsOnly-refl brain_id s = record {
  heads = λ b f n. refl;
  revisions = λ id n. refl;
  conflicts = λ p c h. h;
}

record_conflict-LogsOnly :
    (brain_id now : Text) (input : ConflictInput) (s : Store)
    → LogsOnly brain_id s (record_conflict now input s).1
unfolding record_conflict
record_conflict-LogsOnly brain_id now input s = of (find (is_same_conflict input) s.conflicts)
  where
    of : (f : Option ConflictRecord) → LogsOnly brain_id s (record_found now input f s).1
    of none = record {
      heads = λ b f n. refl;
      revisions = λ id n. refl;
      conflicts = λ p c h. find-append p _ s.conflicts c h;
    }
    of (some c) = LogsOnly-refl brain_id s

-- Where the write of LOG.md cannot write, the log leaves the store as it is.
write_log-store :
    (rt : Runtime) (call : Call) (policy : Option BrainWritePolicy)
    (context : Option BrainWriteContext) (r : Revision) (text : Text) (s : Store)
    → (write_log (λ i t. (err (Error.file_not_found log_md), t)) rt call policy context r text s).1
      ≡ s
unfolding write_log
write_log-store rt call (some p) (some c) r text s = refl
write_log-store rt call (some p) none r text s = refl
write_log-store rt call none context r text s = refl

published-LogsOnly :
    (r : Revision) (s : Store)
    → r.filename ≡ log_md
    → r.revision_id ≡ revision_name (s.revision_seq + 1)
    → LogsOnly r.brain_id s (publish r (advance s))
published-LogsOnly r s name id = record {
  heads = λ b filename n. current_of-publish r s b filename ∙ (rw name (rw n refl));
  revisions = λ k n. unfold publish in get-set r.revision_id k r s.revisions ∙ (rw id (rw n refl));
  conflicts = λ p c h. unfold publish in h;
}

pub apply_log-LogsOnly :
    (rt : Runtime) (d : Deployment) (call : Call) (input : RevisionProposal) (s : Store)
    → input.filename ≡ log_md
    → LogsOnly input.brain_id s (apply_log rt d call input s).1
unfolding apply_log
apply_log-LogsOnly rt d call input s name =
    of (apply_step none_written rt d call input s)
      (apply_step-Outcome none_written rt d call input s)
  where
    none_written : RevisionProposal → Store → Written
    none_written i t = (err (Error.file_not_found log_md), t)

    of : (w : Written) → Outcome none_written rt d call input s w → LogsOnly input.brain_id s w.1
    of w (refused e h) = rw h (LogsOnly-refl input.brain_id s)
    of w (repeated r f g h) = rw h (LogsOnly-refl input.brain_id s)
    of w (kept r f g h) = rw h (LogsOnly-refl input.brain_id s)
    of w (stale f h) = rw h (record_conflict-LogsOnly input.brain_id call.now _ s)
    of w (written policy context a f g h) =
        let r =
          new_revision rt call (with_admitted input context) (before none_written rt d call input s)
            s in
        rw h (
          rw
            (write_log-store rt call policy context r
              (content_of (before none_written rt d call input s)) (publish r (advance s)))
            (unfold new_revision in published-LogsOnly r s name refl))
