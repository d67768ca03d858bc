-- ===== src/Revisions/Memory/Cas.antt =====
-- Compare and set: what `proposeRevision` of src/sync/memory-revision-store.ts does to the heads, when it
-- answers with a conflict, and which files it leaves alone.
use brain_mcp_server.Prelude.{
  ◌⊎◌, inl, inr, ◌∙◌, not, ◌&&◌, arith, ◌==◌, if◌then◌else◌, Bool-cases, text_beq, text_beq_iff,
  text_beq_refl, option_eq, subst, ◌+◌, true, false, ◌≡◌, refl, some_inj, Option, none, some, Text,
  text_eq, ap,
}
use brain_mcp_server.Policy.{Runtime, BrainWritePolicy, BrainWriteContext, ok, err}
use brain_mcp_server.Policy.Deployment.{Deployment}
use brain_mcp_server.Revisions.{Revision, RevisionProposal}
use brain_mcp_server.Prelude.Maps.{get-set_self}
use brain_mcp_server.Revisions.Memory.Names.{revision_name-injective}
use brain_mcp_server.Revisions.Memory.Published.{
  current_of-publish, LogsOnly, LogsOnly-refl, apply_log-LogsOnly,
}
use brain_mcp_server.Revisions.Memory.{
  key, publish, advance, Store, current_of, content_of, revision_name,
}
use brain_mcp_server.Revisions.Memory.Writes.{
  Call, Written, is_same_content, log_md, new_revision, write_log, log_proposal, and_logged,
}
use brain_mcp_server.Revisions.Memory.Proposals.{
  apply_log, apply_revision, propose_revision, or_restore,
}
use brain_mcp_server.Revisions.Memory.Outcome.{
  before, Outcome, refused, repeated, kept, stale, written, with_admitted, apply_step-Outcome,
}
use brain_mcp_server.Revisions.Memory.Answers.{
  record_conflict-IsSameFiles, IsBase, is_stale_base-IsBase, is_stale_base-ne-IsBase, IsNew,
  IsWrite, Answer,
}

new_revision-IsNew :
    (rt : Runtime) (call : Call) (input : RevisionProposal) (context : Option BrainWriteContext)
    (s : Store)
    → IsBase input.base_revision_id (current_of s input.brain_id input.filename)
    → IsNew rt input s (
        new_revision rt call
          (with_admitted input context)
          (current_of s input.brain_id input.filename)
          s)
unfolding new_revision
new_revision-IsNew rt call input context s b = record {
  base = b;
  id = refl;
  parent = refl;
  brain_id = refl;
  filename = refl;
  content = refl;
  content_hash = refl;
  live = refl;
}

same_content-head :
    (rt : Runtime) (content : Text) (current : Option Revision) (r : Revision)
    → current ≡ some r
    → is_same_content rt content current ≡ true
    → (r.deleted ≡ false) × (r.content_hash ≡ rt.sha256 content)
unfolding is_same_content
same_content-head rt content none r e h = cc
same_content-head rt content (some c) r e h =
    let same : c ≡ r = some_inj e in
    let q =
      (subst (λ (x : Revision). (not x.deleted && x.content_hash == rt.sha256 content) ≡ true) same
        h) in
    (ground (arith, q), ground (arith, q, text_beq_iff r.content_hash (rt.sha256 content)))

module _ (rt : Runtime) (d : Deployment) (call : Call) (input : RevisionProposal) (s : Store) where
  -- The revision that is published, after a log that touches LOG.md alone.
  published-IsWrite :
      (r : Revision) (t : Store)
      → IsNew rt input s r
      → LogsOnly input.brain_id (publish r (advance s)) t
      → IsWrite rt input s t r
  unfolding publish
  published-IsWrite r t n log = record {
    new = n;
    stored = log.revisions r.revision_id other_id ∙ (get-set_self r.revision_id r s.revisions);
    is_head =
        of (Bool-cases (text_beq (key input.brain_id log_md) (key input.brain_id input.filename)));
    others = λ b f n1 n2. log.heads b f n2 ∙ (current_of-publish r s b f ∙ elsewhere b f n1);
    conflicts = log.conflicts;
  }
    where
      other_id : text_beq (revision_name (s.revision_seq + 1 + 1)) r.revision_id ≡ false
      other_id =
          elim (Bool-cases (text_beq (revision_name (s.revision_seq + 1 + 1)) r.revision_id)) [
            | inr differs ↦ differs
            | inl same ↦ absurd (
                omega (
                  arith,
                  revision_name-injective (s.revision_seq + 1 + 1) (s.revision_seq + 1)
                      ((text_beq_iff _ _).0 same ∙ n.id),
                ))
          ]

      same_key : key r.brain_id r.filename ≡ key input.brain_id input.filename
      same_key = ap (λ x. key x r.filename) n.brain_id ∙ ap (λ x. key input.brain_id x) n.filename

      elsewhere :
          (b f : Text)
          → text_beq (key input.brain_id input.filename) (key b f) ≡ false
          → (if text_beq (key r.brain_id r.filename) (key b f) then some r else current_of s b f)
            ≡ current_of s b f
      elsewhere b f differs = rw same_key (rw differs refl)

      published_head : current_of (publish r (advance s)) input.brain_id input.filename ≡ some r
      published_head =
          current_of-publish r s input.brain_id input.filename
          ∙ (rw same_key (rw (text_beq_refl (key input.brain_id input.filename)) refl))

      of :
          (text_beq (key input.brain_id log_md) (key input.brain_id input.filename) ≡ true)
            ⊎ (text_beq (key input.brain_id log_md) (key input.brain_id input.filename) ≡ false)
          → (text_beq (key input.brain_id log_md) (key input.brain_id input.filename) ≡ true)
            ⊎ (current_of t input.brain_id input.filename ≡ some r)
      of (inl is_log) = inl is_log
      of (inr differs) = inr (log.heads input.brain_id input.filename differs ∙ published_head)

  log_proposal-LogsOnly :
      (p : BrainWritePolicy) (c : BrainWriteContext) (r : Revision) (text : Text) (u : Store)
      → r.brain_id ≡ input.brain_id
      → LogsOnly input.brain_id u (apply_log rt d call (log_proposal rt call p c r text u) u).1
  unfolding log_proposal
  log_proposal-LogsOnly p c r text u e =
      subst
        (λ (b : Text). LogsOnly b u (apply_log rt d call (log_proposal rt call p c r text u) u).1) e
        (apply_log-LogsOnly rt d call (log_proposal rt call p c r text u) u refl)

  write_log-Answer :
      (policy : Option BrainWritePolicy) (context : Option BrainWriteContext) (r : Revision)
      (text : Text)
      → IsNew rt input s r
      → Answer rt input s (
          or_restore s
            (write_log (apply_log rt d call) rt call policy context r text (publish r (advance s))))
  unfolding write_log
  write_log-Answer (some p) (some c) r text n =
      of
        (apply_log rt d call (log_proposal rt call p c r text (publish r (advance s)))
          (publish r (advance s)))
        (log_proposal-LogsOnly p c r text (publish r (advance s)) n.brain_id)
    where
      of :
          (v : Written)
          → LogsOnly input.brain_id (publish r (advance s)) v.1
          → Answer rt input s (or_restore s (and_logged r v))
      of (ok x, v) log = (refl, published-IsWrite r v n log)
      of (err e, v) log = refl
  write_log-Answer (some p) none r text n =
      (refl, published-IsWrite r _ n (LogsOnly-refl input.brain_id _))
  write_log-Answer none context r text n =
      (refl, published-IsWrite r _ n (LogsOnly-refl input.brain_id _))

  Outcome-Answer :
      (w : Written)
      → Outcome (apply_log rt d call) rt d call input s w
      → Answer rt input s (or_restore s w)
  Outcome-Answer w (refused e h) = rw h refl
  Outcome-Answer w (repeated r f g h) = rw h (refl, refl, inl (f, g))
  Outcome-Answer w (kept r f g h) =
      let same = same_content-head rt input.content _ r f g in
      rw h (refl, refl, inr (f, same.0, same.1))
  Outcome-Answer w (stale f h) = rw h (record {
    stale = is_stale_base-ne-IsBase input.base_revision_id _ f;
    current = refl;
    files = record_conflict-IsSameFiles call.now _ s;
  })
  Outcome-Answer w (written policy context a f g h) = rw h (
      write_log-Answer policy context _
        (content_of (before (apply_log rt d call) rt d call input s))
        (new_revision-IsNew rt call input context s
          (is_stale_base-IsBase input.base_revision_id _ f)))

  -- Every answer of proposeRevision. Where it is accepted, the base of the proposal was the head
  -- of the file (or it named none, and there was none or a tombstone), and the new revision, with
  -- the next id, the content of the proposal and that head as its parent, is stored and is the
  -- head of its file, unless the file is LOG.md, whose head may be the entry of the log; no other
  -- file but LOG.md changes its head, and recorded conflicts stay. Where it is unchanged, so is
  -- the store, and the revision given is an earlier one of the same operation that the replay
  -- check lets pass, or the live head with the same hash. A conflict means that the base was not
  -- the head; it gives the head, and files, history and counters are as they were. An error
  -- changes nothing.
  pub propose_revision-Answer : Answer rt input s (propose_revision rt d call input s)
  unfolding propose_revision apply_revision
  propose_revision-Answer =
      Outcome-Answer (apply_revision rt d call input s)
        (apply_step-Outcome (apply_log rt d call) rt d call input s)
