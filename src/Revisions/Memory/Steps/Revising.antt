-- ===== src/Revisions/Memory/Steps/Revising.antt =====
-- `proposeRevision` of src/sync/memory-revision-store.ts is a sequence of steps.
use brain_mcp_server.Prelude.{option_eq, refl, sym, Option, none, some, Text, inl, subst, text_eq}
use brain_mcp_server.Policy.{Runtime, BrainWritePolicy, BrainWriteContext, Result, ok, err}
use brain_mcp_server.Policy.Deployment.{Deployment}
use brain_mcp_server.Revisions.{Revision, RevisionProposal, ConflictInput}
use brain_mcp_server.Revisions.Memory.{Store, current_of, publish, advance, content_of, read_file}
use brain_mcp_server.Revisions.Memory.Writes.{
  Call, Written, write_log, write_or_conflict, new_revision, and_logged, conflicted,
  is_same_content, is_stale_base, log_proposal, revision_conflict,
}
use brain_mcp_server.Revisions.Memory.Proposals.{
  apply_admitted, after_admission, apply_fresh, unless_earlier, apply_step, apply_log,
  apply_revision, propose_revision, or_restore, replayed, admission, live_content, earlier,
}
use brain_mcp_server.Revisions.Admission.{assert_replay}
use brain_mcp_server.Revisions.Admission.Kept.{IsKept, admit_revision-IsKept}
use brain_mcp_server.Revisions.Memory.Steps.{
  IsNext, publishing, Steps, here, next, Steps-trans, Steps-if, recorded,
}

new_revision-IsNext :
    (rt : Runtime) (call : Call) (input : RevisionProposal) (s : Store)
    → IsNext s (new_revision rt call input (current_of s input.brain_id input.filename) s)
unfolding new_revision
new_revision-IsNext rt call input s = record { id = refl; cursor = refl; parent = inl refl }

pub conflicted-Steps :
    (s : Store) (now : Text) (input : ConflictInput) (current : Option Revision)
    → Steps s (conflicted now input current s).1
conflicted-Steps s now input current = recorded s now input

and_logged-Steps :
    {s : Store} (r : Revision) (w : Written) → Steps s w.1 → Steps s (and_logged r w).1
and_logged-Steps r (ok _, t) p = p
and_logged-Steps r (err e, t) p = p

abbrev Safe : (RevisionProposal → Store → Written) → Type 0
Safe rec = (i : RevisionProposal) (t : Store) → Steps t (rec i t).1

module _ (rec : RevisionProposal → Store → Written) (safe : Safe rec) (rt : Runtime)
    (call : Call) where
  write_log-Steps :
      (policy : Option BrainWritePolicy) (context : Option BrainWriteContext) (r : Revision)
      (before : Text) (s : Store)
      → Steps s (write_log rec rt call policy context r before s).1
  unfolding write_log
  write_log-Steps (some p) (some c) r before s =
      and_logged-Steps r _ (safe (log_proposal rt call p c r before s) s)
  write_log-Steps (some p) none r before s = here
  write_log-Steps none context r before s = here

  write_or_conflict-Steps :
      (current : Option Revision) (policy : Option BrainWritePolicy) (input : RevisionProposal)
      (s : Store)
      → IsNext s (new_revision rt call input current s)
      → Steps s (write_or_conflict rec rt call current policy input s).1
  unfolding write_or_conflict
  write_or_conflict-Steps current policy input s n =
      let r = new_revision rt call input current s in
      Steps-if (is_stale_base input.base_revision_id current) _ _
        (conflicted-Steps s call.now (revision_conflict rt input current) current)
        (Steps-trans (next here (publishing r n refl)) (
          write_log-Steps policy input.write_context r (content_of current)
            (publish r (advance s))))

  apply_admitted-Steps :
      (current : Option Revision) (policy : Option BrainWritePolicy) (input : RevisionProposal)
      (s : Store)
      → IsNext s (new_revision rt call input current s)
      → Steps s (apply_admitted rec rt call current policy input s).1
  unfolding apply_admitted
  apply_admitted-Steps none policy input s n = write_or_conflict-Steps none policy input s n
  apply_admitted-Steps (some head) policy input s n =
      Steps-if (is_same_content rt input.content (some head)) _ _ here
        (write_or_conflict-Steps (some head) policy input s n)

  after_admission-Steps :
      (input : RevisionProposal) (s : Store)
      (m : Result (Option BrainWritePolicy × RevisionProposal))
      → IsKept input m
      → Steps s (after_admission rec rt call (current_of s input.brain_id input.filename) m s).1
  unfolding after_admission
  after_admission-Steps input s (err e) k = here
  after_admission-Steps input s (ok (policy, admitted)) k =
      let current = current_of s input.brain_id input.filename in
      apply_admitted-Steps current policy admitted s (
        subst (λ (a : RevisionProposal). IsNext s (new_revision rt call a current s)) (sym k)
          (new_revision-IsNext rt call (record input { write_context = admitted.write_context }) s))

  apply_step-Steps :
      (d : Deployment) (input : RevisionProposal) (s : Store)
      → Steps s (apply_step rec rt d call input s).1
  unfolding apply_step
  apply_step-Steps d input s = of (earlier input.write_context input.brain_id s)
    where
      replayed-Steps : (m : Result (Unit {0})) (r : Revision) → Steps s (replayed m r s).1
      replayed-Steps (ok _) r = here
      replayed-Steps (err e) r = here

      of : (e : Option Revision) → Steps s (unless_earlier rec rt d call e input s).1
      of none =
          unfold unless_earlier apply_fresh in
          after_admission-Steps input s (admission rt d input s) (
            admit_revision-IsKept rt d input
              (live_content (current_of s input.brain_id input.filename))
              (λ filename. read_file s input.brain_id filename))
      of (some r) = unfold unless_earlier in replayed-Steps (assert_replay rt input r) r

module _ (rt : Runtime) (d : Deployment) (call : Call) where
  -- Whatever a proposal does to a store, it is a sequence of the steps of `Step`: every revision that it
  -- writes, and that of LOG.md, has the next id, the next cursor and the head of its file as its parent.
  pub propose_revision-Steps :
      (input : RevisionProposal) (s : Store) → Steps s (propose_revision rt d call input s).1
  unfolding propose_revision apply_revision
  propose_revision-Steps input s =
      or_restore-Steps (apply_revision rt d call input s)
        (apply_step-Steps (apply_log rt d call) log-Safe rt call d input s)
    where
      log-Safe : Safe (apply_log rt d call)
      log-Safe i t = unfold apply_log in apply_step-Steps _ (λ j u. here) rt call d i t

      or_restore-Steps : (w : Written) → Steps s w.1 → Steps s (or_restore s w).1
      or_restore-Steps (ok r, t) p = p
      or_restore-Steps (err e, t) p = here
