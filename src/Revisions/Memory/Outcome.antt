-- ===== src/Revisions/Memory/Outcome.antt =====
-- The ways in which a proposal to `MemoryRevisionStore` can end: one constructor for each exit of
-- `applyRevision` of src/sync/memory-revision-store.ts.
use brain_mcp_server.Prelude.{
  true, false, ◌≡◌, refl, sym, ap, ◌∙◌, subst, Option, none, some, Bool-cases, inl, inr,
}
use brain_mcp_server.Policy.{Runtime, BrainWritePolicy, BrainWriteContext, Error, Result, ok, err}
use brain_mcp_server.Policy.Deployment.{Deployment}
use brain_mcp_server.Revisions.{Revision, RevisionProposal, unchanged, head_of}
use brain_mcp_server.Revisions.Admission.{assert_replay}
use brain_mcp_server.Revisions.Admission.Kept.{IsKept, admit_revision-IsKept}
use brain_mcp_server.Revisions.Memory.{Store, current_of, read_file, publish, advance, content_of}
use brain_mcp_server.Revisions.Memory.Writes.{
  Call, Written, conflicted, revision_conflict, is_stale_base, is_same_content, new_revision,
  write_log, write_or_conflict,
}
use brain_mcp_server.Revisions.Memory.Proposals.{
  apply_admitted, after_admission, admission, apply_fresh, earlier, replayed, unless_earlier,
  apply_step, live_content,
}

-- A proposal with the context that was admitted.
abbrev pub with_admitted : RevisionProposal → Option BrainWriteContext → RevisionProposal
with_admitted input context = record input { write_context = context }

module _ (rec : RevisionProposal → Store → Written) (rt : Runtime) (d : Deployment) (call : Call)
    (input : RevisionProposal) (s : Store) where
  abbrev pub before : Option Revision
  before = current_of s input.brain_id input.filename

  pub data Outcome (w : Written) : Type 0 where
    refused : (e : Error) → w ≡ (err e, s) → Outcome w
    repeated :
        (r : Revision)
        → earlier input.write_context input.brain_id s ≡ some r
        → assert_replay rt input r ≡ ok tt
        → w ≡ (ok (unchanged (head_of r) r), s)
        → Outcome w
    kept :
        (r : Revision)
        → before ≡ some r
        → is_same_content rt input.content before ≡ true
        → w ≡ (ok (unchanged (head_of r) r), s)
        → Outcome w
    stale :
        is_stale_base input.base_revision_id before ≡ true
        → w ≡ conflicted call.now (revision_conflict rt input before) before s
        → Outcome w
    written :
        (policy : Option BrainWritePolicy) (context : Option BrainWriteContext)
        → admission rt d input s ≡ ok (policy, with_admitted input context)
        → is_stale_base input.base_revision_id before ≡ false
        → is_same_content rt input.content before ≡ false
        → w
          ≡ write_log rec rt call policy context
              (new_revision rt call (with_admitted input context) before s)
              (content_of before)
              (publish (new_revision rt call (with_admitted input context) before s) (advance s))
        → Outcome w

  module _ (policy : Option BrainWritePolicy) (context : Option BrainWriteContext)
      (admitted : admission rt d input s ≡ ok (policy, with_admitted input context)) where
    write_or_conflict-Outcome :
        (c : Option Revision)
        → before ≡ c
        → is_same_content rt input.content before ≡ false
        → Outcome (write_or_conflict rec rt call c policy (with_admitted input context) s)
    unfolding write_or_conflict
    write_or_conflict-Outcome c e new = elim (Bool-cases (is_stale_base input.base_revision_id c)) [
      | inl old ↦ stale (rw e old) (rw (e, old))
      | inr fresh ↦ written policy context admitted (rw e fresh) new (rw (e, fresh))
    ]

    apply_admitted-Outcome :
        (c : Option Revision)
        → before ≡ c
        → Outcome (apply_admitted rec rt call c policy (with_admitted input context) s)
    unfolding apply_admitted
    apply_admitted-Outcome none e =
        write_or_conflict-Outcome none e (rw e (unfold is_same_content in refl))
    apply_admitted-Outcome (some head) e =
        elim (Bool-cases (is_same_content rt input.content (some head))) [
          | inl same ↦ kept head e (rw e same) (rw same)
          | inr new ↦ rw new (write_or_conflict-Outcome (some head) e (rw e new))
        ]

  after_admission-Outcome :
      (m : Result (Option BrainWritePolicy × RevisionProposal))
      → admission rt d input s ≡ m
      → IsKept input m
      → Outcome (after_admission rec rt call before m s)
  unfolding after_admission
  after_admission-Outcome (err e) h k = refused e refl
  after_admission-Outcome (ok (policy, admitted)) h k =
      subst (λ (a : RevisionProposal). Outcome (apply_admitted rec rt call before policy a s))
        (sym k)
        (apply_admitted-Outcome policy admitted.write_context (h ∙ ap (λ a. ok (policy, a)) k)
          before refl)

  replayed-Outcome :
      (r : Revision) (m : Result (Unit {0}))
      → earlier input.write_context input.brain_id s ≡ some r
      → assert_replay rt input r ≡ m
      → Outcome (replayed m r s)
  replayed-Outcome r (ok _) e h = repeated r e h refl
  replayed-Outcome r (err x) e h = refused x refl

  unless_earlier-Outcome :
      (e : Option Revision)
      → earlier input.write_context input.brain_id s ≡ e
      → Outcome (unless_earlier rec rt d call e input s)
  unfolding unless_earlier apply_fresh
  unless_earlier-Outcome none h = after_admission-Outcome (admission rt d input s) refl (
      admit_revision-IsKept rt d input (live_content before)
        (λ filename. read_file s input.brain_id filename))
  unless_earlier-Outcome (some r) h = replayed-Outcome r (assert_replay rt input r) h refl

  pub apply_step-Outcome : Outcome (apply_step rec rt d call input s)
  unfolding apply_step
  apply_step-Outcome = unless_earlier-Outcome (earlier input.write_context input.brain_id s) refl
