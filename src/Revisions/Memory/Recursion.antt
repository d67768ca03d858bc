-- ===== src/Revisions/Memory/Recursion.antt =====
-- The call of `applyRevision` for LOG.md: `apply_revision` unrolls it once, and that is enough.
use brain_mcp_server.Prelude.{if◌then◌else◌, true, ◌≡◌, refl, ap, Option, none, some, Text, arith}
use brain_mcp_server.Policy.{
  Runtime, BrainWritePolicy, BrainWriteContext, Result, ok, err, is_internal_write, ◌>>=◌, ◌>>◌,
}
use brain_mcp_server.Policy.Knowledge.{is_exempt, assert_knowledge_write}
use brain_mcp_server.Policy.Deployment.{Deployment, write_policy_for_brain}
use brain_mcp_server.Revisions.{Revision, RevisionProposal, unchanged, head_of}
use brain_mcp_server.Revisions.Admission.{admit_revision, admit_unless_exempt}
use brain_mcp_server.Revisions.Memory.{Store, current_of, read_file, content_of, publish, advance}
use brain_mcp_server.Revisions.Memory.Writes.{
  Call, Written, write_log, write_or_conflict, log_proposal, internal_write_context, and_logged,
  new_revision, is_same_content,
}
use brain_mcp_server.Revisions.Memory.Proposals.{
  apply_admitted, apply_fresh, apply_step, apply_log, apply_revision, live_content, earlier,
  unless_earlier, after_admission, admission,
}

-- The program's own writes are admitted as they are, with nothing to report under.
abbrev Untouched : RevisionProposal → Result (Option BrainWritePolicy × RevisionProposal) → Type 0
Untouched input (ok (policy, admitted)) = (policy ≡ none) × (admitted ≡ input)
Untouched input (err e) = Unit

admit_unless_exempt-internal :
    (rt : Runtime) (read : Text → Result Revision) (policy : Option BrainWritePolicy)
    (input : RevisionProposal)
    → Untouched input (admit_unless_exempt rt read policy true input)
admit_unless_exempt-internal rt read none input = (refl, refl)
admit_unless_exempt-internal rt read (some p) input = (refl, refl)

is_exempt-internal :
    (policy : Option BrainWritePolicy) (before after : Text) (context : Option BrainWriteContext)
    → is_internal_write context ≡ true
    → is_exempt policy before after context ≡ true
unfolding is_exempt
is_exempt-internal none before after context h = refl
is_exempt-internal (some p) before after context h = ground arith

module _ (rt : Runtime) (d : Deployment) (input : RevisionProposal) (before : Text)
    (read : Text → Result Revision) (own : is_internal_write input.write_context ≡ true) where
  pub admit_revision-internal : Untouched input (admit_revision rt d input before read)
  unfolding admit_revision
  admit_revision-internal = of (write_policy_for_brain rt d input.brain_id)
    where
      of_checked :
          (p : Option BrainWritePolicy) (checks : Result (Unit {0}))
          → Untouched input (
              checks
              >> admit_unless_exempt rt read p
                  (is_exempt p before input.content input.write_context)
                  input)
      of_checked p (err e) = tt
      of_checked p (ok _) =
          rw (is_exempt-internal p before input.content input.write_context own)
            (admit_unless_exempt-internal rt read p input)

      of :
          (m : Result (Option BrainWritePolicy))
          → Untouched input (
              m >>= λ p.
              assert_knowledge_write rt input.brain_id p input.filename before input.content
                input.write_context
              >> admit_unless_exempt rt read p
                  (is_exempt p before input.content input.write_context)
                  input)
      of (err e) = tt
      of (ok p) = of_checked p (
          assert_knowledge_write rt input.brain_id p input.filename before input.content
            input.write_context)

earlier-internal :
    (context : Option BrainWriteContext) (brain_id : Text) (s : Store)
    → is_internal_write context ≡ true
    → earlier context brain_id s ≡ none
unfolding earlier is_internal_write
earlier-internal none brain_id s own = refl
earlier-internal (some c) brain_id s own = rw own

module _ (rec rec' : RevisionProposal → Store → Written) (rt : Runtime) (d : Deployment)
    (call : Call) where
  apply_admitted-none :
      (current : Option Revision) (input : RevisionProposal) (s : Store)
      → apply_admitted rec rt call current none input s
        ≡ apply_admitted rec' rt call current none input s
  unfolding apply_admitted write_or_conflict write_log
  apply_admitted-none none input s = refl
  apply_admitted-none (some head) input s = refl

  after_admission-Untouched :
      (current : Option Revision) (input : RevisionProposal) (s : Store)
      (m : Result (Option BrainWritePolicy × RevisionProposal))
      → Untouched input m
      → after_admission rec rt call current m s ≡ after_admission rec' rt call current m s
  unfolding after_admission
  after_admission-Untouched current input s (err e) u = refl
  after_admission-Untouched current input s (ok (policy, admitted)) u =
      rw u.0 (apply_admitted-none current admitted s)

  -- For the program's own writes the inner call does not matter.
  apply_step-internal :
      (input : RevisionProposal) (s : Store)
      → is_internal_write input.write_context ≡ true
      → apply_step rec rt d call input s ≡ apply_step rec' rt d call input s
  unfolding apply_step apply_fresh
  apply_step-internal input s own = rw (earlier-internal input.write_context input.brain_id s own) (
      unfold unless_earlier in
      after_admission-Untouched (current_of s input.brain_id input.filename) input s
        (admission rt d input s)
        (admit_revision-internal rt d input
          (live_content (current_of s input.brain_id input.filename))
          (λ filename. read_file s input.brain_id filename) own))

  module _
      (same : (i : RevisionProposal) (t : Store)
        → is_internal_write i.write_context ≡ true
        → rec i t ≡ rec' i t) where
    write_log-cong :
        (policy : Option BrainWritePolicy) (context : Option BrainWriteContext) (r : Revision)
        (before : Text) (s : Store)
        → write_log rec rt call policy context r before s
          ≡ write_log rec' rt call policy context r before s
    unfolding write_log
    write_log-cong (some p) (some c) r before s = ap (and_logged r) (
        same (log_proposal rt call p c r before s) s
          (unfold log_proposal internal_write_context is_internal_write in refl))
    write_log-cong (some p) none r before s = refl
    write_log-cong none context r before s = refl

    write_or_conflict-cong :
        (current : Option Revision) (policy : Option BrainWritePolicy) (input : RevisionProposal)
        (s : Store)
        → write_or_conflict rec rt call current policy input s
          ≡ write_or_conflict rec' rt call current policy input s
    unfolding write_or_conflict
    write_or_conflict-cong current policy input s = rw (
        write_log-cong policy input.write_context (new_revision rt call input current s)
          (content_of current) (publish (new_revision rt call input current s) (advance s)))

    after_admission-cong :
        (current : Option Revision) (m : Result (Option BrainWritePolicy × RevisionProposal))
        (s : Store)
        → after_admission rec rt call current m s ≡ after_admission rec' rt call current m s
    unfolding after_admission apply_admitted
    after_admission-cong current (err e) s = refl
    after_admission-cong none (ok (policy, admitted)) s =
        write_or_conflict-cong none policy admitted s
    after_admission-cong (some head) (ok (policy, admitted)) s =
        ap
          (λ w.
            if is_same_content rt admitted.content (some head)
            then (ok (unchanged (head_of head) head), s)
            else w)
          (write_or_conflict-cong (some head) policy admitted s)

    -- Nor what it does with any but the program's own writes.
    apply_step-cong :
        (input : RevisionProposal) (s : Store)
        → apply_step rec rt d call input s ≡ apply_step rec' rt d call input s
    unfolding apply_step
    apply_step-cong input s = of (earlier input.write_context input.brain_id s)
      where
        of :
            (e : Option Revision)
            → unless_earlier rec rt d call e input s ≡ unless_earlier rec' rt d call e input s
        of none =
            unfold unless_earlier apply_fresh in
            after_admission-cong (current_of s input.brain_id input.filename)
              (admission rt d input s) s
        of (some r) = unfold unless_earlier in refl

-- `apply_revision` satisfies the equation of the recursive `applyRevision`: unrolling the call for
-- LOG.md once loses nothing.
pub apply_revision_fix :
    (rt : Runtime) (d : Deployment) (call : Call) (input : RevisionProposal) (s : Store)
    → apply_revision rt d call input s ≡ apply_step (apply_revision rt d call) rt d call input s
unfolding apply_revision apply_log
apply_revision_fix rt d call input s =
    apply_step-cong (apply_log rt d call) (apply_revision rt d call) rt d call
      (λ i t own. apply_step-internal _ _ rt d call i t own) input s
