-- ===== src/Revisions/Memory/Proposals.antt =====
-- `applyRevision` and `proposeRevision` of src/sync/memory-revision-store.ts, around the admission.
use brain_mcp_server.Prelude.{Option, none, some, [], Text, text_eq, option_eq, if◌then◌else◌}
use brain_mcp_server.Policy.{Runtime, BrainWritePolicy, BrainWriteContext, Result, ok, err, Error}
use brain_mcp_server.Policy.Deployment.{Deployment}
use brain_mcp_server.Revisions.{Revision, RevisionProposal, unchanged, head_of}
use brain_mcp_server.Revisions.Admission.{assert_replay, admit_revision}
use brain_mcp_server.Revisions.Memory.{Store, current_of, read_file, find_write_operation}
use brain_mcp_server.Revisions.Memory.Writes.{
  Call, Written, log_md, is_same_content, write_or_conflict,
}

-- `applyRevision` behind `admitRevision`, given the current head.
unfoldable pub apply_admitted :
    (RevisionProposal → Store → Written)
    → Runtime
    → Call
    → Option Revision
    → Option BrainWritePolicy
    → RevisionProposal
    → Store
    → Written
apply_admitted rec rt call none policy input s = write_or_conflict rec rt call none policy input s
apply_admitted rec rt call (some head) policy input s =
    if is_same_content rt input.content (some head)
    then (ok (unchanged (head_of head) head), s)
    else write_or_conflict rec rt call (some head) policy input s

-- `current?.deleted ? "" : current?.content || ""`
abbrev pub live_content : Option Revision → Text
live_content none = []
live_content (some r) = if r.deleted then [] else r.content

-- A proposal that is not admitted throws, and changes nothing.
unfoldable pub after_admission :
    (RevisionProposal → Store → Written)
    → Runtime
    → Call
    → Option Revision
    → Result (Option BrainWritePolicy × RevisionProposal)
    → Store
    → Written
after_admission rec rt call current (err e) s = (err e, s)
after_admission rec rt call current (ok (policy, admitted)) s =
    apply_admitted rec rt call current policy admitted s

abbrev pub admission :
    Runtime
    → Deployment
    → RevisionProposal
    → Store
    → Result (Option BrainWritePolicy × RevisionProposal)
admission rt d input s =
    admit_revision rt d input (live_content (current_of s input.brain_id input.filename))
      (λ filename. read_file s input.brain_id filename)

unfoldable pub apply_fresh :
    (RevisionProposal → Store → Written)
    → Runtime
    → Deployment
    → Call
    → RevisionProposal
    → Store
    → Written
apply_fresh rec rt d call input s =
    after_admission rec rt call (current_of s input.brain_id input.filename)
      (admission rt d input s) s

-- The earlier revision of the same operation, for a context that is not the program's own.
unfoldable pub earlier : Option BrainWriteContext → Text → Store → Option Revision
earlier none brain_id s = none
earlier (some c) brain_id s =
    if c.internal then none else find_write_operation s brain_id c.operation_id

abbrev pub replayed : Result (Unit {0}) → Revision → Store → Written
replayed (err e) r s = (err e, s)
replayed (ok _) r s = (ok (unchanged (head_of r) r), s)

unfoldable pub unless_earlier :
    (RevisionProposal → Store → Written)
    → Runtime
    → Deployment
    → Call
    → Option Revision
    → RevisionProposal
    → Store
    → Written
unless_earlier rec rt d call none input s = apply_fresh rec rt d call input s
unless_earlier rec rt d call (some r) input s = replayed (assert_replay rt input r) r s

-- `applyRevision`, with its call of itself for LOG.md as an argument.
unfoldable pub apply_step :
    (RevisionProposal → Store → Written)
    → Runtime
    → Deployment
    → Call
    → RevisionProposal
    → Store
    → Written
apply_step rec rt d call input s =
    unless_earlier rec rt d call (earlier input.write_context input.brain_id s) input s

-- The call for LOG.md makes no further call, so the argument is never used.
unfoldable pub apply_log : Runtime → Deployment → Call → RevisionProposal → Store → Written
apply_log rt d call = apply_step (λ input s. (err (Error.file_not_found log_md), s)) rt d call

unfoldable pub apply_revision : Runtime → Deployment → Call → RevisionProposal → Store → Written
apply_revision rt d call = apply_step (apply_log rt d call) rt d call

-- A write that throws leaves the store as it was.
abbrev pub or_restore : Store → Written → Written
or_restore s (ok r, s') = (ok r, s')
or_restore s (err e, s') = (err e, s)

unfoldable pub propose_revision : Runtime → Deployment → Call → RevisionProposal → Store → Written
propose_revision rt d call input s = or_restore s (apply_revision rt d call input s)
