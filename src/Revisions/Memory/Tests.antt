-- ===== src/Revisions/Memory/Tests.antt =====
-- Runs of the revision store on concrete inputs.
use brain_mcp_server.Prelude.{
  ℕ, ◌++◌, arith, ◌≡◌, refl, Option, none, some, [], ◌∷◌, Text, codes, text_beq, text_eq, split,
}
use brain_mcp_server.Prelude.Maps.{get, set}
use brain_mcp_server.Prelude.Numbers.{decimal}
use brain_mcp_server.Policy.{Result, ok, err, file_not_found}
use brain_mcp_server.Policy.Deployment.{Deployment, write_policy_for_brain, configured_policy}
use brain_mcp_server.Policy.Knowledge.{is_exempt, assert_knowledge_write}
use brain_mcp_server.Policy.{is_internal_write}
use brain_mcp_server.Policy.Tests.{
  governed_test, knowledge_test, test_runtime, enforced_policy, governed, directed, instruction,
}
use brain_mcp_server.Revisions.{
  ChangeRecord, RevisionProposal, Revision, RevisionDeletionProposal, RevisionRenameProposal,
  ConflictResolutionInput, hosted_mcp,
}
use brain_mcp_server.Revisions.Admission.{
  admit_revision, check_evidence, check_maintenance, admit_enforced, admitted_context,
  check_all_evidence,
}
use brain_mcp_server.Revisions.Admission.Evidence.{IsAdmitted, admit_revision-IsAdmitted}
use brain_mcp_server.Revisions.Admission.Kept.{IsKept, admit_revision-IsKept}
use brain_mcp_server.Revisions.Memory.{Store, empty, publish, revision_name}
use brain_mcp_server.Revisions.Memory.Writes.{
  write_or_conflict, is_stale_base, write_log, Call, new_revision,
}
use brain_mcp_server.Revisions.Memory.Proposals.{
  unless_earlier, apply_admitted, earlier, after_admission, apply_fresh, propose_revision,
  apply_revision, apply_step,
}
use brain_mcp_server.Revisions.Memory.Removals.{propose_deletion, propose_rename}
use brain_mcp_server.Revisions.Memory.Pages.{list_changes-resumes}
use brain_mcp_server.Revisions.Memory.Conflicts.{list_changes}
use brain_mcp_server.Revisions.Memory.Removed.{DeletionAnswer, propose_deletion-DeletionAnswer}
use brain_mcp_server.Revisions.Memory.Renamed.{RenameAnswer, propose_rename-RenameAnswer}
use brain_mcp_server.Revisions.Memory.Answers.{Answer}
use brain_mcp_server.Revisions.Memory.Cas.{propose_revision-Answer}
use brain_mcp_server.Revisions.Memory.Recursion.{apply_revision_fix}
use brain_mcp_server.Revisions.Memory.Steps.{Steps}
use brain_mcp_server.Revisions.Memory.Steps.Revising.{propose_revision-Steps}
use brain_mcp_server.Revisions.Memory.Steps.Removing.{propose_deletion-Steps, propose_rename-Steps}
use brain_mcp_server.Revisions.Memory.Invariant.{
  IsWellFormed, IsWellFormed-empty, Steps-IsWellFormed,
}
use brain_mcp_server.Revisions.Memory.History.{IsPreserved, Steps-IsPreserved}
use brain_mcp_server.Policy.Queue.{assert_queue_policy}
use brain_mcp_server.Policy.Patterns.{trim}

abbrev pub no_policy : Deployment
no_policy = record { registry = []; policy_file = none; required = [] }

abbrev pub test_call : Call
test_call = record { now = codes "t"; today = codes "d"; uuid = codes "u" }

abbrev pub proposal : Option Text → Text → RevisionProposal
proposal base content = record {
  write_context = none;
  brain_id = codes "b";
  filename = codes "a.md";
  base_revision_id = base;
  content = content;
  origin = hosted_mcp;
  actor = none;
}

abbrev directed_proposal : RevisionProposal
directed_proposal = record (proposal none (codes "y")) { write_context = some directed }

abbrev deletion : RevisionDeletionProposal
deletion = record {
  brain_id = codes "b";
  filename = codes "a.md";
  base_revision_id = some (codes "rev_1");
  origin = hosted_mcp;
  actor = none;
}

abbrev renaming : RevisionRenameProposal
renaming = record {
  brain_id = codes "b";
  from = codes "a.md";
  to = codes "c.md";
  base_revision_id = some (codes "rev_1");
  origin = hosted_mcp;
  actor = none;
}

abbrev pub resolution : ConflictResolutionInput
resolution = record {
  brain_id = codes "b";
  conflict_id = codes "conflict_1";
  expected_revision_id = some (codes "rev_1");
  content = codes "z";
  actor = none;
}

-- A file with one revision, and the store after a second proposal with a stale base.
abbrev pub first : Store
first = (propose_revision test_runtime no_policy test_call (proposal none (codes "x")) empty).1

abbrev contested : Store
contested = (propose_revision test_runtime no_policy test_call (proposal none (codes "y")) first).1

propose_revision-Answer_example :
    Answer test_runtime
      (proposal none (codes "y"))
      first
      (propose_revision test_runtime no_policy test_call (proposal none (codes "y")) first)
propose_revision-Answer_example =
    propose_revision-Answer test_runtime no_policy test_call (proposal none (codes "y")) first

apply_revision_fix_example :
    apply_revision test_runtime governed test_call directed_proposal empty
    ≡ apply_step
        (apply_revision test_runtime governed test_call)
        test_runtime
        governed
        test_call
        directed_proposal
        empty
apply_revision_fix_example =
    apply_revision_fix test_runtime governed test_call directed_proposal empty

propose_revision-Steps_example : Steps empty first
propose_revision-Steps_example =
    propose_revision-Steps test_runtime no_policy test_call (proposal none (codes "x")) empty

propose_deletion-Steps_example : Steps first (propose_deletion test_call deletion first).1
propose_deletion-Steps_example = propose_deletion-Steps test_call deletion first

propose_rename-Steps_example :
    Steps first (propose_rename test_runtime no_policy test_call renaming first).1
propose_rename-Steps_example = propose_rename-Steps test_runtime no_policy test_call renaming first

first-Steps : Steps empty first
first-Steps =
    propose_revision-Steps test_runtime no_policy test_call (proposal none (codes "x")) empty

contested-Steps : Steps first contested
contested-Steps =
    propose_revision-Steps test_runtime no_policy test_call (proposal none (codes "y")) first

Steps-IsWellFormed_example : IsWellFormed first
Steps-IsWellFormed_example = Steps-IsWellFormed first-Steps IsWellFormed-empty

-- The revision that `first` holds.
abbrev first_revision : Revision
first_revision = new_revision test_runtime test_call (proposal none (codes "x")) none empty

first_revision_test : get (codes "rev_1") first.revisions ≡ some first_revision
unfolding propose_revision apply_revision apply_step publish get set text_beq apply_fresh earlier
    after_admission admit_revision write_policy_for_brain configured_policy assert_knowledge_write
    assert_queue_policy is_exempt unless_earlier apply_admitted write_or_conflict is_stale_base
    new_revision write_log trim revision_name decimal split
first_revision_test = refl

Steps-IsPreserved_example : IsPreserved contested (codes "rev_1") first_revision
Steps-IsPreserved_example =
    Steps-IsPreserved (codes "rev_1") first_revision contested-Steps
      (Steps-IsWellFormed first-Steps IsWellFormed-empty) first_revision_test

-- The directed proposal as the admission stores it.
abbrev admitted_proposal : RevisionProposal
admitted_proposal = record directed_proposal {
  write_context =
      some (
        admitted_context test_runtime enforced_policy directed_proposal directed
          (instruction ∷ []));
}

abbrev read_nothing : Text → Result Revision
read_nothing filename = err (file_not_found filename)

admitted_test :
    admit_revision test_runtime governed directed_proposal (codes "x") read_nothing
    ≡ ok (some enforced_policy, admitted_proposal)
unfolding admit_revision is_exempt text_beq is_internal_write admit_enforced check_maintenance
    check_all_evidence check_evidence
admitted_test = rw governed_test (rw knowledge_test refl)

admit_revision-IsAdmitted_example :
    IsAdmitted test_runtime read_nothing directed_proposal
      (codes "x")
      enforced_policy
      admitted_proposal
admit_revision-IsAdmitted_example =
    admit_revision-IsAdmitted test_runtime governed directed_proposal admitted_proposal (codes "x")
      read_nothing enforced_policy admitted_test

admit_revision-IsKept_example :
    IsKept directed_proposal
      (admit_revision test_runtime governed directed_proposal (codes "x") read_nothing)
admit_revision-IsKept_example =
    admit_revision-IsKept test_runtime governed directed_proposal (codes "x") read_nothing

propose_deletion-DeletionAnswer_example :
    DeletionAnswer deletion first (propose_deletion test_call deletion first)
propose_deletion-DeletionAnswer_example = propose_deletion-DeletionAnswer test_call deletion first

propose_rename-RenameAnswer_example :
    RenameAnswer test_runtime no_policy renaming first
      (propose_rename test_runtime no_policy test_call renaming first)
propose_rename-RenameAnswer_example =
    propose_rename-RenameAnswer test_runtime no_policy test_call renaming first

abbrev change_at : ℕ → ChangeRecord
change_at n = record {
  cursor = n;
  brain_id = codes "b";
  filename = codes "a.md";
  revision_id = codes "rev";
  content_hash = codes "x";
  updated_at = codes "t";
  origin = hosted_mcp;
  actor = none;
}

abbrev one_change : Store
one_change = record empty { changes = change_at 1 ∷ []; cursor_seq = 1 }

abbrev two_changes : Store
two_changes = record empty { changes = change_at 1 ∷ change_at 2 ∷ []; cursor_seq = 2 }

list_changes-resumes_example :
    (list_changes one_change (codes "b") none).0
      ++ (list_changes two_changes (codes "b") (list_changes one_change (codes "b") none).1).0
    ≡ (list_changes two_changes (codes "b") none).0
list_changes-resumes_example =
    list_changes-resumes one_change two_changes (codes "b") (change_at 2 ∷ []) none refl
      (omega arith, (omega arith, omega arith))
