-- ===== src/Revisions/Admission/Kept.antt =====
-- What admission leaves as it is: all of a proposal but its write context.
use brain_mcp_server.Prelude.{Bool, true, false, ◌≡◌, refl, Option, none, some, Text}
use brain_mcp_server.Policy.{Runtime, BrainWritePolicy, BrainWriteContext, Result, ok, err, ◌>>=◌}
use brain_mcp_server.Policy.Knowledge.{is_exempt, assert_knowledge_write}
use brain_mcp_server.Policy.Deployment.{Deployment, write_policy_for_brain}
use brain_mcp_server.Revisions.{Revision, RevisionProposal}
use brain_mcp_server.Revisions.Admission.{
  admit_revision, admit_enforced, admit_unless_exempt, check_maintenance, check_all_evidence,
}

abbrev pub IsKept : RevisionProposal → Result (Option BrainWritePolicy × RevisionProposal) → Type 0
IsKept input (ok (policy, admitted)) =
    admitted ≡ record input { write_context = admitted.write_context }
IsKept input (err e) = Unit

IsKept-bind :
    {A : Type 0} (input : RevisionProposal) (m : Result A)
    (k : A → Result (Option BrainWritePolicy × RevisionProposal))
    → ((a : A) → IsKept input (k a))
    → IsKept input (m >>= k)
IsKept-bind input (ok a) k h = h a
IsKept-bind input (err e) k h = tt

module _ (rt : Runtime) (d : Deployment) (input : RevisionProposal) (before : Text)
    (read : Text → Result Revision) where
  admit_enforced-IsKept :
      (policy : BrainWritePolicy) (given : Option BrainWriteContext)
      → IsKept input (admit_enforced rt read policy input given)
  unfolding admit_enforced
  admit_enforced-IsKept policy none = tt
  admit_enforced-IsKept policy (some c) =
      IsKept-bind input (check_maintenance rt read input.brain_id c) _
        λ _. IsKept-bind input (check_all_evidence rt read input.brain_id c.evidence) _ λ _. refl

  admit_unless_exempt-IsKept :
      (policy : Option BrainWritePolicy) (exempt : Bool)
      → IsKept input (admit_unless_exempt rt read policy exempt input)
  admit_unless_exempt-IsKept (some policy) false = admit_enforced-IsKept policy input.write_context
  admit_unless_exempt-IsKept (some policy) true = refl
  admit_unless_exempt-IsKept none exempt = refl

  -- What the admission lets pass differs from what was proposed at most in its write context.
  pub admit_revision-IsKept : IsKept input (admit_revision rt d input before read)
  unfolding admit_revision
  admit_revision-IsKept = IsKept-bind input (write_policy_for_brain rt d input.brain_id) _ λ policy.
      IsKept-bind input
        (assert_knowledge_write rt input.brain_id policy input.filename before input.content
          input.write_context)
        _
        λ _.
          admit_unless_exempt-IsKept policy
            (is_exempt policy before input.content input.write_context)
