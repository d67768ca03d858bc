-- ===== src/Revisions/Admission/Evidence.antt =====
-- What the evidence of an admitted write has been checked against.
use brain_mcp_server.Prelude.{
  Bool, true, false, ◌≡◌, refl, Option, none, some, List, [], ◌∷◌, Text, text_eq, All, includes,
  arith, inl, inr, ◌⊎◌, subst, ap, sym,
}
use brain_mcp_server.Policy.{
  Runtime, BrainWritePolicy, BrainWriteContext, WriteEvidence, hosted_source, retrieved, Result, ok,
  err, ok_inj, ◌>>=◌, ◌>>◌, >>-eq-ok, >>=-eq-ok, Error,
}
use brain_mcp_server.Policy.Knowledge.Accepted.{IsAccepted, assert_knowledge_write-IsAccepted}
use brain_mcp_server.Policy.Deployment.{Deployment, write_policy_for_brain}
use brain_mcp_server.Revisions.{Revision, RevisionProposal}
use brain_mcp_server.Revisions.Admission.{
  is_stale, differs, check_hosted, check_evidence, check_all_evidence, admit_enforced,
  admit_revision, check_maintenance, operation_hash, admitted_context, assert_knowledge_write,
  is_exempt, admit_unless_exempt,
}

-- Evidence that calls itself retrieved names a live file of the Brain that holds the excerpt now, at
-- the revision and hash that it gives; no other evidence does.
pub record IsChecked (rt : Runtime) (read : Text → Result Revision) (e : WriteEvidence)
    : Type 0 where
  pub hosted :
      e.method ≡ hosted_source
      → (r : Revision) × (read e.reference ≡ ok r)
        × (r.deleted ≡ false)
        × (includes r.content e.excerpt ≡ true)
        × (differs e.revision r.revision_id ≡ false)
        × (differs e.sha256 (rt.sha256 r.content) ≡ false)
  pub promoted : e.verification ≡ retrieved → e.method ≡ hosted_source

module _ (rt : Runtime) (read : Text → Result Revision) (brain_id : Text) where
  read-cases : (s : Text) → ((r : Revision) × (read s ≡ ok r)) ⊎ ((x : Error) × (read s ≡ err x))
  read-cases s = of (read s) refl
    where
      of :
          (m : Result Revision)
          → read s ≡ m
          → ((r : Revision) × (read s ≡ ok r)) ⊎ ((x : Error) × (read s ≡ err x))
      of (ok r) h = inl (r, h)
      of (err x) h = inr (x, h)

  check_evidence-IsChecked :
      (e c : WriteEvidence) → check_evidence rt read brain_id e ≡ ok c → IsChecked rt read c
  unfolding check_evidence check_hosted is_stale
  check_evidence-IsChecked e c h = record {
    hosted = λ m. elim (read-cases c.reference) [
      | inl (r, found) ↦ (r, found, ground arith, ground arith, ground arith, ground arith)
      | inr (x, lost) ↦ absurd (ground arith)
    ];
    promoted = λ v. ground arith;
  }

  check_all_evidence-All :
      (es cs : List WriteEvidence)
      → check_all_evidence rt read brain_id es ≡ ok cs
      → All (IsChecked rt read) cs
  check_all_evidence-All [] cs h =
      let empty : [] ≡ cs = unfold check_all_evidence in ground arith in
      subst (All (IsChecked rt read)) empty tt
  check_all_evidence-All (e ∷ es) cs h =
      let (c, one, h') =
        >>=-eq-ok (check_evidence rt read brain_id e)
          (λ c. do more ← check_all_evidence rt read brain_id es; ok (c ∷ more)) cs
          (unfold check_all_evidence in h) in
      let (more, rest, same) =
        >>=-eq-ok (check_all_evidence rt read brain_id es) (λ m. ok (c ∷ m)) cs h' in
      subst (All (IsChecked rt read)) (ok_inj same)
        (check_evidence-IsChecked e c one, check_all_evidence-All es more rest)

pub record IsAdmitted (rt : Runtime) (read : Text → Result Revision) (input : RevisionProposal)
    (before : Text) (policy : BrainWritePolicy) (admitted : RevisionProposal) : Type 0 where
  pub accepted :
      IsAccepted rt input.brain_id input.filename before input.content input.write_context
  pub context : BrainWriteContext
  pub stored : admitted ≡ record input { write_context = some context }
  pub signed : context.request_hash ≡ some (operation_hash rt input)
  pub checked : All (IsChecked rt read) context.evidence

module _ (rt : Runtime) (read : Text → Result Revision) (input admitted : RevisionProposal)
    (before : Text) (policy : BrainWritePolicy) where
  admit_enforced-IsAdmitted :
      (found : BrainWritePolicy) (given : Option BrainWriteContext)
      → IsAccepted rt input.brain_id input.filename before input.content input.write_context
      → admit_enforced rt read found input given ≡ ok (some policy, admitted)
      → IsAdmitted rt read input before policy admitted
  admit_enforced-IsAdmitted found none a h = absurd (unfold admit_enforced in cc)
  admit_enforced-IsAdmitted found (some c) a h =
      let store : List WriteEvidence → Result (Option BrainWritePolicy × RevisionProposal) = λ es.
        ok (
          some found,
          record input { write_context = some (admitted_context rt found input c es) },
        ) in
      let goal : Option BrainWritePolicy × RevisionProposal = (some policy, admitted) in
      let (_, h') =
        >>-eq-ok (check_maintenance rt read input.brain_id c)
          (check_all_evidence rt read input.brain_id c.evidence >>= store) goal
          (unfold admit_enforced in h) in
      let (evidence, every, same) =
        >>=-eq-ok (check_all_evidence rt read input.brain_id c.evidence) store goal h' in
      record {
        accepted = a;
        context = admitted_context rt found input c evidence;
        stored = ap (λ p. p.1) (sym (ok_inj same));
        signed = refl;
        checked = check_all_evidence-All rt read input.brain_id c.evidence evidence every;
      }

  admit_unless_exempt-IsAdmitted :
      (found : Option BrainWritePolicy) (exempt : Bool)
      → is_exempt found before input.content input.write_context ≡ exempt
      → assert_knowledge_write rt input.brain_id found input.filename before input.content
          input.write_context
        ≡ ok tt
      → admit_unless_exempt rt read found exempt input ≡ ok (some policy, admitted)
      → IsAdmitted rt read input before policy admitted
  admit_unless_exempt-IsAdmitted none exempt e a h = cc
  admit_unless_exempt-IsAdmitted (some found) true e a h = cc
  admit_unless_exempt-IsAdmitted (some found) false e a h =
      admit_enforced-IsAdmitted found input.write_context
        (assert_knowledge_write-IsAccepted rt input.brain_id found input.filename before
          input.content input.write_context e a)
        h

-- Where a write is admitted under an enforced policy, what was proposed passed the policy, and what is
-- stored is the proposal with its request's hash and with evidence that has been checked.
pub admit_revision-IsAdmitted :
    (rt : Runtime) (d : Deployment) (input admitted : RevisionProposal) (before : Text)
    (read : Text → Result Revision) (policy : BrainWritePolicy)
    → admit_revision rt d input before read ≡ ok (some policy, admitted)
    → IsAdmitted rt read input before policy admitted
admit_revision-IsAdmitted rt d input admitted before read policy h =
    let goal : Option BrainWritePolicy × RevisionProposal = (some policy, admitted) in
    let context = input.write_context in
    let check : Option BrainWritePolicy → Result (Unit {0}) =
      λ p. assert_knowledge_write rt input.brain_id p input.filename before input.content context in
    let finish : Option BrainWritePolicy → Result (Option BrainWritePolicy × RevisionProposal) =
      λ p. admit_unless_exempt rt read p (is_exempt p before input.content context) input in
    let (found, _, h') =
      >>=-eq-ok (write_policy_for_brain rt d input.brain_id) (λ p. check p >> finish p) goal
        (unfold admit_revision in h) in
    let (passed, h'') = >>-eq-ok (check found) (finish found) goal h' in
    admit_unless_exempt-IsAdmitted rt read input admitted before policy found
      (is_exempt found before input.content context) refl passed h''
