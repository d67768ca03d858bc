-- ===== src/Revisions/Admission.antt =====
-- src/services/write-admission.ts: the last check of a proposal before the store applies it, with the
-- re-reading of hosted evidence.
pub mod Evidence
pub mod Kept
use brain_mcp_server.Prelude.{
  Bool, true, false, not, ◌&&◌, ◌||◌, Option, none, some, List, [], ◌∷◌, map, Text, text_eq, ◌==◌,
  option_eq, includes, if◌then◌else◌,
}
use brain_mcp_server.Policy.{
  Runtime, BrainWritePolicy, BrainWriteContext, WriteEvidence, Method, hosted_source, retrieved,
  agent_observed, applied, EvidenceKey, ContextKey, OperationKey, Result, ok, err, policy_error,
  Code, refuse_if, ◌>>◌, ◌>>=◌,
}
use brain_mcp_server.Policy.Patterns.{is_markdown_path, has_parent_segment}
use brain_mcp_server.Policy.Knowledge.{assert_knowledge_write, is_exempt}
use brain_mcp_server.Policy.Deployment.{Deployment, write_policy_for_brain}
use brain_mcp_server.Revisions.{Revision, RevisionProposal}

abbrev evidence_key : WriteEvidence → EvidenceKey
evidence_key e = record {
  brain_id = e.brain_id;
  reference = e.reference;
  observed_at = e.observed_at;
  method = e.method;
  revision = e.revision;
  sha256 = e.sha256;
  excerpt = e.excerpt;
}

abbrev context_key : Option BrainWriteContext → Option ContextKey
context_key none = none
context_key (some c) = some (record {
  operation_id = c.operation_id;
  kind = c.kind;
  reason = c.reason;
  maintenance = c.maintenance;
  evidence = map evidence_key c.evidence;
})

unfoldable pub operation_key : RevisionProposal → OperationKey
operation_key input = record {
  brain = input.brain_id;
  filename = input.filename;
  base = input.base_revision_id;
  content = input.content;
  actor = input.actor;
  context = context_key input.write_context;
}

unfoldable pub operation_hash : Runtime → RevisionProposal → Text
unfolding operation_key
operation_hash rt input = rt.sha256 (rt.stringify_operation (operation_key input))

abbrev pub request_hash_of : Option BrainWriteContext → Option Text
request_hash_of none = none
request_hash_of (some c) = c.request_hash

unfoldable pub assert_replay : Runtime → RevisionProposal → Revision → Result (Unit {0})
assert_replay rt input revision =
    refuse_if (not (request_hash_of revision.write_context == some (operation_hash rt input)))
      Code.operation_identity_conflict input.brain_id

-- `given && given !== actual`; an empty text is not given.
abbrev pub differs : Option Text → Text → Bool
differs none actual = false
differs (some []) actual = false
differs (some (c ∷ s)) actual = not ((c ∷ s) == actual)

unfoldable pub is_stale : Runtime → WriteEvidence → Revision → Bool
unfolding includes
is_stale rt e actual =
    actual.deleted
    || differs e.revision actual.revision_id
    || differs e.sha256 (rt.sha256 actual.content)
    || not (includes actual.content e.excerpt)

-- `try { … } catch { throw new WritePolicyError(code, …) }`
abbrev or_refuse {ℓ} : {A : Type ℓ} → Result A → Code → Text → Result A
or_refuse (ok a) code brain_id = ok a
or_refuse (err e) code brain_id = err (policy_error code brain_id)

module _ (rt : Runtime) (read : Text → Result Revision) (brain_id : Text) where
  unfoldable pub check_hosted : WriteEvidence → Result WriteEvidence
  check_hosted e = do
    refuse_if (not (is_markdown_path e.reference) || has_parent_segment e.reference)
        Code.source_evidence_required brain_id
    actual ← or_refuse (read e.reference) Code.source_unavailable brain_id
    refuse_if (is_stale rt e actual) Code.stale_write_context brain_id
    ok (record e { verification = retrieved })

  unfoldable pub check_evidence : WriteEvidence → Result WriteEvidence
  unfolding check_hosted
  check_evidence e = elim e.method [
    | hosted_source ↦ check_hosted e
    | _ ↦ ok (record e { verification = agent_observed })
  ]

  unfoldable pub check_all_evidence : List WriteEvidence → Result (List WriteEvidence)
  check_all_evidence [] = ok []
  check_all_evidence (e ∷ es) = do
    checked ← check_evidence e
    more ← check_all_evidence es
    ok (checked ∷ more)

  unfoldable pub check_maintenance : BrainWriteContext → Result (Unit {0})
  check_maintenance context = elim context.maintenance [
    | none ↦ ok tt
    | some scope ↦ do
      target ← or_refuse (read scope.brain_target) Code.brain_scope_required brain_id
      ok tt
  ]

-- The context that the store keeps.
abbrev pub admitted_context :
    Runtime
    → BrainWritePolicy
    → RevisionProposal
    → BrainWriteContext
    → List WriteEvidence
    → BrainWriteContext
admitted_context rt policy input context evidence = record context {
  evidence = evidence;
  request_hash = some (operation_hash rt input);
  verification = some applied;
  policy_digest = some (rt.sha256 (rt.stringify_policy policy));
  policy_version = some policy.version;
}

-- The part of `admitRevision` behind its early return. A proposal with no context does not get here.
unfoldable pub admit_enforced :
    Runtime
    → (Text → Result Revision)
    → BrainWritePolicy
    → RevisionProposal
    → Option BrainWriteContext
    → Result (Option BrainWritePolicy × RevisionProposal)
admit_enforced rt read policy input none =
    err (policy_error Code.source_evidence_required input.brain_id)
admit_enforced rt read policy input (some context) = do
  check_maintenance rt read input.brain_id context
  evidence ← check_all_evidence rt read input.brain_id context.evidence
  ok (
    some policy,
    record input { write_context = some (admitted_context rt policy input context evidence) },
  )

abbrev pub admit_unless_exempt :
    Runtime
    → (Text → Result Revision)
    → Option BrainWritePolicy
    → Bool
    → RevisionProposal
    → Result (Option BrainWritePolicy × RevisionProposal)
admit_unless_exempt rt read (some policy) false input =
    admit_enforced rt read policy input input.write_context
admit_unless_exempt rt read _ _ input = ok (none, input)

-- Beside the policy to report under, the proposal with its completed context.
unfoldable pub admit_revision :
    Runtime
    → Deployment
    → RevisionProposal
    → Text
    → (Text → Result Revision)
    → Result (Option BrainWritePolicy × RevisionProposal)
admit_revision rt d input before read = do
  policy ← write_policy_for_brain rt d input.brain_id
  assert_knowledge_write rt input.brain_id policy input.filename before input.content
      input.write_context
  admit_unless_exempt rt read policy (is_exempt policy before input.content input.write_context)
      input
