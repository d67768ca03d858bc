-- ===== src/Policy/Knowledge.antt =====
-- `assertKnowledgeWrite` and `assertReceipt` of src/services/write-policy.ts: what a write to a Brain
-- under an enforced policy must carry.
pub mod Accepted
use brain_mcp_server.Prelude.{
  or_text, or_empty, ℕ, zero, suc, Bool, true, false, not, ◌&&◌, ◌||◌, Option, none, some, List, [],
  ◌∷◌, Text, text_eq, codes, join, is_empty, any, ◌==◌, ltb, if◌then◌else◌, length,
}
use brain_mcp_server.Policy.{
  Runtime, Actor, BrainWritePolicy, Mode, enforce, Intake, brain_scoped, BrainWriteContext,
  WriteEvidence, Method, user_instruction, Result, ok, err, Code, refuse_if, ◌>>◌, ◌>>=◌, UrlParts,
  is_internal_write, Error,
}
use brain_mcp_server.Policy.Patterns.{
  is_blank, has_transcript, has_open_task, has_open_box, is_operation_id, is_sha256,
  is_web_reference, is_log_file, is_history_file,
}
use brain_mcp_server.Policy.Lines.{added_lines}
use brain_mcp_server.Policy.Queue.{task_path, assert_queue_policy}

abbrev pub is_enforced : Mode → Bool
is_enforced enforce = true
is_enforced _ = false

abbrev pub is_scoped : Intake → Bool
is_scoped brain_scoped = true
is_scoped _ = false

-- `n || 2000`
abbrev pub receipt_limit : Option ℕ → ℕ
receipt_limit none = 2000
receipt_limit (some zero) = 2000
receipt_limit (some (suc n)) = suc n

unfoldable pub assert_receipt : Option BrainWritePolicy → Text → Text → Result (Unit {0})
assert_receipt none brain_id summary = ok tt
assert_receipt (some policy) brain_id summary = if not (is_enforced policy.mode) then ok tt else do
  refuse_if (has_open_box summary) Code.transient_work_route brain_id
  refuse_if
      (ltb (receipt_limit policy.max_receipt_chars) (length summary) || has_transcript summary)
      Code.receipt_requires_summary brain_id

-- `lines.some(line => line.trim())`
abbrev pub has_text : List Text → Bool
has_text lines = any (λ line. not (is_blank line)) lines

-- The maintenance scope names a target that some evidence of this Brain refers to.
unfoldable pub has_evidenced_scope : Text → Option BrainWriteContext → Bool
has_evidenced_scope brain_id none = false
has_evidenced_scope brain_id (some context) = elim context.maintenance [
  | none ↦ false
  | some scope ↦
      any (λ (e : WriteEvidence). e.reference == scope.brain_target && e.brain_id == brain_id)
        context.evidence
]

unfoldable pub assert_scope :
    Runtime
    → Text
    → BrainWritePolicy
    → Text
    → Text
    → Text
    → Option BrainWriteContext
    → Result (Unit {0})
assert_scope rt brain_id policy filename before after context =
    refuse_if
      (is_scoped policy.intake
        && task_path rt policy filename
        && has_text (added_lines before after)
        && not (has_evidenced_scope brain_id context))
      Code.brain_scope_required brain_id

unfoldable pub assert_history :
    Text → BrainWritePolicy → Text → Text → Text → Text → Result (Unit {0})
assert_history brain_id policy filename before after added =
    if not (is_history_file filename) then ok tt else do
      assert_receipt (some policy) brain_id added
      refuse_if (is_log_file filename) Code.receipt_tool_required brain_id
      refuse_if (has_text (added_lines after before)) Code.history_rewrite_requires_workflow
          brain_id

unfoldable pub has_transient_work : Runtime → BrainWritePolicy → Text → Text → Bool
has_transient_work rt policy filename added =
    has_transcript added || has_open_task added && not (task_path rt policy filename)

-- An operation id, a reason and some evidence. The kind is one of its two constructors.
unfoldable pub is_complete_context : Option BrainWriteContext → Bool
is_complete_context none = false
is_complete_context (some context) =
    is_operation_id context.operation_id
    && not (is_blank context.reason)
    && not (is_empty context.evidence)

abbrev is_blank_or_absent : Option Text → Bool
is_blank_or_absent none = true
is_blank_or_absent (some s) = is_blank s

abbrev pub is_instruction : Method → Bool
is_instruction user_instruction = true
is_instruction _ = false

unfoldable pub is_observed : Runtime → WriteEvidence → Bool
is_observed rt e =
    not (is_blank e.reference)
    && not (is_blank e.excerpt)
    && rt.is_date e.observed_at
    && (not (is_blank_or_absent e.revision)
        || is_sha256 (or_empty e.sha256)
        || is_instruction e.method)

-- `new URL(reference)` throws if the reference is no URL.
unfoldable pub assert_reference : Runtime → Text → Text → Result (Unit {0})
assert_reference rt brain_id reference =
    if not (is_web_reference reference) then ok tt else elim (rt.url reference) [
      | none ↦ err Error.invalid_url
      | some u ↦
          refuse_if (u.has_username || u.has_password) Code.unsafe_evidence_reference brain_id
    ]

unfoldable pub assert_evidence : Runtime → Text → WriteEvidence → Result (Unit {0})
assert_evidence rt brain_id e = do
  refuse_if (not (e.brain_id == brain_id)) Code.source_domain_mismatch brain_id
  refuse_if (not (is_observed rt e)) Code.source_evidence_required brain_id
  assert_reference rt brain_id e.reference

unfoldable pub assert_all_evidence : Runtime → Text → List WriteEvidence → Result (Unit {0})
assert_all_evidence rt brain_id [] = ok tt
assert_all_evidence rt brain_id (e ∷ es) = do
  assert_evidence rt brain_id e
  assert_all_evidence rt brain_id es

abbrev pub evidence_of : Option BrainWriteContext → List WriteEvidence
evidence_of none = []
evidence_of (some context) = context.evidence

-- The part of `assertKnowledgeWrite` behind its early return.
unfoldable pub assert_enforced :
    Runtime
    → Text
    → BrainWritePolicy
    → Text
    → Text
    → Text
    → Option BrainWriteContext
    → Result (Unit {0})
unfolding assert_scope assert_history has_transient_work is_complete_context assert_all_evidence
    join added_lines
assert_enforced rt brain_id policy filename before after context = do
  let added = join 10 (added_lines before after)
  assert_scope rt brain_id policy filename before after context
  assert_history brain_id policy filename before after added
  refuse_if (has_transient_work rt policy filename added) Code.transient_work_route brain_id
  refuse_if (not (is_complete_context context)) Code.source_evidence_required brain_id
  assert_all_evidence rt brain_id (evidence_of context)

-- `!policy || policy.mode !== "enforce" || before === after || isInternalWrite(context)`
unfoldable pub is_exempt : Option BrainWritePolicy → Text → Text → Option BrainWriteContext → Bool
is_exempt none before after context = true
is_exempt (some policy) before after context =
    not (is_enforced policy.mode) || before == after || is_internal_write context

abbrev pub enforce_unless : Bool → Result (Unit {0}) → Result (Unit {0})
enforce_unless true checks = ok tt
enforce_unless false checks = checks

unfoldable pub assert_knowledge_write :
    Runtime
    → Text
    → Option BrainWritePolicy
    → Text
    → Text
    → Text
    → Option BrainWriteContext
    → Result (Unit {0})
assert_knowledge_write rt brain_id none filename before after context = ok tt
assert_knowledge_write rt brain_id (some policy) filename before after context = do
  assert_queue_policy rt brain_id (some policy) filename before after
  enforce_unless (is_exempt (some policy) before after context)
      (assert_enforced rt brain_id policy filename before after context)
