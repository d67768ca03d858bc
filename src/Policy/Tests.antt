-- ===== src/Policy/Tests.antt =====
-- Runs of src/services/write-policy.ts and src/services/write-policy-runtime.ts on concrete inputs.
use brain_mcp_server.Prelude.{
  text_eq, ◌≡◌, refl, ◌≤◌, ◌↔◌, true, false, ◌-◌, some, none, [], ◌∷◌, Text, codes, text_beq,
  starts_with, after_prefix, includes, split, join,
}
use brain_mcp_server.Prelude.Maps.{get, set}
use brain_mcp_server.Prelude.Counts.{count, tally}
use brain_mcp_server.Policy.{
  err, policy_error, policy_unavailable, Runtime, BrainWritePolicy, BrainWriteContext,
  WriteEvidence, enforce, retired, user_directed, user_instruction, agent_observed, ok,
  is_internal_write,
}
use brain_mcp_server.Policy.Patterns.{
  skip_spaces, trim, is_blank, has_transcript, has_open_task, is_operation_id, is_sha256, ends_with,
  is_markdown_path, has_parent_segment, is_web_reference, is_route, is_log_file, is_history_file,
}
use brain_mcp_server.Policy.Lines.{added_lines, count-added_lines}
use brain_mcp_server.Policy.Queue.{
  task_path, active_queue_blocks, adds_queue_block, assert_queue_policy,
}
use brain_mcp_server.Policy.Queue.Quota.{assert_queue_policy-retired_iff}
use brain_mcp_server.Policy.Knowledge.{
  assert_receipt, has_evidenced_scope, assert_scope, assert_history, has_transient_work,
  is_complete_context, is_observed, assert_reference, assert_evidence, assert_all_evidence,
  assert_enforced, is_exempt, assert_knowledge_write, receipt_limit,
}
use brain_mcp_server.Policy.Knowledge.Accepted.{IsAccepted, assert_knowledge_write-IsAccepted}
use brain_mcp_server.Policy.Deployment.{
  Deployment, configured_policy, write_policy_for_brain, config, entry,
}
use brain_mcp_server.Policy.Values.{
  PolicyValue, with_fields, number, string, array, missing, is_valid_policy,
}
use brain_mcp_server.Policy.Receipt.{
  format_automatic_change, receipt_footer, format_automatic_change-IsBounded, IsBounded,
  receipt_lines,
}

-- A runtime for tests: texts are their own hashes and every reference parses to nothing.
abbrev pub test_runtime : Runtime
test_runtime = record {
  sha256 = λ s. s;
  nfkc = λ s. s;
  to_lower_case = λ s. s;
  is_date = λ s. true;
  url = λ s. none;
  encode_uri_component = λ s. s;
  locale_le = λ s t. true;
  stringify_operation = λ k. k.content;
  stringify_policy = λ p. p.capture_route;
}

abbrev pub enforced_policy : BrainWritePolicy
enforced_policy = record {
  version = 1;
  mode = enforce;
  intake = retired;
  capture_route = codes "inbox";
  task_paths = some (codes "q.md" ∷ []);
  review_base_url = none;
  max_receipt_chars = none;
}

abbrev pub instruction : WriteEvidence
instruction = record {
  brain_id = codes "b";
  reference = codes "chat";
  observed_at = codes "t";
  method = user_instruction;
  verification = agent_observed;
  revision = none;
  sha256 = none;
  excerpt = codes "do";
}

abbrev pub directed : BrainWriteContext
directed = record {
  operation_id = codes "12345678";
  kind = user_directed;
  reason = codes "why";
  evidence = instruction ∷ [];
  maintenance = none;
  tool_request_hash = none;
  request_hash = none;
  verification = none;
  policy_digest = none;
  policy_version = none;
  internal = false;
}

-- The policy above as it stands in the registry, and one whose mode is no mode.
abbrev policy_value : Text → PolicyValue
policy_value mode = with_fields (record {
  version = number (some 1) (codes "1");
  mode = string mode;
  intake = string (codes "retired");
  capture_route = string (codes "inbox");
  task_paths = array (some (codes "q.md") ∷ []) (codes "q.md");
  review_base_url = missing;
  max_receipt_chars = missing;
})

abbrev pub governed : Deployment
governed = record {
  registry =
      (codes "b", some (policy_value (codes "enforce")))
      ∷ (codes "c", some (policy_value (codes "on")))
      ∷ [];
  policy_file = none;
  required = [];
}

count-added_lines_example :
    count (codes "y") (added_lines (codes "x") (codes "x"))
    ≡ count (codes "y") (split 10 (codes "x")) - count (codes "y") (split 10 (codes "x"))
count-added_lines_example = count-added_lines (codes "x") (codes "x") (codes "y")

task_path_test : task_path test_runtime enforced_policy (codes "q.md") ≡ true
unfolding task_path text_beq
task_path_test = refl

assert_queue_policy-retired_iff_example :
    (assert_queue_policy test_runtime
        (codes "b")
        (some enforced_policy)
        (codes "q.md")
        (codes "x")
        (codes "y")
      ≡ ok tt)
    ↔ ((block : Text)
        → count block (active_queue_blocks (codes "y"))
          ≤ count block (active_queue_blocks (codes "x")))
assert_queue_policy-retired_iff_example =
    assert_queue_policy-retired_iff test_runtime (codes "b") enforced_policy (codes "q.md")
      (codes "x") (codes "y") refl task_path_test

exempt_test : is_exempt (some enforced_policy) (codes "x") (codes "y") (some directed) ≡ false
unfolding is_exempt text_beq is_internal_write
exempt_test = refl

pub knowledge_test :
    assert_knowledge_write test_runtime
      (codes "b")
      (some enforced_policy)
      (codes "a.md")
      (codes "x")
      (codes "y")
      (some directed)
    ≡ ok tt
unfolding text_beq starts_with after_prefix includes split join get set count tally
    is_internal_write skip_spaces trim is_blank has_transcript has_open_task is_operation_id
    is_sha256 ends_with is_markdown_path has_parent_segment is_web_reference is_log_file
    is_history_file added_lines task_path active_queue_blocks adds_queue_block assert_queue_policy
    assert_receipt has_evidenced_scope assert_scope assert_history has_transient_work
    is_complete_context is_observed assert_reference assert_evidence assert_all_evidence
    assert_enforced is_exempt assert_knowledge_write
knowledge_test = refl

assert_knowledge_write-IsAccepted_example :
    IsAccepted test_runtime (codes "b") (codes "a.md") (codes "x") (codes "y") (some directed)
assert_knowledge_write-IsAccepted_example =
    assert_knowledge_write-IsAccepted test_runtime (codes "b") enforced_policy (codes "a.md")
      (codes "x") (codes "y") (some directed) exempt_test knowledge_test

pub governed_test :
    write_policy_for_brain test_runtime governed (codes "b") ≡ ok (some enforced_policy)
unfolding write_policy_for_brain configured_policy is_valid_policy is_route text_beq trim
governed_test = refl

malformed_test :
    write_policy_for_brain test_runtime governed (codes "c")
    ≡ err (policy_error policy_unavailable (codes "c"))
unfolding write_policy_for_brain configured_policy is_valid_policy is_route text_beq trim
malformed_test = refl

-- A file that does not name the Brain is no reason to fall back to the registry.
unnamed_test :
    write_policy_for_brain test_runtime
      (record governed {
        policy_file = some (config (number (some 1) (codes "1")) (entry none none ∷ []));
      })
      (codes "b")
    ≡ err (policy_error policy_unavailable (codes "b"))
unfolding write_policy_for_brain configured_policy is_valid_policy is_route text_beq trim
unnamed_test = refl

format_automatic_change-IsBounded_example :
    IsBounded
      (receipt_limit enforced_policy.max_receipt_chars)
      (receipt_footer test_runtime (codes "b") (codes "rev_1") enforced_policy)
      (join 10 (
        receipt_lines (codes "t") (codes "b") (codes "a.md") (codes "x") (codes "y") directed none))
      (format_automatic_change test_runtime
        (codes "t")
        (codes "b")
        (codes "a.md")
        (codes "x")
        (codes "y")
        directed
        none
        (codes "rev_1")
        enforced_policy)
format_automatic_change-IsBounded_example =
    format_automatic_change-IsBounded test_runtime (codes "t") (codes "b") (codes "a.md")
      (codes "x") (codes "y") directed none (codes "rev_1") enforced_policy
