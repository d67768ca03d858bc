-- ===== src/Policy/Knowledge/Accepted.antt =====
-- What a write has shown when `assertKnowledgeWrite` of src/services/write-policy.ts lets it pass.
use brain_mcp_server.Prelude.{
  ◌≡◌, refl, ◌≤◌, false, split, true, Option, none, some, List, [], ◌∷◌, Text, text_eq, join,
  is_empty, All, arith, Option-cases, inl, inr,
}
use brain_mcp_server.Policy.{
  Runtime, BrainWritePolicy, BrainWriteContext, WriteEvidence, UrlParts, ok, >>-eq-ok,
}
use brain_mcp_server.Policy.Patterns.{
  is_operation_id, is_blank, is_web_reference, is_log_file, is_history_file, has_transcript,
  is_history_file-log,
}
use brain_mcp_server.Policy.Lines.{added_lines, count-added_lines}
use brain_mcp_server.Prelude.Counts.{count}
use brain_mcp_server.Policy.Knowledge.{
  has_text, is_observed, assert_reference, assert_evidence, assert_all_evidence, assert_enforced,
  assert_history, has_transient_work, is_complete_context, evidence_of, is_exempt,
  assert_knowledge_write,
}

-- Evidence of this Brain, observed, and with a reference that holds no credentials.
pub record IsSound (rt : Runtime) (brain_id : Text) (e : WriteEvidence) : Type 0 where
  pub domain : e.brain_id ≡ brain_id
  pub observed : is_observed rt e ≡ true
  pub reference :
      is_web_reference e.reference ≡ true
      → (u : UrlParts) × (rt.url e.reference ≡ some u)
        × (u.has_username ≡ false)
        × (u.has_password ≡ false)

assert_evidence-IsSound :
    (rt : Runtime) (brain_id : Text) (e : WriteEvidence)
    → assert_evidence rt brain_id e ≡ ok tt
    → IsSound rt brain_id e
unfolding assert_evidence assert_reference
assert_evidence-IsSound rt brain_id e h = record {
  domain = ground (arith, text_eq.beq_iff e.brain_id brain_id);
  observed = ground arith;
  reference = λ web. elim (Option-cases (rt.url e.reference)) [
    | inl bad ↦ absurd (ground arith)
    | inr (u, good) ↦ (u, good, ground arith, ground arith)
  ];
}

assert_all_evidence-All :
    (rt : Runtime) (brain_id : Text) (es : List WriteEvidence)
    → assert_all_evidence rt brain_id es ≡ ok tt
    → All (IsSound rt brain_id) es
assert_all_evidence-All rt brain_id [] h = tt
assert_all_evidence-All rt brain_id (e ∷ es) h =
    let (here, later) =
      >>-eq-ok (assert_evidence rt brain_id e) (assert_all_evidence rt brain_id es) tt
        (unfold assert_all_evidence in h) in
    (assert_evidence-IsSound rt brain_id e here, assert_all_evidence-All rt brain_id es later)

-- A line that is not blank does not occur among lines without text.
count-has_text :
    (line : Text) (lines : List Text)
    → has_text lines ≡ false
    → is_blank line ≡ false
    → count line lines ≡ 0
unfolding count
count-has_text line [] h filled = refl
count-has_text line (x ∷ xs) h filled =
    ground (arith, text_eq.beq_iff x line, count-has_text line xs)

has_text-kept :
    (before after : Text)
    → has_text (added_lines after before) ≡ false
    → (line : Text) → is_blank line ≡ false
    → count line (split 10 before) ≤ count line (split 10 after)
has_text-kept before after h line filled = omega (
  arith,
  count-added_lines after before line,
  count-has_text line (added_lines after before) h filled,
)

-- What a write that passes has shown. A log or journal keeps each line that is not blank at least as
-- often as it had it.
pub record IsAccepted (rt : Runtime) (brain_id filename before after : Text)
    (given : Option BrainWriteContext) : Type 0 where
  pub context : BrainWriteContext
  pub is_given : given ≡ some context
  pub identified : is_operation_id context.operation_id ≡ true
  pub reasoned : is_blank context.reason ≡ false
  pub supported : is_empty context.evidence ≡ false
  pub sound : All (IsSound rt brain_id) context.evidence
  pub no_log : is_log_file filename ≡ false
  pub kept :
      is_history_file filename ≡ true
      → (line : Text) → is_blank line ≡ false
      → count line (split 10 before) ≤ count line (split 10 after)
  pub no_transcript : has_transcript (join 10 (added_lines before after)) ≡ false

module _ (rt : Runtime) (brain_id : Text) (policy : BrainWritePolicy)
    (filename before after : Text) where
  -- The checks of `assert_enforced`, each passed.
  record Passed (given : Option BrainWriteContext) : Type 0 where
    history :
        assert_history brain_id policy filename before after (join 10 (added_lines before after))
        ≡ ok tt
    no_work : has_transient_work rt policy filename (join 10 (added_lines before after)) ≡ false
    complete : is_complete_context given ≡ true
    evidence : assert_all_evidence rt brain_id (evidence_of given) ≡ ok tt

  assert_enforced-Passed :
      (given : Option BrainWriteContext)
      → assert_enforced rt brain_id policy filename before after given ≡ ok tt
      → Passed given
  unfolding assert_enforced
  assert_enforced-Passed given h = record {
    history = ground arith;
    no_work = ground arith;
    complete = ground arith;
    evidence = ground arith;
  }

  Passed-IsAccepted :
      (context : BrainWriteContext)
      → Passed (some context)
      → IsAccepted rt brain_id filename before after (some context)
  unfolding is_complete_context assert_history has_transient_work
  Passed-IsAccepted context p = record {
    context = context;
    is_given = refl;
    identified = ground arith;
    reasoned = ground arith;
    supported = ground arith;
    sound = assert_all_evidence-All rt brain_id context.evidence p.evidence;
    no_log = ground (arith, is_history_file-log filename);
    kept = λ history. has_text-kept before after (ground arith);
    no_transcript = ground arith;
  }

-- A write under an enforced policy that changes the text and is not the program's own passes only
-- with an identified, reasoned context and sound evidence of this Brain (some, each observed, and
-- without credentials in a web reference), not into the log, without a transcript among the added
-- lines, and in a log or journal only if every line that is not blank occurs at least as often as
-- before.
pub assert_knowledge_write-IsAccepted :
    (rt : Runtime) (brain_id : Text) (policy : BrainWritePolicy) (filename before after : Text)
    (given : Option BrainWriteContext)
    → is_exempt (some policy) before after given ≡ false
    → assert_knowledge_write rt brain_id (some policy) filename before after given ≡ ok tt
    → IsAccepted rt brain_id filename before after given
assert_knowledge_write-IsAccepted rt brain_id policy filename before after given bound h =
    let passed : assert_enforced rt brain_id policy filename before after given ≡ ok tt =
      (unfold assert_knowledge_write in ground arith) in
    of_context given (assert_enforced-Passed rt brain_id policy filename before after given passed)
  where
    of_context :
        (g : Option BrainWriteContext)
        → Passed rt brain_id policy filename before after g
        → IsAccepted rt brain_id filename before after g
    of_context none p = absurd (unfold is_complete_context in cc (p.complete))
    of_context (some context) p =
        Passed-IsAccepted rt brain_id policy filename before after context p
