-- ===== src/Policy/Queue.antt =====
-- The rules on intake queues of src/services/write-policy.ts: `taskPath`, `activeQueueBlocks`,
-- `assertQueuePolicy` and `assertCapturePolicy`.
pub mod Quota
use brain_mcp_server.Prelude.{
  ℕ, zero, suc, Bool, true, false, not, ◌&&◌, ◌||◌, Option, none, some, List, [], ◌∷◌, ◌++◌, map,
  Text, text_eq, codes, split, join, is_empty, keep, any, ◌==◌, nat_eq, leb, if◌then◌else◌,
  starts_with, after_prefix,
}
use brain_mcp_server.Prelude.Maps.{Map, get, set}
use brain_mcp_server.Prelude.Counts.{count_of, tally}
use brain_mcp_server.Policy.{
  Runtime, BrainWritePolicy, Intake, retired, brain_scoped, legacy, Result, ok,
  general_intake_retired, brain_scope_required, refuse_if,
}
use brain_mcp_server.Policy.Patterns.{
  is_space, skip_spaces, is_blank, trim, fold_text, is_bullet, is_word, is_markdown_path,
  has_parent_segment,
}

-- `s.replace(/\\/g, "/")`
abbrev slashes : Text → Text
slashes = map (λ c. if c == 92 then 47 else c)

-- `policy.task_paths || ["TASKS.md"]`
abbrev task_paths : BrainWritePolicy → List Text
task_paths policy = elim policy.task_paths [ none ↦ codes "TASKS.md" ∷ [] | some paths ↦ paths ]

unfoldable pub task_path : Runtime → BrainWritePolicy → Text → Bool
task_path rt policy filename =
    let normal = rt.to_lower_case (slashes (rt.nfkc filename)) in
    any (λ p. rt.to_lower_case p == normal) (task_paths policy)

-- `s.replace(/\r/g, "")`
abbrev pub without_returns : Text → Text
without_returns = keep (λ c. not (c == 13))

abbrev is_blank_unit : ℕ → Bool
is_blank_unit c = c == 32 || c == 9

-- `(?:Source:|Route hint:|Urgency:|Details:|Routing receipt:)`, with the flag `i`.
abbrev is_detail : Text → Bool
is_detail s =
    let folded = fold_text s in
    starts_with folded (codes "source:")
    || starts_with folded (codes "route hint:")
    || starts_with folded (codes "urgency:")
    || starts_with folded (codes "details:")
    || starts_with folded (codes "routing receipt:")

-- `[ \t]+(?!detail)`. The run of blanks may give one back, so that a detail behind two blanks or
-- more does not count as one.
starts_record_body : Text → Bool
unfolding starts_with
starts_record_body [] = false
starts_record_body (a ∷ []) = is_blank_unit a
starts_record_body (a ∷ b ∷ s) = is_blank_unit a && (is_blank_unit b || not (is_detail (b ∷ s)))

-- `[ \t]*[-*+][ \t]+(?!detail)`
starts_record : Text → Bool
unfolding starts_record_body
starts_record [] = false
starts_record (c ∷ s) =
    if is_blank_unit c then starts_record s else is_bullet c && starts_record_body s

-- `s.replace(/\n(?=record)/gi, "\n\n")`
part_records : Text → Text
unfolding starts_record
part_records [] = []
part_records (c ∷ s) =
    let rest = part_records s in if c == 10 && starts_record s then 10 ∷ 10 ∷ rest else c ∷ rest

-- `split(/\n\s*\n/)`, by lines: lines of white space part the blocks. It may differ from the
-- expression in blocks of white space alone, which are dropped below.
part_blocks : List Text → List Text → List (List Text)
part_blocks block [] = block ∷ []
part_blocks block (line ∷ lines) =
    let closed = block ∷ part_blocks [] lines in
    let longer = part_blocks (block ++ line ∷ []) lines in if is_blank line then closed else longer

abbrev hashes : Text → ℕ × Text
hashes [] = (0, [])
hashes (c ∷ s) = if c == 35 then (suc (hashes s).0, (hashes s).1) else (0, c ∷ s)

abbrev starts_with_space : Text → Bool
starts_with_space [] = false
starts_with_space (c ∷ s) = is_space c

-- `/^\s*(?:#{1,6}\s|---\s*$)/`
is_heading : Text → Bool
unfolding skip_spaces starts_with is_blank after_prefix
is_heading line =
    let s = skip_spaces line in
    let h = hashes s in
    leb 1 h.0 && leb h.0 6 && starts_with_space h.1
    || (elim (after_prefix (codes "---") s) [ none ↦ false | some r ↦ is_blank r ])

-- `word\b` for a word of letters.
abbrev is_word_then_break : Text → Text → Bool
is_word_then_break word s = elim (after_prefix word s) [
  | none ↦ false
  | some [] ↦ true
  | some (c ∷ r) ↦ not (is_word c)
]

abbrev skip_bullet : Text → Text
skip_bullet [] = []
skip_bullet (c ∷ s) = if is_bullet c then skip_spaces s else c ∷ s

-- `/^(?:[-*+]\s*)?(?:\[[xX]\]|Transferred\b|Filed\b|Closed\b|Historical\b)/i`
is_closed : Text → Bool
unfolding skip_spaces starts_with after_prefix
is_closed block =
    let s = skip_bullet (fold_text block) in
    starts_with s (codes "[x]")
    || is_word_then_break (codes "transferred") s
    || is_word_then_break (codes "filed") s
    || is_word_then_break (codes "closed") s
    || is_word_then_break (codes "historical") s

abbrev block_text : List Text → Text
block_text lines = trim (join 10 (keep (λ line. not (is_heading line)) lines))

unfoldable pub active_queue_blocks : Text → List Text
unfolding part_records part_blocks split join is_heading trim is_closed
active_queue_blocks content =
    keep (λ block. not (is_empty block) && not (is_closed block))
      (map block_text (part_blocks [] (split 10 (part_records (without_returns content)))))

-- The `some` over the new blocks, with the map `previous`.
exceeds : Map Text ℕ → List Text → Bool
exceeds previous [] = false
exceeds previous (block ∷ blocks) = elim (count_of previous block) [
  | zero ↦ true
  | suc n ↦ exceeds (set block n previous) blocks
]

unfoldable pub adds_queue_block : Text → Text → Bool
unfolding exceeds tally get set active_queue_blocks
adds_queue_block before after =
    exceeds (tally [] (active_queue_blocks before)) (active_queue_blocks after)

abbrev pub is_retired : Intake → Bool
is_retired retired = true
is_retired _ = false

unfoldable pub assert_queue_policy :
    Runtime → Text → Option BrainWritePolicy → Text → Text → Text → Result (Unit {0})
unfolding task_path adds_queue_block
assert_queue_policy rt brain_id none filename before after = ok tt
assert_queue_policy rt brain_id (some policy) filename before after =
    if not (is_retired policy.intake) || not (task_path rt policy filename) || before == after
    then ok tt
    else refuse_if (adds_queue_block before after) general_intake_retired brain_id

-- `scope !== "brain_maintenance" || !target || !/…\.md$/.test(target) || …includes("..")`
abbrev is_maintenance_target : Option Text → Option Text → Bool
is_maintenance_target (some scope) (some target) =
    scope == codes "brain_maintenance"
    && not (is_empty target)
    && is_markdown_path target
    && not (has_parent_segment target)
is_maintenance_target _ _ = false

unfoldable pub assert_capture_policy :
    Text → Option BrainWritePolicy → Option Text → Option Text → Result (Unit {0})
unfolding is_markdown_path has_parent_segment
assert_capture_policy brain_id none scope target = ok tt
assert_capture_policy brain_id (some policy) scope target = elim policy.intake [
  | legacy ↦ ok tt
  | retired ↦ refuse_if true general_intake_retired brain_id
  | brain_scoped ↦
      refuse_if (not (is_maintenance_target scope target)) brain_scope_required brain_id
]
