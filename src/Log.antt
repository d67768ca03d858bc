-- ===== src/Log.antt =====
-- src/services/log.ts: the change log of a Brain, LOG.md.
pub mod Entries
use brain_mcp_server.Prelude.{
  ℕ, zero, suc, ◌+◌, ◌-◌, Bool, true, false, not, ◌&&◌, ◌||◌, Option, none, some, List, [], ◌∷◌,
  ◌++◌, Text, codes, is_empty, starts_with, after_prefix, if◌then◌else◌, ◌==◌, nat_eq, split, join,
  reverse, length, take, drop, leb, ltb,
}
use brain_mcp_server.Prelude.Numbers.{decimal}
use brain_mcp_server.Policy.Patterns.{
  is_space, is_digit, is_terminator, skip_spaces, trim, is_blank, first_is_space,
}

-- LOG_HEADER
abbrev pub log_header : Text
log_header =
    codes "# Brain Change Log"
    ++ 10
      ∷ 10
      ∷ codes "Append-only record of ingests, updates, lint passes, and structural changes."
    ++ 10 ∷ codes "Format: `## [YYYY-MM-DD] OP_TYPE | Summary` followed by files touched."
    ++ 10 ∷ codes "Ordering: newest entry first; insert new entries directly below this preamble."
    ++ 10 ∷ 10 ∷ codes "---"
    ++ 10 ∷ []

-- `files.join(", ")`
unfoldable pub join_files : List Text → Text
join_files [] = []
join_files (f ∷ []) = f
join_files (f ∷ g ∷ fs) = f ++ codes ", " ++ join_files (g ∷ fs)

-- `formatLogEntry`
unfoldable pub format_log_entry : Text → List Text → Text → Text → Text
unfolding join_files
format_log_entry op_type files_touched summary date =
    codes "## ["
    ++ date
    ++ codes "] "
    ++ op_type
    ++ codes " | "
    ++ summary
    ++ 10 ∷ codes "Files: "
    ++ join_files files_touched
    ++ 10 ∷ []

-- `\d{4}-\d{2}-\d{2}` at the start: what follows it.
abbrev after_digits : ℕ → Text → Option Text
after_digits zero s = some s
after_digits (suc n) [] = none
after_digits (suc n) (c ∷ s) = if is_digit c then after_digits n s else none

abbrev after_dash : Option Text → Option Text
after_dash (some (c ∷ s)) = if c == 45 then some s else none
after_dash _ = none

abbrev then_digits : ℕ → Option Text → Option Text
then_digits n none = none
then_digits n (some s) = after_digits n s

abbrev after_date : Text → Option Text
after_date s = then_digits 2 (after_dash (then_digits 2 (after_dash (after_digits 4 s))))

abbrev starts_with_unit : ℕ → Option Text → Bool
starts_with_unit c (some (d ∷ s)) = d == c
starts_with_unit c _ = false

-- `/^## \[\d{4}-\d{2}-\d{2}\]/`
unfoldable pub is_standard_entry_start : Text → Bool
unfolding after_prefix
is_standard_entry_start line = elim (after_prefix (codes "## [") line) [
  | none ↦ false
  | some s ↦ starts_with_unit 93 (after_date s)
]

abbrev skip_dash : Text → Text
skip_dash [] = []
skip_dash (c ∷ s) = if c == 45 then s else c ∷ s

-- `\s+—`, where the dash is U+2014.
abbrev is_spaced_dash : Option Text → Bool
is_spaced_dash none = false
is_spaced_dash (some s) = first_is_space s && starts_with_unit 0x2014 (some (skip_spaces s))

-- `/^\s*-?\s*\d{4}-\d{2}-\d{2}\s+—/`
unfoldable pub is_legacy_entry_start : Text → Bool
unfolding skip_spaces
is_legacy_entry_start line =
    is_spaced_dash (after_date (skip_spaces (skip_dash (skip_spaces line))))

-- `/^#(?!#)/`
unfoldable pub is_root_heading : Text → Bool
is_root_heading [] = false
is_root_heading (c ∷ []) = c == 35
is_root_heading (c ∷ d ∷ s) = c == 35 && not (d == 35)

-- `s.trimEnd()`; `s.trimStart()` is `skip_spaces`.
unfoldable pub trim_end : Text → Text
unfolding skip_spaces
trim_end s = reverse (skip_spaces (reverse s))

-- The text up to and with the first divider, and the rest.
unfoldable pub at_divider : Text → Option (Text × Text)
unfolding after_prefix
at_divider [] = none
at_divider (c ∷ s) =
    let later = at_divider s in
    elim (after_prefix (10 ∷ codes "---" ++ 10 ∷ []) (c ∷ s)) [
      | some rest ↦ some (10 ∷ codes "---" ++ 10 ∷ [], rest)
      | none ↦ elim later [ none ↦ none | some (before, rest) ↦ some (c ∷ before, rest) ]
    ]

abbrev is_entry_start : Text → Bool
is_entry_start s = is_standard_entry_start s || is_legacy_entry_start s

-- `firstRecognizedEntryMatch`: the text before the first line start at which either expression
-- matches, and the text from there. The flag tells whether the text stands at a line start.
unfoldable pub at_first_entry : Bool → Text → Option (Text × Text)
unfolding is_standard_entry_start is_legacy_entry_start
at_first_entry line_start [] = none
at_first_entry line_start (c ∷ s) =
    let later = at_first_entry (is_terminator c) s in
    if line_start && is_entry_start (c ∷ s)
    then some ([], c ∷ s)
    else (elim later [ none ↦ none | some (before, rest) ↦ some (c ∷ before, rest) ])

abbrev below_divider : Text → Text → Text → Text
below_divider entry prefix [] = prefix ++ 10 ∷ entry
below_divider entry prefix (c ∷ rest) = prefix ++ 10 ∷ entry ++ 10 ∷ c ∷ rest

abbrev without_divider : Text → Text → Option (Text × Text) → Text
without_divider entry base none = trim_end (entry ++ 10 ∷ base) ++ 10 ∷ []
without_divider entry base (some (before, rest)) =
    trim_end (trim_end before ++ 10 ∷ 10 ∷ entry ++ 10 ∷ skip_spaces rest) ++ 10 ∷ []

-- `appendLogEntryToContent`
unfoldable pub append_log_entry_to_content : Text → Text → Text
unfolding is_blank at_divider at_first_entry trim_end skip_spaces
append_log_entry_to_content content entry =
    let base = if is_blank content then log_header else content in
    elim (at_divider base) [
      | none ↦ without_divider entry base (at_first_entry true base)
      | some (prefix, rest) ↦ below_divider entry prefix (skip_spaces rest)
    ]
