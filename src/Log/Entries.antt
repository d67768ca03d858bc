-- ===== src/Log/Entries.antt =====
-- Reading the log of src/services/log.ts: `parseLogEntries` and `readLogContent`.
use brain_mcp_server.Prelude.{
  ℕ, ◌+◌, Bool, true, false, not, ◌&&◌, ◌||◌, List, [], ◌∷◌, ◌++◌, Text, codes, is_empty, split,
  join, if◌then◌else◌, length, take, drop, ltb, ◌==◌, nat_eq,
}
use brain_mcp_server.Prelude.Numbers.{decimal}
use brain_mcp_server.Policy.Patterns.{trim}
use brain_mcp_server.Log.{is_standard_entry_start, is_legacy_entry_start, is_root_heading}

-- The variables of `parseLogEntries`.
pub record Parsing : Type 0 where
  pub entries : List Text
  pub current : List Text
  pub current_is_standard : Bool

unfoldable pub flush : Parsing → Parsing
unfolding trim join
flush p =
    let entry = trim (join 10 p.current) in
    record {
      entries = if is_empty entry then p.entries else p.entries ++ entry ∷ [];
      current = [];
      current_is_standard = false;
    }

unfoldable pub read_line : Parsing → Text → Parsing
unfolding flush trim
read_line p line =
    if is_standard_entry_start line
    then record (flush p) { current = line ∷ []; current_is_standard = true }
    else if is_legacy_entry_start line
    then flush (record (flush p) { current = trim line ∷ [] })
    else if p.current_is_standard && is_root_heading line
    then flush p
    else if p.current_is_standard
    then record p { current = p.current ++ line ∷ [] }
    else p

unfoldable pub read_lines : Parsing → List Text → Parsing
read_lines p [] = p
read_lines p (line ∷ lines) = read_lines (read_line p line) lines

abbrev pub start : Parsing
start = record { entries = []; current = []; current_is_standard = false }

unfoldable pub parse_log_entries : Text → List Text
unfolding flush read_lines split
parse_log_entries content = (flush (read_lines start (split 10 content))).entries

abbrev window_header : ℕ → ℕ → ℕ → ℕ → Text
window_header total limit start recent =
    if not (ltb limit total || ltb 0 start)
    then []
    else if start == 0
    then codes "Showing newest "
      ++ decimal recent
      ++ codes " of "
      ++ decimal total
      ++ codes " entries:"
      ++ 10 ∷ 10 ∷ []
    else codes "Showing entries "
      ++ decimal (start + 1)
      ++ codes "-"
      ++ decimal (start + recent)
      ++ codes " of "
      ++ decimal total
      ++ codes " (newest first):"
      ++ 10 ∷ 10 ∷ []

-- `readLogContent`, for a limit and an offset that are natural numbers.
unfoldable pub read_log_content : Text → ℕ → ℕ → Text
unfolding parse_log_entries join trim decimal
read_log_content content limit offset =
    let entries = parse_log_entries content in
    let recent = take limit (drop offset entries) in
    if is_empty entries
    then codes "No log entries yet."
    else if is_empty recent
    then codes "No log entries at offset "
      ++ decimal offset
      ++ codes ". Total entries: "
      ++ decimal (length entries)
      ++ codes "."
    else window_header (length entries) limit offset (length recent) ++ trim (join 10 recent)
