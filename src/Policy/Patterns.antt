-- ===== src/Policy/Patterns.antt =====
-- The regular expressions of src/services/write-policy.ts, as tests on texts.
use brain_mcp_server.Prelude.{
  ◌+◌, Bool, true, false, ◌&&◌, ◌||◌, not, Option, none, some, List, [], ◌∷◌, ◌++◌, reverse, map,
  Text, codes, ltb, leb, ◌==◌, nat_eq, text_eq, if◌then◌else◌, starts_with, split, length, all, any,
  contains, ℕ, after_prefix, ◌≡◌,
}

-- `\s`, and what `String.prototype.trim` removes.
abbrev pub is_space : ℕ → Bool
is_space c =
    leb 9 c && leb c 13
    || c == 32
    || c == 160
    || c == 0x1680
    || leb 0x2000 c && leb c 0x200a
    || c == 0x2028
    || c == 0x2029
    || c == 0x202f
    || c == 0x205f
    || c == 0x3000
    || c == 0xfeff

-- Where `^` matches under the flag `m`.
abbrev pub is_terminator : ℕ → Bool
is_terminator c = c == 10 || c == 13 || c == 0x2028 || c == 0x2029

abbrev pub is_lower : ℕ → Bool
is_lower c = leb b'a' c && leb c b'z'

abbrev is_upper : ℕ → Bool
is_upper c = leb b'A' c && leb c b'Z'

abbrev pub is_digit : ℕ → Bool
is_digit c = leb b'0' c && leb c b'9'

-- `\w`, at whose ends `\b` stands.
abbrev pub is_word : ℕ → Bool
is_word c = is_lower c || is_upper c || is_digit c || c == b'_'

-- The flag `i`, which folds ASCII letters with each other alone.
abbrev fold : ℕ → ℕ
fold c = if is_upper c then c + 32 else c

abbrev pub fold_text : Text → Text
fold_text = map fold

unfoldable pub skip_spaces : Text → Text
skip_spaces [] = []
skip_spaces (c ∷ s) = if is_space c then skip_spaces s else c ∷ s

-- `s.trim()`
unfoldable pub trim : Text → Text
unfolding skip_spaces
trim s = reverse (skip_spaces (reverse (skip_spaces s)))

-- `!s.trim()`
unfoldable pub is_blank : Text → Bool
is_blank s = all is_space s

abbrev pub first_is_space : Text → Bool
first_is_space [] = false
first_is_space (c ∷ s) = is_space c

-- A test at the start of the text and of every line: `/^…/m`.
at_line_starts_from : (Text → Bool) → Text → Bool
at_line_starts_from p [] = false
at_line_starts_from p (c ∷ s) = is_terminator c && p s || at_line_starts_from p s

at_line_starts : (Text → Bool) → Text → Bool
unfolding at_line_starts_from
at_line_starts p s = p s || at_line_starts_from p s

-- `word:\s`
abbrev is_speaker : Text → Text → Bool
is_speaker word s = elim (after_prefix (word ++ b':' ∷ []) s) [
  | none ↦ false
  | some r ↦ first_is_space r
]

-- `/^(?:user|assistant|system|developer):\s/m`
unfoldable pub has_transcript : Text → Bool
unfolding at_line_starts after_prefix
has_transcript = at_line_starts (λ s.
    is_speaker (codes "user") s
    || is_speaker (codes "assistant") s
    || is_speaker (codes "system") s
    || is_speaker (codes "developer") s)

abbrev pub is_bullet : ℕ → Bool
is_bullet c = c == b'-' || c == b'*' || c == b'+'

-- What follows `\[\s\]`.
abbrev after_box : Text → Option Text
after_box (a ∷ b ∷ c ∷ s) = if a == b'[' && is_space b && c == b']' then some s else none
after_box _ = none

-- What follows `[-*+]\s+\[\s\]`.
after_bullet : Text → Option Text
unfolding skip_spaces
after_bullet [] = none
after_bullet (c ∷ r) = if is_bullet c && first_is_space r then after_box (skip_spaces r) else none

-- What follows `\s*[-*+]\s+\[\s\]`.
after_open_task : Text → Option Text
unfolding skip_spaces after_bullet
after_open_task s = after_bullet (skip_spaces s)

-- `/^\s*[-*+]\s+\[\s\]\s/m`
unfoldable pub has_open_task : Text → Bool
unfolding at_line_starts after_open_task
has_open_task =
    at_line_starts (λ s. elim (after_open_task s) [ none ↦ false | some r ↦ first_is_space r ])

-- `/^\s*[-*+]\s+\[\s\]/m`
unfoldable pub has_open_box : Text → Bool
unfolding at_line_starts after_open_task
has_open_box = at_line_starts (λ s. elim (after_open_task s) [ none ↦ false | some r ↦ true ])

-- `/^[A-Za-z0-9_-]{8,160}$/`
unfoldable pub is_operation_id : Text → Bool
is_operation_id s =
    all (λ c. is_lower c || is_upper c || is_digit c || c == b'_' || c == b'-') s
    && leb 8 (length s)
    && leb (length s) 160

-- `/^[a-f0-9]{64}$/`
unfoldable pub is_sha256 : Text → Bool
is_sha256 s = all (λ c. leb b'a' c && leb c b'f' || is_digit c) s && length s == 64

-- `s.endsWith(t)`
unfoldable pub ends_with : Text → Text → Bool
unfolding starts_with
ends_with s t = starts_with (reverse s) (reverse t)

-- `/^[a-zA-Z0-9_.\/-]+\.md$/`
unfoldable pub is_markdown_path : Text → Bool
unfolding ends_with
is_markdown_path s =
    all
      (λ c.
        is_lower c || is_upper c || is_digit c || c == b'_' || c == b'.' || c == b'/' || c == b'-')
      s
    && ends_with s (codes ".md")
    && ltb 3 (length s)

-- `s.split("/").includes("..")`
unfoldable pub has_parent_segment : Text → Bool
unfolding split
has_parent_segment s = contains (codes "..") (split b'/' s)

-- `/^https?:\/\//`
unfoldable pub is_web_reference : Text → Bool
unfolding starts_with
is_web_reference s = starts_with s (codes "http://") || starts_with s (codes "https://")

-- `/^[a-z][a-z0-9_-]*$/`
unfoldable pub is_route : Text → Bool
is_route [] = false
is_route (c ∷ s) = is_lower c && all (λ d. is_lower d || is_digit d || d == b'_' || d == b'-') s

-- The text behind its last slash, and the text up to it.
base_name : Text → List Text → Text
base_name s [] = s
base_name s (t ∷ ts) = base_name t ts

-- `/^(?:.*\/)?NAME$/i` for a lower-case NAME; `.` matches no line terminator.
named : Text → Text → Bool
unfolding base_name split
named name filename =
    fold_text (base_name [] (split b'/' filename)) == name && not (any is_terminator filename)

-- `/^(?:.*\/)?LOG\.md$/i`
unfoldable pub is_log_file : Text → Bool
unfolding named
is_log_file = named (codes "log.md")

-- `/^(?:.*\/)?(?:LOG|JOURNAL)\.md$/i`
unfoldable pub is_history_file : Text → Bool
unfolding named
is_history_file filename = named (codes "log.md") filename || named (codes "journal.md") filename

pub is_history_file-log :
    (filename : Text) → is_log_file filename ≡ true → is_history_file filename ≡ true
unfolding is_log_file is_history_file
is_history_file-log filename h = rw h
