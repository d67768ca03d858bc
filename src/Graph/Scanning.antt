-- ===== src/Graph/Scanning.antt =====
-- `matchAll` and `replace` with a global expression, and the expressions of src/services/brain-graph.ts.
-- A matcher sees the unit before a position and the text from it on, and gives the length of the match with
-- what the source takes from it. Each expression has at most one way to match at a position.
use brain_mcp_server.Prelude.{
  ℕ, zero, suc, ◌+◌, ◌-◌, Bool, false, not, ◌&&◌, ◌||◌, Option, none, some, List, [], ◌∷◌, ◌++◌,
  Text, codes, nat_eq, ◌==◌, if◌then◌else◌, length, contains, starts_with, after_prefix, is_empty,
  ◌≡◌, arith, refl,
}
use brain_mcp_server.Policy.Patterns.{is_space}
use brain_mcp_server.Graph.Paths.{take_while, drop_while}

abbrev pub Matcher {ℓ} : Type ℓ → Type ℓ
Matcher A = ℕ → Text → Option (ℕ × A)

module _ {ℓ} {A : Type ℓ} where
  abbrev skipped : Option (ℕ × A) → ℕ
  skipped none = 0
  skipped (some (n, value)) = n - 1

  abbrev taken : Option (ℕ × A) → List A
  taken none = []
  taken (some (n, value)) = value ∷ []

  abbrev blanked : ℕ → Option (ℕ × A) → ℕ
  blanked c none = c
  blanked c (some (n, value)) = 32

  -- `before` is the unit before the text, and `skip` units of the text belong to the last match.
  unfoldable pub scan : Matcher A → ℕ → ℕ → Text → List A
  scan at before skip [] = []
  scan at before (suc skip) (c ∷ s) = scan at c skip s
  scan at before zero (c ∷ s) =
      taken (at before (c ∷ s)) ++ scan at c (skipped (at before (c ∷ s))) s

  unfoldable pub match_all : Matcher A → Text → List A
  unfolding scan
  match_all at s = scan at 0 0 s

  unfoldable pub blank : Matcher A → ℕ → ℕ → Text → Text
  blank at before skip [] = []
  blank at before (suc skip) (c ∷ s) = 32 ∷ blank at c skip s
  blank at before zero (c ∷ s) =
      blanked c (at before (c ∷ s)) ∷ blank at c (skipped (at before (c ∷ s))) s

  -- `s.replace(…, (match) => " ".repeat(match.length))`
  unfoldable pub blank_all : Matcher A → Text → Text
  unfolding blank
  blank_all at s = blank at 0 0 s

  length-blank :
      (at : Matcher A) (before skip : ℕ) (s : Text) → length (blank at before skip s) ≡ length s
  unfolding blank
  length-blank at before skip [] = refl
  length-blank at before (suc skip) (c ∷ s) = omega (arith, length-blank at c skip s)
  length-blank at before zero (c ∷ s) =
      omega (arith, length-blank at c (skipped (at before (c ∷ s))) s)

  pub length-blank_all : (at : Matcher A) (s : Text) → length (blank_all at s) ≡ length s
  unfolding blank_all
  length-blank_all at s = length-blank at 0 0 s

-- "(?<!`)`([^`\n]+)`(?!`)", with the text between the backticks.
abbrev in_span : ℕ → Bool
in_span c = not (c == b'`' || c == 10)

abbrev starts_unit : ℕ → Text → Bool
starts_unit c [] = false
starts_unit c (d ∷ s) = d == c

abbrev span_end : Text → Text → Option (ℕ × Text)
span_end inner [] = none
span_end inner (c ∷ s) =
    if (c == b'`') && not (is_empty inner) && not (starts_unit b'`' s)
    then some (length inner + 2, inner)
    else none

unfoldable pub code_span : Matcher Text
unfolding take_while drop_while
code_span before [] = none
code_span before (c ∷ s) =
    if (c == b'`') && not (before == b'`')
    then span_end (take_while in_span s) (drop_while in_span s)
    else none

-- "\[\[([^\]]+?)\]\]"
abbrev not_bracket : ℕ → Bool
not_bracket c = not (c == b']')

abbrev link_end : Text → Text → Option (ℕ × Text)
link_end inner s =
    if starts_with s (codes "]]") && not (is_empty inner)
    then some (length inner + 4, inner)
    else none

unfoldable pub wiki_link : Matcher Text
unfolding take_while drop_while
wiki_link before (c ∷ d ∷ s) =
    if (c == b'[') && (d == b'[')
    then link_end (take_while not_bracket s) (drop_while not_bracket s)
    else none
wiki_link before _ = none

-- "https://[^\s)>\]`\"']+", the whole match.
abbrev in_url : ℕ → Bool
in_url c = not (is_space c || contains c (codes ")>]`\"'"))

abbrev url_from : Text → Option (ℕ × Text)
url_from run = if is_empty run then none else some (length run + 8, codes "https://" ++ run)

abbrev url_after : Option Text → Option (ℕ × Text)
url_after none = none
url_after (some s) = url_from (take_while in_url s)

unfoldable pub https_url : Matcher Text
unfolding take_while after_prefix
https_url before s = url_after (after_prefix (codes "https://") s)

-- The inline link "!?\[[^\]]*\]\((?:<([^>]+)>|([^\s)]+))(?:\s+['\"][^'\"]*['\"])?\)". The functions take the
-- length that is matched so far.
abbrev is_quote : ℕ → Bool
is_quote c = c == b'"' || c == 39

abbrev not_quote : ℕ → Bool
not_quote c = not (is_quote c)

-- "['\"]\)" after a title.
abbrev title_end : ℕ → Text → Option ℕ
title_end n (quote ∷ c ∷ s) = if is_quote quote && (c == b')') then some (n + 2) else none
title_end n _ = none

abbrev title : ℕ → Text → Option ℕ
title n [] = none
title n (quote ∷ s) =
    if is_quote quote
    then title_end (n + 1 + length (take_while not_quote s)) (drop_while not_quote s)
    else none

-- The optional title and the closing parenthesis.
unfoldable pub link_close : ℕ → Text → Option ℕ
unfolding take_while drop_while
link_close n [] = none
link_close n (c ∷ s) =
    if c == b')'
    then some (n + 1)
    else if is_space c
    then title (n + length (take_while is_space (c ∷ s))) (drop_while is_space (c ∷ s))
    else none

abbrev with_text : Text → Option ℕ → Option (ℕ × Text)
with_text target none = none
with_text target (some n) = if is_empty target then none else some (n, target)

abbrev not_close : ℕ → Bool
not_close c = not (c == b'>')

-- "<([^>]+)>" and the rest, from the text behind "<".
abbrev angle_end : ℕ → Text → Text → Option (ℕ × Text)
angle_end n target [] = none
angle_end n target (close ∷ s) = with_text target (link_close (n + 2 + length target) s)

abbrev angle : ℕ → Text → Option (ℕ × Text)
angle n [] = none
angle n (c ∷ s) =
    if c == b'<' then angle_end n (take_while not_close s) (drop_while not_close s) else none

abbrev in_target : ℕ → Bool
in_target c = not (is_space c || c == b')')

abbrev plain : ℕ → Text → Option (ℕ × Text)
plain n s =
    with_text (take_while in_target s)
      (link_close (n + length (take_while in_target s)) (drop_while in_target s))

abbrev first_match : Option (ℕ × Text) → Option (ℕ × Text) → Option (ℕ × Text)
first_match none other = other
first_match (some found) other = some found

abbrev destination : ℕ → Option Text → Option (ℕ × Text)
destination n none = none
destination n (some s) = first_match (angle n s) (plain n s)

-- From "[" on; `n` is 1 behind a "!".
abbrev label : ℕ → Text → Option (ℕ × Text)
label n [] = none
label n (c ∷ s) =
    if c == b'['
    then destination (n + 3 + length (take_while not_bracket s))
        (after_prefix (codes "](") (drop_while not_bracket s))
    else none

unfoldable pub inline_link : Matcher Text
unfolding link_close after_prefix take_while drop_while
inline_link before [] = none
inline_link before (c ∷ s) = if c == b'!' then label 1 s else label 0 (c ∷ s)
