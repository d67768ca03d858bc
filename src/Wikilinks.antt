-- ===== src/Wikilinks.antt =====
-- src/services/wikilinks.ts: the links of a Brain's files, and their rewriting where a file is renamed.
pub mod Segments
pub mod Changed
pub mod Names
pub mod Inbound
pub mod Rewritten
mod Tests
use brain_mcp_server.Prelude.{
  ℕ, zero, suc, ◌+◌, ◌-◌, Bool, true, false, not, ◌&&◌, ◌||◌, Option, none, some, List, [], ◌∷◌,
  ◌++◌, map, reverse, Text, codes, text_eq, nat_eq, ◌==◌, if◌then◌else◌, is_empty, length, drop,
  contains, starts_with, any, keep, leb,
}
use brain_mcp_server.Policy.Patterns.{trim}

pub record FileEntry : Type 0 where
  pub name : Text
  pub content : Text

-- The text behind the last slash.
unfoldable pub after_last_slash : Text → Text
after_last_slash [] = []
after_last_slash (c ∷ s) =
    let rest = after_last_slash s in
    if contains b'/' s then rest else (if c == b'/' then s else c ∷ s)

unfoldable pub path_no_ext : Text → Text
path_no_ext path =
    if starts_with (reverse path) (reverse (codes ".md"))
    then reverse (drop 3 (reverse path))
    else path

unfoldable pub base_no_ext : Text → Text
unfolding after_last_slash path_no_ext
base_no_ext path = path_no_ext (after_last_slash path)

-- A text up to the first place where a test holds of what follows, and the rest.
unfoldable pub cut : (Text → Bool) → Text → Text × Text
cut p [] = ([], [])
cut p (c ∷ s) = if p (c ∷ s) then ([], c ∷ s) else (c ∷ (cut p s).0, (cut p s).1)

-- Where an alias begins: at a bar, or at the backslash before it.
abbrev pub at_alias : Text → Bool
at_alias [] = false
at_alias (c ∷ []) = c == b'|'
at_alias (c ∷ d ∷ s) = c == b'|' || (c == 92) && (d == b'|')

abbrev pub at_anchor : Text → Bool
at_anchor [] = false
at_anchor (c ∷ s) = c == b'#'

pub record InnerParts : Type 0 where
  pub target : Text
  pub suffix : Text

unfoldable pub split_inner : Text → InnerParts
unfolding cut
split_inner inner =
    let (head, alias_part) = cut at_alias inner in
    let (target, anchor) = cut at_anchor head in
    record { target = trim target; suffix = anchor ++ alias_part }

unfoldable pub basename_count : List FileEntry → Text → ℕ
unfolding base_no_ext
basename_count [] base = 0
basename_count (file ∷ files) base =
    if base_no_ext file.name == base
    then suc (basename_count files base)
    else basename_count files base

-- At most one file has the name.
unfoldable pub basename_unique_in : List FileEntry → Text → Bool
unfolding basename_count
basename_unique_in files base = leb (basename_count files base) 1

-- The expression for a link, at the head of a text: "\[\[([^[\]]+?)\]\]", and the text inside.
abbrev pub is_bracket : ℕ → Bool
is_bracket c = c == b'[' || c == b']'

-- The units up to the next bracket, where two closing brackets follow.
abbrev push_inner : ℕ → Option Text → Option Text
push_inner c none = none
push_inner c (some inner) = some (c ∷ inner)

unfoldable pub until_close : Text → Option Text
until_close [] = none
until_close (c ∷ s) =
    if is_bracket c
    then (if starts_with (c ∷ s) (codes "]]") then some [] else none)
    else push_inner c (until_close s)

abbrev pub filled_inner : Option Text → Option Text
filled_inner none = none
filled_inner (some []) = none
filled_inner (some (c ∷ inner)) = some (c ∷ inner)

unfoldable pub link_at : Text → Option Text
unfolding until_close
link_at (c ∷ d ∷ s) = if (c == b'[') && (d == b'[') then filled_inner (until_close s) else none
link_at _ = none

-- A text as `replace` sees it: its links, and the units outside of them.
pub data Segment : Type 0 where
  outside : ℕ → Segment
  link : Text → Segment

abbrev pub segment_at : ℕ → Option Text → Segment
segment_at c none = outside c
segment_at c (some inner) = link inner

-- How many units behind the first the match covers.
abbrev pub skip_of : Option Text → ℕ
skip_of none = 0
skip_of (some inner) = length inner + 3

unfoldable pub segments_from : ℕ → Text → List Segment
unfolding link_at
segments_from skip [] = []
segments_from (suc skip) (c ∷ s) = segments_from skip s
segments_from zero (c ∷ s) =
    segment_at c (link_at (c ∷ s)) ∷ segments_from (skip_of (link_at (c ∷ s))) s

unfoldable pub segments : Text → List Segment
unfolding segments_from
segments content = segments_from 0 content

abbrev pub render_segment : Segment → Text
render_segment (outside c) = c ∷ []
render_segment (link inner) = b'[' ∷ b'[' ∷ (inner ++ (b']' ∷ b']' ∷ []))

unfoldable pub render : List Segment → Text
render [] = []
render (segment ∷ rest) = render_segment segment ++ render rest

-- The parameters of a rewriting.
pub record Renaming : Type 0 where
  pub from_path : Text
  pub to_path : Text
  pub basename_unique : Bool

-- What the callback of `replace` finds in a link.
pub data Found : Type 0 where
  path_link bare_link colliding_link other_link : Found

unfoldable pub found_in : Renaming → Text → Found
unfolding base_no_ext path_no_ext
found_in r target =
    if contains b'/' target
    then (if target == path_no_ext r.from_path then path_link else other_link)
    else if target == base_no_ext r.from_path
    then (if r.basename_unique then bare_link else colliding_link)
    else other_link

abbrev pub rewritten : Renaming → Text → Found → Text
rewritten r inner path_link = path_no_ext r.to_path ++ (split_inner inner).suffix
rewritten r inner bare_link = base_no_ext r.to_path ++ (split_inner inner).suffix
rewritten r inner colliding_link = inner
rewritten r inner other_link = inner

abbrev pub is_change : Found → Bool
is_change path_link = true
is_change bare_link = true
is_change _ = false

abbrev pub is_collision : Found → Bool
is_collision colliding_link = true
is_collision _ = false

abbrev pub found_by : Renaming → Text → Found
found_by r inner = found_in r (split_inner inner).target

abbrev pub map_link : (Text → Text) → Segment → Segment
map_link g (outside c) = outside c
map_link g (link inner) = link (g inner)

abbrev pub rewrite_inner : Renaming → Text → Text
rewrite_inner r inner = rewritten r inner (found_by r inner)

abbrev pub rewrite_segment : Renaming → Segment → Segment
rewrite_segment r = map_link (rewrite_inner r)

abbrev pub any_link : (Text → Bool) → List Segment → Bool
any_link p [] = false
any_link p (outside c ∷ rest) = any_link p rest
any_link p (link inner ∷ rest) = p inner || any_link p rest

pub record RewriteResult : Type 0 where
  pub content : Text
  pub changed : Bool
  pub ambiguous : Bool

unfoldable pub rewrite_content : Renaming → Text → RewriteResult
unfolding segments render split_inner found_in
rewrite_content r content = record {
  content = render (map (rewrite_segment r) (segments content));
  changed = any_link (λ inner. is_change (found_by r inner)) (segments content);
  ambiguous = any_link (λ inner. is_collision (found_by r inner)) (segments content);
}

-- The loop over the files: those that change, and whether a link was left for a name that is not unique.
unfoldable pub rewrite_files : Renaming → List FileEntry → List FileEntry × Bool
unfolding rewrite_content
rewrite_files r [] = ([], false)
rewrite_files r (file ∷ files) =
    let rest = rewrite_files r files in
    let result = rewrite_content r file.content in
    if file.name == r.from_path then rest else (
      if result.changed
          then record { name = file.name; content = result.content } ∷ rest.0
          else rest.0,
      result.ambiguous || rest.1,
    )

abbrev pub renaming_of : List FileEntry → Text → Text → Renaming
renaming_of files from_path to_path = record {
  from_path = from_path;
  to_path = to_path;
  basename_unique = basename_unique_in files (base_no_ext from_path);
}

unfoldable pub rewrite_inbound_links :
    List FileEntry → (from_path to_path : Text) → List FileEntry × Bool
unfolding rewrite_files basename_unique_in
rewrite_inbound_links files from_path to_path =
    rewrite_files (renaming_of files from_path to_path) files

-- A link that resolves to the path, where `unique` says whether its base name does.
unfoldable pub resolves_to : Text → Bool → Text → Bool
unfolding base_no_ext path_no_ext
resolves_to target_path unique target =
    if contains b'/' target
    then target == path_no_ext target_path
    else target == base_no_ext target_path && unique

unfoldable pub has_inbound_link : Text → Bool → Text → Bool
unfolding segments split_inner resolves_to
has_inbound_link target_path unique content =
    any_link (λ inner. resolves_to target_path unique (split_inner inner).target) (segments content)

unfoldable pub inbound_files : Text → Bool → List FileEntry → List Text
unfolding has_inbound_link
inbound_files target_path unique [] = []
inbound_files target_path unique (file ∷ files) =
    let rest = inbound_files target_path unique files in
    if file.name == target_path
    then rest
    else if has_inbound_link target_path unique file.content
    then file.name ∷ rest
    else rest

unfoldable pub find_inbound_link_files : List FileEntry → Text → List Text
unfolding inbound_files basename_unique_in
find_inbound_link_files files target_path =
    inbound_files target_path (basename_unique_in files (base_no_ext target_path)) files
