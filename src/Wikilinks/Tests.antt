-- ===== src/Wikilinks/Tests.antt =====
-- The functions of src/services/wikilinks.ts on concrete files, and the theorems about them there.
use brain_mcp_server.Prelude.{
  any, ℕ, arith, ◌≡◌, refl, Bool, true, false, List, [], ◌∷◌, map, Text, codes, text_eq, text_beq,
  text_beq_iff, starts_with, All,
}
use brain_mcp_server.Policy.Patterns.{trim}
use brain_mcp_server.Wikilinks.{
  is_bracket, FileEntry, path_no_ext, base_no_ext, segments, Renaming, rewrite_content,
  rewrite_segment, rewrite_inbound_links, find_inbound_link_files, basename_unique_in, renaming_of,
}
use brain_mcp_server.Wikilinks.Names.{is_special}
use brain_mcp_server.Wikilinks.Inbound.{find_inbound_link_files-updates}
use brain_mcp_server.Wikilinks.Rewritten.{
  IsLinkable, IsOther, IsCleared, segments-rewrite_content, rewrite_inbound_links-IsCleared,
}

abbrev from_path : Text
from_path = codes "team/ann.md"

abbrev to_path : Text
to_path = codes "team/anna.md"

abbrev page : Text
page = codes "[[[ann|Ann]], [[team/ann#x]], [[ann\\|A]] and [[other]] [[ann"

abbrev files : List FileEntry
files =
    record { name = from_path; content = codes "[[ann]]" }
    ∷ record { name = codes "NOW.md"; content = page }
    ∷ record { name = codes "b.md"; content = codes "none" }
    ∷ []

abbrev new_page : Text
new_page = codes "[[[anna|Ann]], [[team/anna#x]], [[anna\\|A]] and [[other]] [[ann"

rewritten_files :
    rewrite_inbound_links files from_path to_path
    ≡ (record { name = codes "NOW.md"; content = new_page } ∷ [], false)
unfolding rewrite_inbound_links text_beq starts_with trim
rewritten_files = refl

inbound : find_inbound_link_files files from_path ≡ codes "NOW.md" ∷ []
unfolding find_inbound_link_files text_beq starts_with trim
inbound = refl

-- A new name that another file has already is not noticed: the link leads to either.
abbrev crowded : List FileEntry
crowded = record { name = codes "b/anna.md"; content = [] } ∷ files

misled :
    rewrite_inbound_links crowded from_path to_path
    ≡ (record { name = codes "NOW.md"; content = new_page } ∷ [], false)
unfolding rewrite_inbound_links text_beq starts_with trim
misled = refl

All-none : (p : ℕ → Bool) (s : Text) → any p s ≡ false → All (λ c. p c ≡ false) s
All-none p [] h = tt
All-none p (c ∷ s) h = (ground (arith, h), All-none p s (ground (arith, h)))

linkable : IsLinkable to_path
unfolding path_no_ext base_no_ext starts_with trim
linkable = record {
  path = record {
    filled = refl;
    plain = All-none is_bracket (path_no_ext to_path) refl;
    simple = All-none is_special (path_no_ext to_path) refl;
    trimmed = refl;
  };
  base = record {
    filled = refl;
    plain = All-none is_bracket (base_no_ext to_path) refl;
    simple = All-none is_special (base_no_ext to_path) refl;
    trimmed = refl;
  };
}

abbrev renaming : Renaming
renaming = renaming_of files from_path to_path

segments-rewrite_content_example :
    segments (rewrite_content renaming page).content
    ≡ map (rewrite_segment renaming) (segments page)
segments-rewrite_content_example = segments-rewrite_content renaming linkable page

differ : ¬ (false ≡ true)
differ e = cc

other : IsOther from_path to_path
unfolding path_no_ext base_no_ext starts_with text_beq
other = record {
  linkable = linkable;
  base = λ e. differ ((text_beq_iff (base_no_ext to_path) (base_no_ext from_path)).1 e);
  path = λ e. differ ((text_beq_iff (path_no_ext to_path) (path_no_ext from_path)).1 e);
  moved = λ e. differ ((text_beq_iff (path_no_ext to_path) (base_no_ext from_path)).1 e);
}

unique : basename_unique_in files (base_no_ext from_path) ≡ true
unfolding basename_unique_in starts_with text_beq
unique = refl

rewrite_inbound_links-IsCleared_example :
    All (IsCleared renaming other unique (rewrite_inbound_links files from_path to_path).0) files
rewrite_inbound_links-IsCleared_example =
    rewrite_inbound_links-IsCleared files from_path to_path other unique

find_inbound_link_files-updates_example :
    find_inbound_link_files files from_path
    ≡ map (λ f. f.name) (rewrite_inbound_links files from_path to_path).0
find_inbound_link_files-updates_example = find_inbound_link_files-updates files from_path to_path
