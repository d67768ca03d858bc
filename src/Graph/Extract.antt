-- ===== src/Graph/Extract.antt =====
-- extractRawEdges of src/services/brain-graph.ts: the references of a file, before they are resolved.
pub mod Shapes
use brain_mcp_server.Prelude.{
  ℕ, Bool, true, false, not, ◌&&◌, ◌||◌, Option, none, some, List, [], ◌∷◌, ◌++◌, Text, codes,
  nat_eq, text_eq, ◌==◌, if◌then◌else◌, starts_with, after_prefix, is_empty, any, contains, leb,
  ◌≡◌,
}
use brain_mcp_server.Policy.Patterns.{trim, fold_text, is_lower, is_digit}
use brain_mcp_server.Graph.{
  wikilink, markdown_link, backtick_file, backtick_directory, sharepoint_url, syntax_name, RawEdge,
  from_root, from_source, from_root_or_source, UrlMapping, GraphConfig,
}
use brain_mcp_server.Graph.Paths.{is_slash, take_while, drop_while, join_paths}
use brain_mcp_server.Policy.Patterns.{ends_with}
use brain_mcp_server.Graph.Fences.{without_fenced_code_blocks}
use brain_mcp_server.Graph.Scanning.{
  match_all, blank_all, code_span, wiki_link, https_url, inline_link,
}

abbrev is_not : ℕ → ℕ → Bool
is_not stop c = not (c == stop)

-- `inner.replace(/\\\|/g, "|")`
unfoldable pub without_escapes : Text → Text
without_escapes [] = []
without_escapes (c ∷ []) = c ∷ []
without_escapes (c ∷ d ∷ s) =
    let pair = without_escapes s in
    let rest = without_escapes (d ∷ s) in if (c == 92) && (d == b'|') then d ∷ pair else c ∷ rest

unfoldable pub wiki_target : Text → Text
unfolding without_escapes take_while
wiki_target inner =
    trim (take_while (is_not b'#') (take_while (is_not b'|') (without_escapes inner)))

unfoldable pub wiki_edges : List Text → List RawEdge
unfolding wiki_target ends_with
wiki_edges [] = []
wiki_edges (inner ∷ inners) =
    let target = wiki_target inner in
    let rest = wiki_edges inners in
    if is_empty target
    then rest
    else record {
      raw = target;
      syntax = wikilink;
      resolution = from_root;
      directory = ends_with target (codes "/");
    }
      ∷ rest

-- The edge of a URL behind the prefix of a mapping; `remainder` is without the slashes at its head.
abbrev pub mapped_edge : UrlMapping → Text → RawEdge
mapped_edge mapping remainder = record {
  raw = join_paths mapping.brain_path_prefix remainder;
  syntax = sharepoint_url;
  resolution = from_root;
  directory = ends_with remainder (codes "/");
}

abbrev pub mapped : UrlMapping → Option Text → List RawEdge
mapped mapping none = []
mapped mapping (some remainder) = mapped_edge mapping (drop_while is_slash remainder) ∷ []

unfoldable pub url_edges : List UrlMapping → Text → List RawEdge
unfolding after_prefix drop_while join_paths ends_with
url_edges [] url = []
url_edges (mapping ∷ mappings) url =
    mapped mapping (after_prefix mapping.url_prefix url) ++ url_edges mappings url

-- "/^[a-z][a-z0-9+.-]*:/i", on the folded text.
abbrev in_scheme : ℕ → Bool
in_scheme c = is_lower c || is_digit c || contains c (codes "+.-")

abbrev scheme_from : Text → Bool
scheme_from [] = false
scheme_from (c ∷ s) = is_lower c && starts_with (drop_while in_scheme s) (codes ":")

unfoldable pub has_scheme : Text → Bool
unfolding drop_while
has_scheme s = scheme_from (fold_text s)

unfoldable pub link_edges : List UrlMapping → Text → List RawEdge
unfolding url_edges has_scheme ends_with
link_edges mappings target =
    if is_empty target || starts_with target (codes "#")
    then []
    else if starts_with (fold_text target) (codes "https://")
    then url_edges mappings target
    else if has_scheme target || ends_with target (codes "/")
    then []
    else record {
      raw = target;
      syntax = markdown_link;
      resolution = from_source;
      directory = false;
    }
      ∷ []

unfoldable pub inline_edges : List UrlMapping → List Text → List RawEdge
unfolding link_edges
inline_edges mappings [] = []
inline_edges mappings (target ∷ targets) =
    link_edges mappings (trim target) ++ inline_edges mappings targets

unfoldable pub span_edges : Text → List RawEdge
unfolding ends_with
span_edges target =
    if ends_with target (codes ".md")
    then record {
      raw = target;
      syntax = backtick_file;
      resolution = from_root_or_source;
      directory = false;
    }
      ∷ []
    else if ends_with target (codes "/")
    then record {
      raw = target;
      syntax = backtick_directory;
      resolution = from_root_or_source;
      directory = true;
    }
      ∷ []
    else []

unfoldable pub backtick_edges : List Text → List RawEdge
unfolding span_edges
backtick_edges [] = []
backtick_edges (target ∷ targets) = span_edges (trim target) ++ backtick_edges targets

unfoldable pub bare_edges : List UrlMapping → List Text → List RawEdge
unfolding url_edges
bare_edges mappings [] = []
bare_edges mappings (url ∷ urls) = url_edges mappings url ++ bare_edges mappings urls

abbrev pub edge_key : RawEdge → Text
edge_key edge = syntax_name edge.syntax ++ (0 ∷ edge.raw)

-- `add`, for each edge in turn.
abbrev pub added : RawEdge → List RawEdge → List RawEdge
added edge found =
    if any (λ other. edge_key other == edge_key edge) found then found else found ++ edge ∷ []

unfoldable pub add_all : List RawEdge → List RawEdge → List RawEdge
add_all [] found = found
add_all (edge ∷ edges) found = add_all edges (added edge found)

-- All that the four loops find in the text without fenced code blocks.
unfoldable pub references : List UrlMapping → Text → List RawEdge
unfolding blank_all match_all code_span wiki_link inline_link https_url wiki_edges inline_edges
    backtick_edges bare_edges
references mappings graph_content =
    let link_content = blank_all code_span graph_content in
    let backtick_content = blank_all inline_link graph_content in
    wiki_edges (match_all wiki_link link_content)
    ++ (inline_edges mappings (match_all inline_link link_content)
        ++ (backtick_edges (match_all code_span backtick_content)
            ++ bare_edges mappings (match_all https_url link_content)))

unfoldable pub extract_raw_edges : GraphConfig → Text → List RawEdge
unfolding without_fenced_code_blocks references add_all
extract_raw_edges config content =
    add_all (references config.sharepoint_url_mappings (without_fenced_code_blocks content)) []
