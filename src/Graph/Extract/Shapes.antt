-- ===== src/Graph/Extract/Shapes.antt =====
-- The raw edges that src/services/brain-graph.ts extracts.
use brain_mcp_server.Prelude.{
  ◌≡◌, refl, inl, inr, Bool, true, false, Option, none, some, List, [], ◌∷◌, ◌++◌, Text, codes,
  text_eq, ◌==◌, is_empty, any, All, All-append, arith, starts_with, after_prefix, Bool-cases,
  text_beq_iff,
}
use brain_mcp_server.Prelude.Sets.{any-append}
use brain_mcp_server.Policy.Patterns.{trim}
use brain_mcp_server.Graph.{
  GraphEdgeSyntax, wikilink, markdown_link, backtick_file, backtick_directory, sharepoint_url,
  RawEdge, from_root, from_source, from_root_or_source, UrlMapping, GraphConfig,
}
use brain_mcp_server.Policy.Patterns.{ends_with}
use brain_mcp_server.Graph.Fences.{without_fenced_code_blocks}
use brain_mcp_server.Graph.Fences.Closed.{without_fenced_code_blocks-closed}
use brain_mcp_server.Graph.Extract.{
  wiki_target, wiki_edges, mapped, url_edges, link_edges, inline_edges, has_scheme, span_edges,
  backtick_edges, bare_edges, edge_key, added, add_all, references, extract_raw_edges,
}

-- What each kind of reference looks like.
abbrev pub HasShape : GraphEdgeSyntax → RawEdge → Type 0
HasShape wikilink e =
    (is_empty e.raw ≡ false)
    × (e.resolution ≡ from_root)
    × (e.directory ≡ ends_with e.raw (codes "/"))
HasShape markdown_link e =
    (is_empty e.raw ≡ false)
    × (starts_with e.raw (codes "#") ≡ false)
    × (has_scheme e.raw ≡ false)
    × (ends_with e.raw (codes "/") ≡ false)
    × (e.resolution ≡ from_source)
    × (e.directory ≡ false)
HasShape backtick_file e =
    (ends_with e.raw (codes ".md") ≡ true)
    × (e.resolution ≡ from_root_or_source)
    × (e.directory ≡ false)
HasShape backtick_directory e =
    (ends_with e.raw (codes "/") ≡ true)
    × (e.resolution ≡ from_root_or_source)
    × (e.directory ≡ true)
HasShape sharepoint_url e = e.resolution ≡ from_root

abbrev pub IsShaped : RawEdge → Type 0
IsShaped e = HasShape e.syntax e

wiki_edges-IsShaped : (inners : List Text) → All IsShaped (wiki_edges inners)
unfolding wiki_edges
wiki_edges-IsShaped [] = tt
wiki_edges-IsShaped (inner ∷ inners) = elim (Bool-cases (is_empty (wiki_target inner))) [
  | inl e ↦ rw e (wiki_edges-IsShaped inners)
  | inr e ↦ rw e ((e, refl, refl), wiki_edges-IsShaped inners)
]

mapped-IsShaped : (mapping : UrlMapping) (o : Option Text) → All IsShaped (mapped mapping o)
mapped-IsShaped mapping none = tt
mapped-IsShaped mapping (some remainder) = (refl, tt)

url_edges-IsShaped :
    (mappings : List UrlMapping) (url : Text) → All IsShaped (url_edges mappings url)
unfolding url_edges
url_edges-IsShaped [] url = tt
url_edges-IsShaped (mapping ∷ mappings) url =
    All-append IsShaped _ _ (mapped-IsShaped mapping (after_prefix mapping.url_prefix url))
      (url_edges-IsShaped mappings url)

link_edges-IsShaped :
    (mappings : List UrlMapping) (target : Text) → All IsShaped (link_edges mappings target)
unfolding link_edges
link_edges-IsShaped mappings target = ground (arith, url_edges-IsShaped mappings target)

inline_edges-IsShaped :
    (mappings : List UrlMapping) (targets : List Text)
    → All IsShaped (inline_edges mappings targets)
unfolding inline_edges
inline_edges-IsShaped mappings [] = tt
inline_edges-IsShaped mappings (target ∷ targets) =
    All-append IsShaped _ _ (link_edges-IsShaped mappings (trim target))
      (inline_edges-IsShaped mappings targets)

span_edges-IsShaped : (target : Text) → All IsShaped (span_edges target)
unfolding span_edges
span_edges-IsShaped target = elim (Bool-cases (ends_with target (codes ".md"))) [
  | inl e ↦ rw e ((e, refl, refl), tt)
  | inr e ↦ rw e (elim (Bool-cases (ends_with target (codes "/"))) [
    | inl f ↦ rw f ((f, refl, refl), tt)
    | inr f ↦ rw f tt
  ])
]

backtick_edges-IsShaped : (targets : List Text) → All IsShaped (backtick_edges targets)
unfolding backtick_edges
backtick_edges-IsShaped [] = tt
backtick_edges-IsShaped (target ∷ targets) =
    All-append IsShaped _ _ (span_edges-IsShaped (trim target)) (backtick_edges-IsShaped targets)

bare_edges-IsShaped :
    (mappings : List UrlMapping) (urls : List Text) → All IsShaped (bare_edges mappings urls)
unfolding bare_edges
bare_edges-IsShaped mappings [] = tt
bare_edges-IsShaped mappings (url ∷ urls) =
    All-append IsShaped _ _ (url_edges-IsShaped mappings url) (bare_edges-IsShaped mappings urls)

-- No edge has the key of an earlier one.
abbrev has_key : RawEdge → List RawEdge → Bool
has_key edge found = any (λ other. edge_key other == edge_key edge) found

abbrev pub AreDistinct : List RawEdge → Type 0
AreDistinct [] = Unit
AreDistinct (edge ∷ edges) = (has_key edge edges ≡ false) × AreDistinct edges

append-AreDistinct :
    (found : List RawEdge) (edge : RawEdge)
    → AreDistinct found
    → has_key edge found ≡ false
    → AreDistinct (found ++ edge ∷ [])
append-AreDistinct [] edge h n = (refl, tt)
append-AreDistinct (e ∷ es) edge (h, hs) n = (
  ground (
    arith,
    h,
    any-append (λ other. edge_key other == edge_key e) es (edge ∷ []),
    text_beq_iff (edge_key edge) (edge_key e),
    text_beq_iff (edge_key e) (edge_key edge),
  ),
  append-AreDistinct es edge hs (ground arith),
)

added-AreDistinct :
    (edge : RawEdge) (found : List RawEdge) → AreDistinct found → AreDistinct (added edge found)
added-AreDistinct edge found h = elim (Bool-cases (has_key edge found)) [
  | inl e ↦ rw e h
  | inr e ↦ rw e (append-AreDistinct found edge h e)
]

added-IsShaped :
    (edge : RawEdge) (found : List RawEdge)
    → IsShaped edge
    → All IsShaped found
    → All IsShaped (added edge found)
added-IsShaped edge found s h = elim (Bool-cases (has_key edge found)) [
  | inl e ↦ rw e h
  | inr e ↦ rw e (All-append IsShaped found _ h (s, tt))
]

add_all-AreDistinct :
    (edges found : List RawEdge) → AreDistinct found → AreDistinct (add_all edges found)
unfolding add_all
add_all-AreDistinct [] found h = h
add_all-AreDistinct (edge ∷ edges) found h =
    add_all-AreDistinct edges _ (added-AreDistinct edge found h)

add_all-IsShaped :
    (edges found : List RawEdge)
    → All IsShaped edges
    → All IsShaped found
    → All IsShaped (add_all edges found)
unfolding add_all
add_all-IsShaped [] found s h = h
add_all-IsShaped (edge ∷ edges) found (s, ss) h =
    add_all-IsShaped edges _ ss (added-IsShaped edge found s h)

references-IsShaped :
    (mappings : List UrlMapping) (text : Text) → All IsShaped (references mappings text)
unfolding references
references-IsShaped mappings text = search (
  All-append IsShaped,
  wiki_edges-IsShaped,
  inline_edges-IsShaped,
  backtick_edges-IsShaped,
  bare_edges-IsShaped,
)

abbrev found : GraphConfig → Text → List RawEdge
found config content =
    references config.sharepoint_url_mappings (without_fenced_code_blocks content)

-- The references of a file are those of its text without fenced code blocks, no two of them have the same
-- kind and text, and each has the form and the resolution of its kind.
pub extract_raw_edges-IsShaped :
    (config : GraphConfig) (content : Text)
    → (extract_raw_edges config (without_fenced_code_blocks content)
        ≡ extract_raw_edges config content)
      × AreDistinct (extract_raw_edges config content)
      × All IsShaped (extract_raw_edges config content)
unfolding extract_raw_edges
extract_raw_edges-IsShaped config content = (
  rw (without_fenced_code_blocks-closed content).2,
  add_all-AreDistinct (found config content) [] tt,
  add_all-IsShaped (found config content) []
      (references-IsShaped config.sharepoint_url_mappings (without_fenced_code_blocks content)) tt,
)
