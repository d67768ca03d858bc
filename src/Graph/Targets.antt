-- ===== src/Graph/Targets.antt =====
-- resolveRawEdge of src/services/brain-graph.ts: the file that a raw edge leads to, or one note on why it
-- leads to none. `decode` is `decodeURIComponent`, `none` where that throws.
pub mod Answers
use brain_mcp_server.Prelude.{
  Bool, true, false, not, ◌&&◌, ◌||◌, Option, none, some, List, [], ◌∷◌, ◌++◌, map, ℕ, Text, codes,
  text_eq, nat_eq, ◌==◌, split, contains, starts_with, if◌then◌else◌, keep, reverse, drop,
}
use brain_mcp_server.Prelude.Sets.{distinct}
use brain_mcp_server.Policy.Patterns.{trim}
use brain_mcp_server.Graph.{
  GraphEdgeSyntax, wikilink, markdown_link, backtick_file, backtick_directory, sharepoint_url,
  DiagnosticCode, ambiguous_target, malformed_encoding, missing_directory_index, path_escape,
  unresolved_target, GraphDiagnostic, ReferenceReason, source_boundary, outside_brain,
  unresolved_locator, directory_locator, GraphExternalReference, RawEdge, EdgeResolution, from_root,
  from_source, from_root_or_source, GraphConfig,
}
use brain_mcp_server.Graph.Paths.{
  take_while, is_absolute, normalize, join_paths, dirname, basename, is_drive, without_parents,
  without_dot, is_above,
}
use brain_mcp_server.Policy.Patterns.{ends_with}

-- What the two arrays hold after the call.
pub record Notes : Type 0 where
  pub diagnostics : List GraphDiagnostic
  pub external_references : List GraphExternalReference

-- Every path through the function gives a target, or pushes onto one of the arrays and gives null.
pub data Outcome : Type 0 where
  found : Text → Outcome
  diagnosed : DiagnosticCode → Outcome
  referred : ReferenceReason → Outcome

abbrev before_unit : ℕ → ℕ → Bool
before_unit stop c = not (c == stop)

unfoldable pub strip_fragment_and_query : Text → Text
unfolding take_while
strip_fragment_and_query s = trim (take_while (before_unit b'?') (take_while (before_unit b'#') s))

abbrev pub is_backtick : GraphEdgeSyntax → Bool
is_backtick backtick_file = true
is_backtick backtick_directory = true
is_backtick _ = false

abbrev pub is_wikilink : GraphEdgeSyntax → Bool
is_wikilink wikilink = true
is_wikilink _ = false

abbrev pub escape : GraphEdgeSyntax → Outcome
escape syntax = if is_backtick syntax then referred outside_brain else diagnosed path_escape

abbrev resolved_paths : EdgeResolution → (root relative : Text) → List Text
resolved_paths from_root root relative = root ∷ []
resolved_paths from_source root relative = relative ∷ []
resolved_paths from_root_or_source root relative = root ∷ relative ∷ []

unfoldable pub candidates : Text → EdgeResolution → Text → List Text
unfolding distinct normalize join_paths dirname without_dot is_above
candidates source resolution decoded =
    keep (λ candidate. not (is_above candidate))
      (distinct (
        resolved_paths resolution (normalize (without_dot decoded))
          (normalize (join_paths (dirname source) decoded))))

abbrev present : List Text → Text → List Text
present files name = if contains name files then name ∷ [] else []

abbrev expanded : Text → Text
expanded candidate =
    if ends_with candidate (codes ".md") then candidate else candidate ++ codes ".md"

-- The body of the loop over the candidates.
unfoldable pub exact_of : List Text → Bool → Text → List Text
unfolding join_paths ends_with
exact_of files directory candidate =
    if directory
    then (if contains (join_paths candidate (codes "README.md")) files
        then join_paths candidate (codes "README.md") ∷ []
        else present files (join_paths candidate (codes "INDEX.md")))
    else present files (expanded candidate)

unfoldable pub exact_matches : List Text → Bool → List Text → List Text
exact_matches files directory [] = []
exact_matches files directory (candidate ∷ rest) =
    exact_of files directory candidate ++ exact_matches files directory rest

abbrev unresolved : RawEdge → Outcome
unresolved edge =
    if is_backtick edge.syntax
    then referred (if edge.directory then directory_locator else unresolved_locator)
    else diagnosed (if edge.directory then missing_directory_index else unresolved_target)

abbrev dropped_extension : Text → Text
dropped_extension s = reverse (drop 3 (reverse s))

-- `decoded.replace(/\.md$/, "")`
abbrev pub without_extension : Text → Text
without_extension s = if ends_with s (codes ".md") then dropped_extension s else s

unfoldable pub named : List Text → Text → List Text
unfolding basename
named files wanted = keep (λ filename. basename filename == wanted) files

abbrev pub only_name : RawEdge → List Text → Outcome
only_name edge [] = unresolved edge
only_name edge (filename ∷ []) = found filename
only_name edge (filename ∷ other ∷ rest) = diagnosed ambiguous_target

abbrev pub is_bare : RawEdge → Text → Bool
is_bare edge decoded = is_wikilink edge.syntax && not (contains b'/' decoded)

abbrev pub chosen : List Text → RawEdge → Text → List Text → Outcome
chosen files edge decoded [] =
    if is_bare edge decoded
    then only_name edge (named files (without_extension decoded ++ codes ".md"))
    else unresolved edge
chosen files edge decoded (filename ∷ []) = found filename
chosen files edge decoded (filename ∷ other ∷ rest) = diagnosed ambiguous_target

abbrev pub among : List Text → RawEdge → Text → List Text → Outcome
among files edge decoded [] = escape edge.syntax
among files edge decoded (candidate ∷ rest) =
    chosen files edge decoded (distinct (exact_matches files edge.directory (candidate ∷ rest)))

abbrev pub leaves_parent : GraphConfig → Text → Bool
leaves_parent config decoded = contains (codes "..") (split b'/' decoded) && not config.within_brain

abbrev boundary : Text → ReferenceReason
boundary decoded =
    if starts_with (without_parents decoded) (codes "sources/")
    then source_boundary
    else outside_brain

unfoldable pub resolve_decoded : Text → RawEdge → List Text → GraphConfig → Text → Outcome
unfolding candidates exact_matches exact_of named is_absolute is_drive without_parents
resolve_decoded source edge files config decoded =
    if is_absolute decoded || is_drive decoded
    then escape edge.syntax
    else if leaves_parent config decoded
    then referred (boundary decoded)
    else among files edge decoded (candidates source edge.resolution decoded)

abbrev pub outcome_of : Text → RawEdge → List Text → GraphConfig → Option Text → Outcome
outcome_of source edge files config none = diagnosed malformed_encoding
outcome_of source edge files config (some decoded) =
    resolve_decoded source edge files config decoded

abbrev pub noted : Text → RawEdge → Notes → Outcome → Option Text × Notes
noted source edge notes (found target) = (some target, notes)
noted source edge notes (diagnosed code) = (
  none,
  record notes {
    diagnostics =
        notes.diagnostics
        ++ record { code = code; source = source; syntax = some edge.syntax; target = edge.raw }
          ∷ [];
  },
)
noted source edge notes (referred reason) = (
  none,
  record notes {
    external_references =
        notes.external_references
        ++ record { reason = reason; source = source; syntax = edge.syntax; target = edge.raw }
          ∷ [];
  },
)

unfoldable pub resolve_raw_edge :
    (Text → Option Text) → Text → RawEdge → List Text → GraphConfig → Notes → Option Text × Notes
unfolding resolve_decoded strip_fragment_and_query
resolve_raw_edge decode source edge files config notes =
    noted source edge notes
      (outcome_of source edge files config (decode (strip_fragment_and_query edge.raw)))
