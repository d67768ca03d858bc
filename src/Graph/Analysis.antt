-- ===== src/Graph/Analysis.antt =====
-- analyzeBrainGraph of src/services/brain-graph.ts. `decode` is `decodeURIComponent`, and `locale_le` says
-- that `localeCompare` is not positive.
pub mod Reached
use brain_mcp_server.Prelude.{
  ℕ, ◌+◌, Bool, true, false, not, ◌&&◌, ◌||◌, Option, none, some, List, [], ◌∷◌, ◌++◌, Text, codes,
  text_eq, ◌==◌, keep, contains, any, length, if◌then◌else◌,
}
use brain_mcp_server.Prelude.Maps.{Map, keys}
use brain_mcp_server.Prelude.Sets.{distinct, sort_by, text_le}
use brain_mcp_server.Graph.{
  DiagnosticCode, ambiguous_target, malformed_encoding, missing_directory_index, missing_root,
  parent_link_disabled, path_escape, unresolved_target, GraphDiagnostic, ReferenceReason,
  source_boundary, outside_brain, unresolved_locator, directory_locator, GraphExternalReference,
  syntax_name, GraphEdge, BrainGraphAnalysis, RawEdge, GraphConfig, adjacency, walk,
}
use brain_mcp_server.Graph.Extract.{extract_raw_edges}
use brain_mcp_server.Graph.Globs.{glob_matches}
use brain_mcp_server.Graph.Targets.{Notes, resolve_raw_edge}

abbrev pub files_of : Map Text Text → List Text
files_of contents = distinct (keys contents)

abbrev pub roots_of : GraphConfig → List Text
roots_of config = distinct (codes "00_loader.md" ∷ codes "NOW.md" ∷ config.graph_roots)

unfoldable pub is_exempt_file : GraphConfig → Text → Bool
unfolding glob_matches
is_exempt_file config filename = any (λ glob. glob_matches glob filename) config.exempt_globs

unfoldable pub missing_roots : List Text → List Text → List GraphDiagnostic
missing_roots files [] = []
missing_roots files (root ∷ roots) =
    if contains root files
    then missing_roots files roots
    else record { code = missing_root; source = root; syntax = none; target = root }
      ∷ missing_roots files roots

-- The array of edges and the two arrays of notes.
pub record Collected : Type 0 where
  pub edges : List GraphEdge
  pub notes : Notes

abbrev pub with_target : Text → RawEdge → Collected → Option Text × Notes → Collected
with_target source edge found (none, notes) = record found { notes = notes }
with_target source edge found (some target, notes) = record {
  edges = found.edges ++ record { source = source; target = target; syntax = edge.syntax } ∷ [];
  notes = notes;
}

module _ (decode : Text → Option Text) (files : List Text) (config : GraphConfig) where
  -- The loop over the raw edges of one file.
  unfoldable pub collect_file : Text → List RawEdge → Collected → Collected
  unfolding resolve_raw_edge
  collect_file source [] found = found
  collect_file source (edge ∷ rest) found =
      collect_file source rest (
        with_target source edge found
          (resolve_raw_edge decode source edge files config found.notes))

  -- The loop over the contents.
  unfoldable pub collect_edges : Map Text Text → Collected → Collected
  unfolding collect_file extract_raw_edges is_exempt_file
  collect_edges [] found = found
  collect_edges ((source, content) ∷ rest) found = collect_edges rest (
      if is_exempt_file config source
      then found
      else collect_file source (extract_raw_edges config content) found)

abbrev code_name : DiagnosticCode → Text
code_name ambiguous_target = codes "ambiguous_target"
code_name malformed_encoding = codes "malformed_encoding"
code_name missing_directory_index = codes "missing_directory_index"
code_name missing_root = codes "missing_root"
code_name parent_link_disabled = codes "parent_link_disabled"
code_name path_escape = codes "path_escape"
code_name unresolved_target = codes "unresolved_target"

abbrev reason_name : ReferenceReason → Text
reason_name source_boundary = codes "source_boundary"
reason_name outside_brain = codes "outside_brain"
reason_name unresolved_locator = codes "unresolved_locator"
reason_name directory_locator = codes "directory_locator"

abbrev pub is_unreached : GraphConfig → List Text → List Text → Text → Bool
is_unreached config files reachable filename =
    not (contains filename reachable)
    && not (contains filename (sort_by text_le (keep (is_exempt_file config) files)))

abbrev pub unreached : GraphConfig → List Text → List Text → List Text
unreached config files reachable =
    sort_by text_le (keep (is_unreached config files reachable) files)

module _ (locale_le : Text → Text → Bool) where
  -- `a.localeCompare(b) || next`, as the test that it is not positive.
  abbrev then_by : Text → Text → Bool → Bool
  then_by a b next = if locale_le a b then (if locale_le b a then next else true) else false

  abbrev pub edge_le : GraphEdge → GraphEdge → Bool
  edge_le a b =
      then_by a.source b.source
        (then_by a.target b.target (locale_le (syntax_name a.syntax) (syntax_name b.syntax)))

  abbrev diagnostic_le : GraphDiagnostic → GraphDiagnostic → Bool
  diagnostic_le a b =
      then_by a.source b.source
        (then_by (code_name a.code) (code_name b.code) (locale_le a.target b.target))

  abbrev reference_le : GraphExternalReference → GraphExternalReference → Bool
  reference_le a b =
      then_by a.source b.source
        (then_by (reason_name a.reason) (reason_name b.reason) (locale_le a.target b.target))

  -- What is returned once the worklist is empty.
  abbrev pub analysis :
      List Text → GraphConfig → Collected → Option (List Text) → Option BrainGraphAnalysis
  analysis files config found none = none
  analysis files config found (some reachable) = some (record {
    roots = roots_of config;
    reachable = sort_by text_le reachable;
    unreachable = unreached config files reachable;
    exempted = sort_by text_le (keep (is_exempt_file config) files);
    edges = sort_by edge_le found.edges;
    diagnostics = sort_by diagnostic_le found.notes.diagnostics;
    external_references = sort_by reference_le found.notes.external_references;
  })

abbrev pub collected : (Text → Option Text) → Map Text Text → GraphConfig → Collected
collected decode contents config =
    collect_edges decode (files_of contents) config contents (record {
      edges = [];
      notes = record {
        diagnostics = missing_roots (files_of contents) (roots_of config);
        external_references = [];
      };
    })

abbrev pub starts_of : Map Text Text → GraphConfig → List Text
starts_of contents config = keep (λ root. contains root (files_of contents)) (roots_of config)

-- The fuel of the worklist is the number of the first entries and of the edges; `none` means that it did
-- not suffice.
unfoldable pub analyze_brain_graph :
    (Text → Text → Bool)
    → (Text → Option Text)
    → Map Text Text
    → GraphConfig
    → Option BrainGraphAnalysis
unfolding collect_edges walk adjacency missing_roots distinct sort_by text_le is_exempt_file
analyze_brain_graph locale_le decode contents config =
    let found = collected decode contents config in
    analysis locale_le (files_of contents) config found (
      walk (adjacency found.edges) (starts_of contents config)
        (length (starts_of contents config) + length found.edges) [])
