-- ===== src/Graph.antt =====
-- src/services/brain-graph.ts: the graph of a Brain's files, its data and the worklist that finds the files
-- a reader can reach.
pub mod Paths
pub mod Globs
pub mod Fences
pub mod Scanning
pub mod Extract
pub mod Targets
pub mod Search
pub mod Analysis
mod Tests
use brain_mcp_server.Prelude.{
  ℕ, zero, suc, Bool, true, false, not, Option, none, some, List, [], ◌∷◌, ◌++◌, Text, codes,
  text_eq, keep, contains, if◌then◌else◌,
}
use brain_mcp_server.Prelude.Maps.{Map, get, set}

pub data GraphEdgeSyntax : Type 0 where
  wikilink markdown_link backtick_file backtick_directory sharepoint_url : GraphEdgeSyntax

abbrev pub syntax_name : GraphEdgeSyntax → Text
syntax_name wikilink = codes "wikilink"
syntax_name markdown_link = codes "markdown_link"
syntax_name backtick_file = codes "backtick_file"
syntax_name backtick_directory = codes "backtick_directory"
syntax_name sharepoint_url = codes "sharepoint_url"

pub data DiagnosticCode : Type 0 where
  ambiguous_target malformed_encoding missing_directory_index missing_root : DiagnosticCode
  parent_link_disabled path_escape unresolved_target : DiagnosticCode

-- `syntax` is `none` for "root".
pub record GraphDiagnostic : Type 0 where
  pub code : DiagnosticCode
  pub source : Text
  pub syntax : Option GraphEdgeSyntax
  pub target : Text

pub data ReferenceReason : Type 0 where
  source_boundary outside_brain unresolved_locator directory_locator : ReferenceReason

pub record GraphExternalReference : Type 0 where
  pub reason : ReferenceReason
  pub source : Text
  pub syntax : GraphEdgeSyntax
  pub target : Text

pub record GraphEdge : Type 0 where
  pub source : Text
  pub target : Text
  pub syntax : GraphEdgeSyntax

pub record BrainGraphAnalysis : Type 0 where
  pub roots : List Text
  pub reachable : List Text
  pub unreachable : List Text
  pub exempted : List Text
  pub edges : List GraphEdge
  pub diagnostics : List GraphDiagnostic
  pub external_references : List GraphExternalReference

pub data EdgeResolution : Type 0 where
  from_root from_source from_root_or_source : EdgeResolution

pub record RawEdge : Type 0 where
  pub raw : Text
  pub syntax : GraphEdgeSyntax
  pub resolution : EdgeResolution
  pub directory : Bool

pub record UrlMapping : Type 0 where
  pub url_prefix : Text
  pub brain_path_prefix : Text

-- `BrainLintConfig` of src/services/registry.ts, as far as the graph reads it; an absent list is empty,
-- and `within_brain` is the setting of `relative_parent_scope`.
pub record GraphConfig : Type 0 where
  pub sharepoint_url_mappings : List UrlMapping
  pub within_brain : Bool
  pub graph_roots : List Text
  pub exempt_globs : List Text

-- `adjacency.get(source) || []`
abbrev pub or_nil : Option (List Text) → List Text
or_nil none = []
or_nil (some targets) = targets

unfoldable pub add_edges : List GraphEdge → Map Text (List Text) → Map Text (List Text)
add_edges [] m = m
add_edges (e ∷ es) m = add_edges es (set e.source (or_nil (get e.source m) ++ e.target ∷ []) m)

unfoldable pub adjacency : List GraphEdge → Map Text (List Text)
unfolding add_edges
adjacency es = add_edges es []

-- The targets of `current` that are pushed, `current` being among the reached already.
abbrev pub fresh_targets : Map Text (List Text) → Text → List Text → List Text
fresh_targets m current reached =
    keep (λ target. not (contains target reached)) (or_nil (get current m))

abbrev pub next_queue : Map Text (List Text) → Text → List Text → List Text → List Text
next_queue m current queue reached =
    if contains current reached
    then queue
    else queue ++ fresh_targets m current (reached ++ current ∷ [])

abbrev pub next_reached : Text → List Text → List Text
next_reached current reached = if contains current reached then reached else reached ++ current ∷ []

-- `while (queue.length > 0)`, on fuel; `none` means that the fuel ran out.
unfoldable pub walk : Map Text (List Text) → List Text → ℕ → List Text → Option (List Text)
walk m [] fuel reached = some reached
walk m (current ∷ queue) zero reached = none
walk m (current ∷ queue) (suc fuel) reached =
    walk m (next_queue m current queue reached) fuel (next_reached current reached)
