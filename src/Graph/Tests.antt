-- ===== src/Graph/Tests.antt =====
-- The functions of src/services/brain-graph.ts on concrete inputs, and the theorems about them there.
use brain_mcp_server.Policy.Patterns.{trim}
use brain_mcp_server.Prelude.{
  join, text_beq, starts_with, after_prefix, ◌≡◌, refl, Bool, true, false, Option, none, some, List,
  [], ◌∷◌, Text, codes, text_eq, All, split,
}
use brain_mcp_server.Prelude.Maps.{Map, get, set}
use brain_mcp_server.Prelude.Sets.{distinct}
use brain_mcp_server.Graph.{
  wikilink, markdown_link, backtick_file, sharepoint_url, RawEdge, from_root, from_source,
  from_root_or_source, GraphConfig, BrainGraphAnalysis,
}
use brain_mcp_server.Graph.Paths.{normalize, join_paths, dirname, basename}
use brain_mcp_server.Graph.Globs.{glob_matches}
use brain_mcp_server.Graph.Fences.{opening, without_fenced_code_blocks}
use brain_mcp_server.Graph.Extract.{extract_raw_edges}
use brain_mcp_server.Graph.Extract.Shapes.{AreDistinct, IsShaped, extract_raw_edges-IsShaped}
use brain_mcp_server.Graph.Targets.{Notes, resolve_raw_edge}
use brain_mcp_server.Graph.Targets.Answers.{IsAnswer, resolve_raw_edge-IsAnswer}
use brain_mcp_server.Graph.Analysis.{analyze_brain_graph}
use brain_mcp_server.Graph.Analysis.Reached.{IsAnalysis, analyze_brain_graph-IsAnalysis}

paths :
    (normalize (codes "a/../b//./c/") ≡ codes "b/c/")
    × (normalize (codes "../../x") ≡ codes "../../x")
    × (normalize (codes "/../x") ≡ codes "/x")
    × (normalize (codes "a/..") ≡ codes ".")
    × (join_paths (codes "a/b") (codes "../c") ≡ codes "a/c")
    × (dirname (codes "a/b/c.md") ≡ codes "a/b")
    × (dirname (codes "NOW.md") ≡ codes ".")
    × (basename (codes "a/b/c.md") ≡ codes "c.md")
unfolding normalize join_paths dirname basename join split text_beq starts_with
paths = (refl, refl, refl, refl, refl, refl, refl, refl)

globs :
    (glob_matches (codes "history/**") (codes "history/2024/LOG.md") ≡ true)
    × (glob_matches (codes "history/*") (codes "history/2024/LOG.md") ≡ false)
    × (glob_matches (codes "a?.md") (codes "ab.md") ≡ true)
    × (glob_matches (codes "a.md") (codes "abmd") ≡ false)
unfolding glob_matches text_beq
globs = (refl, refl, refl, refl)

abbrev page : Text
page =
    codes
      "[[Team Notes#top|notes]] and `ops/run.md`\n```sh\n[[ignored]]\n```\n[x](sub/a.md \"t\") [y](https://ex.com/b)"

fences :
    without_fenced_code_blocks page
    ≡ codes
        "[[Team Notes#top|notes]] and `ops/run.md`\n\n\n\n[x](sub/a.md \"t\") [y](https://ex.com/b)"
unfolding without_fenced_code_blocks opening join split
fences = refl

-- A fence with a language in a file with CRLF ends of lines is not seen.
opening_crlf :
    (opening (codes "```sh") ≡ some (record { marker = b'`'; length = 3 }))
    × (opening (codes "```sh\r") ≡ none)
unfolding opening
opening_crlf = (refl, refl)

abbrev config : GraphConfig
config = record {
  sharepoint_url_mappings =
      record { url_prefix = codes "https://ex.com"; brain_path_prefix = codes "docs" } ∷ [];
  within_brain = false;
  graph_roots = [];
  exempt_globs = codes "history/**" ∷ [];
}

abbrev page_edges : List RawEdge
page_edges =
    record {
      raw = codes "Team Notes";
      syntax = wikilink;
      resolution = from_root;
      directory = false;
    }
    ∷ record {
      raw = codes "sub/a.md";
      syntax = markdown_link;
      resolution = from_source;
      directory = false;
    }
    ∷ record {
      raw = codes "docs/b";
      syntax = sharepoint_url;
      resolution = from_root;
      directory = false;
    }
    ∷ record {
      raw = codes "ops/run.md";
      syntax = backtick_file;
      resolution = from_root_or_source;
      directory = false;
    }
    ∷ []

extracted : extract_raw_edges config page ≡ page_edges
unfolding extract_raw_edges join split text_beq starts_with after_prefix trim
extracted = refl

abbrev decode : Text → Option Text
decode = some

abbrev locale_le : Text → Text → Bool
locale_le s t = true

abbrev contents : Map Text Text
contents =
    (codes "00_loader.md", codes "[[people]] `NOW.md`")
    ∷ (codes "NOW.md", codes "[a](gone.md)")
    ∷ (codes "team/people.md", codes "[n](notes/x.md)")
    ∷ (codes "team/notes/x.md", codes "[[people]]")
    ∷ (codes "team/lost.md", codes "`team/notes/x.md`")
    ∷ (codes "history/old.md", codes "[[nowhere]]")
    ∷ []

abbrev summary : Option BrainGraphAnalysis → List Text × List Text × List Text
summary none = ([], [], [])
summary (some a) = (a.reachable, a.unreachable, a.exempted)

analyzed : summary (analyze_brain_graph locale_le decode contents config) ≡ (
  codes "00_loader.md" ∷ codes "NOW.md" ∷ codes "team/notes/x.md" ∷ codes "team/people.md" ∷ [],
  codes "team/lost.md" ∷ [],
  codes "history/old.md" ∷ [],
)
unfolding analyze_brain_graph get set distinct join split text_beq starts_with after_prefix trim
analyzed = refl

abbrev no_notes : Notes
no_notes = record { diagnostics = []; external_references = [] }

abbrev files : List Text
files = codes "NOW.md" ∷ codes "team/people.md" ∷ []

abbrev people : RawEdge
people = record {
  raw = codes "people#a";
  syntax = wikilink;
  resolution = from_root;
  directory = false;
}

resolved :
    resolve_raw_edge decode (codes "NOW.md") people files config no_notes
    ≡ (some (codes "team/people.md"), no_notes)
unfolding resolve_raw_edge distinct join split text_beq starts_with trim
resolved = refl

resolve_raw_edge-IsAnswer_example :
    IsAnswer decode
      (codes "NOW.md")
      people
      files
      config
      no_notes
      (resolve_raw_edge decode (codes "NOW.md") people files config no_notes)
resolve_raw_edge-IsAnswer_example =
    resolve_raw_edge-IsAnswer decode (codes "NOW.md") people files config no_notes

analyze_brain_graph-IsAnalysis_example :
    (a : BrainGraphAnalysis) × (analyze_brain_graph locale_le decode contents config ≡ some a)
    × IsAnalysis contents config a
analyze_brain_graph-IsAnalysis_example =
    analyze_brain_graph-IsAnalysis locale_le decode contents config

extract_raw_edges-IsShaped_example :
    (extract_raw_edges config (without_fenced_code_blocks page) ≡ extract_raw_edges config page)
    × AreDistinct (extract_raw_edges config page)
    × All IsShaped (extract_raw_edges config page)
extract_raw_edges-IsShaped_example = extract_raw_edges-IsShaped config page
