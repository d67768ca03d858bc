-- ===== src/Graph/Targets/Answers.antt =====
-- What src/services/brain-graph.ts answers for a raw edge.
use brain_mcp_server.Prelude.{
  ◌≡◌, refl, Bool, true, false, Option, none, some, List, [], ◌∷◌, ◌++◌, Text, codes, text_eq, ◌==◌,
  contains, arith, text_beq_iff,
}
use brain_mcp_server.Prelude.Sets.{contains-append, contains-keep, contains-distinct, distinct}
use brain_mcp_server.Graph.{RawEdge, GraphConfig, GraphDiagnostic, GraphExternalReference}
use brain_mcp_server.Graph.Paths.{basename, is_absolute, is_drive, join_paths}
use brain_mcp_server.Graph.Targets.{
  Notes, Outcome, found, diagnosed, referred, strip_fragment_and_query, exact_of, exact_matches,
  named, candidates, resolve_decoded, resolve_raw_edge, leaves_parent, only_name, chosen, among,
  without_extension, outcome_of, noted,
}

-- One note more, about this edge of this file.
pub data IsNoted (source : Text) (edge : RawEdge) (before after : Notes) : Type 0 where
  diagnosis :
      (d : GraphDiagnostic)
      → d.source ≡ source
      → d.target ≡ edge.raw
      → d.syntax ≡ some edge.syntax
      → after ≡ record before { diagnostics = before.diagnostics ++ d ∷ [] }
      → IsNoted source edge before after
  reference :
      (r : GraphExternalReference)
      → r.source ≡ source
      → r.target ≡ edge.raw
      → r.syntax ≡ edge.syntax
      → after ≡ record before { external_references = before.external_references ++ r ∷ [] }
      → IsNoted source edge before after

contains-exact_of :
    (files : List Text) (directory : Bool) (candidate t : Text)
    → contains t (exact_of files directory candidate) ≡ true
    → contains t files ≡ true
unfolding exact_of
contains-exact_of files directory candidate t h = ground (
  arith,
  text_beq_iff (join_paths candidate (codes "README.md")) t,
  text_beq_iff (join_paths candidate (codes "INDEX.md")) t,
  text_beq_iff candidate t,
  text_beq_iff (candidate ++ codes ".md") t,
)

contains-exact_matches :
    (files : List Text) (directory : Bool) (names : List Text) (t : Text)
    → contains t (exact_matches files directory names) ≡ true
    → contains t files ≡ true
unfolding exact_matches
contains-exact_matches files directory [] t h = cc
contains-exact_matches files directory (c ∷ cs) t h = ground (
  arith,
  contains-append t (exact_of files directory c) (exact_matches files directory cs),
  contains-exact_of files directory c t,
  contains-exact_matches files directory cs t,
)

module _ (files : List Text) (edge : RawEdge) (decoded t : Text) where
  found-named :
      (wanted : Text) → only_name edge (named files wanted) ≡ found t → contains t files ≡ true
  unfolding named
  found-named wanted = of (named files wanted) (λ h. h)
    where
      of :
          (names : List Text)
          → (contains t names ≡ true → contains t (named files wanted) ≡ true)
          → only_name edge names ≡ found t
          → contains t files ≡ true
      of [] sub h = ground arith
      of (n ∷ []) sub h = ground (
        arith,
        sub,
        text_beq_iff n t,
        contains-keep t (λ filename. basename filename == wanted) files,
      )
      of (n ∷ m ∷ ns) sub h = cc

  found-chosen :
      (exact : List Text)
      → (contains t exact ≡ true → contains t files ≡ true)
      → chosen files edge decoded exact ≡ found t
      → contains t files ≡ true
  found-chosen [] sub h = ground (arith, found-named (without_extension decoded ++ codes ".md"))
  found-chosen (n ∷ []) sub h = ground (arith, sub, text_beq_iff n t)
  found-chosen (n ∷ m ∷ ns) sub h = cc

  found-among :
      (names : List Text) → among files edge decoded names ≡ found t → contains t files ≡ true
  found-among [] h = ground arith
  found-among (n ∷ ns) h =
      found-chosen (distinct (exact_matches files edge.directory (n ∷ ns)))
        (λ c.
          contains-exact_matches files edge.directory (n ∷ ns) t
            (ground (arith, c, contains-distinct t (exact_matches files edge.directory (n ∷ ns)))))
        h

-- What holds of a target and of the text that was decoded to it.
pub record IsTarget (files : List Text) (config : GraphConfig) (decoded target : Text)
    : Type 0 where
  pub present : contains target files ≡ true
  pub relative : is_absolute decoded ≡ false
  pub drive : is_drive decoded ≡ false
  pub inside : leaves_parent config decoded ≡ false

resolve_decoded-IsTarget :
    (source : Text) (edge : RawEdge) (files : List Text) (config : GraphConfig) (decoded t : Text)
    → resolve_decoded source edge files config decoded ≡ found t
    → IsTarget files config decoded t
unfolding resolve_decoded
resolve_decoded-IsTarget source edge files config decoded t h = record {
  present = ground (arith, inner);
  relative = ground arith;
  drive = ground arith;
  inside = ground arith;
}
  where
    inner :
        among files edge decoded (candidates source edge.resolution decoded) ≡ found t
        → contains t files ≡ true
    inner = found-among files edge decoded t (candidates source edge.resolution decoded)

-- The two kinds of answer.
pub data IsAnswer (decode : Text → Option Text) (source : Text) (edge : RawEdge) (files : List Text)
    (config : GraphConfig) (before : Notes) (answer : Option Text × Notes) : Type 0 where
  leads :
      (decoded target : Text)
      → decode (strip_fragment_and_query edge.raw) ≡ some decoded
      → IsTarget files config decoded target
      → answer ≡ (some target, before)
      → IsAnswer decode source edge files config before answer
  stays :
      answer.0 ≡ none
      → IsNoted source edge before answer.1
      → IsAnswer decode source edge files config before answer

-- Whatever an edge says, resolveRawEdge gives a file of the Brain and no note, where the edge is relative
-- and climbs with ".." only if the configuration allows that; or no file and one note about this edge.
pub resolve_raw_edge-IsAnswer :
    (decode : Text → Option Text) (source : Text) (edge : RawEdge) (files : List Text)
    (config : GraphConfig) (before : Notes)
    → IsAnswer decode source edge files config before
        (resolve_raw_edge decode source edge files config before)
unfolding resolve_raw_edge
resolve_raw_edge-IsAnswer decode source edge files config before =
    of (decode (strip_fragment_and_query edge.raw)) refl
  where
    answer :
        (outcome : Outcome) (o : Option Text)
        → outcome_of source edge files config o ≡ outcome
        → decode (strip_fragment_and_query edge.raw) ≡ o
        → IsAnswer decode source edge files config before (noted source edge before outcome)
    answer (found t) none h e = cc
    answer (found t) (some decoded) h e =
        leads decoded t e (resolve_decoded-IsTarget source edge files config decoded t h) refl
    answer (diagnosed code) o h e = stays refl (diagnosis _ refl refl refl refl)
    answer (referred reason) o h e = stays refl (reference _ refl refl refl refl)

    of :
        (o : Option Text)
        → decode (strip_fragment_and_query edge.raw) ≡ o
        → IsAnswer decode source edge files config before
            (noted source edge before (outcome_of source edge files config o))
    of o e = answer (outcome_of source edge files config o) o refl e
