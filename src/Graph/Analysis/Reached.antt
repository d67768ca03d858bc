-- ===== src/Graph/Analysis/Reached.antt =====
-- What the analysis of src/services/brain-graph.ts reports.
use brain_mcp_server.Prelude.{
  ◌≡◌, refl, ◌↔◌, inl, inr, Bool, true, false, not, ◌&&◌, Option, none, some, List, [], ◌∷◌, Text,
  text_eq, ◌==◌, All, All-append, All-impl, keep, contains, any, arith, if◌then◌else◌, Bool-cases,
  text_beq_iff,
}
use brain_mcp_server.Prelude.Maps.{Map, keys}
use brain_mcp_server.Prelude.Sets.{
  contains-keep, contains-distinct, contains-sort_by, any-sort_by, sort_by, All-sort_by, text_le,
}
use brain_mcp_server.Graph.{RawEdge, GraphConfig, GraphEdge, BrainGraphAnalysis}
use brain_mcp_server.Graph.Extract.{extract_raw_edges}
use brain_mcp_server.Graph.Search.{Route, start, follow, links, walk-Route}
use brain_mcp_server.Graph.Targets.{Notes, resolve_raw_edge}
use brain_mcp_server.Graph.Targets.Answers.{IsAnswer, leads, stays, resolve_raw_edge-IsAnswer}
use brain_mcp_server.Graph.Analysis.{
  files_of, is_exempt_file, Collected, with_target, collect_file, collect_edges, edge_le, analysis,
  unreached, is_unreached, collected, starts_of, analyze_brain_graph,
}

-- An edge leads from a file that is not exempt to a file.
pub record IsEdge (files : List Text) (config : GraphConfig) (e : GraphEdge) : Type 0 where
  pub from_file : contains e.source files ≡ true
  pub governed : is_exempt_file config e.source ≡ false
  pub to_file : contains e.target files ≡ true

module _ (decode : Text → Option Text) (files : List Text) (config : GraphConfig) where
  abbrev AreEdges : Collected → Type 0
  AreEdges found = All (IsEdge files config) found.edges

  collect_file-AreEdges :
      (source : Text) (raw : List RawEdge) (found : Collected)
      → contains source files ≡ true
      → is_exempt_file config source ≡ false
      → AreEdges found
      → AreEdges (collect_file decode files config source raw found)
  unfolding collect_file
  collect_file-AreEdges source [] found c x h = h
  collect_file-AreEdges source (edge ∷ rest) found c x h = collect_file-AreEdges source rest _ c x (
      of (resolve_raw_edge decode source edge files config found.notes)
        (resolve_raw_edge-IsAnswer decode source edge files config found.notes))
    where
      of :
          (answer : Option Text × Notes)
          → IsAnswer decode source edge files config found.notes answer
          → AreEdges (with_target source edge found answer)
      of answer (leads decoded target d t e) = rw e (
          All-append (IsEdge files config) found.edges _ h
            (record { from_file = c; governed = x; to_file = t.present }, tt))
      of (none, notes) (stays e n) = h
      of (some target, notes) (stays e n) = cc

  collect_edges-AreEdges :
      (contents : Map Text Text) (found : Collected)
      → ((v : Text) → contains v (keys contents) ≡ true → contains v files ≡ true)
      → AreEdges found
      → AreEdges (collect_edges decode files config contents found)
  unfolding collect_edges
  collect_edges-AreEdges [] found sub h = h
  collect_edges-AreEdges ((source, content) ∷ rest) found sub h =
      collect_edges-AreEdges rest _ (λ v c. sub v (ground (arith, c)))
        (of (is_exempt_file config source) refl)
    where
      of :
          (b : Bool)
          → is_exempt_file config source ≡ b
          → AreEdges (
              if b
              then found
              else collect_file decode files config source (extract_raw_edges config content) found)
      of true e = h
      of false e =
          collect_file-AreEdges source (extract_raw_edges config content) found
            (sub source (ground (arith, text_beq_iff source source))) e h

links-any :
    (es : List GraphEdge) (u v : Text) → links es u v ≡ any (λ e. e.source == u && e.target == v) es
links-any [] u v = refl
links-any (e ∷ es) u v = ground (arith, links-any es u v)

links-sort_by :
    (le : GraphEdge → GraphEdge → Bool) (es : List GraphEdge) (u v : Text)
    → links (sort_by le es) u v ≡ links es u v
links-sort_by le es u v = ground (
  arith,
  links-any es u v,
  links-any (sort_by le es) u v,
  any-sort_by (λ (e : GraphEdge). e.source == u && e.target == v) le es,
)

Route-map :
    {es ds : List GraphEdge} {starts : List Text}
    → ((u v : Text) → links es u v ≡ true → links ds u v ≡ true)
    → {v : Text} → Route es starts v
    → Route ds starts v
Route-map sub (start s) = start s
Route-map sub {v} (follow {u} r l) = follow (Route-map sub r) (sub u v l)

and_cases : (a b c : Bool) → a && (not b && not c) ≡ true → (a ≡ true) × (b ≡ false) × (c ≡ false)
and_cases a b c h = ground arith

-- What the report of `contents` says of the files.
pub record IsAnalysis (contents : Map Text Text) (config : GraphConfig) (a : BrainGraphAnalysis)
    : Type 0 where
  pub reachable :
      (v : Text) → (contains v a.reachable ≡ true) ↔ Route a.edges (starts_of contents config) v
  pub unreachable :
      (v : Text)
      → (contains v a.unreachable ≡ true) ↔ (
          (contains v (keys contents) ≡ true)
          × (is_exempt_file config v ≡ false)
          × ¬ Route a.edges (starts_of contents config) v)
  pub edges : All (IsEdge (keys contents) config) a.edges

module _ (locale_le : Text → Text → Bool) (decode : Text → Option Text) (contents : Map Text Text)
    (config : GraphConfig) where
  abbrev found_edges : List GraphEdge
  found_edges = (collected decode contents config).edges

  files-keys : (v : Text) → contains v (files_of contents) ≡ contains v (keys contents)
  files-keys v = contains-distinct v (keys contents)

  contains-unreachable :
      (reached : List Text) (v : Text)
      → contains v (unreached config (files_of contents) reached)
        ≡ contains v (keys contents) && (not (contains v reached) && not (is_exempt_file config v))
  contains-unreachable reached v = ground (
    arith,
    contains-sort_by v text_le
        (keep (is_unreached config (files_of contents) reached) (files_of contents)),
    contains-keep v (is_unreached config (files_of contents) reached) (files_of contents),
    contains-sort_by v text_le (keep (is_exempt_file config) (files_of contents)),
    contains-keep v (is_exempt_file config) (files_of contents),
    files-keys v,
  )

  report-IsAnalysis :
      (reached : List Text)
      → ((v : Text) → (contains v reached ≡ true) ↔ Route found_edges (starts_of contents config) v)
      → (a : BrainGraphAnalysis) × (analysis locale_le
            (files_of contents)
            config
            (collected decode contents config)
            (some reached)
          ≡ some a)
        × IsAnalysis contents config a
  report-IsAnalysis reached h = (
    _,
    refl,
    record {
      reachable = λ v. (
        λ c. to ((h v).0 (ground (arith, c, contains-sort_by v text_le reached))),
        λ r. ground (arith, (h v).1 (from r), contains-sort_by v text_le reached),
      );
      unreachable = λ v. (
        λ c.
            let (k, n, x) =
              and_cases (contains v (keys contents)) (contains v reached) (is_exempt_file config v)
                (ground (arith, c, contains-unreachable reached v)) in
            (k, ground arith, λ r. cc ((h v).1 (from r), n)),
        λ (k, x, n). ground (arith, contains-unreachable reached v, k, x, missed v n),
      );
      edges = All-sort_by (IsEdge (keys contents) config) (edge_le locale_le) found_edges (
          All-impl weaken found_edges (
            collect_edges-AreEdges decode (files_of contents) config contents _
              (λ v c. rw (files-keys v) c) tt));
    },
  )
    where
      to :
          {v : Text}
          → Route found_edges (starts_of contents config) v
          → Route (sort_by (edge_le locale_le) found_edges) (starts_of contents config) v
      to r = Route-map (λ u v l. rw (links-sort_by (edge_le locale_le) found_edges u v) l) r

      from :
          {v : Text}
          → Route (sort_by (edge_le locale_le) found_edges) (starts_of contents config) v
          → Route found_edges (starts_of contents config) v
      from r = Route-map (λ u v l. rw (links-sort_by (edge_le locale_le) found_edges u v) at l) r

      missed :
          (v : Text)
          → ¬ Route (sort_by (edge_le locale_le) found_edges) (starts_of contents config) v
          → contains v reached ≡ false
      missed v n = elim (Bool-cases (contains v reached)) [
        | inl c ↦ absurd (n (to ((h v).0 c)))
        | inr c ↦ c
      ]

      weaken :
          (e : GraphEdge) → IsEdge (files_of contents) config e → IsEdge (keys contents) config e
      weaken e i = record {
        from_file = ground (arith, files-keys e.source, i.from_file);
        governed = i.governed;
        to_file = ground (arith, files-keys e.target, i.to_file);
      }

-- analyzeBrainGraph always returns. A file is reported as reachable exactly if the reported edges lead to
-- it from the roots that exist; as unreachable exactly if it is a file, not exempt, and they do not; and
-- every reported edge leads from a file that is not exempt to a file.
pub analyze_brain_graph-IsAnalysis :
    (locale_le : Text → Text → Bool) (decode : Text → Option Text) (contents : Map Text Text)
    (config : GraphConfig)
    → (a : BrainGraphAnalysis) × (analyze_brain_graph locale_le decode contents config ≡ some a)
      × IsAnalysis contents config a
unfolding analyze_brain_graph
analyze_brain_graph-IsAnalysis locale_le decode contents config =
    let (reached, e, h) =
      walk-Route (collected decode contents config).edges (starts_of contents config) in
    rw e (report-IsAnalysis locale_le decode contents config reached h)
