-- ===== src/Graph/Search.antt =====
-- The worklist of src/services/brain-graph.ts: it ends, and it reaches what the edges lead to.
use brain_mcp_server.Prelude.{
  ℕ, zero, suc, ◌+◌, ◌≤◌, ◌≡◌, refl, ◌↔◌, inl, inr, Bool, true, false, not, ◌||◌, ◌&&◌, some, List,
  [], ◌∷◌, ◌++◌, Text, text_eq, ◌==◌, length, length-append, length-keep-le, keep, contains, arith,
  if◌then◌else◌, Bool-cases, subst, some_inj, text_beq_iff,
}
use brain_mcp_server.Prelude.Maps.{Map, get, set, get-set}
use brain_mcp_server.Prelude.Sets.{contains-append, contains-keep}
use brain_mcp_server.Graph.{
  GraphEdge, or_nil, add_edges, adjacency, fresh_targets, next_queue, next_reached, walk,
}

-- The targets of the edges from `u`, in order.
abbrev pub targets_of : Text → List GraphEdge → List Text
targets_of u [] = []
targets_of u (e ∷ es) = if e.source == u then e.target ∷ targets_of u es else targets_of u es

abbrev pub links : List GraphEdge → Text → Text → Bool
links es u v = contains v (targets_of u es)

-- What a chain of edges leads to.
pub data Route (es : List GraphEdge) (starts : List Text) : Text → Type 0 where
  start : {v : Text} → contains v starts ≡ true → Route es starts v
  follow : {u v : Text} → Route es starts u → links es u v ≡ true → Route es starts v

append_nil : (xs : List Text) → xs ++ [] ≡ xs
append_nil [] = refl
append_nil (x ∷ xs) = ground (arith, append_nil xs)

append_assoc : (xs ys zs : List Text) → (xs ++ ys) ++ zs ≡ xs ++ (ys ++ zs)
append_assoc [] ys zs = refl
append_assoc (x ∷ xs) ys zs = ground (arith, append_assoc xs ys zs)

get-add_edges :
    (u : Text) (es : List GraphEdge) (m : Map Text (List Text))
    → or_nil (get u (add_edges es m)) ≡ or_nil (get u m) ++ targets_of u es
unfolding add_edges
get-add_edges u [] m = ground (arith, append_nil (or_nil (get u m)))
get-add_edges u (e ∷ es) m = ground (
  arith,
  text_beq_iff e.source u,
  get-set e.source u (or_nil (get e.source m) ++ e.target ∷ []) m,
  get-add_edges u es (set e.source (or_nil (get e.source m) ++ e.target ∷ []) m),
  append_assoc (or_nil (get u m)) (e.target ∷ []) (targets_of u es),
)

-- The adjacency lists hold the targets of the edges.
pub get-adjacency :
    (u : Text) (es : List GraphEdge) → or_nil (get u (adjacency es)) ≡ targets_of u es
unfolding adjacency get
get-adjacency u es = get-add_edges u es []

-- The edges whose sources are not reached yet.
abbrev waiting : List GraphEdge → List Text → ℕ
waiting [] reached = 0
waiting (e ∷ es) reached =
    if contains e.source reached then waiting es reached else suc (waiting es reached)

waiting-le : (es : List GraphEdge) (reached : List Text) → waiting es reached ≤ length es
waiting-le [] reached = omega arith
waiting-le (e ∷ es) reached = ground (arith, waiting-le es reached)

waiting-reach :
    (es : List GraphEdge) (u : Text) (reached : List Text)
    → contains u reached ≡ false
    → waiting es (reached ++ u ∷ []) + length (targets_of u es) ≡ waiting es reached
waiting-reach [] u reached h = omega arith
waiting-reach (e ∷ es) u reached h = ground (
  arith,
  waiting-reach es u reached h,
  contains-append e.source reached (u ∷ []),
  text_beq_iff u e.source,
  text_beq_iff e.source u,
)

length-fresh :
    (es : List GraphEdge) (u : Text) (reached : List Text)
    → length (fresh_targets (adjacency es) u reached) ≤ length (targets_of u es)
length-fresh es u reached =
    rw (get-adjacency u es)
      (length-keep-le (λ target. not (contains target reached)) (targets_of u es))

-- A round takes one file off the queue, and queues no more than the edges that stop waiting.
work-decreases :
    (es : List GraphEdge) (u : Text) (queue reached : List Text)
    → length (next_queue (adjacency es) u queue reached) + waiting es (next_reached u reached)
      ≤ length queue + waiting es reached
work-decreases es u queue reached = ground (
  arith,
  waiting-reach es u reached,
  length-fresh es u (reached ++ u ∷ []),
  length-append queue (fresh_targets (adjacency es) u (reached ++ u ∷ [])),
)

pub walk_ends :
    (es : List GraphEdge) (queue : List Text) (fuel : ℕ) (reached : List Text)
    → length queue + waiting es reached ≤ fuel
    → (found : List Text) × (walk (adjacency es) queue fuel reached ≡ some found)
unfolding walk
walk_ends es [] fuel reached h = (reached, refl)
walk_ends es (u ∷ queue) zero reached h = absurd (omega arith)
walk_ends es (u ∷ queue) (suc fuel) reached h =
    walk_ends es (next_queue (adjacency es) u queue reached) fuel (next_reached u reached)
      (omega (arith, work-decreases es u queue reached))

module _ (es : List GraphEdge) (starts : List Text) where
  pub record IsSearch (queue reached : List Text) : Type 0 where
    pub queued : (v : Text) → contains v queue ≡ true → Route es starts v
    pub sound : (v : Text) → contains v reached ≡ true → Route es starts v
    pub begun :
        (v : Text) → contains v starts ≡ true → contains v queue || contains v reached ≡ true
    pub closed :
        (u v : Text)
        → contains u reached ≡ true
        → links es u v ≡ true
        → contains v queue || contains v reached ≡ true

  contains-next_queue :
      (u v : Text) (queue reached : List Text)
      → contains v (next_queue (adjacency es) u queue reached)
        ≡ contains v queue
          || not (contains u reached) && (links es u v && not (contains v (reached ++ u ∷ [])))
  contains-next_queue u v queue reached = rw (get-adjacency u es) (
      ground (
        arith,
        contains-keep v (λ target. not (contains target (reached ++ u ∷ []))) (targets_of u es),
        contains-append v queue
            (keep (λ target. not (contains target (reached ++ u ∷ []))) (targets_of u es)),
      ))

  contains-next_reached :
      (u v : Text) (reached : List Text)
      → contains v (next_reached u reached) ≡ contains v reached || (u == v)
  contains-next_reached u v reached =
      ground (arith, contains-append v reached (u ∷ []), text_beq_iff u v)

  next-IsSearch :
      (u : Text) (queue reached : List Text)
      → IsSearch (u ∷ queue) reached
      → IsSearch (next_queue (adjacency es) u queue reached) (next_reached u reached)
  next-IsSearch u queue reached h =
      let here : Route es starts u = h.queued u (ground (arith, text_beq_iff u u)) in
      let queue_at = λ (v : Text). contains-next_queue u v queue reached in
      let reached_at = λ (v : Text). contains-next_reached u v reached in
      let both_at = λ (v : Text). contains-append v reached (u ∷ []) in
      record {
        queued = λ v q.
            let go : links es u v ≡ true → Route es starts v = λ l. follow here l in
            ground (arith, queue_at v, h.queued v, go);
        sound = λ v r. elim (Bool-cases (contains v reached)) [
          | inl old ↦ h.sound v old
          | inr new ↦
              let same : u ≡ v = ground (arith, reached_at v, text_beq_iff u v) in
              subst (Route es starts) same here
        ];
        begun = λ v s. ground (arith, h.begun v s, queue_at v, reached_at v, text_beq_iff u v);
        closed = λ x v r l. ground (
          arith,
          h.closed x v,
          queue_at v,
          reached_at v,
          reached_at x,
          both_at v,
          text_beq_iff u v,
          text_beq_iff u x,
        );
      }

  walk-IsSearch :
      (queue : List Text) (fuel : ℕ) (reached found : List Text)
      → IsSearch queue reached
      → walk (adjacency es) queue fuel reached ≡ some found
      → IsSearch [] found
  unfolding walk
  walk-IsSearch [] fuel reached found h e = subst (IsSearch []) (some_inj e) h
  walk-IsSearch (u ∷ queue) zero reached found h e = cc
  walk-IsSearch (u ∷ queue) (suc fuel) reached found h e =
      walk-IsSearch (next_queue (adjacency es) u queue reached) fuel (next_reached u reached) found
        (next-IsSearch u queue reached h) e

  start-IsSearch : IsSearch starts []
  start-IsSearch = record {
    queued = λ v s. start s;
    sound = λ v r. cc;
    begun = λ v s. ground arith;
    closed = λ u v r l. cc;
  }

  complete :
      (found : List Text)
      → IsSearch [] found
      → {v : Text} → Route es starts v
      → contains v found ≡ true
  complete found h {v} (start s) = h.begun v s
  complete found h {v} (follow {u} r l) = h.closed u v (complete found h r) l

  -- The search ends within the fuel, and finds exactly what the edges lead to from the starts.
  pub walk-Route :
      (found : List Text) × (walk (adjacency es) starts (length starts + length es) [] ≡ some found)
      × ((v : Text) → (contains v found ≡ true) ↔ Route es starts v)
  walk-Route =
      let (found, e) =
        walk_ends es starts (length starts + length es) [] (omega (arith, waiting-le es [])) in
      let final = walk-IsSearch starts (length starts + length es) [] found start-IsSearch e in
      (found, e, λ v. (final.sound v, complete found final))
