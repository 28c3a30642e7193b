-- ===== src/Graphify/Adjacency.antt =====
-- `buildAdjacencyMap` of graphify.cjs. A JavaScript object with string keys is an association list;
-- the keys that Object.prototype has (`constructor` and the like) are outside the model.
use sagasmith.Common.{
  ◌≡◌, refl, Bool, true, false, List, [], ◌∷◌, ◌++◌, arith, Str, str_eq, str_eq_iff, str_eq_refl,
  sym, if◌then◌else◌,
}
use mathlib.Core.List.{append-nil, append_assoc}
use sagasmith.Graphify.{Node, Edge, Graph, node_list, edge_list}

pub record Entry : Type 0 where
  pub target : Str
  pub edge : Edge

abbrev pub Adj : Type 0
Adj = List (Str × List Entry)

-- `adj[k] || []`
unfoldable pub get : Adj → Str → List Entry
get [] k = []
get ((j, es) ∷ adj) k = if str_eq j k then es else get adj k

-- `adj[k] = []`
unfoldable pub reset : Adj → Str → Adj
reset [] k = (k, []) ∷ []
reset ((j, es) ∷ adj) k = if str_eq j k then (j, []) ∷ adj else (j, es) ∷ reset adj k

-- `if (!adj[k]) adj[k] = []`
unfoldable pub ensure : Adj → Str → Adj
ensure [] k = (k, []) ∷ []
ensure ((j, es) ∷ adj) k = if str_eq j k then (j, es) ∷ adj else (j, es) ∷ ensure adj k

-- `adj[k].push(e)`, where `k` is a key.
unfoldable pub push : Adj → Str → Entry → Adj
push [] k e = []
push ((j, es) ∷ adj) k e = if str_eq j k then (j, es ++ e ∷ []) ∷ adj else (j, es) ∷ push adj k e

unfoldable pub add_nodes : Adj → List Node → Adj
unfolding reset
add_nodes adj [] = adj
add_nodes adj (n ∷ ns) = add_nodes (reset adj n.id) ns

unfoldable pub add_edge : Adj → Edge → Adj
unfolding ensure push
add_edge adj e =
    let both = ensure (ensure adj e.source) e.target in
    push (push both e.source (record { target = e.target; edge = e })) e.target
      (record { target = e.source; edge = e })

unfoldable pub add_edges : Adj → List Edge → Adj
unfolding add_edge
add_edges adj [] = adj
add_edges adj (e ∷ es) = add_edges (add_edge adj e) es

unfoldable pub build_adjacency_map : Graph → Adj
unfolding add_nodes add_edges
build_adjacency_map g = add_edges (add_nodes [] (node_list g)) (edge_list g)

-- The entries that an edge gives a node: one for each of its ends there.
unfoldable pub ends_at : Str → Edge → List Entry
ends_at k e =
    (if str_eq e.source k then record { target = e.target; edge = e } ∷ [] else [])
    ++ (if str_eq e.target k then record { target = e.source; edge = e } ∷ [] else [])

unfoldable pub incident : Str → List Edge → List Entry
unfolding ends_at
incident k [] = []
incident k (e ∷ es) = ends_at k e ++ incident k es

-- Whether `k` is a key.
has : Adj → Str → Bool
has [] k = false
has ((j, es) ∷ adj) k = if str_eq j k then true else has adj k

module _ (k l : Str) where
  get-reset : (adj : Adj) → get (reset adj l) k ≡ (if str_eq l k then [] else get adj k)
  unfolding get reset
  get-reset [] = refl
  get-reset ((j, es) ∷ adj) =
      ground (arith, get-reset adj, str_eq_iff j l, str_eq_iff j k, str_eq_iff l k)

  get-ensure : (adj : Adj) → get (ensure adj l) k ≡ get adj k
  unfolding get ensure
  get-ensure [] = ground arith
  get-ensure ((j, es) ∷ adj) = ground (arith, get-ensure adj)

  has-ensure : (adj : Adj) → has (ensure adj l) k ≡ (if str_eq l k then true else has adj k)
  unfolding has ensure
  has-ensure [] = refl
  has-ensure ((j, es) ∷ adj) =
      ground (arith, has-ensure adj, str_eq_iff j l, str_eq_iff j k, str_eq_iff l k)

  has-push : (adj : Adj) (e : Entry) → has (push adj l e) k ≡ has adj k
  unfolding has push
  has-push [] e = refl
  has-push ((j, es) ∷ adj) e = ground (arith, has-push adj e)

  get-push :
      (adj : Adj) (e : Entry)
      → has adj l ≡ true
      → get (push adj l e) k ≡ get adj k ++ (if str_eq l k then e ∷ [] else [])
  unfolding get push has
  get-push [] e h = ground arith
  get-push ((j, es) ∷ adj) e h = ground (
    arith,
    get-push adj e,
    append-nil es,
    append-nil (get adj k),
    str_eq_iff j l,
    str_eq_iff j k,
    str_eq_iff l k,
  )

module _ (k : Str) where
  get-add_edge : (adj : Adj) (e : Edge) → get (add_edge adj e) k ≡ get adj k ++ ends_at k e
  unfolding add_edge ends_at
  get-add_edge adj e =
      let first : Entry = record { target = e.target; edge = e } in
      let second : Entry = record { target = e.source; edge = e } in
      let both = ensure (ensure adj e.source) e.target in
      let has_target : has both e.target ≡ true = rw (has-ensure, str_eq_refl) refl in
      let has_source : has both e.source ≡ true =
        rw (has-ensure e.source e.target (ensure adj e.source))
          (ground (arith, has-ensure e.source e.source adj, str_eq_refl e.source)) in
      let pushed : has (push both e.source first) e.target ≡ true =
        rw (has-push e.target e.source both first) has_target in
      rw
        (
          get-push k e.target (push both e.source first) second pushed,
          get-push k e.source both first has_source,
          get-ensure k e.target (ensure adj e.source),
          get-ensure k e.source adj,
        )
        (append_assoc (get adj k) _ _)

  get-add_edges :
      (adj : Adj) (es : List Edge) → get (add_edges adj es) k ≡ get adj k ++ incident k es
  unfolding add_edges incident
  get-add_edges adj [] = sym (append-nil (get adj k))
  get-add_edges adj (e ∷ es) =
      rw (get-add_edges (add_edge adj e) es, get-add_edge adj e, append_assoc (get adj k))

  get-add_nodes : (adj : Adj) (ns : List Node) → get adj k ≡ [] → get (add_nodes adj ns) k ≡ []
  unfolding add_nodes
  get-add_nodes adj [] h = h
  get-add_nodes adj (n ∷ ns) h =
      get-add_nodes (reset adj n.id) ns (ground (arith, get-reset k n.id adj))

  -- The adjacency list of a node id holds, in the order of the edges, one entry for each end of an
  -- edge at that id, with the edge and its other end, whether or not a node is declared for the id.
  pub get-build_adjacency_map :
      (g : Graph) → get (build_adjacency_map g) k ≡ incident k (edge_list g)
  unfolding build_adjacency_map
  get-build_adjacency_map g = rw (
    get-add_edges (add_nodes [] (node_list g)) (edge_list g),
    get-add_nodes [] (node_list g) (unfold get in refl),
  )
