-- ===== src/Graphify/Query.antt =====
-- `seedAndExpand` of graphify.cjs. The loops are folds over a state that holds what the code
-- mutates; `to_lower` stands for String.prototype.toLowerCase.
pub mod Walk
pub mod Sound
pub mod Complete
pub mod Reach
use sagasmith.Common.{
  ℕ, zero, suc, ◌≡◌, Bool, true, false, ◌||◌, Option, none, some, List, [], ◌∷◌, ◌++◌, map, Str,
  str_eq, if◌then◌else◌, filter, includes, has, add,
}
use sagasmith.Graphify.{Node, Edge, Graph, node_list, key_of}
use sagasmith.Graphify.Adjacency.{Adj, Entry, get, build_adjacency_map}

-- `${source}::${target}::${label || ''}`
unfoldable pub query_key : Edge → Str
query_key e = key_of e.source e.target e.label

-- What the expansion mutates: visitedNodes, collectedEdges, seenEdgeKeys and nextFrontier.
pub record State : Type 0 where
  pub visited : List Str
  pub collected : List Edge
  pub seen : List Str
  pub next : List Str

unfoldable pub collect : Edge → State → State
unfolding query_key
collect e s =
    if has s.seen (query_key e)
    then s
    else record s { collected = s.collected ++ e ∷ []; seen = s.seen ++ query_key e ∷ [] }

unfoldable pub visit : Str → State → State
visit t s =
    if has s.visited t
    then s
    else record s { visited = s.visited ++ t ∷ []; next = s.next ++ t ∷ [] }

-- The loop over the entries of one node.
unfoldable pub visit_entries : List Entry → State → State
unfolding collect visit
visit_entries [] s = s
visit_entries (n ∷ ns) s = visit_entries ns (visit n.target (collect n.edge s))

-- The loop over the frontier.
unfoldable pub expand : Adj → List Str → State → State
unfolding visit_entries
expand adj [] s = s
expand adj (k ∷ ks) s = expand adj ks (visit_entries (get adj k) s)

-- The loop over the hops; it ends early where the frontier is empty.
unfoldable pub hops : Adj → ℕ → List Str → State → State
unfolding expand
hops adj zero frontier s = s
hops adj (suc h) [] s = s
hops adj (suc h) (k ∷ ks) s =
    let s' = expand adj (k ∷ ks) (record s { next = [] }) in hops adj h s'.next s'

-- new Set(ids)
unfoldable pub to_set : List Str → List Str → List Str
unfolding add
to_set s [] = s
to_set s (k ∷ ks) = to_set (add s k) ks

-- `nodeMap[id]`: Object.fromEntries keeps the last node of an id.
unfoldable pub node_of : List Node → Str → Option Node
node_of [] k = none
node_of (n ∷ ns) k = elim (node_of ns k) [
  | some m ↦ some m
  | none ↦ if str_eq n.id k then some n else none
]

unfoldable pub nodes_of : List Node → List Str → List Node
unfolding node_of
nodes_of ns [] = []
nodes_of ns (k ∷ ks) =
    let rest = nodes_of ns ks in elim (node_of ns k) [ some n ↦ n ∷ rest | none ↦ rest ]

pub record Found : Type 0 where
  pub nodes : List Node
  pub edges : List Edge
  pub seeds : List Str

module _ (to_lower : Str → Str) where
  unfoldable pub matches : Str → Node → Bool
  matches term n =
      includes (to_lower n.label) (to_lower term)
      || includes (to_lower n.description) (to_lower term)

  unfoldable pub seed_ids : Graph → Str → List Str
  unfolding matches
  seed_ids g term = map (λ n. n.id) (filter (matches term) (node_list g))

  unfoldable pub start : Graph → Str → State
  unfolding seed_ids
  start g term = record {
    visited = to_set [] (seed_ids g term);
    collected = [];
    seen = [];
    next = [];
  }

  unfoldable pub seed_and_expand : Graph → Str → ℕ → Found
  unfolding start hops nodes_of
  seed_and_expand g term max_hops =
      let s = hops (build_adjacency_map g) max_hops (seed_ids g term) (start g term) in
      record {
        nodes = nodes_of (node_list g) s.visited;
        edges = s.collected;
        seeds = to_set [] (seed_ids g term);
      }
