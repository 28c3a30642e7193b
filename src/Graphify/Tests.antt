-- ===== src/Graphify/Tests.antt =====
-- Runs of the graph commands on a small graph, and the theorems at such runs.
use sagasmith.Common.{
  ◌≡◌, ◌-◌, refl, Bool, true, none, some, [], ◌∷◌, map, arith, Str, str, str_eq, includes, has,
  length, In, ◌↔◌, inl, ltb, if◌then◌else◌,
}
use sagasmith.Graphify.{Node, Edge, Graph, node_list, edge_list}
use sagasmith.Graphify.Adjacency.{get, incident, build_adjacency_map, get-build_adjacency_map}
use sagasmith.Graphify.Query.{Found, to_set, seed_and_expand}
use sagasmith.Graphify.Query.Reach.{Near, ids, seed_and_expand_iff}
use sagasmith.Graphify.Budget.{apply_budget, confidence_order}
use sagasmith.Graphify.Budget.Tiers.{
  Cut, apply_budget-Cut, apply_budget-keeps, apply_budget-trimmed,
}
use sagasmith.Graphify.Diff.{diff_nodes}
use sagasmith.Graphify.Diff.Zero.{nothing, last_of, node_entries, diff_nodes-nothing_iff}
use sagasmith.Graphify.Api.{
  Project, JsonFile, parsed, config, answer, is_graphify_enabled, write_snapshot, graphify_diff,
}
use sagasmith.Graphify.Api.Snapshot.{graphify_diff-write_snapshot}

abbrev node : Str → Node
node k = record { id = k; label = k; description = []; json = k }

abbrev edge : Str → Str → Str → Edge
edge s t c = record {
  source = s;
  target = t;
  label = [];
  relation = str "uses";
  confidence = c;
  confidence_score = [];
  json = str "{}";
}

abbrev chain : Graph
chain = record {
  nodes = some (node (str "a") ∷ node (str "b") ∷ node (str "c") ∷ node (str "d") ∷ []);
  edges = some (
      edge (str "a") (str "b") (str "AMBIGUOUS")
      ∷ edge (str "b") (str "c") (str "INFERRED")
      ∷ edge (str "c") (str "d") (str "EXTRACTED")
      ∷ []);
  links = none;
  hyperedges = none;
  timestamp = none;
}

abbrev same : Str → Str
same s = s

two_hops :
    map (λ n. n.id) (seed_and_expand same chain (str "a") 2).nodes
    ≡ str "a" ∷ str "b" ∷ str "c" ∷ []
unfolding seed_and_expand build_adjacency_map node_list edge_list get includes str_eq has to_set
two_hops = refl

get-build_adjacency_map_example :
    get (build_adjacency_map chain) (str "b") ≡ incident (str "b") (edge_list chain)
get-build_adjacency_map_example = get-build_adjacency_map (str "b") chain

seed_and_expand_iff_example :
    (has (ids (seed_and_expand same chain (str "a") 2).nodes) (str "d") ≡ true)
    ↔ ((has (ids (node_list chain)) (str "d") ≡ true) × Near same chain (str "a") 2 (str "d"))
seed_and_expand_iff_example = seed_and_expand_iff same chain (str "a") 2 (str "d")

abbrev found : Found
found = record {
  nodes = node (str "a") ∷ node (str "b") ∷ [];
  edges = edge (str "a") (str "b") (str "AMBIGUOUS") ∷ [];
  seeds = str "a" ∷ [];
}

budget_drops : (apply_budget found (some 1)).edges ≡ []
unfolding apply_budget str_eq
budget_drops = refl

apply_budget-Cut_example :
    Cut confidence_order 1 found.nodes found.edges (apply_budget found (some 1)).edges
apply_budget-Cut_example = apply_budget-Cut found 1 (omega arith)

apply_budget-keeps_example : In (node (str "a")) (apply_budget found (some 1)).nodes
apply_budget-keeps_example =
    apply_budget-keeps found 1 (node (str "a")) (omega arith) (inl refl)
      (inl (unfold has str_eq in refl))

apply_budget-trimmed_example : (apply_budget found (some 1)).trimmed ≡ (
    if ltb (length (apply_budget found (some 1)).edges) (length found.edges)
    then some (
      length found.edges - length (apply_budget found (some 1)).edges,
      length found.nodes - length (apply_budget found (some 1)).nodes,
    )
    else none)
apply_budget-trimmed_example = apply_budget-trimmed found 1 (omega arith)

diff_nodes-nothing_iff_example :
    (diff_nodes chain chain ≡ nothing)
    ↔ ((k : Str) → last_of (node_entries chain) k ≡ last_of (node_entries chain) k)
diff_nodes-nothing_iff_example = diff_nodes-nothing_iff chain chain

abbrev project : Bool → Project
project on = record {
  config_file = config (some (record { enabled = on; build_timeout = none }));
  graph_file = parsed chain;
  snapshot_file = JsonFile.absent;
}

graphify_diff-write_snapshot_example :
    graphify_diff (write_snapshot (project true) (str "2026")).0
    ≡ answer (record { nodes = nothing; edges = nothing; timestamp = some (str "2026") })
graphify_diff-write_snapshot_example =
    graphify_diff-write_snapshot (project true) chain (str "2026") refl
      (unfold is_graphify_enabled in refl) (λ e. cc)
