-- ===== src/Graphify/Query/Reach.antt =====
-- The nodes that a query returns are those within the hops of a matching node.
use sagasmith.Common.{
  ℕ, suc, ◌≤◌, ◌≡◌, refl, true, false, none, some, List, [], ◌∷◌, ◌||◌, map, filter, In, In-filter,
  filter-In, Str, str_eq_iff, has, has-add, has-map, map-has, ◌↔◌, inl, inr, arith, add, ◌&&◌,
  and-eq-true, Option-cases,
}
use mathlib.Core.Path.{subst}
use sagasmith.Graphify.{Node, Graph, node_list, edge_list}
use sagasmith.Graphify.Adjacency.{Entry, get, build_adjacency_map, get-build_adjacency_map}
use sagasmith.Graphify.Query.{
  State, hops, to_set, node_of, nodes_of, matches, seed_ids, start, seed_and_expand,
}
use sagasmith.Graphify.Query.Walk.{Walk, stop, Walk-append, Walk-le, incident-Joined}
use sagasmith.Graphify.Query.Sound.{hops-All}
use sagasmith.Graphify.Query.Complete.{hops-Walk}

abbrev pub ids : List Node → List Str
ids ns = map (λ n. n.id) ns

has-to_set : (s ks : List Str) (k : Str) → has (to_set s ks) k ≡ (has s k || has ks k)
unfolding to_set has
has-to_set s [] k = ground arith
has-to_set s (j ∷ ks) k = ground (arith, has-to_set (add s j) ks k, has-add s j k)

-- `nodeMap[id]` is a node of that id, and there is one where a node has the id.
node_of-eq-some :
    (ns : List Node) (k : Str) (n : Node) → node_of ns k ≡ some n → In n ns × (n.id ≡ k)
unfolding node_of
node_of-eq-some [] k n h = ground arith
node_of-eq-some (m ∷ ns) k n h = elim (Option-cases (node_of ns k)) [
  | inr (x, q) ↦ let (i, e) = node_of-eq-some ns k n (ground arith) in (inr i, e)
  | inl q ↦ (inl (ground arith), ground (arith, str_eq_iff m.id k))
]

has-of_none : (ns : List Node) (k : Str) → node_of ns k ≡ none → has (ids ns) k ≡ false
unfolding node_of has
has-of_none [] k h = refl
has-of_none (m ∷ ns) k h = ground (arith, has-of_none ns k)

has-node_of : (ns : List Node) (k : Str) (n : Node) → node_of ns k ≡ some n → has (ids ns) k ≡ true
has-node_of ns k n h =
    let (i, e) = node_of-eq-some ns k n h in
    subst (λ j. has (ids ns) j ≡ true) e (has-map (λ (m : Node). m.id) ns n i)

nodes_of-none :
    (ns : List Node) (j : Str) (ks : List Str)
    → node_of ns j ≡ none
    → nodes_of ns (j ∷ ks) ≡ nodes_of ns ks
unfolding nodes_of
nodes_of-none ns j ks h = ground arith

nodes_of-some :
    (ns : List Node) (j : Str) (ks : List Str) (n : Node)
    → node_of ns j ≡ some n
    → nodes_of ns (j ∷ ks) ≡ n ∷ nodes_of ns ks
unfolding nodes_of
nodes_of-some ns j ks n h = ground arith

-- The ids of the nodes found for a list of ids: those of the list that a node has.
has-nodes_of :
    (ns : List Node) (ks : List Str) (k : Str)
    → has (ids (nodes_of ns ks)) k ≡ (has ks k && has (ids ns) k)
unfolding has
has-nodes_of ns [] k = unfold nodes_of in refl
has-nodes_of ns (j ∷ ks) k = elim (Option-cases (node_of ns j)) [
  | inl q ↦
      rw (nodes_of-none ns j ks q)
        (ground (arith, has-nodes_of ns ks k, has-of_none ns j q, str_eq_iff j k))
  | inr (n, q) ↦
      rw (nodes_of-some ns j ks n q, (node_of-eq-some ns j n q).1)
        (ground (arith, has-nodes_of ns ks k, has-node_of ns j n q, str_eq_iff j k))
]

module _ (to_lower : Str → Str) (g : Graph) (term : Str) where
  -- The id is within `h` steps of a node whose label or description holds the term.
  abbrev pub Near : ℕ → Str → Type 0
  Near h k =
      (n : Node) × In n (node_list g)
      × (matches to_lower term n ≡ true)
      × Walk (edge_list g) h n.id k

  Near-le : (i j : ℕ) (k : Str) → i ≤ j → Near i k → Near j k
  Near-le i j k le (n, m, e, w) = (n, m, e, Walk-le w j le)

  Near-step :
      (i : ℕ) (k : Str)
      → Near i k
      → (e : Entry) → In e (get (build_adjacency_map g) k)
      → Near (suc i) e.target
  Near-step i k (n, m, q, w) e h = (
    n,
    m,
    q,
    Walk-append w (
        incident-Joined (edge_list g) (edge_list g) k e (λ d x. x)
          (rw (get-build_adjacency_map k g) at h)),
  )

  seed-Near : (k : Str) → has (seed_ids to_lower g term) k ≡ true → Near 0 k
  unfolding seed_ids
  seed-Near k h =
      let (n, i, p) =
        map-has (λ (m : Node). m.id) (filter (matches to_lower term) (node_list g)) k h in
      let (m, q) = In-filter (matches to_lower term) n (node_list g) i in (n, m, q, rw p stop)

  has-seed_ids :
      (n : Node)
      → In n (node_list g)
      → matches to_lower term n ≡ true
      → has (seed_ids to_lower g term) n.id ≡ true
  unfolding seed_ids
  has-seed_ids n i q =
      has-map (λ (m : Node). m.id) (filter (matches to_lower term) (node_list g)) n
        (filter-In (matches to_lower term) n (node_list g) i q)

  abbrev final : ℕ → State
  final h = hops (build_adjacency_map g) h (seed_ids to_lower g term) (start to_lower g term)

  has-start : (k : Str) → has (start to_lower g term).visited k ≡ has (seed_ids to_lower g term) k
  unfolding start has
  has-start k = has-to_set [] (seed_ids to_lower g term) k

  visited_iff : (h : ℕ) (k : Str) → (has (final h).visited k ≡ true) ↔ Near h k
  visited_iff h k = (
    hops-All Near Near-le (build_adjacency_map g) Near-step h 0 h (seed_ids to_lower g term)
        (start to_lower g term) (omega arith) seed-Near (λ j e. seed-Near j (rw has-start at e)) k,
    λ (n, i, q, w).
        hops-Walk (build_adjacency_map g) (edge_list g) (λ j. get-build_adjacency_map j g) h
          (seed_ids to_lower g term) (start to_lower g term) (λ j e. inl (rw has-start at e)) n.id k
          (rw has-start (has-seed_ids n i q)) w,
  )

  -- A query returns a node of an id exactly when a node of that id is declared and the id is joined
  -- to a matching node by a walk of at most `h` steps along edges, in either direction.
  pub seed_and_expand_iff :
      (h : ℕ) (k : Str)
      → (has (ids (seed_and_expand to_lower g term h).nodes) k ≡ true)
        ↔ ((has (ids (node_list g)) k ≡ true) × Near h k)
  unfolding seed_and_expand
  seed_and_expand_iff h k =
      let (sound, complete) = visited_iff h k in
      (
        λ e. let (v, d) = and-eq-true _ _ (rw has-nodes_of at e) in (d, sound v),
        λ (d, near). rw has-nodes_of (rw (complete near, d) refl),
      )
