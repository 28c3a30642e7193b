-- ===== src/Graphify/Query/Complete.antt =====
-- An expansion visits everything that is near enough.
use sagasmith.Common.{
  ℕ, zero, suc, ◌≡◌, true, List, [], ◌∷◌, ◌++◌, In, Str, has, cons-has, has-snoc, has-snoc_self,
  snoc-has, nil_has, ◌⊎◌, inl, inr, Bool-cases,
}
use mathlib.Core.Path.{subst}
use sagasmith.Graphify.{Edge}
use sagasmith.Graphify.Adjacency.{Adj, Entry, get, incident}
use sagasmith.Graphify.Query.{State, collect, visit, visit_entries, expand, hops, query_key}
use sagasmith.Graphify.Query.Walk.{Joined, Walk, stop, go, Joined-incident}

-- The second state has visited all that the first has, and what it has visited beyond stands in its
-- next frontier.
pub record Grows (s s' : State) : Type 0 where
  pub kept : (k : Str) → has s.visited k ≡ true → has s'.visited k ≡ true
  pub queued : (k : Str) → has s.next k ≡ true → has s'.next k ≡ true
  pub new : (k : Str) → has s'.visited k ≡ true → (has s.visited k ≡ true) ⊎ (has s'.next k ≡ true)

Grows-refl : (s : State) → Grows s s
Grows-refl s = record { kept = λ k h. h; queued = λ k h. h; new = λ k h. inl h }

Grows-trans : {s t u : State} → Grows s t → Grows t u → Grows s u
Grows-trans a b = record {
  kept = λ k h. b.kept k (a.kept k h);
  queued = λ k h. b.queued k (a.queued k h);
  new = λ k h. elim (b.new k h) [
    | inl old ↦ elim (a.new k old) [ inl older ↦ inl older | inr q ↦ inr (b.queued k q) ]
    | inr q ↦ inr q
  ];
}

collect-Grows : (e : Edge) (s : State) → Grows s (collect e s)
unfolding collect
collect-Grows e s = elim (Bool-cases (has s.seen (query_key e))) [
  | inl old ↦ rw old (Grows-refl s)
  | inr new ↦ rw new (record { kept = λ k h. h; queued = λ k h. h; new = λ k h. inl h })
]

visit-Grows : (t : Str) (s : State) → Grows s (visit t s)
unfolding visit
visit-Grows t s = elim (Bool-cases (has s.visited t)) [
  | inl old ↦ rw old (Grows-refl s)
  | inr new ↦ rw new (record {
    kept = λ k h. has-snoc s.visited t k h;
    queued = λ k h. has-snoc s.next t k h;
    new = λ k h. elim (snoc-has s.visited t k h) [
      | inl old ↦ inl old
      | inr same ↦ inr (subst (λ j. has (s.next ++ t ∷ []) j ≡ true) same (has-snoc_self s.next t))
    ];
  })
]

has-visit : (t : Str) (s : State) → has (visit t s).visited t ≡ true
unfolding visit
has-visit t s = elim (Bool-cases (has s.visited t)) [
  | inl old ↦ rw old old
  | inr new ↦ rw new (has-snoc_self s.visited t)
]

visit_entries-Grows : (ns : List Entry) (s : State) → Grows s (visit_entries ns s)
unfolding visit_entries
visit_entries-Grows [] s = Grows-refl s
visit_entries-Grows (n ∷ ns) s = Grows-trans (collect-Grows n.edge s) (
    Grows-trans (visit-Grows n.target (collect n.edge s))
      (visit_entries-Grows ns (visit n.target (collect n.edge s))))

has-visit_entries :
    (ns : List Entry) (s : State) (n : Entry)
    → In n ns
    → has (visit_entries ns s).visited n.target ≡ true
unfolding visit_entries
has-visit_entries [] s n h = absurd h
has-visit_entries (m ∷ ns) s n (inl p) =
    let s' = visit m.target (collect m.edge s) in
    (visit_entries-Grows ns s').kept n.target (
      subst (λ (j : Entry). has s'.visited j.target ≡ true) p
        (has-visit m.target (collect m.edge s)))
has-visit_entries (m ∷ ns) s n (inr i) =
    has-visit_entries ns (visit m.target (collect m.edge s)) n i

pub expand-Grows : (adj : Adj) (ks : List Str) (s : State) → Grows s (expand adj ks s)
unfolding expand
expand-Grows adj [] s = Grows-refl s
expand-Grows adj (k ∷ ks) s =
    Grows-trans (visit_entries-Grows (get adj k) s)
      (expand-Grows adj ks (visit_entries (get adj k) s))

has-expand :
    (adj : Adj) (ks : List Str) (s : State) (k : Str) (n : Entry)
    → has ks k ≡ true
    → In n (get adj k)
    → has (expand adj ks s).visited n.target ≡ true
unfolding expand
has-expand adj [] s k n h i = absurd (nil_has k h)
has-expand adj (j ∷ ks) s k n h i = elim (cons-has j k ks h) [
  | inl same ↦
      (expand-Grows adj ks (visit_entries (get adj j) s)).kept n.target
        (has-visit_entries (get adj j) s n (rw same i))
  | inr later ↦ has-expand adj ks (visit_entries (get adj j) s) k n later i
]

module _ (adj : Adj) (es : List Edge) (adj_lem : (k : Str) → get adj k ≡ incident k es) where
  -- Each visited id is in the frontier, or all its neighbours are visited.
  abbrev pub Closed : List Str → State → Type 0
  Closed frontier s =
      (k : Str)
      → has s.visited k ≡ true
      → (has frontier k ≡ true) ⊎ ((t : Str) → Joined es k t → has s.visited t ≡ true)

  neighbour_visited :
      (ks : List Str) (s : State) (k t : Str)
      → has ks k ≡ true
      → Joined es k t
      → has (expand adj ks s).visited t ≡ true
  neighbour_visited ks s k t h j =
      let (n, i, p) = Joined-incident j in
      subst (λ x. has (expand adj ks s).visited x ≡ true) p
        (has-expand adj ks s k n h (rw (adj_lem k) i))

  expand-Closed :
      (ks : List Str) (s : State)
      → Closed ks s
      → Closed
          (expand adj ks (record s { next = [] })).next
          (expand adj ks (record s { next = [] }))
  expand-Closed ks s c k h =
      let fresh : State = record s { next = [] } in
      let g = expand-Grows adj ks fresh in
      elim (g.new k h) [
        | inl old ↦ elim (c k old) [
          | inl front ↦ inr (λ t j. neighbour_visited ks fresh k t front j)
          | inr near ↦ inr (λ t j. g.kept t (near t j))
        ]
        | inr queued ↦ inl queued
      ]

  all_visited :
      (s : State)
      → Closed [] s
      → (h : ℕ) (k t : Str) → has s.visited k ≡ true
      → Walk es h k t
      → has s.visited t ≡ true
  all_visited s c h k t v stop = v
  all_visited s c (suc h) k t v (go {u = u} j w) = elim (c k v) [
    | inl front ↦ absurd (nil_has k front)
    | inr near ↦ all_visited s c h u t (near u j) w
  ]

  hops-kept :
      (h : ℕ) (frontier : List Str) (s : State) (k : Str)
      → has s.visited k ≡ true
      → has (hops adj h frontier s).visited k ≡ true
  unfolding hops
  hops-kept zero frontier s k v = v
  hops-kept (suc h) [] s k v = v
  hops-kept (suc h) (j ∷ ks) s k v =
      hops-kept h (expand adj (j ∷ ks) (record s { next = [] })).next
        (expand adj (j ∷ ks) (record s { next = [] })) k
        ((expand-Grows adj (j ∷ ks) (record s { next = [] })).kept k v)

  first_step :
      (f : Str) (ks : List Str) (s : State)
      → Closed (f ∷ ks) s
      → (k u : Str) → has s.visited k ≡ true
      → Joined es k u
      → has (expand adj (f ∷ ks) (record s { next = [] })).visited u ≡ true
  first_step f ks s c k u v j =
      let fresh : State = record s { next = [] } in
      elim (c k v) [
        | inl front ↦ neighbour_visited (f ∷ ks) fresh k u front j
        | inr near ↦ (expand-Grows adj (f ∷ ks) fresh).kept u (near u j)
      ]

  -- Whatever a walk of at most `h` steps reaches from a visited id is visited after `h` hops.
  pub hops-Walk :
      (h : ℕ) (frontier : List Str) (s : State)
      → Closed frontier s
      → (k t : Str) → has s.visited k ≡ true
      → Walk es h k t
      → has (hops adj h frontier s).visited t ≡ true
  unfolding hops
  hops-Walk h frontier s c k t v stop = hops-kept h frontier s k v
  hops-Walk (suc h) [] s c k t v (go j w) = all_visited s c (suc h) k t v (go j w)
  hops-Walk (suc h) (f ∷ ks) s c k t v (go {u = u} j w) =
      let s' = expand adj (f ∷ ks) (record s { next = [] }) in
      hops-Walk h s'.next s' (expand-Closed (f ∷ ks) s c) u t (first_step f ks s c k u v j) w
