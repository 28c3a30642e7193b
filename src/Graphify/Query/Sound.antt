-- ===== src/Graphify/Query/Sound.antt =====
-- What an expansion visits satisfies any predicate that its seeds have and its steps keep.
use sagasmith.Common.{
  ℕ, zero, suc, ◌+◌, ◌≤◌, ◌≡◌, refl, true, List, [], ◌∷◌, ◌++◌, In, Str, has, snoc-has, nil_has,
  has-cons, has-cons_self, inl, inr, arith, Bool-cases,
}
use mathlib.Core.Path.{subst}
use sagasmith.Graphify.{Edge}
use sagasmith.Graphify.Adjacency.{Adj, Entry, get}
use sagasmith.Graphify.Query.{State, collect, visit, visit_entries, expand, hops, query_key}

abbrev pub All : (Str → Type 0) → List Str → Type 0
All P xs = (k : Str) → has xs k ≡ true → P k

pub record Visits (P : Str → Type 0) (s : State) : Type 0 where
  pub visited : All P s.visited
  pub next : All P s.next

-- An added last element.
All-append : (P : Str → Type 0) (xs : List Str) (t : Str) → All P xs → P t → All P (xs ++ t ∷ [])
All-append P xs t h p k e = elim (snoc-has xs t k e) [
  | inl old ↦ h k old
  | inr same ↦ subst P same p
]

module _ (P : Str → Type 0) where
  collect-Visits : (e : Edge) (s : State) → Visits P s → Visits P (collect e s)
  unfolding collect
  collect-Visits e s v = elim (Bool-cases (has s.seen (query_key e))) [
    | inl old ↦ rw old v
    | inr new ↦ rw new (record { visited = v.visited; next = v.next })
  ]

  visit-Visits : (t : Str) (s : State) → P t → Visits P s → Visits P (visit t s)
  unfolding visit
  visit-Visits t s p v = elim (Bool-cases (has s.visited t)) [
    | inl old ↦ rw old v
    | inr new ↦ rw new (record {
      visited = All-append P s.visited t v.visited p;
      next = All-append P s.next t v.next p;
    })
  ]

  visit_entries-Visits :
      (ns : List Entry) (s : State)
      → ((n : Entry) → In n ns → P n.target)
      → Visits P s
      → Visits P (visit_entries ns s)
  unfolding visit_entries
  visit_entries-Visits [] s p v = v
  visit_entries-Visits (n ∷ ns) s p v =
      visit_entries-Visits ns (visit n.target (collect n.edge s)) (λ m i. p m (inr i))
        (visit-Visits n.target (collect n.edge s) (p n (inl refl)) (collect-Visits n.edge s v))

  pub expand-Visits :
      (adj : Adj) (ks : List Str) (s : State)
      → ((k : Str) → has ks k ≡ true → (n : Entry) → In n (get adj k) → P n.target)
      → Visits P s
      → Visits P (expand adj ks s)
  unfolding expand
  expand-Visits adj [] s p v = v
  expand-Visits adj (k ∷ ks) s p v =
      expand-Visits adj ks (visit_entries (get adj k) s) (λ j h. p j (has-cons k j ks h))
        (visit_entries-Visits (get adj k) s (p k (has-cons_self k ks)) v)

module _ (P : ℕ → Str → Type 0) (grow : (i j : ℕ) (k : Str) → i ≤ j → P i k → P j k) (adj : Adj)
    (step : (i : ℕ) (k : Str) → P i k → (n : Entry) → In n (get adj k) → P (suc i) n.target) where
  -- After `h` more hops every visited id satisfies the predicate at `i + h`.
  pub hops-All :
      (h i m : ℕ) (frontier : List Str) (s : State)
      → i + h ≤ m
      → All (P i) frontier
      → All (P i) s.visited
      → All (P m) (hops adj h frontier s).visited
  unfolding hops
  hops-All zero i m frontier s le f v = λ k e. grow i m k (omega arith) (v k e)
  hops-All (suc h) i m [] s le f v = λ k e. grow i m k (omega arith) (v k e)
  hops-All (suc h) i m (k ∷ ks) s le f v =
      let fresh : State = record s { next = [] } in
      let w =
        expand-Visits (P (suc i)) adj (k ∷ ks) fresh (λ j e n i'. step i j (f j e) n i')
          (record {
            visited = λ j e. grow i (suc i) j (omega arith) (v j e);
            next = λ j e. absurd (nil_has j e);
          }) in
      hops-All h (suc i) m (expand adj (k ∷ ks) fresh).next (expand adj (k ∷ ks) fresh)
        (omega arith) w.next w.visited
