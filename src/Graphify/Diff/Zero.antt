-- ===== src/Graphify/Diff/Zero.antt =====
-- A comparison that counts nothing, and what it says of the two graphs.
use sagasmith.Common.{
  ◌≡◌, refl, sym, ap, ◌∙◌, Bool, true, false, not, Option, none, some, List, [], ◌∷◌, map, length,
  filter, Str, str_eq, str_eq_iff, str_eq_refl, if◌then◌else◌, arith, ◌↔◌, inl, inr, Bool-cases,
  has, has-cons, has-cons_self, cons-has, nil_has,
}
use sagasmith.Graphify.{Graph, node_list, edge_list}
use sagasmith.Graphify.Diff.{
  Table, lookup, put, put_all, from_entries, keys, is_some, differ, Counts, compare_tables,
  diff_nodes, diff_edges, edge_key,
}

abbrev pub nothing : Counts
nothing = record { added = 0; removed = 0; changed = 0 }

-- A filter that keeps nothing refuses every element.
filter-none :
    (p : Str → Bool) (ks : List Str)
    → length (filter p ks) ≡ 0
    → (k : Str) → has ks k ≡ true
    → p k ≡ false
filter-none p [] h k m = absurd (nil_has k m)
filter-none p (j ∷ ks) h k m = elim (Bool-cases (p j)) [
  | inl t ↦ absurd (ground arith)
  | inr f ↦ elim (cons-has j k ks m) [
    | inl same ↦ rw (← same) f
    | inr later ↦ filter-none p ks (rw f at h) k later
  ]
]

none-filter :
    (p : Str → Bool) (ks : List Str)
    → ((k : Str) → has ks k ≡ true → p k ≡ false)
    → length (filter p ks) ≡ 0
none-filter p [] h = refl
none-filter p (j ∷ ks) h =
    rw (h j (has-cons_self j ks)) (none-filter p ks (λ k m. h k (has-cons j k ks m)))

has-keys : (t : Table) (k : Str) → has (keys t) k ≡ is_some (lookup t k)
unfolding lookup has
has-keys [] k = refl
has-keys ((j, v) ∷ t) k = ground (arith, has-keys t k)

differ_self : (o : Option Str) → differ o o ≡ false
differ_self none = refl
differ_self (some v) = rw (str_eq_refl v)

module _ (a b : Table) where
  -- What the three counts say at one key.
  same_at :
      (k : Str)
      → (has (keys a) k ≡ true → not (is_some (lookup b k)) ≡ false)
      → (has (keys b) k ≡ true → not (is_some (lookup a k)) ≡ false)
      → (has (keys a) k ≡ true → differ (lookup b k) (lookup a k) ≡ false)
      → lookup a k ≡ lookup b k
  same_at k added removed changed =
      join_at (lookup a k) (lookup b k) (λ e. added (rw has-keys e)) (λ e. removed (rw has-keys e))
        (λ e. changed (rw has-keys e))
    where
      join_at :
          (x y : Option Str)
          → (is_some x ≡ true → not (is_some y) ≡ false)
          → (is_some y ≡ true → not (is_some x) ≡ false)
          → (is_some x ≡ true → differ y x ≡ false)
          → x ≡ y
      join_at none none p q r = refl
      join_at none (some w) p q r = absurd (ground (arith, q refl))
      join_at (some v) none p q r = absurd (ground (arith, p refl))
      join_at (some v) (some w) p q r = ground (arith, r refl, str_eq_iff w v)

  -- Two tables count no difference exactly where they hold the same text under each key.
  compare_tables-nothing_iff :
      (compare_tables a b ≡ nothing) ↔ ((k : Str) → lookup a k ≡ lookup b k)
  unfolding compare_tables
  compare_tables-nothing_iff = (
    λ e k.
        same_at k
          (filter-none (λ j. not (is_some (lookup b j))) (keys a) (ap (λ (c : Counts). c.added) e)
            k)
          (filter-none (λ j. not (is_some (lookup a j))) (keys b) (ap (λ (c : Counts). c.removed) e)
            k)
          (filter-none (λ j. differ (lookup b j) (lookup a j)) (keys a)
            (ap (λ (c : Counts). c.changed) e) k),
    λ h. rw (
      none-filter (λ j. not (is_some (lookup b j))) (keys a)
          (λ j m. rw (← h j, ← has-keys a j) (ap not m)),
      none-filter (λ j. not (is_some (lookup a j))) (keys b)
          (λ j m. rw (h j, ← has-keys b j) (ap not m)),
      none-filter (λ j. differ (lookup b j) (lookup a j)) (keys a)
          (λ j m. rw (h j) (differ_self (lookup b j))),
    ),
  )

-- The text that a list of entries holds for a key: that of the last entry.
unfoldable pub last_of : List (Str × Str) → Str → Option Str
last_of [] k = none
last_of ((j, v) ∷ es) k = elim (last_of es k) [
  | some w ↦ some w
  | none ↦ if str_eq j k then some v else none
]

lookup-put :
    (t : Table) (j k v : Str) → lookup (put t j v) k ≡ (if str_eq j k then some v else lookup t k)
unfolding lookup put
lookup-put [] j k v = refl
lookup-put ((i, w) ∷ t) j k v =
    ground (arith, lookup-put t j k v, str_eq_iff i j, str_eq_iff i k, str_eq_iff j k)

or_else : Option Str → Option Str → Option Str
or_else (some v) o = some v
or_else none o = o

or_else-none : (o : Option Str) → or_else o none ≡ o
unfolding or_else
or_else-none none = refl
or_else-none (some v) = refl

lookup-put_all :
    (es : List (Str × Str)) (t : Table) (k : Str)
    → lookup (put_all t es) k ≡ or_else (last_of es k) (lookup t k)
unfolding put_all last_of or_else
lookup-put_all [] t k = refl
lookup-put_all ((j, v) ∷ es) t k =
    ground (arith, lookup-put_all es (put t j v) k, lookup-put t j k v)

lookup-from_entries : (es : List (Str × Str)) (k : Str) → lookup (from_entries es) k ≡ last_of es k
unfolding from_entries lookup
lookup-from_entries es k = lookup-put_all es [] k ∙ or_else-none (last_of es k)

tables_agree :
    (xs ys : List (Str × Str))
    → (compare_tables (from_entries xs) (from_entries ys) ≡ nothing)
      ↔ ((k : Str) → last_of xs k ≡ last_of ys k)
tables_agree xs ys =
    let (to, from) = compare_tables-nothing_iff (from_entries xs) (from_entries ys) in
    (
      λ e k. sym (lookup-from_entries xs k) ∙ (to e k ∙ lookup-from_entries ys k),
      λ h. from (λ k. lookup-from_entries xs k ∙ (h k ∙ sym (lookup-from_entries ys k))),
    )

unfoldable pub node_entries : Graph → List (Str × Str)
node_entries g = map (λ n. (n.id, n.json)) (node_list g)

unfoldable pub edge_entries : Graph → List (Str × Str)
edge_entries g = map (λ e. (edge_key e, e.json)) (edge_list g)

module _ (current snapshot : Graph) where
  -- A diff counts no added, removed or changed node exactly where, for every id, the last node with
  -- that id has the same JSON text in both graphs, or neither graph has one.
  pub diff_nodes-nothing_iff :
      (diff_nodes current snapshot ≡ nothing)
      ↔ ((k : Str) → last_of (node_entries current) k ≡ last_of (node_entries snapshot) k)
  unfolding diff_nodes node_entries
  diff_nodes-nothing_iff = tables_agree (node_entries current) (node_entries snapshot)

  -- And no added, removed or changed edge exactly where, for every key of source, target and
  -- relation or label, the last edge with that key has the same JSON text in both graphs, or neither
  -- graph has one.
  pub diff_edges-nothing_iff :
      (diff_edges current snapshot ≡ nothing)
      ↔ ((k : Str) → last_of (edge_entries current) k ≡ last_of (edge_entries snapshot) k)
  unfolding diff_edges edge_entries
  diff_edges-nothing_iff = tables_agree (edge_entries current) (edge_entries snapshot)
