-- ===== src/Graphify/Query/Walk.antt =====
-- Walks in the graph: an independent description of what an expansion can reach.
use sagasmith.Common.{
  ℕ, zero, suc, ◌≡◌, ◌≤◌, refl, List, [], ◌∷◌, In, Str, str_eq, str_eq_iff, inl, inr, arith, true,
  Bool-cases, ap, if◌then◌else◌, In-append, In-append_left, In-append_right,
}
use sagasmith.Graphify.Adjacency.{Entry, incident, ends_at}
use sagasmith.Graphify.{Edge}

-- Two ids are joined by an edge of the list, in either direction.
pub data Joined (es : List Edge) : Str → Str → Type 0 where
  forth : {s t : Str} (e : Edge) → In e es → e.source ≡ s → e.target ≡ t → Joined es s t
  back : {s t : Str} (e : Edge) → In e es → e.target ≡ s → e.source ≡ t → Joined es s t

-- A walk of at most so many steps.
pub data Walk (es : List Edge) : ℕ → Str → Str → Type 0 where
  stop : {h : ℕ} {s : Str} → Walk es h s s
  go : {h : ℕ} {s u t : Str} → Joined es s u → Walk es h u t → Walk es (suc h) s t

-- One more step at the end.
pub Walk-append :
    {es : List Edge} {h : ℕ} {s u t : Str} → Walk es h s u → Joined es u t → Walk es (suc h) s t
Walk-append stop j = go j stop
Walk-append (go i w) j = go i (Walk-append w j)

pub Walk-le : {es : List Edge} {h : ℕ} {s t : Str} → Walk es h s t → (k : ℕ) → h ≤ k → Walk es k s t
Walk-le stop k le = stop
Walk-le (go i w) zero le = absurd (omega arith)
Walk-le (go i w) (suc k) le = go i (Walk-le w k (omega arith))

-- The entries that an edge gives an id lead along that edge.
ends_at-Joined :
    (all : List Edge) (e : Edge) (k : Str) (n : Entry)
    → In e all
    → In n (ends_at k e)
    → Joined all k n.target
unfolding ends_at
ends_at-Joined all e k n i h = elim (Bool-cases (str_eq e.source k)) [
  | inl s ↦ elim (Bool-cases (str_eq e.target k)) [
    | inl t ↦ elim (rw (s, t) at h) [
      | inl p ↦ forth e i ((str_eq_iff e.source k).0 s) (ap (λ (m : Entry). m.target) p)
      | inr (inl p) ↦ back e i ((str_eq_iff e.target k).0 t) (ap (λ (m : Entry). m.target) p)
      | inr (inr p) ↦ absurd p
    ]
    | inr t ↦ elim (rw (s, t) at h) [
      | inl p ↦ forth e i ((str_eq_iff e.source k).0 s) (ap (λ (m : Entry). m.target) p)
      | inr p ↦ absurd p
    ]
  ]
  | inr s ↦ elim (Bool-cases (str_eq e.target k)) [
    | inl t ↦ elim (rw (s, t) at h) [
      | inl p ↦ back e i ((str_eq_iff e.target k).0 t) (ap (λ (m : Entry). m.target) p)
      | inr p ↦ absurd p
    ]
    | inr t ↦ absurd (rw (s, t) at h)
  ]
]

-- So do the entries that all edges give it.
pub incident-Joined :
    (es all : List Edge) (k : Str) (n : Entry)
    → ((e : Edge) → In e es → In e all)
    → In n (incident k es)
    → Joined all k n.target
unfolding incident
incident-Joined [] all k n sub h = absurd h
incident-Joined (e ∷ es) all k n sub h = elim (In-append n (ends_at k e) (incident k es) h) [
  | inl here ↦ ends_at-Joined all e k n (sub e (inl refl)) here
  | inr later ↦ incident-Joined es all k n (λ d i. sub d (inr i)) later
]

incident-In :
    (es : List Edge) (e : Edge) (k : Str) (n : Entry)
    → In e es
    → In n (ends_at k e)
    → In n (incident k es)
unfolding incident
incident-In [] e k n i h = absurd i
incident-In (d ∷ es) e k n (inl p) h = In-append_left n (ends_at k d) (incident k es) (rw p h)
incident-In (d ∷ es) e k n (inr i) h =
    In-append_right n (ends_at k d) (incident k es) (incident-In es e k n i h)

source-In :
    (e : Edge) (k : Str) → e.source ≡ k → In (record { target = e.target; edge = e }) (ends_at k e)
unfolding ends_at
source-In e k p = rw ((str_eq_iff e.source k).1 p) (inl refl)

target-In :
    (e : Edge) (k : Str) → e.target ≡ k → In (record { target = e.source; edge = e }) (ends_at k e)
unfolding ends_at
target-In e k p =
    let here : Entry = record { target = e.source; edge = e } in
    let other : Entry = record { target = e.target; edge = e } in
    let same : str_eq e.target k ≡ true = (str_eq_iff e.target k).1 p in
    rw same
      (In-append_right here (if str_eq e.source k then other ∷ [] else []) (here ∷ []) (inl refl))

-- Each neighbour of an id is the target of one of its entries.
pub Joined-incident :
    {es : List Edge} {k t : Str}
    → Joined es k t
    → (n : Entry) × In n (incident k es) × (n.target ≡ t)
Joined-incident {es} {k} (forth e i p q) =
    (record { target = e.target; edge = e }, incident-In es e k _ i (source-In e k p), q)
Joined-incident {es} {k} (back e i p q) =
    (record { target = e.source; edge = e }, incident-In es e k _ i (target-In e k p), q)
