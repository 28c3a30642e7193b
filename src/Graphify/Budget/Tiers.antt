-- ===== src/Graphify/Budget/Tiers.antt =====
-- Which edges and nodes a budget keeps.
use sagasmith.Common.{
  ℕ, zero, suc, ◌+◌, ◌-◌, ◌≤◌, ◌<◌, ◌≡◌, refl, sym, ap, ◌∙◌, true, ◌||◌, not, none, some, List, [],
  ◌∷◌, length, filter, length-filter-le, ltb, leb, Str, str_eq, str_eq_iff, str_eq_refl, filter-In,
  has, add, has-add, if◌then◌else◌, ◌==◌, ◌⊎◌, inl, inr, arith, Bool-cases, In,
}
use mathlib.Core.Path.{subst}
use sagasmith.Graphify.{Node, Edge}
use sagasmith.Graphify.Query.{Found}
use sagasmith.Graphify.Budget.{
  confidence_order, estimate_tokens, tier_of, drop_tier, drop_tiers, end_points, apply_budget,
}

module _ {A : Type 0} where
  abbrev pub take : ℕ → List A → List A
  take zero xs = []
  take (suc n) [] = []
  take (suc n) (x ∷ xs) = x ∷ take n xs

-- The edges of no tier of the list.
abbrev pub without : List Str → List Edge → List Edge
without ts es = filter (λ e. not (has ts (tier_of e))) es

abbrev pub Fits : ℕ → List Node → List Edge → Type 0
Fits budget ns es = estimate_tokens ns es ≤ budget

without-nil : (es : List Edge) → without [] es ≡ es
unfolding has
without-nil [] = refl
without-nil (e ∷ es) = ap (◌∷◌ e) (without-nil es)

without-cons :
    (t : Str) (ts : List Str) (es : List Edge) → without (t ∷ ts) es ≡ without ts (drop_tier t es)
unfolding has drop_tier
without-cons t ts [] = refl
without-cons t ts (e ∷ es) =
    ground (arith, without-cons t ts es, str_eq_iff t (tier_of e), str_eq_iff (tier_of e) t)

-- The edges after the loop, in terms of how many tiers went.
pub record Cut (ts : List Str) (budget : ℕ) (ns : List Node) (es kept : List Edge) : Type 0 where
  pub tiers : ℕ
  pub in_order : tiers ≤ length ts
  pub edges : kept ≡ without (take tiers ts) es
  pub enough : Fits budget ns kept ⊎ (tiers ≡ length ts)
  pub no_more : (j : ℕ) → j < tiers → ¬ Fits budget ns (without (take j ts) es)

Cut-suc :
    (t : Str) (ts : List Str) (budget : ℕ) (ns : List Node) (es kept : List Edge)
    → ¬ Fits budget ns es
    → Cut ts budget ns (drop_tier t es) kept
    → Cut (t ∷ ts) budget ns es kept
Cut-suc t ts budget ns es kept over c = record {
  tiers = suc c.tiers;
  in_order = omega arith;
  edges = c.edges ∙ sym (without-cons t (take c.tiers ts) es);
  enough = elim c.enough [ inl fits ↦ inl fits | inr all ↦ inr (ap suc all) ];
  no_more = over_before;
}
  where
    over_before : (j : ℕ) → j < suc c.tiers → ¬ Fits budget ns (without (take j (t ∷ ts)) es)
    over_before zero h fits = over (rw without-nil at fits)
    over_before (suc j) h fits = c.no_more j (omega arith) (rw without-cons at fits)

length-drop_tier-le : (t : Str) (es : List Edge) → length (drop_tier t es) ≤ length es
unfolding drop_tier
length-drop_tier-le t es = length-filter-le (λ e. not (str_eq (tier_of e) t)) es

drop_tiers-Cut :
    (ts : List Str) (budget : ℕ) (ns : List Node) (es : List Edge) (omitted : ℕ)
    → Cut ts budget ns es (drop_tiers ts budget ns es omitted).0
unfolding drop_tiers
drop_tiers-Cut [] budget ns es omitted = record {
  tiers = 0;
  in_order = omega arith;
  edges = sym (without-nil es);
  enough = inr refl;
  no_more = λ j h. absurd (omega arith);
}
drop_tiers-Cut (t ∷ ts) budget ns es omitted =
    elim (Bool-cases (leb (estimate_tokens ns es) budget)) [
      | inl fits ↦ rw fits (record {
        tiers = 0;
        in_order = omega arith;
        edges = sym (without-nil es);
        enough = inl (ground arith);
        no_more = λ j h. absurd (omega arith);
      })
      | inr over ↦ rw over (
          Cut-suc t ts budget ns es _ (ground arith) (
            drop_tiers-Cut ts budget ns (drop_tier t es)
              (omitted + (length es - length (drop_tier t es)))))
    ]

omitted-length :
    (ts : List Str) (budget : ℕ) (ns : List Node) (es : List Edge) (omitted : ℕ)
    → (drop_tiers ts budget ns es omitted).1 + length (drop_tiers ts budget ns es omitted).0
      ≡ omitted + length es
unfolding drop_tiers
omitted-length [] budget ns es omitted = refl
omitted-length (t ∷ ts) budget ns es omitted = ground (
  arith,
  omitted-length ts budget ns (drop_tier t es) (omitted + (length es - length (drop_tier t es))),
  length-drop_tier-le t es,
)

-- A positive budget drops whole tiers, AMBIGUOUS, INFERRED and EXTRACTED in this order, and no more
-- of them than are needed to fit the estimate, or all three.
pub apply_budget-Cut :
    (r : Found) (budget : ℕ)
    → 0 < budget
    → Cut confidence_order budget r.nodes r.edges (apply_budget r (some budget)).edges
unfolding apply_budget
apply_budget-Cut r budget h = elim (Bool-cases (budget == 0)) [
  | inl none_left ↦ absurd (ground arith)
  | inr some_left ↦ rw some_left (drop_tiers-Cut confidence_order budget r.nodes r.edges 0)
]

has-end_points :
    (es : List Edge) (s : List Str) (k : Str) → has s k ≡ true → has (end_points es s) k ≡ true
unfolding end_points
has-end_points [] s k h = h
has-end_points (e ∷ es) s k h =
    has-end_points es (add (add s e.source) e.target) k
      (ground (arith, has-add (add s e.source) e.target k, has-add s e.source k))

add-source : (e : Edge) (s : List Str) → has (add (add s e.source) e.target) e.source ≡ true
add-source e s = ground (
  arith,
  has-add (add s e.source) e.target e.source,
  has-add s e.source e.source,
  str_eq_refl e.source,
)

add-target : (e : Edge) (s : List Str) → has (add (add s e.source) e.target) e.target ≡ true
add-target e s = ground (arith, has-add (add s e.source) e.target e.target, str_eq_refl e.target)

ends-has :
    (es : List Edge) (s : List Str) (e : Edge)
    → In e es
    → (has (end_points es s) e.source ≡ true) × (has (end_points es s) e.target ≡ true)
unfolding end_points
ends-has [] s e h = absurd h
ends-has (d ∷ es) s e (inl p) =
    let s' = add (add s d.source) d.target in
    let ends : (has (end_points es s') d.source ≡ true) × (has (end_points es s') d.target ≡ true) =
      (
        has-end_points es s' d.source (add-source d s),
        has-end_points es s' d.target (add-target d s),
      ) in
    subst
      (λ (x : Edge).
        (has (end_points es s') x.source ≡ true) × (has (end_points es s') x.target ≡ true))
      p ends
ends-has (d ∷ es) s e (inr i) = ends-has es (add (add s d.source) d.target) e i

abbrev pub Ends : Node → Edge → Type 0
Ends n e = (n.id ≡ e.source) ⊎ (n.id ≡ e.target)

end_point-has :
    (es : List Edge) (n : Node) (e : Edge) → In e es → Ends n e → has (end_points es []) n.id ≡ true
end_point-has es n e i (inl p) = rw p (ends-has es [] e i).0
end_point-has es n e i (inr p) = rw p (ends-has es [] e i).1

-- Under a positive budget a node of the result is kept where it is a seed, and where it is an end
-- of an edge that is kept.
pub apply_budget-keeps :
    (r : Found) (budget : ℕ) (n : Node)
    → 0 < budget
    → In n r.nodes
    → (has r.seeds n.id ≡ true)
      ⊎ ((e : Edge) × In e (apply_budget r (some budget)).edges × Ends n e)
    → In n (apply_budget r (some budget)).nodes
unfolding apply_budget
apply_budget-keeps r budget n h i why = elim (Bool-cases (budget == 0)) [
  | inl none_left ↦ absurd (ground arith)
  | inr some_left ↦ rw some_left (filter-In _ n r.nodes i (kept (rw some_left at why)))
]
  where
    kept_edges : List Edge
    kept_edges = (drop_tiers confidence_order budget r.nodes r.edges 0).0

    kept :
        (has r.seeds n.id ≡ true) ⊎ ((e : Edge) × In e kept_edges × Ends n e)
        → (has (end_points kept_edges []) n.id || has r.seeds n.id) ≡ true
    kept (inl seed) = ground arith
    kept (inr (e, m, at_end)) = ground (arith, end_point-has kept_edges n e m at_end)

-- The message of a positive budget counts the edges and the nodes that went, and there is one
-- exactly where an edge went.
pub apply_budget-trimmed :
    (r : Found) (budget : ℕ)
    → 0 < budget
    → (apply_budget r (some budget)).trimmed ≡ (
        if ltb (length (apply_budget r (some budget)).edges) (length r.edges)
        then some (
          length r.edges - length (apply_budget r (some budget)).edges,
          length r.nodes - length (apply_budget r (some budget)).nodes,
        )
        else none)
unfolding apply_budget
apply_budget-trimmed r budget h = elim (Bool-cases (budget == 0)) [
  | inl none_left ↦ absurd (ground arith)
  | inr some_left ↦
      rw some_left (ground (arith, omitted-length confidence_order budget r.nodes r.edges 0))
]
