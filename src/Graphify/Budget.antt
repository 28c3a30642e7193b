-- ===== src/Graphify/Budget.antt =====
-- `applyBudget` of graphify.cjs.
pub mod Tiers
use sagasmith.Common.{
  join, ℕ, ◌+◌, ◌-◌, ◌/◌, ◌≡◌, Bool, true, false, ◌||◌, not, Option, none, some, List, [], ◌∷◌,
  ◌++◌, map, length, filter, ltb, leb, Str, str, str_eq, has, add, if◌then◌else◌, ◌==◌,
}
use sagasmith.Graphify.{Node, Edge, or_str}
use sagasmith.Graphify.Query.{Found}

-- `budgetTokens` with its result; `trimmed` holds the two numbers of the message.
pub record Trimmed : Type 0 where
  pub nodes : List Node
  pub edges : List Edge
  pub trimmed : Option (ℕ × ℕ)

abbrev pub confidence_order : List Str
confidence_order = str "AMBIGUOUS" ∷ str "INFERRED" ∷ str "EXTRACTED" ∷ []

-- JSON.stringify({ nodes, edges })
unfoldable pub stringify : List Node → List Edge → Str
unfolding join
stringify ns es =
    str "{\"nodes\":["
    ++ (join (str ",") (map (λ n. n.json) ns)
        ++ (str "],\"edges\":[" ++ (join (str ",") (map (λ e. e.json) es) ++ str "]}")))

-- Math.ceil(JSON.stringify(obj).length / 4)
unfoldable pub estimate_tokens : List Node → List Edge → ℕ
unfolding stringify
estimate_tokens ns es = (length (stringify ns es) + 3) / 4

-- `(e.confidence || e.confidence_score)`
unfoldable pub tier_of : Edge → Str
tier_of e = or_str e.confidence e.confidence_score

unfoldable pub drop_tier : Str → List Edge → List Edge
unfolding tier_of
drop_tier t es = filter (λ e. not (str_eq (tier_of e) t)) es

-- The loop over the tiers, with `edges` and `omitted`.
unfoldable pub drop_tiers : List Str → ℕ → List Node → List Edge → ℕ → List Edge × ℕ
unfolding estimate_tokens drop_tier
drop_tiers [] budget ns es omitted = (es, omitted)
drop_tiers (t ∷ ts) budget ns es omitted =
    let kept = drop_tier t es in
    let rest = drop_tiers ts budget ns kept (omitted + (length es - length kept)) in
    if leb (estimate_tokens ns es) budget then (es, omitted) else rest

-- `reachableNodes`
unfoldable pub end_points : List Edge → List Str → List Str
end_points [] s = s
end_points (e ∷ es) s = end_points es (add (add s e.source) e.target)

unfoldable pub apply_budget : Found → Option ℕ → Trimmed
unfolding drop_tiers end_points
apply_budget r none = record { nodes = r.nodes; edges = r.edges; trimmed = none }
apply_budget r (some budget) =
    if budget == 0
    then record { nodes = r.nodes; edges = r.edges; trimmed = none }
    else let (es, omitted) = drop_tiers confidence_order budget r.nodes r.edges 0 in
      let ns = filter (λ n. has (end_points es []) n.id || has r.seeds n.id) r.nodes in
      record {
        nodes = ns;
        edges = es;
        trimmed = if ltb 0 omitted then some (omitted, length r.nodes - length ns) else none;
      }
