-- ===== src/Graphify/Diff.antt =====
-- The comparison of `graphifyDiff` in graphify.cjs. Object.fromEntries is an association list in
-- which a later entry overwrites an earlier one; the value kept of a node or an edge is its JSON
-- text, by which the code compares.
pub mod Zero
use sagasmith.Common.{
  ℕ, ◌≡◌, Bool, true, false, not, Option, none, some, List, [], ◌∷◌, map, length, filter, Str,
  str_eq, if◌then◌else◌,
}
use sagasmith.Graphify.{Node, Edge, Graph, node_list, edge_list, or_str, key_of}

abbrev pub Table : Type 0
Table = List (Str × Str)

unfoldable pub lookup : Table → Str → Option Str
lookup [] k = none
lookup ((j, v) ∷ t) k = if str_eq j k then some v else lookup t k

unfoldable pub put : Table → Str → Str → Table
put [] k v = (k, v) ∷ []
put ((j, w) ∷ t) k v = if str_eq j k then (j, v) ∷ t else (j, w) ∷ put t k v

unfoldable pub put_all : Table → List (Str × Str) → Table
unfolding put
put_all t [] = t
put_all t ((k, v) ∷ es) = put_all (put t k v) es

-- Object.fromEntries
unfoldable pub from_entries : List (Str × Str) → Table
unfolding put_all
from_entries es = put_all [] es

abbrev pub keys : Table → List Str
keys t = map (λ e. e.0) t

abbrev pub is_some : Option Str → Bool
is_some none = false
is_some (some v) = true

abbrev pub differ : Option Str → Option Str → Bool
differ (some v) (some w) = not (str_eq v w)
differ _ _ = false

pub record Counts : Type 0 where
  pub added : ℕ
  pub removed : ℕ
  pub changed : ℕ

unfoldable pub compare_tables : Table → Table → Counts
unfolding lookup
compare_tables current snapshot = record {
  added = length (filter (λ k. not (is_some (lookup snapshot k))) (keys current));
  removed = length (filter (λ k. not (is_some (lookup current k))) (keys snapshot));
  changed = length (filter (λ k. differ (lookup snapshot k) (lookup current k)) (keys current));
}

-- `${source}::${target}::${relation || label || ''}`
unfoldable pub edge_key : Edge → Str
edge_key e = key_of e.source e.target (or_str e.relation e.label)

unfoldable pub node_table : Graph → Table
unfolding from_entries
node_table g = from_entries (map (λ n. (n.id, n.json)) (node_list g))

unfoldable pub edge_table : Graph → Table
unfolding from_entries edge_key
edge_table g = from_entries (map (λ e. (edge_key e, e.json)) (edge_list g))

unfoldable pub diff_nodes : Graph → Graph → Counts
unfolding node_table compare_tables
diff_nodes current snapshot = compare_tables (node_table current) (node_table snapshot)

unfoldable pub diff_edges : Graph → Graph → Counts
unfolding edge_table compare_tables
diff_edges current snapshot = compare_tables (edge_table current) (edge_table snapshot)
