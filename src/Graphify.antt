-- ===== src/Graphify.antt =====
-- .kilo/get-shit-done/bin/lib/graphify.cjs: the knowledge graph's data. The children follow the
-- file's parts: adjacency, query, budget, diff and the commands on the project's files.
pub mod Adjacency
pub mod Query
pub mod Budget
pub mod Diff
pub mod Api
mod Tests
use sagasmith.Common.{Option, none, some, List, [], ◌∷◌, ◌++◌, Str, str}

-- A node object. `json` is its JSON text; a missing label or description is the empty string, as
-- `|| ''` makes it.
pub record Node : Type 0 where
  pub id : Str
  pub label : Str
  pub description : Str
  pub json : Str

pub record Edge : Type 0 where
  pub source : Str
  pub target : Str
  pub label : Str
  pub relation : Str
  pub confidence : Str
  pub confidence_score : Str
  pub json : Str

-- The object in graph.json or in a snapshot: each array may be missing.
pub record Graph : Type 0 where
  pub nodes : Option (List Node)
  pub edges : Option (List Edge)
  pub links : Option (List Edge)
  pub hyperedges : Option (List Str)
  pub timestamp : Option Str

abbrev pub list_or_nil : {A : Type 0} → Option (List A) → List A
list_or_nil none = []
list_or_nil (some xs) = xs

-- `graph.nodes || []`
unfoldable pub node_list : Graph → List Node
node_list g = list_or_nil g.nodes

abbrev pub edges_or_links : Option (List Edge) → Option (List Edge) → List Edge
edges_or_links (some es) ls = es
edges_or_links none ls = list_or_nil ls

-- `graph.edges || graph.links || []`
unfoldable pub edge_list : Graph → List Edge
edge_list g = edges_or_links g.edges g.links

-- `a || b` on strings.
abbrev pub or_str : Str → Str → Str
or_str [] t = t
or_str (c ∷ s) t = c ∷ s

abbrev pub key_of : Str → Str → Str → Str
key_of s t l = s ++ (str "::" ++ (t ++ (str "::" ++ l)))
