-- ===== src/Graphify/Api.antt =====
-- The commands of graphify.cjs on a project's files: graphifyQuery, graphifyStatus, graphifyDiff,
-- graphifyBuild and writeSnapshot. JSON.parse enters by what a file parses to.
pub mod Snapshot
use sagasmith.Common.{
  ℕ, ◌+◌, ◌-◌, ◌*◌, ◌/◌, ◌≡◌, Bool, true, false, Option, none, some, List, [], ◌∷◌, length, ltb,
  Str, str, if◌then◌else◌, ◌==◌,
}
use sagasmith.Graphify.{Node, Edge, Graph, node_list, edge_list, list_or_nil}
use sagasmith.Graphify.Query.{Found, seed_and_expand}
use sagasmith.Graphify.Budget.{apply_budget}
use sagasmith.Graphify.Diff.{Counts, diff_nodes, diff_edges}

-- A graph file. A file that parses to null counts as malformed: the code treats both alike.
pub data JsonFile : Type 0 where
  absent malformed : JsonFile
  parsed : Graph → JsonFile

-- `config.graphify`: whether `enabled` is true, and `build_timeout`.
pub record GraphifyConfig : Type 0 where
  pub enabled : Bool
  pub build_timeout : Option ℕ

pub data ConfigFile : Type 0 where
  absent malformed : ConfigFile
  config : Option GraphifyConfig → ConfigFile

-- The files below `.planning` that the commands touch.
pub record Project : Type 0 where
  pub config_file : ConfigFile
  pub graph_file : JsonFile
  pub snapshot_file : JsonFile

abbrev pub is_enabled : Option GraphifyConfig → Bool
is_enabled none = false
is_enabled (some g) = g.enabled

unfoldable pub is_graphify_enabled : ConfigFile → Bool
is_graphify_enabled (config g) = is_enabled g
is_graphify_enabled _ = false

unfoldable pub safe_read_json : JsonFile → Option Graph
safe_read_json (parsed g) = some g
safe_read_json _ = none

unfoldable pub exists_sync : JsonFile → Bool
exists_sync JsonFile.absent = false
exists_sync _ = true

pub data Failure : Type 0 where
  disabled no_graph no_baseline no_current unparseable not_installed : Failure

pub data Answer (A : Type 0) : Type 0 where
  failed : Failure → Answer A
  answer : A → Answer A

abbrev pub or_failed : {A B : Type 0} → Option A → Failure → (A → Answer B) → Answer B
or_failed none f k = failed f
or_failed (some a) f k = k a

pub record QueryAnswer : Type 0 where
  pub nodes : List Node
  pub edges : List Edge
  pub total_nodes : ℕ
  pub total_edges : ℕ
  pub trimmed : Option (ℕ × ℕ)

unfoldable pub graphify_query : (Str → Str) → Project → Str → Option ℕ → Answer QueryAnswer
unfolding is_graphify_enabled exists_sync safe_read_json
graphify_query to_lower p term budget =
    if is_graphify_enabled p.config_file
    then if exists_sync p.graph_file
      then or_failed (safe_read_json p.graph_file) unparseable (λ g.
        let r = apply_budget (seed_and_expand to_lower g term 2) budget in
        answer (record {
          nodes = r.nodes;
          edges = r.edges;
          total_nodes = length r.nodes;
          total_edges = length r.edges;
          trimmed = r.trimmed;
        }))
      else failed no_graph
    else failed disabled

pub record StatusAnswer : Type 0 where
  pub node_count : ℕ
  pub edge_count : ℕ
  pub hyperedge_count : ℕ
  pub stale : Bool
  pub age_hours : ℕ

abbrev pub hour_ms : ℕ
hour_ms = 60 * 60 * 1000

abbrev pub stale_ms : ℕ
stale_ms = 24 * 60 * 60 * 1000

-- `now` and `mtime` in milliseconds; a file time in the future counts as `now`. Math.round of
-- age / hour_ms is the half-up rounding of the quotient.
unfoldable pub graphify_status : Project → ℕ → ℕ → Answer StatusAnswer
unfolding is_graphify_enabled exists_sync safe_read_json
graphify_status p now mtime =
    if is_graphify_enabled p.config_file
    then if exists_sync p.graph_file
      then or_failed (safe_read_json p.graph_file) unparseable (λ g. answer (record {
        node_count = length (node_list g);
        edge_count = length (edge_list g);
        hyperedge_count = length (list_or_nil g.hyperedges);
        stale = ltb stale_ms (now - mtime);
        age_hours = (2 * (now - mtime) + hour_ms) / (2 * hour_ms);
      }))
      else failed no_graph
    else failed disabled

-- `snapshot.timestamp || null`
abbrev pub or_null : Option Str → Option Str
or_null (some []) = none
or_null o = o

pub record DiffAnswer : Type 0 where
  pub nodes : Counts
  pub edges : Counts
  pub timestamp : Option Str

unfoldable pub graphify_diff : Project → Answer DiffAnswer
unfolding is_graphify_enabled exists_sync safe_read_json
graphify_diff p =
    if is_graphify_enabled p.config_file
    then if exists_sync p.snapshot_file
      then if exists_sync p.graph_file
        then or_failed (safe_read_json p.graph_file) unparseable (λ current.
          or_failed (safe_read_json p.snapshot_file) unparseable (λ snapshot. answer (record {
            nodes = diff_nodes current snapshot;
            edges = diff_edges current snapshot;
            timestamp = or_null snapshot.timestamp;
          })))
        else failed no_current
      else failed no_baseline
    else failed disabled

pub record SnapshotAnswer : Type 0 where
  pub timestamp : Str
  pub node_count : ℕ
  pub edge_count : ℕ

-- What `writeSnapshot` writes of a graph at a time.
unfoldable pub snapshot_of : Graph → Str → Graph
snapshot_of g time = record {
  nodes = some (node_list g);
  edges = some (edge_list g);
  links = none;
  hyperedges = none;
  timestamp = some time;
}

unfoldable pub write_snapshot : Project → Str → Project × Answer SnapshotAnswer
unfolding safe_read_json snapshot_of
write_snapshot p time = elim (safe_read_json p.graph_file) [
  | none ↦ (p, failed unparseable)
  | some g ↦ (
    record p { snapshot_file = parsed (snapshot_of g time) },
    answer (record {
      timestamp = time;
      node_count = length (node_list g);
      edge_count = length (edge_list g);
    }),
  )
]

-- `(config.graphify && config.graphify.build_timeout) || 300`
abbrev pub timeout_of : Option ℕ → ℕ
timeout_of none = 300
timeout_of (some t) = if t == 0 then 300 else t

abbrev pub build_timeout_of : Option GraphifyConfig → ℕ
build_timeout_of none = 300
build_timeout_of (some g) = timeout_of g.build_timeout

unfoldable pub build_timeout : ConfigFile → ℕ
build_timeout (config g) = build_timeout_of g
build_timeout _ = 300

pub record BuildAnswer : Type 0 where
  pub timeout_seconds : ℕ
  pub version : Option Str
  pub version_warning : Option Str

-- `installed` is what `checkGraphifyInstalled` finds, the last two what `checkGraphifyVersion` does.
unfoldable pub graphify_build : Project → Bool → Option Str → Option Str → Answer BuildAnswer
unfolding is_graphify_enabled build_timeout
graphify_build p installed version warning =
    if is_graphify_enabled p.config_file
    then if installed
      then answer (record {
        timeout_seconds = build_timeout p.config_file;
        version = version;
        version_warning = warning;
      })
      else failed not_installed
    else failed disabled
