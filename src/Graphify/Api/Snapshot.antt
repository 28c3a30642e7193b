-- ===== src/Graphify/Api/Snapshot.antt =====
-- The commands together: a snapshot, and the diff after it.
use sagasmith.Common.{ℕ, ◌≡◌, ◌≢◌, refl, ap, Bool, true, Option, some, [], ◌∷◌, Str, arith}
use sagasmith.Graphify.{Graph, node_list, edge_list}
use sagasmith.Graphify.Diff.{diff_nodes, diff_edges}
use sagasmith.Graphify.Diff.Zero.{
  nothing, node_entries, edge_entries, diff_nodes-nothing_iff, diff_edges-nothing_iff,
}
use sagasmith.Graphify.Api.{
  Project, parsed, Answer, failed, answer, disabled, DiffAnswer, is_graphify_enabled,
  graphify_query, graphify_status, graphify_diff, graphify_build, write_snapshot, snapshot_of,
  or_null,
}

node_entries-snapshot_of :
    (g : Graph) (time : Str) → node_entries (snapshot_of g time) ≡ node_entries g
unfolding node_entries snapshot_of node_list
node_entries-snapshot_of g time = refl

edge_entries-snapshot_of :
    (g : Graph) (time : Str) → edge_entries (snapshot_of g time) ≡ edge_entries g
unfolding edge_entries snapshot_of edge_list
edge_entries-snapshot_of g time = refl

or_null-some : (t : Str) → t ≢ [] → or_null (some t) ≡ some t
or_null-some [] h = absurd (h refl)
or_null-some (c ∷ t) h = refl

diff_nodes-snapshot_of : (g : Graph) (time : Str) → diff_nodes g (snapshot_of g time) ≡ nothing
diff_nodes-snapshot_of g time =
    (diff_nodes-nothing_iff g (snapshot_of g time)).1 (λ k. rw (node_entries-snapshot_of g time))

diff_edges-snapshot_of : (g : Graph) (time : Str) → diff_edges g (snapshot_of g time) ≡ nothing
diff_edges-snapshot_of g time =
    (diff_edges-nothing_iff g (snapshot_of g time)).1 (λ k. rw (edge_entries-snapshot_of g time))

snapshot_written :
    (p : Project) (g : Graph) (time : Str)
    → p.graph_file ≡ parsed g
    → (write_snapshot p time).0 ≡ record p { snapshot_file = parsed (snapshot_of g time) }
unfolding write_snapshot
snapshot_written p g time file = rw file

diff_of_files :
    (p : Project) (a b : Graph)
    → p.graph_file ≡ parsed a
    → p.snapshot_file ≡ parsed b
    → is_graphify_enabled p.config_file ≡ true
    → graphify_diff p
      ≡ answer (record {
        nodes = diff_nodes a b;
        edges = diff_edges a b;
        timestamp = or_null b.timestamp;
      })
unfolding graphify_diff
diff_of_files p a b file snap on = rw (file, snap, on)

timestamp-snapshot_of :
    (g : Graph) (time : Str) → time ≢ [] → or_null (snapshot_of g time).timestamp ≡ some time
unfolding snapshot_of
timestamp-snapshot_of g time h = or_null-some time h

module _ (p : Project) (g : Graph) (time : Str) where
  -- Where the graph file parses and the commands are enabled, a diff directly after a snapshot counts
  -- no change of nodes or edges, and gives the snapshot's time, whatever the old snapshot was.
  pub graphify_diff-write_snapshot :
      p.graph_file ≡ parsed g
      → is_graphify_enabled p.config_file ≡ true
      → time ≢ []
      → graphify_diff (write_snapshot p time).0
        ≡ answer (record { nodes = nothing; edges = nothing; timestamp = some time })
  graphify_diff-write_snapshot file on timed =
      rw
        (
          snapshot_written p g time file,
          diff_of_files (record p { snapshot_file = parsed (snapshot_of g time) }) g
              (snapshot_of g time) file refl on,
          diff_nodes-snapshot_of g time,
          diff_edges-snapshot_of g time,
        )
        (ap {B = Answer DiffAnswer}
          (λ t. answer (record { nodes = nothing; edges = nothing; timestamp = t }))
          (timestamp-snapshot_of g time timed))

-- While the commands are disabled, query, status, diff and build all answer that, and nothing else.
pub disabled_answers :
    (to_lower : Str → Str) (p : Project) (term : Str) (budget : Option ℕ) (now mtime : ℕ)
    (installed : Bool) (version warning : Option Str)
    → is_graphify_enabled p.config_file ≢ true
    → (graphify_query to_lower p term budget ≡ failed disabled)
      × (graphify_status p now mtime ≡ failed disabled)
      × (graphify_diff p ≡ failed disabled)
      × (graphify_build p installed version warning ≡ failed disabled)
unfolding graphify_query graphify_status graphify_diff graphify_build
disabled_answers to_lower p term budget now mtime installed version warning off =
    (ground arith, ground arith, ground arith, ground arith)
