-- ===== src/Metadata/Nodes.antt =====
-- internal/metadata/postgres_repository_nodestatus.go: the statements on the table `node_status`,
-- whose primary key is `node_id`.
pub mod Liveness
use tempcdn.Prelude.{
  ℕ, Bool, true, false, ◌&&◌, Option, none, some, List, [], ◌∷◌, ◌++◌, map, leb, if◌then◌else◌, any,
  filter,
}
use tempcdn.Text.{Text, same}
use tempcdn.Action.{Action, wrap}
use tempcdn.Metadata.Model.{
  Time, stored_time, NodeState, online, offline, NodeStatus, Error, database,
}
use tempcdn.Metadata.Sql.{order_by, update_where}
use tempcdn.Metadata.Conn.{Conn, run, query}

abbrev pub NodesDb : Type 0
NodesDb = Conn (List NodeStatus)

abbrev pub has_node_id : Text → NodeStatus → Bool
has_node_id node_id n = same n.node_id node_id

-- `DO UPDATE SET`: the start of the first heartbeat stays.
abbrev pub beaten : Text → Time → NodeStatus → NodeStatus
beaten hostname now n = record n {
  hostname = hostname;
  status = online;
  last_heartbeat_at = stored_time now;
  marked_offline_at = none;
}

abbrev pub new_node : Text → Text → Time → Time → NodeStatus
new_node node_id hostname started_at now = record {
  node_id = node_id;
  hostname = hostname;
  status = online;
  started_at = stored_time started_at;
  last_heartbeat_at = stored_time now;
  marked_offline_at = none;
}

unfoldable pub beat_rows : Text → Text → Time → Time → List NodeStatus → List NodeStatus
beat_rows node_id hostname started_at now rows =
    if any (has_node_id node_id) rows
    then update_where (has_node_id node_id) (beaten hostname now) rows
    else rows ++ new_node node_id hostname started_at now ∷ []

unfoldable pub heartbeat : Text → Text → Time → Time → Action NodesDb Error (Unit {0})
unfolding run
heartbeat node_id hostname started_at now =
    wrap database (run (λ rows. (tt, beat_rows node_id hostname started_at now rows)))

abbrev pub is_online : NodeState → Bool
is_online online = true
is_online offline = false

abbrev pub is_stale : Time → NodeStatus → Bool
is_stale before n = is_online n.status && leb n.last_heartbeat_at before

abbrev pub marked : Time → NodeStatus → NodeStatus
marked now n = record n { status = offline; marked_offline_at = some (stored_time now) }

-- The identifiers of the rows that were marked.
unfoldable pub mark_stale_offline : Time → Time → Action NodesDb Error (List Text)
unfolding run
mark_stale_offline before now = wrap database (
    run (λ rows. (
      map (λ n. n.node_id) (filter (is_stale before) rows),
      update_where (is_stale before) (marked now) rows,
    )))

unfoldable pub list_node_status : Action NodesDb Error (List NodeStatus)
unfolding query order_by
list_node_status =
    wrap database
      (query (λ rows. order_by (λ a b. leb b.last_heartbeat_at a.last_heartbeat_at) rows))
