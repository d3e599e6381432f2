-- ===== src/NodeStatus/Tests.antt =====
-- One instance, its heartbeat and a pass of the janitor.
use tempcdn.Prelude.{◌≡◌, ◌+◌, ◌<◌, refl, [], All, arith}
use tempcdn.Text.{lit}
use tempcdn.Action.{ok}
use tempcdn.Metadata.Model.{stored_time}
use tempcdn.Metadata.Conn.{run}
use tempcdn.Metadata.Nodes.{NodesDb, heartbeat}
use tempcdn.Metadata.Nodes.Liveness.{IsMarkedRight, IsAlive}
use tempcdn.NodeStatus.{Reporter, beat, janitor_sweep}
use tempcdn.NodeStatus.Marks.{
  beats, sweeps, stop, next, Steps-IsMarkedRight, beating, sweeping, done, heartbeat-IsAlive,
}

abbrev reporter : Reporter
reporter = record { node_id = lit "n1"; hostname = lit "h"; started_at = 100 }

abbrev no_nodes : NodesDb
no_nodes = record { tables = []; outcomes = [] }

Steps-IsMarkedRight_example :
    All IsMarkedRight (janitor_sweep 30 200 (beat reporter 100 no_nodes)).tables
Steps-IsMarkedRight_example =
    Steps-IsMarkedRight (next (beats reporter 100) (next (sweeps 30 200) stop)) tt

stored : (heartbeat (lit "n1") (lit "h") 100 5110 no_nodes).0 ≡ ok tt
unfolding heartbeat run
stored = refl

abbrev other_reporter : Reporter
other_reporter = record { node_id = lit "n2"; hostname = lit "g"; started_at = 105 }

before_stale : 7130 < stored_time 5110 + 3000
unfolding stored_time
before_stale = omega arith

heartbeat-IsAlive_example :
    IsAlive
      (lit "n1")
      (stored_time 5110)
      (janitor_sweep 3000 7130 (beat other_reporter 5115 (beat reporter 5110 no_nodes))).tables
heartbeat-IsAlive_example =
    heartbeat-IsAlive reporter 5110 no_nodes
      (janitor_sweep 3000 7130 (beat other_reporter 5115 (beat reporter 5110 no_nodes))) tt stored
      (beating other_reporter 5115 (omega arith)
        (sweeping 3000 7130 (omega arith) before_stale done))
