-- ===== src/NodeStatus/Marks.antt =====
-- What heartbeats and the janitor make of the state of an instance.
use tempcdn.Prelude.{ℕ, ◌+◌, ◌-◌, ◌≤◌, ◌<◌, ◌≡◌, inl, inr, All, arith}
use tempcdn.Text.{Text}
use tempcdn.Action.{ok}
use tempcdn.Metadata.Model.{Time, stored_time}
use tempcdn.Metadata.Sql.Updates.{All-update_where}
use tempcdn.Metadata.Nodes.{NodesDb, heartbeat, is_stale, marked}
use tempcdn.Metadata.Nodes.Liveness.{
  IsMarkedRight, IsAlive, beat_rows-IsAlive, update_where-IsAlive, beat_rows-online, heartbeat-rows,
  heartbeat-eq-ok, mark_stale_offline-rows, beat_rows-IsMarkedRight,
}
use tempcdn.NodeStatus.{Reporter, beat, janitor_sweep}

-- What instances do with the table, one after the other: heartbeats and passes of the janitor, at
-- whatever times.
pub data Step : NodesDb → NodesDb → Type 0 where
  beats : {c : NodesDb} (r : Reporter) (now : Time) → Step c (beat r now c)
  sweeps : {c : NodesDb} (stale_after : ℕ) (now : Time) → Step c (janitor_sweep stale_after now c)

pub data Steps : NodesDb → NodesDb → Type 0 where
  stop : {c : NodesDb} → Steps c c
  next : {c d e : NodesDb} → Step c d → Steps d e → Steps c e

beat-IsMarkedRight :
    (r : Reporter) (now : Time) (c : NodesDb)
    → All IsMarkedRight c.tables
    → All IsMarkedRight (beat r now c).tables
unfolding beat
beat-IsMarkedRight r now c h = elim (heartbeat-rows r.node_id r.hostname r.started_at now c) [
  | inl e ↦ rw e h
  | inr e ↦ rw e (beat_rows-IsMarkedRight r.node_id r.hostname r.started_at now c.tables h)
]

janitor_sweep-IsMarkedRight :
    (stale_after : ℕ) (now : Time) (c : NodesDb)
    → All IsMarkedRight c.tables
    → All IsMarkedRight (janitor_sweep stale_after now c).tables
unfolding janitor_sweep
janitor_sweep-IsMarkedRight stale_after now c h =
    elim (mark_stale_offline-rows (now - stale_after) now c) [
      | inl e ↦ rw e h
      | inr e ↦ rw e (
          All-update_where IsMarkedRight (is_stale (now - stale_after)) (marked now) c.tables
            (λ a k. tt) h)
    ]

-- However heartbeats and passes of the janitor interleave and however the database answers, an online
-- row never has a time at which it was marked offline, and an offline row always has one.
pub Steps-IsMarkedRight :
    {c d : NodesDb} → Steps c d → All IsMarkedRight c.tables → All IsMarkedRight d.tables
Steps-IsMarkedRight stop h = h
Steps-IsMarkedRight (next {c} (beats r now) steps) h =
    Steps-IsMarkedRight steps (beat-IsMarkedRight r now c h)
Steps-IsMarkedRight (next {c} (sweeps stale_after now) steps) h =
    Steps-IsMarkedRight steps (janitor_sweep-IsMarkedRight stale_after now c h)

-- What happens to the table while a heartbeat of the time `beat_at` counts: later heartbeats, and
-- passes of the janitor before `stale_after` has gone by since the time that was stored.
pub data Meanwhile (beat_at : Time) : NodesDb → NodesDb → Type 0 where
  done : {c : NodesDb} → Meanwhile beat_at c c
  beating :
      {c d : NodesDb} (r : Reporter) (now : Time)
      → beat_at ≤ now
      → Meanwhile beat_at (beat r now c) d
      → Meanwhile beat_at c d
  sweeping :
      {c d : NodesDb} (stale_after : ℕ) (now : Time)
      → stale_after ≤ now
      → now < stored_time beat_at + stale_after
      → Meanwhile beat_at (janitor_sweep stale_after now c) d
      → Meanwhile beat_at c d

beat-IsAlive :
    (node_id : Text) (r : Reporter) (beat_at now : Time) (c : NodesDb)
    → beat_at ≤ now
    → IsAlive node_id (stored_time beat_at) c.tables
    → IsAlive node_id (stored_time beat_at) (beat r now c).tables
unfolding beat
beat-IsAlive node_id r beat_at now c later a =
    elim (heartbeat-rows r.node_id r.hostname r.started_at now c) [
      | inl e ↦ rw e a
      | inr e ↦
          rw e (
            beat_rows-IsAlive node_id r.node_id r.hostname r.started_at beat_at now c.tables later
              a)
    ]

janitor_sweep-IsAlive :
    (node_id : Text) (since now : Time) (stale_after : ℕ) (c : NodesDb)
    → stale_after ≤ now
    → now < since + stale_after
    → IsAlive node_id since c.tables
    → IsAlive node_id since (janitor_sweep stale_after now c).tables
unfolding janitor_sweep
janitor_sweep-IsAlive node_id since now stale_after c late soon a =
    elim (mark_stale_offline-rows (now - stale_after) now c) [
      | inl e ↦ rw e a
      | inr e ↦
          rw e (update_where-IsAlive node_id since (now - stale_after) now c.tables (omega arith) a)
    ]

Meanwhile-IsAlive :
    (node_id : Text) (beat_at : Time) {c d : NodesDb}
    → Meanwhile beat_at c d
    → IsAlive node_id (stored_time beat_at) c.tables
    → IsAlive node_id (stored_time beat_at) d.tables
Meanwhile-IsAlive node_id beat_at done a = a
Meanwhile-IsAlive node_id beat_at (beating {c} r now later rest) a =
    Meanwhile-IsAlive node_id beat_at rest (beat-IsAlive node_id r beat_at now c later a)
Meanwhile-IsAlive node_id beat_at (sweeping {c} stale_after now late soon rest) a =
    Meanwhile-IsAlive node_id beat_at rest
      (janitor_sweep-IsAlive node_id (stored_time beat_at) now stale_after c late soon a)

-- An instance whose heartbeat was reported as stored is online with that heartbeat or a later one,
-- whatever heartbeats of this and other instances follow, none of an earlier time, and whatever passes
-- of the janitor, each before its `stale_after` has gone by since the stored time of the heartbeat, and
-- later than that after the year 1; in any order and however the database answers to them.
pub heartbeat-IsAlive :
    (r : Reporter) (beat_at : Time) (c d : NodesDb) (u : Unit {0})
    → (heartbeat r.node_id r.hostname r.started_at beat_at c).0 ≡ ok u
    → Meanwhile beat_at (beat r beat_at c) d
    → IsAlive r.node_id (stored_time beat_at) d.tables
unfolding beat
heartbeat-IsAlive r beat_at c d u h rest =
    let (n, found, on, at) = beat_rows-online r.node_id r.hostname r.started_at beat_at c.tables in
    let stored = heartbeat-eq-ok r.node_id r.hostname r.started_at beat_at c u h in
    Meanwhile-IsAlive r.node_id beat_at rest
      (rw stored (record { row = n; found = found; up = on; recent = rw at (omega arith) }))
