-- ===== src/Metadata/Nodes/Liveness.antt =====
-- What the statements on the table `node_status` keep of its rows.
use tempcdn.Prelude.{
  ◌≡◌, ◌∙◌, ◌≤◌, ◌<◌, false, if◌then◌else◌, ◌⊎◌, inl, inr, refl, Bool, true, Option, none, some,
  List, [], ◌∷◌, All, arith, Bool-cases, any, if-rule,
}
use tempcdn.Text.{Text}
use tempcdn.Metadata.Model.{Time, stored_time, NodeState, online, offline, NodeStatus}
use tempcdn.Metadata.Times.{stored_time_mono}
use tempcdn.Text.Laws.{same_refl}
use tempcdn.Action.{ok}
use tempcdn.Metadata.Sql.{first_where, update_where}
use tempcdn.Metadata.Sql.Updates.{
  first_where-append, first_where-update_where, All-update_where, All-snoc,
}
use tempcdn.Metadata.Admins.Effects.{first_where_append}
use tempcdn.Metadata.Nodes.{
  NodesDb, has_node_id, beaten, new_node, beat_rows, heartbeat, is_stale, marked,
  mark_stale_offline,
}

-- An online row has no time at which it was marked offline, and an offline row has one.
abbrev pub IsMarkedRight : NodeStatus → Type 0
IsMarkedRight n = marks n.status n.marked_offline_at
  where
    marks : NodeState → Option Time → Type 0
    marks online none = Unit
    marks online (some t) = ⊥
    marks offline none = ⊥
    marks offline (some t) = Unit

-- The row of an instance behind its heartbeat.
pub beat_rows-online :
    (node_id hostname : Text) (started_at now : Time) (rows : List NodeStatus)
    → (n : NodeStatus) × (first_where
          (has_node_id node_id)
          (beat_rows node_id hostname started_at now rows)
        ≡ some n)
      × (n.status ≡ online)
      × (n.last_heartbeat_at ≡ stored_time now)
unfolding beat_rows first_where
beat_rows-online node_id hostname started_at now rows =
    elim (Bool-cases (any (has_node_id node_id) rows)) [
      | inl known ↦
          let (x, found, at) = first_where_of_any (has_node_id node_id) rows known in
          (
            beaten hostname now x,
            rw
                (
                  known,
                  first_where-update_where (has_node_id node_id) (has_node_id node_id)
                      (beaten hostname now) rows x (λ a. refl) found,
                  at,
                )
                refl,
            refl,
            refl,
          )
      | inr unknown ↦ (
        new_node node_id hostname started_at now,
        rw unknown (
            first_where_append (has_node_id node_id) rows (new_node node_id hostname started_at now)
              unknown (same_refl node_id)),
        refl,
        refl,
      )
    ]
  where
    first_where_of_any :
        (test : NodeStatus → Bool) (rows : List NodeStatus)
        → any test rows ≡ true
        → (x : NodeStatus) × (first_where test rows ≡ some x) × (test x ≡ true)
    first_where_of_any test [] h = absurd (ground arith)
    first_where_of_any test (q ∷ rows) h = elim (Bool-cases (test q)) [
      | inl t ↦ (q, rw t refl, t)
      | inr f ↦ let (x, a, b) = first_where_of_any test rows (ground arith) in (x, rw f a, b)
    ]

pub heartbeat-rows :
    (node_id hostname : Text) (started_at now : Time) (c : NodesDb)
    → ((heartbeat node_id hostname started_at now c).1.tables ≡ c.tables)
      ⊎ ((heartbeat node_id hostname started_at now c).1.tables
          ≡ beat_rows node_id hostname started_at now c.tables)
unfolding heartbeat
heartbeat-rows node_id hostname started_at now c = ground arith

pub heartbeat-eq-ok :
    (node_id hostname : Text) (started_at now : Time) (c : NodesDb) (u : Unit {0})
    → (heartbeat node_id hostname started_at now c).0 ≡ ok u
    → (heartbeat node_id hostname started_at now c).1.tables
      ≡ beat_rows node_id hostname started_at now c.tables
unfolding heartbeat
heartbeat-eq-ok node_id hostname started_at now c u h = ground arith

pub mark_stale_offline-rows :
    (before now : Time) (c : NodesDb)
    → ((mark_stale_offline before now c).1.tables ≡ c.tables)
      ⊎ ((mark_stale_offline before now c).1.tables
          ≡ update_where (is_stale before) (marked now) c.tables)
unfolding mark_stale_offline
mark_stale_offline-rows before now c = ground arith

pub beat_rows-IsMarkedRight :
    (node_id hostname : Text) (started_at now : Time) (rows : List NodeStatus)
    → All IsMarkedRight rows
    → All IsMarkedRight (beat_rows node_id hostname started_at now rows)
unfolding beat_rows
beat_rows-IsMarkedRight node_id hostname started_at now rows h =
    if-rule (All IsMarkedRight) (any (has_node_id node_id) rows)
      (All-update_where IsMarkedRight (has_node_id node_id) (beaten hostname now) rows (λ a k. tt)
        h)
      (All-snoc IsMarkedRight rows (new_node node_id hostname started_at now) h tt)

-- The instance is online, and its last heartbeat is no older than `since`.
pub record IsAlive (node_id : Text) (since : Time) (rows : List NodeStatus) : Type 0 where
  pub row : NodeStatus
  pub found : first_where (has_node_id node_id) rows ≡ some row
  pub up : row.status ≡ online
  pub recent : since ≤ row.last_heartbeat_at

-- A heartbeat of any instance leaves it so.
pub beat_rows-IsAlive :
    (node_id by hostname : Text) (started_at beat_at now : Time) (rows : List NodeStatus)
    → beat_at ≤ now
    → IsAlive node_id (stored_time beat_at) rows
    → IsAlive node_id (stored_time beat_at) (beat_rows by hostname started_at now rows)
unfolding beat_rows
beat_rows-IsAlive node_id by hostname started_at beat_at now rows later a =
    elim (Bool-cases (any (has_node_id by) rows)) [
      | inl known ↦ rw known (record {
        row = if has_node_id by a.row then beaten hostname now a.row else a.row;
        found =
            first_where-update_where (has_node_id node_id) (has_node_id by) (beaten hostname now)
              rows a.row (λ n. refl) a.found;
        up = elim (Bool-cases (has_node_id by a.row)) [ inl e ↦ rw e refl | inr e ↦ rw e a.up ];
        recent = elim (Bool-cases (has_node_id by a.row)) [
          | inl e ↦ rw e (stored_time_mono beat_at now later)
          | inr e ↦ rw e a.recent
        ];
      })
      | inr unknown ↦ rw unknown (record {
        row = a.row;
        found =
            first_where-append (has_node_id node_id) rows a.row
              (new_node by hostname started_at now) a.found;
        up = a.up;
        recent = a.recent;
      })
    ]

-- And a pass of the janitor does, while the heartbeat is not stale.
pub update_where-IsAlive :
    (node_id : Text) (since before now : Time) (rows : List NodeStatus)
    → before < since
    → IsAlive node_id since rows
    → IsAlive node_id since (update_where (is_stale before) (marked now) rows)
update_where-IsAlive node_id since before now rows early a =
    let fresh : is_stale before a.row ≡ false = ground (arith, a.up, a.recent) in
    record {
      row = a.row;
      found =
          first_where-update_where (has_node_id node_id) (is_stale before) (marked now) rows a.row
            (λ n. refl) a.found
          ∙ rw fresh refl;
      up = a.up;
      recent = a.recent;
    }
