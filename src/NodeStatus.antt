-- ===== src/NodeStatus.antt =====
-- internal/nodestatus: the heartbeat of an instance, the janitor that marks instances offline whose
-- heartbeat is stale, and the identifier of an instance.
pub mod Marks
mod Tests
use tempcdn.Prelude.{
  ℕ, ◌-◌, Bool, true, false, Option, none, some, List, [], ◌∷◌, ◌++◌, if◌then◌else◌,
}
use tempcdn.Text.{Text, lit, is_empty}
use tempcdn.Metadata.Model.{Time}
use tempcdn.Metadata.Nodes.{NodesDb, heartbeat, mark_stale_offline}

-- `NewReporter`, as far as a beat uses it.
pub record Reporter : Type 0 where
  pub node_id : Text
  pub hostname : Text
  pub started_at : Time

-- An error is only logged.
unfoldable pub beat : Reporter → Time → NodesDb → NodesDb
beat r now c = (heartbeat r.node_id r.hostname r.started_at now c).1

-- `now.Add(-j.staleAfter)`, for a time that is later than the year 1 by more than that.
unfoldable pub janitor_sweep : ℕ → Time → NodesDb → NodesDb
janitor_sweep stale_after now c = (mark_stale_offline (now - stale_after) now c).1

-- `Run` of the reporter: a beat at the start and one at every tick, until the context is done.
unfoldable pub run_reporter : Reporter → List Time → NodesDb → NodesDb
unfolding beat
run_reporter r [] c = c
run_reporter r (now ∷ times) c = run_reporter r times (beat r now c)

-- `Run` of the janitor.
unfoldable pub run_janitor : ℕ → List Time → NodesDb → NodesDb
unfolding janitor_sweep
run_janitor stale_after [] c = c
run_janitor stale_after (now ∷ times) c =
    run_janitor stale_after times (janitor_sweep stale_after now c)

-- `suffix` is what `randomHex(4)` gives.
unfoldable pub resolve_node_id : Text → Text → Option Text → Option Text
resolve_node_id configured hostname suffix =
    if is_empty configured
    then elim suffix [
      | none ↦ none
      | some s ↦
          if is_empty hostname then some (lit "node-" ++ s) else some (hostname ++ lit "-" ++ s)
    ]
    else some configured
