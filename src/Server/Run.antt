-- ===== src/Server/Run.antt =====
-- cmd/server/main.go: what one instance does while it runs: the requests that its router serves, and
-- the ticks of the loops that it has started, one after the other in any order.
pub mod Sound
pub mod Always
pub mod Stays
pub mod Revoked
pub mod Documents
use tempcdn.Prelude.{ℕ, Bool, In}
use tempcdn.Config.{Config}
use tempcdn.Metadata.Model.{Time, FileRecord}
use tempcdn.Admin.Sessions.{janitor_tick}
use tempcdn.Sweeper.{sweep_once}
use tempcdn.NodeStatus.{Reporter, beat, janitor_sweep}
use tempcdn.Upload.Synchronizer.{sync_once}
use tempcdn.Http.{Request}
use tempcdn.Http.Registry.{Registration}
use tempcdn.Server.Shared.{ServerState, ServerReply, file_part, with_file_part}
use tempcdn.Server.Wiring.{Outside, file_platform, server_router}

module _ {S : Type 0} (o : Outside S) (cfg : Config) where
  -- A tick of each loop of `main`.
  abbrev pub sweeper_tick : (FileRecord → Bool) → Time → ServerState S → ServerState S
  sweeper_tick locked now s =
      with_file_part (sweep_once (file_platform o cfg) locked now (file_part s)) s

  abbrev pub session_janitor_tick : Time → ServerState S → ServerState S
  session_janitor_tick now s = record s { admin = janitor_tick now s.admin }

  abbrev pub synchronizer_tick : ServerState S → ServerState S
  synchronizer_tick s =
      let (rules, admin) = sync_once s.admin s.rules in record s { admin = admin; rules = rules }

  abbrev pub reporter_tick : Reporter → Time → ServerState S → ServerState S
  reporter_tick r now s = record s { nodes = beat r now s.nodes }

  abbrev pub node_janitor_tick : ℕ → Time → ServerState S → ServerState S
  node_janitor_tick stale_after now s = record s { nodes = janitor_sweep stale_after now s.nodes }

  pub data Step (s : ServerState S) : ServerState S → Type 0 where
    serves :
        (c : Registration (ServerState S) ServerReply) (r : Request)
        → In c (server_router o cfg).calls
        → Step s (c.handler r s).1
    sweeps : (locked : FileRecord → Bool) (now : Time) → Step s (sweeper_tick locked now s)
    forgets : (now : Time) → Step s (session_janitor_tick now s)
    synchronizes : Step s (synchronizer_tick s)
    beats : (r : Reporter) (now : Time) → Step s (reporter_tick r now s)
    marks : (stale_after : ℕ) (now : Time) → Step s (node_janitor_tick stale_after now s)

  pub data Steps : ServerState S → ServerState S → Type 0 where
    stop : {s : ServerState S} → Steps s s
    next : {s t u : ServerState S} → Step s t → Steps t u → Steps s u
