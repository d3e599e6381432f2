-- ===== src/Metadata/Connect.antt =====
-- `NewRepository` of internal/metadata/repository.go and `NewPostgresRepository` of
-- internal/metadata/postgres_repository.go, from the configuration to a pool that answers. The driver
-- (pgx) is outside: what it makes of a text and of a configuration, and whether a pool answers, are
-- parameters. The state is the list of the pools that are open.
use tempcdn.Prelude.{
  ◌≡◌, ◌⊎◌, inl, inr, refl, Bool, true, false, Option, none, some, List, [], ◌∷◌, ◌||◌,
  if◌then◌else◌, Bool-cases, Option-cases,
}
use tempcdn.Prelude.Int.{ℤ}
use tempcdn.Text.{Text, lit, has_prefix}
use tempcdn.Action.{ok, err, Action, raise}

-- `isPostgresDSN`
unfoldable pub is_postgres_dsn : Text → Bool
is_postgres_dsn dsn = has_prefix dsn (lit "postgres://") || has_prefix dsn (lit "postgresql://")

pub data ConnectError : Type 0 where
  invalid_dsn parse_dsn open_pool ping_failed : ConnectError

-- The driver: a configuration with its number of connections, a pool, and its answer to a ping.
pub record Driver (C P : Type 0) : Type 0 where
  pub parse_config : Text → Option C
  pub with_max_conns : ℤ → C → C
  pub new_with_config : C → Option P
  pub ping : P → Bool

module _ {C P : Type 0} (v : Driver C P) where
  -- `pool.Close()`, for the pool that was opened last.
  abbrev close : List P → List P
  close [] = []
  close (pool ∷ pools) = pools

  -- What is done with the answer of `Ping`.
  abbrev pub after_ping : P → Bool → Action (List P) ConnectError P
  after_ping pool true pools = (ok pool, pools)
  after_ping pool false pools = (err ping_failed, close pools)

  -- What is done with the new pool.
  abbrev pub after_open : Option P → Action (List P) ConnectError P
  after_open none pools = (err open_pool, pools)
  after_open (some pool) pools = after_ping pool (v.ping pool) (pool ∷ pools)

  abbrev pub after_parse : ℤ → Option C → Action (List P) ConnectError P
  after_parse max_conns none pools = (err parse_dsn, pools)
  after_parse max_conns (some cfg) pools =
      after_open (v.new_with_config (v.with_max_conns max_conns cfg)) pools

  unfoldable pub new_postgres_repository : Text → ℤ → Action (List P) ConnectError P
  new_postgres_repository dsn max_conns = after_parse max_conns (v.parse_config dsn)

  unfoldable pub new_repository : Text → ℤ → Action (List P) ConnectError P
  unfolding is_postgres_dsn new_postgres_repository
  new_repository dsn max_conns =
      if is_postgres_dsn dsn then new_postgres_repository dsn max_conns else raise invalid_dsn

  -- A repository comes with one pool more, which has the number of connections that was asked for and
  -- answers; for a text that names Postgres and that the driver can read. Where there is none, as many
  -- pools are open as before.
  pub new_repository-opens :
      (dsn : Text) (max_conns : ℤ) (pools : List P)
      → ((pool : P) × (cfg : C) × (new_repository dsn max_conns pools ≡ (ok pool, pool ∷ pools))
          × (is_postgres_dsn dsn ≡ true)
          × (v.parse_config dsn ≡ some cfg)
          × (v.new_with_config (v.with_max_conns max_conns cfg) ≡ some pool)
          × (v.ping pool ≡ true))
        ⊎ ((e : ConnectError) × (new_repository dsn max_conns pools ≡ (err e, pools)))
  unfolding new_repository new_postgres_repository
  new_repository-opens dsn max_conns pools = elim (Bool-cases (is_postgres_dsn dsn)) [
    | inr e ↦ inr (invalid_dsn, rw e refl)
    | inl e ↦ elim (Option-cases (v.parse_config dsn)) [
      | inl p ↦ inr (parse_dsn, rw (e, p) refl)
      | inr (cfg, p) ↦ elim (Option-cases (v.new_with_config (v.with_max_conns max_conns cfg))) [
        | inl q ↦ inr (open_pool, rw (e, p, q) refl)
        | inr (pool, q) ↦ elim (Bool-cases (v.ping pool)) [
          | inl b ↦ inl (pool, cfg, rw (e, p, q, b) refl, e, p, q, b)
          | inr b ↦ inr (ping_failed, rw (e, p, q, b) refl)
        ]
      ]
    ]
  ]
