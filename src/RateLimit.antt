-- ===== src/RateLimit.antt =====
-- internal/ratelimit/limiter.go: a buffered channel as a counting semaphore. `held` is the number
-- of tokens in the channel's buffer, `capacity` the length of the buffer.
pub mod Bound
mod Tests
use tempcdn.Prelude.{
  ℕ, zero, suc, ◌+◌, ◌-◌, Bool, true, false, Option, none, some, ltb, ◌==◌, if◌then◌else◌,
}
use tempcdn.Prelude.Int.{ℤ, pos, negsuc}

pub record ConcurrencyLimiter : Type 0 where
  pub held : ℕ
  pub capacity : ℕ

-- `make` panics at a negative length: `none`.
unfoldable pub new_concurrency_limiter : ℤ → Option ConcurrencyLimiter
new_concurrency_limiter (pos max_concurrent) = some (record { held = 0; capacity = max_concurrent })
new_concurrency_limiter (negsuc n) = none

-- A send that does not wait.
unfoldable pub try_acquire : ConcurrencyLimiter → Bool × ConcurrencyLimiter
try_acquire c = if ltb c.held c.capacity then (true, record c { held = c.held + 1 }) else (false, c)

-- A receive; `none` says that it blocks, the buffer being empty.
unfoldable pub release : ConcurrencyLimiter → Option ConcurrencyLimiter
release c = if c.held == 0 then none else some (record c { held = c.held - 1 })
