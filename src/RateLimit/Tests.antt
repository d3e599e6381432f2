-- ===== src/RateLimit/Tests.antt =====
-- One upload at a limiter of one.
use tempcdn.Prelude.{◌≤◌, ◌≡◌, ◌↔◌, refl, false, none}
use tempcdn.RateLimit.{new_concurrency_limiter, try_acquire, release}
use tempcdn.RateLimit.Bound.{Server, enter, Reach, initially, next, limiter_bounds}

abbrev busy : Server
busy = record { limiter = record { held = 1; capacity = 1 }; running = 1 }

busy_reached : Reach 1 busy
unfolding new_concurrency_limiter try_acquire
busy_reached = next (initially _ refl) (enter refl refl)

limiter_bounds_example :
    (1 ≤ 1)
    × (((try_acquire busy.limiter).0 ≡ false) ↔ (busy.running ≡ 1))
    × ((release busy.limiter ≡ none) ↔ (busy.running ≡ 0))
limiter_bounds_example = limiter_bounds 1 busy busy_reached
