-- ===== src/RateLimit/Bound.antt =====
-- The requests that hold the limiter, as an interleaving of acquisitions and releases.
use tempcdn.Prelude.{ℕ, ◌+◌, ◌-◌, ◌≤◌, ◌<◌, ◌≡◌, ◌↔◌, true, false, none, some, arith}
use tempcdn.Prelude.Int.{pos}
use tempcdn.RateLimit.{ConcurrencyLimiter, new_concurrency_limiter, try_acquire, release}

-- The server: its limiter, and the number of uploads that are between a successful `TryAcquire`
-- and their deferred `Release`.
pub record Server : Type 0 where
  pub limiter : ConcurrencyLimiter
  pub running : ℕ

-- What the upload handlers do to the limiter, in any order.
pub data Step (s t : Server) : Type 0 where
  enter :
      (try_acquire s.limiter).0 ≡ true
      → t ≡ record { limiter = (try_acquire s.limiter).1; running = s.running + 1 }
      → Step s t
  turn_away :
      (try_acquire s.limiter).0 ≡ false
      → t ≡ record { limiter = (try_acquire s.limiter).1; running = s.running }
      → Step s t
  leave :
      {l : ConcurrencyLimiter}
      → 0 < s.running
      → release s.limiter ≡ some l
      → t ≡ record { limiter = l; running = s.running - 1 }
      → Step s t

pub data Reach (n : ℕ) : Server → Type 0 where
  initially :
      (l : ConcurrencyLimiter)
      → new_concurrency_limiter (pos n) ≡ some l
      → Reach n (record { limiter = l; running = 0 })
  next : {s t : Server} → Reach n s → Step s t → Reach n t

-- The buffer holds one token for each running upload, and never more than its length.
record IsCounted (n : ℕ) (s : Server) : Type 0 where
  counted : s.limiter.held ≡ s.running
  within : s.limiter.held ≤ s.limiter.capacity
  fixed : s.limiter.capacity ≡ n

Step-IsCounted : (n : ℕ) (s t : Server) → IsCounted n s → Step s t → IsCounted n t
unfolding try_acquire release
Step-IsCounted n s t i (enter a e) = ground arith
Step-IsCounted n s t i (turn_away a e) = ground arith
Step-IsCounted n s t i (leave p r e) = ground arith

Reach-IsCounted : (n : ℕ) {s : Server} → Reach n s → IsCounted n s
unfolding new_concurrency_limiter
Reach-IsCounted n (initially l e) = ground arith
Reach-IsCounted n (next r st) = Step-IsCounted n _ _ (Reach-IsCounted n r) st

-- However acquisitions and releases interleave, at most `n` uploads run at once; a request is
-- turned away exactly if `n` are running; and a release blocks exactly if none is running.
pub limiter_bounds :
    (n : ℕ) (s : Server)
    → Reach n s
    → (s.running ≤ n)
      × (((try_acquire s.limiter).0 ≡ false) ↔ (s.running ≡ n))
      × ((release s.limiter ≡ none) ↔ (s.running ≡ 0))
unfolding try_acquire release
limiter_bounds n s r = let i = Reach-IsCounted n r in ground arith
