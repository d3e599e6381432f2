-- ===== src/Metadata/Conn.antt =====
-- The connection pool of internal/metadata/postgres_repository.go, as far as the repositories
-- depend on it: each statement is sent to the server and reads or changes the tables at once, or
-- fails. The server and the network answer by a list of outcomes; behind its end, every statement
-- is carried out.
use tempcdn.Prelude.{List, [], ◌∷◌}
use tempcdn.Action.{Action, ok, err}
use tempcdn.Metadata.Model.{Cause}

-- `refused`: the statement failed and changed nothing. `lost`: it was carried out, and its reply
-- did not come back, so that the caller sees an error as well.
pub data Outcome : Type 0 where
  done : Outcome
  refused : Cause → Outcome
  lost : Cause → Outcome

pub record Conn (D : Type 0) : Type 0 where
  pub tables : D
  pub outcomes : List Outcome

abbrev pub answer : {D A : Type 0} → Outcome → List Outcome → (D → A × D) → Action (Conn D) Cause A
answer done rest f c = let (a, d) = f c.tables in (ok a, record { tables = d; outcomes = rest })
answer (refused e) rest f c = (err e, record { tables = c.tables; outcomes = rest })
answer (lost e) rest f c =
    let (a, d) = f c.tables in (err e, record { tables = d; outcomes = rest })

abbrev pub run_with : {D A : Type 0} → List Outcome → (D → A × D) → Action (Conn D) Cause A
run_with [] f = answer done [] f
run_with (o ∷ rest) f = answer o rest f

-- `pool.Exec`, `pool.QueryRow` and `pool.Query`: one statement, with what it returns.
unfoldable pub run : {D A : Type 0} → (D → A × D) → Action (Conn D) Cause A
run f c = run_with c.outcomes f c

-- A statement that changes nothing.
unfoldable pub query : {D A : Type 0} → (D → A) → Action (Conn D) Cause A
unfolding run
query f = run (λ d. (f d, d))

-- No reply is lost: a statement that reports an error has changed nothing.
abbrev pub IsHonest : Outcome → Type 0
IsHonest done = Unit
IsHonest (refused e) = Unit
IsHonest (lost e) = ⊥

-- Nothing fails.
abbrev pub IsDone : Outcome → Type 0
IsDone done = Unit
IsDone (refused e) = ⊥
IsDone (lost e) = ⊥
