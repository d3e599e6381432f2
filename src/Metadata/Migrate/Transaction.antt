-- ===== src/Metadata/Migrate/Transaction.antt =====
-- What the transaction of one file leaves behind, however its statements are answered.
use tempcdn.Prelude.{
  ◌≡◌, ◌≢◌, ◌⊎◌, inl, inr, refl, Bool, true, false, Option, none, some, List, [], ◌∷◌, ◌++◌, arith,
}
use tempcdn.Text.{Text}
use tempcdn.Action.{Result, ok, err, Action, attempt, wrap, ◌>>=◌, ◌>>◌}
use tempcdn.Metadata.Model.{Cause}
use tempcdn.Metadata.Conn.{Conn, Outcome, done, refused, lost, run}
use tempcdn.Metadata.Migrate.{
  Committed, Schema, MigrateError, commit, record_name, apply, has_name, named, closed, rolled_back,
  applied, or_roll_back, apply_file,
}

module _ {D : Type 0} where
  abbrev pub conn : Schema D → List Outcome → Conn (Schema D)
  conn s os = record { tables = s; outcomes = os }

  -- Either an error is reported and nothing is committed, or the new state is committed.
  abbrev Ends :
      Committed D → Committed D → Result MigrateError (Unit {0}) × Conn (Schema D) → Type 0
  Ends old new q = ((q.0 ≢ ok tt) × (q.1.tables.committed ≡ old)) ⊎ (q.1.tables.committed ≡ new)

  -- What is left of a transaction that is rolled back.
  rolled_back_lem :
      (e : MigrateError) (rest : Action (Conn (Schema D)) MigrateError (Unit {0})) (s : Schema D)
      (os : List Outcome)
      → (((rolled_back e >> rest) (conn s os)).0 ≢ ok tt)
        × (((rolled_back e >> rest) (conn s os)).1.tables.committed ≡ s.committed)
  unfolding run
  rolled_back_lem e rest s [] = ((λ q. ground arith), refl)
  rolled_back_lem e rest s (done ∷ os) = ((λ q. ground arith), refl)
  rolled_back_lem e rest s (refused x ∷ os) = ((λ q. ground arith), refl)
  rolled_back_lem e rest s (lost x ∷ os) = ((λ q. ground arith), refl)

  commit-Ends :
      (name : Text) (s : Schema D) (os : List Outcome)
      → Ends s.committed s.pending (wrap (λ c. commit name) (run closed) (conn s os))
  unfolding run
  commit-Ends name s [] = inr refl
  commit-Ends name s (done ∷ os) = inr refl
  commit-Ends name s (refused x ∷ os) = inl ((λ q. ground arith), refl)
  commit-Ends name s (lost x ∷ os) = inr refl

  abbrev with_filename : Text → Committed D → Committed D
  with_filename name k = record { content = k.content; filenames = k.filenames ++ name ∷ [] }

  -- What follows the answer to a statement of the transaction.
  abbrev then_commit : Text → Result Cause Bool → Action (Conn (Schema D)) MigrateError (Unit {0})
  then_commit name answer =
      or_roll_back (record_name name) answer >> wrap (λ c. commit name) (run closed)

  -- A statement whose error the caller looks at, by the cases of its answer.
  attempt_rule :
      {A : Type 0} (P : Result MigrateError (Unit {0}) × Conn (Schema D) → Type 0)
      (f : Schema D → A × Schema D)
      (g : Result Cause A → Action (Conn (Schema D)) MigrateError (Unit {0})) (s : Schema D)
      (q : A × Schema D) (os : List Outcome)
      → f s ≡ q
      → ((os : List Outcome) → P (g (ok q.0) (conn q.1 os)))
      → ((x : Cause) (os : List Outcome) → P (g (err x) (conn s os)))
      → ((x : Cause) (os : List Outcome) → P (g (err x) (conn q.1 os)))
      → P ((attempt (run f) >>= g) (conn s os))
  unfolding run
  attempt_rule P f g s q [] e a b c = rw e (a [])
  attempt_rule P f g s q (done ∷ os) e a b c = rw e (a os)
  attempt_rule P f g s q (refused x ∷ os) e a b c = b x os
  attempt_rule P f g s q (lost x ∷ os) e a b c = rw e (c x os)

  named-Ends :
      (name : Text) (s : Schema D) (os : List Outcome)
      → has_name name s.pending.filenames ≡ false
      → Ends s.committed
          (with_filename name s.pending)
          ((attempt (run (named name)) >>= then_commit name) (conn s os))
  named-Ends name s os h =
      let after : Schema D = record s { pending = with_filename name s.pending } in
      let end : Action (Conn (Schema D)) MigrateError (Unit {0}) =
        wrap (λ c. commit name) (run closed) in
      attempt_rule (Ends s.committed (with_filename name s.pending)) (named name) (then_commit name)
        s (true, after) os (rw h refl) (λ os. commit-Ends name after os)
        (λ x os. inl (rolled_back_lem (record_name name) end s os))
        (λ x os. inl (rolled_back_lem (record_name name) end after os))

  abbrev then_name : Text → Result Cause Bool → Action (Conn (Schema D)) MigrateError (Unit {0})
  then_name name answer =
      or_roll_back (apply name) answer >> (attempt (run (named name)) >>= then_commit name)

module _ {D : Type 0} where
  -- The state with a file's SQL and its name.
  abbrev pub with_file : Text → D → Committed D → Committed D
  with_file name d k = record { content = d; filenames = k.filenames ++ name ∷ [] }

module _ {D : Type 0} (apply_sql : Text → D → Option D) where
  -- Either nothing is committed and an error is reported, or the file is committed with its name.
  abbrev pub FileEnds :
      Text → Text → Committed D → Result MigrateError (Unit {0}) × Conn (Schema D) → Type 0
  FileEnds name contents k q =
      ((q.0 ≢ ok tt) × (q.1.tables.committed ≡ k))
      ⊎ ((d : D) × (apply_sql contents k.content ≡ some d)
          × (q.1.tables.committed ≡ with_file name d k))

  -- The transaction's state at its begin, for what is committed.
  abbrev started : Committed D → Bool → Schema D
  started k b = record { committed = k; pending = k; locked = b }

  of_Ends :
      (name contents : Text) (k : Committed D) (d : D)
      (q : Result MigrateError (Unit {0}) × Conn (Schema D))
      → apply_sql contents k.content ≡ some d
      → Ends k (with_file name d k) q
      → FileEnds name contents k q
  of_Ends name contents k d q e (inl h) = inl h
  of_Ends name contents k d q e (inr h) = inr (d, e, h)

  -- What follows the answer to the file's statements.
  applied-FileEnds :
      (name contents : Text) (k : Committed D) (b : Bool) (os : List Outcome)
      → has_name name k.filenames ≡ false
      → FileEnds name contents k
          ((attempt (run (applied apply_sql contents)) >>= then_name name) (conn (started k b) os))
  applied-FileEnds name contents k b os h = go (apply_sql contents k.content) refl
    where
      rest : Action (Conn (Schema D)) MigrateError (Unit {0})
      rest = attempt (run (named name)) >>= then_commit name

      go :
          (a : Option D)
          → apply_sql contents k.content ≡ a
          → FileEnds name contents k (
              (attempt (run (applied apply_sql contents)) >>= then_name name)
                (conn (started k b) os))
      go none e =
          attempt_rule (FileEnds name contents k) (applied apply_sql contents) (then_name name)
            (started k b) (false, started k b) os (rw e refl)
            (λ os. inl (rolled_back_lem (apply name) rest (started k b) os))
            (λ x os. inl (rolled_back_lem (apply name) rest (started k b) os))
            (λ x os. inl (rolled_back_lem (apply name) rest (started k b) os))
      go (some d) e =
          let after : Schema D = record {
            committed = k;
            pending = record k { content = d };
            locked = b;
          } in
          attempt_rule (FileEnds name contents k) (applied apply_sql contents) (then_name name)
            (started k b) (true, after) os (rw e refl)
            (λ os. of_Ends name contents k d (rest (conn after os)) e (named-Ends name after os h))
            (λ x os. inl (rolled_back_lem (apply name) rest (started k b) os))
            (λ x os. inl (rolled_back_lem (apply name) rest after os))

  pub apply_file-FileEnds :
      (name contents : Text) (c : Conn (Schema D))
      → has_name name c.tables.committed.filenames ≡ false
      → FileEnds name contents c.tables.committed (apply_file apply_sql name contents c)
  unfolding apply_file run
  apply_file-FileEnds name contents c h = go c.outcomes
    where
      k : Committed D
      k = c.tables.committed

      go :
          (os : List Outcome)
          → FileEnds name contents k (apply_file apply_sql name contents (conn c.tables os))
      go [] = applied-FileEnds name contents k c.tables.locked [] h
      go (done ∷ os) = applied-FileEnds name contents k c.tables.locked os h
      go (refused x ∷ os) = inl ((λ q. ground arith), refl)
      go (lost x ∷ os) = inl ((λ q. ground arith), refl)
