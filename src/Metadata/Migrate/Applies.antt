-- ===== src/Metadata/Migrate/Applies.antt =====
-- What a run of the migrations leaves behind, however its statements are answered.
use tempcdn.Prelude.{
  ◌⊎◌, ◌≡◌, ◌≢◌, inl, inr, refl, ap, ◌∙◌, Bool, true, false, Option, none, some, List, [], ◌∷◌,
  ◌++◌, arith, Bool-cases, if◌then◌else◌,
}
use tempcdn.Text.{Text}
use tempcdn.Action.{Result, ok, err, Action, wrap, ◌>>◌}
use tempcdn.Metadata.Conn.{Conn, Outcome, done, refused, lost, run, query}
use tempcdn.Metadata.Migrate.{
  Committed, Schema, MigrateError, sort_names, file_names, has_name, applied, apply_file,
  migrate_file, migrate_files, migrate_entries, migrate_locked, migrate, acquire, lock,
  create_table, unlocked, check, read_file,
}
use tempcdn.Metadata.Migrate.Transaction.{conn, with_file, FileEnds, apply_file-FileEnds}

-- The files that a run has to apply: those without a name in the table.
unfoldable pub to_apply : List Text → List Text → List Text
to_apply [] applied = []
to_apply (name ∷ names) applied =
    if has_name name applied
    then to_apply names applied
    else name ∷ to_apply names (applied ++ name ∷ [])

module _ {D : Type 0} (apply_sql : Text → D → Option D) where
  -- The files applied one after the other, each with its name; nothing if one cannot be.
  unfoldable pub apply_all : (Text → Option Text) → List Text → Committed D → Option (Committed D)
  apply_all read [] k = some k
  apply_all read (name ∷ names) k = elim (read name) [
    | none ↦ none
    | some contents ↦ elim (apply_sql contents k.content) [
      | none ↦ none
      | some d ↦ apply_all read names (with_file name d k)
    ]
  ]

  -- The files of a beginning of the list are applied, and all of them if there is no error.
  unfoldable pub Applies :
      (Text → Option Text)
      → List Text
      → Committed D
      → Result MigrateError (Unit {0}) × Conn (Schema D)
      → Type 0
  Applies read names k q =
      (first : List Text) × (rest : List Text) × (first ++ rest ≡ to_apply names k.filenames)
      × (apply_all read first k ≡ some q.1.tables.committed)
      × ((q.0 ≢ ok tt) ⊎ (rest ≡ []))

  module _ (read : Text → Option Text) where
    apply_all-cons :
        (name contents : Text) (names : List Text) (k : Committed D) (d : D)
        → read name ≡ some contents
        → apply_sql contents k.content ≡ some d
        → apply_all read (name ∷ names) k ≡ apply_all read names (with_file name d k)
    unfolding apply_all
    apply_all-cons name contents names k d r e = rw (apply_all, r, e) refl

    stops :
        (names : List Text) (k : Committed D) (q : Result MigrateError (Unit {0}) × Conn (Schema D))
        → q.0 ≢ ok tt
        → q.1.tables.committed ≡ k
        → Applies read names k q
    unfolding Applies apply_all
    stops names k q ne e = ([], to_apply names k.filenames, refl, rw e refl, inl ne)

    -- The rest of the loop behind the transaction of a file.
    behind_file :
        (name contents : Text) (names : List Text) (k : Committed D)
        (q : Result MigrateError (Unit {0}) × Conn (Schema D))
        → read name ≡ some contents
        → has_name name k.filenames ≡ false
        → FileEnds apply_sql name contents k q
        → ((c : Conn (Schema D))
            → Applies read names c.tables.committed (migrate_files apply_sql read names c))
        → Applies read (name ∷ names) k (
            let m : Action (Conn (Schema D)) MigrateError (Unit {0}) = λ _. q in
            (m >> migrate_files apply_sql read names) q.1)
    unfolding Applies apply_all to_apply
    behind_file name contents names k (ok u, c) r h (inl (ne, e)) rec = absurd (ne refl)
    behind_file name contents names k (ok u, c) r h (inr (d, e, committed)) rec =
        let (first, rest, a, b, all) = rec c in
        (
          name ∷ first,
          rest,
          rw (h, ← ap (λ x. x.filenames) committed) (ap (λ x. name ∷ x) a),
          apply_all-cons name contents first k d r e ∙ rw (← committed) b,
          all,
        )
    behind_file name contents names k (err x, c) r h (inl (ne, e)) rec =
        ([], to_apply (name ∷ names) k.filenames, refl, rw e refl, inl ne)
    behind_file name contents names k (err x, c) r h (inr (d, e, committed)) rec = (
      name ∷ [],
      to_apply names (k.filenames ++ name ∷ []),
      rw h refl,
      apply_all-cons name contents [] k d r e ∙ rw committed refl,
      inl (λ o. ground arith),
    )

    passes :
        (name : Text) (names : List Text) (k : Committed D)
        (q : Result MigrateError (Unit {0}) × Conn (Schema D))
        → has_name name k.filenames ≡ true
        → Applies read names k q
        → Applies read (name ∷ names) k q
    unfolding Applies to_apply
    passes name names k q h (first, rest, a, b, all) = (first, rest, rw h a, b, all)

    round :
        (name : Text) (names : List Text) (s : Schema D) (os : List Outcome)
        → ((c : Conn (Schema D))
            → Applies read names c.tables.committed (migrate_files apply_sql read names c))
        → Applies read (name ∷ names) s.committed (
            (migrate_file apply_sql name (read name) (has_name name s.committed.filenames)
                >> migrate_files apply_sql read names)
              (conn s os))
    unfolding migrate_file
    round name names s os rec = elim (Bool-cases (has_name name s.committed.filenames)) [
      | inl h ↦ rw h (
          passes name names s.committed (migrate_files apply_sql read names (conn s os)) h
            (rec (conn s os)))
      | inr h ↦ rw h (unnamed (read name) refl h)
    ]
      where
        unnamed :
            (contents : Option Text)
            → read name ≡ contents
            → has_name name s.committed.filenames ≡ false
            → Applies read (name ∷ names) s.committed (
                (migrate_file apply_sql name contents false >> migrate_files apply_sql read names)
                  (conn s os))
        unnamed none r h =
            stops (name ∷ names) s.committed (err (read_file name), conn s os) (λ q. ground arith)
              refl
        unnamed (some contents) r h =
            behind_file name contents names s.committed
              (apply_file apply_sql name contents (conn s os)) r h
              (apply_file-FileEnds apply_sql name contents (conn s os) h) rec

    checked :
        (name : Text) (names : List Text) (s : Schema D) (os : List Outcome)
        → ((c : Conn (Schema D))
            → Applies read names c.tables.committed (migrate_files apply_sql read names c))
        → Applies read
            (name ∷ names)
            s.committed
            (migrate_files apply_sql read (name ∷ names) (conn s os))
    unfolding migrate_files query run
    checked name names s [] rec = round name names s [] rec
    checked name names s (done ∷ os) rec = round name names s os rec
    checked name names s (refused x ∷ os) rec =
        stops (name ∷ names) s.committed (err (check name), conn s os) (λ q. ground arith) refl
    checked name names s (lost x ∷ os) rec =
        stops (name ∷ names) s.committed (err (check name), conn s os) (λ q. ground arith) refl

    migrate_files-Applies :
        (names : List Text) (c : Conn (Schema D))
        → Applies read names c.tables.committed (migrate_files apply_sql read names c)
    unfolding Applies apply_all to_apply migrate_files
    migrate_files-Applies [] c = ([], [], refl, refl, inr refl)
    migrate_files-Applies (name ∷ names) c =
        checked name names c.tables c.outcomes (λ c. migrate_files-Applies names c)

    -- The unlocking, and its answer, change nothing of this.
    unlocked-Applies :
        (names : List Text) (k : Committed D) (r : Result MigrateError (Unit {0})) (s : Schema D)
        (os : List Outcome)
        → Applies read names k (r, conn s os)
        → Applies read names k (unlocked apply_sql (r, conn s os))
    unfolding Applies run
    unlocked-Applies names k r s [] h = h
    unlocked-Applies names k r s (done ∷ os) h = h
    unlocked-Applies names k r s (refused x ∷ os) h = h
    unlocked-Applies names k r s (lost x ∷ os) h = h

    unlocked-Applies_pair :
        (names : List Text) (k : Committed D) (q : Result MigrateError (Unit {0}) × Conn (Schema D))
        → Applies read names k q
        → Applies read names k (unlocked apply_sql q)
    unlocked-Applies_pair names k (r, c) h = unlocked-Applies names k r c.tables c.outcomes h

    migrate_locked-Applies :
        (entries : List (Text × Bool)) (s : Schema D) (os : List Outcome)
        → Applies read
            (sort_names (file_names entries))
            s.committed
            (migrate_locked apply_sql read (some entries) (conn s os))
    unfolding migrate_locked migrate_entries run
    migrate_locked-Applies entries s os =
        unlocked-Applies_pair names s.committed (after.0, after.1) (go os)
      where
        names : List Text
        names = sort_names (file_names entries)

        body : Action (Conn (Schema D)) MigrateError (Unit {0})
        body = wrap (λ c. create_table) (run (λ s. (tt, s))) >> migrate_files apply_sql read names

        after : Result MigrateError (Unit {0}) × Conn (Schema D)
        after = body (conn s os)

        go : (os : List Outcome) → Applies read names s.committed (body (conn s os))
        go [] = migrate_files-Applies names (conn s [])
        go (done ∷ os) = migrate_files-Applies names (conn s os)
        go (refused x ∷ os) =
            stops names s.committed (err create_table, conn s os) (λ q. ground arith) refl
        go (lost x ∷ os) =
            stops names s.committed (err create_table, conn s os) (λ q. ground arith) refl

  -- However the statements are answered, a run of the migrations has committed exactly a beginning of
  -- the files that it had to apply, each with its name and each once, in the order of the sorted names,
  -- and every file that it had to apply where it reports no error.
  pub migrate-Applies :
      (acquired : Bool) (read : Text → Option Text) (entries : List (Text × Bool))
      (c : Conn (Schema D))
      → Applies read
          (sort_names (file_names entries))
          c.tables.committed
          (migrate apply_sql acquired read (some entries) c)
  unfolding migrate run
  migrate-Applies false read entries c =
      stops read (sort_names (file_names entries)) c.tables.committed (err acquire, c)
        (λ q. ground arith) refl
  migrate-Applies true read entries c = go c.outcomes
    where
      names : List Text
      names = sort_names (file_names entries)

      go :
          (os : List Outcome)
          → Applies read names c.tables.committed
              (migrate apply_sql true read (some entries) (conn c.tables os))
      go [] = migrate_locked-Applies read entries (record c.tables { locked = true }) []
      go (done ∷ os) = migrate_locked-Applies read entries (record c.tables { locked = true }) os
      go (refused x ∷ os) =
          stops read names c.tables.committed (err lock, conn c.tables os) (λ q. ground arith) refl
      go (lost x ∷ os) =
          stops read names c.tables.committed
            (err lock, conn (record c.tables { locked = true }) os) (λ q. ground arith) refl
