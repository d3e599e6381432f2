-- ===== src/Metadata/Files/Search.antt =====
-- What the queries on the table `files` return.
use mathlib.Core.Path.{subst}
use tempcdn.Prelude.{
  ℕ, ◌≤◌, ◌<◌, ◌≡◌, ◌↔◌, ◌⊎◌, inl, inr, refl, Bool, true, false, not, ◌&&◌, Option, none, some,
  List, [], ◌∷◌, All, All-In, All-of_In, In, In-filter, In-of_filter, In-of_take, In-take-drop,
  filter, take, length, length-take, arith, Bool-cases, leb,
}
use tempcdn.Text.{Text}
use tempcdn.Text.Laws.{same_iff}
use tempcdn.Action.{Result, ok, err}
use tempcdn.Metadata.Model.{Time, FileRecord, Error, file_not_found}
use tempcdn.Metadata.Sql.{head?, order_by}
use tempcdn.Metadata.Sql.Order.{
  In-of_order_by, In-order_by, IsSorted, order_by-IsSorted, take-before-drop,
}
use tempcdn.Metadata.Conn.{IsDone}
use tempcdn.Metadata.Files.{
  FilesDb, find_active_by_checksum, active_by_checksum, is_active_copy, newer_first, expired_rows,
  expires_first, find_expired,
}

-- A row holds this content, and has not expired at this time.
pub record IsActiveCopy (checksum : Text) (now : Time) (r : FileRecord) : Type 0 where
  pub same_content : r.checksum_sha256 ≡ checksum
  pub not_expired : now < r.expires_at

is_active_copy_iff :
    (checksum : Text) (now : Time) (r : FileRecord)
    → (is_active_copy checksum now r ≡ true) ↔ IsActiveCopy checksum now r
is_active_copy_iff checksum now r = (
  (λ h. record {
    same_content = (same_iff r.checksum_sha256 checksum).0 (ground arith);
    not_expired = ground arith;
  }),
  (λ h. ground (arith, (same_iff r.checksum_sha256 checksum).1 h.same_content, h.not_expired)),
)

head_cases :
    {A : Type 0} (l : List A)
    → ((x : A) × (xs : List A) × (l ≡ x ∷ xs) × (head? l ≡ some x)) ⊎ ((l ≡ []) × (head? l ≡ none))
head_cases [] = inr (refl, refl)
head_cases (x ∷ xs) = inl (x, xs, refl, refl)

-- A lookup answered: with a row, or that there is none.
abbrev pub Answers : Option FileRecord → Result Error FileRecord → Type 0
Answers (some r) result = result ≡ ok r
Answers none result = result ≡ err file_not_found

-- What the lookup by checksum answers: the newest active copy; or none, if no row is one.
abbrev pub Finds : Text → Time → List FileRecord → Option FileRecord → Type 0
Finds checksum now rows (some r) =
    In r rows
    × IsActiveCopy checksum now r
    × All (λ q. (¬ IsActiveCopy checksum now q) ⊎ (q.created_at ≤ r.created_at)) rows
Finds checksum now rows none = All (λ q. ¬ IsActiveCopy checksum now q) rows

pub active_by_checksum-Finds :
    (checksum : Text) (now : Time) (rows : List FileRecord)
    → Finds checksum now rows (active_by_checksum checksum now rows)
unfolding active_by_checksum
active_by_checksum-Finds checksum now rows = go (order_by newer_first actives) sorted into back
  where
    actives : List FileRecord
    actives = filter (is_active_copy checksum now) rows

    sorted : IsSorted newer_first (order_by newer_first actives)
    sorted =
        order_by-IsSorted newer_first (λ a b h. ground arith) (λ a b c h k. ground arith) actives

    into :
        (q : FileRecord)
        → In q (order_by newer_first actives)
        → In q rows × IsActiveCopy checksum now q
    into q i =
        let (j, e) =
          In-of_filter (is_active_copy checksum now) q rows
            (In-of_order_by newer_first q actives i) in
        (j, (is_active_copy_iff checksum now q).0 e)

    back :
        (q : FileRecord)
        → In q rows
        → IsActiveCopy checksum now q
        → In q (order_by newer_first actives)
    back q i a =
        In-order_by newer_first q actives (
          In-filter (is_active_copy checksum now) q rows i
            ((is_active_copy_iff checksum now q).1 a))

    go :
        (l : List FileRecord)
        → IsSorted newer_first l
        → ((q : FileRecord) → In q l → In q rows × IsActiveCopy checksum now q)
        → ((q : FileRecord) → In q rows → IsActiveCopy checksum now q → In q l)
        → Finds checksum now rows (head? l)
    go [] s f b = All-of_In (λ q. ¬ IsActiveCopy checksum now q) rows (λ q i a. b q i a)
    go (r ∷ l) s f b =
        let (i, a) = f r (inl refl) in
        (
          i,
          a,
          All-of_In _ rows (λ q j. elim (Bool-cases (is_active_copy checksum now q)) [
            | inr no_copy ↦
                inl (λ c. absurd (ground (arith, (is_active_copy_iff checksum now q).1 c)))
            | inl e ↦ elim (b q j ((is_active_copy_iff checksum now q).0 e)) [
              | inl same_row ↦ inr (rw same_row (omega arith))
              | inr k ↦
                  let t : newer_first r q ≡ true = All-In (λ y. newer_first r y ≡ true) q l s.0 k in
                  inr (ground arith)
            ]
          ]),
        )

answer_of :
    (checksum : Text) (now : Time) (c : FilesDb) (answer : Option FileRecord)
    → Answers answer (find_active_by_checksum checksum now c).0
    → active_by_checksum checksum now c.tables ≡ answer
unfolding find_active_by_checksum
answer_of checksum now c (some r) h = ground arith
answer_of checksum now c none h = ground arith

-- The lookup by checksum answers a row only if it is in the table, has this checksum and has not
-- expired, and no other such row was created later; it answers that there is none only if no row is
-- such.
pub find_active_by_checksum-Finds :
    (checksum : Text) (now : Time) (c : FilesDb) (answer : Option FileRecord)
    → Answers answer (find_active_by_checksum checksum now c).0
    → Finds checksum now c.tables answer
find_active_by_checksum-Finds checksum now c answer h =
    subst (Finds checksum now c.tables) (answer_of checksum now c answer h)
      (active_by_checksum-Finds checksum now c.tables)

-- What the search for expired rows returns: rows of the table that have expired and are not locked,
-- at most `limit` of them; and every such row that it leaves out expires no earlier than any that
-- it returns.
pub record IsExpiredBatch (locked : FileRecord → Bool) (now : Time) (limit : ℕ)
    (rows batch : List FileRecord) : Type 0 where
  pub bounded : length batch ≤ limit
  pub expired : All (λ r. In r rows × (r.expires_at ≤ now) × (locked r ≡ false)) batch
  pub oldest :
      All
        (λ q.
          (now < q.expires_at)
          ⊎ (locked q ≡ true)
          ⊎ In q batch
          ⊎ All (λ r. r.expires_at ≤ q.expires_at) batch)
        rows

pub expired_rows-IsExpiredBatch :
    (locked : FileRecord → Bool) (now : Time) (limit : ℕ) (rows : List FileRecord)
    → IsExpiredBatch locked now limit rows (expired_rows locked now limit rows)
unfolding expired_rows
expired_rows-IsExpiredBatch locked now limit rows = record {
  bounded = omega (arith, length-take limit ordered);
  expired = All-of_In _ (take limit ordered) (λ r i. into r (In-of_take limit ordered r i));
  oldest = All-of_In _ rows (λ q i. elim (Bool-cases (test q)) [
    | inr e ↦ elim (Bool-cases (locked q)) [ inl l ↦ inr (inl l) | inr l ↦ inl (ground arith) ]
    | inl e ↦
        elim (In-take-drop limit ordered q
          (In-order_by expires_first q (filter test rows) (In-filter test q rows i e))) [
            | inl t ↦ inr (inr (inl t))
            | inr d ↦ inr (
                inr (
                  inr (
                    All-of_In _ (take limit ordered) (λ r j.
                      let h : expires_first r q ≡ true =
                        take-before-drop expires_first limit ordered r q sorted j d in
                      ground arith))))
          ]
  ]);
}
  where
    test : FileRecord → Bool
    test r = leb r.expires_at now && not (locked r)

    ordered : List FileRecord
    ordered = order_by expires_first (filter test rows)

    sorted : IsSorted expires_first ordered
    sorted =
        order_by-IsSorted expires_first (λ a b h. ground arith) (λ a b c h k. ground arith)
          (filter test rows)

    into : (r : FileRecord) → In r ordered → In r rows × (r.expires_at ≤ now) × (locked r ≡ false)
    into r i =
        let (j, e) =
          In-of_filter test r rows (In-of_order_by expires_first r (filter test rows) i) in
        (j, ground arith, ground arith)

-- The search for expired rows returns at most `limit` rows of the table, all of them expired and not
-- locked by another transaction; an expired, unlocked row that it leaves out expires no earlier than
-- any that it returns.
pub find_expired-IsExpiredBatch :
    (locked : FileRecord → Bool) (now : Time) (limit : ℕ) (c : FilesDb) (batch : List FileRecord)
    → (find_expired locked now limit c).0 ≡ ok batch
    → IsExpiredBatch locked now limit c.tables batch
unfolding find_expired
find_expired-IsExpiredBatch locked now limit c batch h =
    subst (IsExpiredBatch locked now limit c.tables) (ground arith)
      (expired_rows-IsExpiredBatch locked now limit c.tables)

-- A working database answers the lookup.
pub find_active_by_checksum-Answers :
    (checksum : Text) (now : Time) (c : FilesDb)
    → All IsDone c.outcomes
    → (answer : Option FileRecord) × Answers answer (find_active_by_checksum checksum now c).0
unfolding find_active_by_checksum
find_active_by_checksum-Answers checksum now c h =
    go (active_by_checksum checksum now c.tables) refl
  where
    go :
        (o : Option FileRecord)
        → active_by_checksum checksum now c.tables ≡ o
        → (answer : Option FileRecord) × Answers answer (find_active_by_checksum checksum now c).0
    go none e = (none, ground arith)
    go (some r) e = (some r, ground arith)
