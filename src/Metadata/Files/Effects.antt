-- ===== src/Metadata/Files/Effects.antt =====
-- What each statement on the table `files` leaves behind, however the database answers.
use tempcdn.Prelude.{
  ℕ, ◌≡◌, ◌≢◌, ◌⊎◌, inl, inr, refl, Bool, false, not, none, some, List, [], ◌∷◌, ◌++◌, All, In,
  In-filter, any, arith, Bool-cases, if◌then◌else◌,
}
use tempcdn.Text.{Text, same}
use tempcdn.Text.Laws.{same_iff}
use tempcdn.Action.{Result, ok, err}
use tempcdn.Metadata.Model.{Time, FileRecord, stored_file, Error, file_not_found}
use tempcdn.Metadata.Conn.{IsHonest, IsDone}
use tempcdn.Metadata.Files.{
  FilesDb, insert, has_id, find_active_by_checksum, find_by_id, by_id, delete_by_id, delete_row,
  find_expired,
}

abbrev pub Honest : FilesDb → Type 0
Honest c = All IsHonest c.outcomes

abbrev pub Working : FilesDb → Type 0
Working c = All IsDone c.outcomes

-- A read leaves the rows as they are.
pub find_active_by_checksum-tables :
    (checksum : Text) (now : Time) (c : FilesDb)
    → (find_active_by_checksum checksum now c).1.tables ≡ c.tables
unfolding find_active_by_checksum
find_active_by_checksum-tables checksum now c = ground arith

pub find_active_by_checksum-Honest :
    (checksum : Text) (now : Time) (c : FilesDb)
    → Honest c
    → Honest (find_active_by_checksum checksum now c).1
unfolding find_active_by_checksum
find_active_by_checksum-Honest checksum now c h = ground arith

-- Without lost replies an insertion adds the row and reports nothing, or reports an error and
-- changes nothing.
abbrev pub Inserts : FileRecord → FilesDb → Result Error (Unit {0}) × FilesDb → Type 0
Inserts r c (ok _, d) =
    (d.tables ≡ c.tables ++ stored_file r ∷ []) × (any (has_id r.id) c.tables ≡ false)
Inserts r c (err e, d) = d.tables ≡ c.tables

pub insert-Inserts : (r : FileRecord) (c : FilesDb) → Honest c → Inserts r c (insert r c)
unfolding insert
insert-Inserts r c h = ground arith

-- An insertion that reports no error has added the row.
pub insert-eq-ok :
    (r : FileRecord) (c : FilesDb) (u : Unit {0})
    → (insert r c).0 ≡ ok u
    → (insert r c).1.tables ≡ c.tables ++ stored_file r ∷ []
unfolding insert
insert-eq-ok r c u h = ground arith

-- Without lost replies, an insertion that reports an error has changed nothing.
pub insert-eq-err :
    (r : FileRecord) (c : FilesDb) (e : Error)
    → Honest c
    → (insert r c).0 ≡ err e
    → (insert r c).1.tables ≡ c.tables
unfolding insert
insert-eq-err r c e h q = ground arith

pub find_by_id-tables : (id : Text) (c : FilesDb) → (find_by_id id c).1.tables ≡ c.tables
unfolding find_by_id
find_by_id-tables id c = ground arith

pub find_by_id-Working : (id : Text) (c : FilesDb) → Working c → Working (find_by_id id c).1
unfolding find_by_id
find_by_id-Working id c h = ground arith

pub find_by_id-eq-ok :
    (id : Text) (c : FilesDb) (r : FileRecord)
    → (find_by_id id c).0 ≡ ok r
    → by_id id c.tables ≡ some r
unfolding find_by_id
find_by_id-eq-ok id c r h = ground arith

-- The answer of a working database to a search by identifier.
pub find_by_id-answer :
    (id : Text) (c : FilesDb)
    → Working c
    → (find_by_id id c).0 ≡ (elim (by_id id c.tables) [ none ↦ err file_not_found | some r ↦ ok r ])
unfolding find_by_id
find_by_id-answer id c h = ground arith

pub by_id-In :
    (id : Text) (rows : List FileRecord) (r : FileRecord)
    → by_id id rows ≡ some r
    → In r rows × (r.id ≡ id)
by_id-In id [] r e = absurd (ground arith)
by_id-In id (q ∷ rows) r e = elim (Bool-cases (same q.id id)) [
  | inl t ↦
      let k : some q ≡ some r = rw t at e in
      (inl (ground arith), ground (arith, (same_iff q.id id).0 t))
  | inr f ↦ let (i, n) = by_id-In id rows r (rw f at e) in (inr i, n)
]

pub by_id-eq-none : (id : Text) (rows : List FileRecord) → by_id id (delete_row id rows).1 ≡ none
by_id-eq-none id [] = refl
by_id-eq-none id (q ∷ rows) = elim (Bool-cases (same q.id id)) [
  | inl t ↦ rw t (by_id-eq-none id rows)
  | inr f ↦ rw (f, f) (by_id-eq-none id rows)
]

-- A deletion that reports no error, or that there was no such row, has left the rows of other
-- identifiers, and no row of this one.
abbrev pub Deletes : Text → FilesDb → Result Error (Unit {0}) × FilesDb → Type 0
Deletes id c (ok u, d) = d.tables ≡ (delete_row id c.tables).1
Deletes id c (err file_not_found, d) = d.tables ≡ (delete_row id c.tables).1
Deletes id c (err e, d) = (d.tables ≡ c.tables) ⊎ (d.tables ≡ (delete_row id c.tables).1)

pub delete_by_id-Deletes : (id : Text) (c : FilesDb) → Deletes id c (delete_by_id id c)
unfolding delete_by_id
delete_by_id-Deletes id c = ground arith

pub delete_by_id-answer :
    (id : Text) (c : FilesDb)
    → Working c
    → (delete_by_id id c).0 ≡ (if any (has_id id) c.tables then ok tt else err file_not_found)
unfolding delete_by_id
delete_by_id-answer id c h = ground arith

pub delete_by_id-rows :
    (id : Text) (c : FilesDb)
    → ((delete_by_id id c).1.tables ≡ c.tables)
      ⊎ ((delete_by_id id c).1.tables ≡ (delete_row id c.tables).1)
unfolding delete_by_id
delete_by_id-rows id c = ground arith

-- A row of another identifier stays.
pub In-delete_row :
    (id : Text) (rows : List FileRecord) (q : FileRecord)
    → q.id ≢ id
    → In q rows
    → In q (delete_row id rows).1
In-delete_row id rows q ne i =
    In-filter (λ r. not (same r.id id)) q rows i (ground (arith, (same_iff q.id id).0))

pub In-delete_by_id :
    (id : Text) (c : FilesDb) (q : FileRecord)
    → q.id ≢ id
    → In q c.tables
    → In q (delete_by_id id c).1.tables
In-delete_by_id id c q ne i = elim (delete_by_id-rows id c) [
  | inl e ↦ rw e i
  | inr e ↦ rw e (In-delete_row id c.tables q ne i)
]

pub find_expired-tables :
    (locked : FileRecord → Bool) (now : Time) (limit : ℕ) (c : FilesDb)
    → (find_expired locked now limit c).1.tables ≡ c.tables
unfolding find_expired
find_expired-tables locked now limit c = ground arith
