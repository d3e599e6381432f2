-- ===== src/Sweeper/Counts.antt =====
-- How many expired rows are left where some are removed, and which the search returns.
use tempcdn.Prelude.{
  ℕ, suc, ◌≤◌, ◌<◌, ◌≡◌, refl, ap, ◌∙◌, sym, Bool, true, false, not, List, [], ◌∷◌, In, In-filter,
  In-of_filter, In-of_take, All-In, ◌&&◌, ◌⊎◌, inl, inr, length, filter, take, leb, arith,
  Bool-cases,
}
use tempcdn.Text.{same}
use tempcdn.Text.Laws.{same_refl}
use tempcdn.Metadata.Model.{Time, FileRecord}
use tempcdn.Metadata.Sql.{order_by}
use tempcdn.Metadata.Sql.Order.{IsSorted, order_by-IsSorted, In-order_by, In-of_order_by}
use tempcdn.Metadata.Files.{expires_first, expired_rows}
use tempcdn.Sweeper.{batch_size}

-- The number of rows that have expired at a time.
abbrev pub expired_count : Time → List FileRecord → ℕ
expired_count t rows = length (filter (λ r. leb r.expires_at t) rows)

expired_count-filter :
    (t : Time) (p : FileRecord → Bool) (rows : List FileRecord)
    → expired_count t (filter p rows) ≤ expired_count t rows
expired_count-filter t p [] = omega arith
expired_count-filter t p (r ∷ rows) = ground (arith, expired_count-filter t p rows)

-- Fewer where an expired row is left out.
expired_count-filter_lt :
    (t : Time) (p : FileRecord → Bool) (q : FileRecord) (rows : List FileRecord)
    → In q rows
    → leb q.expires_at t ≡ true
    → p q ≡ false
    → expired_count t (filter p rows) < expired_count t rows
expired_count-filter_lt t p q [] i old out = elim i [ ]
expired_count-filter_lt t p q (r ∷ rows) (inl e) old out =
    let o : leb r.expires_at t ≡ true = ap (λ x. leb x.expires_at t) (sym e) ∙ old in
    let x : p r ≡ false = ap p (sym e) ∙ out in
    rw (o, x) (ground (arith, expired_count-filter t p rows))
expired_count-filter_lt t p q (r ∷ rows) (inr i) old out =
    ground (arith, expired_count-filter_lt t p q rows i old out)

abbrev pub without : FileRecord → List FileRecord → List FileRecord
without r rows = filter (λ x. not (same x.id r.id)) rows

abbrev pub without_all : List FileRecord → List FileRecord → List FileRecord
without_all [] rows = rows
without_all (r ∷ rs) rows = without_all rs (without r rows)

pub expired_count-without_all :
    (t : Time) (rs rows : List FileRecord)
    → expired_count t (without_all rs rows) ≤ expired_count t rows
expired_count-without_all t [] rows = omega arith
expired_count-without_all t (r ∷ rs) rows = omega (
  arith,
  expired_count-without_all t rs (without r rows),
  expired_count-filter t (λ x. not (same x.id r.id)) rows,
)

pub expired_count-without_all_lt :
    (t : Time) (q : FileRecord) (rs rows : List FileRecord)
    → In q rows
    → In q rs
    → leb q.expires_at t ≡ true
    → expired_count t (without_all rs rows) < expired_count t rows
expired_count-without_all_lt t q [] rows i j old = elim j [ ]
expired_count-without_all_lt t q (r ∷ rs) rows i j old = elim (Bool-cases (same q.id r.id)) [
  | inl e ↦ omega (
    arith,
    expired_count-without_all t rs (without r rows),
    expired_count-filter_lt t (λ x. not (same x.id r.id)) q rows i old (rw e refl),
  )
  | inr e ↦ omega (
    arith,
    expired_count-without_all_lt t q rs (without r rows)
        (In-filter (λ x. not (same x.id r.id)) q rows i (rw e refl)) (later e j) old,
    expired_count-filter t (λ x. not (same x.id r.id)) rows,
  )
]
  where
    later : same q.id r.id ≡ false → (q ≡ r) ⊎ In q rs → In q rs
    later e (inl x) = absurd (ground (arith, e, ap (λ y. same y.id r.id) x, same_refl r.id))
    later e (inr k) = k

head-reaches :
    (t : Time) (n : ℕ) (l : List FileRecord) (q : FileRecord)
    → IsSorted expires_first l
    → In q l
    → leb q.expires_at t ≡ true
    → (r : FileRecord) × In r (take (suc n) l) × (leb r.expires_at t ≡ true)
head-reaches t n [] q sorted i old = elim i [ ]
head-reaches t n (h ∷ l) q sorted (inl e) old =
    (h, inl refl, ap (λ x. leb x.expires_at t) (sym e) ∙ old)
head-reaches t n (h ∷ l) q sorted (inr i) old =
    let before_q : leb h.expires_at q.expires_at ≡ true =
      All-In (λ x. expires_first h x ≡ true) q l sorted.0 i in
    (h, inl refl, ground (arith, before_q, old))

-- Where an unlocked row has expired at a time, the batch of a pass that is no earlier has a row of the
-- table that has expired at that time.
pub batch-reaches :
    (locked : FileRecord → Bool) (t now : Time) (rows : List FileRecord) (q : FileRecord)
    → t ≤ now
    → In q rows
    → leb q.expires_at t ≡ true
    → locked q ≡ false
    → (r : FileRecord) × In r rows
      × In r (expired_rows locked now batch_size rows)
      × (leb r.expires_at t ≡ true)
unfolding expired_rows
batch-reaches locked t now rows q le i old free =
    let (r, j, e) =
      head-reaches t 99 ordered q sorted
        (In-order_by expires_first q (filter test rows)
          (In-filter test q rows i (ground (arith, old, free))))
        old in
    (
      r,
      (In-of_filter test r rows
          (In-of_order_by expires_first r (filter test rows) (In-of_take 100 ordered r j))).0,
      j,
      e,
    )
  where
    test : FileRecord → Bool
    test r = leb r.expires_at now && not (locked r)

    ordered : List FileRecord
    ordered = order_by expires_first (filter test rows)

    sorted : IsSorted expires_first ordered
    sorted =
        order_by-IsSorted expires_first (λ a b h. ground arith) (λ a b c h k. ground arith)
          (filter test rows)

pub expired_count-zero :
    (t : Time) (rows : List FileRecord) (q : FileRecord)
    → expired_count t rows ≡ 0
    → In q rows
    → t < q.expires_at
expired_count-zero t [] q h i = elim i [ ]
expired_count-zero t (r ∷ rows) q h (inl e) = rw e (ground (arith, h))
expired_count-zero t (r ∷ rows) q h (inr i) = expired_count-zero t rows q (ground (arith, h)) i

pub expired_count-some :
    (t : Time) (rows : List FileRecord)
    → (expired_count t rows ≡ 0) ⊎ ((q : FileRecord) × In q rows × (leb q.expires_at t ≡ true))
expired_count-some t [] = inl refl
expired_count-some t (r ∷ rows) = elim (Bool-cases (leb r.expires_at t)) [
  | inl e ↦ inr (r, inl refl, e)
  | inr e ↦ elim (expired_count-some t rows) [
    | inl z ↦ inl (rw e z)
    | inr (q, i, old) ↦ inr (q, inr i, old)
  ]
]
