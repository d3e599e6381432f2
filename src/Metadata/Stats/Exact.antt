-- ===== src/Metadata/Stats/Exact.antt =====
-- What the statistics say of the table.
use tempcdn.Prelude.{
  ℕ, ◌+◌, ◌≡◌, refl, sym, ap, ◌∙◌, Bool, List, [], ◌∷◌, length, filter, arith, if◌then◌else◌,
}
use tempcdn.Text.{Text, same}
use tempcdn.Text.Laws.{same_iff}
use tempcdn.Action.{Action, ok, pure, wrap, ◌>>=◌}
use tempcdn.Action.Keeps.{bind-eq-ok}
use tempcdn.Metadata.Model.{Time, FileRecord, Error, database}
use tempcdn.Metadata.Conn.{query, run}
use tempcdn.Metadata.Files.{FilesDb}
use tempcdn.Metadata.Stats.{
  Counts, summary_of, add_count, count_of, top_level_mime_type, Stats, total_size, active_rows,
  by_content_type, breakdown, stats,
}

abbrev counted : Bool → ℕ → ℕ
counted b n = if b then n else 0

count_of-add_count :
    (key k : Text) (n : ℕ) (counts : Counts)
    → count_of key (add_count k n counts) ≡ count_of key counts + counted (same key k) n
unfolding count_of add_count
count_of-add_count key k n [] = ground arith
count_of-add_count key k n ((l, m) ∷ counts) =
    ground (arith, same_iff k l, same_iff key l, same_iff key k, count_of-add_count key k n counts)

-- The number of the groups' rows whose top-level type is the key.
abbrev of_top_level : Text → Counts → ℕ
of_top_level key [] = 0
of_top_level key ((t, n) ∷ groups) =
    counted (same key (top_level_mime_type t)) n + of_top_level key groups

count_of-breakdown :
    (key : Text) (groups counts : Counts)
    → count_of key (breakdown groups counts) ≡ count_of key counts + of_top_level key groups
unfolding breakdown
count_of-breakdown key [] counts = omega arith
count_of-breakdown key ((t, n) ∷ groups) counts = omega (
  arith,
  count_of-breakdown key groups (add_count (top_level_mime_type t) n counts),
  count_of-add_count key (top_level_mime_type t) n counts,
)

count_of-groups :
    (key : Text) (groups : Counts) → count_of key (breakdown groups []) ≡ of_top_level key groups
unfolding count_of
count_of-groups key groups = omega (arith, count_of-breakdown key groups [])

of_top_level-add_count :
    (key t : Text) (n : ℕ) (groups : Counts)
    → of_top_level key (add_count t n groups)
      ≡ counted (same key (top_level_mime_type t)) n + of_top_level key groups
unfolding add_count
of_top_level-add_count key t n [] = refl
of_top_level-add_count key t n ((u, m) ∷ groups) =
    ground (arith, same_iff t u, of_top_level-add_count key t n groups)

-- The rows whose content type has this top level.
abbrev pub of_type : Text → List FileRecord → List FileRecord
of_type key rows = filter (λ r. same key (top_level_mime_type r.content_type)) rows

of_top_level-by_content_type :
    (key : Text) (rows : List FileRecord)
    → of_top_level key (by_content_type rows) ≡ length (of_type key rows)
unfolding by_content_type
of_top_level-by_content_type key [] = refl
of_top_level-by_content_type key (r ∷ rows) = ground (
  arith,
  of_top_level-add_count key r.content_type 1 (by_content_type rows),
  of_top_level-by_content_type key rows,
)

query-eq-ok :
    {A : Type 0} (f : List FileRecord → A) (c : FilesDb) (a : A)
    → (wrap database (query f) c).0 ≡ ok a
    → (a ≡ f c.tables) × ((wrap database (query f) c).1.tables ≡ c.tables)
unfolding query run
query-eq-ok f c a h = ground arith

-- Statistics that are reported are exact for the rows that have not expired: their number, the sum of
-- their sizes, and for every top-level content type the number of the rows that have it, if the table
-- does not change between the two queries.
pub stats-eq-ok :
    (now : Time) (c : FilesDb) (s : Stats)
    → (stats now c).0 ≡ ok s
    → (s.active_file_count ≡ length (active_rows now c.tables))
      × (s.active_bytes ≡ total_size (active_rows now c.tables))
      × ((key : Text)
          → count_of key s.content_type_breakdown ≡ length (of_type key (active_rows now c.tables)))
unfolding stats count_of
stats-eq-ok now c s h =
    let m : Action FilesDb Error (ℕ × ℕ) =
      wrap database (query (λ rows. summary_of (active_rows now rows))) in
    let n : Action FilesDb Error Counts =
      wrap database (query (λ rows. by_content_type (active_rows now rows))) in
    let made : ℕ × ℕ → Counts → Stats = λ summary groups. record {
      active_file_count = summary.0;
      active_bytes = summary.1;
      content_type_breakdown = breakdown groups [];
    } in
    let rest : ℕ × ℕ → Action FilesDb Error Stats =
      λ summary. n >>= λ groups. pure (made summary groups) in
    let (summary, got, h2) = bind-eq-ok m rest c s h in
    let (e, same_tables) = query-eq-ok (λ rows. summary_of (active_rows now rows)) c summary got in
    let (groups, grouped, h3) = bind-eq-ok n (λ groups. pure (made summary groups)) (m c).1 s h2 in
    let (e2, _) =
      query-eq-ok (λ rows. by_content_type (active_rows now rows)) (m c).1 groups grouped in
    let is : made summary groups ≡ s = ground arith in
    (
      ap (λ x. x.active_file_count) (sym is) ∙ ap (λ x. x.0) e,
      ap (λ x. x.active_bytes) (sym is) ∙ ap (λ x. x.1) e,
      λ key.
          ap (λ x. count_of key x.content_type_breakdown) (sym is)
          ∙ count_of-groups key groups
          ∙ ap (of_top_level key) (e2 ∙ ap (λ t. by_content_type (active_rows now t)) same_tables)
          ∙ of_top_level-by_content_type key (active_rows now c.tables),
    )
