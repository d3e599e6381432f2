-- ===== src/Metadata/Migrate/Again.antt =====
-- A further run of the migrations.
use mathlib.Core.List.{append_assoc, append-nil}
use tempcdn.Prelude.{
  ◌≡◌, refl, sym, ap, ◌∙◌, Bool, true, Option, none, some, List, [], ◌∷◌, ◌++◌, arith, Bool-cases,
  inl, inr,
}
use tempcdn.Text.{Text}
use tempcdn.Text.Laws.{same_refl}
use tempcdn.Action.{ok}
use tempcdn.Metadata.Conn.{Conn}
use tempcdn.Metadata.Migrate.{Committed, Schema, sort_names, file_names, has_name, migrate}
use tempcdn.Metadata.Migrate.Transaction.{with_file}
use tempcdn.Metadata.Migrate.Applies.{to_apply, apply_all, Applies, migrate-Applies}

has_name-append_left :
    (name : Text) (xs ys : List Text) → has_name name xs ≡ true → has_name name (xs ++ ys) ≡ true
has_name-append_left name [] ys h = absurd (ground arith)
has_name-append_left name (x ∷ xs) ys h = ground (arith, has_name-append_left name xs ys)

has_name-append_here : (name : Text) (xs ys : List Text) → has_name name (xs ++ name ∷ ys) ≡ true
has_name-append_here name [] ys = rw (same_refl name) refl
has_name-append_here name (x ∷ xs) ys = ground (arith, has_name-append_here name xs ys)

-- Nothing is left to apply behind what there was to apply.
to_apply_of_applied :
    (names applied : List Text) → to_apply names (applied ++ to_apply names applied) ≡ []
unfolding to_apply
to_apply_of_applied [] applied = refl
to_apply_of_applied (name ∷ names) applied = elim (Bool-cases (has_name name applied)) [
  | inl h ↦
      rw (h, has_name-append_left name applied (to_apply names applied) h)
        (to_apply_of_applied names applied)
  | inr h ↦
      rw
        (
          h,
          has_name-append_here name applied (to_apply names (applied ++ name ∷ [])),
          ← append_assoc applied (name ∷ []) (to_apply names (applied ++ name ∷ [])),
        )
        (to_apply_of_applied names (applied ++ name ∷ []))
]

append-eq-nil : (xs ys : List Text) → xs ++ ys ≡ [] → xs ≡ []
append-eq-nil [] ys h = refl
append-eq-nil (x ∷ xs) ys h = absurd (ground arith)

module _ {D : Type 0} (apply_sql : Text → D → Option D) (read : Text → Option Text) where
  apply_all-filenames :
      (names : List Text) (k l : Committed D)
      → apply_all apply_sql read names k ≡ some l
      → l.filenames ≡ k.filenames ++ names
  unfolding apply_all
  apply_all-filenames [] k l h =
      ap (λ o. elim o [ none ↦ [] | some x ↦ x.filenames ]) (sym h) ∙ sym (append-nil k.filenames)
  apply_all-filenames (name ∷ names) k l h =
      by_contents (λ d. apply_all-filenames names (with_file name d k) l) (read name) refl
    where
      by_data :
          ((d : D)
            → apply_all apply_sql read names (with_file name d k) ≡ some l
            → l.filenames ≡ (with_file name d k).filenames ++ names)
          → (contents : Text) (o : Option D) → read name ≡ some contents
          → apply_sql contents k.content ≡ o
          → l.filenames ≡ k.filenames ++ name ∷ names
      by_data rec contents none r e = absurd (ground (arith, (rw (apply_all, r, e) at h)))
      by_data rec contents (some d) r e =
          rec d (rw (apply_all, r, e) at h) ∙ append_assoc k.filenames (name ∷ []) names

      by_contents :
          ((d : D)
            → apply_all apply_sql read names (with_file name d k) ≡ some l
            → l.filenames ≡ (with_file name d k).filenames ++ names)
          → (o : Option Text) → read name ≡ o
          → l.filenames ≡ k.filenames ++ name ∷ names
      by_contents rec none r = absurd (ground (arith, (rw (apply_all, r) at h)))
      by_contents rec (some contents) r = by_data rec contents (apply_sql contents k.content) r refl

  unchanged : (k l : Committed D) → apply_all apply_sql read [] k ≡ some l → l ≡ k
  unfolding apply_all
  unchanged k l h = sym (ground arith)

  -- After a run that reported no error a further run, over any connection and however its statements
  -- are answered, commits nothing.
  pub migrate_again :
      (acquired again : Bool) (entries : List (Text × Bool)) (c d : Conn (Schema D))
      → (migrate apply_sql acquired read (some entries) c).0 ≡ ok tt
      → d.tables.committed ≡ (migrate apply_sql acquired read (some entries) c).1.tables.committed
      → (migrate apply_sql again read (some entries) d).1.tables.committed ≡ d.tables.committed
  unfolding Applies
  migrate_again acquired again entries c d h e =
      let (first, rest, a, b, all) = migrate-Applies apply_sql acquired read entries c in
      let (first', rest', a', b', all') = migrate-Applies apply_sql again read entries d in
      let names : List Text = sort_names (file_names entries) in
      let applied : d.tables.committed.filenames
          ≡ c.tables.committed.filenames ++ to_apply names c.tables.committed.filenames =
        ap (λ k. k.filenames) e
        ∙ apply_all-filenames first c.tables.committed
            (migrate apply_sql acquired read (some entries) c).1.tables.committed b
        ∙ ap (λ x. c.tables.committed.filenames ++ x)
            (sym (append-nil first)
              ∙ ap (λ x. first ++ x) (sym (elim all [ inl ne ↦ absurd (ne h) | inr e ↦ e ]))
              ∙ a) in
      let none_first : first' ≡ [] = append-eq-nil first' rest' (
        a'
        ∙ ap (to_apply names) applied
        ∙ to_apply_of_applied names c.tables.committed.filenames) in
      unchanged d.tables.committed
        (migrate apply_sql again read (some entries) d).1.tables.committed
        (ap (λ x. apply_all apply_sql read x d.tables.committed) (sym none_first) ∙ b')
