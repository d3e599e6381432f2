-- ===== src/Sweeper/Objects.antt =====
-- What a pass of the sweeper does to the objects.
use tempcdn.Prelude.{
  ◌≤◌, ◌≡◌, ◌⊎◌, inl, inr, refl, ap, ◌∙◌, Bool, false, not, ◌&&◌, Option, none, some, List, [], ◌∷◌,
  arith, All, All-map, In, Bool-cases, if-rule,
}
use tempcdn.Text.{Text, same}
use tempcdn.Text.Laws.{same_iff}
use tempcdn.Metadata.Model.{Time, FileRecord, Cause}
use tempcdn.Metadata.Files.{find_expired, delete_by_id}
use tempcdn.Metadata.Files.Effects.{In-delete_by_id, find_expired-tables}
use tempcdn.Metadata.Files.Search.{find_expired-IsExpiredBatch}
use tempcdn.File.Service.{Platform, World}
use tempcdn.Sweeper.{
  Progress, after_object, sweep_one, sweep_loop, purge_all, sweep_once, batch_size, is_nil,
}
use tempcdn.Sweeper.Rows.{IsKeyed, after_search-rule, after_row-world}

module _ {S : Type 0} (p : Platform S) where
  -- The row stands in the table, or its object is gone.
  abbrev pub IsAccountedFor : World S → FileRecord → Type 0
  IsAccountedFor w q = In q w.files.tables ⊎ (p.objects.object w.storage q.object_key ≡ none)

  -- A delete never brings an object back.
  delete_object-none :
      (j k : Text) (s : S)
      → p.objects.object s k ≡ none
      → p.objects.object (p.objects.delete_object j s).1 k ≡ none
  delete_object-none j k s h = elim (Bool-cases (same k j)) [
    | inl e ↦
        let k_is_j = (same_iff k j).0 e in
        elim (p.objects.object-delete_cases j s) [
          | inl kept ↦ rw k_is_j (kept ∙ rw k_is_j at h)
          | inr gone ↦ rw k_is_j gone
        ]
    | inr e ↦
        p.objects.object-delete_ne j s k (λ q. absurd (ground (arith, (same_iff k j).1 q))) ∙ h
  ]

  after_object-accounts :
      (r q : FileRecord) (failure : Option Cause) (g : Progress S)
      → (failure ≡ none → p.objects.object g.world.storage r.object_key ≡ none)
      → (q.id ≡ r.id → q ≡ r)
      → IsAccountedFor g.world q
      → IsAccountedFor (after_object p r failure g).world q
  unfolding after_object
  after_object-accounts r q (some e) g h k a = a
  after_object-accounts r q none g h k (inr gone) =
      rw (after_row-world p r (delete_by_id r.id g.world.files).0 _) (inr gone)
  after_object-accounts r q none g h k (inl i) =
      rw (after_row-world p r (delete_by_id r.id g.world.files).0 _)
        (elim (Bool-cases (same q.id r.id)) [
          | inl e ↦ inr (
              ap (λ x. p.objects.object g.world.storage x.object_key) (k ((same_iff q.id r.id).0 e))
              ∙ h refl)
          | inr e ↦ inl (
              In-delete_by_id r.id g.world.files q
                (λ x. absurd (ground (arith, (same_iff q.id r.id).1 x))) i)
        ])

  sweep_loop-accounts :
      (rs : List FileRecord) (q : FileRecord) (g : Progress S)
      → All (λ r. q.id ≡ r.id → q ≡ r) rs
      → IsAccountedFor g.world q
      → IsAccountedFor (sweep_loop p rs g).world q
  unfolding sweep_loop sweep_one
  sweep_loop-accounts [] q g k a = a
  sweep_loop-accounts (r ∷ rs) q g k a =
      let d = p.objects.delete_object r.object_key g.world.storage in
      let g₁ : Progress S = record {
        urls_to_purge = g.urls_to_purge;
        deleted_count = g.deleted_count;
        world = record { files = g.world.files; storage = d.1; purges = g.world.purges };
      } in
      sweep_loop-accounts rs q (sweep_one p r g) k.1 (
        after_object-accounts r q d.0 g₁ (p.objects.object-delete r.object_key g.world.storage) k.0
          (elim a [
            | inl i ↦ inl i
            | inr gone ↦ inr (delete_object-none r.object_key q.object_key g.world.storage gone)
          ]))

  purge_all-accounts :
      (g : Progress S) (q : FileRecord)
      → IsAccountedFor g.world q
      → IsAccountedFor (purge_all p g) q
  unfolding purge_all
  purge_all-accounts g q a =
      if-rule (λ v. IsAccountedFor v q)
        (p.cache_purge_on && p.has_purger && not (is_nil g.urls_to_purge)) a a

  -- A pass loses track of no object: each row that stood in the table still stands there, or its
  -- object is gone, however the database and the object store answer.
  pub sweep_once-accounts :
      (locked : FileRecord → Bool) (now : Time) (w : World S) (q : FileRecord)
      → IsKeyed w.files.tables
      → In q w.files.tables
      → IsAccountedFor (sweep_once p locked now w) q
  unfolding sweep_once
  sweep_once-accounts locked now w q keyed i =
      let c = find_expired locked now batch_size w.files in
      let w₁ : World S = record { files = c.1; storage = w.storage; purges = w.purges } in
      let i₁ : In q w₁.files.tables = rw (find_expired-tables locked now batch_size w.files) i in
      after_search-rule p (λ v. IsAccountedFor v q) w₁ c.0 (inl i₁)
        (λ rs e.
          let b = find_expired-IsExpiredBatch locked now batch_size w.files rs e in
          sweep_loop-accounts rs q _
            (All-map (λ r. In r w.files.tables × (r.expires_at ≤ now) × (locked r ≡ false))
              (λ r. q.id ≡ r.id → q ≡ r) (λ r h. keyed q r i h.0) rs b.expired)
            (inl i₁))
        (λ g h. purge_all-accounts g q h)
