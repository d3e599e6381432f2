-- ===== src/Admin/Keys/Valid.antt =====
-- When an API key is accepted: from its creation to its revocation.
use tempcdn.Prelude.{
  ℕ, ◌≡◌, ◌≢◌, ◌∙◌, sym, ap, refl, Bool, true, false, not, ◌&&◌, ◌||◌, Option, none, some, List, [],
  ◌∷◌, ◌++◌, arith, inl, inr, Bool-cases, any, if◌then◌else◌,
}
use mathlib.Core.Path.{subst}
use tempcdn.Text.{Text, lit, same, is_empty, trim_space}
use tempcdn.Text.Laws.{same_iff, same_refl}
use tempcdn.Action.{Result, ok, Action, wrap, pure}
use tempcdn.Action.Keeps.{bind-eq-ok, bind_of_ok, wrap_of_ok, wrap-eq-ok}
use tempcdn.IdGen.{hash_api_key}
use tempcdn.Metadata.Model.{Time, ApiKey, is_revoked, Error}
use tempcdn.Metadata.Sql.{first_where, update_where}
use tempcdn.Metadata.Tables.{AdminDb}
use tempcdn.Metadata.ApiKeys.{
  has_hash, stored_key, revoked_at_time, insert_api_key, find_api_key_by_token_hash, touch_api_key,
  revoke_api_key,
}
use tempcdn.Metadata.Admins.Effects.{Working, first_where_append}
use tempcdn.Admin.Model.{AdminError, repository, Platform}
use tempcdn.Admin.Keys.{
  CreateApiKeyResult, new_key_record, store_key, create_api_key, revoke_key, after_key,
  verify_api_key,
}

find_answer :
    (h : Text) (c : AdminDb) (k : ApiKey)
    → (find_api_key_by_token_hash h c).0 ≡ ok k
    → first_where (has_hash h) c.tables.api_keys ≡ some k
unfolding find_api_key_by_token_hash
find_answer h c k e = ground arith

find_of_some :
    (h : Text) (c : AdminDb) (k : ApiKey)
    → Working c
    → first_where (has_hash h) c.tables.api_keys ≡ some k
    → (find_api_key_by_token_hash h c).0 ≡ ok k
unfolding find_api_key_by_token_hash
find_of_some h c k w e = ground arith

find-Working : (h : Text) (c : AdminDb) → Working c → Working (find_api_key_by_token_hash h c).1
unfolding find_api_key_by_token_hash
find-Working h c w = ground arith

touch_of_Working :
    (id : Text) (now : Time) (c : AdminDb) → Working c → (touch_api_key id now c).0 ≡ ok tt
unfolding touch_api_key
touch_of_Working id now c w = ground arith

insert_api_key-eq-ok :
    (k : ApiKey) (c : AdminDb) (u : Unit {0})
    → (insert_api_key k c).0 ≡ ok u
    → ((insert_api_key k c).1.tables.api_keys ≡ c.tables.api_keys ++ stored_key k ∷ [])
      × (any (λ j. same j.id k.id || same j.token_hash k.token_hash) c.tables.api_keys ≡ false)
unfolding insert_api_key
insert_api_key-eq-ok k c u h = ground arith

pub revoke_api_key-eq-ok :
    (id : Text) (now : Time) (c : AdminDb) (u : Unit {0})
    → (revoke_api_key id now c).0 ≡ ok u
    → (revoke_api_key id now c).1.tables.api_keys
      ≡ update_where
          (λ k. same k.id id && not (is_revoked k))
          (revoked_at_time now)
          c.tables.api_keys
unfolding revoke_api_key
revoke_api_key-eq-ok id now c u h = ground arith

no_hash :
    (k : ApiKey) (rows : List ApiKey)
    → any (λ j. same j.id k.id || same j.token_hash k.token_hash) rows ≡ false
    → any (has_hash k.token_hash) rows ≡ false
no_hash k [] h = refl
no_hash k (q ∷ rows) h = ground (arith, no_hash k rows)

-- The row that a search finds after a change that keeps what is searched for.
first_where-update_where :
    {A : Type 0} (test at : A → Bool) (change : A → A) (rows : List A) (x : A)
    → ((a : A) → test (change a) ≡ test a)
    → first_where test (update_where at change rows) ≡ some x
    → (y : A) × (first_where test rows ≡ some y) × (x ≡ (if at y then change y else y))
unfolding first_where update_where
first_where-update_where test at change [] x k h = absurd (ground arith)
first_where-update_where test at change (q ∷ rows) x k h = elim (Bool-cases (test q)) [
  | inl t ↦ elim (Bool-cases (at q)) [
    | inl e ↦
        let g : some (change q) ≡ some x = rw (e, k q, t) at h in
        (q, rw t refl, rw e (ground arith))
    | inr e ↦ let g : some q ≡ some x = rw (e, t) at h in (q, rw t refl, rw e (ground arith))
  ]
  | inr f ↦ elim (Bool-cases (at q)) [
    | inl e ↦
        let (y, a, b) = first_where-update_where test at change rows x k (rw (e, k q, f) at h) in
        (y, rw f a, b)
    | inr e ↦
        let (y, a, b) = first_where-update_where test at change rows x k (rw (e, f) at h) in
        (y, rw f a, b)
  ]
]

module _ (p : Platform) where
  -- The key's row is stored and not revoked.
  pub record IsLive (key : Text) (rows : List ApiKey) (k : ApiKey) : Type 0 where
    pub given : key ≢ []
    pub stored : first_where (has_hash (hash_api_key p.sha256_hex key)) rows ≡ some k
    pub not_revoked : is_revoked k ≡ false

  after_key-eq-ok :
      (now : Time) (x : Result Error ApiKey) (c : AdminDb) (k : ApiKey)
      → (after_key p now x c).0 ≡ ok k
      → (x ≡ ok k) × (is_revoked k ≡ false)
  unfolding after_key touch_api_key
  after_key-eq-ok now x c k h = ground arith

  -- An API key that is accepted has a stored row that is not revoked.
  pub verify_api_key-IsLive :
      (key : Text) (now : Time) (c : AdminDb) (k : ApiKey)
      → (verify_api_key p key now c).0 ≡ ok k
      → IsLive key c.tables.api_keys k
  unfolding verify_api_key
  verify_api_key-IsLive [] now c k h = absurd (ground arith)
  verify_api_key-IsLive (s ∷ key) now c k h =
      let hash = hash_api_key p.sha256_hex (s ∷ key) in
      let (e, n) =
        after_key-eq-ok now (find_api_key_by_token_hash hash c).0
          (find_api_key_by_token_hash hash c).1 k h in
      record { given = λ z. cc; stored = find_answer hash c k e; not_revoked = n }

  verify_api_key_of_IsLive :
      (key : Text) (now : Time) (c : AdminDb) (k : ApiKey)
      → Working c
      → IsLive key c.tables.api_keys k
      → (verify_api_key p key now c).0 ≡ ok k
  unfolding verify_api_key after_key
  verify_api_key_of_IsLive [] now c k w l = absurd (l.given refl)
  verify_api_key_of_IsLive (s ∷ key) now c k w l =
      let hash = hash_api_key p.sha256_hex (s ∷ key) in
      let d = (find_api_key_by_token_hash hash c).1 in
      let live : is_revoked k ≡ false = l.not_revoked in
      rw (find_of_some hash c k w l.stored, live)
        (ap {B = Result AdminError ApiKey} (λ q. q.0)
          (bind_of_ok (wrap repository (touch_api_key k.id now)) (λ _. pure k) d tt
            (wrap_of_ok repository (touch_api_key k.id now) d tt
              (touch_of_Working k.id now d (find-Working hash c w)))))

  -- A key that is stored is not empty, and its row is the only one of its hash.
  store_key-IsLive :
      (id name : Text) (first : ℕ) (key : Text) (now : Time) (c : AdminDb) (r : CreateApiKeyResult)
      → (store_key p id name (some (first ∷ key)) now c).0 ≡ ok r
      → IsLive r.key
          (store_key p id name (some (first ∷ key)) now c).1.tables.api_keys
          (stored_key r.key_record)
  unfolding store_key is_revoked
  store_key-IsLive id name first key now c r h =
      let k = new_key_record p id name (first ∷ key) now in
      let insertion : Action AdminDb AdminError (Unit {0}) = wrap repository (insert_api_key k) in
      let made : CreateApiKeyResult = record { key = first ∷ key; key_record = k } in
      let (u, e, f) = bind-eq-ok insertion (λ _. pure made) c r h in
      let (rows, fresh) =
        insert_api_key-eq-ok k c u (wrap-eq-ok repository (insert_api_key k) c u e) in
      let same_result : made ≡ r = ground arith in
      subst
        (λ q.
          IsLive q.key (store_key p id name (some (first ∷ key)) now c).1.tables.api_keys
            (stored_key q.key_record))
        same_result
        (record {
          given = λ z. cc;
          stored =
              rw
                (
                  ap {B = List ApiKey} (λ q. q.1.tables.api_keys)
                      (bind_of_ok insertion (λ _. pure made) c u e),
                  rows,
                )
                (first_where_append (has_hash k.token_hash) c.tables.api_keys (stored_key k)
                  (no_hash k c.tables.api_keys fresh) (same_refl k.token_hash));
          not_revoked = refl;
        })

  -- An API key is accepted, with the record that its creation reported, its times to the microsecond,
  -- while the table of keys is as the creation left it and the database works.
  pub verify_api_key_of_create :
      (name : Text) (random : Option Text) (id : Text) (now later : Time) (c d : AdminDb)
      (r : CreateApiKeyResult)
      → (create_api_key p name random id now c).0 ≡ ok r
      → Working d
      → d.tables.api_keys ≡ (create_api_key p name random id now c).1.tables.api_keys
      → (verify_api_key p r.key later d).0 ≡ ok (stored_key r.key_record)
  unfolding create_api_key store_key
  verify_api_key_of_create name none id now later c d r h w e =
      elim (Bool-cases (is_empty (trim_space name))) [
        | inl z ↦ absurd (ground arith)
        | inr z ↦ absurd (ground arith)
      ]
  verify_api_key_of_create name (some x) id now later c d r h w e =
      elim (Bool-cases (is_empty (trim_space name))) [
        | inl z ↦ absurd (ground arith)
        | inr z ↦ verify_api_key_of_IsLive r.key later d (stored_key r.key_record) w (
            rw (e, z)
              (store_key-IsLive id (trim_space name) b't' (lit "cdn_" ++ x) now c r (rw z at h)))
      ]

  -- After a revocation that reported no error a key of the revoked row is refused, at whatever time
  -- and however the database answers, while the table of keys is as the revocation left it.
  pub verify_api_key_of_revoke :
      (id key : Text) (now later : Time) (c d : AdminDb) (u : Unit {0}) (k r : ApiKey)
      → first_where (has_hash (hash_api_key p.sha256_hex key)) c.tables.api_keys ≡ some k
      → k.id ≡ id
      → (revoke_key p id now c).0 ≡ ok u
      → d.tables.api_keys ≡ (revoke_key p id now c).1.tables.api_keys
      → (verify_api_key p key later d).0 ≢ ok r
  unfolding revoke_key is_revoked
  verify_api_key_of_revoke id key now later c d u k r s i h e q =
      let l = verify_api_key-IsLive key later d r q in
      let row =
        first_where-update_where (has_hash (hash_api_key p.sha256_hex key))
          (λ k. same k.id id && not (is_revoked k)) (revoked_at_time now) c.tables.api_keys r
          (λ a. refl)
          (rw
            (
              e,
              revoke_api_key-eq-ok id now c u (wrap-eq-ok repository (revoke_api_key id now) c u h),
            )
            at l.stored) in
      let (y, a, b) = row in
      let same_row : some y ≡ some k = sym a ∙ s in
      let t : same k.id id ≡ true = (same_iff k.id id).1 i in
      let n : is_revoked r ≡ false = l.not_revoked in ground arith
