-- ===== src/Admin/Keys/Revoked.antt =====
-- What the operations on the API keys do to a key that is revoked.
use tempcdn.Prelude.{
  ◌≡◌, ◌≢◌, ◌⊎◌, ◌∙◌, sym, inl, inr, refl, Bool, true, false, Bool-cases, not, ◌&&◌, Option, some,
  none, List, [], ◌∷◌, ◌++◌, arith, ap, if◌then◌else◌,
}
use tempcdn.Text.{Text, same, is_empty, trim_space}
use tempcdn.Text.Laws.{same_iff}
use tempcdn.Action.{Result, ok, err, Action, pure, raise, wrap, ◌>>=◌}
use tempcdn.Action.Keeps.{if-keeps, bind-keeps, wrap-eq-ok}
use tempcdn.IdGen.{hash_api_key, new_api_key}
use tempcdn.Metadata.Model.{Time, stored_time, ApiKey, is_revoked, Error}
use tempcdn.Metadata.Sql.{first_where, update_where}
use tempcdn.Metadata.Sql.Updates.{first_where-append, first_where-update_where}
use tempcdn.Metadata.Tables.{AdminDb}
use tempcdn.Metadata.ApiKeys.{
  has_hash, stored_key, revoked_at_time, insert_api_key, find_api_key_by_token_hash, touch_api_key,
  revoke_api_key,
}
use tempcdn.Admin.Model.{AdminError, Platform, repository, empty_key_name, api_key_invalid}
use tempcdn.Admin.Keys.{
  CreateApiKeyResult, new_key_record, store_key, create_api_key, revoke_key, after_key,
  verify_api_key,
}
use tempcdn.Admin.Keys.Valid.{revoke_api_key-eq-ok, verify_api_key-IsLive}

-- The first row with the hash is revoked.
pub record IsOut (hash : Text) (rows : List ApiKey) : Type 0 where
  pub row : ApiKey
  pub stored : first_where (has_hash hash) rows ≡ some row
  pub revoked : is_revoked row ≡ true

-- What may become of the rows of the table.
pub data Changes (rows : List ApiKey) : List ApiKey → Type 0 where
  kept : Changes rows rows
  added : (k : ApiKey) → Changes rows (rows ++ k ∷ [])
  changed :
      (at : ApiKey → Bool) (change : ApiKey → ApiKey)
      → ((hash : Text) (k : ApiKey) → has_hash hash (change k) ≡ has_hash hash k)
      → ((k : ApiKey) → is_revoked k ≡ true → is_revoked (change k) ≡ true)
      → Changes rows (update_where at change rows)

pub Changes-IsOut :
    (hash : Text) (rows after : List ApiKey)
    → Changes rows after
    → IsOut hash rows
    → IsOut hash after
Changes-IsOut hash rows _ kept o = o
Changes-IsOut hash rows _ (added k) o = record {
  row = o.row;
  stored = first_where-append (has_hash hash) rows o.row k o.stored;
  revoked = o.revoked;
}
Changes-IsOut hash rows _ (changed at change same_hash stays) o = record {
  row = if at o.row then change o.row else o.row;
  stored = first_where-update_where (has_hash hash) at change rows o.row (same_hash hash) o.stored;
  revoked = elim (Bool-cases (at o.row)) [
    | inl e ↦ rw e (stays o.row o.revoked)
    | inr e ↦ rw e o.revoked
  ];
}

-- What an operation does to the rows, by its state before and after.
abbrev pub KeysMove : AdminDb → AdminDb → Type 0
KeysMove c d = Changes c.tables.api_keys d.tables.api_keys

module _ (p : Platform) where
  insert_api_key-cases :
      (k : ApiKey) (c : AdminDb)
      → ((insert_api_key k c).1.tables.api_keys ≡ c.tables.api_keys)
        ⊎ ((insert_api_key k c).1.tables.api_keys ≡ c.tables.api_keys ++ stored_key k ∷ [])
  unfolding insert_api_key
  insert_api_key-cases k c = ground arith

  insert_api_key-KeysMove : (k : ApiKey) (c : AdminDb) → KeysMove c (insert_api_key k c).1
  insert_api_key-KeysMove k c = elim (insert_api_key-cases k c) [
    | inl s ↦ rw s kept
    | inr a ↦ rw a (added (stored_key k))
  ]

  store_key-KeysMove :
      (id name : Text) (key : Option Text) (now : Time) (c : AdminDb)
      → KeysMove c (store_key p id name key now c).1
  unfolding store_key
  store_key-KeysMove id name none now c = kept
  store_key-KeysMove id name (some key) now c =
      let k : ApiKey = new_key_record p id name key now in
      let made : CreateApiKeyResult = record { key = key; key_record = k } in
      bind-keeps (KeysMove c) (wrap repository (insert_api_key k)) (λ _. pure made) c
        (insert_api_key-KeysMove k c) (λ a e. insert_api_key-KeysMove k c)

  pub create_api_key-KeysMove :
      (name : Text) (random : Option Text) (id : Text) (now : Time) (c : AdminDb)
      → KeysMove c (create_api_key p name random id now c).1
  unfolding create_api_key
  create_api_key-KeysMove name random id now c =
      if-keeps (KeysMove c) (is_empty (trim_space name)) (raise empty_key_name)
        (store_key p id (trim_space name) (new_api_key random) now) c kept
        (store_key-KeysMove id (trim_space name) (new_api_key random) now c)

  revoke_api_key-cases :
      (id : Text) (now : Time) (c : AdminDb)
      → ((revoke_api_key id now c).1.tables.api_keys ≡ c.tables.api_keys)
        ⊎ ((revoke_api_key id now c).1.tables.api_keys
            ≡ update_where
                (λ k. same k.id id && not (is_revoked k))
                (revoked_at_time now)
                c.tables.api_keys)
  unfolding revoke_api_key
  revoke_api_key-cases id now c = ground arith

  pub revoke_key-KeysMove :
      (id : Text) (now : Time) (c : AdminDb) → KeysMove c (revoke_key p id now c).1
  unfolding revoke_key is_revoked
  revoke_key-KeysMove id now c = elim (revoke_api_key-cases id now c) [
    | inl s ↦ rw s kept
    | inr u ↦ rw u (changed _ (revoked_at_time now) (λ h k. refl) (λ k r. refl))
  ]

  touch_api_key-cases :
      (id : Text) (now : Time) (c : AdminDb)
      → ((touch_api_key id now c).1.tables.api_keys ≡ c.tables.api_keys)
        ⊎ ((touch_api_key id now c).1.tables.api_keys
            ≡ update_where
                (λ k. same k.id id)
                (λ k. record k { last_used_at = some (stored_time now) })
                c.tables.api_keys)
  unfolding touch_api_key
  touch_api_key-cases id now c = ground arith

  touch_api_key-KeysMove :
      (id : Text) (now : Time) (c : AdminDb) → KeysMove c (touch_api_key id now c).1
  unfolding is_revoked
  touch_api_key-KeysMove id now c = elim (touch_api_key-cases id now c) [
    | inl s ↦ rw s kept
    | inr u ↦ rw u (
        changed _ (λ k. record k { last_used_at = some (stored_time now) }) (λ h k. refl)
          (λ k r. r))
  ]

  find-tables :
      (hash : Text) (c : AdminDb) → (find_api_key_by_token_hash hash c).1.tables ≡ c.tables
  unfolding find_api_key_by_token_hash
  find-tables hash c = ground arith

  after_key-err :
      (now : Time) (e : Error) (c : AdminDb)
      → (after_key p now (err e) c).1.tables.api_keys ≡ c.tables.api_keys
  unfolding after_key
  after_key-err now e c = ground arith

  after_key-KeysMove :
      (now : Time) (x : Result Error ApiKey) (c : AdminDb) → KeysMove c (after_key p now x c).1
  unfolding after_key
  after_key-KeysMove now (ok k) c =
      let touch : Action AdminDb AdminError (Unit {0}) = wrap repository (touch_api_key k.id now) in
      if-keeps (KeysMove c) (is_revoked k) (raise api_key_invalid) (touch >>= λ _. pure k) c kept (
        bind-keeps (KeysMove c) touch (λ _. pure k) c (touch_api_key-KeysMove k.id now c)
          (λ a e. touch_api_key-KeysMove k.id now c))
  after_key-KeysMove now (err e) c = rw (after_key-err now e c) kept

  pub verify_api_key-KeysMove :
      (key : Text) (now : Time) (c : AdminDb) → KeysMove c (verify_api_key p key now c).1
  unfolding verify_api_key
  verify_api_key-KeysMove [] now c = kept
  verify_api_key-KeysMove (s ∷ key) now c =
      let found = find_api_key_by_token_hash (hash_api_key p.sha256_hex (s ∷ key)) c in
      let same_rows : found.1.tables.api_keys ≡ c.tables.api_keys =
        ap (λ t. t.api_keys) (find-tables (hash_api_key p.sha256_hex (s ∷ key)) c) in
      rw same_rows at (after_key-KeysMove now found.0 found.1)

  -- A revocation that reported no error leaves a row of the revoked key that is revoked.
  pub revoke_key-IsOut :
      (hash id : Text) (now : Time) (c : AdminDb) (u : Unit {0}) (k : ApiKey)
      → first_where (has_hash hash) c.tables.api_keys ≡ some k
      → k.id ≡ id
      → (revoke_key p id now c).0 ≡ ok u
      → IsOut hash (revoke_key p id now c).1.tables.api_keys
  unfolding revoke_key is_revoked
  revoke_key-IsOut hash id now c u k s i h =
      let at : ApiKey → Bool = λ j. same j.id id && not (is_revoked j) in
      let t : same k.id id ≡ true = (same_iff k.id id).1 i in
      let rows =
        revoke_api_key-eq-ok id now c u (wrap-eq-ok repository (revoke_api_key id now) c u h) in
      rw rows (record {
        row = if at k then revoked_at_time now k else k;
        stored =
            first_where-update_where (has_hash hash) at (revoked_at_time now) c.tables.api_keys k
              (λ a. refl) s;
        revoked = elim (Bool-cases (is_revoked k)) [ inl e ↦ rw (t, e) e | inr e ↦ rw (t, e) refl ];
      })

  -- A key whose row is revoked is not accepted.
  pub verify_api_key-refuses :
      (key : Text) (now : Time) (c : AdminDb) (r : ApiKey)
      → IsOut (hash_api_key p.sha256_hex key) c.tables.api_keys
      → (verify_api_key p key now c).0 ≢ ok r
  verify_api_key-refuses key now c r o e =
      let l = verify_api_key-IsLive p key now c r e in
      let same_row : some o.row ≡ some r = sym o.stored ∙ l.stored in
      let live : is_revoked r ≡ false = l.not_revoked in
      let out : is_revoked o.row ≡ true = o.revoked in ground arith
