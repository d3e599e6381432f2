-- ===== src/Admin/Handler/Revoked.antt =====
-- What the handlers of the administration do to an API key that is revoked.
use tempcdn.Prelude.{◌≡◌, [], ◌∷◌, inl, inr, refl, Bool-cases, Option, some, none}
use tempcdn.Text.{Text, is_empty, trim_space}
use tempcdn.Action.{Result, ok, err}
use tempcdn.Metadata.Model.{Time, ApiKey, UploadSettings}
use tempcdn.Metadata.Tables.{AdminDb}
use tempcdn.Admin.Model.{AdminError, Platform}
use tempcdn.Admin.Sessions.{Session, verify_session}
use tempcdn.Admin.Keys.{verify_api_key}
use tempcdn.Admin.Keys.Revoked.{
  IsOut, Changes-IsOut, KeysMove, create_api_key-KeysMove, revoke_key-KeysMove,
  verify_api_key-KeysMove,
}
use tempcdn.Admin.Frame.{KeepsAll, verify_session-KeepsAll}
use tempcdn.Admin.Access.{after_verify_key, after_verify_session, verify_api_key_or_admin_session}
use tempcdn.Admin.Handler.{Decoder, State, with_name, handle_create_api_key, handle_revoke_api_key}
use tempcdn.Admin.Handler.Frame.{Keeps}
use tempcdn.Upload.Validator.{Rules}
use tempcdn.Http.{Request}

-- The API keys are left alone.
abbrev pub Leaves : State → State → Type 0
Leaves = Keeps Unit ⊥ Unit Unit Unit

-- A row that is revoked stays so.
unfoldable pub StaysOut : Text → AdminDb → AdminDb → Type 0
StaysOut hash c d = IsOut hash c.tables.api_keys → IsOut hash d.tables.api_keys

pub moved : (hash : Text) (c d : AdminDb) → KeysMove c d → StaysOut hash c d
unfolding StaysOut
moved hash c d m o = Changes-IsOut hash c.tables.api_keys d.tables.api_keys m o

pub same_keys :
    (hash : Text) (c d : AdminDb) → d.tables.api_keys ≡ c.tables.api_keys → StaysOut hash c d
unfolding StaysOut
same_keys hash c d e o = rw e o

pub left : (hash : Text) (a b : State) → Leaves a b → StaysOut hash a.db b.db
left hash a b k = elim k.api_keys [ inl z ↦ absurd z | inr e ↦ same_keys hash a.db b.db e ]

pub left_all : (hash : Text) (c d : AdminDb) → KeepsAll c d → StaysOut hash c d
left_all hash c d k = same_keys hash c d k.1

module _ (p : Platform) (hash : Text) where
  by_key :
      (credential : Text) (now : Time) (a : Result AdminError Session) (c d : AdminDb)
      → StaysOut hash c d
      → StaysOut hash c (after_verify_session p credential now (a, d)).1
  unfolding StaysOut
  by_key credential now (ok s) c d h = h
  by_key credential now (err e) c d h =
      answered (verify_api_key p credential now d).0 (verify_api_key p credential now d).1 (
        moved hash d (verify_api_key p credential now d).1
          (verify_api_key-KeysMove p credential now d))
    where
      answered :
          (x : Result AdminError ApiKey) (e : AdminDb)
          → StaysOut hash d e
          → StaysOut hash c (after_verify_key p (x, e)).1
      answered (ok key) e k o = k (h o)
      answered (err x) e k o = k (h o)

  pub verify_credential-StaysOut :
      (credential : Text) (now later : Time) (c : AdminDb)
      → StaysOut hash c (verify_api_key_or_admin_session p credential now later c).1
  unfolding verify_api_key_or_admin_session
  verify_credential-StaysOut [] now later c = same_keys hash c c refl
  verify_credential-StaysOut (x ∷ xs) now later c =
      let verified : Result AdminError Session × AdminDb = verify_session p (x ∷ xs) now c in
      by_key (x ∷ xs) later verified.0 c verified.1
        (left_all hash c verified.1 (verify_session-KeepsAll p (x ∷ xs) now c))

  module _ (d : Decoder) (callback : Option (UploadSettings → Rules → Rules)) (r : Request)
      (s : State) where
    pub handle_create-StaysOut : StaysOut hash s.db (handle_create_api_key p d callback r s).1.db
    unfolding handle_create_api_key
    handle_create-StaysOut = by_body (d.create_api_key_request r.body)
      where
        by_body : (b : Option Text) → StaysOut hash s.db (with_name p d callback b r s).1.db
        by_body none = same_keys hash s.db s.db refl
        by_body (some name) = elim (Bool-cases (is_empty (trim_space name))) [
          | inl e ↦ rw e (same_keys hash s.db s.db refl)
          | inr e ↦ rw e (
              moved hash s.db _
                (create_api_key-KeysMove p name r.chance.random r.chance.new_id r.chance.now s.db))
        ]

    pub handle_revoke-StaysOut : StaysOut hash s.db (handle_revoke_api_key p d callback r s).1.db
    unfolding handle_revoke_api_key
    handle_revoke-StaysOut = moved hash s.db _ (revoke_key-KeysMove p r.url_id r.chance.now s.db)
