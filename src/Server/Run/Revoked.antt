-- ===== src/Server/Run/Revoked.antt =====
-- The API keys that are revoked, while an instance runs.
use tempcdn.Prelude.{◌≡◌, ◌≢◌, Option, some}
use tempcdn.Text.{Text}
use tempcdn.Action.{ok}
use tempcdn.IdGen.{hash_api_key}
use tempcdn.Config.{Config}
use tempcdn.Metadata.Model.{Time, ApiKey, UploadSettings}
use tempcdn.Metadata.Sql.{first_where}
use tempcdn.Metadata.ApiKeys.{has_hash}
use tempcdn.Admin.Model.{Platform}
use tempcdn.Admin.Keys.{revoke_key, verify_api_key}
use tempcdn.Admin.Keys.Revoked.{revoke_key-IsOut, verify_api_key-refuses}
use tempcdn.Admin.Handler.{Decoder}
use tempcdn.Admin.Handler.Frame.{login-Keeps, update_upload_settings-Keeps, update_document-Keeps}
use tempcdn.Upload.Validator.{Rules}
use tempcdn.Server.{settings_callback}
use tempcdn.Server.Shared.{ServerState}
use tempcdn.Server.Wiring.{Outside, admin_platform}
use tempcdn.Server.Run.{Steps}
use tempcdn.Admin.Handler.Revoked.{
  StaysOut, left, left_all, verify_credential-StaysOut, handle_create-StaysOut,
  handle_revoke-StaysOut,
}
use tempcdn.Server.Run.Stays.{IsStable, Steps-Stays}

module _ (p : Platform) (d : Decoder) (hash : Text) where
  StaysOut-IsStable : IsStable p d (StaysOut hash)
  unfolding StaysOut
  StaysOut-IsStable =
      let callback : Option (UploadSettings → Rules → Rules) = some settings_callback in
      record {
        then = λ a b c f g h. g (f h);
        kept = λ a b k. left_all hash a b k;
        login_moves = λ r s. left hash s _ (login-Keeps p d callback r s tt);
        creation = λ r s. handle_create-StaysOut p hash d callback r s;
        revocation = λ r s. handle_revoke-StaysOut p hash d callback r s;
        settings = λ r s. left hash s _ (update_upload_settings-Keeps p d callback r s tt tt);
        document =
            λ doc_type r s. left hash s _ (update_document-Keeps p d callback r s tt doc_type);
        credential = verify_credential-StaysOut p hash;
      }

module _ {S : Type 0} (o : Outside S) (cfg : Config) where
  -- An API key that was revoked stays refused. Let a revocation by the identifier of the key's row
  -- report no error. Whatever requests the instance then serves and whatever its loops do, in any
  -- order and however the database answers, the key is not accepted at any later time.
  pub Steps-refuses :
      (key id : Text) (now later : Time) (s t : ServerState S) (u : Unit {0}) (k r : ApiKey)
      → first_where
          (has_hash (hash_api_key (admin_platform o cfg).sha256_hex key))
          s.admin.tables.api_keys
        ≡ some k
      → k.id ≡ id
      → (revoke_key (admin_platform o cfg) id now s.admin).0 ≡ ok u
      → Steps o cfg (record s { admin = (revoke_key (admin_platform o cfg) id now s.admin).1 }) t
      → (verify_api_key (admin_platform o cfg) key later t.admin).0 ≢ ok r
  unfolding StaysOut
  Steps-refuses key id now later s t u k r stored same_id revoked steps =
      let p : Platform = admin_platform o cfg in
      let hash : Text = hash_api_key p.sha256_hex key in
      verify_api_key-refuses p key later t.admin r (
        Steps-Stays o cfg (StaysOut hash) (StaysOut-IsStable p o.decoder hash) steps
          (revoke_key-IsOut p hash id now s.admin u k stored same_id revoked))
