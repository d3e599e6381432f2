-- ===== src/Admin/Tests.antt =====
-- One admin who logs in and out, one API key that is created and revoked, and one change of the
-- upload settings.
use tempcdn.Prelude.{true, ◌≡◌, ◌≢◌, ◌⊎◌, refl, none, some, [], ◌∷◌, arith}
use tempcdn.Text.{lit, same, trim_left, trim_space}
use tempcdn.Action.{ok}
use tempcdn.IdGen.{hash_session_token, hash_api_key, new_api_key}
use tempcdn.Metadata.Model.{stored_time, ApiKey, Admin, session_is_expired, is_revoked}
use tempcdn.Metadata.Sql.{first_where, update_where}
use tempcdn.Metadata.Conn.{run, query}
use tempcdn.Metadata.Tables.{AdminDb}
use tempcdn.Metadata.Admins.{
  stored_session, find_admin_by_username, find_admin_by_id, insert_admin_session,
  touch_admin_last_login, find_admin_session_by_token_hash, touch_admin_session,
  delete_admin_session,
}
use tempcdn.Metadata.ApiKeys.{
  stored_key, insert_api_key, find_api_key_by_token_hash, touch_api_key, revoke_api_key,
}
use tempcdn.Admin.Model.{Platform}
use tempcdn.Admin.Sessions.{
  Session, LoginResult, new_session, start_session, after_account, login, logout, after_admin,
  with_session, after_session, verify_session,
}
use tempcdn.Admin.Sessions.Valid.{IsValid}
use tempcdn.Admin.Sessions.Login.{IsCredentials, IsStarted, login-eq-ok, verify_session_of_login}
use tempcdn.Admin.Sessions.Logout.{verify_session_of_logout}
use tempcdn.Admin.Keys.{
  CreateApiKeyResult, new_key_record, store_key, create_api_key, revoke_key, verify_api_key,
}
use tempcdn.Admin.Keys.Valid.{verify_api_key_of_create}
use tempcdn.Admin.Keys.Valid.{IsLive}
use tempcdn.Admin.Access.{verify_api_key_or_admin_session}
use tempcdn.Admin.Access.Sound.{verify_api_key_or_admin_session-eq-true}
use tempcdn.Admin.Keys.{after_key}

runs : Unit {0}
unfolding login logout start_session after_account verify_session after_session with_session
    after_admin trim_space trim_left same first_where update_where run query find_admin_by_username
    find_admin_by_id insert_admin_session touch_admin_last_login find_admin_session_by_token_hash
    touch_admin_session delete_admin_session session_is_expired hash_session_token hash_api_key
    new_api_key store_key create_api_key revoke_key insert_api_key find_api_key_by_token_hash
    touch_api_key revoke_api_key is_revoked stored_time
runs = tt

abbrev platform : Platform
platform = record { sha256_hex = λ s. b'#' ∷ s; password_matches = λ h w. same h (b'!' ∷ w) }

abbrev ann : Admin
ann = record {
  id = lit "1";
  username = lit "ann";
  password_hash = lit "!secret";
  created_at = 5;
  last_login_at = none;
}

abbrev db : AdminDb
db = record {
  tables = record {
    admins = ann ∷ [];
    sessions = [];
    api_keys = [];
    upload_settings = none;
    legal_documents = [];
  };
  outcomes = [];
}

abbrev logged : LoginResult
logged = record {
  token = lit "tok";
  admin = ann;
  session = new_session platform (lit "tok") 10 ann;
}

ann_logs_in : (login platform (lit " ann ") (lit "secret") (some (lit "tok")) 10 db).0 ≡ ok logged
unfolding runs
ann_logs_in = refl

abbrev db_in : AdminDb
unfolding runs
db_in = (login platform (lit " ann ") (lit "secret") (some (lit "tok")) 10 db).1

login-eq-ok_example :
    IsCredentials platform (lit " ann ") (lit "secret") db.tables ann
    × (some (lit "tok") ≡ some (lit "tok"))
    × (logged.session ≡ new_session platform (lit "tok") 10 ann)
    × IsStarted platform
        (lit "tok")
        10
        ann
        db.tables
        (login platform (lit " ann ") (lit "secret") (some (lit "tok")) 10 db).1.tables
login-eq-ok_example =
    login-eq-ok platform (lit " ann ") (lit "secret") (some (lit "tok")) 10 db logged ann_logs_in

verify_session_of_login_example :
    (s : Session) × ((verify_session platform (lit "tok") 20 db_in).0 ≡ ok s)
    × (s.session ≡ stored_session logged.session)
    × (s.admin.id ≡ lit "1")
unfolding runs
verify_session_of_login_example =
    verify_session_of_login platform (lit " ann ") (lit "secret") (some (lit "tok")) 10 20 db db_in
      logged ann_logs_in (λ e. cc e) (omega arith) tt refl

abbrev ann_session : Session
unfolding runs
ann_session = record {
  admin = record ann { last_login_at = some (stored_time 10) };
  session = stored_session logged.session;
}

accepted : (verify_session platform (lit "tok") 20 db_in).0 ≡ ok ann_session
unfolding runs
accepted = refl

abbrev db_out : AdminDb
unfolding runs
db_out = (logout platform (lit "tok") db_in).1

verify_session_of_logout_example :
    (verify_session platform (lit "tok") 20 db_out).0 ≢ ok ann_session
unfolding runs
verify_session_of_logout_example =
    verify_session_of_logout platform (lit "tok") 20 db_in db_out tt ann_session refl refl

abbrev created : CreateApiKeyResult
created = record {
  key = lit "tcdn_r";
  key_record = new_key_record platform (lit "k1") (lit "prom") (lit "tcdn_r") 7;
}

key_created :
    (create_api_key platform (lit "prom ") (some (lit "r")) (lit "k1") 7 db).0 ≡ ok created
unfolding runs
key_created = refl

abbrev db_key : AdminDb
unfolding runs
db_key = (create_api_key platform (lit "prom ") (some (lit "r")) (lit "k1") 7 db).1

verify_api_key_of_create_example :
    (verify_api_key platform (lit "tcdn_r") 9 db_key).0 ≡ ok (stored_key created.key_record)
unfolding runs
verify_api_key_of_create_example =
    verify_api_key_of_create platform (lit "prom ") (some (lit "r")) (lit "k1") 7 9 db db_key
      created key_created tt refl

metrics_open : (verify_api_key_or_admin_session platform (lit "tcdn_r") 9 9 db_key).0 ≡ true
unfolding runs verify_api_key_or_admin_session verify_api_key after_key
metrics_open = refl

verify_api_key_or_admin_session-eq-true_example :
    ((s : Session) × IsValid platform (lit "tcdn_r") 9 db_key.tables s)
    ⊎ ((k : ApiKey) × IsLive platform (lit "tcdn_r") db_key.tables.api_keys k)
verify_api_key_or_admin_session-eq-true_example =
    verify_api_key_or_admin_session-eq-true platform (lit "tcdn_r") 9 9 db_key metrics_open
