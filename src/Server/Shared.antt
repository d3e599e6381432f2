-- ===== src/Server/Shared.antt =====
-- cmd/server/main.go: the state that the handlers and the loops of one instance share, and the
-- handlers of the components as handlers over that state.
use tempcdn.Prelude.{ℕ, List, [], ◌∷◌}
use tempcdn.Text.{Text}
use tempcdn.File.Handler.{InfoResponseBody}
use tempcdn.Metadata.Files.{FilesDb}
use tempcdn.Metadata.Tables.{AdminDb}
use tempcdn.Metadata.Nodes.{NodesDb}
use tempcdn.RateLimit.{ConcurrencyLimiter}
use tempcdn.Upload.Validator.{Rules}
use tempcdn.Upload.Handler.Replies.{UploadReply}
use tempcdn.Upload.Handler as UploadHandler
use tempcdn.File.Service as File
use tempcdn.Admin.Handler as Admin
use tempcdn.Public as Public
use tempcdn.Http.{
  Event, set_header, write_header, write, Answer, Handler, Body, error_body, payload, text_body,
}

-- The tables behind the pool, the object store, the validator's rules, the limiter, the counters and
-- the purge requests made so far.
pub record ServerState (S : Type 0) : Type 0 where
  pub files : FilesDb
  pub storage : S
  pub purges : List (List Text)
  pub admin : AdminDb
  pub nodes : NodesDb
  pub rules : Rules
  pub limiter : ConcurrencyLimiter
  pub uploads_total : ℕ
  pub upload_bytes_total : ℕ
  pub upload_errors_total : ℕ

-- The payloads of all components.
pub data ServerReply : Type 0 where
  upload_reply : UploadReply → ServerReply
  file_deleted : ServerReply
  file_info : InfoResponseBody → ServerReply
  admin_reply : Admin.Reply → ServerReply
  public_reply : Public.Reply → ServerReply

-- The answers of a component as answers of the server.
module _ {P Q : Type 0} (inj : P → Q) where
  abbrev pub map_body : Body P → Body Q
  map_body (error_body text) = error_body text
  map_body (payload p) = payload (inj p)
  map_body (text_body text) = text_body text

  abbrev pub map_event : Event (Body P) → Event (Body Q)
  map_event (set_header k v) = set_header k v
  map_event (write_header code) = write_header code
  map_event (write b) = write (map_body b)

  unfoldable pub map_events : List (Event (Body P)) → List (Event (Body Q))
  map_events [] = []
  map_events (e ∷ events) = map_event e ∷ map_events events

  abbrev pub map_answer : Answer (Body P) → Answer (Body Q)
  map_answer a = record { events = map_events a.events; entries = a.entries; panicked = a.panicked }

-- A handler over a part of the state.
module _ {S X P Q : Type 0} (get : S → X) (put : X → S → S) (inj : P → Q) where
  abbrev pub over : Handler X (Body P) → Handler S (Body Q)
  over h r s = let (a, x) = h r (get s) in (map_answer inj a, put x s)

-- The parts of the state that a component works on.
module _ {S : Type 0} where
  abbrev pub upload_part : ServerState S → UploadHandler.UploadState S
  upload_part st = record {
    world = record { files = st.files; storage = st.storage };
    limiter = st.limiter;
    uploads_total = st.uploads_total;
    upload_bytes_total = st.upload_bytes_total;
    upload_errors_total = st.upload_errors_total;
  }

  abbrev pub with_upload_part : UploadHandler.UploadState S → ServerState S → ServerState S
  with_upload_part u st = record st {
    files = u.world.files;
    storage = u.world.storage;
    limiter = u.limiter;
    uploads_total = u.uploads_total;
    upload_bytes_total = u.upload_bytes_total;
    upload_errors_total = u.upload_errors_total;
  }

  abbrev pub file_part : ServerState S → File.World S
  file_part st = record { files = st.files; storage = st.storage; purges = st.purges }

  abbrev pub with_file_part : File.World S → ServerState S → ServerState S
  with_file_part w st = record st { files = w.files; storage = w.storage; purges = w.purges }

  abbrev pub admin_part : ServerState S → Admin.State
  admin_part st = record { db = st.admin; rules = st.rules }

  abbrev pub with_admin_part : Admin.State → ServerState S → ServerState S
  with_admin_part a st = record st { admin = a.db; rules = a.rules }
