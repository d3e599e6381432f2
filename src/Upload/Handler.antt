-- ===== src/Upload/Handler.antt =====
-- internal/upload/handler.go: an upload request, from its arrival to its response, as one request
-- carries it out by itself. `net.SplitHostPort` and the multipart parser are parameters; so is the
-- hash of the client's address.
pub mod Counts
pub mod Replies
mod Tests
use tempcdn.Prelude.{
  ℕ, suc, ◌+◌, ◌^◌, Bool, true, false, Option, none, some, List, [], ◌∷◌, ◌++◌, if◌then◌else◌,
}
use tempcdn.Prelude.Int.{ℤ, pos, negsuc, sub_ℕ, pos_part, neg_part, wrap64}
use tempcdn.Text.{Text, lit, is_empty, before, trim_space}
use tempcdn.Action.{Result, ok, err}
use tempcdn.RateLimit.{ConcurrencyLimiter, try_acquire, release}
use tempcdn.Metadata.Model.{Cause, Error, database, file_not_found}
use tempcdn.Upload.Validator.{ValidationError, Rules}
use tempcdn.Upload.Checksum.{Reader}
use tempcdn.Upload.Service.{
  Platform, Service, Chance, Input, World, UploadResult, UploadError, invalid, read_header, spool,
  dedup_lookup, put, persist, upload,
}

-- The first address of `X-Forwarded-For`.
abbrev pub first_hop : Text → Text
first_hop forwarded = trim_space (before b',' forwarded)

-- `split_host_port` is the host of `net.SplitHostPort`, or nothing if it fails.
unfoldable pub extract_client_ip : (Text → Option Text) → (Text → Text) → Text → Text
unfolding trim_space
extract_client_ip split_host_port header remote_addr =
    let by_address : Text = elim (split_host_port remote_addr) [
      | none ↦ remote_addr
      | some host ↦ host
    ] in
    if is_empty (header (lit "CF-Connecting-IP"))
    then if is_empty (first_hop (header (lit "X-Forwarded-For")))
      then by_address
      else first_hop (header (lit "X-Forwarded-For"))
    else header (lit "CF-Connecting-IP")

unfoldable pub hash_ip : (Text → Text) → Text → Text → Text
hash_ip sha256_hex ip salt = sha256_hex (salt ++ ip)

-- What the multipart parser makes of the body, which it reads up to a limit.
pub data Form : Type 0 where
  bad_form no_file : Form
  form_file : Text → ℤ → Reader → Form

pub data Body : Type 0 where
  message : Text → Body
  validation_message : ValidationError → Body
  uploaded : UploadResult → Body

pub record Response : Type 0 where
  pub status : ℕ
  pub body : Body

abbrev pub error_response : ℕ → Text → Response
error_response status text = record { status = status; body = message text }

abbrev pub is_deadline : Cause → Bool
is_deadline Cause.deadline = true
is_deadline Cause.other = false

abbrev pub repository_deadline : Error → Bool
repository_deadline (database c) = is_deadline c
repository_deadline e = false

-- `errors.Is(err, context.DeadlineExceeded)`
unfoldable pub timed_out : UploadError → Bool
timed_out (read_header c) = is_deadline c
timed_out (spool c) = is_deadline c
timed_out (put c) = is_deadline c
timed_out (dedup_lookup e) = repository_deadline e
timed_out (persist e) = repository_deadline e
timed_out e = false

abbrev pub repository_missing : Error → Bool
repository_missing file_not_found = true
repository_missing e = false

-- `errors.Is(err, metadata.ErrFileNotFound)`
unfoldable pub row_missing : UploadError → Bool
row_missing (dedup_lookup e) = repository_missing e
row_missing (persist e) = repository_missing e
row_missing e = false

abbrev pub other_error : UploadError → Response
other_error (invalid v) = record { status = 400; body = validation_message v }
other_error e = error_response 500 (lit "failed to process upload")

unfoldable pub write_upload_error : UploadError → Response
write_upload_error e =
    if timed_out e
    then error_response 504 (lit "upload timed out")
    else if row_missing e
    then error_response 500 (lit "internal error processing upload")
    else other_error e

-- The state of the handler: that of the service, the limiter and the three counters.
pub record UploadState (S : Type 0) : Type 0 where
  pub world : World S
  pub limiter : ConcurrencyLimiter
  pub uploads_total : ℕ
  pub upload_bytes_total : ℕ
  pub upload_errors_total : ℕ

-- `defer Release()`: the receive cannot block, since this request holds a token.
abbrev pub released : ConcurrencyLimiter → ConcurrencyLimiter
released c = elim (release c) [ none ↦ c | some d ↦ d ]

-- The limit of the body: `maxUploadSizeBytes+(1<<20)`.
abbrev pub body_limit : Rules → ℤ
body_limit r = wrap64 (sub_ℕ (pos_part r.max_size_bytes + 2 ^ 20) (neg_part r.max_size_bytes))

module _ {S : Type 0} (p : Platform S) (s : Service) (chance : Chance) where
  -- What is done with the answer of `Service.Upload`.
  unfoldable pub after_upload :
      Result UploadError UploadResult → World S → UploadState S → Response × UploadState S
  after_upload (ok r) w st = (
    record { status = 200; body = uploaded r },
    record {
      world = w;
      limiter = st.limiter;
      uploads_total = st.uploads_total + 1;
      upload_bytes_total = st.upload_bytes_total + r.file_record.size_bytes;
      upload_errors_total = st.upload_errors_total;
    },
  )
  after_upload (err e) w st = (
    write_upload_error e,
    record {
      world = w;
      limiter = st.limiter;
      uploads_total = st.uploads_total;
      upload_bytes_total = st.upload_bytes_total;
      upload_errors_total = st.upload_errors_total + 1;
    },
  )

  -- What is done with the parsed form.
  unfoldable pub after_form : Text → Form → UploadState S → Response × UploadState S
  after_form ip_hash bad_form st = (error_response 400 (lit "invalid multipart form data"), st)
  after_form ip_hash no_file st = (error_response 400 (lit "missing file field in form data"), st)
  after_form ip_hash (form_file name size content) st =
      let (answer, w) =
        upload p s chance
          (record {
            original_name = name;
            size_bytes = size;
            content = content;
            uploader_ip_hash = ip_hash;
          })
          st.world in
      after_upload answer w st

  -- From the answer of `TryAcquire` to the end; `parse` is the form that the parser gives at a limit.
  unfoldable pub after_acquire :
      Rules
      → Text
      → (ℤ → Form)
      → Bool × ConcurrencyLimiter
      → UploadState S
      → Response × UploadState S
  after_acquire rules ip_hash parse (false, limiter) st =
      (error_response 503 (lit "server is busy, please try again shortly"), st)
  after_acquire rules ip_hash parse (true, limiter) st =
      let (response, done) =
        after_form ip_hash (parse (body_limit rules)) (record st { limiter = limiter }) in
      (response, record done { limiter = released done.limiter })

  -- `ServeHTTP`; `rules` are those that `Snapshot` reads.
  unfoldable pub serve_http : Rules → Text → (ℤ → Form) → UploadState S → Response × UploadState S
  serve_http rules ip_hash parse st = after_acquire rules ip_hash parse (try_acquire st.limiter) st
