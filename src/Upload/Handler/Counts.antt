-- ===== src/Upload/Handler/Counts.antt =====
-- What a request leaves of the limiter, the counters and the stored files.
use tempcdn.Prelude.{
  ◌+◌, ◌<◌, ◌≤◌, ltb, ◌≡◌, ◌≢◌, ◌↔◌, ◌⊎◌, inl, inr, refl, Bool, true, false, arith, Bool-cases,
}
use tempcdn.Prelude.Int.{ℤ}
use tempcdn.Text.{Text}
use tempcdn.Action.{Result, ok, err}
use tempcdn.RateLimit.{ConcurrencyLimiter, try_acquire, release}
use tempcdn.Upload.Validator.{Rules}
use tempcdn.Upload.Service.{Platform, Service, Chance, World, UploadResult, UploadError}
use tempcdn.Upload.Handler.{
  body_limit, Form, bad_form, no_file, form_file, uploaded, Response, write_upload_error,
  UploadState, released, after_upload, after_form, after_acquire, serve_http,
}

-- A request either succeeded, and its file is counted, with its bytes; or it did not, and at most an
-- error is counted.
abbrev pub IsCounted : {S : Type 0} → UploadState S → Response × UploadState S → Type 0
IsCounted st (response, done) =
    ((response.status ≡ 200)
      × (done.uploads_total ≡ st.uploads_total + 1)
      × (done.upload_errors_total ≡ st.upload_errors_total)
      × ((r : UploadResult) × (response.body ≡ uploaded r)
          × (done.upload_bytes_total ≡ st.upload_bytes_total + r.file_record.size_bytes)))
    ⊎ ((response.status ≢ 200)
        × (done.uploads_total ≡ st.uploads_total)
        × (done.upload_bytes_total ≡ st.upload_bytes_total)
        × ((done.upload_errors_total ≡ st.upload_errors_total)
            ⊎ (done.upload_errors_total ≡ st.upload_errors_total + 1)))

write_upload_error-200 : (e : UploadError) → (write_upload_error e).status ≢ 200
unfolding write_upload_error
write_upload_error-200 e h = ground arith

write_upload_error-503 : (e : UploadError) → (write_upload_error e).status ≢ 503
unfolding write_upload_error
write_upload_error-503 e h = ground arith

released_taken : (c : ConcurrencyLimiter) → released (record c { held = c.held + 1 }) ≡ c
unfolding release
released_taken c = ground arith

module _ {S : Type 0} (p : Platform S) (s : Service) (chance : Chance) where
  after_upload-IsCounted :
      (a : Result UploadError UploadResult) (w : World S) (st : UploadState S)
      → IsCounted st (after_upload p s chance a w st)
  unfolding after_upload
  after_upload-IsCounted (ok r) w st = inl (refl, refl, refl, (r, refl, refl))
  after_upload-IsCounted (err e) w st = inr (write_upload_error-200 e, refl, refl, inr refl)

  after_form-IsCounted :
      (ip_hash : Text) (f : Form) (st : UploadState S)
      → IsCounted st (after_form p s chance ip_hash f st)
  unfolding after_form
  after_form-IsCounted ip_hash bad_form st = inr ((λ h. omega arith), refl, refl, inl refl)
  after_form-IsCounted ip_hash no_file st = inr ((λ h. omega arith), refl, refl, inl refl)
  after_form-IsCounted ip_hash (form_file name size content) st = after_upload-IsCounted _ _ st

  -- A request that is answered with status 200 counts one upload and its bytes, and no error; any
  -- other counts neither an upload nor bytes, and at most one error.
  pub serve_http-IsCounted :
      (rules : Rules) (ip_hash : Text) (parse : ℤ → Form) (st : UploadState S)
      → IsCounted st (serve_http p s chance rules ip_hash parse st)
  unfolding serve_http after_acquire
  serve_http-IsCounted rules ip_hash parse st = go (try_acquire st.limiter)
    where
      go :
          (a : Bool × ConcurrencyLimiter)
          → IsCounted st (after_acquire p s chance rules ip_hash parse a st)
      go (false, l) = inr ((λ h. omega arith), refl, refl, inl refl)
      go (true, l) =
          after_form-IsCounted ip_hash (parse (body_limit rules)) (record st { limiter = l })

  after_form-limiter :
      (ip_hash : Text) (f : Form) (st : UploadState S)
      → (after_form p s chance ip_hash f st).1.limiter ≡ st.limiter
  unfolding after_form after_upload
  after_form-limiter ip_hash bad_form st = refl
  after_form-limiter ip_hash no_file st = refl
  after_form-limiter ip_hash (form_file name size content) st = by_answer _ _
    where
      by_answer :
          (a : Result UploadError UploadResult) (w : World S)
          → (after_upload p s chance a w st).1.limiter ≡ st.limiter
      by_answer (ok r) w = refl
      by_answer (err e) w = refl

  after_form-503 :
      (ip_hash : Text) (f : Form) (st : UploadState S)
      → (after_form p s chance ip_hash f st).0.status ≢ 503
  unfolding after_form after_upload
  after_form-503 ip_hash bad_form st h = omega arith
  after_form-503 ip_hash no_file st h = omega arith
  after_form-503 ip_hash (form_file name size content) st h = by_answer _ _ h
    where
      by_answer :
          (a : Result UploadError UploadResult) (w : World S)
          → (after_upload p s chance a w st).0.status ≢ 503
      by_answer (ok r) w h = omega arith
      by_answer (err e) w h = write_upload_error-503 e h

  -- A request gives back the place that it took: it leaves the limiter as it found it, however it
  -- ends. It is turned away with status 503 and nothing has changed exactly where no place was free.
  pub serve_http-limiter :
      (rules : Rules) (ip_hash : Text) (parse : ℤ → Form) (st : UploadState S)
      → ((serve_http p s chance rules ip_hash parse st).1.limiter ≡ st.limiter)
        × (((serve_http p s chance rules ip_hash parse st).0.status ≡ 503)
            ↔ (st.limiter.capacity ≤ st.limiter.held))
        × ((st.limiter.held < st.limiter.capacity)
            ⊎ ((serve_http p s chance rules ip_hash parse st).1 ≡ st))
  unfolding serve_http try_acquire after_acquire release
  serve_http-limiter rules ip_hash parse st =
      elim (Bool-cases (ltb st.limiter.held st.limiter.capacity)) [
        | inl free ↦ rw free (
          returned,
          (
            (λ h. absurd (after_form-503 ip_hash (parse (body_limit rules)) taken h)),
            λ h. absurd (ground arith),
          ),
          inl (ground arith),
        )
        | inr full ↦ rw full (refl, ((λ h. ground arith), λ h. refl), inr refl)
      ]
    where
      taken : UploadState S
      taken = record st { limiter = record st.limiter { held = st.limiter.held + 1 } }

      returned :
          released (after_form p s chance ip_hash (parse (body_limit rules)) taken).1.limiter
          ≡ st.limiter
      returned =
          rw (after_form-limiter ip_hash (parse (body_limit rules)) taken)
            (released_taken st.limiter)
