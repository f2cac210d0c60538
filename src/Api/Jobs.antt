-- ===== src/Api/Jobs.antt =====
-- app/api/v1/jobs.py: the jobs of a user. `user` is what `get_current_user` resolved.
pub mod Ownership
pub mod Storage
pub mod RoundTrip
mod Tests
use what_a_secure_app_should.Base.{
  ℕ, ◌+◌, ◌*◌, ◌/◌, max, Bool, true, not, ◌||◌, ◌&&◌, Option, none, some, String, List, [], ◌∷◌,
  ◌++◌, ◌==◌, ltb, map, length, find_first, if◌then◌else◌,
}
use what_a_secure_app_should.Base.Bytes.{Bytes}
use what_a_secure_app_should.Base.Text.{utf8}
use what_a_secure_app_should.Base.Outcome.{
  Exception, Result, ok, err, capacity_error, extraction_error, file_validation_error,
  integrity_error, http_exception,
}
use what_a_secure_app_should.Packages.{Image, Pillow, Packages, Entropy}
use what_a_secure_app_should.Core.Config.{Settings, Clock}
use what_a_secure_app_should.Core.Metrics.{
  invalid_upload, authorization_denial, crypto_auth_failure, embed_job, extract_job, verify_job,
}
use what_a_secure_app_should.Db.{
  User, ProcessingJob, Db, job_embed, job_extract, job_verify, job_succeeded, is_none,
}
use what_a_secure_app_should.Files.Validators.{validate_png}
use what_a_secure_app_should.Services.{embed_payload, extract_payload}
use what_a_secure_app_should.Steg.Capacity.{max_payload_bytes}
use what_a_secure_app_should.Steg.Verifier.{VerifyResult, verify}
use what_a_secure_app_should.Api.{Web, Uuids, count, commit, ◌>>=◌, not_found}

-- `UploadFile`
pub record Upload : Type 0 where
  pub filename : Option String
  pub content : Bytes

-- What one request draws from outside: the new row's `uuid4`, the clock, and the elapsed time.
pub record Request : Type 0 where
  pub job_id : ℕ
  pub now : Clock
  pub elapsed_ms : ℕ

pub record Response : Type 0 where
  pub content : Bytes
  pub media_type : String
  -- The headers X-Job-Id and X-Processing-Time-Ms, the latter in decimal.
  pub headers : Option (String × ℕ)

pub record JobSummary : Type 0 where
  pub job_id : String
  pub job_type : String
  pub status : String
  pub payload_size_bytes : Option ℕ
  pub output_size_bytes : Option ℕ
  pub algorithm_version : Option ℕ
  pub created_at : ℕ
  pub expires_at : Option ℕ

abbrev pub bad_upload : Exception
bad_upload = http_exception 400 "The uploaded file could not be processed."

-- After `validate_png`: the image, or the `except FileValidationError` clause.
abbrev pub loaded : Bytes → Web → Result Image × ℕ → Result (Image × Bytes) × Web
loaded raw w (ok image, limit) = (ok (image, raw), record w { max_image_pixels = limit })
loaded raw w (err (file_validation_error _ _), limit) =
    (err bad_upload, count invalid_upload (record w { max_image_pixels = limit }))
loaded raw w (err e, limit) = (err e, record w { max_image_pixels = limit })

unfoldable pub load_png : Settings → Pillow → Upload → Web → Result (Image × Bytes) × Web
load_png cfg pil upload w =
    if ltb cfg.max_upload_bytes (length upload.content)
    then (err bad_upload, count invalid_upload w)
    else loaded upload.content w (
        validate_png pil cfg.max_upload_bytes cfg.max_image_dimension cfg.max_decoded_pixels
          upload.content w.max_image_pixels)

-- A row with the columns that every job sets; the others have their defaults.
abbrev pub new_job : Request → User → String → ProcessingJob
new_job request user job_type = record {
  id = request.job_id;
  user_id = user.id;
  job_type = job_type;
  status = job_succeeded;
  source_filename_hash = none;
  input_size_bytes = none;
  output_size_bytes = none;
  payload_size_bytes = none;
  capacity_utilization = none;
  algorithm_version = none;
  artifact_storage_key = none;
  artifact_checksum = none;
  processing_time_ms = none;
  created_at = request.now 0;
  expires_at = none;
  deleted_at = none;
  failure_category = none;
}

-- `db.add(job)` and `db.commit()`: the flush refuses a primary key that is taken.
unfoldable pub add_job : ProcessingJob → Web → Result (Unit {0}) × Web
unfolding commit
add_job job w =
    if not (is_none (find_first (λ j. j.id == job.id) w.view.jobs))
    then (err integrity_error, w)
    else (ok tt, commit (record w { view = record (w.view) { jobs = w.view.jobs ++ (job ∷ []) } }))

-- `image.filename or ""`
abbrev pub filename_of : Option String → String
filename_of none = ""
filename_of (some name) = name

-- The float division is exact enough: both sides are below 2 ** 53.
abbrev pub embed_job_row :
    Packages → Request → User → Upload → Image → Bytes → Bytes → ProcessingJob
embed_job_row k request user upload img payload stego = record (new_job request user job_embed) {
  source_filename_hash = some (k.sha.sha256_hexdigest (utf8 (filename_of upload.filename)));
  input_size_bytes = some (length upload.content);
  output_size_bytes = some (length stego);
  payload_size_bytes = some (length payload);
  capacity_utilization = some (100 * length payload / max (max_payload_bytes img) 1);
  algorithm_version = some 1;
  artifact_checksum = some (k.sha.sha256_hexdigest stego);
  processing_time_ms = some request.elapsed_ms;
}

-- After `embed_payload`: the `except CapacityError` clause, or the row and the response.
abbrev pub finish_embed :
    Packages
    → Uuids
    → Request
    → User
    → Upload
    → Image
    → Bytes
    → Web
    → Result Bytes
    → Result Response × Web
finish_embed k uuids request user upload img payload w (ok stego) =
    add_job (embed_job_row k request user upload img payload stego) w >>= λ _ w. (
      ok (record {
        content = stego;
        media_type = "image/png";
        headers = some (uuids.print request.job_id, request.elapsed_ms);
      }),
      count embed_job w,
    )
finish_embed k uuids request user upload img payload w (err (capacity_error _)) =
    (err (http_exception 413 "Payload exceeds image capacity."), w)
finish_embed k uuids request user upload img payload w (err e) = (err e, w)

unfoldable pub embed :
    Settings
    → Packages
    → Uuids
    → Entropy
    → Request
    → User
    → Upload
    → String
    → String
    → Web
    → Result Response × Web
embed cfg k uuids draw request user upload passphrase payload w =
    load_png cfg k.pil upload w >>= λ (img, raw) w.
    if ltb cfg.max_payload_bytes (length (utf8 payload))
    then (err bad_upload, w)
    else finish_embed k uuids request user upload img (utf8 payload) w
        (embed_payload k draw img (utf8 payload) passphrase)

abbrev pub extract_job_row : Request → User → Bytes → ProcessingJob
extract_job_row request user payload = record (new_job request user job_extract) {
  payload_size_bytes = some (length payload);
  algorithm_version = some 1;
}

-- After `extract_payload`: the `except ExtractionError` clause, or the row and the response.
abbrev pub finish_extract : Request → User → Web → Result Bytes → Result Response × Web
finish_extract request user w (ok payload) =
    add_job (extract_job_row request user payload) w >>= λ _ w. (
      ok (record { content = payload; media_type = "application/octet-stream"; headers = none }),
      count extract_job w,
    )
finish_extract request user w (err (extraction_error _)) = (
  err (
      http_exception 422
        "Payload extraction failed: the embedded content could not be authenticated."),
  count crypto_auth_failure w,
)
finish_extract request user w (err e) = (err e, w)

unfoldable pub extract :
    Settings → Packages → Request → User → Upload → String → Web → Result Response × Web
extract cfg k request user upload passphrase w = load_png cfg k.pil upload w >>= λ (img, raw) w.
    finish_extract request user w (extract_payload k img passphrase)

-- After `verify_image`; the response has the four fields of its result.
abbrev pub finish_verify : Request → User → Web → Result VerifyResult → Result VerifyResult × Web
finish_verify request user w (ok result) =
    add_job (new_job request user job_verify) w >>= λ _ w. (ok result, count verify_job w)
finish_verify request user w (err e) = (err e, w)

unfoldable pub verify_endpoint :
    Settings → Packages → Request → User → Upload → Web → Result VerifyResult × Web
verify_endpoint cfg k request user upload w =
    load_png cfg k.pil upload w >>= λ (img, raw) w. finish_verify request user w (verify k img)

abbrev pub summary : Uuids → ProcessingJob → JobSummary
summary uuids job = record {
  job_id = uuids.print job.id;
  job_type = job.job_type;
  status = job.status;
  payload_size_bytes = job.payload_size_bytes;
  output_size_bytes = job.output_size_bytes;
  algorithm_version = job.algorithm_version;
  created_at = job.created_at;
  expires_at = job.expires_at;
}

-- A job of the user that was not deleted.
abbrev pub is_own : User → ProcessingJob → Bool
is_own user job = (job.user_id == user.id) && is_none job.deleted_at

-- The rows that pass a test, in order.
unfoldable pub select_jobs : (ProcessingJob → Bool) → List ProcessingJob → List ProcessingJob
select_jobs p [] = []
select_jobs p (j ∷ rows) = if p j then j ∷ select_jobs p rows else select_jobs p rows

unfoldable pub list_jobs : Uuids → User → Web → Result (List JobSummary) × Web
unfolding select_jobs
list_jobs uuids user w = (ok (map (summary uuids) (select_jobs (is_own user) w.view.jobs)), w)

-- `db.get(ProcessingJob, jid)`
abbrev pub get_row : ℕ → List ProcessingJob → Option ProcessingJob
get_row jid = find_first (λ j. j.id == jid)

-- The test of the row that `db.get` returned.
abbrev pub owned : User → Option ProcessingJob → Web → Result ProcessingJob × Web
owned user none w = (err not_found, count authorization_denial w)
owned user (some job) w =
    if is_own user job then (ok job, w) else (err not_found, count authorization_denial w)

abbrev pub owned_of : User → Option ℕ → Web → Result ProcessingJob × Web
owned_of user none w = (err not_found, w)
owned_of user (some jid) w = owned user (get_row jid w.view.jobs) w

unfoldable pub owned_job_or_404 : Uuids → String → User → Web → Result ProcessingJob × Web
owned_job_or_404 uuids job_id user w = owned_of user (uuids.parse job_id) w

unfoldable pub get_job : Uuids → String → User → Web → Result JobSummary × Web
unfolding owned_job_or_404
get_job uuids job_id user w =
    owned_job_or_404 uuids job_id user w >>= λ job w. (ok (summary uuids job), w)

-- The flush of a changed row: the row of that primary key.
unfoldable pub update_job : ProcessingJob → List ProcessingJob → List ProcessingJob
update_job changed [] = []
update_job changed (j ∷ rows) =
    (if j.id == changed.id then changed else j) ∷ update_job changed rows

unfoldable pub delete_job : Uuids → Clock → String → User → Web → Result (Unit {0}) × Web
unfolding owned_job_or_404 update_job commit
delete_job uuids now job_id user w = owned_job_or_404 uuids job_id user w >>= λ job w. (
  ok tt,
  commit (record w {
    view = record (w.view) {
      jobs = update_job (record job { deleted_at = some (now 0) }) w.view.jobs;
    };
  }),
)
