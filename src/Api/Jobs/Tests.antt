-- ===== src/Api/Jobs/Tests.antt =====
-- The theorems on the jobs API, applied to a table with one job of each of two users.
use text.Mathlib.Text.{◌==◌ as str_eq}
use what_a_secure_app_should.Base.{
  ℕ, ◌+◌, ◌≡◌, refl, ◌⊎◌, ◌∷◌, [], none, some, false, arith, ltb, length, if◌then◌else◌,
}
use what_a_secure_app_should.Base.Outcome.{ok, err}
use what_a_secure_app_should.Packages.Sample.{
  sample_packages, sample_laws, sample_draw, sample_draw-IsEntropy, sample_image,
  sample_image-IsRaster,
}
use what_a_secure_app_should.Packages.Sample.Files.{sample_save, sample_pillow}
use what_a_secure_app_should.Base.Bytes.{Bytes}
use what_a_secure_app_should.Base.Text.{utf8}
use what_a_secure_app_should.Api.Jobs.RoundTrip.{
  IsUpload, png_response, payload_response, extract-embed,
}
use what_a_secure_app_should.Core.Config.{default_settings, Clock}
use what_a_secure_app_should.Db.{
  User, ProcessingJob, Db, empty_db, job_embed, role_user, status_active,
}
use what_a_secure_app_should.Files.Validators.{png_magic}
use what_a_secure_app_should.Api.{Web, Uuids, serve, not_found}
use what_a_secure_app_should.Api.Jobs.{
  Request, Upload, Response, new_job, is_own, select_jobs, get_job, delete_job, embed, extract,
  bad_upload,
}
use what_a_secure_app_should.Api.Jobs.Ownership.{
  keep_jobs, is_foreign, get_job_own_jobs, delete_job_keeps_foreign, delete_job_outcomes,
}
use what_a_secure_app_should.Api.Jobs.Storage.{Settled, IsEmbedRow, embed_stores}

-- Only the ids 1 and 2 have a text.
abbrev uuids : Uuids
uuids = record {
  parse = λ text. if str_eq text "one" then some 1 else if str_eq text "two" then some 2 else none;
  print = λ id. "id";
}

abbrev clock : Clock
clock i = 100 + i

abbrev user_of : ℕ → User
user_of id = record {
  id = id;
  email = "user@example.org";
  password_hash = "hash";
  role = role_user;
  status = status_active;
  mfa_enabled = false;
  mfa_secret_encrypted = none;
  created_at = 1;
  updated_at = 1;
  last_login_at = none;
  failed_login_count = 0;
  locked_until = none;
}

abbrev job_of : ℕ → ℕ → ProcessingJob
job_of id user_id =
    new_job (record { job_id = id; now = clock; elapsed_ms = 3 }) (user_of user_id) job_embed

abbrev two_jobs : Db
two_jobs = record empty_db { jobs = job_of 1 7 ∷ job_of 2 8 ∷ [] }

abbrev app : Web
app = record { durable = two_jobs; view = two_jobs; counters = []; max_image_pixels = 1000 }

-- The caller is user 7, who asks for the job of user 8.
get_job_own_jobs_example :
    ((get_job uuids "two" (user_of 7) (keep_jobs (is_own (user_of 7)) app)).0
      ≡ (get_job uuids "two" (user_of 7) app).0)
    × ((get_job uuids "two" (user_of 7) (keep_jobs (is_own (user_of 7)) app)).1.counters
        ≡ (get_job uuids "two" (user_of 7) app).1.counters)
get_job_own_jobs_example =
    get_job_own_jobs uuids "two" (user_of 7) app ((omega arith, tt), (tt, tt))

delete_job_keeps_foreign_example :
    select_jobs
      (is_foreign (user_of 7))
      (serve (delete_job uuids clock "one" (user_of 7)) app).1.durable.jobs
    ≡ select_jobs (is_foreign (user_of 7)) app.durable.jobs
delete_job_keeps_foreign_example =
    delete_job_keeps_foreign uuids clock "one" (user_of 7) app ((omega arith, tt), (tt, tt))

delete_job_outcomes_example :
    (((serve (delete_job uuids clock "one" (user_of 7)) app).0 ≡ err not_found)
      × ((serve (delete_job uuids clock "one" (user_of 7)) app).1.durable ≡ app.durable)
      × ((serve (get_job uuids "one" (user_of 7)) app).0 ≡ err not_found))
    ⊎ (((serve (delete_job uuids clock "one" (user_of 7)) app).0 ≡ ok tt)
        × ((serve
              (get_job uuids "one" (user_of 7))
              (serve (delete_job uuids clock "one" (user_of 7)) app).1).0
            ≡ err not_found))
delete_job_outcomes_example = delete_job_outcomes uuids clock "one" (user_of 7) (user_of 7) app

abbrev a_request : Request
a_request = record { job_id = 3; now = clock; elapsed_ms = 3 }

abbrev an_upload : Upload
an_upload = record { filename = none; content = png_magic }

embed_stores_example : Settled Response (IsEmbedRow sample_packages (user_of 7) "A") app (
    serve
      (embed default_settings sample_packages uuids sample_draw a_request
        (user_of 7)
        an_upload
        "pw"
        "A")
      app)
embed_stores_example =
    embed_stores default_settings sample_packages uuids sample_draw a_request (user_of 7) an_upload
      "pw" "A" app

-- A grey image saved by the sample codec is uploaded, and its answer uploaded again.
abbrev a_png : Upload
a_png = record { filename = none; content = sample_save sample_image }

a_png-IsUpload : IsUpload default_settings sample_pillow a_png.content sample_image
a_png-IsUpload = record {
  not_empty = omega arith;
  upload_size = omega arith;
  has_magic = refl;
  is_png = refl;
  verified = refl;
  loaded = refl;
  width_limit = omega arith;
  height_limit = omega arith;
  pixel_limit = omega arith;
  mode_allowed = refl;
}

abbrev later : Request
later = record { job_id = 4; now = clock; elapsed_ms = 5 }

extract-embed_example :
    (png : Bytes) × ((serve
        (embed default_settings sample_packages uuids sample_draw a_request
          (user_of 7)
          a_png
          "pw"
          "A")
        app).0
      ≡ ok (png_response uuids a_request png))
    × ((serve
          (extract default_settings sample_packages later
            (user_of 8)
            (record { filename = none; content = png })
            "pw")
          app).0
        ≡ (if ltb default_settings.max_upload_bytes (length png)
            then err bad_upload
            else ok (payload_response (utf8 "A"))))
unfolding utf8
extract-embed_example =
    extract-embed default_settings sample_packages uuids sample_draw a_request later (user_of 7)
      (user_of 8) a_png none "pw" "A" app app sample_image sample_laws sample_draw-IsEntropy
      a_png-IsUpload sample_image-IsRaster (omega arith) (omega arith) (omega arith) refl refl
