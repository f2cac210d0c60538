-- ===== src/Api/Jobs/Storage.antt =====
-- app/api/v1/jobs.py: what the handlers that process an image store and return.
use what_a_secure_app_should.Base.{
  ℕ, ◌≡◌, refl, ap, ◌∙◌, ◌⊎◌, inl, inr, not, Bool-cases, none, some, String, [], ◌∷◌, ◌++◌, ◌==◌,
  ltb, length, find_first, if◌then◌else◌,
}
use what_a_secure_app_should.Base.Bytes.{Bytes}
use what_a_secure_app_should.Base.Text.{utf8}
use what_a_secure_app_should.Base.Outcome.{
  Exception, Result, ok, err, capacity_error, file_validation_error, integrity_error,
}
use what_a_secure_app_should.Packages.{Image, Pillow, Packages, Entropy}
use what_a_secure_app_should.Core.Config.{Settings}
use what_a_secure_app_should.Core.Metrics.{embed_job}
use what_a_secure_app_should.Db.{User, ProcessingJob, Db, job_embed, job_succeeded, is_none}
use what_a_secure_app_should.Services.{embed_payload}
use what_a_secure_app_should.Api.{Web, Uuids, count, commit, ◌>>=◌, serve}
use what_a_secure_app_should.Api.Jobs.{
  bad_upload, Upload, Request, Response, loaded, load_png, add_job, finish_embed, embed_job_row,
  embed,
}

-- A handler that raised, and left the committed database.
pub record Refused (A : Type 0) (w : Web) (result : Result A × Web) : Type 0 where
  pub reason : Exception
  pub raises : result.0 ≡ err reason
  pub unchanged : result.1.durable ≡ w.durable

-- A handler that answered, and committed one more row.
pub record Stored (A : Type 0) (IsRow : ProcessingJob → A → Type 0) (w : Web)
    (result : Result A × Web) : Type 0 where
  pub answer : A
  pub row : ProcessingJob
  pub answers : result.0 ≡ ok answer
  pub committed : result.1.durable ≡ record (w.durable) { jobs = w.durable.jobs ++ (row ∷ []) }
  pub is_row : IsRow row answer

abbrev pub Settled : (A : Type 0) → (ProcessingJob → A → Type 0) → Web → Result A × Web → Type 0
Settled A IsRow w result = Refused A w result ⊎ Stored A IsRow w result

-- A state of the request that has changed nothing in the database of `start`.
record IsClean (start w : Web) : Type 0 where
  same_durable : w.durable ≡ start.durable
  same_view : w.view ≡ start.durable

Settled-bind :
    {A B : Type 0} (IsRow : ProcessingJob → B → Type 0) (start : Web) (first : Result A × Web)
    (rest : A → Web → Result B × Web)
    → IsClean start first.1
    → ((a : A) (w : Web) → IsClean start w → Settled B IsRow start (rest a w))
    → Settled B IsRow start (first >>= rest)
Settled-bind IsRow start (ok a, w) rest c h = h a w c
Settled-bind IsRow start (err e, w) rest c h =
    inl (record { reason = e; raises = refl; unchanged = c.same_durable })

Settled-add_job :
    {A : Type 0} (IsRow : ProcessingJob → A → Type 0) (start w : Web) (job : ProcessingJob)
    (answer : A) (counted : Web → Web)
    → IsClean start w
    → IsRow job answer
    → ((w : Web) → (counted w).durable ≡ w.durable)
    → Settled A IsRow start (add_job job w >>= λ _ w. (ok answer, counted w))
unfolding add_job commit
Settled-add_job IsRow start w job answer counted c h frame =
    elim (Bool-cases (not (is_none (find_first (λ j. j.id == job.id) w.view.jobs)))) [
      | inl taken ↦
          rw taken
            (inl (record { reason = integrity_error; raises = refl; unchanged = c.same_durable }))
      | inr free ↦ rw free (
          inr (record {
            answer = answer;
            row = job;
            answers = refl;
            committed =
                frame _
                ∙ ap {A = Db} (λ db. record db { jobs = db.jobs ++ (job ∷ []) }) c.same_view;
            is_row = h;
          }))
    ]

IsClean-loaded :
    (start w : Web) (raw : Bytes) (r : Result Image × ℕ)
    → IsClean start w
    → IsClean start (loaded raw w r).1
IsClean-loaded start w raw (ok image, limit) c = record {
  same_durable = c.same_durable;
  same_view = c.same_view;
}
IsClean-loaded start w raw (err e, limit) c = handled e
  where
    handled : (e : Exception) → IsClean start (loaded raw w (err e, limit)).1
    handled (file_validation_error _ _) = record {
      same_durable = c.same_durable;
      same_view = c.same_view;
    }
    handled _ = record { same_durable = c.same_durable; same_view = c.same_view }

IsClean-load_png :
    (cfg : Settings) (pil : Pillow) (upload : Upload) (start w : Web)
    → IsClean start w
    → IsClean start (load_png cfg pil upload w).1
unfolding load_png
IsClean-load_png cfg pil upload start w c =
    elim (Bool-cases (ltb cfg.max_upload_bytes (length upload.content))) [
      | inl large ↦ rw large (record { same_durable = c.same_durable; same_view = c.same_view })
      | inr fits ↦ rw fits (IsClean-loaded start w upload.content _ c)
    ]

-- What the row of an embed job says of the response.
pub record IsEmbedRow (k : Packages) (user : User) (payload : String) (job : ProcessingJob)
    (answer : Response) : Type 0 where
  pub owner : job.user_id ≡ user.id
  pub kind : job.job_type ≡ job_embed
  pub done : job.status ≡ job_succeeded
  pub kept : job.deleted_at ≡ none
  pub checksum : job.artifact_checksum ≡ some (k.sha.sha256_hexdigest answer.content)
  pub output_size : job.output_size_bytes ≡ some (length answer.content)
  pub payload_size : job.payload_size_bytes ≡ some (length (utf8 payload))

Settled-finish_embed :
    (k : Packages) (uuids : Uuids) (request : Request) (user : User) (upload : Upload) (img : Image)
    (payload : String) (start w : Web) (r : Result Bytes)
    → IsClean start w
    → Settled Response
        (IsEmbedRow k user payload)
        start
        (finish_embed k uuids request user upload img (utf8 payload) w r)
Settled-finish_embed k uuids request user upload img payload start w (ok stego) c =
    Settled-add_job (IsEmbedRow k user payload) start w
      (embed_job_row k request user upload img (utf8 payload) stego) _ (count embed_job) c
      (record {
        owner = refl;
        kind = refl;
        done = refl;
        kept = refl;
        checksum = refl;
        output_size = refl;
        payload_size = refl;
      })
      (λ w. refl)
Settled-finish_embed k uuids request user upload img payload start w (err e) c = refused e
  where
    refused :
        (e : Exception)
        → Settled Response
            (IsEmbedRow k user payload)
            start
            (finish_embed k uuids request user upload img (utf8 payload) w (err e))
    refused (capacity_error _) =
        inl (record { reason = _; raises = refl; unchanged = c.same_durable })
    refused _ = inl (record { reason = _; raises = refl; unchanged = c.same_durable })

Settled-serve :
    {A : Type 0} (IsRow : ProcessingJob → A → Type 0) (handler : Web → Result A × Web) (w : Web)
    → Settled A IsRow w (handler (record w { view = w.durable }))
    → Settled A IsRow w (serve handler w)
unfolding serve
Settled-serve IsRow handler w (inl r) =
    inl (record { reason = r.reason; raises = r.raises; unchanged = r.unchanged })
Settled-serve IsRow handler w (inr s) = inr (record {
  answer = s.answer;
  row = s.row;
  answers = s.answers;
  committed = s.committed;
  is_row = s.is_row;
})

-- A served `embed` either raises and leaves the committed database as it was, or it answers and
-- has committed exactly one more row: a succeeded EMBED job of the user, undeleted, with the
-- digest and the size of the returned image and the size of the payload.
pub embed_stores :
    (cfg : Settings) (k : Packages) (uuids : Uuids) (draw : Entropy) (request : Request)
    (user : User) (upload : Upload) (passphrase payload : String) (w : Web)
    → Settled Response
        (IsEmbedRow k user payload)
        w
        (serve (embed cfg k uuids draw request user upload passphrase payload) w)
unfolding embed
embed_stores cfg k uuids draw request user upload passphrase payload w =
    Settled-serve (IsEmbedRow k user payload)
      (embed cfg k uuids draw request user upload passphrase payload) w
      (Settled-bind (IsEmbedRow k user payload) w (load_png cfg k.pil upload fresh) _
        (IsClean-load_png cfg k.pil upload w fresh clean) rest)
  where
    fresh : Web
    fresh = record w { view = w.durable }

    clean : IsClean w fresh
    clean = record { same_durable = refl; same_view = refl }

    rest :
        (a : Image × Bytes) (w' : Web)
        → IsClean w w'
        → Settled Response (IsEmbedRow k user payload) w (
            if ltb cfg.max_payload_bytes (length (utf8 payload))
            then (err bad_upload, w')
            else finish_embed k uuids request user upload a.0
                (utf8 payload)
                w'
                (embed_payload k draw a.0 (utf8 payload) passphrase))
    rest a w' c = elim (Bool-cases (ltb cfg.max_payload_bytes (length (utf8 payload)))) [
      | inl large ↦
          rw large (inl (record { reason = _; raises = refl; unchanged = c.same_durable }))
      | inr fits ↦ rw fits (Settled-finish_embed k uuids request user upload a.0 payload w w' _ c)
    ]
