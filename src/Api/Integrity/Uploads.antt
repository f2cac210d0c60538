-- ===== src/Api/Integrity/Uploads.antt =====
-- app/api/v1/jobs.py: the routes of the jobs keep the tables consistent.
use what_a_secure_app_should.Base.{
  ℕ, ◌≡◌, refl, sym, subst, inl, inr, true, not, Bool-cases, some, Option-cases, String, List, [],
  ◌∷◌, ◌==◌, ltb, length, arith, All, All-append, find_first,
}
use what_a_secure_app_should.Base.Bytes.{Bytes}
use what_a_secure_app_should.Base.Text.{utf8}
use what_a_secure_app_should.Base.Outcome.{
  Result, ok, err, file_validation_error, capacity_error, extraction_error,
}
use what_a_secure_app_should.Packages.{Image, Pillow, Packages, Entropy}
use what_a_secure_app_should.Core.Config.{Settings, Clock}
use what_a_secure_app_should.Db.{User, ProcessingJob, is_none, job_verify}
use what_a_secure_app_should.Files.Validators.{validate_png}
use what_a_secure_app_should.Services.{embed_payload, extract_payload}
use what_a_secure_app_should.Steg.Verifier.{VerifyResult, verify}
use what_a_secure_app_should.Api.{Web, Uuids, commit, count, ◌>>=◌}
use what_a_secure_app_should.Api.Jobs.{
  Request, Upload, new_job, extract_job_row, loaded, load_png, add_job, finish_embed, embed_job_row,
  embed, finish_extract, extract, finish_verify, verify_endpoint, get_row, is_own, owned_job_or_404,
  update_job, delete_job,
}
use what_a_secure_app_should.Api.Integrity.{known}
use what_a_secure_app_should.Api.Integrity.Logins.{Sound}

-- A state in which the caller of a job's route has a row.
abbrev pub ForCaller : User → Web → Type 0
ForCaller user w = Sound w × (known user.id w.view.users ≡ true)

bind-Sound {ℓ κ} :
    {A : Type ℓ} {B : Type κ} (user : User) (x : Result A × Web) (f : A → Web → Result B × Web)
    → ForCaller user x.1
    → ((a : A) (w : Web) → ForCaller user w → Sound (f a w).1)
    → Sound (x >>= f).1
bind-Sound user (ok a, w) f h go = go a w h
bind-Sound user (err e, w) f h go = h.0

loaded-ForCaller :
    (user : User) (raw : Bytes) (w : Web) (x : Result Image × ℕ)
    → ForCaller user w
    → ForCaller user (loaded raw w x).1
loaded-ForCaller user raw w (ok image, limit) h = h
loaded-ForCaller user raw w (err (file_validation_error c m), limit) h = h
loaded-ForCaller user raw w (err _, limit) h = h

load_png-ForCaller :
    (cfg : Settings) (pil : Pillow) (user : User) (upload : Upload) (w : Web)
    → ForCaller user w
    → ForCaller user (load_png cfg pil upload w).1
unfolding load_png
load_png-ForCaller cfg pil user upload w h =
    elim (Bool-cases (ltb cfg.max_upload_bytes (length upload.content))) [
      | inl large ↦ rw large h
      | inr small ↦ rw small (
          loaded-ForCaller user upload.content w
            (validate_png pil cfg.max_upload_bytes cfg.max_image_dimension cfg.max_decoded_pixels
              upload.content w.max_image_pixels)
            h)
    ]

-- A job of the caller is added; what follows only counts.
added-Sound {ℓ} :
    {A : Type ℓ} (user : User) (job : ProcessingJob) (answer : A) (name : String) (w : Web)
    → job.user_id ≡ user.id
    → ForCaller user w
    → Sound (add_job job w >>= λ _ w. (ok answer, count name w)).1
unfolding add_job commit
added-Sound user job answer name w own (h, k) =
    elim (Bool-cases (not (is_none (find_first (λ j. j.id == job.id) w.view.jobs)))) [
      | inl taken ↦ rw taken h
      | inr free ↦
          let jobs =
            All-append (λ j. known j.user_id w.view.users ≡ true) w.view.jobs (job ∷ []) h.1.1
              (subst (λ id. known id w.view.users ≡ true) (sym own) k, tt) in
          rw free ((h.1.0, jobs, h.1.2), (h.1.0, jobs, h.1.2))
    ]

pub embed-Sound :
    (cfg : Settings) (k : Packages) (uuids : Uuids) (draw : Entropy) (request : Request)
    (user : User) (upload : Upload) (passphrase payload : String) (w : Web)
    → ForCaller user w
    → Sound (embed cfg k uuids draw request user upload passphrase payload w).1
unfolding embed
embed-Sound cfg k uuids draw request user upload passphrase payload w h =
    bind-Sound user (load_png cfg k.pil upload w) _ (load_png-ForCaller cfg k.pil user upload w h)
      λ (img, raw) w' h'. elim (Bool-cases (ltb cfg.max_payload_bytes (length (utf8 payload)))) [
        | inl large ↦ rw large h'.0
        | inr small ↦
            rw small (embedded img w' h' (embed_payload k draw img (utf8 payload) passphrase))
      ]
  where
    embedded :
        (img : Image) (w' : Web)
        → ForCaller user w'
        → (r : Result Bytes)
        → Sound (finish_embed k uuids request user upload img (utf8 payload) w' r).1
    embedded img w' h' (ok stego) =
        added-Sound user (embed_job_row k request user upload img (utf8 payload) stego) _ _ w' refl
          h'
    embedded img w' h' (err (capacity_error m)) = h'.0
    embedded img w' h' (err _) = h'.0

pub extract-Sound :
    (cfg : Settings) (k : Packages) (request : Request) (user : User) (upload : Upload)
    (passphrase : String) (w : Web)
    → ForCaller user w
    → Sound (extract cfg k request user upload passphrase w).1
unfolding extract
extract-Sound cfg k request user upload passphrase w h =
    bind-Sound user (load_png cfg k.pil upload w) _ (load_png-ForCaller cfg k.pil user upload w h)
      λ (img, raw) w' h'. extracted w' h' (extract_payload k img passphrase)
  where
    extracted :
        (w' : Web)
        → ForCaller user w'
        → (r : Result Bytes) → Sound (finish_extract request user w' r).1
    extracted w' h' (ok payload) =
        added-Sound user (extract_job_row request user payload) _ _ w' refl h'
    extracted w' h' (err (extraction_error m)) = h'.0
    extracted w' h' (err _) = h'.0

pub verify_endpoint-Sound :
    (cfg : Settings) (k : Packages) (request : Request) (user : User) (upload : Upload) (w : Web)
    → ForCaller user w
    → Sound (verify_endpoint cfg k request user upload w).1
unfolding verify_endpoint
verify_endpoint-Sound cfg k request user upload w h =
    bind-Sound user (load_png cfg k.pil upload w) _ (load_png-ForCaller cfg k.pil user upload w h)
      λ (img, raw) w' h'. verified w' h' (verify k img)
  where
    verified :
        (w' : Web)
        → ForCaller user w'
        → (r : Result VerifyResult) → Sound (finish_verify request user w' r).1
    verified w' h' (ok result) = added-Sound user (new_job request user job_verify) _ _ w' refl h'
    verified w' h' (err e) = h'.0

deleted-jobs :
    (P : ℕ → Type 0) (changed : ProcessingJob) (rows : List ProcessingJob)
    → P changed.user_id
    → All (λ j. P j.user_id) rows
    → All (λ j. P j.user_id) (update_job changed rows)
unfolding update_job
deleted-jobs P changed [] p h = tt
deleted-jobs P changed (j ∷ rows) p h = elim (Bool-cases (j.id == changed.id)) [
  | inl same ↦ rw same (p, deleted-jobs P changed rows p h.1)
  | inr other ↦ rw other (h.0, deleted-jobs P changed rows p h.1)
]

owner_of_row :
    (P : ℕ → Type 0) (jid : ℕ) (rows : List ProcessingJob) (job : ProcessingJob)
    → All (λ j. P j.user_id) rows
    → get_row jid rows ≡ some job
    → P job.user_id
owner_of_row P jid [] job h found = absurd (ground arith)
owner_of_row P jid (j ∷ rows) job h found = elim (Bool-cases (j.id == jid)) [
  | inl here ↦ let same : j ≡ job = ground arith in subst (λ x. P x.user_id) same h.0
  | inr there ↦ owner_of_row P jid rows job h.1 (rw there at found)
]

pub delete_job-Sound :
    (uuids : Uuids) (now : Clock) (job_id : String) (user : User) (w : Web)
    → Sound w
    → Sound (delete_job uuids now job_id user w).1
unfolding delete_job owned_job_or_404 commit
delete_job-Sound uuids now job_id user w h = elim (Option-cases (uuids.parse job_id)) [
  | inl bad ↦ rw bad h
  | inr (jid, parsed) ↦ elim (Option-cases (get_row jid w.view.jobs)) [
    | inl missing ↦ rw (parsed, missing) h
    | inr (job, found) ↦ elim (Bool-cases (is_own user job)) [
      | inr foreign ↦ rw (parsed, found, foreign) h
      | inl own ↦
          let P = λ (id : ℕ). known id w.view.users ≡ true in
          let jobs =
            deleted-jobs P (record job { deleted_at = some (now 0) }) w.view.jobs
              (owner_of_row P jid w.view.jobs job h.1.1 found) h.1.1 in
          rw (parsed, found, own) ((h.1.0, jobs, h.1.2), (h.1.0, jobs, h.1.2))
    ]
  ]
]
