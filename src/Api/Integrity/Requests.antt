-- ===== src/Api/Integrity/Requests.antt =====
-- Histories of requests: any sequence of the routes that change the database.
use what_a_secure_app_should.Base.{ℕ, ◌≡◌, Option, String}
use what_a_secure_app_should.Base.Outcome.{Result, ok, err}
use what_a_secure_app_should.Packages.{Packages, Entropy}
use what_a_secure_app_should.Core.Config.{Clock}
use what_a_secure_app_should.Db.{User}
use what_a_secure_app_should.Schemas.{Body, register_request, login_request, refresh_request}
use what_a_secure_app_should.Api.{Web, serve}
use what_a_secure_app_should.Api.Auth.{Server, Visit, revoke_one}
use what_a_secure_app_should.Api.Auth.Account.{Registration, delete_me}
use what_a_secure_app_should.Api.Auth.Routes.{
  on_body, register_post, login_post, refresh_post, logout_post,
}
use what_a_secure_app_should.Api.Admin.{set_status}
use what_a_secure_app_should.Api.Jobs.{Request, Upload, embed, extract, verify_endpoint, delete_job}
use what_a_secure_app_should.Api.Access.{as_user}
use what_a_secure_app_should.Api.Access.Administered.{as_user_lem}
use what_a_secure_app_should.Api.Integrity.{IsConsistent, known_of_found}
use what_a_secure_app_should.Api.Integrity.Logins.{
  Sound, Sound-serve, register-Sound, login-Sound, refresh-Sound,
}
use what_a_secure_app_should.Api.Integrity.Handlers.{
  logout-Sound, revoke_one-Sound, set_status-Sound, delete_me-Sound,
}
use what_a_secure_app_should.Api.Integrity.Uploads.{
  ForCaller, embed-Sound, extract-Sound, verify_endpoint-Sound, delete_job-Sound,
}

-- A request from its body on.
on_body-Sound {ℓ κ} :
    {A : Type ℓ} {B : Type κ} (body : Result B) (handler : B → Web → Result A × Web) (w : Web)
    → Sound w
    → ((b : B) → Sound (handler b w).1)
    → Sound (on_body body handler w).1
on_body-Sound (ok b) handler w h go = go b
on_body-Sound (err e) handler w h go = h

module _ (srv : Server) (lower : String → String) (k : Packages) where
  -- A request with an `Authorization` header.
  abbrev authorized {ℓ} :
      {A : Type ℓ} → ℕ → Option String → (User → Web → Result A × Web) → Web → Web
  authorized instant header handler w = (serve (as_user srv lower instant header handler) w).1

  -- One served request. The entries behind a header are those of a `Depends(get_current_user)`.
  pub data Served (w w' : Web) : Type 0 where
    registers :
        (drawn : Registration) (body : Body)
        → w' ≡ (serve (register_post srv lower drawn body) w).1
        → Served w w'
    logs_in :
        (visit : Visit) (body : Body)
        → w' ≡ (serve (login_post srv lower visit body) w).1
        → Served w w'
    refreshes :
        (visit : Visit) (body : Body) → w' ≡ (serve (refresh_post srv visit body) w).1 → Served w w'
    logs_out :
        (now : Clock) (body : Body) → w' ≡ (serve (logout_post srv now body) w).1 → Served w w'
    revokes :
        (instant : ℕ) (header : Option String) (now : Clock) (session_id : String)
        → w' ≡ authorized instant header (revoke_one srv now session_id) w
        → Served w w'
    deletes_account :
        (instant : ℕ) (header : Option String)
        → w' ≡ authorized instant header delete_me w
        → Served w w'
    sets_status :
        (instant : ℕ) (header : Option String) (now : Clock) (user_id new_status : String)
        → w' ≡ authorized instant header (set_status srv.uuids now user_id new_status) w
        → Served w w'
    embeds :
        (instant : ℕ) (header : Option String) (draw : Entropy) (request : Request)
        (upload : Upload) (passphrase payload : String)
        → w'
          ≡ authorized instant header
              (λ user. embed srv.cfg k srv.uuids draw request user upload passphrase payload)
              w
        → Served w w'
    extracts :
        (instant : ℕ) (header : Option String) (request : Request) (upload : Upload)
        (passphrase : String)
        → w'
          ≡ authorized instant header (λ user. extract srv.cfg k request user upload passphrase) w
        → Served w w'
    verifies :
        (instant : ℕ) (header : Option String) (request : Request) (upload : Upload)
        → w' ≡ authorized instant header (λ user. verify_endpoint srv.cfg k request user upload) w
        → Served w w'
    deletes_job :
        (instant : ℕ) (header : Option String) (now : Clock) (job_id : String)
        → w' ≡ authorized instant header (delete_job srv.uuids now job_id) w
        → Served w w'

  pub data Reach (w : Web) : Web → Type 0 where
    here : Reach w w
    next : {before after : Web} → Reach w before → Served before after → Reach w after

  authorized-IsConsistent {ℓ} :
      {A : Type ℓ} (instant : ℕ) (header : Option String) (handler : User → Web → Result A × Web)
      (w : Web)
      → ((user : User) (w0 : Web) → ForCaller user w0 → Sound (handler user w0).1)
      → IsConsistent w.durable
      → IsConsistent (authorized instant header handler w).durable
  authorized-IsConsistent instant header handler w keeps =
      let w0 : Web = record w { view = w.durable } in
      Sound-serve (as_user srv lower instant header handler) w λ h.
        as_user_lem (λ x. Sound x.1) srv lower instant header handler w0 (λ e. h)
          λ actor someone.
            keeps actor w0 (h, known_of_found actor.id w.durable.users actor someone.row)

  Served-IsConsistent :
      {w w' : Web} → Served w w' → IsConsistent w.durable → IsConsistent w'.durable
  unfolding register_post login_post refresh_post logout_post
  Served-IsConsistent {w} (registers drawn body e) h = rw e (
      Sound-serve (register_post srv lower drawn body) w
        (λ s.
          on_body-Sound (register_request srv.cfg lower body) _ _ s
            λ (email, password). register-Sound srv drawn email password _ s)
        h)
  Served-IsConsistent {w} (logs_in visit body e) h = rw e (
      Sound-serve (login_post srv lower visit body) w
        (λ s.
          on_body-Sound (login_request lower body) _ _ s
            λ (email, password). login-Sound srv visit email password _ s)
        h)
  Served-IsConsistent {w} (refreshes visit body e) h = rw e (
      Sound-serve (refresh_post srv visit body) w
        (λ s. on_body-Sound (refresh_request body) _ _ s λ token. refresh-Sound srv visit token _ s)
        h)
  Served-IsConsistent {w} (logs_out now body e) h = rw e (
      Sound-serve (logout_post srv now body) w
        (λ s. on_body-Sound (refresh_request body) _ _ s λ token. logout-Sound srv now token _ s) h)
  Served-IsConsistent {w} (revokes instant header now session_id e) h = rw e (
      authorized-IsConsistent instant header (revoke_one srv now session_id) w
        (λ user w0 s. revoke_one-Sound srv now session_id user w0 s.0) h)
  Served-IsConsistent {w} (deletes_account instant header e) h = rw e (
      authorized-IsConsistent instant header delete_me w (λ user w0 s. delete_me-Sound user w0 s.0)
        h)
  Served-IsConsistent {w} (sets_status instant header now user_id new_status e) h = rw e (
      authorized-IsConsistent instant header (set_status srv.uuids now user_id new_status) w
        (λ user w0 s. set_status-Sound srv.uuids now user_id new_status user w0 s.0) h)
  Served-IsConsistent {w} (embeds instant header draw request upload passphrase payload e) h =
      rw e (
        authorized-IsConsistent instant header
          (λ user. embed srv.cfg k srv.uuids draw request user upload passphrase payload) w
          (λ user w0 s.
            embed-Sound srv.cfg k srv.uuids draw request user upload passphrase payload w0 s)
          h)
  Served-IsConsistent {w} (extracts instant header request upload passphrase e) h = rw e (
      authorized-IsConsistent instant header
        (λ user. extract srv.cfg k request user upload passphrase) w
        (λ user w0 s. extract-Sound srv.cfg k request user upload passphrase w0 s) h)
  Served-IsConsistent {w} (verifies instant header request upload e) h = rw e (
      authorized-IsConsistent instant header (λ user. verify_endpoint srv.cfg k request user upload)
        w (λ user w0 s. verify_endpoint-Sound srv.cfg k request user upload w0 s) h)
  Served-IsConsistent {w} (deletes_job instant header now job_id e) h = rw e (
      authorized-IsConsistent instant header (delete_job srv.uuids now job_id) w
        (λ user w0 s. delete_job-Sound srv.uuids now job_id user w0 s.0) h)

  -- Where every committed session and job belongs to a committed user, and no two committed
  -- users have an id or an email in common, this holds after any history of served requests to
  -- the routes that change the database: registration, login, refresh and logout from their
  -- bodies on, and, behind `get_current_user`, the revocation of a session, the deletion of an
  -- account, the change of a status, `embed`, `extract`, `verify_endpoint` and the deletion of
  -- a job.
  pub Reach-IsConsistent :
      {w w' : Web} → IsConsistent w.durable → Reach w w' → IsConsistent w'.durable
  Reach-IsConsistent h here = h
  Reach-IsConsistent h (next r s) = Served-IsConsistent s (Reach-IsConsistent h r)
