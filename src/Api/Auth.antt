-- ===== src/Api/Auth.antt =====
-- app/api/v1/auth.py: registration, login with its lockout, and the use and the revocation of refresh
-- tokens. `user` is what `get_current_user` resolved.
pub mod Account
pub mod Lockout
pub mod Refresh
pub mod Visitors
pub mod Logout
pub mod Routes
mod Tests
use text.Mathlib.Text.{◌==◌ as str_eq}
use what_a_secure_app_should.Base.{
  ℕ, ◌+◌, Bool, true, false, not, Option, none, some, String, List, [], ◌∷◌, ◌++◌, ◌==◌, ltb, leb,
  find_first, if◌then◌else◌,
}
use what_a_secure_app_should.Base.Outcome.{
  Exception, Result, ok, err, integrity_error, replay_detected, invalid_refresh_token,
  http_exception,
}
use what_a_secure_app_should.Packages.{Hashlib}
use what_a_secure_app_should.Core.Config.{Settings, Clock, minutes}
use what_a_secure_app_should.Core.Metrics.{login_failure, refresh_replay, authorization_denial}
use what_a_secure_app_should.Db.{User, Session, Db, status_active, role_user, is_none}
use what_a_secure_app_should.Auth.Passwords.{PasswordHasher, hash_password, verify_password}
use what_a_secure_app_should.Auth.Jwt.{JwtEncode, JwtDecode, create_access_token}
use what_a_secure_app_should.Auth.RefreshTokens.{
  IssuedRefresh, Draws, Sessions, hash_token, issue_initial, rotate, find_by_hash, revoke_session,
}
use what_a_secure_app_should.Api.{Web, Uuids, count, commit, ◌>>=◌, not_found}

pub record Server : Type 0 where
  pub cfg : Settings
  pub sha : Hashlib
  pub hasher : PasswordHasher
  pub encode : JwtEncode
  pub decode : JwtDecode
  pub uuids : Uuids

-- What one request draws from outside; `user_agent` and `ip_hash` are the results of `_ua` and
-- `_ip_hash`.
pub record Visit : Type 0 where
  pub now : Clock
  pub tokens : Draws
  pub jti : String
  pub user_agent : Option String
  pub ip_hash : Option String

pub record TokenResponse : Type 0 where
  pub access_token : String
  pub refresh_token : String
  pub access_token_expiration : ℕ
  pub refresh_token_expiration : ℕ
  pub token_type : String

abbrev pub invalid_credentials : Exception
invalid_credentials = http_exception 401 "Invalid credentials."

-- `select(User).where(User.email == email)`
abbrev pub find_email : String → List User → Option User
find_email email = find_first (λ u. str_eq u.email email)

-- The flush of a changed row: the row of that primary key.
unfoldable pub update_user : User → List User → List User
update_user changed [] = []
update_user changed (u ∷ rows) =
    (if u.id == changed.id then changed else u) ∷ update_user changed rows

abbrev pub with_users : Web → List User → Web
with_users w users = record w { view = record (w.view) { users = users } }

abbrev pub with_sessions : Web → Sessions → Web
with_sessions w sessions = record w { view = record (w.view) { sessions = sessions } }

-- A call of the refresh tokens, over the sessions in view.
abbrev pub on_sessions {ℓ} : {A : Type ℓ} → Web → Result A × Sessions → Result A × Web
on_sessions w (r, sessions) = (r, with_sessions w sessions)

abbrev pub response_for : Server → Visit → ℕ → User → IssuedRefresh → TokenResponse
response_for srv visit instant user issued =
    let (access, access_exp) =
      create_access_token srv.cfg srv.encode instant visit.jti (srv.uuids.print user.id)
        user.role in
    record {
      access_token = access;
      refresh_token = issued.raw_token;
      access_token_expiration = access_exp;
      refresh_token_expiration = issued.session.expires_at;
      token_type = "bearer";
    }

-- `_token_response`
unfoldable pub token_response : Server → Visit → User → Web → Result TokenResponse × Web
token_response srv visit user w =
    on_sessions w (
      issue_initial srv.cfg srv.sha (λ i. visit.now (3 + i)) visit.tokens user.id visit.user_agent
        visit.ip_hash w.view.sessions)
    >>= λ issued w. (ok (response_for srv visit (visit.now 2) user issued), commit w)

-- `user.locked_until and _aware(user.locked_until) > _now()`
abbrev pub locked_after : Option ℕ → ℕ → Bool
locked_after none instant = false
locked_after (some until) instant = ltb instant until

-- The row after a wrong password; `updated_at` is set by the flush.
abbrev pub failed_user : Settings → Clock → User → User
failed_user cfg now user = record user {
  failed_login_count = user.failed_login_count + 1;
  locked_until =
      if leb cfg.max_failed_logins (user.failed_login_count + 1)
      then some (now 1 + minutes cfg.lockout_minutes)
      else user.locked_until;
  updated_at = now 2;
}

abbrev pub logged_in_user : Clock → User → User
logged_in_user now user = record user {
  failed_login_count = 0;
  locked_until = none;
  last_login_at = some (now 1);
  updated_at = now 5;
}

-- The password of an existing user: not even looked at if the account is disabled.
abbrev pub password_ok : PasswordHasher → User → String → Result Bool
password_ok hasher user password =
    if str_eq user.status status_active
    then verify_password hasher user.password_hash password
    else ok false

-- After the password was checked.
abbrev pub finish_login : Server → Visit → User → Web → Result Bool → Result TokenResponse × Web
finish_login srv visit user w (err e) = (err e, w)
finish_login srv visit user w (ok false) = (
  err invalid_credentials,
  count login_failure
      (commit (with_users w (update_user (failed_user srv.cfg visit.now user) w.view.users))),
)
finish_login srv visit user w (ok true) =
    let logged_in = logged_in_user visit.now user in
    token_response srv visit logged_in (with_users w (update_user logged_in w.view.users))

abbrev pub login_found : Server → Visit → String → Web → Option User → Result TokenResponse × Web
login_found srv visit password w none = (err invalid_credentials, count login_failure w)
login_found srv visit password w (some user) =
    if locked_after user.locked_until (visit.now 0)
    then (err invalid_credentials, w)
    else finish_login srv visit user w (password_ok srv.hasher user password)

unfoldable pub login : Server → Visit → String → String → Web → Result TokenResponse × Web
login srv visit email password w = login_found srv visit password w (find_email email w.view.users)

-- After the rotation: a disabled user gets no token, and the rotation is not committed.
abbrev pub refreshed_user :
    Server → Visit → IssuedRefresh → Web → Option User → Result TokenResponse × Web
refreshed_user srv visit issued w none = (err invalid_credentials, w)
refreshed_user srv visit issued w (some user) =
    if not (str_eq user.status status_active)
    then (err invalid_credentials, w)
    else (ok (response_for srv visit (visit.now 4) user issued), commit w)

-- The `except` clauses around `rt.rotate`, and what follows it.
abbrev pub finish_refresh : Server → Visit → Result IssuedRefresh × Web → Result TokenResponse × Web
finish_refresh srv visit (ok issued, w) =
    refreshed_user srv visit issued w
      (find_first (λ u. u.id == issued.session.user_id) w.view.users)
finish_refresh srv visit (err (replay_detected _), w) =
    (err invalid_credentials, count refresh_replay (commit w))
finish_refresh srv visit (err (invalid_refresh_token _), w) = (err invalid_credentials, w)
finish_refresh srv visit (err e, w) = (err e, w)

unfoldable pub refresh : Server → Visit → String → Web → Result TokenResponse × Web
refresh srv visit refresh_token w =
    finish_refresh srv visit
      (on_sessions w (rotate srv.cfg srv.sha visit.now visit.tokens refresh_token w.view.sessions))

-- `if session is not None: revoke_session; commit`
abbrev pub logout_found : Clock → Web → Option Session → Result (Unit {0}) × Web
logout_found now w none = (ok tt, w)
logout_found now w (some session) =
    (ok tt, commit (with_sessions w (revoke_session now session w.view.sessions)))

unfoldable pub logout : Server → Clock → String → Web → Result (Unit {0}) × Web
logout srv now refresh_token w =
    logout_found now w (find_by_hash (hash_token srv.sha refresh_token) w.view.sessions)

-- The ownership test of the session that `db.get` returned.
abbrev pub revoke_found : Clock → User → Web → Option Session → Result (Unit {0}) × Web
revoke_found now user w none = (err not_found, count authorization_denial w)
revoke_found now user w (some session) =
    if not (session.user_id == user.id)
    then (err not_found, count authorization_denial w)
    else (ok tt, commit (with_sessions w (revoke_session now session w.view.sessions)))

abbrev pub revoke_parsed : Clock → User → Web → Option ℕ → Result (Unit {0}) × Web
revoke_parsed now user w none = (err not_found, w)
revoke_parsed now user w (some sid) =
    revoke_found now user w (find_first (λ s. s.id == sid) w.view.sessions)

unfoldable pub revoke_one : Server → Clock → String → User → Web → Result (Unit {0}) × Web
revoke_one srv now session_id user w = revoke_parsed now user w (srv.uuids.parse session_id)
