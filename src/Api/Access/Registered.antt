-- ===== src/Api/Access/Registered.antt =====
-- app/api/v1/auth.py and app/auth/dependencies.py: from a registration to an authenticated request.
use text.Mathlib.Text.{◌==◌ as str_eq}
use text.Mathlib.TextEquality.{eq_iff}
use what_a_secure_app_should.Base.{
  ℕ, ◌+◌, ◌*◌, ◌≤◌, ◌<◌, ◌≡◌, refl, inl, inr, Bool, true, false, ◌||◌, Bool-cases, some, String,
  List, [], ◌∷◌, ◌++◌, ◌==◌, ==_iff, arith, find_first,
}
use what_a_secure_app_should.Base.Outcome.{ok}
use what_a_secure_app_should.Core.Config.{minutes}
use what_a_secure_app_should.Db.{User, is_none, any_session, clashes}
use what_a_secure_app_should.Auth.Passwords.{hash_password, verify_password}
use what_a_secure_app_should.Auth.RefreshTokens.{first_session}
use what_a_secure_app_should.Auth.Jwt.{JwtLaws, timestamp}
use what_a_secure_app_should.Api.{Web, serve, commit}
use what_a_secure_app_should.Api.Auth.{Server, Visit, TokenResponse, logged_in_user, login}
use what_a_secure_app_should.Api.Auth.Account.{Registration, new_user, register}
use what_a_secure_app_should.Schemas.{
  Body, only, field, normalized, register_request, login_request,
}
use what_a_secure_app_should.Api.Auth.Routes.{register_post, login_post}
use what_a_secure_app_should.Api.Access.{get_current_user}
use what_a_secure_app_should.Api.Access.Logins.{
  bearer, LowersBearer, claims_of_login, login_authenticates,
}

-- A test that is narrower than one that no row passes finds only the row that is added.
find_added :
    (p q : User → Bool) (new : User) (rows : List User)
    → ((u : User) → q u ≡ false → p u ≡ false)
    → is_none (find_first q rows) ≡ true
    → p new ≡ true
    → find_first p (rows ++ (new ∷ [])) ≡ some new
find_added p q new [] narrower none_yet h = rw h refl
find_added p q new (u ∷ rows) narrower none_yet h = elim (Bool-cases (q u)) [
  | inl found ↦ absurd (ground arith)
  | inr other ↦ rw (narrower u other) (find_added p q new rows narrower (rw other at none_yet) h)
]

not_found_yet :
    (p q : User → Bool) (rows : List User)
    → ((u : User) → q u ≡ false → p u ≡ false)
    → is_none (find_first q rows) ≡ true
    → is_none (find_first p rows) ≡ true
not_found_yet p q [] narrower none_yet = refl
not_found_yet p q (u ∷ rows) narrower none_yet = elim (Bool-cases (q u)) [
  | inl found ↦ absurd (ground arith)
  | inr other ↦ rw (narrower u other) (not_found_yet p q rows narrower (rw other at none_yet))
]

-- The body of a login.
abbrev pub login_body : String → String → Body
login_body typed password = ("email", typed) ∷ ("password", password) ∷ []

-- The rows that take the id or the email of another.
abbrev pub is_taken : User → User → Bool
is_taken user u = (u.id == user.id) || str_eq u.email user.email

str_eq_self : (s : String) → str_eq s s ≡ true
str_eq_self s = (eq_iff s s).1 refl

same_email : (user u : User) → is_taken user u ≡ false → str_eq u.email user.email ≡ false
same_email user u h = ground arith

same_id : (user u : User) → is_taken user u ≡ false → (u.id == user.id) ≡ false
same_id user u h = ground arith

module _ (srv : Server) (drawn : Registration) (email password : String) (w : Web)
    (untaken : is_none (find_first (is_taken (new_user srv drawn email password)) w.durable.users)
      ≡ true) where
  abbrev registered : User
  registered = new_user srv drawn email password

  -- A registration adds its row and nothing else.
  pub register_adds :
      let (r, w') = serve (register srv drawn email password) w in
      (r ≡ ok tt)
      × (w'.durable.users ≡ w.durable.users ++ (registered ∷ []))
      × (w'.durable.sessions ≡ w.durable.sessions)
  unfolding serve register commit
  register_adds =
      let unknown =
        not_found_yet (λ u. str_eq u.email email) (is_taken registered) w.durable.users
          (same_email registered) untaken in
      rw (unknown, untaken) (refl, refl, refl)

  -- A login with the email and the password of a registration.
  login-register :
      (visit : Visit) (lower : String → String) (instant : ℕ)
      → verify_password srv.hasher (hash_password srv.hasher drawn.salt password) password ≡ ok true
      → any_session
          (clashes (
            first_session srv.cfg srv.sha
              (λ i. visit.now (3 + i))
              visit.tokens
              drawn.id
              visit.user_agent
              visit.ip_hash))
          w.durable.sessions
        ≡ false
      → JwtLaws srv.encode srv.decode srv.cfg.jwt_signing_key (claims_of_login srv visit registered)
      → LowersBearer lower
      → srv.uuids.parse (srv.uuids.print drawn.id) ≡ some drawn.id
      → visit.now 2 ≤ instant
      → instant
        < timestamp (visit.now 2 + minutes srv.cfg.access_token_lifetime_minutes) * 1_000_000
      → let (r, w') = serve (register srv drawn email password) w in
        let (answer, w'') = serve (login srv visit email password) w' in
        (r ≡ ok tt)
        × (response : TokenResponse) × (answer ≡ ok response)
        × ((serve (get_current_user srv lower instant (some (bearer response.access_token))) w'').0
            ≡ ok (logged_in_user visit.now registered))
  login-register visit lower instant right free laws lowers parsed since before =
      let (answered, users, sessions) = register_adds in
      let w' = (serve (register srv drawn email password) w).1 in
      let (response, same, authenticated) =
        login_authenticates srv visit email password w' registered
          (rw users (
            find_added (λ u. str_eq u.email email) (is_taken registered) registered w.durable.users
              (same_email registered) untaken (str_eq_self email)))
          refl refl right (rw sessions free) lower instant laws lowers parsed
          (rw users (
            find_added (λ u. u.id == drawn.id) (is_taken registered) registered w.durable.users
              (same_id registered) untaken ((==_iff drawn.id drawn.id).1 refl)))
          since before in
      (answered, response, same, authenticated)

-- After a registration whose body is accepted, whose email and whose drawn id no user has, a
-- login with an email that normalizes to the same one and with the same password is answered,
-- and the access token that it answers with, in a bearer header, authenticates the registered
-- user. Assumed: the hash of the password verifies it, the drawn session clashes with none, the
-- laws of PyJWT for the claims of the token while it is valid, that `str.lower` lowers
-- `Bearer`, and that the text of the id is parsed to it.
pub login_post-register_post :
    (srv : Server) (lower : String → String) (drawn : Registration) (body : Body)
    (typed email password : String) (w : Web) (visit : Visit) (instant : ℕ)
    → register_request srv.cfg lower body ≡ ok (email, password)
    → normalized lower typed ≡ email
    → is_none (find_first (is_taken (new_user srv drawn email password)) w.durable.users) ≡ true
    → verify_password srv.hasher (hash_password srv.hasher drawn.salt password) password ≡ ok true
    → any_session
        (clashes (
          first_session srv.cfg srv.sha
            (λ i. visit.now (3 + i))
            visit.tokens
            drawn.id
            visit.user_agent
            visit.ip_hash))
        w.durable.sessions
      ≡ false
    → JwtLaws srv.encode srv.decode srv.cfg.jwt_signing_key
        (claims_of_login srv visit (new_user srv drawn email password))
    → LowersBearer lower
    → srv.uuids.parse (srv.uuids.print drawn.id) ≡ some drawn.id
    → visit.now 2 ≤ instant
    → instant < timestamp (visit.now 2 + minutes srv.cfg.access_token_lifetime_minutes) * 1_000_000
    → let (r, w') = serve (register_post srv lower drawn body) w in
      let (answer, w'') = serve (login_post srv lower visit (login_body typed password)) w' in
      (r ≡ ok tt)
      × (response : TokenResponse) × (answer ≡ ok response)
      × ((serve (get_current_user srv lower instant (some (bearer response.access_token))) w'').0
          ≡ ok (logged_in_user visit.now (new_user srv drawn email password)))
unfolding register_post login_post login_request only field
login_post-register_post srv lower drawn body typed email password w visit instant accepted same
      untaken right free laws lowers parsed since before =
    rw (accepted, same)
      (login-register srv drawn email password w untaken visit lower instant right free laws lowers
        parsed since before)
