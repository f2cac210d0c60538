-- ===== src/Api/Access/Logins.antt =====
-- app/api/v1/auth.py and app/auth/dependencies.py: the access token of a login authenticates its user.
use text.Mathlib.Text.{◌==◌ as str_eq, starts_with}
use text.Mathlib.TextLemmas.{cons-append, nil-append, append_assoc}
use Prim.Native.String.{◌++◌}
use what_a_secure_app_should.Base.{
  ℕ, ◌+◌, ◌*◌, ◌≤◌, ◌<◌, ◌≡◌, refl, ap, ◌∙◌, inl, inr, true, false, Bool-cases, some, String, List,
  [], ◌∷◌, ◌==◌, arith, find_first,
}
use what_a_secure_app_should.Base.Str.{
  is_space, is_empty, after_space, IsCompact, strip_compact, after_space-append,
}
use what_a_secure_app_should.Base.Outcome.{ok}
use what_a_secure_app_should.Core.Config.{minutes}
use what_a_secure_app_should.Db.{User, status_active, any_session, clashes, add_session}
use what_a_secure_app_should.Auth.Passwords.{verify_password}
use what_a_secure_app_should.Auth.RefreshTokens.{first_session, issue_initial}
use what_a_secure_app_should.Auth.Jwt.{
  Claims, JwtLaws, timestamp, create_access_token, decode_access_token,
}
use what_a_secure_app_should.Api.{Web, serve, commit}
use what_a_secure_app_should.Api.Auth.{
  Server, Visit, TokenResponse, find_email, update_user, locked_after, logged_in_user,
  token_response, login,
}
use what_a_secure_app_should.Api.Access.{get_current_user}

-- The header that a client makes of its token.
abbrev pub bearer : String → String
bearer token = "Bearer " ++ token

-- What is relied on of `str.lower`.
abbrev pub LowersBearer : (String → String) → Type 0
LowersBearer lower = (s : String) → starts_with (lower (bearer s)) "bearer " ≡ true

IsCompact-bearer : IsCompact "Bearer"
unfolding is_space
IsCompact-bearer = (refl, (refl, (refl, (refl, (refl, (refl, tt))))))

after_space-bearer : (token : String) → after_space (bearer token) ≡ some token
after_space-bearer token =
    let split : bearer token ≡ "Bearer" ++ (" " ++ token) = append_assoc "Bearer" " " token in
    let one : " " ++ token ≡ String.◌∷◌ " " token =
      cons-append " " "" token ∙ ap (String.◌∷◌ " ") (nil-append token) in
    rw (split, one) (after_space-append "Bearer" token IsCompact-bearer)

not_empty : (s t : String) → after_space s ≡ some t → is_empty s ≡ false
unfolding after_space
not_empty String.[] t h = absurd (ground arith)
not_empty (String.◌∷◌ c s) t h = refl

-- A valid token of an active user, in a bearer header.
pub bearer_authenticates :
    (srv : Server) (lower : String → String) (instant : ℕ) (w : Web) (user : User) (token : String)
    (claims : Claims)
    → LowersBearer lower
    → IsCompact token
    → srv.decode instant srv.cfg.jwt_signing_key token ≡ ok claims
    → srv.uuids.parse claims.sub ≡ some user.id
    → find_first (λ u. u.id == user.id) w.view.users ≡ some user
    → str_eq user.status status_active ≡ true
    → get_current_user srv lower instant (some (bearer token)) w ≡ (ok user, w)
unfolding get_current_user decode_access_token
bearer_authenticates srv lower instant w user token claims lowers compact decoded parsed found
      active =
    rw
      (
        not_empty (bearer token) token (after_space-bearer token),
        lowers token,
        after_space-bearer token,
        strip_compact token compact,
        decoded,
        parsed,
        found,
        active,
      )
      refl

pub found_by_id :
    (changed user : User) (rows : List User)
    → find_first (λ u. u.id == changed.id) rows ≡ some user
    → find_first (λ u. u.id == changed.id) (update_user changed rows) ≡ some changed
unfolding update_user
found_by_id changed user [] h = absurd (ground arith)
found_by_id changed user (u ∷ rows) h = elim (Bool-cases (u.id == changed.id)) [
  | inl same ↦ ground arith
  | inr other ↦ rw (other, other) (found_by_id changed user rows (rw other at h))
]

-- The claims of the token that a login returns.
abbrev pub claims_of_login : Server → Visit → User → Claims
claims_of_login srv visit user = record {
  sub = srv.uuids.print user.id;
  role = user.role;
  iat = timestamp (visit.now 2);
  exp = timestamp (visit.now 2 + minutes srv.cfg.access_token_lifetime_minutes);
  jti = visit.jti;
}

module _ (srv : Server) (visit : Visit) (email password : String) (w : Web) (user : User)
    (by_email : find_email email w.durable.users ≡ some user)
    (active : str_eq user.status status_active ≡ true)
    (unlocked : locked_after user.locked_until (visit.now 0) ≡ false)
    (right : verify_password srv.hasher user.password_hash password ≡ ok true)
    (free : any_session
        (clashes (
          first_session srv.cfg srv.sha
            (λ i. visit.now (3 + i))
            visit.tokens
            user.id
            visit.user_agent
            visit.ip_hash))
        w.durable.sessions
      ≡ false) where
  -- The answer and the users that it leaves.
  pub login_answers :
      let (r, w') = serve (login srv visit email password) w in
      (response : TokenResponse) × (r ≡ ok response)
      × (response.access_token
          ≡ srv.encode (claims_of_login srv visit user) srv.cfg.jwt_signing_key)
      × (w'.durable.users ≡ update_user (logged_in_user visit.now user) w.durable.users)
  unfolding serve login token_response issue_initial add_session commit create_access_token
  login_answers = rw (by_email, unlocked, active, right, free) (_, refl, refl, refl)

  -- x
  pub login_authenticates :
      (lower : String → String) (instant : ℕ)
      → JwtLaws srv.encode srv.decode srv.cfg.jwt_signing_key (claims_of_login srv visit user)
      → LowersBearer lower
      → srv.uuids.parse (srv.uuids.print user.id) ≡ some user.id
      → find_first (λ u. u.id == user.id) w.durable.users ≡ some user
      → visit.now 2 ≤ instant
      → instant
        < timestamp (visit.now 2 + minutes srv.cfg.access_token_lifetime_minutes) * 1_000_000
      → let (r, w') = serve (login srv visit email password) w in
        (response : TokenResponse) × (r ≡ ok response)
        × ((serve (get_current_user srv lower instant (some (bearer response.access_token))) w').0
            ≡ ok (logged_in_user visit.now user))
  unfolding serve
  login_authenticates lower instant laws lowers parsed by_id since before =
      let (response, answered, token, users) = login_answers in
      let w' = (serve (login srv visit email password) w).1 in
      let logged_in = logged_in_user visit.now user in
      (
        response,
        answered,
        ap (λ x. x.0)
            (bearer_authenticates srv lower instant (record w' { view = w'.durable }) logged_in
              response.access_token (claims_of_login srv visit user) lowers
              (rw token (laws.encode-IsCompact))
              (rw token (laws.decode-encode instant (omega arith) before)) parsed
              (rw users (found_by_id logged_in user w.durable.users by_id)) active),
      )
