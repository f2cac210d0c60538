-- ===== src/Api/Access.antt =====
-- app/auth/dependencies.py: the user of a request, resolved from its Authorization header.
pub mod Tokens
pub mod Logins
pub mod Disabling
pub mod Registered
pub mod Administered
pub mod Sample
mod Tests
use text.Mathlib.Text.{◌==◌ as str_eq, starts_with}
use what_a_secure_app_should.Base.{
  ℕ, Bool, not, ◌||◌, Option, none, some, String, ◌==◌, find_first, if◌then◌else◌,
}
use what_a_secure_app_should.Base.Str.{is_empty, strip, after_space}
use what_a_secure_app_should.Base.Outcome.{
  Exception, Result, ok, err, token_error, value_error, index_error, http_exception,
}
use what_a_secure_app_should.Db.{User, status_active}
use what_a_secure_app_should.Auth.Jwt.{Claims, decode_access_token}
use what_a_secure_app_should.Api.{Web, ◌>>=◌}
use what_a_secure_app_should.Api.Auth.{Server}

abbrev pub not_authenticated : Exception
not_authenticated = http_exception 401 "Not authenticated"

-- The user of an id, if the account is active.
abbrev pub active_user : Option User → Result User
active_user none = err not_authenticated
active_user (some user) =
    if not (str_eq user.status status_active) then err not_authenticated else ok user

-- `uuid.UUID(claims["sub"])`, whose ValueError is caught, and the row of that id.
abbrev pub user_of_id : Web → Option ℕ → Result User
user_of_id w none = err not_authenticated
user_of_id w (some id) = active_user (find_first (λ u. u.id == id) w.view.users)

-- After the token was decoded; TokenError is caught.
abbrev pub user_of_decoded : Server → Web → Result Claims → Result User
user_of_decoded srv w (ok claims) = user_of_id w (srv.uuids.parse claims.sub)
user_of_decoded srv w (err (token_error _)) = err not_authenticated
user_of_decoded srv w (err value_error) = err not_authenticated
user_of_decoded srv w (err e) = err e

-- The token behind the first space.
abbrev pub user_of_token : Server → ℕ → Web → Option String → Result User
user_of_token srv instant w none = err index_error
user_of_token srv instant w (some text) =
    user_of_decoded srv w (decode_access_token srv.cfg srv.decode instant (strip text))

-- `lower` is Python's `str.lower`.
abbrev pub user_of_header : Server → (String → String) → ℕ → Web → String → Result User
user_of_header srv lower instant w authorization =
    if is_empty authorization || not (starts_with (lower authorization) "bearer ")
    then err not_authenticated
    else user_of_token srv instant w (after_space authorization)

unfoldable pub get_current_user :
    Server → (String → String) → ℕ → Option String → Web → Result User × Web
get_current_user srv lower instant none w = (err not_authenticated, w)
get_current_user srv lower instant (some authorization) w =
    (user_of_header srv lower instant w authorization, w)

-- A handler with `user: User = Depends(get_current_user)`.
unfoldable pub as_user {ℓ} :
    {A : Type ℓ}
    → Server
    → (String → String)
    → ℕ
    → Option String
    → (User → Web → Result A × Web)
    → Web
    → Result A × Web
as_user srv lower instant header handler w = get_current_user srv lower instant header w >>= handler
