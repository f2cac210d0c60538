-- ===== src/Api/Access/Tests.antt =====
-- The theorems on authenticated requests, applied to a server with one account.
use text.Mathlib.Text.{◌==◌ as str_eq}
use what_a_secure_app_should.Base.{ℕ, ◌+◌, ◌≡◌, refl, ◌≢◌, ◌⊎◌, true, some, [], ◌∷◌, String, arith}
use what_a_secure_app_should.Base.Str.{is_space, strip, lstrip, rstrip, after_space}
use what_a_secure_app_should.Base.Outcome.{Exception, ok, err}
use what_a_secure_app_should.Db.{User, role_admin, role_user}
use what_a_secure_app_should.Auth.Passwords.{hash_password, verify_password}
use what_a_secure_app_should.Auth.Jwt.{decode_access_token}
use what_a_secure_app_should.Api.{serve, commit}
use what_a_secure_app_should.Api.Auth.{TokenResponse, update_user, login, logged_in_user}
use what_a_secure_app_should.Api.Admin.{set_status, require_admin_user}
use what_a_secure_app_should.Api.Access.{get_current_user, as_user}
use what_a_secure_app_should.Api.Access.Sample.{
  lower, lower-LowersBearer, server, user_of, app, visit_at, staffed, registration_at, blank_app,
}
use what_a_secure_app_should.Api.Access.Tokens.{Authenticated, get_current_user-Authenticated}
use what_a_secure_app_should.Api.Access.Logins.{bearer, login_authenticates}
use what_a_secure_app_should.Base.Regex.{match_items}
use what_a_secure_app_should.Schemas.{
  Body, only, field, valid_email, password_length, registration, register_request,
}
use what_a_secure_app_should.Api.Auth.Routes.{register_post, login_post}
use what_a_secure_app_should.Api.Auth.Account.{new_user}
use what_a_secure_app_should.Api.Access.Administered.{set_status-as_user}
use what_a_secure_app_should.Api.Access.Registered.{login_body, login_post-register_post}
use what_a_secure_app_should.Api.Access.Disabling.{get_current_user-set_status}

get_current_user-Authenticated_example :
    Authenticated server lower 100 (some "Bearer token") app (user_of 7 role_user) × (app ≡ app)
unfolding get_current_user decode_access_token strip lstrip rstrip after_space is_space lower
get_current_user-Authenticated_example =
    get_current_user-Authenticated server lower 100 (some "Bearer token") app app
      (user_of 7 role_user) refl

login_authenticates_example :
    let (r, w') = serve (login server (visit_at 100) "alice@example.org" "secret") app in
    (response : TokenResponse) × (r ≡ ok response)
    × ((serve (get_current_user server lower 1_000_000 (some (bearer response.access_token))) w').0
        ≡ ok (logged_in_user (λ i. 100 + i) (user_of 7 role_user)))
unfolding verify_password is_space
login_authenticates_example =
    login_authenticates server (visit_at 100) "alice@example.org" "secret" app (user_of 7 role_user)
      refl refl refl refl refl lower 1_000_000
      (record {
        encode-IsCompact = (refl, (refl, (refl, (refl, (refl, tt)))));
        decode-encode = λ instant since before. refl;
      })
      lower-LowersBearer refl refl (omega arith) (omega arith)

get_current_user-set_status_example : ◌≢◌ {A = ℕ} 8 7
unfolding get_current_user decode_access_token strip lstrip rstrip after_space is_space lower
    set_status serve commit require_admin_user update_user
get_current_user-set_status_example =
    get_current_user-set_status server lower 100 (some "Bearer other") (λ i. 200 + i) "seven"
      (user_of 8 role_admin) (user_of 7 role_user) (user_of 8 role_admin) staffed _ refl refl refl
      refl

abbrev registration_body : Body
registration_body =
    ("email", " Bob@example.org")
    ∷ ("password", "correct horse battery")
    ∷ ("password_confirmation", "correct horse battery")
    ∷ []

login_post-register_post_example :
    let (r, w') = serve (register_post server lower registration_at registration_body) blank_app in
    let (answer, w'') =
      serve
        (login_post server lower
          (visit_at 100)
          (login_body "Bob@example.org " "correct horse battery"))
        w' in
    (r ≡ ok tt)
    × (response : TokenResponse) × (answer ≡ ok response)
    × ((serve (get_current_user server lower 1_000_000 (some (bearer response.access_token))) w'').0
        ≡ ok (
            logged_in_user
              (λ i. 100 + i)
              (new_user server registration_at "bob@example.org" "correct horse battery")))
unfolding verify_password hash_password is_space lower register_request only field valid_email
    password_length registration match_items strip lstrip rstrip
login_post-register_post_example =
    login_post-register_post server lower registration_at registration_body "Bob@example.org "
      "bob@example.org" "correct horse battery" blank_app (visit_at 100) 1_000_000 refl refl refl
      refl refl
      (record {
        encode-IsCompact = (refl, (refl, (refl, (refl, (refl, tt)))));
        decode-encode = λ instant since before. refl;
      })
      lower-LowersBearer refl (omega arith) (omega arith)

-- The administrator asks.
set_status-as_user_example :
    let (r, w') =
      serve
        (as_user server lower 100
          (some "Bearer other")
          (set_status server.uuids (λ i. 200 + i) "seven" "disabled"))
        staffed in
    ((e : Exception) × (r ≡ err e) × (w'.durable ≡ staffed.durable))
    ⊎ ((actor : User) × Authenticated server lower 100
          (some "Bearer other")
          (record staffed { view = staffed.durable })
          actor
        × (str_eq actor.role role_admin ≡ true)
        × (answer : String × String) × (r ≡ ok answer))
set_status-as_user_example =
    set_status-as_user server lower 100 (some "Bearer other") (λ i. 200 + i) "seven" "disabled"
      staffed

-- And is answered.
status_is_set :
    (serve
      (as_user server lower 100
        (some "Bearer other")
        (set_status server.uuids (λ i. 200 + i) "seven" "disabled"))
      staffed).0
    ≡ ok ("seven", "disabled")
unfolding as_user get_current_user decode_access_token strip lstrip rstrip after_space is_space
    lower set_status serve commit require_admin_user update_user
status_is_set = refl
