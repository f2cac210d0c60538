-- ===== src/Api/Auth/Tests.antt =====
-- The theorems on the authentication API, applied to a server that locks an account after two failed
-- logins.
use text.Mathlib.Text.{◌==◌ as str_eq}
use what_a_secure_app_should.Base.{
  ℕ, ◌+◌, ◌≤◌, String, ◌≡◌, refl, none, [], ◌∷◌, false, arith, ◌==◌,
}
use what_a_secure_app_should.Base.Outcome.{ok, err, pyjwt_error}
use what_a_secure_app_should.Packages.Sample.{sample_hashlib}
use what_a_secure_app_should.Core.Config.{default_settings}
use what_a_secure_app_should.Db.{User, Db, empty_db, role_user, status_active}
use what_a_secure_app_should.Auth.Passwords.{verify_password}
use what_a_secure_app_should.Api.{Web, serve}
use what_a_secure_app_should.Api.Auth.{Server, Visit, invalid_credentials, login, refresh, logout}
use Prim.Native.String.{◌++◌}
use what_a_secure_app_should.Base.Str.{str_length, is_empty}
use what_a_secure_app_should.Api.Auth.Visitors.{ua, ua_lem}
use what_a_secure_app_should.Api.Auth.Routes.{Registers, register_post, register_post-Registers}
use what_a_secure_app_should.Api.Auth.Account.{keep, delete_me, rows_of, delete_me_lem}
use what_a_secure_app_should.Api.Auth.Logout.{refresh-logout}
use what_a_secure_app_should.Api.Auth.Lockout.{Attempt, run_logins, IsWrong, login_locked_out}
use what_a_secure_app_should.Api.Auth.Refresh.{Refreshed, refresh-Refreshed}

abbrev server : Server
server = record {
  cfg = record default_settings { max_failed_logins = 2 };
  sha = sample_hashlib;
  hasher = record {
    hash = λ salt password. password;
    verify = λ hash password. ok (str_eq hash password);
    check_needs_rehash = λ hash. ok false;
  };
  encode = λ claims key. "token";
  decode = λ instant key token. err pyjwt_error;
  uuids = record { parse = λ text. none; print = λ id. "id" };
}

-- The clock of a visit starts at an instant.
abbrev visit_at : ℕ → Visit
visit_at instant = record {
  now = λ i. instant + i;
  tokens = record { raw = "raw"; family = 3; id = 4 };
  jti = "jti";
  user_agent = none;
  ip_hash = none;
}

abbrev alice : User
alice = record {
  id = 7;
  email = "alice@example.org";
  password_hash = "secret";
  role = role_user;
  status = status_active;
  mfa_enabled = false;
  mfa_secret_encrypted = none;
  created_at = 1;
  updated_at = 1;
  last_login_at = none;
  failed_login_count = 0;
  locked_until = none;
}

abbrev alice_db : Db
alice_db = record empty_db { users = alice ∷ [] }

abbrev app : Web
app = record { durable = alice_db; view = alice_db; counters = []; max_image_pixels = 1000 }

abbrev guess : ℕ → Attempt
guess instant = record { visit = visit_at instant; password = "guess" }

guess-IsWrong : (instant : ℕ) → IsWrong server alice (guess instant)
unfolding verify_password
guess-IsWrong instant = refl

-- The state after two guesses.
abbrev locked_app : Web
locked_app =
    (serve (login server (visit_at 200) "alice@example.org" "guess")
      (run_logins server "alice@example.org" (guess 100 ∷ []) app)).1

login_locked_out_example :
    serve (login server (visit_at 300) "alice@example.org" "secret") locked_app
    ≡ (err invalid_credentials, locked_app)
login_locked_out_example =
    login_locked_out server "alice@example.org" (guess 100 ∷ []) (guess 200) app alice
      (visit_at 300) "secret" refl refl (guess-IsWrong 100, tt) (guess-IsWrong 200) (omega arith)
      (omega arith)

-- The state after a login.
abbrev logged_in : Web
logged_in = (serve (login server (visit_at 100) "alice@example.org" "secret") app).1

refresh-Refreshed_example :
    Refreshed server (visit_at 100) "raw" app (serve (refresh server (visit_at 100) "raw") app)
refresh-Refreshed_example = refresh-Refreshed server (visit_at 100) "raw" app

delete_me_example :
    ((serve (delete_me alice) app).0 ≡ ok tt)
    × (keep (λ u. u.id == 7) (serve (delete_me alice) app).1.durable.users ≡ [])
    × (rows_of 7 (serve (delete_me alice) app).1.durable ≡ ([], []))
    × (keep (λ u. u.id == 8) (serve (delete_me alice) app).1.durable.users
        ≡ keep (λ u. u.id == 8) app.durable.users)
    × (rows_of 8 (serve (delete_me alice) app).1.durable ≡ rows_of 8 app.durable)
delete_me_example = delete_me_lem alice 8 app (omega arith)

ua_example :
    (str_length "curl/8.5" ≤ 256)
    × (is_empty "curl/8.5" ≡ false)
    × (rest : String) × ("curl/8.5" ≡ "curl/8.5" ++ rest)
unfolding ua
ua_example = ua_lem "curl/8.5" "curl/8.5" refl

register_post-Registers_example :
    Registers server
      (λ s. s)
      (record { id = 9; salt = 0; now = λ i. 50 + i })
      (("email", "bob@example.org") ∷ ("role", "admin") ∷ [])
      app
      (serve
        (register_post server
          (λ s. s)
          (record { id = 9; salt = 0; now = λ i. 50 + i })
          (("email", "bob@example.org") ∷ ("role", "admin") ∷ []))
        app)
register_post-Registers_example =
    register_post-Registers server (λ s. s) (record { id = 9; salt = 0; now = λ i. 50 + i })
      (("email", "bob@example.org") ∷ ("role", "admin") ∷ []) app

refresh-logout_example :
    (serve
      (refresh server (visit_at 300) "raw")
      (serve (logout server (λ i. 200 + i) "raw") logged_in).1).0
    ≡ err invalid_credentials
refresh-logout_example = refresh-logout server (visit_at 300) (λ i. 200 + i) "raw" logged_in
