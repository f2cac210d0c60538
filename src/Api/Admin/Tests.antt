-- ===== src/Api/Admin/Tests.antt =====
-- The theorem on disabled accounts, applied to a database with one user.
use text.Mathlib.Text.{◌==◌ as str_eq}
use what_a_secure_app_should.Base.{◌+◌, ◌≡◌, refl, ℕ, none, some, [], ◌∷◌, false}
use what_a_secure_app_should.Base.Outcome.{ok, err, pyjwt_error}
use what_a_secure_app_should.Packages.Sample.{sample_hashlib}
use what_a_secure_app_should.Core.Config.{default_settings}
use what_a_secure_app_should.Db.{
  User, Db, empty_db, role_admin, role_user, status_active, status_disabled,
}
use what_a_secure_app_should.Api.{Web, serve}
use what_a_secure_app_should.Api.Auth.{Server, Visit, invalid_credentials, login}
use what_a_secure_app_should.Api.Admin.{set_status}
use what_a_secure_app_should.Api.Admin.Disabling.{login-set_status}

abbrev server : Server
server = record {
  cfg = default_settings;
  sha = sample_hashlib;
  hasher = record {
    hash = λ salt password. password;
    verify = λ hash password. ok (str_eq hash password);
    check_needs_rehash = λ hash. ok false;
  };
  encode = λ claims key. "token";
  decode = λ instant key token. err pyjwt_error;
  uuids = record { parse = λ text. some 7; print = λ id. "id" };
}

-- The clock of a visit starts at an instant.
abbrev visit_at : ℕ → Visit
visit_at instant = record {
  now = λ i. instant + i;
  tokens = record { raw = "raw"; family = 3; id = 4 };
  jti = "jti";
  user_agent = none;
  ip_hash = none;
}

abbrev alice : User
alice = record {
  id = 7;
  email = "alice@example.org";
  password_hash = "secret";
  role = role_user;
  status = status_active;
  mfa_enabled = false;
  mfa_secret_encrypted = none;
  created_at = 1;
  updated_at = 1;
  last_login_at = none;
  failed_login_count = 0;
  locked_until = none;
}

abbrev alice_db : Db
alice_db = record empty_db { users = alice ∷ [] }

abbrev admin : User
admin = record alice { id = 8; email = "root@example.org"; role = role_admin }

abbrev both : Db
both = record empty_db { users = alice ∷ admin ∷ [] }

abbrev app : Web
app = record { durable = both; view = both; counters = []; max_image_pixels = 1000 }

login-set_status_example :
    (serve
      (login server (visit_at 300) "alice@example.org" "secret")
      (serve (set_status server.uuids (visit_at 200).now "seven" status_disabled admin) app).1).0
    ≡ err invalid_credentials
login-set_status_example =
    login-set_status server (visit_at 300) (visit_at 200).now "seven" "alice@example.org" "secret"
      admin alice app refl refl refl refl
