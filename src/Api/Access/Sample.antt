-- ===== src/Api/Access/Sample.antt =====
-- Test data for authenticated requests: a server, a `str.lower` that knows one capital, a user and an
-- administrator.
use text.Mathlib.Text.{◌==◌ as str_eq}
use text.Mathlib.TextLemmas.{cons-append, nil-append}
use text.Mathlib.TextPositions.{starts_with-append}
use Prim.Native.Char.{code}
use Prim.Native.String.{◌++◌}
use what_a_secure_app_should.Base.{
  ℕ, ◌+◌, ◌≡◌, refl, inl, inr, Bool-cases, none, some, [], ◌∷◌, String, false, ◌==◌, if◌then◌else◌,
}
use what_a_secure_app_should.Base.Outcome.{ok, err, pyjwt_error}
use what_a_secure_app_should.Packages.Sample.{sample_hashlib}
use what_a_secure_app_should.Core.Config.{default_settings}
use what_a_secure_app_should.Db.{User, Db, empty_db, role_admin, role_user, status_active}
use what_a_secure_app_should.Auth.Jwt.{Claims}
use what_a_secure_app_should.Api.{Web}
use what_a_secure_app_should.Api.Auth.{Server, Visit}
use what_a_secure_app_should.Api.Access.Logins.{LowersBearer}
use what_a_secure_app_should.Api.Auth.Account.{Registration}

-- `B` is the only capital that it knows.
unfoldable pub lower : String → String
lower String.[] = String.[]
lower (String.◌∷◌ c s) = if code c == b'B' then String.◌∷◌ "b" (lower s) else String.◌∷◌ c (lower s)

lower-append : (s t : String) → lower (s ++ t) ≡ lower s ++ lower t
unfolding lower
lower-append String.[] t = rw (nil-append t, nil-append (lower t)) refl
lower-append (String.◌∷◌ c s) t = elim (Bool-cases (code c == b'B')) [
  | inl e ↦ rw (cons-append c s t, e, lower-append s t, cons-append "b" (lower s) (lower t)) refl
  | inr e ↦ rw (cons-append c s t, e, lower-append s t, cons-append c (lower s) (lower t)) refl
]

pub lower-LowersBearer : LowersBearer lower
unfolding lower
lower-LowersBearer s = rw (lower-append "Bearer " s) (starts_with-append "bearer " (lower s))

abbrev pub claims_of : String → String → Claims
claims_of sub role = record { sub = sub; role = role; iat = 0; exp = 900; jti = "jti" }

abbrev pub server : Server
server = record {
  cfg = default_settings;
  sha = sample_hashlib;
  hasher = record {
    hash = λ salt password. password;
    verify = λ hash password. ok (str_eq hash password);
    check_needs_rehash = λ hash. ok false;
  };
  encode = λ claims key. "token";
  decode = λ instant key token.
      if str_eq token "token"
      then ok (claims_of "seven" role_user)
      else if str_eq token "other"
      then ok (claims_of "eight" role_admin)
      else err pyjwt_error;
  uuids = record {
    parse = λ text.
        if str_eq text "seven" then some 7 else if str_eq text "eight" then some 8 else none;
    print = λ id. "seven";
  };
}

abbrev pub user_of : ℕ → String → User
user_of id role = record {
  id = id;
  email = "alice@example.org";
  password_hash = "secret";
  role = role;
  status = status_active;
  mfa_enabled = false;
  mfa_secret_encrypted = none;
  created_at = 1;
  updated_at = 1;
  last_login_at = none;
  failed_login_count = 0;
  locked_until = none;
}

abbrev pub alice_db : Db
alice_db = record empty_db { users = user_of 7 role_user ∷ [] }

abbrev pub app : Web
app = record { durable = alice_db; view = alice_db; counters = []; max_image_pixels = 1000 }

-- The clock of a visit starts at an instant.
abbrev pub visit_at : ℕ → Visit
visit_at instant = record {
  now = λ i. instant + i;
  tokens = record { raw = "raw"; family = 3; id = 4 };
  jti = "jti";
  user_agent = none;
  ip_hash = none;
}

-- A user and an administrator.
abbrev pub staffed_db : Db
staffed_db = record empty_db { users = user_of 7 role_user ∷ user_of 8 role_admin ∷ [] }

abbrev pub staffed : Web
staffed = record app { durable = staffed_db; view = staffed_db }

abbrev pub registration_at : Registration
registration_at = record { id = 7; salt = 0; now = λ i. 50 + i }

abbrev pub blank_app : Web
blank_app = record app { durable = empty_db; view = empty_db }
