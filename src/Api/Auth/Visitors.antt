-- ===== src/Api/Auth/Visitors.antt =====
-- app/api/v1/auth.py: what a login keeps of its client, and the route `/me`.
use Prim.Native.String.{◌++◌}
use what_a_secure_app_should.Base.{
  ℕ, ◌≤◌, ◌≡◌, refl, Bool, false, Option, none, some, String, arith, if◌then◌else◌,
}
use what_a_secure_app_should.Base.Str.{
  str_length, is_empty, str_take, str_length-str_take, str_take-prefix,
}
use what_a_secure_app_should.Base.Text.{utf8}
use what_a_secure_app_should.Base.Outcome.{Result, ok}
use what_a_secure_app_should.Packages.{Hashlib}
use what_a_secure_app_should.Core.Config.{Settings, Clock}
use what_a_secure_app_should.Db.{User}
use what_a_secure_app_should.Auth.RefreshTokens.{Draws}
use what_a_secure_app_should.Api.{Web}
use what_a_secure_app_should.Api.Auth.{Server, Visit}

-- `request.client.host if request.client else "unknown"`
abbrev pub host_of : Option String → String
host_of none = "unknown"
host_of (some host) = host

-- `_ip_hash`: the digest of the host, keyed by the signing key.
unfoldable pub ip_hash : Settings → Hashlib → Option String → String
ip_hash cfg sha client = sha.sha256_hexdigest (utf8 (cfg.jwt_signing_key ++ host_of client))

-- `_ua`: at most 256 characters of the header; an empty header is none.
unfoldable pub ua : Option String → Option String
ua none = none
ua (some header) = if is_empty header then none else some (str_take 256 header)

-- The visit of a request: the host of its client, and its `user-agent` header.
abbrev pub visit_of :
    Settings → Hashlib → Option String → Option String → Clock → Draws → String → Visit
visit_of cfg sha client header now tokens jti = record {
  now = now;
  tokens = tokens;
  jti = jti;
  user_agent = ua header;
  ip_hash = some (ip_hash cfg sha client);
}

pub record Me : Type 0 where
  pub id : String
  pub email : String
  pub role : String
  pub status : String
  pub mfa_enabled : Bool
  -- The instant stands for its ISO text.
  pub created_at : ℕ

unfoldable pub me : Server → User → Web → Result Me × Web
me srv user w = (
  ok (record {
    id = srv.uuids.print user.id;
    email = user.email;
    role = user.role;
    status = user.status;
    mfa_enabled = user.mfa_enabled;
    created_at = user.created_at;
  }),
  w,
)

-- x
pub ua_lem :
    (header summary : String)
    → ua (some header) ≡ some summary
    → (str_length summary ≤ 256)
      × (is_empty summary ≡ false)
      × (rest : String) × (header ≡ summary ++ rest)
unfolding ua
ua_lem String.[] summary h = absurd (ground arith)
ua_lem (String.◌∷◌ c s) summary h =
    let cut : str_take 256 (String.◌∷◌ c s) ≡ summary = ground arith in
    let (rest, e) = str_take-prefix 256 (String.◌∷◌ c s) in
    rw (← cut) (str_length-str_take 256 (String.◌∷◌ c s), refl, rest, e)
