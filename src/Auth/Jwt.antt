-- ===== src/Auth/Jwt.antt =====
-- app/auth/jwt.py: the access token that a login returns. PyJWT's `encode` and `decode` are
-- parameters.
use what_a_secure_app_should.Base.{ℕ, ◌+◌, ◌*◌, ◌/◌, ◌≤◌, ◌<◌, ◌≡◌, String}
use what_a_secure_app_should.Base.Str.{IsCompact}
use what_a_secure_app_should.Base.Outcome.{
  Exception, Result, ok, err, pyjwt_error, token_error, catch,
}
use what_a_secure_app_should.Core.Config.{Settings, minutes}

pub record Claims : Type 0 where
  pub sub : String
  pub role : String
  pub iat : ℕ
  pub exp : ℕ
  pub jti : String

-- `pyjwt.encode(claims, key, algorithm="HS256")`
abbrev pub JwtEncode : Type 0
JwtEncode = Claims → String → String

-- `pyjwt.decode(token, key, algorithms=["HS256"], options={"require": ...})` at an instant.
abbrev pub JwtDecode : Type 0
JwtDecode = ℕ → String → String → Result Claims

-- What is relied on of PyJWT for some claims: their token has no white space, and while it is valid,
-- decoding it gives the claims.
pub record JwtLaws (encode : JwtEncode) (decode : JwtDecode) (key : String) (claims : Claims)
    : Type 0 where
  pub encode-IsCompact : IsCompact (encode claims key)
  pub decode-encode :
      (instant : ℕ)
      → claims.iat * 1_000_000 ≤ instant
      → instant < claims.exp * 1_000_000
      → decode instant key (encode claims key) ≡ ok claims

-- `int(instant.timestamp())`: seconds
abbrev pub timestamp : ℕ → ℕ
timestamp instant = instant / 1_000_000

-- The token and its expiration, for the default lifetime.
unfoldable pub create_access_token :
    Settings → JwtEncode → ℕ → String → String → String → String × ℕ
create_access_token cfg encode now jti subject role =
    let exp = now + minutes cfg.access_token_lifetime_minutes in
    (
      encode
          (record {
            sub = subject;
            role = role;
            iat = timestamp now;
            exp = timestamp exp;
            jti = jti;
          })
          cfg.jwt_signing_key,
      exp,
    )

-- The `except` clause: every error of PyJWT.
abbrev pub as_token_error : Exception → Result Claims
as_token_error pyjwt_error = err (token_error "invalid token")
as_token_error e = err e

unfoldable pub decode_access_token : Settings → JwtDecode → ℕ → String → Result Claims
decode_access_token cfg decode instant token =
    catch (decode instant cfg.jwt_signing_key token) as_token_error
