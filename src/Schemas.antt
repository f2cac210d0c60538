-- ===== src/Schemas.antt =====
-- app/schemas/auth.py: the validation of request bodies. A body is the fields of a JSON object, with
-- distinct keys and texts as values; what pydantic refuses is answered with 422. `lower` is Python's
-- `str.lower`.
pub mod Fields
pub mod Accepted
mod Tests
use text.Mathlib.Text.{◌==◌ as str_eq}
use Prim.Native.Char.{Char, code}
use what_a_secure_app_should.Base.{
  ℕ, Bool, true, false, not, ◌&&◌, ◌||◌, String, List, [], ◌∷◌, ◌==◌, ltb, leb, if◌then◌else◌,
}
use what_a_secure_app_should.Base.Str.{str_length, is_space, strip}
use what_a_secure_app_should.Base.Regex.{Item, one, plus, match_items}
use what_a_secure_app_should.Base.Outcome.{Exception, Result, ok, err, http_exception, ◌>>=◌, ◌>>◌}
use what_a_secure_app_should.Core.Config.{Settings}

abbrev pub Body : Type 0
Body = List (String × String)

abbrev pub unprocessable : Exception
unprocessable = http_exception 422 "Unprocessable Entity"

abbrev pub require : Bool → Result (Unit {0})
require true = ok tt
require false = err unprocessable

abbrev pub member : String → List String → Bool
member name [] = false
member name (known ∷ names) = str_eq known name || member name names

-- `extra="forbid"`
unfoldable pub only : List String → Body → Bool
only names [] = true
only names ((key, _) ∷ body) = member key names && only names body

-- A required field.
unfoldable pub field : String → Body → Result String
field name [] = err unprocessable
field name ((key, value) ∷ body) = if str_eq key name then ok value else field name body

-- `[^@\s]`, `@` and `\.`
abbrev pub neither_at_nor_space : Char → Bool
neither_at_nor_space c = not ((code c == b'@') || is_space c)

abbrev pub is_at : Char → Bool
is_at c = code c == b'@'

abbrev pub is_dot : Char → Bool
is_dot c = code c == b'.'

-- `^[^@\s]+@[^@\s]+\.[^@\s]+$`
abbrev pub email_pattern : List Item
email_pattern =
    plus neither_at_nor_space
    ∷ one is_at
    ∷ plus neither_at_nor_space
    ∷ one is_dot
    ∷ plus neither_at_nor_space
    ∷ []

-- `v.strip().lower()`
abbrev pub normalized : (String → String) → String → String
normalized lower text = lower (strip text)

unfoldable pub valid_email : (String → String) → String → Result String
valid_email lower text =
    let email = normalized lower text in
    if not (match_items email_pattern email) || ltb 320 (str_length email)
    then err unprocessable
    else ok email

unfoldable pub password_length : Settings → String → Bool
password_length cfg password =
    leb cfg.password_min_length (str_length password)
    && leb (str_length password) cfg.password_max_length

-- The validators of RegisterRequest, once its fields are there.
unfoldable pub registration :
    Settings → (String → String) → String → String → String → Result (String × String)
registration cfg lower text password confirmation = do
  email ← valid_email lower text
  require (password_length cfg password)
  require (str_eq password confirmation)
  ok (email, password)

-- The email and the password of an accepted RegisterRequest.
unfoldable pub register_request : Settings → (String → String) → Body → Result (String × String)
register_request cfg lower body = do
  require (only ("email" ∷ "password" ∷ "password_confirmation" ∷ []) body)
  text ← field "email" body
  password ← field "password" body
  confirmation ← field "password_confirmation" body
  registration cfg lower text password confirmation

-- The email and the password of an accepted LoginRequest.
unfoldable pub login_request : (String → String) → Body → Result (String × String)
login_request lower body = do
  require (only ("email" ∷ "password" ∷ []) body)
  text ← field "email" body
  password ← field "password" body
  ok (normalized lower text, password)

-- The token of an accepted RefreshRequest.
unfoldable pub refresh_request : Body → Result String
refresh_request body = do require (only ("refresh_token" ∷ []) body); field "refresh_token" body
