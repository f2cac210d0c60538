-- ===== src/Schemas/Tests.antt =====
-- The theorems on request bodies, applied to a registration whose email is typed with spaces around it.
use what_a_secure_app_should.Base.{◌≡◌, ◌↔◌, [], ◌∷◌, refl}
use what_a_secure_app_should.Base.Outcome.{ok}
use what_a_secure_app_should.Base.Str.{is_space, lstrip, rstrip, strip}
use what_a_secure_app_should.Base.Regex.{match_items}
use what_a_secure_app_should.Core.Config.{default_settings}
use what_a_secure_app_should.Schemas.{
  Body, only, field, valid_email, password_length, registration, register_request,
}
use what_a_secure_app_should.Schemas.Accepted.{IsRegistration, register_request_iff}

abbrev typed_body : Body
typed_body =
    ("email", " alice@example.org ")
    ∷ ("password", "correct horse battery")
    ∷ ("password_confirmation", "correct horse battery")
    ∷ []

register_request_iff_example :
    (register_request default_settings (λ s. s) typed_body
      ≡ ok ("alice@example.org", "correct horse battery"))
    ↔ IsRegistration default_settings
        (λ s. s)
        typed_body
        "alice@example.org"
        "correct horse battery"
register_request_iff_example =
    register_request_iff default_settings (λ s. s) typed_body "alice@example.org"
      "correct horse battery"

-- The body is accepted.
accepted :
    register_request default_settings (λ s. s) typed_body
    ≡ ok ("alice@example.org", "correct horse battery")
unfolding register_request only field valid_email password_length registration match_items strip
    lstrip rstrip is_space
accepted = refl
