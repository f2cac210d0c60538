-- ===== src/Api/Integrity/Tests.antt =====
-- The theorem on consistent tables, applied to a registration, a login and the deletion of the account.
use what_a_secure_app_should.Base.{some, [], ◌∷◌, refl}
use what_a_secure_app_should.Packages.Sample.{sample_packages}
use what_a_secure_app_should.Schemas.{Body}
use what_a_secure_app_should.Api.{Web, serve}
use what_a_secure_app_should.Api.Auth.Account.{delete_me}
use what_a_secure_app_should.Api.Auth.Routes.{register_post, login_post}
use what_a_secure_app_should.Api.Access.{as_user}
use what_a_secure_app_should.Api.Access.Sample.{lower, server, visit_at, registration_at, blank_app}
use what_a_secure_app_should.Api.Integrity.{IsConsistent}
use what_a_secure_app_should.Api.Integrity.Requests.{
  Reach, here, next, registers, logs_in, deletes_account, Reach-IsConsistent,
}

abbrev a_registration : Body
a_registration =
    ("email", "bob@example.org")
    ∷ ("password", "correct horse battery")
    ∷ ("password_confirmation", "correct horse battery")
    ∷ []

abbrev a_login : Body
a_login = ("email", "bob@example.org") ∷ ("password", "correct horse battery") ∷ []

abbrev enrolled_app : Web
enrolled_app = (serve (register_post server lower registration_at a_registration) blank_app).1

abbrev entered_app : Web
entered_app = (serve (login_post server lower (visit_at 100) a_login) enrolled_app).1

abbrev left_app : Web
left_app = (serve (as_user server lower 1_000_000 (some "Bearer token") delete_me) entered_app).1

history : Reach server lower sample_packages blank_app left_app
history =
    next
      (next (next here (registers registration_at a_registration refl))
        (logs_in (visit_at 100) a_login refl))
      (deletes_account 1_000_000 (some "Bearer token") refl)

Reach-IsConsistent_example : IsConsistent left_app.durable
Reach-IsConsistent_example = Reach-IsConsistent server lower sample_packages (tt, tt, tt) history
