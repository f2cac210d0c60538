-- ===== src/Api/Auth/Routes.antt =====
-- app/api/v1/auth.py and app/schemas/auth.py: the routes that take a body, from the body on.
use what_a_secure_app_should.Base.{
  ◌≡◌, refl, inl, inr, Bool-cases, none, Option-cases, String, [], ◌∷◌, ◌++◌, find_first, ◌==◌,
  ◌||◌,
}
use text.Mathlib.Text.{◌==◌ as str_eq}
use what_a_secure_app_should.Base.Outcome.{Exception, Result, ok, err, Result-cases}
use what_a_secure_app_should.Core.Config.{Clock}
use what_a_secure_app_should.Db.{User, role_user, status_active, is_none}
use what_a_secure_app_should.Auth.Passwords.{hash_password}
use what_a_secure_app_should.Schemas.{Body, register_request, login_request, refresh_request}
use what_a_secure_app_should.Schemas.Accepted.{IsRegistration, register_request_iff}
use what_a_secure_app_should.Api.{Web, serve, commit}
use what_a_secure_app_should.Api.Auth.{
  Server, Visit, TokenResponse, find_email, login, refresh, logout,
}
use what_a_secure_app_should.Api.Auth.Account.{Registration, new_user, register}

-- A body that the validators refuse never reaches the handler.
abbrev pub on_body {ℓ κ} :
    {A : Type ℓ} {B : Type κ} → Result B → (B → Web → Result A × Web) → Web → Result A × Web
on_body (err e) handler w = (err e, w)
on_body (ok body) handler w = handler body w

unfoldable pub register_post :
    Server → (String → String) → Registration → Body → Web → Result (Unit {0}) × Web
register_post srv lower drawn body =
    on_body (register_request srv.cfg lower body)
      λ (email, password) w. register srv drawn email password w

unfoldable pub login_post :
    Server → (String → String) → Visit → Body → Web → Result TokenResponse × Web
login_post srv lower visit body =
    on_body (login_request lower body) λ (email, password) w. login srv visit email password w

unfoldable pub refresh_post : Server → Visit → Body → Web → Result TokenResponse × Web
refresh_post srv visit body = on_body (refresh_request body) λ token w. refresh srv visit token w

unfoldable pub logout_post : Server → Clock → Body → Web → Result (Unit {0}) × Web
logout_post srv now body = on_body (refresh_request body) λ token w. logout srv now token w

-- How a served registration ends: refused with nothing committed, or with one row more, that of an
-- ordinary active user with the email of the body and the hash of its password.
pub data Registers (srv : Server) (lower : String → String) (drawn : Registration) (body : Body)
    (w : Web) : Result (Unit {0}) × Web → Type 0 where
  declined :
      (e : Exception) (w' : Web)
      → w'.durable ≡ w.durable
      → Registers srv lower drawn body w (err e, w')
  enrolled :
      (email password : String) (user : User) (w' : Web)
      → IsRegistration srv.cfg lower body email password
      → find_email email w.durable.users ≡ none
      → user.email ≡ email
      → user.role ≡ role_user
      → user.status ≡ status_active
      → user.password_hash ≡ hash_password srv.hasher drawn.salt password
      → w'.durable ≡ record (w.durable) { users = w.durable.users ++ (user ∷ []) }
      → Registers srv lower drawn body w (ok tt, w')

register-Registers :
    (srv : Server) (lower : String → String) (drawn : Registration) (body : Body) (w : Web)
    (email password : String)
    → IsRegistration srv.cfg lower body email password
    → Registers srv lower drawn body w (serve (register srv drawn email password) w)
unfolding serve register commit
register-Registers srv lower drawn body w email password valid =
    elim (Option-cases (find_email email w.durable.users)) [
      | inr (user, taken) ↦ rw taken (declined _ _ refl)
      | inl free ↦
          let new = new_user srv drawn email password in
          elim (Bool-cases (
            is_none
              (find_first (λ u. (u.id == new.id) || str_eq u.email new.email) w.durable.users))) [
                | inr clash ↦ rw (free, clash) (declined _ _ refl)
                | inl fresh ↦
                    rw (free, fresh)
                      (enrolled email password new _ valid free refl refl refl refl refl)
              ]
    ]

-- A served registration, from its body on, either raises and leaves what is committed, or its
-- body is a registration by its parts whose email no user has, and exactly one row is added: an
-- active user of the ordinary role with that email and the hash of that password.
pub register_post-Registers :
    (srv : Server) (lower : String → String) (drawn : Registration) (body : Body) (w : Web)
    → Registers srv lower drawn body w (serve (register_post srv lower drawn body) w)
unfolding serve register_post
register_post-Registers srv lower drawn body w =
    elim (Result-cases (register_request srv.cfg lower body)) [
      | inr (e, refused) ↦ rw refused (declined e _ refl)
      | inl ((email, password), accepted) ↦ rw accepted (
          register-Registers srv lower drawn body w email password
            ((register_request_iff srv.cfg lower body email password).0 accepted))
    ]
