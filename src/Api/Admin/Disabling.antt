-- ===== src/Api/Admin/Disabling.antt =====
-- app/api/v1/admin.py: what disabling an account does.
use text.Mathlib.Text.{◌==◌ as str_eq}
use text.Mathlib.TextEquality.{eq_iff}
use what_a_secure_app_should.Base.{
  ◌≡◌, refl, sym, inl, inr, true, false, Bool-cases, some, String, ◌==◌, find_first,
}
use what_a_secure_app_should.Base.Outcome.{ok, err}
use what_a_secure_app_should.Core.Config.{Clock}
use what_a_secure_app_should.Db.{User, role_admin, status_disabled}
use what_a_secure_app_should.Api.{Web, commit, serve}
use what_a_secure_app_should.Api.Auth.{
  Server, Visit, invalid_credentials, find_email, update_user, locked_after, password_ok,
  login_found, login,
}
use what_a_secure_app_should.Api.Auth.Lockout.{find_email-update_user, found_email}
use what_a_secure_app_should.Api.Admin.{require_admin_user, with_status, set_status}

disabled_refused :
    (srv : Server) (visit : Visit) (password : String) (w : Web) (user : User)
    → user.status ≡ status_disabled
    → (login_found srv visit password w (some user)).0 ≡ err invalid_credentials
disabled_refused srv visit password w user disabled =
    elim (Bool-cases (locked_after user.locked_until (visit.now 0))) [
      | inl locked ↦ rw locked refl
      | inr unlocked ↦
          let closed : password_ok srv.hasher user password ≡ ok false = rw disabled refl in
          rw (unlocked, closed) refl
    ]

pub with_status_of :
    (now : Clock) (new_status : String) (user : User)
    → (with_status now new_status user).status ≡ new_status
with_status_of now new_status user = elim (Bool-cases (str_eq user.status new_status)) [
  | inl same ↦ rw same ((eq_iff user.status new_status).0 same)
  | inr other ↦ rw other refl
]

pub with_status-keeps :
    (now : Clock) (new_status : String) (user : User)
    → ((with_status now new_status user).id ≡ user.id)
      × ((with_status now new_status user).email ≡ user.email)
with_status-keeps now new_status user = elim (Bool-cases (str_eq user.status new_status)) [
  | inl same ↦ rw same (refl, refl)
  | inr other ↦ rw other (refl, refl)
]

-- Once an administrator has set the status of a user to disabled by a served `set_status`, the
-- row being the one that its id and its email find, a served login of that email is refused
-- with every password.
pub login-set_status :
    (srv : Server) (visit : Visit) (now : Clock) (user_id email password : String)
    (actor target : User) (w : Web)
    → str_eq actor.role role_admin ≡ true
    → srv.uuids.parse user_id ≡ some target.id
    → find_first (λ u. u.id == target.id) w.durable.users ≡ some target
    → find_email email w.durable.users ≡ some target
    → let w' = (serve (set_status srv.uuids now user_id status_disabled actor) w).1 in
      (serve (login srv visit email password) w').0 ≡ err invalid_credentials
unfolding serve set_status require_admin_user login commit
login-set_status srv visit now user_id email password actor target w admin parsed by_id by_email =
    let changed = with_status now status_disabled target in
    let kept = with_status-keeps now status_disabled target in
    let again : find_email email (update_user changed w.durable.users) ≡ some changed =
      find_email-update_user email changed target w.durable.users by_email (sym kept.0)
        (rw kept.1 (found_email email target w.durable.users by_email)) in
    rw (admin, parsed, by_id, again)
      (disabled_refused srv visit password _ changed (with_status_of now status_disabled target))
