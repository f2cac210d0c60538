-- ===== src/Api/Access/Disabling.antt =====
-- app/auth/dependencies.py: no token authenticates a disabled account.
use text.Mathlib.Text.{◌==◌ as str_eq}
use what_a_secure_app_should.Base.{
  ℕ, ◌≡◌, refl, ap, sym, subst, ◌∙◌, true, some, Option, String, ◌==◌, find_first, ◌≢◌,
}
use what_a_secure_app_should.Base.Outcome.{ok}
use what_a_secure_app_should.Core.Config.{Clock}
use what_a_secure_app_should.Db.{User, role_admin, status_active, status_disabled}
use what_a_secure_app_should.Api.{Web, serve, commit}
use what_a_secure_app_should.Api.Auth.{Server, update_user}
use what_a_secure_app_should.Api.Admin.{with_status, set_status, require_admin_user}
use what_a_secure_app_should.Api.Admin.Disabling.{with_status_of, with_status-keeps}
use what_a_secure_app_should.Api.Access.{get_current_user}
use what_a_secure_app_should.Api.Access.Tokens.{get_current_user-Authenticated}
use what_a_secure_app_should.Api.Access.Logins.{found_by_id}

-- The users that a served `set_status` leaves.
users_after :
    (srv : Server) (now : Clock) (user_id : String) (actor target : User) (w : Web)
    → str_eq actor.role role_admin ≡ true
    → srv.uuids.parse user_id ≡ some target.id
    → find_first (λ u. u.id == target.id) w.durable.users ≡ some target
    → (serve (set_status srv.uuids now user_id status_disabled actor) w).1.durable.users
      ≡ update_user (with_status now status_disabled target) w.durable.users
unfolding serve set_status require_admin_user commit
users_after srv now user_id actor target w admin parsed by_id = rw (admin, parsed, by_id) refl

-- Once an administrator has set the status of a user to disabled by a served `set_status`, the
-- row being the one of the parsed id, no header authenticates that user: whoever
-- `get_current_user` returns over the committed state has another id.
pub get_current_user-set_status :
    (srv : Server) (lower : String → String) (instant : ℕ) (header : Option String) (now : Clock)
    (user_id : String) (actor target user : User) (w w'' : Web)
    → str_eq actor.role role_admin ≡ true
    → srv.uuids.parse user_id ≡ some target.id
    → find_first (λ u. u.id == target.id) w.durable.users ≡ some target
    → let w' = (serve (set_status srv.uuids now user_id status_disabled actor) w).1 in
      get_current_user srv lower instant header (record w' { view = w'.durable }) ≡ (ok user, w'')
      → user.id ≢ target.id
get_current_user-set_status srv lower instant header now user_id actor target user w w'' admin
      parsed by_id given same =
    let w' = (serve (set_status srv.uuids now user_id status_disabled actor) w).1 in
    let a =
      (get_current_user-Authenticated srv lower instant header (record w' { view = w'.durable }) w''
        user given).0 in
    let changed = with_status now status_disabled target in
    let kept = (with_status-keeps now status_disabled target).0 in
    let row : find_first (λ u. u.id == changed.id) (update_user changed w.durable.users)
        ≡ some changed =
      found_by_id changed target w.durable.users
        (subst (λ k. find_first (λ u. u.id == k) w.durable.users ≡ some target) (sym kept) by_id) in
    let found : find_first (λ u. u.id == changed.id) (update_user changed w.durable.users)
        ≡ some user =
      subst (λ k. find_first (λ u. u.id == k) (update_user changed w.durable.users) ≡ some user)
        (same ∙ sym kept)
        (subst (λ rows. find_first (λ u. u.id == user.id) rows ≡ some user)
          (users_after srv now user_id actor target w admin parsed by_id) a.row) in
    let disabled = with_status_of now status_disabled target in
    let one : changed ≡ user = cc (row, found) in
    let no_longer : str_eq status_disabled status_active ≡ true =
      subst (λ s. str_eq s status_active ≡ true) (ap (λ u. u.status) (sym one) ∙ disabled)
        a.is_active in
    cc
