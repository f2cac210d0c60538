-- ===== src/Api/Access/Administered.antt =====
-- app/auth/dependencies.py and app/api/v1/admin.py: who can change the status of an account.
use text.Mathlib.Text.{◌==◌ as str_eq}
use what_a_secure_app_should.Base.{
  ℕ, ◌≡◌, refl, ap, ◌⊎◌, inl, inr, true, ◌||◌, Bool-cases, Option, none, some, Option-cases, String,
  find_first, ◌==◌,
}
use what_a_secure_app_should.Base.Outcome.{Exception, Result, ok, err, Result-cases}
use what_a_secure_app_should.Core.Config.{Clock}
use what_a_secure_app_should.Db.{User, role_admin, status_active, status_disabled}
use what_a_secure_app_should.Api.{Web, serve, commit}
use what_a_secure_app_should.Api.Auth.{Server}
use what_a_secure_app_should.Api.Admin.{require_admin_user, status_of, set_status}
use what_a_secure_app_should.Api.Access.{get_current_user, as_user}
use what_a_secure_app_should.Api.Access.Tokens.{Authenticated, get_current_user-Authenticated}

-- An error that leaves what is committed.
abbrev pub IsRefused {ℓ} : {A : Type ℓ} → Web → Result A × Web → Type ℓ
IsRefused w (r, w') = (e : Exception) × (r ≡ err e) × (w'.durable ≡ w.durable)

-- How the change of a status ends for an actor.
abbrev pub ByAdmin : User → Web → Result (String × String) × Web → Type 0
ByAdmin actor w (r, w') =
    IsRefused w (r, w')
    ⊎ ((str_eq actor.role role_admin ≡ true) × (answer : String × String) × (r ≡ ok answer))

status_of_outcome :
    (srv : Server) (now : Clock) (user_id new_status : String) (w : Web)
    → IsRefused w (status_of srv.uuids now new_status w (srv.uuids.parse user_id))
      ⊎ ((answer : String × String) × ((status_of srv.uuids now new_status w
              (srv.uuids.parse user_id)).0
            ≡ ok answer))
unfolding commit
status_of_outcome srv now user_id new_status w = elim (Option-cases (srv.uuids.parse user_id)) [
  | inl bad ↦ rw bad (inl (_, refl, refl))
  | inr (uid, parsed) ↦ elim (Option-cases (find_first (λ u. u.id == uid) w.view.users)) [
    | inl missing ↦ rw (parsed, missing) (inl (_, refl, refl))
    | inr (user, found) ↦ rw (parsed, found) (inr (_, refl))
  ]
]

set_status_outcome :
    (srv : Server) (now : Clock) (user_id new_status : String) (actor : User) (w : Web)
    → ByAdmin actor w (set_status srv.uuids now user_id new_status actor w)
unfolding set_status require_admin_user
set_status_outcome srv now user_id new_status actor w =
    elim (Bool-cases (str_eq actor.role role_admin)) [
      | inr other ↦ rw other (inl (_, refl, refl))
      | inl admin ↦
          elim (Bool-cases (str_eq new_status status_active || str_eq new_status status_disabled)) [
            | inr bad ↦ rw (admin, bad) (inl (_, refl, refl))
            | inl good ↦ elim (status_of_outcome srv now user_id new_status w) [
              | inl refused ↦ rw (admin, good) (inl refused)
              | inr (answer, answered) ↦ rw (admin, good) (inr (refl, answer, answered))
            ]
          ]
    ]

get_current_user_keeps :
    (srv : Server) (lower : String → String) (instant : ℕ) (header : Option String) (w : Web)
    (r : Result User)
    → (get_current_user srv lower instant header w).0 ≡ r
    → get_current_user srv lower instant header w ≡ (r, w)
unfolding get_current_user
get_current_user_keeps srv lower instant none w r h = ap (λ x. (x, w)) h
get_current_user_keeps srv lower instant (some text) w r h = ap (λ x. (x, w)) h

-- What holds of every error before the handler, and of the handler for every user that a token
-- authenticates, holds of the route.
pub as_user_lem {ℓ κ} :
    {A : Type ℓ} (P : Result A × Web → Type κ) (srv : Server) (lower : String → String)
    (instant : ℕ) (header : Option String) (handler : User → Web → Result A × Web) (w : Web)
    → ((e : Exception) → P (err e, w))
    → ((actor : User) → Authenticated srv lower instant header w actor → P (handler actor w))
    → P (as_user srv lower instant header handler w)
unfolding as_user
as_user_lem P srv lower instant header handler w refused given =
    elim (Result-cases (get_current_user srv lower instant header w).0) [
      | inr (e, h) ↦ rw (get_current_user_keeps srv lower instant header w (err e) h) (refused e)
      | inl (actor, h) ↦
          let asked = get_current_user_keeps srv lower instant header w (ok actor) h in
          rw asked (
            given actor (get_current_user-Authenticated srv lower instant header w w actor asked).0)
    ]

-- A served `set_status` behind `get_current_user` either raises and leaves what is committed,
-- or it answers, and the bearer token of the header of that request authenticates, over the
-- committed state, an active user whose role is that of an administrator.
pub set_status-as_user :
    (srv : Server) (lower : String → String) (instant : ℕ) (header : Option String) (now : Clock)
    (user_id new_status : String) (w : Web)
    → let (r, w') =
        serve (as_user srv lower instant header (set_status srv.uuids now user_id new_status)) w in
      ((e : Exception) × (r ≡ err e) × (w'.durable ≡ w.durable))
      ⊎ ((actor : User) × Authenticated srv lower instant header
            (record w { view = w.durable })
            actor
          × (str_eq actor.role role_admin ≡ true)
          × (answer : String × String) × (r ≡ ok answer))
unfolding serve
set_status-as_user srv lower instant header now user_id new_status w =
    as_user_lem
      (λ (r, w').
        ((e : Exception) × (r ≡ err e) × (w'.durable ≡ w.durable))
        ⊎ ((actor : User) × Authenticated srv lower instant header (record w { view = w.durable })
              actor
            × (str_eq actor.role role_admin ≡ true)
            × (answer : String × String) × (r ≡ ok answer)))
      srv lower instant header (set_status srv.uuids now user_id new_status)
      (record w { view = w.durable }) (λ e. inl (e, refl, refl))
      λ actor someone.
        elim (set_status_outcome srv now user_id new_status actor (record w { view = w.durable })) [
          | inl refused ↦ inl refused
          | inr (admin, answer, answered) ↦ inr (actor, someone, admin, answer, answered)
        ]
