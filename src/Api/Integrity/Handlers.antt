-- ===== src/Api/Integrity/Handlers.antt =====
-- app/api/v1: the other handlers keep the tables consistent.
use text.Mathlib.Text.{◌==◌ as str_eq}
use what_a_secure_app_should.Base.{
  ℕ, ◌≡◌, inl, inr, true, false, not, ◌||◌, Bool-cases, some, Option-cases, String, List, [], ◌∷◌,
  ◌==◌, arith, All, find_first,
}
use what_a_secure_app_should.Core.Config.{Clock}
use what_a_secure_app_should.Db.{
  User, Session, is_active, status_active, status_disabled, role_admin,
}
use what_a_secure_app_should.Db.Rows.{IsIn, find_first-IsIn}
use what_a_secure_app_should.Auth.RefreshTokens.{find_by_hash, hash_token, revoke_session}
use what_a_secure_app_should.Api.{Web, Uuids, commit}
use what_a_secure_app_should.Api.Auth.{Server, with_sessions, logout, revoke_one}
use what_a_secure_app_should.Api.Auth.Account.{keep, delete_user, delete_me}
use what_a_secure_app_should.Api.Admin.{require_admin_user, with_status, set_status}
use what_a_secure_app_should.Api.Admin.Disabling.{with_status-keeps}
use what_a_secure_app_should.Api.Integrity.Users.{find_first-IsUser, UniqueUsers-keep}
use what_a_secure_app_should.Api.Integrity.{known, Of-IsIn, Of-update_session}
use what_a_secure_app_should.Api.Integrity.Logins.{
  Sound, Sound-commit, with_sessions-IsConsistent, updated-IsConsistent,
}

revoked-Sound :
    (now : Clock) (s : Session) (w : Web)
    → Sound w
    → IsIn s w.view.sessions
    → Sound (commit (with_sessions w (revoke_session now s w.view.sessions)))
unfolding revoke_session
revoked-Sound now s w h m = elim (Bool-cases (is_active s)) [
  | inr dead ↦ rw dead (Sound-commit w h.1)
  | inl active ↦
      let gone : Session = record s { revoked_at = some (now 0) } in
      let P = λ (id : ℕ). known id w.view.users ≡ true in
      rw active (
        Sound-commit _ (
          with_sessions-IsConsistent w _ h.1
            (Of-update_session P gone w.view.sessions (Of-IsIn P w.view.sessions s h.1.0 m) h.1.0)))
]

pub logout-Sound :
    (srv : Server) (now : Clock) (token : String) (w : Web)
    → Sound w
    → Sound (logout srv now token w).1
unfolding logout
logout-Sound srv now token w h =
    elim (Option-cases (find_by_hash (hash_token srv.sha token) w.view.sessions)) [
      | inl missing ↦ rw missing h
      | inr (s, found) ↦
          rw found (revoked-Sound now s w h (find_first-IsIn _ w.view.sessions s found).0)
    ]

pub revoke_one-Sound :
    (srv : Server) (now : Clock) (session_id : String) (user : User) (w : Web)
    → Sound w
    → Sound (revoke_one srv now session_id user w).1
unfolding revoke_one
revoke_one-Sound srv now session_id user w h = elim (Option-cases (srv.uuids.parse session_id)) [
  | inl bad ↦ rw bad h
  | inr (sid, parsed) ↦ elim (Option-cases (find_first (λ s. s.id == sid) w.view.sessions)) [
    | inl missing ↦ rw (parsed, missing) h
    | inr (s, found) ↦ elim (Bool-cases (not (s.user_id == user.id))) [
      | inl foreign ↦ rw (parsed, found, foreign) h
      | inr own ↦
          rw (parsed, found, own)
            (revoked-Sound now s w h (find_first-IsIn _ w.view.sessions s found).0)
    ]
  ]
]

pub set_status-Sound :
    (uuids : Uuids) (now : Clock) (user_id new_status : String) (actor : User) (w : Web)
    → Sound w
    → Sound (set_status uuids now user_id new_status actor w).1
unfolding set_status require_admin_user
set_status-Sound uuids now user_id new_status actor w h =
    elim (Bool-cases (str_eq actor.role role_admin)) [
      | inr other ↦ rw other h
      | inl admin ↦
          elim (Bool-cases (str_eq new_status status_active || str_eq new_status status_disabled)) [
            | inr bad ↦ rw (admin, bad) h
            | inl good ↦ elim (Option-cases (uuids.parse user_id)) [
              | inl unparsed ↦ rw (admin, good, unparsed) h
              | inr (uid, parsed) ↦
                  elim (Option-cases (find_first (λ u. u.id == uid) w.view.users)) [
                    | inl missing ↦ rw (admin, good, parsed, missing) h
                    | inr (user, found) ↦
                        rw (admin, good, parsed, found)
                          (Sound-commit _ (
                            updated-IsConsistent w (with_status now new_status user) user
                              (find_first-IsUser (λ u. u.id == uid) w.view.users user found)
                              (with_status-keeps now new_status user).0
                              (with_status-keeps now new_status user).1 h.1))
                  ]
            ]
          ]
    ]

-- What is kept of the rows of others when a user is deleted.
known-keep :
    (gone id : ℕ) (users : List User)
    → (id == gone) ≡ false
    → known id users ≡ true
    → known id (keep (λ u. not (u.id == gone)) users) ≡ true
unfolding keep
known-keep gone id [] ne h = h
known-keep gone id (u ∷ users) ne h = elim (Bool-cases (u.id == gone)) [
  | inl same ↦ rw same (known-keep gone id users ne (ground arith))
  | inr other ↦ rw other (ground (arith, known-keep gone id users ne))
]

All-keep {ℓ} :
    {A : Type ℓ} (owner : A → ℕ) (gone : ℕ) (users : List User) (rows : List A)
    → All (λ x. known (owner x) users ≡ true) rows
    → All
        (λ x. known (owner x) (keep (λ u. not (u.id == gone)) users) ≡ true)
        (keep (λ x. not (owner x == gone)) rows)
unfolding keep
All-keep owner gone users [] h = tt
All-keep owner gone users (x ∷ rows) h = elim (Bool-cases (owner x == gone)) [
  | inl same ↦ rw same (All-keep owner gone users rows h.1)
  | inr other ↦
      rw other (known-keep gone (owner x) users other h.0, All-keep owner gone users rows h.1)
]

pub delete_me-Sound : (user : User) (w : Web) → Sound w → Sound (delete_me user w).1
unfolding delete_me delete_user
delete_me-Sound user w h =
    Sound-commit (record w { view = delete_user user w.view })
      (
        All-keep (λ s. s.user_id) user.id w.view.users w.view.sessions h.1.0,
        All-keep (λ j. j.user_id) user.id w.view.users w.view.jobs h.1.1,
        UniqueUsers-keep (λ u. not (u.id == user.id)) w.view.users h.1.2,
      )
