-- ===== src/Api/Integrity/Logins.antt =====
-- app/api/v1/auth.py: registration, login and refresh keep the tables consistent, in what is committed
-- and in what the request sees.
use text.Mathlib.Text.{◌==◌ as str_eq}
use what_a_secure_app_should.Base.{
  ◌+◌, ◌≡◌, refl, subst, inl, inr, Bool, true, false, not, ◌||◌, Bool-cases, Option, none, some,
  Option-cases, String, List, [], ◌∷◌, ◌++◌, ◌==◌, arith, find_first,
}
use what_a_secure_app_should.Base.Outcome.{Result, ok, err, replay_detected, invalid_refresh_token}
use what_a_secure_app_should.Db.{User, is_none, status_active}
use what_a_secure_app_should.Auth.RefreshTokens.{IssuedRefresh, Sessions, rotate}
use what_a_secure_app_should.Api.{Web, serve, commit, ◌>>=◌}
use what_a_secure_app_should.Api.Auth.{
  Server, Visit, find_email, update_user, with_users, with_sessions, on_sessions, response_for,
  token_response, locked_after, failed_user, logged_in_user, password_ok, finish_login, login,
  finish_refresh, refreshed_user, refresh,
}
use what_a_secure_app_should.Api.Auth.Account.{Registration, new_user, register}
use what_a_secure_app_should.Api.Integrity.Users.{
  IsUser, find_first-IsUser, UniqueUsers-append, UniqueUsers-update_user,
}
use what_a_secure_app_should.Api.Integrity.{
  known, IsConsistent, IsConsistent-Extends, known-append, known-update_user, Of, Of-issue_initial,
  Of-rotate,
}

abbrev pub Sound : Web → Type 0
Sound w = IsConsistent w.durable × IsConsistent w.view

pub Sound-commit : (w : Web) → IsConsistent w.view → Sound (commit w)
unfolding commit
Sound-commit w h = (h, h)

pub Sound-serve {ℓ} :
    {A : Type ℓ} (handler : Web → Result A × Web) (w : Web)
    → (Sound (record w { view = w.durable }) → Sound (handler (record w { view = w.durable })).1)
    → IsConsistent w.durable
    → IsConsistent (serve handler w).1.durable
unfolding serve
Sound-serve handler w keeps h = (keeps (h, h)).0

pub with_sessions-IsConsistent :
    (w : Web) (rows : Sessions)
    → IsConsistent w.view
    → Of (λ id. known id w.view.users ≡ true) rows
    → IsConsistent (with_sessions w rows).view
with_sessions-IsConsistent w rows h sessions = (sessions, h.1, h.2)

pub register-Sound :
    (srv : Server) (drawn : Registration) (email password : String) (w : Web)
    → Sound w
    → Sound (register srv drawn email password w).1
unfolding register
register-Sound srv drawn email password w h =
    let new = new_user srv drawn email password in
    elim (Bool-cases (not (is_none (find_email email w.view.users)))) [
      | inl taken ↦ rw taken h
      | inr free ↦
          elim (Bool-cases (
            not (
              is_none
                (find_first (λ u. (u.id == new.id) || str_eq u.email new.email) w.view.users)))) [
                  | inl clash ↦ rw (free, clash) h
                  | inr fresh ↦
                      rw (free, fresh)
                        (Sound-commit (with_users w (w.view.users ++ (new ∷ []))) (
                          IsConsistent-Extends w.view (w.view.users ++ (new ∷ []))
                            (known-append w.view.users new)
                            (UniqueUsers-append w.view.users new h.1.2 (ground (arith, fresh)))
                            h.1))
                ]
    ]

known_of_email :
    (email : String) (users : List User) (user : User)
    → find_email email users ≡ some user
    → known user.id users ≡ true
known_of_email email [] user h = absurd (ground arith)
known_of_email email (u ∷ users) user h = elim (Bool-cases (str_eq u.email email)) [
  | inl here ↦
      let same : u ≡ user = ground arith in
      subst (λ x. known x.id (u ∷ users) ≡ true) same (ground arith)
  | inr there ↦ ground (arith, known_of_email email users user (rw there at h))
]

pub updated-IsConsistent :
    (w : Web) (changed user : User)
    → IsUser user w.view.users
    → changed.id ≡ user.id
    → changed.email ≡ user.email
    → IsConsistent w.view
    → IsConsistent (with_users w (update_user changed w.view.users)).view
updated-IsConsistent w changed user m same_id same_email h =
    IsConsistent-Extends w.view (update_user changed w.view.users)
      (known-update_user changed w.view.users)
      (UniqueUsers-update_user changed user w.view.users h.2 m same_id same_email) h

-- After a call over the sessions in view.
committed_sessions :
    (srv : Server) (visit : Visit) (user : User) (w : Web) (x : Result IssuedRefresh × Sessions)
    → Sound w
    → Of (λ id. known id w.view.users ≡ true) x.1
    → Sound
        (on_sessions w x >>= λ issued w.
          (ok (response_for srv visit (visit.now 2) user issued), commit w)).1
committed_sessions srv visit user w (ok issued, rows) h sessions =
    Sound-commit (with_sessions w rows) (with_sessions-IsConsistent w rows h.1 sessions)
committed_sessions srv visit user w (err e, rows) h sessions =
    (h.0, with_sessions-IsConsistent w rows h.1 sessions)

finish_login-Sound :
    (srv : Server) (visit : Visit) (user : User) (w : Web) (answer : Result Bool)
    → Sound w
    → known user.id w.view.users ≡ true
    → IsUser user w.view.users
    → Sound (finish_login srv visit user w answer).1
unfolding token_response
finish_login-Sound srv visit user w (err e) h k m = h
finish_login-Sound srv visit user w (ok false) h k m =
    Sound-commit (with_users w (update_user (failed_user srv.cfg visit.now user) w.view.users))
      (updated-IsConsistent w (failed_user srv.cfg visit.now user) user m refl refl h.1)
finish_login-Sound srv visit user w (ok true) h k m =
    let logged_in = logged_in_user visit.now user in
    let w' = with_users w (update_user logged_in w.view.users) in
    let kept : IsConsistent w'.view = updated-IsConsistent w logged_in user m refl refl h.1 in
    committed_sessions srv visit logged_in w' _ (h.0, kept)
      (Of-issue_initial (λ id. known id w'.view.users ≡ true) srv.cfg srv.sha
        (λ i. visit.now (3 + i)) visit.tokens user.id visit.user_agent visit.ip_hash
        w'.view.sessions (known-update_user logged_in w.view.users user.id k) kept.0)

pub login-Sound :
    (srv : Server) (visit : Visit) (email password : String) (w : Web)
    → Sound w
    → Sound (login srv visit email password w).1
unfolding login
login-Sound srv visit email password w h = elim (Option-cases (find_email email w.view.users)) [
  | inl missing ↦ rw missing h
  | inr (user, found) ↦ elim (Bool-cases (locked_after user.locked_until (visit.now 0))) [
    | inl locked ↦ rw (found, locked) h
    | inr unlocked ↦
        rw (found, unlocked)
          (finish_login-Sound srv visit user w (password_ok srv.hasher user password) h
            (known_of_email email w.view.users user found)
            (find_first-IsUser (λ u. str_eq u.email email) w.view.users user found))
  ]
]

refreshed-Sound :
    (srv : Server) (visit : Visit) (issued : IssuedRefresh) (w : Web) (user : Option User)
    → Sound w
    → Sound (refreshed_user srv visit issued w user).1
refreshed-Sound srv visit issued w none h = h
refreshed-Sound srv visit issued w (some user) h =
    elim (Bool-cases (not (str_eq user.status status_active))) [
      | inl inactive ↦ rw inactive h
      | inr active ↦ rw active (Sound-commit w h.1)
    ]

finish_refresh-Sound :
    (srv : Server) (visit : Visit) (r : Result IssuedRefresh) (w : Web)
    → Sound w
    → Sound (finish_refresh srv visit (r, w)).1
finish_refresh-Sound srv visit (ok issued) w h =
    refreshed-Sound srv visit issued w
      (find_first (λ u. u.id == issued.session.user_id) w.view.users) h
finish_refresh-Sound srv visit (err (replay_detected m)) w h = Sound-commit w h.1
finish_refresh-Sound srv visit (err (invalid_refresh_token m)) w h = h
finish_refresh-Sound srv visit (err _) w h = h

pub refresh-Sound :
    (srv : Server) (visit : Visit) (token : String) (w : Web)
    → Sound w
    → Sound (refresh srv visit token w).1
unfolding refresh
refresh-Sound srv visit token w h =
    let x = rotate srv.cfg srv.sha visit.now visit.tokens token w.view.sessions in
    finish_refresh-Sound srv visit x.0 (with_sessions w x.1) (
      h.0,
      with_sessions-IsConsistent w x.1 h.1 (
          Of-rotate (λ id. known id w.view.users ≡ true) srv.cfg srv.sha visit.now visit.tokens
            token w.view.sessions h.1.0),
    )
