-- ===== src/Api/Auth/Refresh.antt =====
-- app/api/v1/auth.py: what `refresh` grants, and what it commits.
use text.Mathlib.Text.{◌==◌ as str_eq}
use what_a_secure_app_should.Base.{
  ◌≡◌, refl, ap, sym, inl, inr, true, Bool-cases, some, Option-cases, none, false, String, ◌==◌,
  find_first,
}
use what_a_secure_app_should.Base.Outcome.{Exception, Result, ok, err, replay_detected}
use what_a_secure_app_should.Db.{User, status_active}
use what_a_secure_app_should.Auth.RefreshTokens.{IssuedRefresh, Sessions, rotate}
use what_a_secure_app_should.Api.{Web, commit, serve}
use what_a_secure_app_should.Api.Auth.{
  Server, Visit, TokenResponse, invalid_credentials, on_sessions, finish_refresh, refresh,
}

-- An exception of a rotation that is no replay.
abbrev pub IsNotReplay : Exception → Type 0
IsNotReplay (replay_detected _) = ⊥
IsNotReplay _ = Unit

module _ (srv : Server) (visit : Visit) (refresh_token : String) (w : Web) where
  -- The rotation of the token over the committed sessions.
  abbrev pub rotation : Result IssuedRefresh × Sessions
  rotation = rotate srv.cfg srv.sha visit.now visit.tokens refresh_token w.durable.sessions

  -- The ways in which a served `refresh` ends.
  pub data Refreshed : Result TokenResponse × Web → Type 0 where
    granted :
        (issued : IssuedRefresh) (user : User) (response : TokenResponse) (w' : Web)
        → rotation.0 ≡ ok issued
        → find_first (λ u. u.id == issued.session.user_id) w.durable.users ≡ some user
        → str_eq user.status status_active ≡ true
        → response.refresh_token ≡ issued.raw_token
        → w'.durable ≡ record (w.durable) { sessions = rotation.1 }
        → Refreshed (ok response, w')
    replayed :
        (message : String) (w' : Web)
        → rotation.0 ≡ err (replay_detected message)
        → w'.durable ≡ record (w.durable) { sessions = rotation.1 }
        → Refreshed (err invalid_credentials, w')
    unrotated :
        (reason e : Exception) (w' : Web)
        → rotation.0 ≡ err reason
        → IsNotReplay reason
        → w'.durable ≡ w.durable
        → Refreshed (err e, w')
    unknown_user :
        (issued : IssuedRefresh) (w' : Web)
        → rotation.0 ≡ ok issued
        → find_first (λ u. u.id == issued.session.user_id) w.durable.users ≡ none
        → w'.durable ≡ w.durable
        → Refreshed (err invalid_credentials, w')
    inactive_user :
        (issued : IssuedRefresh) (user : User) (w' : Web)
        → rotation.0 ≡ ok issued
        → find_first (λ u. u.id == issued.session.user_id) w.durable.users ≡ some user
        → str_eq user.status status_active ≡ false
        → w'.durable ≡ w.durable
        → Refreshed (err invalid_credentials, w')

  -- `serve`, from what the handler gave.
  abbrev closed : Result TokenResponse × Web → Result TokenResponse × Web
  closed (r, w') = (r, record w' { view = w'.durable })

  abbrev fresh : Web
  fresh = record w { view = w.durable }

  Refreshed-finish :
      (p : Result IssuedRefresh × Sessions)
      → rotation ≡ p
      → Refreshed (closed (finish_refresh srv visit (on_sessions fresh p)))
  unfolding commit
  Refreshed-finish (ok issued, rows) h =
      elim (Option-cases (find_first (λ u. u.id == issued.session.user_id) w.durable.users)) [
        | inl absent ↦ rw absent (unknown_user issued _ (ap (λ x. x.0) h) absent refl)
        | inr (user, found) ↦ elim (Bool-cases (str_eq user.status status_active)) [
          | inr disabled ↦
              rw (found, disabled)
                (inactive_user issued user _ (ap (λ x. x.0) h) found disabled refl)
          | inl active ↦
              rw (found, active)
                (granted issued user _ _ (ap (λ x. x.0) h) found active refl
                  (ap (λ x. record (w.durable) { sessions = x.1 }) (sym h)))
        ]
      ]
  Refreshed-finish (err e, rows) h = raised e h
    where
      raised :
          (e : Exception)
          → rotation ≡ (err e, rows)
          → Refreshed (closed (finish_refresh srv visit (on_sessions fresh (err e, rows))))
      raised (replay_detected m) h =
          replayed m _ (ap (λ x. x.0) h) (ap (λ x. record (w.durable) { sessions = x.1 }) (sym h))
      raised _ h = unrotated _ _ _ (ap (λ x. x.0) h) tt refl

  -- A served `refresh` ends by what the rotation gives over the committed sessions: a rotated
  -- token of an active user is granted and the rotation committed; a replay is refused and what
  -- the rotation left, the revoked family, is committed; a rotated token of a missing or
  -- inactive user, and every other exception of the rotation, is refused and nothing is
  -- committed.
  pub refresh-Refreshed : Refreshed (serve (refresh srv visit refresh_token) w)
  unfolding serve refresh
  refresh-Refreshed = Refreshed-finish rotation refl
