-- ===== src/Api/Auth/Logout.antt =====
-- app/api/v1/auth.py: `logout` ends the use of a token.
use text.Mathlib.Text.{◌==◌ as str_eq}
use what_a_secure_app_should.Base.{
  ◌≡◌, refl, subst, find_first, inl, inr, false, Bool-cases, some, Option-cases, String, arith,
}
use what_a_secure_app_should.Base.Outcome.{err}
use what_a_secure_app_should.Packages.{Hashlib}
use what_a_secure_app_should.Core.Config.{Clock}
use what_a_secure_app_should.Db.{Session, is_active, update_session}
use what_a_secure_app_should.Db.Rows.{find_first-IsIn, find_first-update_session}
use what_a_secure_app_should.Auth.RefreshTokens.{
  Sessions, hash_token, rotate, find_by_hash, revoke_session,
}
use what_a_secure_app_should.Api.{Web, serve, commit}
use what_a_secure_app_should.Api.Auth.{Server, Visit, invalid_credentials, refresh, logout}

-- A token whose session is missing or revoked.
abbrev pub IsSpent : Hashlib → String → Sessions → Type 0
IsSpent sha token rows =
    (s : Session) → find_by_hash (hash_token sha token) rows ≡ some s → is_active s ≡ false

refresh_spent :
    (srv : Server) (visit : Visit) (token : String) (w : Web)
    → IsSpent srv.sha token w.durable.sessions
    → (serve (refresh srv visit token) w).0 ≡ err invalid_credentials
unfolding serve refresh rotate commit
refresh_spent srv visit token w spent =
    elim (Option-cases (find_by_hash (hash_token srv.sha token) w.durable.sessions)) [
      | inl missing ↦ rw missing refl
      | inr (s, found) ↦ elim (Option-cases s.revoked_at) [
        | inr (t, revoked) ↦ rw (found, revoked) refl
        | inl active ↦ let dead : is_active s ≡ false = spent s found in absurd (ground arith)
      ]
    ]

logout_spends :
    (srv : Server) (now : Clock) (token : String) (w : Web)
    → IsSpent srv.sha token (serve (logout srv now token) w).1.durable.sessions
unfolding serve logout revoke_session commit
logout_spends srv now token w s found =
    let by_hash = λ (t : Session). str_eq t.refresh_token_hash (hash_token srv.sha token) in
    elim (Option-cases (find_by_hash (hash_token srv.sha token) w.durable.sessions)) [
      | inl missing ↦
          let found' : find_by_hash (hash_token srv.sha token) w.durable.sessions ≡ some s =
            rw missing at found in
          absurd (ground arith)
      | inr (old, here) ↦ elim (Bool-cases (is_active old)) [
        | inr dead ↦
            let found' : find_by_hash (hash_token srv.sha token) w.durable.sessions ≡ some s =
              rw (here, dead) at found in
            let same : old ≡ s = ground arith in subst (λ t. is_active t ≡ false) same dead
        | inl alive ↦
            let gone : Session = record old { revoked_at = some (now 0) } in
            let rows' = update_session gone w.durable.sessions in
            let found' : find_first by_hash rows' ≡ some s = rw (here, alive) at found in
            let after : find_first by_hash rows' ≡ some gone =
              find_first-update_session by_hash gone old w.durable.sessions here refl
                (find_first-IsIn by_hash w.durable.sessions old here).1 in
            let same : gone ≡ s = ground arith in subst (λ t. is_active t ≡ false) same refl
      ]
    ]

-- After a served `logout` with a token, whether or not any session has it, a served `refresh`
-- with that token is refused as invalid credentials.
pub refresh-logout :
    (srv : Server) (visit : Visit) (now : Clock) (token : String) (w : Web)
    → (serve (refresh srv visit token) (serve (logout srv now token) w).1).0
      ≡ err invalid_credentials
refresh-logout srv visit now token w =
    refresh_spent srv visit token (serve (logout srv now token) w).1 (logout_spends srv now token w)
