-- ===== src/Auth/RefreshTokens/Revocation.antt =====
-- `revoke_all_for_user` and `revoke_session`.
use what_a_secure_app_should.Base.{
  ℕ, suc, ◌+◌, ◌≡◌, ◌≢◌, refl, true, false, [], ◌∷◌, arith, count_where, if◌then◌else◌,
}
use what_a_secure_app_should.Core.Config.{Clock}
use what_a_secure_app_should.Db.{Session, is_active}
use what_a_secure_app_should.Auth.RefreshTokens.{
  Sessions, revoke_where, active_of, revoke_all_for_user,
}
use what_a_secure_app_should.Auth.RefreshTokens.Families.{
  active_of-Active, count-revoke_where_self, count-revoke_where_other,
}

count_drop :
    (u : ℕ) (now : Clock) (i : ℕ) (rows : Sessions)
    → count_where is_active (revoke_where (active_of u) now i rows) + count_where (active_of u) rows
      ≡ count_where is_active rows
unfolding revoke_where
count_drop u now i [] = refl
count_drop u now i (s ∷ rows) =
    ground (arith, count_drop u now (if active_of u s then suc i else i) rows)

apart : (u v : ℕ) → v ≢ u → (s : Session) → active_of u s ≡ true → active_of v s ≡ false
apart u v ne s h = ground arith

-- Revoking all sessions of a user leaves that user no active session, leaves another user as
-- many as before, and returns by how many the active sessions have become fewer.
pub revoke_all_for_user_lem :
    (now : Clock) (u v : ℕ) (rows : Sessions)
    → v ≢ u
    → let (n, left) = revoke_all_for_user now u rows in
      (count_where (active_of u) left ≡ 0)
      × (count_where (active_of v) left ≡ count_where (active_of v) rows)
      × (count_where is_active left + n ≡ count_where is_active rows)
unfolding revoke_all_for_user
revoke_all_for_user_lem now u v rows ne = (
  count-revoke_where_self (active_of u) now 0 rows (active_of-Active u),
  count-revoke_where_other (active_of u) (active_of v) now 0 rows (active_of-Active v)
      (apart u v ne),
  count_drop u now 0 rows,
)
