-- ===== src/Auth/RefreshTokens/Finality.antt =====
-- A replay is final for its family: no later history brings a session of it back.
use what_a_secure_app_should.Base.{
  ℕ, ◌≡◌, ◌≢◌, inl, inr, Bool, true, some, Option-cases, String, [], ◌∷◌, arith, ==_self,
}
use what_a_secure_app_should.Base.Outcome.{ok}
use what_a_secure_app_should.Packages.{Hashlib}
use what_a_secure_app_should.Core.Config.{Settings, Clock}
use what_a_secure_app_should.Db.{Session, any_session}
use what_a_secure_app_should.Db.Rows.{IsIn, find_first-IsIn}
use what_a_secure_app_should.Auth.RefreshTokens.{
  IssuedRefresh, Draws, Sessions, hash_token, active_in, revoke_family, find_by_hash, rotate,
}
use what_a_secure_app_should.Auth.RefreshTokens.Families.{
  IsValid, in_family, active_in-Active, count-revoke_where_self,
}
use what_a_secure_app_should.Auth.RefreshTokens.Rotation.{rotate-IsValid, replay_of_superseded}
use what_a_secure_app_should.Auth.RefreshTokens.Histories.{
  Reach, IsBurned, active_elsewhere, Reach-IsBurned, used_revoked,
}

any-IsIn :
    (p : Session → Bool) (rows : Sessions) (s : Session)
    → IsIn s rows
    → p s ≡ true
    → any_session p rows ≡ true
any-IsIn p [] s m h = absurd m
any-IsIn p (x ∷ rows) s (inl e) h = ground arith
any-IsIn p (x ∷ rows) s (inr m) h = ground (arith, any-IsIn p rows s m h)

module _ (cfg : Settings) (sha : Hashlib) where
  IsBurned-by_replay :
      (now : Clock) (rows : Sessions) (s : Session)
      → IsIn s rows
      → IsBurned cfg sha s.session_family_id (revoke_family now s.session_family_id rows)
  unfolding revoke_family
  IsBurned-by_replay now rows s m =
      let f = s.session_family_id in
      record {
        used =
            used_revoked cfg sha f (active_in f) now 0 rows
              (any-IsIn (in_family f) rows s m (==_self f));
        no_active = count-revoke_where_self (active_in f) now 0 rows (active_in-Active f);
      }

  -- Once a revoked token was presented to `rotate` over a valid table, then after any history
  -- of calls no token of its family is rotated.
  pub replay_is_final :
      (now now' : Clock) (new new' : Draws) (raw_token raw_token' : String) (rows rows' : Sessions)
      (s t : Session) (time : ℕ) (issued : IssuedRefresh)
      → IsValid rows
      → find_by_hash (hash_token sha raw_token) rows ≡ some s
      → s.revoked_at ≡ some time
      → Reach cfg sha (rotate cfg sha now new raw_token rows).1 rows'
      → find_by_hash (hash_token sha raw_token') rows' ≡ some t
      → t.session_family_id ≡ s.session_family_id
      → (rotate cfg sha now' new' raw_token' rows').0 ≢ ok issued
  replay_is_final now now' new new' raw_token raw_token' rows rows' s t time issued v found revoked
        r found' same =
      let f = s.session_family_id in
      let replay = replay_of_superseded cfg sha now new raw_token rows s time found revoked in
      let v1 = rotate-IsValid cfg sha now new raw_token rows v in
      let m = (find_first-IsIn _ rows s found).0 in
      let m' = (find_first-IsIn _ rows' t found').0 in
      let burned : IsBurned cfg sha f (rotate cfg sha now new raw_token rows).1 =
        rw replay (IsBurned-by_replay now rows s m) in
      let burned' = Reach-IsBurned cfg sha f v1 burned r in
      elim (Option-cases t.revoked_at) [
        | inl active ↦ absurd (active_elsewhere cfg sha f t rows' burned' m' (ground arith) same)
        | inr (time', revoked') ↦
            rw (replay_of_superseded cfg sha now' new' raw_token' rows' t time' found' revoked')
              (λ e. cc)
      ]
