-- ===== src/Auth/RefreshTokens/Refinement.antt =====
-- What presenting a token answers and does, told of the standing of each token hash alone.
use text.Mathlib.Text.{◌==◌ as str_eq}
use what_a_secure_app_should.Base.{
  ℕ, ◌+◌, ◌≤◌, ◌<◌, ◌≡◌, ◌≢◌, refl, ap, sym, ◌∙◌, Bool, true, false, Option, none, some, String, [],
  ◌∷◌, ◌++◌, arith, ◌==◌, ◌||◌,
}
use what_a_secure_app_should.Base.Outcome.{
  Result, ok, err, replay_detected, invalid_refresh_token, integrity_error,
}
use what_a_secure_app_should.Base.Text.{utf8}
use what_a_secure_app_should.Packages.{Hashlib}
use what_a_secure_app_should.Core.Config.{Settings, days, Clock}
use what_a_secure_app_should.Db.{Session, clashes, any_session, update_session}
use what_a_secure_app_should.Db.Rows.{no_clash, id_of_IsIn, UniqueIds}
use what_a_secure_app_should.Auth.RefreshTokens.{
  IssuedRefresh, Draws, Sessions, hash_token, revoke_family, successor_of, replaced, find_by_hash,
  rotate,
}
use what_a_secure_app_should.Auth.RefreshTokens.Families.{IsValid}
use what_a_secure_app_should.Auth.RefreshTokens.Rotation.{
  Ends, unknown, replayed, expired, clashed, rotated, rotate-Ends,
}
use what_a_secure_app_should.Auth.RefreshTokens.Standing.{
  absent, live, spent, standing, standing_of, Tokens, tokens, set, burnt, tokens-revoke_where,
}
use what_a_secure_app_should.Auth.RefreshTokens.Standing.Updates.{
  not_found, same_row, tokens-append, tokens-update_session, fresh-update_session,
  update_session-append,
}

-- What the table stores of a token.
abbrev pub digest : Hashlib → String → String
digest sha raw = sha.sha256_hexdigest (utf8 raw)

-- Two states that agree.
abbrev pub Same : Tokens → Tokens → Type 0
Same after before = (x : String) → after x ≡ before x

-- A primary key or a hash that a row has already.
abbrev pub is_taken : ℕ → String → Sessions → Bool
is_taken id x = any_session (λ s. (s.id == id) || str_eq s.refresh_token_hash x)

-- The answer to a token that is presented, from the state before, and the state after. The test
-- `taken` says that the primary key or the hash that was drawn stands in the table already.
pub data Presents (cfg : Settings) (sha : Hashlib) (now : Clock) (new : Draws) (presented : String)
    (taken : Bool) (before after : Tokens) : Result IssuedRefresh → Type 0 where
  turned :
      (user family expires : ℕ) (issued : IssuedRefresh)
      → before (digest sha presented) ≡ live user family expires
      → now 0 < expires
      → taken ≡ false
      → before (digest sha new.raw) ≡ absent
      → issued.raw_token ≡ new.raw
      → issued.session.id ≡ new.id
      → issued.session.user_id ≡ user
      → issued.session.session_family_id ≡ family
      → Same after (
          set
            (digest sha new.raw)
            (live user family (now 2 + days cfg.refresh_token_lifetime_days))
            (set (digest sha presented) (spent user family) before))
      → Presents cfg sha now new presented taken before after (ok issued)
  burned :
      (user family : ℕ)
      → before (digest sha presented) ≡ spent user family
      → Same after (λ x. burnt family (before x))
      → Presents cfg sha now new presented taken before after
          (err (replay_detected "refresh token replay"))
  never_issued :
      before (digest sha presented) ≡ absent
      → Same after before
      → Presents cfg sha now new presented taken before after
          (err (invalid_refresh_token "unknown token"))
  too_late :
      (user family expires : ℕ)
      → before (digest sha presented) ≡ live user family expires
      → expires ≤ now 0
      → Same after before
      → Presents cfg sha now new presented taken before after
          (err (invalid_refresh_token "expired token"))
  unlucky :
      (user family expires : ℕ)
      → before (digest sha presented) ≡ live user family expires
      → now 0 < expires
      → taken ≡ true
      → Same after before
      → Presents cfg sha now new presented taken before after (err integrity_error)

-- A row replaced by one of the same key and hash, and a new row behind the others.
tokens_turned :
    (rows : Sessions) (s changed new : Session)
    → UniqueIds rows
    → find_by_hash s.refresh_token_hash rows ≡ some s
    → changed.id ≡ s.id
    → changed.refresh_token_hash ≡ s.refresh_token_hash
    → new.id ≢ changed.id
    → find_by_hash new.refresh_token_hash rows ≡ none
    → Same (tokens (update_session changed (rows ++ (new ∷ [])))) (
        set new.refresh_token_hash
          (standing_of (some new))
          (set s.refresh_token_hash (standing_of (some changed)) (tokens rows)))
tokens_turned rows s changed new u found id hash ne fresh x =
    let m = (same_row s.refresh_token_hash rows s found).0 in
    let absent_still =
      fresh-update_session rows s changed new.refresh_token_hash u m id hash fresh in
    rw
      (
        update_session-append changed new rows ne,
        tokens-append (update_session changed rows) new absent_still x,
        tokens-update_session rows s changed u found id hash x,
      )
      refl

module _ (cfg : Settings) (sha : Hashlib) (now : Clock) (new : Draws) (raw_token : String)
    (rows : Sessions) where
  presented_standing :
      (s : Session) (revoked : Option ℕ)
      → find_by_hash (hash_token sha raw_token) rows ≡ some s
      → s.revoked_at ≡ revoked
      → tokens rows (hash_token sha raw_token) ≡ standing s revoked
  presented_standing s revoked found e = ap standing_of found ∙ ap (standing s) e

  -- No row has the hash of a successor that does not clash.
  fresh_hash :
      (s : Session)
      → any_session (clashes (successor_of cfg sha now new s)) rows ≡ false
      → find_by_hash (hash_token sha new.raw) rows ≡ none
  fresh_hash s free =
      not_found (clashes (successor_of cfg sha now new s))
        (λ t. str_eq t.refresh_token_hash (hash_token sha new.raw)) rows (λ t h. ground arith) free

  tokens_rotated :
      (s : Session)
      → IsValid rows
      → find_by_hash (hash_token sha raw_token) rows ≡ some s
      → any_session (clashes (successor_of cfg sha now new s)) rows ≡ false
      → Same
          (tokens (
            update_session
              (replaced now (successor_of cfg sha now new s) s)
              (rows ++ (successor_of cfg sha now new s ∷ []))))
          (set
            (hash_token sha new.raw)
            (live s.user_id s.session_family_id (now 2 + days cfg.refresh_token_lifetime_days))
            (set (hash_token sha raw_token) (spent s.user_id s.session_family_id) (tokens rows)))
  tokens_rotated s v found free =
      let successor = successor_of cfg sha now new s in
      let (m, hash) = same_row (hash_token sha raw_token) rows s found in
      let ne : new.id ≢ s.id =
        λ e. id_of_IsIn new.id rows s (no_clash successor rows free) m (sym e) in
      rw (← hash) (
        tokens_turned rows s (replaced now successor s) successor v.unique_ids
          (rw (← hash) at found) refl refl ne (fresh_hash s free))

  Presents-of_Ends :
      {r : Result IssuedRefresh × Sessions}
      → Ends cfg sha now new raw_token rows r
      → IsValid rows
      → Presents cfg sha now new raw_token
          (is_taken new.id (digest sha new.raw) rows)
          (tokens rows)
          (tokens r.1)
          r.0
  unfolding revoke_family hash_token
  Presents-of_Ends (unknown e) v = never_issued (ap standing_of e) (λ x. refl)
  Presents-of_Ends (replayed s t e a) v =
      burned s.user_id s.session_family_id (presented_standing s (some t) e a)
        (tokens-revoke_where s.session_family_id now 0 rows)
  Presents-of_Ends (expired s e a l) v =
      too_late s.user_id s.session_family_id s.expires_at (presented_standing s none e a) l
        (λ x. refl)
  Presents-of_Ends (clashed s e a l c) v =
      unlucky s.user_id s.session_family_id s.expires_at (presented_standing s none e a) l c
        (λ x. refl)
  Presents-of_Ends (rotated s e a l c) v =
      turned s.user_id s.session_family_id s.expires_at _ (presented_standing s none e a) l c
        (ap standing_of (fresh_hash s c)) refl refl refl refl (tokens_rotated s v e c)

  -- Over a valid table, what `rotate` answers and what it does is told by the standing of each
  -- token hash, which is absent, live with its user, family and expiry, or spent with its user
  -- and family. An absent token is unknown; a live one whose expiry has come is expired; a
  -- spent one is a replay, after which every live token of its family is spent; a live one
  -- before its expiry fails if the drawn key or hash is taken, and else is spent, and the hash
  -- of the new token, absent before, is live with the same user and family and the expiry of
  -- the settings. Nothing else changes any standing.
  pub rotate-Presents :
      IsValid rows
      → let (result, rows') = rotate cfg sha now new raw_token rows in
        Presents cfg sha now new raw_token
          (is_taken new.id (digest sha new.raw) rows)
          (tokens rows)
          (tokens rows')
          result
  rotate-Presents v = Presents-of_Ends (rotate-Ends cfg sha now new raw_token rows) v
