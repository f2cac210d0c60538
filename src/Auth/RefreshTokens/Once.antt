-- ===== src/Auth/RefreshTokens/Once.antt =====
-- A token rotates at most once, whatever happens to the table in between.
use text.Mathlib.Text.{◌==◌ as str_eq}
use text.Mathlib.TextEquality.{eq_iff}
use what_a_secure_app_should.Base.{
  ℕ, ◌≡◌, ◌≢◌, refl, ap, sym, ◌∙◌, inl, inr, Bool, Bool-cases, String, arith, ◌==◌,
}
use what_a_secure_app_should.Base.Outcome.{Result, ok, err, replay_detected}
use what_a_secure_app_should.Packages.{Hashlib}
use what_a_secure_app_should.Core.Config.{Settings, Clock}
use what_a_secure_app_should.Auth.RefreshTokens.{IssuedRefresh, Draws, Sessions, rotate}
use what_a_secure_app_should.Auth.RefreshTokens.Families.{IsValid}
use what_a_secure_app_should.Auth.RefreshTokens.Standing.{
  Standing, absent, live, spent, Tokens, tokens, burnt,
}
use what_a_secure_app_should.Auth.RefreshTokens.Refinement.{
  digest, Presents, turned, burned, never_issued, too_late, unlucky, rotate-Presents,
}
use what_a_secure_app_should.Auth.RefreshTokens.Histories.{Reach, Reach-IsValid}
use what_a_secure_app_should.Auth.RefreshTokens.Rotation.{rotate-IsValid}
use what_a_secure_app_should.Auth.RefreshTokens.Lifecycle.{Reach-Ages}

-- No token of a burnt family is live.
burnt_dead : (u f e : ℕ) (x : Standing) → burnt f x ≢ live u f e
burnt_dead u f e absent h = cc
burnt_dead u f e (live u' f' e') h = elim (Bool-cases (f' == f)) [
  | inl own ↦ absurd (ground arith)
  | inr other ↦ absurd (ground arith)
]
burnt_dead u f e (spent u' f') h = cc

module _ (cfg : Settings) (sha : Hashlib) (now : Clock) (new : Draws) (raw_token : String)
    (taken : Bool) (before after : Tokens) where
  spent_by_rotation :
      {r : Result IssuedRefresh}
      → Presents cfg sha now new raw_token taken before after r
      → (issued : IssuedRefresh) → r ≡ ok issued
      → after (digest sha raw_token) ≡ spent issued.session.user_id issued.session.session_family_id
  spent_by_rotation (burned u f was eq) issued h = absurd (ground arith)
  spent_by_rotation (never_issued was eq) issued h = absurd (ground arith)
  spent_by_rotation (too_late u f e was late eq) issued h = absurd (ground arith)
  spent_by_rotation (unlucky u f e was early clash eq) issued h = absurd (ground arith)
  spent_by_rotation (turned u f e own was early free none_yet raw id user family eq) issued h =
      let x = digest sha raw_token in
      let y = digest sha new.raw in
      let same : own ≡ issued = ground arith in
      elim (Bool-cases (str_eq x y)) [
        | inl clash ↦
            let k : before x ≡ absent = ap before ((eq_iff x y).0 clash) ∙ none_yet in
            absurd (cc (was, k))
        | inr other ↦ rw (← same, user, family, eq x, other, (eq_iff x x).1 refl) refl
      ]

  replay_of_spent :
      {r : Result IssuedRefresh} (user family : ℕ)
      → Presents cfg sha now new raw_token taken before after r
      → before (digest sha raw_token) ≡ spent user family
      → (r ≡ err (replay_detected "refresh token replay"))
        × ((x : String) (u e : ℕ) → after x ≢ live u family e)
  replay_of_spent user family (turned u f e own was early free none_yet raw id u' f' eq) h =
      absurd (cc (was, h))
  replay_of_spent user family (never_issued was eq) h = absurd (cc (was, h))
  replay_of_spent user family (too_late u f e was late eq) h = absurd (cc (was, h))
  replay_of_spent user family (unlucky u f e was early clash eq) h = absurd (cc (was, h))
  replay_of_spent user family (burned u f was eq) h =
      let same : f ≡ family = ground (arith, was, h) in
      (refl, λ x v e k. burnt_dead v family e (before x) (rw same at (sym (eq x) ∙ k)))

-- A token that `rotate` has rotated over a valid table is refused as a replay after every
-- history of logins (each with a family that no row has), rotations and revocations, at any
-- time, and this leaves no live token in the family of the session that the rotation issued.
pub rotates_once :
    (cfg : Settings) (sha : Hashlib) (now now' : Clock) (new new' : Draws) (raw_token : String)
    (rows rows' rows'' : Sessions) (issued : IssuedRefresh)
    → IsValid rows
    → rotate cfg sha now new raw_token rows ≡ (ok issued, rows')
    → Reach cfg sha rows' rows''
    → let (result, left) = rotate cfg sha now' new' raw_token rows'' in
      (result ≡ err (replay_detected "refresh token replay"))
      × ((token_hash : String) (user expires : ℕ)
          → tokens left token_hash ≢ live user issued.session.session_family_id expires)
rotates_once cfg sha now now' new new' raw rows rows' rows'' issued v h r =
    let ends = rotate-Presents cfg sha now new raw rows v in
    let valid : IsValid rows' =
      rw (ap (λ (x : Result IssuedRefresh × Sessions). x.1) h) at
        (rotate-IsValid cfg sha now new raw rows v) in
    let used =
      spent_by_rotation cfg sha now new raw _ (tokens rows) _ ends issued
        (ap (λ (x : Result IssuedRefresh × Sessions). x.0) h) in
    let used' : tokens rows' (digest sha raw)
        ≡ spent issued.session.user_id issued.session.session_family_id =
      rw (ap (λ (x : Result IssuedRefresh × Sessions). x.1) h) at used in
    replay_of_spent cfg sha now' new' raw _ (tokens rows'') _ issued.session.user_id
      issued.session.session_family_id
      (rotate-Presents cfg sha now' new' raw rows'' (Reach-IsValid cfg sha valid r))
      (rw used' at (Reach-Ages cfg sha valid r (digest sha raw)))
