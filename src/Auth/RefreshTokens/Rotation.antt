-- ===== src/Auth/RefreshTokens/Rotation.antt =====
-- The five ends of `rotate`, and what presenting the same token again does.
use text.Mathlib.Text.{◌==◌ as str_eq}
use what_a_secure_app_should.Base.{
  ℕ, ◌≤◌, ◌<◌, ◌≡◌, refl, ap, inl, inr, true, false, Bool-cases, none, some, Option-cases, String,
  [], ◌∷◌, ◌++◌, arith, leb, count_where,
}
use what_a_secure_app_should.Base.Outcome.{
  Result, ok, err, replay_detected, invalid_refresh_token, integrity_error,
}
use what_a_secure_app_should.Packages.{Hashlib}
use what_a_secure_app_should.Core.Config.{Settings, Clock}
use what_a_secure_app_should.Db.{Session, clashes, any_session, add_session, update_session}
use what_a_secure_app_should.Db.Rows.{
  find_first-IsIn, count-append, UniqueIds-append, UniqueIds-update_session, count-update_session,
  IsIn-append, find_first-append, find_first-update_session, no_clash,
}
use what_a_secure_app_should.Auth.RefreshTokens.{
  IssuedRefresh, Draws, Sessions, hash_token, active_in, revoke_family, successor_of, replaced,
  find_by_hash, rotate,
}
use what_a_secure_app_should.Auth.RefreshTokens.Families.{
  IsValid, active_in-Active, count-revoke_where_self, revoke_where-IsValid,
}

module _ (cfg : Settings) (sha : Hashlib) (now : Clock) (new : Draws) (raw_token : String)
    (rows : Sessions) where
  abbrev issued_for : Session → IssuedRefresh
  issued_for s = record { raw_token = new.raw; session = successor_of cfg sha now new s }

  -- How a call of `rotate` ends, by the token's session and the clock.
  pub data Ends : Result IssuedRefresh × Sessions → Type 0 where
    unknown :
        find_by_hash (hash_token sha raw_token) rows ≡ none
        → Ends (err (invalid_refresh_token "unknown token"), rows)
    replayed :
        (s : Session) (t : ℕ)
        → find_by_hash (hash_token sha raw_token) rows ≡ some s
        → s.revoked_at ≡ some t
        → Ends (
          err (replay_detected "refresh token replay"),
          revoke_family now s.session_family_id rows,
        )
    expired :
        (s : Session)
        → find_by_hash (hash_token sha raw_token) rows ≡ some s
        → s.revoked_at ≡ none
        → s.expires_at ≤ now 0
        → Ends (err (invalid_refresh_token "expired token"), rows)
    clashed :
        (s : Session)
        → find_by_hash (hash_token sha raw_token) rows ≡ some s
        → s.revoked_at ≡ none
        → now 0 < s.expires_at
        → any_session (clashes (successor_of cfg sha now new s)) rows ≡ true
        → Ends (err integrity_error, rows)
    rotated :
        (s : Session)
        → find_by_hash (hash_token sha raw_token) rows ≡ some s
        → s.revoked_at ≡ none
        → now 0 < s.expires_at
        → any_session (clashes (successor_of cfg sha now new s)) rows ≡ false
        → Ends (
          ok (issued_for s),
          update_session
              (replaced now (successor_of cfg sha now new s) s)
              (rows ++ (successor_of cfg sha now new s ∷ [])),
        )

  -- Every call of `rotate` ends in one of five ways, each with its result and its table:
  -- unknown token, replay with the family revoked, expired token, key clash, or rotation with
  -- the presented session revoked and replaced by its successor.
  pub rotate-Ends : Ends (rotate cfg sha now new raw_token rows)
  unfolding rotate add_session
  rotate-Ends = elim (Option-cases (find_by_hash (hash_token sha raw_token) rows)) [
    | inl missing ↦ rw missing (unknown missing)
    | inr (s, found) ↦ elim (Option-cases s.revoked_at) [
      | inr (t, revoked) ↦ rw (found, revoked) (replayed s t found revoked)
      | inl active ↦ elim (Bool-cases (leb s.expires_at (now 0))) [
        | inl late ↦ rw (found, active, late) (expired s found active (ground arith))
        | inr early ↦
            elim (Bool-cases (any_session (clashes (successor_of cfg sha now new s)) rows)) [
              | inl clash ↦
                  rw (found, active, early, clash) (clashed s found active (ground arith) clash)
              | inr free ↦
                  rw (found, active, early, free) (rotated s found active (ground arith) free)
            ]
      ]
    ]
  ]

  -- What a successful rotation leaves of the presented token: its session, revoked.
  record Superseded (issued : IssuedRefresh) (rows' : Sessions) : Type 0 where
    old : Session
    time : ℕ
    found : find_by_hash (hash_token sha raw_token) rows' ≡ some old
    is_revoked : old.revoked_at ≡ some time
    same_family : old.session_family_id ≡ issued.session.session_family_id

  same_hash :
      (s : Session)
      → find_by_hash (hash_token sha raw_token) rows ≡ some s
      → str_eq s.refresh_token_hash (hash_token sha raw_token) ≡ true
  same_hash s h =
      (find_first-IsIn (λ t. str_eq t.refresh_token_hash (hash_token sha raw_token)) rows s h).1

  Superseded-of_Ends :
      {r : Result IssuedRefresh × Sessions}
      → Ends r
      → (issued : IssuedRefresh) (rows' : Sessions) → r ≡ (ok issued, rows')
      → Superseded issued rows'
  Superseded-of_Ends (unknown e) issued rows' h = absurd (ground arith)
  Superseded-of_Ends (replayed s t e a) issued rows' h = absurd (ground arith)
  Superseded-of_Ends (expired s e a l) issued rows' h = absurd (ground arith)
  Superseded-of_Ends (clashed s e a l c) issued rows' h = absurd (ground arith)
  Superseded-of_Ends (rotated s e a l c) issued rows' h =
      let successor = successor_of cfg sha now new s in
      let by_hash = λ (t : Session). str_eq t.refresh_token_hash (hash_token sha raw_token) in
      let after =
        find_first-update_session by_hash (replaced now successor s) s (rows ++ (successor ∷ []))
          (find_first-append by_hash rows s successor e) refl (same_hash s e) in
      record {
        old = replaced now successor s;
        time = now 3;
        found = rw (ap (λ (x : Result IssuedRefresh × Sessions). x.1) h) at after;
        is_revoked = refl;
        same_family = ground arith;
      }

  -- The invariant after each of the ends.
  rotated-IsValid :
      (s : Session)
      → IsValid rows
      → find_by_hash (hash_token sha raw_token) rows ≡ some s
      → s.revoked_at ≡ none
      → any_session (clashes (successor_of cfg sha now new s)) rows ≡ false
      → IsValid (
          update_session
            (replaced now (successor_of cfg sha now new s) s)
            (rows ++ (successor_of cfg sha now new s ∷ [])))
  rotated-IsValid s v e a c =
      let successor = successor_of cfg sha now new s in
      let rows' = rows ++ (successor ∷ []) in
      let unique = UniqueIds-append rows successor v.unique_ids (no_clash successor rows c) in
      let here = (find_first-IsIn _ rows s e).0 in
      record {
        unique_ids = UniqueIds-update_session (replaced now successor s) rows' unique;
        one_active = λ f. ground (
          arith,
          v.one_active f,
          count-append (active_in f) rows successor,
          count-update_session (active_in f) (replaced now successor s) s rows' unique
              (IsIn-append rows s successor here) refl,
        );
      }

  Ends-IsValid : {r : Result IssuedRefresh × Sessions} → Ends r → IsValid rows → IsValid r.1
  unfolding revoke_family
  Ends-IsValid (unknown e) v = v
  Ends-IsValid (replayed s t e a) v =
      revoke_where-IsValid (active_in s.session_family_id) now 0 rows v
  Ends-IsValid (expired s e a l) v = v
  Ends-IsValid (clashed s e a l c) v = v
  Ends-IsValid (rotated s e a l c) v = rotated-IsValid s v e a c

  -- Rotation, however it ends, keeps at most one active session in each family.
  pub rotate-IsValid : IsValid rows → IsValid (rotate cfg sha now new raw_token rows).1
  rotate-IsValid v = Ends-IsValid rotate-Ends v

pub replay_of_superseded :
    (cfg : Settings) (sha : Hashlib) (now : Clock) (new : Draws) (raw_token : String)
    (rows : Sessions) (s : Session) (t : ℕ)
    → find_by_hash (hash_token sha raw_token) rows ≡ some s
    → s.revoked_at ≡ some t
    → rotate cfg sha now new raw_token rows
      ≡ (err (replay_detected "refresh token replay"), revoke_family now s.session_family_id rows)
unfolding rotate
replay_of_superseded cfg sha now new raw_token rows s t found revoked = rw (found, revoked)

-- A token that `rotate` has rotated is refused as a replay when it is presented to the table
-- that this left, at any time, and the replay leaves no active session in the family, the
-- successor included.
pub rotate_again :
    (cfg : Settings) (sha : Hashlib) (now now' : Clock) (new new' : Draws) (raw_token : String)
    (rows rows' : Sessions) (issued : IssuedRefresh)
    → rotate cfg sha now new raw_token rows ≡ (ok issued, rows')
    → let (result, left) = rotate cfg sha now' new' raw_token rows' in
      (result ≡ err (replay_detected "refresh token replay"))
      × (count_where (active_in issued.session.session_family_id) left ≡ 0)
unfolding revoke_family
rotate_again cfg sha now now' new new' raw_token rows rows' issued h =
    let p =
      Superseded-of_Ends cfg sha now new raw_token rows (rotate-Ends cfg sha now new raw_token rows)
        issued rows' h in
    rw (replay_of_superseded cfg sha now' new' raw_token rows' p.old p.time p.found p.is_revoked) (
      refl,
      rw (← p.same_family) (
          count-revoke_where_self (active_in p.old.session_family_id) now' 0 rows'
            (active_in-Active p.old.session_family_id)),
    )
