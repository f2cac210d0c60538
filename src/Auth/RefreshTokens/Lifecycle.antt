-- ===== src/Auth/RefreshTokens/Lifecycle.antt =====
-- The life of a token over a history of the table: issued, live, used up, and never again live.
use text.Mathlib.Text.{◌==◌ as str_eq}
use text.Mathlib.TextEquality.{eq_iff}
use what_a_secure_app_should.Base.{
  ℕ, suc, ◌≡◌, refl, ap, sym, subst, ◌∙◌, ◌⊎◌, inl, inr, Bool, Bool-cases, Option, none, some,
  Option-cases, String, [], ◌∷◌, ◌++◌, ◌==◌,
}
use what_a_secure_app_should.Base.Outcome.{Result, Result-cases}
use what_a_secure_app_should.Packages.{Hashlib}
use what_a_secure_app_should.Core.Config.{Settings, Clock}
use what_a_secure_app_should.Db.{Session, is_active, add_session, update_session}
use what_a_secure_app_should.Db.Rows.{IsIn, find_first-append, add_session_inv}
use what_a_secure_app_should.Auth.RefreshTokens.{
  IssuedRefresh, Draws, Sessions, first_session, issue_initial, revoke_where, find_by_hash, rotate,
  revoke_session, active_of, revoke_all_for_user,
}
use what_a_secure_app_should.Auth.RefreshTokens.Families.{IsValid}
use what_a_secure_app_should.Auth.RefreshTokens.Standing.{
  Standing, absent, live, spent, standing, standing_of, Tokens, tokens, set, burnt,
}
use what_a_secure_app_should.Auth.RefreshTokens.Standing.Updates.{found-update_session}
use what_a_secure_app_should.Auth.RefreshTokens.Refinement.{
  digest, Presents, turned, burned, never_issued, too_late, unlucky, rotate-Presents,
}
use what_a_secure_app_should.Auth.RefreshTokens.Histories.{
  Step, login, refresh, revoke_one, revoke_all, Reach, here, next, Reach-IsValid,
}

-- What a standing may become: a live one stays as it is or is used up, and that is for good.
abbrev pub Ages : Standing → Standing → Type 0
Ages absent after = Unit
Ages (live user family expires) after =
    (after ≡ live user family expires) ⊎ (after ≡ spent user family)
Ages (spent user family) after = after ≡ spent user family

Ages-refl : (x : Standing) → Ages x x
Ages-refl absent = tt
Ages-refl (live u f e) = inl refl
Ages-refl (spent u f) = refl

Ages-trans : (x y z : Standing) → Ages x y → Ages y z → Ages x z
Ages-trans absent y z p q = tt
Ages-trans (live u f e) y z (inl p) q = subst (λ x. Ages x z) p q
Ages-trans (live u f e) y z (inr p) q = inr (subst (λ x. Ages x z) p q)
Ages-trans (spent u f) y z p q = subst (λ x. Ages x z) p q

Ages-same : (x y : Standing) → y ≡ x → Ages x y
Ages-same x y e = subst (Ages x) (sym e) (Ages-refl x)

Ages-burnt : (family : ℕ) (x : Standing) → Ages x (burnt family x)
Ages-burnt family absent = tt
Ages-burnt family (live u f e) = elim (Bool-cases (f == family)) [
  | inl own ↦ rw own (inr refl)
  | inr other ↦ rw other (inl refl)
]
Ages-burnt family (spent u f) = refl

Ages-spent :
    (s : Session) (revoked : Option ℕ)
    → Ages (standing s revoked) (spent s.user_id s.session_family_id)
Ages-spent s none = inr refl
Ages-spent s (some t) = refl

Ages-append :
    (rows : Sessions) (new : Session) (x : String)
    → Ages (tokens rows x) (tokens (rows ++ (new ∷ [])) x)
Ages-append rows new x = elim (Option-cases (find_by_hash x rows)) [
  | inl missing ↦ rw missing tt
  | inr (s, found) ↦ Ages-same (tokens rows x) (tokens (rows ++ (new ∷ [])) x) (
      ap standing_of
        (find_first-append (λ t. str_eq t.refresh_token_hash x) rows s new found ∙ sym found))
]

Ages-update_session :
    (rows : Sessions) (s : Session) (now : ℕ) (x : String)
    → IsValid rows
    → IsIn s rows
    → Ages (tokens rows x) (tokens (update_session (record s { revoked_at = some now }) rows) x)
Ages-update_session rows s now x v m =
    elim (found-update_session (λ t. str_eq t.refresh_token_hash x)
      (record s { revoked_at = some now }) s rows v.unique_ids m refl refl) [
        | inl kept ↦ Ages-same _ _ (ap standing_of kept)
        | inr (found, changed) ↦ rw (found, changed) (Ages-spent s s.revoked_at)
      ]

Ages-revoke_where :
    (p : Session → Bool) (now : Clock) (i : ℕ) (rows : Sessions) (x : String)
    → Ages (tokens rows x) (tokens (revoke_where p now i rows) x)
unfolding revoke_where
Ages-revoke_where p now i [] x = tt
Ages-revoke_where p now i (s ∷ rows) x = elim (Bool-cases (str_eq s.refresh_token_hash x)) [
  | inl own ↦ elim (Bool-cases (p s)) [
    | inl hit ↦ rw (hit, own) (Ages-spent s s.revoked_at)
    | inr miss ↦ rw (miss, own) (Ages-refl (standing s s.revoked_at))
  ]
  | inr other ↦ elim (Bool-cases (p s)) [
    | inl hit ↦ rw (hit, other) (Ages-revoke_where p now (suc i) rows x)
    | inr miss ↦ rw (miss, other) (Ages-revoke_where p now i rows x)
  ]
]

module _ (cfg : Settings) (sha : Hashlib) where
  Ages-turned :
      (before : Tokens) (old fresh x : String) (u f e e' : ℕ)
      → before old ≡ live u f e
      → before fresh ≡ absent
      → Ages (before x) (set fresh (live u f e') (set old (spent u f) before) x)
  Ages-turned before old fresh x u f e e' was none_yet = elim (Bool-cases (str_eq x fresh)) [
    | inl same ↦
        let k : before x ≡ absent = ap before ((eq_iff x fresh).0 same) ∙ none_yet in rw k tt
    | inr other ↦ elim (Bool-cases (str_eq x old)) [
      | inl same ↦
          let k : before x ≡ live u f e = ap before ((eq_iff x old).0 same) ∙ was in
          rw (other, same, k) (inr refl)
      | inr apart ↦ rw (other, apart) (Ages-refl (before x))
    ]
  ]

  Ages-of_Presents :
      (now : Clock) (new : Draws) (raw : String) (taken : Bool) (before after : Tokens)
      {result : Result IssuedRefresh}
      → Presents cfg sha now new raw taken before after result
      → (x : String) → Ages (before x) (after x)
  Ages-of_Presents now new raw taken before after
        (turned u f e issued was early free none_yet r i u' f' eq) x =
      rw (eq x) (Ages-turned before (digest sha raw) (digest sha new.raw) x u f e _ was none_yet)
  Ages-of_Presents now new raw taken before after (burned u f was eq) x =
      rw (eq x) (Ages-burnt f (before x))
  Ages-of_Presents now new raw taken before after (never_issued was eq) x = Ages-same _ _ (eq x)
  Ages-of_Presents now new raw taken before after (too_late u f e was late eq) x =
      Ages-same _ _ (eq x)
  Ages-of_Presents now new raw taken before after (unlucky u f e was early clash eq) x =
      Ages-same _ _ (eq x)

  Ages-issue_initial :
      (now : Clock) (new : Draws) (u : ℕ) (a i : Option String) (rows : Sessions) (x : String)
      → Ages (tokens rows x) (tokens (issue_initial cfg sha now new u a i rows).1 x)
  unfolding issue_initial
  Ages-issue_initial now new u a i rows x =
      let s = first_session cfg sha now new u a i in
      elim (Result-cases (add_session s rows)) [
        | inr (y, e) ↦ rw e (Ages-refl (tokens rows x))
        | inl (rows', e) ↦ rw (e, (add_session_inv s rows rows' e).0) (Ages-append rows s x)
      ]

  Ages-revoke_session :
      (now : Clock) (s : Session) (rows : Sessions) (x : String)
      → IsIn s rows
      → IsValid rows
      → Ages (tokens rows x) (tokens (revoke_session now s rows) x)
  unfolding revoke_session
  Ages-revoke_session now s rows x m v = elim (Bool-cases (is_active s)) [
    | inr revoked ↦ rw revoked (Ages-refl (tokens rows x))
    | inl active ↦ rw active (Ages-update_session rows s (now 0) x v m)
  ]

  Step-Ages :
      {rows rows' : Sessions}
      → IsValid rows
      → Step cfg sha rows rows'
      → (x : String) → Ages (tokens rows x) (tokens rows' x)
  unfolding revoke_all_for_user
  Step-Ages {rows} v (login now new u a i fresh e) x =
      rw e (Ages-issue_initial now new u a i rows x)
  Step-Ages {rows} v (refresh now new raw e) x = rw e (
      Ages-of_Presents now new raw _ (tokens rows) (tokens (rotate cfg sha now new raw rows).1)
        (rotate-Presents cfg sha now new raw rows v) x)
  Step-Ages {rows} v (revoke_one now s m e) x = rw e (Ages-revoke_session now s rows x m v)
  Step-Ages {rows} v (revoke_all now u e) x = rw e (Ages-revoke_where (active_of u) now 0 rows x)

  -- From a valid table, over every history of logins (each with a family that no row has),
  -- rotations and revocations, a live token hash stays live with the same user, family and
  -- expiry or is spent with the same user and family, and a spent one stays spent with them: no
  -- call makes a token live again, moves it to another login or extends it.
  pub Reach-Ages :
      {rows rows' : Sessions}
      → IsValid rows
      → Reach cfg sha rows rows'
      → (token_hash : String) → Ages (tokens rows token_hash) (tokens rows' token_hash)
  Reach-Ages v here x = Ages-refl _
  Reach-Ages v (next r s) x =
      Ages-trans _ _ _ (Reach-Ages v r x) (Step-Ages (Reach-IsValid cfg sha v r) s x)
