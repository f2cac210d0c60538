-- ===== src/Auth/RefreshTokens/Standing/Updates.antt =====
-- The standing of each hash after a row is added and after one is replaced.
use text.Mathlib.Text.{◌==◌ as str_eq}
use text.Mathlib.TextEquality.{eq_iff}
use what_a_secure_app_should.Base.{
  ◌≡◌, ◌≢◌, refl, ap, sym, subst, ◌∙◌, ◌⊎◌, inl, inr, Bool, true, false, Bool-cases, none, some,
  String, [], ◌∷◌, ◌++◌, ◌==◌, arith, find_first,
}
use what_a_secure_app_should.Db.{Session, any_session, update_session}
use what_a_secure_app_should.Db.Rows.{
  IsIn, UniqueIds, id_of_IsIn, update_absent, find_first-IsIn, find_first-update_session,
}
use what_a_secure_app_should.Auth.RefreshTokens.{Sessions, find_by_hash}
use what_a_secure_app_should.Auth.RefreshTokens.Standing.{standing_of, tokens, set}

-- A row that is found no more than before, or is the one behind.
pub found_before :
    (q : Session → Bool) (rows : Sessions) (new : Session)
    → q new ≡ false
    → find_first q (rows ++ (new ∷ [])) ≡ find_first q rows
found_before q [] new e = rw e refl
found_before q (x ∷ rows) new e = rw (found_before q rows new e) refl

pub found_behind :
    (q : Session → Bool) (rows : Sessions) (new : Session)
    → find_first q rows ≡ none
    → q new ≡ true
    → find_first q (rows ++ (new ∷ [])) ≡ some new
found_behind q [] new h e = rw e refl
found_behind q (x ∷ rows) new h e = ground (arith, found_behind q rows new)

pub not_found :
    (p q : Session → Bool) (rows : Sessions)
    → ((s : Session) → p s ≡ false → q s ≡ false)
    → any_session p rows ≡ false
    → find_first q rows ≡ none
not_found p q [] narrower h = refl
not_found p q (s ∷ rows) narrower h = elim (Bool-cases (p s)) [
  | inl hit ↦ absurd (ground arith)
  | inr miss ↦ rw (narrower s miss) (not_found p q rows narrower (rw miss at h))
]

-- An update is found where the row was that it replaces, and changes nothing else that is found.
pub found-update_session :
    (q : Session → Bool) (changed s : Session) (rows : Sessions)
    → UniqueIds rows
    → IsIn s rows
    → changed.id ≡ s.id
    → q changed ≡ q s
    → (find_first q (update_session changed rows) ≡ find_first q rows)
      ⊎ ((find_first q rows ≡ some s) × (find_first q (update_session changed rows) ≡ some changed))
unfolding update_session
found-update_session q changed s [] u m e h = absurd m
found-update_session q changed s (x ∷ rows) u (inl k) e h =
    let same : (x.id == changed.id) ≡ true = ground (arith, k, e) in
    let id : x.id ≡ changed.id = ground (arith, k, e) in
    let rest = update_absent changed rows (rw id at u.0) in
    elim (Bool-cases (q s)) [
      | inl hit ↦ rw (same, h ∙ hit, ap q k ∙ hit) (inr (ap some k, refl))
      | inr miss ↦ rw (same, h ∙ miss, ap q k ∙ miss, rest) (inl refl)
    ]
found-update_session q changed s (x ∷ rows) u (inr m) e h =
    let ne = id_of_IsIn x.id rows s u.0 m in
    let other : (x.id == changed.id) ≡ false = ground (arith, ne, e) in
    elim (Bool-cases (q x)) [
      | inl here ↦ rw (other, here) (inl refl)
      | inr there ↦ rw (other, there) (found-update_session q changed s rows u.1 m e h)
    ]

pub update_session-append :
    (changed new : Session) (rows : Sessions)
    → new.id ≢ changed.id
    → update_session changed (rows ++ (new ∷ [])) ≡ update_session changed rows ++ (new ∷ [])
unfolding update_session
update_session-append changed new [] ne = ground arith
update_session-append changed new (x ∷ rows) ne =
    rw (update_session-append changed new rows ne) refl

pub same_row :
    (x : String) (rows : Sessions) (s : Session)
    → find_by_hash x rows ≡ some s
    → IsIn s rows × (s.refresh_token_hash ≡ x)
same_row x rows s e =
    let (m, h) = find_first-IsIn (λ t. str_eq t.refresh_token_hash x) rows s e in
    (m, (eq_iff s.refresh_token_hash x).0 h)

differs_back : (x y : String) → str_eq x y ≡ false → str_eq y x ≡ false
differs_back x y h = elim (Bool-cases (str_eq y x)) [
  | inr other ↦ other
  | inl same ↦ absurd (cc (h, (eq_iff x y).1 (sym ((eq_iff y x).0 same))))
]

pub tokens-append :
    (rows : Sessions) (new : Session)
    → find_by_hash new.refresh_token_hash rows ≡ none
    → (x : String)
    → tokens (rows ++ (new ∷ [])) x
      ≡ set new.refresh_token_hash (standing_of (some new)) (tokens rows) x
tokens-append rows new fresh x = elim (Bool-cases (str_eq x new.refresh_token_hash)) [
  | inl same ↦
      let k : x ≡ new.refresh_token_hash = (eq_iff x new.refresh_token_hash).0 same in
      rw same (
        ap standing_of (
          found_behind (λ t. str_eq t.refresh_token_hash x) rows new
            (subst (λ y. find_by_hash y rows ≡ none) (sym k) fresh)
            ((eq_iff new.refresh_token_hash x).1 (sym k))))
  | inr other ↦ rw other (
      ap standing_of (
        found_before (λ t. str_eq t.refresh_token_hash x) rows new
          (differs_back x new.refresh_token_hash other)))
]

pub tokens-update_session :
    (rows : Sessions) (s changed : Session)
    → UniqueIds rows
    → find_by_hash s.refresh_token_hash rows ≡ some s
    → changed.id ≡ s.id
    → changed.refresh_token_hash ≡ s.refresh_token_hash
    → (x : String)
    → tokens (update_session changed rows) x
      ≡ set s.refresh_token_hash (standing_of (some changed)) (tokens rows) x
tokens-update_session rows s changed u e id hash x =
    elim (Bool-cases (str_eq x s.refresh_token_hash)) [
      | inl same ↦
          let k : x ≡ s.refresh_token_hash = (eq_iff x s.refresh_token_hash).0 same in
          rw same (
            ap standing_of (
              find_first-update_session (λ t. str_eq t.refresh_token_hash x) changed s rows
                (subst (λ y. find_by_hash y rows ≡ some s) (sym k) e) id
                ((eq_iff changed.refresh_token_hash x).1 (hash ∙ sym k))))
      | inr other ↦
          rw other
            (elim (found-update_session (λ t. str_eq t.refresh_token_hash x) changed s rows u
              (same_row s.refresh_token_hash rows s e).0 id (ap (λ y. str_eq y x) hash)) [
                | inl kept ↦ ap standing_of kept
                | inr (found, _) ↦ absurd (
                    cc (other, (eq_iff x s.refresh_token_hash).1 (sym (same_row x rows s found).1)))
              ])
    ]

-- What is not found is not found after the update of a row that keeps its hash.
pub fresh-update_session :
    (rows : Sessions) (s changed : Session) (x : String)
    → UniqueIds rows
    → IsIn s rows
    → changed.id ≡ s.id
    → changed.refresh_token_hash ≡ s.refresh_token_hash
    → find_by_hash x rows ≡ none
    → find_by_hash x (update_session changed rows) ≡ none
fresh-update_session rows s changed x u m id hash fresh =
    elim (found-update_session (λ t. str_eq t.refresh_token_hash x) changed s rows u m id
      (ap (λ y. str_eq y x) hash)) [
        | inl kept ↦ kept ∙ fresh
        | inr (found, _) ↦ absurd (cc (found, fresh))
      ]
