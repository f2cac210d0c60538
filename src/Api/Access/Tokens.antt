-- ===== src/Api/Access/Tokens.antt =====
-- app/auth/dependencies.py: whom a token authenticates, and whom no token does.
use text.Mathlib.Text.{◌==◌ as str_eq, starts_with}
use what_a_secure_app_should.Base.{
  ℕ, ◌≡◌, refl, Bool, false, ap, sym, subst, ◌∙◌, inl, inr, true, not, ◌||◌, Bool-cases, Option,
  none, some, Option-cases, String, List, [], ◌∷◌, ◌==◌, arith, find_first,
}
use what_a_secure_app_should.Base.Str.{is_empty, strip, after_space}
use what_a_secure_app_should.Base.Outcome.{
  Exception, ok, err, token_error, pyjwt_error, value_error, Result-cases,
}
use what_a_secure_app_should.Db.{User, status_active}
use what_a_secure_app_should.Auth.Jwt.{Claims, as_token_error, decode_access_token}
use what_a_secure_app_should.Api.{Web}
use what_a_secure_app_should.Api.Auth.{Server}
use what_a_secure_app_should.Api.Access.{
  active_user, user_of_id, user_of_decoded, user_of_token, user_of_header, get_current_user,
}

-- What a returned user satisfies: what is decoded is the token of the request's own header, the text
-- behind the first space of a header that starts with `bearer `, without the white space around it; the
-- subject is the id of the user's row, and the account is active.
pub record Authenticated (srv : Server) (lower : String → String) (instant : ℕ)
    (header : Option String) (w : Web) (user : User) : Type 0 where
  pub sent : String
  pub is_sent : header ≡ some sent
  pub is_bearer : starts_with (lower sent) "bearer " ≡ true
  pub rest : String
  pub behind : after_space sent ≡ some rest
  pub claims : Claims
  pub decoded : srv.decode instant srv.cfg.jwt_signing_key (strip rest) ≡ ok claims
  pub subject : srv.uuids.parse claims.sub ≡ some user.id
  pub row : find_first (λ u. u.id == user.id) w.view.users ≡ some user
  pub is_active : str_eq user.status status_active ≡ true

row_id :
    (id : ℕ) (rows : List User) (user : User)
    → find_first (λ u. u.id == id) rows ≡ some user
    → user.id ≡ id
row_id id [] user h = absurd (ground arith)
row_id id (u ∷ rows) user h = elim (Bool-cases (u.id == id)) [
  | inl same ↦ ground arith
  | inr other ↦ row_id id rows user (rw other at h)
]

active_user_inv :
    (row : Option User) (user : User)
    → active_user row ≡ ok user
    → (row ≡ some user) × (str_eq user.status status_active ≡ true)
active_user_inv none user h = absurd (ground arith)
active_user_inv (some u) user h = elim (Bool-cases (str_eq u.status status_active)) [
  | inl active ↦
      let e : u ≡ user = ground arith in
      (ap some e, subst (λ x. str_eq x.status status_active ≡ true) e active)
  | inr inactive ↦ absurd (ground arith)
]

-- A header with a bearer token.
record Bears (lower : String → String) (header : Option String) (rest : String) : Type 0 where
  text : String
  given : header ≡ some text
  starts : starts_with (lower text) "bearer " ≡ true
  split : after_space text ≡ some rest

Authenticated-of_claims :
    (srv : Server) (lower : String → String) (instant : ℕ) (header : Option String) (w : Web)
    (user : User) (rest : String) (claims : Claims)
    → Bears lower header rest
    → srv.decode instant srv.cfg.jwt_signing_key (strip rest) ≡ ok claims
    → user_of_id w (srv.uuids.parse claims.sub) ≡ ok user
    → Authenticated srv lower instant header w user
Authenticated-of_claims srv lower instant header w user rest claims bears d h =
    elim (Option-cases (srv.uuids.parse claims.sub)) [
      | inl bad ↦ absurd (ground arith)
      | inr (id, parsed) ↦
          let found =
            active_user_inv (find_first (λ u. u.id == id) w.view.users) user (rw parsed at h) in
          let same = row_id id w.view.users user found.0 in
          record {
            sent = bears.text;
            is_sent = bears.given;
            is_bearer = bears.starts;
            rest = rest;
            behind = bears.split;
            claims = claims;
            decoded = d;
            subject = parsed ∙ ap some (sym same);
            row =
                subst (λ k. find_first (λ u. u.id == k) w.view.users ≡ some user) (sym same)
                  found.0;
            is_active = found.1;
          }
    ]

raised_no_user :
    (srv : Server) (w : Web) (e : Exception) (user : User)
    → user_of_decoded srv w (err e) ≡ ok user
    → ⊥
raised_no_user srv w (token_error m) user h = cc
raised_no_user srv w value_error user h = cc
raised_no_user srv w _ user h = cc

raised_no_claims : (e : Exception) (claims : Claims) → as_token_error e ≡ ok claims → ⊥
raised_no_claims pyjwt_error claims h = cc
raised_no_claims _ claims h = cc

decode_access_token_inv :
    (srv : Server) (instant : ℕ) (token : String) (claims : Claims)
    → decode_access_token srv.cfg srv.decode instant token ≡ ok claims
    → srv.decode instant srv.cfg.jwt_signing_key token ≡ ok claims
unfolding decode_access_token
decode_access_token_inv srv instant token claims h =
    elim (Result-cases (srv.decode instant srv.cfg.jwt_signing_key token)) [
      | inl (c, e) ↦ e ∙ (rw e at h)
      | inr (x, e) ↦ absurd (raised_no_claims x claims (rw e at h))
    ]

Authenticated-of_token :
    (srv : Server) (lower : String → String) (instant : ℕ) (header : Option String) (w : Web)
    (user : User) (text : Option String)
    → ((rest : String) → text ≡ some rest → Bears lower header rest)
    → user_of_token srv instant w text ≡ ok user
    → Authenticated srv lower instant header w user
Authenticated-of_token srv lower instant header w user none bears h = absurd (ground arith)
Authenticated-of_token srv lower instant header w user (some text) bears h =
    elim (Result-cases (decode_access_token srv.cfg srv.decode instant (strip text))) [
      | inl (claims, e) ↦
          Authenticated-of_claims srv lower instant header w user text claims (bears text refl)
            (decode_access_token_inv srv instant (strip text) claims e) (rw e at h)
      | inr (x, e) ↦ absurd (raised_no_user srv w x user (rw e at h))
    ]

not_refused : (a b : Bool) → (a || not b) ≡ false → b ≡ true
not_refused a b h = ground arith

-- Where `get_current_user` returns a user, the state is as it was, the header of the request
-- was given and starts, in lower case, with `bearer `, and the token behind its first space was
-- decoded with the signing key to claims whose subject is parsed to the id of that user, who is
-- the row of that id, with an active account.
pub get_current_user-Authenticated :
    (srv : Server) (lower : String → String) (instant : ℕ) (header : Option String) (w w' : Web)
    (user : User)
    → get_current_user srv lower instant header w ≡ (ok user, w')
    → Authenticated srv lower instant header w user × (w' ≡ w)
unfolding get_current_user
get_current_user-Authenticated srv lower instant none w w' user h = absurd (ground arith)
get_current_user-Authenticated srv lower instant (some authorization) w w' user h =
    let answer : user_of_header srv lower instant w authorization ≡ ok user = ap (λ x. x.0) h in
    let kept : w' ≡ w = sym (ap (λ x. x.1) h) in
    elim (Bool-cases
      (is_empty authorization || not (starts_with (lower authorization) "bearer "))) [
        | inl bad ↦ absurd (ground arith)
        | inr bearer ↦ (
          Authenticated-of_token srv lower instant (some authorization) w user
              (after_space authorization)
              (λ rest behind. record {
                text = authorization;
                given = refl;
                starts = not_refused (is_empty authorization) _ bearer;
                split = behind;
              })
              (rw bearer at answer),
          kept,
        )
      ]
