-- ===== src/Auth/RefreshTokens/Standing.antt =====
-- The standing of a token: what the table says of the session that has its hash.
pub mod Updates
use text.Mathlib.Text.{◌==◌ as str_eq}
use text.Mathlib.TextEquality.{eq_iff}
use what_a_secure_app_should.Base.{
  ℕ, suc, ◌≡◌, ◌≢◌, refl, ap, sym, subst, ◌∙◌, ◌⊎◌, inl, inr, Bool, true, false, Bool-cases, Option,
  none, some, String, [], ◌∷◌, ◌++◌, ◌==◌, arith, find_first, if◌then◌else◌,
}
use what_a_secure_app_should.Core.Config.{Clock}
use what_a_secure_app_should.Db.{Session, any_session, update_session}
use what_a_secure_app_should.Db.Rows.{
  IsIn, UniqueIds, id_of_IsIn, update_absent, find_first-IsIn, find_first-update_session,
}
use what_a_secure_app_should.Auth.RefreshTokens.{Sessions, active_in, find_by_hash, revoke_where}

-- Never issued, good until an instant, or used up; with the user and the family of the login.
pub data Standing : Type 0 where
  absent : Standing
  live : (user family expires : ℕ) → Standing
  spent : (user family : ℕ) → Standing

abbrev pub standing : Session → Option ℕ → Standing
standing s none = live s.user_id s.session_family_id s.expires_at
standing s (some time) = spent s.user_id s.session_family_id

abbrev pub standing_of : Option Session → Standing
standing_of none = absent
standing_of (some s) = standing s s.revoked_at

-- The state of the protocol: the standing of each hash.
abbrev pub Tokens : Type 0
Tokens = String → Standing

abbrev pub tokens : Sessions → Tokens
tokens rows token_hash = standing_of (find_first (λ s. str_eq s.refresh_token_hash token_hash) rows)

abbrev pub set : String → Standing → Tokens → Tokens
set token_hash state before other = if str_eq other token_hash then state else before other

-- A live token of the family is spent; another is as it was.
abbrev pub burnt : ℕ → Standing → Standing
burnt family absent = absent
burnt family (live u f e) = if f == family then spent u f else live u f e
burnt family (spent u f) = spent u f

burnt_row :
    (family : ℕ) (now : ℕ) (s : Session) (revoked : Option ℕ)
    → s.revoked_at ≡ revoked
    → standing_of (some (if active_in family s then record s { revoked_at = some now } else s))
      ≡ burnt family (standing_of (some s))
burnt_row family now s none e = elim (Bool-cases (s.session_family_id == family)) [
  | inl own ↦ rw (e, own) refl
  | inr other ↦ rw (e, other) refl
]
burnt_row family now s (some t) e = elim (Bool-cases (s.session_family_id == family)) [
  | inl own ↦ rw (e, own) refl
  | inr other ↦ rw (e, other) refl
]

pub tokens-revoke_where :
    (family : ℕ) (now : Clock) (i : ℕ) (rows : Sessions) (h : String)
    → tokens (revoke_where (active_in family) now i rows) h ≡ burnt family (tokens rows h)
unfolding revoke_where
tokens-revoke_where family now i [] h = refl
tokens-revoke_where family now i (s ∷ rows) h = elim (Bool-cases (str_eq s.refresh_token_hash h)) [
  | inl own ↦ elim (Bool-cases (active_in family s)) [
    | inl hit ↦ rw (hit, own) (rw hit at (burnt_row family (now i) s s.revoked_at refl))
    | inr miss ↦ rw (miss, own) (rw miss at (burnt_row family (now i) s s.revoked_at refl))
  ]
  | inr other ↦ elim (Bool-cases (active_in family s)) [
    | inl hit ↦ rw (hit, other) (tokens-revoke_where family now (suc i) rows h)
    | inr miss ↦ rw (miss, other) (tokens-revoke_where family now i rows h)
  ]
]
