-- ===== src/Api/Integrity.antt =====
-- app/db/models.py, the keys: every session and every job belongs to a user, and no two users have an
-- id or an email in common. The rows under the changes that the handlers make.
pub mod Users
pub mod Logins
pub mod Handlers
pub mod Uploads
pub mod Requests
mod Tests
use text.Mathlib.Text.{◌==◌ as str_eq}
use what_a_secure_app_should.Base.{
  ℕ, suc, String, ◌≡◌, refl, ap, sym, subst, inl, inr, Bool, true, false, not, ◌||◌, Bool-cases,
  Option, none, some, List, [], ◌∷◌, ◌++◌, ◌==◌, ==_iff, arith, All, All-append, find_first,
  if◌then◌else◌,
}
use what_a_secure_app_should.Base.Outcome.{Result, Result-cases}
use what_a_secure_app_should.Packages.{Hashlib}
use what_a_secure_app_should.Core.Config.{Settings, Clock}
use what_a_secure_app_should.Db.{
  User, Session, ProcessingJob, Db, is_none, add_session, update_session,
}
use what_a_secure_app_should.Db.Rows.{IsIn, find_first-IsIn, add_session_inv}
use what_a_secure_app_should.Auth.RefreshTokens.{
  IssuedRefresh, Draws, Sessions, first_session, issue_initial, revoke_where, revoke_family, rotate,
  find_by_hash, hash_token, revoke_session, successor_of, replaced,
}
use what_a_secure_app_should.Auth.RefreshTokens.Rotation.{
  Ends, unknown, replayed, expired, clashed, rotated, rotate-Ends,
}
use what_a_secure_app_should.Api.Auth.{update_user}
use what_a_secure_app_should.Api.Auth.Account.{keep}
use what_a_secure_app_should.Api.Integrity.Users.{UniqueUsers}
use what_a_secure_app_should.Api.Jobs.{update_job}

-- Whether a user has the id.
abbrev pub known : ℕ → List User → Bool
known id [] = false
known id (u ∷ users) = (u.id == id) || known id users

-- The foreign keys of the sessions and of the jobs, and the keys of the users.
abbrev pub IsConsistent : Db → Type 0
IsConsistent db =
    All (λ s. known s.user_id db.users ≡ true) db.sessions
    × All (λ j. known j.user_id db.users ≡ true) db.jobs
    × UniqueUsers db.users

-- All of some users' ids are ids of others.
abbrev pub Extends : List User → List User → Type 0
Extends users users' = (id : ℕ) → known id users ≡ true → known id users' ≡ true

pub All-map {ℓ κ μ} :
    {A : Type ℓ} (P : A → Type κ) (Q : A → Type μ) (rows : List A)
    → ((a : A) → P a → Q a)
    → All P rows
    → All Q rows
All-map P Q [] f h = tt
All-map P Q (x ∷ rows) f (hx, h) = (f x hx, All-map P Q rows f h)

-- Users that keep the ids and are unique.
pub IsConsistent-Extends :
    (db : Db) (users : List User)
    → Extends db.users users
    → UniqueUsers users
    → IsConsistent db
    → IsConsistent (record db { users = users })
IsConsistent-Extends db users more unique (sessions, jobs, _) = (
  All-map _ _ db.sessions (λ s h. more s.user_id h) sessions,
  All-map _ _ db.jobs (λ j h. more j.user_id h) jobs,
  unique,
)

pub known-append : (users : List User) (new : User) → Extends users (users ++ (new ∷ []))
known-append [] new id h = absurd (ground arith)
known-append (u ∷ users) new id h = ground (arith, known-append users new id)

pub known-update_user :
    (changed : User) (users : List User) → Extends users (update_user changed users)
unfolding update_user
known-update_user changed [] id h = h
known-update_user changed (u ∷ users) id h = elim (Bool-cases (u.id == changed.id)) [
  | inl same ↦ rw same (ground (arith, known-update_user changed users id))
  | inr other ↦ rw other (ground (arith, known-update_user changed users id))
]

pub known_of_found :
    (id : ℕ) (users : List User) (user : User)
    → find_first (λ u. u.id == id) users ≡ some user
    → known id users ≡ true
known_of_found id [] user h = absurd (ground arith)
known_of_found id (u ∷ users) user h = ground (arith, known_of_found id users user)

-- What holds of the sessions by their user.
module _ (P : ℕ → Type 0) where
  abbrev pub Of : Sessions → Type 0
  Of rows = All (λ s. P s.user_id) rows

  pub Of-IsIn : (rows : Sessions) (s : Session) → Of rows → IsIn s rows → P s.user_id
  Of-IsIn [] s h m = absurd m
  Of-IsIn (x ∷ rows) s h (inl e) = subst (λ t. P t.user_id) e h.0
  Of-IsIn (x ∷ rows) s h (inr m) = Of-IsIn rows s h.1 m

  pub Of-update_session :
      (changed : Session) (rows : Sessions)
      → P changed.user_id
      → Of rows
      → Of (update_session changed rows)
  unfolding update_session
  Of-update_session changed [] p h = tt
  Of-update_session changed (s ∷ rows) p h = elim (Bool-cases (s.id == changed.id)) [
    | inl same ↦ rw same (p, Of-update_session changed rows p h.1)
    | inr other ↦ rw other (h.0, Of-update_session changed rows p h.1)
  ]

  pub Of-revoke_where :
      (p : Session → Bool) (now : Clock) (i : ℕ) (rows : Sessions)
      → Of rows
      → Of (revoke_where p now i rows)
  unfolding revoke_where
  Of-revoke_where p now i [] h = tt
  Of-revoke_where p now i (s ∷ rows) h = elim (Bool-cases (p s)) [
    | inl hit ↦ rw hit (h.0, Of-revoke_where p now (suc i) rows h.1)
    | inr miss ↦ rw miss (h.0, Of-revoke_where p now i rows h.1)
  ]

  pub Of-issue_initial :
      (cfg : Settings) (sha : Hashlib) (now : Clock) (new : Draws) (u : ℕ) (a i : Option String)
      (rows : Sessions)
      → P u
      → Of rows
      → Of (issue_initial cfg sha now new u a i rows).1
  unfolding issue_initial
  Of-issue_initial cfg sha now new u a i rows p h =
      let s = first_session cfg sha now new u a i in
      elim (Result-cases (add_session s rows)) [
        | inr (x, e) ↦ rw e h
        | inl (rows', e) ↦
            rw (e, (add_session_inv s rows rows' e).0)
              (All-append (λ t. P t.user_id) rows (s ∷ []) h (p, tt))
      ]

  Of-Ends :
      (cfg : Settings) (sha : Hashlib) (now : Clock) (new : Draws) (raw : String) (rows : Sessions)
      {r : Result IssuedRefresh × Sessions}
      → Ends cfg sha now new raw rows r
      → Of rows
      → Of r.1
  unfolding revoke_family
  Of-Ends cfg sha now new raw rows (unknown e) h = h
  Of-Ends cfg sha now new raw rows (replayed s t e a) h = Of-revoke_where _ now 0 rows h
  Of-Ends cfg sha now new raw rows (expired s e a l) h = h
  Of-Ends cfg sha now new raw rows (clashed s e a l c) h = h
  Of-Ends cfg sha now new raw rows (rotated s e a l c) h =
      let p = Of-IsIn rows s h (find_first-IsIn _ rows s e).0 in
      let successor = successor_of cfg sha now new s in
      Of-update_session (replaced now successor s) (rows ++ (successor ∷ [])) p
        (All-append (λ t. P t.user_id) rows (successor ∷ []) h (p, tt))

  pub Of-rotate :
      (cfg : Settings) (sha : Hashlib) (now : Clock) (new : Draws) (raw : String) (rows : Sessions)
      → Of rows
      → Of (rotate cfg sha now new raw rows).1
  Of-rotate cfg sha now new raw rows h =
      Of-Ends cfg sha now new raw rows (rotate-Ends cfg sha now new raw rows) h
