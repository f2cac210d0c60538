-- ===== src/Api/Auth/Account.antt =====
-- app/api/v1/auth.py: registration, the list of the own sessions, and the deletion of an account with
-- the rows that cascade (app/db/models.py, `cascade="all, delete-orphan"`).
use text.Mathlib.Text.{◌==◌ as str_eq}
use what_a_secure_app_should.Base.{
  ℕ, ◌≡◌, ◌≢◌, refl, Bool, false, not, ◌&&◌, ◌||◌, Bool-cases, inl, inr, none, Option, String, List,
  [], ◌∷◌, ◌++◌, ◌==◌, arith, map, find_first, if◌then◌else◌,
}
use what_a_secure_app_should.Base.Outcome.{Result, ok, err, integrity_error, http_exception}
use what_a_secure_app_should.Core.Config.{Clock}
use what_a_secure_app_should.Db.{
  User, Session, ProcessingJob, Db, role_user, status_active, is_none, is_active,
}
use what_a_secure_app_should.Auth.Passwords.{hash_password}
use what_a_secure_app_should.Api.{Web, commit, serve}
use what_a_secure_app_should.Api.Auth.{Server, find_email, with_users}

-- What a registration draws: the id of the row, the salt of the hash, and the clock.
pub record Registration : Type 0 where
  pub id : ℕ
  pub salt : ℕ
  pub now : Clock

abbrev pub new_user : Server → Registration → String → String → User
new_user srv drawn email password = record {
  id = drawn.id;
  email = email;
  password_hash = hash_password srv.hasher drawn.salt password;
  role = role_user;
  status = status_active;
  mfa_enabled = false;
  mfa_secret_encrypted = none;
  created_at = drawn.now 0;
  updated_at = drawn.now 1;
  last_login_at = none;
  failed_login_count = 0;
  locked_until = none;
}

-- `db.add(user)` and `db.commit()`: the flush refuses an id or an email that is taken.
abbrev pub add_user : User → Web → Result (Unit {0}) × Web
add_user user w =
    if not (is_none (find_first (λ u. (u.id == user.id) || str_eq u.email user.email) w.view.users))
    then (err integrity_error, w)
    else (ok tt, commit (with_users w (w.view.users ++ (user ∷ []))))

unfoldable pub register : Server → Registration → String → String → Web → Result (Unit {0}) × Web
register srv drawn email password w =
    if not (is_none (find_email email w.view.users))
    then (err (http_exception 409 "Registration could not be completed."), w)
    else add_user (new_user srv drawn email password) w

-- The rows that pass a test, in order.
unfoldable pub keep {ℓ} : {A : Type ℓ} → (A → Bool) → List A → List A
keep p [] = []
keep p (x ∷ rows) = if p x then x ∷ keep p rows else keep p rows

pub record SessionInfo : Type 0 where
  pub id : String
  pub issued_at : ℕ
  pub expires_at : ℕ
  pub user_agent_summary : Option String
  pub current : Bool

abbrev pub session_info : Server → Session → SessionInfo
session_info srv s = record {
  id = srv.uuids.print s.id;
  issued_at = s.issued_at;
  expires_at = s.expires_at;
  user_agent_summary = s.user_agent_summary;
  current = false;
}

unfoldable pub list_sessions : Server → User → Web → Result (List SessionInfo) × Web
unfolding keep
list_sessions srv user w = (
  ok (map (session_info srv) (keep (λ s. (s.user_id == user.id) && is_active s) w.view.sessions)),
  w,
)

-- The database without the rows of a user.
unfoldable pub delete_user : User → Db → Db
unfolding keep
delete_user user db = record {
  users = keep (λ u. not (u.id == user.id)) db.users;
  sessions = keep (λ s. not (s.user_id == user.id)) db.sessions;
  jobs = keep (λ j. not (j.user_id == user.id)) db.jobs;
}

unfoldable pub delete_me : User → Web → Result (Unit {0}) × Web
unfolding delete_user
delete_me user w = (ok tt, commit (record w { view = delete_user user w.view }))

-- The rows of one user.
abbrev pub rows_of : ℕ → Db → List Session × List ProcessingJob
rows_of id db = (keep (λ s. s.user_id == id) db.sessions, keep (λ j. j.user_id == id) db.jobs)

keep_none {ℓ} :
    {A : Type ℓ} (owner : A → ℕ) (id : ℕ) (rows : List A)
    → keep (λ x. owner x == id) (keep (λ x. not (owner x == id)) rows) ≡ []
unfolding keep
keep_none owner id [] = refl
keep_none owner id (x ∷ rows) = elim (Bool-cases (owner x == id)) [
  | inl own ↦ rw own (keep_none owner id rows)
  | inr other ↦ rw (other, other) (keep_none owner id rows)
]

keep_others {ℓ} :
    {A : Type ℓ} (owner : A → ℕ) (id other : ℕ) (rows : List A)
    → other ≢ id
    → keep (λ x. owner x == other) (keep (λ x. not (owner x == id)) rows)
      ≡ keep (λ x. owner x == other) rows
unfolding keep
keep_others owner id other [] ne = refl
keep_others owner id other (x ∷ rows) ne = elim (Bool-cases (owner x == id)) [
  | inl own ↦
      let differs : (owner x == other) ≡ false = ground arith in
      rw (own, differs) (keep_others owner id other rows ne)
  | inr foreign ↦ elim (Bool-cases (owner x == other)) [
    | inl his ↦ rw (foreign, his, keep_others owner id other rows ne) refl
    | inr differs ↦ rw (foreign, differs) (keep_others owner id other rows ne)
  ]
]

-- A served `delete_me` succeeds and commits a database without the row, the sessions and the
-- jobs of the user, in which those of any other user are as they were, in order.
pub delete_me_lem :
    (user : User) (other : ℕ) (w : Web)
    → other ≢ user.id
    → let (r, w') = serve (delete_me user) w in
      (r ≡ ok tt)
      × (keep (λ u. u.id == user.id) w'.durable.users ≡ [])
      × (rows_of user.id w'.durable ≡ ([], []))
      × (keep (λ u. u.id == other) w'.durable.users ≡ keep (λ u. u.id == other) w.durable.users)
      × (rows_of other w'.durable ≡ rows_of other w.durable)
unfolding serve delete_me delete_user commit
delete_me_lem user other w ne = (
  refl,
  keep_none (λ u. u.id) user.id w.durable.users,
  rw
      (
        keep_none (λ s. s.user_id) user.id w.durable.sessions,
        keep_none (λ j. j.user_id) user.id w.durable.jobs,
      )
      refl,
  keep_others (λ u. u.id) user.id other w.durable.users ne,
  rw
      (
        keep_others (λ s. s.user_id) user.id other w.durable.sessions ne,
        keep_others (λ j. j.user_id) user.id other w.durable.jobs ne,
      )
      refl,
)
