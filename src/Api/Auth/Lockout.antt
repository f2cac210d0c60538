-- ===== src/Api/Auth/Lockout.antt =====
-- app/api/v1/auth.py: the lockout of an account after failed logins.
use text.Mathlib.Text.{◌==◌ as str_eq}
use what_a_secure_app_should.Base.{
  ℕ, ◌+◌, ◌<◌, ◌≡◌, refl, ap, ◌∙◌, inl, inr, true, false, Bool-cases, Option, none, some, String,
  List, [], ◌∷◌, ◌==◌, arith, length, All,
}
use what_a_secure_app_should.Base.Outcome.{Result, ok, err}
use what_a_secure_app_should.Core.Config.{Settings, Clock, minutes}
use what_a_secure_app_should.Db.{User}
use what_a_secure_app_should.Api.{Web, commit, serve}
use what_a_secure_app_should.Api.Auth.{
  Server, Visit, invalid_credentials, find_email, update_user, locked_after, failed_user,
  password_ok, login,
}

pub record Attempt : Type 0 where
  pub visit : Visit
  pub password : String

-- Served logins of one email, one after the other.
unfoldable pub run_logins : Server → String → List Attempt → Web → Web
run_logins srv email [] w = w
run_logins srv email (a ∷ rest) w =
    run_logins srv email rest (serve (login srv a.visit email a.password) w).1

-- The account does not open with the password of the attempt.
abbrev pub IsWrong : Server → User → Attempt → Type 0
IsWrong srv user a = password_ok srv.hasher user a.password ≡ ok false

-- The update of the found row is found.
pub find_email-update_user :
    (email : String) (changed user : User) (rows : List User)
    → find_email email rows ≡ some user
    → user.id ≡ changed.id
    → str_eq changed.email email ≡ true
    → find_email email (update_user changed rows) ≡ some changed
unfolding update_user
find_email-update_user email changed user [] h i e = absurd (ground arith)
find_email-update_user email changed user (u ∷ rows) h i e =
    elim (Bool-cases (u.id == changed.id)) [
      | inl same ↦ rw (same, e) refl
      | inr other ↦ elim (Bool-cases (str_eq u.email email)) [
        | inl here ↦ absurd (ground arith)
        | inr there ↦
            rw (other, there) (find_email-update_user email changed user rows (rw there at h) i e)
      ]
    ]

pub found_email :
    (email : String) (user : User) (rows : List User)
    → find_email email rows ≡ some user
    → str_eq user.email email ≡ true
found_email email user [] h = absurd (ground arith)
found_email email user (u ∷ rows) h = elim (Bool-cases (str_eq u.email email)) [
  | inl here ↦ ground arith
  | inr there ↦ found_email email user rows (rw there at h)
]

unlocked_after :
    (until : Option ℕ) (instant : ℕ) → until ≡ none → locked_after until instant ≡ false
unlocked_after until instant e = rw e refl

-- A wrong password on an account that is not locked leaves the failed row, committed.
failed_login :
    (srv : Server) (email : String) (a : Attempt) (w : Web) (user : User)
    → find_email email w.durable.users ≡ some user
    → user.locked_until ≡ none
    → IsWrong srv user a
    → find_email email (serve (login srv a.visit email a.password) w).1.durable.users
      ≡ some (failed_user srv.cfg a.visit.now user)
unfolding serve login commit
failed_login srv email a w user found unlocked wrong =
    rw (found, unlocked_after user.locked_until (a.visit.now 0) unlocked, wrong)
      (find_email-update_user email (failed_user srv.cfg a.visit.now user) user w.durable.users
        found refl (found_email email user w.durable.users found))

-- The account after some attempts with wrong passwords, fewer than lock it.
record Weakened (srv : Server) (email : String) (user : User) (attempts : ℕ) (w : Web)
    : Type 0 where
  row : User
  is_found : find_email email w.durable.users ≡ some row
  is_open : row.locked_until ≡ none
  failures : row.failed_login_count ≡ user.failed_login_count + attempts
  still_wrong : (a : Attempt) → IsWrong srv user a → IsWrong srv row a

stays_open :
    (cfg : Settings) (now : Clock) (user : User)
    → user.locked_until ≡ none
    → user.failed_login_count + 1 < cfg.max_failed_logins
    → (failed_user cfg now user).locked_until ≡ none
stays_open cfg now user unlocked few = ground arith

run_logins-Weakened :
    (srv : Server) (email : String) (attempts : List Attempt) (w : Web) (user : User)
    → find_email email w.durable.users ≡ some user
    → user.locked_until ≡ none
    → All (IsWrong srv user) attempts
    → user.failed_login_count + length attempts < srv.cfg.max_failed_logins
    → Weakened srv email user (length attempts) (run_logins srv email attempts w)
unfolding run_logins
run_logins-Weakened srv email [] w user found unlocked wrong few = record {
  row = user;
  is_found = found;
  is_open = unlocked;
  failures = omega arith;
  still_wrong = λ a h. h;
}
run_logins-Weakened srv email (a ∷ rest) w user found unlocked (wrong, others) few =
    let weaker = failed_user srv.cfg a.visit.now user in
    let r =
      run_logins-Weakened srv email rest (serve (login srv a.visit email a.password) w).1 weaker
        (failed_login srv email a w user found unlocked wrong)
        (stays_open srv.cfg a.visit.now user unlocked (omega arith)) others (omega arith) in
    record {
      row = r.row;
      is_found = r.is_found;
      is_open = r.is_open;
      failures = omega (arith, r.failures);
      still_wrong = r.still_wrong;
    }

locked_login :
    (srv : Server) (visit : Visit) (email password : String) (w : Web) (user : User)
    → find_email email w.durable.users ≡ some user
    → locked_after user.locked_until (visit.now 0) ≡ true
    → serve (login srv visit email password) w
      ≡ (err invalid_credentials, record w { view = w.durable })
unfolding serve login
locked_login srv visit email password w user found locked = rw (found, locked) refl

becomes_locked :
    (cfg : Settings) (now : Clock) (user : User) (instant : ℕ)
    → user.failed_login_count + 1 ≡ cfg.max_failed_logins
    → instant < now 1 + minutes cfg.lockout_minutes
    → locked_after (failed_user cfg now user).locked_until instant ≡ true
becomes_locked cfg now user instant full early = ground arith

view_after_serve :
    {A : Type 0} (handler : Web → Result A × Web) (w : Web)
    → record (serve handler w).1 { view = (serve handler w).1.durable } ≡ (serve handler w).1
unfolding serve
view_after_serve handler w = refl

-- Where an account is not locked and the wrong passwords of some served logins bring its
-- failures to `max_failed_logins`, then every served login of that email whose clock is before
-- the end of the lockout is refused, with any password, and changes nothing.
pub login_locked_out :
    (srv : Server) (email : String) (before : List Attempt) (last : Attempt) (w : Web) (user : User)
    (visit : Visit) (password : String)
    → find_email email w.durable.users ≡ some user
    → user.locked_until ≡ none
    → All (IsWrong srv user) before
    → IsWrong srv user last
    → user.failed_login_count + length before + 1 ≡ srv.cfg.max_failed_logins
    → visit.now 0 < last.visit.now 1 + minutes srv.cfg.lockout_minutes
    → let w' =
        (serve (login srv last.visit email last.password) (run_logins srv email before w)).1 in
      serve (login srv visit email password) w' ≡ (err invalid_credentials, w')
login_locked_out srv email before last w user visit password found unlocked wrong last_wrong full
      early =
    let r = run_logins-Weakened srv email before w user found unlocked wrong (omega arith) in
    let w1 = run_logins srv email before w in
    let w2 = (serve (login srv last.visit email last.password) w1).1 in
    locked_login srv visit email password w2 (failed_user srv.cfg last.visit.now r.row)
      (failed_login srv email last w1 r.row r.is_found r.is_open (r.still_wrong last last_wrong))
      (becomes_locked srv.cfg last.visit.now r.row (visit.now 0) (omega (arith, r.failures)) early)
    ∙ ap (λ x. (err invalid_credentials, x)) (view_after_serve _ w1)
