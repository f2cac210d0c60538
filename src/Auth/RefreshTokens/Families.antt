-- ===== src/Auth/RefreshTokens/Families.antt =====
-- A family has at most one active session, and a replay leaves none.
use what_a_secure_app_should.Base.{
  ℕ, suc, ◌≤◌, ◌≡◌, refl, ◌≢◌, inl, inr, Bool, true, false, Bool-cases, Option, some, String, [],
  ◌∷◌, ◌++◌, arith, ◌==◌, All, count_where, if◌then◌else◌,
}
use what_a_secure_app_should.Base.Outcome.{Result-cases}
use what_a_secure_app_should.Packages.{Hashlib}
use what_a_secure_app_should.Core.Config.{Settings, Clock}
use what_a_secure_app_should.Db.{Session, any_session, add_session}
use what_a_secure_app_should.Db.Rows.{UniqueIds, count-append, add_session_inv, UniqueIds-append}
use what_a_secure_app_should.Auth.RefreshTokens.{
  Draws, Sessions, first_session, issue_initial, revoke_where, active_in, active_of,
}

pub record IsValid (rows : Sessions) : Type 0 where
  pub unique_ids : UniqueIds rows
  pub one_active : (f : ℕ) → count_where (active_in f) rows ≤ 1

abbrev pub in_family : ℕ → Session → Bool
in_family f s = s.session_family_id == f

-- No session has the family.
abbrev pub IsFresh : ℕ → Sessions → Type 0
IsFresh f rows = any_session (in_family f) rows ≡ false

pub count-IsFresh : (f : ℕ) (rows : Sessions) → IsFresh f rows → count_where (active_in f) rows ≡ 0
count-IsFresh f [] h = refl
count-IsFresh f (s ∷ rows) h = ground (arith, count-IsFresh f rows)

-- A test that no revoked session passes.
abbrev pub Active : (Session → Bool) → Type 0
Active q = (s : Session) (t : ℕ) → q (record s { revoked_at = some t }) ≡ false

abbrev pub stamped : Session → ℕ → Session
stamped s t = record s { revoked_at = some t }

pub count-revoke_where-le :
    (p q : Session → Bool) (now : Clock) (i : ℕ) (rows : Sessions)
    → Active q
    → count_where q (revoke_where p now i rows) ≤ count_where q rows
unfolding revoke_where
count-revoke_where-le p q now i [] a = omega arith
count-revoke_where-le p q now i (s ∷ rows) a =
    ground (arith, a s (now i), count-revoke_where-le p q now (if p s then suc i else i) rows a)

-- What passed the test is revoked.
pub count-revoke_where_self :
    (p : Session → Bool) (now : Clock) (i : ℕ) (rows : Sessions)
    → Active p
    → count_where p (revoke_where p now i rows) ≡ 0
unfolding revoke_where
count-revoke_where_self p now i [] a = refl
count-revoke_where_self p now i (s ∷ rows) a =
    ground (arith, a s (now i), count-revoke_where_self p now (if p s then suc i else i) rows a)

-- A test that is false of all that is revoked counts as before.
pub count-revoke_where_other :
    (p q : Session → Bool) (now : Clock) (i : ℕ) (rows : Sessions)
    → Active q
    → ((s : Session) → p s ≡ true → q s ≡ false)
    → count_where q (revoke_where p now i rows) ≡ count_where q rows
unfolding revoke_where
count-revoke_where_other p q now i [] a d = refl
count-revoke_where_other p q now i (s ∷ rows) a d =
    ground (
      arith,
      a s (now i),
      d s,
      count-revoke_where_other p q now (if p s then suc i else i) rows a d,
    )

pub active_in-Active : (f : ℕ) → Active (active_in f)
active_in-Active f s t = ground arith

pub active_of-Active : (u : ℕ) → Active (active_of u)
active_of-Active u s t = ground arith

other_id :
    (p : Session → Bool) (now : Clock) (i k : ℕ) (rows : Sessions)
    → All (λ t. t.id ≢ k) rows
    → All (λ t. t.id ≢ k) (revoke_where p now i rows)
unfolding revoke_where
other_id p now i k [] h = tt
other_id p now i k (s ∷ rows) h =
    (ground (arith, h.0), other_id p now (if p s then suc i else i) k rows h.1)

UniqueIds-revoke_where :
    (p : Session → Bool) (now : Clock) (i : ℕ) (rows : Sessions)
    → UniqueIds rows
    → UniqueIds (revoke_where p now i rows)
unfolding revoke_where
UniqueIds-revoke_where p now i [] u = tt
UniqueIds-revoke_where p now i (s ∷ rows) u = elim (Bool-cases (p s)) [
  | inl hit ↦
      rw hit (other_id p now (suc i) s.id rows u.0, UniqueIds-revoke_where p now (suc i) rows u.1)
  | inr miss ↦ rw miss (other_id p now i s.id rows u.0, UniqueIds-revoke_where p now i rows u.1)
]

pub revoke_where-IsValid :
    (p : Session → Bool) (now : Clock) (i : ℕ) (rows : Sessions)
    → IsValid rows
    → IsValid (revoke_where p now i rows)
revoke_where-IsValid p now i rows v = record {
  unique_ids = UniqueIds-revoke_where p now i rows v.unique_ids;
  one_active = λ f. omega (
    arith,
    v.one_active f,
    count-revoke_where-le p (active_in f) now i rows (active_in-Active f),
  );
}

new_family :
    (f : ℕ) (s : Session) (rows : Sessions)
    → count_where (active_in f) rows ≤ 1
    → IsFresh s.session_family_id rows
    → count_where (active_in f) (rows ++ (s ∷ [])) ≤ 1
new_family f s rows one fresh = elim (Bool-cases (s.session_family_id == f)) [
  | inl same ↦
      let e : s.session_family_id ≡ f = ground arith in
      let none_yet = count-IsFresh f rows (rw e at fresh) in
      ground (arith, count-append (active_in f) rows s, none_yet)
  | inr other ↦ ground (arith, count-append (active_in f) rows s)
]

-- A login opens a family of its own.
pub issue_initial-IsValid :
    (cfg : Settings) (sha : Hashlib) (now : Clock) (new : Draws) (user_id : ℕ)
    (user_agent ip_hash : Option String) (rows : Sessions)
    → IsValid rows
    → IsFresh new.family rows
    → IsValid (issue_initial cfg sha now new user_id user_agent ip_hash rows).1
unfolding issue_initial
issue_initial-IsValid cfg sha now new user_id user_agent ip_hash rows v fresh =
    let s = first_session cfg sha now new user_id user_agent ip_hash in
    elim (Result-cases (add_session s rows)) [
      | inr (x, e) ↦ rw e v
      | inl (rows', e) ↦
          let (same, absent) = add_session_inv s rows rows' e in
          rw (e, same)
            (record {
              unique_ids = UniqueIds-append rows s v.unique_ids absent;
              one_active = λ f. new_family f s rows (v.one_active f) fresh;
            })
    ]
