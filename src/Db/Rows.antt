-- ===== src/Db/Rows.antt =====
-- Laws of the table of sessions: membership, unique keys, and counts under inserts and updates.
use what_a_secure_app_should.Base.{
  ℕ, ◌+◌, ◌≤◌, ◌≡◌, refl, sym, ◌≢◌, ◌⊎◌, inl, inr, Bool, true, false, Bool-cases, some, List, [],
  ◌∷◌, ◌++◌, arith, ◌==◌, All, All-append, find_first, count_where,
}
use what_a_secure_app_should.Base.Outcome.{ok}
use what_a_secure_app_should.Db.{Session, clashes, any_session, add_session, update_session}

abbrev pub IsIn : Session → List Session → Type 0
IsIn s [] = ⊥
IsIn s (x ∷ rows) = (x ≡ s) ⊎ IsIn s rows

-- Primary keys are unique.
abbrev pub UniqueIds : List Session → Type 0
UniqueIds [] = Unit
UniqueIds (x ∷ rows) = All (λ t. t.id ≢ x.id) rows × UniqueIds rows

-- 1 if a test passes.
abbrev pub ind : Bool → ℕ
ind true = 1
ind false = 0

pub find_first-IsIn :
    (p : Session → Bool) (rows : List Session) (s : Session)
    → find_first p rows ≡ some s
    → IsIn s rows × (p s ≡ true)
find_first-IsIn p [] s h = absurd (ground arith)
find_first-IsIn p (x ∷ rows) s h = elim (Bool-cases (p x)) [
  | inl here ↦ (inl (ground arith), ground arith)
  | inr there ↦ let r = find_first-IsIn p rows s (rw there at h) in (inr r.0, r.1)
]

pub count_pos :
    (p : Session → Bool) (rows : List Session) (s : Session)
    → IsIn s rows
    → p s ≡ true
    → 1 ≤ count_where p rows
count_pos p [] s m h = absurd m
count_pos p (x ∷ rows) s (inl e) h = ground arith
count_pos p (x ∷ rows) s (inr m) h = ground (arith, count_pos p rows s m h)

pub count-append :
    (p : Session → Bool) (rows : List Session) (s : Session)
    → count_where p (rows ++ (s ∷ [])) ≡ count_where p rows + ind (p s)
count-append p [] s = ground arith
count-append p (x ∷ rows) s = ground (arith, count-append p rows s)

pub any-append :
    (p : Session → Bool) (rows : List Session) (s : Session)
    → any_session p rows ≡ true
    → any_session p (rows ++ (s ∷ [])) ≡ true
any-append p [] s h = absurd (ground arith)
any-append p (x ∷ rows) s h = ground (arith, any-append p rows s)

pub find_first-append :
    (p : Session → Bool) (rows : List Session) (s t : Session)
    → find_first p rows ≡ some s
    → find_first p (rows ++ (t ∷ [])) ≡ some s
find_first-append p [] s t h = absurd (ground arith)
find_first-append p (x ∷ rows) s t h = ground (arith, find_first-append p rows s t)

pub IsIn-append : (rows : List Session) (s t : Session) → IsIn s rows → IsIn s (rows ++ (t ∷ []))
IsIn-append [] s t m = absurd m
IsIn-append (x ∷ rows) s t (inl e) = inl e
IsIn-append (x ∷ rows) s t (inr m) = inr (IsIn-append rows s t m)

pub no_clash :
    (new : Session) (rows : List Session)
    → any_session (clashes new) rows ≡ false
    → All (λ s. s.id ≢ new.id) rows
no_clash new [] h = tt
no_clash new (s ∷ rows) h = (ground arith, no_clash new rows (ground arith))

-- A row that was added has a new key, and stands behind the others.
pub add_session_inv :
    (new : Session) (rows rows' : List Session)
    → add_session new rows ≡ ok rows'
    → (rows' ≡ rows ++ (new ∷ [])) × All (λ s. s.id ≢ new.id) rows
unfolding add_session
add_session_inv new rows rows' h = elim (Bool-cases (any_session (clashes new) rows)) [
  | inl clash ↦ absurd (ground arith)
  | inr free ↦ (ground arith, no_clash new rows free)
]

pub UniqueIds-append :
    (rows : List Session) (new : Session)
    → UniqueIds rows
    → All (λ s. s.id ≢ new.id) rows
    → UniqueIds (rows ++ (new ∷ []))
UniqueIds-append [] new u h = (tt, tt)
UniqueIds-append (x ∷ rows) new u h = (
  All-append (λ t. t.id ≢ x.id) rows (new ∷ []) u.0 ((λ e. h.0 (sym e)), tt),
  UniqueIds-append rows new u.1 h.1,
)

other_ids :
    (changed : Session) (k : ℕ) (rows : List Session)
    → All (λ t. t.id ≢ k) rows
    → All (λ t. t.id ≢ k) (update_session changed rows)
unfolding update_session
other_ids changed k [] h = tt
other_ids changed k (x ∷ rows) h = (ground (arith, h.0), other_ids changed k rows h.1)

pub UniqueIds-update_session :
    (changed : Session) (rows : List Session)
    → UniqueIds rows
    → UniqueIds (update_session changed rows)
unfolding update_session
UniqueIds-update_session changed [] u = tt
UniqueIds-update_session changed (x ∷ rows) u = elim (Bool-cases (x.id == changed.id)) [
  | inl same ↦
      let e : x.id ≡ changed.id = ground arith in
      rw same (rw e at (other_ids changed x.id rows u.0), UniqueIds-update_session changed rows u.1)
  | inr other ↦
      rw other (other_ids changed x.id rows u.0, UniqueIds-update_session changed rows u.1)
]

pub update_absent :
    (changed : Session) (rows : List Session)
    → All (λ t. t.id ≢ changed.id) rows
    → update_session changed rows ≡ rows
unfolding update_session
update_absent changed [] h = refl
update_absent changed (x ∷ rows) h = ground (arith, h.0, update_absent changed rows h.1)

pub id_of_IsIn :
    (k : ℕ) (rows : List Session) (s : Session) → All (λ t. t.id ≢ k) rows → IsIn s rows → s.id ≢ k
id_of_IsIn k [] s h m = absurd m
id_of_IsIn k (x ∷ rows) s h (inl e) = rw (← e) h.0
id_of_IsIn k (x ∷ rows) s h (inr m) = id_of_IsIn k rows s h.1 m

-- An update of one row moves a count by that row alone.
pub count-update_session :
    (p : Session → Bool) (changed s : Session) (rows : List Session)
    → UniqueIds rows
    → IsIn s rows
    → changed.id ≡ s.id
    → count_where p (update_session changed rows) + ind (p s) ≡ count_where p rows + ind (p changed)
unfolding update_session
count-update_session p changed s [] u m e = absurd m
count-update_session p changed s (x ∷ rows) u (inl h) e =
    let same : x.id ≡ changed.id = ground arith in
    let rest = update_absent changed rows (rw same at u.0) in rw (rest, ← h) (ground arith)
count-update_session p changed s (x ∷ rows) u (inr m) e =
    let ne = id_of_IsIn x.id rows s u.0 m in
    ground (arith, count-update_session p changed s rows u.1 m e)

pub find_first-update_session :
    (p : Session → Bool) (changed s : Session) (rows : List Session)
    → find_first p rows ≡ some s
    → changed.id ≡ s.id
    → p changed ≡ true
    → find_first p (update_session changed rows) ≡ some changed
unfolding update_session
find_first-update_session p changed s [] h e q = absurd (ground arith)
find_first-update_session p changed s (x ∷ rows) h e q =
    ground (arith, find_first-update_session p changed s rows)

pub any-update_session :
    (p : Session → Bool) (changed s : Session) (rows : List Session)
    → IsIn s rows
    → changed.id ≡ s.id
    → p changed ≡ p s
    → any_session p rows ≡ true
    → UniqueIds rows
    → any_session p (update_session changed rows) ≡ true
unfolding update_session
any-update_session p changed s [] m e q h u = absurd m
any-update_session p changed s (x ∷ rows) (inl k) e q h u =
    let same : x.id ≡ changed.id = ground arith in
    let rest = update_absent changed rows (rw same at u.0) in rw rest (ground arith)
any-update_session p changed s (x ∷ rows) (inr m) e q h u =
    let ne = id_of_IsIn x.id rows s u.0 m in
    ground (arith, any-update_session p changed s rows m e q)
