-- ===== src/Api/Integrity/Users.antt =====
-- app/db/models.py, the keys of the users: no two have an id or an email in common. What the handlers do
-- to the table.
use text.Mathlib.Text.{◌==◌ as str_eq}
use text.Mathlib.TextEquality.{eq_iff}
use what_a_secure_app_should.Base.{
  ◌≡◌, ◌≢◌, refl, sym, subst, ◌⊎◌, inl, inr, Bool, true, false, ◌||◌, Bool-cases, some, List, [],
  ◌∷◌, ◌++◌, ◌==◌, ==_iff, arith, All, All-append, find_first,
}
use what_a_secure_app_should.Db.{User, is_none}
use what_a_secure_app_should.Api.Auth.{update_user}
use what_a_secure_app_should.Api.Auth.Account.{keep}

-- Neither the id nor the email of another.
abbrev pub Differs : User → User → Type 0
Differs u v = (v.id ≢ u.id) × (v.email ≢ u.email)

abbrev pub UniqueUsers : List User → Type 0
UniqueUsers [] = Unit
UniqueUsers (u ∷ users) = All (Differs u) users × UniqueUsers users

abbrev pub IsUser : User → List User → Type 0
IsUser user [] = ⊥
IsUser user (u ∷ users) = (u ≡ user) ⊎ IsUser user users

pub find_first-IsUser :
    (p : User → Bool) (users : List User) (user : User)
    → find_first p users ≡ some user
    → IsUser user users
find_first-IsUser p [] user h = absurd (ground arith)
find_first-IsUser p (u ∷ users) user h = elim (Bool-cases (p u)) [
  | inl here ↦ inl (ground arith)
  | inr there ↦ inr (find_first-IsUser p users user (rw there at h))
]

All-IsUser :
    (P : User → Type 0) (users : List User) (user : User) → All P users → IsUser user users → P user
All-IsUser P [] user h m = absurd m
All-IsUser P (u ∷ users) user h (inl e) = subst P e h.0
All-IsUser P (u ∷ users) user h (inr m) = All-IsUser P users user h.1 m

-- A row that clashes with none.
Differs-of_clash :
    (u new : User) → ((u.id == new.id) || str_eq u.email new.email) ≡ false → Differs u new
Differs-of_clash u new h = (
  (λ e. ground (arith, h, e)),
  λ e.
      let same : str_eq u.email new.email ≡ true = (eq_iff u.email new.email).1 (sym e) in
      ground (arith, h, same),
)

pub UniqueUsers-append :
    (users : List User) (new : User)
    → UniqueUsers users
    → is_none (find_first (λ u. (u.id == new.id) || str_eq u.email new.email) users) ≡ true
    → UniqueUsers (users ++ (new ∷ []))
UniqueUsers-append [] new unique fresh = (tt, tt)
UniqueUsers-append (u ∷ users) new unique fresh =
    elim (Bool-cases ((u.id == new.id) || str_eq u.email new.email)) [
      | inl clash ↦ absurd (ground arith)
      | inr differs ↦ (
        All-append (Differs u) users (new ∷ []) unique.0 (Differs-of_clash u new differs, tt),
        UniqueUsers-append users new unique.1 (rw differs at fresh),
      )
    ]

update_nobody :
    (changed : User) (users : List User)
    → All (λ v. v.id ≢ changed.id) users
    → update_user changed users ≡ users
unfolding update_user
update_nobody changed [] h = refl
update_nobody changed (u ∷ users) h = ground (arith, h.0, update_nobody changed users h.1)

All-update_user :
    (P : User → Type 0) (changed : User) (users : List User)
    → P changed
    → All P users
    → All P (update_user changed users)
unfolding update_user
All-update_user P changed [] p h = tt
All-update_user P changed (u ∷ users) p h = elim (Bool-cases (u.id == changed.id)) [
  | inl same ↦ rw same (p, All-update_user P changed users p h.1)
  | inr other ↦ rw other (h.0, All-update_user P changed users p h.1)
]

All-weaken :
    (P Q : User → Type 0) (users : List User) → ((u : User) → P u → Q u) → All P users → All Q users
All-weaken P Q [] f h = tt
All-weaken P Q (u ∷ users) f h = (f u h.0, All-weaken P Q users f h.1)

-- A row with the id and the email of one in the table.
pub UniqueUsers-update_user :
    (changed user : User) (users : List User)
    → UniqueUsers users
    → IsUser user users
    → changed.id ≡ user.id
    → changed.email ≡ user.email
    → UniqueUsers (update_user changed users)
unfolding update_user
UniqueUsers-update_user changed user [] unique m e f = absurd m
UniqueUsers-update_user changed user (u ∷ users) unique (inl here) e f =
    let id : u.id ≡ changed.id = ground arith in
    let email : u.email ≡ changed.email = cc in
    let others : All (Differs changed) users =
      All-weaken (Differs u) (Differs changed) users (λ v d. ((λ h. d.0 (cc)), λ h. d.1 (cc)))
        unique.0 in
    let rest : update_user changed users ≡ users =
      update_nobody changed users
        (All-weaken (Differs changed) (λ v. v.id ≢ changed.id) users (λ v d. d.0) others) in
    let hit : (u.id == changed.id) ≡ true = (==_iff u.id changed.id).1 id in
    rw (hit, rest) (others, unique.1)
UniqueUsers-update_user changed user (u ∷ users) unique (inr m) e f =
    let d = All-IsUser (Differs u) users user unique.0 m in
    let d' : Differs u changed = ((λ h. d.0 (cc)), λ h. d.1 (cc)) in
    let miss : (u.id == changed.id) ≡ false = ground (arith, d'.0) in
    rw miss (
      All-update_user (Differs u) changed users d' unique.0,
      UniqueUsers-update_user changed user users unique.1 m e f,
    )

All-keep :
    (P : User → Type 0) (p : User → Bool) (users : List User) → All P users → All P (keep p users)
unfolding keep
All-keep P p [] h = tt
All-keep P p (u ∷ users) h = elim (Bool-cases (p u)) [
  | inl kept ↦ rw kept (h.0, All-keep P p users h.1)
  | inr gone ↦ rw gone (All-keep P p users h.1)
]

pub UniqueUsers-keep :
    (p : User → Bool) (users : List User) → UniqueUsers users → UniqueUsers (keep p users)
unfolding keep
UniqueUsers-keep p [] h = tt
UniqueUsers-keep p (u ∷ users) h = elim (Bool-cases (p u)) [
  | inl kept ↦ rw kept (All-keep (Differs u) p users h.0, UniqueUsers-keep p users h.1)
  | inr gone ↦ rw gone (UniqueUsers-keep p users h.1)
]
