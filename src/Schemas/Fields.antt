-- ===== src/Schemas/Fields.antt =====
-- app/schemas/auth.py, `extra="forbid"`: the bodies that have no other field.
use text.Mathlib.Text.{◌==◌ as str_eq}
use text.Mathlib.TextEquality.{eq_iff}
use what_a_secure_app_should.Base.{
  ◌≡◌, refl, inl, inr, ◌⊎◌, true, Bool-cases, String, List, [], ◌∷◌, arith,
}
use what_a_secure_app_should.Schemas.{Body, member, only}

-- One of some names.
abbrev pub IsListed : String → List String → Type 0
IsListed name [] = ⊥
IsListed name (known ∷ names) = (known ≡ name) ⊎ IsListed name names

-- Every key of a body is one of some names.
abbrev pub HasOnly : List String → Body → Type 0
HasOnly names [] = Unit
HasOnly names ((key, _) ∷ body) = IsListed key names × HasOnly names body

IsListed-of_member :
    (name : String) (names : List String) → member name names ≡ true → IsListed name names
IsListed-of_member name [] h = absurd (ground arith)
IsListed-of_member name (known ∷ names) h = elim (Bool-cases (str_eq known name)) [
  | inl same ↦ inl ((eq_iff known name).0 same)
  | inr other ↦ inr (IsListed-of_member name names (rw other at h))
]

member_of_IsListed :
    (name : String) (names : List String) → IsListed name names → member name names ≡ true
member_of_IsListed name [] h = absurd h
member_of_IsListed name (known ∷ names) (inl e) = rw ((eq_iff known name).1 e) refl
member_of_IsListed name (known ∷ names) (inr h) = elim (Bool-cases (str_eq known name)) [
  | inl same ↦ rw same refl
  | inr other ↦ rw other (member_of_IsListed name names h)
]

pub HasOnly-of_only :
    (names : List String) (body : Body) → only names body ≡ true → HasOnly names body
unfolding only
HasOnly-of_only names [] h = tt
HasOnly-of_only names ((key, value) ∷ body) h =
    (IsListed-of_member key names (ground arith), HasOnly-of_only names body (ground arith))

pub only_of_HasOnly :
    (names : List String) (body : Body) → HasOnly names body → only names body ≡ true
unfolding only
only_of_HasOnly names [] h = refl
only_of_HasOnly names ((key, value) ∷ body) (h, others) =
    rw (member_of_IsListed key names h, only_of_HasOnly names body others) refl
