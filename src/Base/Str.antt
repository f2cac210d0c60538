-- ===== src/Base/Str.antt =====
-- The methods of Python's `str` that the program calls.
use Prim.Native.Nat.{ℕ, zero, suc, ◌≤◌}
use Prim.Native.Char.{Char, code}
use Prim.Native.String.{String, ◌++◌}
use mathlib.Core.Path.{◌≡◌, refl, ap, sym, ◌∙◌}
use mathlib.Core.Bool.{Bool, true, false, ◌&&◌, ◌||◌}
use mathlib.Core.Option.{Option, none, some}
use mathlib.Core.Logic.{inl, inr}
use native.Mathlib.Omega.{arith}
use text.Mathlib.TextLemmas.{cons-append, nil-append}
use what_a_secure_app_should.Base.Tests.{◌==◌, leb, Bool-cases, if◌then◌else◌}

-- `len(s)`: the number of code points.
abbrev pub str_length : String → ℕ
str_length String.[] = 0
str_length (String.◌∷◌ c s) = suc (str_length s)

-- `c.isspace()`, and `\s` of `re`: the white space of Unicode and the separators 28 to 31.
unfoldable pub is_space : Char → Bool
is_space c =
    let n = code c in
    (leb 9 n && leb n 13)
    || (leb 28 n && leb n 32)
    || (n == 0x85)
    || (n == 0xA0)
    || (n == 0x1680)
    || (leb 0x2000 n && leb n 0x200A)
    || (n == 0x2028)
    || (n == 0x2029)
    || (n == 0x202F)
    || (n == 0x205F)
    || (n == 0x3000)

abbrev pub is_empty : String → Bool
is_empty String.[] = true
is_empty (String.◌∷◌ _ _) = false

unfoldable pub lstrip : String → String
lstrip String.[] = String.[]
lstrip (String.◌∷◌ c s) = if is_space c then lstrip s else String.◌∷◌ c s

unfoldable pub rstrip : String → String
rstrip String.[] = String.[]
rstrip (String.◌∷◌ c s) =
    let rest = rstrip s in if is_empty rest && is_space c then String.[] else String.◌∷◌ c rest

-- `s.strip()`
unfoldable pub strip : String → String
unfolding lstrip rstrip
strip s = rstrip (lstrip s)

-- `s.split(" ", 1)[1]`, none for the IndexError of a text without a space.
unfoldable pub after_space : String → Option String
after_space String.[] = none
after_space (String.◌∷◌ c s) = if code c == 32 then some s else after_space s

-- `s[:n]`
abbrev pub str_take : ℕ → String → String
str_take zero s = String.[]
str_take (suc n) String.[] = String.[]
str_take (suc n) (String.◌∷◌ c s) = String.◌∷◌ c (str_take n s)

-- A text without white space.
abbrev pub IsCompact : String → Type 0
IsCompact String.[] = Unit
IsCompact (String.◌∷◌ c s) = (is_space c ≡ false) × IsCompact s

rstrip_compact : (s : String) → IsCompact s → rstrip s ≡ s
unfolding rstrip
rstrip_compact String.[] h = refl
rstrip_compact (String.◌∷◌ c s) (hc, hs) = elim (Bool-cases (is_empty s)) [
  | inl e ↦ rw (rstrip_compact s hs, e, hc) refl
  | inr e ↦ rw (rstrip_compact s hs, e) refl
]

pub strip_compact : (s : String) → IsCompact s → strip s ≡ s
unfolding strip
strip_compact String.[] h = refl
strip_compact (String.◌∷◌ c s) (hc, hs) = rw hc (rstrip_compact (String.◌∷◌ c s) (hc, hs))

rstrip_idem : (s : String) → rstrip (rstrip s) ≡ rstrip s
unfolding rstrip
rstrip_idem String.[] = refl
rstrip_idem (String.◌∷◌ c s) = elim (Bool-cases (is_empty (rstrip s) && is_space c)) [
  | inl e ↦ rw e refl
  | inr e ↦ rw (e, rstrip_idem s, e) refl
]

-- A text that does not start with white space.
abbrev StartsDark : String → Type 0
StartsDark String.[] = Unit
StartsDark (String.◌∷◌ c s) = is_space c ≡ false

lstrip-StartsDark : (s : String) → StartsDark (lstrip s)
unfolding lstrip
lstrip-StartsDark String.[] = tt
lstrip-StartsDark (String.◌∷◌ c s) = elim (Bool-cases (is_space c)) [
  | inl e ↦ rw e (lstrip-StartsDark s)
  | inr e ↦ rw e e
]

rstrip-StartsDark : (s : String) → StartsDark s → StartsDark (rstrip s)
unfolding rstrip
rstrip-StartsDark String.[] h = tt
rstrip-StartsDark (String.◌∷◌ c s) h = elim (Bool-cases (is_empty (rstrip s) && is_space c)) [
  | inl e ↦ rw e tt
  | inr e ↦ rw e h
]

lstrip_dark : (s : String) → StartsDark s → lstrip s ≡ s
unfolding lstrip
lstrip_dark String.[] h = refl
lstrip_dark (String.◌∷◌ c s) h = rw h refl

-- Stripping twice is stripping once.
pub strip_idem : (s : String) → strip (strip s) ≡ strip s
unfolding strip
strip_idem s =
    rw (lstrip_dark (rstrip (lstrip s)) (rstrip-StartsDark (lstrip s) (lstrip-StartsDark s)))
      (rstrip_idem (lstrip s))

-- The text behind the first space.
pub after_space-append :
    (word rest : String) → IsCompact word → after_space (word ++ (String.◌∷◌ " " rest)) ≡ some rest
unfolding after_space is_space
after_space-append String.[] rest h = rw (nil-append (String.◌∷◌ " " rest)) refl
after_space-append (String.◌∷◌ c s) rest (hc, hs) =
    let dark : (code c == 32) ≡ false = ground (arith, hc) in
    rw (cons-append c s (String.◌∷◌ " " rest), dark) (after_space-append s rest hs)

pub str_length-str_take : (n : ℕ) (s : String) → str_length (str_take n s) ≤ n
str_length-str_take zero s = omega arith
str_length-str_take (suc n) String.[] = omega arith
str_length-str_take (suc n) (String.◌∷◌ c s) = omega (arith, str_length-str_take n s)

-- A text and the beginning that was cut off it.
pub str_take-prefix : (n : ℕ) (s : String) → (rest : String) × (s ≡ str_take n s ++ rest)
str_take-prefix zero s = (s, sym (nil-append s))
str_take-prefix (suc n) String.[] = (String.[], sym (nil-append String.[]))
str_take-prefix (suc n) (String.◌∷◌ c s) =
    let (rest, e) = str_take-prefix n s in
    (rest, ap (String.◌∷◌ c) e ∙ sym (cons-append c (str_take n s) rest))
