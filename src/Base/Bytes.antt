-- ===== src/Base/Bytes.antt =====
-- Byte strings as lists of numbers, big-endian integers, and equality of byte strings.
use Prim.Native.Nat.{ℕ, zero, suc, ◌+◌, ◌*◌, ◌/◌, ◌%◌, ◌^◌, ◌<◌}
use mathlib.Core.Path.{◌≡◌, refl, ap}
use mathlib.Core.Logic.{◌↔◌}
use mathlib.Core.Bool.{Bool, true, false, ◌&&◌}
use mathlib.Core.List.{List, [], ◌∷◌}
use native.Mathlib.Omega.{arith}
use native.Mathlib.Nat.{
  pow-suc, pow-succ', div-add-mod', mod-lt, mul-le-mul_right, div-lt_iff_lt-mul, div-eq_of_lt-le,
}
use what_a_secure_app_should.Base.Tests.{◌==◌}
use what_a_secure_app_should.Base.Lists.{length, All}

abbrev pub Bytes : Type 0
Bytes = List ℕ

abbrev pub IsByte : ℕ → Type 0
IsByte b = b < 256

abbrev pub IsBytes : Bytes → Type 0
IsBytes = All IsByte

abbrev pub bytes_eq : Bytes → Bytes → Bool
bytes_eq [] [] = true
bytes_eq [] (y ∷ ys) = false
bytes_eq (x ∷ xs) [] = false
bytes_eq (x ∷ xs) (y ∷ ys) = (x == y) && bytes_eq xs ys

pub bytes_eq_iff : (xs ys : Bytes) → (bytes_eq xs ys ≡ true) ↔ (xs ≡ ys)
bytes_eq_iff [] [] = ground arith
bytes_eq_iff [] (y ∷ ys) = ground arith
bytes_eq_iff (x ∷ xs) [] = ground arith
bytes_eq_iff (x ∷ xs) (y ∷ ys) = ground (arith, bytes_eq_iff xs ys)

-- `int.from_bytes(b, "big")`, and `n.to_bytes(k, "big")` for `n` below `256 ** k`.
unfoldable pub from_bytes : Bytes → ℕ
from_bytes [] = 0
from_bytes (b ∷ bs) = b * 256 ^ length bs + from_bytes bs

unfoldable pub to_bytes : ℕ → ℕ → Bytes
to_bytes zero n = []
to_bytes (suc k) n = (n / 256 ^ k) ∷ to_bytes k (n % 256 ^ k)

pub length-to_bytes : (k n : ℕ) → length (to_bytes k n) ≡ k
unfolding to_bytes
length-to_bytes zero n = refl
length-to_bytes (suc k) n = ap suc (length-to_bytes k (n % 256 ^ k))

pow_pos : (k : ℕ) → 0 < 256 ^ k
pow_pos zero = omega arith
pow_pos (suc k) = omega (arith, pow-suc 256 k, pow_pos k)

pub from_bytes-to_bytes : (k n : ℕ) → n < 256 ^ k → from_bytes (to_bytes k n) ≡ n
unfolding from_bytes to_bytes
from_bytes-to_bytes zero n h = omega arith
from_bytes-to_bytes (suc k) n h =
    rw (length-to_bytes k (n % 256 ^ k))
      (rw (from_bytes-to_bytes k (n % 256 ^ k) (mod-lt n (pow_pos k))) (div-add-mod' n (256 ^ k)))

pub from_bytes_lt : (bs : Bytes) → IsBytes bs → from_bytes bs < 256 ^ length bs
unfolding from_bytes
from_bytes_lt [] h = omega arith
from_bytes_lt (b ∷ bs) h = omega (
  arith,
  pow-suc 256 (length bs),
  from_bytes_lt bs h.1,
  mul-le-mul_right {m = suc b} {n = 256} (256 ^ length bs) h.0,
)

pub to_bytes-IsBytes : (k n : ℕ) → n < 256 ^ k → IsBytes (to_bytes k n)
unfolding to_bytes
to_bytes-IsBytes zero n h = tt
to_bytes-IsBytes (suc k) n h = (
  ((div-lt_iff_lt-mul {y = 256} (pow_pos k)).1 (rw (← pow-succ' 256 k) h)),
  to_bytes-IsBytes k (n % 256 ^ k) (mod-lt n (pow_pos k)),
)

split_div : (b r p : ℕ) → r < p → (b * p + r) / p ≡ b
split_div b r p h = div-eq_of_lt-le p (omega arith) (omega arith)

split_mod : (b r p : ℕ) → r < p → (b * p + r) % p ≡ r
split_mod b r p h = omega (
  arith,
  split_div b r p h,
  div-add-mod' (b * p + r) p,
  ap (λ (t : ℕ). t * p) (split_div b r p h),
)

pub to_bytes-from_bytes :
    (k : ℕ) (bs : Bytes) → length bs ≡ k → IsBytes bs → to_bytes k (from_bytes bs) ≡ bs
unfolding from_bytes to_bytes
to_bytes-from_bytes zero [] e h = refl
to_bytes-from_bytes zero (b ∷ bs) e h = absurd (omega arith)
to_bytes-from_bytes (suc k) [] e h = absurd (omega arith)
to_bytes-from_bytes (suc k) (b ∷ bs) e h =
    let e' : length bs ≡ k = omega arith in
    let small : from_bytes bs < 256 ^ k = rw e' at (from_bytes_lt bs h.1) in
    rw e' (
      rw (split_div b (from_bytes bs) (256 ^ k) small, split_mod b (from_bytes bs) (256 ^ k) small)
        (ap (◌∷◌ b) (to_bytes-from_bytes k bs e' h.1)))
