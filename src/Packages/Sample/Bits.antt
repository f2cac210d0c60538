-- ===== src/Packages/Sample/Bits.antt =====
-- A packing of bits, eight to a byte, and a reversal as the permutation.
use mathlib.Core.List.{reverse, reverse_perm}
use what_a_secure_app_should.Base.{
  ℕ, zero, suc, ◌+◌, ◌*◌, ◌/◌, ◌%◌, ◌<◌, ◌≤◌, ◌≡◌, refl, List, [], ◌∷◌, ◌++◌, length, arith, All,
}
use what_a_secure_app_should.Base.Bytes.{Bytes, IsBytes}
use what_a_secure_app_should.Packages.{Numpy, NumpyLaws}

abbrev byte_bits : ℕ → List ℕ
byte_bits b =
    b / 128 % 2
    ∷ b / 64 % 2
    ∷ b / 32 % 2
    ∷ b / 16 % 2
    ∷ b / 8 % 2
    ∷ b / 4 % 2
    ∷ b / 2 % 2
    ∷ b % 2
    ∷ []

abbrev pub sample_unpackbits : Bytes → List ℕ
sample_unpackbits [] = []
sample_unpackbits (b ∷ d) = byte_bits b ++ sample_unpackbits d

-- The bit that numpy packs for a value: whether it is not zero.
abbrev bit : ℕ → ℕ
bit zero = 0
bit (suc n) = 1

abbrev pack_byte : ℕ → ℕ → ℕ → ℕ → ℕ → ℕ → ℕ → ℕ → ℕ
pack_byte a b c d e f g h =
    bit a * 128 + bit b * 64 + bit c * 32 + bit d * 16 + bit e * 8 + bit f * 4 + bit g * 2 + bit h

abbrev pub sample_packbits : List ℕ → Bytes
sample_packbits (a ∷ b ∷ c ∷ d ∷ e ∷ f ∷ g ∷ h ∷ rest) =
    pack_byte a b c d e f g h ∷ sample_packbits rest
sample_packbits (a ∷ b ∷ c ∷ d ∷ e ∷ f ∷ g ∷ []) = pack_byte a b c d e f g 0 ∷ []
sample_packbits (a ∷ b ∷ c ∷ d ∷ e ∷ f ∷ []) = pack_byte a b c d e f 0 0 ∷ []
sample_packbits (a ∷ b ∷ c ∷ d ∷ e ∷ []) = pack_byte a b c d e 0 0 0 ∷ []
sample_packbits (a ∷ b ∷ c ∷ d ∷ []) = pack_byte a b c d 0 0 0 0 ∷ []
sample_packbits (a ∷ b ∷ c ∷ []) = pack_byte a b c 0 0 0 0 0 ∷ []
sample_packbits (a ∷ b ∷ []) = pack_byte a b 0 0 0 0 0 0 ∷ []
sample_packbits (a ∷ []) = pack_byte a 0 0 0 0 0 0 0 ∷ []
sample_packbits [] = []

bit_le : (n : ℕ) → bit n ≤ 1
bit_le zero = omega arith
bit_le (suc n) = omega arith

bit_id : (n : ℕ) → n < 2 → bit n ≡ n
bit_id zero h = refl
bit_id (suc zero) h = refl
bit_id (suc (suc n)) h = absurd (omega arith)

pack_byte_lt : (a b c d e f g h : ℕ) → pack_byte a b c d e f g h < 256
pack_byte_lt a b c d e f g h =
    omega (arith, bit_le a, bit_le b, bit_le c, bit_le d, bit_le e, bit_le f, bit_le g, bit_le h)

pack_byte_bits :
    (b : ℕ)
    → b < 256
    → pack_byte
        (b / 128 % 2)
        (b / 64 % 2)
        (b / 32 % 2)
        (b / 16 % 2)
        (b / 8 % 2)
        (b / 4 % 2)
        (b / 2 % 2)
        (b % 2)
      ≡ b
pack_byte_bits b h =
    rw
      (
        bit_id (b / 128 % 2) (omega arith),
        bit_id (b / 64 % 2) (omega arith),
        bit_id (b / 32 % 2) (omega arith),
        bit_id (b / 16 % 2) (omega arith),
        bit_id (b / 8 % 2) (omega arith),
        bit_id (b / 4 % 2) (omega arith),
        bit_id (b / 2 % 2) (omega arith),
        bit_id (b % 2) (omega arith),
      )
      (omega arith)

length-sample_unpackbits : (d : Bytes) → length (sample_unpackbits d) ≡ length d * 8
length-sample_unpackbits [] = refl
length-sample_unpackbits (b ∷ d) = omega (arith, length-sample_unpackbits d)

sample_unpackbits_bits : (d : Bytes) → All (λ b. b < 2) (sample_unpackbits d)
sample_unpackbits_bits [] = tt
sample_unpackbits_bits (b ∷ d) = (
  omega arith,
  (
    omega arith,
    (
      omega arith,
      (
        omega arith,
        (omega arith, (omega arith, (omega arith, (omega arith, sample_unpackbits_bits d)))),
      ),
    ),
  ),
)

sample_round_trip : (d : Bytes) → IsBytes d → sample_packbits (sample_unpackbits d) ≡ d
sample_round_trip [] h = refl
sample_round_trip (b ∷ d) h = rw (pack_byte_bits b h.0, sample_round_trip d h.1)

length-sample_packbits : (bits : List ℕ) → length (sample_packbits bits) ≡ (length bits + 7) / 8
length-sample_packbits (a ∷ b ∷ c ∷ d ∷ e ∷ f ∷ g ∷ h ∷ rest) =
    omega (arith, length-sample_packbits rest)
length-sample_packbits _ = omega arith

sample_packbits-IsBytes : (bits : List ℕ) → IsBytes (sample_packbits bits)
sample_packbits-IsBytes (a ∷ b ∷ c ∷ d ∷ e ∷ f ∷ g ∷ h ∷ rest) =
    (pack_byte_lt a b c d e f g h, sample_packbits-IsBytes rest)
sample_packbits-IsBytes (a ∷ b ∷ c ∷ d ∷ e ∷ f ∷ g ∷ []) = (pack_byte_lt a b c d e f g 0, tt)
sample_packbits-IsBytes (a ∷ b ∷ c ∷ d ∷ e ∷ f ∷ []) = (pack_byte_lt a b c d e f 0 0, tt)
sample_packbits-IsBytes (a ∷ b ∷ c ∷ d ∷ e ∷ []) = (pack_byte_lt a b c d e 0 0 0, tt)
sample_packbits-IsBytes (a ∷ b ∷ c ∷ d ∷ []) = (pack_byte_lt a b c d 0 0 0 0, tt)
sample_packbits-IsBytes (a ∷ b ∷ c ∷ []) = (pack_byte_lt a b c 0 0 0 0 0, tt)
sample_packbits-IsBytes (a ∷ b ∷ []) = (pack_byte_lt a b 0 0 0 0 0 0, tt)
sample_packbits-IsBytes (a ∷ []) = (pack_byte_lt a 0 0 0 0 0 0 0, tt)
sample_packbits-IsBytes [] = tt

abbrev pub sample_numpy : Numpy
sample_numpy = record {
  unpackbits = sample_unpackbits;
  packbits = sample_packbits;
  permutation = λ seed xs. reverse xs;
}

pub sample_numpy_laws : NumpyLaws sample_numpy
sample_numpy_laws = record {
  length-unpackbits = length-sample_unpackbits;
  unpackbits_bits = sample_unpackbits_bits;
  packbits-unpackbits = sample_round_trip;
  length-packbits = length-sample_packbits;
  packbits-IsBytes = sample_packbits-IsBytes;
  permutation-perm = λ seed xs. reverse_perm xs;
}
