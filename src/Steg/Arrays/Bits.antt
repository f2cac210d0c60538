-- ===== src/Steg/Arrays/Bits.antt =====
-- Facts about the lowest bit of a byte, by checking every byte.
use what_a_secure_app_should.Base.{
  ℕ, zero, suc, ◌/◌, ◌<◌, ◌≡◌, refl, ap, Bool, true, List, [], ◌∷◌, length, map, arith, ltb, ◌&&◌,
  ◌==◌, All,
}
use what_a_secure_app_should.Base.Bytes.{IsBytes}
use what_a_secure_app_should.Steg.Arrays.{lsb, with_lsb, zip_lsb}

-- Whether a test passes on each of the numbers below a bound.
passes_to : (ℕ → Bool) → ℕ → Bool
passes_to test zero = true
passes_to test (suc bound) = passes_to test bound && test bound

passes_to_at :
    (test : ℕ → Bool) (bound k : ℕ) → k < bound → passes_to test bound ≡ true → test k ≡ true
unfolding passes_to
passes_to_at test zero k small passed = absurd (omega arith)
passes_to_at test (suc bound) k small passed = ground (arith, passes_to_at test bound k)

-- Writing a bit into a byte keeps a byte, whose lowest bit is that bit and whose others are kept.
abbrev good : ℕ → ℕ → Bool
good b x = (lsb (with_lsb x b) == b) && ((with_lsb x b / 2 == x / 2) && ltb (with_lsb x b) 256)

abbrev IsBit : ℕ → Type 0
IsBit b = b < 2

zero_table : passes_to (good 0) 256 ≡ true
unfolding passes_to lsb with_lsb
zero_table = refl

one_table : passes_to (good 1) 256 ≡ true
unfolding passes_to lsb with_lsb
one_table = refl

good_lem : (b x : ℕ) → b < 2 → x < 256 → good b x ≡ true
good_lem zero x hb hx = passes_to_at (good 0) 256 x hx zero_table
good_lem (suc zero) x hb hx = passes_to_at (good 1) 256 x hx one_table
good_lem (suc (suc b)) x hb hx = absurd (omega arith)

pub with_lsb_lem :
    (x b : ℕ)
    → x < 256
    → b < 2
    → (lsb (with_lsb x b) ≡ b) × (with_lsb x b / 2 ≡ x / 2) × (with_lsb x b < 256)
with_lsb_lem x b hx hb = ground (arith, good_lem b x hb hx)

module _ where
  pub map-lsb-zip_lsb :
      (xs bits : List ℕ)
      → length xs ≡ length bits
      → IsBytes xs
      → All IsBit bits
      → map lsb (zip_lsb xs bits) ≡ bits
  map-lsb-zip_lsb [] [] e hx hb = refl
  map-lsb-zip_lsb [] (b ∷ bits) e hx hb = absurd (omega arith)
  map-lsb-zip_lsb (x ∷ xs) [] e hx hb = absurd (omega arith)
  map-lsb-zip_lsb (x ∷ xs) (b ∷ bits) e hx hb =
      rw ((with_lsb_lem x b hx.0 hb.0).0, map-lsb-zip_lsb xs bits (omega arith) hx.1 hb.1)

  pub length-zip_lsb :
      (xs bits : List ℕ) → length xs ≡ length bits → length (zip_lsb xs bits) ≡ length bits
  length-zip_lsb [] [] e = refl
  length-zip_lsb [] (b ∷ bits) e = absurd (omega arith)
  length-zip_lsb (x ∷ xs) [] e = absurd (omega arith)
  length-zip_lsb (x ∷ xs) (b ∷ bits) e = ap suc (length-zip_lsb xs bits (omega arith))

  pub zip_lsb-IsBytes : (xs bits : List ℕ) → IsBytes xs → All IsBit bits → IsBytes (zip_lsb xs bits)
  zip_lsb-IsBytes [] bits hx hb = tt
  zip_lsb-IsBytes (x ∷ xs) [] hx hb = tt
  zip_lsb-IsBytes (x ∷ xs) (b ∷ bits) hx hb =
      ((with_lsb_lem x b hx.0 hb.0).2, zip_lsb-IsBytes xs bits hx.1 hb.1)

  -- All bits of a byte but the lowest.
  abbrev pub high_bits : ℕ → ℕ
  high_bits x = x / 2

  pub map-high_bits-zip_lsb :
      (xs bits : List ℕ)
      → length xs ≡ length bits
      → IsBytes xs
      → All IsBit bits
      → map high_bits (zip_lsb xs bits) ≡ map high_bits xs
  map-high_bits-zip_lsb [] [] e hx hb = refl
  map-high_bits-zip_lsb [] (b ∷ bits) e hx hb = absurd (omega arith)
  map-high_bits-zip_lsb (x ∷ xs) [] e hx hb = absurd (omega arith)
  map-high_bits-zip_lsb (x ∷ xs) (b ∷ bits) e hx hb =
      rw ((with_lsb_lem x b hx.0 hb.0).1, map-high_bits-zip_lsb xs bits (omega arith) hx.1 hb.1)
