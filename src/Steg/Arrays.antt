-- ===== src/Steg/Arrays.antt =====
-- The indexing of flat uint8 arrays that lsb_png.py writes in numpy's notation.
pub mod Bits
pub mod Indexing
pub mod HighBits
use what_a_secure_app_should.Base.{
  ℕ, zero, suc, ◌+◌, ◌-◌, Option, none, some, List, [], ◌∷◌, ◌++◌, length, get_elem?, set, take,
  drop, map, bit_and, bit_or, ◌==◌, if◌then◌else◌,
}
use what_a_secure_app_should.Base.Outcome.{Result, ok, err, value_error, index_error, ◌>>=◌}

abbrev pub arange_from : ℕ → ℕ → List ℕ
arange_from start zero = []
arange_from start (suc n) = start ∷ arange_from (suc start) n

-- `np.arange(start, stop)`
abbrev pub arange : ℕ → ℕ → List ℕ
arange start stop = arange_from start (stop - start)

-- `x & 1`
unfoldable pub lsb : ℕ → ℕ
lsb x = bit_and x 1

-- `(x & 0xFE) | b`
unfoldable pub with_lsb : ℕ → ℕ → ℕ
with_lsb x b = bit_or (bit_and x 0xFE) b

abbrev pub zip_lsb : List ℕ → List ℕ → List ℕ
zip_lsb (x ∷ xs) (b ∷ bs) = with_lsb x b ∷ zip_lsb xs bs
zip_lsb _ _ = []

-- `(xs & 0xFE) | bits`; arrays of unlike sizes are a ValueError.
unfoldable pub merge_bits : List ℕ → List ℕ → Result (List ℕ)
merge_bits xs bits = if length xs == length bits then ok (zip_lsb xs bits) else err value_error

abbrev pub or_index_error : Option ℕ → Result ℕ
or_index_error none = err index_error
or_index_error (some v) = ok v

-- `flat[targets]`; a position outside the array is an IndexError.
unfoldable pub gather : List ℕ → List ℕ → Result (List ℕ)
gather flat [] = ok []
gather flat (i ∷ targets) = do
  v ← or_index_error (get_elem? flat i)
  vs ← gather flat targets
  ok (v ∷ vs)

-- `flat[targets] = values`, after a read at the same positions has not failed.
unfoldable pub scatter : List ℕ → List ℕ → List ℕ → List ℕ
scatter flat (i ∷ targets) (v ∷ values) = scatter (set flat i v) targets values
scatter flat _ _ = flat
