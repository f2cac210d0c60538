-- ===== src/Crypto/Struct.antt =====
-- Python's `struct` for a big-endian format without padding (">"): `ks` is a byte string of k bytes,
-- and `B`, `H`, `I` are unsigned integers of 1, 2 and 4 bytes.
pub mod Laws
use what_a_secure_app_should.Base.{
  ℕ, zero, suc, ◌+◌, ◌^◌, List, [], ◌∷◌, ◌++◌, length, take, drop, ltb, ◌==◌, if◌then◌else◌,
}
use what_a_secure_app_should.Base.Bytes.{Bytes, from_bytes, to_bytes}
use what_a_secure_app_should.Base.Outcome.{Result, ok, err, struct_error, ◌>>=◌}

pub data Field : Type 0 where
  text uint : ℕ → Field

-- The tuple that a format packs and unpacks, ended by `tt`.
abbrev pub Values : List Field → Type 0
Values [] = Unit
Values (text k ∷ fs) = Bytes × Values fs
Values (uint k ∷ fs) = ℕ × Values fs

abbrev pub width : Field → ℕ
width (text k) = k
width (uint k) = k

abbrev pub calcsize : List Field → ℕ
calcsize [] = 0
calcsize (f ∷ fs) = width f + calcsize fs

-- `ks`: truncated, or filled up with zeros, to k bytes.
unfoldable pub fixed : ℕ → Bytes → Bytes
fixed zero bs = []
fixed (suc k) [] = 0 ∷ fixed k []
fixed (suc k) (b ∷ bs) = b ∷ fixed k bs

-- An integer out of the range of its field is a struct.error.
unfoldable pub pack : (fs : List Field) → Values fs → Result Bytes
pack [] vs = ok []
pack (text k ∷ fs) vs = do rest ← pack fs vs.1; ok (fixed k vs.0 ++ rest)
pack (uint k ∷ fs) vs =
    if ltb vs.0 (256 ^ k)
    then (do rest ← pack fs vs.1; ok (to_bytes k vs.0 ++ rest))
    else err struct_error

unfoldable pub fields : (fs : List Field) → Bytes → Values fs
fields [] d = tt
fields (text k ∷ fs) d = (take k d, fields fs (drop k d))
fields (uint k ∷ fs) d = (from_bytes (take k d), fields fs (drop k d))

unfoldable pub unpack : (fs : List Field) → Bytes → Result (Values fs)
unfolding fields
unpack fs d = if length d == calcsize fs then ok (fields fs d) else err struct_error
