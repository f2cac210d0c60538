-- ===== src/Crypto/Struct/Laws.antt =====
-- `pack` and `unpack` are inverse to one another.
use what_a_secure_app_should.Base.{
  ℕ, zero, suc, ◌^◌, ◌<◌, ◌≡◌, refl, ap, List, [], ◌∷◌, ◌++◌, length, take, drop, arith, lt→ltb,
  ==_iff, All-append, All-take, All-drop, length-append, length-take, length-drop, take-append,
  drop-append, take-append-drop,
}
use what_a_secure_app_should.Base.Bytes.{
  Bytes, IsByte, IsBytes, to_bytes, length-to_bytes, from_bytes-to_bytes, to_bytes-from_bytes,
  to_bytes-IsBytes, from_bytes_lt,
}
use what_a_secure_app_should.Base.Outcome.{ok}
use what_a_secure_app_should.Crypto.Struct.{
  Field, text, uint, Values, calcsize, fixed, pack, fields, unpack,
}

pub length-fixed : (k : ℕ) (bs : Bytes) → length (fixed k bs) ≡ k
unfolding fixed
length-fixed zero bs = refl
length-fixed (suc k) [] = ap suc (length-fixed k [])
length-fixed (suc k) (b ∷ bs) = ap suc (length-fixed k bs)

pub fixed_id : (k : ℕ) (bs : Bytes) → length bs ≡ k → fixed k bs ≡ bs
unfolding fixed
fixed_id zero [] h = refl
fixed_id zero (b ∷ bs) h = absurd (omega arith)
fixed_id (suc k) [] h = absurd (omega arith)
fixed_id (suc k) (b ∷ bs) h = ap (◌∷◌ b) (fixed_id k bs (omega arith))

pub fixed-IsBytes : (k : ℕ) (bs : Bytes) → IsBytes bs → IsBytes (fixed k bs)
unfolding fixed
fixed-IsBytes zero bs h = tt
fixed-IsBytes (suc k) [] h = (omega arith, fixed-IsBytes k [] h)
fixed-IsBytes (suc k) (b ∷ bs) h = (h.0, fixed-IsBytes k bs h.1)

-- The values that a format holds without loss: byte strings of the exact width, integers in range.
abbrev pub Fits : (fs : List Field) → Values fs → Type 0
Fits [] vs = Unit
Fits (text k ∷ fs) vs = (length vs.0 ≡ k) × IsBytes vs.0 × Fits fs vs.1
Fits (uint k ∷ fs) vs = (vs.0 < 256 ^ k) × Fits fs vs.1

-- What packing produces, on values that fit.
abbrev pub layout : (fs : List Field) → Values fs → Bytes
layout [] vs = []
layout (text k ∷ fs) vs = vs.0 ++ layout fs vs.1
layout (uint k ∷ fs) vs = to_bytes k vs.0 ++ layout fs vs.1

pub pack-layout : (fs : List Field) (vs : Values fs) → Fits fs vs → pack fs vs ≡ ok (layout fs vs)
unfolding pack
pack-layout [] vs h = refl
pack-layout (text k ∷ fs) vs h = rw (pack-layout fs vs.1 h.2, fixed_id k vs.0 h.0)
pack-layout (uint k ∷ fs) vs h = rw (lt→ltb vs.0 (256 ^ k) h.0, pack-layout fs vs.1 h.1)

pub length-layout :
    (fs : List Field) (vs : Values fs) → Fits fs vs → length (layout fs vs) ≡ calcsize fs
length-layout [] vs h = refl
length-layout (text k ∷ fs) vs h =
    omega (arith, length-append vs.0 (layout fs vs.1), length-layout fs vs.1 h.2)
length-layout (uint k ∷ fs) vs h = omega (
  arith,
  length-append (to_bytes k vs.0) (layout fs vs.1),
  length-to_bytes k vs.0,
  length-layout fs vs.1 h.1,
)

pub layout-IsBytes : (fs : List Field) (vs : Values fs) → Fits fs vs → IsBytes (layout fs vs)
layout-IsBytes [] vs h = tt
layout-IsBytes (text k ∷ fs) vs h =
    All-append IsByte vs.0 (layout fs vs.1) h.1 (layout-IsBytes fs vs.1 h.2)
layout-IsBytes (uint k ∷ fs) vs h =
    All-append IsByte (to_bytes k vs.0) (layout fs vs.1) (to_bytes-IsBytes k vs.0 h.0)
      (layout-IsBytes fs vs.1 h.1)

pub fields-layout : (fs : List Field) (vs : Values fs) → Fits fs vs → fields fs (layout fs vs) ≡ vs
unfolding fields
fields-layout [] vs h = refl
fields-layout (text k ∷ fs) vs h =
    rw (take-append k vs.0 (layout fs vs.1) h.0, drop-append k vs.0 (layout fs vs.1) h.0)
      (rw (fields-layout fs vs.1 h.2))
fields-layout (uint k ∷ fs) vs h =
    rw
      (
        take-append k (to_bytes k vs.0) (layout fs vs.1) (length-to_bytes k vs.0),
        drop-append k (to_bytes k vs.0) (layout fs vs.1) (length-to_bytes k vs.0),
        from_bytes-to_bytes k vs.0 h.0,
      )
      (rw (fields-layout fs vs.1 h.1))

-- Of a packed tuple `unpack` returns the values.
pub unpack-layout :
    (fs : List Field) (vs : Values fs) → Fits fs vs → unpack fs (layout fs vs) ≡ ok vs
unfolding unpack
unpack-layout fs vs h =
    rw ((==_iff (length (layout fs vs)) (calcsize fs)).1 (length-layout fs vs h))
      (ap ok (fields-layout fs vs h))

-- What stands in a byte string of the format's size fits, and packs to that string again.
pub fields-Fits :
    (fs : List Field) (d : Bytes) → length d ≡ calcsize fs → IsBytes d → Fits fs (fields fs d)
unfolding fields
fields-Fits [] d e h = tt
fields-Fits (text k ∷ fs) d e h = (
  omega (arith, length-take k d),
  All-take IsByte k d h,
  fields-Fits fs (drop k d) (omega (arith, length-drop k d)) (All-drop IsByte k d h),
)
fields-Fits (uint k ∷ fs) d e h = (
  (let wide : length (take k d) ≡ k = omega (arith, length-take k d) in
      rw wide at (from_bytes_lt (take k d) (All-take IsByte k d h))),
  fields-Fits fs (drop k d) (omega (arith, length-drop k d)) (All-drop IsByte k d h),
)

pub layout-fields :
    (fs : List Field) (d : Bytes) → length d ≡ calcsize fs → IsBytes d → layout fs (fields fs d) ≡ d
unfolding fields
layout-fields [] [] e h = refl
layout-fields [] (b ∷ d) e h = absurd (omega arith)
layout-fields (text k ∷ fs) d e h =
    rw (layout-fields fs (drop k d) (omega (arith, length-drop k d)) (All-drop IsByte k d h))
      (take-append-drop k d)
layout-fields (uint k ∷ fs) d e h =
    rw
      (
        layout-fields fs (drop k d) (omega (arith, length-drop k d)) (All-drop IsByte k d h),
        to_bytes-from_bytes k (take k d) (omega (arith, length-take k d)) (All-take IsByte k d h),
      )
      (take-append-drop k d)
