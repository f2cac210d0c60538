-- ===== src/Packages/Sample.antt =====
-- Simple functions that meet the laws of the packages, so that the theorems that assume them can be
-- applied. They stand in for the real packages in tests only.
pub mod Bits
pub mod Files
pub mod Cipher
use mathlib.Core.List.{reverse, reverse_perm}
use what_a_secure_app_should.Base.{
  ℕ, zero, suc, ◌+◌, ◌-◌, ◌*◌, ◌/◌, ◌%◌, ◌^◌, ◌<◌, ◌≤◌, ◌≡◌, refl, ap, ◌∙◌, ◌⊎◌, inl, inr, Bool,
  true, false, List, [], ◌∷◌, ◌++◌, String, length, take, drop, map, arith, ltb, leb, le→leb, All,
  replicate, length-replicate, All-replicate, All-append, All-take, length-append, length-take,
  take-append, drop-append, if◌then◌else◌, ◌&&◌,
}
use what_a_secure_app_should.Base.Bytes.{Bytes, IsByte, IsBytes, bytes_eq, bytes_eq_iff}
use what_a_secure_app_should.Base.Outcome.{
  Exception, Result, ok, err, value_error, memory_error, invalid_tag, os_error,
}
use what_a_secure_app_should.Packages.{
  Mode, rgb, rgba, luminance, palette, other_mode, Image, IsRaster, HasShape, Numpy, NumpyLaws,
  Pillow, PillowLaws, Hashlib, Cryptography, CryptographyLaws, CryptographyErrors, Sealed, Derived,
  Packages, PackageLaws, Entropy, IsEntropy,
}
use what_a_secure_app_should.Packages.Sample.Bits.{sample_numpy, sample_numpy_laws}
use what_a_secure_app_should.Packages.Sample.Files.{sample_pillow, sample_pillow_laws}
use what_a_secure_app_should.Packages.Sample.Cipher.{sample_cryptography, sample_cryptography_laws}

abbrev pub sample_hashlib : Hashlib
sample_hashlib = record { sha256_digest = λ d. take 32 d; sha256_hexdigest = λ d. "digest" }

abbrev pub sample_packages : Packages
sample_packages = record {
  np = sample_numpy;
  pil = sample_pillow;
  sha = sample_hashlib;
  crypt = sample_cryptography;
}

pub sample_laws : PackageLaws sample_packages
sample_laws = record {
  numpy_laws = sample_numpy_laws;
  pillow_laws = sample_pillow_laws;
  cryptography_laws = sample_cryptography_laws;
}

-- Each call draws its own number, below 256 as a byte must be.
abbrev pub sample_draw : Entropy
sample_draw i n = replicate n (i % 256)

pub sample_draw-IsEntropy : IsEntropy sample_draw
sample_draw-IsEntropy = record {
  draw_size = λ i n. length-replicate n (i % 256);
  draw_IsBytes = λ i n. All-replicate IsByte n (i % 256) (omega arith);
}

-- An RGB image of 13 by 13 pixels, all of one grey: 507 channel bytes.
abbrev pub sample_image : Image
sample_image = record { mode = rgb; width = 13; height = 13; pixels = replicate 507 200 }

pub sample_image-IsRaster : IsRaster sample_image
sample_image-IsRaster =
    (All-replicate IsByte 507 200 (omega arith), length-replicate {A = ℕ} 507 200)
