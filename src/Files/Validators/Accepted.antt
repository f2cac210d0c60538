-- ===== src/Files/Validators/Accepted.antt =====
-- What an accepted upload satisfies.
use text.Mathlib.Text.{◌==◌ as str_eq}
use text.Mathlib.TextEquality.{eq_iff}
use what_a_secure_app_should.Base.{
  ◌↔◌, ℕ, ◌*◌, ◌≤◌, ◌<◌, ◌≡◌, refl, ap, inl, inr, true, false, Bool-cases, length, ltb, ◌==◌, arith,
}
use what_a_secure_app_should.Base.Bytes.{Bytes}
use what_a_secure_app_should.Base.Outcome.{
  Exception, Result, ok, err, bomb_error, catch, Result-cases,
}
use what_a_secure_app_should.Packages.{Image, Pillow}
use what_a_secure_app_should.Files.Validators.{
  png_magic, starts_with, allowed_mode, as_validation_error, try_decode, validate_png,
}

-- The image of an accepted upload.
pub record IsSafe (pil : Pillow) (max_upload_bytes max_dimension max_pixels : ℕ) (raw : Bytes)
    (image : Image) : Type 0 where
  pub not_empty : 0 < length raw
  pub upload_size : length raw ≤ max_upload_bytes
  pub has_magic : starts_with raw png_magic ≡ true
  pub is_png : pil.identify max_pixels raw ≡ ok "PNG"
  pub verified : pil.verify max_pixels raw ≡ ok tt
  pub loaded : pil.load max_pixels raw ≡ ok image
  pub width_limit : image.width ≤ max_dimension
  pub height_limit : image.height ≤ max_dimension
  pub pixel_limit : image.width * image.height ≤ max_pixels
  pub mode_allowed : allowed_mode image.mode ≡ true

record Decoded (pil : Pillow) (limit : ℕ) (raw : Bytes) (image : Image) : Type 0 where
  identified : pil.identify limit raw ≡ ok "PNG"
  checked : pil.verify limit raw ≡ ok tt
  read : pil.load limit raw ≡ ok image

caught : (r : Result Image) (image : Image) → catch r as_validation_error ≡ ok image → r ≡ ok image
caught (ok a) image h = h
caught (err e) image h = absurd (never e h)
  where
    never : (e : Exception) → as_validation_error e ≡ ok image → ⊥
    never bomb_error h = cc
    never _ h = cc

try_decode_inv :
    (pil : Pillow) (limit : ℕ) (raw : Bytes) (image : Image)
    → try_decode pil limit raw ≡ ok image
    → Decoded pil limit raw image
unfolding try_decode
try_decode_inv pil limit raw image h = elim (Result-cases (pil.identify limit raw)) [
  | inr (x, e) ↦ absurd (ground arith)
  | inl (format, e) ↦ elim (Bool-cases (str_eq format "PNG")) [
    | inr other ↦ absurd (ground arith)
    | inl png ↦ elim (Result-cases (pil.verify limit raw)) [
      | inr (x, e') ↦ absurd (ground arith)
      | inl (u, e') ↦ record {
        identified = rw e (ap ok ((eq_iff format "PNG").0 png));
        checked = e';
        read = ground arith;
      }
    ]
  ]
]

-- An accepted upload is not empty, within the size limit, has the PNG magic, was identified,
-- verified and loaded under the pixel limit, and its image is within the dimension and pixel
-- limits and of an allowed mode.
pub validate_png-IsSafe :
    (pil : Pillow) (max_upload_bytes max_dimension max_pixels : ℕ) (raw : Bytes)
    (original_max left : ℕ) (image : Image)
    → validate_png pil max_upload_bytes max_dimension max_pixels raw original_max ≡ (ok image, left)
    → IsSafe pil max_upload_bytes max_dimension max_pixels raw image
unfolding validate_png
validate_png-IsSafe pil mu md mp raw original_max left image h =
    elim (Result-cases (catch (try_decode pil mp raw) as_validation_error)) [
      | inr (x, e) ↦ absurd (ground arith)
      | inl (found, e) ↦
          let same : found ≡ image = ground arith in
          let d =
            try_decode_inv pil mp raw image (caught (try_decode pil mp raw) image (rw same at e)) in
          record {
            not_empty = ground arith;
            upload_size = ground arith;
            has_magic = ground arith;
            is_png = d.identified;
            verified = d.checked;
            loaded = d.read;
            width_limit = ground arith;
            height_limit = ground arith;
            pixel_limit = ground arith;
            mode_allowed = ground arith;
          }
    ]

-- What has all these properties is accepted.
pub validate_png_of_IsSafe :
    (pil : Pillow) (max_upload_bytes max_dimension max_pixels : ℕ) (raw : Bytes) (original_max : ℕ)
    (image : Image)
    → IsSafe pil max_upload_bytes max_dimension max_pixels raw image
    → validate_png pil max_upload_bytes max_dimension max_pixels raw original_max
      ≡ (ok image, original_max)
unfolding validate_png try_decode
validate_png_of_IsSafe pil mu md mp raw original_max image s =
    let filled : (length raw == 0) ≡ false = ground (arith, s.not_empty) in
    let small : ltb mu (length raw) ≡ false = ground (arith, s.upload_size) in
    let width : ltb md image.width ≡ false = ground (arith, s.width_limit) in
    let height : ltb md image.height ≡ false = ground (arith, s.height_limit) in
    let area : ltb mp (image.width * image.height) ≡ false = ground (arith, s.pixel_limit) in
    rw
      (
        filled, small, s.has_magic, s.is_png, s.verified, s.loaded, width, height, area,
        s.mode_allowed,
      )
      refl

-- `validate_png` returns an image, the global pixel limit being as before, exactly if the
-- upload is not empty, within the size limit, has the PNG magic, was identified, verified and
-- loaded as that image under the pixel limit, and the image is within the dimension and pixel
-- limits and of an allowed mode.
pub validate_png_iff :
    (pil : Pillow) (max_upload_bytes max_dimension max_pixels : ℕ) (raw : Bytes) (original_max : ℕ)
    (image : Image)
    → (validate_png pil max_upload_bytes max_dimension max_pixels raw original_max
        ≡ (ok image, original_max))
      ↔ IsSafe pil max_upload_bytes max_dimension max_pixels raw image
validate_png_iff pil mu md mp raw original_max image = (
  validate_png-IsSafe pil mu md mp raw original_max original_max image,
  validate_png_of_IsSafe pil mu md mp raw original_max image,
)
