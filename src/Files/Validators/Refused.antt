-- ===== src/Files/Validators/Refused.antt =====
-- What `validate_png` raises, whatever Pillow does.
use text.Mathlib.Text.{◌==◌ as str_eq}
use what_a_secure_app_should.Base.{
  ℕ, ◌*◌, ◌≡◌, refl, ◌⊎◌, inl, inr, Bool, true, false, not, ◌||◌, Bool-cases, String, length, ltb,
  ◌==◌, arith, if◌then◌else◌,
}
use what_a_secure_app_should.Base.Bytes.{Bytes}
use what_a_secure_app_should.Base.Outcome.{
  Exception, Result, ok, err, value_error, os_error, syntax_error, bomb_error,
  file_validation_error, ◌>>=◌, Result-cases,
}
use what_a_secure_app_should.Packages.{Image, Pillow}
use what_a_secure_app_should.Files.Validators.{
  png_magic, starts_with, allowed_mode, as_validation_error, try_decode, decode, check_image,
  validate_png,
}

-- DecompressionBombError, OSError, ValueError or SyntaxError.
abbrev pub IsDecoderError : Exception → Type 0
IsDecoderError bomb_error = Unit
IsDecoderError os_error = Unit
IsDecoderError value_error = Unit
IsDecoderError syntax_error = Unit
IsDecoderError _ = ⊥

-- A result that is an image or a FileValidationError.
abbrev pub IsValidated : Result Image → Type 0
IsValidated r =
    ((image : Image) × (r ≡ ok image))
    ⊎ ((code : String) × (message : String) × (r ≡ err (file_validation_error code message)))

IsValidated-if :
    (b : Bool) (x y : Result Image)
    → IsValidated x
    → IsValidated y
    → IsValidated (if b then x else y)
IsValidated-if true x y hx hy = hx
IsValidated-if false x y hx hy = hy

refused : (code message : String) → IsValidated (err (file_validation_error code message))
refused code message = inr (code, message, refl)

-- An exception of Pillow that is none of these, as the decoder block lets it through.
pub record Escapes (pil : Pillow) (limit : ℕ) (raw : Bytes) (r : Result Image) : Type 0 where
  pub error : Exception
  pub is_raised : r ≡ err error
  pub is_other : ¬ IsDecoderError error
  pub by_pillow :
      (pil.identify limit raw ≡ err error)
      ⊎ ((pil.verify limit raw ≡ err error) ⊎ (pil.load limit raw ≡ err error))

handled :
    (pil : Pillow) (limit : ℕ) (raw : Bytes) (e : Exception)
    → (pil.identify limit raw ≡ err e)
      ⊎ ((pil.verify limit raw ≡ err e) ⊎ (pil.load limit raw ≡ err e))
    → IsValidated (as_validation_error e) ⊎ Escapes pil limit raw (as_validation_error e)
handled pil limit raw bomb_error h = inl (refused "PIXEL_BOMB" "image too large to decode")
handled pil limit raw os_error h = inl (refused "MALFORMED" "image could not be decoded")
handled pil limit raw value_error h = inl (refused "MALFORMED" "image could not be decoded")
handled pil limit raw syntax_error h = inl (refused "MALFORMED" "image could not be decoded")
handled pil limit raw e h =
    inr (record { error = e; is_raised = refl; is_other = λ x. x; by_pillow = h })

decode_outcomes :
    (pil : Pillow) (limit : ℕ) (raw : Bytes)
    → IsValidated (decode pil limit raw) ⊎ Escapes pil limit raw (decode pil limit raw)
unfolding decode try_decode
decode_outcomes pil limit raw = elim (Result-cases (pil.identify limit raw)) [
  | inr (x, e) ↦ rw e (handled pil limit raw x (inl e))
  | inl (format, e) ↦ elim (Bool-cases (str_eq format "PNG")) [
    | inr other ↦ rw (e, other) (inl (refused "NOT_PNG" "decoder did not see a PNG"))
    | inl png ↦ elim (Result-cases (pil.verify limit raw)) [
      | inr (x, e') ↦ rw (e, png, e') (handled pil limit raw x (inr (inl e')))
      | inl (u, e') ↦ elim (Result-cases (pil.load limit raw)) [
        | inr (x, e'') ↦ rw (e, png, e', e'') (handled pil limit raw x (inr (inr e'')))
        | inl (image, e'') ↦ rw (e, png, e', e'') (inl (inl (image, refl)))
      ]
    ]
  ]
]

check_image-IsValidated :
    (max_dimension max_pixels : ℕ) (image : Image)
    → IsValidated (check_image max_dimension max_pixels image)
unfolding check_image
check_image-IsValidated md mp image =
    IsValidated-if (ltb md image.width || ltb md image.height) _ _ (refused "DIMENSIONS" _) (
      IsValidated-if (ltb mp (image.width * image.height)) _ _ (refused "PIXEL_BOMB" _) (
        IsValidated-if (not (allowed_mode image.mode)) _ _ (refused "COLOR_MODE" _)
          (inl (image, refl))))

-- Whatever Pillow does, `validate_png` returns an image, raises FileValidationError, or raises
-- an exception that is none of DecompressionBombError, OSError, ValueError and SyntaxError and
-- that Pillow raised when it identified, verified or loaded the upload under the pixel limit;
-- in every case the global pixel limit is what it was.
pub validate_png_outcomes :
    (pil : Pillow) (max_upload_bytes max_dimension max_pixels : ℕ) (raw : Bytes) (original_max : ℕ)
    → let (r, left) = validate_png pil max_upload_bytes max_dimension max_pixels raw original_max in
      (IsValidated r ⊎ Escapes pil max_pixels raw r) × (left ≡ original_max)
unfolding validate_png
validate_png_outcomes pil mu md mp raw original_max = elim (Bool-cases (length raw == 0)) [
  | inl empty ↦ rw empty (inl (refused "EMPTY_FILE" "empty upload"), refl)
  | inr some_bytes ↦ elim (Bool-cases (ltb mu (length raw))) [
    | inl large ↦
        rw (some_bytes, large) (inl (refused "FILE_TOO_LARGE" "upload exceeds size limit"), refl)
    | inr fits ↦ elim (Bool-cases (starts_with raw png_magic)) [
      | inr other ↦ rw (some_bytes, fits, other) (inl (refused "BAD_MAGIC" "not a PNG file"), refl)
      | inl magic ↦
          rw (some_bytes, fits, magic)
            (after (decode pil mp raw) (decode_outcomes pil mp raw), refl)
    ]
  ]
]
  where
    after :
        (r : Result Image)
        → IsValidated r ⊎ Escapes pil mp raw r
        → IsValidated (r >>= check_image md mp) ⊎ Escapes pil mp raw (r >>= check_image md mp)
    after (ok image) v = inl (check_image-IsValidated md mp image)
    after (err x) (inl (inl (image, e))) = absurd (ground arith)
    after (err x) (inl (inr (code, message, e))) = inl (inr (code, message, ground arith))
    after (err x) (inr w) = inr (record {
      error = w.error;
      is_raised = ground (arith, w.is_raised);
      is_other = w.is_other;
      by_pillow = w.by_pillow;
    })
