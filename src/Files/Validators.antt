-- ===== src/Files/Validators.antt =====
-- app/files/validators.py: the checks of an upload, from the cheap to the expensive ones.
pub mod Accepted
pub mod Refused
pub mod Threads
mod Tests
use text.Mathlib.Text.{◌==◌ as str_eq}
use what_a_secure_app_should.Base.{
  ℕ, ◌*◌, Bool, true, false, not, ◌||◌, ◌&&◌, String, List, [], ◌∷◌, length, ltb, ◌==◌,
  if◌then◌else◌,
}
use what_a_secure_app_should.Base.Bytes.{Bytes}
use what_a_secure_app_should.Base.Outcome.{
  Exception, Result, ok, err, value_error, os_error, syntax_error, bomb_error,
  file_validation_error, ◌>>=◌, ◌>>◌, catch,
}
use what_a_secure_app_should.Packages.{Mode, other_mode, Image, Pillow}

-- The limits of a call that names none.
abbrev pub default_max_upload_bytes : ℕ
default_max_upload_bytes = 10 * 1024 * 1024

abbrev pub default_max_dimension : ℕ
default_max_dimension = 4096

abbrev pub default_max_pixels : ℕ
default_max_pixels = 16_000_000

-- b"\x89PNG\r\n\x1a\n"
abbrev pub png_magic : Bytes
png_magic = 0x89 ∷ 0x50 ∷ 0x4E ∷ 0x47 ∷ 0x0D ∷ 0x0A ∷ 0x1A ∷ 0x0A ∷ []

-- `data.startswith(prefix)`
abbrev pub starts_with : Bytes → Bytes → Bool
starts_with bytes [] = true
starts_with [] (p ∷ prefix) = false
starts_with (b ∷ bytes) (p ∷ prefix) = (b == p) && starts_with bytes prefix

-- `mode in ALLOWED_MODES`
abbrev pub allowed_mode : Mode → Bool
allowed_mode (other_mode _) = false
allowed_mode _ = true

-- The `except` clauses of the decoder block; UnidentifiedImageError is an OSError.
abbrev pub as_validation_error : Exception → Result Image
as_validation_error bomb_error =
    err (file_validation_error "PIXEL_BOMB" "image too large to decode")
as_validation_error os_error = err (file_validation_error "MALFORMED" "image could not be decoded")
as_validation_error value_error =
    err (file_validation_error "MALFORMED" "image could not be decoded")
as_validation_error syntax_error =
    err (file_validation_error "MALFORMED" "image could not be decoded")
as_validation_error e = err e

-- The `try` block, under the global limit `Image.MAX_IMAGE_PIXELS`.
unfoldable pub try_decode : Pillow → ℕ → Bytes → Result Image
try_decode pil limit raw = do
  format ← pil.identify limit raw
  if not (str_eq format "PNG")
      then err (file_validation_error "NOT_PNG" "decoder did not see a PNG")
      else (pil.verify limit raw >> pil.load limit raw)

unfoldable pub decode : Pillow → ℕ → Bytes → Result Image
unfolding try_decode
decode pil limit raw = catch (try_decode pil limit raw) as_validation_error

-- The checks after the decoder.
unfoldable pub check_image : ℕ → ℕ → Image → Result Image
check_image max_dimension max_pixels image =
    if ltb max_dimension image.width || ltb max_dimension image.height
    then err (file_validation_error "DIMENSIONS" "image dimensions exceed limit")
    else if ltb max_pixels (image.width * image.height)
    then err (file_validation_error "PIXEL_BOMB" "decoded pixel count exceeds limit")
    else if not (allowed_mode image.mode)
    then err (file_validation_error "COLOR_MODE" "unsupported color mode")
    else ok image

-- The result, and the global limit: it is set to `max_pixels` for the decoder, and restored.
unfoldable pub validate_png : Pillow → ℕ → ℕ → ℕ → Bytes → ℕ → Result Image × ℕ
unfolding decode check_image
validate_png pil max_upload_bytes max_dimension max_pixels raw original_max =
    if length raw == 0
    then (err (file_validation_error "EMPTY_FILE" "empty upload"), original_max)
    else if ltb max_upload_bytes (length raw)
    then (err (file_validation_error "FILE_TOO_LARGE" "upload exceeds size limit"), original_max)
    else if not (starts_with raw png_magic)
    then (err (file_validation_error "BAD_MAGIC" "not a PNG file"), original_max)
    else (
      do image ← decode pil max_pixels raw; check_image max_dimension max_pixels image,
      original_max,
    )
