-- ===== src/Files/Validators/Threads.antt =====
-- app/files/validators.py: validations in the threads of one process, which share
-- `Image.MAX_IMAGE_PIXELS`. The steps of a validation are its accesses to it.
use what_a_secure_app_should.Base.{ℕ, List, [], ◌∷◌}

-- Where a validation is: before `original_max = Image.MAX_IMAGE_PIXELS`, behind it, in the `try` block
-- with the decoder, or past the `finally`. The number is its `original_max`.
pub data Phase : Type 0 where
  waiting done : Phase
  saved decoding : (original_max : ℕ) → Phase

-- One step of one validation with the limit `max_pixels`, and the global before and after it.
pub data Access (max_pixels : ℕ) : ℕ × Phase → ℕ × Phase → Type 0 where
  saves : {global : ℕ} → Access max_pixels (global, waiting) (global, saved global)
  sets :
      {global original_max : ℕ}
      → Access max_pixels (global, saved original_max) (max_pixels, decoding original_max)
  restores :
      {global original_max : ℕ}
      → Access max_pixels (global, decoding original_max) (original_max, done)

-- One step of one of the threads.
pub data Interleaved (max_pixels : ℕ) : ℕ × List Phase → ℕ × List Phase → Type 0 where
  first :
      {global global' : ℕ} {phase phase' : Phase} {others : List Phase}
      → Access max_pixels (global, phase) (global', phase')
      → Interleaved max_pixels (global, phase ∷ others) (global', phase' ∷ others)
  other :
      {global global' : ℕ} {phase : Phase} {others others' : List Phase}
      → Interleaved max_pixels (global, others) (global', others')
      → Interleaved max_pixels (global, phase ∷ others) (global', phase ∷ others')

-- Any interleaving of the threads.
pub data Run (max_pixels : ℕ) (start : ℕ × List Phase) : ℕ × List Phase → Type 0 where
  still : Run max_pixels start start
  next :
      {before after : ℕ × List Phase}
      → Run max_pixels start before
      → Interleaved max_pixels before after
      → Run max_pixels start after

-- Whatever the pixel limit of two validations and the global limit before them, there is an
-- order of their accesses to the global in which the first decodes under the global limit from
-- before, and one in which both are done and the global is left at the limit of the
-- validations.
pub validations_overlap :
    (max_pixels original : ℕ)
    → Run max_pixels (original, waiting ∷ waiting ∷ []) (original, decoding original ∷ done ∷ [])
      × Run max_pixels (original, waiting ∷ waiting ∷ []) (max_pixels, done ∷ done ∷ [])
validations_overlap max_pixels original = (
  -- The second ends while the first decodes.
  next
      (next (next (next (next still (first saves)) (other (first saves))) (other (first sets)))
        (first sets))
      (other (first restores)),
  -- The second has saved the limit of the first, and restores it last.
  next
      (next
        (next (next (next (next still (first saves)) (first sets)) (other (first saves)))
          (first restores))
        (other (first sets)))
      (other (first restores)),
)
