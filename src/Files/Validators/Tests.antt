-- ===== src/Files/Validators/Tests.antt =====
-- The theorems on uploads, applied to a decoder that reads every file as the small image, and to
-- one that fails.
use what_a_secure_app_should.Base.{[], ◌∷◌, ◌≡◌, ◌⊎◌, refl, ◌↔◌}
use what_a_secure_app_should.Base.Outcome.{ok, err, memory_error}
use what_a_secure_app_should.Packages.{Pillow}
use what_a_secure_app_should.Packages.Sample.{sample_image}
use what_a_secure_app_should.Packages.Sample.Files.{sample_convert, sample_save}
use what_a_secure_app_should.Files.Validators.{png_magic, validate_png}
use what_a_secure_app_should.Files.Validators.Threads.{
  Run, waiting, decoding, done, validations_overlap,
}
use what_a_secure_app_should.Files.Validators.Accepted.{IsSafe, validate_png_iff}
use what_a_secure_app_should.Files.Validators.Refused.{IsValidated, Escapes, validate_png_outcomes}

abbrev lenient : Pillow
lenient = record {
  convert = sample_convert;
  save_png = sample_save;
  identify = λ limit raw. ok "PNG";
  verify = λ limit raw. ok tt;
  load = λ limit raw. ok sample_image;
}

lenient_accepts : validate_png lenient 100 64 1000 png_magic 9 ≡ (ok sample_image, 9)
unfolding validate_png
lenient_accepts = refl

validate_png_iff_example :
    (validate_png lenient 100 64 1000 png_magic 9 ≡ (ok sample_image, 9))
    ↔ IsSafe lenient 100 64 1000 png_magic sample_image
validate_png_iff_example = validate_png_iff lenient 100 64 1000 png_magic 9 sample_image

-- A decoder that runs out of memory while it loads.
abbrev exhausted : Pillow
exhausted = record lenient { load = λ limit raw. err memory_error }

exhausted_raises : (validate_png exhausted 100 64 1000 png_magic 9).0 ≡ err memory_error
unfolding validate_png
exhausted_raises = refl

validate_png_outcomes_example :
    (IsValidated (validate_png exhausted 100 64 1000 png_magic 9).0
      ⊎ Escapes exhausted 1000 png_magic (validate_png exhausted 100 64 1000 png_magic 9).0)
    × ((validate_png exhausted 100 64 1000 png_magic 9).1 ≡ 9)
validate_png_outcomes_example = validate_png_outcomes exhausted 100 64 1000 png_magic 9

validations_overlap_example :
    Run 1000 (9, waiting ∷ waiting ∷ []) (9, decoding 9 ∷ done ∷ [])
    × Run 1000 (9, waiting ∷ waiting ∷ []) (1000, done ∷ done ∷ [])
validations_overlap_example = validations_overlap 1000 9
