-- ===== src/Steg/Capacity/Tests.antt =====
-- The theorems on capacity, applied to the small image, which has room for one byte.
use what_a_secure_app_should.Base.{◌+◌, ◌*◌, ◌≤◌, ◌≡◌, refl, ◌⊎◌, ◌↔◌, true, ℕ}
use what_a_secure_app_should.Crypto.Envelope.{header_len}
use what_a_secure_app_should.Packages.Sample.{sample_image}
use what_a_secure_app_should.Steg.Capacity.{channel_count, fits, gcm_tag_bytes}
use what_a_secure_app_should.Steg.Capacity.Laws.{fits_iff}

fits_iff_example : (fits sample_image 1 ≡ true) ↔ (
    (◌≡◌ {A = ℕ} 1 0)
    ⊎ ((header_len + 1 + gcm_tag_bytes) * 8
        ≤ sample_image.height * sample_image.width * channel_count sample_image))
fits_iff_example = fits_iff sample_image 1

one_byte_fits : fits sample_image 1 ≡ true
unfolding fits
one_byte_fits = refl
