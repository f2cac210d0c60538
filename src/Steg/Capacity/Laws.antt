-- ===== src/Steg/Capacity/Laws.antt =====
-- The capacity that is announced is the room that `embed` finds, but for the empty payload.
use what_a_secure_app_should.Base.{
  ℕ, zero, suc, ◌+◌, ◌*◌, ◌≤◌, ◌≡◌, refl, ◌⊎◌, inl, inr, ◌↔◌, true, leb→le, le→leb, arith,
}
use what_a_secure_app_should.Packages.{Image}
use what_a_secure_app_should.Steg.Capacity.{
  channel_count, total_capacity_bytes, max_payload_bytes, fits, gcm_tag_bytes,
}
use what_a_secure_app_should.Crypto.Envelope.{header_len}

channels_of_area : (w h c : ℕ) → h * w * c ≡ w * h * c
channels_of_area w h c = omega arith

-- Where the image has as many lowest bits as the header, the payload and the tag have bits,
-- `fits` accepts the length of the payload.
pub fits_of_room :
    (image : Image) (n : ℕ)
    → (header_len + n + gcm_tag_bytes) * 8 ≤ image.height * image.width * channel_count image
    → fits image n ≡ true
unfolding fits total_capacity_bytes
fits_of_room image n h =
    le→leb n _ (omega (arith, channels_of_area image.width image.height (channel_count image)))

-- Where `fits` accepts a length other than 0, the image has as many lowest bits as the header,
-- the payload and the tag have bits.
pub room_of_fits :
    (image : Image) (n : ℕ)
    → fits image (suc n) ≡ true
    → (header_len + suc n + gcm_tag_bytes) * 8 ≤ image.height * image.width * channel_count image
unfolding fits total_capacity_bytes
room_of_fits image n h =
    omega
      (arith, leb→le (suc n) _ h, channels_of_area image.width image.height (channel_count image))

pub fits_zero : (image : Image) → fits image 0 ≡ true
unfolding fits
fits_zero image = le→leb 0 (max_payload_bytes image) (omega arith)

-- `fits` accepts a length exactly if it is 0 or the image has as many lowest bits as the
-- header, a payload of that length and the tag have bits.
pub fits_iff :
    (image : Image) (n : ℕ)
    → (fits image n ≡ true) ↔ (
        (n ≡ 0)
        ⊎ ((header_len + n + gcm_tag_bytes) * 8 ≤ image.height * image.width * channel_count image))
fits_iff image zero = ((λ h. inl refl), λ h. fits_zero image)
fits_iff image (suc n) = (
  (λ h. inr (room_of_fits image n h)),
  λ r. elim r [ inl e ↦ absurd (omega (arith, e)) | inr h ↦ fits_of_room image (suc n) h ],
)
