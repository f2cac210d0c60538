-- ===== src/Steg/Capacity.antt =====
-- app/steganography/capacity.py
pub mod Laws
mod Tests
use what_a_secure_app_should.Base.{ℕ, ◌+◌, ◌-◌, ◌*◌, ◌/◌, Bool, leb, max}
use what_a_secure_app_should.Packages.{Mode, rgba, Image}
use what_a_secure_app_should.Crypto.Envelope.{header_len}

abbrev pub gcm_tag_bytes : ℕ
gcm_tag_bytes = 16

abbrev pub mode_channels : Mode → ℕ
mode_channels rgba = 4
mode_channels _ = 3

abbrev pub channel_count : Image → ℕ
channel_count image = mode_channels image.mode

unfoldable pub total_capacity_bytes : Image → ℕ
total_capacity_bytes image = image.width * image.height * channel_count image / 8

-- Python's difference may be negative, and `max(usable, 0)` is then 0, as subtraction on ℕ is.
unfoldable pub max_payload_bytes : Image → ℕ
unfolding total_capacity_bytes
max_payload_bytes image = total_capacity_bytes image - header_len - gcm_tag_bytes

unfoldable pub fits : Image → ℕ → Bool
unfolding max_payload_bytes
fits image payload_len = leb payload_len (max_payload_bytes image)
