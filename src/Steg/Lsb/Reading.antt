-- ===== src/Steg/Lsb/Reading.antt =====
-- The two regions of a stego image read back what was embedded.
use what_a_secure_app_should.Base.{◌+◌, ◌*◌, ◌≤◌, ◌≡◌, ap, length, arith, le→ltb}
use what_a_secure_app_should.Base.Bytes.{Bytes, IsBytes}
use what_a_secure_app_should.Base.Outcome.{ok}
use what_a_secure_app_should.Packages.{Image, Numpy, NumpyLaws, Pillow, Hashlib}
use what_a_secure_app_should.Crypto.Envelope.{Envelope}
use what_a_secure_app_should.Steg.Lsb.{
  header_bits, to_channels, perm_key, ciphertext_order, read_header_region, read_ciphertext_region,
}
use what_a_secure_app_should.Steg.Lsb.Carrier.{to_channels_id}
use what_a_secure_app_should.Steg.Lsb.Embedding.{room, Stego, order_size}

module _ {np : Numpy} {pil : Pillow} {sha : Hashlib} (laws : NumpyLaws np) (image : Image)
    (envelope : Envelope) (header : Bytes) (out : Image)
    (s : Stego np pil sha image envelope header out)
    (fit : header_bits + length envelope.ciphertext * 8 ≤ room pil image) where
  same_array : to_channels pil out ≡ out
  same_array = to_channels_id pil out s.has_channels

  pub read_header_region-Stego : IsBytes header → read_header_region np pil out ≡ ok header
  unfolding read_header_region
  read_header_region-Stego b =
      rw
        (
          same_array,
          le→ltb (length out.pixels) header_bits (omega (arith, s.same_size)),
          s.holds_header,
        )
        (ap ok (laws.packbits-unpackbits header b))

  -- No passphrase is needed to read the ciphertext back: its order comes from the public header.
  pub read_ciphertext_region-Stego :
      IsBytes envelope.ciphertext
      → read_ciphertext_region np pil sha out (perm_key envelope) (length envelope.ciphertext)
        ≡ ok envelope.ciphertext
  unfolding read_ciphertext_region
  read_ciphertext_region-Stego b =
      rw
        (
          same_array,
          s.same_size,
          le→ltb (length (ciphertext_order np sha (perm_key envelope) (room pil image)))
              (length envelope.ciphertext * 8)
              (omega (arith, order_size np pil sha image envelope laws (room pil image))),
          s.reads,
          s.holds_ciphertext,
        )
        (ap ok (laws.packbits-unpackbits envelope.ciphertext b))
