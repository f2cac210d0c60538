-- ===== src/Services/Images.antt =====
-- The image that `embed_payload` makes: what is kept of the carrier, and what anyone can read of it.
use what_a_secure_app_should.Base.{
  ◌^◌, ◌≤◌, ◌<◌, ◌≡◌, ◌∙◌, sym, true, some, ◌++◌, String, length, map, arith, le→leb,
}
use what_a_secure_app_should.Base.Bytes.{Bytes, IsBytes}
use what_a_secure_app_should.Base.Outcome.{ok}
use what_a_secure_app_should.Packages.{Image, IsRaster, Packages, PackageLaws, Entropy, IsEntropy}
use what_a_secure_app_should.Crypto.Aead.{decrypt}
use what_a_secure_app_should.Crypto.Kdf.{derive_key}
use what_a_secure_app_should.Crypto.Envelope.{ParsedHeader}
use what_a_secure_app_should.Crypto.Envelope.RoundTrip.{header_of}
use what_a_secure_app_should.Steg.Arrays.Bits.{high_bits}
use what_a_secure_app_should.Steg.Capacity.{total_capacity_bytes}
use what_a_secure_app_should.Steg.Lsb.{to_channels, perm_key, read_ciphertext_region}
use what_a_secure_app_should.Steg.Lsb.Carrier.{to_channels-IsCarrier, raster_size}
use what_a_secure_app_should.Steg.Lsb.Reading.{read_ciphertext_region-Stego}
use what_a_secure_app_should.Steg.Verifier.{verify}
use what_a_secure_app_should.Steg.Verifier.Reports.{read_header}
use what_a_secure_app_should.Services.{embed_payload}
use what_a_secure_app_should.Services.RoundTrip.{
  HasRoom, Embedding, embed_payload_lem, read_header-Stego,
}

-- An image of the carrier's mode and size that differs from it in lowest bits only.
pub record LooksLike (carrier out : Image) : Type 0 where
  pub same_mode : out.mode ≡ carrier.mode
  pub same_width : out.width ≡ carrier.width
  pub same_height : out.height ≡ carrier.height
  pub same_high_bits : map high_bits out.pixels ≡ map high_bits carrier.pixels

-- What somebody without the passphrase reads of an image.
pub record IsReadable (k : Packages) (out : Image) (payload : Bytes) (passphrase : String)
    : Type 0 where
  pub found : ParsedHeader
  pub ciphertext : Bytes
  pub key : Bytes
  pub header_found : read_header k out ≡ ok found
  pub ciphertext_found :
      read_ciphertext_region k.np k.pil k.sha out
        (found.salt ++ found.nonce)
        found.ciphertext_length
      ≡ ok ciphertext
  pub key_derived :
      derive_key k.crypt passphrase found.salt found.kdf_n found.kdf_r found.kdf_p ≡ ok key
  pub decrypted : decrypt k.crypt key found.nonce ciphertext ≡ ok payload

module _ (k : Packages) (draw : Entropy) (image : Image) (payload : Bytes) (passphrase : String)
    (laws : PackageLaws k) (entropy : IsEntropy draw) (raster : IsRaster image)
    (bytes : IsBytes payload) (small : length payload < 2 ^ 31)
    (wide : HasRoom image (length payload)) where
  embedding : Embedding k draw image payload passphrase
  embedding = embed_payload_lem k laws draw entropy image raster payload bytes small passphrase wide

  -- Where there is room, `embed_payload` returns the PNG of an image with the mode, the
  -- dimensions and the upper seven bits of every channel of the converted carrier. Assumed: the
  -- laws of the packages and of the entropy, a well-formed image, a byte payload below 2 ^ 31
  -- bytes.
  pub embed_payload-LooksLike :
      (out : Image) × (embed_payload k draw image payload passphrase ≡ ok (k.pil.save_png out))
      × LooksLike (to_channels k.pil image) out
  embed_payload-LooksLike =
      let e = embedding in
      let s = e.stego in
      let c = to_channels-IsCarrier laws.pillow_laws image raster in
      (
        e.out,
        e.returns,
        record {
          same_mode = s.same_mode ∙ sym c.same_mode;
          same_width = s.same_width ∙ sym c.same_width;
          same_height = s.same_height ∙ sym c.same_height;
          same_high_bits = s.keeps_high;
        },
      )

  -- Where there is room, `embed_payload` returns the PNG of an image from which the header and
  -- the ciphertext are read without the passphrase, and they are all that decryption needs
  -- beside it. Assumed: the laws of the packages and of the entropy, a well-formed image, a
  -- byte payload below 2 ^ 31 bytes.
  pub embed_payload-IsReadable :
      (out : Image) × (embed_payload k draw image payload passphrase ≡ ok (k.pil.save_png out))
      × IsReadable k out payload passphrase
  unfolding perm_key
  embed_payload-IsReadable =
      let e = embedding in
      (
        e.out,
        e.returns,
        record {
          found = header_of e.envelope;
          ciphertext = e.envelope.ciphertext;
          key = e.key;
          header_found =
              read_header-Stego k laws image e.envelope e.header e.out e.encodable
                e.ciphertext_IsBytes e.serializes e.header_IsBytes e.stego e.within;
          ciphertext_found =
              read_ciphertext_region-Stego laws.numpy_laws image e.envelope e.header e.out e.stego
                e.within e.ciphertext_IsBytes;
          key_derived = e.derives;
          decrypted = e.decrypts;
        },
      )

  capacity_of_out :
      (e : Embedding k draw image payload passphrase)
      → length e.envelope.ciphertext ≤ total_capacity_bytes e.out
  unfolding total_capacity_bytes
  capacity_of_out e =
      let s = e.stego in
      omega (arith, e.within, s.same_size, raster_size e.out s.has_channels s.is_raster)

  -- Where there is room, `embed_payload` returns the PNG of an image for which `verify` reports
  -- a detected payload, a valid envelope and version 1 of format and algorithm. Assumed: the
  -- laws of the packages and of the entropy, a well-formed image, a byte payload below 2 ^ 31
  -- bytes.
  pub verify-embed_payload :
      (out : Image) × (embed_payload k draw image payload passphrase ≡ ok (k.pil.save_png out))
      × (verify k out
          ≡ ok (record {
            compatible_payload_detected = true;
            envelope_structure_valid = true;
            reported_version = some 1;
            algorithm_version = some 1;
          }))
  unfolding verify
  verify-embed_payload =
      let e = embedding in
      (
        e.out,
        e.returns,
        rw (
          read_header-Stego k laws image e.envelope e.header e.out e.encodable e.ciphertext_IsBytes
              e.serializes e.header_IsBytes e.stego e.within,
          le→leb (length e.envelope.ciphertext) (total_capacity_bytes e.out) (capacity_of_out e),
          e.encodable.is_version,
          e.encodable.is_scrypt,
        ),
      )
