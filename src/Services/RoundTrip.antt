-- ===== src/Services/RoundTrip.antt =====
-- What is embedded is extracted again with the same passphrase.
use mathlib.Core.List.{append-nil}
use what_a_secure_app_should.Base.{
  ℕ, ◌+◌, ◌*◌, ◌^◌, ◌≤◌, ◌<◌, ◌≡◌, refl, ◌∙◌, [], String, length, arith, true, Bool-cases, inl, inr,
}
use what_a_secure_app_should.Base.Bytes.{Bytes, IsBytes}
use what_a_secure_app_should.Base.Text.{utf8}
use what_a_secure_app_should.Base.Outcome.{ok, err, capacity_error, ◌>>=◌}
use what_a_secure_app_should.Packages.{
  Image, IsRaster, Packages, PackageLaws, Entropy, IsEntropy, Sealed, Derived,
}
use what_a_secure_app_should.Crypto.Aead.{encrypt, decrypt}
use what_a_secure_app_should.Crypto.Envelope.{Envelope, header_len, header_bytes, parse_header}
use what_a_secure_app_should.Crypto.Envelope.RoundTrip.{
  IsEncodable, header_of, header_bytes_lem, parse_header-header_bytes,
}
use what_a_secure_app_should.Crypto.Kdf.{generate_salt, derive_key, scrypt_n, scrypt_r, scrypt_p}
use what_a_secure_app_should.Steg.Capacity.{fits, channel_count, gcm_tag_bytes}
use what_a_secure_app_should.Steg.Capacity.Laws.{fits_of_room}
use what_a_secure_app_should.Steg.Lsb.{header_bits, perm_key, embed}
use what_a_secure_app_should.Steg.Lsb.Carrier.{carrier_size}
use what_a_secure_app_should.Steg.Lsb.Embedding.{
  room, Stego, embed_image_lem, embed_image_too_large,
}
use what_a_secure_app_should.Steg.Lsb.Reading.{
  read_header_region-Stego, read_ciphertext_region-Stego,
}
use what_a_secure_app_should.Steg.Extractor.{open_ciphertext, try_extract, extract}
use what_a_secure_app_should.Steg.Verifier.Reports.{read_header, try_extract_of_header}
use what_a_secure_app_should.Services.{envelope_for, embed_payload, extract_payload}

-- The header of a stego image, and with it the whole of `try_extract`.
module _ (k : Packages) (laws : PackageLaws k) (image : Image) (envelope : Envelope)
    (header : Bytes) (out : Image) (c : IsEncodable envelope)
    (ct_bytes : IsBytes envelope.ciphertext) (eh : header_bytes envelope ≡ ok header)
    (hb : IsBytes header) (s : Stego k.np k.pil k.sha image envelope header out)
    (fit : header_bits + length envelope.ciphertext * 8 ≤ room k.pil image) where
  parsed : parse_header header ≡ ok (header_of envelope)
  parsed = rw (eh, append-nil) at (parse_header-header_bytes envelope [] c)

  pub read_header-Stego : read_header k out ≡ ok (header_of envelope)
  read_header-Stego =
      rw (read_header_region-Stego laws.numpy_laws image envelope header out s fit hb) parsed

  pub try_extract-Stego :
      (passphrase : String)
      → try_extract k out passphrase
        ≡ open_ciphertext k (header_of envelope) envelope.ciphertext passphrase
  unfolding perm_key
  try_extract-Stego passphrase =
      try_extract_of_header k out passphrase (header_of envelope) read_header-Stego
      ∙ rw (read_ciphertext_region-Stego laws.numpy_laws image envelope header out s fit ct_bytes)

-- Room for the header, the payload and the tag.
abbrev pub HasRoom : Image → ℕ → Type 0
HasRoom image n =
    (header_len + n + gcm_tag_bytes) * 8 ≤ image.height * image.width * channel_count image

-- The parts of one successful embedding.
pub record Embedding (k : Packages) (draw : Entropy) (image : Image) (payload : Bytes)
    (passphrase : String) : Type 0 where
  pub envelope : Envelope
  pub header : Bytes
  pub out : Image
  pub key : Bytes
  pub encodable : IsEncodable envelope
  pub ciphertext_IsBytes : IsBytes envelope.ciphertext
  pub header_IsBytes : IsBytes header
  pub serializes : header_bytes envelope ≡ ok header
  pub within : header_bits + length envelope.ciphertext * 8 ≤ room k.pil image
  pub stego : Stego k.np k.pil k.sha image envelope header out
  pub derives :
      derive_key k.crypt passphrase envelope.salt envelope.kdf_n envelope.kdf_r envelope.kdf_p
      ≡ ok key
  pub decrypts : decrypt k.crypt key envelope.nonce envelope.ciphertext ≡ ok payload
  pub returns : embed_payload k draw image payload passphrase ≡ ok (k.pil.save_png out)

module _ (k : Packages) (laws : PackageLaws k) (draw : Entropy) (entropy : IsEntropy draw)
    (image : Image) (raster : IsRaster image) (payload : Bytes) (bytes : IsBytes payload)
    (small : length payload < 2 ^ 31) (passphrase : String) where
  abbrev derived : Derived k.crypt (draw 0 16) (utf8 passphrase) scrypt_n scrypt_r scrypt_p
  derived =
      laws.cryptography_laws.scrypt_derives (draw 0 16) (utf8 passphrase) (entropy.draw_size 0 16)

  abbrev sealing : Sealed k.crypt derived.key (draw 1 12) payload
  sealing =
      laws.cryptography_laws.aes_seals derived.key (draw 1 12) payload derived.key_size
        derived.key_bytes (entropy.draw_size 1 12) bytes small

  abbrev made : Envelope
  made = envelope_for (draw 0 16) (draw 1 12) sealing.sealed

  made-IsEncodable : IsEncodable made
  made-IsEncodable = record {
    salt_size = entropy.draw_size 0 16;
    salt_IsBytes = entropy.draw_IsBytes 0 16;
    nonce_size = entropy.draw_size 1 12;
    nonce_IsBytes = entropy.draw_IsBytes 1 12;
    length_fits = omega (arith, sealing.tagged);
    n_fits = omega arith;
    r_fits = omega arith;
    p_fits = omega arith;
    is_version = refl;
    is_scrypt = refl;
  }

  -- Up to the image, `embed_payload` is key derivation, encryption and `embed`.
  embed_payload_of_fits :
      fits image (length payload) ≡ true
      → embed_payload k draw image payload passphrase ≡ embed k.np k.pil k.sha image made
  unfolding embed_payload generate_salt derive_key encrypt
  embed_payload_of_fits h = rw (h, derived.derives, sealing.encrypts)

  pub embed_payload_lem : HasRoom image (length payload) → Embedding k draw image payload passphrase
  unfolding embed derive_key decrypt
  embed_payload_lem wide =
      let (header, eh, hsize, hbytes) = header_bytes_lem made made-IsEncodable in
      let within : header_bits + length made.ciphertext * 8 ≤ room k.pil image =
        omega (arith, sealing.tagged, carrier_size laws.pillow_laws image raster) in
      let (out, s) =
        embed_image_lem k.np k.pil k.sha image made laws.numpy_laws header laws.pillow_laws raster
          eh hsize within in
      record {
        envelope = made;
        header = header;
        out = out;
        key = derived.key;
        encodable = made-IsEncodable;
        ciphertext_IsBytes = sealing.are_bytes;
        header_IsBytes = hbytes;
        serializes = eh;
        within = within;
        stego = s;
        derives = derived.derives;
        decrypts = rw sealing.decrypts;
        returns = embed_payload_of_fits (fits_of_room image (length payload) wide) ∙ rw s.embeds;
      }

  -- From the image that was made, the payload is extracted.
  pub extract-embedded :
      (e : Embedding k draw image payload passphrase)
      → extract_payload k e.out passphrase ≡ ok payload
  unfolding extract_payload extract open_ciphertext
  extract-embedded e = rw (
    try_extract-Stego k laws image e.envelope e.header e.out e.encodable e.ciphertext_IsBytes
        e.serializes e.header_IsBytes e.stego e.within passphrase,
    e.derives,
    e.decrypts,
  )

-- A payload for which the image has room for header, payload and tag is embedded, and from the
-- PNG, loaded again, `extract_payload` with the same passphrase returns exactly it. Assumed:
-- the laws of the packages and of the entropy, a well-formed image, a byte payload below 2 ^ 31
-- bytes, and an image within the pixel limit of the load.
pub extract_payload-embed_payload :
    (k : Packages) (draw : Entropy) (image : Image) (payload : Bytes) (passphrase : String)
    (limit : ℕ)
    → PackageLaws k
    → IsEntropy draw
    → IsRaster image
    → IsBytes payload
    → length payload < 2 ^ 31
    → HasRoom image (length payload)
    → image.width * image.height ≤ limit
    → (embed_payload k draw image payload passphrase >>= λ png.
        k.pil.load limit png >>= λ reloaded. extract_payload k reloaded passphrase)
      ≡ ok payload
extract_payload-embed_payload k draw image payload passphrase limit laws entropy raster bytes small
      wide size =
    let e =
      embed_payload_lem k laws draw entropy image raster payload bytes small passphrase wide in
    let s = e.stego in
    rw
      (
        e.returns,
        laws.pillow_laws.load-save_png limit e.out s.is_raster s.has_channels
            (rw (s.same_width, s.same_height) size),
      )
      (extract-embedded k laws draw entropy image raster payload bytes small passphrase e)

-- Where the image has no room for header, payload and tag, the empty payload included,
-- `embed_payload` raises CapacityError. Assumed: the laws of the packages and of the entropy, a
-- well-formed image, a byte payload below 2 ^ 31 bytes.
pub embed_payload_refused :
    (k : Packages) (draw : Entropy) (image : Image) (payload : Bytes) (passphrase : String)
    → PackageLaws k
    → IsEntropy draw
    → IsRaster image
    → IsBytes payload
    → length payload < 2 ^ 31
    → ¬ HasRoom image (length payload)
    → embed_payload k draw image payload passphrase
      ≡ err (capacity_error "payload exceeds image capacity")
embed_payload_refused k draw image payload passphrase laws entropy raster bytes small full =
    elim (Bool-cases (fits image (length payload))) [
      | inr unfit ↦ unfold embed_payload in rw unfit
      | inl fit ↦
          let env = made k laws draw entropy image raster payload bytes small passphrase in
          let c =
            made-IsEncodable k laws draw entropy image raster payload bytes small passphrase in
          let sealed = sealing k laws draw entropy image raster payload bytes small passphrase in
          let (header, eh, _, _) = header_bytes_lem env c in
          embed_payload_of_fits k laws draw entropy image raster payload bytes small passphrase fit
          ∙ unfold embed in
            rw (
              embed_image_too_large k.np k.pil k.sha image env laws.numpy_laws header eh
                (omega (arith, sealed.tagged, carrier_size laws.pillow_laws image raster)))
    ]
