-- ===== src/Steg/Verifier/Reports.antt =====
-- What `verify` reports, of any image and of an embedded one, and what its report leaves open.
use what_a_secure_app_should.Base.{
  ℕ, ◌+◌, ◌*◌, ◌≤◌, ◌<◌, ◌≡◌, ◌⊎◌, inl, inr, true, false, Bool-cases, ◌++◌, String, none, some,
  length, take, map, arith, leb, ltb, le→leb, lt→ltb,
}
use what_a_secure_app_should.Base.Bytes.{Bytes}
use what_a_secure_app_should.Base.Outcome.{
  Exception, Result, ok, err, envelope_error, capacity_error, extraction_error, ◌>>=◌,
}
use what_a_secure_app_should.Packages.{Image, Packages, NumpyLaws}
use what_a_secure_app_should.Crypto.Envelope.{ParsedHeader, parse_header}
use what_a_secure_app_should.Crypto.Envelope.RoundTrip.{parse_header_outcomes}
use what_a_secure_app_should.Steg.Arrays.{lsb}
use what_a_secure_app_should.Steg.Capacity.{total_capacity_bytes}
use what_a_secure_app_should.Steg.Permutation.Laws.{length-permuted_positions}
use what_a_secure_app_should.Steg.Lsb.{
  header_bits, to_channels, ciphertext_order, read_header_region, read_ciphertext_region,
}
use what_a_secure_app_should.Steg.Lsb.Embedding.{room}
use what_a_secure_app_should.Steg.Extractor.{open_ciphertext, extract, try_extract, generic_message}
use what_a_secure_app_should.Steg.Verifier.{nothing_found, verify}

-- The header that an image seems to carry.
abbrev pub read_header : Packages → Image → Result ParsedHeader
read_header k image = do raw ← read_header_region k.np k.pil image; parse_header raw

read_header_region_outcomes :
    (k : Packages) (image : Image)
    → ((raw : Bytes) × (read_header_region k.np k.pil image ≡ ok raw))
      ⊎ (read_header_region k.np k.pil image
          ≡ err (capacity_error "image too small to contain a header"))
unfolding read_header_region
read_header_region_outcomes k image =
    elim (Bool-cases (ltb (length (to_channels k.pil image).pixels) header_bits)) [
      | inl small ↦ inr (rw small)
      | inr large ↦
          inl
            (k.np.packbits (map lsb (take header_bits (to_channels k.pil image).pixels)), rw large)
    ]

read_header_outcomes :
    (k : Packages) (image : Image)
    → ((p : ParsedHeader) × (read_header k image ≡ ok p))
      ⊎ ((e : Exception) × (read_header k image ≡ err e) × (verify k image ≡ ok nothing_found))
unfolding verify
read_header_outcomes k image = elim (read_header_region_outcomes k image) [
  | inr small ↦ inr (capacity_error "image too small to contain a header", rw small, rw small)
  | inl (raw, e) ↦ elim (parse_header_outcomes raw) [
    | inl (p, parsed) ↦ inl (p, rw e parsed)
    | inr (m, bad) ↦ inr (envelope_error m, rw e bad, rw (e, bad))
  ]
]

-- `verify` never raises. Where the header is read and parsed, it reports a payload, the version
-- and the key derivation of that header, and a valid structure exactly if the declared length
-- is at most the whole capacity of the image; where reading or parsing raises, it reports no
-- payload, no valid structure and no versions.
pub verify_outcomes :
    (k : Packages) (image : Image)
    → ((p : ParsedHeader) × (read_header k image ≡ ok p)
        × (verify k image
            ≡ ok (record {
              compatible_payload_detected = true;
              envelope_structure_valid = leb p.ciphertext_length (total_capacity_bytes image);
              reported_version = some p.version;
              algorithm_version = some p.kdf_id;
            })))
      ⊎ ((e : Exception) × (read_header k image ≡ err e)
          × (verify k image
              ≡ ok (record {
                compatible_payload_detected = false;
                envelope_structure_valid = false;
                reported_version = none;
                algorithm_version = none;
              })))
verify_outcomes k image = elim (read_header_outcomes k image) [
  | inl (p, e) ↦ inl (p, e, unfold verify in rw e)
  | inr nothing ↦ inr nothing
]

too_long :
    (k : Packages) (image : Image) (key : Bytes) (n : ℕ)
    → NumpyLaws k.np
    → room k.pil image < header_bits + n * 8
    → header_bits ≤ room k.pil image
    → read_ciphertext_region k.np k.pil k.sha image key n
      ≡ err (capacity_error "declared ciphertext length exceeds image")
unfolding read_ciphertext_region ciphertext_order
too_long k image key n laws big long = rw (
    lt→ltb (length (ciphertext_order k.np k.sha key (room k.pil image))) (n * 8)
      (omega (arith, length-permuted_positions laws k.sha key header_bits (room k.pil image))))

read_long :
    (k : Packages) (image : Image) (p : ParsedHeader)
    → read_header k image ≡ ok p
    → header_bits ≤ room k.pil image
unfolding read_header_region
read_long k image p h = ground arith

-- `extract` on an image whose header was read: the ciphertext, the key and the decryption.
pub try_extract_of_header :
    (k : Packages) (image : Image) (passphrase : String) (p : ParsedHeader)
    → read_header k image ≡ ok p
    → try_extract k image passphrase ≡ (
        read_ciphertext_region k.np k.pil k.sha image (p.salt ++ p.nonce) p.ciphertext_length
        >>= λ ct. open_ciphertext k p ct passphrase)
unfolding try_extract
try_extract_of_header k image passphrase p h = elim (read_header_region_outcomes k image) [
  | inr small ↦ absurd (ground arith)
  | inl (raw, e) ↦ let parsed : parse_header raw ≡ ok p = rw e at h in rw (e, parsed)
]

-- A header whose declared ciphertext is at most as long as the whole capacity of the image, but
-- longer than what is left behind the header, is reported by `verify` as a valid envelope, and
-- `extract` fails on it with every passphrase. Assumed: the laws of numpy.
pub verify_accepts_unreadable :
    (k : Packages) (image : Image) (passphrase : String) (p : ParsedHeader)
    → NumpyLaws k.np
    → read_header k image ≡ ok p
    → p.ciphertext_length ≤ total_capacity_bytes image
    → room k.pil image < header_bits + p.ciphertext_length * 8
    → (verify k image
        ≡ ok (record {
          compatible_payload_detected = true;
          envelope_structure_valid = true;
          reported_version = some p.version;
          algorithm_version = some p.kdf_id;
        }))
      × (extract k image passphrase ≡ err (extraction_error generic_message))
unfolding verify extract
verify_accepts_unreadable k image passphrase p laws h short long = (
  rw (h, le→leb p.ciphertext_length (total_capacity_bytes image) short),
  rw (
    try_extract_of_header k image passphrase p h,
    too_long k image (p.salt ++ p.nonce) p.ciphertext_length laws long (read_long k image p h),
  ),
)
