-- ===== src/Steg/Tests.antt =====
-- The theorems on extraction failures and on verification, applied to small images.
use what_a_secure_app_should.Base.{
  ℕ, ◌+◌, ◌*◌, ◌^◌, ◌≤◌, ◌<◌, ◌≡◌, ◌⊎◌, refl, true, false, none, some, [], ◌∷◌, ◌++◌, replicate,
  length, leb, arith,
}
use what_a_secure_app_should.Base.Bytes.{Bytes, from_bytes}
use what_a_secure_app_should.Base.Outcome.{
  Exception, ok, err, memory_error, extraction_error, ◌>>=◌,
}
use what_a_secure_app_should.Packages.{rgb, Image}
use what_a_secure_app_should.Packages.Sample.{sample_packages, sample_image, sample_image-IsRaster}
use what_a_secure_app_should.Packages.Sample.Bits.{sample_unpackbits, sample_numpy_laws}
use what_a_secure_app_should.Packages.Sample.Files.{sample_pillow_laws}
use what_a_secure_app_should.Packages.Sample.Cipher.{sample_cryptography_errors}
use what_a_secure_app_should.Crypto.Struct.{unpack, fields}
use what_a_secure_app_should.Crypto.Envelope.{ParsedHeader, check_header, parse_header}
use what_a_secure_app_should.Steg.Arrays.{lsb, gather}
use what_a_secure_app_should.Steg.Capacity.{total_capacity_bytes}
use what_a_secure_app_should.Steg.Permutation.{permuted_positions, seed_from_key}
use what_a_secure_app_should.Steg.Lsb.{
  to_channels, ciphertext_order, read_header_region, read_ciphertext_region,
}
use what_a_secure_app_should.Steg.Extractor.{extract, generic_message}
use what_a_secure_app_should.Steg.Extractor.Failures.{extract_failures, extract_memory_error}
use what_a_secure_app_should.Steg.Verifier.{verify}
use what_a_secure_app_should.Steg.Verifier.Reports.{
  read_header, verify_outcomes, verify_accepts_unreadable,
}

-- A header for scrypt's n, and a declared length.
abbrev header_for : Bytes → ℕ → Bytes
header_for n size =
    0x53
    ∷ 0x54
    ∷ 0x47
    ∷ 0x31
    ∷ 1
    ∷ 1
    ∷ (n ++ (0 ∷ 8 ∷ 0 ∷ 1 ∷ (replicate 16 3 ++ (replicate 12 5 ++ (0 ∷ 0 ∷ 0 ∷ size ∷ [])))))

abbrev parsed_for : ℕ → ℕ → ParsedHeader
parsed_for n size = record {
  salt = replicate 16 3;
  nonce = replicate 12 5;
  ciphertext_length = size;
  kdf_n = n;
  kdf_r = 8;
  kdf_p = 1;
  version = 1;
  kdf_id = 1;
}

-- 123 pixels in a row, 369 channel bytes: the header and one bit more.
abbrev strip : Bytes → ℕ → Image
strip n size = record {
  mode = rgb;
  width = 123;
  height = 1;
  pixels = sample_unpackbits (header_for n size) ++ (0 ∷ []);
}

abbrev normal : Bytes
normal = 0 ∷ 0 ∷ 0x40 ∷ 0 ∷ []

abbrev huge : Bytes
huge = 0x80 ∷ 0 ∷ 0 ∷ 0 ∷ []

strip_header : read_header sample_packages (strip normal 46) ≡ ok (parsed_for (2 ^ 14) 46)
unfolding read_header_region to_channels lsb parse_header check_header unpack fields from_bytes
strip_header = refl

strip_capacity : 46 ≤ total_capacity_bytes (strip normal 46)
unfolding total_capacity_bytes
strip_capacity = omega arith

strip_room : length (to_channels sample_packages.pil (strip normal 46)).pixels < 368 + 46 * 8
unfolding to_channels
strip_room = omega arith

verify_accepts_unreadable_example :
    (verify sample_packages (strip normal 46)
      ≡ ok (record {
        compatible_payload_detected = true;
        envelope_structure_valid = true;
        reported_version = some 1;
        algorithm_version = some 1;
      }))
    × (extract sample_packages (strip normal 46) "pw" ≡ err (extraction_error generic_message))
verify_accepts_unreadable_example =
    verify_accepts_unreadable sample_packages (strip normal 46) "pw" (parsed_for (2 ^ 14) 46)
      sample_numpy_laws strip_header strip_capacity strip_room

huge_header :
    (read_header_region sample_packages.np sample_packages.pil (strip huge 0) >>= parse_header)
    ≡ ok (parsed_for (2 ^ 31) 0)
unfolding read_header_region to_channels lsb parse_header check_header unpack fields from_bytes
huge_header = refl

huge_ciphertext :
    read_ciphertext_region sample_packages.np sample_packages.pil sample_packages.sha
      (strip huge 0)
      (replicate 16 3 ++ replicate 12 5)
      0
    ≡ ok []
unfolding read_ciphertext_region to_channels ciphertext_order permuted_positions seed_from_key
    from_bytes gather
huge_ciphertext = refl

extract_memory_error_example : extract sample_packages (strip huge 0) "pw" ≡ err memory_error
extract_memory_error_example =
    extract_memory_error sample_packages (strip huge 0) "pw" (parsed_for (2 ^ 31) 0) [] huge_header
      huge_ciphertext refl

no_header : extract sample_packages sample_image "pw" ≡ err (extraction_error generic_message)
unfolding extract read_header_region to_channels lsb parse_header check_header unpack fields
    from_bytes
no_header = refl

extract_failures_example :
    (extraction_error generic_message ≡ extraction_error generic_message)
    ⊎ (extraction_error generic_message ≡ memory_error)
extract_failures_example =
    extract_failures sample_packages sample_image "pw" (extraction_error generic_message)
      sample_numpy_laws sample_pillow_laws sample_cryptography_errors sample_image-IsRaster
      no_header

verify_outcomes_example :
    ((p : ParsedHeader) × (read_header sample_packages (strip normal 47) ≡ ok p)
      × (verify sample_packages (strip normal 47)
          ≡ ok (record {
            compatible_payload_detected = true;
            envelope_structure_valid =
                leb p.ciphertext_length (total_capacity_bytes (strip normal 47));
            reported_version = some p.version;
            algorithm_version = some p.kdf_id;
          })))
    ⊎ ((e : Exception) × (read_header sample_packages (strip normal 47) ≡ err e)
        × (verify sample_packages (strip normal 47)
            ≡ ok (record {
              compatible_payload_detected = false;
              envelope_structure_valid = false;
              reported_version = none;
              algorithm_version = none;
            })))
verify_outcomes_example = verify_outcomes sample_packages (strip normal 47)
