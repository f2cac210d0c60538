-- ===== src/Steg/Verifier.antt =====
-- app/steganography/verifier.py: a structural check of the header.
pub mod Reports
use what_a_secure_app_should.Base.{ℕ, Bool, true, false, Option, none, some, leb}
use what_a_secure_app_should.Base.Outcome.{
  Exception, Result, ok, err, value_error, envelope_error, capacity_error, ◌>>=◌,
}
use what_a_secure_app_should.Packages.{Image, Packages}
use what_a_secure_app_should.Crypto.Envelope.{ParsedHeader, parse_header}
use what_a_secure_app_should.Steg.Capacity.{total_capacity_bytes}
use what_a_secure_app_should.Steg.Lsb.{read_header_region}

pub record VerifyResult : Type 0 where
  pub compatible_payload_detected : Bool
  pub envelope_structure_valid : Bool
  pub reported_version : Option ℕ
  pub algorithm_version : Option ℕ

abbrev pub nothing_found : VerifyResult
nothing_found = record {
  compatible_payload_detected = false;
  envelope_structure_valid = false;
  reported_version = none;
  algorithm_version = none;
}

unfoldable pub report : Image → ParsedHeader → VerifyResult
report image header = record {
  compatible_payload_detected = true;
  envelope_structure_valid = leb header.ciphertext_length (total_capacity_bytes image);
  reported_version = some header.version;
  algorithm_version = some header.kdf_id;
}

-- except (EnvelopeError, CapacityError, ValueError)
abbrev pub finish : Image → Result ParsedHeader → Result VerifyResult
finish image (ok header) = ok (report image header)
finish image (err (envelope_error _)) = ok nothing_found
finish image (err (capacity_error _)) = ok nothing_found
finish image (err value_error) = ok nothing_found
finish image (err e) = err e

unfoldable pub verify : Packages → Image → Result VerifyResult
unfolding report
verify k image = finish image (do raw ← read_header_region k.np k.pil image; parse_header raw)
