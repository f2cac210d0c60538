-- ===== src/Steg/Extractor.antt =====
-- app/steganography/extractor.py: every expected failure becomes one generic ExtractionError.
pub mod Failures
use what_a_secure_app_should.Base.{ℕ, String, ◌++◌}
use what_a_secure_app_should.Base.Bytes.{Bytes}
use what_a_secure_app_should.Base.Outcome.{
  Exception, Result, ok, err, value_error, envelope_error, decryption_error, capacity_error,
  extraction_error, ◌>>=◌, catch,
}
use what_a_secure_app_should.Packages.{Image, Packages}
use what_a_secure_app_should.Crypto.Aead.{decrypt}
use what_a_secure_app_should.Crypto.Envelope.{ParsedHeader, parse_header}
use what_a_secure_app_should.Crypto.Kdf.{derive_key}
use what_a_secure_app_should.Steg.Lsb.{read_header_region, read_ciphertext_region}

abbrev pub generic_message : String
generic_message = "Payload extraction failed: the embedded content could not be authenticated."

-- except (EnvelopeError, DecryptionError, CapacityError, ValueError)
abbrev pub as_extraction_error : Exception → Result Bytes
as_extraction_error (envelope_error _) = err (extraction_error generic_message)
as_extraction_error (decryption_error _) = err (extraction_error generic_message)
as_extraction_error (capacity_error _) = err (extraction_error generic_message)
as_extraction_error value_error = err (extraction_error generic_message)
as_extraction_error e = err e

-- The key, and the decryption of the ciphertext that was read.
unfoldable pub open_ciphertext : Packages → ParsedHeader → Bytes → String → Result Bytes
open_ciphertext k header ciphertext passphrase = do
  key ← derive_key k.crypt passphrase header.salt header.kdf_n header.kdf_r header.kdf_p
  decrypt k.crypt key header.nonce ciphertext

-- The `try` block.
unfoldable pub try_extract : Packages → Image → String → Result Bytes
try_extract k image passphrase = do
  raw ← read_header_region k.np k.pil image
  header ← parse_header raw
  ciphertext ←
      read_ciphertext_region k.np k.pil k.sha image (header.salt ++ header.nonce)
        header.ciphertext_length
  open_ciphertext k header ciphertext passphrase

unfoldable pub extract : Packages → Image → String → Result Bytes
unfolding try_extract
extract k image passphrase = catch (try_extract k image passphrase) as_extraction_error
