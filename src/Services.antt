-- ===== src/Services.antt =====
-- app/services: embedding and extraction as the API calls them.
pub mod RoundTrip
pub mod Images
mod Tests
use what_a_secure_app_should.Base.{ℕ, String, Bool, not, length, if◌then◌else◌}
use what_a_secure_app_should.Base.Bytes.{Bytes}
use what_a_secure_app_should.Base.Outcome.{Result, ok, err, capacity_error, ◌>>=◌}
use what_a_secure_app_should.Packages.{Image, Packages, Entropy}
use what_a_secure_app_should.Crypto.Aead.{encrypt}
use what_a_secure_app_should.Crypto.Envelope.{Envelope, format_version, kdf_scrypt}
use what_a_secure_app_should.Crypto.Kdf.{generate_salt, derive_key, scrypt_n, scrypt_r, scrypt_p}
use what_a_secure_app_should.Steg.Capacity.{fits}
use what_a_secure_app_should.Steg.Lsb.{embed}
use what_a_secure_app_should.Steg.Extractor.{extract}

abbrev pub envelope_for : Bytes → Bytes → Bytes → Envelope
envelope_for salt nonce ciphertext = record {
  salt = salt;
  nonce = nonce;
  ciphertext = ciphertext;
  kdf_n = scrypt_n;
  kdf_r = scrypt_r;
  kdf_p = scrypt_p;
  version = format_version;
  kdf_id = kdf_scrypt;
}

-- app/services/embed_service.py
unfoldable pub embed_payload : Packages → Entropy → Image → Bytes → String → Result Bytes
embed_payload k draw image payload passphrase =
    if not (fits image (length payload))
    then err (capacity_error "payload exceeds image capacity")
    else let salt = generate_salt (draw 0) in
      do
        key ← derive_key k.crypt passphrase salt scrypt_n scrypt_r scrypt_p
        (nonce, ciphertext) ← encrypt k.crypt (draw 1) key payload
        embed k.np k.pil k.sha image (envelope_for salt nonce ciphertext)

-- app/services/extract_service.py
unfoldable pub extract_payload : Packages → Image → String → Result Bytes
extract_payload k image passphrase = extract k image passphrase
