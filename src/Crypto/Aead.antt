-- ===== src/Crypto/Aead.antt =====
-- app/crypto/aead.py: AES-256-GCM with a fresh nonce, and one exception for every failure.
use what_a_secure_app_should.Base.{ℕ}
use what_a_secure_app_should.Base.Bytes.{Bytes}
use what_a_secure_app_should.Base.Outcome.{
  Exception, Result, ok, err, value_error, invalid_tag, decryption_error, ◌>>=◌, catch,
}
use what_a_secure_app_should.Packages.{Cryptography}

abbrev pub nonce_bytes : ℕ
nonce_bytes = 12

abbrev pub unauthenticated : Exception
unauthenticated = decryption_error "payload could not be authenticated"

-- `urandom n` is what this call's `os.urandom(n)` returns.
unfoldable pub encrypt : Cryptography → (ℕ → Bytes) → Bytes → Bytes → Result (Bytes × Bytes)
encrypt c urandom key plaintext =
    let nonce = urandom nonce_bytes in
    do ciphertext ← c.aes_encrypt key nonce plaintext; ok (nonce, ciphertext)

-- except (InvalidTag, ValueError)
abbrev pub as_decryption_error : Exception → Result Bytes
as_decryption_error invalid_tag = err unauthenticated
as_decryption_error value_error = err unauthenticated
as_decryption_error e = err e

unfoldable pub decrypt : Cryptography → Bytes → Bytes → Bytes → Result Bytes
decrypt c key nonce ciphertext = catch (c.aes_decrypt key nonce ciphertext) as_decryption_error
