-- ===== src/Crypto/Kdf.antt =====
-- app/crypto/kdf.py: scrypt, and the cost parameters that the envelope records.
use what_a_secure_app_should.Base.{ℕ, ◌^◌, String}
use what_a_secure_app_should.Base.Bytes.{Bytes}
use what_a_secure_app_should.Base.Outcome.{Result}
use what_a_secure_app_should.Base.Text.{utf8}
use what_a_secure_app_should.Packages.{Cryptography}

abbrev pub salt_bytes : ℕ
salt_bytes = 16

abbrev pub key_bytes : ℕ
key_bytes = 32

abbrev pub scrypt_n : ℕ
scrypt_n = 2 ^ 14

abbrev pub scrypt_r : ℕ
scrypt_r = 8

abbrev pub scrypt_p : ℕ
scrypt_p = 1

unfoldable pub generate_salt : (ℕ → Bytes) → Bytes
generate_salt urandom = urandom salt_bytes

unfoldable pub derive_key : Cryptography → String → Bytes → ℕ → ℕ → ℕ → Result Bytes
derive_key c passphrase salt n r p = c.scrypt salt key_bytes n r p (utf8 passphrase)
