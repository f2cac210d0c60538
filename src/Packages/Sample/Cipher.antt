-- ===== src/Packages/Sample/Cipher.antt =====
-- A cipher with a tag, and a key derivation with a limit on its memory.
use what_a_secure_app_should.Base.{
  ℕ, ◌+◌, ◌-◌, ◌%◌, ◌^◌, ◌≡◌, refl, ◌⊎◌, inl, [], ◌∷◌, ◌++◌, length, take, drop, map, arith, ltb,
  replicate, All-replicate, All-append, All-take, length-append, length-take, take-append,
  drop-append, if◌then◌else◌,
}
use what_a_secure_app_should.Base.Bytes.{Bytes, IsByte, IsBytes, bytes_eq, bytes_eq_iff}
use what_a_secure_app_should.Base.Outcome.{
  Exception, Result, ok, err, value_error, memory_error, invalid_tag,
}
use what_a_secure_app_should.Packages.{Cryptography, CryptographyLaws, CryptographyErrors}

-- A cipher that appends the first half of the key, and a key that repeats the passphrase.
abbrev key_of : Bytes → Bytes
key_of password = take 32 (map (λ b. b % 256) password ++ replicate 32 7)

abbrev pub sample_encrypt : Bytes → Bytes → Bytes → Result Bytes
sample_encrypt key nonce plaintext = ok (plaintext ++ take 16 key)

abbrev pub sample_decrypt : Bytes → Bytes → Bytes → Result Bytes
sample_decrypt key nonce ciphertext =
    let n = length ciphertext - 16 in
    if bytes_eq (drop n ciphertext) (take 16 key) then ok (take n ciphertext) else err invalid_tag

abbrev pub sample_scrypt : Bytes → ℕ → ℕ → ℕ → ℕ → Bytes → Result Bytes
sample_scrypt salt size n r p password =
    if ltb n 2
    then err value_error
    else if ltb (2 ^ 20) n
    then err memory_error
    else ok (key_of password)

abbrev pub sample_cryptography : Cryptography
sample_cryptography = record {
  aes_encrypt = sample_encrypt;
  aes_decrypt = sample_decrypt;
  scrypt = sample_scrypt;
}

sample_tagged :
    (key plaintext : Bytes)
    → length key ≡ 32
    → length (plaintext ++ take 16 key) ≡ length plaintext + 16
sample_tagged key plaintext k =
    omega (arith, length-append plaintext (take 16 key), length-take 16 key)

sample_decrypts :
    (key nonce plaintext : Bytes)
    → length key ≡ 32
    → sample_decrypt key nonce (plaintext ++ take 16 key) ≡ ok plaintext
sample_decrypts key nonce plaintext k =
    let size : length (plaintext ++ take 16 key) - 16 ≡ length plaintext =
      omega (arith, sample_tagged key plaintext k) in
    rw (
      size,
      drop-append (length plaintext) plaintext (take 16 key) refl,
      take-append (length plaintext) plaintext (take 16 key) refl,
      (bytes_eq_iff (take 16 key) (take 16 key)).1 refl,
    )

reduced : (password : Bytes) → IsBytes (map (λ b. b % 256) password)
reduced [] = tt
reduced (b ∷ password) = (omega arith, reduced password)

key_of_lem : (password : Bytes) → (length (key_of password) ≡ 32) × IsBytes (key_of password)
key_of_lem password =
    let long = map (λ b. b % 256) password in
    (
      omega (arith, length-take 32 (long ++ replicate 32 7), length-append long (replicate 32 7)),
      All-take IsByte 32 (long ++ replicate 32 7) (
          All-append IsByte long (replicate 32 7) (reduced password)
            (All-replicate IsByte 32 7 (omega arith))),
    )

pub sample_cryptography_laws : CryptographyLaws sample_cryptography
sample_cryptography_laws = record {
  aes_seals = λ key nonce plaintext k kb n pb short. record {
    sealed = plaintext ++ take 16 key;
    encrypts = refl;
    tagged = sample_tagged key plaintext k;
    are_bytes = All-append IsByte plaintext (take 16 key) pb (All-take IsByte 16 key kb);
    decrypts = sample_decrypts key nonce plaintext k;
  };
  scrypt_derives = λ salt password s. record {
    key = key_of password;
    derives = refl;
    key_size = (key_of_lem password).0;
    key_bytes = (key_of_lem password).1;
  };
}

decrypt_raises :
    (key nonce ciphertext : Bytes) (e : Exception)
    → sample_decrypt key nonce ciphertext ≡ err e
    → (e ≡ invalid_tag) ⊎ (e ≡ value_error)
decrypt_raises key nonce ciphertext e h = inl (ground arith)

scrypt_raises :
    (salt password : Bytes) (size n r p : ℕ) (e : Exception)
    → sample_scrypt salt size n r p password ≡ err e
    → (e ≡ value_error) ⊎ (e ≡ memory_error)
scrypt_raises salt password size n r p e h = ground arith

pub sample_cryptography_errors : CryptographyErrors sample_cryptography
sample_cryptography_errors = record {
  decrypt_errors = λ key nonce ciphertext {e} h. decrypt_raises key nonce ciphertext e h;
  scrypt_errors = λ salt password size n r p {e} h. scrypt_raises salt password size n r p e h;
}
