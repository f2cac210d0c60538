-- ===== src/Steg/Extractor/Failures.antt =====
-- Which exceptions leave `extract`.
use what_a_secure_app_should.Base.{
  ℕ, ◌*◌, ◌≤◌, ◌<◌, ◌≡◌, refl, ◌⊎◌, inl, inr, Bool, true, false, Bool-cases, ◌++◌, String, not,
  ◌==◌, if◌then◌else◌, length, length-take, All-take, take, arith, ltb,
}
use what_a_secure_app_should.Base.Bytes.{Bytes, IsBytes, bytes_eq}
use what_a_secure_app_should.Base.Outcome.{
  Exception, Result, ok, err, value_error, memory_error, envelope_error, decryption_error,
  capacity_error, extraction_error, ◌>>=◌, catch, Result-cases,
}
use what_a_secure_app_should.Packages.{
  Image, Packages, NumpyLaws, PillowLaws, IsRaster, CryptographyErrors, Cryptography,
}
use what_a_secure_app_should.Crypto.Aead.{decrypt}
use what_a_secure_app_should.Crypto.Envelope.{
  ParsedHeader, parse_header, check_header, header_len, header_struct, magic, format_version,
  kdf_scrypt,
}
use what_a_secure_app_should.Crypto.Envelope.RoundTrip.{unpack_46}
use what_a_secure_app_should.Crypto.Kdf.{derive_key, key_bytes}
use what_a_secure_app_should.Crypto.Struct.{Values, fields}
use what_a_secure_app_should.Base.Text.{utf8}
use what_a_secure_app_should.Steg.Arrays.{arange}
use what_a_secure_app_should.Steg.Arrays.Indexing.{gather_ok}
use what_a_secure_app_should.Steg.Permutation.{permuted_positions}
use what_a_secure_app_should.Steg.Permutation.Laws.{permuted_positions-Within}
use what_a_secure_app_should.Steg.Lsb.{
  header_bits, to_channels, ciphertext_order, read_header_region, read_ciphertext_region,
}
use what_a_secure_app_should.Steg.Lsb.Carrier.{to_channels-IsCarrier}
use what_a_secure_app_should.Steg.Lsb.Regions.{Within-hi}
use what_a_secure_app_should.Steg.Extractor.{
  generic_message, as_extraction_error, open_ciphertext, try_extract, extract,
}

-- The exceptions that the steps of extraction raise.
abbrev pub IsExpected : Exception → Type 0
IsExpected (envelope_error _) = Unit
IsExpected (decryption_error _) = Unit
IsExpected (capacity_error _) = Unit
IsExpected value_error = Unit
IsExpected memory_error = Unit
IsExpected _ = ⊥

abbrev pub FailsAt : {A : Type 0} → Result A → Type 0
FailsAt (ok _) = Unit
FailsAt (err e) = IsExpected e

-- If the call raises, then one of those.
pub record Fails {A : Type 0} (r : Result A) : Type 0 where
  pub at : FailsAt r

pub bind-Fails :
    {A B : Type 0} (m : Result A) (f : A → Result B)
    → Fails m
    → ((a : A) → m ≡ ok a → Fails (f a))
    → Fails (m >>= f)
bind-Fails (ok a) f hm hf = hf a refl
bind-Fails (err e) f hm hf = record { at = hm.at }

if-Fails : {A : Type 0} (b : Bool) (m n : Result A) → Fails m → Fails n → Fails (if b then m else n)
if-Fails true m n hm hn = hm
if-Fails false m n hm hn = hn

ok_if : {A : Type 0} (r : Result A) (a : A) → r ≡ ok a → Fails r
ok_if r a e = rw e (record { at = tt })

pub read_header_region-Fails :
    (k : Packages) (image : Image) → Fails (read_header_region k.np k.pil image)
unfolding read_header_region
read_header_region-Fails k image =
    if-Fails (ltb (length (to_channels k.pil image).pixels) header_bits) _ _ (record { at = tt })
      (record { at = tt })

check_header-Fails : (vs : Values header_struct) → Fails (check_header vs)
unfolding check_header
check_header-Fails (m, (v, (kd, (n, (r, (q, (s, (o, (l, u))))))))) =
    if-Fails (not (bytes_eq m magic)) _ _ (record { at = tt })
      (if-Fails (not (v == format_version)) _ _ (record { at = tt })
        (if-Fails (not (kd == kdf_scrypt)) _ _ (record { at = tt }) (record { at = tt })))

pub parse_header-Fails : (raw : Bytes) → Fails (parse_header raw)
unfolding parse_header
parse_header-Fails raw = elim (Bool-cases (ltb (length raw) header_len)) [
  | inl short ↦ rw short (record { at = tt })
  | inr long ↦
      let size : length (take header_len raw) ≡ header_len =
        omega (arith, length-take header_len raw, leb_of_ltb raw long) in
      rw (long, unpack_46 (take header_len raw) size)
        (check_header-Fails (fields header_struct (take header_len raw)))
]
  where
    leb_of_ltb : (d : Bytes) → ltb (length d) header_len ≡ false → header_len ≤ length d
    leb_of_ltb d h = ground arith

-- Positions of a permutation are inside the array, so that only a CapacityError is possible.
pub read_ciphertext_region-Fails :
    (k : Packages) (image : Image) (key : Bytes) (n : ℕ)
    → NumpyLaws k.np
    → IsBytes (to_channels k.pil image).pixels
    → header_bits ≤ length (to_channels k.pil image).pixels
    → Fails (read_ciphertext_region k.np k.pil k.sha image key n)
unfolding read_ciphertext_region ciphertext_order
read_ciphertext_region-Fails k image key n laws b long =
    let flat = (to_channels k.pil image).pixels in
    let order = permuted_positions k.np k.sha key (arange header_bits (length flat)) in
    let inside = permuted_positions-Within laws k.sha key header_bits (length flat) long in
    let below =
      All-take (λ i. i < length flat) (n * 8) order
        (Within-hi header_bits (length flat) order inside) in
    let (vs, reads, _, _) = gather_ok flat (take (n * 8) order) below b in
    if-Fails (ltb (length order) (n * 8)) _ _ (record { at = tt }) (rw reads (record { at = tt }))

derive_key-Fails :
    (c : Cryptography) (passphrase : String) (salt : Bytes) (n r p : ℕ)
    → CryptographyErrors c
    → Fails (derive_key c passphrase salt n r p)
unfolding derive_key
derive_key-Fails c passphrase salt n r p laws =
    elim (Result-cases (c.scrypt salt key_bytes n r p (utf8 passphrase))) [
      | inl (key, e) ↦ rw e (record { at = tt })
      | inr (x, e) ↦ elim (laws.scrypt_errors salt (utf8 passphrase) key_bytes n r p e) [
        | inl v ↦ rw (e, v) (record { at = tt })
        | inr m ↦ rw (e, m) (record { at = tt })
      ]
    ]

decrypt-Fails :
    (c : Cryptography) (key nonce ct : Bytes)
    → CryptographyErrors c
    → Fails (decrypt c key nonce ct)
unfolding decrypt
decrypt-Fails c key nonce ct laws = elim (Result-cases (c.aes_decrypt key nonce ct)) [
  | inl (plain, e) ↦ rw e (record { at = tt })
  | inr (x, e) ↦ elim (laws.decrypt_errors key nonce ct e) [
    | inl t ↦ rw (e, t) (record { at = tt })
    | inr v ↦ rw (e, v) (record { at = tt })
  ]
]

open_ciphertext-Fails :
    (k : Packages) (header : ParsedHeader) (ct : Bytes) (passphrase : String)
    → CryptographyErrors k.crypt
    → Fails (open_ciphertext k header ct passphrase)
unfolding open_ciphertext
open_ciphertext-Fails k header ct passphrase laws =
    bind-Fails (derive_key k.crypt passphrase header.salt header.kdf_n header.kdf_r header.kdf_p) _
      (derive_key-Fails k.crypt passphrase header.salt header.kdf_n header.kdf_r header.kdf_p laws)
      (λ key _. decrypt-Fails k.crypt key header.nonce ct laws)

-- A header region that was read came from an array of at least 368 channel bytes.
read_header_region_long :
    (k : Packages) (image : Image) (raw : Bytes)
    → read_header_region k.np k.pil image ≡ ok raw
    → header_bits ≤ length (to_channels k.pil image).pixels
unfolding read_header_region
read_header_region_long k image raw h = ground arith

try_extract-Fails :
    (k : Packages) (image : Image) (passphrase : String)
    → NumpyLaws k.np
    → CryptographyErrors k.crypt
    → IsBytes (to_channels k.pil image).pixels
    → Fails (try_extract k image passphrase)
unfolding try_extract
try_extract-Fails k image passphrase nlaws claws b =
    bind-Fails (read_header_region k.np k.pil image) _ (read_header_region-Fails k image) (λ raw e.
      bind-Fails (parse_header raw) _ (parse_header-Fails raw) (λ header _.
        bind-Fails
          (read_ciphertext_region k.np k.pil k.sha image (header.salt ++ header.nonce)
            header.ciphertext_length)
          _
          (read_ciphertext_region-Fails k image (header.salt ++ header.nonce)
            header.ciphertext_length nlaws b (read_header_region_long k image raw e))
          (λ ct _. open_ciphertext-Fails k header ct passphrase claws)))

collapse :
    (r : Result Bytes) (e : Exception)
    → Fails r
    → catch r as_extraction_error ≡ err e
    → (e ≡ extraction_error generic_message) ⊎ (e ≡ memory_error)
collapse (ok a) e h c = absurd (ground arith)
collapse (err (envelope_error s)) e h c = inl (ground arith)
collapse (err (decryption_error s)) e h c = inl (ground arith)
collapse (err (capacity_error s)) e h c = inl (ground arith)
collapse (err value_error) e h c = inl (ground arith)
collapse (err memory_error) e h c = inr (ground arith)
collapse (err x) e h c = absurd h.at

-- Where the packages raise only what they document and the image is well formed, a failed
-- `extract` raises the generic ExtractionError, or the MemoryError of scrypt.
pub extract_failures :
    (k : Packages) (image : Image) (passphrase : String) (e : Exception)
    → NumpyLaws k.np
    → PillowLaws k.pil
    → CryptographyErrors k.crypt
    → IsRaster image
    → extract k image passphrase ≡ err e
    → (e ≡ extraction_error generic_message) ⊎ (e ≡ memory_error)
unfolding extract
extract_failures k image passphrase e nlaws plaws claws raster h =
    collapse (try_extract k image passphrase) e
      (try_extract-Fails k image passphrase nlaws claws
        (to_channels-IsCarrier plaws image raster).is_raster.0)
      h

-- Where the header parses, the ciphertext is read, and scrypt raises MemoryError for the costs
-- that the header names, `extract` raises that MemoryError and no ExtractionError.
pub extract_memory_error :
    (k : Packages) (image : Image) (passphrase : String) (p : ParsedHeader) (ct : Bytes)
    → (read_header_region k.np k.pil image >>= parse_header) ≡ ok p
    → read_ciphertext_region k.np k.pil k.sha image (p.salt ++ p.nonce) p.ciphertext_length ≡ ok ct
    → k.crypt.scrypt p.salt key_bytes p.kdf_n p.kdf_r p.kdf_p (utf8 passphrase) ≡ err memory_error
    → extract k image passphrase ≡ err memory_error
unfolding extract try_extract open_ciphertext derive_key
extract_memory_error k image passphrase p ct hp hc hs =
    elim (Result-cases (read_header_region k.np k.pil image)) [
      | inr (x, e) ↦ absurd (ground arith)
      | inl (raw, e) ↦ let parsed : parse_header raw ≡ ok p = rw e at hp in rw (e, parsed, hc, hs)
    ]
