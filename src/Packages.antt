-- ===== src/Packages.antt =====
-- The third-party packages that the program calls, as parameters: numpy, Pillow, hashlib's digests
-- and the cryptography package. Each is a record of operations; what the program relies on of their
-- documented behaviour is a second record, of laws, which the theorems that need it take.
pub mod Sample
use mathlib.Core.List.{Perm}
use what_a_secure_app_should.Base.{
  ℕ, ◌+◌, ◌*◌, ◌/◌, ◌^◌, ◌<◌, ◌≤◌, ◌≡◌, ◌⊎◌, List, length, String, All, [], ◌∷◌, ◌++◌,
}
use what_a_secure_app_should.Base.Bytes.{Bytes, IsBytes}
use what_a_secure_app_should.Base.Outcome.{
  Result, Exception, ok, err, value_error, memory_error, invalid_tag,
}

-- `Image.mode`: "RGB", "RGBA", "L", "P", or another one.
pub data Mode : Type 0 where
  rgb rgba luminance palette : Mode
  other_mode : String → Mode

-- A Pillow image; `pixels` is `np.asarray(image, dtype=np.uint8).reshape(-1)`.
pub record Image : Type 0 where
  pub mode : Mode
  pub width : ℕ
  pub height : ℕ
  pub pixels : List ℕ

abbrev pub HasShape : Mode → ℕ → List ℕ → Type 0
HasShape rgb area pixels = length pixels ≡ area * 3
HasShape rgba area pixels = length pixels ≡ area * 4
HasShape _ area pixels = Unit

-- The pixel array holds bytes, and its size is that of the mode and the dimensions.
abbrev pub IsRaster : Image → Type 0
IsRaster image =
    IsBytes image.pixels × HasShape image.mode (image.height * image.width) image.pixels

pub record Numpy : Type 0 where
  pub unpackbits : Bytes → List ℕ
  pub packbits : List ℕ → Bytes
  -- `np.random.default_rng(seed).permutation(positions)`
  pub permutation : ℕ → List ℕ → List ℕ

pub record NumpyLaws (np : Numpy) : Type 0 where
  pub length-unpackbits : (d : Bytes) → length (np.unpackbits d) ≡ length d * 8
  pub unpackbits_bits : (d : Bytes) → All (λ b. b < 2) (np.unpackbits d)
  pub packbits-unpackbits : (d : Bytes) → IsBytes d → np.packbits (np.unpackbits d) ≡ d
  pub length-packbits : (bits : List ℕ) → length (np.packbits bits) ≡ (length bits + 7) / 8
  pub packbits-IsBytes : (bits : List ℕ) → IsBytes (np.packbits bits)
  pub permutation-perm : (seed : ℕ) (xs : List ℕ) → Perm (np.permutation seed xs) xs

-- The limit in `identify`, `verify` and `load` is the global `Image.MAX_IMAGE_PIXELS`.
pub record Pillow : Type 0 where
  pub convert : Mode → Image → Image
  pub save_png : Image → Bytes
  -- `Image.open(io.BytesIO(data)).format`
  pub identify : ℕ → Bytes → Result String
  -- `Image.open(io.BytesIO(data)).verify()`
  pub verify : ℕ → Bytes → Result (Unit {0})
  -- `Image.open(io.BytesIO(data))` and `load()`
  pub load : ℕ → Bytes → Result Image

-- The signature that every PNG file starts with.
abbrev pub png_signature : Bytes
png_signature = 0x89 ∷ 0x50 ∷ 0x4E ∷ 0x47 ∷ 0x0D ∷ 0x0A ∷ 0x1A ∷ 0x0A ∷ []

pub record PillowLaws (pil : Pillow) : Type 0 where
  pub mode-convert : (m : Mode) (image : Image) → (pil.convert m image).mode ≡ m
  pub width-convert : (m : Mode) (image : Image) → (pil.convert m image).width ≡ image.width
  pub height-convert : (m : Mode) (image : Image) → (pil.convert m image).height ≡ image.height
  pub convert-IsRaster : (m : Mode) (image : Image) → IsRaster (pil.convert m image)
  -- PNG is lossless.
  pub load-save_png :
      (limit : ℕ) (image : Image)
      → IsRaster image
      → (image.mode ≡ rgb) ⊎ (image.mode ≡ rgba)
      → image.width * image.height ≤ limit
      → pil.load limit (pil.save_png image) ≡ ok image
  -- What `save` has written is a PNG file, which Pillow knows as such and whose checksums are right.
  pub save_png_signature :
      (image : Image)
      → (image.mode ≡ rgb) ⊎ (image.mode ≡ rgba)
      → (rest : Bytes) × (pil.save_png image ≡ png_signature ++ rest)
  pub identify-save_png :
      (limit : ℕ) (image : Image)
      → (image.mode ≡ rgb) ⊎ (image.mode ≡ rgba)
      → image.width * image.height ≤ limit
      → pil.identify limit (pil.save_png image) ≡ ok "PNG"
  pub verify-save_png :
      (limit : ℕ) (image : Image)
      → (image.mode ≡ rgb) ⊎ (image.mode ≡ rgba)
      → image.width * image.height ≤ limit
      → pil.verify limit (pil.save_png image) ≡ ok tt

pub record Hashlib : Type 0 where
  pub sha256_digest : Bytes → Bytes
  pub sha256_hexdigest : Bytes → String

pub record Cryptography : Type 0 where
  -- `AESGCM(key).encrypt(nonce, plaintext, None)` and `decrypt`
  pub aes_encrypt : Bytes → Bytes → Bytes → Result Bytes
  pub aes_decrypt : Bytes → Bytes → Bytes → Result Bytes
  -- `Scrypt(salt=salt, length=length, n=n, r=r, p=p).derive(key_material)`
  pub scrypt : Bytes → ℕ → ℕ → ℕ → ℕ → Bytes → Result Bytes

-- What one encryption returns.
pub record Sealed (c : Cryptography) (key nonce plaintext : Bytes) : Type 0 where
  pub sealed : Bytes
  pub encrypts : c.aes_encrypt key nonce plaintext ≡ ok sealed
  pub tagged : length sealed ≡ length plaintext + 16
  pub are_bytes : IsBytes sealed
  pub decrypts : c.aes_decrypt key nonce sealed ≡ ok plaintext

pub record Derived (c : Cryptography) (salt password : Bytes) (n r p : ℕ) : Type 0 where
  pub key : Bytes
  pub derives : c.scrypt salt 32 n r p password ≡ ok key
  pub key_size : length key ≡ 32
  pub key_bytes : IsBytes key

pub record CryptographyLaws (c : Cryptography) : Type 0 where
  pub aes_seals :
      (key nonce plaintext : Bytes)
      → length key ≡ 32
      → IsBytes key
      → length nonce ≡ 12
      → IsBytes plaintext
      → length plaintext < 2 ^ 31
      → Sealed c key nonce plaintext
  pub scrypt_derives :
      (salt password : Bytes) → length salt ≡ 16 → Derived c salt password (2 ^ 14) 8 1

-- The exceptions of the calls that `extract` makes.
pub record CryptographyErrors (c : Cryptography) : Type 0 where
  pub decrypt_errors :
      (key nonce ciphertext : Bytes) {e : Exception}
      → c.aes_decrypt key nonce ciphertext ≡ err e
      → (e ≡ invalid_tag) ⊎ (e ≡ value_error)
  pub scrypt_errors :
      (salt password : Bytes) (length n r p : ℕ) {e : Exception}
      → c.scrypt salt length n r p password ≡ err e
      → (e ≡ value_error) ⊎ (e ≡ memory_error)

pub record Packages : Type 0 where
  pub np : Numpy
  pub pil : Pillow
  pub sha : Hashlib
  pub crypt : Cryptography

pub record PackageLaws (k : Packages) : Type 0 where
  pub numpy_laws : NumpyLaws k.np
  pub pillow_laws : PillowLaws k.pil
  pub cryptography_laws : CryptographyLaws k.crypt

-- `draw i n` is what the i-th call of `os.urandom`, for n bytes, returns.
abbrev pub Entropy : Type 0
Entropy = ℕ → ℕ → Bytes

pub record IsEntropy (draw : Entropy) : Type 0 where
  pub draw_size : (i n : ℕ) → length (draw i n) ≡ n
  pub draw_IsBytes : (i n : ℕ) → IsBytes (draw i n)
