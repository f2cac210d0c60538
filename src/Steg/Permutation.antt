-- ===== src/Steg/Permutation.antt =====
-- app/steganography/pixel_permutation.py
pub mod Laws
use what_a_secure_app_should.Base.{ℕ, List, [], ◌∷◌, ◌++◌, take}
use what_a_secure_app_should.Base.Bytes.{Bytes, from_bytes}
use what_a_secure_app_should.Base.Text.{utf8}
use what_a_secure_app_should.Packages.{Numpy, Hashlib}

-- b"steg-permutation-v1"
abbrev pub domain : Bytes
unfolding utf8
domain = utf8 "steg-permutation-v1"

unfoldable pub seed_from_key : Hashlib → Bytes → ℕ
seed_from_key sha key = from_bytes (take 8 (sha.sha256_digest (domain ++ key)))

unfoldable pub permuted_positions : Numpy → Hashlib → Bytes → List ℕ → List ℕ
unfolding seed_from_key
permuted_positions np sha key positions = np.permutation (seed_from_key sha key) positions
