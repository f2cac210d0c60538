-- ===== src/Steg/Lsb.antt =====
-- app/steganography/lsb_png.py: the header goes into the first 368 lowest bits in order, the
-- ciphertext into the others, in a permuted order.
pub mod Regions
pub mod Carrier
pub mod Embedding
pub mod Reading
use what_a_secure_app_should.Base.{
  ℕ, ◌+◌, ◌*◌, List, [], ◌∷◌, ◌++◌, length, take, drop, map, ltb, ◌==◌, if◌then◌else◌,
}
use what_a_secure_app_should.Base.Bytes.{Bytes}
use what_a_secure_app_should.Base.Outcome.{Result, ok, err, value_error, capacity_error, ◌>>=◌}
use what_a_secure_app_should.Packages.{Mode, rgb, rgba, Image, Numpy, Pillow, Hashlib}
use what_a_secure_app_should.Crypto.Envelope.{Envelope, header_len, header_bytes}
use what_a_secure_app_should.Steg.Arrays.{arange, lsb, merge_bits, gather, scatter}
use what_a_secure_app_should.Steg.Capacity.{mode_channels}
use what_a_secure_app_should.Steg.Permutation.{permuted_positions}

abbrev pub header_bits : ℕ
header_bits = header_len * 8

-- The mode that an image is embedded in: its own if it is RGB or RGBA, else RGB.
abbrev pub carrier_mode : Mode → Mode
carrier_mode rgb = rgb
carrier_mode rgba = rgba
carrier_mode _ = rgb

abbrev pub convert_unless : Pillow → Mode → Image → Image
convert_unless pil rgb image = image
convert_unless pil rgba image = image
convert_unless pil _ image = pil.convert rgb image

-- `_to_channels`: the flat array, and the mode and the size to rebuild, as the image of them.
unfoldable pub to_channels : Pillow → Image → Image
to_channels pil image = convert_unless pil image.mode image

unfoldable pub perm_key : Envelope → Bytes
perm_key envelope = envelope.salt ++ envelope.nonce

-- The positions of the ciphertext's bits in an array of `total` channel bytes, in their order.
unfoldable pub ciphertext_order : Numpy → Hashlib → Bytes → ℕ → List ℕ
unfolding permuted_positions
ciphertext_order np sha key total = permuted_positions np sha key (arange header_bits total)

-- `flat[:HEADER_BITS] = (flat[:HEADER_BITS] & 0xFE) | header_bits`
unfoldable pub write_header : List ℕ → List ℕ → Result (List ℕ)
write_header flat bits = do
  head ← merge_bits (take header_bits flat) bits
  ok (head ++ drop header_bits flat)

-- `flat[targets] = (flat[targets] & 0xFE) | cipher_bits`
unfoldable pub write_ciphertext : List ℕ → List ℕ → List ℕ → Result (List ℕ)
write_ciphertext flat targets bits = do
  old ← gather flat targets
  values ← merge_bits old bits
  ok (scatter flat targets values)

-- `flat.reshape((height, width, channels))` and `Image.fromarray(out, mode=mode)`
unfoldable pub rebuild : Image → List ℕ → Result Image
rebuild image flat =
    if length flat == image.height * image.width * mode_channels image.mode
    then ok (record image { pixels = flat })
    else err value_error

-- The image whose PNG bytes `embed` returns.
unfoldable pub embed_image : Numpy → Pillow → Hashlib → Image → Envelope → Result Image
unfolding to_channels perm_key ciphertext_order write_header write_ciphertext rebuild
embed_image np pil sha image envelope =
    let carrier = to_channels pil image in
    let flat = carrier.pixels in
    let total = length flat in
    do
      header ← header_bytes envelope
      let cipher_bits = np.unpackbits envelope.ciphertext
      if ltb total (header_bits + length cipher_bits)
          then err (capacity_error "payload exceeds image capacity")
          else do
            marked ← write_header flat (np.unpackbits header)
            let order = ciphertext_order np sha (perm_key envelope) total
            filled ← write_ciphertext marked (take (length cipher_bits) order) cipher_bits
            rebuild carrier filled

unfoldable pub embed : Numpy → Pillow → Hashlib → Image → Envelope → Result Bytes
unfolding embed_image
embed np pil sha image envelope = do
  out ← embed_image np pil sha image envelope
  ok (pil.save_png out)

unfoldable pub read_header_region : Numpy → Pillow → Image → Result Bytes
unfolding to_channels
read_header_region np pil image =
    let flat = (to_channels pil image).pixels in
    if ltb (length flat) header_bits
    then err (capacity_error "image too small to contain a header")
    else ok (np.packbits (map lsb (take header_bits flat)))

unfoldable pub read_ciphertext_region : Numpy → Pillow → Hashlib → Image → Bytes → ℕ → Result Bytes
unfolding to_channels ciphertext_order
read_ciphertext_region np pil sha image key ciphertext_length =
    let flat = (to_channels pil image).pixels in
    let order = ciphertext_order np sha key (length flat) in
    let n_bits = ciphertext_length * 8 in
    if ltb (length order) n_bits
    then err (capacity_error "declared ciphertext length exceeds image")
    else do values ← gather flat (take n_bits order); ok (np.packbits (map lsb values))
