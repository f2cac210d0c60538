-- ===== src/Steg/Lsb/Embedding.antt =====
-- `embed` on an envelope that fits: the image it makes, and what it holds.
use what_a_secure_app_should.Base.{
  ℕ, ◌+◌, ◌-◌, ◌*◌, ◌≤◌, ◌<◌, ◌≡◌, ◌∙◌, List, length, take, map, arith, le→ltb, lt→ltb, length-take,
  All-take,
}
use what_a_secure_app_should.Base.Bytes.{Bytes}
use what_a_secure_app_should.Base.Outcome.{ok, err, capacity_error}
use what_a_secure_app_should.Packages.{
  Image, IsRaster, Numpy, NumpyLaws, Pillow, PillowLaws, Hashlib,
}
use what_a_secure_app_should.Crypto.Envelope.{Envelope, header_len, header_bytes}
use what_a_secure_app_should.Steg.Arrays.{lsb, gather}
use what_a_secure_app_should.Steg.Arrays.Bits.{high_bits}
use what_a_secure_app_should.Steg.Arrays.Indexing.{Distinct, Within}
use what_a_secure_app_should.Steg.Permutation.Laws.{
  length-permuted_positions, permuted_positions-Within, permuted_positions-Distinct, Distinct-take,
}
use what_a_secure_app_should.Steg.Lsb.{
  header_bits, carrier_mode, to_channels, perm_key, ciphertext_order, embed_image,
}
use what_a_secure_app_should.Steg.Lsb.Carrier.{
  HasChannels, IsCarrier, to_channels-IsCarrier, raster_size, rebuild_lem,
}
use what_a_secure_app_should.Steg.Lsb.Regions.{
  Marked, write_header_lem, Filled, write_ciphertext_lem,
}

-- The number of lowest bits that an image offers.
abbrev pub room : Pillow → Image → ℕ
room pil image = length (to_channels pil image).pixels

module _ (np : Numpy) (pil : Pillow) (sha : Hashlib) (image : Image) (envelope : Envelope) where
  -- The positions of the ciphertext's bits.
  abbrev pub targets : List ℕ
  targets =
      take (length envelope.ciphertext * 8)
        (ciphertext_order np sha (perm_key envelope) (room pil image))

  -- An image that holds the envelope, made from `image`.
  pub record Stego (header : Bytes) (out : Image) : Type 0 where
    pub embeds : embed_image np pil sha image envelope ≡ ok out
    pub is_raster : IsRaster out
    pub has_channels : HasChannels out.mode
    pub same_width : out.width ≡ image.width
    pub same_height : out.height ≡ image.height
    pub same_mode : out.mode ≡ carrier_mode image.mode
    pub same_size : length out.pixels ≡ room pil image
    pub holds_header : map lsb (take header_bits out.pixels) ≡ np.unpackbits header
    pub values : List ℕ
    pub reads : gather out.pixels targets ≡ ok values
    pub holds_ciphertext : map lsb values ≡ np.unpackbits envelope.ciphertext
    pub keeps_high : map high_bits out.pixels ≡ map high_bits (to_channels pil image).pixels

  module _ (laws : NumpyLaws np) where
    pub order_size :
        (total : ℕ)
        → length (ciphertext_order np sha (perm_key envelope) total) ≡ total - header_bits
    unfolding ciphertext_order
    order_size total = length-permuted_positions laws sha (perm_key envelope) header_bits total

    order_inside :
        (total n hi : ℕ)
        → header_bits ≤ total
        → hi ≡ total
        → Within header_bits hi (take n (ciphertext_order np sha (perm_key envelope) total))
    unfolding ciphertext_order
    order_inside total n hi h e = rw e (
        All-take _ n _ (permuted_positions-Within laws sha (perm_key envelope) header_bits total h))

    order_apart :
        (total n : ℕ) → Distinct (take n (ciphertext_order np sha (perm_key envelope) total))
    unfolding ciphertext_order
    order_apart total n =
        Distinct-take n _
          (permuted_positions-Distinct laws sha (perm_key envelope) header_bits total)

    targets_size :
        header_bits + length envelope.ciphertext * 8 ≤ room pil image
        → length targets ≡ length (np.unpackbits envelope.ciphertext)
    targets_size fit = omega (
      arith,
      laws.length-unpackbits envelope.ciphertext,
      length-take (length envelope.ciphertext * 8)
          (ciphertext_order np sha (perm_key envelope) (room pil image)),
      order_size (room pil image),
    )

    -- The two writes, put together.
    assemble :
        (header : Bytes) (marked filled : List ℕ)
        → IsCarrier image (to_channels pil image)
        → header_bytes envelope ≡ ok header
        → header_bits + length envelope.ciphertext * 8 ≤ room pil image
        → Marked (to_channels pil image).pixels (np.unpackbits header) marked
        → Filled marked targets (np.unpackbits envelope.ciphertext) filled
        → Stego header (record (to_channels pil image) { pixels = filled })
    unfolding embed_image
    assemble header marked filled c eh fit m f =
        let carrier = to_channels pil image in
        let size : length filled ≡ room pil image = f.same_size ∙ m.same_size in
        let built =
          rebuild_lem carrier filled (size ∙ raster_size carrier c.has_channels c.is_raster)
            f.are_bytes in
        record {
          embeds =
              rw
                (
                  eh,
                  laws.length-unpackbits envelope.ciphertext,
                  le→ltb (room pil image) (header_bits + length envelope.ciphertext * 8) fit,
                  m.writes,
                  f.writes,
                )
                built.0;
          is_raster = built.1;
          has_channels = c.has_channels;
          same_width = c.same_width;
          same_height = c.same_height;
          same_mode = c.same_mode;
          same_size = size;
          holds_header = rw f.keeps_header m.holds;
          values = f.values;
          reads = f.reads;
          holds_ciphertext = f.holds;
          keeps_high = f.keeps_high ∙ m.keeps_high;
        }

    pub embed_image_lem :
        (header : Bytes)
        → PillowLaws pil
        → IsRaster image
        → header_bytes envelope ≡ ok header
        → length header ≡ header_len
        → header_bits + length envelope.ciphertext * 8 ≤ room pil image
        → (out : Image) × Stego header out
    embed_image_lem header plaws raster eh hsize fit =
        let c = to_channels-IsCarrier plaws image raster in
        let (marked, m) =
          write_header_lem (to_channels pil image).pixels (np.unpackbits header) c.is_raster.0
            (omega arith) (omega (arith, laws.length-unpackbits header))
            (laws.unpackbits_bits header) in
        let bits = length envelope.ciphertext * 8 in
        let (filled, f) =
          write_ciphertext_lem marked targets (np.unpackbits envelope.ciphertext) m.are_bytes
            (order_apart (room pil image) bits)
            (order_inside (room pil image) bits (length marked) (omega arith) m.same_size)
            (targets_size fit) (laws.unpackbits_bits envelope.ciphertext) in
        (
          record (to_channels pil image) { pixels = filled },
          assemble header marked filled c eh fit m f,
        )

    -- An envelope that does not fit is a CapacityError, whatever the image.
    pub embed_image_too_large :
        (header : Bytes)
        → header_bytes envelope ≡ ok header
        → room pil image < header_bits + length envelope.ciphertext * 8
        → embed_image np pil sha image envelope
          ≡ err (capacity_error "payload exceeds image capacity")
    unfolding embed_image
    embed_image_too_large header eh big = rw (
      eh,
      laws.length-unpackbits envelope.ciphertext,
      lt→ltb (room pil image) (header_bits + length envelope.ciphertext * 8) big,
    )
