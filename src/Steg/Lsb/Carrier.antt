-- ===== src/Steg/Lsb/Carrier.antt =====
-- `_to_channels` gives an RGB or RGBA raster of the image's own size, and leaves such an image alone.
use what_a_secure_app_should.Base.{
  ℕ, ◌*◌, ◌≡◌, refl, ◌∙◌, ◌⊎◌, inl, inr, List, length, arith, ==_iff,
}
use what_a_secure_app_should.Base.Bytes.{IsBytes}
use what_a_secure_app_should.Base.Outcome.{ok}
use what_a_secure_app_should.Packages.{
  Mode, rgb, rgba, luminance, palette, other_mode, Image, IsRaster, HasShape, Pillow, PillowLaws,
}
use what_a_secure_app_should.Steg.Capacity.{mode_channels}
use what_a_secure_app_should.Steg.Lsb.{carrier_mode, convert_unless, to_channels, rebuild}

-- RGB or RGBA.
abbrev pub HasChannels : Mode → Type 0
HasChannels m = (m ≡ rgb) ⊎ (m ≡ rgba)

pub record IsCarrier (image carrier : Image) : Type 0 where
  pub is_raster : IsRaster carrier
  pub has_channels : HasChannels carrier.mode
  pub same_mode : carrier.mode ≡ carrier_mode image.mode
  pub same_width : carrier.width ≡ image.width
  pub same_height : carrier.height ≡ image.height

module _ {pil : Pillow} (laws : PillowLaws pil) where
  converted-IsCarrier :
      (m : Mode) (w h : ℕ) (px : List ℕ)
      → carrier_mode m ≡ rgb
      → let image : Image = record { mode = m; width = w; height = h; pixels = px } in
        IsCarrier image (pil.convert rgb image)
  converted-IsCarrier m w h px e =
      let image : Image = record { mode = m; width = w; height = h; pixels = px } in
      record {
        is_raster = laws.convert-IsRaster rgb image;
        has_channels = inl (laws.mode-convert rgb image);
        same_mode = rw e (laws.mode-convert rgb image);
        same_width = laws.width-convert rgb image;
        same_height = laws.height-convert rgb image;
      }

  IsCarrier-by_mode :
      (m : Mode) (w h : ℕ) (px : List ℕ)
      → let image : Image = record { mode = m; width = w; height = h; pixels = px } in
        IsRaster image → IsCarrier image (convert_unless pil m image)
  IsCarrier-by_mode rgb w h px r = record {
    is_raster = r;
    has_channels = inl refl;
    same_mode = refl;
    same_width = refl;
    same_height = refl;
  }
  IsCarrier-by_mode rgba w h px r = record {
    is_raster = r;
    has_channels = inr refl;
    same_mode = refl;
    same_width = refl;
    same_height = refl;
  }
  IsCarrier-by_mode luminance w h px r = converted-IsCarrier luminance w h px refl
  IsCarrier-by_mode palette w h px r = converted-IsCarrier palette w h px refl
  IsCarrier-by_mode (other_mode s) w h px r = converted-IsCarrier (other_mode s) w h px refl

  pub to_channels-IsCarrier :
      (image : Image) → IsRaster image → IsCarrier image (to_channels pil image)
  unfolding to_channels
  to_channels-IsCarrier image r =
      IsCarrier-by_mode image.mode image.width image.height image.pixels r

same_if :
    (pil : Pillow) (m : Mode) (image : Image) → HasChannels m → convert_unless pil m image ≡ image
same_if pil rgb image h = refl
same_if pil rgba image h = refl
same_if pil luminance image h = absurd (ground arith)
same_if pil palette image h = absurd (ground arith)
same_if pil (other_mode s) image h = absurd (ground arith)

pub to_channels_id :
    (pil : Pillow) (image : Image) → HasChannels image.mode → to_channels pil image ≡ image
unfolding to_channels
to_channels_id pil image h = same_if pil image.mode image h

size_by_mode :
    (m : Mode) (area : ℕ) (px : List ℕ)
    → HasChannels m
    → HasShape m area px
    → length px ≡ area * mode_channels m
size_by_mode rgb area px c h = h
size_by_mode rgba area px c h = h
size_by_mode luminance area px c h = absurd (ground arith)
size_by_mode palette area px c h = absurd (ground arith)
size_by_mode (other_mode s) area px c h = absurd (ground arith)

-- The number of channel bytes of a raster.
pub raster_size :
    (image : Image)
    → HasChannels image.mode
    → IsRaster image
    → length image.pixels ≡ image.height * image.width * mode_channels image.mode
raster_size image c r = size_by_mode image.mode (image.height * image.width) image.pixels c r.1

shape_by_mode :
    (m : Mode) (area : ℕ) (px : List ℕ) → length px ≡ area * mode_channels m → HasShape m area px
shape_by_mode rgb area px h = h
shape_by_mode rgba area px h = h
shape_by_mode luminance area px h = tt
shape_by_mode palette area px h = tt
shape_by_mode (other_mode s) area px h = tt

-- An array of the carrier's size is an image of its mode and dimensions again.
pub rebuild_lem :
    (image : Image) (flat : List ℕ)
    → length flat ≡ image.height * image.width * mode_channels image.mode
    → IsBytes flat
    → (rebuild image flat ≡ ok (record image { pixels = flat }))
      × IsRaster (record image { pixels = flat })
unfolding rebuild
rebuild_lem image flat h b = (
  rw ((==_iff (length flat) (image.height * image.width * mode_channels image.mode)).1 h),
  (b, shape_by_mode image.mode (image.height * image.width) flat h),
)

channels_of_carrier : (m : Mode) → mode_channels (carrier_mode m) ≡ mode_channels m
channels_of_carrier rgb = refl
channels_of_carrier rgba = refl
channels_of_carrier luminance = refl
channels_of_carrier palette = refl
channels_of_carrier (other_mode s) = refl

-- The lowest bits that the carrier of an image offers.
pub carrier_size :
    {pil : Pillow} (laws : PillowLaws pil) (image : Image)
    → IsRaster image
    → length (to_channels pil image).pixels ≡ image.height * image.width * mode_channels image.mode
carrier_size {pil} laws image r =
    let c = to_channels-IsCarrier laws image r in
    raster_size (to_channels pil image) c.has_channels c.is_raster
    ∙ rw (c.same_mode, c.same_width, c.same_height, channels_of_carrier image.mode)
