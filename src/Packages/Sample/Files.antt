-- ===== src/Packages/Sample/Files.antt =====
-- Images whose file is the list of their parts.
use what_a_secure_app_should.Base.{
  ℕ, ◌*◌, ◌≤◌, ◌≡◌, refl, ◌⊎◌, List, [], ◌∷◌, ◌++◌, drop, arith, ltb, leb, le→leb, replicate,
  length-replicate, All-replicate, if◌then◌else◌,
}
use what_a_secure_app_should.Base.Bytes.{Bytes, IsByte, IsBytes}
use what_a_secure_app_should.Base.Outcome.{Result, ok, err, os_error}
use what_a_secure_app_should.Packages.{
  Mode, rgb, rgba, luminance, palette, other_mode, Image, HasShape, Pillow, PillowLaws,
  png_signature,
}

-- The pixels of a converted image are black.
abbrev black : Mode → ℕ → List ℕ
black rgb area = replicate (area * 3) 0
black rgba area = replicate (area * 4) 0
black _ area = []

black-HasShape : (m : Mode) (area : ℕ) → IsBytes (black m area) × HasShape m area (black m area)
black-HasShape rgb area =
    (All-replicate IsByte (area * 3) 0 (omega arith), length-replicate (area * 3) 0)
black-HasShape rgba area =
    (All-replicate IsByte (area * 4) 0 (omega arith), length-replicate (area * 4) 0)
black-HasShape luminance area = (tt, tt)
black-HasShape palette area = (tt, tt)
black-HasShape (other_mode s) area = (tt, tt)

abbrev pub sample_convert : Mode → Image → Image
sample_convert m image = record {
  mode = m;
  width = image.width;
  height = image.height;
  pixels = black m (image.height * image.width);
}

-- A file is the signature, the mode, the dimensions and the pixels.
abbrev mode_code : Mode → ℕ
mode_code rgb = 3
mode_code rgba = 4
mode_code _ = 0

abbrev code_mode : ℕ → Mode
code_mode n = if ltb n 4 then rgb else rgba

abbrev pub sample_save : Image → Bytes
sample_save image =
    png_signature ++ (mode_code image.mode ∷ image.width ∷ image.height ∷ image.pixels)

abbrev load_parts : ℕ → Bytes → Result Image
load_parts limit (m ∷ w ∷ h ∷ px) =
    if leb (w * h) limit
    then ok (record { mode = code_mode m; width = w; height = h; pixels = px })
    else err os_error
load_parts limit _ = err os_error

abbrev pub sample_load : ℕ → Bytes → Result Image
sample_load limit raw = load_parts limit (drop 8 raw)

abbrev pub sample_pillow : Pillow
sample_pillow = record {
  convert = sample_convert;
  save_png = sample_save;
  identify = λ limit raw. ok "PNG";
  verify = λ limit raw. ok tt;
  load = sample_load;
}

save_by_mode :
    (limit : ℕ) (m : Mode) (w h : ℕ) (px : List ℕ)
    → (m ≡ rgb) ⊎ (m ≡ rgba)
    → w * h ≤ limit
    → let image : Image = record { mode = m; width = w; height = h; pixels = px } in
      sample_load limit (sample_save image) ≡ ok image
save_by_mode limit rgb w h px c l = rw (le→leb (w * h) limit l)
save_by_mode limit rgba w h px c l = rw (le→leb (w * h) limit l)
save_by_mode limit luminance w h px c l = absurd (ground arith)
save_by_mode limit palette w h px c l = absurd (ground arith)
save_by_mode limit (other_mode s) w h px c l = absurd (ground arith)

pub sample_pillow_laws : PillowLaws sample_pillow
sample_pillow_laws = record {
  mode-convert = λ m image. refl;
  width-convert = λ m image. refl;
  height-convert = λ m image. refl;
  convert-IsRaster = λ m image. black-HasShape m (image.height * image.width);
  load-save_png =
      λ limit image r c l. save_by_mode limit image.mode image.width image.height image.pixels c l;
  save_png_signature = λ image c. (_, refl);
  identify-save_png = λ limit image c l. refl;
  verify-save_png = λ limit image c l. refl;
}
