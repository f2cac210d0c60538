-- ===== src/Api/Jobs/RoundTrip.antt =====
-- app/api/v1/jobs.py: what one user embeds over the API, and anyone who has the file and the
-- passphrase extracts over the API.
use what_a_secure_app_should.Base.{
  ℕ, ◌*◌, ◌^◌, ◌≡◌, refl, ◌≤◌, ◌<◌, ◌⊎◌, inl, inr, true, false, Bool-cases, Option, none, some,
  String, [], ◌∷◌, ◌++◌, ltb, length, arith, if◌then◌else◌,
}
use what_a_secure_app_should.Base.Bytes.{Bytes}
use what_a_secure_app_should.Base.Text.{utf8, utf8-IsBytes}
use what_a_secure_app_should.Base.Outcome.{ok, err}
use what_a_secure_app_should.Packages.{
  Mode, Image, IsRaster, Pillow, PillowLaws, png_signature, Packages, PackageLaws, Entropy,
  IsEntropy, rgb, rgba,
}
use what_a_secure_app_should.Core.Config.{Settings}
use what_a_secure_app_should.Db.{User}
use what_a_secure_app_should.Files.Validators.{starts_with, allowed_mode}
use what_a_secure_app_should.Files.Validators.Accepted.{IsSafe, validate_png_of_IsSafe}
use what_a_secure_app_should.Services.{embed_payload, extract_payload}
use what_a_secure_app_should.Services.RoundTrip.{HasRoom, embed_payload_lem, extract-embedded}
use what_a_secure_app_should.Api.{Web, Uuids, serve}
use what_a_secure_app_should.Api.Jobs.{
  bad_upload, Upload, Request, Response, load_png, add_job, embed, extract, get_row,
}

-- `IsSafe` under the limits of the settings.
abbrev pub IsUpload : Settings → Pillow → Bytes → Image → Type 0
IsUpload cfg pil = IsSafe pil cfg.max_upload_bytes cfg.max_image_dimension cfg.max_decoded_pixels

abbrev pub png_response : Uuids → Request → Bytes → Response
png_response uuids request png = record {
  content = png;
  media_type = "image/png";
  headers = some (uuids.print request.job_id, request.elapsed_ms);
}

abbrev pub payload_response : Bytes → Response
payload_response payload = record {
  content = payload;
  media_type = "application/octet-stream";
  headers = none;
}

pub load_png_of_IsUpload :
    (cfg : Settings) (pil : Pillow) (upload : Upload) (img : Image) (w : Web)
    → IsUpload cfg pil upload.content img
    → load_png cfg pil upload w ≡ (ok (img, upload.content), w)
unfolding load_png
load_png_of_IsUpload cfg pil upload img w s =
    let small : ltb cfg.max_upload_bytes (length upload.content) ≡ false =
      ground (arith, s.upload_size) in
    rw
      (
        small,
        validate_png_of_IsSafe pil cfg.max_upload_bytes cfg.max_image_dimension
            cfg.max_decoded_pixels upload.content w.max_image_pixels img s,
      )
      refl

load_png_too_large :
    (cfg : Settings) (pil : Pillow) (upload : Upload) (w : Web)
    → ltb cfg.max_upload_bytes (length upload.content) ≡ true
    → (load_png cfg pil upload w).0 ≡ err bad_upload
unfolding load_png
load_png_too_large cfg pil upload w large = rw large refl

starts_with-append : (prefix rest : Bytes) → starts_with (prefix ++ rest) prefix ≡ true
starts_with-append [] rest = refl
starts_with-append (b ∷ prefix) rest = ground (arith, starts_with-append prefix rest)

-- A valid upload with room for the payload is embedded.
embed_answers :
    (cfg : Settings) (k : Packages) (uuids : Uuids) (draw : Entropy) (request : Request)
    (user : User) (upload : Upload) (passphrase payload : String) (w : Web) (img : Image)
    (png : Bytes)
    → IsUpload cfg k.pil upload.content img
    → length (utf8 payload) ≤ cfg.max_payload_bytes
    → embed_payload k draw img (utf8 payload) passphrase ≡ ok png
    → get_row request.job_id w.durable.jobs ≡ none
    → (serve (embed cfg k uuids draw request user upload passphrase payload) w).0
      ≡ ok (png_response uuids request png)
unfolding serve embed add_job
embed_answers cfg k uuids draw request user upload passphrase payload w img png safe small made
      free =
    let fits : ltb cfg.max_payload_bytes (length (utf8 payload)) ≡ false = ground arith in
    rw
      (
        load_png_of_IsUpload cfg k.pil upload img (record w { view = w.durable }) safe,
        fits,
        made,
        free,
      )
      refl

extract_answers :
    (cfg : Settings) (k : Packages) (request : Request) (user : User) (upload : Upload)
    (passphrase : String) (w : Web) (img : Image) (payload : Bytes)
    → IsUpload cfg k.pil upload.content img
    → extract_payload k img passphrase ≡ ok payload
    → get_row request.job_id w.durable.jobs ≡ none
    → (serve (extract cfg k request user upload passphrase) w).0 ≡ ok (payload_response payload)
unfolding serve extract add_job
extract_answers cfg k request user upload passphrase w img payload safe found free =
    rw (load_png_of_IsUpload cfg k.pil upload img (record w { view = w.durable }) safe, found, free)
      refl

extract_too_large :
    (cfg : Settings) (k : Packages) (request : Request) (user : User) (upload : Upload)
    (passphrase : String) (w : Web)
    → ltb cfg.max_upload_bytes (length upload.content) ≡ true
    → (serve (extract cfg k request user upload passphrase) w).0 ≡ err bad_upload
unfolding serve extract load_png
extract_too_large cfg k request user upload passphrase w large = rw large refl

allowed_channels : (m : Mode) → (m ≡ rgb) ⊎ (m ≡ rgba) → allowed_mode m ≡ true
allowed_channels m (inl e) = rw e refl
allowed_channels m (inr e) = rw e refl

module _ (cfg : Settings) (pil : Pillow) (laws : PillowLaws pil) (out : Image)
    (raster : IsRaster out) (channels : (out.mode ≡ rgb) ⊎ (out.mode ≡ rgba))
    (width : out.width ≤ cfg.max_image_dimension) (height : out.height ≤ cfg.max_image_dimension)
    (area : out.width * out.height ≤ cfg.max_decoded_pixels) where
  -- A saved image within the limits is a valid upload, unless its file is too large.
  save_png-IsUpload :
      length (pil.save_png out) ≤ cfg.max_upload_bytes → IsUpload cfg pil (pil.save_png out) out
  save_png-IsUpload small =
      let (rest, signed) = laws.save_png_signature out channels in
      record {
        not_empty = rw signed (omega arith);
        upload_size = small;
        has_magic = rw signed (starts_with-append png_signature rest);
        is_png = laws.identify-save_png cfg.max_decoded_pixels out channels area;
        verified = laws.verify-save_png cfg.max_decoded_pixels out channels area;
        loaded = laws.load-save_png cfg.max_decoded_pixels out raster channels area;
        width_limit = width;
        height_limit = height;
        pixel_limit = area;
        mode_allowed = allowed_channels out.mode channels;
      }

within_limit : (limit n : ℕ) → ltb limit n ≡ false → n ≤ limit
within_limit limit n h = ground arith

-- Where an upload is accepted, its image has room for header, payload and tag, and the payload
-- is within the limit, a served `embed` answers with a PNG, and a served `extract` of this PNG
-- with the same passphrase, by any user and in any state, refuses it only if it is larger than
-- an upload may be, and else answers with exactly the UTF-8 bytes of the payload. Assumed: the
-- laws of the packages and of the entropy, a well-formed image, a payload limit below 2 ^ 31,
-- and that no job has the drawn ids.
pub extract-embed :
    (cfg : Settings) (k : Packages) (uuids : Uuids) (draw : Entropy) (request later : Request)
    (user reader : User) (upload : Upload) (filename : Option String) (passphrase payload : String)
    (w w' : Web) (img : Image)
    → PackageLaws k
    → IsEntropy draw
    → IsUpload cfg k.pil upload.content img
    → IsRaster img
    → HasRoom img (length (utf8 payload))
    → length (utf8 payload) ≤ cfg.max_payload_bytes
    → cfg.max_payload_bytes < 2 ^ 31
    → get_row request.job_id w.durable.jobs ≡ none
    → get_row later.job_id w'.durable.jobs ≡ none
    → (png : Bytes) × ((serve (embed cfg k uuids draw request user upload passphrase payload) w).0
        ≡ ok (png_response uuids request png))
      × ((serve
            (extract cfg k later reader (record { filename = filename; content = png }) passphrase)
            w').0
          ≡ (if ltb cfg.max_upload_bytes (length png)
              then err bad_upload
              else ok (payload_response (utf8 payload))))
extract-embed cfg k uuids draw request later user reader upload filename passphrase payload w w' img
      laws entropy safe raster wide fits small free later_free =
    let bytes = utf8-IsBytes payload in
    let e =
      embed_payload_lem k laws draw entropy img raster (utf8 payload) bytes (omega arith) passphrase
        wide in
    let s = e.stego in
    let png = k.pil.save_png e.out in
    let back : Upload = record { filename = filename; content = png } in
    (
      png,
      embed_answers cfg k uuids draw request user upload passphrase payload w img png safe fits
          e.returns free,
      elim (Bool-cases (ltb cfg.max_upload_bytes (length png))) [
        | inl large ↦ rw large (extract_too_large cfg k later reader back passphrase w' large)
        | inr not_large ↦ rw not_large (
            extract_answers cfg k later reader back passphrase w' e.out (utf8 payload)
              (save_png-IsUpload cfg k.pil laws.pillow_laws e.out s.is_raster s.has_channels
                (rw s.same_width safe.width_limit) (rw s.same_height safe.height_limit)
                (rw (s.same_width, s.same_height) safe.pixel_limit)
                (within_limit cfg.max_upload_bytes (length png) not_large))
              (extract-embedded k laws draw entropy img raster (utf8 payload) bytes (omega arith)
                passphrase e)
              later_free)
      ],
    )
