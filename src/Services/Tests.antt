-- ===== src/Services/Tests.antt =====
-- The theorems on embedding and extraction, applied to a small image and simple packages.
use what_a_secure_app_should.Base.{◌≡◌, true, some, [], ◌∷◌, arith}
use what_a_secure_app_should.Base.Bytes.{Bytes}
use what_a_secure_app_should.Base.Outcome.{ok, err, capacity_error, ◌>>=◌}
use what_a_secure_app_should.Packages.{Image}
use what_a_secure_app_should.Packages.Sample.{
  sample_packages, sample_laws, sample_draw, sample_draw-IsEntropy, sample_image,
  sample_image-IsRaster,
}
use what_a_secure_app_should.Steg.Lsb.{to_channels}
use what_a_secure_app_should.Steg.Verifier.{verify}
use what_a_secure_app_should.Services.{embed_payload, extract_payload}
use what_a_secure_app_should.Services.RoundTrip.{
  extract_payload-embed_payload, embed_payload_refused,
}
use what_a_secure_app_should.Services.Images.{
  LooksLike, IsReadable, embed_payload-LooksLike, embed_payload-IsReadable, verify-embed_payload,
}

abbrev letter : Bytes
letter = 0x41 ∷ []

extract_payload-embed_payload_example :
    (embed_payload sample_packages sample_draw sample_image letter "pw" >>= λ png.
    sample_packages.pil.load 1000 png >>= λ reloaded. extract_payload sample_packages reloaded "pw")
    ≡ ok letter
extract_payload-embed_payload_example =
    extract_payload-embed_payload sample_packages sample_draw sample_image letter "pw" 1000
      sample_laws sample_draw-IsEntropy sample_image-IsRaster (omega arith) (omega arith)
      (omega arith) (omega arith)

embed_payload_refused_example :
    embed_payload sample_packages sample_draw sample_image (0x41 ∷ letter) "pw"
    ≡ err (capacity_error "payload exceeds image capacity")
embed_payload_refused_example =
    embed_payload_refused sample_packages sample_draw sample_image (0x41 ∷ letter) "pw" sample_laws
      sample_draw-IsEntropy sample_image-IsRaster (omega arith) (omega arith) (omega arith)

embed_payload-LooksLike_example :
    (out : Image) × (embed_payload sample_packages sample_draw sample_image letter "pw"
      ≡ ok (sample_packages.pil.save_png out))
    × LooksLike (to_channels sample_packages.pil sample_image) out
embed_payload-LooksLike_example =
    embed_payload-LooksLike sample_packages sample_draw sample_image letter "pw" sample_laws
      sample_draw-IsEntropy sample_image-IsRaster (omega arith) (omega arith) (omega arith)

embed_payload-IsReadable_example :
    (out : Image) × (embed_payload sample_packages sample_draw sample_image letter "pw"
      ≡ ok (sample_packages.pil.save_png out))
    × IsReadable sample_packages out letter "pw"
embed_payload-IsReadable_example =
    embed_payload-IsReadable sample_packages sample_draw sample_image letter "pw" sample_laws
      sample_draw-IsEntropy sample_image-IsRaster (omega arith) (omega arith) (omega arith)

verify-embed_payload_example :
    (out : Image) × (embed_payload sample_packages sample_draw sample_image letter "pw"
      ≡ ok (sample_packages.pil.save_png out))
    × (verify sample_packages out
        ≡ ok (record {
          compatible_payload_detected = true;
          envelope_structure_valid = true;
          reported_version = some 1;
          algorithm_version = some 1;
        }))
verify-embed_payload_example =
    verify-embed_payload sample_packages sample_draw sample_image letter "pw" sample_laws
      sample_draw-IsEntropy sample_image-IsRaster (omega arith) (omega arith) (omega arith)
