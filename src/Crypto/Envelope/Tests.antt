-- ===== src/Crypto/Envelope/Tests.antt =====
-- The envelope theorems applied to a small envelope, and the layout of its header.
use what_a_secure_app_should.Base.{◌^◌, ◌≡◌, refl, [], ◌∷◌, ◌++◌, replicate, arith}
use what_a_secure_app_should.Base.Bytes.{Bytes, from_bytes, to_bytes}
use what_a_secure_app_should.Base.Outcome.{ok, err, envelope_error, ◌>>=◌}
use what_a_secure_app_should.Crypto.Struct.{pack, unpack, fields, fixed}
use what_a_secure_app_should.Crypto.Envelope.{
  Envelope, header_bytes, serialize, check_header, parse_header,
}
use what_a_secure_app_should.Crypto.Envelope.RoundTrip.{
  IsEncodable, IsHeader, header_of, parse_header-header_bytes, parse_header-IsHeader,
}

abbrev small : Envelope
small = record {
  salt = replicate 16 3;
  nonce = replicate 12 5;
  ciphertext = 9 ∷ 8 ∷ 7 ∷ [];
  kdf_n = 2 ^ 14;
  kdf_r = 8;
  kdf_p = 1;
  version = 1;
  kdf_id = 1;
}

small-IsEncodable : IsEncodable small
small-IsEncodable = omega arith

abbrev small_header : Bytes
small_header =
    0x53
    ∷ 0x54
    ∷ 0x47
    ∷ 0x31
    ∷ 1
    ∷ 1
    ∷ 0
    ∷ 0
    ∷ 0x40
    ∷ 0
    ∷ 0
    ∷ 8
    ∷ 0
    ∷ 1
    ∷ (replicate 16 3 ++ (replicate 12 5 ++ (0 ∷ 0 ∷ 0 ∷ 3 ∷ [])))

serialize-small : serialize small ≡ ok (small_header ++ (9 ∷ 8 ∷ 7 ∷ []))
unfolding serialize header_bytes pack fixed to_bytes
serialize-small = refl

parse_small : parse_header small_header ≡ ok (header_of small)
unfolding parse_header check_header unpack fields from_bytes
parse_small = refl

parse_truncated : parse_header (0x53 ∷ 0x54 ∷ []) ≡ err (envelope_error "truncated header")
unfolding parse_header
parse_truncated = refl

parse_header-header_bytes_example :
    (header_bytes small >>= λ h. parse_header (h ++ (9 ∷ []))) ≡ ok (header_of small)
parse_header-header_bytes_example = parse_header-header_bytes small (9 ∷ []) small-IsEncodable

parse_header-IsHeader_example : IsHeader small_header (header_of small) (1 ∷ 2 ∷ 3 ∷ [])
parse_header-IsHeader_example =
    parse_header-IsHeader small_header (header_of small) (1 ∷ 2 ∷ 3 ∷ []) (omega arith) parse_small
      refl
