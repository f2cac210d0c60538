-- ===== src/Crypto/Envelope.antt =====
-- app/crypto/envelope.py: the fixed 46-byte header, and its parser.
pub mod RoundTrip
mod Tests
use what_a_secure_app_should.Base.{
  ℕ, ◌+◌, ◌*◌, List, [], ◌∷◌, ◌++◌, length, take, ltb, ◌==◌, if◌then◌else◌, not,
}
use what_a_secure_app_should.Base.Bytes.{Bytes, bytes_eq}
use what_a_secure_app_should.Base.Outcome.{Result, ok, err, envelope_error, ◌>>=◌}
use what_a_secure_app_should.Crypto.Struct.{Field, text, uint, Values, calcsize, pack, unpack}

-- b"STG1"
abbrev pub magic : Bytes
magic = 0x53 ∷ 0x54 ∷ 0x47 ∷ 0x31 ∷ []

abbrev pub format_version : ℕ
format_version = 1

abbrev pub kdf_scrypt : ℕ
kdf_scrypt = 1

-- ">4sBBIHH16s12sI"
abbrev pub header_struct : List Field
header_struct =
    text 4 ∷ uint 1 ∷ uint 1 ∷ uint 4 ∷ uint 2 ∷ uint 2 ∷ text 16 ∷ text 12 ∷ uint 4 ∷ []

abbrev pub header_len : ℕ
header_len = calcsize header_struct

pub record Envelope : Type 0 where
  pub salt : Bytes
  pub nonce : Bytes
  pub ciphertext : Bytes
  pub kdf_n : ℕ
  pub kdf_r : ℕ
  pub kdf_p : ℕ
  pub version : ℕ
  pub kdf_id : ℕ

abbrev pub header_values : Envelope → Values header_struct
header_values e = (
  magic,
  (
    e.version,
    (e.kdf_id, (e.kdf_n, (e.kdf_r, (e.kdf_p, (e.salt, (e.nonce, (length e.ciphertext, tt))))))),
  ),
)

unfoldable pub header_bytes : Envelope → Result Bytes
header_bytes e = pack header_struct (header_values e)

unfoldable pub serialize : Envelope → Result Bytes
unfolding header_bytes
serialize e = do header ← header_bytes e; ok (header ++ e.ciphertext)

pub record ParsedHeader : Type 0 where
  pub salt : Bytes
  pub nonce : Bytes
  pub ciphertext_length : ℕ
  pub kdf_n : ℕ
  pub kdf_r : ℕ
  pub kdf_p : ℕ
  pub version : ℕ
  pub kdf_id : ℕ

-- The checks of `parse_header` on the unpacked tuple, in their order.
unfoldable pub check_header : Values header_struct → Result ParsedHeader
check_header (found, (version, (kdf_id, (n, (r, (p, (salt, (nonce, (ct_len, _))))))))) =
    if not (bytes_eq found magic)
    then err (envelope_error "bad magic number")
    else if not (version == format_version)
    then err (envelope_error "unsupported format version")
    else if not (kdf_id == kdf_scrypt)
    then err (envelope_error "unsupported kdf")
    else ok (record {
      salt = salt;
      nonce = nonce;
      ciphertext_length = ct_len;
      kdf_n = n;
      kdf_r = r;
      kdf_p = p;
      version = version;
      kdf_id = kdf_id;
    })

unfoldable pub parse_header : Bytes → Result ParsedHeader
unfolding check_header
parse_header raw =
    if ltb (length raw) header_len
    then err (envelope_error "truncated header")
    else do values ← unpack header_struct (take header_len raw); check_header values
