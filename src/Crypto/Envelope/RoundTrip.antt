-- ===== src/Crypto/Envelope/RoundTrip.antt =====
-- Parsing a serialized header gives back its fields, and an accepted header serializes to itself.
use what_a_secure_app_should.Base.{
  ltb, Bool-cases, inl, inr, ◌⊎◌, String, false, ◌==◌, ◌≤◌, ◌<◌, ◌^◌, ◌≡◌, refl, ap, ◌++◌, length,
  take, arith, le→ltb, take-append, length-append, length-take, All-take, ◌∙◌, ==_iff,
}
use what_a_secure_app_should.Base.Bytes.{bytes_eq, Bytes, IsByte, IsBytes, bytes_eq_iff}
use what_a_secure_app_should.Base.Outcome.{err, envelope_error, ok, ◌>>=◌}
use what_a_secure_app_should.Crypto.Struct.{Values, fields, unpack}
use what_a_secure_app_should.Crypto.Struct.Laws.{
  Fits, layout, pack-layout, length-layout, layout-IsBytes, unpack-layout, fields-Fits,
  layout-fields,
}
use what_a_secure_app_should.Crypto.Envelope.{
  Envelope, ParsedHeader, magic, format_version, kdf_scrypt, header_struct, header_len,
  header_values, header_bytes, check_header, parse_header,
}

-- Every field of the envelope is in the range of its place in the header.
pub record IsEncodable (e : Envelope) : Type 0 where
  pub salt_size : length e.salt ≡ 16
  pub salt_IsBytes : IsBytes e.salt
  pub nonce_size : length e.nonce ≡ 12
  pub nonce_IsBytes : IsBytes e.nonce
  pub length_fits : length e.ciphertext < 256 ^ 4
  pub n_fits : e.kdf_n < 256 ^ 4
  pub r_fits : e.kdf_r < 256 ^ 2
  pub p_fits : e.kdf_p < 256 ^ 2
  pub is_version : e.version ≡ format_version
  pub is_scrypt : e.kdf_id ≡ kdf_scrypt

header_values-Fits : (e : Envelope) → IsEncodable e → Fits header_struct (header_values e)
header_values-Fits e h = (
  refl,
  omega arith,
  (
    omega (arith, h.is_version),
    (
      omega (arith, h.is_scrypt),
      (
        h.n_fits,
        (
          h.r_fits,
          (
            h.p_fits,
            (h.salt_size, h.salt_IsBytes, (h.nonce_size, h.nonce_IsBytes, (h.length_fits, tt))),
          ),
        ),
      ),
    ),
  ),
)

-- The header that the parser should recover from an envelope.
abbrev pub header_of : Envelope → ParsedHeader
header_of e = record {
  salt = e.salt;
  nonce = e.nonce;
  ciphertext_length = length e.ciphertext;
  kdf_n = e.kdf_n;
  kdf_r = e.kdf_r;
  kdf_p = e.kdf_p;
  version = e.version;
  kdf_id = e.kdf_id;
}

-- Serializing succeeds, with 46 bytes.
pub header_bytes_lem :
    (e : Envelope)
    → IsEncodable e
    → (h : Bytes) × (header_bytes e ≡ ok h) × (length h ≡ header_len) × IsBytes h
unfolding header_bytes
header_bytes_lem e c =
    let fit = header_values-Fits e c in
    (
      layout header_struct (header_values e),
      pack-layout header_struct (header_values e) fit,
      length-layout header_struct (header_values e) fit,
      layout-IsBytes header_struct (header_values e) fit,
    )

-- On 46 bytes or more, `parse_header` is the unpacked first 46 bytes and the three checks.
pub parse_header_long :
    (raw : Bytes)
    → header_len ≤ length raw
    → parse_header raw ≡ (unpack header_struct (take header_len raw) >>= check_header)
unfolding parse_header
parse_header_long raw h = rw (le→ltb (length raw) header_len h)

check_header_of : (e : Envelope) → IsEncodable e → check_header (header_values e) ≡ ok (header_of e)
unfolding check_header
check_header_of e h =
    rw
      ((==_iff e.version format_version).1 h.is_version, (==_iff e.kdf_id kdf_scrypt).1 h.is_scrypt)

-- Whatever bytes follow the serialized header of an envelope whose version and key derivation
-- are the supported ones, and whose other fields fit their widths, `parse_header` recovers
-- every field of it.
pub parse_header-header_bytes :
    (e : Envelope) (rest : Bytes)
    → IsEncodable e
    → (header_bytes e >>= λ h. parse_header (h ++ rest)) ≡ ok (header_of e)
unfolding header_bytes
parse_header-header_bytes e rest c =
    let fit = header_values-Fits e c in
    let wide = length-layout header_struct (header_values e) fit in
    let bytes = layout header_struct (header_values e) in
    rw (pack-layout header_struct (header_values e) fit) (
      parse_header_long (bytes ++ rest) (omega (arith, length-append bytes rest, wide))
      ∙ rw (take-append header_len bytes rest wide)
          (rw (unpack-layout header_struct (header_values e) fit) (check_header_of e c)))

-- The envelope with the fields of a parsed header and some ciphertext.
abbrev pub with_ciphertext : ParsedHeader → Bytes → Envelope
with_ciphertext p ciphertext = record {
  salt = p.salt;
  nonce = p.nonce;
  ciphertext = ciphertext;
  kdf_n = p.kdf_n;
  kdf_r = p.kdf_r;
  kdf_p = p.kdf_p;
  version = p.version;
  kdf_id = p.kdf_id;
}

-- The tuple of a parsed header.
abbrev values_of : ParsedHeader → Values header_struct
values_of p = (
  magic,
  (
    p.version,
    (p.kdf_id, (p.kdf_n, (p.kdf_r, (p.kdf_p, (p.salt, (p.nonce, (p.ciphertext_length, tt))))))),
  ),
)

record Accepted (vs : Values header_struct) (p : ParsedHeader) : Type 0 where
  same : vs ≡ values_of p
  is_version : p.version ≡ format_version
  is_scrypt : p.kdf_id ≡ kdf_scrypt

check_header_inv :
    (vs : Values header_struct) (p : ParsedHeader) → check_header vs ≡ ok p → Accepted vs p
unfolding check_header
check_header_inv (m, (v, (k, (n, (r, (q, (s, (o, (l, u))))))))) p h =
    ground (arith, bytes_eq_iff m magic)

short_is_refused :
    (raw : Bytes) (p : ParsedHeader) → parse_header raw ≡ ok p → header_len ≤ length raw
unfolding parse_header
short_is_refused raw p h = ground arith

-- What an accepted byte string says of its first 46 bytes.
pub record IsHeader (raw : Bytes) (p : ParsedHeader) (ciphertext : Bytes) : Type 0 where
  pub long_enough : header_len ≤ length raw
  pub has_version : p.version ≡ format_version
  pub has_scrypt : p.kdf_id ≡ kdf_scrypt
  pub rebuilt : header_bytes (with_ciphertext p ciphertext) ≡ ok (take header_len raw)

pub unpack_46 :
    (d : Bytes) → length d ≡ header_len → unpack header_struct d ≡ ok (fields header_struct d)
unfolding unpack
unpack_46 d h = rw ((==_iff (length d) header_len).1 h)

-- A byte string that `parse_header` accepts is at least 46 bytes long, has the supported
-- version and key derivation, and its first 46 bytes are what serializing the parsed fields
-- with a ciphertext of the declared length gives.
pub parse_header-IsHeader :
    (raw : Bytes) (p : ParsedHeader) (ciphertext : Bytes)
    → IsBytes raw
    → parse_header raw ≡ ok p
    → length ciphertext ≡ p.ciphertext_length
    → IsHeader raw p ciphertext
unfolding header_bytes
parse_header-IsHeader raw p ciphertext bs h e =
    let long = short_is_refused raw p h in
    let d = take header_len raw in
    let size : length d ≡ header_len = omega (arith, length-take header_len raw) in
    let d_bytes = All-take IsByte header_len raw bs in
    let checked : check_header (fields header_struct d) ≡ ok p =
      rw (parse_header_long raw long, unpack_46 d size) at h in
    let acc = check_header_inv (fields header_struct d) p checked in
    record {
      long_enough = long;
      has_version = acc.is_version;
      has_scrypt = acc.is_scrypt;
      rebuilt =
          rw (e, ← acc.same)
            (rw
              (pack-layout header_struct (fields header_struct d)
                (fields-Fits header_struct d size d_bytes))
              (ap ok (layout-fields header_struct d size d_bytes)));
    }

check_header_outcomes :
    (vs : Values header_struct)
    → ((p : ParsedHeader) × (check_header vs ≡ ok p))
      ⊎ ((m : String) × (check_header vs ≡ err (envelope_error m)))
unfolding check_header
check_header_outcomes (m, (v, (k, (n, (r, (q, (s, (o, (l, u))))))))) =
    elim (Bool-cases (bytes_eq m magic)) [
      | inr bad ↦ inr ("bad magic number", rw bad)
      | inl good ↦ elim (Bool-cases (v == format_version)) [
        | inr bad ↦ inr ("unsupported format version", rw (good, bad))
        | inl current ↦ elim (Bool-cases (k == kdf_scrypt)) [
          | inr bad ↦ inr ("unsupported kdf", rw (good, current, bad))
          | inl known ↦ inl (
            record {
              salt = s;
              nonce = o;
              ciphertext_length = l;
              kdf_n = n;
              kdf_r = r;
              kdf_p = q;
              version = v;
              kdf_id = k;
            },
            rw (good, current, known),
          )
        ]
      ]
    ]

-- Whatever the bytes, `parse_header` returns a header or raises EnvelopeError: nothing else.
pub parse_header_outcomes :
    (raw : Bytes)
    → ((p : ParsedHeader) × (parse_header raw ≡ ok p))
      ⊎ ((m : String) × (parse_header raw ≡ err (envelope_error m)))
parse_header_outcomes raw = elim (Bool-cases (ltb (length raw) header_len)) [
  | inl short ↦ inr ("truncated header", unfold parse_header in rw short)
  | inr long ↦
      let enough = not_short raw long in
      let size : length (take header_len raw) ≡ header_len =
        omega (arith, length-take header_len raw, enough) in
      rw (parse_header_long raw enough, unpack_46 (take header_len raw) size)
        (check_header_outcomes (fields header_struct (take header_len raw)))
]
  where
    not_short : (d : Bytes) → ltb (length d) header_len ≡ false → header_len ≤ length d
    not_short d h = ground arith
