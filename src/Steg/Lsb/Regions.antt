-- ===== src/Steg/Lsb/Regions.antt =====
-- What the two writes of `embed` do to the array: the bits are there, and nothing else changed.
use mathlib.Core.List.{map-append}
use what_a_secure_app_should.Base.{
  ℕ, ◌≤◌, ◌<◌, ◌≡◌, refl, ap, sym, ◌∙◌, List, [], ◌∷◌, ◌++◌, length, take, drop, map, arith, All,
  All-take, All-drop, All-append, length-append, length-take, length-drop, take-append,
  take-append-drop, ==_iff,
}
use what_a_secure_app_should.Base.Bytes.{IsByte, IsBytes}
use what_a_secure_app_should.Base.Outcome.{ok}
use what_a_secure_app_should.Steg.Arrays.{lsb, zip_lsb, merge_bits, gather, scatter}
use what_a_secure_app_should.Steg.Arrays.Bits.{
  map-lsb-zip_lsb, length-zip_lsb, zip_lsb-IsBytes, high_bits, map-high_bits-zip_lsb,
}
use what_a_secure_app_should.Steg.Arrays.Indexing.{
  Distinct, Within, length-scatter, gather-scatter, gather_ok, take-scatter, scatter-IsBytes,
}
use what_a_secure_app_should.Steg.Arrays.HighBits.{gather-map, map-scatter}
use what_a_secure_app_should.Steg.Lsb.{header_bits, write_header, write_ciphertext}

abbrev pub AreBits : List ℕ → Type 0
AreBits = All (λ b. b < 2)

merge_ok : (xs bits : List ℕ) → length xs ≡ length bits → merge_bits xs bits ≡ ok (zip_lsb xs bits)
unfolding merge_bits
merge_ok xs bits h = rw ((==_iff (length xs) (length bits)).1 h)

-- The array after the header was written.
pub record Marked (flat bits marked : List ℕ) : Type 0 where
  pub writes : write_header flat bits ≡ ok marked
  pub same_size : length marked ≡ length flat
  pub are_bytes : IsBytes marked
  pub holds : map lsb (take header_bits marked) ≡ bits
  pub keeps_high : map high_bits marked ≡ map high_bits flat

pub write_header_lem :
    (flat bits : List ℕ)
    → IsBytes flat
    → header_bits ≤ length flat
    → length bits ≡ header_bits
    → AreBits bits
    → (marked : List ℕ) × Marked flat bits marked
unfolding write_header
write_header_lem flat bits fb long size hb =
    let head = take header_bits flat in
    let wide : length head ≡ length bits = omega (arith, length-take header_bits flat) in
    let hbytes = All-take IsByte header_bits flat fb in
    let written = zip_lsb head bits in
    let wsize : length written ≡ header_bits = length-zip_lsb head bits wide ∙ size in
    (
      written ++ drop header_bits flat,
      record {
        writes = rw (merge_ok head bits wide);
        same_size = omega (
          arith,
          length-append written (drop header_bits flat),
          length-drop header_bits flat,
          wsize,
        );
        are_bytes =
            All-append IsByte written (drop header_bits flat) (zip_lsb-IsBytes head bits hbytes hb)
              (All-drop IsByte header_bits flat fb);
        holds =
            rw (take-append header_bits written (drop header_bits flat) wsize)
              (map-lsb-zip_lsb head bits wide hbytes hb);
        keeps_high =
            rw (map-append, map-high_bits-zip_lsb head bits wide hbytes hb, ← map-append)
              (ap (map high_bits) (take-append-drop header_bits flat));
      },
    )

-- The array after the ciphertext was written.
pub record Filled (flat targets bits filled : List ℕ) : Type 0 where
  pub writes : write_ciphertext flat targets bits ≡ ok filled
  pub same_size : length filled ≡ length flat
  pub are_bytes : IsBytes filled
  pub keeps_header : take header_bits filled ≡ take header_bits flat
  pub values : List ℕ
  pub reads : gather filled targets ≡ ok values
  pub holds : map lsb values ≡ bits
  pub keeps_high : map high_bits filled ≡ map high_bits flat

Within-lo : (lo hi : ℕ) (is : List ℕ) → Within lo hi is → All (λ i. lo ≤ i) is
Within-lo lo hi [] h = tt
Within-lo lo hi (i ∷ is) h = (h.0.0, Within-lo lo hi is h.1)

pub Within-hi : (lo hi : ℕ) (is : List ℕ) → Within lo hi is → All (λ i. i < hi) is
Within-hi lo hi [] h = tt
Within-hi lo hi (i ∷ is) h = (h.0.1, Within-hi lo hi is h.1)

pub write_ciphertext_lem :
    (flat targets bits : List ℕ)
    → IsBytes flat
    → Distinct targets
    → Within header_bits (length flat) targets
    → length targets ≡ length bits
    → AreBits bits
    → (filled : List ℕ) × Filled flat targets bits filled
unfolding write_ciphertext
write_ciphertext_lem flat targets bits fb apart inside size hb =
    let below = Within-hi header_bits (length flat) targets inside in
    let (old, reads, osize, obytes) = gather_ok flat targets below fb in
    let wide : length old ≡ length bits = osize ∙ size in
    let new = zip_lsb old bits in
    let nsize : length targets ≡ length new = size ∙ sym (length-zip_lsb old bits wide) in
    (
      scatter flat targets new,
      record {
        writes = rw (reads, merge_ok old bits wide);
        same_size = length-scatter flat targets new;
        are_bytes = scatter-IsBytes flat targets new fb (zip_lsb-IsBytes old bits obytes hb);
        keeps_header =
            take-scatter header_bits flat targets new
              (Within-lo header_bits (length flat) targets inside);
        values = new;
        reads = gather-scatter flat targets new (length flat) refl apart below nsize;
        holds = map-lsb-zip_lsb old bits wide obytes hb;
        keeps_high = map-scatter high_bits (map high_bits flat) flat targets new refl (
            rw (map-high_bits-zip_lsb old bits wide obytes hb)
              (gather-map high_bits flat targets old reads));
      },
    )
