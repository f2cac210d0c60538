-- ===== src/Steg/Arrays/HighBits.antt =====
-- A write that keeps the upper seven bits of every byte it replaces keeps those of the array.
use what_a_secure_app_should.Base.{
  ℕ, zero, suc, ◌≡◌, refl, ap, ◌∙◌, inl, inr, some, Option-cases, List, [], ◌∷◌, get_elem?, set,
  map, arith,
}
use what_a_secure_app_should.Base.Outcome.{Result, ok, err}
use what_a_secure_app_should.Steg.Arrays.{gather, scatter}

module _ (f : ℕ → ℕ) where
  get_elem?-map :
      (flat : List ℕ) (i v : ℕ) → get_elem? flat i ≡ some v → get_elem? (map f flat) i ≡ some (f v)
  get_elem?-map [] i v e = cc
  get_elem?-map (x ∷ flat) zero v e = ground arith
  get_elem?-map (x ∷ flat) (suc i) v e = get_elem?-map flat i v e

  map-set : (flat : List ℕ) (i v : ℕ) → map f (set flat i v) ≡ set (map f flat) i (f v)
  map-set [] i v = refl
  map-set (x ∷ flat) zero v = refl
  map-set (x ∷ flat) (suc i) v = ap (◌∷◌ (f x)) (map-set flat i v)

set_same : (flat : List ℕ) (i v : ℕ) → get_elem? flat i ≡ some v → set flat i v ≡ flat
set_same [] i v e = refl
set_same (x ∷ flat) zero v e = ground arith
set_same (x ∷ flat) (suc i) v e = ap (◌∷◌ x) (set_same flat i v e)

-- The first position of a successful read, and the rest of it.
record Read (flat : List ℕ) (i : ℕ) (is vs : List ℕ) : Type 0 where
  value : ℕ
  rest : List ℕ
  same : vs ≡ value ∷ rest
  there : get_elem? flat i ≡ some value
  others : gather flat is ≡ ok rest

gather_inv :
    (flat : List ℕ) (i : ℕ) (is vs : List ℕ) → gather flat (i ∷ is) ≡ ok vs → Read flat i is vs
unfolding gather
gather_inv flat i is vs h = elim (Option-cases (get_elem? flat i)) [
  | inl e ↦ absurd (ground arith)
  | inr (v, e) ↦ read_rest v e (gather flat is) refl
]
  where
    read_rest :
        (v : ℕ)
        → get_elem? flat i ≡ some v
        → (r : Result (List ℕ)) → gather flat is ≡ r
        → Read flat i is vs
    read_rest v e (ok rest) er = record {
      value = v;
      rest = rest;
      same = ground arith;
      there = e;
      others = er;
    }
    read_rest v e (err x) er = absurd (ground arith)

pub gather-map :
    (f : ℕ → ℕ) (flat is vs : List ℕ)
    → gather flat is ≡ ok vs
    → gather (map f flat) is ≡ ok (map f vs)
unfolding gather
gather-map f flat [] vs h = ground arith
gather-map f flat (i ∷ is) vs h =
    let r = gather_inv flat i is vs h in
    rw (r.same, get_elem?-map f flat i r.value r.there, gather-map f flat is r.rest r.others)

-- Where the values that are written agree, under `f`, with those that were read.
pub map-scatter :
    (f : ℕ → ℕ) (seen flat is vs : List ℕ)
    → map f flat ≡ seen
    → gather seen is ≡ ok (map f vs)
    → map f (scatter flat is vs) ≡ seen
unfolding scatter
map-scatter f seen flat [] vs e h = e
map-scatter f seen flat (i ∷ is) [] e h = e
map-scatter f seen flat (i ∷ is) (v ∷ vs) e h =
    let r = gather_inv seen i is (f v ∷ map f vs) h in
    let here : get_elem? seen i ≡ some (f v) = ground (arith, r.same, r.there) in
    let there : gather seen is ≡ ok (map f vs) = ground (arith, r.same, r.others) in
    map-scatter f seen (set flat i v) is vs (map-set f flat i v ∙ rw e (set_same seen i (f v) here))
      there
