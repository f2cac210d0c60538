-- ===== src/Steg/Arrays/Indexing.antt =====
-- Reading after writing, at distinct positions inside the array.
use what_a_secure_app_should.Base.{
  ℕ, zero, suc, ◌≤◌, ◌<◌, ◌≡◌, refl, ap, sym, ◌∙◌, ◌≢◌, some, List, [], ◌∷◌, length, get_elem?, set,
  take, arith, All, length-set, get_elem?-set_self, get_elem?-set_ne, get_elem?-lt,
}
use what_a_secure_app_should.Base.Bytes.{IsBytes, IsByte}
use what_a_secure_app_should.Base.Outcome.{ok}
use what_a_secure_app_should.Steg.Arrays.{gather, scatter}

-- The positions are distinct.
abbrev pub Distinct : List ℕ → Type 0
Distinct [] = Unit
Distinct (i ∷ is) = All (λ j. i ≢ j) is × Distinct is

abbrev pub Within : ℕ → ℕ → List ℕ → Type 0
Within lo hi = All (λ i. (lo ≤ i) × (i < hi))

pub length-scatter : (flat is vs : List ℕ) → length (scatter flat is vs) ≡ length flat
unfolding scatter
length-scatter flat [] vs = refl
length-scatter flat (i ∷ is) [] = refl
length-scatter flat (i ∷ is) (v ∷ vs) = length-scatter (set flat i v) is vs ∙ length-set flat i v

-- A position that is not written keeps its value.
pub get_elem?-scatter_other :
    (flat is vs : List ℕ) (j : ℕ)
    → All (λ i. j ≢ i) is
    → get_elem? (scatter flat is vs) j ≡ get_elem? flat j
unfolding scatter
get_elem?-scatter_other flat [] vs j h = refl
get_elem?-scatter_other flat (i ∷ is) [] j h = refl
get_elem?-scatter_other flat (i ∷ is) (v ∷ vs) j h =
    get_elem?-scatter_other (set flat i v) is vs j h.1 ∙ get_elem?-set_ne flat v (λ e. h.0 (sym e))

-- What was written at distinct positions is read back from them.
pub gather-scatter :
    (flat is vs : List ℕ) (n : ℕ)
    → length flat ≡ n
    → Distinct is
    → All (λ i. i < n) is
    → length is ≡ length vs
    → gather (scatter flat is vs) is ≡ ok vs
unfolding gather scatter
gather-scatter flat [] [] n e d w l = refl
gather-scatter flat [] (v ∷ vs) n e d w l = absurd (omega arith)
gather-scatter flat (i ∷ is) [] n e d w l = absurd (omega arith)
gather-scatter flat (i ∷ is) (v ∷ vs) n e d w l = rw (
  get_elem?-scatter_other (set flat i v) is vs i d.0,
  get_elem?-set_self flat i v (omega arith),
  gather-scatter (set flat i v) is vs n (length-set flat i v ∙ e) d.1 w.1 (omega arith),
)

get_elem?-IsByte : (flat : List ℕ) (i v : ℕ) → IsBytes flat → get_elem? flat i ≡ some v → IsByte v
get_elem?-IsByte [] i v b e = cc
get_elem?-IsByte (x ∷ flat) zero v b e = ground arith
get_elem?-IsByte (x ∷ flat) (suc i) v b e = get_elem?-IsByte flat i v b.1 e

pub gather_ok :
    (flat is : List ℕ)
    → All (λ i. i < length flat) is
    → IsBytes flat
    → (vs : List ℕ) × (gather flat is ≡ ok vs) × (length vs ≡ length is) × IsBytes vs
unfolding gather
gather_ok flat [] h b = ([], refl, refl, tt)
gather_ok flat (i ∷ is) h b =
    let (v, e) = get_elem?-lt flat i h.0 in
    let (vs, es, l, bs) = gather_ok flat is h.1 b in
    (v ∷ vs, rw (e, es), ap suc l, (get_elem?-IsByte flat i v b e, bs))

take-set : (n i : ℕ) (xs : List ℕ) (v : ℕ) → n ≤ i → take n (set xs i v) ≡ take n xs
take-set zero i xs v h = refl
take-set (suc n) i [] v h = refl
take-set (suc n) zero (x ∷ xs) v h = absurd (omega arith)
take-set (suc n) (suc i) (x ∷ xs) v h = ap (◌∷◌ x) (take-set n i xs v (omega arith))

-- Writes at positions from `n` on leave the first `n` values.
pub take-scatter :
    (n : ℕ) (flat is vs : List ℕ) → All (λ i. n ≤ i) is → take n (scatter flat is vs) ≡ take n flat
unfolding scatter
take-scatter n flat [] vs h = refl
take-scatter n flat (i ∷ is) [] h = refl
take-scatter n flat (i ∷ is) (v ∷ vs) h =
    take-scatter n (set flat i v) is vs h.1 ∙ take-set n i flat v h.0

set-IsBytes : (xs : List ℕ) (i v : ℕ) → IsBytes xs → IsByte v → IsBytes (set xs i v)
set-IsBytes [] i v h b = tt
set-IsBytes (x ∷ xs) zero v h b = (b, h.1)
set-IsBytes (x ∷ xs) (suc i) v h b = (h.0, set-IsBytes xs i v h.1 b)

pub scatter-IsBytes :
    (flat is vs : List ℕ) → IsBytes flat → IsBytes vs → IsBytes (scatter flat is vs)
unfolding scatter
scatter-IsBytes flat [] vs h b = h
scatter-IsBytes flat (i ∷ is) [] h b = h
scatter-IsBytes flat (i ∷ is) (v ∷ vs) h b =
    scatter-IsBytes (set flat i v) is vs (set-IsBytes flat i v h b.0) b.1
