-- ===== src/Steg/Permutation/Laws.antt =====
-- A permutation keeps the number of positions, their range, and that they are distinct.
use mathlib.Core.List as L
use mathlib.Core.List.{
  Mem, Perm, Nodup, Nodup-cons, mem-cons_self, mem-cons_of_mem, not-mem-nil, eq-or-mem_of_mem-cons,
}
use mathlib.Core.List.Perm
use mathlib.Core.Logic.Or
use mathlib.Core.HLevel.{×_prop, ¬_prop}
use native.Mathlib.Bridge.{from_ℕ, le_prop}
use what_a_secure_app_should.Base.{
  ℕ, zero, suc, ◌+◌, ◌-◌, ◌≤◌, ◌<◌, ◌≡◌, refl, ap, sym, ◌∙◌, ◌≢◌, List, [], ◌∷◌, length, take,
  arith, All, All-take,
}
use what_a_secure_app_should.Base.Bytes.{Bytes}
use what_a_secure_app_should.Packages.{Numpy, NumpyLaws, Hashlib}
use what_a_secure_app_should.Steg.Arrays.{arange, arange_from}
use what_a_secure_app_should.Steg.Arrays.Indexing.{Distinct, Within}
use what_a_secure_app_should.Steg.Permutation.{permuted_positions}

native_length : (xs : List ℕ) → from_ℕ (L.length xs) ≡ length xs
native_length [] = refl
native_length (x ∷ xs) = ap suc (native_length xs)

length-perm : (xs ys : List ℕ) → Perm xs ys → length xs ≡ length ys
length-perm xs ys p = sym (native_length xs) ∙ ap from_ℕ (Perm.length-eq p) ∙ native_length ys

All-of_mem {κ} : (P : ℕ → Type κ) (xs : List ℕ) → ((a : ℕ) → Mem a xs → P a) → All P xs
All-of_mem P [] h = tt
All-of_mem P (x ∷ xs) h = (h x mem-cons_self, All-of_mem P xs (λ a m. h a (mem-cons_of_mem x m)))

All-mem {κ} :
    (P : ℕ → Type κ) → ((a : ℕ) → IsProp (P a)) → (xs : List ℕ) (a : ℕ) → All P xs → Mem a xs → P a
All-mem P prop [] a h m = absurd (not-mem-nil m)
All-mem P prop (x ∷ xs) a h m =
    Or.elim (prop a) (eq-or-mem_of_mem-cons m) (λ e. rw e h.0) (All-mem P prop xs a h.1)

Within-perm : (lo hi : ℕ) (xs ys : List ℕ) → Perm xs ys → Within lo hi ys → Within lo hi xs
Within-perm lo hi xs ys p h = All-of_mem _ xs (λ a m.
    All-mem (λ i. (lo ≤ i) × (i < hi)) (λ i. ×_prop le_prop le_prop) ys a h (Perm.subset p a m))

Distinct-of_Nodup : (xs : List ℕ) → Nodup xs → Distinct xs
Distinct-of_Nodup [] h = tt
Distinct-of_Nodup (x ∷ xs) h =
    let (absent, rest) = Nodup-cons.0 h in
    (All-of_mem _ xs (λ a m e. absent (rw e m)), Distinct-of_Nodup xs rest)

Nodup-of_Distinct : (xs : List ℕ) → Distinct xs → Nodup xs
Nodup-of_Distinct [] h = L.Pairwise.nil
Nodup-of_Distinct (x ∷ xs) h =
    Nodup-cons.1 (λ m. All-mem (λ j. x ≢ j) (λ a. ¬_prop) xs x h.0 m refl, Nodup-of_Distinct xs h.1)

arange_from-Within :
    (lo start n hi : ℕ) → lo ≤ start → start + n ≤ hi → Within lo hi (arange_from start n)
arange_from-Within lo start zero hi l h = tt
arange_from-Within lo start (suc n) hi l h =
    ((l, omega arith), arange_from-Within lo (suc start) n hi (omega arith) (omega arith))

arange_from_apart : (x start n : ℕ) → x < start → All (λ j. x ≢ j) (arange_from start n)
arange_from_apart x start zero h = tt
arange_from_apart x start (suc n) h = (omega arith, arange_from_apart x (suc start) n (omega arith))

arange_from-Distinct : (start n : ℕ) → Distinct (arange_from start n)
arange_from-Distinct start zero = tt
arange_from-Distinct start (suc n) =
    (arange_from_apart start (suc start) n (omega arith), arange_from-Distinct (suc start) n)

length-arange_from : (start n : ℕ) → length (arange_from start n) ≡ n
length-arange_from start zero = refl
length-arange_from start (suc n) = ap suc (length-arange_from (suc start) n)

module _ {np : Numpy} (laws : NumpyLaws np) (sha : Hashlib) (key : Bytes) where
  pub length-permuted_positions :
      (start stop : ℕ) → length (permuted_positions np sha key (arange start stop)) ≡ stop - start
  unfolding permuted_positions
  length-permuted_positions start stop =
      length-perm _ (arange start stop) (laws.permutation-perm _ (arange start stop))
      ∙ length-arange_from start (stop - start)

  pub permuted_positions-Within :
      (start stop : ℕ)
      → start ≤ stop
      → Within start stop (permuted_positions np sha key (arange start stop))
  unfolding permuted_positions
  permuted_positions-Within start stop h =
      Within-perm start stop _ (arange start stop) (laws.permutation-perm _ (arange start stop))
        (arange_from-Within start start (stop - start) stop (omega arith) (omega arith))

  pub permuted_positions-Distinct :
      (start stop : ℕ) → Distinct (permuted_positions np sha key (arange start stop))
  unfolding permuted_positions
  permuted_positions-Distinct start stop = Distinct-of_Nodup _ (
      (Perm.Nodup-iff (laws.permutation-perm _ (arange start stop))).1
        (Nodup-of_Distinct (arange start stop) (arange_from-Distinct start (stop - start))))

pub Distinct-take : (n : ℕ) (xs : List ℕ) → Distinct xs → Distinct (take n xs)
Distinct-take zero xs h = tt
Distinct-take (suc n) [] h = tt
Distinct-take (suc n) (x ∷ xs) h = (All-take _ n xs h.0, Distinct-take n xs h.1)
