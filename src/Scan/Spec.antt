-- ===== src/Scan/Spec.antt =====
-- What a scan is to find: the offsets at which the pattern matches, found by trying every offset.
use chromatic.Base.{
  ℕ, zero, suc, ◌+◌, ◌-◌, ◌<◌, ◌≡◌, refl, Bool, true, false, not, ◌&&◌, ◌||◌, List, [], ◌∷◌, inl,
  inr, ltb, leb, ◌==◌, if◌then◌else◌, arith, get_or, length, Bool-cases,
}
use chromatic.Scan.{ParsedPattern}
use chromatic.Scan.Shift.{admits}

-- The pattern fits at offset `i`, read from its first position on.
unfoldable pub fits : List ℕ → List Bool → (ℕ → ℕ) → ℕ → Bool
fits [] ks h i = true
fits (b ∷ bs) [] h i = true
fits (b ∷ bs) (k ∷ ks) h i = (not k || (h i == b)) && fits bs ks h (i + 1)

-- Every one of the `n` offsets from `i` on is tried.
unfoldable pub naive_offsets : (ℕ → Bool) → ℕ → ℕ → List ℕ
naive_offsets test zero i = []
naive_offsets test (suc n) i =
    let rest = naive_offsets test n (i + 1) in if test i then i ∷ rest else rest

pub naive_offsets_zero : (test : ℕ → Bool) (i : ℕ) → [] ≡ naive_offsets test 0 i
unfolding naive_offsets
naive_offsets_zero test i = refl

pub naive_offsets_skip :
    (test : ℕ → Bool) (s n i : ℕ)
    → ((k : ℕ) → k < s → test (i + k) ≡ false)
    → naive_offsets test n i ≡ naive_offsets test (n - s) (i + s)
unfolding naive_offsets
naive_offsets_skip test zero n i none_found =
    let e : n - 0 ≡ n = omega arith in let f : i + 0 ≡ i = omega arith in rw (e, f)
naive_offsets_skip test (suc s) zero i none_found = let e : 0 - suc s ≡ 0 = omega arith in rw e
naive_offsets_skip test (suc s) (suc n) i none_found =
    let z : i + 0 ≡ i = omega arith in
    let first : test i ≡ false = rw z at (none_found 0 (omega arith)) in
    let e : suc n - suc s ≡ n - s = omega arith in
    let f : i + suc s ≡ i + 1 + s = omega arith in
    rw (first, e, f)
      (naive_offsets_skip test s n (i + 1) (λ k lt.
        let g : i + 1 + k ≡ i + suc k = omega arith in rw g (none_found (suc k) (omega arith))))

pub fits_sound :
    (bs : List ℕ) (ks : List Bool) (h : ℕ → ℕ) (i j : ℕ)
    → fits bs ks h i ≡ true
    → j < length bs
    → admits (record { bytes = bs; mask = ks }) j (h (i + j)) ≡ true
unfolding fits
fits_sound [] ks h i j f lt = absurd (omega arith)
fits_sound (b ∷ bs) [] h i j f lt = refl
fits_sound (b ∷ bs) (k ∷ ks) h i zero f lt = let z : i + 0 ≡ i = omega arith in rw z (ground arith)
fits_sound (b ∷ bs) (k ∷ ks) h i (suc j) f lt =
    let z : i + suc j ≡ i + 1 + j = omega arith in
    rw z (fits_sound bs ks h (i + 1) j (ground arith) (omega arith))

pub fits_complete :
    (bs : List ℕ) (ks : List Bool) (h : ℕ → ℕ) (i : ℕ)
    → ((j : ℕ) → j < length bs → admits (record { bytes = bs; mask = ks }) j (h (i + j)) ≡ true)
    → fits bs ks h i ≡ true
unfolding fits
fits_complete [] ks h i a = refl
fits_complete (b ∷ bs) [] h i a = refl
fits_complete (b ∷ bs) (k ∷ ks) h i a =
    let z : i + 0 ≡ i = omega arith in
    let first = a 0 (omega arith) in
    let first' = rw z at first in
    ground (
      arith,
      first',
      fits_complete bs ks h (i + 1)
          (λ j lt. let g : i + 1 + j ≡ i + suc j = omega arith in rw g (a (suc j) (omega arith))),
    )

-- The pattern matches at offset `i` of a memory: every position that is no wildcard has its byte.
abbrev pub Matches : ParsedPattern → (ℕ → ℕ) → ℕ → Type 0
Matches pat h i =
    (j : ℕ)
    → j < length pat.bytes
    → get_or pat.mask j false ≡ true
    → h (i + j) ≡ get_or pat.bytes j 0

pub Matches-of_fits :
    (pat : ParsedPattern) (h : ℕ → ℕ) (i : ℕ) → fits pat.bytes pat.mask h i ≡ true → Matches pat h i
Matches-of_fits pat h i f j lt k = let a = fits_sound pat.bytes pat.mask h i j f lt in ground arith

pub fits_of_Matches :
    (pat : ParsedPattern) (h : ℕ → ℕ) (i : ℕ) → Matches pat h i → fits pat.bytes pat.mask h i ≡ true
fits_of_Matches pat h i m = fits_complete pat.bytes pat.mask h i λ j lt.
    elim (Bool-cases (get_or pat.mask j false)) [
      | inl k ↦ rw k (ground (arith, m j lt k))
      | inr k ↦ rw k
    ]

-- Listed in a list of offsets, as a test.
unfoldable pub listed : ℕ → List ℕ → Bool
listed i [] = false
listed i (j ∷ js) = (i == j) || listed i js

pub listed-naive :
    (test : ℕ → Bool) (n i k : ℕ)
    → listed k (naive_offsets test n i) ≡ (leb i k && ltb k (i + n) && test k)
unfolding listed naive_offsets
listed-naive test zero i k = ground arith
listed-naive test (suc n) i k = elim (Bool-cases (k == i)) [
  | inl e ↦ let z : k ≡ i = ground arith in rw z (ground (arith, listed-naive test n (i + 1) i))
  | inr e ↦ ground (arith, listed-naive test n (i + 1) k)
]
