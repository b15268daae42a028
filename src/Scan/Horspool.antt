-- ===== src/Scan/Horspool.antt =====
-- bmhScan against the scan that tries every offset.
use chromatic.Base.{
  ℕ, zero, suc, ◌+◌, ◌-◌, ◌<◌, ◌≤◌, ◌≡◌, ◌∙◌, sym, ap, refl, Bool, true, false, ◌∷◌, inl, inr, ltb,
  leb, ◌==◌, arith, length, Bool-cases, leb→le,
}
use mathlib.Core.Path.{fun_ext}
use native.Mathlib.Nat.{zero-add}
use mathlib.Core.Logic.{◌↔◌}
use chromatic.Scan.{ParsedPattern, compare_from, shift_table, search_from, bmh_offsets}
use chromatic.Scan.Spec.{
  fits, naive_offsets, naive_offsets_zero, naive_offsets_skip, fits_sound, fits_complete, Matches,
  Matches-of_fits, fits_of_Matches, listed, listed-naive,
}
use chromatic.Scan.Shift.{admits, shift_table_pos, shift_table_le, shift_table-admits}

compare_from_sound :
    (pat : ParsedPattern) (h : ℕ → ℕ) (i n j : ℕ)
    → compare_from pat h i n ≡ true
    → j < n
    → admits pat j (h (i + j)) ≡ true
unfolding compare_from
compare_from_sound pat h i zero j c lt = absurd (omega arith)
compare_from_sound pat h i (suc n) j c lt = elim (Bool-cases (j == n)) [
  | inl e ↦ let z : j ≡ n = ground arith in rw z (ground arith)
  | inr e ↦ compare_from_sound pat h i n j (ground arith) (ground arith)
]

compare_from_complete :
    (pat : ParsedPattern) (h : ℕ → ℕ) (i n : ℕ)
    → ((j : ℕ) → j < n → admits pat j (h (i + j)) ≡ true)
    → compare_from pat h i n ≡ true
unfolding compare_from
compare_from_complete pat h i zero a = refl
compare_from_complete pat h i (suc n) a =
    ground (arith, a n (omega arith), compare_from_complete pat h i n (λ j lt. a j (omega arith)))

-- The shift passes over no match.
no_match_below_shift :
    (pat : ParsedPattern) (h : ℕ → ℕ) (m i k : ℕ)
    → compare_from pat h i m ≡ false
    → k < shift_table pat m (h (i + m - 1))
    → shift_table pat m (h (i + m - 1)) ≤ m
    → compare_from pat h (i + k) m ≡ false
no_match_below_shift pat h m i zero miss lt le = let z : i + 0 ≡ i = omega arith in rw z miss
no_match_below_shift pat h m i (suc k) miss lt le =
    elim (Bool-cases (compare_from pat h (i + suc k) m)) [
      | inr e ↦ e
      | inl e ↦
          let j : ℕ = m - 1 - suc k in
          let place : i + suc k + j ≡ i + m - 1 = omega arith in
          let ad = compare_from_sound pat h (i + suc k) m j e (omega arith) in
          let bound = shift_table-admits pat m (h (i + m - 1)) j (omega arith) (rw place at ad) in
          absurd (omega arith)
    ]

module _ (pat : ParsedPattern) (h : ℕ → ℕ) (len m : ℕ) (m_pos : 0 < m) where
  abbrev test : ℕ → Bool
  test i = compare_from pat h i m

  search_from_naive :
      (fuel i : ℕ)
      → len < i + fuel
      → search_from fuel (shift_table pat m) pat h len m i
        ≡ naive_offsets test (len + 1 - (i + m)) i
  unfolding search_from naive_offsets
  search_from_naive zero i enough = let e : len + 1 - (i + m) ≡ 0 = omega arith in rw e
  search_from_naive (suc fuel) i enough = elim (Bool-cases (leb (i + m) len)) [
    | inr out ↦ let e : len + 1 - (i + m) ≡ 0 = ground arith in rw (out, e)
    | inl inside ↦
        let le : i + m ≤ len = leb→le (i + m) len inside in
        elim (Bool-cases (compare_from pat h i m)) [
          | inl hit ↦
              let e : len + 1 - (i + m) ≡ suc (len + 1 - (i + 1 + m)) = omega arith in
              rw (inside, hit, e, hit) (ap (◌∷◌ i) (search_from_naive fuel (i + 1) (omega arith)))
          | inr miss ↦
              let s : ℕ = shift_table pat m (h (i + m - 1)) in
              let pos = shift_table_pos pat m (h (i + m - 1)) m_pos in
              let e : len + 1 - (i + s + m) ≡ len + 1 - (i + m) - s = omega arith in
              rw (inside, miss)
                (search_from_naive fuel (i + s) (omega arith)
                  ∙ ap (λ n. naive_offsets test n (i + s)) e
                  ∙ sym (
                      naive_offsets_skip test s (len + 1 - (i + m)) i (λ k lt.
                        no_match_below_shift pat h m i k miss lt (shift_table_le pat m _))))
        ]
  ]

eq_of_iff : (a b : Bool) → (a ≡ true → b ≡ true) → (b ≡ true → a ≡ true) → a ≡ b
eq_of_iff true b f g = sym (f refl)
eq_of_iff false true f g = g refl
eq_of_iff false false f g = refl

compare_from-fits :
    (pat : ParsedPattern) (h : ℕ → ℕ) (i : ℕ)
    → compare_from pat h i (length pat.bytes) ≡ fits pat.bytes pat.mask h i
compare_from-fits pat h i =
    eq_of_iff _ _
      (λ c.
        fits_complete pat.bytes pat.mask h i
          (λ j lt. compare_from_sound pat h i (length pat.bytes) j c lt))
      (λ f.
        compare_from_complete pat h i (length pat.bytes)
          (λ j lt. fits_sound pat.bytes pat.mask h i j f lt))

-- bmhScan finds exactly the offsets that a scan of every offset finds, in the same order, for
-- every pattern of at least one position, wildcards included, and every memory.
pub bmh_offsets-naive :
    (pat : ParsedPattern) (h : ℕ → ℕ) (len : ℕ)
    → 0 < length pat.bytes
    → bmh_offsets pat h len
      ≡ naive_offsets (fits pat.bytes pat.mask h) (len + 1 - length pat.bytes) 0
unfolding bmh_offsets
bmh_offsets-naive pat h len pos =
    let m : ℕ = length pat.bytes in
    let nonempty : (m == 0) ≡ false = ground arith in
    elim (Bool-cases (ltb len m)) [
      | inl short ↦
          let e : len + 1 - m ≡ 0 = ground arith in rw (nonempty, short, e) (naive_offsets_zero _ 0)
      | inr long ↦
          rw (nonempty, long)
            (rw (zero-add m) at (search_from_naive pat h len m pos (len + 1) 0 (omega arith))
              ∙ ap (λ t. naive_offsets t (len + 1 - m) 0) (fun_ext (compare_from-fits pat h)))
    ]

-- An offset is Reported by bmhScan exactly when the whole pattern lies inside the scanned range
-- there and every byte that is no wildcard matches.
listed-bmh_offsets :
    (pat : ParsedPattern) (h : ℕ → ℕ) (len i : ℕ)
    → 0 < length pat.bytes
    → (listed i (bmh_offsets pat h len) ≡ true) ↔ ((i + length pat.bytes ≤ len) × Matches pat h i)
listed-bmh_offsets pat h len i pos =
    let e = listed-naive (fits pat.bytes pat.mask h) (len + 1 - length pat.bytes) 0 i in
    rw (bmh_offsets-naive pat h len pos, e)
      (
        (λ t. (ground arith, Matches-of_fits pat h i (ground arith))),
        λ (inside, m). ground (arith, fits_of_Matches pat h i m),
      )
