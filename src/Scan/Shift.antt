-- ===== src/Scan/Shift.antt =====
-- The bad-character table of bmhScan against the matches.
use chromatic.Base.{
  ℕ, zero, suc, ◌-◌, ◌<◌, ◌≤◌, ◌≡◌, Bool, true, false, inl, inr, ◌==◌, if◌then◌else◌, arith, get_or,
  Bool-cases,
}
use chromatic.Scan.{ParsedPattern, Table, fill_step, fill, shift_table}

-- Position `j` of the pattern admits the byte `c`.
abbrev pub admits : ParsedPattern → ℕ → ℕ → Bool
admits pat j c = if get_or pat.mask j false then c == get_or pat.bytes j 0 else true

fill_step_le : (pat : ParsedPattern) (m j : ℕ) (t : Table) (c : ℕ) → fill_step pat m j t c ≤ t c
unfolding fill_step
fill_step_le pat m j t c = ground arith

fill_step-admits :
    (pat : ParsedPattern) (m j : ℕ) (t : Table) (c : ℕ)
    → admits pat j c ≡ true
    → fill_step pat m j t c ≤ m - 1 - j
unfolding fill_step
fill_step-admits pat m j t c h = ground arith

fill_step_pos :
    (pat : ParsedPattern) (m j : ℕ) (t : Table) (c : ℕ)
    → j < m - 1
    → 0 < t c
    → 0 < fill_step pat m j t c
unfolding fill_step
fill_step_pos pat m j t c h p = ground arith

fill_le_init : (pat : ParsedPattern) (m n : ℕ) (t : Table) (c : ℕ) → fill pat m n t c ≤ t c
unfolding fill
fill_le_init pat m zero t c = omega arith
fill_le_init pat m (suc n) t c =
    omega (arith, fill_step_le pat m n (fill pat m n t) c, fill_le_init pat m n t c)

fill_pos :
    (pat : ParsedPattern) (m n : ℕ) (t : Table) (c : ℕ) → n ≤ m - 1 → 0 < t c → 0 < fill pat m n t c
unfolding fill
fill_pos pat m zero t c h p = p
fill_pos pat m (suc n) t c h p =
    fill_step_pos pat m n (fill pat m n t) c (omega arith) (fill_pos pat m n t c (omega arith) p)

fill-admits :
    (pat : ParsedPattern) (m n : ℕ) (t : Table) (c j : ℕ)
    → j < n
    → admits pat j c ≡ true
    → fill pat m n t c ≤ m - 1 - j
unfolding fill
fill-admits pat m zero t c j h a = absurd (omega arith)
fill-admits pat m (suc n) t c j h a = elim (Bool-cases (j == n)) [
  | inl e ↦
      let z : j ≡ n = ground arith in
      rw z (fill_step-admits pat m n (fill pat m n t) c (rw (← z) a))
  | inr e ↦
      omega
        (arith, fill_step_le pat m n (fill pat m n t) c, fill-admits pat m n t c j (ground arith) a)
]

-- A shift is at least one place.
pub shift_table_pos : (pat : ParsedPattern) (m c : ℕ) → 0 < m → 0 < shift_table pat m c
unfolding shift_table
shift_table_pos pat m c h = ground (arith, fill_pos pat m (m - 1) (λ _. m) c)

pub shift_table_le : (pat : ParsedPattern) (m c : ℕ) → shift_table pat m c ≤ m
unfolding shift_table
shift_table_le pat m c = ground (arith, fill_le_init pat m (m - 1) (λ _. m) c)

-- Where an earlier position admits the byte under the last one, the shift does not pass it.
pub shift_table-admits :
    (pat : ParsedPattern) (m c j : ℕ)
    → j < m - 1
    → admits pat j c ≡ true
    → shift_table pat m c ≤ m - 1 - j
unfolding shift_table
shift_table-admits pat m c j h a = ground (arith, fill-admits pat m (m - 1) (λ _. m) c j h a)
