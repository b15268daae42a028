-- ===== src/HwBreakpoint/Control.antt =====
-- DR7 bit by bit, and the mask of the slots in use.
use Prim.Native.Nat.{bit_and, min, max}
use chromatic.Base.{
  ℕ, zero, suc, ◌+◌, ◌*◌, ◌^◌, ◌<◌, ◌≡◌, refl, true, ◌==◌, if◌then◌else◌, arith, passes_below,
  passes_below_at, ==_iff, Bool-cases, inl, inr, ◌/◌, ◌%◌, ap, ◌∙◌, ◌↔◌,
}
use native.Mathlib.Nat.{pow-suc, one-le-pow}
use chromatic.Base.Bits.{low_digits, bit_and-low_digits, bit_and_digit}
use chromatic.Base.Digits.{bit, bit-bit_and, bit-bit_or, bit-lt}
use chromatic.HwBreakpoint.Slots.{
  HwBpType, on_execute, on_write, on_read_write, type_value, length_value, cleared, control,
  is_used,
}

-- What bit `i` of DR7 is to be, where it was `old`: bit 2 * slot enables the slot, bits 16 + 4 * slot
-- and the next hold its type, and the next two its length.
abbrev pub wanted_bit : ℕ → ℕ → ℕ → ℕ → ℕ → ℕ
wanted_bit slot type length i old =
    if i == slot * 2
    then 1
    else if i == 16 + slot * 4
    then bit 0 type
    else if i == 17 + slot * 4
    then bit 1 type
    else if i == 18 + slot * 4
    then bit 0 length
    else if i == 19 + slot * 4
    then bit 1 length
    else old

-- Bit `i` of the new DR7, from the bits of the masks.
abbrev written_bit : ℕ → ℕ → ℕ → ℕ → ℕ → ℕ
written_bit slot type length i old =
    max
      (min
        (max (min (max old (bit i (2 ^ (slot * 2)))) (bit i (cleared 3 (16 + slot * 4))))
          (bit i (type * 2 ^ (16 + slot * 4))))
        (bit i (cleared 3 (18 + slot * 4))))
      (bit i (length * 2 ^ (18 + slot * 4)))

masks_table :
    passes_below
      (λ i.
        passes_below
          (λ slot.
            passes_below
              (λ type.
                passes_below
                  (λ length.
                    passes_below
                      (λ old.
                        written_bit slot type length i old == wanted_bit slot type length i old)
                      2)
                  4)
              4)
          4)
      64
    ≡ true
unfolding passes_below bit
masks_table = refl

written_bit_lem :
    (slot type length i old : ℕ)
    → slot < 4
    → type < 4
    → length < 4
    → i < 64
    → old < 2
    → written_bit slot type length i old ≡ wanted_bit slot type length i old
written_bit_lem slot type length i old hs ht hl hi ho = (==_iff _ _).0 (
    passes_below_at _ old 2 ho (
      passes_below_at _ length 4 hl (
        passes_below_at _ type 4 ht
          (passes_below_at _ slot 4 hs (passes_below_at _ i 64 hi masks_table)))))

type_value-lt : (t : HwBpType) → type_value t < 4
unfolding type_value
type_value-lt on_execute = omega arith
type_value-lt on_write = omega arith
type_value-lt on_read_write = omega arith

length_value-lt : (size : ℕ) → length_value size < 4
unfolding length_value
length_value-lt size = ground arith

-- Setting a debug register of one of the four slots enables the slot in DR7, writes its type and its
-- length there, and leaves every other bit as it was, whatever the request.
pub control_bits :
    (slot : ℕ) (type : HwBpType) (size dr7 i : ℕ)
    → slot < 4
    → i < 64
    → bit i (control slot (type_value type) (length_value size) dr7)
      ≡ wanted_bit slot (type_value type) (length_value size) i (bit i dr7)
unfolding control
control_bits slot type size dr7 i hs hi =
    let t = type_value type in
    let l = length_value size in
    rw (bit-bit_or i, bit-bit_and i, bit-bit_or i, bit-bit_and i, bit-bit_or i)
      (written_bit_lem slot t l i (bit i dr7) hs (type_value-lt type) (length_value-lt size) hi
        (bit-lt i dr7))

bit_and-zero : (x : ℕ) → bit_and x 0 ≡ 0
bit_and-zero x = bit_and-low_digits x 0 ∙ none_of x x
  where
    none_of : (count y : ℕ) → low_digits count y 0 ≡ 0
    none_of zero y = refl
    none_of (suc count) zero = refl
    none_of (suc count) (suc y) = omega (arith, none_of count (suc y / 2))

bit_and-pow : (s u : ℕ) → bit_and u (2 ^ s) ≡ 2 ^ s * bit s u
unfolding bit
bit_and-pow zero u = omega (arith, bit_and_digit u 1, bit_and-zero (u / 2))
bit_and-pow (suc s) u =
    let half : 2 ^ suc s / 2 ≡ 2 ^ s = omega (arith, pow-suc 2 s) in
    let even : 2 ^ suc s % 2 ≡ 0 = omega (arith, pow-suc 2 s) in
    let rest = bit_and-pow s (u / 2) in
    let step = bit_and_digit u (2 ^ suc s) in
    let step' = rw (half, even, rest) at step in
    omega (arith, step', pow-suc 2 s, ap (λ (x : ℕ). x * bit s (u / 2)) (pow-suc 2 s))

-- The test of a slot is the test of its bit.
pub is_used_iff : (slot used : ℕ) → (is_used slot used ≡ true) ↔ (bit slot used ≡ 1)
unfolding is_used
is_used_iff slot used =
    let value = bit_and-pow slot used in
    let small = bit-lt slot used in
    let pos = one-le-pow slot 2 (omega arith) in
    elim (Bool-cases (bit slot used == 0)) [
      | inl z ↦
          let z' = (==_iff _ _).0 z in
          let none_set : bit_and used (2 ^ slot) ≡ 0 = rw (value, z') (omega arith) in
          rw none_set (λ h. cc, λ h. absurd (omega (arith, z', h)))
      | inr z ↦
          let one : bit slot used ≡ 1 = ground arith in
          let is_set : bit_and used (2 ^ slot) ≡ 2 ^ slot = rw (value, one) (omega arith) in
          rw is_set (λ h. one, λ h. ground arith)
    ]
