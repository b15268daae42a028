-- ===== src/Base/Digits.antt =====
-- Single bits of numbers, and what `&` and `|` make of them.
use Prim.Native.Nat.{
  ℕ, zero, suc, ◌+◌, ◌*◌, ◌/◌, ◌%◌, ◌≤◌, ◌<◌, min, max, bit_and, bit_or, digits, bit_or-bitwise,
}
use mathlib.Core.Path.{◌≡◌, refl, sym, ◌∙◌}
use native.Mathlib.Omega.{arith}
use chromatic.Base.Bits.{bit_and_digit}

-- The lowest digits of `|`, by the same recursion as those of `&`.
abbrev or_digits : ℕ → ℕ → ℕ → ℕ
or_digits count x y = digits (λ b. b) max count x y

or_digits-zero : (count y : ℕ) → or_digits count zero y ≡ y
or_digits-zero zero y = refl
or_digits-zero (suc count) y = refl

or_digits-bound : (k l y x : ℕ) → (x ≤ k) × (x ≤ l) → or_digits k x y ≡ or_digits l x y
or_digits-bound k l y zero fits = or_digits-zero k y ∙ sym (or_digits-zero l y)
or_digits-bound zero l y (suc x) (k_fits, _) = absurd (omega arith)
or_digits-bound (suc k) zero y (suc x) (_, l_fits) = absurd (omega arith)
or_digits-bound (suc k) (suc l) y (suc x) (k_fits, l_fits) =
    let later = or_digits-bound k l (y / 2) (suc x / 2) (omega arith, omega arith) in
    omega (arith, later)

bit_or-or_digits : (x y : ℕ) → bit_or x y ≡ or_digits x x y
bit_or-or_digits x y = bit_or-bitwise x y

pub bit_or_digit : (x y : ℕ) → bit_or x y ≡ max (x % 2) (y % 2) + 2 * bit_or (x / 2) (y / 2)
bit_or_digit zero y =
    let whole : bit_or zero y ≡ y = bit_or-or_digits zero y in
    let half : bit_or zero (y / 2) ≡ y / 2 = bit_or-or_digits zero (y / 2) in
    omega (arith, whole, half)
bit_or_digit (suc x) y =
    let whole = bit_or-or_digits (suc x) y in
    let half = bit_or-or_digits (suc x / 2) (y / 2) in
    let same = or_digits-bound x (suc x / 2) (y / 2) (suc x / 2) (omega arith, omega arith) in
    omega (arith, whole, half, same)

-- Bit `i` of a number.
unfoldable pub bit : ℕ → ℕ → ℕ
bit zero x = x % 2
bit (suc i) x = bit i (x / 2)

pub bit-bit_and : (i x y : ℕ) → bit i (bit_and x y) ≡ min (bit i x) (bit i y)
unfolding bit
bit-bit_and zero x y = omega (arith, bit_and_digit x y)
bit-bit_and (suc i) x y =
    let half : bit_and x y / 2 ≡ bit_and (x / 2) (y / 2) = omega (arith, bit_and_digit x y) in
    rw half (bit-bit_and i (x / 2) (y / 2))

pub bit-bit_or : (i x y : ℕ) → bit i (bit_or x y) ≡ max (bit i x) (bit i y)
unfolding bit
bit-bit_or zero x y = omega (arith, bit_or_digit x y)
bit-bit_or (suc i) x y =
    let half : bit_or x y / 2 ≡ bit_or (x / 2) (y / 2) = omega (arith, bit_or_digit x y) in
    rw half (bit-bit_or i (x / 2) (y / 2))

pub bit-lt : (i x : ℕ) → bit i x < 2
unfolding bit
bit-lt zero x = omega arith
bit-lt (suc i) x = bit-lt i (x / 2)
