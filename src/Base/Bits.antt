-- ===== src/Base/Bits.antt =====
-- `&` with a mask of high bits, as the code aligns addresses.
use Prim.Native.Nat.{
  ℕ, zero, suc, ◌+◌, ◌-◌, ◌*◌, ◌/◌, ◌%◌, ◌^◌, ◌≤◌, ◌<◌, min, bit_and, digits, bit_and-bitwise,
}
use mathlib.Core.Path.{◌≡◌, refl, sym, ◌∙◌}
use native.Mathlib.Omega.{arith}
use native.Mathlib.Nat.{pow-suc, one-le-pow, div-div-eq-div-mul, mul_comm}

-- `&` with a bound on the digits that are looked at.
abbrev pub low_digits : ℕ → ℕ → ℕ → ℕ
low_digits count x y = digits (λ _. zero) min count x y

low_digits-zero : (count y : ℕ) → low_digits count zero y ≡ 0
low_digits-zero zero y = refl
low_digits-zero (suc count) y = refl

-- Two bounds that the number does not exceed give the same.
low_digits-bound : (k l y x : ℕ) → (x ≤ k) × (x ≤ l) → low_digits k x y ≡ low_digits l x y
low_digits-bound k l y zero fits = low_digits-zero k y ∙ sym (low_digits-zero l y)
low_digits-bound zero l y (suc x) (k_fits, _) = absurd (omega arith)
low_digits-bound (suc k) zero y (suc x) (_, l_fits) = absurd (omega arith)
low_digits-bound (suc k) (suc l) y (suc x) (k_fits, l_fits) =
    let later = low_digits-bound k l (y / 2) (suc x / 2) (omega arith, omega arith) in
    omega (arith, later)

pub bit_and-low_digits : (x y : ℕ) → bit_and x y ≡ low_digits x x y
bit_and-low_digits x y = bit_and-bitwise x y

-- The lowest binary digit, and the others.
pub bit_and_digit : (x y : ℕ) → bit_and x y ≡ min (x % 2) (y % 2) + 2 * bit_and (x / 2) (y / 2)
bit_and_digit zero y =
    let whole : bit_and zero y ≡ 0 = bit_and-low_digits zero y in
    let half : bit_and zero (y / 2) ≡ 0 = bit_and-low_digits zero (y / 2) in
    omega (arith, whole, half)
bit_and_digit (suc x) y =
    let whole = bit_and-low_digits (suc x) y in
    let half = bit_and-low_digits (suc x / 2) (y / 2) in
    let same = low_digits-bound x (suc x / 2) (y / 2) (suc x / 2) (omega arith, omega arith) in
    omega (arith, whole, half, same)

bit_and_ones : (w a : ℕ) → a < 2 ^ w → bit_and a (2 ^ w - 1) ≡ a
bit_and_ones zero a h = let z : a ≡ 0 = omega arith in ground (arith, bit_and-low_digits 0 0)
bit_and_ones (suc w) a h =
    let half : (2 ^ suc w - 1) / 2 ≡ 2 ^ w - 1 = omega (arith, pow-suc 2 w, one-le-pow w 2) in
    let odd : (2 ^ suc w - 1) % 2 ≡ 1 = omega (arith, pow-suc 2 w, one-le-pow w 2) in
    rw
      (
        bit_and_digit a (2 ^ suc w - 1),
        half,
        odd,
        bit_and_ones w (a / 2) (omega (arith, pow-suc 2 w)),
      )
      (omega arith)

-- The low `k` bits are cleared, the others up to `w + k` bits stay.
pub bit_and_high :
    (k w a : ℕ) → a < 2 ^ (w + k) → bit_and a (2 ^ (w + k) - 2 ^ k) ≡ a / 2 ^ k * 2 ^ k
bit_and_high zero w a h =
    let z : w + 0 ≡ w = omega arith in
    let h' : a < 2 ^ w = rw z at h in rw z (omega (arith, bit_and_ones w a h'))
bit_and_high (suc k) w a h =
    let z : w + suc k ≡ suc (w + k) = omega arith in
    let h' : a < 2 ^ suc (w + k) = rw z at h in
    let low : a / 2 < 2 ^ (w + k) = omega (arith, pow-suc 2 (w + k)) in
    let half : (2 ^ suc (w + k) - 2 ^ suc k) / 2 ≡ 2 ^ (w + k) - 2 ^ k =
      omega (arith, pow-suc 2 (w + k), pow-suc 2 k) in
    let even : (2 ^ suc (w + k) - 2 ^ suc k) % 2 ≡ 0 =
      omega (arith, pow-suc 2 (w + k), pow-suc 2 k) in
    rw (z, bit_and_digit a (2 ^ suc (w + k) - 2 ^ suc k), half, even, bit_and_high k w (a / 2) low)
      (rw (pow-suc 2 k, div-div-eq-div-mul a 2 (2 ^ k), mul_comm 2 (2 ^ k)) (omega arith))
