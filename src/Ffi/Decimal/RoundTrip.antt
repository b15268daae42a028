-- ===== src/Ffi/Decimal/RoundTrip.antt =====
-- Printing a number in decimal and reading it back.
use chromatic.Base.{
  ℕ, zero, suc, ◌+◌, ◌-◌, ◌*◌, ◌/◌, ◌%◌, ◌^◌, ◌<◌, ◌≡◌, refl, inl, inr, Bool, true, false, [], ◌∷◌,
  ltb, leb, ◌==◌, if◌then◌else◌, Text, ok, err, out_of_range, arith, Bool-cases, ==_iff, All,
}
use native.Mathlib.Nat.{pow-suc}
use chromatic.Hex.{u64_mod, skip_space}
use chromatic.Ffi.Decimal.{
  is_digit, digits, to_string, to_string_signed, scan_decimal, starts_with_decimal,
  decimal_magnitude, decimal_signed, in_range, stoll,
}

is_digit-code : (d : ℕ) → d < 10 → is_digit (b'0' + d) ≡ true
unfolding is_digit
is_digit-code d lt = ground arith

scan_digit :
    (d acc : ℕ) (s : Text)
    → d < 10
    → scan_decimal ((b'0' + d) ∷ s) acc ≡ scan_decimal s (acc * 10 + d)
unfolding scan_decimal
scan_digit d acc s lt =
    let back : b'0' + d - b'0' ≡ d = omega arith in rw (is_digit-code d lt, scan_decimal, back)

scan_decimal-digits :
    (f n : ℕ) (out : Text) → n < 10 ^ f → scan_decimal (digits f n out) 0 ≡ scan_decimal out n
unfolding digits
scan_decimal-digits zero n out h = let e : n ≡ 0 = omega arith in rw e
scan_decimal-digits (suc f) n out h = ground (
  arith,
  pow-suc 10 f,
  scan_decimal-digits f (n / 10) ((b'0' + n % 10) ∷ out),
  scan_digit (n % 10) (n / 10) out,
)

abbrev StartsWithDigit : Text → Type 0
StartsWithDigit [] = ⊥
StartsWithDigit (c ∷ s) = is_digit c ≡ true

StartsWithDigit-digits :
    (f n : ℕ) (out : Text)
    → n < 10 ^ f
    → (n ≡ 0 → StartsWithDigit out)
    → StartsWithDigit (digits f n out)
unfolding digits
StartsWithDigit-digits zero n out h head = head (omega arith)
StartsWithDigit-digits (suc f) n out h head = elim (Bool-cases (n == 0)) [
  | inl e ↦ rw e (head ((==_iff n 0).0 e))
  | inr e ↦ rw e (
      StartsWithDigit-digits f (n / 10) ((b'0' + n % 10) ∷ out) (omega (arith, pow-suc 10 f))
        (λ _. is_digit-code (n % 10) (omega arith)))
]

StartsWithDigit-to_string : (n : ℕ) → n < u64_mod → StartsWithDigit (to_string n)
unfolding to_string
StartsWithDigit-to_string n h = elim (Bool-cases (n == 0)) [
  | inl e ↦ rw e (is_digit-code 0 (omega arith))
  | inr e ↦ rw e (StartsWithDigit-digits 20 n [] (omega arith) (λ z. absurd (ground arith)))
]

scan_decimal-to_string : (n : ℕ) → n < u64_mod → scan_decimal (to_string n) 0 ≡ n
unfolding to_string scan_decimal
scan_decimal-to_string n h = elim (Bool-cases (n == 0)) [
  | inl e ↦ let z : n ≡ 0 = (==_iff n 0).0 e in rw (e, z) (scan_digit 0 0 [] (omega arith))
  | inr e ↦ rw e (scan_decimal-digits 20 n [] (omega arith))
]

decimal_magnitude-to_string :
    (neg : Bool) (n : ℕ) → n < u64_mod → decimal_magnitude neg (to_string n) ≡ ok (neg, n)
unfolding decimal_magnitude
decimal_magnitude-to_string neg n h =
    rw (starts (to_string n) (StartsWithDigit-to_string n h), scan_decimal-to_string n h)
  where
    starts : (s : Text) → StartsWithDigit s → starts_with_decimal s ≡ true
    starts [] h = absurd h
    starts (c ∷ s) h = rw (starts_with_decimal, h)

-- A text that starts with a digit has no blank and no sign in front.
unsigned :
    (s : Text) → StartsWithDigit s → decimal_signed (skip_space s) ≡ decimal_magnitude false s
unfolding decimal_signed is_digit skip_space
unsigned [] h = absurd h
unsigned (c ∷ s) h = ground (arith, h)

-- Every 64-bit number is read back as a signed number from its signed text.
pub stoll-to_string_signed : (n : ℕ) → n < u64_mod → stoll (to_string_signed n) ≡ ok n
unfolding stoll to_string_signed in_range decimal_signed skip_space
stoll-to_string_signed n h = elim (Bool-cases (ltb n (2 ^ 63))) [
  | inl small ↦
      rw
        (
          small,
          unsigned _ (StartsWithDigit-to_string n h),
          decimal_magnitude-to_string false n h,
          small,
        )
        refl
  | inr big ↦
      let fits : leb (u64_mod - n) (2 ^ 63) ≡ true = ground arith in
      let back : (u64_mod - (u64_mod - n)) % u64_mod ≡ n = omega (arith, h) in
      rw (big, decimal_magnitude-to_string true (u64_mod - n) (ground arith), fits, back) refl
]

-- An unsigned number is read back as a signed one only below 2^63.
pub stoll-to_string :
    (n : ℕ)
    → n < u64_mod
    → stoll (to_string n) ≡ (if ltb n (2 ^ 63) then ok n else err out_of_range)
unfolding stoll in_range
stoll-to_string n h =
    rw (unsigned _ (StartsWithDigit-to_string n h), decimal_magnitude-to_string false n h) refl

-- Every character of a printed number is a digit.
All-digits :
    (f n : ℕ) (out : Text)
    → All (λ c. is_digit c ≡ true) out
    → All (λ c. is_digit c ≡ true) (digits f n out)
unfolding digits
All-digits zero n out h = h
All-digits (suc f) n out h = elim (Bool-cases (n == 0)) [
  | inl e ↦ rw e h
  | inr e ↦ rw e (All-digits f (n / 10) _ (is_digit-code (n % 10) (omega arith), h))
]

pub All-to_string : (n : ℕ) → All (λ c. is_digit c ≡ true) (to_string n)
unfolding to_string
All-to_string n = elim (Bool-cases (n == 0)) [
  | inl e ↦ rw e (is_digit-code 0 (omega arith), tt)
  | inr e ↦ rw e (All-digits 20 n [] tt)
]
