-- ===== src/Ffi/Decimal.antt =====
-- Decimal text: std::to_string, and std::stoll, std::stoull and std::stoi at base 10. A signed 64-bit
-- number is given by its two's complement.
pub mod RoundTrip
use chromatic.Base.{
  ℕ, zero, suc, ◌+◌, ◌-◌, ◌*◌, ◌/◌, ◌%◌, ◌^◌, ◌<◌, ◌≡◌, refl, inl, inr, Bool, true, false, ◌&&◌,
  List, [], ◌∷◌, ltb, leb, ◌==◌, if◌then◌else◌, Text, codes, Result, ok, err, invalid_argument,
  out_of_range, and_then, arith, Bool-cases, ==_iff, Option, none, some,
}
use native.Mathlib.Nat.{pow-suc}
use chromatic.Hex.{u64_mod, skip_space}

unfoldable pub is_digit : ℕ → Bool
is_digit c = leb b'0' c && leb c b'9'

-- The digits of a number in front of `out`, none for 0; the fuel is the number of digits.
unfoldable pub digits : ℕ → ℕ → Text → Text
digits zero n out = out
digits (suc f) n out =
    let rest = digits f (n / 10) ((b'0' + n % 10) ∷ out) in if n == 0 then out else rest

-- `std::to_string` of a number below 2^64: twenty digits hold any.
unfoldable pub to_string : ℕ → Text
to_string n = if n == 0 then b'0' ∷ [] else digits 20 n []

-- `std::to_string` of an int64_t.
unfoldable pub to_string_signed : ℕ → Text
unfolding to_string
to_string_signed n = if ltb n (2 ^ 63) then to_string n else b'-' ∷ to_string (u64_mod - n)

unfoldable pub scan_decimal : Text → ℕ → ℕ
unfolding is_digit
scan_decimal [] acc = acc
scan_decimal (c ∷ s) acc = elim (is_digit c) [
  | true ↦ scan_decimal s (acc * 10 + (c - b'0'))
  | false ↦ acc
]

unfoldable pub starts_with_decimal : Text → Bool
unfolding is_digit
starts_with_decimal [] = false
starts_with_decimal (c ∷ s) = is_digit c

unfoldable pub decimal_magnitude : Bool → Text → Result (Bool × ℕ)
unfolding starts_with_decimal scan_decimal
decimal_magnitude neg s =
    if starts_with_decimal s then ok (neg, scan_decimal s 0) else err invalid_argument

-- The sign (true for minus) and the magnitude, with no bound yet.
unfoldable pub decimal_signed : Text → Result (Bool × ℕ)
unfolding decimal_magnitude
decimal_signed [] = err invalid_argument
decimal_signed (c ∷ s) =
    if c == b'-'
    then decimal_magnitude true s
    else if c == b'+'
    then decimal_magnitude false s
    else decimal_magnitude false (c ∷ s)

-- A sign and a magnitude as a number of `2 * half` values, 0 to half - 1 and -half to -1.
unfoldable pub in_range : ℕ → Bool × ℕ → Result ℕ
in_range half (true, m) = if leb m half then ok ((u64_mod - m) % u64_mod) else err out_of_range
in_range half (false, m) = if ltb m half then ok m else err out_of_range

unfoldable pub stoll : Text → Result ℕ
unfolding decimal_signed in_range
stoll s = and_then (decimal_signed (skip_space s)) (in_range (2 ^ 63))

unfoldable pub stoi : Text → Result ℕ
unfolding decimal_signed in_range
stoi s = and_then (decimal_signed (skip_space s)) (in_range (2 ^ 31))

unfoldable pub wrapped : Bool × ℕ → Result ℕ
wrapped (neg, m) =
    if ltb m u64_mod then ok (if neg then (u64_mod - m) % u64_mod else m) else err out_of_range

-- A minus sign wraps around.
unfoldable pub stoull : Text → Result ℕ
unfolding decimal_signed wrapped
stoull s = and_then (decimal_signed (skip_space s)) wrapped
