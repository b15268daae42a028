-- ===== src/Hex/RoundTrip.antt =====
-- Printing an address and reading it back.
use chromatic.Base.{
  ℕ, zero, suc, ◌+◌, ◌*◌, ◌/◌, ◌%◌, ◌^◌, ◌<◌, ◌≡◌, inl, inr, refl, Bool, true, some, [], ◌∷◌, ◌==◌,
  arith, Text, codes, Result, ok, err, and_then, Bool-cases, ==_iff,
}
use native.Mathlib.Nat.{pow-suc}
use chromatic.Hex.{
  u64_mod, hex_char, digit_value, hex_digits, to_hex_addr, skip_space, scan_value,
  starts_with_digit, scan_signed, to_u64, parse_hex_addr,
}

digit_value-hex_char : (d : ℕ) → d < 16 → digit_value (hex_char d) ≡ some d
unfolding digit_value hex_char
digit_value-hex_char d h = ground arith

scan_value-digit :
    (d acc : ℕ) (s : Text) → d < 16 → scan_value (hex_char d ∷ s) acc ≡ scan_value s (acc * 16 + d)
unfolding scan_value
scan_value-digit d acc s h = rw (digit_value-hex_char d h, scan_value)

-- Reading what `hex_digits` put in front of `out` is reading `out` behind the number.
scan_value-hex_digits :
    (f n : ℕ) (out : Text) → n < 16 ^ f → scan_value (hex_digits f n out) 0 ≡ scan_value out n
unfolding hex_digits
scan_value-hex_digits zero n out h = let e : n ≡ 0 = omega arith in rw e
scan_value-hex_digits (suc f) n out h = ground (
  arith,
  pow-suc 16 f,
  scan_value-hex_digits f (n / 16) (hex_char (n % 16) ∷ out),
  scan_value-digit (n % 16) (n / 16) out,
)

-- A text of one or more hexadecimal digits.
abbrev StartsWithHex : Text → Type 0
StartsWithHex [] = ⊥
StartsWithHex (c ∷ s) = (d : ℕ) × (d < 16) × (c ≡ hex_char d)

StartsWithHex-hex_digits :
    (f n : ℕ) (out : Text)
    → n < 16 ^ f
    → (n ≡ 0 → StartsWithHex out)
    → StartsWithHex (hex_digits f n out)
unfolding hex_digits
StartsWithHex-hex_digits zero n out h head = head (omega arith)
StartsWithHex-hex_digits (suc f) n out h head = elim (Bool-cases (n == 0)) [
  | inl e ↦ rw e (head ((==_iff n 0).0 e))
  | inr e ↦ rw e (
      StartsWithHex-hex_digits f (n / 16) (hex_char (n % 16) ∷ out) (omega (arith, pow-suc 16 f))
        (λ _. (n % 16, omega arith, refl)))
]

starts_with_digit-hex : (s : Text) → StartsWithHex s → starts_with_digit s ≡ true
unfolding starts_with_digit
starts_with_digit-hex [] h = absurd h
starts_with_digit-hex (c ∷ s) (d, lt, e) = rw (e, digit_value-hex_char d lt, starts_with_digit)

-- Behind "0x" the text of digits is read whole.
parse-prefixed :
    (s : Text) (n : ℕ)
    → starts_with_digit s ≡ true
    → scan_value s 0 ≡ n
    → n < u64_mod
    → parse_hex_addr (b'0' ∷ b'x' ∷ s) ≡ ok n
unfolding parse_hex_addr
parse-prefixed s n h e lt = ground arith

parse-zero : parse_hex_addr (codes "0x0") ≡ ok 0
unfolding parse_hex_addr
parse-zero = refl

-- Every 64-bit address is read back from its printed form.
pub parse_hex_addr-to_hex_addr : (n : ℕ) → n < u64_mod → parse_hex_addr (to_hex_addr n) ≡ ok n
unfolding to_hex_addr scan_value
parse_hex_addr-to_hex_addr n h = elim (Bool-cases (n == 0)) [
  | inl e ↦ let z : n ≡ 0 = (==_iff n 0).0 e in rw z parse-zero
  | inr e ↦ rw e (
      parse-prefixed (hex_digits 16 n []) n
        (starts_with_digit-hex _
          (StartsWithHex-hex_digits 16 n [] (omega arith) (λ z. absurd (ground arith))))
        (scan_value-hex_digits 16 n [] (omega arith)) h)
]

-- So two addresses that are printed alike are one.
pub to_hex_addr_injective :
    (m n : ℕ) → m < u64_mod → n < u64_mod → to_hex_addr m ≡ to_hex_addr n → m ≡ n
to_hex_addr_injective m n hm hn e =
    ground (arith, parse_hex_addr-to_hex_addr m hm, parse_hex_addr-to_hex_addr n hn)

-- parseHexAddr never returns more than 64 bits, whatever the text.
parse_hex_addr-lt : (s : Text) {n : ℕ} → parse_hex_addr s ≡ ok n → n < u64_mod
unfolding parse_hex_addr to_u64
parse_hex_addr-lt s {n} h = elim_parsed (scan_signed (skip_space s)) h
  where
    elim_parsed : (r : Result (Bool × ℕ)) → and_then r to_u64 ≡ ok n → n < u64_mod
    elim_parsed (ok (neg, m)) h = ground arith
    elim_parsed (err x) h = cc
