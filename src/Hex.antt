-- ===== src/Hex.antt =====
-- Hexadecimal text, which every C++ binding uses for addresses, identifiers and data:
-- parseHexAddr, toHexAddr, bytesToHex and hexToBytes, with std::stoull and std::stoi at base 16.
pub mod RoundTrip
pub mod Bytes
use chromatic.Base.{
  ℕ, zero, suc, ◌+◌, ◌-◌, ◌*◌, ◌/◌, ◌%◌, ◌^◌, ◌≡◌, refl, Bool, true, false, ◌&&◌, ◌||◌, Option,
  none, some, List, [], ◌∷◌, ltb, leb, ◌==◌, if◌then◌else◌, Text, codes, Result, ok, err,
  invalid_argument, out_of_range, and_then,
}

abbrev pub u64_mod : ℕ
u64_mod = 2 ^ 64

-- "0123456789abcdef"[d].
unfoldable pub hex_char : ℕ → ℕ
hex_char d = if ltb d 10 then b'0' + d else b'a' + (d - 10)

-- The value of a digit of either case, as strtoull reads it.
unfoldable pub digit_value : ℕ → Option ℕ
digit_value c =
    if leb b'0' c && leb c b'9'
    then some (c - b'0')
    else if leb b'a' c && leb c b'f'
    then some (c - b'a' + 10)
    else if leb b'A' c && leb c b'F'
    then some (c - b'A' + 10)
    else none

-- The digits of a positive number in front of `out`; the fuel is the number of digits.
unfoldable pub hex_digits : ℕ → ℕ → Text → Text
hex_digits zero n out = out
hex_digits (suc f) n out =
    let rest = hex_digits f (n / 16) (hex_char (n % 16) ∷ out) in if n == 0 then out else rest

-- `oss << "0x" << std::hex << addr`; sixteen digits hold any 64-bit value.
unfoldable pub to_hex_addr : ℕ → Text
to_hex_addr addr = b'0' ∷ b'x' ∷ (if addr == 0 then b'0' ∷ [] else hex_digits 16 addr [])

unfoldable pub is_space : ℕ → Bool
is_space c = (c == 32) || (leb 9 c && leb c 13)

unfoldable pub skip_space : Text → Text
unfolding is_space
skip_space [] = []
skip_space (c ∷ s) = if is_space c then skip_space s else c ∷ s

-- The number that the digits at the front spell behind `acc`; reading stops at anything else.
unfoldable pub scan_value : Text → ℕ → ℕ
unfolding digit_value
scan_value [] acc = acc
scan_value (c ∷ s) acc = elim (digit_value c) [ none ↦ acc | some d ↦ scan_value s (acc * 16 + d) ]

unfoldable pub starts_with_digit : Text → Bool
unfolding digit_value
starts_with_digit [] = false
starts_with_digit (c ∷ s) = elim (digit_value c) [ none ↦ false | some d ↦ true ]

-- "0x" counts as a prefix only in front of a digit.
unfoldable pub skip_prefix : Text → Text
unfolding starts_with_digit
skip_prefix [] = []
skip_prefix (z ∷ []) = z ∷ []
skip_prefix (z ∷ x ∷ s) =
    if (z == b'0') && ((x == b'x') || (x == b'X')) && starts_with_digit s then s else z ∷ x ∷ s

-- The magnitude behind the sign, with no bound yet.
unfoldable pub scan_magnitude : Text → Result ℕ
unfolding skip_prefix scan_value
scan_magnitude s =
    let digits = skip_prefix s in
    if starts_with_digit digits then ok (scan_value digits 0) else err invalid_argument

-- A sign (true for minus) and a magnitude.
unfoldable pub scan_signed : Text → Result (Bool × ℕ)
unfolding scan_magnitude
scan_signed [] = err invalid_argument
scan_signed (c ∷ s) =
    if c == b'-'
    then and_then (scan_magnitude s) (λ m. ok (true, m))
    else if c == b'+'
    then and_then (scan_magnitude s) (λ m. ok (false, m))
    else and_then (scan_magnitude (c ∷ s)) (λ m. ok (false, m))

to_u64 : Bool × ℕ → Result ℕ
to_u64 (neg, m) =
    if ltb m u64_mod then ok (if neg then (u64_mod - m) % u64_mod else m) else err out_of_range

-- `std::stoull(s, nullptr, 16)`: a minus sign wraps around.
unfoldable pub parse_hex_addr : Text → Result ℕ
unfolding scan_signed skip_space to_u64
parse_hex_addr s = and_then (scan_signed (skip_space s)) to_u64

-- `static_cast<uint8_t>(std::stoi(s, nullptr, 16))`.
to_u8 : Bool × ℕ → Result ℕ
to_u8 (true, m) = if leb m (2 ^ 31) then ok ((256 - m % 256) % 256) else err out_of_range
to_u8 (false, m) = if ltb m (2 ^ 31) then ok (m % 256) else err out_of_range

unfoldable pub parse_byte : Text → Result ℕ
unfolding scan_signed skip_space to_u8
parse_byte s = and_then (scan_signed (skip_space s)) to_u8

-- bytesToHex of native_memory.cc: two digits for a byte.
unfoldable pub bytes_to_hex : List ℕ → Text
unfolding hex_char
bytes_to_hex [] = []
bytes_to_hex (b ∷ bs) = hex_char (b / 16 % 16) ∷ hex_char (b % 16) ∷ bytes_to_hex bs

-- hexToBytes: `substr(i, 2)` has one digit at the end of a text of odd length.
unfoldable pub hex_to_bytes : Text → Result (List ℕ)
unfolding parse_byte
hex_to_bytes [] = ok []
hex_to_bytes (c ∷ []) = and_then (parse_byte (c ∷ [])) (λ b. ok (b ∷ []))
hex_to_bytes (c ∷ d ∷ s) =
    and_then (parse_byte (c ∷ d ∷ [])) (λ b. and_then (hex_to_bytes s) (λ bs. ok (b ∷ bs)))
