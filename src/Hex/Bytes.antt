-- ===== src/Hex/Bytes.antt =====
-- Data written as hexadecimal text and read back.
use chromatic.Base.{
  ℕ, ◌*◌, ◌/◌, ◌%◌, ◌<◌, ◌≡◌, refl, ap, Bool, true, false, List, [], ◌∷◌, ◌==◌, arith, Text, Result,
  ok, err, and_then, All, passes_below, passes_below_at, ==_iff, length,
}
use chromatic.Hex.{to_u8, scan_signed, skip_space, hex_char, parse_byte, bytes_to_hex, hex_to_bytes}

abbrev value_or : Result ℕ → ℕ
value_or (ok b) = b
value_or (err e) = 256

byte_table :
    passes_below
      (λ b. value_or (parse_byte (hex_char (b / 16 % 16) ∷ hex_char (b % 16) ∷ [])) == b)
      256
    ≡ true
unfolding passes_below parse_byte hex_char
byte_table = refl

ok_of_value : (r : Result ℕ) (b : ℕ) → b < 256 → value_or r ≡ b → r ≡ ok b
ok_of_value (ok c) b h e = ap ok e
ok_of_value (err x) b h e = absurd (omega arith)

parse_byte-hex_char :
    (b : ℕ) → b < 256 → parse_byte (hex_char (b / 16 % 16) ∷ hex_char (b % 16) ∷ []) ≡ ok b
parse_byte-hex_char b h = ok_of_value _ b h ((==_iff _ b).0 (passes_below_at _ b 256 h byte_table))

abbrev pub AreBytes : List ℕ → Type 0
AreBytes = All (λ b. b < 256)

-- Bytes written by bytesToHex are read back by hexToBytes unchanged, whatever their values below
-- 256 and their number; the text has two characters for each byte.
pub hex_to_bytes-bytes_to_hex :
    (bs : List ℕ)
    → AreBytes bs
    → (hex_to_bytes (bytes_to_hex bs) ≡ ok bs) × (length (bytes_to_hex bs) ≡ 2 * length bs)
unfolding hex_to_bytes bytes_to_hex
hex_to_bytes-bytes_to_hex [] h = (refl, refl)
hex_to_bytes-bytes_to_hex (b ∷ bs) (hb, hs) =
    let (back, long) = hex_to_bytes-bytes_to_hex bs hs in
    (rw (parse_byte-hex_char b hb, back), omega arith)

-- A parsed byte is one.
pub parse_byte-lt : (s : Text) {b : ℕ} → parse_byte s ≡ ok b → b < 256
unfolding parse_byte to_u8
parse_byte-lt s {b} h = of_scan (scan_signed (skip_space s)) h
  where
    of_scan : (r : Result (Bool × ℕ)) → and_then r to_u8 ≡ ok b → b < 256
    of_scan (ok (true, m)) h = ground arith
    of_scan (ok (false, m)) h = ground arith
    of_scan (err x) h = cc
