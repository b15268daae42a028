-- ===== src/Examples/Texts.antt =====
-- Runs of the printing, parsing and scanning code, and each of their theorems at an input.
use chromatic.Base.{
  ℕ, ◌-◌, ◌*◌, ◌≡◌, refl, true, false, [], ◌∷◌, codes, length, get_or, text_eq, ok, arith,
}
use chromatic.Hex.{
  u64_mod, to_hex_addr, parse_hex_addr, hex_digits, hex_char, bytes_to_hex, hex_to_bytes,
  parse_byte,
}
use chromatic.Hex.RoundTrip.{parse_hex_addr-to_hex_addr}
use chromatic.Hex.Bytes.{hex_to_bytes-bytes_to_hex}
use chromatic.Scan.{ParsedPattern, parse_pattern, bmh_offsets, search_from, shift_table}
use chromatic.Scan.Spec.{fits, naive_offsets}
use chromatic.Scan.Horspool.{bmh_offsets-naive}

print_example : to_hex_addr 48879 ≡ codes "0xbeef"
unfolding to_hex_addr hex_digits hex_char
print_example = refl

parse_example : parse_hex_addr (codes " -0X1fz") ≡ ok (u64_mod - 31)
unfolding parse_hex_addr
parse_example = refl

parse_bare_prefix : parse_hex_addr (codes "0x") ≡ ok 0
unfolding parse_hex_addr
parse_bare_prefix = refl

odd_example : hex_to_bytes (codes "48f") ≡ ok (0x48 ∷ 0xf ∷ [])
unfolding hex_to_bytes
odd_example = refl

parse_hex_addr-to_hex_addr_example : parse_hex_addr (to_hex_addr 0xdeadbeef) ≡ ok 0xdeadbeef
parse_hex_addr-to_hex_addr_example = parse_hex_addr-to_hex_addr 0xdeadbeef (omega arith)

hex_to_bytes-bytes_to_hex_example :
    (hex_to_bytes (bytes_to_hex (0x48 ∷ 0xff ∷ [])) ≡ ok (0x48 ∷ 0xff ∷ []))
    × (length (bytes_to_hex (0x48 ∷ 0xff ∷ [])) ≡ 2 * 2)
hex_to_bytes-bytes_to_hex_example =
    hex_to_bytes-bytes_to_hex (0x48 ∷ 0xff ∷ []) (omega arith, (omega arith, tt))

-- "48 ?? 8b".
abbrev mov_pattern : ParsedPattern
mov_pattern = record { bytes = 0x48 ∷ 0 ∷ 0x8b ∷ []; mask = true ∷ false ∷ true ∷ [] }

-- 48 48 8b 8b 48 00 8b, and zeros behind it.
abbrev text_segment : ℕ → ℕ
text_segment i = get_or (0x48 ∷ 0x48 ∷ 0x8b ∷ 0x8b ∷ 0x48 ∷ 0 ∷ 0x8b ∷ []) i 0

parse_pattern_run : parse_pattern (codes "48 ?? 8b") ≡ ok mov_pattern
unfolding parse_pattern text_eq parse_byte
parse_pattern_run = refl

bmh_offsets_run : bmh_offsets mov_pattern text_segment 7 ≡ 0 ∷ 1 ∷ 4 ∷ []
unfolding bmh_offsets search_from shift_table
bmh_offsets_run = refl

bmh_offsets-naive_example :
    bmh_offsets mov_pattern text_segment 7
    ≡ naive_offsets (fits mov_pattern.bytes mov_pattern.mask text_segment) 5 0
bmh_offsets-naive_example = bmh_offsets-naive mov_pattern text_segment 7 (omega arith)
