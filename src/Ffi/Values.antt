-- ===== src/Ffi/Values.antt =====
-- The text of a result, given back as the text of an argument.
use chromatic.Base.{
  ℕ, ◌-◌, ◌%◌, ◌≤◌, ◌⊎◌, ◌^◌, ◌<◌, ◌≡◌, refl, true, false, [], ◌∷◌, ltb, if◌then◌else◌, Text, codes,
  text_eq, ok, err, out_of_range, arith, Bool-cases, inl, inr, All,
}
use chromatic.Hex.{u64_mod}
use chromatic.Hex.RoundTrip.{parse_hex_addr-to_hex_addr}
use chromatic.Ffi.Decimal.{is_digit, to_string, to_string_signed}
use chromatic.Ffi.Decimal.RoundTrip.{stoll-to_string_signed, stoll-to_string, All-to_string}
use chromatic.Ffi.{
  Libffi, convert_arg, convert_integer, format_result, has_hex_prefix, widen_int, get_ffi_type,
}

no_prefix : (s : Text) → All (λ c. is_digit c ≡ true) s → has_hex_prefix s ≡ false
unfolding is_digit has_hex_prefix
no_prefix [] h = refl
no_prefix (z ∷ []) h = refl
no_prefix (z ∷ x ∷ s) (hz, (hx, hs)) = ground (arith, hx)

no_prefix-minus : (s : Text) → has_hex_prefix (b'-' ∷ s) ≡ false
unfolding has_hex_prefix
no_prefix-minus [] = refl
no_prefix-minus (c ∷ s) = refl

has_hex_prefix-to_string_signed : (n : ℕ) → has_hex_prefix (to_string_signed n) ≡ false
unfolding to_string_signed
has_hex_prefix-to_string_signed n = elim (Bool-cases (ltb n (2 ^ 63))) [
  | inl small ↦ rw small (no_prefix (to_string n) (All-to_string n))
  | inr big ↦ rw big (no_prefix-minus (to_string (u64_mod - n)))
]

-- A signed 64-bit number in decimal is read as an integer argument of any width.
convert_integer-to_string_signed :
    (n : ℕ) → n < u64_mod → convert_integer (to_string_signed n) ≡ ok n
unfolding convert_integer
convert_integer-to_string_signed n h =
    rw (has_hex_prefix-to_string_signed n, stoll-to_string_signed n h)

convert_integer-to_string :
    (n : ℕ)
    → n < u64_mod
    → convert_integer (to_string n) ≡ (if ltb n (2 ^ 63) then ok n else err out_of_range)
unfolding convert_integer
convert_integer-to_string n h =
    rw (no_prefix (to_string n) (All-to_string n), stoll-to_string n h) refl

widen_int-lt : (v : ℕ) → widen_int v < u64_mod
unfolding widen_int
widen_int-lt v = ground arith

widen_int-mod : (v : ℕ) → widen_int v % 2 ^ 32 ≡ v % 2 ^ 32
unfolding widen_int
widen_int-mod v = ground arith

widen_int-IsExtended : (v : ℕ) → (widen_int v < 2 ^ 31) ⊎ (u64_mod - 2 ^ 31 ≤ widen_int v)
unfolding widen_int
widen_int-IsExtended v = elim (Bool-cases (ltb (v % 2 ^ 32) (2 ^ 31))) [
  | inl small ↦ rw small (inl (ground arith))
  | inr large ↦ rw large (inr (ground arith))
]

-- For a result of 64 bits, the text that callFunction returns is read by callFunction as an argument of
-- the same type: a pointer or an int64 gives all its bits back, a uint64 does below 2^63 and is out of
-- range above, and an int, also an int8 or a uint32, gives one number, whose lowest 32 bits are those of
-- the result and whose upper 33 bits are all 0 or all 1: their int64_t.
pub convert_arg-format_result :
    (f : Libffi) (v : ℕ)
    → v < u64_mod
    → (convert_arg f (get_ffi_type (codes "pointer")) (format_result f (codes "pointer") v) ≡ ok v)
      × (convert_arg f (get_ffi_type (codes "int64")) (format_result f (codes "int64") v) ≡ ok v)
      × (convert_arg f (get_ffi_type (codes "uint64")) (format_result f (codes "uint64") v)
          ≡ (if ltb v (2 ^ 63) then ok v else err out_of_range))
      × (convert_arg f (get_ffi_type (codes "int")) (format_result f (codes "int") v)
          ≡ ok (widen_int v))
      × (convert_arg f (get_ffi_type (codes "int8")) (format_result f (codes "int8") v)
          ≡ ok (widen_int v))
      × (convert_arg f (get_ffi_type (codes "uint32")) (format_result f (codes "uint32") v)
          ≡ ok (widen_int v))
      × (widen_int v % 2 ^ 32 ≡ v % 2 ^ 32)
      × ((widen_int v < 2 ^ 31) ⊎ (u64_mod - 2 ^ 31 ≤ widen_int v))
      × (widen_int v < u64_mod)
unfolding get_ffi_type convert_arg format_result text_eq
convert_arg-format_result f v h = (
  parse_hex_addr-to_hex_addr v h,
  convert_integer-to_string_signed v h,
  convert_integer-to_string v h,
  convert_integer-to_string_signed (widen_int v) (widen_int-lt v),
  convert_integer-to_string_signed (widen_int v) (widen_int-lt v),
  convert_integer-to_string_signed (widen_int v) (widen_int-lt v),
  widen_int-mod v,
  widen_int-IsExtended v,
  widen_int-lt v,
)
