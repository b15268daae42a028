-- ===== src/Ffi.antt =====
-- src/core/bindings/native_ffi.cc: calls of native functions and callbacks from them. libffi is a
-- parameter, and so is the text of float and double. A value of up to 64 bits is its number.
pub mod Decimal
pub mod Callbacks
pub mod Values
use chromatic.Base.{
  ℕ, zero, suc, ◌+◌, ◌-◌, ◌*◌, ◌%◌, ◌^◌, ◌==◌, Bool, true, false, not, ◌&&◌, ◌||◌, if◌then◌else◌,
  ltb, List, [], ◌∷◌, map, Option, none, some, Text, codes, text_eq, get_or, length, lookup, erase,
  assign, Result, ok, err, runtime_error, and_then, Outcome, done, throw, M, lift, ◌>>=◌,
}
use chromatic.Hex.{u64_mod, to_hex_addr, parse_hex_addr}
use chromatic.Platform.{Os, windows, linux, android, darwin, Arch, x64, arm64}
use chromatic.Ffi.Decimal.{to_string, to_string_signed, stoll, stoull, stoi}

pub data FfiType : Type 0 where
  ffi_type_void ffi_type_sint32 ffi_type_uint32 ffi_type_sint64 ffi_type_uint64 ffi_type_sint8
        ffi_type_uint8 ffi_type_sint16 ffi_type_uint16 ffi_type_float ffi_type_double
        ffi_type_pointer :
      FfiType

-- The comparison with each of the names of a type.
unfoldable pub one_of : Text → List Text → Bool
one_of name [] = false
one_of name (t ∷ ts) = text_eq name t || one_of name ts

unfoldable pub get_ffi_type : Text → FfiType
unfolding one_of
get_ffi_type name =
    if text_eq name (codes "void")
    then ffi_type_void
    else if one_of name (codes "int" ∷ codes "int32" ∷ codes "sint32" ∷ [])
    then ffi_type_sint32
    else if one_of name (codes "uint" ∷ codes "uint32" ∷ [])
    then ffi_type_uint32
    else if one_of name (codes "long" ∷ codes "int64" ∷ codes "sint64" ∷ [])
    then ffi_type_sint64
    else if one_of name (codes "ulong" ∷ codes "uint64" ∷ [])
    then ffi_type_uint64
    else if one_of name (codes "int8" ∷ codes "sint8" ∷ codes "char" ∷ [])
    then ffi_type_sint8
    else if one_of name (codes "uint8" ∷ codes "uchar" ∷ [])
    then ffi_type_uint8
    else if one_of name (codes "int16" ∷ codes "sint16" ∷ codes "short" ∷ [])
    then ffi_type_sint16
    else if one_of name (codes "uint16" ∷ codes "ushort" ∷ [])
    then ffi_type_uint16
    else if text_eq name (codes "float")
    then ffi_type_float
    else if text_eq name (codes "double")
    then ffi_type_double
    else if one_of name (codes "pointer" ∷ codes "bool" ∷ [])
    then ffi_type_pointer
    else ffi_type_void

pub data FfiAbi : Type 0 where
  ffi_default_abi ffi_win64 ffi_stdcall : FfiAbi

unfoldable pub get_ffi_abi : Os → Arch → Text → FfiAbi
get_ffi_abi windows x64 abi =
    if text_eq abi (codes "default") || text_eq abi []
    then ffi_default_abi
    else if text_eq abi (codes "win64")
    then ffi_win64
    else ffi_default_abi
get_ffi_abi windows arm64 abi =
    if text_eq abi (codes "default") || text_eq abi []
    then ffi_default_abi
    else if text_eq abi (codes "stdcall")
    then ffi_stdcall
    else ffi_default_abi
get_ffi_abi linux arch abi = ffi_default_abi
get_ffi_abi android arch abi = ffi_default_abi
get_ffi_abi darwin arch abi = ffi_default_abi

-- libffi and the functions on float and double: `prep_cif` is whether ffi_prep_cif returns FFI_OK, `call`
-- gives the 64 bits that ffi_call leaves in the result, `closure_alloc` a closure and its code address
-- next to the live ones, and `prep_closure_loc` is whether ffi_prep_closure_loc returns FFI_OK.
pub record Libffi : Type 0 where
  pub prep_cif : FfiAbi → FfiType → List FfiType → Bool
  pub call : FfiAbi → ℕ → FfiType → List FfiType → List ℕ → ℕ
  pub closure_alloc : List ℕ → Option (ℕ × ℕ)
  pub prep_closure_loc : ℕ → ℕ → Bool
  pub stof : Text → Result ℕ
  pub stod : Text → Result ℕ
  pub float_to_string : ℕ → Text
  pub double_to_string : ℕ → Text

-- `s.find("0x") == 0 || s.find("0X") == 0`.
unfoldable pub has_hex_prefix : Text → Bool
has_hex_prefix [] = false
has_hex_prefix (z ∷ []) = false
has_hex_prefix (z ∷ x ∷ s) = (z == b'0') && ((x == b'x') || (x == b'X'))

unfoldable pub convert_integer : Text → Result ℕ
unfolding has_hex_prefix
convert_integer arg = if has_hex_prefix arg then parse_hex_addr arg else stoll arg

-- The int64_t of a value that `int` holds.
unfoldable pub widen_int : ℕ → ℕ
widen_int n = let r = n % 2 ^ 32 in if ltb r (2 ^ 31) then r else r + (u64_mod - 2 ^ 32)

module _ (f : Libffi) where
  -- What is stored for an argument.
  unfoldable pub convert_arg : FfiType → Text → Result ℕ
  unfolding convert_integer
  convert_arg ffi_type_pointer arg = parse_hex_addr arg
  convert_arg ffi_type_float arg = f.stof arg
  convert_arg ffi_type_double arg = f.stod arg
  convert_arg type arg = convert_integer arg

  -- The loop over the argument types; `beyond` stands for what is read behind the end of `args`.
  unfoldable pub convert_args : Text → List FfiType → List Text → Result (List ℕ)
  unfolding convert_arg
  convert_args beyond [] args = ok []
  convert_args beyond (t ∷ ts) [] =
      and_then (convert_arg t beyond)
        (λ v. and_then (convert_args beyond ts []) (λ vs. ok (v ∷ vs)))
  convert_args beyond (t ∷ ts) (a ∷ args) =
      and_then (convert_arg t a) (λ v. and_then (convert_args beyond ts args) (λ vs. ok (v ∷ vs)))

  -- The text of the result, by the name of its type.
  unfoldable pub format_result : Text → ℕ → Text
  unfolding widen_int one_of
  format_result ret_type value =
      if text_eq ret_type (codes "void")
      then codes "0"
      else if text_eq ret_type (codes "pointer")
      then to_hex_addr value
      else if text_eq ret_type (codes "float")
      then f.float_to_string value
      else if text_eq ret_type (codes "double")
      then f.double_to_string value
      else if one_of ret_type (codes "int64" ∷ codes "sint64" ∷ codes "long" ∷ [])
      then to_string_signed value
      else if one_of ret_type (codes "uint64" ∷ codes "ulong" ∷ [])
      then to_string value
      else to_string_signed (widen_int value)

  -- NativeFFI::callFunction.
  unfoldable pub call_function :
      Os → Arch → Text → Text → Text → List Text → List Text → Text → Result Text
  unfolding get_ffi_type get_ffi_abi convert_args format_result
  call_function os arch beyond address ret_type arg_types args abi =
      and_then (parse_hex_addr address) λ func.
        let types = map get_ffi_type arg_types in
        let ret = get_ffi_type ret_type in
        let ffi_abi = get_ffi_abi os arch abi in
        if f.prep_cif ffi_abi ret types
        then and_then (convert_args beyond types args)
            (λ values. ok (format_result ret_type (f.call ffi_abi func ret types values)))
        else err (runtime_error (codes "ffi_prep_cif failed"))

  -- The text of an argument of a callback; the types of less than 64 bits are read as an int.
  unfoldable pub serialize_arg : FfiType → ℕ → Text
  unfolding widen_int
  serialize_arg ffi_type_pointer v = to_hex_addr v
  serialize_arg ffi_type_float v = f.float_to_string v
  serialize_arg ffi_type_double v = f.double_to_string v
  serialize_arg ffi_type_sint64 v = to_string_signed v
  serialize_arg ffi_type_uint64 v = to_string v
  serialize_arg type v = to_string_signed (widen_int v)

  unfoldable pub serialize_args : List FfiType → List ℕ → List Text
  unfolding serialize_arg
  serialize_args [] values = []
  serialize_args (t ∷ ts) [] = []
  serialize_args (t ∷ ts) (v ∷ values) = serialize_arg t v ∷ serialize_args ts values

  -- What is written to the result: nothing for void.
  unfoldable pub parse_result : FfiType → Text → Result (Option ℕ)
  parse_result ffi_type_void result = ok none
  parse_result ffi_type_pointer result = and_then (parse_hex_addr result) (λ v. ok (some v))
  parse_result ffi_type_float result = and_then (f.stof result) (λ v. ok (some v))
  parse_result ffi_type_double result = and_then (f.stod result) (λ v. ok (some v))
  parse_result ffi_type_sint64 result = and_then (stoll result) (λ v. ok (some v))
  parse_result ffi_type_uint64 result = and_then (stoull result) (λ v. ok (some v))
  parse_result type result = and_then (stoi result) (λ v. ok (some (v % 2 ^ 32)))
