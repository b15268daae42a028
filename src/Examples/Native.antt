-- ===== src/Examples/Native.antt =====
-- Calls of native functions and callbacks, over a library that gives out one closure after another.
use chromatic.Base.{
  ℕ, ◌-◌, ◌%◌, ◌≤◌, ◌⊎◌, ◌+◌, ◌*◌, ◌<◌, ◌≡◌, refl, ap, true, [], ◌∷◌, codes, some, none, arith,
  length, ok, err, out_of_range, if◌then◌else◌, ltb, ◌^◌, lookup,
}
use chromatic.Hex.{u64_mod}
use chromatic.Platform.{x64, linux}
use chromatic.Ffi.{Libffi, get_ffi_type, convert_arg, format_result, widen_int}
use chromatic.Ffi.Values.{convert_arg-format_result}
use chromatic.Ffi.Callbacks.{Callbacks, Undone, create_callback, create_callback-Undone}

abbrev ffi : Libffi
ffi = record {
  prep_cif = λ abi ret types. true;
  call = λ abi func ret types values. 0xffffffff80000001;
  closure_alloc = λ live. some (0x500 + length live, 0x10000 + 0x1000 * length live);
  prep_closure_loc = λ closure code. true;
  stof = λ s. ok 0;
  stod = λ s. ok 0;
  float_to_string = λ v. codes "0.000000";
  double_to_string = λ v. codes "0.000000";
}

convert_arg-format_result_example :
    (convert_arg ffi (get_ffi_type (codes "pointer")) (format_result ffi (codes "pointer") (2 ^ 63))
      ≡ ok (2 ^ 63))
    × (convert_arg ffi (get_ffi_type (codes "int64")) (format_result ffi (codes "int64") (2 ^ 63))
        ≡ ok (2 ^ 63))
    × (convert_arg ffi (get_ffi_type (codes "uint64")) (format_result ffi (codes "uint64") (2 ^ 63))
        ≡ (if ltb (2 ^ 63) (2 ^ 63) then ok (2 ^ 63) else err out_of_range))
    × (convert_arg ffi (get_ffi_type (codes "int")) (format_result ffi (codes "int") (2 ^ 63))
        ≡ ok (widen_int (2 ^ 63)))
    × (convert_arg ffi (get_ffi_type (codes "int8")) (format_result ffi (codes "int8") (2 ^ 63))
        ≡ ok (widen_int (2 ^ 63)))
    × (convert_arg ffi (get_ffi_type (codes "uint32")) (format_result ffi (codes "uint32") (2 ^ 63))
        ≡ ok (widen_int (2 ^ 63)))
    × (widen_int (2 ^ 63) % 2 ^ 32 ≡ 2 ^ 63 % 2 ^ 32)
    × ((widen_int (2 ^ 63) < 2 ^ 31) ⊎ (u64_mod - 2 ^ 31 ≤ widen_int (2 ^ 63)))
    × (widen_int (2 ^ 63) < u64_mod)
convert_arg-format_result_example = convert_arg-format_result ffi (2 ^ 63) (omega arith)

abbrev no_callbacks : Callbacks
no_callbacks = record { callbacks = []; closures = [] }

fresh_closure :
    (closure a : ℕ)
    → ffi.closure_alloc no_callbacks.closures ≡ some (closure, a)
    → (a < u64_mod) × (lookup a no_callbacks.callbacks ≡ none)
unfolding lookup
fresh_closure closure a h =
    let code : 0x10000 ≡ a = ap (λ o. elim o [ none ↦ 0 | some x ↦ x.1 ]) h in
    (omega (arith, code), refl)

create_callback-Undone_example : Undone no_callbacks (
    create_callback ffi linux x64
      (λ args. ok (codes "1"))
      (codes "int")
      (codes "pointer" ∷ [])
      (codes "default")
      no_callbacks)
create_callback-Undone_example =
    create_callback-Undone ffi linux x64 (λ args. ok (codes "1")) (codes "int")
      (codes "pointer" ∷ []) (codes "default") no_callbacks fresh_closure
