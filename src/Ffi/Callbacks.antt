-- ===== src/Ffi/Callbacks.antt =====
-- Callbacks: closures of libffi under their code addresses, the `callbacks` of native_ffi.cc.
use chromatic.Base.{
  ℕ, ◌==◌, ◌≡◌, ◌<◌, refl, not, if◌then◌else◌, List, [], ◌∷◌, map, Option, none, some, Text, codes,
  lookup, erase, assign, erase-assign, lookup-assign, Result, ok, err, runtime_error, and_then,
  Outcome, done, throw, M, Bool-cases, Option-cases, inl, inr, ==_refl,
}
use chromatic.Hex.{u64_mod, to_hex_addr, parse_hex_addr}
use chromatic.Hex.RoundTrip.{parse_hex_addr-to_hex_addr}
use chromatic.Platform.{Os, Arch}
use chromatic.Ffi.{FfiType, FfiAbi, Libffi, get_ffi_type, get_ffi_abi, serialize_args, parse_result}

pub record CallbackInfo : Type 0 where
  pub handler : List Text → Result Text
  pub closure : ℕ
  pub code_addr : ℕ
  pub cif : FfiAbi
  pub arg_types : List FfiType
  pub ret_type : FfiType

-- `callbacks` by code address, and the closures that libffi has allocated.
pub record Callbacks : Type 0 where
  pub callbacks : List (ℕ × CallbackInfo)
  pub closures : List ℕ

unfoldable pub closure_free : ℕ → List ℕ → List ℕ
closure_free c [] = []
closure_free c (d ∷ ds) = if c == d then ds else d ∷ closure_free c ds

module _ (f : Libffi) where
  -- callbackHandler: what the native caller of a closure gets.
  unfoldable pub callback_handler : CallbackInfo → List ℕ → Result (Option ℕ)
  callback_handler info values =
      and_then (info.handler (serialize_args f info.arg_types values))
        (parse_result f info.ret_type)

  -- NativeFFI::createCallback.
  unfoldable pub create_callback :
      Os → Arch → (List Text → Result Text) → Text → List Text → Text → M Callbacks Text
  unfolding closure_free
  create_callback os arch handler ret_type arg_types abi s =
      let ret = get_ffi_type ret_type in
      let types = map get_ffi_type arg_types in
      let ffi_abi = get_ffi_abi os arch abi in
      if not (f.prep_cif ffi_abi ret types)
      then throw s (runtime_error (codes "ffi_prep_cif failed for callback"))
      else elim (f.closure_alloc s.closures) [
        | none ↦ throw s (runtime_error (codes "ffi_closure_alloc failed"))
        | some (closure, code_addr) ↦
            let closures' = closure ∷ s.closures in
            if not (f.prep_closure_loc closure code_addr)
            then throw (record s { closures = closure_free closure closures' })
                (runtime_error (codes "ffi_prep_closure_loc failed"))
            else done
                (record s {
                  closures = closures';
                  callbacks =
                      assign code_addr
                        (record {
                          handler = handler;
                          closure = closure;
                          code_addr = code_addr;
                          cif = ffi_abi;
                          arg_types = types;
                          ret_type = ret;
                        })
                        s.callbacks;
                })
                (to_hex_addr code_addr)
      ]

-- NativeFFI::destroyCallback.
unfoldable pub destroy_callback : Text → M Callbacks (Unit {0})
unfolding closure_free
destroy_callback address s = elim (parse_hex_addr address) [
  | err e ↦ throw s e
  | ok addr ↦ elim (lookup addr s.callbacks) [
    | none ↦ done s tt
    | some info ↦
        done
          (record s {
            callbacks = erase addr s.callbacks;
            closures = closure_free info.closure s.closures;
          })
          tt
  ]
]

-- A call that throws leaves `s`; of one that returns, destroyCallback undoes the whole effect.
unfoldable pub Undone : Callbacks → Outcome Callbacks Text → Type 0
Undone s (done s' text) = destroy_callback text s' ≡ done s tt
Undone s (throw s' e) = s' ≡ s

-- A callback that was added under a free address goes with its closure.
destroy_callback-assign :
    (a : ℕ) (info : CallbackInfo) (s : Callbacks)
    → a < u64_mod
    → lookup a s.callbacks ≡ none
    → destroy_callback
        (to_hex_addr a)
        (record s { callbacks = assign a info s.callbacks; closures = info.closure ∷ s.closures })
      ≡ done s tt
unfolding destroy_callback closure_free
destroy_callback-assign a info s below absent =
    let present : lookup a (assign a info s.callbacks) ≡ some info =
      rw (lookup-assign a a info s.callbacks, ==_refl a) refl in
    rw
      (
        destroy_callback,
        parse_hex_addr-to_hex_addr a below,
        present,
        erase-assign a info s.callbacks absent,
        ==_refl info.closure,
      )
      refl

-- Where ffi_closure_alloc gives 64-bit code addresses that no callback has, createCallback either throws
-- and leaves the callbacks and the closures of libffi as they were, at each of its three errors, or
-- returns the text of an address, and destroyCallback of that text puts both back.
pub create_callback-Undone :
    (f : Libffi) (os : Os) (arch : Arch) (handler : List Text → Result Text) (ret_type : Text)
    (arg_types : List Text) (abi : Text) (s : Callbacks)
    → ((closure a : ℕ)
        → f.closure_alloc s.closures ≡ some (closure, a)
        → (a < u64_mod) × (lookup a s.callbacks ≡ none))
    → Undone s (create_callback f os arch handler ret_type arg_types abi s)
unfolding create_callback Undone closure_free
create_callback-Undone f os arch handler ret_type arg_types abi s fresh =
    elim (Bool-cases
      (f.prep_cif (get_ffi_abi os arch abi) (get_ffi_type ret_type) (map get_ffi_type arg_types))) [
        | inr refused ↦ rw refused refl
        | inl prepared ↦ elim (Option-cases (f.closure_alloc s.closures)) [
          | inl missing ↦ rw (prepared, missing) refl
          | inr ((closure, code_addr), found) ↦
              elim (Bool-cases (f.prep_closure_loc closure code_addr)) [
                | inr refused ↦ rw (prepared, found, refused, ==_refl closure) refl
                | inl placed ↦
                    let (below, absent) = fresh closure code_addr found in
                    rw (prepared, found, placed)
                      (destroy_callback-assign code_addr _ s below absent)
              ]
        ]
      ]
