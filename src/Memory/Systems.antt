-- ===== src/Memory/Systems.antt =====
-- The Windows and the macOS branches of native_memory.cc. VirtualAlloc, VirtualFree and VirtualProtect are
-- parameters; `virtual_protect start size prot` gives the protections and the old one, or nothing where it
-- fails.
use Prim.Native.Nat.{bit_and}
use chromatic.Base.{
  ℕ, ◌+◌, ◌-◌, Option, none, some, List, [], ◌∷◌, Bool, if◌then◌else◌, length, Text, codes, Result,
  ok, err, runtime_error, and_then, done, throw, M, lift, modify, ◌>>=◌,
}
use chromatic.Hex.{u64_mod, to_hex_addr, parse_hex_addr, bytes_to_hex, hex_to_bytes}
use chromatic.Relocator.{read_bytes}
use chromatic.Relocator.Host.{Tools, Process}
use chromatic.Memory.{
  all_readable, put_bytes, try_protect, win_prot_string_to_flags, win_flags_to_prot_string,
}

abbrev VirtualProtect : Type 0
VirtualProtect = ℕ → ℕ → ℕ → (ℕ → ℕ) → Option ((ℕ → ℕ) × ℕ)

-- A structured exception gives the empty text.
unfoldable pub safe_read_memory_windows : (ℕ → Bool) → (ℕ → ℕ) → Text → ℕ → Result Text
safe_read_memory_windows readable memory address size = and_then (parse_hex_addr address) λ addr.
    ok (if all_readable readable addr size then bytes_to_hex (read_bytes memory addr size) else [])

-- PAGE_EXECUTE_READWRITE is 0x40.
unfoldable pub allocate_memory_windows :
    (List (ℕ × ℕ) → ℕ → ℕ → Option ℕ) → ℕ → M (List (ℕ × ℕ)) Text
allocate_memory_windows virtual_alloc size regions = elim (virtual_alloc regions size 0x40) [
  | none ↦ throw regions (runtime_error (codes "VirtualAlloc failed"))
  | some addr ↦ done ((addr, size) ∷ regions) (to_hex_addr addr)
]

-- The size is not passed on.
unfoldable pub free_memory_windows :
    (ℕ → List (ℕ × ℕ) → List (ℕ × ℕ)) → Text → ℕ → M (List (ℕ × ℕ)) (Unit {0})
free_memory_windows virtual_free address size = do
  addr ← lift (parse_hex_addr address)
  modify (virtual_free addr)

-- The text of the old protection is returned.
unfoldable pub protect_memory_windows : VirtualProtect → Text → ℕ → Text → M Process Text
protect_memory_windows virtual_protect address size protection s = elim (parse_hex_addr address) [
  | err e ↦ throw s e
  | ok addr ↦ elim (virtual_protect addr size (win_prot_string_to_flags protection) s.protections) [
    | none ↦ throw s (runtime_error (codes "VirtualProtect failed"))
    | some (p, old) ↦ done (record s { protections = p }) (win_flags_to_prot_string old)
  ]
]

-- VirtualProtect where the result is not looked at; `unset` is what `oldProt` then holds.
try_virtual_protect : VirtualProtect → ℕ → ℕ → ℕ → ℕ → (ℕ → ℕ) → (ℕ → ℕ) × ℕ
try_virtual_protect virtual_protect unset addr len prot p = elim (virtual_protect addr len prot p) [
  | none ↦ (p, unset)
  | some r ↦ r
]

unfoldable pub patch_code_windows : VirtualProtect → ℕ → Text → Text → M Process (Unit {0})
unfolding try_virtual_protect
patch_code_windows virtual_protect unset address hex_bytes = do
  addr ← lift (parse_hex_addr address)
  bytes ← lift (hex_to_bytes hex_bytes)
  modify (λ s.
      let first =
        try_virtual_protect virtual_protect unset addr (length bytes) 0x40 s.protections in
      let last = try_virtual_protect virtual_protect first.1 addr (length bytes) first.1 first.0 in
      record (put_bytes addr bytes s) { protections = last.0 })

-- VM_PROT_READ | VM_PROT_WRITE | VM_PROT_COPY is 0x13; vm_protect is the tools' mprotect here.
unfoldable pub patch_code_darwin : Tools → Text → Text → M Process (Unit {0})
patch_code_darwin t address hex_bytes = do
  addr ← lift (parse_hex_addr address)
  bytes ← lift (hex_to_bytes hex_bytes)
  let page_start = bit_and addr (u64_mod - t.page_size)
  let total_size = addr + length bytes - page_start
  modify (λ s.
      try_protect t page_start total_size 5
        (put_bytes addr bytes (try_protect t page_start total_size 0x13 s)))
