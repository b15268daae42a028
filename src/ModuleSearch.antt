-- ===== src/ModuleSearch.antt =====
-- Searches of a module that is given by its name: NativeMemory::scanModule of native_memory.cc and
-- NativeDisassembler::findXrefsInModule of native_disassembler.cc, over the modules that the process lists.
use chromatic.Base.{
  ℕ, suc, ◌-◌, List, [], ◌++◌, Option, none, some, Text, codes, Result, ok, err, runtime_error,
  and_then,
}
use chromatic.Base.Signed.{ℤ, pos, negsuc}
use chromatic.Hex.{u64_mod, parse_hex_addr}
use chromatic.Platform.{Arch}
use chromatic.Disassembler.{Insn, XrefResult, find_xrefs}
use chromatic.Process.{ModuleInfo, find_module_by_name}
use chromatic.Scan.{ScanMatch, scan_memory}

-- `static_cast<size_t>` of an int.
unfoldable pub to_size : ℤ → ℕ
to_size (pos n) = n
to_size (negsuc n) = u64_mod - suc n

unfoldable pub module_of : List ModuleInfo → Text → Result ModuleInfo
module_of modules name = elim (find_module_by_name modules name) [
  | none ↦ err (runtime_error (codes "Module not found: " ++ name))
  | some m ↦ ok m
]

unfoldable pub scan_module : (ℕ → ℕ) → List ModuleInfo → Text → Text → Result (List ScanMatch)
unfolding to_size module_of
scan_module memory modules module_name pattern =
    and_then (module_of modules module_name) λ m. scan_memory memory m.base (to_size m.size) pattern

-- A range of negative size has no references, once both addresses are read.
unfoldable pub find_xrefs_in_module :
    ((ℕ → ℕ) → ℕ → ℕ → Option Insn)
    → Arch
    → (ℕ → ℕ)
    → List ModuleInfo
    → Text
    → Text
    → Result (List XrefResult)
unfolding module_of
find_xrefs_in_module disasm arch memory modules module_name target_addr =
    and_then (module_of modules module_name) λ m. elim m.size [
      | pos size ↦ find_xrefs disasm arch memory m.base size target_addr
      | negsuc n ↦
          and_then (parse_hex_addr m.base)
            (λ start. and_then (parse_hex_addr target_addr) (λ target. ok []))
    ]
