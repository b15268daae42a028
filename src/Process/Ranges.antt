-- ===== src/Process/Ranges.antt =====
-- The memory ranges of a process on Windows and macOS, found by asking for one region after another.
-- `none` is a loop that has used up its fuel.
pub mod Ends
use chromatic.Base.{
  ℕ, zero, suc, ◌+◌, ◌-◌, ◌%◌, ◌<◌, ◌≤◌, ◌==◌, ◌≡◌, refl, Bool, true, false, if◌then◌else◌, List,
  [], ◌∷◌, Option, none, some, Text, codes, arith, Bool-cases, inl, inr,
}
use Prim.Native.Nat.{bit_and}
use chromatic.Base.Signed.{to_int32}
use chromatic.Hex.{u64_mod, to_hex_addr}
use chromatic.Process.{RangeInfo, matches_prot}

-- MEMORY_BASIC_INFORMATION; `committed` is that State is MEM_COMMIT.
pub record RegionInfo : Type 0 where
  pub base_address : ℕ
  pub region_size : ℕ
  pub committed : Bool
  pub protect : ℕ

-- PAGE_EXECUTE_READWRITE, PAGE_EXECUTE_READ, PAGE_READWRITE, PAGE_READONLY, PAGE_EXECUTE.
unfoldable pub prot_text : ℕ → Text
prot_text protect =
    let p = bit_and protect 0xff in
    if p == 0x40
    then codes "rwx"
    else if p == 0x20
    then codes "r-x"
    else if p == 0x04
    then codes "rw-"
    else if p == 0x02
    then codes "r--"
    else if p == 0x10
    then codes "--x"
    else codes "---"

-- The range in front of the others where it matches.
unfoldable pub report : Text → Text → ℕ → ℕ → List RangeInfo → List RangeInfo
report protection prot base size rest =
    if matches_prot protection prot
    then record { base = to_hex_addr base; size = to_int32 size; protection = prot; file_path = [] }
      ∷ rest
    else rest

unfoldable pub report_region : Text → RegionInfo → List RangeInfo → List RangeInfo
unfolding prot_text report
report_region protection mbi rest =
    if mbi.committed
    then report protection (prot_text mbi.protect) mbi.base_address mbi.region_size rest
    else rest

-- The loop on Windows: `query` is VirtualQuery. It ends where the query fails and where the address is
-- back at 0.
unfoldable pub ranges_windows_from :
    ℕ → (ℕ → Option RegionInfo) → Text → ℕ → Option (List RangeInfo)
unfolding report_region
ranges_windows_from zero query protection addr = none
ranges_windows_from (suc fuel) query protection addr = elim (query addr) [
  | none ↦ some []
  | some mbi ↦
      let next = (addr + mbi.region_size) % u64_mod in
      elim (next == 0) [
        | true ↦ some (report_region protection mbi [])
        | false ↦ elim (ranges_windows_from fuel query protection next) [
          | none ↦ none
          | some rest ↦ some (report_region protection mbi rest)
        ]
      ]
]

-- NativeProcess::enumerateRanges on Windows.
unfoldable pub enumerate_ranges_windows :
    ℕ → (ℕ → Option RegionInfo) → Text → Option (List RangeInfo)
enumerate_ranges_windows fuel query protection = ranges_windows_from fuel query protection 0

-- What vm_region_64 says of the first region at an address or above it.
pub record VmRegion : Type 0 where
  pub address : ℕ
  pub vmsize : ℕ
  pub vm_prot : ℕ

-- VM_PROT_READ is 1, VM_PROT_WRITE is 2 and VM_PROT_EXECUTE is 4.
unfoldable pub vm_prot_text : ℕ → Text
vm_prot_text p =
    (if bit_and p 1 == 0 then b'-' else b'r')
    ∷ (if bit_and p 2 == 0 then b'-' else b'w')
    ∷ (if bit_and p 4 == 0 then b'-' else b'x')
    ∷ []

unfoldable pub ranges_darwin_from : ℕ → (ℕ → Option VmRegion) → Text → ℕ → Option (List RangeInfo)
unfolding vm_prot_text report
ranges_darwin_from zero vm_region protection address = none
ranges_darwin_from (suc fuel) vm_region protection address = elim (vm_region address) [
  | none ↦ some []
  | some r ↦
      elim (ranges_darwin_from fuel vm_region protection ((r.address + r.vmsize) % u64_mod)) [
        | none ↦ none
        | some rest ↦ some (report protection (vm_prot_text r.vm_prot) r.address r.vmsize rest)
      ]
]

-- NativeProcess::enumerateRanges on macOS.
unfoldable pub enumerate_ranges_darwin : ℕ → (ℕ → Option VmRegion) → Text → Option (List RangeInfo)
enumerate_ranges_darwin fuel vm_region protection = ranges_darwin_from fuel vm_region protection 0
