-- ===== src/Examples/Space.antt =====
-- Memory and the address space.
use chromatic.Base.{
  ℕ, zero, suc, ap, ◌+◌, ◌<◌, ◌≤◌, ◌≡◌, refl, true, false, ◌&&◌, if◌then◌else◌, ltb, leb, List, [],
  ◌∷◌, codes, some, none, arith, Option, ok, done, All,
}
use chromatic.Hex.{parse_hex_addr, bytes_to_hex, u64_mod}
use chromatic.Handlers.{Signal, Sigaction, sig_dfl, sa_handler, sigsegv}
use chromatic.Memory.{read_memory, write_memory, safe_read_memory, all_readable}
use chromatic.Memory.Access.{read_memory-write_memory, safe_read_memory_lem, bus_like_segv}
use chromatic.Relocator.{read_bytes}
use chromatic.Relocator.Host.{Process}
use chromatic.Process.{MapsLine, RangeInfo, linux_modules, starts_with}
use chromatic.Process.Modules.{Distinct, Covered, linux_modules-Covered}
use chromatic.Process.Ranges.{
  RegionInfo, VmRegion, enumerate_ranges_windows, enumerate_ranges_darwin,
}
use chromatic.Process.Ranges.Ends.{enumerate_ranges_windows-ends, enumerate_ranges_darwin-ends}

abbrev zeroed : Process
zeroed = record { memory = λ a. 0; protections = λ a. 3; live = [] }

parse_0x2000 : parse_hex_addr (codes "0x2000") ≡ ok 0x2000
unfolding parse_hex_addr
parse_0x2000 = refl

read_memory-write_memory_example :
    (s' : Process) × (write_memory (codes "0x2000") (bytes_to_hex (0x12 ∷ 0xfe ∷ [])) zeroed
      ≡ done s' tt)
    × (read_memory s'.memory (codes "0x2000") 2 ≡ ok (bytes_to_hex (0x12 ∷ 0xfe ∷ [])))
    × ((x : ℕ) → (leb 0x2000 x && ltb x 0x2002) ≡ false → s'.memory x ≡ zeroed.memory x)
read_memory-write_memory_example =
    read_memory-write_memory (codes "0x2000") 0x2000 (0x12 ∷ 0xfe ∷ []) zeroed
      (omega arith, (omega arith, tt)) parse_0x2000

abbrev defaults_but_segv : Signal → Sigaction
defaults_but_segv sigsegv = sa_handler 0x111
defaults_but_segv g = sig_dfl

-- The second byte cannot be read.
safe_read_memory_lem_example :
    safe_read_memory 0x222 (λ a. leb a 0x2000) (λ a. 7) (codes "0x2000") 2 defaults_but_segv
    ≡ done (bus_like_segv defaults_but_segv) (
        if all_readable (λ a. leb a 0x2000) 0x2000 2
        then bytes_to_hex (read_bytes (λ a. 7) 0x2000 2)
        else [])
safe_read_memory_lem_example =
    safe_read_memory_lem 0x222 (λ a. leb a 0x2000) (λ a. 7) (codes "0x2000") 0x2000 2
      defaults_but_segv parse_0x2000

-- Two mappings of one library, the upper one first, and the stack.
abbrev maps : List MapsLine
maps =
    record { start = 0x7000; end = 0x8000; perms = codes "r-xp"; pathname = codes "/lib/a.so" }
    ∷ record { start = 0x5000; end = 0x6000; perms = codes "rw-p"; pathname = codes "/lib/a.so" }
    ∷ record { start = 0x9000; end = 0xa000; perms = codes "rw-p"; pathname = codes "[stack]" }
    ∷ []

linux_modules-Covered_example :
    Distinct (linux_modules maps [])
    × All (λ l. starts_with b'/' l.pathname ≡ true → Covered (linux_modules maps []) l) maps
linux_modules-Covered_example = linux_modules-Covered maps

-- One committed page at 0 and nothing behind it.
abbrev one_page : ℕ → Option RegionInfo
one_page zero =
    some (record { base_address = 0; region_size = 0x1000; committed = true; protect = 4 })
one_page (suc a) = none

one_page_sized :
    (a : ℕ) (mbi : RegionInfo)
    → one_page a ≡ some mbi
    → (0 < mbi.region_size) × (a + mbi.region_size ≤ u64_mod)
one_page_sized zero mbi h =
    let size : 0x1000 ≡ mbi.region_size =
      ap (λ o. elim o [ none ↦ 0 | some m ↦ m.region_size ]) h in
    (omega (arith, size), omega (arith, size))
one_page_sized (suc a) mbi h = cc

enumerate_ranges_windows-ends_example :
    (rs : List RangeInfo) × (enumerate_ranges_windows u64_mod one_page (codes "r") ≡ some rs)
enumerate_ranges_windows-ends_example =
    enumerate_ranges_windows-ends u64_mod one_page (codes "r") one_page_sized (omega arith)

abbrev one_region : ℕ → Option VmRegion
one_region zero = some (record { address = 0x1000; vmsize = 0x1000; vm_prot = 3 })
one_region (suc a) = none

one_region_sized :
    (a : ℕ) (r : VmRegion)
    → one_region a ≡ some r
    → (a ≤ r.address) × (0 < r.vmsize) × (r.address + r.vmsize < u64_mod)
one_region_sized zero r h =
    let start : 0x1000 ≡ r.address = ap (λ o. elim o [ none ↦ 0 | some m ↦ m.address ]) h in
    let size : 0x1000 ≡ r.vmsize = ap (λ o. elim o [ none ↦ 0 | some m ↦ m.vmsize ]) h in
    (omega arith, omega (arith, size), omega (arith, start, size))
one_region_sized (suc a) r h = cc

enumerate_ranges_darwin-ends_example :
    (rs : List RangeInfo) × (enumerate_ranges_darwin u64_mod one_region (codes "rw") ≡ some rs)
enumerate_ranges_darwin-ends_example =
    enumerate_ranges_darwin-ends u64_mod one_region (codes "rw") one_region_sized (omega arith)
