-- ===== src/Process/Ranges/Ends.antt =====
-- The loops of enumerateRanges on Windows and macOS, and the fuel that they need.
use chromatic.Base.{
  ℕ, zero, suc, ◌+◌, ◌%◌, ◌<◌, ◌≤◌, ◌==◌, ◌≡◌, refl, false, List, [], Option, some, Text, arith,
  Bool-cases, Option-cases, inl, inr,
}
use chromatic.Hex.{u64_mod}
use chromatic.Process.{RangeInfo}
use chromatic.Process.Ranges.{
  RegionInfo, VmRegion, ranges_windows_from, enumerate_ranges_windows, ranges_darwin_from,
  enumerate_ranges_darwin, report_region, report, vm_prot_text,
}

next_address :
    (a size : ℕ)
    → a + size ≤ u64_mod
    → (((a + size) % u64_mod == 0) ≡ false)
    → (a + size) % u64_mod ≡ a + size
next_address a size le not_zero = ground arith

ranges_windows_from-ends :
    (query : ℕ → Option RegionInfo) (protection : Text)
    → ((a : ℕ) (mbi : RegionInfo)
        → query a ≡ some mbi
        → (0 < mbi.region_size) × (a + mbi.region_size ≤ u64_mod))
    → (fuel addr : ℕ) → addr < u64_mod
    → u64_mod ≤ addr + fuel
    → (rs : List RangeInfo) × (ranges_windows_from fuel query protection addr ≡ some rs)
unfolding ranges_windows_from
ranges_windows_from-ends query protection sized zero addr below enough =
    absurd (omega (arith, below, enough))
ranges_windows_from-ends query protection sized (suc fuel) addr below enough =
    elim (Option-cases (query addr)) [
      | inl failed ↦ ([], rw (ranges_windows_from, failed) refl)
      | inr (mbi, eq) ↦
          let (positive, inside) = sized addr mbi eq in
          elim (Bool-cases ((addr + mbi.region_size) % u64_mod == 0)) [
            | inl back ↦ (report_region protection mbi [], rw (ranges_windows_from, eq, back) refl)
            | inr further ↦
                let moves = next_address addr mbi.region_size inside further in
                let (rest, later) =
                  ranges_windows_from-ends query protection sized fuel
                    ((addr + mbi.region_size) % u64_mod) (omega (arith, moves))
                    (omega (arith, moves, positive, enough)) in
                (
                  report_region protection mbi rest,
                  rw (ranges_windows_from, eq, further, later) refl,
                )
          ]
    ]

-- On Windows, where every region that VirtualQuery finds has at least one byte and ends within the
-- 64-bit addresses, the loop ends with a list of ranges after at most 2^64 steps, whatever is asked for.
pub enumerate_ranges_windows-ends :
    (fuel : ℕ) (query : ℕ → Option RegionInfo) (protection : Text)
    → ((a : ℕ) (mbi : RegionInfo)
        → query a ≡ some mbi
        → (0 < mbi.region_size) × (a + mbi.region_size ≤ u64_mod))
    → u64_mod ≤ fuel
    → (rs : List RangeInfo) × (enumerate_ranges_windows fuel query protection ≡ some rs)
unfolding enumerate_ranges_windows
enumerate_ranges_windows-ends fuel query protection sized enough =
    ranges_windows_from-ends query protection sized fuel 0 (omega arith) (omega (arith, enough))

ranges_darwin_from-ends :
    (vm_region : ℕ → Option VmRegion) (protection : Text)
    → ((a : ℕ) (r : VmRegion)
        → vm_region a ≡ some r
        → (a ≤ r.address) × (0 < r.vmsize) × (r.address + r.vmsize < u64_mod))
    → (fuel address : ℕ) → address < u64_mod
    → u64_mod ≤ address + fuel
    → (rs : List RangeInfo) × (ranges_darwin_from fuel vm_region protection address ≡ some rs)
unfolding ranges_darwin_from
ranges_darwin_from-ends vm_region protection sized zero address below enough =
    absurd (omega (arith, below, enough))
ranges_darwin_from-ends vm_region protection sized (suc fuel) address below enough =
    elim (Option-cases (vm_region address)) [
      | inl failed ↦ ([], rw (ranges_darwin_from, failed) refl)
      | inr (r, eq) ↦
          let (above, positive, inside) = sized address r eq in
          let moves : (r.address + r.vmsize) % u64_mod ≡ r.address + r.vmsize =
            omega (arith, inside) in
          let (rest, later) =
            ranges_darwin_from-ends vm_region protection sized fuel
              ((r.address + r.vmsize) % u64_mod) (omega (arith, moves, inside))
              (omega (arith, moves, above, positive, enough)) in
          (
            report protection (vm_prot_text r.vm_prot) r.address r.vmsize rest,
            rw (ranges_darwin_from, eq, later) refl,
          )
    ]

-- On macOS, where every region that vm_region_64 finds lies at the address asked for or above it, has at
-- least one byte and ends below 2^64, the loop ends with a list of ranges after at most 2^64 steps.
pub enumerate_ranges_darwin-ends :
    (fuel : ℕ) (vm_region : ℕ → Option VmRegion) (protection : Text)
    → ((a : ℕ) (r : VmRegion)
        → vm_region a ≡ some r
        → (a ≤ r.address) × (0 < r.vmsize) × (r.address + r.vmsize < u64_mod))
    → u64_mod ≤ fuel
    → (rs : List RangeInfo) × (enumerate_ranges_darwin fuel vm_region protection ≡ some rs)
unfolding enumerate_ranges_darwin
enumerate_ranges_darwin-ends fuel vm_region protection sized enough =
    ranges_darwin_from-ends vm_region protection sized fuel 0 (omega arith) (omega (arith, enough))
