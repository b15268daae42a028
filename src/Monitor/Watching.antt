-- ===== src/Monitor/Watching.antt =====
-- The watched pages: their bounds, and the handler that fires each range once.
use chromatic.Base.{
  ℕ, ◌+◌, ◌-◌, ◌*◌, ◌/◌, ◌%◌, ◌<◌, ◌≤◌, ◌^◌, ◌≡◌, inl, inr, refl, Bool, true, false, arith,
  Option-cases,
}
use native.Mathlib.Nat.{one-le-pow, div-mul-le_self, mod-add-div', mod-lt, mul-mod_left}
use chromatic.Base.Bits.{bit_and_high}
use chromatic.Hex.{u64_mod}
use chromatic.Handlers.Signals.{Context, HandleAction, handled, not_handled}
use chromatic.Monitor.Ring.{push}
use chromatic.Monitor.Firing.{Hit, FiredMonitor, AllPassed, unfired_all, hit_monitor-MonitorFound}
use chromatic.Monitor.{
  WatchedRange, Monitors, Protections, hit_monitor, align_down, watched_size, monitor_segv_handler,
  access_code,
}

-- What monitorSegvHandler makes of a fault. Not claimed: no unfired range of any monitor covers the
-- address, and nothing is changed. Claimed: the first unfired range that covers the address is used up,
-- its protection is restored, and its event is recorded under its monitor's id, so that of `n` unfired
-- ranges at most `n` faults are ever claimed.
abbrev pub FaultHandled :
    (ℕ → ℕ → ℕ → Protections → Protections) → Monitors → Context → Monitors → Bool → Type 0
FaultHandled mprotect s ctx t false = (t ≡ s) × AllPassed ctx.fault_address s.monitors
FaultHandled mprotect s ctx t true =
    (h : WatchedRange) × (id : ℕ) × Hit ctx.fault_address (unfired_all s.monitors)
      (unfired_all t.monitors) h
    × FiredMonitor ctx.fault_address s.monitors t.monitors id h
    × (t.handlers ≡ s.handlers)
    × (t.delivered ≡ s.delivered)
    × (t.protections ≡ mprotect h.page_base h.page_size h.original_prot s.protections)
    × (t.pending
        ≡ push
            (record {
              monitor_id = id;
              fault_address = ctx.fault_address;
              page_base = h.page_base;
              range_index = h.range_index;
              access_type_code = access_code ctx.access_type;
            })
            s.pending)

abbrev pub claimed : HandleAction → Bool
claimed handled = true
claimed not_handled = false

-- On every fault monitorSegvHandler either claims it, and then the first unfired range that covers the
-- address, in the order of the monitors and of their ranges, is marked as fired and nothing else of the
-- monitors changes, the protections are what mprotect makes of them for that range's pages and its saved
-- protection, and an event is pushed that has the id of that range's monitor, the range's page and index, and the fault's
-- address and access; or it leaves the state as it was, and then no unfired range of any monitor covers
-- the address.
pub monitor_segv_handler-FaultHandled :
    (mprotect : ℕ → ℕ → ℕ → Protections → Protections) (s : Monitors) (ctx : Context)
    → let r = monitor_segv_handler mprotect s ctx in
      FaultHandled mprotect s ctx r.world (claimed r.action)
unfolding monitor_segv_handler
monitor_segv_handler-FaultHandled mprotect s ctx =
    let found = hit_monitor-MonitorFound ctx.fault_address s.monitors in
    elim (Option-cases (hit_monitor ctx.fault_address s.monitors)) [
      | inl e ↦ let f = rw e at found in rw (e, monitor_segv_handler) (refl, f)
      | inr (hit, e) ↦
          let f = rw e at found in
          rw (e, monitor_segv_handler) (hit.1, hit.0, f.0, f.1, refl, refl, refl, refl)
    ]

-- `x & ~(pageSize - 1)` is the start of the page of `x`, for a page of 2 ^ k bytes.
align_down-div : (k x : ℕ) → k ≤ 64 → x < u64_mod → align_down (2 ^ k) x ≡ x / 2 ^ k * 2 ^ k
unfolding align_down
align_down-div k x le lt =
    let z : 64 - k + k ≡ 64 = omega arith in
    let lt' : x < 2 ^ (64 - k + k) = rw z lt in rw z at (bit_and_high k (64 - k) x lt')

-- The watched pages of a request: they begin at the start of the page of the address, are whole
-- pages, cover the requested bytes, and the last page holds one of them. The request must leave
-- one page below the end of the address space.
pub watched_bounds :
    (k addr sz : ℕ)
    → k ≤ 64
    → addr + sz + 2 ^ k < u64_mod
    → let base = align_down (2 ^ k) addr in
      let size = watched_size (2 ^ k) addr sz in
      (base ≤ addr)
      × (base % 2 ^ k ≡ 0)
      × (size % 2 ^ k ≡ 0)
      × (addr + sz ≤ base + size)
      × (base + size < addr + sz + 2 ^ k)
unfolding watched_size
watched_bounds k addr sz le room =
    let p : ℕ = 2 ^ k in
    let base : align_down p addr ≡ addr / p * p = align_down-div k addr le (omega arith) in
    let low = div-mul-le_self addr p in
    let inner : ((addr + sz) % u64_mod + u64_mod - addr / p * p + p - 1) % u64_mod
        ≡ addr + sz - addr / p * p + p - 1 =
      omega (arith, one-le-pow k 2) in
    let want : ℕ = addr + sz - addr / p * p + p - 1 in
    let size : align_down p want ≡ want / p * p = align_down-div k want le (omega arith) in
    let above = mod-add-div' want p in
    let rest = mod-lt want {m = p} (one-le-pow k 2 (omega arith)) in
    rw base (
      rw (inner, size)
        (low, mul-mod_left (addr / p) p, mul-mod_left (want / p) p, omega arith, omega arith))
