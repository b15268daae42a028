-- ===== src/HwBreakpoint/Calls.antt =====
-- The parts of NativeHardwareBreakpoint::set, one by one, and the invariant of the breakpoints.
use chromatic.Base.{
  ℕ, ◌<◌, ◌≡◌, refl, Option, none, arith, List, Text, lookup, leb, Bool-cases, Option-cases, inl,
  inr, length, Outcome, done, throw,
}
use chromatic.Base.Digits.{bit}
use chromatic.Base.Triples.{Gives, Gives-bind_outcome, Gives-zoom}
use chromatic.Platform.{Os, linux, android, darwin, windows, Arch}
use chromatic.Relocator.{build_relocated_code}
use chromatic.Relocator.Host.{Tools, Process}
use chromatic.Relocator.Trampoline.{build_trampoline}
use chromatic.HwBreakpoint.{
  HwBreakpoints, PerfAttr, perf_attr, platform_max_breakpoints, on_process,
  ensure_hw_handler_installed, release_both,
}
use chromatic.HwBreakpoint.Slots.{
  HwBpType, on_execute, on_write, on_read_write, find_free_slot, use_slot,
}
use chromatic.HwBreakpoint.Slotted.{Slotted, find_free_slot-free}
use chromatic.HwBreakpoint.Requests.{
  refuse_set, refuse_beyond, linux_set_hw_bp, take_slot, install, trampoline_for, build_codes,
  install_or_release,
}
use chromatic.HwBreakpoint.Reach.{IsValid, HasRoom, IsTaken, Takes}

module _ (os : Os) (arch : Arch) where
  take_slot_lem :
      (address : ℕ) (type : HwBpType) (size : ℕ) (s : HwBreakpoints)
      → HasRoom os arch s
      → Slotted s.used_slots s.hw_by_id
      → ((slot : ℕ)
          → (slot < 4) × (bit slot s.used_slots ≡ 0)
          → Takes os slot (use_slot slot s.used_slots) s.hw_by_id)
      → Gives (IsValid os arch) (IsTaken os arch) (take_slot address type size s)
  unfolding take_slot
  take_slot_lem address type size s h v takes = elim (Option-cases (find_free_slot s.used_slots)) [
    | inl e ↦ rw (e, take_slot) h.valid
    | inr (slot, e) ↦
        rw (e, take_slot)
          (record { room = h.room; takes = takes slot (find_free_slot-free s.used_slots slot e) })
  ]

  linux_lem :
      (perf_open : List ℕ → PerfAttr → Option ℕ) (attr : PerfAttr) (s : HwBreakpoints)
      → HasRoom os arch s
      → ((fd : ℕ) → Takes os fd s.used_slots s.hw_by_id)
      → Gives (IsValid os arch) (IsTaken os arch) (linux_set_hw_bp perf_open attr s)
  unfolding linux_set_hw_bp
  linux_lem perf_open attr s h takes = elim (Option-cases (perf_open s.perf_fds attr)) [
    | inl e ↦ rw (e, linux_set_hw_bp) h.valid
    | inr (fd, e) ↦ rw (e, linux_set_hw_bp) (record { room = h.room; takes = takes fd })
  ]

install-IsTaken :
    (os : Os) (arch : Arch) (perf_open : List ℕ → PerfAttr → Option ℕ) (address : ℕ)
    (type : HwBpType) (size : ℕ) (s : HwBreakpoints)
    → HasRoom os arch s
    → Gives (IsValid os arch) (IsTaken os arch) (install perf_open os address type size s)
unfolding install
install-IsTaken windows arch perf_open address type size s h =
    take_slot_lem windows arch address type size s h h.valid.slots
      λ slot f. (s.used_slots, refl, f.0, f.1, h.valid.slots)
install-IsTaken darwin arch perf_open address type size s h =
    take_slot_lem darwin arch address type size s h h.valid.slots
      λ slot f. (s.used_slots, refl, f.0, f.1, h.valid.slots)
install-IsTaken linux arch perf_open address type size s h =
    linux_lem linux arch perf_open (perf_attr address type size) s h (λ fd. tt)
install-IsTaken android arch perf_open address type size s h =
    linux_lem android arch perf_open (perf_attr address type size) s h (λ fd. tt)

module _ (t : Tools) (os : Os) (perf_open : List ℕ → PerfAttr → Option ℕ) (hw_dispatch : ℕ) where
  abbrev Valid : HwBreakpoints → Type 0
  Valid = IsValid os t.arch

  abbrev Roomy : HwBreakpoints → Type 0
  Roomy = HasRoom os t.arch

  pub install_or_release-IsTaken :
      (code : ℕ × ℕ) (address : ℕ) (type : HwBpType) (size : ℕ) (s : HwBreakpoints)
      → Roomy s
      → Gives Valid
          (IsTaken os t.arch)
          (install_or_release t os perf_open hw_dispatch code address type size s)
  unfolding install_or_release release_both
  install_or_release-IsTaken (trampoline, relocated) address type size s h =
      of_outcome (install perf_open os address type size s)
        (install-IsTaken os t.arch perf_open address type size s h)
    where
      of_outcome :
          (o : Outcome HwBreakpoints ℕ)
          → Gives Valid (IsTaken os t.arch) o
          → Gives Valid (IsTaken os t.arch) (elim o [
            | done s' handle ↦ done s' handle
            | throw s' e ↦ throw (release_both trampoline relocated s') e
          ])
      of_outcome (done s' handle) h = h
      of_outcome (throw s' e) h = record { bounded = h.bounded; slots = h.slots }

  trampoline_for-HasRoom :
      (user relocated : ℕ) (s : HwBreakpoints)
      → Roomy s
      → Gives Valid
          (λ (_ : ℕ × ℕ). Roomy)
          (trampoline_for t os perf_open hw_dispatch user relocated s)
  unfolding trampoline_for release_both
  trampoline_for-HasRoom user relocated s h =
      of_outcome (on_process (build_trampoline t os hw_dispatch none user relocated) s) (
        Gives-zoom Roomy (λ (s : HwBreakpoints). s.process) (λ p s. record s { process = p })
          (build_trampoline t os hw_dispatch none user relocated) s
          (λ p. record {
            valid = record { bounded = h.valid.bounded; slots = h.valid.slots };
            room = h.room;
          }))
    where
      of_outcome :
          (o : Outcome HwBreakpoints ℕ)
          → Gives Roomy (λ (_ : ℕ). Roomy) o
          → Gives Valid
              (λ (_ : ℕ × ℕ). Roomy)
              (elim o [
                | done s' code ↦ done s' (code, relocated)
                | throw s' e ↦ throw (release_both 0 relocated s') e
              ])
      of_outcome (done s' code) h = h
      of_outcome (throw s' e) h = record { bounded = h.valid.bounded; slots = h.valid.slots }

  relocated-HasRoom :
      (address : ℕ) (s : HwBreakpoints)
      → Roomy s
      → Gives Valid (λ (_ : ℕ × ℕ). Roomy) (on_process (build_relocated_code t address 1) s)
  relocated-HasRoom address s h = of_outcome (build_relocated_code t address 1 s.process)
    where
      of_outcome :
          (o : Outcome Process (ℕ × ℕ))
          → Gives Valid
              (λ (_ : ℕ × ℕ). Roomy)
              (elim o [
                | done p a ↦ done (record s { process = p }) a
                | throw p e ↦ throw (record s { process = p }) e
              ])
      of_outcome (done p a) = record {
        valid = record { bounded = h.valid.bounded; slots = h.valid.slots };
        room = h.room;
      }
      of_outcome (throw p e) = record { bounded = h.valid.bounded; slots = h.valid.slots }

  pub build_codes-HasRoom :
      (type : HwBpType) (address user : ℕ) (s : HwBreakpoints)
      → Roomy s
      → Gives Valid
          (λ (_ : ℕ × ℕ). Roomy)
          (build_codes t os perf_open hw_dispatch type address user s)
  unfolding build_codes
  build_codes-HasRoom on_execute address user s h =
      Gives-bind_outcome Valid (λ (_ : ℕ × ℕ). Roomy) (λ (_ : ℕ × ℕ). Roomy)
        (on_process (build_relocated_code t address 1) s)
        (λ relocated. trampoline_for t os perf_open hw_dispatch user relocated.0)
        (relocated-HasRoom address s h)
        (λ relocated s' h'. trampoline_for-HasRoom user relocated.0 s' h')
  build_codes-HasRoom on_write address user s h = h
  build_codes-HasRoom on_read_write address user s h = h

  pub refuse_beyond-HasRoom :
      (s : HwBreakpoints)
      → Valid s
      → Gives Valid (λ (_ : Unit {0}). Roomy) (refuse_beyond (platform_max_breakpoints os t.arch) s)
  unfolding refuse_beyond
  refuse_beyond-HasRoom s v =
      elim (Bool-cases (leb (platform_max_breakpoints os t.arch) (length s.hw_by_address))) [
        | inl full ↦ rw full v
        | inr free ↦ rw free (record { valid = v; room = ground arith })
      ]

  pub refuse_set-IsValid :
      (address : ℕ) (text : Text) (s : HwBreakpoints)
      → Valid s
      → Gives Valid (λ (_ : Unit {0}). Valid) (refuse_set address text s)
  unfolding refuse_set
  refuse_set-IsValid address text s v = elim (Option-cases (lookup address s.hw_by_address)) [
    | inl e ↦ rw (e, refuse_set) v
    | inr (b, e) ↦ rw (e, refuse_set) v
  ]

  pub ensure-HasRoom : (s : HwBreakpoints) → Roomy s → Roomy (ensure_hw_handler_installed os s)
  unfolding ensure_hw_handler_installed
  ensure-HasRoom s h = elim (Bool-cases s.handler_installed) [
    | inl e ↦ rw e (record {
      valid = record { bounded = h.valid.bounded; slots = h.valid.slots };
      room = h.room;
    })
    | inr e ↦ rw e (record {
      valid = record { bounded = h.valid.bounded; slots = h.valid.slots };
      room = h.room;
    })
  ]
