-- ===== src/HwBreakpoint/Keeping.antt =====
-- The steps of NativeHardwareBreakpoint::set that change neither the registry nor the maps.
use chromatic.Base.{ℕ, ◌≡◌, refl, Option, none, some, List, Outcome, done, throw, M}
use chromatic.Base.Triples.{Gives, Gives-bind_outcome}
use chromatic.Platform.{Os, linux, android, darwin, windows}
use chromatic.Relocator.{build_relocated_code}
use chromatic.Relocator.Host.{Tools, Process}
use chromatic.Relocator.Trampoline.{build_trampoline}
use chromatic.HwBreakpoint.{HwBreakpoints, PerfAttr, perf_attr, on_process, release_both}
use chromatic.HwBreakpoint.Slots.{HwBpType, on_execute, on_write, on_read_write, find_free_slot}
use chromatic.HwBreakpoint.Requests.{
  build_codes, install_or_release, trampoline_for, install, take_slot, linux_set_hw_bp,
}

-- `q` has the registered breakpoints and the handlers of `s`.
abbrev pub Kept : HwBreakpoints → HwBreakpoints → Type 0
Kept s q =
    (q.handlers ≡ s.handlers)
    × (q.handler_installed ≡ s.handler_installed)
    × (q.hw_handler_id ≡ s.hw_handler_id)
    × (q.hw_by_id ≡ s.hw_by_id)
    × (q.hw_by_address ≡ s.hw_by_address)
    × (q.next_hw_id ≡ s.next_hw_id)

-- Nothing is asked of a call that throws.
abbrev pub Any : HwBreakpoints → Type 0
Any s = Unit {0}

module _ (s : HwBreakpoints) where
  abbrev Keeps : {A : Type 0} → Outcome HwBreakpoints A → Type 0
  Keeps {A} = Gives Any (λ (_ : A). Kept s)

  on_process-Keeps :
      {A : Type 0} (m : M Process A) (q : HwBreakpoints) → Kept s q → Keeps (on_process m q)
  on_process-Keeps {A} m q k = of_outcome (m q.process)
    where
      of_outcome :
          (o : Outcome Process A)
          → Keeps (elim o [
            | done p a ↦ done (record q { process = p }) a
            | throw p e ↦ throw (record q { process = p }) e
          ])
      of_outcome (done p a) = k
      of_outcome (throw p e) = tt

  take_slot-Keeps :
      (address : ℕ) (type : HwBpType) (size : ℕ) (q : HwBreakpoints)
      → Kept s q
      → Keeps (take_slot address type size q)
  unfolding take_slot
  take_slot-Keeps address type size q k = of_slot (find_free_slot q.used_slots) refl
    where
      of_slot :
          (o : Option ℕ) → find_free_slot q.used_slots ≡ o → Keeps (take_slot address type size q)
      of_slot none e = rw (take_slot, e) tt
      of_slot (some slot) e = rw (take_slot, e) k

  linux-Keeps :
      (perf_open : List ℕ → PerfAttr → Option ℕ) (attr : PerfAttr) (q : HwBreakpoints)
      → Kept s q
      → Keeps (linux_set_hw_bp perf_open attr q)
  unfolding linux_set_hw_bp
  linux-Keeps perf_open attr q k = of_fd (perf_open q.perf_fds attr) refl
    where
      of_fd :
          (o : Option ℕ) → perf_open q.perf_fds attr ≡ o → Keeps (linux_set_hw_bp perf_open attr q)
      of_fd none e = rw (linux_set_hw_bp, e) tt
      of_fd (some fd) e = rw (linux_set_hw_bp, e) k

  install-Keeps :
      (perf_open : List ℕ → PerfAttr → Option ℕ) (os : Os) (address : ℕ) (type : HwBpType)
      (size : ℕ) (q : HwBreakpoints)
      → Kept s q
      → Keeps (install perf_open os address type size q)
  unfolding install
  install-Keeps perf_open windows address type size q k = take_slot-Keeps address type size q k
  install-Keeps perf_open darwin address type size q k = take_slot-Keeps address type size q k
  install-Keeps perf_open linux address type size q k =
      linux-Keeps perf_open (perf_attr address type size) q k
  install-Keeps perf_open android address type size q k =
      linux-Keeps perf_open (perf_attr address type size) q k

  module _ (t : Tools) (os : Os) (perf_open : List ℕ → PerfAttr → Option ℕ) (hw_dispatch : ℕ) where
    pub install_or_release-Keeps :
        (code : ℕ × ℕ) (address : ℕ) (type : HwBpType) (size : ℕ) (q : HwBreakpoints)
        → Kept s q
        → Keeps (install_or_release t os perf_open hw_dispatch code address type size q)
    unfolding install_or_release
    install_or_release-Keeps (trampoline, relocated) address type size q k =
        of_outcome (install perf_open os address type size q)
          (install-Keeps perf_open os address type size q k)
      where
        of_outcome :
            (o : Outcome HwBreakpoints ℕ)
            → Keeps o
            → Keeps (elim o [
              | done s' handle ↦ done s' handle
              | throw s' e ↦ throw (release_both trampoline relocated s') e
            ])
        of_outcome (done s' handle) h = h
        of_outcome (throw s' e) h = tt

    trampoline_for-Keeps :
        (user relocated : ℕ) (q : HwBreakpoints)
        → Kept s q
        → Keeps (trampoline_for t os perf_open hw_dispatch user relocated q)
    unfolding trampoline_for
    trampoline_for-Keeps user relocated q k =
        of_outcome (on_process (build_trampoline t os hw_dispatch none user relocated) q)
          (on_process-Keeps (build_trampoline t os hw_dispatch none user relocated) q k)
      where
        of_outcome :
            (o : Outcome HwBreakpoints ℕ)
            → Keeps o
            → Keeps {A = ℕ × ℕ} (elim o [
              | done s' code ↦ done s' (code, relocated)
              | throw s' e ↦ throw (release_both 0 relocated s') e
            ])
        of_outcome (done s' code) h = h
        of_outcome (throw s' e) h = tt

    pub build_codes-Keeps :
        (type : HwBpType) (address user : ℕ) (q : HwBreakpoints)
        → Kept s q
        → Keeps (build_codes t os perf_open hw_dispatch type address user q)
    unfolding build_codes
    build_codes-Keeps on_execute address user q k =
        Gives-bind_outcome Any (λ (_ : ℕ × ℕ). Kept s) (λ (_ : ℕ × ℕ). Kept s)
          (on_process (build_relocated_code t address 1) q)
          (λ relocated. trampoline_for t os perf_open hw_dispatch user relocated.0)
          (on_process-Keeps (build_relocated_code t address 1) q k)
          (λ relocated q' k'. trampoline_for-Keeps user relocated.0 q' k')
    build_codes-Keeps on_write address user q k = k
    build_codes-Keeps on_read_write address user q k = k
