-- ===== src/HwBreakpoint/Requests.antt =====
-- The calls of scripts: NativeHardwareBreakpoint::set, remove, removeAll, maxBreakpoints and
-- activeCount of native_hw_breakpoint.cc.
use chromatic.Base.{
  ℕ, ◌+◌, ◌%◌, Bool, true, false, List, [], ◌∷◌, ◌++◌, ◌==◌, if◌then◌else◌, leb, Text, codes,
  Option, none, some, length, lookup, erase, assign, ok, err, runtime_error, done, throw, M, pure,
  lift, ◌>>=◌, ◌>>◌, modify,
}
use chromatic.Hex.{u64_mod, to_hex_addr, parse_hex_addr}
use chromatic.Platform.{Os, linux, android, darwin, windows, Arch, x64, arm64}
use chromatic.Relocator.{build_relocated_code}
use chromatic.Relocator.Host.{Tools}
use chromatic.Relocator.Trampoline.{build_trampoline}
use chromatic.HwBreakpoint.{
  HwBreakpointEntry, HwBreakpoints, PerfAttr, parse_type, platform_max_breakpoints, perf_attr,
  on_process, ensure_hw_handler_installed, maybe_remove_hw_handler, release_both,
}
use chromatic.HwBreakpoint.Slots.{
  HwBpType, on_execute, on_write, on_read_write, set_debug_reg, clear_debug_reg, find_free_slot,
  use_slot, drop_slot,
}

unfoldable pub new_entry : M HwBreakpoints ℕ
new_entry s = done (record s { next_ptr = s.next_ptr + 1 }) s.next_ptr

unfoldable pub refuse_set : ℕ → Text → M HwBreakpoints (Unit {0})
refuse_set address text s = elim (lookup address s.hw_by_address) [
  | some e ↦ throw s (runtime_error (codes "Hardware breakpoint already set at " ++ text))
  | none ↦ done s tt
]

-- `std::to_string` of a number of slots, which has one digit.
unfoldable pub refuse_beyond : ℕ → M HwBreakpoints (Unit {0})
refuse_beyond max s =
    if leb max (length s.hw_by_address)
    then throw s
        (runtime_error (codes "Maximum hardware breakpoints reached (" ++ (b'0' + max) ∷ codes ")"))
    else done s tt

unfoldable pub register : HwBreakpointEntry → M HwBreakpoints ℕ
register entry s =
    done
      (record s {
        next_hw_id = (s.next_hw_id + 1) % u64_mod;
        hw_by_id = assign s.next_hw_id entry s.hw_by_id;
        hw_by_address = assign entry.address entry s.hw_by_address;
      })
      s.next_hw_id

-- linuxSetHwBp, without the clean-up of its caller. `perf_open` is what perf_event_open gives for a
-- request beside the events that are open, or nothing where it fails.
unfoldable pub linux_set_hw_bp : (List ℕ → PerfAttr → Option ℕ) → PerfAttr → M HwBreakpoints ℕ
linux_set_hw_bp perf_open attr s = elim (perf_open s.perf_fds attr) [
  | none ↦ throw s (runtime_error (codes "perf_event_open failed for hardware breakpoint"))
  | some fd ↦ done (record s { perf_fds = fd ∷ s.perf_fds }) fd
]

unfoldable pub take_slot : ℕ → HwBpType → ℕ → M HwBreakpoints ℕ
take_slot address type size s = elim (find_free_slot s.used_slots) [
  | none ↦ throw s (runtime_error (codes "No free hardware breakpoint slots"))
  | some slot ↦
      done
        (record s {
          used_slots = use_slot slot s.used_slots;
          regs = set_debug_reg slot address type size s.regs;
        })
        slot
]

-- The platform's part of set.
unfoldable pub install : (List ℕ → PerfAttr → Option ℕ) → Os → ℕ → HwBpType → ℕ → M HwBreakpoints ℕ
install perf_open windows address type size = take_slot address type size
install perf_open darwin address type size = take_slot address type size
install perf_open linux address type size = linux_set_hw_bp perf_open (perf_attr address type size)
install perf_open android address type size =
    linux_set_hw_bp perf_open (perf_attr address type size)

-- The event is disabled and closed.
unfoldable pub close_fd : ℕ → List ℕ → List ℕ
close_fd fd [] = []
close_fd fd (f ∷ fs) = if f == fd then fs else f ∷ close_fd fd fs

-- The platform's part of remove.
unfoldable pub uninstall : Os → ℕ → HwBreakpoints → HwBreakpoints
uninstall windows slot s = record s {
  regs = clear_debug_reg slot s.regs;
  used_slots = drop_slot slot s.used_slots;
}
uninstall darwin slot s = record s {
  regs = clear_debug_reg slot s.regs;
  used_slots = drop_slot slot s.used_slots;
}
uninstall linux fd s = record s { perf_fds = close_fd fd s.perf_fds }
uninstall android fd s = record s { perf_fds = close_fd fd s.perf_fds }

unfoldable pub is_supported : Os → Arch → Bool
is_supported darwin arm64 = false
is_supported os x64 = true
is_supported os arm64 = true

-- `t` and `os` are the system; `hw_dispatch` is the address of chromatic_hwbp_dispatch.
module _ (t : Tools) (os : Os) (perf_open : List ℕ → PerfAttr → Option ℕ) (hw_dispatch : ℕ) where
  -- The trampoline; the relocated code is released if it throws.
  unfoldable pub trampoline_for : ℕ → ℕ → M HwBreakpoints (ℕ × ℕ)
  trampoline_for user relocated s =
      elim (on_process (build_trampoline t os hw_dispatch none user relocated) s) [
        | done s' code ↦ done s' (code, relocated)
        | throw s' e ↦ throw (release_both 0 relocated s') e
      ]

  -- The trampoline and the relocated code of an execute breakpoint, and null pointers for others.
  unfoldable pub build_codes : HwBpType → ℕ → ℕ → M HwBreakpoints (ℕ × ℕ)
  build_codes on_execute address user = do
    relocated ← on_process (build_relocated_code t address 1)
    trampoline_for user relocated.0
  build_codes on_write address user = pure (0, 0)
  build_codes on_read_write address user = pure (0, 0)

  -- Both codes are released if the platform refuses.
  unfoldable pub install_or_release : ℕ × ℕ → ℕ → HwBpType → ℕ → M HwBreakpoints ℕ
  install_or_release (trampoline, relocated) address type size s =
      elim (install perf_open os address type size s) [
        | done s' handle ↦ done s' handle
        | throw s' e ↦ throw (release_both trampoline relocated s') e
      ]

  unfoldable pub set : Text → Text → ℕ → Option ℕ → M HwBreakpoints Text
  unfolding is_supported
  set address_text type_text size on_hit s = elim (is_supported os t.arch) [
    | false ↦ throw s (
        runtime_error (
          codes
            "Hardware breakpoints not supported on macOS ARM64. Use SoftwareBreakpoint instead."))
    | true ↦
        (do
          address ← lift (parse_hex_addr address_text)
          type ← lift (parse_type type_text)
          refuse_set address address_text
          refuse_beyond (platform_max_breakpoints os t.arch)
          modify (ensure_hw_handler_installed os)
          ptr ← new_entry
          code ← build_codes type address ptr
          handle ← install_or_release code address type size
          id ← register (record {
            ptr = ptr;
            address = address;
            type = type;
            size = size;
            on_hit = on_hit;
            handle = handle;
            trampoline_code = code.0;
            relocated_code = code.1;
          })
          pure (to_hex_addr id))
          s
  ]

-- What remove does to one breakpoint.
unfoldable pub unset : Os → HwBreakpointEntry → HwBreakpoints → HwBreakpoints
unset os e s = release_both e.trampoline_code e.relocated_code (uninstall os e.handle s)

unfoldable pub remove : Os → Text → M HwBreakpoints (Unit {0})
remove os id_text s = elim (parse_hex_addr id_text) [
  | err e ↦ throw s e
  | ok id ↦ elim (lookup id s.hw_by_id) [
    | none ↦ done s tt
    | some e ↦
        done
          (maybe_remove_hw_handler (record (unset os e s) {
            hw_by_address = erase e.address s.hw_by_address;
            hw_by_id = erase id s.hw_by_id;
          }))
          tt
  ]
]

unfoldable pub unset_all : Os → List (ℕ × HwBreakpointEntry) → HwBreakpoints → HwBreakpoints
unset_all os [] s = s
unset_all os ((id, e) ∷ es) s = unset_all os es (unset os e s)

-- The map is walked in the order of the list.
unfoldable pub remove_all : Os → HwBreakpoints → HwBreakpoints
remove_all os s =
    maybe_remove_hw_handler
      (record (unset_all os s.hw_by_id s) { hw_by_id = []; hw_by_address = [] })

unfoldable pub max_breakpoints : Os → Arch → ℕ
max_breakpoints = platform_max_breakpoints

unfoldable pub active_count : HwBreakpoints → ℕ
active_count s = length s.hw_by_id
