-- ===== src/Examples/Hardware.antt =====
-- Hardware breakpoints over the debug registers of x64.
use chromatic.Base.{
  ℕ, ◌++◌, ◌≡◌, refl, false, List, [], ◌∷◌, codes, some, none, Option, arith, Outcome, Text, done,
  lookup, state_of, text_eq,
}
use chromatic.Base.Digits.{bit}
use chromatic.Platform.{x64, windows}
use chromatic.Handlers.{single_step, hw_sigtrap}
use chromatic.Examples.Trap.{system, quiet}
use chromatic.HwBreakpoint.{
  HwBreakpoints, PerfAttr, ensure_hw_handler_installed, parse_type, platform_max_breakpoints,
}
use chromatic.HwBreakpoint.Requests.{
  set, remove, refuse_set, refuse_beyond, new_entry, build_codes, install_or_release, install,
  take_slot, register, is_supported,
}
use chromatic.Hex.{parse_hex_addr, to_hex_addr, hex_digits, hex_char}
use chromatic.HwBreakpoint.Windows.{
  WinContext, win_set_debug_reg, win_clear_debug_reg, regs_of, regs_of-win_debug_reg,
}
use chromatic.HwBreakpoint.Slots.{
  find_free_slot, free_slot_from, is_used, use_slot, set_debug_reg, clear_debug_reg, on_write,
  type_value, length_value, control,
}
use chromatic.HwBreakpoint.Control.{wanted_bit, control_bits}
use chromatic.HwBreakpoint.Order.{Call, sets, removes, calls, calls-IsValid}
use chromatic.HwBreakpoint.Reach.{IsValid}
use chromatic.HwBreakpoint.Leak.{remove-set_leaks}

abbrev pub no_hw_breakpoints : HwBreakpoints
no_hw_breakpoints = record {
  process = record { memory = λ a. 0x90; protections = λ a. 5; live = [] };
  handlers = quiet;
  regs = record { dr = λ i. 0; dr7 = 0x400 };
  perf_fds = [];
  next_hw_id = 1;
  hw_by_id = [];
  hw_by_address = [];
  used_slots = 0;
  hw_handler_id = 0;
  handler_installed = false;
  next_ptr = 0x700000;
}

abbrev no_perf_events : List ℕ → PerfAttr → Option ℕ
no_perf_events fds attr = none

control_bits_example :
    bit 21 (control 1 (type_value on_write) (length_value 4) 0x400)
    ≡ wanted_bit 1 (type_value on_write) (length_value 4) 21 (bit 21 0x400)
control_bits_example = control_bits 1 on_write 4 0x400 21 (omega arith) (omega arith)

-- Two watchpoints on Windows, and the first of them removed.
abbrev session : List Call
session =
    sets (codes "0x2000") (codes "write") 4 (some 1)
    ∷ sets (codes "0x3000") (codes "readwrite") 8 (some 2)
    ∷ removes (codes "0x1")
    ∷ []

calls-IsValid_example :
    IsValid windows x64 (calls system windows no_perf_events 0x333 session no_hw_breakpoints)
calls-IsValid_example =
    calls-IsValid system windows no_perf_events 0x333 session no_hw_breakpoints
      (record { bounded = omega arith; slots = tt })

abbrev came : Outcome HwBreakpoints Text
came =
    set system windows no_perf_events 0x333 (codes "0x2000") (codes "write") 4 none
      no_hw_breakpoints

set_run : came ≡ done (state_of came) (codes "0x1")
unfolding set is_supported parse_hex_addr parse_type refuse_set refuse_beyond lookup
    ensure_hw_handler_installed new_entry build_codes install_or_release install take_slot
    find_free_slot use_slot register to_hex_addr hex_digits hex_char text_eq
    platform_max_breakpoints free_slot_from is_used
set_run = refl

remove-set_leaks_example :
    (r : HwBreakpoints) × (remove windows (codes "0x1") (state_of came) ≡ done r tt)
    × (r.hw_by_id ≡ [])
    × (r.handler_installed ≡ false)
    × (r.handlers.handlers
        ≡ quiet.handlers ++ record { id = 2; type = single_step; callback = hw_sigtrap } ∷ [])
remove-set_leaks_example =
    remove-set_leaks system windows no_perf_events 0x333 (codes "0x2000") (codes "write") 4 none
      no_hw_breakpoints (state_of came) (codes "0x1") refl refl refl tt (omega arith) (omega arith)
      set_run

abbrev thread_context : WinContext
thread_context = record { dr0 = 0x1000; dr1 = 0; dr2 = 0x3000; dr3 = 0; dr7 = 0x411 }

regs_of-win_debug_reg_example :
    (regs_of (win_set_debug_reg 1 0x2000 on_write 4 thread_context)
      ≡ set_debug_reg 1 0x2000 on_write 4 (regs_of thread_context))
    × (regs_of (win_clear_debug_reg 1 thread_context) ≡ clear_debug_reg 1 (regs_of thread_context))
regs_of-win_debug_reg_example =
    regs_of-win_debug_reg 1 0x2000 4 on_write thread_context (omega arith)
