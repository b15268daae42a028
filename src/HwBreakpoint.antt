-- ===== src/HwBreakpoint.antt =====
-- src/core/bindings/native_hw_breakpoint.cc: hardware breakpoints, over perf events on Linux and
-- Android and over the debug registers of x64 on Windows and Darwin. An entry on the C++ heap is told
-- from others by its address, the field `ptr`; its fields originalBytes and handlerId, which nothing
-- reads, are left out. The `int size` of a request is not negative here.
pub mod Slots
pub mod Windows
pub mod Requests
pub mod Control
pub mod Slotted
pub mod Reach
pub mod Calls
pub mod Order
pub mod Keeping
pub mod Coming
pub mod Leak
use chromatic.Base.{
  ℕ, zero, suc, ◌+◌, ◌-◌, ◌%◌, ◌^◌, ◌≡◌, refl, Bool, true, false, not, ◌||◌, ◌&&◌, List, [], ◌∷◌,
  ◌++◌, ◌==◌, if◌then◌else◌, leb, Text, codes, text_eq, Option, none, some, length, lookup, erase,
  assign, Result, ok, err, runtime_error, Outcome, done, throw, M, pure, lift, bind_outcome, ◌>>=◌,
  ◌>>◌, modify, zoom,
}
use chromatic.Hex.{u64_mod, to_hex_addr, parse_hex_addr}
use chromatic.Platform.{Os, linux, android, darwin, windows, Arch, x64, arm64}
use chromatic.Handlers.{
  Handlers, breakpoint, single_step, hw_sigtrap, ref_enable, ref_disable, register_handler,
  unregister_handler,
}
use chromatic.Handlers.Signals.{Context, Handling, handled, not_handled, set_pc}
use chromatic.Relocator.{build_relocated_code, release_code}
use chromatic.Relocator.Host.{Tools, Process}
use chromatic.Relocator.Trampoline.{build_trampoline}
use Prim.Native.Nat.{bit_and}
use Slots.{
  HwBpType, on_execute, on_write, on_read_write, DebugRegs, set_debug_reg, clear_debug_reg,
  find_free_slot, use_slot, drop_slot,
}

unfoldable pub parse_type : Text → Result HwBpType
parse_type s =
    if text_eq s (codes "execute")
    then ok on_execute
    else if text_eq s (codes "write")
    then ok on_write
    else if text_eq s (codes "readwrite")
    then ok on_read_write
    else err (
        runtime_error (
          codes "Invalid hardware breakpoint type: "
          ++ s
          ++ codes ". Use 'execute', 'write', or 'readwrite'"))

-- What the platform gave for a breakpoint: `perfFd`, or `slot`.
pub record HwBreakpointEntry : Type 0 where
  pub ptr : ℕ
  pub address : ℕ
  pub type : HwBpType
  pub size : ℕ
  pub on_hit : Option ℕ
  pub handle : ℕ
  pub trampoline_code : ℕ
  pub relocated_code : ℕ

-- The fields of perf_event_attr that depend on the request. HW_BREAKPOINT_R and HW_BREAKPOINT_W are 1
-- and 2, and HW_BREAKPOINT_X is 4.
pub record PerfAttr : Type 0 where
  pub bp_type : ℕ
  pub bp_len : ℕ
  pub bp_addr : ℕ

-- The globals of the file, with the process, the registry of handlers, the debug registers of the
-- thread and the perf events that are open and enabled.
pub record HwBreakpoints : Type 0 where
  pub process : Process
  pub handlers : Handlers
  pub regs : DebugRegs
  pub perf_fds : List ℕ
  pub next_hw_id : ℕ
  pub hw_by_id : List (ℕ × HwBreakpointEntry)
  pub hw_by_address : List (ℕ × HwBreakpointEntry)
  pub used_slots : ℕ
  pub hw_handler_id : ℕ
  pub handler_installed : Bool
  pub next_ptr : ℕ

unfoldable pub platform_max_breakpoints : Os → Arch → ℕ
platform_max_breakpoints darwin arm64 = 0
platform_max_breakpoints os x64 = 4
platform_max_breakpoints os arm64 = 4

-- The calls that chromatic_hwbp_dispatch makes of a script.
unfoldable pub hwbp_dispatch : ℕ → Option HwBreakpointEntry → List (ℕ × Text)
hwbp_dispatch cpu_context none = []
hwbp_dispatch cpu_context (some e) = elim e.on_hit [
  | none ↦ []
  | some f ↦ (f, to_hex_addr cpu_context) ∷ []
]

-- An execute breakpoint is asked for with the length of a `long`.
unfoldable pub perf_attr : ℕ → HwBpType → ℕ → PerfAttr
perf_attr addr on_execute size = record { bp_type = 4; bp_len = 8; bp_addr = addr }
perf_attr addr on_write size = record { bp_type = 2; bp_len = size; bp_addr = addr }
perf_attr addr on_read_write size = record { bp_type = 3; bp_len = size; bp_addr = addr }

-- The first entry with the slot, as the map is walked.
unfoldable pub entry_of_slot : ℕ → List (ℕ × HwBreakpointEntry) → Option HwBreakpointEntry
entry_of_slot slot [] = none
entry_of_slot slot ((a, e) ∷ es) =
    let later = entry_of_slot slot es in if e.handle == slot then some e else later

-- The loop over the slots whose bit is set in DR6: the first that has an entry.
unfoldable pub triggered_from : ℕ → ℕ → ℕ → List (ℕ × HwBreakpointEntry) → Option HwBreakpointEntry
triggered_from zero slot dr6 es = none
triggered_from (suc rounds) slot dr6 es =
    let later = triggered_from rounds (slot + 1) dr6 es in
    if bit_and dr6 (2 ^ slot) == 0
    then later
    else elim (entry_of_slot slot es) [ none ↦ later | some e ↦ some e ]

uses_debug_regs : Os → Bool
uses_debug_regs windows = true
uses_debug_regs darwin = true
uses_debug_regs _ = false

watchpoint : Option ℕ → HwBreakpoints → Option HwBreakpointEntry
watchpoint none s = none
watchpoint (some dr6) s = triggered_from 4 0 dr6 s.hw_by_address

-- The entry whose execute breakpoint stands at the program counter.
execute_hit : Context → HwBreakpoints → Option HwBreakpointEntry
execute_hit ctx s = elim (lookup ctx.pc s.hw_by_address) [
  | none ↦ none
  | some e ↦ elim e.type [ on_execute ↦ if e.trampoline_code == 0 then none else some e | _ ↦ none ]
]

-- The handler's state, and the calls of scripts' functions that it makes. `dr6` is that register
-- where the platform's context gives it.
unfoldable pub hw_sigtrap_handler :
    Os
    → Option ℕ
    → HwBreakpoints × List (ℕ × Text)
    → Context
    → Handling (HwBreakpoints × List (ℕ × Text))
unfolding execute_hit watchpoint uses_debug_regs
hw_sigtrap_handler os dr6 (s, log) ctx = elim (execute_hit ctx s) [
  | some e ↦ record { world = (s, log); context = set_pc e.trampoline_code ctx; action = handled }
  | none ↦ elim (if uses_debug_regs os then watchpoint dr6 s else none) [
    | some e ↦ record {
      world = (s, log ++ hwbp_dispatch ctx.pc (some e));
      context = ctx;
      action = handled;
    }
    | none ↦ record { world = (s, log); context = ctx; action = not_handled }
  ]
]

-- Two handlers are registered, and the id of the first is kept.
unfoldable pub ensure_hw_handler_installed : Os → HwBreakpoints → HwBreakpoints
ensure_hw_handler_installed os s = if s.handler_installed then s else record s {
  handlers =
      register_handler single_step hw_sigtrap
        (register_handler breakpoint hw_sigtrap (ref_enable os s.handlers));
  hw_handler_id = (ref_enable os s.handlers).next_id;
  handler_installed = true;
}

unfoldable pub is_empty : List (ℕ × HwBreakpointEntry) → Bool
is_empty [] = true
is_empty (e ∷ es) = false

unfoldable pub maybe_remove_hw_handler : HwBreakpoints → HwBreakpoints
unfolding is_empty
maybe_remove_hw_handler s =
    if not s.handler_installed || not (is_empty s.hw_by_address) then s else record s {
      handlers = ref_disable (unregister_handler s.hw_handler_id s.handlers);
      handler_installed = false;
      hw_handler_id = 0;
    }

abbrev pub on_process : {A : Type 0} → M Process A → M HwBreakpoints A
on_process = zoom (λ (s : HwBreakpoints). s.process) (λ p s. record s { process = p })

unfoldable pub release_both : ℕ → ℕ → HwBreakpoints → HwBreakpoints
release_both trampoline relocated s = record s {
  process = release_code relocated (release_code trampoline s.process);
}
