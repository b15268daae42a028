-- ===== src/Handlers/Signals.antt =====
-- Delivery of a signal: buildContextFromSignal, globalSignalHandler and forwardToOriginal on POSIX
-- systems, vehHandler on Windows, and the accessors of ExceptionContext.
use chromatic.Base.{
  ℕ, ◌-◌, ◌/◌, ◌%◌, ◌^◌, Bool, true, false, ◌&&◌, ◌||◌, List, [], ◌∷◌, ◌==◌, if◌then◌else◌, Option,
  none, some,
}
use Prim.Native.Nat.{bit_and, bit_or}
use chromatic.Hex.{u64_mod}
use chromatic.Platform.{Platform, linux, Arch, x64, arm64}
use chromatic.Handlers.{
  ExceptionType, access_violation, bus_error, breakpoint, single_step, illegal_instruction, unknown,
  exception_tag, Callback, HandlerEntry, Handlers, Signal, sigsegv, sigbus, sigtrap, sigill,
  other_signal, Sigaction, sig_dfl, sig_ign, global_handler, sa_handler, sa_sigaction,
}

pub data AccessType : Type 0 where
  read write execute unknown_access : AccessType

-- What the platform context holds: the program counter, and the register with the single-step bit.
pub record Machine : Type 0 where
  pub pc : ℕ
  pub flags : ℕ

pub record Context : Type 0 where
  pub type : ExceptionType
  pub fault_address : ℕ
  pub pc : ℕ
  pub access_type : AccessType
  pub machine : Machine

unfoldable pub get_pc : Context → ℕ
get_pc ctx = ctx.machine.pc

unfoldable pub set_pc : ℕ → Context → Context
set_pc new_pc ctx = record ctx { machine = record { pc = new_pc; flags = ctx.machine.flags } }

-- TF is bit 8 of the flags on x64, the SS bit is bit 21 on arm64. The registers have 64 bits.
abbrev step_bit : Arch → ℕ
step_bit x64 = 2 ^ 8
step_bit arm64 = 2 ^ 21

unfoldable pub set_single_step : Arch → Bool → Context → Context
set_single_step arch on ctx =
    let flags = ctx.machine.flags in
    record ctx {
      machine = record {
        pc = ctx.machine.pc;
        flags =
            if on
            then bit_or flags (step_bit arch)
            else bit_and flags (u64_mod - 1 - step_bit arch);
      };
    }

-- siginfo_t and the error code of the page fault, as the kernel fills them in.
pub record SigInfo : Type 0 where
  pub si_code : ℕ
  pub si_addr : ℕ
  pub err : ℕ

abbrev segv_maperr : ℕ
segv_maperr = 1

abbrev segv_accerr : ℕ
segv_accerr = 2

abbrev trap_trace : ℕ
trap_trace = 2

is_linux_x64 : Platform → Bool
is_linux_x64 p = elim p.os [ linux ↦ elim p.arch [ x64 ↦ true | arm64 ↦ false ] | _ ↦ false ]

segv_access : Platform → SigInfo → AccessType
unfolding is_linux_x64
segv_access p info =
    if is_linux_x64 p && ((info.si_code == segv_accerr) || (info.si_code == segv_maperr))
    then if (info.err / 2 % 2) == 1 then write else read
    else unknown_access

signal_kind : Platform → Signal → SigInfo → ExceptionType × AccessType
unfolding segv_access
signal_kind p sigsegv info = (access_violation, segv_access p info)
signal_kind p sigbus info = (bus_error, unknown_access)
signal_kind p sigtrap info =
    (if info.si_code == trap_trace then single_step else breakpoint, execute)
signal_kind p sigill info = (illegal_instruction, execute)
signal_kind p other_signal info = (unknown, unknown_access)

unfoldable pub build_context_from_signal : Platform → Signal → SigInfo → Machine → Context
unfolding signal_kind
build_context_from_signal p sig info machine = record {
  type = (signal_kind p sig info).0;
  fault_address = info.si_addr;
  pc = machine.pc;
  access_type = (signal_kind p sig info).1;
  machine = machine;
}

pub data HandleAction : Type 0 where
  handled not_handled : HandleAction

-- What a handler leaves: the rest of the program's state, the context, and its answer.
pub record Handling (W : Type 0) : Type 0 where
  pub world : W
  pub context : Context
  pub action : HandleAction

-- The loop over the copy of g_handlers. `invoke` runs a registered function.
unfoldable pub dispatch :
    {W : Type 0}
    → (Callback → W → Context → Handling W)
    → List HandlerEntry
    → W
    → Context
    → Handling W
dispatch invoke [] w ctx = record { world = w; context = ctx; action = not_handled }
dispatch invoke (e ∷ es) w ctx = elim (exception_tag e.type == exception_tag ctx.type) [
  | false ↦ dispatch invoke es w ctx
  | true ↦
      let r = invoke e.callback w ctx in
      elim r.action [ handled ↦ r | not_handled ↦ dispatch invoke es r.world r.context ]
]

-- Where a signal goes in the end: execution goes on, or the original handler is called. The last
-- constructor is a call of globalSignalHandler again.
pub data Forwarded : Type 0 where
  resumed ignored raised_default called_global : Forwarded
  called_handler called_sigaction : ℕ → Forwarded

-- forwardToOriginal; a null `sa_sigaction` (address 0) is not called.
unfoldable pub forward_to_original : Sigaction → Forwarded
forward_to_original sig_dfl = raised_default
forward_to_original sig_ign = ignored
forward_to_original global_handler = called_global
forward_to_original (sa_handler f) = called_handler f
forward_to_original (sa_sigaction f) = if f == 0 then ignored else called_sigaction f

unfoldable pub forward_signal : Handlers → Signal → Forwarded
forward_signal s other_signal = ignored
forward_signal s sigsegv = forward_to_original (s.old sigsegv)
forward_signal s sigbus = forward_to_original (s.old sigbus)
forward_signal s sigtrap = forward_to_original (s.old sigtrap)
forward_signal s sigill = forward_to_original (s.old sigill)

unfoldable pub global_signal_handler :
    {W : Type 0}
    → (Callback → W → Context → Handling W)
    → Platform
    → Handlers
    → Signal
    → SigInfo
    → Machine
    → W
    → Handling W × Forwarded
unfolding forward_to_original
global_signal_handler invoke p s sig info machine w =
    let r = dispatch invoke s.handlers w (build_context_from_signal p sig info machine) in
    (r, elim r.action [ handled ↦ resumed | not_handled ↦ forward_signal s sig ])

-- The exception codes of Windows that vehHandler knows, and all others.
pub data ExceptionCode : Type 0 where
  exception_access_violation exception_breakpoint exception_single_step : ExceptionCode
  exception_illegal_instruction exception_other : ExceptionCode

veh_kind : ExceptionCode → ℕ → Option (ExceptionType × AccessType)
veh_kind exception_access_violation info0 =
    some (access_violation, if info0 == 0 then read else write)
veh_kind exception_breakpoint info0 = some (breakpoint, execute)
veh_kind exception_single_step info0 = some (single_step, execute)
veh_kind exception_illegal_instruction info0 = some (illegal_instruction, execute)
veh_kind exception_other info0 = none

-- vehHandler: `none` where it goes on searching before any handler is asked. `info0` and `info1`
-- are ExceptionInformation[0] and [1]. A result that is `handled` continues the execution.
unfoldable pub veh_handler :
    {W : Type 0}
    → (Callback → W → Context → Handling W)
    → Handlers
    → ExceptionCode
    → ℕ
    → ℕ
    → Machine
    → W
    → Option (Handling W)
unfolding veh_kind
veh_handler invoke s code info0 info1 machine w = elim (veh_kind code info0) [
  | none ↦ none
  | some kind ↦ some (
      dispatch invoke s.handlers w (record {
        type = kind.0;
        fault_address = info1;
        pc = machine.pc;
        access_type = kind.1;
        machine = machine;
      }))
]
