-- ===== src/Breakpoint.antt =====
-- src/core/bindings/native_breakpoint.cc: software breakpoints. An entry on the C++ heap is told
-- from others by its address, the field `ptr`. POSIX: on x64 the trap leaves the program counter one
-- byte behind the breakpoint.
pub mod Trap
pub mod RoundTrip
pub mod Registered
pub mod Frames
pub mod Failure
pub mod Going
pub mod Sequence
use chromatic.Base.{
  ℕ, zero, suc, ◌+◌, ◌-◌, ◌%◌, ◌^◌, ◌≡◌, refl, Bool, true, false, not, ◌||◌, List, [], ◌∷◌, ◌++◌,
  ◌==◌, if◌then◌else◌, Text, codes, Option, none, some, length, lookup, erase, assign, Result, ok,
  err, runtime_error, Outcome, done, throw, M, pure, lift, bind_outcome, ◌>>=◌, ◌>>◌, modify,
}
use chromatic.Hex.{u64_mod, to_hex_addr, parse_hex_addr}
use chromatic.Platform.{Os, windows, Arch, x64, arm64, bp_insn_size}
use chromatic.Handlers.{
  Handlers, breakpoint, breakpoint_sigtrap, ref_enable, ref_disable, register_handler,
  unregister_handler,
}
use chromatic.Handlers.Signals.{Context, Handling, handled, not_handled, set_pc}
use chromatic.Relocator.{
  le_bytes, read_bytes, make_writable_and_patch, build_relocated_code, release_code,
}
use chromatic.Relocator.Host.{Tools, Process}
use chromatic.Relocator.Trampoline.{build_trampoline}

pub record BreakpointEntry : Type 0 where
  pub ptr : ℕ
  pub address : ℕ
  pub original_bytes : List ℕ
  pub original_insn_size : ℕ
  pub trampoline_code : ℕ
  pub relocated_code : ℕ
  pub on_hit : Option ℕ

pub record Breakpoints : Type 0 where
  pub process : Process
  pub handlers : Handlers
  pub next_bp_id : ℕ
  pub bp_by_id : List (ℕ × BreakpointEntry)
  pub bp_by_address : List (ℕ × BreakpointEntry)
  pub sigtrap_handler_id : ℕ
  pub handler_installed : Bool
  pub next_ptr : ℕ

-- The calls that chromatic_bp_dispatch makes of a script.
unfoldable pub dispatch : ℕ → Option BreakpointEntry → List (ℕ × Text)
dispatch cpu_context none = []
dispatch cpu_context (some e) = elim e.on_hit [
  | none ↦ []
  | some f ↦ (f, to_hex_addr cpu_context) ∷ []
]

is_windows : Os → Bool
is_windows windows = true
is_windows _ = false

-- Where the breakpoint of a trap stands.
unfoldable pub trap_address : Os → Arch → ℕ → ℕ
unfolding is_windows
trap_address os x64 pc = if is_windows os then pc else (pc + u64_mod - 1) % u64_mod
trap_address os arm64 pc = pc

unfoldable pub breakpoint_sigtrap_handler : Os → Arch → Breakpoints → Context → Handling Breakpoints
unfolding trap_address
breakpoint_sigtrap_handler os arch s ctx =
    elim (lookup (trap_address os arch ctx.pc) s.bp_by_address) [
      | none ↦ record { world = s; context = ctx; action = not_handled }
      | some e ↦ record { world = s; context = set_pc e.trampoline_code ctx; action = handled }
    ]

unfoldable pub ensure_handler_installed : Os → Breakpoints → Breakpoints
ensure_handler_installed os s = if s.handler_installed then s else record s {
  handlers = register_handler breakpoint breakpoint_sigtrap (ref_enable os s.handlers);
  sigtrap_handler_id = (ref_enable os s.handlers).next_id;
  handler_installed = true;
}

unfoldable pub is_empty : List (ℕ × BreakpointEntry) → Bool
is_empty [] = true
is_empty (e ∷ es) = false

unfoldable pub maybe_remove_handler : Breakpoints → Breakpoints
unfolding is_empty
maybe_remove_handler s =
    if not s.handler_installed || not (is_empty s.bp_by_address) then s else record s {
      handlers = ref_disable (unregister_handler s.sigtrap_handler_id s.handlers);
      handler_installed = false;
      sigtrap_handler_id = 0;
    }

-- A call that works on the process.
unfoldable pub on_process : {A : Type 0} → (Process → Outcome Process A) → M Breakpoints A
on_process m s = elim (m s.process) [
  | done p a ↦ done (record s { process = p }) a
  | throw p e ↦ throw (record s { process = p }) e
]

unfoldable pub new_entry : M Breakpoints ℕ
new_entry s = done (record s { next_ptr = s.next_ptr + 1 }) s.next_ptr

unfoldable pub register : BreakpointEntry → M Breakpoints ℕ
register entry s =
    done
      (record s {
        next_bp_id = (s.next_bp_id + 1) % u64_mod;
        bp_by_id = assign s.next_bp_id entry s.bp_by_id;
        bp_by_address = assign entry.address entry s.bp_by_address;
      })
      s.next_bp_id

unfoldable pub refuse_set : ℕ → Text → M Breakpoints (Unit {0})
refuse_set address text s = elim (lookup address s.bp_by_address) [
  | some e ↦ throw s (runtime_error (codes "Software breakpoint already set at " ++ text))
  | none ↦ done s tt
]

unfoldable pub release : ℕ → Breakpoints → Breakpoints
release code s = record s { process = release_code code s.process }

-- INT3, or BRK #1.
unfoldable pub bp_insn : Arch → List ℕ
unfolding le_bytes
bp_insn x64 = 0xCC ∷ []
bp_insn arm64 = le_bytes 4 0xD4200020

-- `t` and `os` are the system; `bp_dispatch` is the address of chromatic_bp_dispatch.
module _ (t : Tools) (os : Os) (bp_dispatch : ℕ) where
  size : ℕ
  size = bp_insn_size t.arch

  -- buildTrampoline; the relocated code is released if it throws.
  unfoldable pub trampoline_or_release : ℕ → ℕ → M Breakpoints ℕ
  trampoline_or_release user relocated s =
      elim (on_process (build_trampoline t os bp_dispatch none user relocated) s) [
        | done s' code ↦ done s' code
        | throw s' e ↦ throw (release relocated s') e
      ]

  unfoldable pub set : Text → Option ℕ → M Breakpoints Text
  unfolding size
  set address_text on_hit = do
    address ← lift (parse_hex_addr address_text)
    refuse_set address address_text
    modify (ensure_handler_installed os)
    ptr ← new_entry
    original ← (λ s. done s (read_bytes s.process.memory address size))
    relocated ← on_process (build_relocated_code t address size)
    trampoline ← trampoline_or_release ptr relocated.0
    on_process (make_writable_and_patch t address (bp_insn t.arch))
    id ← register (record {
      ptr = ptr;
      address = address;
      original_bytes = original;
      original_insn_size = relocated.1;
      trampoline_code = trampoline;
      relocated_code = relocated.0;
      on_hit = on_hit;
    })
    pure (to_hex_addr id)

  -- The original bytes are put back, and the code of the breakpoint is released.
  unfoldable pub unset : BreakpointEntry → M Breakpoints (Unit {0})
  unset e = do
    on_process (make_writable_and_patch t e.address e.original_bytes)
    modify (release e.trampoline_code)
    modify (release e.relocated_code)

  unfoldable pub remove : Text → M Breakpoints (Unit {0})
  remove id_text s = elim (parse_hex_addr id_text) [
    | err e ↦ throw s e
    | ok id ↦ elim (lookup id s.bp_by_id) [
      | none ↦ done s tt
      | some e ↦ bind_outcome (unset e s) λ _ s'.
          done
            (maybe_remove_handler (record s' {
              bp_by_address = erase e.address s'.bp_by_address;
              bp_by_id = erase id s'.bp_by_id;
            }))
            tt
    ]
  ]

  unfoldable pub unset_all : List (ℕ × BreakpointEntry) → M Breakpoints (Unit {0})
  unset_all [] s = done s tt
  unset_all ((id, e) ∷ es) s = bind_outcome (unset e s) (λ _ s'. unset_all es s')

  -- The map is walked in the order of the list.
  unfoldable pub remove_all : M Breakpoints (Unit {0})
  unfolding unset_all
  remove_all s =
      bind_outcome (unset_all s.bp_by_id s)
        λ _ s'. done (maybe_remove_handler (record s' { bp_by_id = []; bp_by_address = [] })) tt
