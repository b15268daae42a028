-- ===== src/Examples/Trap.antt =====
-- Software breakpoints on a memory full of one-byte instructions.
use chromatic.Base.{
  ℕ, ◌+◌, ◌*◌, ◌==◌, ◌≡◌, refl, false, List, [], ◌∷◌, Text, codes, none, some, length, arith,
  lookup, Outcome, done, state_of,
}
use chromatic.Base.Signed.{pos}
use chromatic.Hex.{parse_hex_addr, to_hex_addr, hex_digits, hex_char}
use chromatic.Platform.{x64, linux}
use chromatic.Handlers.{Handlers, breakpoint, sig_dfl}
use chromatic.Handlers.Signals.{Context, handled, unknown_access}
use chromatic.Disassembler.{
  Insn, other_insn, insn_to_info, disassemble_one, analyze_instruction, analyze_insn,
}
use chromatic.Relocator.{
  write_bytes, relocate_from, jit_add, build_relocated_code, make_writable_and_patch, protect,
}
use chromatic.Relocator.Host.{Tools}
use chromatic.Relocator.Trampoline.{build_trampoline}
use chromatic.Breakpoint.{
  Breakpoints, set, remove, on_process, new_entry, refuse_set, register, trampoline_or_release,
  breakpoint_sigtrap_handler, bp_insn, ensure_handler_installed,
}
use chromatic.Breakpoint.RoundTrip.{Restored, remove-set, reported_pc, trap-set}

abbrev one_byte_insn : ℕ → Insn
one_byte_insn a = record {
  id = other_insn;
  address = a;
  size = 1;
  mnemonic = codes "nop";
  op_str = [];
  bytes = 0x90 ∷ [];
  detail = none;
}

abbrev pub system : Tools
system = record {
  arch = x64;
  disasm = λ memory a limit. some (one_byte_insn a);
  add = λ live ops. some (0x10000 + 0x1000 * length live);
  mprotect = λ start size prot p. some p;
  page_size = 4096;
}

abbrev pub quiet : Handlers
quiet = record {
  handlers = [];
  next_id = 1;
  enabled = false;
  ref_count = pos 0;
  js_callbacks = [];
  next_js_id = 0x10000;
  current = λ g. sig_dfl;
  old = λ g. sig_dfl;
  veh = false;
}

abbrev pub no_breakpoints : Breakpoints
no_breakpoints = record {
  process = record { memory = λ a. 0x90; protections = λ a. 5; live = [] };
  handlers = quiet;
  next_bp_id = 1;
  bp_by_id = [];
  bp_by_address = [];
  sigtrap_handler_id = 0;
  handler_installed = false;
  next_ptr = 0x700000;
}

abbrev stopped : Outcome Breakpoints Text
stopped = set system linux 0x333 (codes "0x2000") (some 1) no_breakpoints

set_run : stopped ≡ done (state_of stopped) (codes "0x1")
unfolding set refuse_set new_entry parse_hex_addr lookup on_process trampoline_or_release
    build_relocated_code relocate_from disassemble_one to_hex_addr hex_digits hex_char insn_to_info
    analyze_instruction analyze_insn jit_add build_trampoline make_writable_and_patch protect
    register ensure_handler_installed
set_run = refl

remove-set_example :
    (q : Breakpoints) × (remove system linux 0x333 (codes "0x1") (state_of stopped) ≡ done q tt)
    × Restored no_breakpoints q
unfolding parse_hex_addr lookup
remove-set_example =
    remove-set system linux 0x333 (codes "0x2000") (some 1) no_breakpoints (state_of stopped) 0x2000
      (codes "0x1") (λ start size prot p. (p, refl)) refl (omega arith) refl set_run

-- The context of the trap at 0x2000.
abbrev trapped : Context
trapped = record {
  type = breakpoint;
  fault_address = 0x2001;
  pc = 0x2001;
  access_type = unknown_access;
  machine = record { pc = 0x2001; flags = 0 };
}

trap-set_example :
    (code : ℕ) × (rest : List ℕ) × ((state_of stopped).process.live ≡ code ∷ rest)
    × ((code == 0) ≡ false)
    × ((state_of stopped).process.memory
        ≡ write_bytes 0x2000 (bp_insn x64) no_breakpoints.process.memory)
    × ((breakpoint_sigtrap_handler linux x64 (state_of stopped) trapped).action ≡ handled)
    × ((breakpoint_sigtrap_handler linux x64 (state_of stopped) trapped).context.machine.pc ≡ code)
    × ((breakpoint_sigtrap_handler linux x64 (state_of stopped) trapped).world ≡ state_of stopped)
unfolding parse_hex_addr reported_pc
trap-set_example =
    trap-set system linux 0x333 (codes "0x2000") (some 1) no_breakpoints (state_of stopped) 0x2000
      (codes "0x1") trapped tt refl (omega arith) set_run refl
