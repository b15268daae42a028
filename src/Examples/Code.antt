-- ===== src/Examples/Code.antt =====
-- The disassembler, the relocator and the interceptor on a memory full of one-byte instructions.
use chromatic.Base.{
  throw, runtime_error, ℕ, ◌+◌, ◌*◌, ◌≡◌, ◌↔◌, refl, ap, List, [], ◌∷◌, Text, codes, Option, none,
  some, length, arith, ok, Outcome, done, state_of, lookup,
}
use chromatic.Hex.{parse_hex_addr, to_hex_addr, hex_digits, hex_char}
use chromatic.Platform.{x64, linux}
use chromatic.Disassembler.{
  Insn, imm, other_insn, XrefResult, find_xrefs, disassemble_one, analyze_instruction, insn_to_info,
  analyze_insn,
}
use chromatic.Disassembler.Xrefs.{Decodes, Reported, Found, Reported-find_xrefs}
use chromatic.Relocator.{
  relocate_from, jit_add, build_relocated_code, make_writable_and_patch, protect,
}
use chromatic.Relocator.Host.{Tools, Process}
use chromatic.Relocator.Trampoline.{build_trampoline}
use chromatic.Relocator.Moved.{Moved}
use chromatic.Interceptor.{Hooks, attach, detach, register}
use chromatic.Interceptor.Failure.{SameHooks, attach_error-SameHooks}
use chromatic.Interceptor.Undo.{detach-attach, Restored}

-- Every byte decodes as a call of 0x9000 that takes one byte.
abbrev call_insn : ℕ → Insn
call_insn a = record {
  id = other_insn;
  address = a;
  size = 1;
  mnemonic = codes "call";
  op_str = codes "0x9000";
  bytes = 0xE8 ∷ [];
  detail =
      some
        (record { groups = 2 ∷ []; regs_read = []; regs_write = []; operands = imm 0x9000 ∷ [] });
}

abbrev decode : (ℕ → ℕ) → ℕ → ℕ → Option Insn
decode memory a limit = some (call_insn a)

decode-Decodes : Decodes decode
decode-Decodes memory a limit i e =
    let same : call_insn a ≡ i = cc in
    let size : 1 ≡ i.size = ap (λ (x : Insn). x.size) same in omega (arith, size)

abbrev pub filled : ℕ → ℕ
filled a = 0x90

Reported-find_xrefs_example :
    (xs : List XrefResult) × (find_xrefs decode x64 filled (codes "0x2000") 3 (codes "0x9000")
      ≡ ok xs)
    × ((x : XrefResult) → Reported x xs ↔ Found decode x64 filled 0x2000 0x9000 3 0 x)
unfolding parse_hex_addr
Reported-find_xrefs_example =
    Reported-find_xrefs decode x64 filled (codes "0x2000") (codes "0x9000") 0x2000 0x9000 3
      decode-Decodes refl refl (omega arith) (omega arith) (omega arith)

-- Instructions of one byte without operands; new code stands behind the code that is live.
abbrev pub nop_insn : ℕ → Insn
nop_insn a = record {
  id = other_insn;
  address = a;
  size = 1;
  mnemonic = codes "nop";
  op_str = [];
  bytes = 0x90 ∷ [];
  detail = none;
}

abbrev pub tools : Tools
tools = record {
  arch = x64;
  disasm = λ memory a limit. some (nop_insn a);
  add = λ live ops. some (0x10000 + 0x1000 * length live);
  mprotect = λ start size prot p. some p;
  page_size = 4096;
}

abbrev pub no_hooks : Hooks
no_hooks = record {
  process = record { memory = filled; protections = λ a. 5; live = [] };
  next_hook_id = 1;
  hooks_by_id = [];
  hooks_by_target = [];
  next_ptr = 0x700000;
}

abbrev hooked : Outcome Hooks Text
hooked = attach tools linux 0x111 0x222 (codes "0x2000") (some 1) none no_hooks

attach_run : hooked ≡ done (state_of hooked) (codes "0x1")
unfolding attach parse_hex_addr lookup build_relocated_code relocate_from disassemble_one
    to_hex_addr hex_digits hex_char insn_to_info analyze_instruction analyze_insn jit_add
    build_trampoline make_writable_and_patch protect register
attach_run = refl

detach-attach_example :
    (q : Hooks) × (detach tools linux 0x111 0x222 (codes "0x1") (state_of hooked) ≡ done q tt)
    × Restored no_hooks q
unfolding parse_hex_addr lookup
detach-attach_example =
    detach-attach tools linux 0x111 0x222 (codes "0x2000") (some 1) none no_hooks (state_of hooked)
      0x2000 (codes "0x1") (λ start size prot p. (p, refl)) refl (omega arith) refl attach_run

abbrev relocated_run : Outcome Process (ℕ × ℕ)
relocated_run = build_relocated_code tools 0x2000 14 no_hooks.process

-- A system on which no page can be made writable.
abbrev locked : Tools
locked = record tools { mprotect = λ start size prot p. none }

abbrev refused : Outcome Hooks Text
refused = attach locked linux 0x111 0x222 (codes "0x2000") (some 1) none no_hooks

refused_run : refused ≡ throw (state_of refused) (runtime_error (codes "mprotect(RW) failed"))
unfolding attach parse_hex_addr lookup build_relocated_code relocate_from disassemble_one
    to_hex_addr hex_digits hex_char insn_to_info analyze_instruction analyze_insn jit_add
    build_trampoline make_writable_and_patch protect register
refused_run = refl

attach_error-SameHooks_example : SameHooks no_hooks (state_of refused)
attach_error-SameHooks_example =
    attach_error-SameHooks locked linux 0x111 0x222 (codes "0x2000") (some 1) none no_hooks
      (state_of refused) (runtime_error (codes "mprotect(RW) failed")) refused_run
