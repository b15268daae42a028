-- ===== src/Relocator.antt =====
-- src/core/bindings/internal/code_relocator.cc: patching code, relocating instructions and building
-- trampolines. The assembler is seen as the list of the calls made to it, `List Op`; the JIT runtime
-- that turns them into code, Capstone and mprotect are parameters. Patching is the branch of Linux
-- and Android.
pub mod Ops
pub mod Host
pub mod Trampoline
pub mod Patch
pub mod Build
pub mod Moved
pub mod Systems
pub mod Copies
pub mod Cpu
pub mod CpuArm64
pub mod Table
pub mod Ledger
pub mod Disjoint
use Prim.Native.Nat.{bit_and}
use chromatic.Base.{
  ℕ, zero, suc, ◌+◌, ◌-◌, ◌*◌, ◌/◌, ◌%◌, ◌<◌, ◌^◌, ◌≡◌, refl, Bool, true, false, not, ◌&&◌, ◌||◌,
  List, [], ◌∷◌, ◌++◌, ◌==◌, if◌then◌else◌, ltb, leb, Text, codes, Option, none, some, length,
  get_or, Result, ok, err, and_then, runtime_error, Outcome, done, throw, M, pure, lift,
  bind_outcome, ◌>>=◌, text_eq,
}
use chromatic.Hex.{u64_mod, to_hex_addr, parse_hex_addr}
use chromatic.Platform.{Arch, x64, arm64}
use chromatic.Disassembler.{
  InstructionInfo, InstructionAnalysis, disassemble_one, analyze_instruction,
}
use Ops.{
  Op, jmp_rip, jmp_label, call_rip, embed_u8, embed_u32, embed_u64, embed, bind, mov_x, br, blr,
}
use Host.{Tools, Process}

-- The little-endian bytes of a number: memcpy of an integer of `n` bytes.
unfoldable pub le_bytes : ℕ → ℕ → List ℕ
le_bytes zero x = []
le_bytes (suc n) x = (x % 256) ∷ le_bytes n (x / 256)

-- generatePatchBytes: a jump to any 64-bit address.
unfoldable pub generate_patch_bytes : Arch → ℕ → List ℕ
unfolding le_bytes
generate_patch_bytes x64 target = 0xFF ∷ 0x25 ∷ (le_bytes 4 0 ++ le_bytes 8 target)
generate_patch_bytes arm64 target =
    le_bytes 4 0x58000050 ++ (le_bytes 4 0xD61F0200 ++ le_bytes 8 target)

-- memcpy into memory, and out of it.
unfoldable pub write_bytes : ℕ → List ℕ → (ℕ → ℕ) → ℕ → ℕ
write_bytes a bs m x = if leb a x && ltb x (a + length bs) then get_or bs (x - a) 0 else m x

unfoldable pub read_bytes : (ℕ → ℕ) → ℕ → ℕ → List ℕ
read_bytes m a zero = []
read_bytes m a (suc n) = m a ∷ read_bytes m (a + 1) n

-- PROT_READ | PROT_WRITE and PROT_READ | PROT_EXEC.
abbrev pub prot_rw : ℕ
prot_rw = 3

abbrev pub prot_rx : ℕ
prot_rx = 5

unfoldable pub protect : Tools → ℕ → ℕ → ℕ → Text → M Process (Unit {0})
protect t start size prot message s = elim (t.mprotect start size prot s.protections) [
  | none ↦ throw s (runtime_error message)
  | some p ↦ done (record s { protections = p }) tt
]

-- makeWritableAndPatch: the pages of the patch are made writable, then executable again.
unfoldable pub make_writable_and_patch : Tools → ℕ → List ℕ → M Process (Unit {0})
make_writable_and_patch t addr bytes s =
    let page_start = bit_and addr (u64_mod - t.page_size) in
    let total_size = addr + length bytes - page_start in
    bind_outcome (protect t page_start total_size prot_rw (codes "mprotect(RW) failed") s) λ _ s₁.
      protect t page_start total_size prot_rx (codes "mprotect(RX) failed")
        (record s₁ { memory = write_bytes addr bytes s₁.memory })

-- One relocated instruction on x64; `label` numbers the labels made so far. The first jump of a
-- relocated CALL goes to a label of its own that is never bound.
unfoldable pub relocate_x64 : (ℕ → ℕ) → ℕ → ℕ → InstructionAnalysis → ℕ → ℕ → List Op × ℕ
relocate_x64 memory at size analysis target label =
    let first_byte = memory at in
    let copy = embed (read_bytes memory at size) ∷ [] in
    let cc =
      if leb 0x70 first_byte && leb first_byte 0x7F
      then first_byte - 0x70
      else if first_byte == 0x0F
      then (memory (at + 1) + 256 - 0x80) % 256
      else 0 in
    let inverted = if (cc % 2) == 0 then cc + 1 else cc - 1 in
    if not analysis.is_pc_relative
    then (copy, label)
    else if first_byte == 0xE9
    then (jmp_rip ∷ embed_u64 target ∷ [], label)
    else if first_byte == 0xE8
    then (call_rip 2 ∷ jmp_label label ∷ embed_u64 target ∷ bind (label + 1) ∷ [], label + 2)
    else if analysis.is_branch && not analysis.is_call
    then (
      embed_u8 0x0F
          ∷ embed_u8 ((0x80 + inverted) % 256)
          ∷ embed_u32 14
          ∷ jmp_rip
          ∷ embed_u64 target
          ∷ bind label
          ∷ [],
      label + 1,
    )
    else (copy, label)

-- On arm64 the mnemonic decides; `rd` is the low five bits of the instruction word.
unfoldable pub relocate_arm64 : (ℕ → ℕ) → ℕ → ℕ → Text → InstructionAnalysis → ℕ → List Op
relocate_arm64 memory at size mnemonic analysis target =
    let copy = embed (read_bytes memory at size) ∷ [] in
    if not analysis.is_pc_relative
    then copy
    else if text_eq mnemonic (codes "b")
    then mov_x 16 target ∷ br 16 ∷ []
    else if text_eq mnemonic (codes "bl")
    then mov_x 16 target ∷ blr 16 ∷ []
    else if text_eq mnemonic (codes "adr") || text_eq mnemonic (codes "adrp")
    then mov_x (memory at % 32) target ∷ []
    else copy

unfoldable pub relocate_insn :
    Arch → (ℕ → ℕ) → ℕ → InstructionInfo → InstructionAnalysis → ℕ → ℕ → List Op × ℕ
relocate_insn x64 memory at info analysis target label =
    relocate_x64 memory at info.size analysis target label
relocate_insn arm64 memory at info analysis target label =
    (relocate_arm64 memory at info.size info.mnemonic analysis target, label)

pub jump_back : Arch → ℕ → List Op
jump_back x64 target = jmp_rip ∷ embed_u64 target ∷ []
jump_back arm64 target = mov_x 16 target ∷ br 16 ∷ []

-- The loop of buildRelocatedCode, with the offset and the labels so far. A decoded instruction has
-- a byte at least, so that `min_bytes + 1` rounds are enough.
unfoldable pub relocate_from : Tools → (ℕ → ℕ) → ℕ → ℕ → ℕ → List Op → ℕ → ℕ → Result (List Op × ℕ)
unfolding jump_back
relocate_from t memory source min_bytes zero ops offset label =
    ok (ops ++ jump_back t.arch ((source + offset) % u64_mod), offset)
relocate_from t memory source min_bytes (suc fuel) ops offset label =
    let at = (source + offset) % u64_mod in
    elim (ltb offset min_bytes) [
      | false ↦ ok (ops ++ jump_back t.arch at, offset)
      | true ↦ and_then (disassemble_one t.disasm t.arch memory (to_hex_addr at)) λ info.
          elim (info.size == 0) [
            | true ↦ err (runtime_error (codes "Cannot disassemble at " ++ to_hex_addr at))
            | false ↦
                and_then (analyze_instruction t.disasm t.arch memory (to_hex_addr at)) λ analysis.
                  and_then (parse_hex_addr analysis.target) λ target.
                    (let (more, label') =
                        relocate_insn t.arch memory at info analysis target label in
                      relocate_from t memory source min_bytes fuel (ops ++ more)
                        (offset + info.size) label')
          ]
    ]

-- `g_jitRuntime.add`: the code's address, which is not null, is live from now on.
unfoldable pub jit_add : Tools → List Op → Text → M Process ℕ
jit_add t ops message s = elim (t.add s.live ops) [
  | none ↦ throw s (runtime_error message)
  | some code ↦
      if code == 0
      then throw s (runtime_error message)
      else done (record s { live = code ∷ s.live }) code
]

unfoldable pub build_relocated_code : Tools → ℕ → ℕ → M Process (ℕ × ℕ)
build_relocated_code t source min_bytes s =
    elim (relocate_from t s.memory source min_bytes (min_bytes + 1) [] 0 0) [
      | err e ↦ throw s e
      | ok (ops, consumed) ↦
          bind_outcome (jit_add t ops (codes "asmjit: failed to build relocated code") s)
            λ code s₁. done s₁ (code, consumed)
    ]

unfoldable pub drop_live : ℕ → List ℕ → List ℕ
drop_live code [] = []
drop_live code (c ∷ cs) = if c == code then cs else c ∷ drop_live code cs

-- releaseCode: nothing for a null pointer.
unfoldable pub release_code : ℕ → Process → Process
unfolding drop_live
release_code code s = if code == 0 then s else record s { live = drop_live code s.live }
