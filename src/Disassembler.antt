-- ===== src/Disassembler.antt =====
-- src/core/bindings/native_disassembler.cc. Capstone is a parameter: `disasm memory address limit`
-- is what cs_disasm decodes first at an address, of at most `limit` bytes, and `disasm_many` what it
-- decodes when asked for several instructions. Immediates and displacements are 64-bit patterns.
pub mod Xrefs
use chromatic.Base.{
  ℕ, zero, suc, ◌+◌, ◌-◌, ◌*◌, ◌/◌, ◌%◌, ◌<◌, ◌^◌, ◌≡◌, refl, Bool, true, false, not, ◌&&◌, ◌||◌,
  List, [], ◌∷◌, ◌++◌, ◌==◌, if◌then◌else◌, ltb, leb, Text, codes, Option, none, some, map, Result,
  ok, err, and_then,
}
use chromatic.Hex.{u64_mod, hex_char, to_hex_addr, parse_hex_addr}
use chromatic.Platform.{Arch, x64, arm64}

pub data Operand : Type 0 where
  imm : ℕ → Operand
  -- A memory operand whose base register is RIP, by its displacement.
  rip_mem : ℕ → Operand
  other_operand : Operand

pub data InsnId : Type 0 where
  adr adrp other_insn : InsnId

pub record Detail : Type 0 where
  pub groups : List ℕ
  pub regs_read : List ℕ
  pub regs_write : List ℕ
  pub operands : List Operand

-- cs_insn.
pub record Insn : Type 0 where
  pub id : InsnId
  pub address : ℕ
  pub size : ℕ
  pub mnemonic : Text
  pub op_str : Text
  pub bytes : List ℕ
  pub detail : Option Detail

abbrev pub cs_grp_jump : ℕ
cs_grp_jump = 1

abbrev pub cs_grp_call : ℕ
cs_grp_call = 2

abbrev pub cs_grp_branch_relative : ℕ
cs_grp_branch_relative = 7

pub record InstructionInfo : Type 0 where
  pub mnemonic : Text
  pub op_str : Text
  pub size : ℕ
  pub bytes : Text
  pub address : Text
  pub groups : List ℕ
  pub regs_read : List ℕ
  pub regs_write : List ℕ

pub record InstructionAnalysis : Type 0 where
  pub is_branch : Bool
  pub is_call : Bool
  pub is_relative : Bool
  pub target : Text
  pub is_pc_relative : Bool
  pub size : ℕ

pub record XrefResult : Type 0 where
  pub address : Text
  pub type : Text
  pub size : ℕ

-- bytesToHex of this file puts a space between two bytes.
unfoldable pub spaced_hex : List ℕ → Text
spaced_hex [] = []
spaced_hex (b ∷ []) = hex_char (b / 16 % 16) ∷ hex_char (b % 16) ∷ []
spaced_hex (b ∷ c ∷ bs) = hex_char (b / 16 % 16) ∷ hex_char (b % 16) ∷ 32 ∷ spaced_hex (c ∷ bs)

unfoldable pub insn_to_info : Insn → InstructionInfo
insn_to_info insn = record {
  mnemonic = insn.mnemonic;
  op_str = insn.op_str;
  size = insn.size;
  bytes = spaced_hex insn.bytes;
  address = to_hex_addr insn.address;
  groups = elim insn.detail [ none ↦ [] | some d ↦ d.groups ];
  regs_read = elim insn.detail [ none ↦ [] | some d ↦ d.regs_read ];
  regs_write = elim insn.detail [ none ↦ [] | some d ↦ d.regs_write ];
}

empty_info : Text → InstructionInfo
empty_info address = record {
  mnemonic = [];
  op_str = [];
  size = 0;
  bytes = [];
  address = address;
  groups = [];
  regs_read = [];
  regs_write = [];
}

unfoldable pub has_group : ℕ → List ℕ → Bool
has_group g [] = false
has_group g (h ∷ hs) = (h == g) || has_group g hs

-- The first immediate operand.
unfoldable pub first_imm : List Operand → Option ℕ
first_imm [] = none
first_imm (imm v ∷ ops) = some v
first_imm (rip_mem d ∷ ops) = first_imm ops
first_imm (other_operand ∷ ops) = first_imm ops

-- The first operand that names an address, for an instruction that ends at `next`.
unfoldable pub first_x64 : ℕ → List Operand → Option ℕ
first_x64 next [] = none
first_x64 next (imm v ∷ ops) = some v
first_x64 next (rip_mem d ∷ ops) = some ((next + d) % u64_mod)
first_x64 next (other_operand ∷ ops) = first_x64 next ops

unfoldable pub operand_target : Arch → ℕ → List Operand → Option ℕ
operand_target x64 next ops = first_x64 next ops
operand_target arm64 next ops = first_imm ops

branch_kind : Detail → Text
branch_kind d =
    if has_group cs_grp_call d.groups
    then codes "call"
    else if has_group cs_grp_jump d.groups
    then codes "branch"
    else codes "data"

-- ADR and ADRP are data references on arm64, whatever their groups.
xref_kind : Arch → InsnId → Detail → Text
unfolding branch_kind
xref_kind x64 id d = branch_kind d
xref_kind arm64 adr d = codes "data"
xref_kind arm64 adrp d = codes "data"
xref_kind arm64 other_insn d = branch_kind d

-- extractTarget: the target, 0 where there is none, and the kind of the reference.
unfoldable pub extract_target : Arch → Insn → ℕ × Text
unfolding xref_kind
extract_target arch insn = elim insn.detail [
  | none ↦ (0, [])
  | some d ↦ elim (operand_target arch (insn.address + insn.size) d.operands) [
    | none ↦ (0, [])
    | some t ↦ (t, xref_kind arch insn.id d)
  ]
]

no_analysis : InstructionAnalysis
no_analysis = record {
  is_branch = false;
  is_call = false;
  is_relative = false;
  target = codes "0x0";
  is_pc_relative = false;
  size = 0;
}

is_some : Option ℕ → Bool
is_some none = false
is_some (some t) = true

or_zero : Option ℕ → ℕ
or_zero none = 0
or_zero (some t) = t

-- The part of analyzeInstruction behind the decoding.
unfoldable pub analyze_insn : Arch → ℕ → Insn → InstructionAnalysis
unfolding is_some or_zero
analyze_insn arch addr insn = elim insn.detail [
  | none ↦ record no_target { size = insn.size }
  | some d ↦
      let target = operand_target arch (addr + insn.size) d.operands in
      record {
        is_branch = has_group cs_grp_jump d.groups;
        is_call = has_group cs_grp_call d.groups;
        is_relative = has_group cs_grp_branch_relative d.groups;
        target = to_hex_addr (or_zero target);
        is_pc_relative = is_some target;
        size = insn.size;
      }
]
  where
    no_target : InstructionAnalysis
    no_target = record {
      is_branch = false;
      is_call = false;
      is_relative = false;
      target = to_hex_addr 0;
      is_pc_relative = false;
      size = 0;
    }

-- What a failed decoding is skipped by.
unfoldable pub skip_size : Arch → ℕ
skip_size x64 = 1
skip_size arm64 = 4

unfoldable pub min_16 : ℕ → ℕ
min_16 n = if ltb 16 n then 16 else n

-- A count that is not positive gives nothing; `count` is not negative here.
unfoldable pub disassemble :
    ((ℕ → ℕ) → ℕ → ℕ → ℕ → List Insn) → (ℕ → ℕ) → Text → ℕ → Result (List InstructionInfo)
disassemble disasm_many memory address count = and_then (parse_hex_addr address) λ addr.
    if (addr == 0) || (count == 0)
    then ok []
    else ok (map insn_to_info (disasm_many memory addr (count * 16) count))

module _ (disasm : (ℕ → ℕ) → ℕ → ℕ → Option Insn) (arch : Arch) (memory : ℕ → ℕ) where
  unfoldable pub disassemble_one : Text → Result InstructionInfo
  unfolding empty_info
  disassemble_one address = and_then (parse_hex_addr address) λ addr.
      if addr == 0 then ok (empty_info (codes "0x0")) else elim (disasm memory addr 16) [
        | none ↦ ok (empty_info (to_hex_addr addr))
        | some insn ↦ ok (insn_to_info insn)
      ]

  unfoldable pub analyze_instruction : Text → Result InstructionAnalysis
  unfolding no_analysis
  analyze_instruction address = and_then (parse_hex_addr address) λ addr.
      if addr == 0 then ok no_analysis else elim (disasm memory addr 16) [
        | none ↦ ok no_analysis
        | some insn ↦ ok (analyze_insn arch addr insn)
      ]

  -- The loop of findXrefs. The offset grows in each round.
  unfoldable pub xrefs_from : ℕ → ℕ → ℕ → ℕ → ℕ → List XrefResult
  unfolding min_16
  xrefs_from zero start target size offset = []
  xrefs_from (suc fuel) start target size offset = elim (ltb offset size) [
    | false ↦ []
    | true ↦ elim (disasm memory (start + offset) (min_16 (size - offset))) [
      | none ↦ xrefs_from fuel start target size (offset + skip_size arch)
      | some insn ↦
          let rest = xrefs_from fuel start target size (offset + insn.size) in
          let found = extract_target arch insn in
          if found.0 == target
          then record { address = to_hex_addr insn.address; type = found.1; size = insn.size }
            ∷ rest
          else rest
    ]
  ]

  unfoldable pub find_xrefs : Text → ℕ → Text → Result (List XrefResult)
  find_xrefs range_start range_size target_addr = and_then (parse_hex_addr range_start) λ start.
      and_then (parse_hex_addr target_addr) λ target.
        if (start == 0) || ((target == 0) || (range_size == 0))
        then ok []
        else ok (xrefs_from (range_size + 1) start target range_size 0)

  -- The loop of filterInstructions: `count` rounds at most, up to the first failed decoding.
  filter_from : ℕ → (InstructionInfo → Bool) → ℕ → ℕ → List InstructionInfo
  filter_from zero filter addr offset = []
  filter_from (suc rounds) filter addr offset = elim (disasm memory (addr + offset) 16) [
    | none ↦ []
    | some insn ↦
        let rest = filter_from rounds filter addr (offset + insn.size) in
        if filter (insn_to_info insn) then insn_to_info insn ∷ rest else rest
  ]

  unfoldable pub filter_instructions :
      Text → ℕ → (InstructionInfo → Bool) → Result (List InstructionInfo)
  unfolding filter_from
  filter_instructions address count filter =
      and_then (parse_hex_addr address)
        λ addr. if (addr == 0) || (count == 0) then ok [] else ok (filter_from count filter addr 0)
