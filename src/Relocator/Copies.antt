-- ===== src/Relocator/Copies.antt =====
-- What buildRelocatedCode makes of instructions that it copies.
use mathlib.Core.List.{append_assoc, append-nil}
use chromatic.Base.{
  ℕ, zero, suc, ◌+◌, ◌%◌, ◌<◌, ◌≤◌, ◌≡◌, refl, ap, sym, ◌∙◌, Bool, false, not, ◌&&◌, ◌||◌, List, [],
  ◌∷◌, ◌++◌, ◌==◌, arith, ok, codes, text_eq, Bool-cases, inl, inr, map,
}
use chromatic.Hex.{u64_mod, to_hex_addr}
use chromatic.Platform.{Arch, x64, arm64}
use chromatic.Disassembler.{
  InstructionInfo, InstructionAnalysis, disassemble_one, analyze_instruction,
}
use chromatic.Relocator.{
  relocate_from, relocate_insn, relocate_x64, relocate_arm64, read_bytes, jump_back,
}
use chromatic.Relocator.Ops.{Op, embed}
use chromatic.Relocator.Host.{Tools}
use chromatic.Relocator.Moved.{Moved, stop, move, Moved-covers, relocate_from-Moved, address_of}

-- The instructions that are written anew at their new place. analyzeInstruction gives the flag to every
-- instruction with an immediate operand too, so that on x64 the first byte and the kind decide, and on
-- arm64 the mnemonic.
abbrev pub is_rewritten : Arch → ℕ → InstructionInfo → InstructionAnalysis → Bool
is_rewritten x64 first_byte info a =
    a.is_pc_relative && (first_byte == 0xE9 || first_byte == 0xE8 || (a.is_branch && not a.is_call))
is_rewritten arm64 first_byte info a =
    a.is_pc_relative
    && (text_eq info.mnemonic (codes "b")
        || text_eq info.mnemonic (codes "bl")
        || text_eq info.mnemonic (codes "adr")
        || text_eq info.mnemonic (codes "adrp"))

module _ (t : Tools) (memory : ℕ → ℕ) (source n : ℕ) where
  -- An instruction of the sweep from `source` stands at `offset`.
  pub data Starts : ℕ → Type 0 where
    first : Starts 0
    next :
        (offset : ℕ) (info : InstructionInfo)
        → Starts offset
        → offset < n
        → disassemble_one t.disasm t.arch memory (to_hex_addr (source + offset)) ≡ ok info
        → Starts (offset + info.size)

  -- No instruction of the sweep is written anew.
  abbrev pub Plain : Type 0
  Plain =
      (offset : ℕ) (info : InstructionInfo) (a : InstructionAnalysis)
      → Starts offset
      → offset < n
      → disassemble_one t.disasm t.arch memory (to_hex_addr (source + offset)) ≡ ok info
      → analyze_instruction t.disasm t.arch memory (to_hex_addr (source + offset)) ≡ ok a
      → is_rewritten t.arch (memory (source + offset)) info a ≡ false

abbrev pub concat : List (List ℕ) → List ℕ
concat [] = []
concat (bs ∷ bss) = bs ++ concat bss

read_bytes-add :
    (m : ℕ → ℕ) (a i j : ℕ) → read_bytes m a (i + j) ≡ read_bytes m a i ++ read_bytes m (a + i) j
unfolding read_bytes
read_bytes-add m a zero j =
    let none : zero + j ≡ j = omega arith in
    let here : a + zero ≡ a = omega arith in rw (none, here) refl
read_bytes-add m a (suc i) j =
    let more : suc i + j ≡ suc (i + j) = omega arith in
    let on : a + suc i ≡ a + 1 + i = omega arith in
    rw (more, on) (ap (λ l. m a ∷ l) (read_bytes-add m (a + 1) i j))

-- An instruction that is not written anew is copied.
relocate_insn-copy :
    (arch : Arch) (memory : ℕ → ℕ) (at : ℕ) (info : InstructionInfo) (a : InstructionAnalysis)
    (target label : ℕ)
    → is_rewritten arch (memory at) info a ≡ false
    → relocate_insn arch memory at info a target label
      ≡ (embed (read_bytes memory at info.size) ∷ [], label)
unfolding relocate_insn relocate_x64 relocate_arm64
relocate_insn-copy x64 memory at info a target label h = elim (Bool-cases a.is_pc_relative) [
  | inr far ↦ rw far refl
  | inl near ↦
      let h' = rw near at h in
      let jump : (memory at == 0xE9) ≡ false = ground arith in
      let call : (memory at == 0xE8) ≡ false = ground arith in
      let branch : (a.is_branch && not a.is_call) ≡ false = ground arith in
      rw (near, jump, call, branch) refl
]
relocate_insn-copy arm64 memory at info a target label h = elim (Bool-cases a.is_pc_relative) [
  | inr far ↦ rw far refl
  | inl near ↦
      let h' = rw near at h in
      let b : text_eq info.mnemonic (codes "b") ≡ false = ground arith in
      let bl : text_eq info.mnemonic (codes "bl") ≡ false = ground arith in
      let adr : text_eq info.mnemonic (codes "adr") ≡ false = ground arith in
      let adrp : text_eq info.mnemonic (codes "adrp") ≡ false = ground arith in
      rw (near, b, bl, adr, adrp) refl
]

module _ (t : Tools) (memory : ℕ → ℕ) (source n : ℕ) (plain : Plain t memory source n)
    (fits : source + n ≤ u64_mod) where
  -- What is moved from `offset` on is copied, and then comes the jump back.
  record Copied (offset : ℕ) (moved : List Op) (consumed : ℕ) : Type 0 where
    copies : List (List ℕ)
    code : moved ≡ map embed copies ++ jump_back t.arch ((source + consumed) % u64_mod)
    bytes : read_bytes memory source consumed ≡ read_bytes memory source offset ++ concat copies

  -- One more instruction in front.
  in_front :
      (offset size : ℕ) (rest : List Op) (consumed : ℕ)
      → Copied (offset + size) rest consumed
      → Copied offset (embed (read_bytes memory (source + offset) size) ∷ rest) consumed
  in_front offset size rest consumed c =
      let bs = read_bytes memory (source + offset) size in
      record {
        copies = bs ∷ c.copies;
        code = ap (λ l. embed bs ∷ l) c.code;
        bytes =
            c.bytes
            ∙ (ap (λ l. l ++ concat c.copies) (read_bytes-add memory source offset size)
                ∙ append_assoc (read_bytes memory source offset) bs (concat c.copies));
      }

  Moved-Copied :
      {offset label consumed : ℕ} {moved : List Op}
      → Moved t memory source n offset label moved consumed
      → Starts t memory source n offset
      → Copied offset moved consumed
  Moved-Copied (stop offset label le) starts = record {
    copies = [];
    code = refl;
    bytes = sym (append-nil (read_bytes memory source offset));
  }
  Moved-Copied (move offset label info a target rest consumed lt e₁ pos e₂ e₃ m) starts =
      let no_wrap : address_of t memory source n offset ≡ source + offset = omega arith in
      let decoded = rw no_wrap at e₁ in
      let copy =
        relocate_insn-copy t.arch memory (source + offset) info a target label
          (plain offset info a starts lt decoded (rw no_wrap at e₂)) in
      let c =
        in_front offset info.size rest consumed
          (Moved-Copied m (next offset info starts lt decoded)) in
      rw (no_wrap, copy) c

-- Where no instruction of the sweep over the first `n` bytes at `source` is one that is written anew,
-- the code that buildRelocatedCode assembles is the program's own bytes, instruction by instruction and
-- none left out, and then a jump back to the first byte that was not copied; at least `n` bytes are
-- copied. Written anew are, of the instructions that analyzeInstruction calls relative to their
-- address, on x64 those that begin with 0xE8 or 0xE9 or are branches and no calls, and on arm64 b, bl,
-- adr and adrp. The `n` bytes lie inside the address space.
pub relocate_from_lem :
    (t : Tools) (memory : ℕ → ℕ) (source n : ℕ) (moved : List Op) (consumed : ℕ)
    → Plain t memory source n
    → source + n ≤ u64_mod
    → relocate_from t memory source n (n + 1) [] 0 0 ≡ ok (moved, consumed)
    → (copies : List (List ℕ)) × (moved
        ≡ map embed copies ++ jump_back t.arch ((source + consumed) % u64_mod))
      × (concat copies ≡ read_bytes memory source consumed)
      × (n ≤ consumed)
unfolding read_bytes
relocate_from_lem t memory source n moved consumed plain fits h =
    let (rest, split, m) =
      relocate_from-Moved t memory source n (n + 1) [] 0 0 moved consumed (omega arith) h in
    let c = Moved-Copied t memory source n plain fits m first in
    (c.copies, split ∙ c.code, sym c.bytes, Moved-covers t memory source n m)
