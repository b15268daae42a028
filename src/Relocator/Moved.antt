-- ===== src/Relocator/Moved.antt =====
-- What buildRelocatedCode assembles, as a relation on its sweep over the program's instructions.
use mathlib.Core.List.{append_assoc}
use chromatic.Base.{
  ℕ, zero, suc, ◌+◌, ◌%◌, ◌<◌, ◌≤◌, ◌≡◌, refl, sym, ◌∙◌, List, ◌++◌, ◌==◌, ltb, arith, Result, ok,
  err, and_then, Bool-cases, inl, inr,
}
use chromatic.Hex.{u64_mod, to_hex_addr, parse_hex_addr}
use chromatic.Disassembler.{
  InstructionInfo, InstructionAnalysis, disassemble_one, analyze_instruction,
}
use chromatic.Relocator.{relocate_from, relocate_insn, jump_back}
use chromatic.Relocator.Ops.{Op}
use chromatic.Relocator.Host.{Tools}

pub and_then-ok :
    {A B : Type 0} (r : Result A) (k : A → Result B) (b : B)
    → and_then r k ≡ ok b
    → (a : A) × (r ≡ ok a) × (k a ≡ ok b)
unfolding and_then
and_then-ok (ok a) k b h = (a, refl, h)
and_then-ok (err e) k b h = cc

module _ (t : Tools) (memory : ℕ → ℕ) (source n : ℕ) where
  abbrev pub address_of : ℕ → ℕ
  address_of offset = (source + offset) % u64_mod

  -- Moving the instructions from `offset` on, where the next label is `label`, gives the calls `ops` of
  -- the assembler and ends at `consumed`: while `n` is not reached, what relocateInsn makes of the
  -- instruction, and then the rest from the next instruction on; at the end a jump to the first byte
  -- that was not moved.
  pub data Moved : ℕ → ℕ → List Op → ℕ → Type 0 where
    stop :
        (offset label : ℕ)
        → n ≤ offset
        → Moved offset label (jump_back t.arch (address_of offset)) offset
    move :
        (offset label : ℕ) (info : InstructionInfo) (a : InstructionAnalysis) (target : ℕ)
        (rest : List Op) (consumed : ℕ)
        → offset < n
        → disassemble_one t.disasm t.arch memory (to_hex_addr (address_of offset)) ≡ ok info
        → 0 < info.size
        → analyze_instruction t.disasm t.arch memory (to_hex_addr (address_of offset)) ≡ ok a
        → parse_hex_addr a.target ≡ ok target
        → Moved
            (offset + info.size)
            (relocate_insn t.arch memory (address_of offset) info a target label).1
            rest
            consumed
        → Moved offset label
            ((relocate_insn t.arch memory (address_of offset) info a target label).0 ++ rest)
            consumed

  pub Moved-covers :
      {offset label consumed : ℕ} {ops : List Op} → Moved offset label ops consumed → n ≤ consumed
  Moved-covers (stop offset label le) = le
  Moved-covers (move offset label info a target rest consumed lt e₁ pos e₂ e₃ m) = Moved-covers m

  -- What the loop adds to the calls `ops` that were made before.
  abbrev Adds : ℕ → ℕ → List Op → List Op → ℕ → Type 0
  Adds offset label ops moved consumed =
      (rest : List Op) × (moved ≡ ops ++ rest) × Moved offset label rest consumed

  ended :
      (offset label : ℕ) (ops moved : List Op) (consumed : ℕ)
      → n ≤ offset
      → ops ++ jump_back t.arch (address_of offset) ≡ moved
      → offset ≡ consumed
      → Adds offset label ops moved consumed
  ended offset label ops moved consumed le code same =
      rw (← same) (jump_back t.arch (address_of offset), sym code, stop offset label le)

  pub relocate_from-Moved :
      (fuel : ℕ) (ops : List Op) (offset label : ℕ) (moved : List Op) (consumed : ℕ)
      → n < offset + fuel
      → relocate_from t memory source n fuel ops offset label ≡ ok (moved, consumed)
      → Adds offset label ops moved consumed
  unfolding relocate_from
  relocate_from-Moved zero ops offset label moved consumed enough h =
      let code : ops ++ jump_back t.arch (address_of offset) ≡ moved = cc in
      let same : offset ≡ consumed = cc in
      ended offset label ops moved consumed (omega (arith, enough)) code same
  relocate_from-Moved (suc fuel) ops offset label moved consumed enough h =
      elim (Bool-cases (ltb offset n)) [
        | inr out ↦
            let h' = rw (out, relocate_from) at h in
            let code : ops ++ jump_back t.arch (address_of offset) ≡ moved = cc in
            let same : offset ≡ consumed = cc in
            ended offset label ops moved consumed (ground arith) code same
        | inl inside ↦
            let at : ℕ = address_of offset in
            let h' = rw (inside, relocate_from) at h in
            let (info, e₁, k₁) =
              and_then-ok (disassemble_one t.disasm t.arch memory (to_hex_addr at)) _ _ h' in
            elim (Bool-cases (info.size == 0)) [
              | inl z ↦ let k₁' = rw z at k₁ in cc
              | inr z ↦
                  let k₁' = rw z at k₁ in
                  let (a, e₂, k₂) =
                    and_then-ok (analyze_instruction t.disasm t.arch memory (to_hex_addr at)) _ _
                      k₁' in
                  let (target, e₃, k₃) = and_then-ok (parse_hex_addr a.target) _ _ k₂ in
                  let one = relocate_insn t.arch memory at info a target label in
                  let (rest, code, m) =
                    relocate_from-Moved fuel (ops ++ one.0) (offset + info.size) one.1 moved
                      consumed (ground arith) k₃ in
                  (
                    one.0 ++ rest,
                    code ∙ append_assoc ops one.0 rest,
                    move offset label info a target rest consumed (ground arith) e₁ (ground arith)
                        e₂ e₃ m,
                  )
            ]
      ]
