-- ===== src/Relocator/Cpu.antt =====
-- The trampoline of buildTrampoline on x64, run: what the instructions that code_relocator.cc emits do
-- to the general-purpose registers, the flags and the stack. The vector registers, which no instruction
-- of the trampoline names and which a dispatch function may change, are not part of the machine. The stack is the list of its 8-byte words, the newest in
-- front, so that RSP is the stack's base less their size.
use chromatic.Base.{
  ℕ, zero, suc, ◌+◌, ◌-◌, ◌*◌, ◌/◌, ◌≡◌, ◌≢◌, Bool, List, [], ◌∷◌, ◌==◌, if◌then◌else◌, Option,
  none, some, length,
}
use chromatic.Relocator.Ops.{
  Reg, rax, rcx, rdx, rbx, rsp, rbp, rsi, rdi, r8, r9, r10, r11, r12, r13, r14, r15, Op, embed_u64,
  pushfq, popfq, push, pop, call_reg, mov_reg, mov_imm, add_imm, sub_imm,
}
use chromatic.Relocator.Trampoline.{arg0, arg1}

-- The numbers that the processor gives the registers.
abbrev number : Reg → ℕ
number rax = 0
number rcx = 1
number rdx = 2
number rbx = 3
number rsp = 4
number rbp = 5
number rsi = 6
number rdi = 7
number r8 = 8
number r9 = 9
number r10 = 10
number r11 = 11
number r12 = 12
number r13 = 13
number r14 = 14
number r15 = 15

-- A call: the function and its first two arguments.
pub record Call : Type 0 where
  pub function : ℕ
  pub first : ℕ
  pub second : ℕ

-- `calls` has the calls made, the latest in front; `next` is where a jump goes to. The entry of RSP in
-- `regs` is not used.
pub record Cpu : Type 0 where
  pub regs : Reg → ℕ
  pub flags : ℕ
  pub stack : List ℕ
  pub calls : List Call
  pub next : ℕ

abbrev with_reg : Reg → ℕ → Cpu → Cpu
with_reg r v c = record c { regs = λ x. if number x == number r then v else c.regs x }

unfoldable pub free_words : ℕ → List ℕ → List ℕ
free_words zero ws = ws
free_words (suc n) [] = []
free_words (suc n) (w ∷ ws) = free_words n ws

unfoldable pub reserve_words : ℕ → List ℕ → List ℕ
reserve_words zero ws = ws
reserve_words (suc n) ws = 0 ∷ reserve_words n ws

-- `base` is the end of the stack. A called function leaves any values in the registers and the flags,
-- the stack pointer where it was, and the words of the stack above the reserved ones as they are.
module _ (base : ℕ) (win : Bool) (left : ℕ → (Reg → ℕ) → Reg → ℕ) (left_flags : ℕ → ℕ → ℕ) where
  abbrev pub value : Cpu → Reg → ℕ
  value c r = if number r == 4 then base - 8 * length c.stack else c.regs r

  unfoldable pub step : Op → Cpu → Cpu
  unfolding free_words reserve_words
  step (push r) c = record c { stack = value c r ∷ c.stack }
  step (pop r) c = elim c.stack [ [] ↦ c | w ∷ ws ↦ with_reg r w (record c { stack = ws }) ]
  step pushfq c = record c { stack = c.flags ∷ c.stack }
  step popfq c = elim c.stack [ [] ↦ c | w ∷ ws ↦ record c { stack = ws; flags = w } ]
  step (mov_reg r s) c = with_reg r (value c s) c
  step (mov_imm r v) c = with_reg r v c
  step (add_imm r v) c =
      if number r == 4
      then record c { stack = free_words (v / 8) c.stack }
      else with_reg r (value c r + v) c
  step (sub_imm r v) c =
      if number r == 4
      then record c { stack = reserve_words (v / 8) c.stack }
      else with_reg r (value c r - v) c
  step (call_reg r) c = record c {
    calls =
        record { function = value c r; first = value c (arg0 win); second = value c (arg1 win) }
        ∷ c.calls;
    regs = left (value c r) c.regs;
    flags = left_flags (value c r) c.flags;
  }
  step (embed_u64 a) c = record c { next = a }
  step _ c = c

  unfoldable pub run : List Op → Cpu → Cpu
  unfolding step
  run [] c = c
  run (o ∷ os) c = run os (step o c)

-- What a trampoline has done when it jumps.
pub record Transparent (c q : Cpu) (made : List Call) (relocated : ℕ) : Type 0 where
  pub regs : (r : Reg) → number r ≢ 4 → q.regs r ≡ c.regs r
  pub stack : q.stack ≡ c.stack
  pub flags : q.flags ≡ c.flags
  pub calls : q.calls ≡ made
  pub next : q.next ≡ relocated

-- The calls of the dispatch functions: both get the address of the saved registers, which are 15
-- registers and the flags, and the entry.
abbrev pub dispatched : ℕ → Option ℕ → ℕ → ℕ → List Call → List Call
dispatched on_enter none saved user earlier =
    record { function = on_enter; first = saved; second = user } ∷ earlier
dispatched on_enter (some on_leave) saved user earlier =
    record { function = on_leave; first = saved; second = user }
    ∷ record { function = on_enter; first = saved; second = user }
    ∷ earlier

-- The registers that the pops have written, over what the calls left.
abbrev restored : (Reg → ℕ) → (Reg → ℕ) → Reg → ℕ
restored regs other r =
    if number r == 0
    then regs rax
    else if number r == 1
    then regs rcx
    else if number r == 2
    then regs rdx
    else if number r == 3
    then regs rbx
    else if number r == 5
    then regs rbp
    else if number r == 6
    then regs rsi
    else if number r == 7
    then regs rdi
    else if number r == 8
    then regs r8
    else if number r == 9
    then regs r9
    else if number r == 10
    then regs r10
    else if number r == 11
    then regs r11
    else if number r == 12
    then regs r12
    else if number r == 13
    then regs r13
    else if number r == 14
    then regs r14
    else if number r == 15
    then regs r15
    else other r
