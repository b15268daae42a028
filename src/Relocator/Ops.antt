-- ===== src/Relocator/Ops.antt =====
-- The calls that the relocator makes of asmjit's assemblers.
use chromatic.Base.{ℕ, List}

-- The general-purpose registers of x64.
pub data Reg : Type 0 where
  rax rcx rdx rbx rsp rbp rsi rdi r8 r9 r10 r11 r12 r13 r14 r15 : Reg

pub data Op : Type 0 where
  -- jmp [rip], call [rip + d], and a jump to a label.
  jmp_rip : Op
  call_rip : ℕ → Op
  jmp_label : ℕ → Op
  bind : ℕ → Op
  embed_u8 embed_u32 embed_u64 : ℕ → Op
  embed : List ℕ → Op
  -- x64: the registers and the stack.
  pushfq popfq : Op
  push pop call_reg : Reg → Op
  mov_reg : Reg → Reg → Op
  mov_imm add_imm sub_imm : Reg → ℕ → Op
  -- arm64: registers by number, stores and loads relative to SP, the condition flags through x16.
  mov_x : ℕ → ℕ → Op
  br blr : ℕ → Op
  sub_sp add_sp : ℕ → Op
  stp ldp : ℕ → ℕ → ℕ → Op
  str ldr : ℕ → ℕ → Op
  -- x(i) = sp + n, and mov x(i), sp.
  add_x_sp : ℕ → ℕ → Op
  mov_x_sp : ℕ → Op
  mrs_nzcv msr_nzcv : ℕ → Op
