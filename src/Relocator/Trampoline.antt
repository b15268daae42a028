-- ===== src/Relocator/Trampoline.antt =====
-- buildTrampoline: the code that saves the registers, calls the dispatch functions with the saved
-- registers and the entry, and restores the registers.
use chromatic.Base.{
  ℕ, zero, suc, ◌+◌, ◌*◌, List, [], ◌∷◌, ◌++◌, Bool, true, false, Option, none, some, codes, M,
}
use chromatic.Platform.{Os, windows, linux, android, darwin, Arch, x64, arm64}
use chromatic.Relocator.{jit_add}
use chromatic.Relocator.Host.{Tools, Process}
use chromatic.Relocator.Ops.{
  Reg, rax, rcx, rdx, rbx, rsp, rbp, rsi, rdi, r8, r9, r10, r11, r12, r13, r14, r15, Op, jmp_rip,
  embed_u64, pushfq, popfq, push, pop, call_reg, mov_reg, mov_imm, add_imm, sub_imm, mov_x, br, blr,
  sub_sp, add_sp, stp, ldp, str, ldr, add_x_sp, mov_x_sp, mrs_nzcv, msr_nzcv,
}

-- The registers in the order in which they are pushed.
abbrev pub saved_regs : List Reg
saved_regs =
    rax ∷ rcx ∷ rdx ∷ rbx ∷ rbp ∷ rsi ∷ rdi ∷ r8 ∷ r9 ∷ r10 ∷ r11 ∷ r12 ∷ r13 ∷ r14 ∷ r15 ∷ []

abbrev pub restored_regs : List Reg
restored_regs =
    r15 ∷ r14 ∷ r13 ∷ r12 ∷ r11 ∷ r10 ∷ r9 ∷ r8 ∷ rdi ∷ rsi ∷ rbp ∷ rbx ∷ rdx ∷ rcx ∷ rax ∷ []

unfoldable pub pushes : List Reg → List Op
pushes [] = []
pushes (r ∷ rs) = push r ∷ pushes rs

unfoldable pub pops : List Reg → List Op
pops [] = []
pops (r ∷ rs) = pop r ∷ pops rs

-- The first and the second argument of a call, and the bytes that are reserved below the registers:
-- the shadow space of the Microsoft ABI, and eight bytes for the alignment.
abbrev pub arg0 : Bool → Reg
arg0 true = rcx
arg0 false = rdi

abbrev pub arg1 : Bool → Reg
arg1 true = rdx
arg1 false = rsi

abbrev pub reserve : Bool → ℕ
reserve true = 0x28
reserve false = 0x8

abbrev pub is_windows : Os → Bool
is_windows windows = true
is_windows linux = false
is_windows android = false
is_windows darwin = false

leave_x64 : Bool → Option ℕ → ℕ → List Op
leave_x64 win none user = []
leave_x64 win (some on_leave) user =
    mov_reg (arg0 win) rsp
    ∷ add_imm (arg0 win) (reserve win)
    ∷ mov_imm (arg1 win) user
    ∷ mov_imm rax on_leave
    ∷ call_reg rax
    ∷ []

unfoldable pub trampoline_x64 : Bool → ℕ → Option ℕ → ℕ → ℕ → List Op
unfolding leave_x64 pushes pops
trampoline_x64 win on_enter on_leave user relocated =
    pushfq ∷ pushes saved_regs
    ++ (mov_reg (arg0 win) rsp
        ∷ mov_imm (arg1 win) user
        ∷ sub_imm rsp (reserve win)
        ∷ mov_imm rax on_enter
        ∷ call_reg rax
        ∷ [])
    ++ leave_x64 win on_leave user
    ++ (add_imm rsp (reserve win) ∷ [])
    ++ pops restored_regs
    ++ (popfq ∷ jmp_rip ∷ embed_u64 relocated ∷ [])

abbrev frame_size : ℕ
frame_size = 0x110

-- for (i = 0; i < 28; i += 2): `n` pairs from register `i` on.
store_pairs : ℕ → ℕ → List Op
store_pairs zero i = []
store_pairs (suc n) i = stp i (i + 1) (i * 8) ∷ store_pairs n (i + 2)

load_pairs : ℕ → ℕ → List Op
load_pairs zero i = []
load_pairs (suc n) i = ldp i (i + 1) (i * 8) ∷ load_pairs n (i + 2)

call_arm64 : ℕ → ℕ → List Op
call_arm64 f user = mov_x_sp 0 ∷ mov_x 1 user ∷ mov_x 16 f ∷ blr 16 ∷ []

leave_arm64 : Option ℕ → ℕ → List Op
unfolding call_arm64
leave_arm64 none user = []
leave_arm64 (some on_leave) user = call_arm64 on_leave user

unfoldable pub trampoline_arm64 : ℕ → Option ℕ → ℕ → ℕ → List Op
unfolding store_pairs load_pairs call_arm64 leave_arm64
trampoline_arm64 on_enter on_leave user relocated =
    (sub_sp frame_size ∷ store_pairs 14 0)
    ++ (stp 28 29 (28 * 8)
        ∷ str 30 (30 * 8)
        ∷ add_x_sp 16 frame_size
        ∷ str 16 (31 * 8)
        ∷ mrs_nzcv 16
        ∷ str 16 (32 * 8)
        ∷ [])
    ++ call_arm64 on_enter user
    ++ leave_arm64 on_leave user
    ++ (ldr 16 (32 * 8) ∷ msr_nzcv 16 ∷ load_pairs 14 0)
    ++ (ldp 28 29 (28 * 8) ∷ ldr 30 (30 * 8) ∷ add_sp frame_size ∷ mov_x 16 relocated ∷ br 16 ∷ [])

unfoldable pub trampoline_ops : Os → Arch → ℕ → Option ℕ → ℕ → ℕ → List Op
trampoline_ops os x64 on_enter on_leave user relocated =
    trampoline_x64 (is_windows os) on_enter on_leave user relocated
trampoline_ops os arm64 on_enter on_leave user relocated =
    trampoline_arm64 on_enter on_leave user relocated

-- buildTrampoline for the dispatch functions at the addresses `on_enter` and `on_leave`.
unfoldable pub build_trampoline : Tools → Os → ℕ → Option ℕ → ℕ → ℕ → M Process ℕ
build_trampoline t os on_enter on_leave user relocated =
    jit_add t (trampoline_ops os t.arch on_enter on_leave user relocated)
      (codes "asmjit: failed to build trampoline")
