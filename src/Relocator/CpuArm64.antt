-- ===== src/Relocator/CpuArm64.antt =====
-- The trampoline of buildTrampoline on arm64, run: what the instructions that code_relocator.cc emits do
-- to the registers, the condition flags and the frame that they reserve.
use chromatic.Base.{ℕ, zero, suc, ◌+◌, ◌-◌, ◌<◌, ◌≡◌, ◌≢◌, List, [], ◌∷◌, ◌==◌, if◌then◌else◌}
use chromatic.Relocator.Ops.{
  Op, mov_x, br, blr, sub_sp, add_sp, stp, ldp, str, ldr, add_x_sp, mov_x_sp, mrs_nzcv, msr_nzcv,
}
use chromatic.Relocator.Cpu.{Call}

-- `frames` has the reserved frames, the newest in front, each with its 8-byte words by their offset;
-- `next` is where a branch goes to.
pub record CpuArm64 : Type 0 where
  pub regs : ℕ → ℕ
  pub nzcv : ℕ
  pub sp : ℕ
  pub frames : List (ℕ → ℕ)
  pub calls : List Call
  pub next : ℕ

abbrev with_x : ℕ → ℕ → CpuArm64 → CpuArm64
with_x i v c = record c { regs = λ x. if x == i then v else c.regs x }

abbrev word_at : ℕ → List (ℕ → ℕ) → ℕ
word_at offset [] = 0
word_at offset (f ∷ fs) = f offset

abbrev with_word : ℕ → ℕ → List (ℕ → ℕ) → List (ℕ → ℕ)
with_word offset v [] = []
with_word offset v (f ∷ fs) = (λ x. if x == offset then v else f x) ∷ fs

abbrev without_frame : List (ℕ → ℕ) → List (ℕ → ℕ)
without_frame [] = []
without_frame (f ∷ fs) = fs

-- A called function leaves any values in the registers and the flags, the stack pointer where it was,
-- and the frames as they are.
module _ (left : ℕ → (ℕ → ℕ) → ℕ → ℕ) (left_nzcv : ℕ → ℕ → ℕ) where
  unfoldable pub step : Op → CpuArm64 → CpuArm64
  step (sub_sp n) c = record c { sp = c.sp - n; frames = (λ x. 0) ∷ c.frames }
  step (add_sp n) c = record c { sp = c.sp + n; frames = without_frame c.frames }
  step (stp i j offset) c = record c {
    frames = with_word (offset + 8) (c.regs j) (with_word offset (c.regs i) c.frames);
  }
  step (ldp i j offset) c =
      with_x j (word_at (offset + 8) c.frames) (with_x i (word_at offset c.frames) c)
  step (str i offset) c = record c { frames = with_word offset (c.regs i) c.frames }
  step (ldr i offset) c = with_x i (word_at offset c.frames) c
  step (add_x_sp i n) c = with_x i (c.sp + n) c
  step (mov_x_sp i) c = with_x i c.sp c
  step (mrs_nzcv i) c = with_x i c.nzcv c
  step (msr_nzcv i) c = record c { nzcv = c.regs i }
  step (mov_x i v) c = with_x i v c
  step (br i) c = record c { next = c.regs i }
  step (blr i) c = record c {
    calls = record { function = c.regs i; first = c.regs 0; second = c.regs 1 } ∷ c.calls;
    regs = left (c.regs i) c.regs;
    nzcv = left_nzcv (c.regs i) c.nzcv;
  }
  step _ c = c

  unfoldable pub run : List Op → CpuArm64 → CpuArm64
  unfolding step
  run [] c = c
  run (o ∷ os) c = run os (step o c)

-- What a trampoline has done when it branches.
pub record TransparentArm64 (c q : CpuArm64) (made : List Call) (relocated : ℕ) : Type 0 where
  pub regs : (r : ℕ) → r < 31 → r ≢ 16 → q.regs r ≡ c.regs r
  pub nzcv : q.nzcv ≡ c.nzcv
  pub sp : q.sp ≡ c.sp
  pub frames : q.frames ≡ c.frames
  pub calls : q.calls ≡ made
  pub next : q.next ≡ relocated

-- The registers below x(k) that the loads have written, over another value.
abbrev restored : (ℕ → ℕ) → ℕ → ℕ → ℕ → ℕ
restored regs other zero r = other
restored regs other (suc k) r = if r == k then regs k else restored regs other k r
