-- ===== src/HwBreakpoint/Windows.antt =====
-- winSetDebugReg and winClearDebugReg of native_hw_breakpoint.cc, on the thread's CONTEXT, next to the
-- debug registers that the rest of the model uses.
use mathlib.Core.Path.{fun_ext}
use Prim.Native.Nat.{bit_and, bit_or}
use chromatic.Base.{ℕ, ◌+◌, ◌*◌, ◌^◌, ◌<◌, ◌≡◌, ap, ◌∙◌, ◌==◌, if◌then◌else◌, arith}
use chromatic.HwBreakpoint.Slots.{
  HwBpType, DebugRegs, type_value, length_value, cleared, control, set_debug_reg, clear_debug_reg,
}

pub record WinContext : Type 0 where
  pub dr0 : ℕ
  pub dr1 : ℕ
  pub dr2 : ℕ
  pub dr3 : ℕ
  pub dr7 : ℕ

-- The switch over the slot.
unfoldable pub set_address : ℕ → ℕ → WinContext → WinContext
set_address slot addr ctx =
    if slot == 0
    then record ctx { dr0 = addr }
    else if slot == 1
    then record ctx { dr1 = addr }
    else if slot == 2
    then record ctx { dr2 = addr }
    else if slot == 3
    then record ctx { dr3 = addr }
    else ctx

-- The switch over the size has no default: the length stays 0.
unfoldable pub win_set_debug_reg : ℕ → ℕ → HwBpType → ℕ → WinContext → WinContext
unfolding set_address
win_set_debug_reg slot addr type size ctx =
    let ctx₁ = set_address slot addr ctx in
    let enabled = bit_or ctx₁.dr7 (2 ^ (slot * 2)) in
    let typed =
      bit_or (bit_and enabled (cleared 3 (16 + slot * 4)))
        (type_value type * 2 ^ (16 + slot * 4)) in
    record ctx₁ {
      dr7 =
          bit_or (bit_and typed (cleared 3 (18 + slot * 4)))
            (length_value size * 2 ^ (18 + slot * 4));
    }

unfoldable pub win_clear_debug_reg : ℕ → WinContext → WinContext
unfolding set_address
win_clear_debug_reg slot ctx =
    set_address slot 0 (record ctx { dr7 = bit_and ctx.dr7 (cleared 1 (slot * 2)) })

-- The address in the register of a number.
abbrev address_of : WinContext → ℕ → ℕ
address_of ctx i =
    if i == 0
    then ctx.dr0
    else if i == 1
    then ctx.dr1
    else if i == 2
    then ctx.dr2
    else if i == 3
    then ctx.dr3
    else 0

-- The debug registers of a CONTEXT, DR0 to DR3 by their number.
abbrev pub regs_of : WinContext → DebugRegs
regs_of ctx = record { dr = address_of ctx; dr7 = ctx.dr7 }

set_address_lem :
    (slot addr i : ℕ) (ctx : WinContext)
    → slot < 4
    → (address_of (set_address slot addr ctx) i ≡ (if i == slot then addr else address_of ctx i))
      × ((set_address slot addr ctx).dr7 ≡ ctx.dr7)
unfolding set_address
set_address_lem slot addr i ctx h = ground arith

abbrev cleared_control : ℕ → WinContext → WinContext
cleared_control slot ctx = record ctx { dr7 = bit_and ctx.dr7 (cleared 1 (slot * 2)) }

regs_path : (d e : DebugRegs) → ((i : ℕ) → d.dr i ≡ e.dr i) → d.dr7 ≡ e.dr7 → d ≡ e
regs_path d e p q =
    ap (λ x. record { dr = x; dr7 = d.dr7 }) (fun_ext p) ∙ ap (λ y. record { dr = e.dr; dr7 = y }) q

-- On one of the four slots, winSetDebugReg and winClearDebugReg do to the debug registers of a CONTEXT
-- what setting and clearing do to debug registers that are named by their number: the address goes to
-- the slot's own register, the other three keep theirs, and DR7 is the same.
pub regs_of-win_debug_reg :
    (slot addr size : ℕ) (type : HwBpType) (ctx : WinContext)
    → slot < 4
    → (regs_of (win_set_debug_reg slot addr type size ctx)
        ≡ set_debug_reg slot addr type size (regs_of ctx))
      × (regs_of (win_clear_debug_reg slot ctx) ≡ clear_debug_reg slot (regs_of ctx))
unfolding win_set_debug_reg win_clear_debug_reg set_debug_reg clear_debug_reg control
regs_of-win_debug_reg slot addr size type ctx h = (
  regs_path (regs_of (win_set_debug_reg slot addr type size ctx))
      (set_debug_reg slot addr type size (regs_of ctx)) (λ i. (set_address_lem slot addr i ctx h).0)
      (ap (control slot (type_value type) (length_value size))
        (set_address_lem slot addr 0 ctx h).1),
  regs_path (regs_of (win_clear_debug_reg slot ctx)) (clear_debug_reg slot (regs_of ctx))
      (λ i. (set_address_lem slot 0 i (cleared_control slot ctx) h).0)
      (set_address_lem slot 0 0 (cleared_control slot ctx) h).1,
)
