-- ===== src/HwBreakpoint/Slots.antt =====
-- The debug registers of x64, which native_hw_breakpoint.cc sets on Windows and on Darwin
-- (darwinSetDebugReg, winSetDebugReg and their kin), and the mask of the slots in use.
use Prim.Native.Nat.{bit_and, bit_or}
use chromatic.Base.{
  ℕ, zero, suc, ◌+◌, ◌-◌, ◌*◌, ◌^◌, Bool, not, ◌==◌, if◌then◌else◌, Option, none, some,
}
use chromatic.Hex.{u64_mod}

pub data HwBpType : Type 0 where
  on_execute on_write on_read_write : HwBpType

-- DR0 to DR3 by their number, and DR7, of the thread that calls.
pub record DebugRegs : Type 0 where
  pub dr : ℕ → ℕ
  pub dr7 : ℕ

abbrev set_dr : ℕ → ℕ → (ℕ → ℕ) → ℕ → ℕ
set_dr slot addr dr i = if i == slot then addr else dr i

unfoldable pub type_value : HwBpType → ℕ
type_value on_execute = 0
type_value on_write = 1
type_value on_read_write = 3

unfoldable pub length_value : ℕ → ℕ
length_value size =
    if size == 1
    then 0
    else if size == 2
    then 1
    else if size == 4
    then 3
    else if size == 8
    then 2
    else 0

-- ~(mask << shift) on 64 bits.
abbrev pub cleared : ℕ → ℕ → ℕ
cleared mask shift = u64_mod - 1 - mask * 2 ^ shift

-- The new DR7: the slot's enable bit, its type and its length.
unfoldable pub control : ℕ → ℕ → ℕ → ℕ → ℕ
control slot type length dr7 =
    let enabled = bit_or dr7 (2 ^ (slot * 2)) in
    let typed = bit_or (bit_and enabled (cleared 3 (16 + slot * 4))) (type * 2 ^ (16 + slot * 4)) in
    bit_or (bit_and typed (cleared 3 (18 + slot * 4))) (length * 2 ^ (18 + slot * 4))

unfoldable pub set_debug_reg : ℕ → ℕ → HwBpType → ℕ → DebugRegs → DebugRegs
set_debug_reg slot addr type size regs = record {
  dr = set_dr slot addr regs.dr;
  dr7 = control slot (type_value type) (length_value size) regs.dr7;
}

-- The slot is disabled and its address cleared.
unfoldable pub clear_debug_reg : ℕ → DebugRegs → DebugRegs
clear_debug_reg slot regs = record {
  dr = set_dr slot 0 regs.dr;
  dr7 = bit_and regs.dr7 (cleared 1 (slot * 2));
}

-- g_usedSlots & (1 << slot), and the loop of findFreeSlot over the slots from `slot` on.
unfoldable pub is_used : ℕ → ℕ → Bool
is_used slot used = not (bit_and used (2 ^ slot) == 0)

unfoldable pub free_slot_from : ℕ → ℕ → ℕ → Option ℕ
free_slot_from zero slot used = none
free_slot_from (suc rounds) slot used =
    let later = free_slot_from rounds (slot + 1) used in
    if is_used slot used then later else some slot

unfoldable pub find_free_slot : ℕ → Option ℕ
find_free_slot used = free_slot_from 4 0 used

-- g_usedSlots |= (1 << slot), and g_usedSlots &= ~(1 << slot), on 32 bits.
unfoldable pub use_slot : ℕ → ℕ → ℕ
use_slot slot used = bit_or used (2 ^ slot)

unfoldable pub drop_slot : ℕ → ℕ → ℕ
drop_slot slot used = bit_and used (2 ^ 32 - 1 - 2 ^ slot)
