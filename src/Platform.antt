-- ===== src/Platform.antt =====
-- The configuration macros CHROMATIC_LINUX, CHROMATIC_ANDROID, CHROMATIC_DARWIN, CHROMATIC_WINDOWS,
-- CHROMATIC_X64 and CHROMATIC_ARM64, as a value that the code of several platforms takes.
use chromatic.Base.{ℕ}

pub data Os : Type 0 where
  linux android darwin windows : Os

pub data Arch : Type 0 where
  x64 arm64 : Arch

pub record Platform : Type 0 where
  pub os : Os
  pub arch : Arch

-- PATCH_SIZE of code_relocator.h.
abbrev pub patch_size : Arch → ℕ
patch_size x64 = 14
patch_size arm64 = 16

-- BP_INSN_SIZE of native_breakpoint.cc.
abbrev pub bp_insn_size : Arch → ℕ
bp_insn_size x64 = 1
bp_insn_size arm64 = 4
