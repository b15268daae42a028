-- ===== src/Relocator/Host.antt =====
-- What the relocator uses of the system and of the libraries, and the process state that it changes.
use chromatic.Base.{ℕ, List, Option}
use chromatic.Platform.{Arch}
use chromatic.Disassembler.{Insn}
use chromatic.Relocator.Ops.{Op}

-- `disasm` is cs_disasm; `add live ops` is the address that JitRuntime::add gives to new code beside
-- the code that is live; `mprotect start size prot` is what the call makes of the protections, or
-- nothing where it fails.
pub record Tools : Type 0 where
  pub arch : Arch
  pub disasm : (ℕ → ℕ) → ℕ → ℕ → Option Insn
  pub add : List ℕ → List Op → Option ℕ
  pub mprotect : ℕ → ℕ → ℕ → (ℕ → ℕ) → Option (ℕ → ℕ)
  pub page_size : ℕ

-- Memory and its protections by address, and the addresses of the live JIT code.
pub record Process : Type 0 where
  pub memory : ℕ → ℕ
  pub protections : ℕ → ℕ
  pub live : List ℕ
