-- ===== src/Examples/Patches.antt =====
-- Patches on the three families of systems, and relocated code, on a memory full of one-byte
-- instructions.
use chromatic.Base.{
  ℕ, ◌+◌, ◌/◌, ◌≤◌, ◌≡◌, ◌&&◌, refl, false, Bool, List, [], ◌∷◌, leb, ◌++◌, ◌==◌, map, some, inl,
  done, arith,
}
use chromatic.Hex.{parse_hex_addr, to_hex_addr, hex_digits, hex_char}
use chromatic.Hex.RoundTrip.{parse_hex_addr-to_hex_addr}
use chromatic.Disassembler.{analyze_instruction, analyze_insn, disassemble_one, insn_to_info}
use chromatic.Relocator.{
  write_bytes, prot_rx, make_writable_and_patch, relocate_from, relocate_insn, relocate_x64,
  read_bytes, jump_back,
}
use chromatic.Relocator.Host.{Tools}
use chromatic.Relocator.Ops.{Op, embed}
use chromatic.Relocator.CpuArm64.{CpuArm64}
use chromatic.Relocator.CpuArm64
use chromatic.Relocator.Cpu.{Cpu}
use chromatic.Relocator.Copies.{Plain, concat, relocate_from_lem}
use chromatic.Relocator.Systems.{
  VirtualProtect, VmProtect, with_pages, make_writable_and_patch_windows,
  make_writable_and_patch_darwin, patch-protections,
}
use chromatic.Examples.Code.{tools, no_hooks, filled}

-- Pages of 4096 bytes.
abbrev on_pages : ℕ → ℕ → ℕ → Bool
on_pages start size x = leb (start / 4096) (x / 4096) && leb (x / 4096) ((start + size) / 4096)

abbrev virtual_protect : VirtualProtect
virtual_protect start size prot p = some (with_pages on_pages start size prot p, p start)

abbrev vm_protect : VmProtect
vm_protect start size prot p = inl (with_pages on_pages start size prot p)

abbrev paged : Tools
paged = record tools {
  mprotect = λ start size prot p. some (with_pages on_pages start size prot p);
}

abbrev patch : List ℕ
patch = 0xCC ∷ 0x90 ∷ []

abbrev patched : ℕ → ℕ
patched = write_bytes 0x2010 patch filled

abbrev executable : ℕ → ℕ
executable = with_pages on_pages 0x2000 0x12 prot_rx no_hooks.process.protections

patch-protections_example :
    (make_writable_and_patch_darwin vm_protect 4096 0x2010 patch no_hooks.process
      ≡ done (record no_hooks.process { memory = patched; protections = executable }) tt)
    × (make_writable_and_patch paged 0x2010 patch no_hooks.process
        ≡ done (record no_hooks.process { memory = patched; protections = executable }) tt)
    × (make_writable_and_patch_windows virtual_protect 0 0x2010 patch no_hooks.process
        ≡ done
            (record no_hooks.process {
              memory = patched;
              protections = with_pages on_pages 0x2010 2 5 no_hooks.process.protections;
            })
            tt)
patch-protections_example =
    patch-protections on_pages virtual_protect vm_protect paged 0 0x2010 patch no_hooks.process
      (λ start size prot p. refl) (λ start size prot p. refl) (λ start size prot p. refl)

plain : Plain tools filled 0x2000 5
unfolding analyze_instruction analyze_insn
plain offset info a starts small decoded h =
    let h' =
      rw (analyze_instruction, parse_hex_addr-to_hex_addr (0x2000 + offset) (omega arith)) at h in
    let nonzero : (0x2000 + offset == 0) ≡ false = ground arith in let h'' = rw nonzero at h' in cc

abbrev copied : List Op
copied =
    map embed ((0x90 ∷ []) ∷ (0x90 ∷ []) ∷ (0x90 ∷ []) ∷ (0x90 ∷ []) ∷ (0x90 ∷ []) ∷ [])
    ++ jump_back tools.arch 0x2005

relocate_from_lem_example :
    (copies : List (List ℕ)) × (copied ≡ map embed copies ++ jump_back tools.arch 0x2005)
    × (concat copies ≡ read_bytes filled 0x2000 5)
    × (5 ≤ 5)
unfolding relocate_from disassemble_one to_hex_addr hex_digits hex_char insn_to_info
    analyze_instruction analyze_insn parse_hex_addr read_bytes relocate_insn relocate_x64
relocate_from_lem_example =
    relocate_from_lem tools filled 0x2000 5 copied 5 plain (omega arith) refl

-- A processor in a function that has just been called; the dispatch functions clear every register.
abbrev entered : Cpu
entered = record { regs = λ r. 7; flags = 0x246; stack = 0x401000 ∷ []; calls = []; next = 0 }

abbrev entered_arm64 : CpuArm64
entered_arm64 = record {
  regs = λ i. 100 + i;
  nzcv = 0x60000000;
  sp = 0x8000;
  frames = [];
  calls = [];
  next = 0;
}
