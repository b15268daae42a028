-- ===== src/Memory.antt =====
-- The part of src/core/bindings/native_memory.cc that works on memory itself, in its POSIX branches
-- and for the protections in its Windows branch too. A read or a write outside of what is mapped ends
-- the process, except in safeReadMemory, and is not modelled; an `int size` is not negative here.
pub mod Protection
pub mod Access
pub mod Systems
use chromatic.Base.{
  ℕ, zero, suc, ◌+◌, ◌-◌, ◌%◌, ◌≡◌, Bool, true, false, not, ◌&&◌, ◌||◌, List, [], ◌∷◌, ◌++◌, ◌==◌,
  if◌then◌else◌, Text, codes, Option, none, some, length, Result, ok, err, and_then, runtime_error,
  Outcome, done, throw, M, lift, ◌>>=◌, ◌>>◌, bind_outcome, modify,
}
use Prim.Native.Nat.{bit_and, bit_or}
use chromatic.Hex.{u64_mod, to_hex_addr, parse_hex_addr, bytes_to_hex, hex_to_bytes}
use chromatic.Handlers.{
  Signal, sigsegv, sigbus, sigtrap, sigill, other_signal, Sigaction, sa_handler,
}
use chromatic.Relocator.{write_bytes, read_bytes}
use chromatic.Relocator.Host.{Tools, Process}

-- `prot.find(c) != npos`.
unfoldable pub has_char : ℕ → Text → Bool
has_char c [] = false
has_char c (d ∷ s) = (d == c) || has_char c s

-- PROT_READ, PROT_WRITE and PROT_EXEC are 1, 2 and 4.
unfoldable pub prot_string_to_flags : Text → ℕ
unfolding has_char
prot_string_to_flags prot =
    let r = if has_char b'r' prot then bit_or 0 1 else 0 in
    let w = if has_char b'w' prot then bit_or r 2 else r in
    if has_char b'x' prot then bit_or w 4 else w

unfoldable pub flags_to_prot_string : ℕ → Text
flags_to_prot_string flags =
    (if bit_and flags 1 == 0 then b'-' else b'r')
    ∷ (if bit_and flags 2 == 0 then b'-' else b'w')
    ∷ (if bit_and flags 4 == 0 then b'-' else b'x')
    ∷ []

-- The same on Windows, with PAGE_NOACCESS and its kin by their values.
unfoldable pub win_prot_string_to_flags : Text → ℕ
unfolding has_char
win_prot_string_to_flags prot =
    let r = has_char b'r' prot in
    let w = has_char b'w' prot in
    let x = has_char b'x' prot in
    if r && w && x
    then 0x40
    else if r && x
    then 0x20
    else if r && w
    then 0x04
    else if r
    then 0x02
    else if x
    then 0x10
    else 0x01

unfoldable pub win_flags_to_prot_string : ℕ → Text
win_flags_to_prot_string flags =
    if flags == 0x40
    then codes "rwx"
    else if flags == 0x20
    then codes "r-x"
    else if flags == 0x04
    then codes "rw-"
    else if flags == 0x02
    then codes "r--"
    else if flags == 0x10
    then codes "--x"
    else if flags == 0x80
    then codes "rwx"
    else if flags == 0x08
    then codes "rw-"
    else codes "---"

-- A call that reads memory and changes nothing.
unfoldable pub read_memory : (ℕ → ℕ) → Text → ℕ → Result Text
read_memory memory address size =
    and_then (parse_hex_addr address) λ addr. ok (bytes_to_hex (read_bytes memory addr size))

unfoldable pub all_readable : (ℕ → Bool) → ℕ → ℕ → Bool
all_readable readable addr zero = true
all_readable readable addr (suc n) = readable addr && all_readable readable (addr + 1) n

unfoldable pub set_action : Signal → Sigaction → (Signal → Sigaction) → Signal → Sigaction
set_action sigsegv a current sigsegv = a
set_action sigbus a current sigbus = a
set_action g a current h = current h

-- The kernel's table is the state; `handler` is the address of safe_read_signal_handler, and
-- `readable` tells which bytes can be read. A fault jumps back and gives the empty text.
unfoldable pub safe_read_memory : ℕ → (ℕ → Bool) → (ℕ → ℕ) → Text → ℕ → M (Signal → Sigaction) Text
unfolding set_action
safe_read_memory handler readable memory address size current = elim (parse_hex_addr address) [
  | err e ↦ throw current e
  | ok addr ↦
      let old = current sigsegv in
      let guarded =
        set_action sigbus (sa_handler handler) (set_action sigsegv (sa_handler handler) current) in
      done (set_action sigbus old (set_action sigsegv old guarded))
        (if all_readable readable addr size then bytes_to_hex (read_bytes memory addr size) else [])
]

unfoldable pub put_bytes : ℕ → List ℕ → Process → Process
put_bytes addr bytes s = record s { memory = write_bytes addr bytes s.memory }

unfoldable pub write_memory : Text → Text → M Process (Unit {0})
unfolding put_bytes
write_memory address hex_data = do
  addr ← lift (parse_hex_addr address)
  bytes ← lift (hex_to_bytes hex_data)
  modify (put_bytes addr bytes)

-- `mmap size prot` is the address of new memory beside the regions that are there, or nothing;
-- `munmap` is what the call makes of the regions.
unfoldable pub allocate_memory : (List (ℕ × ℕ) → ℕ → ℕ → Option ℕ) → ℕ → M (List (ℕ × ℕ)) Text
allocate_memory mmap size regions = elim (mmap regions size 3) [
  | none ↦ throw regions (runtime_error (codes "mmap failed"))
  | some addr ↦ done ((addr, size) ∷ regions) (to_hex_addr addr)
]

unfoldable pub free_memory :
    (ℕ → ℕ → List (ℕ × ℕ) → List (ℕ × ℕ)) → Text → ℕ → M (List (ℕ × ℕ)) (Unit {0})
free_memory munmap address size = do addr ← lift (parse_hex_addr address); modify (munmap addr size)

-- The old protection is not known on POSIX.
unfoldable pub protect_memory : Tools → Text → ℕ → Text → M Process Text
protect_memory t address size protection s = elim (parse_hex_addr address) [
  | err e ↦ throw s e
  | ok addr ↦ elim (t.mprotect addr size (prot_string_to_flags protection) s.protections) [
    | none ↦ throw s (runtime_error (codes "mprotect failed"))
    | some p ↦ done (record s { protections = p }) (codes "---")
  ]
]

-- mprotect where the result is not looked at.
unfoldable pub try_protect : Tools → ℕ → ℕ → ℕ → Process → Process
try_protect t start size prot s = elim (t.mprotect start size prot s.protections) [
  | none ↦ s
  | some p ↦ record s { protections = p }
]

unfoldable pub patch_code : Tools → Text → Text → M Process (Unit {0})
unfolding put_bytes try_protect
patch_code t address hex_bytes = do
  addr ← lift (parse_hex_addr address)
  bytes ← lift (hex_to_bytes hex_bytes)
  let page_start = bit_and addr (u64_mod - t.page_size)
  let total_size = addr + length bytes - page_start
  modify (λ s.
      try_protect t page_start total_size 5
        (put_bytes addr bytes (try_protect t page_start total_size 3 s)))

-- The instruction cache is no part of the model.
unfoldable pub flush_icache : Text → ℕ → M Process (Unit {0})
flush_icache address size = do addr ← lift (parse_hex_addr address); modify (λ s. s)

-- memcpy, of ranges that do not overlap.
unfoldable pub copy_memory : Text → Text → ℕ → M Process (Unit {0})
unfolding put_bytes
copy_memory dst src size = do
  dst_addr ← lift (parse_hex_addr dst)
  src_addr ← lift (parse_hex_addr src)
  modify (λ s. put_bytes dst_addr (read_bytes s.memory src_addr size) s)
