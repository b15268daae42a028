-- ===== src/Memory/Access.antt =====
-- Reading and writing.
use chromatic.Base.{
  ℕ, zero, suc, ◌+◌, ◌-◌, ◌<◌, ◌≡◌, refl, ap, Bool, true, false, ◌&&◌, List, [], ◌∷◌, if◌then◌else◌,
  leb, ltb, Text, length, get_or, arith, ok, done,
}
use mathlib.Core.Path.{fun_ext}
use chromatic.Hex.{parse_hex_addr, bytes_to_hex}
use chromatic.Hex.Bytes.{AreBytes, hex_to_bytes-bytes_to_hex}
use chromatic.Handlers.{
  Signal, sigsegv, sigbus, sigtrap, sigill, other_signal, Sigaction, sa_handler,
}
use chromatic.Relocator.{write_bytes, read_bytes}
use chromatic.Relocator.Host.{Process}
use chromatic.Memory.{read_memory, write_memory, safe_read_memory, all_readable, set_action}

read_bytes_from :
    (a n : ℕ) (bs : List ℕ) (f : ℕ → ℕ)
    → ((i : ℕ) → i < n → f (a + i) ≡ get_or bs i 0)
    → length bs ≡ n
    → read_bytes f a n ≡ bs
unfolding read_bytes
read_bytes_from a zero [] f h len = refl
read_bytes_from a zero (b ∷ bs) f h len = absurd (omega (arith, len))
read_bytes_from a (suc n) [] f h len = absurd (omega (arith, len))
read_bytes_from a (suc n) (b ∷ bs) f h len =
    let first : f a ≡ b = (let z : a + 0 ≡ a = omega arith in rw z at (h 0 (omega arith))) in
    rw (
      first,
      read_bytes_from (a + 1) n bs f
          (λ i lt. let z : a + 1 + i ≡ a + suc i = omega arith in rw z (h (suc i) (omega arith)))
          (omega (arith, len)),
    )

-- What was written is read.
pub read_bytes-write_bytes :
    (m : ℕ → ℕ) (a : ℕ) (bs : List ℕ) → read_bytes (write_bytes a bs m) a (length bs) ≡ bs
unfolding write_bytes
read_bytes-write_bytes m a bs =
    read_bytes_from a (length bs) bs (write_bytes a bs m)
      (λ i lt.
        let inside : (leb a (a + i) && ltb (a + i) (a + length bs)) ≡ true = ground arith in
        let z : a + i - a ≡ i = omega arith in rw inside (rw z))
      refl

-- Where writeMemory is given the hexadecimal text of some bytes, it succeeds, readMemory of as many
-- bytes at the same address gives the same text back, and no byte outside of them has changed.
pub read_memory-write_memory :
    (address : Text) (a : ℕ) (bs : List ℕ) (s : Process)
    → AreBytes bs
    → parse_hex_addr address ≡ ok a
    → (s' : Process) × (write_memory address (bytes_to_hex bs) s ≡ done s' tt)
      × (read_memory s'.memory address (length bs) ≡ ok (bytes_to_hex bs))
      × ((x : ℕ) → (leb a x && ltb x (a + length bs)) ≡ false → s'.memory x ≡ s.memory x)
unfolding write_memory read_memory write_bytes
read_memory-write_memory address a bs s are parsed =
    let bytes = (hex_to_bytes-bytes_to_hex bs are).0 in
    (
      record s { memory = write_bytes a bs s.memory },
      rw (parsed, bytes) refl,
      rw (parsed, read_bytes-write_bytes s.memory a bs) refl,
      λ x out. outside x out,
    )
  where
    outside :
        (x : ℕ)
        → (leb a x && ltb x (a + length bs)) ≡ false
        → write_bytes a bs s.memory x ≡ s.memory x
    outside x out = rw (write_bytes, out)

-- The table of handlers where SIGBUS has the handler of SIGSEGV.
abbrev pub bus_like_segv : (Signal → Sigaction) → Signal → Sigaction
bus_like_segv current sigbus = current sigsegv
bus_like_segv current sigsegv = current sigsegv
bus_like_segv current sigtrap = current sigtrap
bus_like_segv current sigill = current sigill
bus_like_segv current other_signal = current other_signal

-- safeReadMemory of an address gives the text of the bytes if all of them can be read, and the empty
-- text if not. It puts the handler of SIGSEGV back and leaves those of the other signals, but SIGBUS
-- gets the handler that SIGSEGV had.
pub safe_read_memory_lem :
    (handler : ℕ) (readable : ℕ → Bool) (memory : ℕ → ℕ) (address : Text) (a size : ℕ)
    (current : Signal → Sigaction)
    → parse_hex_addr address ≡ ok a
    → safe_read_memory handler readable memory address size current
      ≡ done
          (bus_like_segv current)
          (if all_readable readable a size then bytes_to_hex (read_bytes memory a size) else [])
unfolding safe_read_memory set_action
safe_read_memory_lem handler readable memory address a size current parsed =
    rw (safe_read_memory, parsed)
      (ap
        (λ (f : Signal → Sigaction).
          done f
            (if all_readable readable a size then bytes_to_hex (read_bytes memory a size) else []))
        (fun_ext same))
  where
    same :
        (g : Signal)
        → set_action sigbus
            (current sigsegv)
            (set_action sigsegv (current sigsegv) (
              set_action sigbus
                (sa_handler handler)
                (set_action sigsegv (sa_handler handler) current)))
            g
          ≡ bus_like_segv current g
    same sigsegv = refl
    same sigbus = refl
    same sigtrap = refl
    same sigill = refl
    same other_signal = refl
