-- ===== src/Breakpoint/RoundTrip.antt =====
-- Taking breakpoints away again.
use chromatic.Base.{
  ℕ, ◌+◌, ◌%◌, ◌<◌, ◌≡◌, refl, ◌∙◌, ap, false, List, ◌∷◌, ◌==◌, Text, Option, none, some, length,
  lookup, erase, lookup-assign, erase-assign, ok, done, arith, ==_refl,
}
use chromatic.Hex.{u64_mod, parse_hex_addr}
use chromatic.Hex.RoundTrip.{parse_hex_addr-to_hex_addr}
use chromatic.Platform.{Arch, x64, arm64, Os, linux, android, darwin, windows, bp_insn_size}
use chromatic.Handlers.Signals.{Context, handled, set_pc}
use chromatic.Handlers.Enabling.{IsPosix}
use chromatic.Relocator.{write_bytes, make_writable_and_patch, release_code, le_bytes}
use chromatic.Relocator.Host.{Tools, Process}
use chromatic.Relocator.Build.{
  make_writable_and_patch-Patched, Permits, make_writable_and_patch_total, release_code-newest,
}
use chromatic.Relocator.Patch.{write_bytes_undo}
use chromatic.Breakpoint.{
  BreakpointEntry, Breakpoints, set, remove, on_process, unset, release, bp_insn,
  maybe_remove_handler, trap_address, breakpoint_sigtrap_handler,
}
use chromatic.Breakpoint.Trap.{set-HasBreakpoint}

-- What taking `e` away leaves of the state `s`.
record IsUnset (s q : Breakpoints) (e : BreakpointEntry) (rest : List ℕ) : Type 0 where
  pub memory : q.process.memory ≡ write_bytes e.address e.original_bytes s.process.memory
  pub live : q.process.live ≡ rest
  pub by_id : q.bp_by_id ≡ s.bp_by_id
  pub by_address : q.bp_by_address ≡ s.bp_by_address

pub unset_of_patch :
    (t : Tools) (os : Os) (bp_dispatch : ℕ) (e : BreakpointEntry) (s : Breakpoints) (p : Process)
    → make_writable_and_patch t e.address e.original_bytes s.process ≡ done p tt
    → unset t os bp_dispatch e s
      ≡ done
          (record s { process = release_code e.relocated_code (release_code e.trampoline_code p) })
          tt
unfolding unset on_process release
unset_of_patch t os bp_dispatch e s p h = rw (on_process, h) refl

pub remove_of_unset :
    (t : Tools) (os : Os) (bp_dispatch : ℕ) (text : Text) (n : ℕ) (e : BreakpointEntry)
    (s q : Breakpoints)
    → parse_hex_addr text ≡ ok n
    → lookup n s.bp_by_id ≡ some e
    → unset t os bp_dispatch e s ≡ done q tt
    → remove t os bp_dispatch text s
      ≡ done
          (maybe_remove_handler (record q {
            bp_by_address = erase e.address q.bp_by_address;
            bp_by_id = erase n q.bp_by_id;
          }))
          tt
unfolding remove
remove_of_unset t os bp_dispatch text n e s q parsed found h = rw (remove, parsed, found, h) refl

unset-IsUnset :
    (t : Tools) (os : Os) (bp_dispatch : ℕ)
    → Permits t
    → (e : BreakpointEntry) (s : Breakpoints) (live : List ℕ) → (e.trampoline_code == 0) ≡ false
    → (e.relocated_code == 0) ≡ false
    → s.process.live ≡ e.trampoline_code ∷ e.relocated_code ∷ live
    → (q : Breakpoints) × (unset t os bp_dispatch e s ≡ done q tt) × IsUnset s q e live
unset-IsUnset t os bp_dispatch permits e s live t≢0 r≢0 is_live =
    let (p, done_p) =
      make_writable_and_patch_total t permits e.address e.original_bytes s.process in
    let patched = make_writable_and_patch-Patched t e.address e.original_bytes s.process p done_p in
    let p₁ : Process = release_code e.trampoline_code p in
    let (live₁, memory₁) =
      release_code-newest e.trampoline_code p (e.relocated_code ∷ live) t≢0
        (patched.live ∙ is_live) in
    let (live₂, memory₂) = release_code-newest e.relocated_code p₁ live r≢0 live₁ in
    (
      record s { process = release_code e.relocated_code p₁ },
      unset_of_patch t os bp_dispatch e s p done_p,
      record {
        memory = memory₂ ∙ memory₁ ∙ patched.memory;
        live = live₂;
        by_id = refl;
        by_address = refl;
      },
    )

pub length-bp_insn : (arch : Arch) → length (bp_insn arch) ≡ bp_insn_size arch
unfolding bp_insn le_bytes
length-bp_insn x64 = refl
length-bp_insn arm64 = refl

-- The parts of the state that a breakpoint changes are again those of `s`.
pub record Restored (s q : Breakpoints) : Type 0 where
  pub memory : q.process.memory ≡ s.process.memory
  pub live : q.process.live ≡ s.process.live
  pub by_id : q.bp_by_id ≡ s.bp_by_id
  pub by_address : q.bp_by_address ≡ s.bp_by_address

maybe_remove-Restored : (s q : Breakpoints) → Restored s q → Restored s (maybe_remove_handler q)
unfolding maybe_remove_handler
maybe_remove-Restored s q v = ground (arith, v.memory, v.live, v.by_id, v.by_address)

-- Where mprotect does not fail and the next breakpoint id is a 64-bit number that no breakpoint
-- has, removing the breakpoint that set has just made succeeds, and the process's memory, the live
-- JIT code and both maps of breakpoints are as they were before set.
pub remove-set :
    (t : Tools) (os : Os) (bp_dispatch : ℕ) (text : Text) (on_hit : Option ℕ) (s s' : Breakpoints)
    (address : ℕ) (id : Text)
    → Permits t
    → parse_hex_addr text ≡ ok address
    → s.next_bp_id < u64_mod
    → lookup s.next_bp_id s.bp_by_id ≡ none
    → set t os bp_dispatch text on_hit s ≡ done s' id
    → (q : Breakpoints) × (remove t os bp_dispatch id s' ≡ done q tt) × Restored s q
remove-set t os bp_dispatch text on_hit s s' address id permits parsed small fresh h =
    let (e, a, named) = set-HasBreakpoint t os bp_dispatch text on_hit s s' address id parsed h in
    let (q, done_q, u) =
      unset-IsUnset t os bp_dispatch permits e s' s.process.live a.trampoline a.relocated a.live in
    let key : parse_hex_addr id ≡ ok s.next_bp_id =
      ap parse_hex_addr named ∙ parse_hex_addr-to_hex_addr s.next_bp_id small in
    let found : lookup s.next_bp_id s'.bp_by_id ≡ some e =
      rw (a.by_id, lookup-assign s.next_bp_id s.next_bp_id e s.bp_by_id, ==_refl s.next_bp_id)
        refl in
    let n : ℕ = bp_insn_size t.arch in
    let cleared : Breakpoints = record q {
      bp_by_address = erase e.address q.bp_by_address;
      bp_by_id = erase s.next_bp_id q.bp_by_id;
    } in
    (
      maybe_remove_handler cleared,
      remove_of_unset t os bp_dispatch id s.next_bp_id e s' q key found done_q,
      maybe_remove-Restored s cleared (record {
        memory =
            u.memory
            ∙ rw (a.memory, a.saved, a.aimed)
                (write_bytes_undo s.process.memory address (bp_insn t.arch) n
                  (length-bp_insn t.arch));
        live = u.live;
        by_id = rw (u.by_id, a.by_id) (erase-assign s.next_bp_id e s.bp_by_id fresh);
        by_address =
            rw (u.by_address, a.by_address, a.aimed)
              (erase-assign address e s.bp_by_address a.free);
      }),
    )

-- Where the processor reports a trap at `address`: on x64 behind the INT3 of one byte.
unfoldable pub reported_pc : Arch → ℕ → ℕ
reported_pc x64 address = (address + 1) % u64_mod
reported_pc arm64 address = address

trap_address-reported_pc :
    (os : Os) (arch : Arch) (address : ℕ)
    → IsPosix os
    → address < u64_mod
    → trap_address os arch (reported_pc arch address) ≡ address
unfolding trap_address reported_pc
trap_address-reported_pc linux x64 address p h = omega arith
trap_address-reported_pc android x64 address p h = omega arith
trap_address-reported_pc darwin x64 address p h = omega arith
trap_address-reported_pc windows x64 address p h = absurd p
trap_address-reported_pc os arm64 address p h = refl

handle_found :
    (os : Os) (arch : Arch) (s : Breakpoints) (ctx : Context) (e : BreakpointEntry)
    → lookup (trap_address os arch ctx.pc) s.bp_by_address ≡ some e
    → ((breakpoint_sigtrap_handler os arch s ctx).action ≡ handled)
      × ((breakpoint_sigtrap_handler os arch s ctx).context.machine.pc ≡ e.trampoline_code)
      × ((breakpoint_sigtrap_handler os arch s ctx).world ≡ s)
unfolding breakpoint_sigtrap_handler set_pc
handle_found os arch s ctx e h = rw (breakpoint_sigtrap_handler, h) (refl, refl, refl)

-- On a POSIX system, once set has returned, a trap of the processor at the breakpoint's address is
-- claimed by the SIGTRAP handler and goes on at the newest live JIT code, which is not null; the trap
-- instruction stands at the address.
pub trap-set :
    (t : Tools) (os : Os) (bp_dispatch : ℕ) (text : Text) (on_hit : Option ℕ) (s s' : Breakpoints)
    (address : ℕ) (id : Text) (ctx : Context)
    → IsPosix os
    → parse_hex_addr text ≡ ok address
    → address < u64_mod
    → set t os bp_dispatch text on_hit s ≡ done s' id
    → ctx.pc ≡ reported_pc t.arch address
    → (code : ℕ) × (rest : List ℕ) × (s'.process.live ≡ code ∷ rest)
      × ((code == 0) ≡ false)
      × (s'.process.memory ≡ write_bytes address (bp_insn t.arch) s.process.memory)
      × ((breakpoint_sigtrap_handler os t.arch s' ctx).action ≡ handled)
      × ((breakpoint_sigtrap_handler os t.arch s' ctx).context.machine.pc ≡ code)
      × ((breakpoint_sigtrap_handler os t.arch s' ctx).world ≡ s')
trap-set t os bp_dispatch text on_hit s s' address id ctx posix parsed small h at_pc =
    let (e, a, named) = set-HasBreakpoint t os bp_dispatch text on_hit s s' address id parsed h in
    let found : lookup (trap_address os t.arch ctx.pc) s'.bp_by_address ≡ some e =
      rw
        (
          at_pc,
          trap_address-reported_pc os t.arch address posix small,
          a.by_address,
          lookup-assign address address e s.bp_by_address,
          ==_refl address,
        )
        refl in
    let run = handle_found os t.arch s' ctx e found in
    (
      e.trampoline_code,
      e.relocated_code ∷ s.process.live,
      a.live,
      a.trampoline,
      a.memory,
      run.0,
      run.1,
      run.2,
    )
