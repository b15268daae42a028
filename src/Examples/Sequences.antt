-- ===== src/Examples/Sequences.antt =====
-- Sequences of calls of scripts on a memory full of one-byte instructions.
use chromatic.Base.{
  inr, false, ℕ, ◌+◌, ◌≤◌, ◌≡◌, ◌≢◌, ◌⊎◌, refl, List, [], ◌∷◌, codes, none, some, ok, done, arith,
}
use chromatic.Hex.{parse_hex_addr}
use chromatic.Platform.{linux}
use chromatic.Handlers.{Signal, Sigaction, sig_dfl}
use chromatic.Runtime.{Program, cleanup}
use chromatic.Runtime.Script.{hook_call, breakpoint_call}
use chromatic.Runtime.Script
use chromatic.Runtime.Restoring.{cleanup-calls}
use chromatic.Examples.Clean.{running}
use chromatic.Base.Signed.{pos}
use chromatic.Handlers.Enabling.{Tracks}
use chromatic.Runtime.References.{remove_all-Counts}
use chromatic.Interceptor.{Hooks, detach_all}
use chromatic.Interceptor.Sequence.{
  Call, attach_call, detach_call, revert_call, replace_call, calls, detach_all-calls,
}
use chromatic.Breakpoint.{Breakpoints, remove_all}
use chromatic.Breakpoint.Sequence.{set_call, remove_call, remove_all_call, remove_all-calls}
use chromatic.Breakpoint.Sequence
use chromatic.Examples.Code.{tools, no_hooks}
use chromatic.Examples.Trap.{system, no_breakpoints}

abbrev At : ℕ → Type 0
At a = (a ≡ 0x2000) ⊎ (a ≡ 0x3000)

-- Two functions are hooked, the first is set free again and replaced, and an unknown hook is named.
abbrev session : List Call
session =
    attach_call (codes "0x2000") (some 1) none
    ∷ attach_call (codes "0x3000") none (some 2)
    ∷ attach_call (codes "0x2000") none none
    ∷ detach_call (codes "0x1")
    ∷ replace_call (codes "0x2000") (codes "0x9000")
    ∷ revert_call (codes "0x3000")
    ∷ []

At-separate : (a b : ℕ) → At a → At b → a ≢ b → (a + 14 ≤ b) ⊎ (b + 14 ≤ a)
At-separate a b ha hb d = ground arith

first_site : (target : ℕ) → parse_hex_addr (codes "0x2000") ≡ ok target → At target
unfolding parse_hex_addr
first_site target h = ground arith

second_site : (target : ℕ) → parse_hex_addr (codes "0x3000") ≡ ok target → At target
unfolding parse_hex_addr
second_site target h = ground arith

detach_all-calls_example :
    (q : Hooks) × (detach_all tools linux 0x111 0x222
        (calls tools linux 0x111 0x222 session no_hooks)
      ≡ done q tt)
    × (q.process.memory ≡ no_hooks.process.memory)
    × (q.hooks_by_id ≡ [])
    × (q.hooks_by_target ≡ [])
detach_all-calls_example =
    detach_all-calls tools linux 0x111 0x222 At session no_hooks (λ start size prot p. (p, refl))
      At-separate (first_site, (second_site, (first_site, (tt, (first_site, (tt, tt))))))
      (omega arith) refl refl

-- Two breakpoints next to each other, one of them set twice, and one removed.
abbrev stops : List Sequence.Call
stops =
    set_call (codes "0x2000") (some 1)
    ∷ set_call (codes "0x2001") none
    ∷ set_call (codes "0x2000") none
    ∷ remove_call (codes "0x1")
    ∷ []

abbrev Stop : ℕ → Type 0
Stop a = (a ≡ 0x2000) ⊎ (a ≡ 0x2001)

address_of_first : (a : ℕ) → parse_hex_addr (codes "0x2000") ≡ ok a → Stop a
unfolding parse_hex_addr
address_of_first a h = ground arith

address_of_second : (a : ℕ) → parse_hex_addr (codes "0x2001") ≡ ok a → Stop a
unfolding parse_hex_addr
address_of_second a h = ground arith

remove_all-calls_example :
    (q : Breakpoints) × (remove_all system linux 0x333
        (Sequence.calls system linux 0x333 stops no_breakpoints)
      ≡ done q tt)
    × (q.process.memory ≡ no_breakpoints.process.memory)
    × (q.bp_by_id ≡ [])
    × (q.bp_by_address ≡ [])
remove_all-calls_example =
    remove_all-calls system linux 0x333 Stop stops no_breakpoints (λ start size prot p. (p, refl))
      (λ a b ha hb d. ground arith)
      (address_of_first, (address_of_second, (address_of_first, (tt, tt)))) (omega arith) refl refl

abbrev all_default : Signal → Sigaction
all_default g = sig_dfl

remove_all-Counts_example :
    (q : Breakpoints) × (remove_all system linux 0x333
        (Sequence.calls system linux 0x333 stops no_breakpoints)
      ≡ done q tt)
    × (q.handler_installed ≡ false)
    × (q.handlers.handlers ≡ no_breakpoints.handlers.handlers)
    × (q.handlers.ref_count ≡ pos 0)
    × Tracks all_default q.handlers
remove_all-Counts_example =
    remove_all-Counts system linux 0x333 0 all_default stops no_breakpoints
      (λ start size prot p. (p, refl)) tt refl refl
      (inr (record { off = refl; original = λ g. refl })) tt (omega arith)

-- A hook and a breakpoint, and the hook taken away again while the breakpoint stays.
abbrev mixed : List Script.Call
mixed =
    hook_call (attach_call (codes "0x2000") (some 1) none)
    ∷ breakpoint_call (set_call (codes "0x2100") none)
    ∷ hook_call (attach_call (codes "0x3000") (some 1) none)
    ∷ hook_call (detach_call (codes "0x1"))
    ∷ []

abbrev StopInside : ℕ → Type 0
StopInside a = a ≡ 0x2100

address_inside : (a : ℕ) → parse_hex_addr (codes "0x2100") ≡ ok a → StopInside a
unfolding parse_hex_addr
address_inside a h = ground arith

cleanup-calls_example :
    (q : Program) × (cleanup system linux 0x333 0x111 0x222
        (Script.calls system linux 0x333 0x111 0x222 mixed running)
      ≡ done q tt)
    × (q.process.memory ≡ running.process.memory)
cleanup-calls_example =
    cleanup-calls system linux 0x333 0x111 0x222 At StopInside mixed running
      (λ start size prot p. (p, refl)) At-separate (λ a b ha hb d. ground arith)
      (λ a b ha hb. ground arith) (first_site, (address_inside, (second_site, (tt, tt))))
      (omega arith) (omega arith) refl refl refl refl
