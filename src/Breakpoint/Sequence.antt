-- ===== src/Breakpoint/Sequence.antt =====
-- Sequences of the calls of scripts on the breakpoints, whether they return or throw.
use chromatic.Base.{
  ℕ, ◌+◌, ◌<◌, ◌≤◌, ◌≡◌, ◌≢◌, ◌⊎◌, refl, List, [], ◌∷◌, Text, Option, ok, done, arith, state_of,
  length, All,
}
use chromatic.Hex.{u64_mod, parse_hex_addr}
use chromatic.Platform.{Os, bp_insn_size}
use chromatic.Relocator.Host.{Tools}
use chromatic.Relocator.Build.{Permits}
use chromatic.Breakpoint.{Breakpoints, set, remove, remove_all}
use chromatic.Breakpoint.Going.{
  Follows, Goes, set-Goes, remove-Goes, remove_all-Cleared, Follows-empty,
}

-- The calls of scripts.
pub data Call : Type 0 where
  set_call : Text → Option ℕ → Call
  remove_call : Text → Call
  remove_all_call : Call

module _ (t : Tools) (os : Os) (bp_dispatch : ℕ) where
  unfoldable pub call : Call → Breakpoints → Breakpoints
  call (set_call address on_hit) s = state_of (set t os bp_dispatch address on_hit s)
  call (remove_call id) s = state_of (remove t os bp_dispatch id s)
  call remove_all_call s = state_of (remove_all t os bp_dispatch s)

  unfoldable pub calls : List Call → Breakpoints → Breakpoints
  calls [] s = s
  calls (c ∷ cs) s = calls cs (call c s)

-- What a call sets a breakpoint at is a site.
abbrev pub Aims : (ℕ → Type 0) → Call → Type 0
Aims Site (set_call text on_hit) = (address : ℕ) → parse_hex_addr text ≡ ok address → Site address
Aims Site _ = Unit

module _ (t : Tools) (os : Os) (bp_dispatch : ℕ) (permits : Permits t) (Site : ℕ → Type 0)
    (separate : (a b : ℕ)
      → Site a
      → Site b
      → a ≢ b
      → (a + bp_insn_size t.arch ≤ b) ⊎ (b + bp_insn_size t.arch ≤ a))
    (original : ℕ → ℕ) where
  pub call-Goes :
      (c : Call) (s : Breakpoints)
      → Aims Site c
      → s.next_bp_id + 1 < u64_mod
      → Follows t os bp_dispatch permits Site separate original s
      → Goes t os bp_dispatch permits Site separate original s (call t os bp_dispatch c s)
  unfolding call
  call-Goes (set_call text on_hit) s site small l =
      set-Goes t os bp_dispatch permits Site separate original text on_hit s site small l
  call-Goes (remove_call text) s site small l =
      remove-Goes t os bp_dispatch permits Site separate original text s l
  call-Goes remove_all_call s site small l =
      let (q, all_done, v) =
        remove_all-Cleared t os bp_dispatch permits Site separate original s l in
      rw all_done (
        Follows-empty t os bp_dispatch permits Site separate original q v.memory v.by_id
            v.by_address,
        omega (arith, v.next_bp_id),
      )

  calls-Follows :
      (cs : List Call) (s : Breakpoints)
      → All (Aims Site) cs
      → s.next_bp_id + length cs < u64_mod
      → Follows t os bp_dispatch permits Site separate original s
      → Follows t os bp_dispatch permits Site separate original (calls t os bp_dispatch cs s)
  unfolding calls
  calls-Follows [] s sites small l = l
  calls-Follows (c ∷ cs) s (site, sites) small l =
      let (l', id) = call-Goes c s site (omega arith) l in
      calls-Follows cs (call t os bp_dispatch c s) sites (omega (arith, id)) l'

-- Where mprotect does not fail and no two of the places that calls set breakpoints at share a byte
-- of a trap instruction, a script may make any calls of set, remove and removeAll, fewer than the ids
-- of 64 bits that are left, whether they return or throw: if there was no breakpoint before,
-- removeAll then succeeds, memory is what it was before the first call, and no breakpoint is left.
pub remove_all-calls :
    (t : Tools) (os : Os) (bp_dispatch : ℕ) (Site : ℕ → Type 0) (cs : List Call) (s : Breakpoints)
    → Permits t
    → ((a b : ℕ)
        → Site a
        → Site b
        → a ≢ b
        → (a + bp_insn_size t.arch ≤ b) ⊎ (b + bp_insn_size t.arch ≤ a))
    → All (Aims Site) cs
    → s.next_bp_id + length cs < u64_mod
    → s.bp_by_id ≡ []
    → s.bp_by_address ≡ []
    → (q : Breakpoints) × (remove_all t os bp_dispatch (calls t os bp_dispatch cs s) ≡ done q tt)
      × (q.process.memory ≡ s.process.memory)
      × (q.bp_by_id ≡ [])
      × (q.bp_by_address ≡ [])
remove_all-calls t os bp_dispatch Site cs s permits separate sites small none_id none_address =
    let m = s.process.memory in
    let start =
      Follows-empty t os bp_dispatch permits Site separate m s refl none_id none_address in
    let l = calls-Follows t os bp_dispatch permits Site separate m cs s sites small start in
    let (q, all_done, v) =
      remove_all-Cleared t os bp_dispatch permits Site separate m (calls t os bp_dispatch cs s) l in
    (q, all_done, v.memory, v.by_id, v.by_address)
