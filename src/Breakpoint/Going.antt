-- ===== src/Breakpoint/Going.antt =====
-- Each call on the breakpoints while both maps of breakpoints and the code under them are tracked.
use chromatic.Base.{
  ℕ, ◌+◌, ◌<◌, ◌≤◌, ◌≡◌, ◌≢◌, ◌⊎◌, ◌||◌, not, refl, ◌∙◌, ap, sym, List, [], ◌∷◌, Text, Option, none,
  some, lookup, assign, erase, ok, err, Outcome, done, throw, Result, arith, state_of, inl, inr,
  Bool-cases,
}
use chromatic.Hex.{u64_mod, parse_hex_addr}
use chromatic.Platform.{Os, bp_insn_size}
use chromatic.Relocator.{write_bytes, release_code}
use chromatic.Relocator.Host.{Tools, Process}
use chromatic.Relocator.Build.{
  Permits, make_writable_and_patch_total, make_writable_and_patch-Patched, release_code-memory,
}
use chromatic.Relocator.Table.{put_back}
use chromatic.Relocator.Ledger.{Ledger, Ledger-empty, Ledger-drop, Ledger-later, Ledger-add}
use chromatic.Breakpoint.{
  BreakpointEntry, Breakpoints, set, remove, remove_all, unset, unset_all, maybe_remove_handler,
  bp_insn, is_empty,
}
use chromatic.Breakpoint.Failure.{Kept, set-Kept}
use chromatic.Breakpoint.Trap.{HasBreakpoint, set-HasBreakpoint}
use chromatic.Breakpoint.RoundTrip.{unset_of_patch, remove_of_unset, length-bp_insn}

-- Taking a breakpoint's trap away writes its original bytes; the maps stay.
unset-written :
    (t : Tools) (os : Os) (bp_dispatch : ℕ)
    → Permits t
    → (e : BreakpointEntry) (s : Breakpoints)
    → (p : Process) × (unset t os bp_dispatch e s ≡ done (record s { process = p }) tt)
      × (p.memory ≡ write_bytes e.address e.original_bytes s.process.memory)
unset-written t os bp_dispatch permits e s =
    let (p, patched) =
      make_writable_and_patch_total t permits e.address e.original_bytes s.process in
    let after : Process = release_code e.trampoline_code p in
    (
      release_code e.relocated_code after,
      unset_of_patch t os bp_dispatch e s p patched,
      release_code-memory e.relocated_code after
          ∙ (release_code-memory e.trampoline_code p
              ∙ (make_writable_and_patch-Patched t e.address e.original_bytes s.process p
                  patched).memory),
    )

abbrev pub place : BreakpointEntry → ℕ
place e = e.address

abbrev pub kept_bytes : BreakpointEntry → List ℕ
kept_bytes e = e.original_bytes

abbrev pub ptr_of : BreakpointEntry → ℕ
ptr_of e = e.ptr

module _ (t : Tools) (os : Os) (bp_dispatch : ℕ) (permits : Permits t) (Site : ℕ → Type 0)
    (separate : (a b : ℕ)
      → Site a
      → Site b
      → a ≢ b
      → (a + bp_insn_size t.arch ≤ b) ⊎ (b + bp_insn_size t.arch ≤ a))
    (original : ℕ → ℕ) where
  -- Both maps hold the same breakpoints, at sites, and writing the saved bytes back restores
  -- `original`.
  abbrev pub Follows : Breakpoints → Type 0
  Follows s =
      Ledger place kept_bytes ptr_of (bp_insn_size t.arch) Site original s.process.memory s.bp_by_id
        s.bp_by_address s.next_bp_id s.next_ptr

  abbrev pub Goes : Breakpoints → Breakpoints → Type 0
  Goes s s' = Follows s' × (s'.next_bp_id ≤ s.next_bp_id + 1)

  Goes-stay : (s : Breakpoints) → Follows s → Goes s s
  Goes-stay s l = (l, omega arith)

  Goes-Kept : (s s' : Breakpoints) → Kept s s' → Follows s → Goes s s'
  Goes-Kept s s' k l = (
    rw (k.memory, k.by_id, k.by_address, k.next_bp_id)
        (Ledger-later place kept_bytes ptr_of (bp_insn_size t.arch) Site separate original _ _ _ _ _
          l s.next_bp_id s'.next_ptr (omega arith) k.next_ptr),
    omega (arith, k.next_bp_id),
  )

  Goes-HasBreakpoint :
      (s s' : Breakpoints) (address : ℕ) (e : BreakpointEntry)
      → HasBreakpoint t s s' address e
      → Site address
      → s.next_bp_id + 1 < u64_mod
      → Follows s
      → Goes s s'
  Goes-HasBreakpoint s s' address e h site small l =
      let id : s'.next_bp_id ≡ s.next_bp_id + 1 = omega (arith, h.next_bp_id) in
      let memory =
        h.memory ∙ ap (λ x. write_bytes x (bp_insn t.arch) s.process.memory) (sym h.aimed) in
      let by_address = h.by_address ∙ ap (λ x. assign x e s.bp_by_address) (sym h.aimed) in
      (
        rw (memory, h.by_id, by_address, id, h.next_ptr)
            (Ledger-add place kept_bytes ptr_of (bp_insn_size t.arch) Site separate original
              s.process.memory s.bp_by_id s.bp_by_address s.next_bp_id s.next_ptr l e
              (bp_insn t.arch) (rw h.aimed h.free) (rw h.aimed site) (rw h.aimed h.saved)
              (length-bp_insn t.arch) h.fresh),
        omega (arith, id),
      )

  -- The handler may go; nothing else changes.
  maybe_remove-Goes : (s s' : Breakpoints) → Goes s s' → Goes s (maybe_remove_handler s')
  unfolding maybe_remove_handler
  maybe_remove-Goes s s' g =
      elim (Bool-cases (not s'.handler_installed || not (is_empty s'.bp_by_address))) [
        | inl stays ↦ rw stays g
        | inr goes ↦ rw goes g
      ]

  pub set-Goes :
      (text : Text) (on_hit : Option ℕ) (s : Breakpoints)
      → ((address : ℕ) → parse_hex_addr text ≡ ok address → Site address)
      → s.next_bp_id + 1 < u64_mod
      → Follows s
      → Goes s (state_of (set t os bp_dispatch text on_hit s))
  unfolding set
  set-Goes text on_hit s site small l =
      of_result (parse_hex_addr text) (set t os bp_dispatch text on_hit s) refl refl
    where
      of_result :
          (r : Result ℕ) (o : Outcome Breakpoints Text)
          → parse_hex_addr text ≡ r
          → set t os bp_dispatch text on_hit s ≡ o
          → Goes s (state_of o)
      of_result (err x) (done s' id) parsed h = let h' = rw (parsed, set) at h in cc
      of_result (ok address) (done s' id) parsed h =
          let (e, v, named) =
            set-HasBreakpoint t os bp_dispatch text on_hit s s' address id parsed h in
          Goes-HasBreakpoint s s' address e v (site address parsed) small l
      of_result r (throw s' x) parsed h =
          Goes-Kept s s' (rw h at (set-Kept s t os bp_dispatch text on_hit permits)) l

  pub remove-Goes :
      (text : Text) (s : Breakpoints)
      → Follows s
      → Goes s (state_of (remove t os bp_dispatch text s))
  unfolding remove
  remove-Goes text s l = of_result (parse_hex_addr text) refl
    where
      of_found :
          (id : ℕ) (o : Option BreakpointEntry)
          → parse_hex_addr text ≡ ok id
          → lookup id s.bp_by_id ≡ o
          → Goes s (state_of (remove t os bp_dispatch text s))
      of_found id none parsed found = rw (remove, parsed, found) (Goes-stay s l)
      of_found id (some e) parsed found =
          let (p, gone, written) = unset-written t os bp_dispatch permits e s in
          let dropped =
            Ledger-drop place kept_bytes ptr_of (bp_insn_size t.arch) Site separate original _ _ _ _
              _ l id e found in
          rw
            (remove_of_unset t os bp_dispatch text id e s (record s { process = p }) parsed found
              gone)
            (maybe_remove-Goes s
              (record s {
                process = p;
                bp_by_address = erase e.address s.bp_by_address;
                bp_by_id = erase id s.bp_by_id;
              })
              (rw written dropped, omega arith))

      of_result :
          (r : Result ℕ)
          → parse_hex_addr text ≡ r
          → Goes s (state_of (remove t os bp_dispatch text s))
      of_result (err x) parsed = rw (remove, parsed) (Goes-stay s l)
      of_result (ok id) parsed = of_found id (lookup id s.bp_by_id) parsed refl

  -- Taking all breakpoints away writes all saved bytes back.
  unset_all-written :
      (es : List (ℕ × BreakpointEntry)) (s : Breakpoints)
      → (p : Process) × (unset_all t os bp_dispatch es s ≡ done (record s { process = p }) tt)
        × (p.memory ≡ put_back place kept_bytes ptr_of (bp_insn_size t.arch) es s.process.memory)
  unfolding unset_all put_back
  unset_all-written [] s = (s.process, refl, refl)
  unset_all-written ((id, e) ∷ es) s =
      let (p, gone, written) = unset-written t os bp_dispatch permits e s in
      let (q, rest, written') = unset_all-written es (record s { process = p }) in
      (q, rw (gone, rest) refl, rw (← written) written')

  pub Follows-empty :
      (s : Breakpoints)
      → s.process.memory ≡ original
      → s.bp_by_id ≡ []
      → s.bp_by_address ≡ []
      → Follows s
  Follows-empty s same none_id none_address =
      rw (same, none_id, none_address)
        (Ledger-empty place kept_bytes ptr_of (bp_insn_size t.arch) Site original s.next_bp_id
          s.next_ptr)

  -- What is left when all breakpoints are taken away.
  pub record Cleared (s q : Breakpoints) : Type 0 where
    pub memory : q.process.memory ≡ original
    pub by_id : q.bp_by_id ≡ []
    pub by_address : q.bp_by_address ≡ []
    pub next_bp_id : q.next_bp_id ≡ s.next_bp_id

  maybe_remove-Cleared : (s q : Breakpoints) → Cleared s q → Cleared s (maybe_remove_handler q)
  unfolding maybe_remove_handler
  maybe_remove-Cleared s q v = ground (arith, v.memory, v.by_id, v.by_address, v.next_bp_id)

  pub remove_all-Cleared :
      (s : Breakpoints)
      → Follows s
      → (q : Breakpoints) × (remove_all t os bp_dispatch s ≡ done q tt) × Cleared s q
  unfolding remove_all
  remove_all-Cleared s l =
      let (p, gone, written) = unset_all-written s.bp_by_id s in
      let emptied : Breakpoints = record s { process = p; bp_by_id = []; bp_by_address = [] } in
      (
        maybe_remove_handler emptied,
        rw (remove_all, gone) refl,
        maybe_remove-Cleared s emptied (record {
          memory = written ∙ l.restored;
          by_id = refl;
          by_address = refl;
          next_bp_id = refl;
        }),
      )
