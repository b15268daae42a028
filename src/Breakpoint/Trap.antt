-- ===== src/Breakpoint/Trap.antt =====
-- What setting a breakpoint does, and what a trap makes of it.
use chromatic.Base.{
  ℕ, ◌+◌, ◌%◌, ◌≡◌, refl, ◌∙◌, ap, false, ◌∷◌, ◌==◌, Text, Option, none, lookup, assign, ok,
  Outcome, done, throw, M, pure, bind_outcome, bind-done, arith, inl, inr, Bool-cases,
}
use chromatic.Hex.{u64_mod, to_hex_addr, parse_hex_addr}
use chromatic.Platform.{Os, bp_insn_size}
use chromatic.Relocator.{read_bytes, write_bytes, make_writable_and_patch, build_relocated_code}
use chromatic.Relocator.Host.{Tools, Process}
use chromatic.Relocator.Trampoline.{build_trampoline}
use chromatic.Relocator.Build.{
  Added, build_relocated_code-Added, build_trampoline-Added, Patched,
  make_writable_and_patch-Patched,
}
use chromatic.Breakpoint.{
  BreakpointEntry, Breakpoints, set, refuse_set, ensure_handler_installed, on_process, register,
  new_entry, trampoline_or_release, release, bp_insn,
}

-- What the new breakpoint `e` changes: `s` before it, `s'` behind it.
pub record HasBreakpoint (t : Tools) (s s' : Breakpoints) (address : ℕ) (e : BreakpointEntry)
    : Type 0 where
  pub free : lookup address s.bp_by_address ≡ none
  pub aimed : e.address ≡ address
  pub saved : e.original_bytes ≡ read_bytes s.process.memory address (bp_insn_size t.arch)
  pub memory : s'.process.memory ≡ write_bytes address (bp_insn t.arch) s.process.memory
  pub live : s'.process.live ≡ e.trampoline_code ∷ e.relocated_code ∷ s.process.live
  pub trampoline : (e.trampoline_code == 0) ≡ false
  pub relocated : (e.relocated_code == 0) ≡ false
  pub by_id : s'.bp_by_id ≡ assign s.next_bp_id e s.bp_by_id
  pub by_address : s'.bp_by_address ≡ assign address e s.bp_by_address
  pub fresh : e.ptr ≡ s.next_ptr
  pub next_bp_id : s'.next_bp_id ≡ (s.next_bp_id + 1) % u64_mod
  pub next_ptr : s'.next_ptr ≡ s.next_ptr + 1

on_process-done :
    {A : Type 0} (m : M Process A) (s s' : Breakpoints) (a : A)
    → on_process m s ≡ done s' a
    → (p : Process) × (m s.process ≡ done p a) × (record s { process = p } ≡ s')
unfolding on_process
on_process-done {A} m s s' a h = of_outcome (m s.process) refl h
  where
    of_outcome :
        (o : Outcome Process A)
        → m s.process ≡ o
        → (elim o [
          | done p a ↦ done (record s { process = p }) a
          | throw p e ↦ throw (record s { process = p }) e
        ])
          ≡ done s' a
        → (p : Process) × (m s.process ≡ done p a) × (record s { process = p } ≡ s')
    of_outcome (done p b) e h = (p, cc, cc)
    of_outcome (throw p x) e h = cc

refuse_set-done :
    (address : ℕ) (text : Text) (s s' : Breakpoints) (u : Unit {0})
    → refuse_set address text s ≡ done s' u
    → (lookup address s.bp_by_address ≡ none) × (s ≡ s')
unfolding refuse_set
refuse_set-done address text s s' u h = ground arith

-- The first breakpoint installs the handler, and nothing else changes.
pub record Ensured (s s' : Breakpoints) : Type 0 where
  pub process : s'.process ≡ s.process
  pub next_bp_id : s'.next_bp_id ≡ s.next_bp_id
  pub by_id : s'.bp_by_id ≡ s.bp_by_id
  pub by_address : s'.bp_by_address ≡ s.bp_by_address
  pub next_ptr : s'.next_ptr ≡ s.next_ptr

pub ensure-Ensured : (os : Os) (s : Breakpoints) → Ensured s (ensure_handler_installed os s)
unfolding ensure_handler_installed
ensure-Ensured os s = elim (Bool-cases s.handler_installed) [
  | inl e ↦ rw e (record {
    process = refl;
    next_bp_id = refl;
    by_id = refl;
    by_address = refl;
    next_ptr = refl;
  })
  | inr e ↦ rw e (record {
    process = refl;
    next_bp_id = refl;
    by_id = refl;
    by_address = refl;
    next_ptr = refl;
  })
]

-- The states between the steps of set, and what each step did; `s₁` has the handler installed.
HasBreakpoint-of_steps :
    (t : Tools) (s s₁ s₂ s₃ s₄ s' : Breakpoints) (p₂ p₃ p₄ : Process) (address : ℕ)
    (e : BreakpointEntry)
    → Ensured s s₁
    → lookup address s.bp_by_address ≡ none
    → e.address ≡ address
    → e.original_bytes ≡ read_bytes s₁.process.memory address (bp_insn_size t.arch)
    → e.ptr ≡ s₁.next_ptr
    → Added s₁.process p₂ e.relocated_code
    → record s₁ { next_ptr = s₁.next_ptr + 1; process = p₂ } ≡ s₂
    → Added s₂.process p₃ e.trampoline_code
    → record s₂ { process = p₃ } ≡ s₃
    → Patched s₃.process p₄ address (bp_insn t.arch)
    → record s₃ { process = p₄ } ≡ s₄
    → record s₄ {
      next_bp_id = (s₄.next_bp_id + 1) % u64_mod;
      bp_by_id = assign s₄.next_bp_id e s₄.bp_by_id;
      bp_by_address = assign e.address e s₄.bp_by_address;
    }
      ≡ s'
    → HasBreakpoint t s s' address e
HasBreakpoint-of_steps t s s₁ s₂ s₃ s₄ s' p₂ p₃ p₄ address e v free aimed saved fresh a₂ q₂ a₃ q₃ a₄
      q₄ q' =
    record {
      free = free;
      aimed = aimed;
      saved = rw v.process at saved;
      memory = ground (arith, v.process);
      live = ground (arith, v.process);
      trampoline = a₃.not_null;
      relocated = a₂.not_null;
      by_id = ground (arith, v.by_id, v.next_bp_id);
      by_address = ground (arith, v.by_address);
      fresh = fresh ∙ v.next_ptr;
      next_bp_id = ground (arith, v.next_bp_id);
      next_ptr = ground (arith, v.next_ptr);
    }

registered :
    (e : BreakpointEntry) (s s' : Breakpoints) (id : Text)
    → bind_outcome (register e s) (λ n. pure {S = Breakpoints} (to_hex_addr n)) ≡ done s' id
    → (record s {
      next_bp_id = (s.next_bp_id + 1) % u64_mod;
      bp_by_id = assign s.next_bp_id e s.bp_by_id;
      bp_by_address = assign e.address e s.bp_by_address;
    }
        ≡ s')
      × (id ≡ to_hex_addr s.next_bp_id)
unfolding register
registered e s s' id h = (cc, cc)

same_next_id :
    (s s₁ s₂ s₃ s₄ : Breakpoints) (p₂ p₃ p₄ : Process)
    → Ensured s s₁
    → record s₁ { next_ptr = s₁.next_ptr + 1; process = p₂ } ≡ s₂
    → record s₂ { process = p₃ } ≡ s₃
    → record s₃ { process = p₄ } ≡ s₄
    → s₄.next_bp_id ≡ s.next_bp_id
same_next_id s s₁ s₂ s₃ s₄ p₂ p₃ p₄ v q₂ q₃ q₄ = ground (arith, v.next_bp_id)

module _ (t : Tools) (os : Os) (bp_dispatch : ℕ) where
  trampoline_or_release-done :
      (user relocated : ℕ) (s s' : Breakpoints) (code : ℕ)
      → trampoline_or_release t os bp_dispatch user relocated s ≡ done s' code
      → (p : Process) × Added s.process p code × (record s { process = p } ≡ s')
  unfolding trampoline_or_release
  trampoline_or_release-done user relocated s s' code h =
      of_outcome (on_process (build_trampoline t os bp_dispatch none user relocated) s) refl h
    where
      of_outcome :
          (o : Outcome Breakpoints ℕ)
          → on_process (build_trampoline t os bp_dispatch none user relocated) s ≡ o
          → (elim o [ done s₁ c ↦ done s₁ c | throw s₁ e ↦ throw (release relocated s₁) e ])
            ≡ done s' code
          → (p : Process) × Added s.process p code × (record s { process = p } ≡ s')
      of_outcome (done s₁ c) e h =
          let e' : on_process (build_trampoline t os bp_dispatch none user relocated) s
              ≡ done s' code =
            cc in
          let (p, b, q) =
            on_process-done (build_trampoline t os bp_dispatch none user relocated) s s' code e' in
          (p, build_trampoline-Added t os bp_dispatch none user relocated s.process p code b, q)
      of_outcome (throw s₁ x) e h = cc

  -- What follows once the handler is installed.
  pub set-HasBreakpoint :
      (text : Text) (on_hit : Option ℕ) (s s' : Breakpoints) (address : ℕ) (id : Text)
      → parse_hex_addr text ≡ ok address
      → set t os bp_dispatch text on_hit s ≡ done s' id
      → (e : BreakpointEntry) × HasBreakpoint t s s' address e × (id ≡ to_hex_addr s.next_bp_id)
  unfolding set new_entry
  set-HasBreakpoint text on_hit s s' address id parsed h =
      let h₁ = rw (parsed, set) at h in
      let (s₀, u₀, e₀, k₀) = bind-done (refuse_set address text s) _ h₁ in
      let (free, q₀) = refuse_set-done address text s s₀ u₀ e₀ in
      let k₁ = rw (← q₀) at k₀ in
      let n : ℕ = bp_insn_size t.arch in
      let s₁ : Breakpoints = ensure_handler_installed os s in
      let s⁺ : Breakpoints = record s₁ { next_ptr = s₁.next_ptr + 1 } in
      let (s₂, r, e₂, k₂) = bind-done (on_process (build_relocated_code t address n) s⁺) _ k₁ in
      let (p₂, b₂, q₂) = on_process-done (build_relocated_code t address n) s⁺ s₂ r e₂ in
      let (s₃, code, e₃, k₃) =
        bind-done (trampoline_or_release t os bp_dispatch s₁.next_ptr r.0 s₂) _ k₂ in
      let (p₃, a₃, q₃) = trampoline_or_release-done s₁.next_ptr r.0 s₂ s₃ code e₃ in
      let bytes = bp_insn t.arch in
      let (s₄, u₄, e₄, k₄) =
        bind-done (on_process (make_writable_and_patch t address bytes) s₃) _ k₃ in
      let (p₄, b₄, q₄) = on_process-done (make_writable_and_patch t address bytes) s₃ s₄ u₄ e₄ in
      let entry : BreakpointEntry = record {
        ptr = s₁.next_ptr;
        address = address;
        original_bytes = read_bytes s₁.process.memory address n;
        original_insn_size = r.1;
        trampoline_code = code;
        relocated_code = r.0;
        on_hit = on_hit;
      } in
      let (k₅, text₅) = registered entry s₄ s' id k₄ in
      (
        entry,
        HasBreakpoint-of_steps t s s₁ s₂ s₃ s₄ s' p₂ p₃ p₄ address entry (ensure-Ensured os s) free
            refl refl refl (build_relocated_code-Added t address n s₁.process p₂ r b₂) q₂ a₃ q₃
            (make_writable_and_patch-Patched t address bytes s₃.process p₄ b₄) q₄ k₅,
        text₅ ∙ ap to_hex_addr (same_next_id s s₁ s₂ s₃ s₄ p₂ p₃ p₄ (ensure-Ensured os s) q₂ q₃ q₄),
      )
