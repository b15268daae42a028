-- ===== src/Breakpoint/Frames.antt =====
-- What the steps of set keep, for any property of the breakpoints that they keep one by one.
use chromatic.Base.{
  Option, Text, ℕ, ◌+◌, ◌≡◌, none, some, Outcome, done, throw, pure, M, state_of, bind_outcome,
  lift, lookup, runtime_error, codes, ◌++◌,
}
use chromatic.Base.Triples.{Gives, Gives-bind_outcome, Gives-lift}
use chromatic.Hex.{parse_hex_addr, to_hex_addr}
use chromatic.Platform.{Os, bp_insn_size}
use chromatic.Relocator.{read_bytes, make_writable_and_patch, build_relocated_code, release_code}
use chromatic.Relocator.Host.{Tools, Process}
use chromatic.Relocator.Trampoline.{build_trampoline}
use chromatic.Relocator.Build.{
  build_relocated_code-memory, build_trampoline-memory, release_code-memory,
}
use chromatic.Breakpoint.{
  BreakpointEntry, Breakpoints, set, on_process, new_entry, refuse_set, register, release,
  trampoline_or_release, ensure_handler_installed, bp_insn,
}

module _ (P Q : Breakpoints → Type 0) (t : Tools) (os : Os) where
  -- `P` stays true while the live code changes, the handler is installed and an entry is made; writing
  -- the trap and registering the entry leads from `P` to `Q`, or to `P` where it throws.
  pub record Framed : Type 0 where
    pub process :
        (s : Breakpoints) (p : Process)
        → P s
        → p.memory ≡ s.process.memory
        → P (record s { process = p })
    pub ensure : (s : Breakpoints) → P s → P (ensure_handler_installed os s)
    pub entry : (s : Breakpoints) → P s → P (record s { next_ptr = s.next_ptr + 1 })
    pub last :
        (address : ℕ) (e : BreakpointEntry) (s : Breakpoints)
        → P s
        → Gives P
            (λ (_ : Text). Q)
            (bind_outcome
              (on_process (make_writable_and_patch t address (bp_insn t.arch)) s)
              λ _ s₁. bind_outcome (register e s₁) (λ id. pure {S = Breakpoints} (to_hex_addr id)))

  module _ (f : Framed) where
    on_process-Gives :
        {A : Type 0} (m : M Process A) (s : Breakpoints)
        → P s
        → (state_of (m s.process)).memory ≡ s.process.memory
        → Gives P (λ (_ : A). P) (on_process m s)
    unfolding on_process
    on_process-Gives {A} m s k h = of_outcome (m s.process) h
      where
        of_outcome :
            (o : Outcome Process A)
            → (state_of o).memory ≡ s.process.memory
            → Gives P
                (λ (_ : A). P)
                (elim o [
                  | done p a ↦ done (record s { process = p }) a
                  | throw p e ↦ throw (record s { process = p }) e
                ])
        of_outcome (done p a) h' = f.process s p k h'
        of_outcome (throw p e) h' = f.process s p k h'

    refuse_set-Gives :
        (address : ℕ) (text : Text) (s : Breakpoints)
        → P s
        → Gives P (λ _. P) (refuse_set address text s)
    unfolding refuse_set
    refuse_set-Gives address text s k = of_lookup (lookup address s.bp_by_address)
      where
        of_lookup :
            (o : Option BreakpointEntry)
            → Gives {A = Unit {0}} P
                (λ _. P)
                (elim o [
                  | some e ↦
                      throw s (runtime_error (codes "Software breakpoint already set at " ++ text))
                  | none ↦ done s tt
                ])
        of_lookup none = k
        of_lookup (some e) = k

    trampoline_or_release-Gives :
        (bp_dispatch user relocated : ℕ) (s : Breakpoints)
        → P s
        → Gives P (λ (_ : ℕ). P) (trampoline_or_release t os bp_dispatch user relocated s)
    unfolding trampoline_or_release release
    trampoline_or_release-Gives bp_dispatch user relocated s k =
        of_outcome (on_process (build_trampoline t os bp_dispatch none user relocated) s) (
          on_process-Gives (build_trampoline t os bp_dispatch none user relocated) s k
            (build_trampoline-memory t os bp_dispatch none user relocated s.process))
      where
        of_outcome :
            (o : Outcome Breakpoints ℕ)
            → Gives P (λ (_ : ℕ). P) o
            → Gives P
                (λ (_ : ℕ). P)
                (elim o [
                  | done s' code ↦ done s' code
                  | throw s' e ↦ throw (release relocated s') e
                ])
        of_outcome (done s' code) h = h
        of_outcome (throw s' e) h =
            f.process s' (release_code relocated s'.process) h
              (release_code-memory relocated s'.process)

    pub set-Gives :
        (bp_dispatch : ℕ) (text : Text) (on_hit : Option ℕ) (s : Breakpoints)
        → P s
        → Gives P (λ _. Q) (set t os bp_dispatch text on_hit s)
    unfolding set new_entry
    set-Gives bp_dispatch text on_hit s k =
        Gives-bind_outcome P (λ _. P) (λ _. Q) (lift (parse_hex_addr text) s) _
          (Gives-lift P (λ _. P) (parse_hex_addr text) s k (λ a h. k))
          λ address s₁ k₁.
            Gives-bind_outcome P (λ _. P) (λ _. Q) (refuse_set address text s₁) _
              (refuse_set-Gives address text s₁ k₁)
              λ u s₂ k₂.
                Gives-bind_outcome P (λ _. P) (λ _. Q)
                  (on_process (build_relocated_code t address n) (started s₂)) _
                  (on_process-Gives (build_relocated_code t address n) (started s₂)
                    (f.entry (ensure_handler_installed os s₂) (f.ensure s₂ k₂))
                    (build_relocated_code-memory t address n (started s₂).process))
                  λ r s₃ k₃.
                    Gives-bind_outcome P (λ _. P) (λ _. Q)
                      (trampoline_or_release t os bp_dispatch
                        (ensure_handler_installed os s₂).next_ptr r.0 s₃)
                      _
                      (trampoline_or_release-Gives bp_dispatch
                        (ensure_handler_installed os s₂).next_ptr r.0 s₃ k₃)
                      λ code s₄ k₄.
                        f.last address
                          (record {
                            ptr = (ensure_handler_installed os s₂).next_ptr;
                            address = address;
                            original_bytes =
                                read_bytes (ensure_handler_installed os s₂).process.memory address
                                  n;
                            original_insn_size = r.1;
                            trampoline_code = code;
                            relocated_code = r.0;
                            on_hit = on_hit;
                          })
                          s₄ k₄
      where
        n : ℕ
        n = bp_insn_size t.arch

        -- The state behind the first steps, which do not throw.
        started : Breakpoints → Breakpoints
        started s₂ = record (ensure_handler_installed os s₂) {
          next_ptr = (ensure_handler_installed os s₂).next_ptr + 1;
        }
