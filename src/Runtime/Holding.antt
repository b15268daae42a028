-- ===== src/Runtime/Holding.antt =====
-- The reference and the handler of the software breakpoints in the registry, over the steps of the calls.
use chromatic.Base.{
  ℕ, suc, ◌+◌, ◌≤◌, ◌≡◌, refl, ap, ◌∙◌, true, List, [], ◌∷◌, Outcome, done, throw, M, arith,
  Bool-cases, inl, inr,
}
use chromatic.Base.Signed.{inc, is_zero}
use chromatic.Base.Triples.{Gives, Gives-bind_outcome}
use chromatic.Platform.{Os}
use chromatic.Handlers.{
  Handlers, HandlerEntry, Signal, Sigaction, ExceptionType, Callback, ref_enable, register_handler,
  install_posix,
}
use chromatic.Handlers.Enabling.{IsPosix, Tracks, ref_enable-Tracks, install_lem}
use chromatic.Relocator.{make_writable_and_patch}
use chromatic.Relocator.Host.{Tools, Process}
use chromatic.Breakpoint.{
  BreakpointEntry, Breakpoints, on_process, register, ensure_handler_installed,
  maybe_remove_handler, is_empty, unset, unset_all, release, bp_insn,
}
use chromatic.Breakpoint.Registered.{
  Registered, Listed-mono, ensure-Registered, maybe_remove-Registered,
}
use chromatic.Breakpoint.Frames.{Framed}
use chromatic.Runtime.Counts.{held, Counts, Counts-at, unregister-Counts, ref_disable-Counts}

module _ (os : Os) (posix : IsPosix os) (orig : Signal → Sigaction) where
  ref_count-ref_enable : (h : Handlers) → (ref_enable os h).ref_count ≡ inc h.ref_count
  unfolding ref_enable install_posix
  ref_count-ref_enable h = elim (Bool-cases (is_zero h.ref_count)) [
    | inr z ↦ rw (ref_enable, z) refl
    | inl z ↦ elim (Bool-cases h.enabled) [
      | inl on ↦ rw (ref_enable, z, on) refl
      | inr off ↦
          rw (ref_enable, z, off)
            (ap (λ (x : Handlers). x.ref_count)
              (install_lem os posix (record h { ref_count = inc h.ref_count; enabled = true })))
    ]
  ]

  ref_enable-Counts :
      (n : ℕ) (h : Handlers) → Counts orig n h → Counts orig (suc n) (ref_enable os h)
  ref_enable-Counts n h c = record {
    counted = ref_count-ref_enable h ∙ ap inc c.counted;
    tracks = ref_enable-Tracks os posix orig h c.tracks;
  }

  register-Counts :
      (n : ℕ) (type : ExceptionType) (callback : Callback) (h : Handlers)
      → Counts orig n h
      → Counts orig n (register_handler type callback h)
  unfolding register_handler
  register-Counts n type callback h c = record { counted = c.counted; tracks = keep c.tracks }
    where
      keep : Tracks orig h → Tracks orig (register_handler type callback h)
      keep (inl v) = inl (record { on = v.on; ours = v.ours; saved = v.saved })
      keep (inr v) = inr (record { off = v.off; original = v.original })

  ensure-Counts :
      (n : ℕ) (s : Breakpoints)
      → Counts orig (held s.handler_installed + n) s.handlers
      → let q = ensure_handler_installed os s in
        Counts orig (held q.handler_installed + n) q.handlers
  unfolding ensure_handler_installed
  ensure-Counts n s c = elim (Bool-cases s.handler_installed) [
    | inl on ↦ let c' = rw on at c in rw on c'
    | inr off ↦ rw off (
        Counts-at (omega arith) (
          register-Counts (suc n) _ _ _
            (ref_enable-Counts n s.handlers (Counts-at (omega arith) (rw off at c)))))
  ]

  maybe_remove-held :
      (n : ℕ) (s : Breakpoints)
      → Counts orig (held s.handler_installed + n) s.handlers
      → let q = maybe_remove_handler s in Counts orig (held q.handler_installed + n) q.handlers
  unfolding maybe_remove_handler
  maybe_remove-held n s c = elim (Bool-cases s.handler_installed) [
    | inr off ↦ let c' = rw off at c in rw off c'
    | inl on ↦ elim (Bool-cases (is_empty s.bp_by_address)) [
      | inr some_left ↦ rw (on, some_left) (rw on at c)
      | inl none_left ↦
          rw (on, none_left)
            (Counts-at (omega arith) (
              ref_disable-Counts os posix orig n _
                (unregister-Counts orig _ _ _ (Counts-at (omega arith) (rw on at c)))))
    ]
  ]

  module _ (base : List HandlerEntry) (n : ℕ) where
    -- The registry counts `n` references and has the handlers `base` beside those of the breakpoints.
    abbrev pub Uses : ℕ → ℕ → Breakpoints → Type 0
    Uses off on s = Counts orig (held s.handler_installed + n) s.handlers × Registered base off on s

    pub Uses-mono :
        (off on off' on' : ℕ) (s : Breakpoints)
        → off' ≤ off
        → on' ≤ on
        → Uses off on s
        → Uses off' on' s
    Uses-mono off on off' on' s le le' (c, r) = (
      c,
      Listed-mono base off on off' on' s.handler_installed s.sigtrap_handler_id s.handlers le le' r,
    )

    ensure-Uses :
        (k : ℕ) (s : Breakpoints)
        → Uses (suc k) k s
        → Uses (suc k) k (ensure_handler_installed os s)
    ensure-Uses k s (c, r) = (ensure-Counts n s c, ensure-Registered base os k s r)

    module _ (off on : ℕ) where
      pub on_process-Uses :
          {A : Type 0} (m : M Process A) (s : Breakpoints)
          → Uses off on s
          → Gives (Uses off on) (λ (_ : A). Uses off on) (on_process m s)
      unfolding on_process
      on_process-Uses {A} m s c = of_outcome (m s.process)
        where
          of_outcome :
              (o : Outcome Process A)
              → Gives
                  (Uses off on)
                  (λ (_ : A). Uses off on)
                  (elim o [
                    | done p a ↦ done (record s { process = p }) a
                    | throw p e ↦ throw (record s { process = p }) e
                  ])
          of_outcome (done p a) = c
          of_outcome (throw p e) = c

    pub Uses-Framed : (t : Tools) (k : ℕ) → Framed (Uses (suc k) k) (Uses (suc k) k) t os
    unfolding register
    Uses-Framed t k = record {
      process = λ s p c h. c;
      ensure = ensure-Uses k;
      entry = λ s c. c;
      last = λ address e s c.
          Gives-bind_outcome (Uses (suc k) k) (λ _. Uses (suc k) k) (λ _. Uses (suc k) k)
            (on_process (make_writable_and_patch t address (bp_insn t.arch)) s) _
            (on_process-Uses (suc k) k (make_writable_and_patch t address (bp_insn t.arch)) s c)
            (λ u s₁ c₁. c₁);
    }

    module _ (k : ℕ) (t : Tools) (bp_dispatch : ℕ) where
      pub unset-Uses :
          (e : BreakpointEntry) (s : Breakpoints)
          → Uses k k s
          → Gives (Uses k k) (λ _. Uses k k) (unset t os bp_dispatch e s)
      unfolding unset release
      unset-Uses e s c =
          Gives-bind_outcome (Uses k k) (λ _. Uses k k) (λ _. Uses k k)
            (on_process (make_writable_and_patch t e.address e.original_bytes) s) _
            (on_process-Uses k k (make_writable_and_patch t e.address e.original_bytes) s c)
            (λ u s₁ c₁. c₁)

      pub unset_all-Uses :
          (es : List (ℕ × BreakpointEntry)) (s : Breakpoints)
          → Uses k k s
          → Gives (Uses k k) (λ _. Uses k k) (unset_all t os bp_dispatch es s)
      unfolding unset_all
      unset_all-Uses [] s c = c
      unset_all-Uses ((id, e) ∷ es) s c =
          Gives-bind_outcome (Uses k k) (λ _. Uses k k) (λ _. Uses k k) (unset t os bp_dispatch e s)
            _ (unset-Uses e s c) (λ u s₁ c₁. unset_all-Uses es s₁ c₁)

      pub maybe_remove-Uses : (s : Breakpoints) → Uses k k s → Uses k k (maybe_remove_handler s)
      maybe_remove-Uses s (c, r) = (maybe_remove-held n s c, maybe_remove-Registered base k s r)
