-- ===== src/Runtime/Counts.antt =====
-- The references that the components hold on the signal handlers, as the clean-up gives them back.
use chromatic.Base.{
  ℕ, suc, ◌+◌, ◌≡◌, refl, ap, sym, ◌∙◌, Bool, true, false, List, [], ◌∷◌, length, arith, Bool-cases,
  inl, inr,
}
use chromatic.Base.Signed.{pos, dec}
use chromatic.Platform.{Os, linux, android, darwin, windows}
use chromatic.Handlers.{Handlers, Signal, Sigaction, ref_disable, unregister_handler}
use chromatic.Handlers.Enabling.{IsPosix, Tracks, ref_disable-Tracks}
use chromatic.Monitor.{Monitors, MonitorEntry, drain_pending, stop_all, stop_monitor, disable_all}
use chromatic.Monitor.Draining.{drain_pending_keeps}
use chromatic.HwBreakpoint.{
  HwBreakpoints, HwBreakpointEntry, maybe_remove_hw_handler, release_both, is_empty,
}
use chromatic.HwBreakpoint.Requests
use chromatic.Relocator.Host.{Tools}
use chromatic.Runtime.{Program, set_protection, end_monitors, end_hw_breakpoints}

-- 1 for a component whose signal handler is installed.
abbrev pub held : Bool → ℕ
held true = 1
held false = 0

-- The registry counts `n` references, and knows the signal handlers `orig` of the process.
pub record Counts (orig : Signal → Sigaction) (n : ℕ) (h : Handlers) : Type 0 where
  pub counted : h.ref_count ≡ pos n
  pub tracks : Tracks orig h

pub unregister-Counts :
    (orig : Signal → Sigaction) (n id : ℕ) (h : Handlers)
    → Counts orig n h
    → Counts orig n (unregister_handler id h)
unfolding unregister_handler
unregister-Counts orig n id h c = record { counted = c.counted; tracks = keep c.tracks }
  where
    keep : Tracks orig h → Tracks orig (unregister_handler id h)
    keep (inl v) = inl (record { on = v.on; ours = v.ours; saved = v.saved })
    keep (inr v) = inr (record { off = v.off; original = v.original })

pub Counts-at :
    {orig : Signal → Sigaction} {m n : ℕ} {h : Handlers} → m ≡ n → Counts orig m h → Counts orig n h
Counts-at e c = rw (sym e) c

module _ (os : Os) (posix : IsPosix os) (orig : Signal → Sigaction) where
  pub ref_disable-Counts :
      (n : ℕ) (h : Handlers) → Counts orig (suc n) h → Counts orig n (ref_disable h)
  unfolding ref_disable
  ref_disable-Counts n h c = record {
    counted = ap dec c.counted;
    tracks = ref_disable-Tracks os posix orig h c.tracks;
  }

  stop_all-Counts :
      (mprotect : ℕ → ℕ → ℕ → (ℕ → ℕ) → ℕ → ℕ) (page_size n : ℕ) (ms : List (ℕ × MonitorEntry))
      (s : Monitors)
      → Counts orig (length ms + n) s.handlers
      → Counts orig n (stop_all mprotect page_size os ms s).handlers
  unfolding stop_all
  stop_all-Counts mprotect page_size n [] s c = Counts-at (omega arith) c
  stop_all-Counts mprotect page_size n ((k, m) ∷ ms) s c =
      stop_all-Counts mprotect page_size n ms (stop_monitor mprotect page_size os m s) (
        ref_disable-Counts _ _
          (unregister-Counts orig _ _ _ (unregister-Counts orig _ _ _ (Counts-at (omega arith) c))))

  pub end_monitors-Counts :
      (t : Tools) (n : ℕ) (s : Program)
      → Counts orig (length s.monitors.monitors + n) s.handlers
      → Counts orig n (end_monitors t os s).handlers
  unfolding end_monitors disable_all
  end_monitors-Counts t n s c =
      let m : Monitors = record s.monitors {
        handlers = s.handlers;
        protections = s.process.protections;
      } in
      let (handlers, monitors) = drain_pending_keeps m in
      let drained : Monitors = (drain_pending m).0 in
      stop_all-Counts (set_protection t) t.page_size n drained.monitors drained
        (rw (handlers, monitors) c)

  uninstall_keeps :
      (o : Os) (handle : ℕ) (s : HwBreakpoints)
      → ((Requests.uninstall o handle s).handlers ≡ s.handlers)
        × ((Requests.uninstall o handle s).handler_installed ≡ s.handler_installed)
  unfolding Requests.uninstall
  uninstall_keeps windows handle s = (refl, refl)
  uninstall_keeps darwin handle s = (refl, refl)
  uninstall_keeps linux handle s = (refl, refl)
  uninstall_keeps android handle s = (refl, refl)

  unset_all_keeps :
      (es : List (ℕ × HwBreakpointEntry)) (s : HwBreakpoints)
      → ((Requests.unset_all os es s).handlers ≡ s.handlers)
        × ((Requests.unset_all os es s).handler_installed ≡ s.handler_installed)
  unfolding Requests.unset_all Requests.unset release_both
  unset_all_keeps [] s = (refl, refl)
  unset_all_keeps ((id, e) ∷ es) s =
      let later = unset_all_keeps es (Requests.unset os e s) in
      let first = uninstall_keeps os e.handle s in (later.0 ∙ first.0, later.1 ∙ first.1)

  maybe_remove_hw-Counts :
      (n : ℕ) (s : HwBreakpoints)
      → s.hw_by_address ≡ []
      → Counts orig (held s.handler_installed + n) s.handlers
      → Counts orig n (maybe_remove_hw_handler s).handlers
  unfolding maybe_remove_hw_handler is_empty
  maybe_remove_hw-Counts n s none_left c = elim (Bool-cases s.handler_installed) [
    | inl on ↦
        let c' = rw on at c in
        rw (on, none_left)
          (ref_disable-Counts n _ (unregister-Counts orig _ _ _ (Counts-at (omega arith) c')))
    | inr off ↦ let c' = rw off at c in rw off (Counts-at (omega arith) c')
  ]

  pub end_hw_breakpoints-Counts :
      (n : ℕ) (s : Program)
      → Counts orig (held s.hw_breakpoints.handler_installed + n) s.handlers
      → Counts orig n (end_hw_breakpoints os s).handlers
  unfolding end_hw_breakpoints Requests.remove_all
  end_hw_breakpoints-Counts n s c =
      let h : HwBreakpoints = record s.hw_breakpoints {
        handlers = s.handlers;
        process = s.process;
      } in
      let (handlers, installed) = unset_all_keeps h.hw_by_id h in
      maybe_remove_hw-Counts n
        (record (Requests.unset_all os h.hw_by_id h) { hw_by_id = []; hw_by_address = [] }) refl
        (rw (handlers, installed) c)
