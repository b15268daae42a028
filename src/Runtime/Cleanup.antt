-- ===== src/Runtime/Cleanup.antt =====
-- The state that runtime::cleanup leaves.
use chromatic.Base.{ℕ, ◌+◌, ◌≡◌, refl, false, [], length, arith, done}
use chromatic.Base.Signed.{pos}
use chromatic.Platform.{Os}
use chromatic.Handlers.{Signal, Sigaction, remove_all_callbacks, disable}
use chromatic.Handlers.Enabling.{IsPosix, Tracks}
use chromatic.Relocator.Host.{Tools}
use chromatic.Relocator.Build.{Permits}
use chromatic.Runtime.{Program, end_monitors, end_hw_breakpoints, cleanup}
use chromatic.Runtime.Counts.{
  held, Counts, Counts-at, end_monitors-Counts, end_hw_breakpoints-Counts,
}
use chromatic.Runtime.Steps.{
  end_monitors-empty, end_hw_breakpoints-empty, disable-released, end_breakpoints_total,
  end_hooks_total,
}

-- No monitor, breakpoint, hook or callback is registered, and the kernel's table of signal handlers is `orig`.
pub record IsClean (orig : Signal → Sigaction) (s : Program) : Type 0 where
  pub monitors : s.monitors.monitors ≡ []
  pub hw_by_id : s.hw_breakpoints.hw_by_id ≡ []
  pub hw_by_address : s.hw_breakpoints.hw_by_address ≡ []
  pub bp_by_id : s.breakpoints.bp_by_id ≡ []
  pub bp_by_address : s.breakpoints.bp_by_address ≡ []
  pub hooks_by_id : s.hooks.hooks_by_id ≡ []
  pub hooks_by_target : s.hooks.hooks_by_target ≡ []
  pub js_callbacks : s.handlers.js_callbacks ≡ []
  pub released : s.handlers.ref_count ≡ pos 0
  pub off : s.handlers.enabled ≡ false
  pub original : (g : Signal) → s.handlers.current g ≡ orig g

module _ (t : Tools) (os : Os) (bp_dispatch enter leave : ℕ) (orig : Signal → Sigaction) where
  -- On a POSIX system on which mprotect does not fail, the clean-up returns, and afterwards there is no
  -- monitor, breakpoint, hook or callback of a script left, no reference on the signal handlers is held,
  -- and every signal has its handler of `orig` again, under two conditions on the state before. The
  -- registry counted one reference for each monitor and one for each kind of breakpoints whose handler
  -- is installed. And its flag agreed with the kernel's table: either it was enabled,
  -- globalSignalHandler stood for the four managed signals and the handlers of `orig` were saved, or it
  -- was not enabled and the handlers of `orig` were in place. A script that calls disable while a
  -- reference is held breaks the second condition, and nothing is said of a clean-up after that.
  pub cleanup-IsClean :
      (s : Program)
      → Permits t
      → IsPosix os
      → s.handlers.ref_count
        ≡ pos (
            length s.monitors.monitors
            + (held s.hw_breakpoints.handler_installed + held s.breakpoints.handler_installed))
      → Tracks orig s.handlers
      → (s' : Program) × (cleanup t os bp_dispatch enter leave s ≡ done s' tt) × IsClean orig s'
  unfolding cleanup
  cleanup-IsClean s permits posix counted tracks =
      let references : ℕ =
        length s.monitors.monitors
        + (held s.hw_breakpoints.handler_installed + held s.breakpoints.handler_installed) in
      let c : Counts orig references s.handlers = record { counted = counted; tracks = tracks } in
      let s₁ : Program = end_monitors t os s in
      let s₂ : Program = end_hw_breakpoints os s₁ in
      let c₁ = end_monitors-Counts os posix orig t _ s c in
      let c₂ = end_hw_breakpoints-Counts os posix orig _ s₁ c₁ in
      let (b, done_b, c₃, by_id, by_address) =
        end_breakpoints_total t os bp_dispatch orig s₂ permits posix (Counts-at (omega arith) c₂) in
      let s₃ : Program = record s₂ {
        breakpoints = b;
        handlers = b.handlers;
        process = b.process;
      } in
      let (h, done_h, hooks_by_id, hooks_by_target) = end_hooks_total t os enter leave s₃ permits in
      let (hw_by_id, hw_by_address) = end_hw_breakpoints-empty os s₁ in
      let (js_callbacks, released, parked) = disable-released os posix orig b.handlers c₃ in
      (
        record s₃ {
          hooks = h;
          process = h.process;
          handlers = disable os (remove_all_callbacks b.handlers);
        },
        rw (done_b, done_h) refl,
        record {
          monitors = end_monitors-empty t os s;
          hw_by_id = hw_by_id;
          hw_by_address = hw_by_address;
          bp_by_id = by_id;
          bp_by_address = by_address;
          hooks_by_id = hooks_by_id;
          hooks_by_target = hooks_by_target;
          js_callbacks = js_callbacks;
          released = released;
          off = parked.off;
          original = parked.original;
        },
      )
