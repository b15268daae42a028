-- ===== src/Runtime.antt =====
-- src/core/script.cc: the clean-up of a script's runtime, which ends the work of every component. The
-- components share the process and the registry of handlers.
pub mod Counts
pub mod Steps
pub mod Cleanup
pub mod Session
pub mod Script
pub mod Restoring
pub mod Holding
pub mod References
use chromatic.Base.{ℕ, Option, none, some, Outcome, done, throw, M, bind_outcome, modify, ◌>>◌}
use chromatic.Platform.{Os}
use chromatic.Handlers.{Handlers, remove_all_callbacks, disable}
use chromatic.Monitor.{Monitors, disable_all}
use chromatic.HwBreakpoint.{HwBreakpoints}
use chromatic.HwBreakpoint.Requests
use chromatic.Breakpoint.{Breakpoints}
use chromatic.Breakpoint
use chromatic.Interceptor.{Hooks, detach_all}
use chromatic.Relocator.Host.{Tools, Process}

-- The state of the program. The process and the handlers count, not the copies that the components'
-- records hold between their calls.
pub record Program : Type 0 where
  pub process : Process
  pub handlers : Handlers
  pub monitors : Monitors
  pub hw_breakpoints : HwBreakpoints
  pub breakpoints : Breakpoints
  pub hooks : Hooks

-- setProtection where the result is not looked at.
unfoldable pub set_protection : Tools → ℕ → ℕ → ℕ → (ℕ → ℕ) → ℕ → ℕ
set_protection t start size prot p = elim (t.mprotect start size prot p) [ none ↦ p | some p' ↦ p' ]

-- A component with the shared state put in, and the shared state taken out of it.
unfoldable pub end_monitors : Tools → Os → Program → Program
end_monitors t os s =
    let m =
      disable_all (set_protection t) t.page_size os
        (record s.monitors { handlers = s.handlers; protections = s.process.protections }) in
    record s {
      monitors = m;
      handlers = m.handlers;
      process = record s.process { protections = m.protections };
    }

unfoldable pub end_hw_breakpoints : Os → Program → Program
end_hw_breakpoints os s =
    let h =
      Requests.remove_all os
        (record s.hw_breakpoints { handlers = s.handlers; process = s.process }) in
    record s { hw_breakpoints = h; handlers = h.handlers; process = h.process }

unfoldable pub end_breakpoints : Tools → Os → ℕ → M Program (Unit {0})
end_breakpoints t os bp_dispatch s =
    elim (Breakpoint.remove_all t os bp_dispatch
      (record s.breakpoints { handlers = s.handlers; process = s.process })) [
        | done b u ↦
            done (record s { breakpoints = b; handlers = b.handlers; process = b.process }) u
        | throw b e ↦
            throw (record s { breakpoints = b; handlers = b.handlers; process = b.process }) e
      ]

unfoldable pub end_hooks : Tools → Os → ℕ → ℕ → M Program (Unit {0})
end_hooks t os enter leave s =
    elim (detach_all t os enter leave (record s.hooks { process = s.process })) [
      | done h u ↦ done (record s { hooks = h; process = h.process }) u
      | throw h e ↦ throw (record s { hooks = h; process = h.process }) e
    ]

-- runtime::cleanup. `bp_dispatch`, `enter` and `leave` are the addresses of the dispatch functions.
unfoldable pub cleanup : Tools → Os → ℕ → ℕ → ℕ → M Program (Unit {0})
unfolding end_monitors end_hw_breakpoints end_breakpoints end_hooks
cleanup t os bp_dispatch enter leave s =
    bind_outcome (end_breakpoints t os bp_dispatch (end_hw_breakpoints os (end_monitors t os s)))
      λ _ s₁.
        bind_outcome (end_hooks t os enter leave s₁)
          λ _ s₂. done (record s₂ { handlers = disable os (remove_all_callbacks s₂.handlers) }) tt
