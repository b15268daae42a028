-- ===== src/Runtime/Session.antt =====
-- runtime::reset and runtime::eval_script of src/core/script.cc. The script context of breeze-js is a
-- parameter: what resetting and evaluating make of it.
use chromatic.Base.{
  ℕ, ◌+◌, ◌≡◌, refl, List, [], ◌∷◌, ◌++◌, ◌⊎◌, inl, inr, length, Text, codes, done, throw, M,
}
use chromatic.Platform.{Os}
use chromatic.Handlers.{Signal, Sigaction}
use chromatic.Base.Signed.{pos}
use chromatic.Handlers.Enabling.{IsPosix, Tracks}
use chromatic.Relocator.Host.{Tools}
use chromatic.Relocator.Build.{Permits}
use chromatic.Runtime.{Program, cleanup}
use chromatic.Runtime.Counts.{held}
use chromatic.Runtime.Cleanup.{IsClean, cleanup-IsClean}

-- `reset_runtime binders` makes a new JavaScript runtime and calls the binders; `eval_string` runs a
-- script, which may call the bindings, and gives its value or the text of an error.
pub record Engine (C V : Type 0) : Type 0 where
  pub reset_runtime : List ℕ → C → C
  pub eval_string : Text → Text → Program → C → (Program × C) × (V ⊎ Text)

-- The runtime: the program's components, the context and its `on_bind`, and what was printed.
pub record Session (C : Type 0) : Type 0 where
  pub program : Program
  pub context : C
  pub on_bind : List ℕ
  pub printed : List Text

module _ {C V : Type 0} (engine : Engine C V) where
  unfoldable pub eval_script : Text → Text → Session C → Session C × (V ⊎ Text)
  eval_script script filename s =
      let (after, result) = engine.eval_string script filename s.program s.context in
      (record s { program = after.0; context = after.1 }, result)

  -- The end of reset: an error of index.js is printed.
  unfoldable pub load_index : Text → Session C → Session C
  unfolding eval_script
  load_index index_js s =
      let (s', result) = eval_script index_js (codes "<index>") s in
      elim result [
        | inl value ↦ s'
        | inr error ↦ record s' {
          printed = (codes "Failed to eval index.js: " ++ error) ∷ s'.printed;
        }
      ]

  module _ (index_js : Text) (bind_all : ℕ) (t : Tools) (os : Os)
      (bp_dispatch enter leave : ℕ) where
    -- The context with chromatic_bindAll as its only binder.
    unfoldable pub rebind : Session C → Session C
    rebind s = record s {
      on_bind = bind_all ∷ [];
      context = engine.reset_runtime (bind_all ∷ []) s.context;
    }

    unfoldable pub reset : M (Session C) (Unit {0})
    unfolding rebind
    reset s = elim (cleanup t os bp_dispatch enter leave s.program) [
      | done p u ↦ done (load_index index_js (rebind (record s { program = p }))) tt
      | throw p e ↦ throw (record s { program = p }) e
    ]

    -- On a POSIX system on which mprotect does not fail, reset returns, and index.js is evaluated, with
    -- chromatic_bindAll as the only binder of the context whatever the binders were, in a program
    -- without monitors, breakpoints, hooks or exception callbacks, in which no reference on the signal
    -- handlers is held and every signal has its handler of `orig`. Before, the registry counted one
    -- reference for each monitor and one for each kind of breakpoints whose handler is installed, and
    -- either it was enabled, globalSignalHandler stood for the managed signals and the handlers of
    -- `orig` were saved, or it was not enabled and the handlers of `orig` were in place. Nothing is
    -- said of the rest of the state, such as the registered single-step handlers, the pending events
    -- and the debug registers.
    pub reset-IsClean :
        (orig : Signal → Sigaction) (s : Session C)
        → Permits t
        → IsPosix os
        → s.program.handlers.ref_count
          ≡ pos (
              length s.program.monitors.monitors
              + (held s.program.hw_breakpoints.handler_installed
                  + held s.program.breakpoints.handler_installed))
        → Tracks orig s.program.handlers
        → (p : Program) × IsClean orig p
          × (reset s
              ≡ done
                  (load_index index_js (record s {
                    program = p;
                    on_bind = bind_all ∷ [];
                    context = engine.reset_runtime (bind_all ∷ []) s.context;
                  }))
                  tt)
    unfolding reset rebind
    reset-IsClean orig s permits posix counted tracks =
        let (p, done_p, clean) =
          cleanup-IsClean t os bp_dispatch enter leave orig s.program permits posix counted
            tracks in
        (p, clean, rw (reset, done_p) refl)
