-- ===== src/Examples/Clean.antt =====
-- The clean-up of a program with a monitor and a hardware breakpoint.
use chromatic.Base.{ℕ, ◌∷◌, length, codes, ◌≡◌, refl, true, [], if◌then◌else◌, inl, done}
use chromatic.Base.Signed.{pos}
use chromatic.Platform.{linux}
use chromatic.Handlers.{Handlers, Signal, Sigaction, sig_dfl, global_handler, is_managed}
use chromatic.Examples.Trap.{system, quiet, no_breakpoints}
use chromatic.Examples.Hardware.{no_hw_breakpoints}
use chromatic.Examples.Code.{no_hooks}
use chromatic.Examples.Watching.{state, ring}
use chromatic.Runtime.{Program, cleanup}
use chromatic.Runtime.Cleanup.{IsClean, cleanup-IsClean}
use chromatic.Runtime.Session.{Engine, Session, load_index, reset, reset-IsClean}

abbrev defaults : Signal → Sigaction
defaults g = sig_dfl

abbrev two_references : Handlers
two_references = record quiet {
  enabled = true;
  ref_count = pos 2;
  current = λ g. if is_managed g then global_handler else sig_dfl;
}

abbrev pub running : Program
running = record {
  process = record { memory = λ a. 0x90; protections = λ a. 5; live = [] };
  handlers = two_references;
  monitors = state ring;
  hw_breakpoints = record no_hw_breakpoints { handler_installed = true };
  breakpoints = no_breakpoints;
  hooks = no_hooks;
}

cleanup-IsClean_example :
    (s' : Program) × (cleanup system linux 0x333 0x111 0x222 running ≡ done s' tt)
    × IsClean defaults s'
cleanup-IsClean_example =
    cleanup-IsClean system linux 0x333 0x111 0x222 defaults running (λ start size prot p. (p, refl))
      tt refl (inl (record { on = refl; ours = λ g. refl; saved = λ g managed. refl }))

-- An engine that counts the binders it calls, and gives every script the value 0.
abbrev engine : Engine ℕ ℕ
engine = record {
  reset_runtime = λ binders c. length binders;
  eval_string = λ script filename p c. ((p, c), inl 0);
}

abbrev session : Session ℕ
session = record { program = running; context = 2; on_bind = 3 ∷ 4 ∷ []; printed = [] }

reset-IsClean_example :
    (p : Program) × IsClean defaults p
    × (reset engine (codes "1") 7 system linux 0x333 0x111 0x222 session
        ≡ done
            (load_index engine
              (codes "1")
              (record { program = p; context = 1; on_bind = 7 ∷ []; printed = [] }))
            tt)
reset-IsClean_example =
    reset-IsClean engine (codes "1") 7 system linux 0x333 0x111 0x222 defaults session
      (λ start size prot p. (p, refl)) tt refl
      (inl (record { on = refl; ours = λ g. refl; saved = λ g managed. refl }))
