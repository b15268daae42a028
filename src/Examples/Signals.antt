-- ===== src/Examples/Signals.antt =====
-- The exception handlers and the memory access monitor, each theorem at an input.
use chromatic.Base.{ℕ, ◌+◌, ◌≡◌, refl, true, false, [], ◌∷◌, if◌then◌else◌}
use chromatic.Base.Signed.{ℤ, pos}
use chromatic.Platform.{Platform, linux, x64}
use chromatic.Handlers.{
  Handlers, access_violation, Callback, monitor_segv, breakpoint_sigtrap, breakpoint, sigsegv,
  sig_dfl, global_handler, sa_sigaction, is_managed, enable, disable, ref_enable, ref_disable,
  install_handlers,
}
use chromatic.Handlers.Signals.{
  Context, Machine, SigInfo, Handling, handled, build_context_from_signal, resumed, called_global,
  global_signal_handler,
}
use chromatic.Handlers.Enabling.{
  enables, ref_enables, ref_disables, call, calls, disable_restores, reenable_loses_original,
}
use chromatic.Handlers.Dispatch.{dispatch_first, reenable_recurses}

-- Nothing is installed; the process has a SIGSEGV handler of its own at address 7.
abbrev idle : Handlers
idle = record {
  handlers = [];
  next_id = 1;
  enabled = false;
  ref_count = pos 0;
  js_callbacks = [];
  next_js_id = 0x10000;
  current = λ g. elim g [ sigsegv ↦ sa_sigaction 7 | _ ↦ sig_dfl ];
  old = λ g. sig_dfl;
  veh = false;
}

-- Enabled, under one reference.
abbrev held : Handlers
held = record idle {
  enabled = true;
  ref_count = pos 1;
  current = λ g. if is_managed g then global_handler else sig_dfl;
  old = idle.current;
}

disable_restores_example :
    (disable linux (calls linux (enables ∷ ref_enables ∷ ref_disables ∷ []) idle)).current sigsegv
    ≡ sa_sigaction 7
unfolding calls call enable ref_enable ref_disable install_handlers
disable_restores_example =
    disable_restores linux idle (enables ∷ ref_enables ∷ ref_disables ∷ []) tt refl
      (tt, (tt, (tt, tt))) refl sigsegv

reenable_loses_original_example :
    ((enable linux (disable linux held)).old sigsegv ≡ global_handler)
    × ((z : ℤ)
        → (disable linux (record (enable linux (disable linux held)) { ref_count = z })).current
            sigsegv
          ≡ global_handler)
reenable_loses_original_example = reenable_loses_original linux held sigsegv tt refl refl refl refl

abbrev watching : Handlers
watching = record held {
  handlers =
      record { id = 1; type = breakpoint; callback = breakpoint_sigtrap }
      ∷ record { id = 2; type = access_violation; callback = monitor_segv }
      ∷ [];
  next_id = 3;
}

abbrev host : Platform
host = record { os = linux; arch = x64 }

abbrev fault : SigInfo
fault = record { si_code = 2; si_addr = 0x5000; err = 4 }

abbrev machine : Machine
machine = record { pc = 0x400000; flags = 0 }

-- A world that counts the runs of handlers, each of which claims the exception.
abbrev claim : Callback → ℕ → Context → Handling ℕ
claim c w ctx = record { world = w + 1; context = ctx; action = handled }

dispatch_first_example :
    global_signal_handler claim host watching sigsegv fault machine 0
    ≡ (claim monitor_segv 0 (build_context_from_signal host sigsegv fault machine), resumed)
unfolding build_context_from_signal
dispatch_first_example =
    dispatch_first claim host watching sigsegv fault machine 0
      (record { id = 1; type = breakpoint; callback = breakpoint_sigtrap } ∷ []) []
      (record { id = 2; type = access_violation; callback = monitor_segv }) refl (refl, tt) refl
      refl

reenable_recurses_example :
    (global_signal_handler claim host (enable linux (disable linux held)) sigsegv fault machine 0).1
    ≡ called_global
unfolding enable disable install_handlers
reenable_recurses_example =
    reenable_recurses claim linux host held sigsegv fault machine 0 tt refl refl refl refl tt
