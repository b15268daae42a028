-- ===== src/Handlers/Dispatch.antt =====
-- Which handler gets a signal.
use chromatic.Base.{◌≡◌, refl, true, false, List, [], ◌∷◌, ◌++◌, ◌==◌, arith, All}
use chromatic.Base.Signed.{is_pos}
use chromatic.Platform.{Os, Platform}
use chromatic.Handlers.{
  ExceptionType, exception_tag, Callback, HandlerEntry, Handlers, Signal, sigsegv, sigbus, sigtrap,
  sigill, other_signal, is_managed, global_handler, enable, disable,
}
use chromatic.Handlers.Signals.{
  Context, Machine, SigInfo, Handling, handled, not_handled, dispatch, build_context_from_signal,
  called_global, resumed, forward_signal, forward_to_original, global_signal_handler,
}
use chromatic.Handlers.Enabling.{IsPosix, reenable_loses_original}

abbrev pub Serves : ExceptionType → HandlerEntry → Type 0
Serves t e = (exception_tag e.type == exception_tag t) ≡ true

abbrev pub Ignores : ExceptionType → HandlerEntry → Type 0
Ignores t e = (exception_tag e.type == exception_tag t) ≡ false

forward_global :
    (s : Handlers) (sig : Signal)
    → is_managed sig ≡ true
    → s.old sig ≡ global_handler
    → forward_signal s sig ≡ called_global
unfolding forward_signal forward_to_original
forward_global s sigsegv m e = rw e
forward_global s sigbus m e = rw e
forward_global s sigtrap m e = rw e
forward_global s sigill m e = rw e
forward_global s other_signal m e = cc

module _ {W : Type 0} (invoke : Callback → W → Context → Handling W) where
  dispatch-skip :
      (es fs : List HandlerEntry) (w : W) (ctx : Context)
      → All (Ignores ctx.type) es
      → dispatch invoke (es ++ fs) w ctx ≡ dispatch invoke fs w ctx
  unfolding dispatch
  dispatch-skip [] fs w ctx h = refl
  dispatch-skip (e ∷ es) fs w ctx (miss, h) = rw (miss, dispatch) (dispatch-skip es fs w ctx h)

  dispatch_claimed :
      (w : W) (ctx : Context) (e : HandlerEntry) (fs : List HandlerEntry)
      → Serves ctx.type e
      → (invoke e.callback w ctx).action ≡ handled
      → dispatch invoke (e ∷ fs) w ctx ≡ invoke e.callback w ctx
  unfolding dispatch
  dispatch_claimed w ctx e fs serve claim = rw (serve, dispatch) (ground arith)

  -- If the first handler that is registered for the exception's type claims it, then its result is
  -- the result, no handler behind it is run, and the signal is not forwarded.
  pub dispatch_first :
      (p : Platform) (s : Handlers) (sig : Signal) (info : SigInfo) (machine : Machine) (w : W)
      (es fs : List HandlerEntry) (e : HandlerEntry)
      → s.handlers ≡ es ++ e ∷ fs
      → All (Ignores (build_context_from_signal p sig info machine).type) es
      → Serves (build_context_from_signal p sig info machine).type e
      → (invoke e.callback w (build_context_from_signal p sig info machine)).action ≡ handled
      → global_signal_handler invoke p s sig info machine w
        ≡ (invoke e.callback w (build_context_from_signal p sig info machine), resumed)
  unfolding global_signal_handler
  dispatch_first p s sig info machine w es fs e split ignore serve claim =
      let ctx = build_context_from_signal p sig info machine in
      let run : dispatch invoke (es ++ e ∷ fs) w ctx ≡ invoke e.callback w ctx =
        rw (dispatch-skip es (e ∷ fs) w ctx ignore) (dispatch_claimed w ctx e fs serve claim) in
      rw (split, run, claim)

  dispatch-ignored :
      (es : List HandlerEntry) (w : W) (ctx : Context)
      → All (Ignores ctx.type) es
      → dispatch invoke es w ctx ≡ record { world = w; context = ctx; action = not_handled }
  unfolding dispatch
  dispatch-ignored [] w ctx h = refl
  dispatch-ignored (e ∷ es) w ctx (miss, h) = rw (miss, dispatch) (dispatch-ignored es w ctx h)

  -- A signal whose type no handler is registered for changes nothing, and goes to the handler that
  -- the process had for it.
  dispatch_none :
      (p : Platform) (s : Handlers) (sig : Signal) (info : SigInfo) (machine : Machine) (w : W)
      → All (Ignores (build_context_from_signal p sig info machine).type) s.handlers
      → global_signal_handler invoke p s sig info machine w ≡ (
        record {
          world = w;
          context = build_context_from_signal p sig info machine;
          action = not_handled;
        },
        forward_signal s sig,
      )
  unfolding global_signal_handler
  dispatch_none p s sig info machine w ignore =
      let ctx = build_context_from_signal p sig info machine in
      let run : dispatch invoke s.handlers w ctx
          ≡ record { world = w; context = ctx; action = not_handled } =
        dispatch-ignored s.handlers w ctx ignore in
      rw (run, global_signal_handler)

  -- After disable was called under a reference and enable after it, a managed signal that no handler
  -- is registered for is forwarded by globalSignalHandler to globalSignalHandler.
  pub reenable_recurses :
      (os : Os) (p : Platform) (s : Handlers) (sig : Signal) (info : SigInfo) (machine : Machine)
      (w : W)
      → IsPosix os
      → s.enabled ≡ true
      → is_pos s.ref_count ≡ true
      → is_managed sig ≡ true
      → s.current sig ≡ global_handler
      → All
          (Ignores (build_context_from_signal p sig info machine).type)
          (enable os (disable os s)).handlers
      → (global_signal_handler invoke p (enable os (disable os s)) sig info machine w).1
        ≡ called_global
  reenable_recurses os p s sig info machine w posix on held managed ours ignore =
      rw (dispatch_none p (enable os (disable os s)) sig info machine w ignore) (
        forward_global (enable os (disable os s)) sig managed
          (reenable_loses_original os s sig posix on held managed ours).0)
