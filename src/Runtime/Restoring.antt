-- ===== src/Runtime/Restoring.antt =====
-- The memory that runtime::cleanup of src/core/script.cc leaves behind the calls of a script.
use chromatic.Base.{ℕ, ◌+◌, ◌<◌, ◌≡◌, ◌≢◌, refl, ◌∙◌, List, [], ◌∷◌, done, length, All, arith}
use chromatic.Hex.{u64_mod}
use chromatic.Platform.{Os, linux, android, darwin, windows, patch_size, bp_insn_size}
use chromatic.Handlers.{remove_all_callbacks, disable}
use chromatic.HwBreakpoint.{HwBreakpoints, HwBreakpointEntry, release_both, maybe_remove_hw_handler}
use chromatic.HwBreakpoint.Requests as Requests
use chromatic.Relocator.{release_code}
use chromatic.Relocator.Host.{Tools}
use chromatic.Relocator.Build.{Permits, release_code-memory}
use chromatic.Breakpoint.Going.{remove_all-Cleared}
use chromatic.Interceptor.Going.{detach_all-done}
use chromatic.Interceptor.Sequence.{as_it_is}
use chromatic.Relocator.Ledger.{Ledger-empty}
use chromatic.Relocator.Table.{put_back}
use chromatic.Breakpoint.Going as Stops
use chromatic.Breakpoint.{Breakpoints}
use chromatic.Breakpoint
use chromatic.Interceptor.{Hooks, detach_all}
use chromatic.Interceptor.Tracked.{aim, kept_bytes, ptr_of}
use chromatic.Runtime.{
  Program, end_monitors, end_hw_breakpoints, end_breakpoints, end_hooks, cleanup,
}
use chromatic.Runtime.Script.{Call, calls, Aims, Separate, Runs, calls-Runs, stops_of, hooks_of}

module _ (os : Os) where
  uninstall-memory :
      (o : Os) (handle : ℕ) (s : HwBreakpoints)
      → (Requests.uninstall o handle s).process ≡ s.process
  unfolding Requests.uninstall
  uninstall-memory windows handle s = refl
  uninstall-memory darwin handle s = refl
  uninstall-memory linux handle s = refl
  uninstall-memory android handle s = refl

  unset_all-memory :
      (es : List (ℕ × HwBreakpointEntry)) (s : HwBreakpoints)
      → (Requests.unset_all os es s).process.memory ≡ s.process.memory
  unfolding Requests.unset_all Requests.unset release_both
  unset_all-memory [] s = refl
  unset_all-memory ((id, e) ∷ es) s =
      let u = Requests.uninstall os e.handle s in
      let later = unset_all-memory es (Requests.unset os e s) in
      let same = uninstall-memory os e.handle s in
      later
      ∙ (release_code-memory e.relocated_code (release_code e.trampoline_code u.process)
          ∙ (release_code-memory e.trampoline_code u.process ∙ rw same refl))

  maybe_remove_hw-memory :
      (s : HwBreakpoints) → (maybe_remove_hw_handler s).process.memory ≡ s.process.memory
  unfolding maybe_remove_hw_handler
  maybe_remove_hw-memory s = ground arith

  -- The clean-up of the monitors and of the hardware breakpoints leaves memory alone.
  quiet_steps :
      (t : Tools) (s : Program)
      → (end_hw_breakpoints os (end_monitors t os s)).process.memory ≡ s.process.memory
  unfolding end_hw_breakpoints end_monitors Requests.remove_all
  quiet_steps t s =
      let s₁ : Program = end_monitors t os s in
      let h : HwBreakpoints = record s₁.hw_breakpoints {
        handlers = s₁.handlers;
        process = s₁.process;
      } in
      maybe_remove_hw-memory
        (record (Requests.unset_all os h.hw_by_id h) { hw_by_id = []; hw_by_address = [] })
      ∙ unset_all-memory h.hw_by_id h

end_breakpoints_of :
    (t : Tools) (os : Os) (bp_dispatch : ℕ) (s : Program) (b : Breakpoints)
    → Breakpoint.remove_all t os bp_dispatch (stops_of s) ≡ done b tt
    → end_breakpoints t os bp_dispatch s
      ≡ done (record s { breakpoints = b; handlers = b.handlers; process = b.process }) tt
unfolding end_breakpoints
end_breakpoints_of t os bp_dispatch s b h = rw (end_breakpoints, h) refl

end_hooks_of :
    (t : Tools) (os : Os) (enter leave : ℕ) (s : Program) (h : Hooks)
    → detach_all t os enter leave (hooks_of s) ≡ done h tt
    → end_hooks t os enter leave s ≡ done (record s { hooks = h; process = h.process }) tt
unfolding end_hooks
end_hooks_of t os enter leave s h e = rw (end_hooks, e) refl

cleanup_of :
    (t : Tools) (os : Os) (bp_dispatch enter leave : ℕ) (s s₃ s₄ : Program)
    → end_breakpoints t os bp_dispatch (end_hw_breakpoints os (end_monitors t os s)) ≡ done s₃ tt
    → end_hooks t os enter leave s₃ ≡ done s₄ tt
    → cleanup t os bp_dispatch enter leave s
      ≡ done (record s₄ { handlers = disable os (remove_all_callbacks s₄.handlers) }) tt
unfolding cleanup
cleanup_of t os bp_dispatch enter leave s s₃ s₄ e₃ e₄ = rw (cleanup, e₃, e₄) refl

-- Where mprotect does not fail and the places that hooks and breakpoints are put at share no byte, a script
-- may make any calls on the hooks and on the software breakpoints in any order, fewer than the ids of 64
-- bits that are left, whether they return or throw: if there was no hook and no breakpoint before, the
-- clean-up then succeeds, and memory is what it was before the first call.
pub cleanup-calls :
    (t : Tools) (os : Os) (bp_dispatch enter leave : ℕ) (HookSite StopSite : ℕ → Type 0)
    (cs : List Call) (s : Program)
    → Permits t
    → ((a b : ℕ)
        → HookSite a
        → HookSite b
        → a ≢ b
        → Separate (patch_size t.arch) (patch_size t.arch) a b)
    → ((a b : ℕ)
        → StopSite a
        → StopSite b
        → a ≢ b
        → Separate (bp_insn_size t.arch) (bp_insn_size t.arch) a b)
    → ((a b : ℕ) → HookSite a → StopSite b → Separate (patch_size t.arch) (bp_insn_size t.arch) a b)
    → All (Aims HookSite StopSite) cs
    → s.hooks.next_hook_id + length cs < u64_mod
    → s.breakpoints.next_bp_id + length cs < u64_mod
    → s.hooks.hooks_by_id ≡ []
    → s.hooks.hooks_by_target ≡ []
    → s.breakpoints.bp_by_id ≡ []
    → s.breakpoints.bp_by_address ≡ []
    → (q : Program) × (cleanup t os bp_dispatch enter leave
          (calls t os bp_dispatch enter leave cs s)
        ≡ done q tt)
      × (q.process.memory ≡ s.process.memory)
unfolding end_hw_breakpoints end_monitors put_back
cleanup-calls t os bp_dispatch enter leave HookSite StopSite cs s permits hooks_apart stops_apart
      kinds_apart sites hook_ids stop_ids no_hook no_target no_stop no_address =
    let m = s.process.memory in
    let start : Runs t os bp_dispatch enter leave permits HookSite StopSite hooks_apart stops_apart
        kinds_apart m s =
      record {
        stops =
            rw (no_stop, no_address)
              (Ledger-empty Stops.place Stops.kept_bytes Stops.ptr_of (bp_insn_size t.arch) StopSite
                m _ _);
        hooks =
            rw (no_stop, no_hook, no_target)
              (Ledger-empty aim kept_bytes ptr_of (patch_size t.arch) HookSite m _ _);
      } in
    let v =
      calls-Runs t os bp_dispatch enter leave permits HookSite StopSite hooks_apart stops_apart
        kinds_apart m cs s sites (hook_ids, stop_ids) start in
    let s₁ : Program = calls t os bp_dispatch enter leave cs s in
    let s₂ : Program = end_hw_breakpoints os (end_monitors t os s₁) in
    let same = quiet_steps os t s₁ in
    let seen : ℕ → ℕ =
      put_back Stops.place Stops.kept_bytes Stops.ptr_of (bp_insn_size t.arch)
        s₁.breakpoints.bp_by_id s₁.process.memory in
    let (b, done_b, cleared) =
      remove_all-Cleared t os bp_dispatch permits StopSite stops_apart seen (stops_of s₂)
        (rw same v.stops) in
    let s₃ : Program = record s₂ { breakpoints = b; handlers = b.handlers; process = b.process } in
    let ended_stops = end_breakpoints_of t os bp_dispatch s₂ b done_b in
    let (h, done_h, memory, none_id, none_target, id) =
      detach_all-done t os enter leave permits HookSite hooks_apart m (λ m'. m') as_it_is
        (hooks_of s₃) (rw cleared.memory v.hooks) in
    let ended_hooks = end_hooks_of t os enter leave s₃ h done_h in
    (
      record s₃ {
        hooks = h;
        process = h.process;
        handlers = disable os (remove_all_callbacks b.handlers);
      },
      cleanup_of t os bp_dispatch enter leave s₁ s₃ (record s₃ { hooks = h; process = h.process })
          ended_stops ended_hooks,
      memory,
    )
