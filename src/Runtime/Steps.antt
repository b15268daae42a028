-- ===== src/Runtime/Steps.antt =====
-- What each step of the clean-up gives back and empties.
use chromatic.Base.{
  ℕ, ◌+◌, ◌≡◌, refl, ap, ◌∙◌, false, not, ◌||◌, List, [], ◌∷◌, arith, done, Bool-cases, inl, inr,
}
use chromatic.Base.Signed.{pos, is_pos}
use chromatic.Platform.{Os, linux, android, darwin, windows}
use chromatic.Handlers.{Handlers, Signal, Sigaction, remove_all_callbacks, disable, remove_handlers}
use chromatic.Handlers.Enabling.{IsPosix, IsParked, Tracks, disable-IsParked}
use chromatic.Monitor.{disable_all}
use chromatic.HwBreakpoint.{HwBreakpoints, maybe_remove_hw_handler}
use chromatic.HwBreakpoint
use chromatic.HwBreakpoint.Requests
use chromatic.Breakpoint.{
  Breakpoints, BreakpointEntry, maybe_remove_handler, is_empty, release, on_process,
}
use chromatic.Breakpoint
use chromatic.Breakpoint.RoundTrip.{unset_of_patch}
use chromatic.Interceptor.Undo.{unhook_of_patch}
use chromatic.Interceptor.{Hooks, HookEntry, unhook_all, detach_all}
use chromatic.Relocator.{release_code}
use chromatic.Relocator.Host.{Tools}
use chromatic.Relocator.Build.{Permits, make_writable_and_patch_total}
use chromatic.Runtime.{Program, end_monitors, end_hw_breakpoints, end_breakpoints, end_hooks}
use chromatic.Runtime.Counts.{held, Counts, unregister-Counts, Counts-at, ref_disable-Counts}

module _ (t : Tools) (os : Os) (permits : Permits t) where
  module _ (bp_dispatch : ℕ) where
    pub unset_all_total :
        (es : List (ℕ × BreakpointEntry)) (s : Breakpoints)
        → (q : Breakpoints) × (Breakpoint.unset_all t os bp_dispatch es s ≡ done q tt)
          × (q.handlers ≡ s.handlers)
          × (q.handler_installed ≡ s.handler_installed)
    unfolding Breakpoint.unset_all
    unset_all_total [] s = (s, refl, refl, refl)
    unset_all_total ((id, e) ∷ es) s =
        let (p, patched) =
          make_writable_and_patch_total t permits e.address e.original_bytes s.process in
        let first = unset_of_patch t os bp_dispatch e s p patched in
        let s₁ : Breakpoints = record s {
          process = release_code e.relocated_code (release_code e.trampoline_code p);
        } in
        let (r, rest, handlers, installed) = unset_all_total es s₁ in
        (r, rw (first, rest) refl, handlers, installed)

  module _ (enter leave : ℕ) where
    unhook_all_total :
        (es : List (ℕ × HookEntry)) (s : Hooks)
        → (q : Hooks) × (unhook_all t os enter leave es s ≡ done q tt)
    unfolding unhook_all
    unhook_all_total [] s = (s, refl)
    unhook_all_total ((id, e) ∷ es) s =
        let (p, patched) =
          make_writable_and_patch_total t permits e.target e.original_bytes s.process in
        let first = unhook_of_patch t os enter leave e s p patched in
        let s₁ : Hooks = record s {
          process = release_code e.relocated_code (release_code e.trampoline_code p);
        } in
        let (r, rest) = unhook_all_total es s₁ in (r, rw (first, rest) refl)

  module _ (posix : IsPosix os) (orig : Signal → Sigaction) where
    pub maybe_remove-Counts :
        (n : ℕ) (s : Breakpoints)
        → s.bp_by_address ≡ []
        → Counts orig (held s.handler_installed + n) s.handlers
        → Counts orig n (maybe_remove_handler s).handlers
    unfolding maybe_remove_handler is_empty
    maybe_remove-Counts n s none_left c = elim (Bool-cases s.handler_installed) [
      | inl on ↦
          let c' = rw on at c in
          rw (on, none_left)
            (ref_disable-Counts os posix orig n _
              (unregister-Counts orig _ _ _ (Counts-at (omega arith) c')))
      | inr off ↦ let c' = rw off at c in rw off (Counts-at (omega arith) c')
    ]

-- What the first two steps empty.
pub end_monitors-empty :
    (t : Tools) (os : Os) (s : Program) → (end_monitors t os s).monitors.monitors ≡ []
unfolding end_monitors disable_all
end_monitors-empty t os s = refl

maybe_remove_hw_keeps :
    (s : HwBreakpoints)
    → ((maybe_remove_hw_handler s).hw_by_id ≡ s.hw_by_id)
      × ((maybe_remove_hw_handler s).hw_by_address ≡ s.hw_by_address)
unfolding maybe_remove_hw_handler
maybe_remove_hw_keeps s =
    elim (Bool-cases (not s.handler_installed || not (HwBreakpoint.is_empty s.hw_by_address))) [
      | inl e ↦ rw e (refl, refl)
      | inr e ↦ rw e (refl, refl)
    ]

maybe_remove_keeps :
    (s : Breakpoints)
    → ((maybe_remove_handler s).bp_by_id ≡ s.bp_by_id)
      × ((maybe_remove_handler s).bp_by_address ≡ s.bp_by_address)
unfolding maybe_remove_handler
maybe_remove_keeps s =
    elim (Bool-cases (not s.handler_installed || not (is_empty s.bp_by_address))) [
      | inl e ↦ rw e (refl, refl)
      | inr e ↦ rw e (refl, refl)
    ]

pub end_hw_breakpoints-empty :
    (os : Os) (s : Program)
    → ((end_hw_breakpoints os s).hw_breakpoints.hw_by_id ≡ [])
      × ((end_hw_breakpoints os s).hw_breakpoints.hw_by_address ≡ [])
unfolding end_hw_breakpoints Requests.remove_all
end_hw_breakpoints-empty os s = maybe_remove_hw_keeps _

remove_handlers_keeps :
    (os : Os) (h : Handlers)
    → ((remove_handlers os h).js_callbacks ≡ h.js_callbacks)
      × ((remove_handlers os h).ref_count ≡ h.ref_count)
unfolding remove_handlers
remove_handlers_keeps windows h = (refl, refl)
remove_handlers_keeps darwin h = (refl, refl)
remove_handlers_keeps linux h = (refl, refl)
remove_handlers_keeps android h = (refl, refl)

disable_keeps :
    (os : Os) (h : Handlers)
    → ((disable os h).js_callbacks ≡ h.js_callbacks) × ((disable os h).ref_count ≡ h.ref_count)
unfolding disable
disable_keeps os h = elim (Bool-cases h.enabled) [
  | inr off ↦ rw off (refl, refl)
  | inl on ↦ elim (Bool-cases (is_pos h.ref_count)) [
    | inl busy ↦ rw (on, busy) (refl, refl)
    | inr free ↦ rw (on, free) (remove_handlers_keeps os (record h { enabled = false }))
  ]
]

-- The last step, where no reference is held any more.
pub disable-released :
    (os : Os)
    → IsPosix os
    → (orig : Signal → Sigaction) (h : Handlers) → Counts orig 0 h
    → ((disable os (remove_all_callbacks h)).js_callbacks ≡ [])
      × ((disable os (remove_all_callbacks h)).ref_count ≡ pos 0)
      × IsParked orig (disable os (remove_all_callbacks h))
unfolding remove_all_callbacks
disable-released os posix orig h c =
    let (js_callbacks, ref_count) = disable_keeps os (remove_all_callbacks h) in
    (
      js_callbacks,
      ref_count ∙ c.counted,
      disable-IsParked os posix orig (remove_all_callbacks h) (ap is_pos c.counted) (keep c.tracks),
    )
  where
    keep : Tracks orig h → Tracks orig (record h { js_callbacks = [] })
    keep (inl v) = inl (record { on = v.on; ours = v.ours; saved = v.saved })
    keep (inr v) = inr (record { off = v.off; original = v.original })

-- The third step: it returns, gives back its reference and leaves no breakpoint.
pub end_breakpoints_total :
    (t : Tools) (os : Os) (bp_dispatch : ℕ) (orig : Signal → Sigaction) (s : Program)
    → Permits t
    → IsPosix os
    → Counts orig (held s.breakpoints.handler_installed + 0) s.handlers
    → (b : Breakpoints) × (end_breakpoints t os bp_dispatch s
        ≡ done (record s { breakpoints = b; handlers = b.handlers; process = b.process }) tt)
      × Counts orig 0 b.handlers
      × (b.bp_by_id ≡ [])
      × (b.bp_by_address ≡ [])
unfolding end_breakpoints Breakpoint.remove_all
end_breakpoints_total t os bp_dispatch orig s permits posix c =
    let b : Breakpoints = record s.breakpoints { handlers = s.handlers; process = s.process } in
    let (q, done_q, handlers, installed) = unset_all_total t os permits bp_dispatch b.bp_by_id b in
    let emptied : Breakpoints = record q { bp_by_id = []; bp_by_address = [] } in
    let (by_id, by_address) = maybe_remove_keeps emptied in
    (
      maybe_remove_handler emptied,
      rw (end_breakpoints, Breakpoint.remove_all, done_q) refl,
      maybe_remove-Counts t os permits posix orig 0 emptied refl (rw (handlers, installed) c),
      by_id,
      by_address,
    )

-- The fourth step returns and leaves no hook.
pub end_hooks_total :
    (t : Tools) (os : Os) (enter leave : ℕ) (s : Program)
    → Permits t
    → (h : Hooks) × (end_hooks t os enter leave s
        ≡ done (record s { hooks = h; process = h.process }) tt)
      × (h.hooks_by_id ≡ [])
      × (h.hooks_by_target ≡ [])
unfolding end_hooks detach_all
end_hooks_total t os enter leave s permits =
    let h : Hooks = record s.hooks { process = s.process } in
    let (q, done_q) = unhook_all_total t os permits enter leave h.hooks_by_id h in
    (
      record q { hooks_by_id = []; hooks_by_target = [] },
      rw (end_hooks, detach_all, done_q) refl,
      refl,
      refl,
    )
