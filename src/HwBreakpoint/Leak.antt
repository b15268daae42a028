-- ===== src/HwBreakpoint/Leak.antt =====
-- What a hardware breakpoint that comes and goes leaves in the registry.
use chromatic.Base.{
  ℕ, ◌+◌, ◌%◌, ◌<◌, ◌≡◌, refl, ap, ◌∙◌, true, false, ◌==◌, List, [], ◌∷◌, ◌++◌, arith, All, ==_refl,
  Text, Option, some, ok, done, lookup, erase, assign,
}
use mathlib.Core.List.{append-nil}
use chromatic.Hex.{u64_mod, parse_hex_addr}
use chromatic.Hex.RoundTrip.{parse_hex_addr-to_hex_addr}
use chromatic.Platform.{Os, linux, android, darwin, windows}
use chromatic.Handlers.{
  Handlers, HandlerEntry, single_step, breakpoint, hw_sigtrap, ref_disable, register_handler,
  unregister_handler, without,
}
use chromatic.Handlers.Registry.{Fresh, ref_enable-SameRegistry, without-append, without_absent}
use chromatic.Relocator.Host.{Tools}
use chromatic.HwBreakpoint.{
  HwBreakpoints, HwBreakpointEntry, PerfAttr, ensure_hw_handler_installed, maybe_remove_hw_handler,
  is_empty, release_both,
}
use chromatic.HwBreakpoint.Requests.{set, remove, unset, uninstall}
use chromatic.HwBreakpoint.Coming.{HasCome, set-HasCome}

two_handlers :
    (es : List HandlerEntry) (n : ℕ)
    → All (λ (e : HandlerEntry). e.id < n) es
    → without n (
        (es ++ record { id = n; type = breakpoint; callback = hw_sigtrap } ∷ [])
        ++ record { id = n + 1; type = single_step; callback = hw_sigtrap } ∷ [])
      ≡ es ++ record { id = n + 1; type = single_step; callback = hw_sigtrap } ∷ []
unfolding without
two_handlers es n fresh =
    let other : (n + 1 == n) ≡ false = ground arith in
    rw (without-append n (es ++ _) _, without-append n es _, without_absent n es fresh)
      (rw (==_refl n, other, append-nil es) refl)

-- What installing makes of the registry.
ensured :
    (os : Os) (s : HwBreakpoints)
    → s.handler_installed ≡ false
    → s.handlers.next_id + 1 < u64_mod
    → let q = ensure_hw_handler_installed os s in
      let n = s.handlers.next_id in
      (q.handler_installed ≡ true)
      × (q.hw_handler_id ≡ n)
      × (q.handlers.handlers
          ≡ (s.handlers.handlers
              ++ record { id = n; type = breakpoint; callback = hw_sigtrap } ∷ [])
            ++ record { id = n + 1; type = single_step; callback = hw_sigtrap } ∷ [])
unfolding ensure_hw_handler_installed register_handler
ensured os s off room =
    let v = ref_enable-SameRegistry os s.handlers in
    let next : (s.handlers.next_id + 1) % u64_mod ≡ s.handlers.next_id + 1 = omega arith in
    rw off (refl, v.next_id, rw (v.next_id, v.handlers, next) refl)

unset_keeps :
    (os : Os) (e : HwBreakpointEntry) (s : HwBreakpoints)
    → let q = unset os e s in
      (q.handlers ≡ s.handlers)
      × (q.handler_installed ≡ s.handler_installed)
      × (q.hw_handler_id ≡ s.hw_handler_id)
unfolding unset uninstall release_both
unset_keeps windows e s = (refl, refl, refl)
unset_keeps darwin e s = (refl, refl, refl)
unset_keeps linux e s = (refl, refl, refl)
unset_keeps android e s = (refl, refl, refl)

maybe_remove_last :
    (s : HwBreakpoints)
    → s.handler_installed ≡ true
    → s.hw_by_address ≡ []
    → let q = maybe_remove_hw_handler s in
      (q.handlers.handlers ≡ without s.hw_handler_id s.handlers.handlers)
      × (q.handler_installed ≡ false)
      × (q.hw_by_id ≡ s.hw_by_id)
unfolding maybe_remove_hw_handler unregister_handler ref_disable is_empty
maybe_remove_last s on none_left = rw (on, none_left) (refl, refl, refl)

module _ (t : Tools) (os : Os) (perf_open : List ℕ → PerfAttr → Option ℕ) (hw_dispatch : ℕ) where
  -- Where no hardware breakpoint is set and their handlers are not installed, a set that returns and the
  -- remove of the breakpoint that it made leave no breakpoint and nothing installed by the flag, but a
  -- handler more in the registry than before: the one for single steps. The ids of the registered
  -- handlers must be below the counter of ids, and that counter and the one of the breakpoints must not
  -- wrap around.
  pub remove-set_leaks :
      (address type : Text) (size : ℕ) (on_hit : Option ℕ) (s q : HwBreakpoints) (id : Text)
      → s.handler_installed ≡ false
      → s.hw_by_id ≡ []
      → s.hw_by_address ≡ []
      → Fresh s.handlers
      → s.handlers.next_id + 1 < u64_mod
      → s.next_hw_id < u64_mod
      → set t os perf_open hw_dispatch address type size on_hit s ≡ done q id
      → (r : HwBreakpoints) × (remove os id q ≡ done r tt)
        × (r.hw_by_id ≡ [])
        × (r.handler_installed ≡ false)
        × (r.handlers.handlers
            ≡ s.handlers.handlers
              ++ record { id = s.handlers.next_id + 1; type = single_step; callback = hw_sigtrap }
                ∷ [])
  unfolding remove lookup erase assign
  remove-set_leaks address type size on_hit s q id off no_ids no_addresses fresh room fits h =
      let n = s.next_hw_id in
      let come = set-HasCome t os perf_open hw_dispatch address type size on_hit s in
      let c : HasCome os s id q = rw h at come in
      let e = c.entry in
      let ids : q.hw_by_id ≡ (n, e) ∷ [] = c.by_id ∙ ap (assign n e) no_ids in
      let addresses : q.hw_by_address ≡ (e.address, e) ∷ [] =
        c.by_address ∙ ap (assign e.address e) no_addresses in
      let parsed : parse_hex_addr id ≡ ok n =
        ap parse_hex_addr c.its_id ∙ parse_hex_addr-to_hex_addr n fits in
      let found : lookup n q.hw_by_id ≡ some e = rw ids (rw (==_refl n) refl) in
      let x : HwBreakpoints = record (unset os e q) {
        hw_by_address = erase e.address q.hw_by_address;
        hw_by_id = erase n q.hw_by_id;
      } in
      let empty_ids : erase n q.hw_by_id ≡ [] = rw ids (rw (==_refl n) refl) in
      let empty_addresses : erase e.address q.hw_by_address ≡ [] =
        rw addresses (rw (==_refl e.address) refl) in
      let (handlers, installed, handler_id) = unset_keeps os e q in
      let (on, its_id, registry) = ensured os s off room in
      let (left, gone, kept) =
        maybe_remove_last x (installed ∙ (c.installed ∙ on)) empty_addresses in
      let registry' : x.handlers.handlers ≡ _ =
        ap (λ (g : Handlers). g.handlers) (handlers ∙ c.handlers) ∙ registry in
      (
        maybe_remove_hw_handler x,
        rw (remove, parsed, found) refl,
        kept ∙ empty_ids,
        gone,
        left
            ∙ (rw (handler_id ∙ (c.handler_id ∙ its_id), registry')
                (two_handlers s.handlers.handlers s.handlers.next_id fresh)),
      )
