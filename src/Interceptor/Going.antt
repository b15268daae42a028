-- ===== src/Interceptor/Going.antt =====
-- Each call on the interceptor while both maps of hooks are tracked.
use chromatic.Base.{
  ap, ℕ, ◌+◌, ◌<◌, ◌≤◌, ◌≡◌, ◌≢◌, ◌⊎◌, refl, ◌∙◌, List, [], ◌∷◌, Text, Option, none, some, lookup,
  ok, err, Outcome, done, throw, Result, arith, state_of,
}
use chromatic.Hex.{u64_mod, parse_hex_addr}
use chromatic.Platform.{Os, patch_size}
use chromatic.Relocator.Host.{Tools, Process}
use chromatic.Relocator.Build.{Permits}
use chromatic.Relocator.Table.{put_back}
use chromatic.Relocator.Ledger.{Ledger-empty, Ledger-find, Ledger-drop}
use chromatic.Interceptor.{
  HookEntry, Hooks, attach, detach, detach_all, replace, revert, unhook_all,
}
use chromatic.Interceptor.Failure.{Kept, ThrowLeaves-attach-Kept, ThrowLeaves-replace-Kept}
use chromatic.Interceptor.Replacing.{attach-Hooked, replace-Hooked}
use chromatic.Interceptor.Tracked.{
  Sees, view-written, view-put_back, unhook-written, aim, kept_bytes, ptr_of, erase_ptr_lem,
  Tracked, Tracked-Kept, Tracked-Hooked,
}
use chromatic.Interceptor.Undo.{detach_of_unhook}

module _ (t : Tools) (os : Os) (enter leave : ℕ) (permits : Permits t) (Site : ℕ → Type 0)
    (separate : (a b : ℕ)
      → Site a
      → Site b
      → a ≢ b
      → (a + patch_size t.arch ≤ b) ⊎ (b + patch_size t.arch ≤ a))
    (original : ℕ → ℕ) (view : (ℕ → ℕ) → ℕ → ℕ) (seen : Sees (patch_size t.arch) Site view) where
  abbrev pub Follows : Hooks → Type 0
  Follows = Tracked t os enter leave permits Site separate original view seen

  abbrev pub Goes : Hooks → Hooks → Type 0
  Goes s s' = Follows s' × (s'.next_hook_id ≤ s.next_hook_id + 1)

  Goes-Kept : (s s' : Hooks) → Kept s s' → Follows s → Goes s s'
  Goes-Kept s s' k l = (
    Tracked-Kept t os enter leave permits Site separate original view seen s s' k l,
    omega (arith, k.hooks.next_hook_id),
  )

  Goes-stay : (s : Hooks) → Follows s → Goes s s
  Goes-stay s l = (l, omega arith)

  pub attach-Goes :
      (text : Text) (on_enter on_leave : Option ℕ) (s : Hooks)
      → ((target : ℕ) → parse_hex_addr text ≡ ok target → Site target)
      → s.next_hook_id + 1 < u64_mod
      → Follows s
      → Goes s (state_of (attach t os enter leave text on_enter on_leave s))
  unfolding attach
  attach-Goes text on_enter on_leave s site small l =
      of_result (parse_hex_addr text) (attach t os enter leave text on_enter on_leave s) refl refl
    where
      of_result :
          (r : Result ℕ) (o : Outcome Hooks Text)
          → parse_hex_addr text ≡ r
          → attach t os enter leave text on_enter on_leave s ≡ o
          → Goes s (state_of o)
      of_result (err x) (done s' id) parsed h = let h' = rw (parsed, attach) at h in cc
      of_result (ok target) (done s' id) parsed h =
          let (e, bytes, v) =
            attach-Hooked t os enter leave text on_enter on_leave s s' target id parsed h in
          (
            Tracked-Hooked t os enter leave permits Site separate original view seen s s' target e
                bytes v (site target parsed) small l,
            omega (arith, v.next_hook_id),
          )
      of_result r (throw s' x) parsed h =
          Goes-Kept s s'
            (rw h at (ThrowLeaves-attach-Kept t os enter leave permits text on_enter on_leave s)) l

  pub replace-Goes :
      (text replacement_text : Text) (s : Hooks)
      → ((target : ℕ) → parse_hex_addr text ≡ ok target → Site target)
      → s.next_hook_id + 1 < u64_mod
      → Follows s
      → Goes s (state_of (replace t os enter leave text replacement_text s))
  unfolding replace
  replace-Goes text replacement_text s site small l =
      of_result (parse_hex_addr text) (parse_hex_addr replacement_text)
        (replace t os enter leave text replacement_text s) refl refl refl
    where
      of_result :
          (r r' : Result ℕ) (o : Outcome Hooks Text)
          → parse_hex_addr text ≡ r
          → parse_hex_addr replacement_text ≡ r'
          → replace t os enter leave text replacement_text s ≡ o
          → Goes s (state_of o)
      of_result (err x) r' (done s' id) parsed parsed' h = let h' = rw (parsed, replace) at h in cc
      of_result (ok target) (err x) (done s' id) parsed parsed' h =
          let h' = rw (parsed, parsed', replace) at h in cc
      of_result (ok target) (ok replacement) (done s' id) parsed parsed' h =
          let (e, v) =
            replace-Hooked t os enter leave text replacement_text s s' target replacement id parsed
              parsed' h in
          (
            Tracked-Hooked t os enter leave permits Site separate original view seen s s' target e _
                v (site target parsed) small l,
            omega (arith, v.next_hook_id),
          )
      of_result r r' (throw s' x) parsed parsed' h =
          Goes-Kept s s'
            (rw h at (ThrowLeaves-replace-Kept t os enter leave permits text replacement_text s)) l

  pub detach-Goes :
      (text : Text) (s : Hooks) → Follows s → Goes s (state_of (detach t os enter leave text s))
  unfolding detach
  detach-Goes text s l = of_result (parse_hex_addr text) refl
    where
      of_found :
          (id : ℕ) (o : Option HookEntry)
          → parse_hex_addr text ≡ ok id
          → lookup id s.hooks_by_id ≡ o
          → Goes s (state_of (detach t os enter leave text s))
      of_found id none parsed found = rw (detach, parsed, found) (Goes-stay s l)
      of_found id (some e) parsed found =
          let (p, gone, written) = unhook-written t os enter leave permits e s in
          let shown =
            view-written t os enter leave permits Site separate original view seen s id e p.memory l
              found written in
          rw
            (detach_of_unhook t os enter leave text id e s (record s { process = p }) parsed found
              gone)
            (
              rw shown (
                  Ledger-drop aim kept_bytes ptr_of (patch_size t.arch) Site separate original _ _ _
                    _ _ l id e found),
              omega arith,
            )

      of_result :
          (r : Result ℕ)
          → parse_hex_addr text ≡ r
          → Goes s (state_of (detach t os enter leave text s))
      of_result (err x) parsed = rw (detach, parsed) (Goes-stay s l)
      of_result (ok id) parsed = of_found id (lookup id s.hooks_by_id) parsed refl

  pub revert-Goes :
      (text : Text) (s : Hooks) → Follows s → Goes s (state_of (revert t os enter leave text s))
  unfolding revert
  revert-Goes text s l = of_result (parse_hex_addr text) refl
    where
      of_found :
          (target : ℕ) (o : Option HookEntry)
          → parse_hex_addr text ≡ ok target
          → lookup target s.hooks_by_target ≡ o
          → Goes s (state_of (revert t os enter leave text s))
      of_found target none parsed found = rw (revert, parsed, found) (Goes-stay s l)
      of_found target (some e) parsed found =
          let (p, gone, written) = unhook-written t os enter leave permits e s in
          let (aimed, id, by_id) =
            Ledger-find aim kept_bytes ptr_of (patch_size t.arch) Site separate original _ _ _ _ _ l
              target e found in
          let dropped =
            Ledger-drop aim kept_bytes ptr_of (patch_size t.arch) Site separate original _ _ _ _ _ l
              id e by_id in
          let shown =
            view-written t os enter leave permits Site separate original view seen s id e p.memory l
              by_id written in
          rw (revert, parsed, found, gone)
            (
              rw
                  (
                    shown,
                    erase_ptr_lem (patch_size t.arch) s.hooks_by_id id e l.spread by_id,
                    ← aimed,
                  )
                  dropped,
              omega arith,
            )

      of_result :
          (r : Result ℕ)
          → parse_hex_addr text ≡ r
          → Goes s (state_of (revert t os enter leave text s))
      of_result (err x) parsed = rw (revert, parsed) (Goes-stay s l)
      of_result (ok target) parsed = of_found target (lookup target s.hooks_by_target) parsed refl

  -- Taking all hooks away writes all saved bytes back.
  unhook_all-written :
      (es : List (ℕ × HookEntry)) (s : Hooks)
      → (p : Process) × (unhook_all t os enter leave es s ≡ done (record s { process = p }) tt)
        × (p.memory ≡ put_back aim kept_bytes ptr_of (patch_size t.arch) es s.process.memory)
  unfolding unhook_all put_back
  unhook_all-written [] s = (s.process, refl, refl)
  unhook_all-written ((id, e) ∷ es) s =
      let (p, gone, written) = unhook-written t os enter leave permits e s in
      let (q, rest, written') = unhook_all-written es (record s { process = p }) in
      (q, rw (gone, rest) refl, rw (← written) written')

  pub detach_all-done :
      (s : Hooks)
      → Follows s
      → (q : Hooks) × (detach_all t os enter leave s ≡ done q tt)
        × (view q.process.memory ≡ original)
        × (q.hooks_by_id ≡ [])
        × (q.hooks_by_target ≡ [])
        × (q.next_hook_id ≡ s.next_hook_id)
  unfolding detach_all
  detach_all-done s l =
      let (p, gone, written) = unhook_all-written s.hooks_by_id s in
      (
        record s { process = p; hooks_by_id = []; hooks_by_target = [] },
        rw (detach_all, gone) refl,
        ap view written
            ∙ (view-put_back t os enter leave permits Site separate original view seen s.hooks_by_id
                  s.process.memory l.sites l.sized
                ∙ l.restored),
        refl,
        refl,
        refl,
      )

  pub Follows-empty :
      (s : Hooks)
      → view s.process.memory ≡ original
      → s.hooks_by_id ≡ []
      → s.hooks_by_target ≡ []
      → Follows s
  Follows-empty s same none_id none_target =
      rw (same, none_id, none_target)
        (Ledger-empty aim kept_bytes ptr_of (patch_size t.arch) Site original s.next_hook_id
          s.next_ptr)
