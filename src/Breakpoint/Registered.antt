-- ===== src/Breakpoint/Registered.antt =====
-- The handler of the software breakpoints in the registry: it is there while it is installed, behind the
-- handlers that were there before.
use mathlib.Core.List.{append-nil}
use chromatic.Base.{
  ℕ, suc, ◌+◌, ◌%◌, ◌<◌, ◌≤◌, ◌≡◌, refl, Bool, true, false, List, [], ◌∷◌, ◌++◌, ==_refl, arith,
  All, Bool-cases, inl, inr,
}
use chromatic.Hex.{u64_mod}
use chromatic.Platform.{Os}
use chromatic.Handlers.{
  Handlers, HandlerEntry, breakpoint, breakpoint_sigtrap, register_handler, unregister_handler,
  ref_disable, without,
}
use chromatic.Handlers.Registry.{All-mono, without-append, without_absent, ref_enable-SameRegistry}
use chromatic.Breakpoint.{Breakpoints, ensure_handler_installed, maybe_remove_handler, is_empty}

module _ (base : List HandlerEntry) where
  -- The registry has the handlers `base` and, while it is installed, the one of the breakpoints, under
  -- the id that is kept. The counter of ids is `off` below its end while it is not installed, and `on`
  -- while it is.
  abbrev pub Listed : ℕ → ℕ → Bool → ℕ → Handlers → Type 0
  Listed off on false id h =
      (h.handlers ≡ base)
      × All (λ (e : HandlerEntry). e.id < h.next_id) base
      × (h.next_id + off < u64_mod)
  Listed off on true id h =
      (h.handlers
        ≡ base ++ record { id = id; type = breakpoint; callback = breakpoint_sigtrap } ∷ [])
      × All (λ (e : HandlerEntry). e.id < id) base
      × (id < h.next_id)
      × (h.next_id + on < u64_mod)

  pub Listed-mono :
      (off on off' on' : ℕ) (installed : Bool) (id : ℕ) (h : Handlers)
      → off' ≤ off
      → on' ≤ on
      → Listed off on installed id h
      → Listed off' on' installed id h
  Listed-mono off on off' on' false id h le le' (same, fresh, room) = (same, fresh, omega arith)
  Listed-mono off on off' on' true id h le le' (same, fresh, below, room) =
      (same, fresh, below, omega arith)

  abbrev pub Registered : ℕ → ℕ → Breakpoints → Type 0
  Registered off on s = Listed off on s.handler_installed s.sigtrap_handler_id s.handlers

  -- Installing uses up one id.
  pub ensure-Registered :
      (os : Os) (k : ℕ) (s : Breakpoints)
      → Registered (suc k) k s
      → Registered (suc k) k (ensure_handler_installed os s)
  unfolding ensure_handler_installed register_handler
  ensure-Registered os k s r = elim (Bool-cases s.handler_installed) [
    | inl on ↦ let r' = rw on at r in rw on r'
    | inr off ↦
        let (same, fresh, room) = rw off at r in
        let v = ref_enable-SameRegistry os s.handlers in
        let next : (s.handlers.next_id + 1) % u64_mod ≡ s.handlers.next_id + 1 = omega arith in
        rw off (rw (v.handlers, v.next_id, next) (rw same refl, fresh, omega arith, omega arith))
  ]

  removed :
      (id : ℕ) (es : List HandlerEntry)
      → es ≡ base ++ record { id = id; type = breakpoint; callback = breakpoint_sigtrap } ∷ []
      → All (λ (e : HandlerEntry). e.id < id) base
      → without id es ≡ base
  unfolding without
  removed id es same fresh =
      rw (same, without-append id base _, without_absent id base fresh)
        (rw (==_refl id) (append-nil base))

  -- The handler goes, and nothing else.
  pub maybe_remove-Registered :
      (k : ℕ) (s : Breakpoints) → Registered k k s → Registered k k (maybe_remove_handler s)
  unfolding maybe_remove_handler unregister_handler ref_disable is_empty
  maybe_remove-Registered k s r = elim (Bool-cases s.handler_installed) [
    | inr off ↦ let r' = rw off at r in rw off r'
    | inl on ↦
        let r' = rw on at r in
        elim (Bool-cases (is_empty s.bp_by_address)) [
          | inr some_left ↦ rw (on, some_left) r'
          | inl none_left ↦
              rw (on, none_left)
                (
                  removed s.sigtrap_handler_id s.handlers.handlers r'.0 r'.1,
                  All-mono s.sigtrap_handler_id s.handlers.next_id (omega (arith, r'.2)) base r'.1,
                  r'.3,
                )
        ]
  ]
