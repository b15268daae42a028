-- ===== src/HwBreakpoint/Order.antt =====
-- Sequences of the calls of scripts, whether they return or throw.
use chromatic.Base.{ℕ, ◌+◌, Option, List, [], ◌∷◌, Text, Bool-cases, inl, inr, lift, state_of}
use chromatic.Base.Triples.{Gives, Gives-bind_outcome, Gives-lift, Gives-state_of}
use chromatic.Hex.{parse_hex_addr}
use chromatic.Platform.{Os}
use chromatic.Relocator.Host.{Tools}
use chromatic.HwBreakpoint.{
  HwBreakpointEntry, HwBreakpoints, PerfAttr, parse_type, platform_max_breakpoints,
  ensure_hw_handler_installed,
}
use chromatic.HwBreakpoint.Slots.{HwBpType}
use chromatic.HwBreakpoint.Requests.{
  new_entry, refuse_set, refuse_beyond, register, build_codes, is_supported, install_or_release,
  set, remove, remove_all,
}
use chromatic.HwBreakpoint.Reach.{
  IsValid, HasRoom, IsTaken, remove-IsValid, remove_all-IsValid, register-IsValid,
}
use chromatic.HwBreakpoint.Calls.{
  install_or_release-IsTaken, build_codes-HasRoom, refuse_beyond-HasRoom, refuse_set-IsValid,
  ensure-HasRoom,
}

module _ (t : Tools) (os : Os) (perf_open : List ℕ → PerfAttr → Option ℕ) (hw_dispatch : ℕ) where
  abbrev Valid : HwBreakpoints → Type 0
  Valid = IsValid os t.arch

  abbrev Roomy : HwBreakpoints → Type 0
  Roomy = HasRoom os t.arch

  set-IsValid :
      (address_text type_text : Text) (size : ℕ) (on_hit : Option ℕ) (s : HwBreakpoints)
      → Valid s
      → Gives Valid
          (λ (_ : Text). Valid)
          (set t os perf_open hw_dispatch address_text type_text size on_hit s)
  unfolding set new_entry register
  set-IsValid address_text type_text size on_hit s v = elim (Bool-cases (is_supported os t.arch)) [
    | inl e ↦
        rw (e, set)
          (Gives-bind_outcome Valid (λ (_ : ℕ). Valid) R (lift (parse_hex_addr address_text) s) _
            (Gives-lift Valid (λ (_ : ℕ). Valid) (parse_hex_addr address_text) s v (λ a _. v))
            λ address s₁ v₁.
              Gives-bind_outcome Valid (λ (_ : HwBpType). Valid) R (lift (parse_type type_text) s₁)
                _
                (Gives-lift Valid (λ (_ : HwBpType). Valid) (parse_type type_text) s₁ v₁
                  (λ a _. v₁))
                λ type s₂ v₂.
                  Gives-bind_outcome Valid (λ (_ : Unit {0}). Valid) R
                    (refuse_set address address_text s₂) _
                    (refuse_set-IsValid t os perf_open hw_dispatch address address_text s₂ v₂)
                    λ u₃ s₃ v₃.
                      Gives-bind_outcome Valid (λ (_ : Unit {0}). Roomy) R
                        (refuse_beyond (platform_max_breakpoints os t.arch) s₃) _
                        (refuse_beyond-HasRoom t os perf_open hw_dispatch s₃ v₃)
                        λ u₄ s₄ h₄.
                          let s₅ : HwBreakpoints = ensure_hw_handler_installed os s₄ in
                          let h₅ = ensure-HasRoom t os perf_open hw_dispatch s₄ h₄ in
                          let s₆ : HwBreakpoints = record s₅ { next_ptr = s₅.next_ptr + 1 } in
                          Gives-bind_outcome Valid (λ (_ : ℕ × ℕ). Roomy) R
                            (build_codes t os perf_open hw_dispatch type address s₅.next_ptr s₆) _
                            (build_codes-HasRoom t os perf_open hw_dispatch type address s₅.next_ptr
                              s₆
                              (record {
                                valid = record {
                                  bounded = h₅.valid.bounded;
                                  slots = h₅.valid.slots;
                                };
                                room = h₅.room;
                              }))
                            λ code s₇ h₇.
                              Gives-bind_outcome Valid (IsTaken os t.arch) R
                                (install_or_release t os perf_open hw_dispatch code address type
                                  size s₇)
                                _
                                (install_or_release-IsTaken t os perf_open hw_dispatch code address
                                  type size s₇ h₇)
                                λ handle s₈ h₈.
                                  register-IsValid os t.arch
                                    (entry s₅.next_ptr address type handle code) s₈ h₈)
    | inr e ↦ rw (e, set) v
  ]
    where
      R : Text → HwBreakpoints → Type 0
      R _ = Valid

      entry : ℕ → ℕ → HwBpType → ℕ → ℕ × ℕ → HwBreakpointEntry
      entry ptr address type handle code = record {
        ptr = ptr;
        address = address;
        type = type;
        size = size;
        on_hit = on_hit;
        handle = handle;
        trampoline_code = code.0;
        relocated_code = code.1;
      }

-- The calls of scripts.
pub data Call : Type 0 where
  sets : Text → Text → ℕ → Option ℕ → Call
  removes : Text → Call
  removes_all : Call

module _ (t : Tools) (os : Os) (perf_open : List ℕ → PerfAttr → Option ℕ) (hw_dispatch : ℕ) where
  -- The state behind a call, which may throw.
  unfoldable pub call : Call → HwBreakpoints → HwBreakpoints
  call (sets address type size on_hit) s =
      state_of (set t os perf_open hw_dispatch address type size on_hit s)
  call (removes id) s = state_of (remove os id s)
  call removes_all s = remove_all os s

  unfoldable pub calls : List Call → HwBreakpoints → HwBreakpoints
  calls [] s = s
  calls (c ∷ cs) s = calls cs (call c s)

  call-IsValid : (c : Call) (s : HwBreakpoints) → IsValid os t.arch s → IsValid os t.arch (call c s)
  unfolding call
  call-IsValid (sets address type size on_hit) s v =
      Gives-state_of (IsValid os t.arch) (set t os perf_open hw_dispatch address type size on_hit s)
        (set-IsValid t os perf_open hw_dispatch address type size on_hit s v)
  call-IsValid (removes id) s v = remove-IsValid os t.arch id s v
  call-IsValid removes_all s v = remove_all-IsValid os t.arch s

  -- After any sequence of set, remove and removeAll, whether they return or throw, there are at most
  -- maxBreakpoints addresses with a breakpoint, and, where the platform has debug registers, every
  -- breakpoint has one of the slots 0 to 3, its bit is set in the mask of used slots, and no two
  -- breakpoints share a slot, if all that held before the first call.
  pub calls-IsValid :
      (cs : List Call) (s : HwBreakpoints) → IsValid os t.arch s → IsValid os t.arch (calls cs s)
  unfolding calls
  calls-IsValid [] s v = v
  calls-IsValid (c ∷ cs) s v = calls-IsValid cs (call c s) (call-IsValid c s v)
