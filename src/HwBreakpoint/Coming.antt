-- ===== src/HwBreakpoint/Coming.antt =====
-- What NativeHardwareBreakpoint::set leaves where it returns.
use chromatic.Base.{
  ℕ, ◌+◌, ◌≡◌, refl, Option, none, some, List, Text, Bool-cases, inl, inr, assign, lift, done,
  throw, ap, ◌∙◌, bind_outcome, lookup, runtime_error, codes, ◌++◌, leb, length,
}
use chromatic.Base.Triples.{Gives, Gives-bind_outcome, Gives-lift}
use chromatic.Hex.{to_hex_addr, parse_hex_addr}
use chromatic.Platform.{Os}
use chromatic.Relocator.Host.{Tools}
use chromatic.HwBreakpoint.{
  HwBreakpoints, HwBreakpointEntry, PerfAttr, parse_type, platform_max_breakpoints,
  ensure_hw_handler_installed,
}
use chromatic.HwBreakpoint.Slots.{HwBpType}
use chromatic.HwBreakpoint.Requests.{
  new_entry, refuse_set, refuse_beyond, register, build_codes, is_supported, install_or_release,
  set,
}
use chromatic.HwBreakpoint.Keeping.{Kept, Any, install_or_release-Keeps, build_codes-Keeps}

-- One breakpoint more than in `s`, under the id of `text`, and the handlers that installing gives.
pub record HasCome (os : Os) (s : HwBreakpoints) (text : Text) (q : HwBreakpoints) : Type 0 where
  pub entry : HwBreakpointEntry
  pub its_id : text ≡ to_hex_addr s.next_hw_id
  pub by_id : q.hw_by_id ≡ assign s.next_hw_id entry s.hw_by_id
  pub by_address : q.hw_by_address ≡ assign entry.address entry s.hw_by_address
  pub handlers : q.handlers ≡ (ensure_hw_handler_installed os s).handlers
  pub installed : q.handler_installed ≡ (ensure_hw_handler_installed os s).handler_installed
  pub handler_id : q.hw_handler_id ≡ (ensure_hw_handler_installed os s).hw_handler_id

ensure_keeps :
    (os : Os) (s : HwBreakpoints)
    → let q = ensure_hw_handler_installed os s in
      (q.hw_by_id ≡ s.hw_by_id)
      × (q.hw_by_address ≡ s.hw_by_address)
      × (q.next_hw_id ≡ s.next_hw_id)
unfolding ensure_hw_handler_installed
ensure_keeps os s = elim (Bool-cases s.handler_installed) [
  | inl on ↦ rw on (refl, refl, refl)
  | inr off ↦ rw off (refl, refl, refl)
]

module _ (t : Tools) (os : Os) (perf_open : List ℕ → PerfAttr → Option ℕ) (hw_dispatch : ℕ) where
  register-HasCome :
      (s q : HwBreakpoints) (e : HwBreakpointEntry)
      → Kept (ensure_hw_handler_installed os s) q
      → Gives Any
          (λ (text : Text). HasCome os s text)
          (bind_outcome (register e q) λ id q'. done q' (to_hex_addr id))
  unfolding register
  register-HasCome s q e (handlers, installed, handler_id, by_id, by_address, next) =
      let (ids, addresses, ensured) = ensure_keeps os s in
      record {
        entry = e;
        its_id = ap to_hex_addr (next ∙ ensured);
        by_id =
            ap (λ k. assign k e q.hw_by_id) (next ∙ ensured)
            ∙ ap (assign s.next_hw_id e) (by_id ∙ ids);
        by_address = ap (assign e.address e) (by_address ∙ addresses);
        handlers = handlers;
        installed = installed;
        handler_id = handler_id;
      }

  refuse_set-Same :
      (address : ℕ) (text : Text) (s q : HwBreakpoints)
      → q ≡ s
      → Gives Any (λ (_ : Unit {0}) q'. q' ≡ s) (refuse_set address text q)
  unfolding refuse_set
  refuse_set-Same address text s q same = of_found (lookup address q.hw_by_address)
    where
      of_found :
          (o : Option HwBreakpointEntry)
          → Gives {A = Unit {0}} Any
              (λ _ q'. q' ≡ s)
              (elim o [
                | some e ↦
                    throw q (runtime_error (codes "Hardware breakpoint already set at " ++ text))
                | none ↦ done q tt
              ])
      of_found none = same
      of_found (some e) = tt

  refuse_beyond-Same :
      (max : ℕ) (s q : HwBreakpoints)
      → q ≡ s
      → Gives Any (λ (_ : Unit {0}) q'. q' ≡ s) (refuse_beyond max q)
  unfolding refuse_beyond
  refuse_beyond-Same max s q same = elim (Bool-cases (leb max (length q.hw_by_address))) [
    | inl full ↦ rw full tt
    | inr free ↦ rw free same
  ]

  pub set-HasCome :
      (address_text type_text : Text) (size : ℕ) (on_hit : Option ℕ) (s : HwBreakpoints)
      → Gives Any
          (λ (text : Text). HasCome os s text)
          (set t os perf_open hw_dispatch address_text type_text size on_hit s)
  unfolding set new_entry
  set-HasCome address_text type_text size on_hit s = elim (Bool-cases (is_supported os t.arch)) [
    | inr e ↦ rw (e, set) tt
    | inl e ↦
        rw (e, set)
          (Gives-bind_outcome Any (λ (_ : ℕ) q. q ≡ s) R (lift (parse_hex_addr address_text) s) _
            (Gives-lift Any (λ (_ : ℕ) q. q ≡ s) (parse_hex_addr address_text) s tt (λ a _. refl))
            λ address s₁ e₁.
              Gives-bind_outcome Any (λ (_ : HwBpType) q. q ≡ s) R (lift (parse_type type_text) s₁)
                _
                (Gives-lift Any (λ (_ : HwBpType) q. q ≡ s) (parse_type type_text) s₁ tt
                  (λ a _. e₁))
                λ type s₂ e₂.
                  Gives-bind_outcome Any (λ (_ : Unit {0}) q. q ≡ s) R
                    (refuse_set address address_text s₂) _
                    (refuse_set-Same address address_text s s₂ e₂)
                    λ u₃ s₃ e₃.
                      Gives-bind_outcome Any (λ (_ : Unit {0}) q. q ≡ s) R
                        (refuse_beyond (platform_max_breakpoints os t.arch) s₃) _
                        (refuse_beyond-Same (platform_max_breakpoints os t.arch) s s₃ e₃)
                        λ u₄ s₄ e₄. from_here address type s₄ e₄)
  ]
    where
      R : Text → HwBreakpoints → Type 0
      R text = HasCome os s text

      entry : ℕ → ℕ → HwBpType → ℕ → ℕ × ℕ → HwBreakpointEntry
      entry ptr address type handle code = record {
        ptr = ptr;
        address = address;
        type = type;
        size = size;
        on_hit = on_hit;
        handle = handle;
        trampoline_code = code.0;
        relocated_code = code.1;
      }

      from_here :
          (address : ℕ) (type : HwBpType) (s₄ : HwBreakpoints)
          → s₄ ≡ s
          → let s₅ = ensure_hw_handler_installed os s₄ in
            Gives Any R (
              bind_outcome
                (build_codes t os perf_open hw_dispatch type address s₅.next_ptr
                  (record s₅ { next_ptr = s₅.next_ptr + 1 }))
                λ code s₇.
                  bind_outcome
                    (install_or_release t os perf_open hw_dispatch code address type size s₇)
                    λ handle s₈.
                      bind_outcome
                        (register (entry s₅.next_ptr address type handle code) s₈)
                        λ id s₉. done s₉ (to_hex_addr id))
      from_here address type s₄ same =
          let base = ensure_hw_handler_installed os s in
          let s₅ : HwBreakpoints = ensure_hw_handler_installed os s₄ in
          let s₆ : HwBreakpoints = record s₅ { next_ptr = s₅.next_ptr + 1 } in
          let kept : Kept base s₆ = rw same (refl, refl, refl, refl, refl, refl) in
          Gives-bind_outcome Any (λ (_ : ℕ × ℕ). Kept base) R
            (build_codes t os perf_open hw_dispatch type address s₅.next_ptr s₆) _
            (build_codes-Keeps base t os perf_open hw_dispatch type address s₅.next_ptr s₆ kept)
            λ code s₇ k₇.
              Gives-bind_outcome Any (λ (_ : ℕ). Kept base) R
                (install_or_release t os perf_open hw_dispatch code address type size s₇) _
                (install_or_release-Keeps base t os perf_open hw_dispatch code address type size s₇
                  k₇)
                λ handle s₈ k₈.
                  register-HasCome s s₈ (entry s₅.next_ptr address type handle code) k₈
