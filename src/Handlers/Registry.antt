-- ===== src/Handlers/Registry.antt =====
-- The registry as a set of handlers with ids, and the names of the exception types.
use chromatic.Base.{
  Text, sym, codes, text_eq→eq, Bool-cases, ℕ, ◌+◌, ◌%◌, ◌<◌, ◌≡◌, ◌≢◌, refl, true, false, List, [],
  ◌∷◌, ◌++◌, ◌==◌, All, All-append, arith, inl, inr, text_eq, ==_refl, ◌≤◌,
}
use mathlib.Core.List.{append-nil}
use chromatic.Hex.{u64_mod}
use chromatic.Handlers.{
  ExceptionType, access_violation, bus_error, breakpoint, single_step, illegal_instruction, unknown,
  exception_type_to_string, string_to_exception_type, Callback, HandlerEntry, Handlers,
  register_handler, unregister_handler, without, ref_enable, install_handlers, install_posix,
}
use chromatic.Base.Signed.{is_zero, inc}
use chromatic.Platform.{Os, linux, android, darwin, windows}

-- Every registered id was given out before.
abbrev pub Fresh : Handlers → Type 0
Fresh s = All (λ (e : HandlerEntry). e.id < s.next_id) s.handlers

pub without-append :
    (k : ℕ) (es fs : List HandlerEntry) → without k (es ++ fs) ≡ without k es ++ without k fs
unfolding without
without-append k [] fs = refl
without-append k (e ∷ es) fs = elim (Bool-cases (e.id == k)) [
  | inl h ↦ rw h (without-append k es fs)
  | inr h ↦ rw h (rw (without-append k es fs))
]

pub without_absent :
    (k : ℕ) (es : List HandlerEntry) → All (λ (e : HandlerEntry). e.id < k) es → without k es ≡ es
unfolding without
without_absent k [] h = refl
without_absent k (e ∷ es) (he, hs) =
    let miss : (e.id == k) ≡ false = ground arith in rw miss (rw (without_absent k es hs))

pub All-mono :
    (m n : ℕ)
    → m ≤ n
    → (es : List HandlerEntry) → All (λ (e : HandlerEntry). e.id < m) es
    → All (λ (e : HandlerEntry). e.id < n) es
All-mono m n le [] h = tt
All-mono m n le (e ∷ es) (he, hs) = (omega arith, All-mono m n le es hs)

All-without :
    (k n : ℕ) (es : List HandlerEntry)
    → All (λ (e : HandlerEntry). e.id < n) es
    → All (λ (e : HandlerEntry). e.id < n) (without k es)
unfolding without
All-without k n [] h = tt
All-without k n (e ∷ es) (he, hs) = ground (arith, All-without k n es hs)

-- A handler that is registered and then unregistered leaves the handlers as they were, in their
-- order, as long as every id in the registry was given out before.
unregister-register :
    (t : ExceptionType) (c : Callback) (s : Handlers)
    → Fresh s
    → (unregister_handler s.next_id (register_handler t c s)).handlers ≡ s.handlers
unfolding unregister_handler register_handler
unregister-register t c s fresh =
    rw (without-append s.next_id s.handlers _, without_absent s.next_id s.handlers fresh)
      (rw (==_refl s.next_id) (append-nil s.handlers))

-- A handler under another id stays registered, in its place.
unregister_keeps :
    (k : ℕ) (s : Handlers) (es fs : List HandlerEntry) (e : HandlerEntry)
    → s.handlers ≡ es ++ e ∷ fs
    → e.id ≢ k
    → (unregister_handler k s).handlers ≡ without k es ++ e ∷ without k fs
unfolding unregister_handler without
unregister_keeps k s es fs e split ne =
    let miss : (e.id == k) ≡ false = ground arith in rw (split, without-append k es (e ∷ fs), miss)

-- Registering a handler keeps every registered id below the counter, as long as the counter does
-- not wrap around.
register-Fresh :
    (t : ExceptionType) (c : Callback) (s : Handlers)
    → s.next_id + 1 < u64_mod
    → Fresh s
    → Fresh (register_handler t c s)
unfolding register_handler
register-Fresh t c s room fresh =
    let e : (s.next_id + 1) % u64_mod ≡ s.next_id + 1 = omega arith in
    rw e (
      All-append _ s.handlers _ (All-mono s.next_id (s.next_id + 1) (omega arith) s.handlers fresh)
        (omega arith, tt))

unregister-Fresh : (k : ℕ) (s : Handlers) → Fresh s → Fresh (unregister_handler k s)
unfolding unregister_handler
unregister-Fresh k s fresh = All-without k s.next_id s.handlers fresh

-- The names of the exception types are read back as the types that they were printed from.
string_to_exception_type-to_string :
    (t : ExceptionType) → string_to_exception_type (exception_type_to_string t) ≡ t
unfolding string_to_exception_type exception_type_to_string text_eq
string_to_exception_type-to_string access_violation = refl
string_to_exception_type-to_string bus_error = refl
string_to_exception_type-to_string breakpoint = refl
string_to_exception_type-to_string single_step = refl
string_to_exception_type-to_string illegal_instruction = refl
string_to_exception_type-to_string unknown = refl

-- A text that is read as a type other than `unknown` is the name of that type.
exception_type_to_string-string_to_exception_type :
    (s : Text)
    → string_to_exception_type s ≢ unknown
    → exception_type_to_string (string_to_exception_type s) ≡ s
unfolding string_to_exception_type exception_type_to_string
exception_type_to_string-string_to_exception_type s known =
    elim (Bool-cases (text_eq s (codes "access_violation"))) [
      | inl e ↦ rw e (sym (text_eq→eq s _ e))
      | inr e₁ ↦ elim (Bool-cases (text_eq s (codes "bus_error"))) [
        | inl e ↦ rw (e₁, e) (sym (text_eq→eq s _ e))
        | inr e₂ ↦ elim (Bool-cases (text_eq s (codes "breakpoint"))) [
          | inl e ↦ rw (e₁, e₂, e) (sym (text_eq→eq s _ e))
          | inr e₃ ↦ elim (Bool-cases (text_eq s (codes "single_step"))) [
            | inl e ↦ rw (e₁, e₂, e₃, e) (sym (text_eq→eq s _ e))
            | inr e₄ ↦ elim (Bool-cases (text_eq s (codes "illegal_instruction"))) [
              | inl e ↦ rw (e₁, e₂, e₃, e₄, e) (sym (text_eq→eq s _ e))
              | inr e₅ ↦ absurd (known (rw (e₁, e₂, e₃, e₄, e₅) refl))
            ]
          ]
        ]
      ]
    ]

-- Installing and counting leave the registered handlers alone.
pub record SameRegistry (s s' : Handlers) : Type 0 where
  pub handlers : s'.handlers ≡ s.handlers
  pub next_id : s'.next_id ≡ s.next_id

install-SameRegistry : (os : Os) (s : Handlers) → SameRegistry s (install_handlers os s)
unfolding install_handlers install_posix
install-SameRegistry windows s = record { handlers = refl; next_id = refl }
install-SameRegistry linux s = record { handlers = refl; next_id = refl }
install-SameRegistry android s = record { handlers = refl; next_id = refl }
install-SameRegistry darwin s = record { handlers = refl; next_id = refl }

pub ref_enable-SameRegistry : (os : Os) (s : Handlers) → SameRegistry s (ref_enable os s)
unfolding ref_enable
ref_enable-SameRegistry os s = elim (Bool-cases (is_zero s.ref_count)) [
  | inr e ↦ rw e (record { handlers = refl; next_id = refl })
  | inl e ↦ elim (Bool-cases s.enabled) [
    | inl f ↦ rw (e, f) (record { handlers = refl; next_id = refl })
    | inr f ↦
        let v =
          install-SameRegistry os (record s { ref_count = inc s.ref_count; enabled = true }) in
        rw (e, f) (record { handlers = v.handlers; next_id = v.next_id })
  ]
]
