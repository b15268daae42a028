-- ===== src/Handlers/Enabling.antt =====
-- When the process-wide handlers are installed, and what becomes of the original ones.
use chromatic.Base.{◌≡◌, refl, true, false, List, [], ◌∷◌, if◌then◌else◌, ◌⊎◌, inl, inr, Bool-cases}
use chromatic.Base.Signed.{ℤ, is_pos, is_zero}
use chromatic.Platform.{Os, linux, android, darwin, windows}
use chromatic.Handlers.{
  Handlers, Signal, Sigaction, global_handler, is_managed, install_posix, remove_posix,
  install_handlers, remove_handlers, enable, disable, ref_enable, ref_disable,
}

-- A POSIX system: the handlers are installed by sigaction.
abbrev pub IsPosix : Os → Type 0
IsPosix windows = ⊥
IsPosix _ = Unit {0}

-- globalSignalHandler is in place, and the original handlers are saved.
pub record IsLive (orig : Signal → Sigaction) (s : Handlers) : Type 0 where
  pub on : s.enabled ≡ true
  pub ours : (g : Signal) → s.current g ≡ (if is_managed g then global_handler else orig g)
  pub saved : (g : Signal) → is_managed g ≡ true → s.old g ≡ orig g

-- The original handlers are in place.
pub record IsParked (orig : Signal → Sigaction) (s : Handlers) : Type 0 where
  pub off : s.enabled ≡ false
  pub original : (g : Signal) → s.current g ≡ orig g

abbrev pub Tracks : (Signal → Sigaction) → Handlers → Type 0
Tracks orig s = IsLive orig s ⊎ IsParked orig s

pub install_lem : (os : Os) → IsPosix os → (s : Handlers) → install_handlers os s ≡ install_posix s
unfolding install_handlers
install_lem windows p s = absurd p
install_lem linux p s = refl
install_lem android p s = refl
install_lem darwin p s = refl

remove_lem : (os : Os) → IsPosix os → (s : Handlers) → remove_handlers os s ≡ remove_posix s
unfolding remove_handlers
remove_lem windows p s = absurd p
remove_lem linux p s = refl
remove_lem android p s = refl
remove_lem darwin p s = refl

module _ (os : Os) (posix : IsPosix os) (orig : Signal → Sigaction) where
  install-IsLive :
      (s : Handlers)
      → ((g : Signal) → s.current g ≡ orig g)
      → s.enabled ≡ true
      → IsLive orig (install_handlers os s)
  unfolding install_posix
  install-IsLive s original on = rw (install_lem os posix s) (record {
    on = on;
    ours = λ g. rw (original g);
    saved = λ g managed. rw managed (original g);
  })

  remove-original :
      (s : Handlers)
      → ((g : Signal) → s.current g ≡ (if is_managed g then global_handler else orig g))
      → ((g : Signal) → is_managed g ≡ true → s.old g ≡ orig g)
      → (g : Signal) → (remove_handlers os s).current g ≡ orig g
  unfolding remove_posix
  remove-original s ours saved g = rw (remove_lem os posix s) (elim (Bool-cases (is_managed g)) [
    | inl e ↦ rw e (saved g e)
    | inr e ↦ let h = ours g in let h' = rw e at h in rw e h'
  ])

  enable-IsLive : (s : Handlers) → Tracks orig s → IsLive orig (enable os s)
  unfolding enable
  enable-IsLive s (inl v) = rw v.on (record { on = refl; ours = v.ours; saved = v.saved })
  enable-IsLive s (inr v) = rw v.off (install-IsLive _ v.original refl)

  pub ref_enable-Tracks : (s : Handlers) → Tracks orig s → Tracks orig (ref_enable os s)
  unfolding ref_enable
  ref_enable-Tracks s (inl v) = elim (Bool-cases (is_zero s.ref_count)) [
    | inl z ↦ rw (z, v.on) (inl (record { on = refl; ours = v.ours; saved = v.saved }))
    | inr z ↦ rw z (inl (record { on = v.on; ours = v.ours; saved = v.saved }))
  ]
  ref_enable-Tracks s (inr v) = elim (Bool-cases (is_zero s.ref_count)) [
    | inl z ↦ rw (z, v.off) (inl (install-IsLive _ v.original refl))
    | inr z ↦ rw z (inr (record { off = v.off; original = v.original }))
  ]

  pub ref_disable-Tracks : (s : Handlers) → Tracks orig s → Tracks orig (ref_disable s)
  unfolding ref_disable
  ref_disable-Tracks s (inl v) = inl (record { on = v.on; ours = v.ours; saved = v.saved })
  ref_disable-Tracks s (inr v) = inr (record { off = v.off; original = v.original })

  pub disable-IsParked :
      (s : Handlers) → is_pos s.ref_count ≡ false → Tracks orig s → IsParked orig (disable os s)
  unfolding disable remove_posix
  disable-IsParked s free (inl v) =
      rw (v.on, free)
        (record {
          off = rw (remove_lem os posix (record s { enabled = false })) refl;
          original = remove-original _ v.ours v.saved;
        })
  disable-IsParked s free (inr v) = rw v.off (record { off = refl; original = v.original })

-- The calls that count users of the process-wide handlers.
pub data Call : Type 0 where
  enables ref_enables ref_disables disables : Call

unfoldable pub call : Os → Call → Handlers → Handlers
call os enables s = enable os s
call os ref_enables s = ref_enable os s
call os ref_disables s = ref_disable s
call os disables s = disable os s

unfoldable pub calls : Os → List Call → Handlers → Handlers
calls os [] s = s
calls os (c ∷ cs) s = calls os cs (call os c s)

-- No sub-system holds a reference when a script calls disable.
abbrev pub Polite : Call → Handlers → Type 0
Polite disables s = is_pos s.ref_count ≡ false
Polite _ s = Unit {0}

abbrev pub ArePolite : Os → List Call → Handlers → Type 0
ArePolite os [] s = Unit {0}
ArePolite os (c ∷ cs) s = Polite c s × ArePolite os cs (call os c s)

module _ (os : Os) (posix : IsPosix os) (orig : Signal → Sigaction) where
  call-Tracks : (c : Call) (s : Handlers) → Polite c s → Tracks orig s → Tracks orig (call os c s)
  unfolding call
  call-Tracks enables s p v = inl (enable-IsLive os posix orig s v)
  call-Tracks ref_enables s p v = ref_enable-Tracks os posix orig s v
  call-Tracks ref_disables s p v = ref_disable-Tracks os posix orig s v
  call-Tracks disables s p v = inr (disable-IsParked os posix orig s p v)

  calls-Tracks :
      (cs : List Call) (s : Handlers)
      → ArePolite os cs s
      → Tracks orig s
      → Tracks orig (calls os cs s)
  unfolding calls
  calls-Tracks [] s p v = v
  calls-Tracks (c ∷ cs) s p v = calls-Tracks cs (call os c s) p.1 (call-Tracks c s p.0 v)

-- On a POSIX system, after any sequence of enable, refEnable, refDisable and disable in which
-- disable is never called while a sub-system holds a reference, one more such disable puts every
-- signal handler back that was in place when the process-wide handlers were off at the start.
pub disable_restores :
    (os : Os) (s : Handlers) (cs : List Call)
    → IsPosix os
    → s.enabled ≡ false
    → ArePolite os cs s
    → is_pos (calls os cs s).ref_count ≡ false
    → (g : Signal) → (disable os (calls os cs s)).current g ≡ s.current g
disable_restores os s cs posix off polite free =
    let start : Tracks s.current s = inr (record { off = off; original = λ g. refl }) in
    let parked =
      disable-IsParked os posix s.current (calls os cs s) free
        (calls-Tracks os posix s.current cs s polite start) in
    parked.original

again_lem :
    (os : Os) (s : Handlers)
    → IsPosix os
    → s.enabled ≡ true
    → is_pos s.ref_count ≡ true
    → enable os (disable os s) ≡ install_posix (record s { enabled = true })
unfolding enable disable
again_lem os s posix on held = rw (on, held) (install_lem os posix _)

-- A disable while a sub-system holds a reference, followed by an enable, loses the original
-- handlers: on a POSIX system globalSignalHandler is saved as its own original for all four
-- signals, and no later disable takes it out of the kernel's table again.
pub reenable_loses_original :
    (os : Os) (s : Handlers) (g : Signal)
    → IsPosix os
    → s.enabled ≡ true
    → is_pos s.ref_count ≡ true
    → is_managed g ≡ true
    → s.current g ≡ global_handler
    → let again = enable os (disable os s) in
      (again.old g ≡ global_handler)
      × ((z : ℤ) → (disable os (record again { ref_count = z })).current g ≡ global_handler)
unfolding disable install_posix remove_posix
reenable_loses_original os s g posix on held managed ours = rw (again_lem os s posix on held) (
  rw managed ours,
  λ z. elim (Bool-cases (is_pos z)) [
    | inl p ↦ rw (p, managed)
    | inr p ↦ rw p (rw (remove_lem os posix _, managed) ours)
  ],
)
