-- ===== src/Interceptor/Frames.antt =====
-- Relations between the states before and behind a call of the hooks that its steps keep.
use chromatic.Base.{
  ℕ, ◌+◌, ◌≡◌, Text, Option, none, some, lookup, Result, ok, err, Outcome, done, throw, M, lift,
  bind_outcome, runtime_error, codes, ◌++◌, state_of, List,
}
use chromatic.Platform.{Os}
use chromatic.Relocator.{make_writable_and_patch, build_relocated_code, release_code}
use chromatic.Relocator.Host.{Tools, Process}
use chromatic.Relocator.Build.{
  build_relocated_code-memory, build_trampoline-memory, release_code-memory,
}
use chromatic.Relocator.Trampoline.{build_trampoline}
use chromatic.Interceptor.{
  HookEntry, Hooks, on_process, new_entry, refuse_hooked, release, trampoline_or_release,
}

module _ (R : Hooks → Hooks → Type 0) where
  -- The state that an outcome holds.
  abbrev pub Leaves : {A : Type 0} → Hooks → Outcome Hooks A → Type 0
  Leaves s (done s' a) = R s s'
  Leaves s (throw s' e) = R s s'

  -- Where it throws, the state is related to `s`.
  abbrev pub ThrowLeaves : {A : Type 0} → Hooks → Outcome Hooks A → Type 0
  ThrowLeaves s (done s' a) = Unit {0}
  ThrowLeaves s (throw s' e) = R s s'

  -- It holds between states that differ in the live code, or in the address of the next entry, and
  -- where a patch fails.
  pub record Framed (t : Tools) : Type 0 where
    pub here : (s : Hooks) → R s s
    pub later : (s s₁ s₂ : Hooks) → R s s₁ → R s₁ s₂ → R s s₂
    pub process :
        (s : Hooks) (p : Process) → p.memory ≡ s.process.memory → R s (record s { process = p })
    pub entry : (s : Hooks) → R s (record s { next_ptr = s.next_ptr + 1 })
    pub patch :
        (a : ℕ) (bs : List ℕ) (s : Hooks)
        → ThrowLeaves s (on_process (make_writable_and_patch t a bs) s)

  module _ (t : Tools) (f : Framed t) where
    ThrowLeaves-later :
        {A : Type 0} (s s₁ : Hooks) (o : Outcome Hooks A)
        → R s s₁
        → ThrowLeaves s₁ o
        → ThrowLeaves s o
    ThrowLeaves-later s s₁ (done s' a) v h = tt
    ThrowLeaves-later s s₁ (throw s' e) v h = f.later s s₁ s' v h

    -- A step that keeps the relation, and then one that does where it throws.
    pub ThrowLeaves-bind_outcome :
        {A B : Type 0} (s : Hooks) (o : Outcome Hooks A) (k : A → Hooks → Outcome Hooks B)
        → Leaves s o
        → ((a : A) (s₁ : Hooks) → ThrowLeaves s₁ (k a s₁))
        → ThrowLeaves s (bind_outcome o k)
    ThrowLeaves-bind_outcome s (done s₁ a) k h next = ThrowLeaves-later s s₁ (k a s₁) h (next a s₁)
    ThrowLeaves-bind_outcome s (throw s₁ e) k h next = h

    -- A step that keeps the relation where it throws, before one that does not throw.
    pub ThrowLeaves-last :
        {A B : Type 0} (s : Hooks) (o : Outcome Hooks A) (k : A → Hooks → Outcome Hooks B)
        → ThrowLeaves s o
        → ((a : A) (s₁ : Hooks) → ThrowLeaves s (k a s₁))
        → ThrowLeaves s (bind_outcome o k)
    ThrowLeaves-last s (done s₁ a) k h next = next a s₁
    ThrowLeaves-last s (throw s₁ e) k h next = h

    Leaves-on_process :
        {A : Type 0} (m : M Process A) (s : Hooks)
        → (state_of (m s.process)).memory ≡ s.process.memory
        → Leaves s (on_process m s)
    unfolding on_process
    Leaves-on_process {A} m s kept = of_outcome (m s.process) kept
      where
        of_outcome :
            (o : Outcome Process A)
            → (state_of o).memory ≡ s.process.memory
            → Leaves s (elim o [
              | done p a ↦ done (record s { process = p }) a
              | throw p e ↦ throw (record s { process = p }) e
            ])
        of_outcome (done p a) h = f.process s p h
        of_outcome (throw p e) h = f.process s p h

    pub Leaves-build_relocated_code :
        (source n : ℕ) (s : Hooks) → Leaves s (on_process (build_relocated_code t source n) s)
    Leaves-build_relocated_code source n s =
        Leaves-on_process (build_relocated_code t source n) s
          (build_relocated_code-memory t source n s.process)

    pub Leaves-refuse_hooked :
        (target : ℕ) (text : Text) (s : Hooks) → Leaves s (refuse_hooked target text s)
    unfolding refuse_hooked
    Leaves-refuse_hooked target text s = of_lookup (lookup target s.hooks_by_target)
      where
        of_lookup :
            (o : Option HookEntry)
            → Leaves {A = Unit {0}} s (elim o [
              | some e ↦ throw s (runtime_error (codes "Already hooked at " ++ text))
              | none ↦ done s tt
            ])
        of_lookup none = f.here s
        of_lookup (some e) = f.here s

    pub Leaves-lift : {A : Type 0} (r : Result A) (s : Hooks) → Leaves s (lift r s)
    Leaves-lift (ok target) s = f.here s
    Leaves-lift (err e) s = f.here s

    pub Leaves-new_entry : (s : Hooks) → Leaves s (new_entry s)
    unfolding new_entry
    Leaves-new_entry s = f.entry s

    pub Leaves-trampoline_or_release :
        (os : Os) (enter leave user relocated : ℕ) (s : Hooks)
        → Leaves s (trampoline_or_release t os enter leave user relocated s)
    unfolding trampoline_or_release release
    Leaves-trampoline_or_release os enter leave user relocated s =
        of_outcome (on_process (build_trampoline t os enter (some leave) user relocated) s) (
          Leaves-on_process (build_trampoline t os enter (some leave) user relocated) s
            (build_trampoline-memory t os enter (some leave) user relocated s.process))
      where
        of_outcome :
            (o : Outcome Hooks ℕ)
            → Leaves s o
            → Leaves s (elim o [
              | done s' code ↦ done s' code
              | throw s' e ↦ throw (release relocated s') e
            ])
        of_outcome (done s' code) h = h
        of_outcome (throw s' e) h = f.later s s' (release relocated s') h (
            f.process s' (release_code relocated s'.process)
              (release_code-memory relocated s'.process))
