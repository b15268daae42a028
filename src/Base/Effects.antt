-- ===== src/Base/Effects.antt =====
-- C++ calls that may throw: a value or an exception, and the same over a state that the call
-- changes, where what was changed before a throw stays changed.
use mathlib.Core.Path.{◌≡◌, refl}
use chromatic.Base.Lists.{Text}

pub data Thrown : Type 0 where
  invalid_argument out_of_range : Thrown
  runtime_error : Text → Thrown

pub data Result {ℓ} (A : Type ℓ) : Type ℓ where
  ok : A → Result A
  err : Thrown → Result A

-- A chain of calls that change no state.
abbrev pub and_then {ℓ κ} : {A : Type ℓ} {B : Type κ} → Result A → (A → Result B) → Result B
and_then (ok a) f = f a
and_then (err e) f = err e

pub data Outcome (S A : Type 0) : Type 0 where
  done : S → A → Outcome S A
  throw : S → Thrown → Outcome S A

abbrev pub M : Type 0 → Type 0 → Type 0
M S A = S → Outcome S A

abbrev pub pure : {S A : Type 0} → A → M S A
pure a s = done s a

abbrev pub lift : {S A : Type 0} → Result A → M S A
lift (ok a) s = done s a
lift (err e) s = throw s e

abbrev pub bind_outcome : {S A B : Type 0} → Outcome S A → (A → M S B) → Outcome S B
bind_outcome (done s a) f = f a s
bind_outcome (throw s e) f = throw s e

infixl 5 ◌>>=◌ ◌>>◌
abbrev pub ◌>>=◌ : {S A B : Type 0} → M S A → (A → M S B) → M S B
◌>>=◌ m f s = bind_outcome (m s) f

abbrev pub ◌>>◌ : {S B : Type 0} → M S (Unit {0}) → M S B → M S B
m >> k = m >>= λ _. k

abbrev pub modify : {S : Type 0} → (S → S) → M S (Unit {0})
modify f s = done (f s) tt

-- The state that a call leaves, whether it returns or throws.
abbrev pub state_of : {S A : Type 0} → Outcome S A → S
state_of (done s a) = s
state_of (throw s e) = s

-- The parts of a chain that returned.
pub bind-done :
    {S A B : Type 0} (o : Outcome S A) (f : A → M S B) {s : S} {b : B}
    → bind_outcome o f ≡ done s b
    → (s₁ : S) × (a : A) × (o ≡ done s₁ a) × (f a s₁ ≡ done s b)
bind-done (done s₁ a) f h = (s₁, a, refl, h)
bind-done (throw s₁ e) f h = cc

-- A call that works on a part of the state.
abbrev pub zoom : {S P A : Type 0} → (S → P) → (P → S → S) → M P A → M S A
zoom get put m s = elim (m (get s)) [ done p a ↦ done (put p s) a | throw p e ↦ throw (put p s) e ]

pub zoom-done :
    {S P A : Type 0} (get : S → P) (put : P → S → S) (m : M P A) (s s' : S) (a : A)
    → zoom get put m s ≡ done s' a
    → (p : P) × (m (get s) ≡ done p a) × (put p s ≡ s')
zoom-done {S} {P} {A} get put m s s' a h = of_outcome (m (get s)) refl h
  where
    of_outcome :
        (o : Outcome P A)
        → m (get s) ≡ o
        → (elim o [ done p a ↦ done (put p s) a | throw p e ↦ throw (put p s) e ]) ≡ done s' a
        → (p : P) × (m (get s) ≡ done p a) × (put p s ≡ s')
    of_outcome (done p b) e h = (p, cc, cc)
    of_outcome (throw p x) e h = cc
