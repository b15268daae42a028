-- ===== src/Base/Triples.antt =====
-- What a chain of calls guarantees: `Q` where it returns, `P` where it throws.
use mathlib.Core.Path.{◌≡◌, refl}
use chromatic.Base.Effects.{
  Result, ok, err, Outcome, done, throw, M, lift, bind_outcome, zoom, state_of,
}

abbrev pub Gives : {S A : Type 0} → (S → Type 0) → (A → S → Type 0) → Outcome S A → Type 0
Gives P Q (done s a) = Q a s
Gives P Q (throw s e) = P s

pub Gives-bind_outcome :
    {S A B : Type 0} (P : S → Type 0) (Q : A → S → Type 0) (R : B → S → Type 0) (o : Outcome S A)
    (k : A → M S B)
    → Gives P Q o
    → ((a : A) (s : S) → Q a s → Gives P R (k a s))
    → Gives P R (bind_outcome o k)
Gives-bind_outcome P Q R (done s a) k h next = next a s h
Gives-bind_outcome P Q R (throw s e) k h next = h

pub Gives-lift :
    {S A : Type 0} (P : S → Type 0) (Q : A → S → Type 0) (r : Result A) (s : S)
    → P s
    → ((a : A) → r ≡ ok a → Q a s)
    → Gives P Q (lift r s)
Gives-lift P Q (ok a) s p q = q a refl
Gives-lift P Q (err e) s p q = p

-- A call on a part of the state, where `P` does not depend on the part.
pub Gives-zoom :
    {S T A : Type 0} (P : S → Type 0) (get : S → T) (put : T → S → S) (m : M T A) (s : S)
    → ((t : T) → P (put t s))
    → Gives P (λ (_ : A). P) (zoom get put m s)
Gives-zoom {S} {T} {A} P get put m s all = of_outcome (m (get s))
  where
    of_outcome :
        (o : Outcome T A)
        → Gives P
            (λ (_ : A). P)
            (elim o [ done p a ↦ done (put p s) a | throw p e ↦ throw (put p s) e ])
    of_outcome (done p a) = all p
    of_outcome (throw p e) = all p

pub Gives-state_of :
    {S A : Type 0} (P : S → Type 0) (o : Outcome S A) → Gives P (λ (_ : A). P) o → P (state_of o)
Gives-state_of P (done s a) h = h
Gives-state_of P (throw s e) h = h
