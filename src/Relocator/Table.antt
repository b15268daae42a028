-- ===== src/Relocator/Table.antt =====
-- Tables of patches in code: what native_interceptor.cc and native_breakpoint.cc keep, two maps with
-- the same entries, each with the bytes that stood where it writes.
use mathlib.Core.Path.{fun_ext}
use chromatic.Base.{
  ℕ, ◌+◌, ◌≤◌, ◌≡◌, ◌≢◌, ◌⊎◌, refl, ◌∙◌, ap, sym, inl, inr, List, [], ◌∷◌, ◌==◌, arith, length,
  none, some, lookup, erase, All, Bool-cases, false, ==_refl,
}
use chromatic.Relocator.{write_bytes}

-- Writes to different bytes can change places.
pub write_bytes_commute :
    (a b : ℕ) (bs cs : List ℕ) (m : ℕ → ℕ)
    → (a + length bs ≤ b) ⊎ (b + length cs ≤ a)
    → write_bytes a bs (write_bytes b cs m) ≡ write_bytes b cs (write_bytes a bs m)
unfolding write_bytes
write_bytes_commute a b bs cs m apart = fun_ext λ x. ground arith

module _ {V : Type 0} where
  pub All-lookup :
      (P : ℕ × V → Type 0) (m : List (ℕ × V)) (k : ℕ) (v : V)
      → All P m
      → lookup k m ≡ some v
      → P (k, v)
  unfolding lookup
  All-lookup P [] k v h e = cc
  All-lookup P ((j, w) ∷ m) k v (p, h) e = elim (Bool-cases (j == k)) [
    | inl here ↦
        let e' = rw here at e in
        let key : j ≡ k = ground arith in let value : w ≡ v = cc in rw (key, value) at p
    | inr there ↦ All-lookup P m k v h (rw there at e)
  ]

  pub All-erase : (P : ℕ × V → Type 0) (m : List (ℕ × V)) (k : ℕ) → All P m → All P (erase k m)
  unfolding erase
  All-erase P [] k h = tt
  All-erase P ((j, w) ∷ m) k (p, h) = elim (Bool-cases (j == k)) [
    | inl here ↦ rw here (All-erase P m k h)
    | inr there ↦ rw there (p, All-erase P m k h)
  ]

  pub All-map :
      (P Q : ℕ × V → Type 0) → ((x : ℕ × V) → P x → Q x) → (m : List (ℕ × V)) → All P m → All Q m
  All-map P Q f [] h = tt
  All-map P Q f (x ∷ m) (p, h) = (f x p, All-map P Q f m h)

  -- A key that the other keys differ from is not found.
  pub lookup-of_other : (m : List (ℕ × V)) (k : ℕ) → All (λ x. x.0 ≢ k) m → lookup k m ≡ none
  unfolding lookup
  lookup-of_other [] k h = refl
  lookup-of_other ((j, w) ∷ m) k (p, h) = ground (arith, p, lookup-of_other m k h)

  pub erase-of_other : (m : List (ℕ × V)) (k : ℕ) → All (λ x. x.0 ≢ k) m → erase k m ≡ m
  unfolding erase
  erase-of_other [] k h = refl
  erase-of_other ((j, w) ∷ m) k (p, h) = ground (arith, p, erase-of_other m k h)

-- The entries `E` of a table: where each has its patch, what stood there, and its own address.
module _ {E : Type 0} (at : E → ℕ) (saved : E → List ℕ) (ptr : E → ℕ) (n : ℕ) where
  -- The bytes of all entries are written back, the first entry's first.
  unfoldable pub put_back : List (ℕ × E) → (ℕ → ℕ) → ℕ → ℕ
  put_back [] m = m
  put_back (e ∷ es) m = put_back es (write_bytes (at e.1) (saved e.1) m)

  -- The same entries by where they are.
  unfoldable pub index : List (ℕ × E) → List (ℕ × E)
  index [] = []
  index (e ∷ es) = (at e.1, e.1) ∷ index es

  -- Two entries that share no key and no byte of their patches of `n` bytes.
  abbrev pub Apart : ℕ × E → ℕ × E → Type 0
  Apart e f =
      (e.0 ≢ f.0)
      × (at e.1 ≢ at f.1)
      × (ptr e.1 ≢ ptr f.1)
      × ((at e.1 + n ≤ at f.1) ⊎ (at f.1 + n ≤ at e.1))

  abbrev pub Spread : List (ℕ × E) → Type 0
  Spread [] = Unit
  Spread (e ∷ es) = All (Apart e) es × Spread es

  abbrev pub Sized : List (ℕ × E) → Type 0
  Sized es = All (λ e. length (saved e.1) ≡ n) es

  pub Spread-erase : (es : List (ℕ × E)) (k : ℕ) → Spread es → Spread (erase k es)
  unfolding erase
  Spread-erase [] k h = tt
  Spread-erase (e ∷ es) k (a, h) = elim (Bool-cases (e.0 == k)) [
    | inl here ↦ rw here (Spread-erase es k h)
    | inr there ↦ rw there (All-erase (Apart e) es k a, Spread-erase es k h)
  ]

  pub others : (e : ℕ × E) (es : List (ℕ × E)) → All (Apart e) es → All (λ x. x.0 ≢ e.0) es
  others e es h = All-map (Apart e) (λ x. x.0 ≢ e.0) (λ x a. ground (arith, a)) es h

  erase-there :
      (f : ℕ × E) (es : List (ℕ × E)) (k : ℕ)
      → (f.0 == k) ≡ false
      → erase k (f ∷ es) ≡ f ∷ erase k es
  unfolding erase
  erase-there f es k h = rw h refl

  -- Writing one entry's bytes back first, and then those of the others, is writing all back.
  pub put_back-erase :
      (es : List (ℕ × E)) (k : ℕ) (v : E) (m : ℕ → ℕ)
      → Spread es
      → Sized es
      → lookup k es ≡ some v
      → put_back (erase k es) (write_bytes (at v) (saved v) m) ≡ put_back es m
  unfolding put_back lookup erase
  put_back-erase [] k v m h z e = cc
  put_back-erase (f ∷ es) k v m (a, h) (len, z) e = elim (Bool-cases (f.0 == k)) [
    | inl here ↦
        let e' = rw here at e in
        let key : f.0 ≡ k = ground arith in
        let value : f.1 ≡ v = cc in
        rw (here, erase-of_other es k (rw key at (others f es a)), value) refl
    | inr there ↦
        let found = rw there at e in
        let far = All-lookup (Apart f) es k v a found in
        let len' = All-lookup (λ x. length (saved x.1) ≡ n) es k v z found in
        let swap =
          write_bytes_commute (at f.1) (at v) (saved f.1) (saved v) m (ground (arith, far)) in
        ap (λ x. put_back x (write_bytes (at v) (saved v) m)) (erase-there f es k there)
        ∙ (ap (put_back (erase k es)) swap
            ∙ put_back-erase es k v (write_bytes (at f.1) (saved f.1) m) h z found)
  ]

  pub index-of_other :
      (e : ℕ × E) (es : List (ℕ × E)) → All (Apart e) es → All (λ x. x.0 ≢ at e.1) (index es)
  unfolding index
  index-of_other e [] h = tt
  index-of_other e (f ∷ es) (a, h) = (ground (arith, a), index-of_other e es h)

  pub index-erase :
      (es : List (ℕ × E)) (k : ℕ) (v : E)
      → Spread es
      → lookup k es ≡ some v
      → erase (at v) (index es) ≡ index (erase k es)
  unfolding index lookup erase
  index-erase [] k v h e = cc
  index-erase (f ∷ es) k v (a, h) e = elim (Bool-cases (f.0 == k)) [
    | inl here ↦
        let e' = rw here at e in
        let key : f.0 ≡ k = ground arith in
        let value : f.1 ≡ v = cc in
        let gone = erase-of_other es k (rw key at (others f es a)) in
        let gone' = erase-of_other (index es) (at f.1) (index-of_other f es a) in
        let whole : erase (at f.1) ((at f.1, f.1) ∷ index es) ≡ index es =
          rw (==_refl (at f.1)) gone' in
        ap (λ x. erase (at x) ((at f.1, f.1) ∷ index es)) (sym value)
        ∙ (whole ∙ ap index (rw here (sym gone)))
    | inr there ↦
        let found = rw there at e in
        let far = All-lookup (Apart f) es k v a found in
        let no_hit : (at f.1 == at v) ≡ false = ground (arith, far) in
        rw (there, no_hit) (ap (λ x. (at f.1, f.1) ∷ x) (index-erase es k v h found))
  ]

  -- An entry found by where it is has an id as well.
  pub lookup-index :
      (es : List (ℕ × E)) (a : ℕ) (v : E)
      → Spread es
      → lookup a (index es) ≡ some v
      → (at v ≡ a) × (k : ℕ) × (lookup k es ≡ some v)
  unfolding index lookup
  lookup-index [] a v h e = cc
  lookup-index (f ∷ es) a v (b, h) e = elim (Bool-cases (at f.1 == a)) [
    | inl here ↦
        let e' = rw here at e in
        let value : f.1 ≡ v = cc in
        let same : at f.1 ≡ a = ground arith in (rw value at same, f.0, rw (==_refl f.0) e')
    | inr there ↦
        let (same, k, found) = lookup-index es a v h (rw there at e) in
        let far = All-lookup (Apart f) es k v b found in
        let no_hit : (f.0 == k) ≡ false = ground (arith, far) in (same, k, rw no_hit found)
  ]

  -- Where no entry has its patch at `a`, all have it elsewhere.
  pub index-none :
      (es : List (ℕ × E)) (a : ℕ) → lookup a (index es) ≡ none → All (λ e. at e.1 ≢ a) es
  unfolding index lookup
  index-none [] a h = tt
  index-none (f ∷ es) a h = elim (Bool-cases (at f.1 == a)) [
    | inl here ↦ let h' = rw here at h in cc
    | inr there ↦ (ground (arith, there), index-none es a (rw there at h))
  ]
