-- ===== src/Relocator/Disjoint.antt =====
-- Patches that share no byte with those of a table: the hooks that native_interceptor.cc keeps beside the
-- breakpoints of native_breakpoint.cc.
use chromatic.Base.{
  ℕ, zero, suc, ◌+◌, ◌≤◌, ◌≡◌, ◌⊎◌, refl, ◌∙◌, ap, sym, List, [], ◌∷◌, arith, length, All,
}
use chromatic.Relocator.{write_bytes, read_bytes}
use chromatic.Relocator.Table.{write_bytes_commute, put_back}

read_bytes-write_bytes :
    (m : ℕ → ℕ) (a n b : ℕ) (cs : List ℕ)
    → (a + n ≤ b) ⊎ (b + length cs ≤ a)
    → read_bytes (write_bytes b cs m) a n ≡ read_bytes m a n
unfolding read_bytes write_bytes
read_bytes-write_bytes m a zero b cs apart = refl
read_bytes-write_bytes m a (suc n) b cs apart =
    let later = read_bytes-write_bytes m (a + 1) n b cs (ground arith) in
    let here : write_bytes b cs m a ≡ m a = ground arith in
    rw (read_bytes, here) (ap (λ l. m a ∷ l) later)

module _ {E : Type 0} (at : E → ℕ) (saved : E → List ℕ) (ptr : E → ℕ) (n : ℕ) where
  abbrev pub Clear : ℕ → ℕ → List (ℕ × E) → Type 0
  Clear a k es = All (λ e. (a + k ≤ at e.1) ⊎ (at e.1 + length (saved e.1) ≤ a)) es

  pub put_back-write_bytes :
      (es : List (ℕ × E)) (a : ℕ) (bs : List ℕ) (m : ℕ → ℕ)
      → Clear a (length bs) es
      → put_back at saved ptr n es (write_bytes a bs m)
        ≡ write_bytes a bs (put_back at saved ptr n es m)
  unfolding put_back
  put_back-write_bytes [] a bs m clear = refl
  put_back-write_bytes (e ∷ es) a bs m (c, clear) =
      ap (put_back at saved ptr n es) (sym (write_bytes_commute a (at e.1) bs (saved e.1) m c))
      ∙ put_back-write_bytes es a bs (write_bytes (at e.1) (saved e.1) m) clear

  pub read_bytes-put_back :
      (es : List (ℕ × E)) (a k : ℕ) (m : ℕ → ℕ)
      → Clear a k es
      → read_bytes m a k ≡ read_bytes (put_back at saved ptr n es m) a k
  unfolding put_back
  read_bytes-put_back [] a k m clear = refl
  read_bytes-put_back (e ∷ es) a k m (c, clear) =
      sym (read_bytes-write_bytes m a k (at e.1) (saved e.1) c)
      ∙ read_bytes-put_back es a k (write_bytes (at e.1) (saved e.1) m) clear
