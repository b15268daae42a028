-- ===== src/Relocator/Ledger.antt =====
-- The tables that native_interceptor.cc and native_breakpoint.cc keep of their patches, while patches
-- are made and taken back.
use chromatic.Base.{
  ℕ, ◌+◌, ◌<◌, ◌≤◌, ◌≡◌, ◌≢◌, ◌⊎◌, refl, ◌∙◌, ap, sym, List, [], ◌∷◌, arith, length, none, some,
  lookup, erase, assign, All,
}
use chromatic.Relocator.{write_bytes, read_bytes}
use chromatic.Relocator.Patch.{write_bytes_undo, length-read_bytes}
use chromatic.Relocator.Table.{
  All-erase, All-map, erase-of_other, put_back, index, Apart, Spread, Sized, Spread-erase,
  put_back-erase, others, index-of_other, index-erase, lookup-index, index-none,
}

module _ {E : Type 0} (at : E → ℕ) (saved : E → List ℕ) (ptr : E → ℕ) (n : ℕ)
    (Site : ℕ → Type 0) where
  -- The two maps hold the same entries, at sites, with different ids and addresses; writing all saved
  -- bytes back makes the memory `original`.
  pub record Ledger (original memory : ℕ → ℕ) (by_id by_at : List (ℕ × E)) (next_id next_ptr : ℕ)
      : Type 0 where
    pub mirrored : by_at ≡ index at saved ptr n by_id
    pub spread : Spread at saved ptr n by_id
    pub sized : Sized at saved ptr n by_id
    pub sites : All (λ e. Site (at e.1)) by_id
    pub named : All (λ e. (e.0 < next_id) × (ptr e.1 < next_ptr)) by_id
    pub restored : put_back at saved ptr n by_id memory ≡ original

  pub Ledger-empty : (m : ℕ → ℕ) (i p : ℕ) → Ledger m m [] [] i p
  unfolding index put_back
  Ledger-empty m i p = record {
    mirrored = refl;
    spread = tt;
    sized = tt;
    sites = tt;
    named = tt;
    restored = refl;
  }

  -- The same table over another memory, and what writing the saved bytes back then makes of it.
  pub Ledger-rebase :
      (original m m' : ℕ → ℕ) (by_id by_at : List (ℕ × E)) (i p : ℕ)
      → Ledger original m by_id by_at i p
      → Ledger (put_back at saved ptr n by_id m') m' by_id by_at i p
  Ledger-rebase original m m' by_id by_at i p l = record {
    mirrored = l.mirrored;
    spread = l.spread;
    sized = l.sized;
    sites = l.sites;
    named = l.named;
    restored = refl;
  }

  module _ (separate : (a b : ℕ) → Site a → Site b → a ≢ b → (a + n ≤ b) ⊎ (b + n ≤ a))
      (original m : ℕ → ℕ) (by_id by_at : List (ℕ × E)) (i p : ℕ)
      (l : Ledger original m by_id by_at i p) where
    -- The counters may go on.
    pub Ledger-later : (i' p' : ℕ) → i ≤ i' → p ≤ p' → Ledger original m by_id by_at i' p'
    Ledger-later i' p' hi hp = record {
      mirrored = l.mirrored;
      spread = l.spread;
      sized = l.sized;
      sites = l.sites;
      named =
          All-map (λ e. (e.0 < i) × (ptr e.1 < p)) (λ e. (e.0 < i') × (ptr e.1 < p'))
            (λ e h. (omega (arith, h.0), omega (arith, h.1))) by_id l.named;
      restored = l.restored;
    }

    pub Ledger-find :
        (a : ℕ) (v : E) → lookup a by_at ≡ some v → (at v ≡ a) × (k : ℕ) × (lookup k by_id ≡ some v)
    Ledger-find a v h = lookup-index at saved ptr n by_id a v l.spread (rw l.mirrored at h)

    pub Ledger-drop :
        (k : ℕ) (v : E)
        → lookup k by_id ≡ some v
        → Ledger original (write_bytes (at v) (saved v) m) (erase k by_id) (erase (at v) by_at) i p
    Ledger-drop k v h = record {
      mirrored = ap (erase (at v)) l.mirrored ∙ index-erase at saved ptr n by_id k v l.spread h;
      spread = Spread-erase at saved ptr n by_id k l.spread;
      sized = All-erase _ by_id k l.sized;
      sites = All-erase _ by_id k l.sites;
      named = All-erase _ by_id k l.named;
      restored = put_back-erase at saved ptr n by_id k v m l.spread l.sized h ∙ l.restored;
    }

    -- The facts that set a new entry apart from an older one.
    Apart-of_fresh :
        (v : E)
        → Site (at v)
        → ptr v ≡ p
        → (es : List (ℕ × E)) → All (λ e. Site (at e.1)) es
        → All (λ e. (e.0 < i) × (ptr e.1 < p)) es
        → All (λ e. at e.1 ≢ at v) es
        → All (Apart at saved ptr n (i, v)) es
    Apart-of_fresh v site fresh [] _ _ _ = tt
    Apart-of_fresh v site fresh (e ∷ es) (s, ss) ((hi, hp), hs) (d, ds) = (
      (
        omega (arith, hi),
        λ q. d (sym q),
        omega (arith, hp, fresh),
        separate (at v) (at e.1) site s (λ q. d (sym q)),
      ),
      Apart-of_fresh v site fresh es ss hs ds,
    )

    pub Ledger-add :
        (v : E) (bs : List ℕ)
        → lookup (at v) by_at ≡ none
        → Site (at v)
        → saved v ≡ read_bytes m (at v) n
        → length bs ≡ n
        → ptr v ≡ p
        → Ledger original
            (write_bytes (at v) bs m)
            (assign i v by_id)
            (assign (at v) v by_at)
            (i + 1)
            (p + 1)
    unfolding assign index put_back
    Ledger-add v bs free site kept len fresh =
        let elsewhere = index-none at saved ptr n by_id (at v) (rw l.mirrored at free) in
        let far = Apart-of_fresh v site fresh by_id l.sites l.named elsewhere in
        let same_id = erase-of_other by_id i (others at saved ptr n (i, v) by_id far) in
        let same_at =
          erase-of_other (index at saved ptr n by_id) (at v)
            (index-of_other at saved ptr n (i, v) by_id far) in
        let same_at' : erase (at v) by_at ≡ by_at = rw l.mirrored same_at in
        let undone : write_bytes (at v) (saved v) (write_bytes (at v) bs m) ≡ m =
          rw kept (write_bytes_undo m (at v) bs n len) in
        let grown = Ledger-later (i + 1) (p + 1) (omega arith) (omega arith) in
        rw (same_id, same_at')
          (record {
            mirrored = ap (λ es. (at v, v) ∷ es) l.mirrored;
            spread = (far, l.spread);
            sized = (ap length kept ∙ length-read_bytes m (at v) n, l.sized);
            sites = (site, l.sites);
            named = ((omega arith, omega (arith, fresh)), grown.named);
            restored = ap (put_back at saved ptr n by_id) undone ∙ l.restored;
          })
