-- ===== src/Interceptor/Tracked.antt =====
-- The maps of hooks and the code under the hooks, while calls add hooks and take them away.
use chromatic.Base.{
  All, length, ℕ, ◌+◌, ◌<◌, ◌≤◌, ◌≡◌, ◌≢◌, ◌⊎◌, refl, ◌∙◌, ap, List, [], ◌∷◌, some, lookup, erase,
  true, false, assign, done, arith, inl, inr, ◌==◌, Bool-cases, ==_refl, sym,
}
use chromatic.Hex.{u64_mod}
use chromatic.Platform.{Os, patch_size}
use chromatic.Relocator.{read_bytes, write_bytes, release_code}
use chromatic.Relocator.Host.{Tools, Process}
use chromatic.Relocator.Build.{
  Permits, make_writable_and_patch_total, make_writable_and_patch-Patched, release_code-memory,
}
use chromatic.Relocator.Table.{put_back, All-lookup, erase-of_other, Apart, Spread, others}
use chromatic.Relocator.Ledger.{Ledger, Ledger-later, Ledger-add}
use chromatic.Interceptor.{HookEntry, Hooks, unhook, erase_ptr}
use chromatic.Interceptor.Failure.{Kept}
use chromatic.Interceptor.Replacing.{Hooked}
use chromatic.Interceptor.Undo.{unhook_of_patch}

-- Taking a hook's patch away writes its original bytes; the maps stay.
pub unhook-written :
    (t : Tools) (os : Os) (enter leave : ℕ)
    → Permits t
    → (e : HookEntry) (s : Hooks)
    → (p : Process) × (unhook t os enter leave e s ≡ done (record s { process = p }) tt)
      × (p.memory ≡ write_bytes e.target e.original_bytes s.process.memory)
unhook-written t os enter leave permits e s =
    let (p, patched) =
      make_writable_and_patch_total t permits e.target e.original_bytes s.process in
    let after : Process = release_code e.trampoline_code p in
    (
      release_code e.relocated_code after,
      unhook_of_patch t os enter leave e s p patched,
      release_code-memory e.relocated_code after
          ∙ (release_code-memory e.trampoline_code p
              ∙ (make_writable_and_patch-Patched t e.target e.original_bytes s.process p
                  patched).memory),
    )

abbrev pub aim : HookEntry → ℕ
aim e = e.target

abbrev pub kept_bytes : HookEntry → List ℕ
kept_bytes e = e.original_bytes

abbrev pub ptr_of : HookEntry → ℕ
ptr_of e = e.ptr

module _ (n : ℕ) where
  -- Erasing the entry at an address on the heap is erasing its id.
  pub erase_ptr_lem :
      (es : List (ℕ × HookEntry)) (k : ℕ) (v : HookEntry)
      → Spread aim kept_bytes ptr_of n es
      → lookup k es ≡ some v
      → erase_ptr v.ptr es ≡ erase k es
  unfolding erase_ptr lookup erase
  erase_ptr_lem [] k v h e = cc
  erase_ptr_lem ((j, f) ∷ es) k v (a, h) e = elim (Bool-cases (j == k)) [
    | inl here ↦
        let e' = rw here at e in
        let value : f ≡ v = cc in
        let key : j ≡ k = ground arith in
        let gone = erase-of_other es k (rw key at (others aim kept_bytes ptr_of n (j, f) es a)) in
        let same : (f.ptr == v.ptr) ≡ true = rw value (==_refl v.ptr) in rw (same, here, gone) refl
    | inr there ↦
        let found = rw there at e in
        let far = All-lookup (Apart aim kept_bytes ptr_of n (j, f)) es k v a found in
        let no_hit : (f.ptr == v.ptr) ≡ false = ground (arith, far) in
        rw (there, no_hit) (ap (λ x. (j, f) ∷ x) (erase_ptr_lem es k v h found))
  ]

-- A way to see memory in which a patch of `n` bytes at a site shows as it is.
pub record Sees (n : ℕ) (Site : ℕ → Type 0) (view : (ℕ → ℕ) → ℕ → ℕ) : Type 0 where
  pub write :
      (a : ℕ) (bs : List ℕ) (m : ℕ → ℕ)
      → Site a
      → length bs ≡ n
      → view (write_bytes a bs m) ≡ write_bytes a bs (view m)
  pub read : (a : ℕ) (m : ℕ → ℕ) → Site a → read_bytes m a n ≡ read_bytes (view m) a n

module _ (t : Tools) (os : Os) (enter leave : ℕ) (permits : Permits t) (Site : ℕ → Type 0)
    (separate : (a b : ℕ)
      → Site a
      → Site b
      → a ≢ b
      → (a + patch_size t.arch ≤ b) ⊎ (b + patch_size t.arch ≤ a))
    (original : ℕ → ℕ) (view : (ℕ → ℕ) → ℕ → ℕ) (seen : Sees (patch_size t.arch) Site view) where
  -- Both maps hold the same hooks, at sites, and writing the saved bytes back to what is seen
  -- of memory restores `original`.
  abbrev pub Tracked : Hooks → Type 0
  Tracked s =
      Ledger aim kept_bytes ptr_of (patch_size t.arch) Site original (view s.process.memory)
        s.hooks_by_id s.hooks_by_target s.next_hook_id s.next_ptr

  pub Tracked-Kept : (s s' : Hooks) → Kept s s' → Tracked s → Tracked s'
  Tracked-Kept s s' k l =
      rw (k.memory, k.hooks.by_id, k.hooks.by_target, k.hooks.next_hook_id)
        (Ledger-later aim kept_bytes ptr_of (patch_size t.arch) Site separate original _ _ _ _ _ l
          s.next_hook_id s'.next_ptr (omega arith) k.next_ptr)

  pub Tracked-Hooked :
      (s s' : Hooks) (target : ℕ) (e : HookEntry) (bytes : List ℕ)
      → Hooked t s s' target e bytes
      → Site target
      → s.next_hook_id + 1 < u64_mod
      → Tracked s
      → Tracked s'
  Tracked-Hooked s s' target e bytes h site small l =
      let id : s'.next_hook_id ≡ s.next_hook_id + 1 = omega (arith, h.next_hook_id) in
      let here : Site e.target = rw h.aimed site in
      let memory : view s'.process.memory ≡ write_bytes e.target bytes (view s.process.memory) =
        ap view (h.memory ∙ ap (λ x. write_bytes x bytes s.process.memory) (sym h.aimed))
        ∙ seen.write e.target bytes s.process.memory here h.sized in
      let saved : e.original_bytes
          ≡ read_bytes (view s.process.memory) e.target (patch_size t.arch) =
        rw h.aimed h.saved ∙ seen.read e.target s.process.memory here in
      let by_target = h.by_target ∙ ap (λ x. assign x e s.hooks_by_target) (sym h.aimed) in
      rw (memory, h.by_id, by_target, id, h.next_ptr)
        (Ledger-add aim kept_bytes ptr_of (patch_size t.arch) Site separate original
          (view s.process.memory) s.hooks_by_id s.hooks_by_target s.next_hook_id s.next_ptr l e
          bytes (rw h.aimed h.free) here saved h.sized h.fresh)

  -- What is seen when a hook's bytes are written back, or those of all hooks.
  pub view-written :
      (s : Hooks) (id : ℕ) (e : HookEntry) (m : ℕ → ℕ)
      → Tracked s
      → lookup id s.hooks_by_id ≡ some e
      → m ≡ write_bytes e.target e.original_bytes s.process.memory
      → view m ≡ write_bytes e.target e.original_bytes (view s.process.memory)
  view-written s id e m l found written =
      ap view written
      ∙ seen.write e.target e.original_bytes s.process.memory
          (All-lookup (λ x. Site x.1.target) s.hooks_by_id id e l.sites found)
          (All-lookup (λ x. length x.1.original_bytes ≡ patch_size t.arch) s.hooks_by_id id e
            l.sized found)

  pub view-put_back :
      (es : List (ℕ × HookEntry)) (m : ℕ → ℕ)
      → All (λ x. Site x.1.target) es
      → All (λ x. length x.1.original_bytes ≡ patch_size t.arch) es
      → view (put_back aim kept_bytes ptr_of (patch_size t.arch) es m)
        ≡ put_back aim kept_bytes ptr_of (patch_size t.arch) es (view m)
  unfolding put_back
  view-put_back [] m sites sized = refl
  view-put_back (e ∷ es) m (site, sites) (len, sized) =
      view-put_back es (write_bytes e.1.target e.1.original_bytes m) sites sized
      ∙ ap (put_back aim kept_bytes ptr_of (patch_size t.arch) es)
          (seen.write e.1.target e.1.original_bytes m site len)
