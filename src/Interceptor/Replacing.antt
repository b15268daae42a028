-- ===== src/Interceptor/Replacing.antt =====
-- What attach and replace share: one more patch in the code, and one more entry in both maps.
use chromatic.Base.{
  ℕ, ◌+◌, ◌%◌, ◌≡◌, refl, List, Text, Option, none, lookup, assign, ok, done, bind_outcome,
  bind-done, pure, arith, length,
}
use chromatic.Hex.{u64_mod, to_hex_addr, parse_hex_addr}
use chromatic.Platform.{Os, patch_size}
use chromatic.Relocator.{
  generate_patch_bytes, read_bytes, write_bytes, make_writable_and_patch, build_relocated_code,
}
use chromatic.Relocator.Host.{Tools, Process}
use chromatic.Relocator.Build.{
  Added, build_relocated_code-Added, Patched, make_writable_and_patch-Patched,
}
use chromatic.Interceptor.{HookEntry, Hooks, attach, replace, register, on_process, refuse_hooked}
use chromatic.Interceptor.RoundTrip.{attach-Attached, on_process-done, refuse_hooked-done}
use chromatic.Interceptor.Undo.{length-generate_patch_bytes}

-- The new entry `e`, whose patch is `bytes`: `s` before it, `s'` behind it.
pub record Hooked (t : Tools) (s s' : Hooks) (target : ℕ) (e : HookEntry) (bytes : List ℕ)
    : Type 0 where
  pub sized : length bytes ≡ patch_size t.arch
  pub free : lookup target s.hooks_by_target ≡ none
  pub aimed : e.target ≡ target
  pub saved : e.original_bytes ≡ read_bytes s.process.memory target (patch_size t.arch)
  pub memory : s'.process.memory ≡ write_bytes target bytes s.process.memory
  pub fresh : e.ptr ≡ s.next_ptr
  pub by_id : s'.hooks_by_id ≡ assign s.next_hook_id e s.hooks_by_id
  pub by_target : s'.hooks_by_target ≡ assign target e s.hooks_by_target
  pub next_hook_id : s'.next_hook_id ≡ (s.next_hook_id + 1) % u64_mod
  pub next_ptr : s'.next_ptr ≡ s.next_ptr + 1

-- The states between the steps of replace, and what each step did.
Hooked-of_steps :
    (t : Tools) (s s₂ s₃ s' : Hooks) (p₂ p₃ : Process) (target replacement : ℕ) (e : HookEntry)
    → lookup target s.hooks_by_target ≡ none
    → e.target ≡ target
    → e.original_bytes ≡ read_bytes s.process.memory target (patch_size t.arch)
    → e.ptr ≡ s.next_ptr
    → Added s.process p₂ e.relocated_code
    → record s { next_ptr = s.next_ptr + 1; process = p₂ } ≡ s₂
    → Patched s₂.process p₃ target (generate_patch_bytes t.arch replacement)
    → record s₂ { process = p₃ } ≡ s₃
    → record s₃ {
      next_hook_id = (s₃.next_hook_id + 1) % u64_mod;
      hooks_by_id = assign s₃.next_hook_id e s₃.hooks_by_id;
      hooks_by_target = assign e.target e s₃.hooks_by_target;
    }
      ≡ s'
    → Hooked t s s' target e (generate_patch_bytes t.arch replacement)
Hooked-of_steps t s s₂ s₃ s' p₂ p₃ target replacement e free aimed saved fresh a₂ q₂ a₃ q₃ q' =
    record {
      sized = length-generate_patch_bytes t.arch replacement;
      free = free;
      aimed = aimed;
      saved = saved;
      memory = ground arith;
      fresh = fresh;
      by_id = ground arith;
      by_target = ground arith;
      next_hook_id = ground arith;
      next_ptr = ground arith;
    }

registered :
    (e : HookEntry) (s s' : Hooks) (code id : Text)
    → bind_outcome (register e s) (λ n. pure {S = Hooks} code) ≡ done s' id
    → record s {
      next_hook_id = (s.next_hook_id + 1) % u64_mod;
      hooks_by_id = assign s.next_hook_id e s.hooks_by_id;
      hooks_by_target = assign e.target e s.hooks_by_target;
    }
      ≡ s'
unfolding register
registered e s s' code id h = cc

module _ (t : Tools) (os : Os) (enter leave : ℕ) where
  pub attach-Hooked :
      (text : Text) (on_enter on_leave : Option ℕ) (s s' : Hooks) (target : ℕ) (id : Text)
      → parse_hex_addr text ≡ ok target
      → attach t os enter leave text on_enter on_leave s ≡ done s' id
      → (e : HookEntry) × (bytes : List ℕ) × Hooked t s s' target e bytes
  attach-Hooked text on_enter on_leave s s' target id parsed h =
      let (e, a, named) =
        attach-Attached t os enter leave text on_enter on_leave s s' target id parsed h in
      (
        e,
        generate_patch_bytes t.arch e.trampoline_code,
        record {
          sized = length-generate_patch_bytes t.arch e.trampoline_code;
          free = a.free;
          aimed = a.aimed;
          saved = a.saved;
          memory = a.memory;
          fresh = a.fresh;
          by_id = a.by_id;
          by_target = a.by_target;
          next_hook_id = a.next_hook_id;
          next_ptr = a.next_ptr;
        },
      )

  pub replace-Hooked :
      (text replacement_text : Text) (s s' : Hooks) (target replacement : ℕ) (code : Text)
      → parse_hex_addr text ≡ ok target
      → parse_hex_addr replacement_text ≡ ok replacement
      → replace t os enter leave text replacement_text s ≡ done s' code
      → (e : HookEntry) × Hooked t s s' target e (generate_patch_bytes t.arch replacement)
  unfolding replace register
  replace-Hooked text replacement_text s s' target replacement code parsed parsed' h =
      let h₁ = rw (parsed, parsed', replace) at h in
      let (s₁, u₁, e₁, k₁) = bind-done (refuse_hooked target text s) _ h₁ in
      let (free, q₁) = refuse_hooked-done target text s s₁ u₁ e₁ in
      let k₁' = rw (← q₁) at k₁ in
      let n : ℕ = patch_size t.arch in
      let s⁺ : Hooks = record s { next_ptr = s.next_ptr + 1 } in
      let (s₂, r, e₂, k₂) = bind-done (on_process (build_relocated_code t target n) s⁺) _ k₁' in
      let (p₂, b₂, q₂) = on_process-done (build_relocated_code t target n) s⁺ s₂ r e₂ in
      let bytes = generate_patch_bytes t.arch replacement in
      let (s₃, u₃, e₃, k₃) =
        bind-done (on_process (make_writable_and_patch t target bytes) s₂) _ k₂ in
      let (p₃, b₃, q₃) = on_process-done (make_writable_and_patch t target bytes) s₂ s₃ u₃ e₃ in
      let entry : HookEntry = record {
        ptr = s.next_ptr;
        target = target;
        trampoline_code = 0;
        relocated_code = r.0;
        original_bytes = read_bytes s.process.memory target n;
        patch_size = n;
        on_enter = none;
        on_leave = none;
      } in
      (
        entry,
        Hooked-of_steps t s s₂ s₃ s' p₂ p₃ target replacement entry free refl refl refl
            (build_relocated_code-Added t target n s.process p₂ r b₂) q₂
            (make_writable_and_patch-Patched t target bytes s₂.process p₃ b₃) q₃
            (registered entry s₃ s' (to_hex_addr r.0) code k₃),
      )
