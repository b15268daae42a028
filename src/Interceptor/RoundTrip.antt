-- ===== src/Interceptor/RoundTrip.antt =====
-- Attaching a hook and detaching it again.
use chromatic.Base.{
  ℕ, ◌+◌, ◌%◌, ◌≡◌, refl, ◌∙◌, ap, false, ◌∷◌, ◌==◌, Text, Option, none, some, lookup, assign, ok,
  Outcome, done, throw, M, pure, bind_outcome, bind-done, arith,
}
use chromatic.Hex.{u64_mod, to_hex_addr, parse_hex_addr}
use chromatic.Platform.{Os, patch_size}
use chromatic.Relocator.{
  generate_patch_bytes, read_bytes, write_bytes, make_writable_and_patch, build_relocated_code,
}
use chromatic.Relocator.Host.{Tools, Process}
use chromatic.Relocator.Trampoline.{build_trampoline}
use chromatic.Relocator.Build.{
  Added, build_relocated_code-Added, build_trampoline-Added, Patched,
  make_writable_and_patch-Patched,
}
use chromatic.Interceptor.{
  HookEntry, Hooks, attach, register, on_process, trampoline_or_release, refuse_hooked, release,
}

-- What a hook changes: `s` before it, `s'` behind it.
pub record Attached (t : Tools) (s s' : Hooks) (target : ℕ) (e : HookEntry) : Type 0 where
  pub free : lookup target s.hooks_by_target ≡ none
  pub aimed : e.target ≡ target
  pub saved : e.original_bytes ≡ read_bytes s.process.memory target (patch_size t.arch)
  pub memory :
      s'.process.memory
      ≡ write_bytes target (generate_patch_bytes t.arch e.trampoline_code) s.process.memory
  pub live : s'.process.live ≡ e.trampoline_code ∷ e.relocated_code ∷ s.process.live
  pub trampoline : (e.trampoline_code == 0) ≡ false
  pub relocated : (e.relocated_code == 0) ≡ false
  pub by_id : s'.hooks_by_id ≡ assign s.next_hook_id e s.hooks_by_id
  pub by_target : s'.hooks_by_target ≡ assign target e s.hooks_by_target
  pub fresh : e.ptr ≡ s.next_ptr
  pub next_hook_id : s'.next_hook_id ≡ (s.next_hook_id + 1) % u64_mod
  pub next_ptr : s'.next_ptr ≡ s.next_ptr + 1

pub on_process-done :
    {A : Type 0} (m : M Process A) (s s' : Hooks) (a : A)
    → on_process m s ≡ done s' a
    → (p : Process) × (m s.process ≡ done p a) × (record s { process = p } ≡ s')
unfolding on_process
on_process-done {A} m s s' a h = of_outcome (m s.process) refl h
  where
    of_outcome :
        (o : Outcome Process A)
        → m s.process ≡ o
        → (elim o [
          | done p a ↦ done (record s { process = p }) a
          | throw p e ↦ throw (record s { process = p }) e
        ])
          ≡ done s' a
        → (p : Process) × (m s.process ≡ done p a) × (record s { process = p } ≡ s')
    of_outcome (done p b) e h = (p, cc, cc)
    of_outcome (throw p x) e h = cc

pub refuse_hooked-done :
    (target : ℕ) (text : Text) (s s' : Hooks) (u : Unit {0})
    → refuse_hooked target text s ≡ done s' u
    → (lookup target s.hooks_by_target ≡ none) × (s ≡ s')
unfolding refuse_hooked
refuse_hooked-done target text s s' u h = ground arith

-- The states between the steps of attach, and what each step did.
Attached-of_steps :
    (t : Tools) (s s₂ s₃ s₄ s' : Hooks) (p₂ p₃ p₄ : Process) (target : ℕ) (e : HookEntry)
    → lookup target s.hooks_by_target ≡ none
    → e.target ≡ target
    → e.original_bytes ≡ read_bytes s.process.memory target (patch_size t.arch)
    → e.ptr ≡ s.next_ptr
    → Added s.process p₂ e.relocated_code
    → record s { next_ptr = s.next_ptr + 1; process = p₂ } ≡ s₂
    → Added s₂.process p₃ e.trampoline_code
    → record s₂ { process = p₃ } ≡ s₃
    → Patched s₃.process p₄ target (generate_patch_bytes t.arch e.trampoline_code)
    → record s₃ { process = p₄ } ≡ s₄
    → record s₄ {
      next_hook_id = (s₄.next_hook_id + 1) % u64_mod;
      hooks_by_id = assign s₄.next_hook_id e s₄.hooks_by_id;
      hooks_by_target = assign e.target e s₄.hooks_by_target;
    }
      ≡ s'
    → Attached t s s' target e
Attached-of_steps t s s₂ s₃ s₄ s' p₂ p₃ p₄ target e free aimed saved fresh a₂ q₂ a₃ q₃ a₄ q₄ q' =
    record {
      free = free;
      aimed = aimed;
      saved = saved;
      memory = ground arith;
      live = ground arith;
      trampoline = a₃.not_null;
      relocated = a₂.not_null;
      by_id = ground arith;
      by_target = ground arith;
      fresh = fresh;
      next_hook_id = ground arith;
      next_ptr = ground arith;
    }

registered :
    (e : HookEntry) (s s' : Hooks) (id : Text)
    → bind_outcome (register e s) (λ n. pure {S = Hooks} (to_hex_addr n)) ≡ done s' id
    → (record s {
      next_hook_id = (s.next_hook_id + 1) % u64_mod;
      hooks_by_id = assign s.next_hook_id e s.hooks_by_id;
      hooks_by_target = assign e.target e s.hooks_by_target;
    }
        ≡ s')
      × (id ≡ to_hex_addr s.next_hook_id)
unfolding register
registered e s s' id h = (cc, cc)

same_next_id :
    (s s₂ s₃ s₄ : Hooks) (p₂ p₃ p₄ : Process)
    → record s { next_ptr = s.next_ptr + 1; process = p₂ } ≡ s₂
    → record s₂ { process = p₃ } ≡ s₃
    → record s₃ { process = p₄ } ≡ s₄
    → s₄.next_hook_id ≡ s.next_hook_id
same_next_id s s₂ s₃ s₄ p₂ p₃ p₄ q₂ q₃ q₄ = ground arith

module _ (t : Tools) (os : Os) (enter leave : ℕ) where
  trampoline_or_release-done :
      (user relocated : ℕ) (s s' : Hooks) (code : ℕ)
      → trampoline_or_release t os enter leave user relocated s ≡ done s' code
      → (p : Process) × Added s.process p code × (record s { process = p } ≡ s')
  unfolding trampoline_or_release on_process
  trampoline_or_release-done user relocated s s' code h =
      of_outcome (on_process (build_trampoline t os enter (some leave) user relocated) s) refl h
    where
      of_outcome :
          (o : Outcome Hooks ℕ)
          → on_process (build_trampoline t os enter (some leave) user relocated) s ≡ o
          → (elim o [ done s₁ c ↦ done s₁ c | throw s₁ e ↦ throw (release relocated s₁) e ])
            ≡ done s' code
          → (p : Process) × Added s.process p code × (record s { process = p } ≡ s')
      of_outcome (done s₁ c) e h =
          let e' : on_process (build_trampoline t os enter (some leave) user relocated) s
              ≡ done s' code =
            cc in
          let (p, b, q) =
            on_process-done (build_trampoline t os enter (some leave) user relocated) s s' code
              e' in
          (p, build_trampoline-Added t os enter (some leave) user relocated s.process p code b, q)
      of_outcome (throw s₁ x) e h = cc

  pub attach-Attached :
      (text : Text) (on_enter on_leave : Option ℕ) (s s' : Hooks) (target : ℕ) (id : Text)
      → parse_hex_addr text ≡ ok target
      → attach t os enter leave text on_enter on_leave s ≡ done s' id
      → (e : HookEntry) × Attached t s s' target e × (id ≡ to_hex_addr s.next_hook_id)
  unfolding attach register
  attach-Attached text on_enter on_leave s s' target id parsed h =
      let h₁ = rw (parsed, attach) at h in
      let (s₁, u₁, e₁, k₁) = bind-done (refuse_hooked target text s) _ h₁ in
      let (free, q₁) = refuse_hooked-done target text s s₁ u₁ e₁ in
      let k₁' = rw (← q₁) at k₁ in
      let n : ℕ = patch_size t.arch in
      let s⁺ : Hooks = record s { next_ptr = s.next_ptr + 1 } in
      let (s₂, r, e₂, k₂) = bind-done (on_process (build_relocated_code t target n) s⁺) _ k₁' in
      let (p₂, b₂, q₂) = on_process-done (build_relocated_code t target n) s⁺ s₂ r e₂ in
      let (s₃, code, e₃, k₃) =
        bind-done (trampoline_or_release t os enter leave s.next_ptr r.0 s₂) _ k₂ in
      let (p₃, a₃, q₃) = trampoline_or_release-done s.next_ptr r.0 s₂ s₃ code e₃ in
      let bytes = generate_patch_bytes t.arch code in
      let (s₄, u₄, e₄, k₄) =
        bind-done (on_process (make_writable_and_patch t target bytes) s₃) _ k₃ in
      let (p₄, b₄, q₄) = on_process-done (make_writable_and_patch t target bytes) s₃ s₄ u₄ e₄ in
      let entry : HookEntry = record {
        ptr = s.next_ptr;
        target = target;
        trampoline_code = code;
        relocated_code = r.0;
        original_bytes = read_bytes s.process.memory target n;
        patch_size = n;
        on_enter = on_enter;
        on_leave = on_leave;
      } in
      let (k₅, text₅) = registered entry s₄ s' id k₄ in
      (
        entry,
        Attached-of_steps t s s₂ s₃ s₄ s' p₂ p₃ p₄ target entry free refl refl refl
            (build_relocated_code-Added t target n s.process p₂ r b₂) q₂ a₃ q₃
            (make_writable_and_patch-Patched t target bytes s₃.process p₄ b₄) q₄ k₅,
        text₅ ∙ ap to_hex_addr (same_next_id s s₂ s₃ s₄ p₂ p₃ p₄ q₂ q₃ q₄),
      )
