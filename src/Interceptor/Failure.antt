-- ===== src/Interceptor/Failure.antt =====
-- What an attach or a replace that throws leaves of the hooks.
use chromatic.Base.{
  ℕ, ◌≡◌, ◌≤◌, ◌∙◌, refl, List, Text, Option, none, Outcome, done, throw, Thrown, pure,
  bind_outcome, arith, lift,
}
use chromatic.Hex.{parse_hex_addr, to_hex_addr}
use chromatic.Platform.{Os, patch_size}
use chromatic.Relocator.{
  read_bytes, make_writable_and_patch, build_relocated_code, generate_patch_bytes,
}
use chromatic.Relocator.Host.{Tools, Process}
use chromatic.Relocator.Build.{Permits, make_writable_and_patch_total}
use chromatic.Interceptor.{
  HookEntry, Hooks, attach, replace, on_process, new_entry, refuse_hooked, register,
  trampoline_or_release,
}
use chromatic.Interceptor.Frames.{
  ThrowLeaves, Framed, ThrowLeaves-bind_outcome, ThrowLeaves-last, Leaves-build_relocated_code,
  Leaves-refuse_hooked, Leaves-lift, Leaves-new_entry, Leaves-trampoline_or_release,
}

module _ (R : Hooks → Hooks → Type 0) (t : Tools) (f : Framed R t) (os : Os) (enter leave : ℕ) where
  abbrev n : ℕ
  n = patch_size t.arch

  -- The entry of a hook.
  abbrev entry_of : ℕ → ℕ → List ℕ → ℕ → ℕ → Option ℕ → Option ℕ → HookEntry
  entry_of target ptr original trampoline relocated on_enter on_leave = record {
    ptr = ptr;
    target = target;
    trampoline_code = trampoline;
    relocated_code = relocated;
    original_bytes = original;
    patch_size = n;
    on_enter = on_enter;
    on_leave = on_leave;
  }

  -- The last two steps: the patch is written, and the entry is registered.
  ThrowLeaves-register :
      (target : ℕ) (bytes : List ℕ) (e : HookEntry) (text : ℕ → Text) (s : Hooks)
      → ThrowLeaves R s (
          bind_outcome
            (on_process (make_writable_and_patch t target bytes) s)
            λ _ s₁. bind_outcome (register e s₁) (λ id. pure {S = Hooks} (text id)))
  unfolding register
  ThrowLeaves-register target bytes e text s =
      ThrowLeaves-last R t f s (on_process (make_writable_and_patch t target bytes) s) _
        (f.patch target bytes s) (λ u s₁. tt {0})

  -- The steps up to the relocated code, which attach and replace share.
  ThrowLeaves-prepare :
      (target : ℕ) (text : Text) (k : ℕ → List ℕ → ℕ × ℕ → Hooks → Outcome Hooks Text) (s : Hooks)
      → ((ptr : ℕ) (original : List ℕ) (r : ℕ × ℕ) (s₁ : Hooks)
          → ThrowLeaves R s₁ (k ptr original r s₁))
      → ThrowLeaves R s (
          bind_outcome (refuse_hooked target text s) λ _ s₁. bind_outcome (new_entry s₁) λ ptr s₂.
            bind_outcome (done s₂ (read_bytes s₂.process.memory target n)) λ original s₃.
              bind_outcome (on_process (build_relocated_code t target n) s₃) (k ptr original))
  ThrowLeaves-prepare target text k s rest =
      ThrowLeaves-bind_outcome R t f s (refuse_hooked target text s) _
        (Leaves-refuse_hooked R t f target text s)
        λ u s₁.
          ThrowLeaves-bind_outcome R t f s₁ (new_entry s₁) _ (Leaves-new_entry R t f s₁) λ ptr s₂.
            ThrowLeaves-bind_outcome R t f s₂ (on_process (build_relocated_code t target n) s₂) _
              (Leaves-build_relocated_code R t f target n s₂)
              (rest ptr (read_bytes s₂.process.memory target n))

  ThrowLeaves-attach :
      (text : Text) (on_enter on_leave : Option ℕ) (s : Hooks)
      → ThrowLeaves R s (attach t os enter leave text on_enter on_leave s)
  unfolding attach
  ThrowLeaves-attach text on_enter on_leave s =
      ThrowLeaves-bind_outcome R t f s (lift (parse_hex_addr text) s) _
        (Leaves-lift R t f (parse_hex_addr text) s)
        λ target s₁. ThrowLeaves-prepare target text _ s₁ λ ptr original relocated s₂.
          ThrowLeaves-bind_outcome R t f s₂
            (trampoline_or_release t os enter leave ptr relocated.0 s₂) _
            (Leaves-trampoline_or_release R t f os enter leave ptr relocated.0 s₂)
            λ trampoline s₃.
              ThrowLeaves-register target (generate_patch_bytes t.arch trampoline)
                (entry_of target ptr original trampoline relocated.0 on_enter on_leave) to_hex_addr
                s₃

  ThrowLeaves-replace :
      (text replacement_text : Text) (s : Hooks)
      → ThrowLeaves R s (replace t os enter leave text replacement_text s)
  unfolding replace
  ThrowLeaves-replace text replacement_text s =
      ThrowLeaves-bind_outcome R t f s (lift (parse_hex_addr text) s) _
        (Leaves-lift R t f (parse_hex_addr text) s)
        λ target s₁.
          ThrowLeaves-bind_outcome R t f s₁ (lift (parse_hex_addr replacement_text) s₁) _
            (Leaves-lift R t f (parse_hex_addr replacement_text) s₁)
            λ replacement s₂. ThrowLeaves-prepare target text _ s₂ λ ptr original relocated s₃.
              ThrowLeaves-register target (generate_patch_bytes t.arch replacement)
                (entry_of target ptr original 0 relocated.0 none none)
                (λ id. to_hex_addr relocated.0) s₃

-- The two maps and the counter of the hooks are those of `s`.
pub record SameHooks (s s' : Hooks) : Type 0 where
  pub by_id : s'.hooks_by_id ≡ s.hooks_by_id
  pub by_target : s'.hooks_by_target ≡ s.hooks_by_target
  pub next_hook_id : s'.next_hook_id ≡ s.next_hook_id

-- And so is memory.
pub record Kept (s s' : Hooks) : Type 0 where
  pub hooks : SameHooks s s'
  pub memory : s'.process.memory ≡ s.process.memory
  pub next_ptr : s.next_ptr ≤ s'.next_ptr

SameHooks-Framed : (t : Tools) → Framed SameHooks t
unfolding on_process
SameHooks-Framed t = record {
  here = λ s. record { by_id = refl; by_target = refl; next_hook_id = refl };
  later = λ s s₁ s₂ v w. record {
    by_id = w.by_id ∙ v.by_id;
    by_target = w.by_target ∙ v.by_target;
    next_hook_id = w.next_hook_id ∙ v.next_hook_id;
  };
  process = λ s p h. record { by_id = refl; by_target = refl; next_hook_id = refl };
  entry = λ s. record { by_id = refl; by_target = refl; next_hook_id = refl };
  patch = λ a bs s. of_outcome s (make_writable_and_patch t a bs s.process);
}
  where
    of_outcome :
        (s : Hooks) (o : Outcome Process (Unit {0}))
        → ThrowLeaves SameHooks s (elim o [
          | done p a ↦ done (record s { process = p }) a
          | throw p e ↦ throw (record s { process = p }) e
        ])
    of_outcome s (done p a) = tt
    of_outcome s (throw p e) = record { by_id = refl; by_target = refl; next_hook_id = refl }

-- Where mprotect does not fail, no patch fails.
Kept-Framed : (t : Tools) → Permits t → Framed Kept t
unfolding on_process
Kept-Framed t permits = record {
  here = λ s. record { hooks = same.here s; memory = refl; next_ptr = omega arith };
  later = λ s s₁ s₂ v w. record {
    hooks = same.later s s₁ s₂ v.hooks w.hooks;
    memory = w.memory ∙ v.memory;
    next_ptr = omega (arith, v.next_ptr, w.next_ptr);
  };
  process = λ s p h. record { hooks = same.process s p h; memory = h; next_ptr = omega arith };
  entry = λ s. record { hooks = same.entry s; memory = refl; next_ptr = omega arith };
  patch = λ a bs s.
      let (q, h) = make_writable_and_patch_total t permits a bs s.process in
      rw (on_process, h) (tt {0});
}
  where
    same : Framed SameHooks t
    same = SameHooks-Framed t

module _ (t : Tools) (os : Os) (enter leave : ℕ) where
  -- Wherever attach throws, for a malformed address, a target that is hooked already, code that
  -- cannot be moved or built, or memory that cannot be made writable, both maps of hooks and the
  -- counter of ids are as they were before.
  pub attach_error-SameHooks :
      (text : Text) (on_enter on_leave : Option ℕ) (s s' : Hooks) (e : Thrown)
      → attach t os enter leave text on_enter on_leave s ≡ throw s' e
      → SameHooks s s'
  attach_error-SameHooks text on_enter on_leave s s' e h =
      rw h at (
        ThrowLeaves-attach SameHooks t (SameHooks-Framed t) os enter leave text on_enter on_leave s)

  pub ThrowLeaves-attach-Kept :
      (permits : Permits t) (text : Text) (on_enter on_leave : Option ℕ) (s : Hooks)
      → ThrowLeaves Kept s (attach t os enter leave text on_enter on_leave s)
  ThrowLeaves-attach-Kept permits text on_enter on_leave s =
      ThrowLeaves-attach Kept t (Kept-Framed t permits) os enter leave text on_enter on_leave s

  pub ThrowLeaves-replace-Kept :
      (permits : Permits t) (text replacement_text : Text) (s : Hooks)
      → ThrowLeaves Kept s (replace t os enter leave text replacement_text s)
  ThrowLeaves-replace-Kept permits text replacement_text s =
      ThrowLeaves-replace Kept t (Kept-Framed t permits) os enter leave text replacement_text s
