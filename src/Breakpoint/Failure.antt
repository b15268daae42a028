-- ===== src/Breakpoint/Failure.antt =====
-- What a set that throws leaves of the breakpoints and of the code.
use chromatic.Base.{ℕ, ◌≡◌, ◌≤◌, ◌∙◌, refl, Text, Option, arith}
use chromatic.Base.Triples.{Gives}
use chromatic.Platform.{Os}
use chromatic.Relocator.Host.{Tools}
use chromatic.Relocator.Build.{Permits, make_writable_and_patch_total}
use chromatic.Breakpoint.{Breakpoints, set, on_process, register, bp_insn}
use chromatic.Breakpoint.Frames.{Framed, set-Gives}
use chromatic.Breakpoint.Trap.{ensure-Ensured}

-- Memory and the two maps are those of `s`.
pub record Kept (s s' : Breakpoints) : Type 0 where
  pub memory : s'.process.memory ≡ s.process.memory
  pub by_id : s'.bp_by_id ≡ s.bp_by_id
  pub by_address : s'.bp_by_address ≡ s.bp_by_address
  pub next_bp_id : s'.next_bp_id ≡ s.next_bp_id
  pub next_ptr : s.next_ptr ≤ s'.next_ptr

-- Where mprotect does not fail, the last two steps do not throw.
Kept-Framed :
    (s : Breakpoints) (t : Tools) (os : Os) → Permits t → Framed (Kept s) (λ _. Unit {0}) t os
unfolding on_process register
Kept-Framed s t os permits = record {
  process = λ s₁ p k h. record {
    memory = h ∙ k.memory;
    by_id = k.by_id;
    by_address = k.by_address;
    next_bp_id = k.next_bp_id;
    next_ptr = k.next_ptr;
  };
  ensure = λ s₁ k.
      let v = ensure-Ensured os s₁ in
      record {
        memory = rw v.process k.memory;
        by_id = v.by_id ∙ k.by_id;
        by_address = v.by_address ∙ k.by_address;
        next_bp_id = v.next_bp_id ∙ k.next_bp_id;
        next_ptr = omega (arith, v.next_ptr, k.next_ptr);
      };
  entry = λ s₁ k. record {
    memory = k.memory;
    by_id = k.by_id;
    by_address = k.by_address;
    next_bp_id = k.next_bp_id;
    next_ptr = omega (arith, k.next_ptr);
  };
  last = λ address e s₁ k.
      let (q, h) = make_writable_and_patch_total t permits address (bp_insn t.arch) s₁.process in
      rw (on_process, h) (tt {0});
}

pub set-Kept :
    (s : Breakpoints) (t : Tools) (os : Os) (bp_dispatch : ℕ) (text : Text) (on_hit : Option ℕ)
    → Permits t
    → Gives (Kept s) (λ _ _. Unit {0}) (set t os bp_dispatch text on_hit s)
set-Kept s t os bp_dispatch text on_hit permits =
    set-Gives (Kept s) (λ _. Unit {0}) t os (Kept-Framed s t os permits) bp_dispatch text on_hit s
      (record {
        memory = refl;
        by_id = refl;
        by_address = refl;
        next_bp_id = refl;
        next_ptr = omega arith;
      })
