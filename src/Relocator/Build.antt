-- ===== src/Relocator/Build.antt =====
-- What building, patching and releasing do to the process.
use chromatic.Base.{
  ℕ, ◌+◌, ◌-◌, ◌≡◌, refl, ap, false, List, [], ◌∷◌, ◌==◌, Text, codes, Option, some, length, Result,
  ok, err, done, throw, bind_outcome, bind-done, arith, ==_refl, state_of, Outcome, ◌∙◌,
}
use Prim.Native.Nat.{bit_and}
use chromatic.Hex.{u64_mod}
use chromatic.Platform.{Os}
use chromatic.Relocator.{
  write_bytes, make_writable_and_patch, protect, prot_rw, prot_rx, jit_add, build_relocated_code,
  release_code, drop_live, relocate_from,
}
use chromatic.Relocator.Ops.{Op}
use chromatic.Relocator.Host.{Tools, Process}
use chromatic.Relocator.Trampoline.{build_trampoline}

-- New code is one more live address, which is not null; memory stays as it is.
pub record Added (p q : Process) (code : ℕ) : Type 0 where
  pub memory : q.memory ≡ p.memory
  pub live : q.live ≡ code ∷ p.live
  pub not_null : (code == 0) ≡ false

jit_add-Added :
    (t : Tools) (ops : List Op) (message : Text) (p q : Process) (code : ℕ)
    → jit_add t ops message p ≡ done q code
    → Added p q code
unfolding jit_add
jit_add-Added t ops message p q code h = ground arith

pub build_relocated_code-Added :
    (t : Tools) (source n : ℕ) (p q : Process) (r : ℕ × ℕ)
    → build_relocated_code t source n p ≡ done q r
    → Added p q r.0
unfolding build_relocated_code
build_relocated_code-Added t source n p q r h =
    of_ops (relocate_from t p.memory source n (n + 1) [] 0 0) h
  where
    moved :
        (s : Process) (code consumed : ℕ)
        → Added p s code
        → done s (code, consumed) ≡ done q r
        → Added p q r.0
    moved s code consumed v e =
        let same : s ≡ q = cc in
        let result : (code, consumed) ≡ r = cc in
        let first : code ≡ r.0 = ap (λ (x : ℕ × ℕ). x.0) result in rw (same, first) at v

    of_ops :
        (o : Result (List Op × ℕ))
        → (elim o [
          | err e ↦ throw p e
          | ok (ops, consumed) ↦
              bind_outcome
                (jit_add t ops (codes "asmjit: failed to build relocated code") p)
                λ code s₁. done s₁ (code, consumed)
        ])
          ≡ done q r
        → Added p q r.0
    of_ops (err e) h = cc
    of_ops (ok (ops, consumed)) h =
        let (s₁, code, e₁, e₂) =
          bind-done (jit_add t ops (codes "asmjit: failed to build relocated code") p)
            (λ code s₁. done s₁ (code, consumed)) h in
        moved s₁ code consumed (jit_add-Added t ops _ p s₁ code e₁) e₂

pub build_trampoline-Added :
    (t : Tools) (os : Os) (enter : ℕ) (leave : Option ℕ) (user relocated : ℕ) (p q : Process)
    (code : ℕ)
    → build_trampoline t os enter leave user relocated p ≡ done q code
    → Added p q code
unfolding build_trampoline
build_trampoline-Added t os enter leave user relocated p q code h =
    jit_add-Added t _ (codes "asmjit: failed to build trampoline") p q code h

-- The bytes are written, and the live code stays.
pub record Patched (p q : Process) (a : ℕ) (bs : List ℕ) : Type 0 where
  pub memory : q.memory ≡ write_bytes a bs p.memory
  pub live : q.live ≡ p.live

pub make_writable_and_patch-Patched :
    (t : Tools) (a : ℕ) (bs : List ℕ) (p q : Process)
    → make_writable_and_patch t a bs p ≡ done q tt
    → Patched p q a bs
unfolding make_writable_and_patch protect
make_writable_and_patch-Patched t a bs p q h = ground arith

-- A system on which mprotect does not fail.
abbrev pub Permits : Tools → Type 0
Permits t =
    (start size prot : ℕ) (p : ℕ → ℕ) → (p' : ℕ → ℕ) × (t.mprotect start size prot p ≡ some p')

pub make_writable_and_patch_total :
    (t : Tools)
    → Permits t
    → (a : ℕ) (bs : List ℕ) (p : Process)
    → (q : Process) × (make_writable_and_patch t a bs p ≡ done q tt)
unfolding make_writable_and_patch protect
make_writable_and_patch_total t permits a bs p =
    let start = bit_and a (u64_mod - t.page_size) in
    let n = a + length bs - start in
    let (p₁, e₁) = permits start n prot_rw p.protections in
    let (p₂, e₂) = permits start n prot_rx p₁ in
    (record { memory = write_bytes a bs p.memory; protections = p₂; live = p.live }, ground arith)

-- Releasing the newest code takes it off the live code.
pub release_code-newest :
    (code : ℕ) (p : Process) (live : List ℕ)
    → (code == 0) ≡ false
    → p.live ≡ code ∷ live
    → ((release_code code p).live ≡ live) × ((release_code code p).memory ≡ p.memory)
unfolding release_code drop_live
release_code-newest code p live pos e = rw (pos, e) (rw (==_refl code), refl)

-- Building code, and releasing it, leaves memory alone, also where it throws.
jit_add-memory :
    (t : Tools) (ops : List Op) (message : Text) (p : Process)
    → (state_of (jit_add t ops message p)).memory ≡ p.memory
unfolding jit_add
jit_add-memory t ops message p = ground arith

pub build_relocated_code-memory :
    (t : Tools) (source n : ℕ) (p : Process)
    → (state_of (build_relocated_code t source n p)).memory ≡ p.memory
unfolding build_relocated_code
build_relocated_code-memory t source n p = of_ops (relocate_from t p.memory source n (n + 1) [] 0 0)
  where
    of_added :
        (o : Outcome Process ℕ) (consumed : ℕ)
        → (state_of (bind_outcome {B = ℕ × ℕ} o (λ code s₁. done s₁ (code, consumed)))).memory
          ≡ (state_of o).memory
    of_added (done q code) consumed = refl
    of_added (throw q e) consumed = refl

    of_ops :
        (o : Result (List Op × ℕ))
        → (state_of {S = Process} {A = ℕ × ℕ} (elim o [
          | err e ↦ throw p e
          | ok (ops, consumed) ↦
              bind_outcome
                (jit_add t ops (codes "asmjit: failed to build relocated code") p)
                λ code s₁. done s₁ (code, consumed)
        ])).memory
          ≡ p.memory
    of_ops (err e) = refl
    of_ops (ok (ops, consumed)) = of_added (jit_add t ops _ p) consumed ∙ jit_add-memory t ops _ p

pub build_trampoline-memory :
    (t : Tools) (os : Os) (enter : ℕ) (leave : Option ℕ) (user relocated : ℕ) (p : Process)
    → (state_of (build_trampoline t os enter leave user relocated p)).memory ≡ p.memory
unfolding build_trampoline
build_trampoline-memory t os enter leave user relocated p =
    jit_add-memory t _ (codes "asmjit: failed to build trampoline") p

pub release_code-memory : (code : ℕ) (p : Process) → (release_code code p).memory ≡ p.memory
unfolding release_code
release_code-memory code p = ground arith
