-- ===== src/Interceptor/Undo.antt =====
-- Taking hooks away again.
use chromatic.Base.{
  ℕ, ◌<◌, ◌≡◌, refl, ◌∙◌, ap, false, List, ◌∷◌, ◌==◌, Text, Option, none, some, length, lookup,
  erase, lookup-assign, erase-assign, ok, done, ==_refl,
}
use chromatic.Hex.{u64_mod, parse_hex_addr}
use chromatic.Hex.RoundTrip.{parse_hex_addr-to_hex_addr}
use chromatic.Platform.{Arch, x64, arm64, Os, patch_size}
use chromatic.Relocator.{
  generate_patch_bytes, write_bytes, make_writable_and_patch, release_code, le_bytes,
}
use chromatic.Relocator.Host.{Tools, Process}
use chromatic.Relocator.Build.{
  make_writable_and_patch-Patched, Permits, make_writable_and_patch_total, release_code-newest,
}
use chromatic.Relocator.Patch.{write_bytes_undo}
use chromatic.Interceptor.{HookEntry, Hooks, attach, detach, on_process, unhook, release}
use chromatic.Interceptor.RoundTrip.{attach-Attached}

-- What taking `e` away leaves of the state `s`.
record Unhooked (s q : Hooks) (e : HookEntry) (rest : List ℕ) : Type 0 where
  pub memory : q.process.memory ≡ write_bytes e.target e.original_bytes s.process.memory
  pub live : q.process.live ≡ rest
  pub by_id : q.hooks_by_id ≡ s.hooks_by_id
  pub by_target : q.hooks_by_target ≡ s.hooks_by_target

pub unhook_of_patch :
    (t : Tools) (os : Os) (enter leave : ℕ) (e : HookEntry) (s : Hooks) (p : Process)
    → make_writable_and_patch t e.target e.original_bytes s.process ≡ done p tt
    → unhook t os enter leave e s
      ≡ done
          (record s { process = release_code e.relocated_code (release_code e.trampoline_code p) })
          tt
unfolding unhook on_process release
unhook_of_patch t os enter leave e s p h = rw (on_process, h) refl

pub detach_of_unhook :
    (t : Tools) (os : Os) (enter leave : ℕ) (text : Text) (n : ℕ) (e : HookEntry) (s q : Hooks)
    → parse_hex_addr text ≡ ok n
    → lookup n s.hooks_by_id ≡ some e
    → unhook t os enter leave e s ≡ done q tt
    → detach t os enter leave text s
      ≡ done
          (record q {
            hooks_by_target = erase e.target q.hooks_by_target;
            hooks_by_id = erase n q.hooks_by_id;
          })
          tt
unfolding detach
detach_of_unhook t os enter leave text n e s q parsed found h = rw (detach, parsed, found, h) refl

unhook-Unhooked :
    (t : Tools) (os : Os) (enter leave : ℕ)
    → Permits t
    → (e : HookEntry) (s : Hooks) (live : List ℕ) → (e.trampoline_code == 0) ≡ false
    → (e.relocated_code == 0) ≡ false
    → s.process.live ≡ e.trampoline_code ∷ e.relocated_code ∷ live
    → (q : Hooks) × (unhook t os enter leave e s ≡ done q tt) × Unhooked s q e live
unhook-Unhooked t os enter leave permits e s live t≢0 r≢0 is_live =
    let (p, done_p) = make_writable_and_patch_total t permits e.target e.original_bytes s.process in
    let patched = make_writable_and_patch-Patched t e.target e.original_bytes s.process p done_p in
    let p₁ : Process = release_code e.trampoline_code p in
    let (live₁, memory₁) =
      release_code-newest e.trampoline_code p (e.relocated_code ∷ live) t≢0
        (patched.live ∙ is_live) in
    let (live₂, memory₂) = release_code-newest e.relocated_code p₁ live r≢0 live₁ in
    (
      record s { process = release_code e.relocated_code p₁ },
      unhook_of_patch t os enter leave e s p done_p,
      record {
        memory = memory₂ ∙ memory₁ ∙ patched.memory;
        live = live₂;
        by_id = refl;
        by_target = refl;
      },
    )

pub length-generate_patch_bytes :
    (arch : Arch) (target : ℕ) → length (generate_patch_bytes arch target) ≡ patch_size arch
unfolding generate_patch_bytes le_bytes
length-generate_patch_bytes x64 target = refl
length-generate_patch_bytes arm64 target = refl

-- The parts of the state that a hook changes are again those of `s`.
pub record Restored (s q : Hooks) : Type 0 where
  pub memory : q.process.memory ≡ s.process.memory
  pub live : q.process.live ≡ s.process.live
  pub by_id : q.hooks_by_id ≡ s.hooks_by_id
  pub by_target : q.hooks_by_target ≡ s.hooks_by_target

-- Where mprotect does not fail and the next hook id is a 64-bit number that no hook has, detaching
-- the hook that attach has just made succeeds, and the process's memory, the live JIT code and both
-- maps of hooks are as they were before attach.
pub detach-attach :
    (t : Tools) (os : Os) (enter leave : ℕ) (text : Text) (on_enter on_leave : Option ℕ)
    (s s' : Hooks) (target : ℕ) (id : Text)
    → Permits t
    → parse_hex_addr text ≡ ok target
    → s.next_hook_id < u64_mod
    → lookup s.next_hook_id s.hooks_by_id ≡ none
    → attach t os enter leave text on_enter on_leave s ≡ done s' id
    → (q : Hooks) × (detach t os enter leave id s' ≡ done q tt) × Restored s q
detach-attach t os enter leave text on_enter on_leave s s' target id permits parsed small fresh h =
    let (e, a, named) =
      attach-Attached t os enter leave text on_enter on_leave s s' target id parsed h in
    let (q, done_q, u) =
      unhook-Unhooked t os enter leave permits e s' s.process.live a.trampoline a.relocated
        a.live in
    let key : parse_hex_addr id ≡ ok s.next_hook_id =
      ap parse_hex_addr named ∙ parse_hex_addr-to_hex_addr s.next_hook_id small in
    let found : lookup s.next_hook_id s'.hooks_by_id ≡ some e =
      rw
        (
          a.by_id,
          lookup-assign s.next_hook_id s.next_hook_id e s.hooks_by_id,
          ==_refl s.next_hook_id,
        )
        refl in
    let n : ℕ = patch_size t.arch in
    (
      record q {
        hooks_by_target = erase e.target q.hooks_by_target;
        hooks_by_id = erase s.next_hook_id q.hooks_by_id;
      },
      detach_of_unhook t os enter leave id s.next_hook_id e s' q key found done_q,
      record {
        memory =
            u.memory
            ∙ rw (a.memory, a.saved, a.aimed)
                (write_bytes_undo s.process.memory target
                  (generate_patch_bytes t.arch e.trampoline_code) n
                  (length-generate_patch_bytes t.arch e.trampoline_code));
        live = u.live;
        by_id = rw (u.by_id, a.by_id) (erase-assign s.next_hook_id e s.hooks_by_id fresh);
        by_target =
            rw (u.by_target, a.by_target, a.aimed) (erase-assign target e s.hooks_by_target a.free);
      },
    )
