-- ===== src/Interceptor.antt =====
-- src/core/bindings/native_interceptor.cc: hooks at the entry of functions.
-- An entry on the C++ heap is told from others by its address, the field `ptr`.
pub mod RoundTrip
pub mod Undo
pub mod Frames
pub mod Failure
pub mod Replacing
pub mod Tracked
pub mod Going
pub mod Sequence
use chromatic.Base.{
  ℕ, zero, suc, ◌+◌, ◌-◌, ◌%◌, ◌^◌, ◌≡◌, refl, Bool, true, false, not, List, [], ◌∷◌, ◌++◌, ◌==◌,
  if◌then◌else◌, Text, codes, Option, none, some, length, lookup, erase, assign, Result, ok, err,
  and_then, runtime_error, Outcome, done, throw, M, pure, lift, bind_outcome, ◌>>=◌, ◌>>◌, modify,
}
use chromatic.Hex.{u64_mod, to_hex_addr, parse_hex_addr}
use chromatic.Platform.{Os, patch_size}
use chromatic.Relocator.{
  generate_patch_bytes, read_bytes, make_writable_and_patch, build_relocated_code, release_code,
}
use chromatic.Relocator.Host.{Tools, Process}
use chromatic.Relocator.Trampoline.{build_trampoline}

-- Scripts' functions are named by numbers; an empty std::function is `none`. A null pointer is 0.
pub record HookEntry : Type 0 where
  pub ptr : ℕ
  pub target : ℕ
  pub trampoline_code : ℕ
  pub relocated_code : ℕ
  pub original_bytes : List ℕ
  pub patch_size : ℕ
  pub on_enter : Option ℕ
  pub on_leave : Option ℕ

-- `next_ptr` is the address that the next `new` returns.
pub record Hooks : Type 0 where
  pub process : Process
  pub next_hook_id : ℕ
  pub hooks_by_id : List (ℕ × HookEntry)
  pub hooks_by_target : List (ℕ × HookEntry)
  pub next_ptr : ℕ

-- The calls that a dispatch function makes of a script: the function and the address of the saved
-- registers as text. An exception of the script is caught and printed.
unfoldable pub dispatch : ℕ → Option HookEntry → List (ℕ × Text)
dispatch cpu_context none = []
dispatch cpu_context (some e) = elim e.on_enter [
  | none ↦ []
  | some f ↦ (f, to_hex_addr cpu_context) ∷ []
]

unfoldable pub dispatch_leave : ℕ → Option HookEntry → List (ℕ × Text)
dispatch_leave cpu_context none = []
dispatch_leave cpu_context (some e) = elim e.on_leave [
  | none ↦ []
  | some f ↦ (f, to_hex_addr cpu_context) ∷ []
]

-- A call that works on the process.
unfoldable pub on_process : {A : Type 0} → (Process → Outcome Process A) → M Hooks A
on_process m s = elim (m s.process) [
  | done p a ↦ done (record s { process = p }) a
  | throw p e ↦ throw (record s { process = p }) e
]

pub new_entry : M Hooks ℕ
new_entry s = done (record s { next_ptr = s.next_ptr + 1 }) s.next_ptr

-- Both maps get the entry; the id is the result.
unfoldable pub register : HookEntry → M Hooks ℕ
register entry s =
    done
      (record s {
        next_hook_id = (s.next_hook_id + 1) % u64_mod;
        hooks_by_id = assign s.next_hook_id entry s.hooks_by_id;
        hooks_by_target = assign entry.target entry s.hooks_by_target;
      })
      s.next_hook_id

pub refuse_hooked : ℕ → Text → M Hooks (Unit {0})
refuse_hooked target text s = elim (lookup target s.hooks_by_target) [
  | some e ↦ throw s (runtime_error (codes "Already hooked at " ++ text))
  | none ↦ done s tt
]

pub release : ℕ → Hooks → Hooks
release code s = record s { process = release_code code s.process }

-- `t` and `os` are the system; `enter` and `leave` are the addresses of the two dispatch functions.
module _ (t : Tools) (os : Os) (enter leave : ℕ) where
  size : ℕ
  size = patch_size t.arch

  -- buildTrampoline; the relocated code is released if it throws.
  pub trampoline_or_release : ℕ → ℕ → M Hooks ℕ
  unfolding on_process release
  trampoline_or_release user relocated s =
      elim (on_process (build_trampoline t os enter (some leave) user relocated) s) [
        | done s' code ↦ done s' code
        | throw s' e ↦ throw (release relocated s') e
      ]

  unfoldable pub attach : Text → Option ℕ → Option ℕ → M Hooks Text
  unfolding refuse_hooked new_entry size trampoline_or_release
  attach target_text on_enter on_leave = do
    target ← lift (parse_hex_addr target_text)
    refuse_hooked target target_text
    ptr ← new_entry
    original ← (λ s. done s (read_bytes s.process.memory target size))
    relocated ← on_process (build_relocated_code t target size)
    trampoline ← trampoline_or_release ptr relocated.0
    on_process (make_writable_and_patch t target (generate_patch_bytes t.arch trampoline))
    id ← register (record {
      ptr = ptr;
      target = target;
      trampoline_code = trampoline;
      relocated_code = relocated.0;
      original_bytes = original;
      patch_size = size;
      on_enter = on_enter;
      on_leave = on_leave;
    })
    pure (to_hex_addr id)

  -- The original bytes are put back, and the code of the hook is released.
  unfoldable pub unhook : HookEntry → M Hooks (Unit {0})
  unfolding on_process release
  unhook e = do
    on_process (make_writable_and_patch t e.target e.original_bytes)
    modify (release e.trampoline_code)
    modify (release e.relocated_code)

  unfoldable pub detach : Text → M Hooks (Unit {0})
  unfolding unhook
  detach hook_text s = elim (parse_hex_addr hook_text) [
    | err e ↦ throw s e
    | ok id ↦ elim (lookup id s.hooks_by_id) [
      | none ↦ done s tt
      | some e ↦ bind_outcome (unhook e s) λ _ s'.
          done
            (record s' {
              hooks_by_target = erase e.target s'.hooks_by_target;
              hooks_by_id = erase id s'.hooks_by_id;
            })
            tt
    ]
  ]

  unfoldable pub unhook_all : List (ℕ × HookEntry) → M Hooks (Unit {0})
  unfolding unhook
  unhook_all [] s = done s tt
  unhook_all ((id, e) ∷ es) s = bind_outcome (unhook e s) (λ _ s'. unhook_all es s')

  -- The map is walked in the order of the list.
  unfoldable pub detach_all : M Hooks (Unit {0})
  unfolding unhook_all
  detach_all s =
      bind_outcome (unhook_all s.hooks_by_id s)
        λ _ s'. done (record s' { hooks_by_id = []; hooks_by_target = [] }) tt

  unfoldable pub replace : Text → Text → M Hooks Text
  unfolding refuse_hooked new_entry size
  replace target_text replacement_text = do
    target ← lift (parse_hex_addr target_text)
    replacement ← lift (parse_hex_addr replacement_text)
    refuse_hooked target target_text
    ptr ← new_entry
    original ← (λ s. done s (read_bytes s.process.memory target size))
    relocated ← on_process (build_relocated_code t target size)
    on_process (make_writable_and_patch t target (generate_patch_bytes t.arch replacement))
    id ← register (record {
      ptr = ptr;
      target = target;
      trampoline_code = 0;
      relocated_code = relocated.0;
      original_bytes = original;
      patch_size = size;
      on_enter = none;
      on_leave = none;
    })
    pure (to_hex_addr relocated.0)

-- The first hook by id that is the entry at `ptr` is taken out.
unfoldable pub erase_ptr : ℕ → List (ℕ × HookEntry) → List (ℕ × HookEntry)
erase_ptr ptr [] = []
erase_ptr ptr ((id, e) ∷ es) = if e.ptr == ptr then es else (id, e) ∷ erase_ptr ptr es

module _ (t : Tools) (os : Os) (enter leave : ℕ) where
  unfoldable pub revert : Text → M Hooks (Unit {0})
  unfolding unhook
  revert target_text s = elim (parse_hex_addr target_text) [
    | err e ↦ throw s e
    | ok target ↦ elim (lookup target s.hooks_by_target) [
      | none ↦ done s tt
      | some e ↦ bind_outcome (unhook t os enter leave e s) λ _ s'.
          done
            (record s' {
              hooks_by_id = erase_ptr e.ptr s'.hooks_by_id;
              hooks_by_target = erase target s'.hooks_by_target;
            })
            tt
    ]
  ]
