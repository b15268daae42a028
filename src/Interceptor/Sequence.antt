-- ===== src/Interceptor/Sequence.antt =====
-- Sequences of the calls of scripts on the interceptor, whether they return or throw.
use chromatic.Base.{
  ℕ, ◌+◌, ◌<◌, ◌≤◌, ◌≡◌, ◌≢◌, ◌⊎◌, refl, List, [], ◌∷◌, Text, Option, ok, done, arith, state_of,
  length, All,
}
use chromatic.Hex.{u64_mod, parse_hex_addr}
use chromatic.Platform.{Os, patch_size}
use chromatic.Relocator.Host.{Tools}
use chromatic.Relocator.Build.{Permits}
use chromatic.Interceptor.{Hooks, attach, detach, detach_all, replace, revert}
use chromatic.Interceptor.Tracked.{Sees}
use chromatic.Interceptor.Going.{
  Follows, Goes, attach-Goes, replace-Goes, detach-Goes, revert-Goes, detach_all-done,
  Follows-empty,
}

-- The calls of scripts.
pub data Call : Type 0 where
  attach_call : Text → Option ℕ → Option ℕ → Call
  detach_call revert_call : Text → Call
  replace_call : Text → Text → Call
  detach_all_call : Call

module _ (t : Tools) (os : Os) (enter leave : ℕ) where
  unfoldable pub call : Call → Hooks → Hooks
  call (attach_call target on_enter on_leave) s =
      state_of (attach t os enter leave target on_enter on_leave s)
  call (detach_call id) s = state_of (detach t os enter leave id s)
  call (revert_call target) s = state_of (revert t os enter leave target s)
  call (replace_call target replacement) s =
      state_of (replace t os enter leave target replacement s)
  call detach_all_call s = state_of (detach_all t os enter leave s)

  unfoldable pub calls : List Call → Hooks → Hooks
  calls [] s = s
  calls (c ∷ cs) s = calls cs (call c s)

-- What a call puts a patch at is a site.
abbrev pub Aims : (ℕ → Type 0) → Call → Type 0
Aims Site (attach_call text on_enter on_leave) =
    (target : ℕ) → parse_hex_addr text ≡ ok target → Site target
Aims Site (replace_call text replacement) =
    (target : ℕ) → parse_hex_addr text ≡ ok target → Site target
Aims Site _ = Unit

module _ (t : Tools) (os : Os) (enter leave : ℕ) (permits : Permits t) (Site : ℕ → Type 0)
    (separate : (a b : ℕ)
      → Site a
      → Site b
      → a ≢ b
      → (a + patch_size t.arch ≤ b) ⊎ (b + patch_size t.arch ≤ a))
    (original : ℕ → ℕ) (view : (ℕ → ℕ) → ℕ → ℕ) (seen : Sees (patch_size t.arch) Site view) where
  pub call-Goes :
      (c : Call) (s : Hooks)
      → Aims Site c
      → s.next_hook_id + 1 < u64_mod
      → Follows t os enter leave permits Site separate original view seen s
      → Goes t os enter leave permits Site separate original view seen s (call t os enter leave c s)
  unfolding call
  call-Goes (attach_call text on_enter on_leave) s site small l =
      attach-Goes t os enter leave permits Site separate original view seen text on_enter on_leave s
        site small l
  call-Goes (replace_call text replacement) s site small l =
      replace-Goes t os enter leave permits Site separate original view seen text replacement s site
        small l
  call-Goes (detach_call text) s site small l =
      detach-Goes t os enter leave permits Site separate original view seen text s l
  call-Goes (revert_call text) s site small l =
      revert-Goes t os enter leave permits Site separate original view seen text s l
  call-Goes detach_all_call s site small l =
      let (q, all_done, memory, none_id, none_target, id) =
        detach_all-done t os enter leave permits Site separate original view seen s l in
      rw all_done (
        Follows-empty t os enter leave permits Site separate original view seen q memory none_id
            none_target,
        omega (arith, id),
      )

  calls-Follows :
      (cs : List Call) (s : Hooks)
      → All (Aims Site) cs
      → s.next_hook_id + length cs < u64_mod
      → Follows t os enter leave permits Site separate original view seen s
      → Follows t os enter leave permits Site separate original view seen
          (calls t os enter leave cs s)
  unfolding calls
  calls-Follows [] s sites small l = l
  calls-Follows (c ∷ cs) s (site, sites) small l =
      let (l', id) = call-Goes c s site (omega arith) l in
      calls-Follows cs (call t os enter leave c s) sites (omega (arith, id)) l'

pub as_it_is : {n : ℕ} {Site : ℕ → Type 0} → Sees n Site (λ m. m)
as_it_is = record { write = λ a bs m site len. refl; read = λ a m site. refl }

-- Where mprotect does not fail and no two of the places that calls put patches at share a byte of a
-- patch, a script may make any calls of attach, detach, replace, revert and detachAll, fewer than the
-- ids of 64 bits that are left, whether they return or throw: if there was no hook before, detachAll
-- then succeeds, memory is what it was before the first call, and no hook is left.
pub detach_all-calls :
    (t : Tools) (os : Os) (enter leave : ℕ) (Site : ℕ → Type 0) (cs : List Call) (s : Hooks)
    → Permits t
    → ((a b : ℕ)
        → Site a
        → Site b
        → a ≢ b
        → (a + patch_size t.arch ≤ b) ⊎ (b + patch_size t.arch ≤ a))
    → All (Aims Site) cs
    → s.next_hook_id + length cs < u64_mod
    → s.hooks_by_id ≡ []
    → s.hooks_by_target ≡ []
    → (q : Hooks) × (detach_all t os enter leave (calls t os enter leave cs s) ≡ done q tt)
      × (q.process.memory ≡ s.process.memory)
      × (q.hooks_by_id ≡ [])
      × (q.hooks_by_target ≡ [])
detach_all-calls t os enter leave Site cs s permits separate sites small none_id none_target =
    let start =
      Follows-empty t os enter leave permits Site separate s.process.memory (λ m. m) as_it_is s refl
        none_id none_target in
    let l =
      calls-Follows t os enter leave permits Site separate s.process.memory (λ m. m) as_it_is cs s
        sites small start in
    let (q, all_done, memory, none_id', none_target', id) =
      detach_all-done t os enter leave permits Site separate s.process.memory (λ m. m) as_it_is
        (calls t os enter leave cs s) l in
    (q, all_done, memory, none_id', none_target')
