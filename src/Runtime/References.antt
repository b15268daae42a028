-- ===== src/Runtime/References.antt =====
-- The reference and the handler of the software breakpoints in the registry, over the calls of scripts.
use chromatic.Base.{
  ℕ, zero, suc, ◌+◌, ◌<◌, ◌≡◌, length, refl, false, List, [], ◌∷◌, Text, Option, none, some,
  state_of, done, Result, ok, err, arith, Bool-cases, inl, inr, lookup, erase,
}
use chromatic.Base.Signed.{pos}
use chromatic.Base.Triples.{Gives, Gives-bind_outcome, Gives-state_of}
use chromatic.Hex.{u64_mod, parse_hex_addr}
use chromatic.Platform.{Os}
use chromatic.Handlers.{HandlerEntry, Signal, Sigaction}
use chromatic.Handlers.Enabling.{IsPosix, Tracks}
use chromatic.Relocator.Host.{Tools}
use chromatic.Relocator.Build.{Permits}
use chromatic.Breakpoint.{
  BreakpointEntry, Breakpoints, maybe_remove_handler, is_empty, set, remove, remove_all, unset,
  unset_all,
}
use chromatic.Runtime.Holding.{
  Uses, Uses-mono, Uses-Framed, unset_all-Uses, maybe_remove-Uses, unset-Uses,
}
use chromatic.Handlers.Registry.{Fresh}
use chromatic.Breakpoint.Frames.{set-Gives}
use chromatic.Breakpoint.Sequence.{Call, set_call, remove_call, remove_all_call, call, calls}
use chromatic.Runtime.Counts.{Counts, Counts-at}
use chromatic.Runtime.Steps.{unset_all_total}

module _ (os : Os) (posix : IsPosix os) (orig : Signal → Sigaction) (base : List HandlerEntry)
    (n : ℕ) (t : Tools) (bp_dispatch : ℕ) where
  abbrev Used : ℕ → ℕ → Breakpoints → Type 0
  Used = Uses os posix orig base n

  remove-Uses :
      (k : ℕ) (text : Text) (s : Breakpoints)
      → Used k k s
      → Gives (Used k k) (λ _. Used k k) (remove t os bp_dispatch text s)
  unfolding remove
  remove-Uses k text s c = of_result (parse_hex_addr text) refl
    where
      of_found :
          (id : ℕ) (o : Option BreakpointEntry)
          → parse_hex_addr text ≡ ok id
          → lookup id s.bp_by_id ≡ o
          → Gives (Used k k) (λ _. Used k k) (remove t os bp_dispatch text s)
      of_found id none parsed found = rw (remove, parsed, found) c
      of_found id (some e) parsed found =
          rw (remove, parsed, found)
            (Gives-bind_outcome (Used k k) (λ _. Used k k) (λ _. Used k k)
              (unset t os bp_dispatch e s) _ (unset-Uses os posix orig base n k t bp_dispatch e s c)
              (λ u s₁ c₁.
                maybe_remove-Uses os posix orig base n k t bp_dispatch
                  (record s₁ {
                    bp_by_address = erase e.address s₁.bp_by_address;
                    bp_by_id = erase id s₁.bp_by_id;
                  })
                  c₁))

      of_result :
          (r : Result ℕ)
          → parse_hex_addr text ≡ r
          → Gives (Used k k) (λ _. Used k k) (remove t os bp_dispatch text s)
      of_result (err x) parsed = rw (remove, parsed) c
      of_result (ok id) parsed = of_found id (lookup id s.bp_by_id) parsed refl

  remove_all-Uses :
      (k : ℕ) (s : Breakpoints)
      → Used k k s
      → Gives (Used k k) (λ _. Used k k) (remove_all t os bp_dispatch s)
  unfolding remove_all
  remove_all-Uses k s c =
      Gives-bind_outcome (Used k k) (λ _. Used k k) (λ _. Used k k)
        (unset_all t os bp_dispatch s.bp_by_id s) _
        (unset_all-Uses os posix orig base n k t bp_dispatch s.bp_by_id s c)
        (λ u s₁ c₁.
          maybe_remove-Uses os posix orig base n k t bp_dispatch
            (record s₁ { bp_by_id = []; bp_by_address = [] }) c₁)

  -- A call takes one id from the counter at most.
  call-Uses :
      (k : ℕ) (a : Call) (s : Breakpoints)
      → Used (suc k) (suc k) s
      → Used k k (call t os bp_dispatch a s)
  unfolding call
  call-Uses k (set_call text on_hit) s c =
      let start =
        Uses-mono os posix orig base n (suc k) (suc k) (suc k) k s (omega arith) (omega arith) c in
      Uses-mono os posix orig base n (suc k) k k k (state_of (set t os bp_dispatch text on_hit s))
        (omega arith) (omega arith)
        (Gives-state_of (Used (suc k) k) (set t os bp_dispatch text on_hit s) (
          set-Gives (Used (suc k) k) (Used (suc k) k) t os (Uses-Framed os posix orig base n t k)
            bp_dispatch text on_hit s start))
  call-Uses k (remove_call text) s c = Gives-state_of (Used k k) (remove t os bp_dispatch text s) (
      remove-Uses k text s
        (Uses-mono os posix orig base n (suc k) (suc k) k k s (omega arith) (omega arith) c))
  call-Uses k remove_all_call s c = Gives-state_of (Used k k) (remove_all t os bp_dispatch s) (
      remove_all-Uses k s
        (Uses-mono os posix orig base n (suc k) (suc k) k k s (omega arith) (omega arith) c))

  calls-Uses :
      (cs : List Call) (s : Breakpoints)
      → Used (length cs) (length cs) s
      → Used zero zero (calls t os bp_dispatch cs s)
  unfolding calls
  calls-Uses [] s c = c
  calls-Uses (a ∷ cs) s c = calls-Uses cs (call t os bp_dispatch a s) (call-Uses (length cs) a s c)

  -- Without breakpoints the registry is what it was.
  released :
      (q : Breakpoints)
      → q.handler_installed ≡ false
      → Used zero zero q
      → (q.handlers.handlers ≡ base) × Counts orig n q.handlers
  released q off (c, r) =
      let c' = rw off at c in let r' = rw off at r in (r'.0, Counts-at (omega arith) c')

uninstalled :
    (s : Breakpoints) → s.bp_by_address ≡ [] → (maybe_remove_handler s).handler_installed ≡ false
unfolding maybe_remove_handler is_empty
uninstalled s none_left = elim (Bool-cases s.handler_installed) [
  | inl on ↦ rw (on, none_left) refl
  | inr off ↦ rw off refl
]

-- On a POSIX system on which mprotect does not fail, where the handler of the breakpoints is not
-- installed, the registry counts `n` references and the flag of the registry agrees with the kernel's
-- table of signal handlers, a script may make any calls of set, remove and removeAll, whether they
-- return or throw: removeAll then returns, the handler of the breakpoints is not installed, the registry
-- has exactly the handlers it had, and it counts `n` references again, with the kernel's table in
-- agreement. The ids of the registered handlers must be below the counter of ids, which must not come
-- to its end within as many ids as there are calls. To agree is: either the registry is enabled,
-- globalSignalHandler stands for the managed signals and the handlers of `orig` are saved, or it is not
-- and the handlers of `orig` are in place.
pub remove_all-Counts :
    (t : Tools) (os : Os) (bp_dispatch n : ℕ) (orig : Signal → Sigaction) (cs : List Call)
    (s : Breakpoints)
    → Permits t
    → IsPosix os
    → s.handler_installed ≡ false
    → s.handlers.ref_count ≡ pos n
    → Tracks orig s.handlers
    → Fresh s.handlers
    → s.handlers.next_id + length cs < u64_mod
    → (q : Breakpoints) × (remove_all t os bp_dispatch (calls t os bp_dispatch cs s) ≡ done q tt)
      × (q.handler_installed ≡ false)
      × (q.handlers.handlers ≡ s.handlers.handlers)
      × (q.handlers.ref_count ≡ pos n)
      × Tracks orig q.handlers
unfolding remove_all
remove_all-Counts t os bp_dispatch n orig cs s permits posix off counted tracks fresh room =
    let base = s.handlers.handlers in
    let c : Counts orig n s.handlers = record { counted = counted; tracks = tracks } in
    let start : Uses os posix orig base n (length cs) (length cs) s =
      rw off (Counts-at (omega arith) c, (refl, fresh, room)) in
    let s₁ = calls t os bp_dispatch cs s in
    let c₁ = calls-Uses os posix orig base n t bp_dispatch cs s start in
    let (s₂, gone, handlers, installed) = unset_all_total t os permits bp_dispatch s₁.bp_by_id s₁ in
    let all = unset_all-Uses os posix orig base n zero t bp_dispatch s₁.bp_by_id s₁ c₁ in
    let c₂ : Uses os posix orig base n zero zero s₂ = rw gone at all in
    let emptied : Breakpoints = record s₂ { bp_by_id = []; bp_by_address = [] } in
    let q : Breakpoints = maybe_remove_handler emptied in
    let end =
      released os posix orig base n t bp_dispatch q (uninstalled emptied refl)
        (maybe_remove-Uses os posix orig base n zero t bp_dispatch emptied c₂) in
    (q, rw (remove_all, gone) refl, uninstalled emptied refl, end.0, end.1.counted, end.1.tracks)
