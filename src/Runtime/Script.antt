-- ===== src/Runtime/Script.antt =====
-- Calls of scripts on the hooks and on the breakpoints in any order, over the one process, and the clean-up
-- of src/core/script.cc behind them.
use chromatic.Base.{ℕ, ◌+◌, ◌<◌, ◌≤◌, ◌≡◌, ◌≢◌, ◌⊎◌, List, [], ◌∷◌, arith, length, All}
use chromatic.Hex.{u64_mod}
use chromatic.Platform.{Os, patch_size, bp_insn_size}
use chromatic.Relocator.Host.{Tools}
use chromatic.Relocator.Build.{Permits}
use chromatic.Relocator.Table.{put_back}
use chromatic.Relocator.Ledger.{Ledger, Ledger-rebase}
use chromatic.Relocator.Disjoint.{Clear, put_back-write_bytes, read_bytes-put_back}
use chromatic.Breakpoint.{Breakpoints, BreakpointEntry}
use chromatic.Breakpoint.Going as Stops
use chromatic.Breakpoint.Sequence as StopCalls
use chromatic.Interceptor.{Hooks}
use chromatic.Interceptor.Tracked.{Sees, aim, kept_bytes, ptr_of}
use chromatic.Interceptor.Sequence as HookCalls
use chromatic.Runtime.{Program}

pub data Call : Type 0 where
  hook_call : HookCalls.Call → Call
  breakpoint_call : StopCalls.Call → Call

-- A component's state with the shared parts put in.
abbrev pub stops_of : Program → Breakpoints
stops_of s = record s.breakpoints { handlers = s.handlers; process = s.process }

abbrev pub hooks_of : Program → Hooks
hooks_of s = record s.hooks { process = s.process }

module _ (t : Tools) (os : Os) (bp_dispatch enter leave : ℕ) where
  unfoldable pub call : Call → Program → Program
  call (hook_call c) s =
      let h = HookCalls.call t os enter leave c (hooks_of s) in
      record s { hooks = h; process = h.process }
  call (breakpoint_call c) s =
      let b = StopCalls.call t os bp_dispatch c (stops_of s) in
      record s { breakpoints = b; handlers = b.handlers; process = b.process }

  unfoldable pub calls : List Call → Program → Program
  calls [] s = s
  calls (c ∷ cs) s = calls cs (call c s)

-- What a call puts a patch at is a site of its kind.
abbrev pub Aims : (ℕ → Type 0) → (ℕ → Type 0) → Call → Type 0
Aims HookSite StopSite (hook_call c) = HookCalls.Aims HookSite c
Aims HookSite StopSite (breakpoint_call c) = StopCalls.Aims StopSite c

-- Two patches of `j` and `k` bytes share no byte.
abbrev pub Separate : ℕ → ℕ → ℕ → ℕ → Type 0
Separate j k a b = (a + j ≤ b) ⊎ (b + k ≤ a)

module _ (t : Tools) (os : Os) (bp_dispatch enter leave : ℕ) (permits : Permits t)
    (HookSite StopSite : ℕ → Type 0)
    (hooks_apart : (a b : ℕ)
      → HookSite a
      → HookSite b
      → a ≢ b
      → Separate (patch_size t.arch) (patch_size t.arch) a b)
    (stops_apart : (a b : ℕ)
      → StopSite a
      → StopSite b
      → a ≢ b
      → Separate (bp_insn_size t.arch) (bp_insn_size t.arch) a b)
    (kinds_apart : (a b : ℕ)
      → HookSite a
      → StopSite b
      → Separate (patch_size t.arch) (bp_insn_size t.arch) a b) where
  abbrev pub without_stops : List (ℕ × BreakpointEntry) → (ℕ → ℕ) → ℕ → ℕ
  without_stops = put_back Stops.place Stops.kept_bytes Stops.ptr_of (bp_insn_size t.arch)

  abbrev pub StopLedger :
      (ℕ → ℕ) → (ℕ → ℕ) → List (ℕ × BreakpointEntry) → List (ℕ × BreakpointEntry) → ℕ → ℕ → Type 0
  StopLedger = Ledger Stops.place Stops.kept_bytes Stops.ptr_of (bp_insn_size t.arch) StopSite

  Clear-of_stops :
      (a : ℕ) (es : List (ℕ × BreakpointEntry))
      → HookSite a
      → All (λ e. StopSite e.1.address) es
      → All (λ e. length e.1.original_bytes ≡ bp_insn_size t.arch) es
      → Clear Stops.place Stops.kept_bytes Stops.ptr_of
          (bp_insn_size t.arch)
          a
          (patch_size t.arch)
          es
  Clear-of_stops a [] here sites sized = tt
  Clear-of_stops a (e ∷ es) here (site, sites) (len, sized) =
      (rw len (kinds_apart a e.1.address here site), Clear-of_stops a es here sites sized)

  -- Behind the breakpoints, memory shows the hooks' patches as they are.
  stops-Sees :
      (original m : ℕ → ℕ) (es by_at : List (ℕ × BreakpointEntry)) (i p : ℕ)
      → StopLedger original m es by_at i p
      → Sees (patch_size t.arch) HookSite (without_stops es)
  stops-Sees original m es by_at i p l = record {
    write = λ a bs m' here len.
        put_back-write_bytes Stops.place Stops.kept_bytes Stops.ptr_of (bp_insn_size t.arch) es a bs
          m' (rw len (Clear-of_stops a es here l.sites l.sized));
    read = λ a m' here.
        read_bytes-put_back Stops.place Stops.kept_bytes Stops.ptr_of (bp_insn_size t.arch) es a
          (patch_size t.arch) m' (Clear-of_stops a es here l.sites l.sized);
  }

  abbrev pub HookLedger : (ℕ → ℕ) → (ℕ → ℕ) → Hooks → Type 0
  HookLedger original m h =
      Ledger aim kept_bytes ptr_of (patch_size t.arch) HookSite original m h.hooks_by_id
        h.hooks_by_target h.next_hook_id h.next_ptr

  -- Both components track their patches: the breakpoints what they put in memory, and the hooks what
  -- is seen of it behind the breakpoints.
  pub record Runs (original : ℕ → ℕ) (s : Program) : Type 0 where
    pub stops :
        StopLedger
          (without_stops s.breakpoints.bp_by_id s.process.memory)
          s.process.memory
          s.breakpoints.bp_by_id
          s.breakpoints.bp_by_address
          s.breakpoints.next_bp_id
          s.breakpoints.next_ptr
    pub hooks : HookLedger original (without_stops s.breakpoints.bp_by_id s.process.memory) s.hooks

  -- The ids that the next call and `n` calls behind it may use up.
  abbrev pub HasIds : ℕ → Program → Type 0
  HasIds n s = (s.hooks.next_hook_id + n < u64_mod) × (s.breakpoints.next_bp_id + n < u64_mod)

  call-Runs :
      (original : ℕ → ℕ) (c : Call) (n : ℕ) (s : Program)
      → Aims HookSite StopSite c
      → HasIds (n + 1) s
      → Runs original s
      → Runs original (call t os bp_dispatch enter leave c s)
        × HasIds n (call t os bp_dispatch enter leave c s)
  unfolding call
  call-Runs original (hook_call c) n s site (hook_ids, stop_ids) v =
      let es = s.breakpoints.bp_by_id in
      let sees = stops-Sees _ s.process.memory es _ _ _ v.stops in
      let (l, id) =
        HookCalls.call-Goes t os enter leave permits HookSite hooks_apart original
          (without_stops es) sees c (hooks_of s) site (omega (arith, hook_ids)) v.hooks in
      let h = HookCalls.call t os enter leave c (hooks_of s) in
      (
        record {
          stops =
              Ledger-rebase Stops.place Stops.kept_bytes Stops.ptr_of (bp_insn_size t.arch) StopSite
                _ s.process.memory h.process.memory es _ _ _ v.stops;
          hooks = l;
        },
        (omega (arith, id, hook_ids), omega (arith, stop_ids)),
      )
  call-Runs original (breakpoint_call c) n s site (hook_ids, stop_ids) v =
      let seen = without_stops s.breakpoints.bp_by_id s.process.memory in
      let (l, id) =
        StopCalls.call-Goes t os bp_dispatch permits StopSite stops_apart seen c (stops_of s) site
          (omega (arith, stop_ids)) v.stops in
      let b = StopCalls.call t os bp_dispatch c (stops_of s) in
      (
        record {
          stops =
              Ledger-rebase Stops.place Stops.kept_bytes Stops.ptr_of (bp_insn_size t.arch) StopSite
                seen b.process.memory b.process.memory b.bp_by_id _ _ _ l;
          hooks = rw l.restored v.hooks;
        },
        (omega (arith, hook_ids), omega (arith, id, stop_ids)),
      )

  pub calls-Runs :
      (original : ℕ → ℕ) (cs : List Call) (s : Program)
      → All (Aims HookSite StopSite) cs
      → HasIds (length cs) s
      → Runs original s
      → Runs original (calls t os bp_dispatch enter leave cs s)
  unfolding calls
  calls-Runs original [] s sites ids v = v
  calls-Runs original (c ∷ cs) s (site, sites) ids v =
      let (w, later) =
        call-Runs original c (length cs) s site (omega (arith, ids.0), omega (arith, ids.1)) v in
      calls-Runs original cs (call t os bp_dispatch enter leave c s) sites later w
