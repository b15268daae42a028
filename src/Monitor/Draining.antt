-- ===== src/Monitor/Draining.antt =====
-- What drainPending leaves alone.
use chromatic.Base.{ℕ, zero, suc, ◌+◌, ◌==◌, ◌≡◌, refl, Bool-cases, Option-cases, inl, inr}
use chromatic.Monitor.Ring.{pop_ready}
use chromatic.Monitor.{Monitors, drain_loop, drain_pending}

drain_loop_keeps :
    (fuel last : ℕ) (s : Monitors) (count : ℕ)
    → ((drain_loop fuel last s count).0.handlers ≡ s.handlers)
      × ((drain_loop fuel last s count).0.monitors ≡ s.monitors)
unfolding drain_loop
drain_loop_keeps zero last s count = (refl, refl)
drain_loop_keeps (suc fuel) last s count = elim (Bool-cases (s.pending.read_idx == last)) [
  | inl e ↦ rw (drain_loop, e) (refl, refl)
  | inr e ↦ elim (Option-cases (pop_ready s.pending)) [
    | inl none_ready ↦ rw (drain_loop, e, none_ready) (refl, refl)
    | inr ((event, ring), ready) ↦
        rw (drain_loop, e, ready) (drain_loop_keeps fuel last _ (count + 1))
  ]
]

-- Draining changes neither the registry of handlers nor the monitors.
pub drain_pending_keeps :
    (s : Monitors)
    → ((drain_pending s).0.handlers ≡ s.handlers) × ((drain_pending s).0.monitors ≡ s.monitors)
unfolding drain_pending
drain_pending_keeps s = drain_loop_keeps 257 s.pending.write_idx s 0
