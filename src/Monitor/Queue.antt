-- ===== src/Monitor/Queue.antt =====
-- The ring of pending events as a queue, and drainPending on it.
use chromatic.Base.{
  ℕ, zero, suc, ◌+◌, ◌%◌, ◌<◌, ◌≤◌, ◌≡◌, refl, ◌∙◌, true, false, List, [], ◌∷◌, ◌++◌, ◌==◌, some,
  length, arith, length-append, ==_refl,
}
use chromatic.Monitor.Ring.{
  Event, Slot, PendingRing, push, pop_ready, set_slot, max_pending, u32_mod,
}
use chromatic.Monitor.{MonitorEntry, Delivery, Monitors, deliver, drain_loop, drain_pending}

-- The events `q` stand ready in the slots from `idx` on.
abbrev pub Holds : (ℕ → Slot) → ℕ → List Event → Type 0
Holds f idx [] = Unit {0}
Holds f idx (e ∷ q) =
    ((f (idx % max_pending)).ready ≡ true)
    × ((f (idx % max_pending)).event ≡ e)
    × Holds f (idx + 1) q

-- The ring stands for the queue `q`. The read index plus the number of events is the write index,
-- up to the wrap of the 32-bit counters.
pub record Represents (r : PendingRing) (q : List Event) : Type 0 where
  pub holds : Holds r.entries r.read_idx q
  pub distance : r.write_idx ≡ (r.read_idx + length q) % u32_mod
  pub in_range : r.read_idx < u32_mod

Holds-set_slot :
    (f : ℕ → Slot) (v : Slot) (q : List Event) (idx k : ℕ)
    → idx + length q ≤ k
    → k < idx + 256
    → Holds f idx q
    → Holds (set_slot (k % max_pending) v f) idx q
Holds-set_slot f v [] idx k lo hi h = tt
Holds-set_slot f v (e ∷ q) idx k lo hi (ready, event, rest) =
    let other : (idx % max_pending == k % max_pending) ≡ false = ground arith in
    (
      rw other ready,
      rw other event,
      Holds-set_slot f v q (idx + 1) k (omega arith) (omega arith) rest,
    )

Holds-snoc :
    (f : ℕ → Slot) (q : List Event) (e : Event) (idx : ℕ)
    → Holds f idx q
    → (f ((idx + length q) % max_pending)).ready ≡ true
    → (f ((idx + length q) % max_pending)).event ≡ e
    → Holds f idx (q ++ e ∷ [])
Holds-snoc f [] e idx h ready event =
    let z : idx + 0 ≡ idx = omega arith in (rw z at ready, rw z at event, tt)
Holds-snoc f (d ∷ q) e idx (r, v, h) ready event =
    let z : idx + suc (length q) ≡ idx + 1 + length q = omega arith in
    (r, v, Holds-snoc f q e (idx + 1) h (rw z at ready) (rw z at event))

Holds-wrap :
    (f : ℕ → Slot) (q : List Event) (i j : ℕ) → i % 256 ≡ j % 256 → Holds f i q → Holds f j q
Holds-wrap f [] i j e h = tt
Holds-wrap f (x ∷ q) i j e (r, v, h) =
    (rw e at r, rw e at v, Holds-wrap f q (i + 1) (j + 1) (omega arith) h)

-- A fault adds its event at the end of the queue, as long as fewer than 256 are pending.
pub push-Represents :
    (r : PendingRing) (q : List Event) (e : Event)
    → Represents r q
    → length q < 256
    → Represents (push e r) (q ++ e ∷ [])
unfolding push
push-Represents r q e v room =
    let at : ℕ = r.read_idx + length q in
    let slot : r.write_idx % max_pending ≡ at % max_pending = omega (arith, v.distance) in
    let same : (at % max_pending == at % max_pending) ≡ true = ==_refl (at % max_pending) in
    record {
      holds = rw slot (
          Holds-snoc (set_slot (at % max_pending) (record { ready = true; event = e }) r.entries) q
            e r.read_idx
            (Holds-set_slot r.entries (record { ready = true; event = e }) q r.read_idx at
              (omega arith) (omega arith) v.holds)
            (rw same) (rw same));
      distance = omega (arith, v.distance, length-append q (e ∷ []));
      in_range = v.in_range;
    }

-- The calls that a queue of events makes, in its order.
unfoldable pub deliver_all : List (ℕ × MonitorEntry) → List Event → List Delivery → List Delivery
deliver_all ms [] log = log
deliver_all ms (e ∷ q) log = deliver_all ms q (deliver ms e log)

-- What draining the queue `q` leaves.
pub record Drained (s : Monitors) (q : List Event) (count : ℕ) (t : Monitors × ℕ) : Type 0 where
  pub delivered : t.0.delivered ≡ deliver_all s.monitors q s.delivered
  pub counted : t.1 ≡ count + length q
  pub empty : Represents t.0.pending []
  pub monitors : t.0.monitors ≡ s.monitors
  pub handlers : t.0.handlers ≡ s.handlers
  pub protections : t.0.protections ≡ s.protections

pop_ready-Represents :
    (r : PendingRing) (e : Event) (q : List Event)
    → Represents r (e ∷ q)
    → length q < 256
    → (r' : PendingRing) × (pop_ready r ≡ some (e, r'))
      × Represents r' q
      × (r'.write_idx ≡ r.write_idx)
unfolding pop_ready
pop_ready-Represents r e q v room =
    let idx : ℕ = r.read_idx % max_pending in
    let cleared : Slot = record { ready = false; event = (r.entries idx).event } in
    let next : PendingRing = record r {
      entries = set_slot idx cleared r.entries;
      read_idx = (r.read_idx + 1) % u32_mod;
    } in
    let wrapped : (r.read_idx + 256) % max_pending ≡ idx = omega arith in
    let kept : Holds (set_slot idx cleared r.entries) (r.read_idx + 1) q = rw wrapped at (
      Holds-set_slot r.entries cleared q (r.read_idx + 1) (r.read_idx + 256) (omega arith)
        (omega arith) v.holds.2) in
    (
      next,
      ground (arith, v.holds.0, v.holds.1),
      record {
        holds =
            Holds-wrap (set_slot idx cleared r.entries) q (r.read_idx + 1)
              ((r.read_idx + 1) % u32_mod) (omega arith) kept;
        distance = omega (arith, v.distance);
        in_range = omega arith;
      },
      refl,
    )

drain_loop-Drained :
    (q : List Event) (fuel : ℕ) (s : Monitors) (count last : ℕ)
    → Represents s.pending q
    → length q ≤ 256
    → length q < fuel
    → s.pending.write_idx ≡ last
    → Drained s q count (drain_loop fuel last s count)
unfolding drain_loop deliver_all
drain_loop-Drained q zero s count last v small enough e = absurd (omega arith)
drain_loop-Drained [] (suc fuel) s count last v small enough e =
    let z : (s.pending.read_idx == last) ≡ true = ground (arith, v.distance, v.in_range) in
    rw (z, drain_loop)
      (record {
        delivered = refl;
        counted = omega arith;
        empty = v;
        monitors = refl;
        handlers = refl;
        protections = refl;
      })
drain_loop-Drained (x ∷ q) (suc fuel) s count last v small enough e =
    let more : (s.pending.read_idx == last) ≡ false = ground (arith, v.distance, v.in_range) in
    step more (pop_ready-Represents s.pending x q v (omega arith)) (λ ring w same.
      drain_loop-Drained q fuel
        (record s { pending = ring; delivered = deliver s.monitors x s.delivered }) (count + 1) last
        w (omega arith) (omega arith) (same ∙ e))
  where
    step :
        (s.pending.read_idx == last) ≡ false
        → (r' : PendingRing) × (pop_ready s.pending ≡ some (x, r'))
          × Represents r' q
          × (r'.write_idx ≡ s.pending.write_idx)
        → ((ring : PendingRing)
            → Represents ring q
            → ring.write_idx ≡ s.pending.write_idx
            → Drained
                (record s { pending = ring; delivered = deliver s.monitors x s.delivered })
                q
                (count + 1)
                (drain_loop fuel last
                  (record s { pending = ring; delivered = deliver s.monitors x s.delivered })
                  (count + 1)))
        → Drained s (x ∷ q) count (drain_loop (suc fuel) last s count)
    step more (ring, popped, w, same) rest =
        let d = rest ring w same in
        rw (more, drain_loop)
          (rw (popped, drain_loop)
            (record {
              delivered = d.delivered;
              counted = omega (arith, d.counted);
              empty = d.empty;
              monitors = d.monitors;
              handlers = d.handlers;
              protections = d.protections;
            }))

-- While at most 256 events are pending, drainPending delivers exactly those, in the order of their
-- faults, each by one call of its monitor's function, returns their number, and leaves the ring
-- empty and the monitors, handlers and protections as they were.
pub drain_pending-Drained :
    (s : Monitors) (q : List Event)
    → Represents s.pending q
    → length q ≤ 256
    → Drained s q 0 (drain_pending s)
unfolding drain_pending
drain_pending-Drained s q v small =
    drain_loop-Drained q 257 s 0 s.pending.write_idx v small (omega arith) refl
