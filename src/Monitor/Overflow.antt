-- ===== src/Monitor/Overflow.antt =====
-- What becomes of the ring once more than 256 events were pending.
use chromatic.Base.{
  ℕ, zero, suc, ◌+◌, ◌-◌, ◌%◌, ◌<◌, ◌≤◌, ◌≡◌, refl, true, false, List, [], ◌∷◌, ◌==◌, arith, some,
  none, length, ◌≢◌, ◌∙◌, Bool-cases, inl, inr,
}
use chromatic.Monitor.Ring.{
  Event, Slot, PendingRing, push, pop_ready, set_slot, max_pending, u32_mod,
}
use chromatic.Monitor.Queue.{Represents}
use chromatic.Monitor.{deliver, Monitors, drain_loop, drain_pending}

-- The write index has run ahead of the read index by `gap`, and the slot to be read is not ready:
-- its event was overwritten by a later one, which a drain has delivered from the earlier place.
record Stalled (gap : ℕ) (r : PendingRing) : Type 0 where
  ahead : r.write_idx ≡ (r.read_idx + gap) % u32_mod
  in_range : r.read_idx < u32_mod
  not_ready : (r.entries (r.read_idx % max_pending)).ready ≡ false

push-Stalled :
    (gap : ℕ) (e : Event) (r : PendingRing)
    → 0 < gap
    → gap < 256
    → Stalled gap r
    → Stalled (gap + 1) (push e r)
unfolding push
push-Stalled gap e r pos room v =
    let other : (r.read_idx % max_pending == r.write_idx % max_pending) ≡ false =
      ground (arith, v.ahead, v.in_range) in
    record {
      ahead = omega (arith, v.ahead);
      in_range = v.in_range;
      not_ready = rw other v.not_ready;
    }

drain-Stalled :
    (gap : ℕ) (s : Monitors)
    → 0 < gap
    → gap ≤ 256
    → Stalled gap s.pending
    → drain_pending s ≡ (s, 0)
unfolding drain_pending drain_loop pop_ready
drain-Stalled gap s pos room v =
    let more : (s.pending.read_idx == s.pending.write_idx) ≡ false =
      ground (arith, v.ahead, v.in_range) in
    rw (more, drain_loop) (rw (v.not_ready, pop_ready))

-- In a ring that has stalled, the next fault's event is recorded but not delivered.
drain-push-Stalled :
    (gap : ℕ) (e : Event) (s : Monitors)
    → 0 < gap
    → gap < 256
    → Stalled gap s.pending
    → let after = record s { pending = push e s.pending } in
      (drain_pending after ≡ (after, 0)) × Stalled (gap + 1) after.pending
drain-push-Stalled gap e s pos room v =
    let w = push-Stalled gap e s.pending pos room v in
    (
      drain-Stalled (gap + 1) (record s { pending = push e s.pending }) (omega arith) (omega arith)
          w,
      w,
    )

-- One fault after another.
unfoldable pub push_all : List Event → PendingRing → PendingRing
push_all [] r = r
push_all (e ∷ es) r = push_all es (push e r)

-- `k` events were pushed since the write index was `w`.
record Pushed (w k : ℕ) (r : PendingRing) : Type 0 where
  write : r.write_idx ≡ (w + k) % u32_mod
  ready : (j : ℕ) → j < k → (r.entries ((w + j) % max_pending)).ready ≡ true

push-Pushed : (w k : ℕ) (e : Event) (r : PendingRing) → Pushed w k r → Pushed w (k + 1) (push e r)
unfolding push
push-Pushed w k e r p = record {
  write = omega (arith, p.write);
  ready = λ j lt. elim (Bool-cases ((w + j) % max_pending == r.write_idx % max_pending)) [
    | inl same ↦ rw same refl
    | inr other ↦
        let slot : r.write_idx % max_pending ≡ (w + k) % max_pending = omega (arith, p.write) in
        rw other (p.ready j (let other' = rw slot at other in ground arith))
  ];
}

push_all-Pushed :
    (w k : ℕ) (es : List Event) (r : PendingRing)
    → Pushed w k r
    → Pushed w (k + length es) (push_all es r)
unfolding push_all
push_all-Pushed w k [] r p = let z : k + 0 ≡ k = omega arith in rw z p
push_all-Pushed w k (e ∷ es) r p =
    let z : k + suc (length es) ≡ k + 1 + length es = omega arith in
    rw z (push_all-Pushed w (k + 1) es (push e r) (push-Pushed w k e r p))

push_all_keeps : (es : List Event) (r : PendingRing) → (push_all es r).read_idx ≡ r.read_idx
unfolding push_all push
push_all_keeps [] r = refl
push_all_keeps (e ∷ es) r = push_all_keeps es (push e r)

-- A drain that has delivered `d` of the slots, where `k` events were pushed since the ring was empty.
record Draining (w k d : ℕ) (r : PendingRing) : Type 0 where
  read : r.read_idx ≡ (w + d) % u32_mod
  write : r.write_idx ≡ (w + k) % u32_mod
  ready : (j : ℕ) → d ≤ j → j < 256 → (r.entries ((w + j) % max_pending)).ready ≡ true
  gone : 0 < d → (r.entries (w % max_pending)).ready ≡ false

pop_ready-Draining :
    (w k d : ℕ) (r : PendingRing)
    → d < 256
    → Draining w k d r
    → (e : Event) × (q : PendingRing) × (pop_ready r ≡ some (e, q))
      × Draining w k (d + 1) q
      × (q.write_idx ≡ r.write_idx)
unfolding pop_ready
pop_ready-Draining w k d r lt v =
    let idx : ℕ = r.read_idx % max_pending in
    let at : idx ≡ (w + d) % max_pending = omega (arith, v.read) in
    let full : (r.entries idx).ready ≡ true = rw at (v.ready d (omega arith) lt) in
    let cleared : Slot = record { ready = false; event = (r.entries idx).event } in
    let q : PendingRing = record r {
      entries = set_slot idx cleared r.entries;
      read_idx = (r.read_idx + 1) % u32_mod;
    } in
    (
      (r.entries idx).event,
      q,
      rw full refl,
      record {
        read = omega (arith, v.read);
        write = v.write;
        ready = λ j le lt'.
            let other : ((w + j) % max_pending == idx) ≡ false = ground (arith, at) in
            rw other (v.ready j (omega arith) lt');
        gone = λ pos. elim (Bool-cases (w % max_pending == idx)) [
          | inl same ↦ rw same refl
          | inr other ↦ rw other (v.gone (ground (arith, at)))
        ];
      },
      refl,
    )

drain_loop-Draining :
    (w k fuel d : ℕ) (s : Monitors) (count last : ℕ)
    → 256 < k
    → k < u32_mod
    → d + fuel ≡ 257
    → 0 < fuel
    → s.pending.write_idx ≡ last
    → Draining w k d s.pending
    → let t = drain_loop fuel last s count in
      (t.1 ≡ count + (256 - d)) × Draining w k 256 t.0.pending
unfolding drain_loop pop_ready
drain_loop-Draining w k zero d s count last over room enough pos e v = absurd (omega arith)
drain_loop-Draining w k (suc fuel) d s count last over room enough pos e v =
    let more : (s.pending.read_idx == last) ≡ false = ground (arith, v.read, v.write, e) in
    elim (Bool-cases (d == 256)) [
      | inl all ↦
          let all' : d ≡ 256 = ground arith in
          let v' : Draining w k 256 s.pending = rw all' at v in
          let slot : s.pending.read_idx % max_pending ≡ w % max_pending = omega (arith, v'.read) in
          let empty : (s.pending.entries (s.pending.read_idx % max_pending)).ready ≡ false =
            rw slot (v'.gone (omega arith)) in
          let nothing : pop_ready s.pending ≡ none = rw empty refl in
          rw (more, drain_loop) (rw (nothing, drain_loop) (omega arith, v'))
      | inr left ↦
          let (x, q, popped, v', same) = pop_ready-Draining w k d s.pending (ground arith) v in
          let (count', v'') =
            drain_loop-Draining w k fuel (d + 1)
              (record s { pending = q; delivered = deliver s.monitors x s.delivered }) (count + 1)
              last over room (omega arith) (ground arith) (same ∙ e) v' in
          rw (more, drain_loop) (rw (popped, drain_loop) (ground (arith, count'), v''))
    ]

-- Where the ring is empty and then from 257 to 511 faults come before a drain, each with its event,
-- drainPending delivers only 256 of them, and the ring stalls: the event of the next fault is recorded,
-- but draining right after it changes nothing and reports no event, though the two indices differ.
pub drain-overflow :
    (s : Monitors) (es : List Event) (e : Event)
    → Represents s.pending []
    → 256 < length es
    → length es < 512
    → let t = drain_pending (record s { pending = push_all es s.pending }) in
      let after = record t.0 { pending = push e t.0.pending } in
      (t.1 ≡ 256)
      × (drain_pending after ≡ (after, 0))
      × (after.pending.write_idx ≢ after.pending.read_idx)
unfolding drain_pending
drain-overflow s es e v over room =
    let w : ℕ = s.pending.read_idx in
    let k : ℕ = length es in
    let empty : Pushed w 0 s.pending = record {
      write = omega (arith, v.distance);
      ready = λ j lt. absurd (omega arith);
    } in
    let r : PendingRing = push_all es s.pending in
    let none_before : 0 + k ≡ k = omega arith in
    let p : Pushed w k r = rw none_before at (push_all-Pushed w 0 es s.pending empty) in
    let start : Draining w k 0 r = record {
      read = omega (arith, v.in_range, push_all_keeps es s.pending);
      write = p.write;
      ready = λ j le lt. p.ready j (omega arith);
      gone = λ pos. absurd (omega arith);
    } in
    let (count, d) =
      drain_loop-Draining w k 257 0 (record s { pending = r }) 0 r.write_idx over (omega arith) refl
        (omega arith) refl start in
    let t = drain_loop 257 r.write_idx (record s { pending = r }) 0 in
    let slot : t.0.pending.read_idx % max_pending ≡ w % max_pending = omega (arith, d.read) in
    let stalled : Stalled (k - 256) t.0.pending = record {
      ahead = omega (arith, d.read, d.write);
      in_range = omega (arith, d.read);
      not_ready = rw slot (d.gone (omega arith));
    } in
    let (nothing, still) = drain-push-Stalled (k - 256) e t.0 (omega arith) (omega arith) stalled in
    (count, nothing, λ h. absurd (omega (arith, still.ahead, still.in_range, h)))
