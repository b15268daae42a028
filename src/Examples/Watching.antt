-- ===== src/Examples/Watching.antt =====
-- The memory access monitor, each theorem at an input.
use chromatic.Base.{
  ℕ, zero, suc, ap, length, List, ◌≢◌, ◌+◌, ◌%◌, ◌<◌, ◌≤◌, ◌==◌, ◌||◌, ◌≡◌, refl, true, false, [],
  ◌∷◌, some, arith, if◌then◌else◌,
}
use chromatic.Base.Signed.{pos}
use chromatic.Handlers.{Handlers, access_violation, sig_dfl}
use chromatic.Handlers.Signals.{Context, read}
use chromatic.Monitor.Ring.{Event, PendingRing, push}
use chromatic.Monitor.{
  Monitors, WatchedRange, drain_pending, align_down, watched_size, monitor_segv_handler,
  hit_monitor, hit_range, Protections,
}
use chromatic.Monitor.Queue.{Represents, Drained, push-Represents, drain_pending-Drained}
use chromatic.Monitor.Overflow.{push_all, drain-overflow}
use chromatic.Monitor.Watching.{FaultHandled, monitor_segv_handler-FaultHandled, watched_bounds}

abbrev handlers : Handlers
handlers = record {
  handlers = [];
  next_id = 1;
  enabled = false;
  ref_count = pos 0;
  js_callbacks = [];
  next_js_id = 0x10000;
  current = λ g. sig_dfl;
  old = λ g. sig_dfl;
  veh = false;
}

abbrev event : ℕ → Event
event i = record {
  monitor_id = 1;
  fault_address = 0x5000 + i;
  page_base = 0x5000;
  range_index = 0;
  access_type_code = 1;
}

-- A ring whose slots 4 and 5 hold events, about to wrap around neither counter.
abbrev pub ring : PendingRing
ring = record {
  entries = λ i. record { ready = (i == 4) || (i == 5); event = event i };
  write_idx = 6;
  read_idx = 4;
}

abbrev watched : WatchedRange
watched = record {
  page_base = 0x5000;
  page_size = 0x1000;
  original_prot = 3;
  range_index = 0;
  fired = false;
}

abbrev pub state : PendingRing → Monitors
state r = record {
  handlers = handlers;
  next_mon_id = 2;
  monitors =
      (
        1,
        record {
          id = 1;
          ranges = watched ∷ [];
          on_access = some 9;
          segv_handler_id = 1;
          bus_handler_id = 2;
        },
      )
      ∷ [];
  pending = r;
  protections = λ a. 0;
  delivered = [];
}

two_events : Represents ring (event 4 ∷ event 5 ∷ [])
two_events = record {
  holds = (refl, refl, (refl, refl, tt));
  distance = refl;
  in_range = omega arith;
}

push-Represents_example : Represents (push (event 6) ring) (event 4 ∷ event 5 ∷ event 6 ∷ [])
push-Represents_example =
    push-Represents ring (event 4 ∷ event 5 ∷ []) (event 6) two_events (omega arith)

drain_pending-Drained_example :
    Drained (state ring) (event 4 ∷ event 5 ∷ []) 0 (drain_pending (state ring))
drain_pending-Drained_example =
    drain_pending-Drained (state ring) (event 4 ∷ event 5 ∷ []) two_events (omega arith)

-- An empty ring, and 300 faults.
abbrev empty_ring : PendingRing
empty_ring = record {
  entries = λ i. record { ready = false; event = event i };
  write_idx = 7;
  read_idx = 7;
}

abbrev faults : ℕ → List Event
faults zero = []
faults (suc n) = event n ∷ faults n

length-faults : (n : ℕ) → length (faults n) ≡ n
length-faults zero = refl
length-faults (suc n) = ap suc (length-faults n)

abbrev drained : Monitors × ℕ
drained = drain_pending (state (push_all (faults 300) empty_ring))

drain-overflow_example :
    let after = record drained.0 { pending = push (event 0) drained.0.pending } in
    (drained.1 ≡ 256)
    × (drain_pending after ≡ (after, 0))
    × (after.pending.write_idx ≢ after.pending.read_idx)
drain-overflow_example =
    drain-overflow (state empty_ring) (faults 300) (event 0)
      (record { holds = tt; distance = refl; in_range = omega arith })
      (omega (arith, length-faults 300)) (omega (arith, length-faults 300))

abbrev fault : Context
fault = record {
  type = access_violation;
  fault_address = 0x5010;
  pc = 0x400000;
  access_type = read;
  machine = record { pc = 0x400000; flags = 0 };
}

-- A page of one address, so that the protection of the range's start is what was asked for.
abbrev mprotect : ℕ → ℕ → ℕ → Protections → Protections
mprotect base size prot p a = if a == base then prot else p a

monitor_segv_handler-FaultHandled_example :
    FaultHandled mprotect
      (state ring)
      fault
      (monitor_segv_handler mprotect (state ring) fault).world
      true
unfolding monitor_segv_handler hit_monitor hit_range
monitor_segv_handler-FaultHandled_example =
    monitor_segv_handler-FaultHandled mprotect (state ring) fault

watched_bounds_example :
    let base = align_down 4096 0x1234 in
    let size = watched_size 4096 0x1234 100 in
    (base ≤ 0x1234)
    × (base % 4096 ≡ 0)
    × (size % 4096 ≡ 0)
    × (0x1234 + 100 ≤ base + size)
    × (base + size < 0x1234 + 100 + 4096)
watched_bounds_example = watched_bounds 12 0x1234 100 (omega arith) (omega arith)
