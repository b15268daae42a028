-- ===== src/Monitor.antt =====
-- src/core/bindings/native_memory_access_monitor.cc: pages that are watched by taking their
-- permissions away, the handler of the faults, and the ring of pending events.
-- POSIX: the saved protection is PROT_READ | PROT_WRITE, as on every system but Windows.
pub mod Draining
pub mod Ring
pub mod Queue
pub mod Overflow
pub mod Firing
pub mod Watching
use Prim.Native.Nat.{bit_and}
use chromatic.Base.{
  ℕ, zero, suc, ◌+◌, ◌-◌, ◌*◌, ◌/◌, ◌%◌, ◌<◌, ◌^◌, ◌≡◌, refl, Bool, true, false, not, ◌&&◌, ◌||◌,
  List, [], ◌∷◌, ◌++◌, ◌==◌, if◌then◌else◌, ltb, leb, Text, codes, Option, none, some, length,
  lookup, erase, assign, Outcome, done, throw, M, runtime_error, Result, ok, err,
}
use chromatic.Hex.{u64_mod, to_hex_addr, parse_hex_addr}
use chromatic.Platform.{Os}
use chromatic.Handlers.{
  Handlers, access_violation, bus_error, monitor_segv, ref_enable, ref_disable, register_handler,
  unregister_handler,
}
use chromatic.Handlers.Signals.{
  Context, AccessType, read, write, execute, unknown_access, Handling, handled, not_handled,
}
use Ring.{Event, PendingRing, push, pop_ready}

pub record WatchedRange : Type 0 where
  pub page_base : ℕ
  pub page_size : ℕ
  pub original_prot : ℕ
  pub range_index : ℕ
  pub fired : Bool

-- `on_access` is a script's function, or nothing for an empty std::function.
pub record MonitorEntry : Type 0 where
  pub id : ℕ
  pub ranges : List WatchedRange
  pub on_access : Option ℕ
  pub segv_handler_id : ℕ
  pub bus_handler_id : ℕ

-- A call of a script's `on_access`.
pub record Delivery : Type 0 where
  pub callback : ℕ
  pub fault_address : Text
  pub page_base : Text
  pub access : Text
  pub range_index : ℕ

-- The protection of each address, as the kernel keeps it.
abbrev pub Protections : Type 0
Protections = ℕ → ℕ

-- The globals of the file, the registry of handlers, the protections, and the calls of scripts'
-- functions so far, newest last. The order of `monitors` is the one in which g_monitors is walked.
pub record Monitors : Type 0 where
  pub handlers : Handlers
  pub next_mon_id : ℕ
  pub monitors : List (ℕ × MonitorEntry)
  pub pending : PendingRing
  pub protections : Protections
  pub delivered : List Delivery

abbrev pub prot_none : ℕ
prot_none = 0

abbrev pub prot_rw : ℕ
prot_rw = 3

unfoldable pub access_code : AccessType → ℕ
access_code read = 1
access_code write = 2
access_code execute = 3
access_code unknown_access = 0

unfoldable pub access_code_to_string : ℕ → Text
access_code_to_string code =
    if code == 1
    then codes "read"
    else if code == 2
    then codes "write"
    else if code == 3
    then codes "execute"
    else codes "unknown"

-- The range that a fault at `fault` falls in, if it is not fired yet.
abbrev pub covers : ℕ → WatchedRange → Bool
covers fault r = leb r.page_base fault && ltb fault ((r.page_base + r.page_size) % u64_mod)

unfoldable pub hit_range : ℕ → List WatchedRange → Option (WatchedRange × List WatchedRange)
hit_range fault [] = none
hit_range fault (r ∷ rs) =
    let later : Option (WatchedRange × List WatchedRange) = elim (hit_range fault rs) [
      | none ↦ none
      | some (h, rs') ↦ some (h, r ∷ rs')
    ] in
    if not r.fired && covers fault r then some (r, record r { fired = true } ∷ rs) else later

unfoldable pub hit_monitor :
    ℕ → List (ℕ × MonitorEntry) → Option (ℕ × WatchedRange × List (ℕ × MonitorEntry))
hit_monitor fault [] = none
hit_monitor fault ((k, m) ∷ ms) =
    let later : Option (ℕ × WatchedRange × List (ℕ × MonitorEntry)) = elim (hit_monitor fault ms) [
      | none ↦ none
      | some (id, h, ms') ↦ some (id, h, (k, m) ∷ ms')
    ] in
    elim (hit_range fault m.ranges) [
      | none ↦ later
      | some (h, rs) ↦ some (m.id, h, (k, record m { ranges = rs }) ∷ ms)
    ]

call_on_access : Event → MonitorEntry → List Delivery → List Delivery
unfolding access_code_to_string
call_on_access e m log = elim m.on_access [
  | none ↦ log
  | some f ↦
      log
      ++ record {
        callback = f;
        fault_address = to_hex_addr e.fault_address;
        page_base = to_hex_addr e.page_base;
        access = access_code_to_string e.access_type_code;
        range_index = e.range_index;
      }
        ∷ []
]

-- What one event does to the log: the callback of its monitor is called if the monitor is there.
pub deliver : List (ℕ × MonitorEntry) → Event → List Delivery → List Delivery
unfolding call_on_access
deliver ms e log = elim (lookup e.monitor_id ms) [ none ↦ log | some m ↦ call_on_access e m log ]

-- The loop of drainPending up to `write_idx`, as it stood when the loop began; it takes one event
-- each round, so that 257 rounds empty the ring.
pub drain_loop : ℕ → ℕ → Monitors → ℕ → Monitors × ℕ
unfolding deliver
drain_loop zero write_idx s count = (s, count)
drain_loop (suc fuel) write_idx s count = elim (s.pending.read_idx == write_idx) [
  | true ↦ (s, count)
  | false ↦ elim (pop_ready s.pending) [
    | none ↦ (s, count)
    | some (e, ring) ↦
        drain_loop fuel write_idx
          (record s { pending = ring; delivered = deliver s.monitors e s.delivered }) (count + 1)
  ]
]

unfoldable pub drain_pending : Monitors → Monitors × ℕ
drain_pending s = drain_loop 257 s.pending.write_idx s 0

-- monitorSegvHandler: the first watched range that holds the address fires, once.
unfoldable pub monitor_segv_handler :
    (ℕ → ℕ → ℕ → Protections → Protections) → Monitors → Context → Handling Monitors
monitor_segv_handler mprotect s ctx = elim (hit_monitor ctx.fault_address s.monitors) [
  | none ↦ record { world = s; context = ctx; action = not_handled }
  | some (id, range, monitors) ↦ record {
    world = record s {
      monitors = monitors;
      protections = mprotect range.page_base range.page_size range.original_prot s.protections;
      pending =
          push
            (record {
              monitor_id = id;
              fault_address = ctx.fault_address;
              page_base = range.page_base;
              range_index = range.range_index;
              access_type_code = access_code ctx.access_type;
            })
            s.pending;
    };
    context = ctx;
    action = handled;
  }
]

-- `x & ~(pageSize - 1)` on 64 bits.
unfoldable pub align_down : ℕ → ℕ → ℕ
align_down page_size x = bit_and x (u64_mod - page_size)

unfoldable pub watched_size : ℕ → ℕ → ℕ → ℕ
watched_size page_size addr sz =
    align_down page_size
      (((addr + sz) % u64_mod + u64_mod - align_down page_size addr + page_size - 1) % u64_mod)

-- `mprotect` is the system's: what a call makes of the protections. Its result is not looked at.
module _ (mprotect : ℕ → ℕ → ℕ → Protections → Protections) (page_size : ℕ) (os : Os) where
  -- The loop of `enable` over the addresses and sizes; a text that is no address throws, and leaves
  -- the ranges before it without permissions.
  pub watch : List Text → List ℕ → ℕ → List WatchedRange → M Monitors (List WatchedRange)
  watch [] sizes i ranges s = done s ranges
  watch (a ∷ rest) [] i ranges s = done s ranges
  watch (a ∷ rest) (sz ∷ sizes) i ranges s = elim (parse_hex_addr a) [
    | err e ↦ throw s e
    | ok addr ↦
        watch rest sizes (i + 1)
          (ranges
            ++ record {
              page_base = align_down page_size addr;
              page_size = watched_size page_size addr sz;
              original_prot = prot_rw;
              range_index = i;
              fired = false;
            }
              ∷ [])
          (record s {
            protections =
                mprotect (align_down page_size addr) (watched_size page_size addr sz) prot_none
                  s.protections;
          })
  ]

  -- Both handlers are registered, and the monitor gets its place in the map.
  register_monitor : ℕ → Option ℕ → List WatchedRange → Monitors → Monitors
  register_monitor id on_access ranges s =
      let h₁ = register_handler access_violation monitor_segv s.handlers in
      let h₂ = register_handler bus_error monitor_segv h₁ in
      record s {
        handlers = h₂;
        monitors =
            assign id
              (record {
                id = id;
                ranges = ranges;
                on_access = on_access;
                segv_handler_id = s.handlers.next_id;
                bus_handler_id = h₁.next_id;
              })
              s.monitors;
      }

  unfoldable pub enable : List Text → List ℕ → Option ℕ → M Monitors Text
  unfolding watch register_monitor
  enable addresses sizes on_access s =
      let id = s.next_mon_id in
      let started = record s {
        handlers = ref_enable os s.handlers;
        next_mon_id = (s.next_mon_id + 1) % u64_mod;
      } in
      if not (length addresses == length sizes)
      then throw s (runtime_error (codes "addresses and sizes arrays must have the same length"))
      else elim (watch addresses sizes 0 [] started) [
        | throw s' e ↦ throw s' e
        | done s' ranges ↦ done (register_monitor id on_access ranges s') (to_hex_addr id)
      ]

  restore_ranges : List WatchedRange → Protections → Protections
  restore_ranges [] p = p
  restore_ranges (r ∷ rs) p =
      restore_ranges rs (if r.fired then p else mprotect r.page_base r.page_size r.original_prot p)

  unfoldable pub unregister_monitor : MonitorEntry → Handlers → Handlers
  unregister_monitor m h =
      ref_disable (unregister_handler m.bus_handler_id (unregister_handler m.segv_handler_id h))

  unfoldable pub stop_monitor : MonitorEntry → Monitors → Monitors
  unfolding restore_ranges unregister_monitor
  stop_monitor m s = record s {
    handlers = unregister_monitor m s.handlers;
    protections = restore_ranges m.ranges s.protections;
  }

  unfoldable pub disable : Text → M Monitors (Unit {0})
  unfolding stop_monitor
  disable monitor_id s =
      let drained = (drain_pending s).0 in
      elim (parse_hex_addr monitor_id) [
        | err e ↦ throw drained e
        | ok id ↦ elim (lookup id drained.monitors) [
          | none ↦ done drained tt
          | some m ↦
              done (record (stop_monitor m drained) { monitors = erase id drained.monitors }) tt
        ]
      ]

  unfoldable pub stop_all : List (ℕ × MonitorEntry) → Monitors → Monitors
  unfolding stop_monitor
  stop_all [] s = s
  stop_all ((k, m) ∷ ms) s = stop_all ms (stop_monitor m s)

  unfoldable pub disable_all : Monitors → Monitors
  unfolding stop_all
  disable_all s =
      let drained = (drain_pending s).0 in
      record (stop_all drained.monitors drained) { monitors = [] }
