-- ===== src/Monitor/Ring.antt =====
-- PendingRing: 256 slots, a write index that the signal handler moves and a read index that
-- drainPending moves, both 32-bit counters.
use chromatic.Base.{ℕ, ◌+◌, ◌%◌, ◌^◌, Bool, true, false, ◌==◌, if◌then◌else◌, Option, none, some}

abbrev pub max_pending : ℕ
max_pending = 256

abbrev pub u32_mod : ℕ
u32_mod = 2 ^ 32

pub record Event : Type 0 where
  pub monitor_id : ℕ
  pub fault_address : ℕ
  pub page_base : ℕ
  pub range_index : ℕ
  -- 0 is unknown, 1 read, 2 write, 3 execute.
  pub access_type_code : ℕ

pub record Slot : Type 0 where
  pub ready : Bool
  pub event : Event

pub record PendingRing : Type 0 where
  pub entries : ℕ → Slot
  pub write_idx : ℕ
  pub read_idx : ℕ

abbrev pub set_slot : ℕ → Slot → (ℕ → Slot) → ℕ → Slot
set_slot k v f j = if j == k then v else f j

-- What monitorSegvHandler does to the ring: it never looks whether the slot is free.
unfoldable pub push : Event → PendingRing → PendingRing
push e r = record r {
  entries = set_slot (r.write_idx % max_pending) (record { ready = true; event = e }) r.entries;
  write_idx = (r.write_idx + 1) % u32_mod;
}

-- One round of drainPending: `none` where the slot at the read index is not ready.
unfoldable pub pop_ready : PendingRing → Option (Event × PendingRing)
pop_ready r =
    let idx = r.read_idx % max_pending in
    let slot = r.entries idx in
    if slot.ready
    then some (
      slot.event,
      record r {
        entries = set_slot idx (record { ready = false; event = slot.event }) r.entries;
        read_idx = (r.read_idx + 1) % u32_mod;
      },
    )
    else none
