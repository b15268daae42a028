-- ===== src/HwBreakpoint/Slotted.antt =====
-- The slots of the debug registers, and the mask that tells which are taken.
use Prim.Native.Nat.{min, max}
use chromatic.Base.{
  ℕ, zero, suc, ◌+◌, ◌-◌, ◌^◌, ◌<◌, ◌≡◌, ◌≢◌, refl, Bool, true, false, ◌==◌, if◌then◌else◌, some,
  arith, List, [], ◌∷◌, sym, ◌&&◌, All, lookup, erase, assign, passes_below, passes_below_at,
  ==_iff, Bool-cases, inl, inr,
}
use chromatic.Base.Digits.{bit, bit-bit_and, bit-bit_or, bit-lt}
use chromatic.HwBreakpoint.{HwBreakpointEntry}
use chromatic.HwBreakpoint.Slots.{is_used, free_slot_from, find_free_slot, use_slot, drop_slot}
use chromatic.HwBreakpoint.Control.{is_used_iff}

abbrev Entries : Type 0
Entries = List (ℕ × HwBreakpointEntry)

-- No entry has the slot.
abbrev pub Avoids : ℕ → Entries → Type 0
Avoids slot = All (λ (x : ℕ × HwBreakpointEntry). x.1.handle ≢ slot)

-- Every entry has one of the four slots, its bit is set in the mask, and no other entry has it.
abbrev pub Slotted : ℕ → Entries → Type 0
Slotted used [] = Unit {0}
Slotted used ((k, e) ∷ es) =
    (e.handle < 4) × (bit e.handle used ≡ 1) × Avoids e.handle es × Slotted used es

bits_table :
    passes_below
      (λ j.
        passes_below
          (λ slot.
            passes_below
              (λ old.
                (max old (bit j (2 ^ slot)) == (if j == slot then 1 else old))
                && (min old (bit j (2 ^ 32 - 1 - 2 ^ slot)) == (if j == slot then 0 else old)))
              2)
          4)
      4
    ≡ true
unfolding passes_below bit
bits_table = refl

-- Taking a slot and giving it back, bit by bit.
pub use_drop_bits :
    (j slot used : ℕ)
    → j < 4
    → slot < 4
    → (bit j (use_slot slot used) ≡ (if j == slot then 1 else bit j used))
      × (bit j (drop_slot slot used) ≡ (if j == slot then 0 else bit j used))
unfolding use_slot drop_slot
use_drop_bits j slot used hj hs =
    let row =
      passes_below_at _ (bit j used) 2 (bit-lt j used)
        (passes_below_at _ slot 4 hs (passes_below_at _ j 4 hj bits_table)) in
    let both = of_and _ _ row in
    rw (bit-bit_or j, bit-bit_and j) ((==_iff _ _).0 both.0, (==_iff _ _).0 both.1)
  where
    of_and : (a b : Bool) → (a && b) ≡ true → (a ≡ true) × (b ≡ true)
    of_and true true h = (refl, refl)
    of_and true false h = cc
    of_and false b h = cc

free_slot_from-free :
    (rounds slot used found : ℕ)
    → free_slot_from rounds slot used ≡ some found
    → (found < slot + rounds) × (is_used found used ≡ false)
unfolding free_slot_from
free_slot_from-free zero slot used found h = cc
free_slot_from-free (suc rounds) slot used found h = elim (Bool-cases (is_used slot used)) [
  | inl u ↦
      let h' = rw u at h in
      let (a, b) = free_slot_from-free rounds (slot + 1) used found h' in (omega arith, b)
  | inr u ↦
      let h' = rw u at h in let same : slot ≡ found = cc in (omega (arith, same), rw same at u)
]

-- findFreeSlot gives a slot whose bit is not set.
pub find_free_slot-free :
    (used slot : ℕ) → find_free_slot used ≡ some slot → (slot < 4) × (bit slot used ≡ 0)
unfolding find_free_slot
find_free_slot-free used slot h =
    let (small, free) = free_slot_from-free 4 0 used slot h in
    let b = bit-lt slot used in
    (
      small,
      elim (Bool-cases (bit slot used == 1)) [
        | inl one ↦ cc ((is_used_iff slot used).1 ((==_iff _ _).0 one))
        | inr other ↦ ground arith
      ],
    )

-- A slot whose bit is not set is no entry's.
pub Avoids-free :
    (slot used : ℕ) (es : Entries) → bit slot used ≡ 0 → Slotted used es → Avoids slot es
Avoids-free slot used [] free v = tt
Avoids-free slot used ((k, e) ∷ es) free (small, taken, others, v) =
    (λ same. absurd (omega (arith, free, rw same at taken)), Avoids-free slot used es free v)

Slotted-use_slot :
    (slot used : ℕ) (es : Entries) → slot < 4 → Slotted used es → Slotted (use_slot slot used) es
Slotted-use_slot slot used [] hs v = tt
Slotted-use_slot slot used ((k, e) ∷ es) hs (small, taken, others, v) =
    let b = (use_drop_bits e.handle slot used small hs).0 in
    (small, ground arith, others, Slotted-use_slot slot used es hs v)

Slotted-drop_slot :
    (slot used : ℕ) (es : Entries)
    → slot < 4
    → Avoids slot es
    → Slotted used es
    → Slotted (drop_slot slot used) es
Slotted-drop_slot slot used [] hs a v = tt
Slotted-drop_slot slot used ((k, e) ∷ es) hs (other, a) (small, taken, others, v) =
    let b = (use_drop_bits e.handle slot used small hs).1 in
    let ne : (e.handle == slot) ≡ false = ground arith in
    let b' = rw ne at b in
    (small, omega (arith, b', taken), others, Slotted-drop_slot slot used es hs a v)

Avoids-erase : (k slot : ℕ) (es : Entries) → Avoids slot es → Avoids slot (erase k es)
unfolding erase
Avoids-erase k slot [] a = tt
Avoids-erase k slot ((j, e) ∷ es) (ne, a) = elim (Bool-cases (j == k)) [
  | inl same ↦ rw same (Avoids-erase k slot es a)
  | inr other ↦ rw other (ne, Avoids-erase k slot es a)
]

Slotted-erase : (k used : ℕ) (es : Entries) → Slotted used es → Slotted used (erase k es)
unfolding erase
Slotted-erase k used [] v = tt
Slotted-erase k used ((j, e) ∷ es) (small, taken, others, v) = elim (Bool-cases (j == k)) [
  | inl same ↦ rw same (Slotted-erase k used es v)
  | inr other ↦
      rw other (small, taken, Avoids-erase k e.handle es others, Slotted-erase k used es v)
]

-- The entry found under a key has a slot that no entry under another key has.
pub lookup-Slotted :
    (k used : ℕ) (es : Entries) (e : HwBreakpointEntry)
    → lookup k es ≡ some e
    → Slotted used es
    → (e.handle < 4) × Avoids e.handle (erase k es)
unfolding lookup erase
lookup-Slotted k used [] e h v = cc
lookup-Slotted k used ((j, d) ∷ es) e h (small, taken, others, v) = elim (Bool-cases (j == k)) [
  | inl same ↦
      let h' = rw same at h in
      let z : d ≡ e = cc in rw same (rw z at small, rw z at (Avoids-erase k d.handle es others))
  | inr other ↦
      let h' = rw other at h in
      let (a, b) = lookup-Slotted k used es e h' v in
      rw other (a, (λ same. (member k used es d e h' others) same, b))
]
  where
    member :
        (k used : ℕ) (es : Entries) (d e : HwBreakpointEntry)
        → lookup k es ≡ some e
        → Avoids d.handle es
        → d.handle ≢ e.handle
    member k used [] d e h a = cc
    member k used ((j, c) ∷ es) d e h (ne, a) = elim (Bool-cases (j == k)) [
      | inl same ↦ let h' = rw same at h in let z : c ≡ e = cc in λ q. (rw z at ne) (sym q)
      | inr other ↦ let h' = rw other at h in member k used es d e h' a
    ]

-- A new breakpoint in a free slot.
pub Slotted-assign :
    (k used slot : ℕ) (es : Entries) (e : HwBreakpointEntry)
    → e.handle ≡ slot
    → slot < 4
    → bit slot used ≡ 0
    → Slotted used es
    → Slotted (use_slot slot used) (assign k e es)
unfolding assign
Slotted-assign k used slot es e is_slot hs free v =
    let b = (use_drop_bits slot slot used hs hs).0 in
    rw is_slot (
      hs,
      ground arith,
      Avoids-erase k slot es (Avoids-free slot used es free v),
      Slotted-erase k (use_slot slot used) es (Slotted-use_slot slot used es hs v),
    )

-- A breakpoint that goes gives its slot back.
pub Slotted-drop :
    (k used : ℕ) (es : Entries) (e : HwBreakpointEntry)
    → lookup k es ≡ some e
    → Slotted used es
    → Slotted (drop_slot e.handle used) (erase k es)
Slotted-drop k used es e h v =
    let (small, a) = lookup-Slotted k used es e h v in
    Slotted-drop_slot e.handle used (erase k es) small a (Slotted-erase k used es v)
