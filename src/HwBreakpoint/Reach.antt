-- ===== src/HwBreakpoint/Reach.antt =====
-- The hardware breakpoints that the calls of scripts can reach.
use chromatic.Base.{
  ℕ, ◌<◌, ◌≤◌, ◌≡◌, refl, not, Option, none, some, arith, List, [], ◌∷◌, Text, lookup, erase,
  assign, Bool-cases, inl, inr, length, Result, ok, err, done, throw, state_of, ◌||◌,
}
use chromatic.Base.Digits.{bit}
use chromatic.Base.Triples.{Gives}
use chromatic.Hex.{parse_hex_addr}
use chromatic.Platform.{Os, linux, android, darwin, windows, Arch}
use chromatic.HwBreakpoint.{
  HwBreakpointEntry, HwBreakpoints, platform_max_breakpoints, maybe_remove_hw_handler, release_both,
  is_empty,
}
use chromatic.HwBreakpoint.Slots.{use_slot}
use chromatic.HwBreakpoint.Slotted.{Slotted, Slotted-assign, Slotted-drop}
use chromatic.HwBreakpoint.Requests.{register, uninstall, unset, remove, remove_all}

-- Where the platform has debug registers, the slots are in order.
abbrev pub SlotsHold : Os → ℕ → List (ℕ × HwBreakpointEntry) → Type 0
SlotsHold windows used es = Slotted used es
SlotsHold darwin used es = Slotted used es
SlotsHold linux used es = Unit {0}
SlotsHold android used es = Unit {0}

-- No address has more breakpoints than the platform has, and the slots are in order.
pub record IsValid (os : Os) (arch : Arch) (s : HwBreakpoints) : Type 0 where
  pub bounded : length s.hw_by_address ≤ platform_max_breakpoints os arch
  pub slots : SlotsHold os s.used_slots s.hw_by_id

length-erase {ℓ} : {V : Type ℓ} (k : ℕ) (m : List (ℕ × V)) → length (erase k m) ≤ length m
unfolding erase
length-erase k [] = omega arith
length-erase k ((j, v) ∷ m) = ground (arith, length-erase k m)

SlotsHold-unset :
    (os : Os) (s : HwBreakpoints) (k : ℕ) (e : HwBreakpointEntry)
    → lookup k s.hw_by_id ≡ some e
    → SlotsHold os s.used_slots s.hw_by_id
    → SlotsHold os (unset os e s).used_slots (erase k s.hw_by_id)
unfolding unset uninstall release_both
SlotsHold-unset windows s k e h v = Slotted-drop k s.used_slots s.hw_by_id e h v
SlotsHold-unset darwin s k e h v = Slotted-drop k s.used_slots s.hw_by_id e h v
SlotsHold-unset linux s k e h v = tt
SlotsHold-unset android s k e h v = tt

maybe_remove-IsValid :
    (os : Os) (arch : Arch) (s : HwBreakpoints)
    → IsValid os arch s
    → IsValid os arch (maybe_remove_hw_handler s)
unfolding maybe_remove_hw_handler
maybe_remove-IsValid os arch s v =
    elim (Bool-cases (not s.handler_installed || not (is_empty s.hw_by_address))) [
      | inl e ↦ rw e v
      | inr e ↦ rw e (record { bounded = v.bounded; slots = v.slots })
    ]

pub remove-IsValid :
    (os : Os) (arch : Arch) (text : Text) (s : HwBreakpoints)
    → IsValid os arch s
    → IsValid os arch (state_of (remove os text s))
unfolding remove
remove-IsValid os arch text s v = of_parsed (parse_hex_addr text)
  where
    of_found :
        (id : ℕ) (o : Option HwBreakpointEntry)
        → lookup id s.hw_by_id ≡ o
        → IsValid os arch (
            state_of {A = Unit {0}} (elim o [
              | none ↦ done s tt
              | some e ↦
                  done
                    (maybe_remove_hw_handler (record (unset os e s) {
                      hw_by_address = erase e.address s.hw_by_address;
                      hw_by_id = erase id s.hw_by_id;
                    }))
                    tt
            ]))
    of_found id none h = v
    of_found id (some e) h = maybe_remove-IsValid os arch _ (record {
      bounded = omega (arith, length-erase e.address s.hw_by_address, v.bounded);
      slots = SlotsHold-unset os s id e h v.slots;
    })

    of_parsed :
        (r : Result ℕ)
        → IsValid os arch (
            state_of {A = Unit {0}} (elim r [
              | err e ↦ throw s e
              | ok id ↦ elim (lookup id s.hw_by_id) [
                | none ↦ done s tt
                | some e ↦
                    done
                      (maybe_remove_hw_handler (record (unset os e s) {
                        hw_by_address = erase e.address s.hw_by_address;
                        hw_by_id = erase id s.hw_by_id;
                      }))
                      tt
              ]
            ]))
    of_parsed (err e) = v
    of_parsed (ok id) = of_found id (lookup id s.hw_by_id) refl

pub remove_all-IsValid :
    (os : Os) (arch : Arch) (s : HwBreakpoints) → IsValid os arch (remove_all os s)
unfolding remove_all
remove_all-IsValid os arch s =
    maybe_remove-IsValid os arch _ (record { bounded = omega arith; slots = no_slots os _ })
  where
    no_slots : (os : Os) (used : ℕ) → SlotsHold os used []
    no_slots windows used = tt
    no_slots darwin used = tt
    no_slots linux used = tt
    no_slots android used = tt

-- One more breakpoint fits.
pub record HasRoom (os : Os) (arch : Arch) (s : HwBreakpoints) : Type 0 where
  pub valid : IsValid os arch s
  pub room : length s.hw_by_address < platform_max_breakpoints os arch

-- A handle that a new breakpoint may have, with room for the breakpoint.
abbrev pub Takes : Os → ℕ → ℕ → List (ℕ × HwBreakpointEntry) → Type 0
Takes windows handle used es =
    (before : ℕ) × (used ≡ use_slot handle before)
    × (handle < 4)
    × (bit handle before ≡ 0)
    × Slotted before es
Takes darwin handle used es =
    (before : ℕ) × (used ≡ use_slot handle before)
    × (handle < 4)
    × (bit handle before ≡ 0)
    × Slotted before es
Takes linux handle used es = Unit {0}
Takes android handle used es = Unit {0}

pub record IsTaken (os : Os) (arch : Arch) (handle : ℕ) (s : HwBreakpoints) : Type 0 where
  pub room : length s.hw_by_address < platform_max_breakpoints os arch
  pub takes : Takes os handle s.used_slots s.hw_by_id

SlotsHold-assign :
    (os : Os) (k used : ℕ) (es : List (ℕ × HwBreakpointEntry)) (e : HwBreakpointEntry)
    → Takes os e.handle used es
    → SlotsHold os used (assign k e es)
SlotsHold-assign windows k used es e (before, is, small, free, v) =
    rw is (Slotted-assign k before e.handle es e refl small free v)
SlotsHold-assign darwin k used es e (before, is, small, free, v) =
    rw is (Slotted-assign k before e.handle es e refl small free v)
SlotsHold-assign linux k used es e h = tt
SlotsHold-assign android k used es e h = tt

pub register-IsValid :
    (os : Os) (arch : Arch) (e : HwBreakpointEntry) (s : HwBreakpoints)
    → IsTaken os arch e.handle s
    → Gives (IsValid os arch) (λ (_ : ℕ). IsValid os arch) (register e s)
unfolding register assign
register-IsValid os arch e s h = record {
  bounded = omega (arith, length-erase e.address s.hw_by_address, h.room);
  slots = SlotsHold-assign os s.next_hw_id s.used_slots s.hw_by_id e h.takes;
}
