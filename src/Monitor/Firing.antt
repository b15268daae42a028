-- ===== src/Monitor/Firing.antt =====
-- The ranges of the monitors that a fault can fire, and the search for the first of them.
use chromatic.Base.{
  ℕ, suc, ◌+◌, ◌≡◌, inl, inr, refl, ap, true, false, not, ◌&&◌, List, [], ◌∷◌, ◌++◌, if◌then◌else◌,
  arith, Option, none, some, Bool-cases, All,
}
use chromatic.Monitor.{WatchedRange, MonitorEntry, covers, hit_range, hit_monitor}

-- The ranges that have not fired.
unfoldable pub unfired : List WatchedRange → ℕ
unfired [] = 0
unfired (r ∷ rs) = if r.fired then unfired rs else suc (unfired rs)

unfoldable pub unfired_all : List (ℕ × MonitorEntry) → ℕ
unfired_all [] = 0
unfired_all ((k, m) ∷ ms) = unfired m.ranges + unfired_all ms

-- A range that fires had not fired, holds the address, and is used up.
pub record Hit (fault : ℕ) (before after : ℕ) (h : WatchedRange) : Type 0 where
  pub fresh : h.fired ≡ false
  pub inside : covers fault h ≡ true
  pub used_up : before ≡ suc after

abbrev pub Passed : ℕ → List WatchedRange → Type 0
Passed fault rs = All (λ r. (not r.fired && covers fault r) ≡ false) rs

-- `h` is the first range of `before` that has not fired and covers the address, and `after` is `before`
-- with that range fired.
pub record FiredRange (fault : ℕ) (before after : List WatchedRange) (h : WatchedRange)
    : Type 0 where
  pub earlier : List WatchedRange
  pub later : List WatchedRange
  pub split : before ≡ earlier ++ h ∷ later
  pub fired : after ≡ earlier ++ record h { fired = true } ∷ later
  pub passed : Passed fault earlier

-- What a search for the address among ranges found: nothing, when no unfired range covers it.
abbrev pub RangeFound : ℕ → List WatchedRange → Option (WatchedRange × List WatchedRange) → Type 0
RangeFound fault rs none = Passed fault rs
RangeFound fault rs (some (h, rs')) =
    Hit fault (unfired rs) (unfired rs') h × FiredRange fault rs rs' h

Hit-first :
    (fault : ℕ) (r : WatchedRange) (rs : List WatchedRange)
    → (not r.fired && covers fault r) ≡ true
    → Hit fault (unfired (r ∷ rs)) (unfired (record r { fired = true } ∷ rs)) r
unfolding unfired
Hit-first fault r rs e = elim (Bool-cases r.fired) [
  | inl f ↦ ground arith
  | inr f ↦ record { fresh = f; inside = rw f at e; used_up = rw f }
]

pass_range :
    (fault : ℕ) (r : WatchedRange) (rs : List WatchedRange)
    (o : Option (WatchedRange × List WatchedRange))
    → RangeFound fault rs o
    → (not r.fired && covers fault r) ≡ false
    → RangeFound fault (r ∷ rs) (elim o [ none ↦ none | some (h, rs') ↦ some (h, r ∷ rs') ])
unfolding unfired
pass_range fault r rs none found e = (e, found)
pass_range fault r rs (some (h, rs')) (hit, c) e = (
  record {
    fresh = hit.fresh;
    inside = hit.inside;
    used_up = elim (Bool-cases r.fired) [
      | inl f ↦ rw f hit.used_up
      | inr f ↦ rw f (omega (arith, hit.used_up))
    ];
  },
  record {
    earlier = r ∷ c.earlier;
    later = c.later;
    split = ap (λ l. r ∷ l) c.split;
    fired = ap (λ l. r ∷ l) c.fired;
    passed = (e, c.passed);
  },
)

hit_range-RangeFound :
    (fault : ℕ) (rs : List WatchedRange) → RangeFound fault rs (hit_range fault rs)
unfolding hit_range
hit_range-RangeFound fault [] = tt
hit_range-RangeFound fault (r ∷ rs) = elim (Bool-cases (not r.fired && covers fault r)) [
  | inl e ↦ rw e (
    Hit-first fault r rs e,
    record { earlier = []; later = rs; split = refl; fired = refl; passed = tt },
  )
  | inr e ↦ rw e (pass_range fault r rs (hit_range fault rs) (hit_range-RangeFound fault rs) e)
]

abbrev pub AllPassed : ℕ → List (ℕ × MonitorEntry) → Type 0
AllPassed fault ms = All (λ (m : ℕ × MonitorEntry). Passed fault m.1.ranges) ms

-- The first monitor of `before` with an unfired range that covers the address is `id`, `h` is the first
-- such range of it, and `after` is `before` with that range fired.
pub record FiredMonitor (fault : ℕ) (before after : List (ℕ × MonitorEntry)) (id : ℕ)
    (h : WatchedRange) : Type 0 where
  pub earlier : List (ℕ × MonitorEntry)
  pub key : ℕ
  pub monitor : MonitorEntry
  pub ranges : List WatchedRange
  pub later : List (ℕ × MonitorEntry)
  pub split : before ≡ earlier ++ (key, monitor) ∷ later
  pub fired : after ≡ earlier ++ (key, record monitor { ranges = ranges }) ∷ later
  pub its_id : id ≡ monitor.id
  pub its_range : FiredRange fault monitor.ranges ranges h
  pub passed : AllPassed fault earlier

abbrev pub MonitorFound :
    ℕ → List (ℕ × MonitorEntry) → Option (ℕ × WatchedRange × List (ℕ × MonitorEntry)) → Type 0
MonitorFound fault ms none = AllPassed fault ms
MonitorFound fault ms (some (id, h, ms')) =
    Hit fault (unfired_all ms) (unfired_all ms') h × FiredMonitor fault ms ms' id h

pass_monitor :
    (fault k : ℕ) (m : MonitorEntry) (ms : List (ℕ × MonitorEntry))
    (o : Option (ℕ × WatchedRange × List (ℕ × MonitorEntry)))
    → MonitorFound fault ms o
    → All (λ r. (not r.fired && covers fault r) ≡ false) m.ranges
    → MonitorFound fault
        ((k, m) ∷ ms)
        (elim o [ none ↦ none | some (id, h, ms') ↦ some (id, h, (k, m) ∷ ms') ])
unfolding unfired_all
pass_monitor fault k m ms none found e = (e, found)
pass_monitor fault k m ms (some (id, h, ms')) (hit, c) e = (
  record { fresh = hit.fresh; inside = hit.inside; used_up = omega (arith, hit.used_up) },
  record {
    earlier = (k, m) ∷ c.earlier;
    key = c.key;
    monitor = c.monitor;
    ranges = c.ranges;
    later = c.later;
    split = ap (λ l. (k, m) ∷ l) c.split;
    fired = ap (λ l. (k, m) ∷ l) c.fired;
    its_id = c.its_id;
    its_range = c.its_range;
    passed = (e, c.passed);
  },
)

pub hit_monitor-MonitorFound :
    (fault : ℕ) (ms : List (ℕ × MonitorEntry)) → MonitorFound fault ms (hit_monitor fault ms)
unfolding hit_monitor unfired_all
hit_monitor-MonitorFound fault [] = tt
hit_monitor-MonitorFound fault ((k, m) ∷ ms) =
    here (hit_range fault m.ranges) (hit_range-RangeFound fault m.ranges)
      (pass_monitor fault k m ms (hit_monitor fault ms) (hit_monitor-MonitorFound fault ms))
  where
    later : Option (ℕ × WatchedRange × List (ℕ × MonitorEntry))
    later = elim (hit_monitor fault ms) [
      | none ↦ none
      | some (id, h, ms') ↦ some (id, h, (k, m) ∷ ms')
    ]

    here :
        (o : Option (WatchedRange × List WatchedRange))
        → RangeFound fault m.ranges o
        → (All (λ r. (not r.fired && covers fault r) ≡ false) m.ranges
            → MonitorFound fault ((k, m) ∷ ms) later)
        → MonitorFound fault ((k, m) ∷ ms) (elim o [
          | none ↦ later
          | some (h, rs) ↦ some (m.id, h, (k, record m { ranges = rs }) ∷ ms)
        ])
    here none found next = next found
    here (some (h, rs)) (hit, c) next = (
      record { fresh = hit.fresh; inside = hit.inside; used_up = omega (arith, hit.used_up) },
      record {
        earlier = [];
        key = k;
        monitor = m;
        ranges = rs;
        later = ms;
        split = refl;
        fired = refl;
        its_id = refl;
        its_range = c;
        passed = tt;
      },
    )
