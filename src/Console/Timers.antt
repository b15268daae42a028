-- ===== src/Console/Timers.antt =====
-- The timers of the console under sequences of its calls.
use chromatic.Base.{
  ◌++◌, codes, ℕ, ◌≡◌, refl, ◌∙◌, arith, true, false, List, [], ◌∷◌, none, some, Text, text_eq,
  text_eq→eq, All, Bool-cases, Option-cases, inl, inr,
}
use chromatic.Console.{
  Console, find, erase_key, label_of, print_styled, log, error, warn, info, debug, trace, group,
  group_end, time, time_log, time_end, elapsed, count, count_reset, profile, profile_end,
  time_stamp, timeline, timeline_end,
}

-- The calls of a script, with what the clock says where a call reads it.
pub data Call : Type 0 where
  logs errors warns infos debugs traces groups counts count_resets profiles profile_ends time_stamps
        timelines timeline_ends :
      Text → Call
  group_ends : Call
  times time_logs time_ends : ℕ → Text → Call

module _ (ms : ℕ → ℕ → Text) where
  unfoldable pub call : Call → Console → Console
  call (logs m) s = log m s
  call (errors m) s = error m s
  call (warns m) s = warn m s
  call (infos m) s = info m s
  call (debugs m) s = debug m s
  call (traces m) s = trace m s
  call (groups m) s = group m s
  call (counts m) s = count m s
  call (count_resets m) s = count_reset m s
  call (profiles m) s = profile m s
  call (profile_ends m) s = profile_end m s
  call (time_stamps m) s = time_stamp m s
  call (timelines m) s = timeline m s
  call (timeline_ends m) s = timeline_end m s
  call group_ends s = group_end s
  call (times now m) s = time now m s
  call (time_logs now m) s = time_log ms now m s
  call (time_ends now m) s = time_end ms now m s

  unfoldable pub calls : List Call → Console → Console
  calls [] s = s
  calls (c ∷ cs) s = calls cs (call c s)

-- The call does not end the timer `label`.
abbrev pub Keeps : Text → Call → Type 0
Keeps label (time_ends now m) = text_eq (label_of m) label ≡ false
Keeps label _ = Unit {0}

text_eq_refl : (s : Text) → text_eq s s ≡ true
unfolding text_eq
text_eq_refl [] = refl
text_eq_refl (c ∷ s) = ground (arith, text_eq_refl s)

find-erase_key_same : (k : Text) (m : List (Text × ℕ)) → find k (erase_key k m) ≡ none
unfolding find erase_key
find-erase_key_same k [] = refl
find-erase_key_same k ((j, v) ∷ m) = elim (Bool-cases (text_eq j k)) [
  | inl e ↦ rw e (find-erase_key_same k m)
  | inr e ↦ rw e (rw (find, e) (find-erase_key_same k m))
]

find-erase_key :
    (k label : Text) (m : List (Text × ℕ))
    → text_eq k label ≡ false
    → find label (erase_key k m) ≡ find label m
unfolding find erase_key
find-erase_key k label [] other = refl
find-erase_key k label ((j, v) ∷ m) other = elim (Bool-cases (text_eq j k)) [
  | inl e ↦
      let same : j ≡ k = text_eq→eq j k e in
      let differs : text_eq j label ≡ false = rw same other in
      rw (e, differs) (find-erase_key k label m other)
  | inr e ↦ elim (Bool-cases (text_eq j label)) [
    | inl found ↦ rw (e, find, found) refl
    | inr missing ↦ rw (e, find, missing) (find-erase_key k label m other)
  ]
]

module _ (ms : ℕ → ℕ → Text) (label : Text) (start : ℕ) where
  abbrev Runs : Console → Type 0
  Runs s = find label s.timers ≡ some start

  -- A timer under another label does not hide it.
  find_behind :
      (k : Text) (now : ℕ) (m : List (Text × ℕ))
      → find k m ≡ none
      → find label m ≡ some start
      → find label ((k, now) ∷ m) ≡ some start
  unfolding find
  find_behind k now m absent h = elim (Bool-cases (text_eq k label)) [
    | inl e ↦ let same : k ≡ label = text_eq→eq k label e in cc
    | inr e ↦ rw (find, e) h
  ]

  time-Runs : (now : ℕ) (m : Text) (s : Console) → Runs s → Runs (time now m s)
  unfolding time warn print_styled
  time-Runs now m s h = elim (Option-cases (find (label_of m) s.timers)) [
    | inr (t, e) ↦ rw (time, e) h
    | inl e ↦ rw (time, e) (find_behind (label_of m) now s.timers e h)
  ]

  time_log-Runs : (now : ℕ) (m : Text) (s : Console) → Runs s → Runs (time_log ms now m s)
  unfolding time_log warn log print_styled
  time_log-Runs now m s h = elim (Option-cases (find (label_of m) s.timers)) [
    | inr (t, e) ↦ rw (time_log, e) h
    | inl e ↦ rw (time_log, e) h
  ]

  time_end-Runs :
      (now : ℕ) (m : Text) (s : Console)
      → text_eq (label_of m) label ≡ false
      → Runs s
      → Runs (time_end ms now m s)
  unfolding time_end warn log print_styled
  time_end-Runs now m s other h = elim (Option-cases (find (label_of m) s.timers)) [
    | inr (t, e) ↦ rw (time_end, e) (find-erase_key (label_of m) label s.timers other ∙ h)
    | inl e ↦ rw (time_end, e) h
  ]

  count_reset-Runs : (m : Text) (s : Console) → Runs s → Runs (count_reset m s)
  unfolding count_reset warn print_styled
  count_reset-Runs m s h = elim (Option-cases (find (label_of m) s.counters)) [
    | inr (n, e) ↦ rw (count_reset, e) h
    | inl e ↦ rw (count_reset, e) h
  ]

  call-Runs : (c : Call) (s : Console) → Keeps label c → Runs s → Runs (call ms c s)
  unfolding call log error warn info debug trace group count profile profile_end time_stamp timeline
      timeline_end group_end print_styled
  call-Runs (logs m) s k h = h
  call-Runs (errors m) s k h = h
  call-Runs (warns m) s k h = h
  call-Runs (infos m) s k h = h
  call-Runs (debugs m) s k h = h
  call-Runs (traces m) s k h = h
  call-Runs (groups m) s k h = h
  call-Runs (counts m) s k h = h
  call-Runs (count_resets m) s k h = count_reset-Runs m s h
  call-Runs (profiles m) s k h = h
  call-Runs (profile_ends m) s k h = h
  call-Runs (time_stamps m) s k h = h
  call-Runs (timelines m) s k h = h
  call-Runs (timeline_ends m) s k h = h
  call-Runs group_ends s k h = h
  call-Runs (times now m) s k h = time-Runs now m s h
  call-Runs (time_logs now m) s k h = time_log-Runs now m s h
  call-Runs (time_ends now m) s k h = time_end-Runs now m s k h

  calls-Runs : (cs : List Call) (s : Console) → All (Keeps label) cs → Runs s → Runs (calls ms cs s)
  unfolding calls
  calls-Runs [] s k h = h
  calls-Runs (c ∷ cs) s (k, ks) h = calls-Runs cs (call ms c s) ks (call-Runs c s k h)

time_starts :
    (start : ℕ) (m : Text) (s : Console)
    → find (label_of m) s.timers ≡ none
    → find (label_of m) (time start m s).timers ≡ some start
unfolding time find
time_starts start m s idle = rw (time, idle) (rw (text_eq_refl (label_of m), find) refl)

-- A timer that does not run is started by time. Whatever calls follow that do not end it, also further
-- calls of time for it, timeEnd then prints the label, the text of the time from that start to now and the unit behind the
-- current indentation, and afterwards the timer does not run.
pub time_end-time :
    (ms : ℕ → ℕ → Text) (m : Text) (start now : ℕ) (cs : List Call) (s : Console)
    → find (label_of m) s.timers ≡ none
    → All (Keeps (label_of m)) cs
    → let s' = calls ms cs (time start m s) in
      ((time_end ms now m s').out
        ≡ (log (label_of m ++ codes ": " ++ ms start now ++ codes " ms") s').out)
      × (find (label_of m) (time_end ms now m s').timers ≡ none)
unfolding time_end elapsed log print_styled
time_end-time ms m start now cs s idle keeps =
    let started : find (label_of m) (time start m s).timers ≡ some start =
      time_starts start m s idle in
    let runs = calls-Runs ms (label_of m) start cs (time start m s) keeps started in
    (rw (time_end, runs) refl, rw (time_end, runs) (find-erase_key_same (label_of m) _))
