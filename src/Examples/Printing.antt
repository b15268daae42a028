-- ===== src/Examples/Printing.antt =====
-- A timer on the console.
use chromatic.Base.{◌++◌, ℕ, ◌-◌, ◌≡◌, refl, [], ◌∷◌, none, List, codes, Text, text_eq}
use chromatic.Ffi.Decimal.{to_string}
use chromatic.Console.{Console, find, label_of, log, time, time_end}
use chromatic.Console.Timers.{Call, groups, time_ends, times, calls, time_end-time}

abbrev ms : ℕ → ℕ → Text
ms start end = to_string (end - start)

abbrev empty : Console
empty = record { current_group_depth = 0; timers = []; counters = []; out = [] }

-- A second start of the timer and the end of another one.
abbrev between : List Call
between = groups (codes "load") ∷ times 120 (codes "t") ∷ time_ends 130 (codes "u") ∷ []

time_end-time_example :
    ((time_end ms 150 (codes "t") (calls ms between (time 100 (codes "t") empty))).out
      ≡ (log
          (codes "t" ++ codes ": " ++ ms 100 150 ++ codes " ms")
          (calls ms between (time 100 (codes "t") empty))).out)
    × (find
          (codes "t")
          (time_end ms 150 (codes "t") (calls ms between (time 100 (codes "t") empty))).timers
        ≡ none)
unfolding find label_of text_eq
time_end-time_example =
    time_end-time ms (codes "t") 100 150 between empty refl (tt, (tt, (refl, tt)))
