-- ===== src/Console.antt =====
-- src/core/bindings/console.cc: the console of scripts with its groups, timers and counters, which are
-- thread-local. The colours of the output are left out. The clock and the text of a duration, a double,
-- are parameters.
pub mod Timers
use chromatic.Base.{
  ℕ, zero, suc, ◌+◌, ◌-◌, ◌*◌, ◌%◌, ◌≡◌, refl, Bool, true, false, if◌then◌else◌, List, [], ◌∷◌,
  ◌++◌, Option, none, some, Text, codes, text_eq,
}
use chromatic.Hex.{u64_mod}
use chromatic.Ffi.Decimal.{to_string}

-- std::unordered_map with std::string keys.
module _ {V : Type 0} where
  unfoldable pub find : Text → List (Text × V) → Option V
  find k [] = none
  find k ((j, v) ∷ m) = if text_eq j k then some v else find k m

  unfoldable pub erase_key : Text → List (Text × V) → List (Text × V)
  erase_key k [] = []
  erase_key k ((j, v) ∷ m) = if text_eq j k then erase_key k m else (j, v) ∷ erase_key k m

-- A line of output: to stderr or not, and its text.
pub record Line : Type 0 where
  pub is_error : Bool
  pub text : Text

pub record Console : Type 0 where
  pub current_group_depth : ℕ
  pub timers : List (Text × ℕ)
  pub counters : List (Text × ℕ)
  pub out : List Line

-- `std::string(current_group_depth * 2, ' ')`.
unfoldable pub get_indent : ℕ → Text
get_indent zero = []
get_indent (suc depth) = b' ' ∷ b' ' ∷ get_indent depth

unfoldable pub print_styled : Bool → Text → Text → Console → Console
print_styled is_error prefix message s = record s {
  out =
      s.out
      ++ record {
        is_error = is_error;
        text = get_indent s.current_group_depth ++ prefix ++ message;
      }
        ∷ [];
}

unfoldable pub log : Text → Console → Console
log message = print_styled false [] message

-- The prefixes are in UTF-8: U+2716, U+26A0, U+2139, U+25B6 and U+25BC, each with a blank.
unfoldable pub error : Text → Console → Console
error message = print_styled true (0xe2 ∷ 0x9c ∷ 0x96 ∷ b' ' ∷ []) message

unfoldable pub warn : Text → Console → Console
warn message = print_styled true (0xe2 ∷ 0x9a ∷ 0xa0 ∷ b' ' ∷ []) message

unfoldable pub info : Text → Console → Console
info message = print_styled false (0xe2 ∷ 0x84 ∷ 0xb9 ∷ b' ' ∷ []) message

unfoldable pub debug : Text → Console → Console
debug message = print_styled false (0xe2 ∷ 0x96 ∷ 0xb6 ∷ b' ' ∷ []) message

unfoldable pub trace : Text → Console → Console
trace message = print_styled false (codes "Trace: ") message

unfoldable pub group : Text → Console → Console
group message s =
    let printed = print_styled false (0xe2 ∷ 0x96 ∷ 0xbc ∷ b' ' ∷ []) message s in
    record printed { current_group_depth = printed.current_group_depth + 1 }

-- At depth 0 subtraction stops, as the test of the source does.
unfoldable pub group_end : Console → Console
group_end s = record s { current_group_depth = s.current_group_depth - 1 }

unfoldable pub label_of : Text → Text
label_of [] = codes "default"
label_of (c ∷ s) = c ∷ s

unfoldable pub time : ℕ → Text → Console → Console
unfolding label_of
time now message s = elim (find (label_of message) s.timers) [
  | some start ↦ warn (codes "Timer '" ++ label_of message ++ codes "' already exists") s
  | none ↦ record s { timers = (label_of message, now) ∷ s.timers }
]

-- `ms start end` is the text of the milliseconds between two times.
module _ (ms : ℕ → ℕ → Text) where
  unfoldable pub elapsed : Text → ℕ → ℕ → Text
  elapsed label start end = label ++ codes ": " ++ ms start end ++ codes " ms"

  unfoldable pub time_log : ℕ → Text → Console → Console
  unfolding elapsed
  time_log now message s = elim (find (label_of message) s.timers) [
    | none ↦ warn (codes "Timer '" ++ label_of message ++ codes "' does not exist") s
    | some start ↦ log (elapsed (label_of message) start now) s
  ]

  unfoldable pub time_end : ℕ → Text → Console → Console
  unfolding elapsed
  time_end now message s = elim (find (label_of message) s.timers) [
    | none ↦ warn (codes "Timer '" ++ label_of message ++ codes "' does not exist") s
    | some start ↦
        let printed = log (elapsed (label_of message) start now) s in
        record printed { timers = erase_key (label_of message) printed.timers }
  ]

unfoldable pub value_or_zero : Option ℕ → ℕ
value_or_zero none = 0
value_or_zero (some n) = n

-- `++counters[label]`, on 64 bits.
unfoldable pub count : Text → Console → Console
unfolding value_or_zero
count message s =
    let label = label_of message in
    let val = (value_or_zero (find label s.counters) + 1) % u64_mod in
    log (label ++ codes ": " ++ to_string val)
      (record s { counters = (label, val) ∷ erase_key label s.counters })

unfoldable pub count_reset : Text → Console → Console
count_reset message s = elim (find (label_of message) s.counters) [
  | none ↦ warn (codes "Count for '" ++ label_of message ++ codes "' does not exist") s
  | some n ↦ record s { counters = erase_key (label_of message) s.counters }
]

-- profile, timeline and their ends: a prefix and a word behind the message.
unfoldable pub profile : Text → Console → Console
profile message = print_styled false (codes "Profile: ") (message ++ codes " started")

unfoldable pub profile_end : Text → Console → Console
profile_end message = print_styled false (codes "Profile: ") (message ++ codes " ended")

unfoldable pub time_stamp : Text → Console → Console
time_stamp message = print_styled false (codes "TimeStamp: ") message

unfoldable pub timeline : Text → Console → Console
timeline message = print_styled false (codes "Timeline: ") (message ++ codes " started")

unfoldable pub timeline_end : Text → Console → Console
timeline_end message = print_styled false (codes "Timeline: ") (message ++ codes " ended")

-- The calls that only pass on.
unfoldable pub table : Text → Console → Console
table message = log message

unfoldable pub dir : Text → Console → Console
dir message = log message

unfoldable pub dirxml : Text → Console → Console
dirxml message = log message

unfoldable pub time_line : Text → Console → Console
time_line message = timeline message

unfoldable pub time_line_end : Text → Console → Console
time_line_end message = timeline_end message
