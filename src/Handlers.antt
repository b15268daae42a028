-- ===== src/Handlers.antt =====
-- src/core/bindings/native_exception_handler.cc: the registry of exception handlers, the counters
-- that keep the process-wide handlers installed, and the callbacks of scripts.
pub mod Signals
pub mod Registry
pub mod Enabling
pub mod Dispatch
use chromatic.Base.{
  ℕ, zero, suc, ◌+◌, ◌-◌, ◌%◌, ◌^◌, ◌≡◌, refl, Bool, true, false, not, List, [], ◌∷◌, ◌++◌, ◌==◌,
  if◌then◌else◌, Text, codes, Result, ok, err, runtime_error, and_then, text_eq, Outcome, done,
  throw, M,
}
use chromatic.Base.Signed.{ℤ, pos, negsuc, inc, dec, is_pos, is_zero}
use chromatic.Hex.{u64_mod, to_hex_addr, parse_hex_addr}
use chromatic.Platform.{Os, linux, android, darwin, windows}

pub data ExceptionType : Type 0 where
  access_violation bus_error breakpoint single_step illegal_instruction unknown : ExceptionType

abbrev pub exception_tag : ExceptionType → ℕ
exception_tag access_violation = 0
exception_tag bus_error = 1
exception_tag breakpoint = 2
exception_tag single_step = 3
exception_tag illegal_instruction = 4
exception_tag unknown = 5

unfoldable pub exception_type_to_string : ExceptionType → Text
exception_type_to_string access_violation = codes "access_violation"
exception_type_to_string bus_error = codes "bus_error"
exception_type_to_string breakpoint = codes "breakpoint"
exception_type_to_string single_step = codes "single_step"
exception_type_to_string illegal_instruction = codes "illegal_instruction"
exception_type_to_string unknown = codes "unknown"

unfoldable pub string_to_exception_type : Text → ExceptionType
string_to_exception_type s =
    if text_eq s (codes "access_violation")
    then access_violation
    else if text_eq s (codes "bus_error")
    then bus_error
    else if text_eq s (codes "breakpoint")
    then breakpoint
    else if text_eq s (codes "single_step")
    then single_step
    else if text_eq s (codes "illegal_instruction")
    then illegal_instruction
    else unknown

-- The functions that the bindings register: breakpointSigtrapHandler, hwBpSigtrapHandler and
-- monitorSegvHandler.
pub data Callback : Type 0 where
  breakpoint_sigtrap hw_sigtrap monitor_segv : Callback

pub record HandlerEntry : Type 0 where
  pub id : ℕ
  pub type : ExceptionType
  pub callback : Callback

-- A script's function is named by a number.
pub record JsCallbackEntry : Type 0 where
  pub id : ℕ
  pub type : ExceptionType
  pub callback : ℕ

pub data Signal : Type 0 where
  sigsegv sigbus sigtrap sigill other_signal : Signal

-- struct sigaction: the default, ignoring, a handler of either form at an address, and
-- globalSignalHandler itself, which is installed with SA_SIGINFO.
pub data Sigaction : Type 0 where
  sig_dfl sig_ign global_handler : Sigaction
  sa_handler sa_sigaction : ℕ → Sigaction

-- The global variables. `current` is the table that the kernel keeps for sigaction, `old` are
-- g_old_sigsegv and its kin, `veh` tells whether g_vehHandle is set.
pub record Handlers : Type 0 where
  pub handlers : List HandlerEntry
  pub next_id : ℕ
  pub enabled : Bool
  pub ref_count : ℤ
  pub js_callbacks : List JsCallbackEntry
  pub next_js_id : ℕ
  pub current : Signal → Sigaction
  pub old : Signal → Sigaction
  pub veh : Bool

-- One of the four signals that installHandlers takes over.
abbrev pub is_managed : Signal → Bool
is_managed sigsegv = true
is_managed sigbus = true
is_managed sigtrap = true
is_managed sigill = true
is_managed other_signal = false

unfoldable pub install_posix : Handlers → Handlers
install_posix s = record s {
  current = λ g. if is_managed g then global_handler else s.current g;
  old = λ g. if is_managed g then s.current g else s.old g;
}

unfoldable pub install_handlers : Os → Handlers → Handlers
unfolding install_posix
install_handlers windows s = record s { veh = true }
install_handlers linux s = install_posix s
install_handlers android s = install_posix s
install_handlers darwin s = install_posix s

remove_posix : Handlers → Handlers
remove_posix s = record s { current = λ g. if is_managed g then s.old g else s.current g }

unfoldable pub remove_handlers : Os → Handlers → Handlers
unfolding remove_posix
remove_handlers windows s = record s { veh = false }
remove_handlers linux s = remove_posix s
remove_handlers android s = remove_posix s
remove_handlers darwin s = remove_posix s

unfoldable pub enable : Os → Handlers → Handlers
enable os s =
    let on = record s { enabled = true } in if s.enabled then on else install_handlers os on

unfoldable pub disable : Os → Handlers → Handlers
disable os s =
    let off = record s { enabled = false } in
    if not s.enabled then off else if is_pos s.ref_count then off else remove_handlers os off

unfoldable pub is_enabled : Handlers → Bool
is_enabled s = s.enabled

unfoldable pub add_callback : Text → ℕ → M Handlers Text
add_callback type callback s =
    let exc_type = string_to_exception_type type in
    let entry : JsCallbackEntry = record {
      id = s.next_js_id;
      type = exc_type;
      callback = callback;
    } in
    if exception_tag exc_type == exception_tag unknown
    then throw s (runtime_error (codes "Unknown exception type: " ++ type))
    else done
        (record s {
          js_callbacks = s.js_callbacks ++ entry ∷ [];
          next_js_id = (s.next_js_id + 1) % u64_mod;
        })
        (to_hex_addr s.next_js_id)

without_js : ℕ → List JsCallbackEntry → List JsCallbackEntry
without_js id [] = []
without_js id (e ∷ es) = if e.id == id then without_js id es else e ∷ without_js id es

remove_js_id : ℕ → Handlers → Handlers
unfolding without_js
remove_js_id id s = record s { js_callbacks = without_js id s.js_callbacks }

unfoldable pub remove_callback : Text → M Handlers (Unit {0})
unfolding remove_js_id
remove_callback callback_id s = elim (parse_hex_addr callback_id) [
  | ok id ↦ done (remove_js_id id s) tt
  | err e ↦ throw s e
]

unfoldable pub remove_all_callbacks : Handlers → Handlers
remove_all_callbacks s = record s { js_callbacks = [] }

-- registerHandler returns the new handler's id, which is the `next_id` that it finds.
unfoldable pub register_handler : ExceptionType → Callback → Handlers → Handlers
register_handler type callback s = record s {
  handlers = s.handlers ++ record { id = s.next_id; type = type; callback = callback } ∷ [];
  next_id = (s.next_id + 1) % u64_mod;
}

unfoldable pub without : ℕ → List HandlerEntry → List HandlerEntry
without id [] = []
without id (e ∷ es) = if e.id == id then without id es else e ∷ without id es

unfoldable pub unregister_handler : ℕ → Handlers → Handlers
unfolding without
unregister_handler id s = record s { handlers = without id s.handlers }

unfoldable pub ref_enable : Os → Handlers → Handlers
ref_enable os s =
    let counted = record s { ref_count = inc s.ref_count } in
    if is_zero s.ref_count
    then if not s.enabled then install_handlers os (record counted { enabled = true }) else counted
    else counted

-- The last release does nothing more: the branch of the source is empty.
unfoldable pub ref_disable : Handlers → Handlers
ref_disable s = record s { ref_count = dec s.ref_count }
