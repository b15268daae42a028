-- ===== src/Process/Identity.antt =====
-- getPointerSize, getPageSize, getProcessId and getCurrentThreadId of native_process.cc. What the system
-- gives is an argument: the page size of sysconf or GetSystemInfo, the process's id, and the thread's
-- id, which on Linux and Android is the address that pthread_self gives.
use chromatic.Base.{ℕ, ◌<◌, ◌≡◌, Text, ok}
use chromatic.Base.Signed.{ℤ, pos, to_int32}
use chromatic.Hex.{u64_mod, to_hex_addr, parse_hex_addr}
use chromatic.Hex.RoundTrip.{parse_hex_addr-to_hex_addr}

-- Both architectures have pointers of eight bytes.
abbrev pub get_pointer_size : ℤ
get_pointer_size = pos 8

unfoldable pub get_page_size : ℕ → ℤ
get_page_size page_size = to_int32 page_size

unfoldable pub get_process_id : ℕ → ℤ
get_process_id pid = to_int32 pid

unfoldable pub get_current_thread_id : ℕ → Text
get_current_thread_id thread = to_hex_addr thread

-- The thread's id can be read back from its text.
parse_hex_addr-get_current_thread_id :
    (thread : ℕ) → thread < u64_mod → parse_hex_addr (get_current_thread_id thread) ≡ ok thread
unfolding get_current_thread_id
parse_hex_addr-get_current_thread_id thread h = parse_hex_addr-to_hex_addr thread h
