-- ===== src/Process.antt =====
-- src/core/bindings/native_process.cc: the modules, memory ranges and exports of the process. What the
-- systems report is a parameter: on Linux and Android the lines of /proc/self/maps by their fields.
pub mod Loaded
pub mod Ranges
pub mod Symbols
pub mod Modules
pub mod Identity
use chromatic.Base.{
  ℕ, zero, suc, ◌+◌, ◌-◌, ◌%◌, ◌≡◌, Bool, true, false, not, ◌&&◌, ◌||◌, List, [], ◌∷◌, ◌++◌, ◌==◌,
  if◌then◌else◌, ltb, Text, codes, text_eq, Option, none, some, map, Result, ok, err, and_then,
}
use chromatic.Base.Signed.{ℤ, pos, to_int32}
use chromatic.Hex.{u64_mod, to_hex_addr, parse_hex_addr}
use chromatic.Platform.{Os, linux, android, darwin, windows, Arch, x64, arm64}
use chromatic.Memory.{has_char}

unfoldable pub get_architecture : Arch → Text
get_architecture arm64 = codes "arm64"
get_architecture x64 = codes "x64"

unfoldable pub get_platform : Os → Text
get_platform windows = codes "windows"
get_platform android = codes "android"
get_platform linux = codes "linux"
get_platform darwin = codes "darwin"

pub record ModuleInfo : Type 0 where
  pub name : Text
  pub base : Text
  pub size : ℤ
  pub path : Text

pub record RangeInfo : Type 0 where
  pub base : Text
  pub size : ℤ
  pub protection : Text
  pub file_path : Text

pub record ExportInfo : Type 0 where
  pub type : Text
  pub name : Text
  pub address : Text

-- `path.substr(path.find_last_of(separators) + 1)`, and the whole path where there is none.
any_char : (ℕ → Bool) → Text → Bool
any_char is_separator [] = false
any_char is_separator (c ∷ s) = is_separator c || any_char is_separator s

unfoldable pub base_name : (ℕ → Bool) → Text → Text
unfolding any_char
base_name is_separator [] = []
base_name is_separator (c ∷ s) =
    let rest = base_name is_separator s in
    if any_char is_separator s then rest else if is_separator c then s else c ∷ s

unfoldable pub is_slash : ℕ → Bool
is_slash c = c == b'/'

-- A line of /proc/self/maps by the fields that sscanf reads; the pathname is empty where there is none.
pub record MapsLine : Type 0 where
  pub start : ℕ
  pub end : ℕ
  pub perms : Text
  pub pathname : Text

pub record LinuxModInfo : Type 0 where
  pub name : Text
  pub path : Text
  pub base : ℕ
  pub end : ℕ

unfoldable pub starts_with : ℕ → Text → Bool
starts_with c [] = false
starts_with c (d ∷ s) = d == c

-- The module grows by the line.
unfoldable pub widen : MapsLine → LinuxModInfo → LinuxModInfo
widen l m = record m {
  base = if ltb l.start m.base then l.start else m.base;
  end = if ltb m.end l.end then l.end else m.end;
}

-- The loop over the modules: the first with the path grows; `none` where there is no such module.
unfoldable pub widen_first : MapsLine → List LinuxModInfo → Option (List LinuxModInfo)
unfolding widen
widen_first l [] = none
widen_first l (m ∷ ms) =
    let later : Option (List LinuxModInfo) = elim (widen_first l ms) [
      | none ↦ none
      | some ms' ↦ some (m ∷ ms')
    ] in
    if text_eq m.path l.pathname then some (widen l m ∷ ms) else later

unfoldable pub add_line : MapsLine → List LinuxModInfo → List LinuxModInfo
unfolding widen_first
add_line l ms =
    if starts_with b'/' l.pathname || starts_with b'[' l.pathname
    then elim (widen_first l ms) [
      | some ms' ↦ ms'
      | none ↦
          if starts_with b'/' l.pathname
          then ms
            ++ record {
              name = base_name is_slash l.pathname;
              path = l.pathname;
              base = l.start;
              end = l.end;
            }
              ∷ []
          else ms
    ]
    else ms

unfoldable pub linux_modules : List MapsLine → List LinuxModInfo → List LinuxModInfo
unfolding add_line
linux_modules [] ms = ms
linux_modules (l ∷ ls) ms = linux_modules ls (add_line l ms)

unfoldable pub module_info : LinuxModInfo → ModuleInfo
module_info m = record {
  name = m.name;
  base = to_hex_addr m.base;
  size = to_int32 ((m.end + u64_mod - m.base) % u64_mod);
  path = m.path;
}

-- NativeProcess::enumerateModules on Linux and Android.
unfoldable pub enumerate_modules : List MapsLine → List ModuleInfo
unfolding linux_modules module_info
enumerate_modules ls = map module_info (linux_modules ls [])

-- The lambda matchesProt: every letter of the request but '-' stands in the range's protection.
unfoldable pub matches_prot : Text → Text → Bool
matches_prot [] prot = true
matches_prot (c ∷ s) prot =
    if not (c == b'-') && not (has_char c prot) then false else matches_prot s prot

letter_at : ℕ → Text → ℕ → ℕ
letter_at c [] i = b'-'
letter_at c (d ∷ s) zero = if d == c then c else b'-'
letter_at c (d ∷ s) (suc i) = letter_at c s i

-- NativeProcess::enumerateRanges on Linux and Android.
unfoldable pub line_range : MapsLine → RangeInfo
unfolding letter_at
line_range l = record {
  base = to_hex_addr l.start;
  size = to_int32 ((l.end + u64_mod - l.start) % u64_mod);
  protection = letter_at b'r' l.perms 0 ∷ letter_at b'w' l.perms 1 ∷ letter_at b'x' l.perms 2 ∷ [];
  file_path = if starts_with b'/' l.pathname then l.pathname else [];
}

unfoldable pub enumerate_ranges : Text → List MapsLine → List RangeInfo
unfolding line_range
enumerate_ranges protection [] = []
enumerate_ranges protection (l ∷ ls) =
    let rest = enumerate_ranges protection ls in
    if matches_prot protection (line_range l).protection then line_range l ∷ rest else rest

unfoldable pub find_module_by_name : List ModuleInfo → Text → Option ModuleInfo
find_module_by_name [] name = none
find_module_by_name (m ∷ ms) name =
    let later = find_module_by_name ms name in if text_eq m.name name then some m else later

-- Linux and Android: `dladdr` gives the file and the base of the object that holds an address. The
-- size is not known.
unfoldable pub find_module_by_address : (ℕ → Option (Text × ℕ)) → Text → Result (Option ModuleInfo)
find_module_by_address dladdr address = and_then (parse_hex_addr address) λ addr.
    elim (dladdr addr) [
      | none ↦ ok none
      | some (path, base) ↦ ok (
          some (record {
            name = base_name is_slash path;
            base = to_hex_addr base;
            size = pos 0;
            path = path;
          }))
    ]

-- POSIX: `dlopen` gives a handle for a loaded module, `dlsym` the address of a symbol, 0 for a null
-- pointer, in a module or, without a handle, in any.
unfoldable pub find_export_by_name : (Text → Option ℕ) → (Option ℕ → Text → ℕ) → Text → Text → Text
find_export_by_name dlopen dlsym [] export_name =
    let sym = dlsym none export_name in if sym == 0 then codes "0x0" else to_hex_addr sym
find_export_by_name dlopen dlsym (c ∷ module_name) export_name =
    let sym = dlsym (dlopen (c ∷ module_name)) export_name in
    if sym == 0 then codes "0x0" else to_hex_addr sym

-- On Linux and Android the module is opened and closed, and nothing is listed.
unfoldable pub enumerate_exports : Text → List ExportInfo
enumerate_exports module_name = []
