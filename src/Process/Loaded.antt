-- ===== src/Process/Loaded.antt =====
-- The modules and the exports as Windows and macOS list them. The answers of the system's functions are
-- parameters: the array that EnumProcessModules fills, the images that dyld has loaded with their load
-- commands, and the entries of a symbol table.
use chromatic.Base.{
  ℕ, zero, suc, ◌+◌, ◌/◌, ◌%◌, ◌==◌, Bool, ◌&&◌, ◌||◌, if◌then◌else◌, ltb, leb, List, [], ◌∷◌,
  Option, none, some, Text, codes, Result, ok, and_then,
}
use chromatic.Base.Signed.{to_int32}
use chromatic.Hex.{u64_mod, to_hex_addr, parse_hex_addr}
use chromatic.Process.{ModuleInfo, ExportInfo, base_name, is_slash}

unfoldable pub is_slash_or_backslash : ℕ → Bool
is_slash_or_backslash c = (c == 92) || (c == b'/')

-- What GetModuleInformation and GetModuleFileNameExA say of a module.
pub record ModInfo : Type 0 where
  pub base_of_dll : ℕ
  pub size_of_image : ℕ
  pub full_path : Text

unfoldable pub windows_info : ModInfo → ModuleInfo
windows_info i = record {
  name = base_name is_slash_or_backslash i.full_path;
  base = to_hex_addr i.base_of_dll;
  size = to_int32 i.size_of_image;
  path = i.full_path;
}

-- The loop over `count` entries of the array from `i`; a module that either function fails on is left out.
unfoldable pub windows_from : (ℕ → Option ModInfo) → (ℕ → ℕ) → ℕ → ℕ → List ModuleInfo
unfolding windows_info
windows_from info h_mods zero i = []
windows_from info h_mods (suc count) i =
    let rest = windows_from info h_mods count (i + 1) in
    elim (info (h_mods i)) [ none ↦ rest | some m ↦ windows_info m ∷ rest ]

-- NativeProcess::enumerateModules on Windows: EnumProcessModules gives the array and cbNeeded.
unfoldable pub enumerate_modules_windows :
    (ℕ → Option ModInfo) → Option ((ℕ → ℕ) × ℕ) → List ModuleInfo
unfolding windows_from
enumerate_modules_windows info none = []
enumerate_modules_windows info (some (h_mods, cb_needed)) =
    windows_from info h_mods (cb_needed / 8) 0

-- NativeProcess::findModuleByAddress on Windows; `module_of` is GetModuleHandleExA.
unfoldable pub find_module_by_address_windows :
    (ℕ → Option ℕ) → (ℕ → Option ModInfo) → Text → Result (Option ModuleInfo)
unfolding windows_info
find_module_by_address_windows module_of info address = and_then (parse_hex_addr address) λ addr.
    elim (module_of addr) [
      | none ↦ ok none
      | some h_mod ↦ elim (info h_mod) [ none ↦ ok none | some m ↦ ok (some (windows_info m)) ]
    ]

-- The first module of the array that has the symbol; 0 is a null pointer.
unfoldable pub first_export : (ℕ → Text → ℕ) → (ℕ → ℕ) → ℕ → ℕ → Text → Text
first_export get_proc_address h_mods zero i export_name = codes "0x0"
first_export get_proc_address h_mods (suc count) i export_name =
    let rest = first_export get_proc_address h_mods count (i + 1) export_name in
    let proc = get_proc_address (h_mods i) export_name in
    if proc == 0 then rest else to_hex_addr proc

-- NativeProcess::findExportByName on Windows; `module_handle` is GetModuleHandleA.
unfoldable pub find_export_by_name_windows :
    Option ((ℕ → ℕ) × ℕ) → (Text → Option ℕ) → (ℕ → Text → ℕ) → Text → Text → Text
unfolding first_export
find_export_by_name_windows none module_handle get_proc_address [] export_name = codes "0x0"
find_export_by_name_windows (some (h_mods, cb_needed)) module_handle get_proc_address []
      export_name =
    first_export get_proc_address h_mods (cb_needed / 8) 0 export_name
find_export_by_name_windows mods module_handle get_proc_address (c ∷ module_name) export_name =
    elim (module_handle (c ∷ module_name)) [
      | none ↦ codes "0x0"
      | some h_mod ↦
          let proc = get_proc_address h_mod export_name in
          if proc == 0 then codes "0x0" else to_hex_addr proc
    ]

-- The export directory of a module, by its tables.
pub record ExportDirectory : Type 0 where
  pub number_of_names : ℕ
  pub name_at : ℕ → Text
  pub function_at : ℕ → ℕ
  pub ordinal_at : ℕ → ℕ

unfoldable pub exports_from : ℕ → ExportDirectory → ℕ → ℕ → List ExportInfo
exports_from h_mod dir zero i = []
exports_from h_mod dir (suc count) i =
    let rest = exports_from h_mod dir count (i + 1) in
    record {
      type = codes "function";
      name = dir.name_at i;
      address = to_hex_addr ((h_mod + dir.function_at (dir.ordinal_at i)) % u64_mod);
    }
    ∷ rest

-- NativeProcess::enumerateExports on Windows. `directory` is none where the headers are not those of a
-- module or it exports nothing. The empty name stands for the program itself.
unfoldable pub enumerate_exports_windows :
    (Text → Option ℕ) → (ℕ → Option ExportDirectory) → Text → List ExportInfo
unfolding exports_from
enumerate_exports_windows module_handle directory module_name = elim (module_handle module_name) [
  | none ↦ []
  | some h_mod ↦ elim (directory h_mod) [
    | none ↦ []
    | some dir ↦ exports_from h_mod dir dir.number_of_names 0
  ]
]

pub data LoadCommand : Type 0 where
  lc_segment_64 : Text → ℕ → ℕ → ℕ → LoadCommand
  lc_symtab : ℕ → ℕ → ℕ → LoadCommand
  other_command : LoadCommand

-- An image that dyld has loaded; a header at 0 is a null pointer.
pub record Image : Type 0 where
  pub image_name : Option Text
  pub header : ℕ
  pub is_64 : Bool
  pub commands : List LoadCommand
  pub slide : ℕ

-- The loop over the load commands for the greatest end of a segment.
unfoldable pub grow_size : List LoadCommand → ℕ → ℕ
grow_size [] size = size
grow_size (lc_segment_64 name vmaddr vmsize fileoff ∷ cs) size =
    let end = (vmaddr + vmsize) % u64_mod in grow_size cs (if ltb size end then end else size)
grow_size (lc_symtab symoff stroff nsyms ∷ cs) size = grow_size cs size
grow_size (other_command ∷ cs) size = grow_size cs size

unfoldable pub image_size : Image → ℕ
unfolding grow_size
image_size i = if i.is_64 then grow_size i.commands 0 else 0

unfoldable pub image_info : Image → Text → ModuleInfo
unfolding image_size
image_info i full_path = record {
  name = base_name is_slash full_path;
  base = to_hex_addr i.header;
  size = to_int32 (image_size i);
  path = full_path;
}

-- NativeProcess::enumerateModules on macOS.
unfoldable pub enumerate_modules_darwin : List Image → List ModuleInfo
unfolding image_info
enumerate_modules_darwin [] = []
enumerate_modules_darwin (i ∷ is) =
    let rest = enumerate_modules_darwin is in
    elim i.image_name [
      | none ↦ rest
      | some full_path ↦ if i.header == 0 then rest else image_info i full_path ∷ rest
    ]

unfoldable pub path_or_empty : Option Text → Text
path_or_empty none = []
path_or_empty (some path) = path

unfoldable pub image_at : ℕ → List Image → Option ModuleInfo
unfolding image_info path_or_empty
image_at addr [] = none
image_at addr (i ∷ is) =
    let rest = image_at addr is in
    if i.header == 0
    then rest
    else if leb i.header addr && ltb addr ((i.header + image_size i) % u64_mod)
    then some (image_info i (path_or_empty i.image_name))
    else rest

-- NativeProcess::findModuleByAddress on macOS.
unfoldable pub find_module_by_address_darwin : List Image → Text → Result (Option ModuleInfo)
unfolding image_at
find_module_by_address_darwin images address =
    and_then (parse_hex_addr address) (λ addr. ok (image_at addr images))
