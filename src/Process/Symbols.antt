-- ===== src/Process/Symbols.antt =====
-- The exports of a module on macOS, from the symbol table that the load commands of its image point to.
use Prim.Native.Nat.{bit_and}
use chromatic.Base.{
  ℕ, zero, suc, ◌+◌, ◌-◌, ◌%◌, ◌==◌, Bool, not, ◌&&◌, ◌||◌, if◌then◌else◌, List, [], ◌∷◌, Option,
  none, some, Text, codes, text_eq,
}
use chromatic.Hex.{u64_mod, to_hex_addr}
use chromatic.Process.{ExportInfo, base_name, is_slash}
use chromatic.Process.Loaded.{LoadCommand, lc_segment_64, lc_symtab, other_command, Image}

-- An entry of the symbol table with its name in the string table.
pub record Nlist : Type 0 where
  pub n_type : ℕ
  pub n_value : ℕ
  pub sym_name : Text

-- The last of each command that was seen: LC_SYMTAB as (symoff, stroff, nsyms), __LINKEDIT as (vmaddr,
-- fileoff), and the vmaddr of __TEXT.
pub record Found : Type 0 where
  pub symtab : Option (ℕ × ℕ × ℕ)
  pub linkedit : Option (ℕ × ℕ)
  pub text : Option ℕ

unfoldable pub find_commands : List LoadCommand → Found → Found
find_commands [] f = f
find_commands (lc_symtab symoff stroff nsyms ∷ cs) f =
    find_commands cs (record f { symtab = some (symoff, stroff, nsyms) })
find_commands (lc_segment_64 segname vmaddr vmsize fileoff ∷ cs) f = find_commands cs (
    if text_eq segname (codes "__LINKEDIT")
    then record f { linkedit = some (vmaddr, fileoff) }
    else if text_eq segname (codes "__TEXT")
    then record f { text = some vmaddr }
    else f)
find_commands (other_command ∷ cs) f = find_commands cs f

-- `if (symName[0] == '_') symName++`.
unfoldable pub without_underscore : Text → Text
without_underscore [] = []
without_underscore (c ∷ s) = if c == b'_' then s else c ∷ s

-- N_EXT is 0x01, N_TYPE is 0x0e and N_SECT is 0x0e.
unfoldable pub is_exported : ℕ → Bool
is_exported n_type = not (bit_and n_type 0x01 == 0) && (bit_and n_type 0x0e == 0x0e)

-- The loop over `count` symbols from `i`.
unfoldable pub symbols_from : (ℕ → Nlist) → ℕ → ℕ → ℕ → List ExportInfo
unfolding is_exported without_underscore
symbols_from symbol slide zero i = []
symbols_from symbol slide (suc count) i =
    let rest = symbols_from symbol slide count (i + 1) in
    if is_exported (symbol i).n_type
    then record {
      type = codes "function";
      name = without_underscore (symbol i).sym_name;
      address = to_hex_addr (((symbol i).n_value + slide) % u64_mod);
    }
      ∷ rest
    else rest

-- `nlist syms strs i` is the symbol i of the table at `syms` with the strings at `strs`.
module _ (nlist : ℕ → ℕ → ℕ → Nlist) where
  unfoldable pub symbols_of :
      Image → Option (ℕ × ℕ × ℕ) → Option (ℕ × ℕ) → Option ℕ → List ExportInfo
  unfolding symbols_from
  symbols_of i (some (symoff, stroff, nsyms)) (some (vmaddr, fileoff)) (some text) =
      let file_off = (vmaddr + u64_mod - text + u64_mod - fileoff) % u64_mod in
      symbols_from
        (nlist ((i.header + symoff + file_off) % u64_mod)
          ((i.header + stroff + file_off) % u64_mod))
        i.slide nsyms 0
  symbols_of i none linkedit text = []
  symbols_of i (some t) none text = []
  symbols_of i (some t) (some l) none = []

  unfoldable pub image_exports : Image → List ExportInfo
  unfolding find_commands symbols_of
  image_exports i =
      let f = find_commands i.commands (record { symtab = none; linkedit = none; text = none }) in
      symbols_of i f.symtab f.linkedit f.text

  -- The loop over the images, which ends at the first with the name or the path.
  unfoldable pub exports_of_images : Text → List Image → List ExportInfo
  unfolding image_exports
  exports_of_images module_name [] = []
  exports_of_images module_name (i ∷ is) =
      let rest = exports_of_images module_name is in
      elim i.image_name [
        | none ↦ rest
        | some path ↦
            if text_eq (base_name is_slash path) module_name || text_eq path module_name
            then (if not (i.header == 0) && i.is_64 then image_exports i else [])
            else rest
      ]

  -- NativeProcess::enumerateExports on macOS: where dlopen finds the module, nothing is listed.
  unfoldable pub enumerate_exports_darwin : (Text → Option ℕ) → List Image → Text → List ExportInfo
  unfolding exports_of_images
  enumerate_exports_darwin dlopen images [] = []
  enumerate_exports_darwin dlopen images (c ∷ module_name) = elim (dlopen (c ∷ module_name)) [
    | none ↦ exports_of_images (c ∷ module_name) images
    | some handle ↦ []
  ]
