-- ===== src/Scan.antt =====
-- The pattern scanner of src/core/bindings/native_memory.cc: parsePattern, bmhScan and scanMemory.
-- Memory is a function from addresses to bytes; a scan reads it and changes nothing.
pub mod Shift
pub mod Spec
pub mod Horspool
pub mod Pattern
use chromatic.Base.{
  ℕ, zero, suc, ◌+◌, ◌-◌, ◌*◌, ◌/◌, ◌%◌, ◌^◌, ◌≡◌, refl, Bool, true, false, not, ◌&&◌, ◌||◌, List,
  [], ◌∷◌, ◌++◌, ltb, leb, ◌==◌, if◌then◌else◌, Text, codes, Result, ok, err, and_then, length,
  get_or, text_eq,
}
use chromatic.Hex.{is_space, parse_byte, to_hex_addr, parse_hex_addr}

pub record ParsedPattern : Type 0 where
  pub bytes : List ℕ
  -- True where the byte must match, false at a wildcard.
  pub mask : List Bool

pub record ScanMatch : Type 0 where
  pub address : Text
  pub size : ℕ

-- All words of a text; `word` holds the characters of the word being read.
unfoldable pub words : Text → Text → List Text
unfolding is_space
words [] [] = []
words [] (c ∷ word) = (c ∷ word) ∷ []
words (c ∷ s) word =
    let closed = words s [] in
    let open_word = words s (word ++ c ∷ []) in
    if is_space c then (elim word [ [] ↦ closed | d ∷ w ↦ (d ∷ w) ∷ closed ]) else open_word

add_token : Text → ParsedPattern → Result ParsedPattern
add_token token p =
    if text_eq token (codes "??") || text_eq token (codes "?")
    then ok (record { bytes = p.bytes ++ 0 ∷ []; mask = p.mask ++ false ∷ [] })
    else and_then (parse_byte token)
        (λ b. ok (record { bytes = p.bytes ++ b ∷ []; mask = p.mask ++ true ∷ [] }))

add_tokens : List Text → ParsedPattern → Result ParsedPattern
unfolding add_token
add_tokens [] p = ok p
add_tokens (t ∷ ts) p = and_then (add_token t p) (λ q. add_tokens ts q)

unfoldable pub parse_pattern : Text → Result ParsedPattern
unfolding words add_tokens
parse_pattern pattern = add_tokens (words pattern []) (record { bytes = []; mask = [] })

-- The bad-character table `size_t shift[256]`.
abbrev pub Table : Type 0
Table = ℕ → ℕ

-- `if (shift[c] > s) shift[c] = s` at one byte, and for every byte.
lower_at : ℕ → ℕ → Table → Table
lower_at b s shift c = if (c == b) && ltb s (shift c) then s else shift c

lower_all : ℕ → Table → Table
lower_all s shift c = if ltb s (shift c) then s else shift c

-- One round of the loop over the positions before the last.
fill_step : ParsedPattern → ℕ → ℕ → Table → Table
unfolding lower_at lower_all
fill_step pat m j shift =
    if not (get_or pat.mask j false)
    then lower_all (m - 1 - j) shift
    else lower_at (get_or pat.bytes j 0) (m - 1 - j) shift

-- `for (j = 0; j < n; j++)`, the last round outermost.
fill : ParsedPattern → ℕ → ℕ → Table → Table
unfolding fill_step
fill pat m zero shift = shift
fill pat m (suc n) shift = fill_step pat m n (fill pat m n shift)

unfoldable pub shift_table : ParsedPattern → ℕ → Table
unfolding fill lower_all
shift_table pat m =
    let filled = fill pat m (m - 1) (λ _. m) in
    if not (get_or pat.mask (m - 1) false) then lower_all 1 filled else filled

-- The comparison from right to left: position `j - 1` of the pattern first.
unfoldable pub compare_from : ParsedPattern → (ℕ → ℕ) → ℕ → ℕ → Bool
compare_from pat haystack i zero = true
compare_from pat haystack i (suc j) =
    let rest = compare_from pat haystack i j in
    if get_or pat.mask j false && not (haystack (i + j) == get_or pat.bytes j 0)
    then false
    else rest

-- The search loop; it gives the offsets of the matches. The offset grows in each round, so
-- `haystack_len + 1` rounds are enough.
unfoldable pub search_from : ℕ → Table → ParsedPattern → (ℕ → ℕ) → ℕ → ℕ → ℕ → List ℕ
unfolding compare_from
search_from zero shift pat haystack len m i = []
search_from (suc fuel) shift pat haystack len m i =
    let found = i ∷ search_from fuel shift pat haystack len m (i + 1) in
    let moved = search_from fuel shift pat haystack len m (i + shift (haystack (i + m - 1))) in
    if leb (i + m) len then (if compare_from pat haystack i m then found else moved) else []

unfoldable pub bmh_offsets : ParsedPattern → (ℕ → ℕ) → ℕ → List ℕ
bmh_offsets pat haystack len =
    let m = length pat.bytes in
    if (m == 0) || ltb len m
    then []
    else search_from (len + 1) (shift_table pat m) pat haystack len m 0

to_matches : ℕ → ℕ → List ℕ → List ScanMatch
to_matches base m [] = []
to_matches base m (i ∷ is) =
    record { address = to_hex_addr (base + i); size = m } ∷ to_matches base m is

-- bmhScan at the address `base` of a memory.
unfoldable pub bmh_scan : (ℕ → ℕ) → ℕ → ℕ → ParsedPattern → List ScanMatch
unfolding to_matches
bmh_scan memory base len pat =
    to_matches base (length pat.bytes) (bmh_offsets pat (λ i. memory (base + i)) len)

-- NativeMemory::scanMemory. A negative `int size` becomes a huge `size_t`; here it is not negative.
unfoldable pub scan_memory : (ℕ → ℕ) → Text → ℕ → Text → Result (List ScanMatch)
scan_memory memory address size pattern =
    and_then (parse_hex_addr address)
      (λ addr. and_then (parse_pattern pattern) (λ pat. ok (bmh_scan memory addr size pat)))
