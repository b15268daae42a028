-- ===== src/Memory/Protection.antt =====
-- Protections as texts.
use Prim.Native.Nat.{bit_or}
use chromatic.Base.{
  ℕ, ◌<◌, ◌≡◌, refl, Bool, true, false, ◌==◌, if◌then◌else◌, Text, passes_below, passes_below_at,
  ==_iff, [], ◌∷◌,
}
use chromatic.Memory.{has_char, prot_string_to_flags, flags_to_prot_string}

flags_table : passes_below (λ f. prot_string_to_flags (flags_to_prot_string f) == f) 8 ≡ true
unfolding passes_below prot_string_to_flags flags_to_prot_string
flags_table = refl

-- On POSIX systems the flags of a protection are read back from its text, and a text of flags shows
-- r, w and x exactly where the text that the flags were read from has these letters, whatever it has
-- besides and in whatever order.
prot_string_to_flags_lem :
    (f : ℕ) (s : Text)
    → f < 8
    → (prot_string_to_flags (flags_to_prot_string f) ≡ f)
      × (flags_to_prot_string (prot_string_to_flags s)
          ≡ (if has_char b'r' s then b'r' else b'-')
            ∷ (if has_char b'w' s then b'w' else b'-')
            ∷ (if has_char b'x' s then b'x' else b'-')
            ∷ [])
unfolding prot_string_to_flags flags_to_prot_string
prot_string_to_flags_lem f s h = (
  (==_iff _ f).0 (passes_below_at _ f 8 h flags_table),
  of_letters (has_char b'r' s) (has_char b'w' s) (has_char b'x' s),
)
  where
    of_letters :
        (r w x : Bool)
        → flags_to_prot_string (
            let r' = if r then bit_or 0 1 else 0 in
            let w' = if w then bit_or r' 2 else r' in if x then bit_or w' 4 else w')
          ≡ (if r then b'r' else b'-')
            ∷ (if w then b'w' else b'-')
            ∷ (if x then b'x' else b'-')
            ∷ []
    of_letters true true true = refl
    of_letters true true false = refl
    of_letters true false true = refl
    of_letters true false false = refl
    of_letters false true true = refl
    of_letters false true false = refl
    of_letters false false true = refl
    of_letters false false false = refl
