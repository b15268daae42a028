-- ===== src/Scan/Pattern.antt =====
-- The patterns that parsePattern returns.
use chromatic.Base.{
  ℕ, ◌<◌, ◌≡◌, refl, Bool, true, false, ◌||◌, List, [], ◌∷◌, ◌++◌, inl, inr, arith, Text, codes,
  Result, ok, err, and_then, length, length-append, All-append, Bool-cases, text_eq,
}
use chromatic.Hex.{parse_byte}
use chromatic.Hex.Bytes.{AreBytes, parse_byte-lt}
use chromatic.Scan.{ParsedPattern, add_token, add_tokens, words, parse_pattern}

-- The two vectors agree in length, and hold bytes.
pub record IsPattern (p : ParsedPattern) : Type 0 where
  pub aligned : length p.mask ≡ length p.bytes
  pub in_range : AreBytes p.bytes

pushed-IsPattern :
    (p : ParsedPattern) (b : ℕ) (k : Bool)
    → IsPattern p
    → b < 256
    → IsPattern (record { bytes = p.bytes ++ b ∷ []; mask = p.mask ++ k ∷ [] })
pushed-IsPattern p b k v h = record {
  aligned = omega (arith, v.aligned, length-append p.mask (k ∷ []), length-append p.bytes (b ∷ []));
  in_range = All-append _ p.bytes (b ∷ []) v.in_range (h, tt);
}

ok_IsPattern : (p q : ParsedPattern) → ok p ≡ ok q → IsPattern p → IsPattern q
ok_IsPattern p q e v = let z : p ≡ q = cc in rw z at v

add_token-IsPattern :
    (t : Text) (p q : ParsedPattern) → IsPattern p → add_token t p ≡ ok q → IsPattern q
unfolding add_token
add_token-IsPattern t p q v e =
    elim (Bool-cases (text_eq t (codes "??") || text_eq t (codes "?"))) [
      | inl wild ↦ ok_IsPattern _ q (rw wild at e) (pushed-IsPattern p 0 false v (omega arith))
      | inr byte ↦ of_byte (parse_byte t) refl (rw byte at e)
    ]
  where
    of_byte :
        (r : Result ℕ)
        → parse_byte t ≡ r
        → and_then r (λ b. ok (record { bytes = p.bytes ++ b ∷ []; mask = p.mask ++ true ∷ [] }))
          ≡ ok q
        → IsPattern q
    of_byte (ok b) h e = ok_IsPattern _ q e (pushed-IsPattern p b true v (parse_byte-lt t h))
    of_byte (err x) h e = cc

add_tokens-IsPattern :
    (ts : List Text) (p q : ParsedPattern) → IsPattern p → add_tokens ts p ≡ ok q → IsPattern q
unfolding add_tokens
add_tokens-IsPattern [] p q v e = ok_IsPattern p q e v
add_tokens-IsPattern (t ∷ ts) p q v e =
    after (add_token t p) refl e (λ p' v' h. add_tokens-IsPattern ts p' q v' h)
  where
    after :
        (r : Result ParsedPattern)
        → add_token t p ≡ r
        → and_then r (λ p'. add_tokens ts p') ≡ ok q
        → ((p' : ParsedPattern) → IsPattern p' → add_tokens ts p' ≡ ok q → IsPattern q)
        → IsPattern q
    after (ok p') h e k = k p' (add_token-IsPattern t p p' v h) e
    after (err x) h e k = cc

-- Whatever the text, a pattern that parsePattern accepts has as many mask bits as bytes, and its
-- bytes are below 256, so that the shift table is indexed within its 256 entries.
parse_pattern-IsPattern : (s : Text) (p : ParsedPattern) → parse_pattern s ≡ ok p → IsPattern p
unfolding parse_pattern
parse_pattern-IsPattern s p e =
    add_tokens-IsPattern (words s []) (record { bytes = []; mask = [] }) p (omega arith) e
