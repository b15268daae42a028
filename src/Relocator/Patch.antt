-- ===== src/Relocator/Patch.antt =====
-- Patches: what is written, and writing the old bytes back.
use mathlib.Core.Path.{fun_ext}
use native.Mathlib.Nat.{pow-suc}
use chromatic.Base.{
  ℕ, zero, suc, ◌+◌, ◌-◌, ◌*◌, ◌/◌, ◌<◌, ◌^◌, ◌≡◌, refl, ap, ◌&&◌, List, [], ◌∷◌, if◌then◌else◌,
  ltb, leb, arith, length, get_or, inl, inr, Bool-cases,
}
use chromatic.Hex.{u64_mod}
use chromatic.Platform.{Arch, x64, arm64, patch_size}
use chromatic.Relocator.{le_bytes, generate_patch_bytes, write_bytes, read_bytes}

pub length-read_bytes : (m : ℕ → ℕ) (a n : ℕ) → length (read_bytes m a n) ≡ n
unfolding read_bytes
length-read_bytes m a zero = refl
length-read_bytes m a (suc n) = ap suc (length-read_bytes m (a + 1) n)

get_or-read_bytes : (m : ℕ → ℕ) (a n i : ℕ) → i < n → get_or (read_bytes m a n) i 0 ≡ m (a + i)
unfolding read_bytes
get_or-read_bytes m a zero i h = absurd (omega arith)
get_or-read_bytes m a (suc n) zero h = let z : a + 0 ≡ a = omega arith in rw z
get_or-read_bytes m a (suc n) (suc i) h =
    let z : a + suc i ≡ a + 1 + i = omega arith in
    rw z (get_or-read_bytes m (a + 1) n i (omega arith))

-- Writing back what stood under a patch of the same length undoes the patch, wherever it lies.
pub write_bytes_undo :
    (m : ℕ → ℕ) (a : ℕ) (bs : List ℕ) (n : ℕ)
    → length bs ≡ n
    → write_bytes a (read_bytes m a n) (write_bytes a bs m) ≡ m
unfolding write_bytes
write_bytes_undo m a bs n len = fun_ext λ x. rw (length-read_bytes m a n, len) (at_address x)
  where
    at_address :
        (x : ℕ)
        → (if leb a x && ltb x (a + n)
            then get_or (read_bytes m a n) (x - a) 0
            else (if leb a x && ltb x (a + n) then get_or bs (x - a) 0 else m x))
          ≡ m x
    at_address x = elim (Bool-cases (leb a x && ltb x (a + n))) [
      | inr out ↦ rw out
      | inl inside ↦
          let z : a + (x - a) ≡ x = ground arith in
          rw inside (rw (get_or-read_bytes m a n (x - a) (ground arith)) (rw z))
    ]

-- The number that little-endian bytes stand for.
unfoldable pub le_value : List ℕ → ℕ
le_value [] = 0
le_value (b ∷ bs) = b + 256 * le_value bs

le_value-le_bytes : (n x : ℕ) → x < 256 ^ n → le_value (le_bytes n x) ≡ x
unfolding le_value le_bytes
le_value-le_bytes zero x h = omega arith
le_value-le_bytes (suc n) x h =
    omega (arith, pow-suc 256 n, le_value-le_bytes n (x / 256) (omega (arith, pow-suc 256 n)))

length-le_bytes : (n x : ℕ) → length (le_bytes n x) ≡ n
unfolding le_bytes
length-le_bytes zero x = refl
length-le_bytes (suc n) x = ap suc (length-le_bytes n (x / 256))

-- Where the jump's address stands in a patch.
abbrev pub jump_offset : Arch → ℕ
jump_offset x64 = 6
jump_offset arm64 = 8

abbrev pub drop : ℕ → List ℕ → List ℕ
drop zero bs = bs
drop (suc n) [] = []
drop (suc n) (b ∷ bs) = drop n bs

-- A patch has exactly PATCH_SIZE bytes, and its last eight bytes, in little-endian order, are the
-- address that it jumps to, whatever 64-bit address that is.
generate_patch_bytes_lem :
    (arch : Arch) (target : ℕ)
    → target < u64_mod
    → (length (generate_patch_bytes arch target) ≡ patch_size arch)
      × (le_value (drop (jump_offset arch) (generate_patch_bytes arch target)) ≡ target)
unfolding generate_patch_bytes le_bytes
generate_patch_bytes_lem x64 target h = (refl, le_value-le_bytes 8 target (omega arith))
generate_patch_bytes_lem arm64 target h = (refl, le_value-le_bytes 8 target (omega arith))
