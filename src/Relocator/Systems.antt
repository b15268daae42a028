-- ===== src/Relocator/Systems.antt =====
-- The Windows and the macOS branch of makeWritableAndPatch in code_relocator.cc, and what the branches
-- leave of the protection of the patched pages. VirtualProtect and vm_protect are parameters.
use mathlib.Core.Path.{fun_ext}
use Prim.Native.Nat.{bit_and}
use chromatic.Base.{
  ℕ, ◌+◌, ◌-◌, ◌≡◌, refl, ap, Bool, if◌then◌else◌, List, length, Option, none, some, ◌⊎◌, inl, inr,
  Text, codes, ◌++◌, runtime_error, done, throw, M, bind_outcome, Bool-cases,
}
use chromatic.Hex.{u64_mod}
use chromatic.Ffi.Decimal.{to_string_signed}
use chromatic.Relocator.{write_bytes, prot_rw, prot_rx, protect, make_writable_and_patch}
use chromatic.Relocator.Host.{Tools, Process}

-- `virtual_protect start size prot` gives the new protections and the old one of the first page, or
-- nothing where it fails. Its result is not looked at; `unset` is what `oldProt` holds then.
abbrev pub VirtualProtect : Type 0
VirtualProtect = ℕ → ℕ → ℕ → (ℕ → ℕ) → Option ((ℕ → ℕ) × ℕ)

try_virtual_protect : VirtualProtect → ℕ → ℕ → ℕ → ℕ → (ℕ → ℕ) → (ℕ → ℕ) × ℕ
try_virtual_protect virtual_protect unset addr len prot p = elim (virtual_protect addr len prot p) [
  | none ↦ (p, unset)
  | some r ↦ r
]

-- PAGE_EXECUTE_READWRITE is 0x40.
unfoldable pub make_writable_and_patch_windows :
    VirtualProtect → ℕ → ℕ → List ℕ → M Process (Unit {0})
unfolding try_virtual_protect
make_writable_and_patch_windows virtual_protect unset addr bytes s =
    let n = length bytes in
    let first = try_virtual_protect virtual_protect unset addr n 0x40 s.protections in
    let last = try_virtual_protect virtual_protect first.1 addr n first.1 first.0 in
    done (record s { memory = write_bytes addr bytes s.memory; protections = last.0 }) tt

-- `vm_protect start size prot` gives the new protections, or a code of the kernel as a 64-bit number.
abbrev pub VmProtect : Type 0
VmProtect = ℕ → ℕ → ℕ → (ℕ → ℕ) → ((ℕ → ℕ) ⊎ ℕ)

vm_protect_or_throw : VmProtect → ℕ → ℕ → ℕ → Text → M Process (Unit {0})
vm_protect_or_throw vm_protect start size prot message s =
    elim (vm_protect start size prot s.protections) [
      | inl p ↦ done (record s { protections = p }) tt
      | inr kr ↦ throw s (runtime_error (message ++ to_string_signed kr))
    ]

-- VM_PROT_READ | VM_PROT_WRITE | VM_PROT_COPY is 0x13.
unfoldable pub make_writable_and_patch_darwin : VmProtect → ℕ → ℕ → List ℕ → M Process (Unit {0})
unfolding vm_protect_or_throw
make_writable_and_patch_darwin vm_protect page_size addr bytes s =
    let page_start = bit_and addr (u64_mod - page_size) in
    let total_size = addr + length bytes - page_start in
    bind_outcome
      (vm_protect_or_throw vm_protect page_start total_size 0x13
        (codes "vm_protect(RW|COPY) failed: ") s)
      λ _ s₁.
        vm_protect_or_throw vm_protect page_start total_size prot_rx
          (codes "vm_protect(RX) failed: ")
          (record s₁ { memory = write_bytes addr bytes s₁.memory })

-- `on_pages start size x`: `x` lies on a page with a byte of the region.
module _ (on_pages : ℕ → ℕ → ℕ → Bool) where
  -- The protections `p` with those of the region's pages set.
  abbrev pub with_pages : ℕ → ℕ → ℕ → (ℕ → ℕ) → ℕ → ℕ
  with_pages start size prot p x = if on_pages start size x then prot else p x

  -- The documented effect of VirtualProtect, vm_protect and mprotect where they succeed.
  abbrev pub VirtualSets : VirtualProtect → Type 0
  VirtualSets virtual_protect =
      (start size prot : ℕ) (p : ℕ → ℕ)
      → virtual_protect start size prot p ≡ some (with_pages start size prot p, p start)

  abbrev pub VmSets : VmProtect → Type 0
  VmSets vm_protect =
      (start size prot : ℕ) (p : ℕ → ℕ)
      → vm_protect start size prot p ≡ inl (with_pages start size prot p)

  abbrev pub Sets : Tools → Type 0
  Sets t =
      (start size prot : ℕ) (p : ℕ → ℕ)
      → t.mprotect start size prot p ≡ some (with_pages start size prot p)

  -- Setting pages twice leaves what was set last.
  with_pages_twice :
      (start size a b : ℕ) (p : ℕ → ℕ)
      → with_pages start size b (with_pages start size a p) ≡ with_pages start size b p
  with_pages_twice start size a b p =
      fun_ext λ x. elim (Bool-cases (on_pages start size x)) [
        | inl on ↦ rw on refl
        | inr off ↦ rw off refl
      ]

  patch_windows-protections :
      (virtual_protect : VirtualProtect) (unset addr : ℕ) (bytes : List ℕ) (s : Process)
      → VirtualSets virtual_protect
      → make_writable_and_patch_windows virtual_protect unset addr bytes s
        ≡ done
            (record s {
              memory = write_bytes addr bytes s.memory;
              protections = with_pages addr (length bytes) (s.protections addr) s.protections;
            })
            tt
  unfolding make_writable_and_patch_windows try_virtual_protect
  patch_windows-protections virtual_protect unset addr bytes s win =
      let n = length bytes in
      let p = s.protections in
      let first = win addr n 0x40 p in
      let last = win addr n (p addr) (with_pages addr n 0x40 p) in
      rw (make_writable_and_patch_windows, try_virtual_protect, first, last)
        (ap (λ x. done (record s { memory = write_bytes addr bytes s.memory; protections = x }) tt)
          (with_pages_twice addr n 0x40 (p addr) p))

  patch_darwin-protections :
      (vm_protect : VmProtect) (page_size addr : ℕ) (bytes : List ℕ) (s : Process)
      → VmSets vm_protect
      → make_writable_and_patch_darwin vm_protect page_size addr bytes s
        ≡ done
            (record s {
              memory = write_bytes addr bytes s.memory;
              protections =
                  with_pages
                    (bit_and addr (u64_mod - page_size))
                    (addr + length bytes - bit_and addr (u64_mod - page_size))
                    prot_rx
                    s.protections;
            })
            tt
  unfolding make_writable_and_patch_darwin vm_protect_or_throw
  patch_darwin-protections vm_protect page_size addr bytes s sets =
      let start = bit_and addr (u64_mod - page_size) in
      let n = addr + length bytes - start in
      let p = s.protections in
      rw
        (
          make_writable_and_patch_darwin,
          vm_protect_or_throw,
          sets start n 0x13 p,
          sets start n prot_rx (with_pages start n 0x13 p),
        )
        (ap (λ x. done (record s { memory = write_bytes addr bytes s.memory; protections = x }) tt)
          (with_pages_twice start n 0x13 prot_rx p))

  patch_linux-protections :
      (t : Tools) (addr : ℕ) (bytes : List ℕ) (s : Process)
      → Sets t
      → make_writable_and_patch t addr bytes s
        ≡ done
            (record s {
              memory = write_bytes addr bytes s.memory;
              protections =
                  with_pages
                    (bit_and addr (u64_mod - t.page_size))
                    (addr + length bytes - bit_and addr (u64_mod - t.page_size))
                    prot_rx
                    s.protections;
            })
            tt
  unfolding make_writable_and_patch protect
  patch_linux-protections t addr bytes s sets =
      let start = bit_and addr (u64_mod - t.page_size) in
      let n = addr + length bytes - start in
      let p = s.protections in
      rw
        (
          make_writable_and_patch,
          protect,
          sets start n prot_rw p,
          sets start n prot_rx (with_pages start n prot_rw p),
        )
        (ap (λ x. done (record s { memory = write_bytes addr bytes s.memory; protections = x }) tt)
          (with_pages_twice start n prot_rw prot_rx p))

  -- Where the protection calls succeed as documented, a patch succeeds on every system and writes the
  -- bytes. On Linux, Android and macOS the patched pages are readable and executable afterwards,
  -- whatever they were before, and the other pages are as they were; on Windows the patched pages have
  -- the protection that the first of them had before, and the other pages are as they were.
  pub patch-protections :
      (virtual_protect : VirtualProtect) (vm_protect : VmProtect) (t : Tools) (unset addr : ℕ)
      (bytes : List ℕ) (s : Process)
      → VirtualSets virtual_protect
      → VmSets vm_protect
      → Sets t
      → let start = bit_and addr (u64_mod - t.page_size) in
        let executable = with_pages start (addr + length bytes - start) prot_rx s.protections in
        let written = write_bytes addr bytes s.memory in
        (make_writable_and_patch_darwin vm_protect t.page_size addr bytes s
          ≡ done (record s { memory = written; protections = executable }) tt)
        × (make_writable_and_patch t addr bytes s
            ≡ done (record s { memory = written; protections = executable }) tt)
        × (make_writable_and_patch_windows virtual_protect unset addr bytes s
            ≡ done
                (record s {
                  memory = written;
                  protections = with_pages addr (length bytes) (s.protections addr) s.protections;
                })
                tt)
  patch-protections virtual_protect vm_protect t unset addr bytes s win vm sets = (
    patch_darwin-protections vm_protect t.page_size addr bytes s vm,
    patch_linux-protections t addr bytes s sets,
    patch_windows-protections virtual_protect unset addr bytes s win,
  )
