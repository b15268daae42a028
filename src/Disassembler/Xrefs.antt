-- ===== src/Disassembler/Xrefs.antt =====
-- findXrefs against the linear sweep that it stands for.
use chromatic.Base.{
  ℕ, zero, suc, ◌+◌, ◌-◌, ◌<◌, ◌≡◌, ◌↔◌, ◌⊎◌, inl, inr, refl, true, false, List, [], ◌∷◌, ◌==◌, ltb,
  arith, Option, none, some, Bool-cases, Option-cases, Text, ok, ==_iff,
}
use chromatic.Hex.{to_hex_addr, parse_hex_addr}
use chromatic.Platform.{Arch, x64, arm64}
use chromatic.Disassembler.{
  Insn, XrefResult, extract_target, skip_size, min_16, xrefs_from, find_xrefs,
}

-- What cs_disasm documents: a decoded instruction has at least one byte.
abbrev pub Decodes : ((ℕ → ℕ) → ℕ → ℕ → Option Insn) → Type 0
Decodes disasm =
    (memory : ℕ → ℕ) (a limit : ℕ) (i : Insn) → disasm memory a limit ≡ some i → 0 < i.size

unfoldable pub Reported : XrefResult → List XrefResult → Type 0
Reported x [] = ⊥
Reported x (y ∷ ys) = (y ≡ x) ⊎ Reported x ys

skip_size_pos : (a : Arch) → 0 < skip_size a
unfolding skip_size
skip_size_pos x64 = omega arith
skip_size_pos arm64 = omega arith

module _ (disasm : (ℕ → ℕ) → ℕ → ℕ → Option Insn) (arch : Arch) (memory : ℕ → ℕ) where
  abbrev decode : ℕ → ℕ → ℕ → Option Insn
  decode start size o = disasm memory (start + o) (min_16 (size - o))

  -- The sweep from one offset reaches another: it goes on behind each decoded instruction, and
  -- skips bytes that do not decode.
  pub data Sweeps (start size : ℕ) : ℕ → ℕ → Type 0 where
    here : {o p : ℕ} → p ≡ o → Sweeps start size o p
    skipped :
        {o p : ℕ}
        → o < size
        → decode start size o ≡ none
        → Sweeps start size (o + skip_size arch) p
        → Sweeps start size o p
    decoded :
        {o p : ℕ} (i : Insn)
        → o < size
        → decode start size o ≡ some i
        → Sweeps start size (o + i.size) p
        → Sweeps start size o p

  abbrev run : ℕ → ℕ → ℕ → ℕ → ℕ → List XrefResult
  run fuel start target size o = xrefs_from disasm arch memory fuel start target size o

  abbrev xref_of : Insn → XrefResult
  xref_of i = record {
    address = to_hex_addr i.address;
    type = (extract_target arch i).1;
    size = i.size;
  }

  complete :
      (fuel start target size o p : ℕ) (i : Insn)
      → Decodes disasm
      → size < o + fuel
      → Sweeps start size o p
      → p < size
      → decode start size p ≡ some i
      → (extract_target arch i).0 ≡ target
      → Reported (xref_of i) (run fuel start target size o)
  unfolding xrefs_from Reported
  complete zero start target size o p i law enough (here z) lt e hit = absurd (omega arith)
  complete zero start target size o p i law enough (skipped l n s) lt e hit = absurd (omega arith)
  complete zero start target size o p i law enough (decoded d l n s) lt e hit = absurd (omega arith)
  complete (suc fuel) start target size o p i law enough (here z) lt e hit =
      let inside : ltb o size ≡ true = ground arith in
      let e' : decode start size o ≡ some i = rw z at e in
      let same : ((extract_target arch i).0 == target) ≡ true = ground arith in
      rw (inside, xrefs_from) (rw (e', xrefs_from) (rw same (inl refl)))
  complete (suc fuel) start target size o p i law enough (skipped l n s) lt e hit =
      let inside : ltb o size ≡ true = ground arith in
      rw (inside, xrefs_from)
        (rw (n, xrefs_from)
          (complete fuel start target size (o + skip_size arch) p i law
            (omega (arith, skip_size_pos arch)) s lt e hit))
  complete (suc fuel) start target size o p i law enough (decoded d l n s) lt e hit =
      let inside : ltb o size ≡ true = ground arith in
      let pos = law memory (start + o) (min_16 (size - o)) d n in
      let rest = complete fuel start target size (o + d.size) p i law (omega arith) s lt e hit in
      rw (inside, xrefs_from)
        (rw (n, xrefs_from)
          (elim (Bool-cases ((extract_target arch d).0 == target)) [
            | inl t ↦ rw t (inr rest)
            | inr t ↦ rw t rest
          ]))

  -- Where a report comes from: an instruction that the sweep decodes inside the range, whose target
  -- is the one asked for.
  abbrev pub Found : ℕ → ℕ → ℕ → ℕ → XrefResult → Type 0
  Found start target size o x =
      (p : ℕ) × (i : Insn) × Sweeps start size o p
      × (p < size)
      × (decode start size p ≡ some i)
      × ((extract_target arch i).0 ≡ target)
      × (xref_of i ≡ x)

  sound_later :
      (start target size o : ℕ) (x : XrefResult) (d : Insn)
      → o < size
      → decode start size o ≡ some d
      → Found start target size (o + d.size) x
      → Found start target size o x
  sound_later start target size o x d lt n (p, i, s, l, e, hit, same) =
      (p, i, decoded d lt n s, l, e, hit, same)

  sound_hit :
      (start target size o : ℕ) (x : XrefResult) (d : Insn)
      → o < size
      → decode start size o ≡ some d
      → ((extract_target arch d).0 == target) ≡ true
      → (xs : List XrefResult) → (Reported x xs → Found start target size (o + d.size) x)
      → Reported x (xref_of d ∷ xs)
      → Found start target size o x
  unfolding Reported
  sound_hit start target size o x d lt n t xs rest (inl e) =
      (o, d, here refl, lt, n, (==_iff _ target).0 t, e)
  sound_hit start target size o x d lt n t xs rest (inr r) =
      sound_later start target size o x d lt n (rest r)

  sound :
      (fuel start target size o : ℕ) (x : XrefResult)
      → Reported x (run fuel start target size o)
      → Found start target size o x
  unfolding xrefs_from Reported
  sound zero start target size o x r = absurd r
  sound (suc fuel) start target size o x r = elim (Bool-cases (ltb o size)) [
    | inr out ↦ absurd (rw (out, xrefs_from) at r)
    | inl inside ↦
        let r' = rw (inside, xrefs_from) at r in
        let lt : o < size = ground arith in
        elim (Option-cases (decode start size o)) [
          | inl n ↦
              let (p, i, s, l, e, hit, same) =
                sound fuel start target size (o + skip_size arch) x (rw (n, xrefs_from) at r') in
              (p, i, skipped lt n s, l, e, hit, same)
          | inr (d, n) ↦
              let r'' = rw (n, xrefs_from) at r' in
              let rest = sound fuel start target size (o + d.size) x in
              elim (Bool-cases ((extract_target arch d).0 == target)) [
                | inl t ↦
                    sound_hit start target size o x d lt n t
                      (run fuel start target size (o + d.size)) rest (rw t at r'')
                | inr t ↦ sound_later start target size o x d lt n (rest (rw t at r''))
              ]
        ]
  ]

  -- Where the two texts are addresses other than 0 and the range is not empty, findXrefs returns,
  -- and reports exactly the instructions that a linear sweep of the range decodes inside it and
  -- whose target is the one asked for.
  pub Reported-find_xrefs :
      (start_text target_text : Text) (start target size : ℕ)
      → Decodes disasm
      → parse_hex_addr start_text ≡ ok start
      → parse_hex_addr target_text ≡ ok target
      → 0 < start
      → 0 < target
      → 0 < size
      → (xs : List XrefResult) × (find_xrefs disasm arch memory start_text size target_text ≡ ok xs)
        × ((x : XrefResult) → Reported x xs ↔ Found start target size 0 x)
  unfolding find_xrefs
  Reported-find_xrefs start_text target_text start target size law ps pt s_pos t_pos size_pos =
      let a : (start == 0) ≡ false = ground arith in
      let b : (target == 0) ≡ false = ground arith in
      let c : (size == 0) ≡ false = ground arith in
      (
        run (size + 1) start target size 0,
        rw (ps, pt, a, b, c),
        λ x. (sound (size + 1) start target size 0 x, λ f. of_found x f),
      )
    where
      of_found :
          (x : XrefResult)
          → Found start target size 0 x
          → Reported x (run (size + 1) start target size 0)
      of_found x (p, i, s, l, e, hit, same) =
          rw same at (complete (size + 1) start target size 0 p i law (omega arith) s l e hit)
