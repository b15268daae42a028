-- ===== src/Process/Modules.antt =====
-- The modules of Linux and Android against the lines they are read from.
use chromatic.Base.{
  ◌≤◌, ◌≡◌, refl, Bool, true, false, List, [], ◌∷◌, ◌++◌, Text, text_eq, text_eq→eq, none, some,
  arith, All, All-append, Bool-cases, inl, inr, ◌⊎◌,
}
use chromatic.Process.{
  MapsLine, LinuxModInfo, widen, widen_first, add_line, linux_modules, starts_with, base_name,
  is_slash,
}

-- A module with the pathname of the line, whose range holds the line's.
abbrev pub Covers : MapsLine → LinuxModInfo → Type 0
Covers l m = (m.path ≡ l.pathname) × (m.base ≤ l.start) × (l.end ≤ m.end)

abbrev pub Covered : List LinuxModInfo → MapsLine → Type 0
Covered [] l = ⊥
Covered (m ∷ ms) l = Covers l m ⊎ Covered ms l

module _ (l : MapsLine) where
  widen-Covers : (m : LinuxModInfo) → m.path ≡ l.pathname → Covers l (widen l m)
  unfolding widen
  widen-Covers m same = (same, ground arith, ground arith)

  widen_keeps : (k : MapsLine) (m : LinuxModInfo) → Covers k m → Covers k (widen l m)
  unfolding widen
  widen_keeps k m (same, below, above) = (same, ground arith, ground arith)

-- The first module with the pathname of the line is widened.
data Widened : MapsLine → List LinuxModInfo → List LinuxModInfo → Type 0 where
  here :
      {l : MapsLine} {m : LinuxModInfo} {ms : List LinuxModInfo}
      → m.path ≡ l.pathname
      → Widened l (m ∷ ms) (widen l m ∷ ms)
  later :
      {l : MapsLine} {m : LinuxModInfo} {ms ms' : List LinuxModInfo}
      → Widened l ms ms'
      → Widened l (m ∷ ms) (m ∷ ms')

Differs : Text → LinuxModInfo → Type 0
Differs path m = text_eq m.path path ≡ false

widen_first-Widened :
    (l : MapsLine) (ms : List LinuxModInfo)
    → ((widen_first l ms ≡ none) × All (Differs l.pathname) ms)
      ⊎ ((ms' : List LinuxModInfo) × (widen_first l ms ≡ some ms') × Widened l ms ms')
unfolding widen_first Differs
widen_first-Widened l [] = inl (refl, tt)
widen_first-Widened l (m ∷ ms) = elim (Bool-cases (text_eq m.path l.pathname)) [
  | inl same ↦
      inr (widen l m ∷ ms, rw (widen_first, same) refl, here (text_eq→eq m.path l.pathname same))
  | inr other ↦ elim (widen_first-Widened l ms) [
    | inl (missing, differ) ↦ inl (rw (widen_first, other, missing) refl, (other, differ))
    | inr (ms', eq, w) ↦ inr (m ∷ ms', rw (widen_first, other, eq) refl, later w)
  ]
]

Widened-Covered : {l : MapsLine} {ms ms' : List LinuxModInfo} → Widened l ms ms' → Covered ms' l
Widened-Covered (here {l} {m} same) = inl (widen-Covers l m same)
Widened-Covered (later w) = inr (Widened-Covered w)

Widened-keeps :
    {l : MapsLine} {ms ms' : List LinuxModInfo}
    → Widened l ms ms'
    → (k : MapsLine) → Covered ms k
    → Covered ms' k
Widened-keeps (here {l} {m} same) k (inl c) = inl (widen_keeps l k m c)
Widened-keeps (here {l} {m} same) k (inr c) = inr c
Widened-keeps (later w) k (inl c) = inl c
Widened-keeps (later w) k (inr c) = inr (Widened-keeps w k c)

Covered-append : (ms ns : List LinuxModInfo) (k : MapsLine) → Covered ms k → Covered (ms ++ ns) k
Covered-append [] ns k c = elim c [ ]
Covered-append (m ∷ ms) ns k (inl c) = inl c
Covered-append (m ∷ ms) ns k (inr c) = inr (Covered-append ms ns k c)

Covered-last :
    (ms : List LinuxModInfo) (m : LinuxModInfo) (k : MapsLine)
    → Covers k m
    → Covered (ms ++ m ∷ []) k
Covered-last [] m k c = inl c
Covered-last (n ∷ ms) m k c = inr (Covered-last ms m k c)

-- No two modules have the same path.
abbrev pub Distinct : List LinuxModInfo → Type 0
Distinct [] = Unit {0}
Distinct (m ∷ ms) = All (λ n. text_eq m.path n.path ≡ false) ms × Distinct ms

Widened-differs :
    {l : MapsLine} {ms ms' : List LinuxModInfo}
    → Widened l ms ms'
    → (path : Text) → All (λ n. text_eq path n.path ≡ false) ms
    → All (λ n. text_eq path n.path ≡ false) ms'
unfolding widen
Widened-differs (here {l} {m} same) path (d, ds) = (d, ds)
Widened-differs (later w) path (d, ds) = (d, Widened-differs w path ds)

Widened-Distinct :
    {l : MapsLine} {ms ms' : List LinuxModInfo} → Widened l ms ms' → Distinct ms → Distinct ms'
unfolding widen
Widened-Distinct (here {l} {m} same) (d, ds) = (d, ds)
Widened-Distinct (later {l} {m} w) (d, ds) = (Widened-differs w m.path d, Widened-Distinct w ds)

Distinct-last :
    (ms : List LinuxModInfo) (m : LinuxModInfo)
    → All (Differs m.path) ms
    → Distinct ms
    → Distinct (ms ++ m ∷ [])
unfolding Differs
Distinct-last [] m f d = (tt, tt)
Distinct-last (n ∷ ms) m (f, fs) (d, ds) = (
  All-append (λ k. text_eq n.path k.path ≡ false) ms (m ∷ []) d (f, tt),
  Distinct-last ms m fs ds,
)

-- What the list of modules satisfies once the lines have been read.
Read : List LinuxModInfo → List LinuxModInfo → MapsLine → Type 0
Read ms ms' l =
    (Distinct ms → Distinct ms')
    × ((k : MapsLine) → Covered ms k → Covered ms' k)
    × (starts_with b'/' l.pathname ≡ true → Covered ms' l)

-- A line with no file, or none that is known, leaves the list alone.
kept : (l : MapsLine) (ms : List LinuxModInfo) → starts_with b'/' l.pathname ≡ false → Read ms ms l
unfolding Read
kept l ms neither = ((λ d. d), (λ k c. c), λ file. absurd (not_both neither file))
  where
    not_both : {b : Bool} → b ≡ false → b ≡ true → ⊥
    not_both {b} neither file = cc

module _ (l : MapsLine) (ms : List LinuxModInfo) where
  Read-Widened : (ms' : List LinuxModInfo) → Widened l ms ms' → Read ms ms' l
  unfolding Read
  Read-Widened ms' w = (Widened-Distinct w, Widened-keeps w, λ yes. Widened-Covered w)

  Read-new : (m : LinuxModInfo) → Covers l m → All (Differs m.path) ms → Read ms (ms ++ m ∷ []) l
  unfolding Read
  Read-new m c f =
      (Distinct-last ms m f, (λ k. Covered-append ms (m ∷ []) k), λ yes. Covered-last ms m l c)

  add_line-Read : Read ms (add_line l ms) l
  unfolding add_line
  add_line-Read = elim (Bool-cases (starts_with b'/' l.pathname)) [
    | inl file ↦ elim (widen_first-Widened l ms) [
      | inl (missing, differ) ↦
          let m : LinuxModInfo = (record {
            name = base_name is_slash l.pathname;
            path = l.pathname;
            base = l.start;
            end = l.end;
          }) in
          let added : add_line l ms ≡ ms ++ m ∷ [] = rw (add_line, file, missing, file) refl in
          rw added (Read-new m (refl, omega arith, omega arith) differ)
      | inr (ms', eq, w) ↦
          (let same : add_line l ms ≡ ms' = rw (add_line, file, eq) refl in
            rw same (Read-Widened ms' w))
    ]
    | inr other ↦ elim (Bool-cases (starts_with b'[' l.pathname)) [
      | inl special ↦ elim (widen_first-Widened l ms) [
        | inl (missing, differ) ↦
            (let same : add_line l ms ≡ ms = rw (add_line, other, special, missing, other) refl in
              rw same (kept l ms other))
        | inr (ms', eq, w) ↦
            (let same : add_line l ms ≡ ms' = rw (add_line, other, special, eq) refl in
              rw same (Read-Widened ms' w))
      ]
      | inr neither ↦
          (let same : add_line l ms ≡ ms = rw (add_line, other, neither) refl in
            rw same (kept l ms other))
    ]
  ]

linux_modules_keeps :
    (ls : List MapsLine) (ms : List LinuxModInfo)
    → Distinct ms
    → Distinct (linux_modules ls ms)
      × ((k : MapsLine) → Covered ms k → Covered (linux_modules ls ms) k)
      × All (λ l. starts_with b'/' l.pathname ≡ true → Covered (linux_modules ls ms) l) ls
unfolding linux_modules Read
linux_modules_keeps [] ms d = (d, (λ k c. c), tt)
linux_modules_keeps (l ∷ ls) ms d =
    let (distinct, keeps, covered) = add_line-Read l ms in
    let (distinct', keeps', covered') = linux_modules_keeps ls (add_line l ms) (distinct d) in
    (distinct', (λ k c. keeps' k (keeps k c)), ((λ file. keeps' l (covered file)), covered'))

-- The modules that enumerateModules finds in the lines of /proc/self/maps have pairwise different paths,
-- and for every line with a file's pathname there is one with this path whose range, from base to end,
-- holds the range of the line.
pub linux_modules-Covered :
    (ls : List MapsLine)
    → Distinct (linux_modules ls [])
      × All (λ l. starts_with b'/' l.pathname ≡ true → Covered (linux_modules ls []) l) ls
linux_modules-Covered ls = let r = linux_modules_keeps ls [] tt in (r.0, r.2)
