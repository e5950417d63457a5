-- ===== src/Task/Mappings.antt =====
-- What the mappings are after a call: go/task.go, `mapping`, `MemUnmap`, `MemReserve`.
use usercorn.Base.{length}
use usercorn.Base.{subst}
use usercorn.Base.{
  ℕ, zero, suc, ◌+◌, ◌≤◌, ◌<◌, ◌^◌, ◌≡◌, refl, ◌∙◌, sym, inl, inr, Bool, true, false, ◌||◌, List,
  [], ◌∷◌, ◌++◌, Option, none, some, All, leb, if◌then◌else◌, arith, Bool-cases, Option-cases,
}
use usercorn.Cpu.Page.{Page}
use usercorn.Cpu.Space.Parts.{within}
use usercorn.Task.{
  Task, matches, mapping, kept_part, new_parts, cut_first, unmap_round, unmap_loop, left_edge,
  right_edge, in_middle,
}

abbrev pub IsMapping : Page → Type 0
IsMapping m = m.addr + m.size < 2 ^ 64

-- Whether an address is mapped.
abbrev pub covers : List Page → ℕ → Bool
covers [] x = false
covers (m ∷ ms) x = within m.addr (m.addr + m.size) x || covers ms x

-- The mappings that a range touches.
abbrev touched : List Page → ℕ → ℕ → ℕ
touched [] a n = 0
touched (m ∷ ms) a n = if matches m a n then suc (touched ms a n) else touched ms a n

covers-append : (xs ys : List Page) (x : ℕ) → covers (xs ++ ys) x ≡ (covers xs x || covers ys x)
covers-append [] ys x = refl
covers-append (m ∷ xs) ys x = ground (arith, covers-append xs ys x)

touched-append :
    (xs ys : List Page) (a n : ℕ) → touched (xs ++ ys) a n ≡ touched xs a n + touched ys a n
touched-append [] ys a n = omega arith
touched-append (m ∷ xs) ys a n = ground (arith, touched-append xs ys a n)

All-append : (xs ys : List Page) → All IsMapping xs → All IsMapping ys → All IsMapping (xs ++ ys)
All-append [] ys h k = k
All-append (m ∷ xs) ys h k = (h.0, All-append xs ys h.1 k)

module _ (m : Page) (a n : ℕ) (h : IsMapping m) (k : a + n < 2 ^ 64) where
  kept-covers :
      (x : ℕ)
      → matches m a n ≡ true
      → within a (a + n) x ≡ false
      → (covers (kept_part m a n) x || covers (new_parts m a n) x)
        ≡ within m.addr (m.addr + m.size) x
  kept-covers x e o = ground (arith, h, k, e, o)

  kept-touched : 0 < n → touched (kept_part m a n) a n ≡ 0
  kept-touched z = ground (arith, h, k, z)

  new-touched : 0 < n → touched (new_parts m a n) a n ≡ 0
  new-touched z = ground (arith, h, k, z)

  kept-IsMapping : All IsMapping (kept_part m a n)
  kept-IsMapping = elim (Bool-cases (leb (right_edge m a n) (left_edge m a n) || in_middle m a n)) [
    | inl e ↦ rw e tt
    | inr e ↦ rw e (ground (arith, h, k, e), tt)
  ]

  new-IsMapping : All IsMapping (new_parts m a n)
  new-IsMapping = elim (Bool-cases (in_middle m a n)) [
    | inl e ↦ rw e (ground (arith, h, k, e), (ground (arith, h, k, e), tt))
    | inr e ↦ rw e tt
  ]

mapping-found :
    (ms : List Page) (a n : ℕ) (m : Page)
    → All IsMapping ms
    → mapping ms a n ≡ some m
    → IsMapping m × (matches m a n ≡ true)
unfolding mapping
mapping-found [] a n m h e = absurd (cc)
mapping-found (p ∷ ms) a n m h e = elim (Bool-cases (matches p a n)) [
  | inl hit ↦
      let same : p ≡ m = ground (arith, hit, e) in
      (subst IsMapping same h.0, subst (λ q. matches q a n ≡ true) same hit)
  | inr miss ↦ mapping-found ms a n m h.1 (ground (arith, miss, e))
]

or_swap : (a b c d : Bool) → (a || c) ≡ d → ((a || b) || c) ≡ (d || b)
or_swap a b c d e = ground (arith, e)

-- One round, where `m` is the mapping that was found.
round-covers :
    (ms : List Page) (a n : ℕ) (m : Page) (x : ℕ)
    → All IsMapping ms
    → a + n < 2 ^ 64
    → mapping ms a n ≡ some m
    → within a (a + n) x ≡ false
    → (covers (cut_first ms a n) x || covers (new_parts m a n) x) ≡ covers ms x
unfolding cut_first mapping
round-covers [] a n m x h k e o = absurd (cc)
round-covers (p ∷ ms) a n m x h k e o = elim (Bool-cases (matches p a n)) [
  | inl hit ↦
      let same : p ≡ m = ground (arith, hit, e) in
      let piece = kept-covers p a n h.0 k x hit o in
      rw (hit, sym same, covers-append (kept_part p a n) ms x)
        (or_swap (covers (kept_part p a n) x) (covers ms x) (covers (new_parts p a n) x)
          (within p.addr (p.addr + p.size) x) piece)
  | inr miss ↦
      let rest = round-covers ms a n m x h.1 k (ground (arith, miss, e)) o in
      ground (arith, miss, rest)
]

round-touched :
    (ms : List Page) (a n : ℕ) (m : Page)
    → All IsMapping ms
    → a + n < 2 ^ 64
    → 0 < n
    → mapping ms a n ≡ some m
    → suc (touched (cut_first ms a n) a n) ≡ touched ms a n
unfolding cut_first mapping
round-touched [] a n m h k z e = absurd (cc)
round-touched (p ∷ ms) a n m h k z e = elim (Bool-cases (matches p a n)) [
  | inl hit ↦
      let piece = kept-touched p a n h.0 k z in
      let both = touched-append (kept_part p a n) ms a n in rw hit (omega (arith, piece, both))
  | inr miss ↦
      let rest = round-touched ms a n m h.1 k z (ground (arith, miss, e)) in
      ground (arith, miss, rest)
]

cut_first-IsMapping :
    (ms : List Page) (a n : ℕ)
    → All IsMapping ms
    → a + n < 2 ^ 64
    → All IsMapping (cut_first ms a n)
unfolding cut_first
cut_first-IsMapping [] a n h k = tt
cut_first-IsMapping (p ∷ ms) a n h k = elim (Bool-cases (matches p a n)) [
  | inl hit ↦ rw hit (All-append (kept_part p a n) ms (kept-IsMapping p a n h.0 k) h.1)
  | inr miss ↦ rw miss (h.0, cut_first-IsMapping ms a n h.1 k)
]

-- The mappings after one round, for the mapping that was found.
abbrev next_mem : List Page → ℕ → ℕ → Page → List Page
next_mem ms a n m = cut_first ms a n ++ new_parts m a n

next-IsMapping :
    (ms : List Page) (a n : ℕ) (m : Page)
    → All IsMapping ms
    → a + n < 2 ^ 64
    → mapping ms a n ≡ some m
    → All IsMapping (next_mem ms a n m)
next-IsMapping ms a n m h k e =
    All-append (cut_first ms a n) (new_parts m a n) (cut_first-IsMapping ms a n h k)
      (new-IsMapping m a n (mapping-found ms a n m h e).0 k)

next-covers :
    (ms : List Page) (a n : ℕ) (m : Page) (x : ℕ)
    → All IsMapping ms
    → a + n < 2 ^ 64
    → mapping ms a n ≡ some m
    → within a (a + n) x ≡ false
    → covers (next_mem ms a n m) x ≡ covers ms x
next-covers ms a n m x h k e o =
    covers-append (cut_first ms a n) (new_parts m a n) x ∙ round-covers ms a n m x h k e o

next-touched :
    (ms : List Page) (a n : ℕ) (m : Page)
    → All IsMapping ms
    → a + n < 2 ^ 64
    → 0 < n
    → mapping ms a n ≡ some m
    → suc (touched (next_mem ms a n m) a n) ≡ touched ms a n
next-touched ms a n m h k z e = omega (
  arith,
  touched-append (cut_first ms a n) (new_parts m a n) a n,
  round-touched ms a n m h k z e,
  new-touched m a n (mapping-found ms a n m h e).0 k z,
)

touched-found : (ms : List Page) (a n : ℕ) (m : Page) → mapping ms a n ≡ some m → 0 < touched ms a n
unfolding mapping
touched-found [] a n m e = absurd (cc)
touched-found (p ∷ ms) a n m e = elim (Bool-cases (matches p a n)) [
  | inl hit ↦ rw hit (omega arith)
  | inr miss ↦ rw miss (touched-found ms a n m (ground (arith, miss, e)))
]

touched-le : (ms : List Page) (a n : ℕ) → touched ms a n ≤ length ms
touched-le [] a n = omega arith
touched-le (p ∷ ms) a n = ground (arith, touched-le ms a n)

-- Where no mapping is found the range is free.
pub free :
    (ms : List Page) (a n x : ℕ)
    → All IsMapping ms
    → a + n < 2 ^ 64
    → mapping ms a n ≡ none
    → within a (a + n) x ≡ true
    → covers ms x ≡ false
unfolding mapping
free [] a n x h k e i = refl
free (p ∷ ms) a n x h k e i = elim (Bool-cases (matches p a n)) [
  | inl hit ↦ absurd (ground (arith, hit, e))
  | inr miss ↦
      let rest = free ms a n x h.1 k (ground (arith, miss, e)) i in
      ground (arith, h.0, k, miss, rest, i)
]

uncovered :
    (ms : List Page) (a n : ℕ) → All IsMapping ms → mapping ms a n ≡ none → covers ms a ≡ false
unfolding mapping
uncovered [] a n h e = refl
uncovered (p ∷ ms) a n h e = elim (Bool-cases (matches p a n)) [
  | inl hit ↦ absurd (ground (arith, hit, e))
  | inr miss ↦
      let rest = uncovered ms a n h.1 (ground (arith, miss, e)) in ground (arith, h.0, miss, rest)
]

hide : (b c : Bool) → (b ≡ true → c ≡ false) → (if b then false else c) ≡ c
hide true c h = sym (h refl)
hide false c h = refl

hide_both :
    (b c d : Bool) → (b ≡ false → c ≡ d) → (if b then false else c) ≡ (if b then false else d)
hide_both true c d h = refl
hide_both false c d h = h refl

unmap_loop-some :
    (fuel : ℕ) (t : Task) (a n : ℕ) (m : Page)
    → mapping t.mem a n ≡ some m
    → unmap_loop (suc fuel) t a n ≡ unmap_loop fuel (unmap_round t m a n) a n
unfolding unmap_loop
unmap_loop-some fuel t a n m e = rw (unmap_loop, e)

unmap_loop-none :
    (fuel : ℕ) (t : Task) (a n : ℕ)
    → mapping t.mem a n ≡ none
    → unmap_loop (suc fuel) t a n ≡ some t
unfolding unmap_loop
unmap_loop-none fuel t a n e = rw (unmap_loop, e)

abbrev pub Unmapped : Task → ℕ → ℕ → Option Task → Type 0
Unmapped t a n r =
    (t' : Task) × (r ≡ some t')
    × ((x : ℕ) → covers t'.mem x ≡ (if within a (a + n) x then false else covers t.mem x))

unmap_loop-Unmapped :
    (fuel : ℕ) (t : Task) (a n : ℕ)
    → All IsMapping t.mem
    → a + n < 2 ^ 64
    → 0 < n
    → touched t.mem a n < fuel
    → Unmapped t a n (unmap_loop fuel t a n)
unmap_loop-Unmapped zero t a n h k z l = absurd (omega arith)
unmap_loop-Unmapped (suc fuel) t a n h k z l = elim (Option-cases (mapping t.mem a n)) [
  | inl out ↦ (
    t,
    unmap_loop-none fuel t a n out,
    λ x. sym (hide (within a (a + n) x) (covers t.mem x) (free t.mem a n x h k out)),
  )
  | inr (m, found) ↦
      let (t', e, c) =
        unmap_loop-Unmapped fuel (unmap_round t m a n) a n (next-IsMapping t.mem a n m h k found) k
          z (omega (arith, l, next-touched t.mem a n m h k z found)) in
      (
        t',
        unmap_loop-some fuel t a n m found ∙ e,
        λ x.
            c x
            ∙ hide_both (within a (a + n) x) (covers (next_mem t.mem a n m) x) (covers t.mem x)
                (next-covers t.mem a n m x h k found),
      )
]

-- `MemUnmap` of a range that is not empty ends, after at most one round for each mapping: then no
-- address of the range is mapped, and every other address is mapped if it was before. No mapping
-- reaches the end of the address space, nor does the range.
pub unmap_loop_lem :
    (t : Task) (addr size : ℕ)
    → All IsMapping t.mem
    → addr + size < 2 ^ 64
    → 0 < size
    → Unmapped t addr size (unmap_loop (suc (length t.mem)) t addr size)
unmap_loop_lem t addr size h k z =
    unmap_loop-Unmapped (suc (length t.mem)) t addr size h k z
      (omega (arith, touched-le t.mem addr size))

-- `MemUnmap` of an empty range never ends where its address is mapped: no number of rounds is
-- enough.
pub unmap_loop_hangs :
    (fuel : ℕ) (t : Task) (addr : ℕ)
    → All IsMapping t.mem
    → addr < 2 ^ 64
    → covers t.mem addr ≡ true
    → unmap_loop fuel t addr 0 ≡ none
unfolding unmap_loop
unmap_loop_hangs zero t addr h k c = refl
unmap_loop_hangs (suc fuel) t addr h k c = elim (Option-cases (mapping t.mem addr 0)) [
  | inl out ↦ absurd (let r = uncovered t.mem addr 0 h out in cc)
  | inr (m, found) ↦
      unmap_loop-some fuel t addr 0 m found
      ∙ unmap_loop_hangs fuel (unmap_round t m addr 0) addr
          (next-IsMapping t.mem addr 0 m h (omega arith) found) k
          (next-covers t.mem addr 0 m addr h (omega arith) found (ground arith) ∙ c)
]
