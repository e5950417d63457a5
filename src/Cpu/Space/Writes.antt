-- ===== src/Cpu/Space/Writes.antt =====
-- go/models/cpu/memsim.go: the loop of `Write`, against the abstract memory.
use usercorn.Base.{ltb→le}
use usercorn.Base.{Option-cases}
use usercorn.Base.{ltb→lt}
use usercorn.Base.{
  ℕ, ◌+◌, ◌-◌, ◌≤◌, ◌<◌, ◌^◌, ◌≡◌, refl, ◌∙◌, ap, sym, subst, inl, inr, true, false, List, [], ◌∷◌,
  none, some, length, drop, min, get_elem?, arith, Bool-cases, ltb, add64, sub64, length-drop,
}
use usercorn.Cpu.Page.{Page, contains}
use usercorn.Cpu.MemSim.{write_loop}
use usercorn.Cpu.Space.{IsPage, IsRun, cell, cell-below}
use usercorn.Cpu.Space.Parts.{within}
use usercorn.Cpu.Space.Change.{IsRun-from}
use usercorn.Cpu.Space.Reads.{NonEmpty, contains-inside, cell-behind}
use usercorn.Cpu.Space.Valid.{Mapped, cell-first, next_free}
use usercorn.Cpu.Space.Put.{
  put, Written, splice, put_here, put_away, put-drop, some_inj, length-splice, get_elem?-splice,
}

-- The first page with the bytes that fit in it.
abbrev page_with : Page → ℕ → ℕ → List ℕ → Page
page_with m addr n p = record m { bytes = splice m.bytes (addr - m.addr) n p }

module _ (m : Page) (ps : List Page) (hi addr n : ℕ) (p : List ℕ) (h : IsRun m.addr (m ∷ ps) hi)
    (l : m.addr ≤ addr) (u : addr < m.addr + m.size)
    (e : n ≡ min (length p) (length m.bytes - (addr - m.addr))) where
  page_with-IsPage : IsPage (page_with m addr n p)
  page_with-IsPage =
      let filled = h.1.filled in
      record {
        fits = h.1.fits;
        filled =
            length-splice m.bytes p (addr - m.addr) n (omega (arith, filled)) (omega arith)
            ∙ filled;
      }

  byte_after :
      (x b : ℕ)
      → m.addr ≤ x
      → x < m.addr + m.size
      → get_elem? (splice m.bytes (addr - m.addr) n p) (x - m.addr) ≡ some b
      → some (b, m.prot) ≡ put p addr x (cell (m ∷ ps) x)
  byte_after x b i j at =
      let filled = h.1.filled in
      let o = addr - m.addr in
      let (c, was, old) = cell-first m ps x hi h i j in
      let got = get_elem?-splice m.bytes p o n (omega (arith, filled)) (omega arith) (x - m.addr) in
      elim (Bool-cases (within o (o + n) (x - m.addr))) [
        | inl inside ↦
            let here : (addr ≤ x) × (x < addr + n) = ground (arith, inside) in
            let index : x - addr ≡ x - m.addr - o = omega (arith, here) in
            let byte : get_elem? p (x - addr) ≡ some b =
              ap (get_elem? p) index ∙ (sym (got ∙ rw inside refl) ∙ at) in
            sym (put_here p addr x b (c, m.prot) (cell (m ∷ ps) x) (ground (arith, here)) byte old)
        | inr outside ↦
            let same : b ≡ c = some_inj b c (sym at ∙ (got ∙ (rw outside refl ∙ was))) in
            ap (λ d. some (d, m.prot)) same
            ∙ (sym old
                ∙ sym (put_away p addr x (cell (m ∷ ps) x) (ground (arith, outside, filled))))
      ]

  -- A cell of that page.
  cell-page_with :
      (ps' : List Page) (x : ℕ)
      → IsRun (m.addr + m.size) ps' hi
      → m.addr ≤ x
      → x < m.addr + m.size
      → cell (page_with m addr n p ∷ ps') x ≡ put p addr x (cell (m ∷ ps) x)
  cell-page_with ps' x r i j =
      let (b, at, new) =
        cell-first (page_with m addr n p) ps' x hi (omega arith, page_with-IsPage, r) i j in
      new ∙ byte_after x b i j at

  -- One page, where the rest is written right.
  page_with-Written :
      (ps' : List Page)
      → Written (m.addr + m.size) ps hi (addr + n) (drop n p) ps'
      → Written m.addr (m ∷ ps) hi addr p (page_with m addr n p ∷ ps')
  page_with-Written ps' w = record {
    run = (omega arith, page_with-IsPage, w.run);
    full = λ z. (z.0, w.full z.1);
    cells = λ x. elim (Bool-cases (ltb x m.addr)) [
      | inl low ↦
          let lt = ltb→lt x m.addr low in
          cell-below (page_with m addr n p ∷ ps') m.addr hi x (omega arith, page_with-IsPage, w.run)
            lt
          ∙ sym (
              put_away p addr x (cell (m ∷ ps) x) (ground (arith, lt))
              ∙ cell-below (m ∷ ps) m.addr hi x h lt)
      | inr high ↦ elim (Bool-cases (ltb x (m.addr + m.size))) [
        | inl inside ↦
            cell-page_with ps' x w.run (ground (arith, high)) (ltb→lt x (m.addr + m.size) inside)
        | inr past ↦
            let le : m.addr + m.size ≤ x = ground (arith, past) in
            let filled = h.1.filled in
            cell-behind (page_with m addr n p) ps' x page_with-IsPage le
            ∙ (w.cells x
                ∙ (put-drop p addr n x (cell ps x) (omega arith) (omega (arith, filled))
                    ∙ ap (put p addr x) (sym (cell-behind m ps x h.1 le))))
      ]
    ];
  }

write_loop-cons :
    (m : Page) (ps : List Page) (addr n : ℕ) (p : List ℕ)
    → IsPage m
    → contains m addr ≡ true
    → addr + length p < 2 ^ 64
    → n ≡ min (length p) (length m.bytes - (addr - m.addr))
    → write_loop (m ∷ ps) addr p ≡ page_with m addr n p ∷ write_loop ps (addr + n) (drop n p)
unfolding write_loop
write_loop-cons m ps addr n p h c b e =
    let i = contains-inside m addr h c in
    let o : sub64 addr m.addr ≡ addr - m.addr = omega (arith, i, h.fits) in
    let next : add64 addr n ≡ addr + n = omega arith in rw (c, o, sym e, next) refl

write_loop_miss :
    (q : Page) (qs : List Page) (addr : ℕ) (p : List ℕ)
    → contains q addr ≡ false
    → write_loop (q ∷ qs) addr p ≡ q ∷ qs
unfolding write_loop
write_loop_miss q qs addr p c = rw c refl

-- Nothing is left to write.
nothing_left :
    (lo : ℕ) (ps : List Page) (hi addr : ℕ) (p : List ℕ)
    → IsRun lo ps hi
    → length p ≡ 0
    → Written lo ps hi addr p ps
nothing_left lo ps hi addr p h e = record {
  run = h;
  full = λ z. z;
  cells = λ x. sym (put_away p addr x (cell ps x) (ground (arith, e)));
}

put-none : (p : List ℕ) (addr x : ℕ) → put p addr x none ≡ none
put-none p addr x = elim (Option-cases (get_elem? p (x - addr))) [
  | inl e ↦ ground (arith, e)
  | inr (b, e) ↦ ground (arith, e)
]

Written-from :
    (lo lo' : ℕ) (ps : List Page) (hi addr : ℕ) (p : List ℕ) (ps' : List Page)
    → lo ≤ lo'
    → Written lo' ps hi addr p ps'
    → Written lo ps hi addr p ps'
Written-from lo lo' ps hi addr p ps' l w = record {
  run = IsRun-from ps' lo lo' hi l w.run;
  full = w.full;
  cells = w.cells;
}

-- What the loop copies into the first page.
abbrev room : Page → ℕ → List ℕ → ℕ
room m addr p = min (length p) (length m.bytes - (addr - m.addr))

write_step :
    (m : Page) (ps : List Page) (hi addr n : ℕ) (p : List ℕ)
    → IsRun m.addr (m ∷ ps) hi
    → contains m addr ≡ true
    → addr + length p < 2 ^ 64
    → n ≡ room m addr p
    → Written (m.addr + m.size) ps hi (addr + n) (drop n p) (write_loop ps (addr + n) (drop n p))
    → Written m.addr (m ∷ ps) hi addr p (write_loop (m ∷ ps) addr p)
write_step m ps hi addr n p h c b e w =
    let i = contains-inside m addr h.1 c in
    subst (Written m.addr (m ∷ ps) hi addr p) (sym (write_loop-cons m ps addr n p h.1 c b e))
      (page_with-Written m ps hi addr n p h i.0 i.1 e (write_loop ps (addr + n) (drop n p)) w)

module _ (m : Page) (ps : List Page) (hi addr n : ℕ) (p : List ℕ) (h : IsRun m.addr (m ∷ ps) hi)
    (i : (m.addr ≤ addr) × (addr < m.addr + m.size)) (e : n ≡ room m addr p)
    (u : Mapped (m ∷ ps) addr (addr + length p)) where
  Mapped-rest : Mapped ps (addr + n) (addr + n + length (drop n p))
  Mapped-rest x l r f =
      let filled = h.1.filled in
      let len = length-drop n p in
      u x (omega arith) (omega (arith, len, r))
        (cell-behind m ps x h.1 (omega (arith, filled, len, i)) ∙ f)

  all_written :
      (addr + n ≡ m.addr + m.size → cell ps (m.addr + m.size) ≡ none) → length (drop n p) ≡ 0
  all_written f = elim (Bool-cases (ltb n (length p))) [
    | inl some_left ↦
        let l = ltb→lt n (length p) some_left in
        let filled = h.1.filled in
        absurd (
          u (m.addr + m.size) (omega (arith, i)) (omega (arith, filled, l, i)) (
            cell-behind m ps (m.addr + m.size) h.1 (omega arith) ∙ f (omega (arith, filled, l, i))))
    | inr none_left ↦ omega (arith, length-drop n p, ltb→le n (length p) none_left)
  ]

-- The loop of `Write` from the page of `addr`, where the range is mapped.
pub write_loop-Written :
    (m : Page) (ps : List Page) (hi addr : ℕ) (p : List ℕ)
    → IsRun m.addr (m ∷ ps) hi
    → NonEmpty (m ∷ ps)
    → contains m addr ≡ true
    → addr + length p < 2 ^ 64
    → Mapped (m ∷ ps) addr (addr + length p)
    → Written m.addr (m ∷ ps) hi addr p (write_loop (m ∷ ps) addr p)
unfolding write_loop cell
write_loop-Written m [] hi addr p h z c b u =
    let n = room m addr p in
    write_step m [] hi addr n p h c b refl
      (record { run = h.2; full = λ t. t; cells = λ x. sym (put-none (drop n p) (addr + n) x) })
write_loop-Written m (q ∷ qs) hi addr p h z c b u =
    let n = room m addr p in
    let i = contains-inside m addr h.1 c in
    let rest = drop n p in
    let filled = h.1.filled in
    write_step m (q ∷ qs) hi addr n p h c b refl (elim (Bool-cases (contains q (addr + n))) [
      | inl on ↦
          Written-from (m.addr + m.size) q.addr (q ∷ qs) hi (addr + n) rest
            (write_loop (q ∷ qs) (addr + n) rest) h.2.0
            (write_loop-Written q qs hi (addr + n) rest (omega arith, h.2.1, h.2.2) z.1 on
              (omega (arith, length-drop n p)) (Mapped-rest m (q ∷ qs) hi addr n p h i refl u))
      | inr off ↦
          subst (Written (m.addr + m.size) (q ∷ qs) hi (addr + n) rest)
            (sym (write_loop_miss q qs (addr + n) rest off))
            (nothing_left (m.addr + m.size) (q ∷ qs) hi (addr + n) rest h.2 (
              all_written m (q ∷ qs) hi addr n p h i refl u (λ full.
                next_free q qs (m.addr + m.size) hi h.2 z.1.0 (ap (contains q) (sym full) ∙ off))))
    ])
