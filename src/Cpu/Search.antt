-- ===== src/Cpu/Search.antt =====
-- The binary search finds the page of an address, in pages that are in order.
use usercorn.Base.{get_elem?-some}
use usercorn.Cpu.Space.{or_else}
use usercorn.Cpu.Space.{cell-below}
use usercorn.Cpu.Space.Change.{cell_in-outside}
use usercorn.Base.{le→ltb}
use usercorn.Base.{lt→leb}
use usercorn.Base.{le→leb}
use usercorn.Base.{lt→ltb}
use usercorn.Base.{ltb→lt}
use usercorn.Base.{Option-cases}
use usercorn.Base.{
  ℕ, zero, suc, ◌+◌, ◌-◌, ◌/◌, ◌≤◌, ◌<◌, ◌≡◌, refl, ◌∙◌, ap, true, List, [], ◌∷◌, Option, some,
  none, length, get_elem?, ltb, leb, arith, Bool-cases, inl, inr,
}
use usercorn.Cpu.Page.{Page, page_end, contains}
use usercorn.Cpu.Pages.{bsearch_loop, bsearch, find}
use usercorn.Cpu.Space.{IsPage, IsRun, cell, cell_in}

pub get_elem?-IsPage :
    (ps : List Page) (lo hi i : ℕ) (p : Page)
    → IsRun lo ps hi
    → get_elem? ps i ≡ some p
    → IsPage p × (lo ≤ p.addr) × (i < length ps)
get_elem?-IsPage [] lo hi i p h e = cc
get_elem?-IsPage (q ∷ ps) lo hi zero p h e = ground (arith, h.0, h.1.fits, h.1.filled)
get_elem?-IsPage (q ∷ ps) lo hi (suc i) p h e =
    let r = get_elem?-IsPage ps (q.addr + q.size) hi i p h.2 e in (r.0, omega arith, omega arith)

in_order :
    (ps : List Page) (lo hi i j : ℕ) (p q : Page)
    → IsRun lo ps hi
    → get_elem? ps i ≡ some p
    → get_elem? ps j ≡ some q
    → i < j
    → p.addr + p.size ≤ q.addr
in_order [] lo hi i j p q h e f l = cc
in_order (x ∷ ps) lo hi i zero p q h e f l = absurd (omega arith)
in_order (x ∷ ps) lo hi zero (suc j) p q h e f l =
    ground (arith, (get_elem?-IsPage ps (x.addr + x.size) hi j q h.2 f).1)
in_order (x ∷ ps) lo hi (suc i) (suc j) p q h e f l =
    in_order ps (x.addr + x.size) hi i j p q h.2 e f (omega arith)

contains_lem :
    (p : Page) (a : ℕ) → IsPage p → contains p a ≡ true → (p.addr ≤ a) × (a < p.addr + p.size)
unfolding contains
contains_lem p a h e = ground (arith, h.fits)

or_else-none : {A : Type 0} (x : Option A) → or_else x none ≡ x
or_else-none none = refl
or_else-none (some x) = refl

module _ (fuel : ℕ) (ps : List Page) (a l r : ℕ) (p : Page) (more : l < r)
    (at : get_elem? ps ((l + (r - 1)) / 2) ≡ some p) where
  go_lower :
      a < p.addr → bsearch_loop (suc fuel) ps a l r ≡ bsearch_loop fuel ps a l ((l + (r - 1)) / 2)
  unfolding bsearch_loop
  go_lower out = rw (lt→ltb l r more, at, lt→leb p.addr a out)

  go_upper :
      IsPage p
      → p.addr + p.size ≤ a
      → bsearch_loop (suc fuel) ps a l r ≡ bsearch_loop fuel ps a ((l + (r - 1)) / 2 + 1) r
  unfolding bsearch_loop
  go_upper h out = rw (
    lt→ltb l r more,
    at,
    le→leb p.addr a (omega arith),
    le→ltb a (page_end p) (omega (arith, h.fits)),
  )

  hit :
      IsPage p
      → (p.addr ≤ a) × (a < p.addr + p.size)
      → bsearch_loop (suc fuel) ps a l r ≡ some ((l + (r - 1)) / 2)
  unfolding bsearch_loop
  hit h inside =
      rw (
        lt→ltb l r more,
        at,
        le→leb p.addr a inside.0,
        lt→ltb a (page_end p) (omega (arith, h.fits)),
      )

bsearch_loop_finds :
    (fuel : ℕ) (ps : List Page) (lo hi a l r j : ℕ) (q : Page)
    → IsRun lo ps hi
    → get_elem? ps j ≡ some q
    → contains q a ≡ true
    → l ≤ j
    → j < r
    → r ≤ length ps
    → r ≤ l + fuel
    → bsearch_loop fuel ps a l r ≡ some j
bsearch_loop_finds zero ps lo hi a l r j q h e c x y z w = absurd (omega arith)
bsearch_loop_finds (suc fuel) ps lo hi a l r j q h e c x y z w =
    let mid = (l + (r - 1)) / 2 in
    let (p, at) = get_elem?-some ps mid (omega arith) in
    let page = (get_elem?-IsPage ps lo hi mid p h at).0 in
    let qpage = (get_elem?-IsPage ps lo hi j q h e).0 in
    let here = contains_lem q a qpage c in
    elim (Bool-cases (ltb mid j)) [
      | inl below ↦
          let far = in_order ps lo hi mid j p q h at e (ltb→lt mid j below) in
          go_upper fuel ps a l r p (omega arith) at page (omega (arith, far, here))
          ∙ bsearch_loop_finds fuel ps lo hi a (mid + 1) r j q h e c
              (omega (arith, ltb→lt mid j below)) y z (omega arith)
      | inr above ↦ elim (Bool-cases (ltb j mid)) [
        | inl over ↦
            let far = in_order ps lo hi j mid q p h e at (ltb→lt j mid over) in
            go_lower fuel ps a l r p (omega arith) at (omega (arith, far, here))
            ∙ bsearch_loop_finds fuel ps lo hi a l mid j q h e c x
                (omega (arith, ltb→lt j mid over)) (omega arith) (omega (arith, ltb→lt j mid over))
        | inr under ↦
            let same : mid ≡ j = ground (arith, above, under) in
            hit fuel ps a l r q (omega arith) (ap (get_elem? ps) same ∙ e) qpage here ∙ ap some same
      ]
    ]

-- In pages in order, the search finds the page that contains an address.
pub bsearch_finds :
    (ps : List Page) (lo hi a j : ℕ) (q : Page)
    → IsRun lo ps hi
    → get_elem? ps j ≡ some q
    → contains q a ≡ true
    → bsearch ps a ≡ some j
unfolding bsearch
bsearch_finds ps lo hi a j q h e c =
    bsearch_loop_finds (length ps) ps lo hi a 0 (length ps) j q h e c (omega arith)
      (get_elem?-IsPage ps lo hi j q h e).2 (omega arith) (omega arith)

bsearch_loop_sound :
    (fuel : ℕ) (ps : List Page) (a l r i : ℕ)
    → bsearch_loop fuel ps a l r ≡ some i
    → (q : Page) × (get_elem? ps i ≡ some q) × (contains q a ≡ true)
unfolding bsearch_loop contains
bsearch_loop_sound zero ps a l r i e = cc
bsearch_loop_sound (suc fuel) ps a l r i e =
    elim (Option-cases (get_elem? ps ((l + (r - 1)) / 2))) [
      | inl out ↦ absurd (ground (arith, out))
      | inr (p, at) ↦ elim (Bool-cases (leb p.addr a)) [
        | inr under ↦ bsearch_loop_sound fuel ps a l ((l + (r - 1)) / 2) i (ground arith)
        | inl over ↦ elim (Bool-cases (ltb a (page_end p))) [
          | inl inside ↦ (p, ground arith, ground arith)
          | inr past ↦ bsearch_loop_sound fuel ps a ((l + (r - 1)) / 2 + 1) r i (ground arith)
        ]
      ]
    ]

-- Whatever the pages are, an index that the search returns is that of a page with the address.
pub bsearch_sound :
    (ps : List Page) (a i : ℕ)
    → bsearch ps a ≡ some i
    → (q : Page) × (get_elem? ps i ≡ some q) × (contains q a ≡ true)
unfolding bsearch
bsearch_sound ps a i e = bsearch_loop_sound (length ps) ps a 0 (length ps) i e

pub index_of_cell :
    (ps : List Page) (a : ℕ) (c : ℕ × ℕ)
    → cell ps a ≡ some c
    → (j : ℕ) × (q : Page) × (get_elem? ps j ≡ some q) × (contains q a ≡ true)
unfolding cell cell_in
index_of_cell [] a c e = cc
index_of_cell (p ∷ ps) a c e = elim (Bool-cases (contains p a)) [
  | inl here ↦ (0, p, refl, here)
  | inr elsewhere ↦
      let (j, q, at, inside) = index_of_cell ps a c (ground arith) in (suc j, q, at, inside)
]

-- At an address of a page the memory has what the page has.
pub cell_at :
    (ps : List Page) (lo hi a j : ℕ) (q : Page)
    → IsRun lo ps hi
    → get_elem? ps j ≡ some q
    → contains q a ≡ true
    → cell ps a ≡ cell_in q a
unfolding cell
cell_at [] lo hi a j q h e c = cc
cell_at (p ∷ ps) lo hi a zero q h e c =
    let same : p ≡ q = ground arith in
    let inside = contains_lem p a h.1 (rw same c) in
    rw (cell-below ps (p.addr + p.size) hi a h.2 inside.1, same) (or_else-none (cell_in q a))
cell_at (p ∷ ps) lo hi a (suc j) q h e c =
    let page = get_elem?-IsPage ps (p.addr + p.size) hi j q h.2 e in
    let inside = contains_lem q a page.0 c in
    let out : cell_in p a ≡ none = cell_in-outside p a h.1 (ground (arith, inside, page.1)) in
    rw out (cell_at ps (p.addr + p.size) hi a j q h.2 e c)

-- Where the search finds nothing, nothing is mapped.
pub bsearch-none :
    (ps : List Page) (lo hi a : ℕ) → IsRun lo ps hi → bsearch ps a ≡ none → cell ps a ≡ none
bsearch-none ps lo hi a h missed = elim (Option-cases (cell ps a)) [
  | inl free ↦ free
  | inr (c, used) ↦
      let (j, q, at, inside) = index_of_cell ps a c used in
      absurd (cc (bsearch_finds ps lo hi a j q h at inside))
]

abbrev pub Found : List Page → ℕ → Option Page → Type 0
Found ps a none = cell ps a ≡ none
Found ps a (some q) = (contains q a ≡ true) × (cell ps a ≡ cell_in q a)

-- In pages in order the binary search finds the page in which an address lies: the page that it
-- returns contains the address and is what the memory has there, and where it returns no page the
-- address is not mapped.
pub find-Found : (ps : List Page) (lo hi a : ℕ) → IsRun lo ps hi → Found ps a (find ps a)
unfolding find
find-Found ps lo hi a h = elim (Option-cases (bsearch ps a)) [
  | inl missed ↦ rw missed (bsearch-none ps lo hi a h missed)
  | inr (i, found) ↦
      let (q, at, inside) = bsearch_sound ps a i found in
      rw (found, at) (inside, cell_at ps lo hi a i q h at inside)
]
