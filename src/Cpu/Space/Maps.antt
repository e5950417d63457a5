-- ===== src/Cpu/Space/Maps.antt =====
-- go/models/cpu/memsim.go: `Map`, against the abstract memory.
use usercorn.Base.{lt→ltb}
use usercorn.Cpu.Space.Access.{false_of}
use usercorn.Base.{le→leb}
use usercorn.Base.{ltb→lt}
use usercorn.Base.{
  ℕ, zero, suc, ◌+◌, ◌-◌, ◌≤◌, ◌<◌, ◌^◌, ◌≡◌, ◌⊎◌, refl, ◌∙◌, ap, inl, inr, true, false, List, [],
  ◌∷◌, ◌++◌, none, some, replicate, get_elem?, arith, Bool-cases, ltb, if◌then◌else◌,
  length-replicate, add64,
}
use usercorn.Cpu.Page.{Page, contains, intersect, split, slice, page_end}
use usercorn.Cpu.MemSim.{sort, add_page, map, map_page, unmap, unmap_page, or_nothing, range_valid}
use usercorn.Cpu.Space.{IsPage, IsRun, cell, cell_in}
use usercorn.Cpu.Space.Parts.{within}
use usercorn.Cpu.Space.Pieces.{intersect_lem}
use usercorn.Cpu.Space.Change.{unmap_lem}
use usercorn.Cpu.Space.Reads.{NonEmpty}
use usercorn.Cpu.Space.Valid.{Mapped}
use usercorn.Cpu.Space.Access.{range_valid-Valid}
use usercorn.Cpu.Space.Insert.{Free, sort_run, differs, insert-IsRun, insert-cell}

NonEmpty-append : (xs ys : List Page) → NonEmpty xs → NonEmpty ys → NonEmpty (xs ++ ys)
NonEmpty-append [] ys h k = k
NonEmpty-append (x ∷ xs) ys h k = (h.0, NonEmpty-append xs ys h.1 k)

module _ (p : Page) (s n : ℕ) (h : IsPage p) (l : p.addr ≤ s) (u : s + n ≤ p.addr + p.size) where
  left-NonEmpty : NonEmpty (or_nothing (split p s n).left)
  unfolding split slice
  left-NonEmpty = elim (Bool-cases (ltb p.addr s)) [
    | inl e ↦ rw e (omega (arith, ltb→lt p.addr s e, h.fits), tt)
    | inr e ↦ rw e tt
  ]

  right-NonEmpty : NonEmpty (or_nothing (split p s n).right)
  unfolding split slice
  right-NonEmpty = elim (Bool-cases (ltb (add64 s n) (page_end p))) [
    | inl e ↦ rw e (omega (arith, ltb→lt (add64 s n) (page_end p) e, h.fits), tt)
    | inr e ↦ rw e tt
  ]

unmap_page-NonEmpty :
    (p : Page) (addr size : ℕ)
    → IsPage p
    → 0 < p.size
    → addr + size < 2 ^ 64
    → NonEmpty (unmap_page p addr size)
unfolding unmap_page
unmap_page-NonEmpty p addr size h z k = elim (Bool-cases (intersect p addr size).2) [
  | inl e ↦
      let i = (intersect_lem p addr size h k).1 e in
      let s = (intersect p addr size).0 in
      let n = (intersect p addr size).1 in
      rw e (
        NonEmpty-append (or_nothing (split p s n).left) (or_nothing (split p s n).right)
          (left-NonEmpty p s n h i.0 i.2) (right-NonEmpty p s n h i.0 i.2))
  | inr e ↦ rw e (z, tt)
]

unmap-NonEmpty :
    (ps : List Page) (lo hi addr size : ℕ)
    → IsRun lo ps hi
    → NonEmpty ps
    → addr + size < 2 ^ 64
    → NonEmpty (unmap ps addr size)
unfolding unmap
unmap-NonEmpty [] lo hi addr size h z k = tt
unmap-NonEmpty (p ∷ ps) lo hi addr size h z k =
    NonEmpty-append (unmap_page p addr size) (unmap ps addr size)
      (unmap_page-NonEmpty p addr size h.1 z.0 k)
      (unmap-NonEmpty ps (p.addr + p.size) hi addr size h.2 z.1 k)

get_elem?-replicate : (n i a : ℕ) → i < n → get_elem? (replicate n a) i ≡ some a
get_elem?-replicate zero i a h = absurd (omega arith)
get_elem?-replicate (suc n) zero a h = refl
get_elem?-replicate (suc n) (suc i) a h = get_elem?-replicate n i a (omega arith)

-- A page is put into a run at a free range.
placed :
    (ps : List Page) (pg : Page) (lo hi : ℕ)
    → IsRun lo ps hi
    → NonEmpty ps
    → IsPage pg
    → 0 < pg.size
    → lo ≤ pg.addr
    → pg.addr + pg.size ≤ hi
    → Free ps pg.addr (pg.addr + pg.size)
    → IsRun lo (sort (ps ++ (pg ∷ []))) hi
      × ((x : ℕ)
          → cell (sort (ps ++ (pg ∷ []))) x
            ≡ (if within pg.addr (pg.addr + pg.size) x then cell_in pg x else cell ps x))
placed ps pg lo hi h z k s l u f =
    rw (sort_run ps pg lo hi h z (differs ps lo hi pg.addr (pg.addr + pg.size) h z (omega arith) f))
      (insert-IsRun pg k s ps lo hi h z l u f, λ x. insert-cell pg k s ps lo hi x h z f)

-- The cells of a new page of zeros.
cell-zeros :
    (pg : Page) (x : ℕ)
    → IsPage pg
    → pg.bytes ≡ replicate pg.size 0
    → within pg.addr (pg.addr + pg.size) x ≡ true
    → cell_in pg x ≡ some (0, pg.prot)
unfolding cell_in contains
cell-zeros pg x h b w =
    let at = get_elem?-replicate pg.size (x - pg.addr) 0 (ground (arith, w)) in
    let byte : get_elem? pg.bytes (x - pg.addr) ≡ some 0 =
      ap (λ bs. get_elem? bs (x - pg.addr)) b ∙ at in
    ground (arith, h.fits, w, byte)

abbrev zero_page : ℕ → ℕ → ℕ → Page
zero_page addr size prot = record {
  addr = addr;
  size = size;
  prot = prot;
  bytes = replicate size 0;
  desc = [];
  file = none;
}

with_zeros :
    (ps kept : List Page) (lo hi addr size prot : ℕ)
    → IsRun lo kept hi
    → NonEmpty kept
    → 0 < size
    → addr + size < 2 ^ 64
    → lo ≤ addr
    → addr + size ≤ hi
    → ((x : ℕ) → cell kept x ≡ (if within addr (addr + size) x then none else cell ps x))
    → IsRun lo (sort (kept ++ (zero_page addr size prot ∷ []))) hi
      × ((x : ℕ)
          → cell (sort (kept ++ (zero_page addr size prot ∷ []))) x
            ≡ (if within addr (addr + size) x then some (0, prot) else cell ps x))
with_zeros ps kept lo hi addr size prot h z s k l u c =
    let pg = zero_page addr size prot in
    let fine : IsPage pg = record { fits = k; filled = length-replicate {A = ℕ} size 0 } in
    let put =
      placed kept pg lo hi h z fine s l u
        (λ x i j. c x ∙ rw (le→leb addr x i, lt→ltb x (addr + size) j) refl) in
    (
      put.0,
      λ x. put.1 x ∙ elim (Bool-cases (within addr (addr + size) x)) [
        | inl w ↦ rw w (cell-zeros pg x fine refl w)
        | inr o ↦ rw o (c x ∙ rw o refl)
      ],
    )

-- `Map` with `zero`, at a range that is mapped as a whole or not at all, leaves a well-formed memory
-- in which the range has zeros under the protection and every other address is as it was. The range is
-- not empty, lies between the bounds of the memory and does not reach the end of the address space,
-- and no page was empty.
pub map_lem :
    (ps : List Page) (lo hi addr size prot : ℕ)
    → IsRun lo ps hi
    → NonEmpty ps
    → 0 < size
    → addr + size < 2 ^ 64
    → lo ≤ addr
    → addr + size ≤ hi
    → Mapped ps addr (addr + size) ⊎ Free ps addr (addr + size)
    → IsRun lo (map ps addr size prot true) hi
      × ((x : ℕ)
          → cell (map ps addr size prot true) x
            ≡ (if within addr (addr + size) x then some (0, prot) else cell ps x))
unfolding map add_page map_page
map_lem ps lo hi addr size prot h z s k l u (inl m) =
    let v = range_valid-Valid ps lo hi addr size 0 h z s k in
    let rest = unmap_lem ps lo hi addr size h k in
    rw (v.reaches m) (
      with_zeros ps (unmap ps addr size) lo hi addr size prot rest.0
        (unmap-NonEmpty ps lo hi addr size h z k) s k l u rest.1)
map_lem ps lo hi addr size prot h z s k l u (inr f) =
    let v = range_valid-Valid ps lo hi addr size 0 h z s k in
    let out : (range_valid ps addr size 0).0 ≡ false =
      false_of (range_valid ps addr size 0).0
        (λ e. v.mapped e addr (omega arith) (omega arith) (f addr (omega arith) (omega arith))) in
    rw out (
      with_zeros ps ps lo hi addr size prot h z s k l u (λ x.
        elim (Bool-cases (within addr (addr + size) x)) [
          | inl w ↦ rw w (f x (ground (arith, w)) (ground (arith, w)))
          | inr o ↦ rw o refl
        ]))
