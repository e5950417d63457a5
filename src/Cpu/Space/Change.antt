-- ===== src/Cpu/Space/Change.antt =====
-- `Unmap` and `Prot` as functions on the abstract memory.
use usercorn.Base.{
  ℕ, ◌+◌, ◌≤◌, ◌<◌, ◌^◌, ◌≡◌, ◌∙◌, false, List, [], ◌∷◌, none, if◌then◌else◌, arith, Bool-cases,
  inl, inr,
}
use usercorn.Cpu.Page.{Page, split, contains, intersect}
use usercorn.Cpu.MemSim.{or_nothing, unmap_page, unmap, protect_page, protect}
use usercorn.Cpu.Space.{IsPage, IsRun, cell, cell_in, cell-append, IsRun-append}
use usercorn.Cpu.Space.Parts.{within, with_prot}
use usercorn.Cpu.Space.Pieces.{
  left_cell, right_cell, mid_cell, left-IsRun, right-IsRun, mid-IsRun, intersect_lem, cell-one,
}

pub cell_in-outside :
    (p : Page) (a : ℕ) → IsPage p → within p.addr (p.addr + p.size) a ≡ false → cell_in p a ≡ none
unfolding cell_in contains
cell_in-outside p a h e = ground (arith, h.fits)

-- A run may begin lower.
pub IsRun-from : (ps : List Page) (lo lo' hi : ℕ) → lo ≤ lo' → IsRun lo' ps hi → IsRun lo ps hi
IsRun-from [] lo lo' hi l h = omega arith
IsRun-from (p ∷ ps) lo lo' hi l h = (omega arith, h.1, h.2)

module _ (p : Page) (addr size : ℕ) (h : IsPage p) (k : addr + size < 2 ^ 64) where
  cell-unmap_page :
      (a : ℕ)
      → cell (unmap_page p addr size) a
        ≡ (if within addr (addr + size) a then none else cell_in p a)
  unfolding unmap_page
  cell-unmap_page a = elim (Bool-cases (intersect p addr size).2) [
    | inl e ↦
        let i = (intersect_lem p addr size h k).1 e in
        let s = (intersect p addr size).0 in
        let n = (intersect p addr size).1 in
        rw e (
          cell-append (or_nothing (split p s n).left) (or_nothing (split p s n).right) a
          ∙ ground (
            arith,
            i,
            left_cell p h s n i.0 i.2 a,
            right_cell p h s n i.0 i.2 a,
            cell_in-outside p a h,
          ))
    | inr e ↦
        rw e (
          cell-one p a ∙ ground (arith, (intersect_lem p addr size h k).0 e, cell_in-outside p a h))
  ]

  unmap_page-IsRun : IsRun p.addr (unmap_page p addr size) (p.addr + p.size)
  unfolding unmap_page
  unmap_page-IsRun = elim (Bool-cases (intersect p addr size).2) [
    | inl e ↦
        let i = (intersect_lem p addr size h k).1 e in
        let s = (intersect p addr size).0 in
        let n = (intersect p addr size).1 in
        rw e (
          IsRun-append (or_nothing (split p s n).left) (or_nothing (split p s n).right) p.addr s
            (p.addr + p.size) (left-IsRun p h s n i.0 i.2)
            (IsRun-from (or_nothing (split p s n).right) s (s + n) (p.addr + p.size) (omega arith)
              (right-IsRun p h s n i.0 i.2)))
    | inr e ↦ rw e (omega arith, h, omega arith)
  ]

  cell-protect_page :
      (prot a : ℕ)
      → cell (protect_page p addr size prot) a
        ≡ (if within addr (addr + size) a then with_prot prot (cell_in p a) else cell_in p a)
  unfolding protect_page
  cell-protect_page prot a = elim (Bool-cases (intersect p addr size).2) [
    | inl e ↦
        let i = (intersect_lem p addr size h k).1 e in
        let s = (intersect p addr size).0 in
        let n = (intersect p addr size).1 in
        let mid : Page = record ((split p s n).mid) { prot = prot } in
        rw e (
          cell-append (or_nothing (split p s n).left) (mid ∷ or_nothing (split p s n).right) a
          ∙ unfold cell in
            ground (
              arith,
              i,
              left_cell p h s n i.0 i.2 a,
              mid_cell p h s n i.0 i.2 prot a,
              right_cell p h s n i.0 i.2 a,
              cell_in-outside p a h,
            ))
    | inr e ↦
        rw e (
          cell-one p a ∙ ground (arith, (intersect_lem p addr size h k).0 e, cell_in-outside p a h))
  ]

  protect_page-IsRun : (prot : ℕ) → IsRun p.addr (protect_page p addr size prot) (p.addr + p.size)
  unfolding protect_page
  protect_page-IsRun prot = elim (Bool-cases (intersect p addr size).2) [
    | inl e ↦
        let i = (intersect_lem p addr size h k).1 e in
        let s = (intersect p addr size).0 in
        let n = (intersect p addr size).1 in
        let mid : Page = record ((split p s n).mid) { prot = prot } in
        rw e (
          IsRun-append (or_nothing (split p s n).left) (mid ∷ or_nothing (split p s n).right) p.addr
            s (p.addr + p.size) (left-IsRun p h s n i.0 i.2)
            (IsRun-append (mid ∷ []) (or_nothing (split p s n).right) s (s + n) (p.addr + p.size)
              (mid-IsRun p h s n i.0 i.2 prot) (right-IsRun p h s n i.0 i.2)))
    | inr e ↦ rw e (omega arith, h, omega arith)
  ]

-- In a well-formed memory `Unmap` leaves a well-formed one, in which the addresses of the range are
-- not mapped and all others are as they were. The range does not reach the end of the address space.
pub unmap_lem :
    (ps : List Page) (lo hi addr size : ℕ)
    → IsRun lo ps hi
    → addr + size < 2 ^ 64
    → IsRun lo (unmap ps addr size) hi
      × ((a : ℕ)
          → cell (unmap ps addr size) a ≡ (if within addr (addr + size) a then none else cell ps a))
unfolding unmap cell
unmap_lem [] lo hi addr size h k = (h, λ a. ground arith)
unmap_lem (p ∷ ps) lo hi addr size h k =
    let (run, cells) = unmap_lem ps (p.addr + p.size) hi addr size h.2 k in
    (
      IsRun-append (unmap_page p addr size) (unmap ps addr size) lo (p.addr + p.size) hi
          (IsRun-from (unmap_page p addr size) lo p.addr (p.addr + p.size) h.0
            (unmap_page-IsRun p addr size h.1 k))
          run,
      λ a.
          cell-append (unmap_page p addr size) (unmap ps addr size) a
          ∙ ground (arith, cell-unmap_page p addr size h.1 k a, cells a),
    )

-- In a well-formed memory `Prot` leaves a well-formed one with the same bytes: the mapped addresses of
-- the range have the new protection, and all others are as they were. The range does not reach the
-- end of the address space.
pub protect_lem :
    (ps : List Page) (lo hi addr size prot : ℕ)
    → IsRun lo ps hi
    → addr + size < 2 ^ 64
    → IsRun lo (protect ps addr size prot) hi
      × ((a : ℕ)
          → cell (protect ps addr size prot) a
            ≡ (if within addr (addr + size) a then with_prot prot (cell ps a) else cell ps a))
unfolding protect cell
protect_lem [] lo hi addr size prot h k = (h, λ a. ground arith)
protect_lem (p ∷ ps) lo hi addr size prot h k =
    let (run, cells) = protect_lem ps (p.addr + p.size) hi addr size prot h.2 k in
    (
      IsRun-append (protect_page p addr size prot) (protect ps addr size prot) lo (p.addr + p.size)
          hi
          (IsRun-from (protect_page p addr size prot) lo p.addr (p.addr + p.size) h.0
            (protect_page-IsRun p addr size h.1 k prot))
          run,
      λ a.
          cell-append (protect_page p addr size prot) (protect ps addr size prot) a
          ∙ ground (arith, cell-protect_page p addr size h.1 k prot a, cells a),
    )
