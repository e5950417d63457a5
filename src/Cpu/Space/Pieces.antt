-- ===== src/Cpu/Space/Pieces.antt =====
-- The three pieces that `split` makes of a page: what each maps, and that they lie side by side.
use usercorn.Base.{◌⊎◌}
use usercorn.Cpu.Space.Parts.{cell_in-part}
use usercorn.Cpu.Space.Parts.{with_prot}
use usercorn.Cpu.Space.Parts.{rest}
use mathlib.Core.Path.{ap₂}
use usercorn.Base.{ap}
use usercorn.Base.{
  ℕ, ◌+◌, ◌≤◌, ◌<◌, ◌^◌, ◌≡◌, refl, ◌∙◌, true, false, [], ◌∷◌, none, ltb, if◌then◌else◌, arith,
  sub64, add64, Bool-cases, inl, inr,
}
use usercorn.Cpu.Page.{Page, page_end, slice, split, intersect}
use usercorn.Cpu.MemSim.{or_nothing}
use usercorn.Cpu.Space.{IsPage, IsRun, cell, cell_in}
use usercorn.Cpu.Space.Parts.{IsPart, mid-IsPart, left-IsPart, right-IsPart, within, cell_in-IsPart}

pub cell-one : (q : Page) (a : ℕ) → cell (q ∷ []) a ≡ cell_in q a
unfolding cell
cell-one q a = ground arith

one-IsRun :
    (q : Page) (lo hi : ℕ) → lo ≤ q.addr → IsPage q → q.addr + q.size ≤ hi → IsRun lo (q ∷ []) hi
one-IsRun q lo hi l h k = (l, h, k)

IsPart-IsPage : (p q : Page) → IsPage p → IsPart p q → IsPage q
IsPart-IsPage p q h k = record { fits = omega (arith, h.fits, k.high); filled = k.filled }

module _ (p : Page) (h : IsPage p) (s n : ℕ) (low : p.addr ≤ s)
    (high : s + n ≤ p.addr + p.size) where
  pub left-IsRun : IsRun p.addr (or_nothing (split p s n).left) s
  unfolding split slice
  left-IsRun = elim (Bool-cases (ltb p.addr s)) [
    | inl e ↦ rw e (
        one-IsRun _ p.addr s (omega arith) (IsPart-IsPage p _ h (left-IsPart p h s n low high))
          (omega (arith, h.fits)))
    | inr e ↦ rw e low
  ]

  pub right-IsRun : IsRun (s + n) (or_nothing (split p s n).right) (p.addr + p.size)
  unfolding split slice
  right-IsRun = elim (Bool-cases (ltb (add64 s n) (page_end p))) [
    | inl e ↦ rw e (
        one-IsRun _ (s + n) (p.addr + p.size) (omega (arith, h.fits))
          (IsPart-IsPage p _ h (right-IsPart p h s n low high)) (omega (arith, h.fits)))
    | inr e ↦ rw e high
  ]

  left_prot : (slice (rest p h s n low high) p.addr (sub64 s p.addr)).prot ≡ p.prot
  unfolding slice
  left_prot = ground arith

  pub left_cell :
      (a : ℕ)
      → cell (or_nothing (split p s n).left) a ≡ (if within p.addr s a then cell_in p a else none)
  unfolding split slice
  left_cell a = elim (Bool-cases (ltb p.addr s)) [
    | inl e ↦ rw e (
        cell-one _ a
        ∙ cell_in-IsPart p _ a h (left-IsPart p h s n low high) left_prot
        ∙ ap (λ k. if within p.addr k a then cell_in p a else none) {x = p.addr + sub64 s p.addr}
            (omega (arith, h.fits)))
    | inr e ↦ rw e (unfold cell in ground arith)
  ]

  pub right_cell :
      (a : ℕ)
      → cell (or_nothing (split p s n).right) a
        ≡ (if within (s + n) (p.addr + p.size) a then cell_in p a else none)
  unfolding split slice
  right_cell a = elim (Bool-cases (ltb (add64 s n) (page_end p))) [
    | inl e ↦ rw e (
        cell-one _ a
        ∙ cell_in-IsPart p _ a h (right-IsPart p h s n low high) refl
        ∙ ap₂ (λ j k. if within j k a then cell_in p a else none) (omega (arith, h.fits))
            (omega (arith, h.fits)))
    | inr e ↦ rw e (unfold cell in ground (arith, h.fits))
  ]

  with_prot-IsPart : (prot : ℕ) → IsPart p (record ((split p s n).mid) { prot = prot })
  with_prot-IsPart prot =
      let k = mid-IsPart p h s n low high in
      record { low = k.low; high = k.high; filled = k.filled; same = k.same }

  -- The middle part, under any protection.
  pub mid_cell :
      (prot a : ℕ)
      → cell_in (record ((split p s n).mid) { prot = prot }) a
        ≡ (if within s (s + n) a then with_prot prot (cell_in p a) else none)
  unfolding split
  mid_cell prot a = cell_in-part p _ a h (with_prot-IsPart prot)

  pub mid-IsRun : (prot : ℕ) → IsRun s (record ((split p s n).mid) { prot = prot } ∷ []) (s + n)
  mid-IsRun prot =
      one-IsRun _ s (s + n) (unfold split in omega arith)
        (IsPart-IsPage p _ h (with_prot-IsPart prot)) (unfold split in omega arith)

-- The range that `intersect` finds lies in the page and is what both have in common; where it finds
-- none there is none.
pub intersect_lem :
    (p : Page) (addr size : ℕ)
    → IsPage p
    → addr + size < 2 ^ 64
    → let i = intersect p addr size in
      (i.2 ≡ false → (p.addr + p.size ≤ addr) ⊎ (addr + size ≤ p.addr) ⊎ (p.size ≡ 0) ⊎ (size ≡ 0))
      × (i.2 ≡ true
          → (p.addr ≤ i.0)
            × (addr ≤ i.0)
            × (i.0 + i.1 ≤ p.addr + p.size)
            × (i.0 + i.1 ≤ addr + size)
            × ((i.0 ≡ p.addr) ⊎ (i.0 ≡ addr))
            × ((i.0 + i.1 ≡ p.addr + p.size) ⊎ (i.0 + i.1 ≡ addr + size)))
unfolding intersect
intersect_lem p addr size h k = ground (arith, h.fits)
