-- ===== src/Cpu/Space.antt =====
-- The memory as the addresses see it, and what makes a list of pages well formed.
pub mod Parts
pub mod Pieces
pub mod Change
pub mod Reads
pub mod Valid
pub mod Access
pub mod Put
pub mod Writes
pub mod Insert
pub mod Maps
pub mod Store
use usercorn.Base.{
  ℕ, ◌+◌, ◌-◌, ◌≤◌, ◌<◌, ◌^◌, ◌≡◌, Bool, List, [], ◌∷◌, ◌++◌, Option, none, some, length, get_elem?,
  if◌then◌else◌, refl, arith, IsU64,
}
use usercorn.Cpu.Page.{Page, contains}

-- A page does not reach the end of the address space, and has a byte for each address.
pub record IsPage (p : Page) : Type 0 where
  pub fits : p.addr + p.size < 2 ^ 64
  pub filled : length p.bytes ≡ p.size

-- Pages in order of address, apart from each other, between `lo` and `hi`.
abbrev pub IsRun : ℕ → List Page → ℕ → Type 0
IsRun lo [] hi = lo ≤ hi
IsRun lo (p ∷ ps) hi = (lo ≤ p.addr) × IsPage p × IsRun (p.addr + p.size) ps hi

-- A byte and its protection, at an address.
abbrev byte_of : ℕ → Option ℕ → Option (ℕ × ℕ)
byte_of prot none = none
byte_of prot (some b) = some (b, prot)

unfoldable pub cell_in : Page → ℕ → Option (ℕ × ℕ)
cell_in p a = if contains p a then byte_of p.prot (get_elem? p.bytes (a - p.addr)) else none

abbrev pub or_else : {A : Type 0} → Option A → Option A → Option A
or_else none y = y
or_else (some x) y = some x

-- The abstract memory: what is mapped at each address.
unfoldable pub cell : List Page → ℕ → Option (ℕ × ℕ)
cell [] a = none
cell (p ∷ ps) a = or_else (cell_in p a) (cell ps a)

pub cell-append : (xs ys : List Page) (a : ℕ) → cell (xs ++ ys) a ≡ or_else (cell xs a) (cell ys a)
unfolding cell
cell-append [] ys a = refl
cell-append (p ∷ xs) ys a = ground (arith, cell-append xs ys a)

pub IsRun-append :
    (xs ys : List Page) (lo mid hi : ℕ) → IsRun lo xs mid → IsRun mid ys hi → IsRun lo (xs ++ ys) hi
IsRun-append [] [] lo mid hi h k = omega arith
IsRun-append [] (q ∷ ys) lo mid hi h k = (omega arith, k.1, k.2)
IsRun-append (p ∷ xs) ys lo mid hi h k =
    (h.0, h.1, IsRun-append xs ys (p.addr + p.size) mid hi h.2 k)

pub IsRun-le : (ps : List Page) (lo hi : ℕ) → IsRun lo ps hi → lo ≤ hi
IsRun-le [] lo hi h = h
IsRun-le (p ∷ ps) lo hi h = omega (arith, IsRun-le ps (p.addr + p.size) hi h.2)

-- Nothing is mapped below a run.
pub cell-below : (ps : List Page) (lo hi a : ℕ) → IsRun lo ps hi → a < lo → cell ps a ≡ none
unfolding cell cell_in contains
cell-below [] lo hi a h l = refl
cell-below (p ∷ ps) lo hi a h l =
    ground (arith, cell-below ps (p.addr + p.size) hi a h.2 (omega arith))
