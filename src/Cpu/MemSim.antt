-- ===== src/Cpu/MemSim.antt =====
-- go/models/cpu/memsim.go: the mapped memory as a list of pages, sorted by address.
use usercorn.Base.{
  ℕ, ◌+◌, ◌-◌, Bool, true, false, not, ◌&&◌, ◌||◌, List, [], ◌∷◌, ◌++◌, Option, none, some, length,
  take, drop, replicate, min, bit_and, ltb, leb, ◌==◌, if◌then◌else◌, add64, sub64,
}
use usercorn.Cpu.Page.{Page, page_end, contains, intersect, split}
use usercorn.Cpu.Pages.{bsearch}

-- `MemError.Enum`; the values are Unicorn's.
pub data Fault : Type 0 where
  write_unmapped read_unmapped fetch_unmapped write_prot read_prot fetch_prot : Fault

pub record MemError : Type 0 where
  pub addr : ℕ
  pub size : ℕ
  pub enum : Fault

-- `prot > 0 && (mm.Prot == 0 || mm.Prot&prot != prot)`
abbrev pub lacks : ℕ → Page → Bool
lacks prot mm = ltb 0 prot && (mm.prot == 0 || not (bit_and mm.prot prot == prot))

-- The loop of `RangeValid`: the first address that it did not reach, and whether all pages on the
-- way had the protection.
unfoldable pub walk : List Page → (addr end prot : ℕ) → Bool → ℕ × Bool
walk [] addr end prot good = (addr, good)
walk (mm ∷ ps) addr end prot good =
    let good' = good && not (lacks prot mm) in
    let rest = walk ps (page_end mm) end prot good' in
    if contains mm addr
    then (if leb end (page_end mm) then (page_end mm, good') else rest)
    else (addr, good)

abbrev pub range_from : List Page → (addr size prot : ℕ) → Option ℕ → Bool × Bool
range_from ps addr size prot none = (false, false)
range_from ps addr size prot (some first) =
    let (reached, good) = walk (drop first ps) addr (add64 addr size) prot true in
    (leb (add64 addr size) reached, good)

-- Whether the range is mapped, and whether its pages have the protection.
unfoldable pub range_valid : List Page → (addr size prot : ℕ) → Bool × Bool
range_valid ps addr size prot = range_from ps addr size prot (bsearch ps addr)

abbrev pub or_nothing : Option Page → List Page
or_nothing none = []
or_nothing (some p) = p ∷ []

-- A page without the part in the range.
unfoldable pub unmap_page : Page → ℕ → ℕ → List Page
unmap_page mm addr size =
    let i = intersect mm addr size in
    let parts = split mm i.0 i.1 in
    if i.2 then or_nothing parts.left ++ or_nothing parts.right else mm ∷ []

unfoldable pub unmap : List Page → ℕ → ℕ → List Page
unmap [] addr size = []
unmap (mm ∷ ps) addr size = unmap_page mm addr size ++ unmap ps addr size

-- The same, but the part in the range stays, with the new protection.
unfoldable pub protect_page : Page → ℕ → ℕ → ℕ → List Page
protect_page mm addr size prot =
    let i = intersect mm addr size in
    let parts = split mm i.0 i.1 in
    let mid : Page = record (parts.mid) { prot = prot } in
    if i.2 then or_nothing parts.left ++ (mid ∷ or_nothing parts.right) else mm ∷ []

unfoldable pub protect : List Page → ℕ → ℕ → ℕ → List Page
protect [] addr size prot = []
protect (mm ∷ ps) addr size prot = protect_page mm addr size prot ++ protect ps addr size prot

-- `copy(p, mm.Data[o:])` for each page in turn, into the buffer `p`.
unfoldable pub read_loop : List Page → ℕ → List ℕ → List ℕ
read_loop [] addr p = p
read_loop (mm ∷ ps) addr p =
    let o = sub64 addr mm.addr in
    let n = min (length p) (length mm.bytes - o) in
    let rest = read_loop ps (add64 addr n) (drop n p) in
    if contains mm addr then take n (drop o mm.bytes) ++ rest else p

-- `copy(mm.Data[o:], p)` for each page in turn.
unfoldable pub write_loop : List Page → ℕ → List ℕ → List Page
write_loop [] addr p = []
write_loop (mm ∷ ps) addr p =
    let o = sub64 addr mm.addr in
    let n = min (length p) (length mm.bytes - o) in
    let mm' : Page = record mm { bytes = take o mm.bytes ++ (take n p ++ drop (o + n) mm.bytes) } in
    let rest = write_loop ps (add64 addr n) (drop n p) in
    if contains mm addr then mm' ∷ rest else mm ∷ ps

pub data Outcome (A : Type 0) : Type 0 where
  ok : A → Outcome A
  err : MemError → Outcome A

module _ (prot_exec : ℕ) where
  -- `prot&PROT_EXEC == PROT_EXEC`
  abbrev pub is_fetch : ℕ → Bool
  is_fetch prot = bit_and prot prot_exec == prot_exec

  -- The error that `Read` returns, if any.
  abbrev pub read_fault : Bool × Bool → ℕ → Option Fault
  read_fault (mapped, good) prot =
      if not mapped
      then some (if is_fetch prot then fetch_unmapped else read_unmapped)
      else if not good
      then some (if is_fetch prot then fetch_prot else read_prot)
      else none

  abbrev pub read_at : List Page → ℕ → List ℕ → Option ℕ → List ℕ
  read_at ps addr p none = p
  read_at ps addr p (some i) = read_loop (drop i ps) addr p

  abbrev pub checked : {A : Type 0} → Option Fault → ℕ → ℕ → A → Outcome A
  checked (some e) addr size a = err (record { addr = addr; size = size; enum = e })
  checked none addr size a = ok a

  -- `Read(addr, p, prot)`: the buffer afterwards, which is `p` itself on an error.
  unfoldable pub read : List Page → ℕ → List ℕ → ℕ → Outcome (List ℕ)
  read ps addr p prot =
      checked (read_fault (range_valid ps addr (length p) prot) prot) addr (length p)
        (read_at ps addr p (bsearch ps addr))

abbrev pub write_fault : Bool × Bool → Option Fault
write_fault (mapped, good) =
    if not mapped then some write_unmapped else if not good then some write_prot else none

abbrev pub write_at : List Page → ℕ → List ℕ → Option ℕ → List Page
write_at ps addr p none = ps
write_at ps addr p (some i) = take i ps ++ write_loop (drop i ps) addr p

unfoldable pub write : List Page → ℕ → List ℕ → ℕ → Outcome (List Page)
write ps addr p prot =
    checked 0 (write_fault (range_valid ps addr (length p) prot)) addr (length p)
      (write_at ps addr p (bsearch ps addr))

-- `sort.Sort(m.Mem)` by address. The sort of the Go library need not be stable; where no two pages
-- start at one address there is one sorted order.
unfoldable pub insert_page : Page → List Page → List Page
insert_page p [] = p ∷ []
insert_page p (q ∷ qs) = if ltb p.addr q.addr then p ∷ q ∷ qs else q ∷ insert_page p qs

unfoldable pub sort : List Page → List Page
sort [] = []
sort (p ∷ ps) = insert_page p (sort ps)

abbrev or_buffer : Outcome (List ℕ) → List ℕ → List ℕ
or_buffer (ok p) zeros = p
or_buffer (err e) zeros = zeros

-- `Map`: the pages afterwards, and the new page. Without `zero` the range is read first.
unfoldable pub map_page : List Page → (addr size prot : ℕ) → Bool → Page
map_page ps addr size prot zeroed =
    let zeros = replicate size 0 in
    record {
      addr = addr;
      size = size;
      prot = prot;
      bytes = if zeroed then zeros else or_buffer (read 0 ps addr zeros 0) zeros;
      desc = [];
      file = none;
    }

-- The pages with a new one, which is at the range. An old page is cut only if all of the range is
-- mapped.
unfoldable pub add_page : List Page → (addr size : ℕ) → Page → List Page
add_page ps addr size page =
    let kept = if (range_valid ps addr size 0).0 then unmap ps addr size else ps in
    sort (kept ++ (page ∷ []))

unfoldable pub map : List Page → (addr size prot : ℕ) → Bool → List Page
map ps addr size prot zeroed = add_page ps addr size (map_page ps addr size prot zeroed)
