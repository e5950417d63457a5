-- ===== src/Cpu/Page.antt =====
-- go/models/cpu/page.go: one mapped region. Its bytes are a value here: in Go the pages that `Split`
-- makes share one array, of which each keeps its own part.
-- A string is the list of its bytes.
use usercorn.Base.{
  ℕ, ◌+◌, ◌-◌, Bool, ◌&&◌, List, ◌++◌, Option, none, some, length, take, drop, replicate, ltb, leb,
  if◌then◌else◌, add64, sub64,
}

pub record FileDesc : Type 0 where
  pub name : List ℕ
  pub off : ℕ
  pub len : ℕ

pub record Page : Type 0 where
  pub addr : ℕ
  pub size : ℕ
  pub prot : ℕ
  pub bytes : List ℕ
  pub desc : List ℕ
  pub file : Option FileDesc

abbrev pub page_end : Page → ℕ
page_end p = add64 p.addr p.size

unfoldable pub contains : Page → ℕ → Bool
contains p a = leb p.addr a && ltb a (page_end p)

-- Where the part of `p` in a range starts, its size, and whether there is any.
unfoldable pub intersect : Page → ℕ → ℕ → ℕ × ℕ × Bool
intersect p addr size =
    let e2 = add64 addr size in
    let end = if ltb e2 (page_end p) then e2 else page_end p in
    let start = if ltb p.addr addr then addr else p.addr in (start, sub64 end start, ltb start end)

unfoldable pub overlaps : Page → ℕ → ℕ → Bool
overlaps p addr size = (intersect p addr size).2

abbrev slice_file : Option FileDesc → ℕ → Option FileDesc
slice_file none o = none
slice_file (some f) o =
    if ltb o f.len
    then some (record { name = f.name; off = add64 f.off o; len = f.len - o })
    else none

-- The slice bounds hold wherever `split` calls this on a page whose bytes are as many as its size.
unfoldable pub slice : Page → ℕ → ℕ → Page
slice p addr size =
    let o = sub64 addr p.addr in
    record {
      addr = addr;
      size = size;
      prot = p.prot;
      bytes = take size (drop o p.bytes);
      desc = p.desc;
      file = slice_file p.file o;
    }

pub record Parts : Type 0 where
  pub left : Option Page
  pub mid : Page
  pub right : Option Page

-- The page that is left after the part on the right has been cut off.
abbrev pub cut_right : Page → ℕ → Page
cut_right p ra = record p { bytes = take (sub64 ra p.addr) p.bytes }

-- The bytes that stay, after the part on the left has been cut off.
abbrev pub cut_left : Page → ℕ → List ℕ
cut_left p addr = if ltb p.addr addr then drop (sub64 addr p.addr) p.bytes else p.bytes

-- Zeros in front and behind, where the new range is wider than the page.
abbrev pub pad : Page → ℕ → ℕ → List ℕ → List ℕ
pad p addr size bytes =
    let front = if ltb addr p.addr then replicate (sub64 p.addr addr) 0 ++ bytes else bytes in
    let nraddr = add64 addr size in
    if ltb (page_end p) nraddr then front ++ replicate (sub64 nraddr (page_end p)) 0 else front

-- `Split` returns the left and right parts, and turns the page itself into the middle one.
unfoldable pub split : Page → ℕ → ℕ → Parts
split p addr size =
    let ra = add64 addr size in
    let rest = if ltb ra (page_end p) then cut_right p ra else p in
    record {
      left = if ltb p.addr addr then some (slice rest p.addr (sub64 addr p.addr)) else none;
      mid = record p { addr = addr; size = size; bytes = pad p addr size (cut_left rest addr) };
      right = if ltb ra (page_end p) then some (slice p ra (sub64 (page_end p) ra)) else none;
    }

-- `copy(pg.Data[addr-pg.Addr:], p)`
unfoldable pub write_page : Page → ℕ → List ℕ → Page
write_page pg addr p =
    let o = sub64 addr pg.addr in
    let n = if ltb (length pg.bytes - o) (length p) then length pg.bytes - o else length p in
    record pg { bytes = take o pg.bytes ++ (take n p ++ drop (o + n) pg.bytes) }
