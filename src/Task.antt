-- ===== src/Task.antt =====
-- go/task.go and go/mem.go: the mappings of an emulated program. The cpu of a task is here one whose
-- memory and registers are those of go/models/cpu. A `Page` of a task has no bytes. What the map
-- hooks are told is entered in a list.
use usercorn.Cpu.Mem.{or_same}
pub mod Mappings
pub mod Reserve
pub mod Stack
mod Tests
use usercorn.Base.{
  ℕ, zero, suc, ◌+◌, ◌-◌, ◌*◌, ◌/◌, ◌^◌, Bool, true, false, not, ◌&&◌, ◌||◌, List, [], ◌∷◌, ◌++◌,
  Option, none, some, length, replicate, ltb, leb, ◌==◌, if◌then◌else◌, add64, sub64, take,
}
use usercorn.Cpu.Page.{Page, FileDesc, page_end}
use usercorn.Cpu.MemSim.{sort}
use usercorn.Cpu.Mem.{
  Mem, Result, done, failed, panic, mem_map, mem_prot as cpu_mem_prot, mem_unmap as cpu_mem_unmap,
}

-- UC_MEM_ALIGN, which is also the number of the addresses of a page of the cpu
abbrev pub mem_align : ℕ
mem_align = 4096

abbrev pub base : ℕ
base = 0x10_0000

-- `x & mask`
abbrev pub align_down : ℕ → ℕ
align_down x = x / mem_align * mem_align

-- `align(addr, size, true)`
unfoldable pub align : ℕ → ℕ → ℕ × ℕ
align addr size =
    let right = align_down (add64 (add64 addr size) (mem_align - 1)) in
    let start = align_down addr in (start, align_down (add64 (sub64 right start) (mem_align - 1)))

-- What a map hook is told.
pub data MapEvent : Type 0 where
  mapped : (addr size prot : ℕ) → List ℕ → Option FileDesc → MapEvent
  unmapped : (addr size : ℕ) → MapEvent
  protected : (addr size prot : ℕ) → MapEvent

pub record Task : Type 0 where
  pub bits : ℕ
  pub mem : List Page
  pub cpu : Mem
  pub events : List MapEvent

abbrev pub matches : Page → ℕ → ℕ → Bool
matches m addr size =
    (ltb addr m.addr && ltb m.addr (add64 addr size)) || (leb m.addr addr && ltb addr (page_end m))

unfoldable pub mapping : List Page → ℕ → ℕ → Option Page
mapping [] addr size = none
mapping (m ∷ ms) addr size =
    let rest = mapping ms addr size in if matches m addr size then some m else rest

-- `mmap.Prot = prot` for the mapping that is found
unfoldable pub set_prot : List Page → ℕ → ℕ → ℕ → List Page
set_prot [] addr size prot = []
set_prot (m ∷ ms) addr size prot =
    let rest = set_prot ms addr size prot in
    if matches m addr size then record m { prot = prot } ∷ ms else m ∷ rest

abbrev pub tell : Task → MapEvent → Task
tell t e = record t { events = t.events ++ (e ∷ []) }

abbrev protected_task : Task → (addr size prot : ℕ) → Result Mem → Task × Bool
protected_task t addr size prot (done m) =
    (tell (record t { cpu = m }) (protected addr size prot), true)
protected_task t addr size prot (failed e) = (t, false)
protected_task t addr size prot panic = (t, false)

-- `MemProt`, and whether it returned no error.
unfoldable pub mem_prot : Task → (addr size prot : ℕ) → Task × Bool
mem_prot t addr size prot =
    let range = align addr size in
    let t' = record t { mem = set_prot t.mem range.0 range.1 prot } in
    protected_task t' range.0 range.1 prot (cpu_mem_prot t.cpu range.0 range.1 prot)

-- The edges of a mapping that is cut, before it is known whether the range is in its middle.
abbrev pub left_edge : Page → ℕ → ℕ → ℕ
left_edge m addr size =
    if leb addr m.addr && ltb m.addr (add64 addr size) then add64 addr size else m.addr

abbrev pub right_edge : Page → ℕ → ℕ → ℕ
right_edge m addr size =
    if ltb addr (page_end m) && leb (page_end m) (add64 addr size) then addr else page_end m

abbrev pub in_middle : Page → ℕ → ℕ → Bool
in_middle m addr size =
    ltb (left_edge m addr size) addr && ltb (add64 addr size) (right_edge m addr size)

-- What takes the place of a mapping that is cut.
abbrev pub kept_part : Page → ℕ → ℕ → List Page
kept_part m addr size =
    let left = left_edge m addr size in
    let right = right_edge m addr size in
    if leb right left || in_middle m addr size
    then []
    else record m { addr = left; size = sub64 right left } ∷ []

-- The mappings that are added where the range was in the middle.
abbrev pub new_parts : Page → ℕ → ℕ → List Page
new_parts m addr size =
    let after = add64 addr size in
    if in_middle m addr size
    then record m { size = sub64 addr m.addr; bytes = [] }
      ∷ record m { addr = after; size = sub64 (page_end m) after; bytes = [] }
      ∷ []
    else []

-- `t.Cpu.MemUnmap`, whose error is dropped
abbrev cpu_unmap : Mem → ℕ → ℕ → Mem
cpu_unmap m addr size = or_same m (cpu_mem_unmap m addr size)

abbrev cpu_unmaps : Mem → Page → ℕ → ℕ → Mem
cpu_unmaps c m addr size =
    let left = left_edge m addr size in
    let right = right_edge m addr size in
    let c1 = if ltb m.addr left then cpu_unmap c m.addr (sub64 left m.addr) else c in
    let c2 = if ltb right (page_end m) then cpu_unmap c1 right (sub64 (page_end m) right) else c1 in
    let c3 = if leb right left then cpu_unmap c m.addr m.size else c2 in
    if in_middle m addr size then cpu_unmap c3 addr size else c3

-- The mappings with the first that matches cut.
unfoldable pub cut_first : List Page → ℕ → ℕ → List Page
cut_first [] addr size = []
cut_first (m ∷ ms) addr size =
    let rest = cut_first ms addr size in
    if matches m addr size then kept_part m addr size ++ ms else m ∷ rest

-- One round of the loop of `MemUnmap`, for the mapping `m` that was found.
abbrev pub unmap_round : Task → Page → ℕ → ℕ → Task
unmap_round t m addr size = record t {
  mem = cut_first t.mem addr size ++ new_parts m addr size;
  cpu = cpu_unmaps t.cpu m addr size;
}

-- The loop, `none` where the rounds do not suffice.
unfoldable pub unmap_loop : ℕ → Task → ℕ → ℕ → Option Task
unmap_loop zero t addr size = none
unmap_loop (suc fuel) t addr size = elim (mapping t.mem addr size) [
  | none ↦ some t
  | some m ↦ unmap_loop fuel (unmap_round t m addr size) addr size
]

unfoldable pub mem_unmap : ℕ → Task → ℕ → ℕ → Option Task
mem_unmap fuel t addr size =
    let range = align addr size in
    unmap_loop fuel (tell t (unmapped range.0 range.1)) range.0 range.1

-- `&cpu.Page{Addr: addr, Size: size, Prot: cpu.PROT_NONE}`
abbrev pub new_page : ℕ → ℕ → Page
new_page addr size = record {
  addr = addr;
  size = size;
  prot = 0;
  bytes = [];
  desc = [];
  file = none;
}

-- The loop of `MemReserve`; `none` after the last page, or where the rounds do not suffice.
unfoldable pub reserve_loop : ℕ → List Page → (i last size : ℕ) → Option Page
reserve_loop zero ms i last size = none
reserve_loop (suc fuel) ms i last size =
    if ltb i last
    then elim (mapping ms i size) [
      | none ↦ some (new_page i size)
      | some m ↦ reserve_loop fuel ms (add64 i mem_align) last size
    ]
    else none

abbrev pub last_page : ℕ → ℕ
last_page bits = add64 (sub64 (2 ^ bits - 1) mem_align) 2

abbrev pub hint : ℕ → Bool → ℕ
hint addr fixed = if addr == 0 && not fixed then base else addr

abbrev pub fixed_page : Option Task → ℕ → ℕ → Option (Task × Option Page)
fixed_page none addr size = none
fixed_page (some t) addr size = some (t, some (new_page addr size))

-- `MemReserve`: `none` where the rounds do not suffice for `MemUnmap`, else the task and the page.
unfoldable pub mem_reserve : ℕ → Task → (addr size : ℕ) → Bool → Option (Task × Option Page)
mem_reserve fuel t addr size fixed =
    let range = align (hint addr fixed) size in
    if fixed
    then fixed_page (mem_unmap fuel t range.0 range.1) range.0 range.1
    else some (t, reserve_loop fuel t.mem range.0 (last_page t.bits) range.1)

abbrev pub map_reserved :
    (prot : ℕ) → List ℕ → Option FileDesc → Page → Task → Result Mem → Task × ℕ × Bool
map_reserved prot desc file page t (done c) =
    let page' = record page { prot = prot; desc = desc; file = file } in
    let t' : Task = record t { mem = sort (t.mem ++ (page' ∷ [])); cpu = c } in
    (tell t' (mapped page.addr page.size prot desc file), page.addr, true)
map_reserved prot desc file page t (failed e) = (t, page.addr, false)
map_reserved prot desc file page t panic = (t, page.addr, false)

-- `file.Off += aligned - addr`
abbrev pub moved_file : Option FileDesc → ℕ → Option FileDesc
moved_file none by = none
moved_file (some f) by = some (record f { off = add64 f.off by })

abbrev pub map_page :
    (prot : ℕ) → List ℕ → Option FileDesc → Option (Task × Option Page) → Option (Task × ℕ × Bool)
map_page prot desc file none = none
map_page prot desc file (some (t, none)) = some (t, 0, false)
map_page prot desc file (some (t, some page)) =
    some (map_reserved prot desc file page t (mem_map t.cpu page.addr page.size prot))

-- `Mmap`: the task, the address, and whether there was no error.
unfoldable pub mmap :
    ℕ → Task → (addr size prot : ℕ) → Bool → List ℕ → Option FileDesc → Option (Task × ℕ × Bool)
mmap fuel t addr size prot fixed desc file =
    let range = align addr size in
    map_page prot desc (moved_file file (sub64 range.0 addr))
      (mem_reserve fuel t range.0 range.1 fixed)
