-- ===== src/Corn/Heap.antt =====
-- go/usercorn.go: `Brk` and `MapStack`, over the mappings of a task. Descriptions are arguments, and so
-- are the protections that Unicorn names. `fuel` is that of `MemUnmap`.
use usercorn.Task.{fixed_page}
use usercorn.Task.{hint}
use usercorn.Base.{suc}
use usercorn.Base.{◌^◌}
use usercorn.Base.{
  ℕ, ◌+◌, ◌-◌, ◌*◌, ◌<◌, ◌≤◌, ◌≡◌, refl, ap, Bool, true, false, ◌&&◌, List, [], ◌∷◌, ◌++◌, Option,
  none, some, ltb, leb, if◌then◌else◌, add64, sub64, arith,
}
use usercorn.Cpu.Page.{Page, page_end}
use usercorn.Cpu.MemSim.{sort}
use usercorn.Cpu.Mem.{Mem, done, mem_map}
use usercorn.Cpu.Regs.{Regs, reg_write}
use usercorn.Cpu.Regs as RegFile
use usercorn.Task.{
  Task, mmap, mem_align, mapping, align, mem_reserve, mem_unmap, unmap_loop, align_down, tell,
  unmapped, new_page,
}

pub record Heap : Type 0 where
  pub task : Task
  pub brk : ℕ

-- The end of the mapping at the break and its protection, or the break itself.
abbrev brk_start : (prot_rw cur : ℕ) → Option Page → ℕ × ℕ
brk_start prot_rw cur none = (cur, prot_rw)
brk_start prot_rw cur (some m) = (page_end m, m.prot)

-- The heap, the break that is returned, and whether there was no error.
abbrev brk_mapped : (start addr : ℕ) → Option (Task × ℕ × Bool) → Option (Heap × ℕ × Bool)
brk_mapped start addr none = none
brk_mapped start addr (some (t, a, true)) = some (record { task = t; brk = addr }, addr, true)
brk_mapped start addr (some (t, a, false)) = some (record { task = t; brk = start }, start, false)

module _ (fuel prot_rw : ℕ) (desc : List ℕ) where
  abbrev brk_from : Heap → (addr : ℕ) → ℕ × ℕ → Option (Heap × ℕ × Bool)
  brk_from h addr (start, prot) =
      if ltb 0 (sub64 addr start)
      then brk_mapped start addr (mmap fuel h.task start (sub64 addr start) prot true desc none)
      else some (record h { brk = addr }, addr, true)

  unfoldable pub brk : Heap → (addr : ℕ) → Option (Heap × ℕ × Bool)
  brk h addr =
      if ltb 0 addr && leb h.brk addr
      then brk_from h addr (brk_start prot_rw h.brk (mapping h.task.mem h.brk 1))
      else some (h, h.brk, true)

-- The stack of a program and its registers.
pub record Stack : Type 0 where
  pub task : Task
  pub regs : Regs
  pub stack_base : ℕ
  pub stack_size : ℕ

module _ (fuel prot_all sp : ℕ) (desc guard_desc : List ℕ) where
  abbrev guarded : Stack → Option (Task × ℕ × Bool) → Option (Stack × Bool)
  guarded s none = none
  guarded s (some (t, a, good)) = some (record s { task = t }, good)

  abbrev with_sp : Stack → (end : ℕ) → (guard : Bool) → RegFile.Result Regs → Option (Stack × Bool)
  with_sp s end guard (RegFile.err e) = some (s, false)
  with_sp s end false (RegFile.ok r) = some (record s { regs = r }, true)
  with_sp s end true (RegFile.ok r) =
      guarded (record s { regs = r }) (mmap fuel s.task end mem_align 0 true guard_desc none)

  abbrev stack_mapped : Stack → (size : ℕ) → Bool → Option (Task × ℕ × Bool) → Option (Stack × Bool)
  stack_mapped s size guard none = none
  stack_mapped s size guard (some (t, a, false)) = some (record s { task = t }, false)
  stack_mapped s size guard (some (t, a, true)) =
      with_sp (record s { task = t }) (add64 a size) guard (reg_write s.regs sp (add64 a size))

  -- The stack, and whether there was no error.
  unfoldable pub map_stack : Stack → (base size : ℕ) → Bool → Option (Stack × Bool)
  map_stack s base size guard =
      stack_mapped (record s { stack_base = base; stack_size = size }) size guard
        (mmap fuel s.task base size prot_all true desc none)

-- Rounded to pages, what `Brk` asks for is empty.
align_back :
    (end addr k : ℕ)
    → end ≡ k * mem_align
    → end < addr + mem_align
    → addr < end
    → end + mem_align < 2 ^ 64
    → align end (sub64 addr end) ≡ (end, 0)
unfolding align
align_back end addr k e l u b =
    let back : add64 end (sub64 addr end) ≡ addr = omega (arith, l, u, b) in
    let up : align_down (add64 addr (mem_align - 1)) ≡ end = omega (arith, e, l, u, b) in
    let same : align_down end ≡ end = omega (arith, e) in
    let nothing : align_down (add64 (sub64 end end) (mem_align - 1)) ≡ 0 = omega (arith, b) in
    rw (back, up, same, nothing) refl

align_empty : (end k : ℕ) → end ≡ k * mem_align → end + mem_align < 2 ^ 64 → align end 0 ≡ (end, 0)
unfolding align
align_empty end k e b =
    let up : align_down (add64 (add64 end 0) (mem_align - 1)) ≡ end = omega (arith, e, b) in
    let same : align_down end ≡ end = omega (arith, e) in
    let nothing : align_down (add64 (sub64 end end) (mem_align - 1)) ≡ 0 = omega (arith, b) in
    rw (up, same, nothing) refl

abbrev pub empty_page : (end prot : ℕ) → List ℕ → Page
empty_page end prot desc = record {
  addr = end;
  size = 0;
  prot = prot;
  bytes = [];
  desc = desc;
  file = none;
}

unmap_free :
    (fuel : ℕ) (t : Task) (end : ℕ)
    → mapping t.mem end 0 ≡ none
    → unmap_loop (suc fuel) (tell t (unmapped end 0)) end 0 ≡ some (tell t (unmapped end 0))
unfolding unmap_loop
unmap_free fuel t end free = rw (free, unmap_loop) refl

reserve_empty :
    (fuel : ℕ) (t : Task) (end k : ℕ)
    → end ≡ k * mem_align
    → end + mem_align < 2 ^ 64
    → mapping t.mem end 0 ≡ none
    → mem_reserve (suc fuel) t end 0 true ≡ some (tell t (unmapped end 0), some (new_page end 0))
unfolding mem_reserve mem_unmap unmap_loop
reserve_empty fuel t end k e b free =
    let fixed : hint end true ≡ end = ground arith in
    simp (fixed, align_empty end k e b) (ap (λ r. fixed_page r end 0) (unmap_free fuel t end free))

mmap_empty :
    (fuel : ℕ) (t : Task) (end size prot k : ℕ) (desc : List ℕ) (cpu : Mem)
    → align end size ≡ (end, 0)
    → end ≡ k * mem_align
    → end + mem_align < 2 ^ 64
    → mapping t.mem end 0 ≡ none
    → mem_map t.cpu end 0 prot ≡ done cpu
    → (t' : Task) × (mmap (suc fuel) t end size prot true desc none ≡ some (t', end, true))
      × (t'.mem ≡ sort (t.mem ++ (empty_page end prot desc ∷ [])))
unfolding mmap
mmap_empty fuel t end size prot k desc cpu a e b free taken =
    simp (a, reserve_empty fuel t end k e b free, taken) (_, refl, refl)

-- A break that is moved within the last page of its mapping does not stay in it: `Brk` takes the end of
-- that mapping for the break, the difference wraps around, and an empty mapping is added there. It is
-- assumed that no mapping is found behind and that the cpu takes an empty mapping.
pub brk_empty :
    (fuel prot_rw : ℕ) (desc : List ℕ) (h : Heap) (m : Page) (addr k : ℕ) (cpu : Mem)
    → mapping h.task.mem h.brk 1 ≡ some m
    → page_end m ≡ k * mem_align
    → 0 < addr
    → h.brk ≤ addr
    → page_end m < addr + mem_align
    → addr < page_end m
    → page_end m + mem_align < 2 ^ 64
    → mapping h.task.mem (page_end m) 0 ≡ none
    → mem_map h.task.cpu (page_end m) 0 m.prot ≡ done cpu
    → (h' : Heap) × (brk (suc fuel) prot_rw desc h addr ≡ some (h', addr, true))
      × (h'.task.mem ≡ sort (h.task.mem ++ (empty_page (page_end m) m.prot desc ∷ [])))
unfolding brk
brk_empty fuel prot_rw desc h m addr k cpu found whole some_addr above near below room free taken =
    let (t, e, mem) =
      mmap_empty fuel h.task (page_end m) (sub64 addr (page_end m)) m.prot k desc cpu
        (align_back (page_end m) addr k whole near below room) whole room free taken in
    let grows : (ltb 0 addr && leb h.brk addr) ≡ true = ground (arith, some_addr, above) in
    let wraps : ltb 0 (sub64 addr (page_end m)) ≡ true = ground (arith, below, room) in
    (record { task = t; brk = addr }, rw (grows, found, wraps, e) refl, mem)
