-- ===== src/Cpu/Tests.antt =====
-- The theorems about the simulated memory, registers and hooks at concrete inputs.
use usercorn.Base.{◌+◌}
use usercorn.Base.{ℕ, ◌≡◌, refl, true, List, [], ◌∷◌, none, some, length, arith, inr, if◌then◌else◌}
use usercorn.Cpu.Page.{Page}
use usercorn.Cpu.Page.{contains as contains_page}
use usercorn.Cpu.Space.{cell_in}
use usercorn.Cpu.MemSim.{unmap, protect, map}
use usercorn.Cpu.Space.{IsRun, cell}
use usercorn.Cpu.Space.Parts.{within, with_prot}
use usercorn.Cpu.Space.Change.{unmap_lem, protect_lem}
use usercorn.Cpu.Pages.{find, bsearch, bsearch_loop}
use usercorn.Cpu.MemSim.{walk, write_loop}
use usercorn.Cpu.Space.Reads.{NonEmpty}
use usercorn.Cpu.Space.Insert.{Free}
use usercorn.Cpu.MemSim.{read, write, range_valid, ok}
use usercorn.Cpu.Space.Access.{Valid, range_valid-Valid, Reads, read-Reads}
use usercorn.Cpu.Space.Store.{Writes, write-Writes, read-write}
use usercorn.Cpu.Space.Maps.{map_lem}
use usercorn.Cpu.Search.{Found, find-Found}
use usercorn.Cpu.Regs.{Regs, set}
use usercorn.Cpu.Hooks.Kinds.{Enums, Hook, Hooks, no_hooks}
use usercorn.Cpu.Hooks.Laws.{IsValid}

abbrev page_of : ℕ → ℕ → List ℕ → Page
page_of addr prot bytes = record {
  addr = addr;
  size = length bytes;
  prot = prot;
  bytes = bytes;
  desc = [];
  file = none;
}

abbrev pages : List Page
pages = page_of 16 3 (1 ∷ 2 ∷ 3 ∷ 4 ∷ []) ∷ page_of 24 1 (5 ∷ 6 ∷ []) ∷ []

pages-IsRun : IsRun 0 pages 100
pages-IsRun = (
  omega arith,
  record { fits = omega arith; filled = refl },
  (omega arith, record { fits = omega arith; filled = refl }, omega arith),
)

unmap_lem_example :
    IsRun 0 (unmap pages 18 7) 100
    × ((a : ℕ) → cell (unmap pages 18 7) a ≡ (if within 18 25 a then none else cell pages a))
unmap_lem_example = unmap_lem pages 0 100 18 7 pages-IsRun (omega arith)

protect_lem_example :
    IsRun 0 (protect pages 18 7 5) 100
    × ((a : ℕ)
        → cell (protect pages 18 7 5) a
          ≡ (if within 18 25 a then with_prot 5 (cell pages a) else cell pages a))
protect_lem_example = protect_lem pages 0 100 18 7 5 pages-IsRun (omega arith)

find-Found_example : Found pages 25 (find pages 25)
find-Found_example = find-Found pages 0 100 25 pages-IsRun

abbrev regs : Regs
regs = record { mask = 255; vals = set (set (λ k. none) 1 10) 2 20 }

abbrev changed : Regs
changed = record { mask = 255; vals = set (set (λ k. none) 1 77) 2 88 }

is_missing : (k : ℕ) → regs.vals k ≡ none → changed.vals k ≡ none
is_missing k e = ground (arith, e)

-- Unicorn's values.
abbrev enums : Enums
enums = record {
  hook_intr = 1;
  hook_insn = 2;
  hook_code = 4;
  hook_block = 8;
  hook_mem_fetch = 4096;
  hook_mem_read = 1024;
  hook_mem_write = 2048;
  hook_mem_err = 1008;
  mem_fetch = 18;
  mem_read = 16;
  mem_write = 17;
}

abbrev new_mem_hook : Hook
new_mem_hook = record { id = 0; htype = 1024; start = 5; end = 9; mask = 16; cb = 42 }

abbrev one_hook : Hooks
one_hook = record {
  next = 1;
  code = [];
  block = [];
  intr = [];
  mem = new_mem_hook ∷ [];
  mem_fault = [];
}

no_hooks-IsValid : IsValid no_hooks
no_hooks-IsValid = record { code = tt; block = tt; intr = tt; mem = tt; mem_fault = tt }

-- Two pages that touch.
abbrev first_page : Page
first_page = page_of 16 3 (1 ∷ 2 ∷ 3 ∷ 4 ∷ [])

abbrev second_page : Page
second_page = page_of 20 1 (5 ∷ 6 ∷ [])

abbrev touching : List Page
touching = first_page ∷ second_page ∷ []

touching-IsRun : IsRun 0 touching 100
touching-IsRun = (
  omega arith,
  record { fits = omega arith; filled = refl },
  (omega arith, record { fits = omega arith; filled = refl }, omega arith),
)

touching-NonEmpty : NonEmpty touching
touching-NonEmpty = (omega arith, (omega arith, tt))

range_valid-Valid_example : Valid touching 18 (18 + 3) 1 (range_valid touching 18 3 1)
range_valid-Valid_example =
    range_valid-Valid touching 0 100 18 3 1 touching-IsRun touching-NonEmpty (omega arith)
      (omega arith)

read-Reads_example : Reads 4 touching 18 (0 ∷ 0 ∷ 0 ∷ []) 1 (read 4 touching 18 (0 ∷ 0 ∷ 0 ∷ []) 1)
read-Reads_example =
    read-Reads 4 touching 0 100 18 (0 ∷ 0 ∷ 0 ∷ []) 1 touching-IsRun touching-NonEmpty (omega arith)
      (omega arith)

write-Writes_example :
    Writes 0 touching 100 18 (7 ∷ 8 ∷ 9 ∷ []) 2 (write touching 18 (7 ∷ 8 ∷ 9 ∷ []) 2)
write-Writes_example =
    write-Writes touching 0 100 18 (7 ∷ 8 ∷ 9 ∷ []) 2 touching-IsRun touching-NonEmpty (omega arith)
      (omega arith)

abbrev overwritten : List Page
overwritten = page_of 16 3 (1 ∷ 2 ∷ 7 ∷ 8 ∷ []) ∷ page_of 20 1 (9 ∷ 6 ∷ []) ∷ []

write_touching : write touching 18 (7 ∷ 8 ∷ 9 ∷ []) 0 ≡ ok overwritten
unfolding write range_valid bsearch bsearch_loop walk contains_page write_loop
write_touching = refl

read-write_example : read 4 overwritten 18 (0 ∷ 0 ∷ 0 ∷ []) 0 ≡ ok (7 ∷ 8 ∷ 9 ∷ [])
read-write_example =
    read-write 4 touching overwritten 0 100 18 (7 ∷ 8 ∷ 9 ∷ []) (0 ∷ 0 ∷ 0 ∷ []) 0 touching-IsRun
      touching-NonEmpty (omega arith) (omega arith) refl write_touching

hole-Free : Free touching 40 (40 + 8)
unfolding cell cell_in contains_page
hole-Free x l u = ground arith

map_lem_example :
    IsRun 0 (map touching 40 8 3 true) 100
    × ((x : ℕ)
        → cell (map touching 40 8 3 true) x
          ≡ (if within 40 (40 + 8) x then some (0, 3) else cell touching x))
map_lem_example =
    map_lem touching 0 100 40 8 3 touching-IsRun touching-NonEmpty (omega arith) (omega arith)
      (omega arith) (omega arith) (inr hole-Free)
