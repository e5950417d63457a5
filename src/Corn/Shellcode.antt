-- ===== src/Corn/Shellcode.antt =====
-- go/usercorn.go: `RunShellcodeMapped`, `RunShellcode` and `RunAsm`. The run of the cpu and the
-- assembler are arguments, in `Env`. The registers hold what is written to them. A map is the list
-- of its entries. `fuel` is that of `MemUnmap`; a program is stuck where it does not suffice, which
-- is `stuck`.
pub mod Laws
mod Tests
use usercorn.Base.{
  ℕ, zero, suc, ◌+◌, ◌≡◌, refl, ◌∙◌, ap, sym, Bool, true, false, not, ◌&&◌, ◌||◌, List, [], ◌∷◌,
  ◌++◌, Option, none, some, length, ◌==◌, if◌then◌else◌, add64, All, Bool-cases, inl, inr, ◌⊎◌,
  arith,
}
use usercorn.Cpu.Page.{Page}
use usercorn.Cpu.Mem.{Mem, Result, done, failed, panic, mem_write}
use usercorn.Task.{Task, mapping, mmap, mem_unmap, mem_reserve}
use usercorn.Corn.Run.{Runner, trampoline}

pub record Machine : Type 0 where
  pub regs : ℕ → ℕ
  pub task : Task
  -- whether fuel did not suffice
  pub stuck : Bool

abbrev pub write_reg : ℕ → ℕ → (ℕ → ℕ) → ℕ → ℕ
write_reg reg val regs k = if reg == k then val else regs k

abbrev pub write_all : List (ℕ × ℕ) → (ℕ → ℕ) → ℕ → ℕ
write_all [] regs = regs
write_all ((reg, val) ∷ vals) regs = write_all vals (write_reg reg val regs)

-- The registers and their values.
abbrev pub saved : List ℕ → (ℕ → ℕ) → List (ℕ × ℕ)
saved [] regs = []
saved (reg ∷ rs) regs = (reg, regs reg) ∷ saved rs regs

abbrev pub keys : List (ℕ × ℕ) → List ℕ
keys [] = []
keys ((reg, val) ∷ vals) = reg ∷ keys vals

abbrev pub clobbered : List (ℕ × ℕ) → Option (List ℕ) → List ℕ
clobbered set_regs none = keys set_regs
clobbered set_regs (some rs) = rs

-- The run of the cpu, its registers for the pc and the stack, the assembler, the
-- protections that Unicorn names, and the text "shellcode".
pub record Env : Type 0 where
  pub start : Machine → (addr until : ℕ) → Machine × Bool
  pub stop : Machine → Machine × Bool
  pub asm : (addr : ℕ) → Option (List ℕ)
  pub pc_reg : ℕ
  pub sp_reg : ℕ
  pub prot_all : ℕ
  pub prot_rx : ℕ
  pub desc : List ℕ
  pub fuel : ℕ

-- What the loop of `RunAsm` comes to.
pub data Placed : Type 0 where
  at : Task → Page → List ℕ → Placed
  no_place : Task → Placed
  out_of_fuel : Placed

module _ (env : Env) where
  -- `Start`, where the code could be written
  abbrev pub started : (addr : ℕ) → (code : List ℕ) → Machine → Result Mem → Machine × Bool
  started addr code m (done c) =
      env.start (record m { task = record (m.task) { cpu = c } }) addr (add64 addr (length code))
  started addr code m (failed e) = (m, false)
  started addr code m panic = (m, false)

  abbrev pub restored : List (ℕ × ℕ) → Machine × Bool → Machine × Bool
  restored vals (m, good) = (record m { regs = write_all vals m.regs }, good)

  -- The function that `RunShellcodeMapped` hands to `Trampoline`.
  unfoldable pub run_code :
      (addr : ℕ) → List ℕ → List (ℕ × ℕ) → Option (List ℕ) → Machine → Machine × Bool
  run_code addr code set_regs regs_clobbered m =
      let vals = saved (clobbered set_regs regs_clobbered) m.regs in
      let m' = record m { regs = write_all set_regs m.regs } in
      restored vals (started addr code m' (mem_write m.task.cpu addr code))

  abbrev pub set_reg : ℕ → ℕ → Machine → Machine
  set_reg reg val m = record m { regs = write_reg reg val m.regs }

  abbrev pub tramp : Runner Machine → (Machine → Machine × Bool) → Runner Machine × Bool
  tramp r fun =
      trampoline env.stop (λ m. m.regs env.pc_reg) (λ m. m.regs env.sp_reg) (set_reg env.pc_reg)
        (set_reg env.sp_reg) r fun

  unfoldable pub run_shellcode_mapped :
      Runner Machine → ℕ → List ℕ → List (ℕ × ℕ) → Option (List ℕ) → Runner Machine × Bool
  run_shellcode_mapped r addr code set_regs regs_clobbered =
      tramp r (run_code addr code set_regs regs_clobbered)

  abbrev pub unmapped_task : Machine → Option Task → Machine × Bool
  unmapped_task m none = (record m { stuck = true }, true)
  unmapped_task m (some t) = (record m { task = t }, true)

  -- The deferred function, `MemUnmap`.
  unfoldable pub unmap_code : (addr size : ℕ) → Machine → Machine × Bool
  unmap_code addr size m = unmapped_task m (mem_unmap env.fuel m.task addr size)

  -- Runs code that is mapped, and then the deferred call, whose error is dropped.
  abbrev pub run_and_unmap :
      Runner Machine
      → (addr size : ℕ) → List ℕ
      → List (ℕ × ℕ)
      → Option (List ℕ)
      → Runner Machine × Bool
  run_and_unmap r addr size code set_regs regs_clobbered =
      let (r', good) = run_shellcode_mapped r addr code set_regs regs_clobbered in
      ((tramp r' (unmap_code addr size)).0, good)

  abbrev pub set_task : Runner Machine → Task → Runner Machine
  set_task r t = record r { world = record (r.world) { task = t } }

  abbrev pub code_mapped :
      Runner Machine
      → List ℕ
      → List (ℕ × ℕ)
      → Option (List ℕ)
      → Option (Task × ℕ × Bool)
      → Runner Machine × Bool
  code_mapped r code set_regs regs_clobbered none =
      (record r { world = record (r.world) { stuck = true } }, false)
  code_mapped r code set_regs regs_clobbered (some (t, addr, false)) = (set_task r t, false)
  code_mapped r code set_regs regs_clobbered (some (t, addr, true)) =
      run_and_unmap (set_task r t) addr (length code) code set_regs regs_clobbered

  abbrev pub exists : Option Page → Bool
  exists none = false
  exists (some m) = true

  unfoldable pub run_shellcode :
      Runner Machine → ℕ → List ℕ → List (ℕ × ℕ) → Option (List ℕ) → Runner Machine × Bool
  run_shellcode r addr code set_regs regs_clobbered =
      let size = length code in
      if not (addr == 0) && exists (mapping r.world.task.mem addr size)
      then (r, false)
      else code_mapped r code set_regs regs_clobbered
          (mmap env.fuel r.world.task addr size env.prot_all true env.desc none)

  abbrev retried : (Task → ℕ → Placed) → Page → Option Task → Placed
  retried again page none = out_of_fuel
  retried again page (some t) = again t page.addr

  -- The tries that are left after a reservation.
  abbrev reserved : (Task → ℕ → Placed) → (addr : ℕ) → List ℕ → Option (Task × Option Page) → Placed
  reserved again addr code none = out_of_fuel
  reserved again addr code (some (t, none)) = no_place t
  reserved again addr code (some (t, some page)) =
      if page.addr == addr
      then at t page code
      else retried again page (mem_unmap env.fuel t page.addr page.size)

  abbrev assembled : (Task → ℕ → Placed) → Task → (addr : ℕ) → Option (List ℕ) → Placed
  assembled again t addr none = no_place t
  assembled again t addr (some []) = no_place t
  assembled again t addr (some (c ∷ code)) =
      reserved again addr (c ∷ code) (mem_reserve env.fuel t addr (length (c ∷ code)) false)

  -- The loop with `n` tries left.
  unfoldable pub place_loop : ℕ → Task → ℕ → Placed
  place_loop zero t addr = no_place t
  place_loop (suc n) t addr = assembled (place_loop n) t addr (env.asm addr)

  abbrev pub run_if_mapped :
      Runner Machine
      → Page
      → List ℕ
      → List (ℕ × ℕ)
      → Option (List ℕ)
      → Option (Task × ℕ × Bool)
      → Runner Machine × Bool
  run_if_mapped r page code set_regs regs_clobbered none =
      (record r { world = record (r.world) { stuck = true } }, false)
  run_if_mapped r page code set_regs regs_clobbered (some (t, a, false)) = (set_task r t, false)
  run_if_mapped r page code set_regs regs_clobbered (some (t, a, true)) =
      run_and_unmap (set_task r t) page.addr page.size code set_regs regs_clobbered

  abbrev pub placed :
      Runner Machine → List (ℕ × ℕ) → Option (List ℕ) → Placed → Runner Machine × Bool
  placed r set_regs regs_clobbered (at t page code) =
      run_if_mapped (set_task r t) page code set_regs regs_clobbered
        (mmap env.fuel t page.addr page.size env.prot_rx true [] none)
  placed r set_regs regs_clobbered (no_place t) = (set_task r t, false)
  placed r set_regs regs_clobbered out_of_fuel =
      (record r { world = record (r.world) { stuck = true } }, false)

  unfoldable pub run_asm :
      Runner Machine → ℕ → List (ℕ × ℕ) → Option (List ℕ) → Runner Machine × Bool
  run_asm r addr set_regs regs_clobbered =
      placed r set_regs regs_clobbered (place_loop 101 r.world.task addr)
