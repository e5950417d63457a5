-- ===== src/Corn/Rewind.antt =====
-- go/usercorn.go: `Rewind`, over the operations that the trace has given the callback of
-- `NewUsercornRaw`. The registers of the cpu hold what is written to them. `fuel` is that of
-- `MemUnmap`. Left out are the output, `Rewound` of the trace, and that the trace and the replay that runs
-- along are told of the mappings and of the writes to the memory.
pub mod Counts
pub mod Laws
mod Tests
use usercorn.Base.{
  ℕ, zero, suc, ◌+◌, ◌-◌, Bool, true, false, ◌&&◌, List, [], ◌∷◌, Option, none, some, take, ltb,
  ◌==◌, if◌then◌else◌,
}
use usercorn.Cpu.Page.{Page}
use usercorn.Cpu.Mem.{Mem, Result, done, failed, panic, mem_write}
use usercorn.Task.{Task, mmap}
use usercorn.Trace.Op.{Op, step, jmp}
use usercorn.Trace.Replay.{Replay, new_replay, feed}

pub record Rewinder : Type 0 where
  -- `config.Rewind`
  pub enabled : Bool
  pub rewind : List Op
  pub replay : Replay
  pub pc_reg : ℕ
  pub regs : ℕ → ℕ
  pub task : Task

-- Whether the operation behind an address says that it is not just the implicit pc after a call.
abbrev pub confirms : ℕ → Op → Bool
confirms addr (step size) = true
confirms addr (jmp to size) = to == addr
confirms addr op = false

-- The loop over `u.rewind`, from the position `pos` on: `good`, the position and the replay behind it.
unfoldable pub seek_loop :
    (target addr : ℕ) → List Op → Replay → (good : Bool) → (pos : ℕ) → Bool × ℕ × Replay
seek_loop target addr [] r good pos = (good, pos - 1, r)
seek_loop target addr (op ∷ ops) r good pos =
    let here = target == 0 && r.pc == addr in
    let rest = seek_loop target addr ops (feed r op) (if here then true else good) (pos + 1) in
    if ltb 0 target && r.inscount == target
    then (true, pos, r)
    else if here && good && confirms addr op
    then (good, pos, r)
    else rest

pub data Seek : Type 0 where
  not_enabled too_far missed : Seek
  found : (pos : ℕ) → Replay → Seek

abbrev pub sought : Bool × ℕ × Replay → Seek
sought (true, pos, r) = found pos r
sought (false, pos, r) = missed

abbrev pub fresh : Rewinder → Replay
fresh u = new_replay u.replay.arch_sp u.replay.mem.bits u.replay.mem.order

-- `Rewind` up to the place where the replay stops.
unfoldable pub seek : Rewinder → (by addr : ℕ) → Seek
seek u by addr =
    let target = if ltb 0 by then u.replay.inscount - by else 0 in
    if u.enabled
    then if ltb 0 by && ltb u.replay.inscount by
      then too_far
      else sought (seek_loop target addr u.rewind (fresh u) false 0)
    else not_enabled

abbrev pub or_zero : Option ℕ → ℕ
or_zero none = 0
or_zero (some v) = v

abbrev pub new_reg : (val : ℕ) → (old new : Option ℕ) → ℕ
new_reg val none new = val
new_reg val (some old) new = if old == or_zero new then val else or_zero new

-- The registers after the loop over `u.replay.Regs`.
unfoldable pub sync_regs : (old new : ℕ → Option ℕ) → (ℕ → ℕ) → ℕ → ℕ
sync_regs old new regs enum = new_reg (regs enum) (old enum) (new enum)

abbrev page_written : Task → Result Mem → Task × Bool
page_written t (done c) = (record t { cpu = c }, true)
page_written t (failed e) = (t, false)
page_written t panic = (t, false)

abbrev page_mapped : Page → Option (Task × ℕ × Bool) → Option (Task × Bool)
page_mapped p none = none
page_mapped p (some (t, a, false)) = some (t, false)
page_mapped p (some (t, a, true)) = some (page_written t (mem_write t.cpu p.addr p.bytes))

abbrev next_page : (Task → Option (Task × Bool)) → Option (Task × Bool) → Option (Task × Bool)
next_page rest none = none
next_page rest (some (t, false)) = some (t, false)
next_page rest (some (t, true)) = rest t

-- The loop that maps and fills the pages of the replay; `none` where the fuel does not suffice, else
-- whether there was no error.
unfoldable pub copy_pages : ℕ → List Page → Task → Option (Task × Bool)
copy_pages fuel [] t = some (t, true)
copy_pages fuel (p ∷ ps) t =
    next_page (copy_pages fuel ps) (page_mapped p (mmap fuel t p.addr p.size p.prot true [] none))

pub data Status : Type 0 where
  rewound refused map_failed out_of_fuel : Status

abbrev pub moved : Rewinder → (pos : ℕ) → Replay → Rewinder
moved u pos r = record u {
  rewind = take (pos + 1) u.rewind;
  replay = record (u.replay) {
    mem = r.mem;
    regs = r.regs;
    sp_regs = r.sp_regs;
    pc = r.pc;
    sp = r.sp;
    inscount = r.inscount;
  };
}

abbrev pub copied : Rewinder → (pos : ℕ) → Replay → Option (Task × Bool) → Rewinder × Status
copied u pos r none = (u, out_of_fuel)
copied u pos r (some (t, false)) = (record u { task = t }, map_failed)
copied u pos r (some (t, true)) = (moved (record u { task = t }) pos r, rewound)

abbrev pub set_pc : ℕ → ℕ → (ℕ → ℕ) → ℕ → ℕ
set_pc pc_reg pc regs enum = if enum == pc_reg then pc else regs enum

abbrev pub synced : Rewinder → Replay → Rewinder
synced u r = record u { regs = set_pc u.pc_reg r.pc (sync_regs u.replay.regs r.regs u.regs) }

abbrev pub go_back : ℕ → Rewinder → Seek → Rewinder × Status
go_back fuel u (found pos r) = copied (synced u r) pos r (copy_pages fuel r.mem.pages u.task)
go_back fuel u other = (u, refused)

unfoldable pub rewind : ℕ → Rewinder → (by addr : ℕ) → Rewinder × Status
rewind fuel u by addr = go_back fuel u (seek u by addr)
