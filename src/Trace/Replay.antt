-- ===== src/Trace/Replay.antt =====
-- go/models/trace/replay.go: a trace played back into a memory, registers and a call stack. The
-- callbacks are not called: what `Emit` would give each of them is entered in a list.
pub mod Laws
use usercorn.Base.{
  ℕ, suc, Bool, true, false, List, [], ◌∷◌, ◌++◌, Option, none, some, ◌==◌, if◌then◌else◌, add64,
}
use usercorn.Cpu.Page.{Page}
use usercorn.Cpu.MemSim.{map_page, add_page}
use usercorn.Cpu.PackUint.{ByteOrder}
use usercorn.Cpu.Mem.{
  Mem, new_mem, Result, done, failed, panic, mem_unmap, mem_prot, mem_write, or_same,
}
use usercorn.Models.Callstack.{Stackframe}
use usercorn.Models.Callstack as Stack
use usercorn.Trace.Op.{
  Op, Ops, null, nop, exit, jmp, step, reg, sp_reg, mem_read, mem_write as op_write,
  mem_map as op_map, mem_unmap as op_unmap, mem_prot as op_prot, syscall, keyframe, frame, nil,
  cons,
}

pub record Replay : Type 0 where
  -- the number of the stack pointer, `Arch.SP`
  pub arch_sp : ℕ
  pub mem : Mem
  pub regs : ℕ → Option ℕ
  pub sp_regs : ℕ → Option (List ℕ)
  pub pc : ℕ
  pub sp : ℕ
  pub callstack : List Stackframe
  pub inscount : ℕ
  -- the size of the step that has not been flushed
  pub pending : Option ℕ
  pub effects : List Op
  -- what has been emitted, an operation with its effects
  pub emitted : List (Op × List Op)

unfoldable pub new_replay : (arch_sp bits : ℕ) → ByteOrder → Replay
new_replay arch_sp bits order = record {
  arch_sp = arch_sp;
  mem = new_mem bits order;
  regs = λ k. none;
  sp_regs = λ k. none;
  pc = 0;
  sp = 0;
  callstack = [];
  inscount = 0;
  pending = none;
  effects = [];
  emitted = [];
}

-- `m[key] = val`
abbrev set {ℓ} : {A : Type ℓ} → (ℕ → Option A) → ℕ → A → ℕ → Option A
set m key val k = if key == k then some val else m k

-- The new page, with what the operation says of it.
abbrev described : Page → (off len : ℕ) → List ℕ → List ℕ → Page
described page off len desc [] = record page { desc = desc }
described page off len desc (c ∷ file) = record page {
  desc = desc;
  file = some (record { name = c ∷ file; off = off; len = len });
}

abbrev update_map : Replay → (addr size prot off len : ℕ) → List ℕ → List ℕ → Replay
update_map r addr size prot off len desc file =
    let page = described (map_page r.mem.pages addr size prot true) off len desc file in
    record r { mem = record (r.mem) { pages = add_page r.mem.pages addr size page } }

abbrev update_reg : Replay → ℕ → ℕ → Replay
update_reg r num val =
    let moved = record r { sp = val; callstack = Stack.update r.callstack r.pc val } in
    record (if num == r.arch_sp then moved else r) { regs = set r.regs num val }

unfoldable mutual
  -- `update`
  pub update : Replay → Op → Replay
  update r (jmp addr size) = record r { pc = addr }
  update r (step size) = record r { pc = add64 r.pc size }
  update r (reg num val) = update_reg r num val
  update r (sp_reg num val) = record r { sp_regs = set r.sp_regs num val }
  update r (op_map addr size prot off len desc file) = update_map r addr size prot off len desc file
  update r (op_unmap addr size) = record r { mem = or_same r.mem (mem_unmap r.mem addr size) }
  update r (op_prot addr size prot) = record r {
    mem = or_same r.mem (mem_prot r.mem addr size prot);
  }
  update r (op_write addr p) = record r { mem = or_same r.mem (mem_write r.mem addr p) }
  update r (syscall num ret args desc ops) = update_all r ops
  update r op = r

  -- `for _, v := range o.Ops { r.update(v) }`
  pub update_all : Replay → Ops → Replay
  update_all r nil = r
  update_all r (cons op ops) = update_all (update r op) ops

abbrev pub to_list : Ops → List Op
to_list nil = []
to_list (cons op ops) = op ∷ to_list ops

unfoldable pub emit : Replay → Op → List Op → Replay
emit r op effects = record r { emitted = r.emitted ++ ((op, effects) ∷ []) }

unfoldable pub update_list : Replay → List Op → Replay
update_list r [] = r
update_list r (op ∷ ops) = update_list (update r op) ops

-- `Flush` where a step of this size is pending.
abbrev pub flush_step : Replay → ℕ → Replay
flush_step r size =
    let shown = emit r (step size) r.effects in
    let counted : Replay = record shown { inscount = suc shown.inscount } in
    let updated = update_list (update counted (step size)) r.effects in
    record updated { effects = []; pending = none }

abbrev pub flush_pending : Replay → Option ℕ → Replay
flush_pending r none = r
flush_pending r (some size) = flush_step r size

unfoldable pub flush : Replay → Replay
flush r = flush_pending r r.pending

abbrev pub feed_jmp : Replay → (addr size : ℕ) → Replay
feed_jmp r addr size =
    let r' = if addr == r.pc then r else flush r in
    update (emit r' (jmp addr size) []) (jmp addr size)

abbrev pub feed_step : Replay → ℕ → Replay
feed_step r size = record (flush r) { pending = some size }

abbrev pub feed_syscall : Replay → Op → Ops → Replay
feed_syscall r op ops = emit (update (flush r) op) op (to_list ops)

abbrev pub queue : Replay → Op → Replay
queue r op = record r { effects = r.effects ++ (op ∷ []) }

-- One round of the loop of `Feed`.
unfoldable pub feed_one : Replay → Op → Replay
feed_one r (jmp addr size) = feed_jmp r addr size
feed_one r (step size) = feed_step r size
feed_one r (syscall num ret args desc ops) = feed_syscall r (syscall num ret args desc ops) ops
feed_one r op = queue r op

unfoldable pub feed_all : Replay → Ops → Replay
feed_all r nil = r
feed_all r (cons op ops) = feed_all (feed_one r op) ops

unfoldable pub feed : Replay → Op → Replay
feed r (frame pid ops) = flush (feed_all r ops)
feed r (keyframe pid ops) = update_all (flush r) ops
feed r op = flush (feed_one r op)
