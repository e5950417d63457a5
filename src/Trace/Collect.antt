-- ===== src/Trace/Collect.antt =====
-- go/models/trace/trace.go: the collector, which turns the hooks of a running program into operations
-- in frames. What `tf.Pack` and the callbacks of `Send` are given is entered in lists. The registers
-- that `RegDumpFast` reads are an argument.
pub mod Live
pub mod Keyframe
use usercorn.Cpu.Page.{FileDesc}
use usercorn.Base.{
  ℕ, ◌+◌, ◌%◌, ◌^◌, Bool, true, false, not, ◌&&◌, ◌||◌, List, [], ◌∷◌, ◌++◌, Option, none, some,
  ◌==◌, if◌then◌else◌,
}
use usercorn.Trace.Op.{Op, exit, jmp, step, reg, mem_read, mem_write, mem_map, mem_unmap, mem_prot}
use usercorn.Trace.Batch.{MemBatch, Item, plain, batch, filter}
use usercorn.Trace.Batch as Batch

-- A system call while its effects are gathered.
pub record Sys : Type 0 where
  pub num : ℕ
  pub ret : ℕ
  pub args : List ℕ
  pub desc : List ℕ
  pub ops : List Item

-- What a frame holds.
pub data Entry : Type 0 where
  item : Item → Entry
  call : Sys → Entry

pub record Trace : Type 0 where
  pub reg_enums : List ℕ
  pub pc_reg : ℕ
  pub regs : List ℕ
  pub frame : Option (List Entry)
  pub syscall : Option Sys
  pub step : Option ℕ
  pub step_addr : ℕ
  -- the filter that `MemBatch` of the configuration turns on
  pub filters : Option MemBatch
  pub attached : Bool
  -- the frames that were packed
  pub packed : List (List Entry)
  -- what the callbacks were given since `Attach`
  pub sent : List Entry

unfoldable pub send : Trace → Entry → Trace
send t e = if t.attached then record t { sent = t.sent ++ (e ∷ []) } else t

abbrev pub packed_with : List (List Entry) → Option (List Entry) → List (List Entry)
packed_with packed none = packed
packed_with packed (some frame) = packed ++ (frame ∷ [])

-- A new frame, which starts with an entry.
abbrev new_frame : Trace → Entry → Trace
new_frame t e = send (record t { packed = packed_with t.packed t.frame; frame = some (e ∷ []) }) e

abbrev in_frame : Trace → List Entry → Entry → Trace
in_frame t frame e = send (record t { frame = some (frame ++ (e ∷ [])) }) e

abbrev in_sys : Trace → Sys → Item → Trace
in_sys t s i = record t { syscall = some (record s { ops = s.ops ++ (i ∷ []) }) }

abbrev is_step : Item → Bool
is_step (plain (step size)) = true
is_step _ = false

abbrev place_in : Trace → Option (List Entry) → Option Sys → Item → Bool → Trace
place_in t none sys i adv = new_frame t (item i)
place_in t (some frame) none i adv = if adv then new_frame t (item i) else in_frame t frame (item i)
place_in t (some frame) (some s) i adv =
    if is_step i then in_frame t frame (item i) else in_sys t s i

-- One round of the loop of `Append`.
unfoldable pub place : Trace → Item → Bool → Trace
place t i adv = place_in t t.frame t.syscall i adv

unfoldable pub place_all : Trace → List Item → Bool → Trace
place_all t [] adv = t
place_all t (i ∷ items) adv = place_all (place t i adv) items false

abbrev filter_with : Trace → Option MemBatch → Op → Trace × List Item
filter_with t none op = (t, plain op ∷ [])
filter_with t (some m) op = let r = filter m op in (record t { filters = some r.0 }, r.1)

-- Inside a system call the filters are left out.
abbrev filtered : Trace → Option Sys → Op → Trace × List Item
filtered t none op = filter_with t t.filters op
filtered t (some s) op = (t, plain op ∷ [])

unfoldable pub append : Trace → Op → Bool → Trace
append t op adv = let r = filtered t t.syscall op in place_all r.0 r.1 adv

-- `Append` of a system call, which is there only while no other one is open. The filters pass it on.
abbrev call_in : Trace → Option (List Entry) → Sys → Trace
call_in t none s = new_frame t (call s)
call_in t (some frame) s = in_frame t frame (call s)

unfoldable pub append_sys : Trace → Sys → Trace
append_sys t s = call_in t t.frame s

abbrev flush_with : Trace → Option MemBatch → Trace
flush_with t none = t
flush_with t (some m) =
    place_all (record t { filters = some (record m { mem_ops = [] }) }) (Batch.flush m.mem_ops)
      false

unfoldable pub flush_filters : Trace → Trace
flush_filters t = flush_with t t.filters

unfoldable pub append_all : Trace → List Op → Trace
append_all t [] = t
append_all t (op ∷ ops) = append_all (append t op false) ops

-- The registers that changed, and the values that are kept for the next time.
unfoldable pub changed_regs : (pc_reg : ℕ) → (enums regs dump : List ℕ) → List Op
changed_regs pc_reg (e ∷ enums) (r ∷ regs) (v ∷ dump) =
    let rest = changed_regs pc_reg enums regs dump in
    if not (r == v) && not (e == pc_reg) then reg (e % 2 ^ 16) v ∷ rest else rest
changed_regs pc_reg _ _ _ = []

unfoldable pub kept_regs : (pc_reg : ℕ) → (enums regs dump : List ℕ) → List ℕ
kept_regs pc_reg (e ∷ enums) (r ∷ regs) (v ∷ dump) =
    (if not (r == v) && not (e == pc_reg) then v else r) ∷ kept_regs pc_reg enums regs dump
kept_regs pc_reg _ regs _ = regs

unfoldable pub on_reg_update : Trace → List ℕ → Trace
on_reg_update t dump =
    append_all (record t { regs = kept_regs t.pc_reg t.reg_enums t.regs dump })
      (changed_regs t.pc_reg t.reg_enums t.regs dump)

unfoldable pub rewound : Trace → List ℕ → Trace
rewound t dump = record t {
  step = none;
  step_addr = 0;
  regs = kept_regs t.pc_reg t.reg_enums t.regs dump;
}

abbrev flush_sys_with : Trace → Option Sys → Trace
flush_sys_with t none = t
flush_sys_with t (some s) = append_sys (record t { syscall = none }) s

unfoldable pub flush_sys : Trace → Trace
flush_sys t = flush_sys_with t t.syscall

abbrev flush_step_with : Trace → List ℕ → Option ℕ → Trace
flush_step_with t dump none = t
flush_step_with t dump (some size) = record (append (on_reg_update t dump) (step size) false) {
  step = none;
}

unfoldable pub flush_step : Trace → List ℕ → Trace
flush_step t dump =
    flush_sys_with (flush_step_with (record t { syscall = none }) dump t.step) t.syscall

abbrev before_jmp : Trace → List ℕ → ℕ → Option ℕ → Trace
before_jmp t dump addr none = t
before_jmp t dump addr (some size) = if addr == t.step_addr then t else flush_step t dump

unfoldable pub on_jmp : Trace → List ℕ → (addr size : ℕ) → Trace
on_jmp t dump addr size = append (before_jmp t dump addr t.step) (jmp addr size) true

unfoldable pub on_step : Trace → List ℕ → (addr size : ℕ) → Trace
on_step t dump addr size =
    let flushed : Trace = record (flush_step t dump) {
      step = some (size % 256);
      step_addr = addr;
    } in
    if addr == t.step_addr then t else flushed

unfoldable pub on_sys_pre : Trace → (num : ℕ) → (args desc : List ℕ) → Trace
on_sys_pre t num args desc = record (flush_sys t) {
  syscall = some (record { num = num % 2 ^ 32; ret = 0; args = args; desc = desc; ops = [] });
}

abbrev sys_post : Trace → List ℕ → (ret : ℕ) → List ℕ → Option Sys → Trace
sys_post t dump ret desc none = t
sys_post t dump ret desc (some s) =
    on_reg_update (record t { syscall = some (record s { desc = s.desc ++ desc; ret = ret }) }) dump

unfoldable pub on_sys_post : Trace → List ℕ → (ret : ℕ) → List ℕ → Trace
on_sys_post t dump ret desc = sys_post t dump ret desc t.syscall

unfoldable pub on_exit : Trace → Trace
on_exit t = flush_sys (append t exit false)

unfoldable pub on_mem_read : Trace → (addr size : ℕ) → Trace
on_mem_read t addr size = append t (mem_read addr (size % 2 ^ 32)) false

unfoldable pub on_mem_write : Trace → ℕ → List ℕ → Trace
on_mem_write t addr p = append t (mem_write addr p) false

abbrev pub map_op : (addr size prot : ℕ) → List ℕ → Option FileDesc → Op
map_op addr size prot desc none = mem_map addr size (prot % 256) 0 0 desc []
map_op addr size prot desc (some f) = mem_map addr size (prot % 256) f.off f.len desc f.name

unfoldable pub on_mem_map : Trace → (addr size prot : ℕ) → List ℕ → Option FileDesc → Trace
on_mem_map t addr size prot desc file = append t (map_op addr size prot desc file) false

unfoldable pub on_mem_unmap : Trace → (addr size : ℕ) → Trace
on_mem_unmap t addr size = append t (mem_unmap addr size) false

unfoldable pub on_mem_prot : Trace → (addr size prot : ℕ) → Trace
on_mem_prot t addr size prot = append t (mem_prot addr size (prot % 256)) false

-- What the hooks, the map hooks and the system calls report.
pub data Event : Type 0 where
  at_block at_code : (addr size : ℕ) → Event
  at_regs : Event
  at_read at_unmap : (addr size : ℕ) → Event
  at_write : ℕ → List ℕ → Event
  at_map : (addr size prot : ℕ) → List ℕ → Option FileDesc → Event
  at_prot : (addr size prot : ℕ) → Event
  before_sys : (num : ℕ) (args desc : List ℕ) → Event
  after_sys : (ret : ℕ) (desc : List ℕ) → Event
  at_exit : Event

-- `dump` is what the registers hold then.
unfoldable pub on_event : Trace → List ℕ → Event → Trace
on_event t dump (at_block addr size) = on_jmp t dump addr size
on_event t dump (at_code addr size) = on_step t dump addr size
on_event t dump at_regs = on_reg_update t dump
on_event t dump (at_read addr size) = on_mem_read t addr size
on_event t dump (at_write addr p) = on_mem_write t addr p
on_event t dump (at_map addr size prot desc file) = on_mem_map t addr size prot desc file
on_event t dump (at_unmap addr size) = on_mem_unmap t addr size
on_event t dump (at_prot addr size prot) = on_mem_prot t addr size prot
on_event t dump (before_sys num args desc) = on_sys_pre t num args desc
on_event t dump (after_sys ret desc) = on_sys_post t dump ret desc
on_event t dump at_exit = on_exit t

unfoldable pub on_events : Trace → List (List ℕ × Event) → Trace
on_events t [] = t
on_events t ((dump, e) ∷ es) = on_events (on_event t dump e) es

-- `Detach`, but for the hooks that it deletes.
unfoldable pub detach : Trace → List ℕ → Trace
detach t dump =
    let flushed = flush_step (flush_filters t) dump in
    let last : Trace = record flushed {
      packed = packed_with flushed.packed flushed.frame;
      frame = none;
      attached = false;
      regs = [];
    } in
    if t.attached then last else t
