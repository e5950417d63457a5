-- ===== src/Trace/Batch.antt =====
-- go/models/trace/filter_membatch.go: the filter that gathers the reads and writes of a basic block.
pub mod Laws
use usercorn.Base.{
  ℕ, ◌+◌, ◌%◌, ◌^◌, Bool, true, false, not, ◌&&◌, ◌||◌, List, [], ◌∷◌, ◌++◌, Option, none, some,
  length, ltb, ◌==◌, if◌then◌else◌, add64, sub64,
}
use usercorn.Trace.Op.{Op, jmp, step, mem_read, mem_write}

-- `tag`, the bytes ' ', '<', '>' and '~'.
pub data Tag : Type 0 where
  fresh grows_down grows_up mixed : Tag

pub record MemDelta : Type 0 where
  pub addr : ℕ
  pub last : List ℕ
  pub bytes : List ℕ
  pub size : ℕ
  pub write : Bool
  pub tag : Tag

-- Whether a delta is the one that `Adjacent` returns.
abbrev pub is_adjacent : MemDelta → (addr size : ℕ) → Bool → Bool
is_adjacent d addr size write =
    (if d.write then write else not write)
    && (addr == add64 d.addr d.size || addr == sub64 d.addr size)

-- `tag` after the delta grows in a direction.
abbrev pub retag : Tag → Tag → Tag
retag fresh dir = dir
retag grows_down grows_down = grows_down
retag grows_up grows_up = grows_up
retag old dir = mixed

-- The delta that is adjacent, after the event. In front of it `copy(data[len(p):], delta.data)`
-- copies nothing: `data` is made with the length of `p`, and only its capacity has room for more.
abbrev pub extend : MemDelta → (addr size : ℕ) → List ℕ → MemDelta
extend d addr size p =
    let before = ltb addr d.addr in
    record {
      addr = if before then sub64 d.addr size else d.addr;
      last = if d.write then p else d.last;
      bytes = if d.write then (if before then p else d.bytes ++ p) else d.bytes;
      size = (d.size + size) % 2 ^ 32;
      write = d.write;
      tag = retag d.tag (if before then grows_down else grows_up);
    }

abbrev pub new_delta : (addr size : ℕ) → List ℕ → Bool → MemDelta
new_delta addr size p write = record {
  addr = addr;
  last = if write then p else [];
  bytes = if write then p else [];
  size = size % 2 ^ 32;
  write = write;
  tag = fresh;
}

-- `MemLog.Update`, with the search of `Adjacent` for the first delta that fits.
unfoldable pub update : List MemDelta → (addr size : ℕ) → List ℕ → Bool → List MemDelta
update [] addr size p write = new_delta addr size p write ∷ []
update (d ∷ log) addr size p write =
    let rest = update log addr size p write in
    if is_adjacent d addr size write then extend d addr size p ∷ log else d ∷ rest

-- One round of the first loop of `Flush`.
abbrev pub log_op : List MemDelta → Op → List MemDelta
log_op log (mem_write addr p) = update log addr (length p % 2 ^ 32) p true
log_op log (mem_read addr size) = update log addr size [] false
log_op log other = log

unfoldable pub log_ops : List MemDelta → List Op → List MemDelta
log_ops log [] = log
log_ops log (op ∷ ops) = log_ops (log_op log op) ops

abbrev pub delta_op : MemDelta → Op
delta_op d = if d.write then mem_write d.addr d.bytes else mem_read d.addr d.size

unfoldable pub delta_ops : List MemDelta → List Op
delta_ops [] = []
delta_ops (d ∷ log) = delta_op d ∷ delta_ops log

-- What the filter passes on: an operation, or an `OpMemBatch`.
pub data Item : Type 0 where
  plain : Op → Item
  batch : List Op → Item

pub record MemBatch : Type 0 where
  pub mem_ops : List Op
  pub pc : ℕ
  pub selfjmp : Bool

abbrev pub batch_of : List Op → List Item
batch_of [] = []
batch_of (op ∷ ops) = batch (op ∷ ops) ∷ []

-- What `Flush` returns; it leaves no operations in the filter.
unfoldable pub flush : List Op → List Item
flush ops = batch_of (delta_ops (log_ops [] ops))

abbrev pub pass_jmp : MemBatch → (addr size : ℕ) → MemBatch × List Item
pass_jmp m addr size =
    if addr == m.pc then (record m { pc = addr; selfjmp = true }, plain (jmp addr size) ∷ []) else (
      record { mem_ops = []; pc = addr; selfjmp = false },
      flush m.mem_ops ++ (plain (jmp addr size) ∷ []),
    )

abbrev pub pass_step : MemBatch → ℕ → MemBatch × List Item
pass_step m size =
    if m.selfjmp
    then (
      record { mem_ops = []; pc = add64 m.pc size; selfjmp = false },
      flush m.mem_ops ++ (plain (step size) ∷ []),
    )
    else (record m { pc = add64 m.pc size }, plain (step size) ∷ [])

abbrev pub keep_op : MemBatch → Op → MemBatch × List Item
keep_op m op = (record m { mem_ops = m.mem_ops ++ (op ∷ []) }, plain op ∷ [])

unfoldable pub filter : MemBatch → Op → MemBatch × List Item
filter m (jmp addr size) = pass_jmp m addr size
filter m (step size) = pass_step m size
filter m (mem_read addr size) = keep_op m (mem_read addr size)
filter m (mem_write addr p) = keep_op m (mem_write addr p)
filter m op = (m, plain op ∷ [])

-- The filter on a sequence of operations.
unfoldable pub filter_all : MemBatch → List Op → MemBatch × List Item
filter_all m [] = (m, [])
filter_all m (op ∷ ops) =
    let first = filter m op in let rest = filter_all first.0 ops in (rest.0, first.1 ++ rest.1)
