-- ===== src/Trace/Op.antt =====
-- go/models/trace/ops.go: the trace operations and the sizes of their encodings.
-- A string is the list of its bytes. `null` is the nil interface value, which `unpackOps` leaves
-- in the entries of its result that it does not reach.
use usercorn.Base.{ℕ, suc, ◌+◌, ◌*◌, List, length}

mutual
  pub data Op : Type 0 where
    null : Op
    nop : Op
    exit : Op
    jmp : (addr size : ℕ) → Op
    step : (size : ℕ) → Op
    reg : (num val : ℕ) → Op
    sp_reg : (num : ℕ) (val : List ℕ) → Op
    mem_read : (addr size : ℕ) → Op
    mem_write : (addr : ℕ) (bytes : List ℕ) → Op
    mem_map : (addr size prot off len : ℕ) (desc file : List ℕ) → Op
    mem_unmap : (addr size : ℕ) → Op
    mem_prot : (addr size prot : ℕ) → Op
    syscall : (num ret : ℕ) (args : List ℕ) (desc : List ℕ) (ops : Ops) → Op
    keyframe : (pid : ℕ) (ops : Ops) → Op
    frame : (pid : ℕ) (ops : Ops) → Op

  pub data Ops : Type 0 where
    nil : Ops
    cons : Op → Ops → Ops

-- The first byte of an encoding.
abbrev pub op_nop : ℕ
op_nop = 0

abbrev pub op_frame : ℕ
op_frame = 1

abbrev pub op_keyframe : ℕ
op_keyframe = 2

abbrev pub op_jmp : ℕ
op_jmp = 3

abbrev pub op_step : ℕ
op_step = 4

abbrev pub op_reg : ℕ
op_reg = 5

abbrev pub op_sp_reg : ℕ
op_sp_reg = 6

abbrev pub op_mem_read : ℕ
op_mem_read = 7

abbrev pub op_mem_write : ℕ
op_mem_write = 8

abbrev pub op_mem_map : ℕ
op_mem_map = 9

abbrev pub op_mem_unmap : ℕ
op_mem_unmap = 10

abbrev pub op_mem_prot : ℕ
op_mem_prot = 11

abbrev pub op_syscall : ℕ
op_syscall = 12

abbrev pub op_exit : ℕ
op_exit = 13

abbrev mutual
  pub count : Ops → ℕ
  count nil = 0
  count (cons op ops) = suc (count ops)

-- `Sizeof`. A call on the nil interface value faults in Go; `Pack`, which follows, faults too.
abbrev mutual
  pub sizeof : Op → ℕ
  sizeof null = 0
  sizeof nop = 1
  sizeof exit = 1
  sizeof (jmp addr size) = 1 + 8 + 4
  sizeof (step size) = 2
  sizeof (reg num val) = 1 + 2 + 8
  sizeof (sp_reg num val) = 1 + 2 + 2 + length val
  sizeof (mem_read addr size) = 1 + 8 + 4
  sizeof (mem_write addr bytes) = 1 + 8 + 4 + length bytes
  sizeof (mem_map addr size prot off len desc file) =
      1 + 8 + 8 + 1 + 8 + 8 + 2 + 2 + length desc + length file
  sizeof (mem_unmap addr size) = 1 + 8 + 8
  sizeof (mem_prot addr size prot) = 1 + 8 + 8 + 1
  sizeof (syscall num ret args desc ops) = 1 + 4 + 8 + 1 + 2 + length args * 8 + sizeof_ops ops
  sizeof (keyframe pid ops) = 1 + 8 + 4 + sizeof_ops ops
  sizeof (frame pid ops) = 1 + 8 + 4 + sizeof_ops ops

  pub sizeof_ops : Ops → ℕ
  sizeof_ops nil = 0
  sizeof_ops (cons op ops) = sizeof op + sizeof_ops ops
