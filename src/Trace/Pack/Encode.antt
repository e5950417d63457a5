-- ===== src/Trace/Pack/Encode.antt =====
-- `Pack` of each operation, and the bytes that it is to write.
use usercorn.Base.{
  ℕ, ◌+◌, ◌*◌, ◌%◌, ◌^◌, List, [], ◌∷◌, ◌++◌, Option, none, some, length, take, drop, leb,
  if◌then◌else◌,
}
use usercorn.Base.Bytes.{le}
use usercorn.Trace.Op.{
  Op, Ops, null, nop, exit, jmp, step, reg, sp_reg, mem_read, mem_write, mem_map, mem_unmap,
  mem_prot, syscall, keyframe, frame, nil, cons, count, sizeof, op_nop, op_frame, op_keyframe,
  op_jmp, op_step, op_reg, op_sp_reg, op_mem_read, op_mem_write, op_mem_map, op_mem_unmap,
  op_mem_prot, op_syscall, op_exit,
}
use usercorn.Trace.Pack.Writes.{Write, put, copy, writes, ◌>>=◌}

-- The arguments of a system call, eight bytes each, from offset `at`.
abbrev pub put_args : ℕ → List ℕ → List Write
put_args at [] = []
put_args at (v ∷ args) = put at (le 8 v) ∷ put_args (at + 8) args

-- What each `Pack` stores into its buffer before it packs the operations inside.
abbrev pub header : Op → List Write
header null = []
header nop = put 0 (op_nop ∷ []) ∷ []
header exit = put 0 (op_exit ∷ []) ∷ []
header (jmp addr size) = put 0 (op_jmp ∷ []) ∷ put 1 (le 8 addr) ∷ put 9 (le 4 size) ∷ []
header (step size) = put 0 (op_step ∷ []) ∷ put 1 (le 1 size) ∷ []
header (reg num val) = put 0 (op_reg ∷ []) ∷ put 1 (le 2 num) ∷ put 3 (le 8 val) ∷ []
header (sp_reg num val) =
    put 0 (op_sp_reg ∷ []) ∷ put 1 (le 2 num) ∷ put 3 (le 2 (length val % 2 ^ 16)) ∷ copy 5 val ∷ []
header (mem_read addr size) = put 0 (op_mem_read ∷ []) ∷ put 1 (le 8 addr) ∷ put 9 (le 4 size) ∷ []
header (mem_write addr bytes) =
    put 0 (op_mem_write ∷ [])
    ∷ put 1 (le 8 addr)
    ∷ put 9 (le 4 (length bytes % 2 ^ 32))
    ∷ copy 13 bytes
    ∷ []
header (mem_map addr size prot off len desc file) =
    put 0 (op_mem_map ∷ [])
    ∷ put 1 (le 8 addr)
    ∷ put 9 (le 8 size)
    ∷ put 17 (le 1 prot)
    ∷ put 18 (le 8 off)
    ∷ put 26 (le 8 len)
    ∷ put 34 (le 2 (length desc % 2 ^ 16))
    ∷ put 36 (le 2 (length file % 2 ^ 16))
    ∷ copy 38 desc
    ∷ copy (38 + length desc) file
    ∷ []
header (mem_unmap addr size) =
    put 0 (op_mem_unmap ∷ []) ∷ put 1 (le 8 addr) ∷ put 9 (le 8 size) ∷ []
header (mem_prot addr size prot) =
    put 0 (op_mem_prot ∷ []) ∷ put 1 (le 8 addr) ∷ put 9 (le 8 size) ∷ put 17 (le 1 prot) ∷ []
header (syscall num ret args desc ops) =
    put 0 (op_syscall ∷ [])
    ∷ put 1 (le 4 num)
    ∷ put 5 (le 8 ret)
    ∷ put 13 (le 1 (length args % 256))
    ∷ put 14 (le 2 (count ops % 2 ^ 16))
    ∷ put_args 16 args
header (keyframe pid ops) =
    put 0 (op_keyframe ∷ []) ∷ put 1 (le 8 pid) ∷ put 9 (le 4 (count ops % 2 ^ 32)) ∷ []
header (frame pid ops) =
    put 0 (op_frame ∷ []) ∷ put 1 (le 8 pid) ∷ put 9 (le 4 (count ops % 2 ^ 32)) ∷ []

-- `f(p[n:])`, in place.
abbrev pub from : ℕ → List ℕ → (List ℕ → Option (List ℕ)) → Option (List ℕ)
from n p f = do rest ← if leb n (length p) then f (drop n p) else none; some (take n p ++ rest)

unfoldable mutual
  pub pack : Op → List ℕ → Option (List ℕ)
  pack null p = none
  pack nop p = writes (header nop) p
  pack exit p = writes (header exit) p
  pack (jmp addr size) p = writes (header (jmp addr size)) p
  pack (step size) p = writes (header (step size)) p
  pack (reg num val) p = writes (header (reg num val)) p
  pack (sp_reg num val) p = writes (header (sp_reg num val)) p
  pack (mem_read addr size) p = writes (header (mem_read addr size)) p
  pack (mem_write addr bytes) p = writes (header (mem_write addr bytes)) p
  pack (mem_map addr size prot off len desc file) p =
      writes (header (mem_map addr size prot off len desc file)) p
  pack (mem_unmap addr size) p = writes (header (mem_unmap addr size)) p
  pack (mem_prot addr size prot) p = writes (header (mem_prot addr size prot)) p
  pack (syscall num ret args desc ops) p = do
    p' ← writes (header (syscall num ret args desc ops)) p
    from (16 + length args * 8) p' (pack_ops ops)
  pack (keyframe pid ops) p = do
    p' ← writes (header (keyframe pid ops)) p
    from 13 p' (pack_ops ops)
  pack (frame pid ops) p = do p' ← writes (header (frame pid ops)) p; from 13 p' (pack_ops ops)

  -- `op.Pack(p); p = p[op.Sizeof():]` for each operation
  pub pack_ops : Ops → List ℕ → Option (List ℕ)
  pack_ops nil p = some p
  pack_ops (cons op ops) p = do p' ← pack op p; from (sizeof op) p' (pack_ops ops)
