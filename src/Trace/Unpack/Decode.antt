-- ===== src/Trace/Unpack/Decode.antt =====
-- The decoder. `fuel` bounds how deep system calls nest; Unpack/Total.antt shows how much is enough.
use usercorn.Base.{
  ℕ, zero, suc, ◌+◌, ◌*◌, ◌%◌, ◌^◌, List, [], ◌∷◌, Bool, true, ◌&&◌, ◌||◌, Option, none, some,
  length, take, drop, leb, ◌==◌, if◌then◌else◌,
}
use usercorn.Base.Bytes.{le_val}
use usercorn.Trace.Op.{
  Op, Ops, null, nop, exit, jmp, step, reg, sp_reg, mem_read, mem_write, mem_map, mem_unmap,
  mem_prot, syscall, keyframe, frame, nil, cons, op_nop, op_frame, op_keyframe, op_jmp, op_step,
  op_reg, op_sp_reg, op_mem_read, op_mem_write, op_mem_map, op_mem_unmap, op_mem_prot, op_syscall,
  op_exit,
}
use usercorn.Trace.Unpack.Reader.{
  Error, Outcome, Read, done, failed, panic, stuck, ◌>>=◌, pure, fail, read_full, nested_frame,
  unknown_op, add_total, eof, wrapped, wrapping,
}

-- `order.UintN(tmp[at:])` with N = 8 * `n`
abbrev pub field : ℕ → ℕ → List ℕ → ℕ
field n at tmp = le_val (take n (drop at tmp))

abbrev pub unpack_jmp : Read Op
unpack_jmp = do tmp ← read_full 12; pure (jmp (field 8 0 tmp) (field 4 8 tmp))

-- `r.Read` of one byte: at the end of the input it fails with `io.EOF`.
abbrev pub unpack_step : Read Op
unpack_step = do tmp ← read_full 1; pure (step (field 1 0 tmp))

abbrev pub unpack_reg : Read Op
unpack_reg = do tmp ← read_full 10; pure (reg (field 2 0 tmp) (field 8 2 tmp))

abbrev pub unpack_sp_reg : Read Op
unpack_sp_reg = do
  tmp ← read_full 4
  val ← read_full (field 2 2 tmp)
  pure (sp_reg (field 2 0 tmp) val)

abbrev pub unpack_mem_read : Read Op
unpack_mem_read = do tmp ← read_full 12; pure (mem_read (field 8 0 tmp) (field 4 8 tmp))

abbrev pub unpack_mem_write : Read Op
unpack_mem_write = do
  tmp ← read_full 12
  bytes ← read_full (field 4 8 tmp)
  pure (mem_write (field 8 0 tmp) bytes)

-- `dlen` and `flen` are uint16, so that the sum wraps; `buf[:dlen]` and `buf[dlen:]` are checked.
abbrev pub unpack_mem_map : Read Op
unpack_mem_map = do
  tmp ← read_full 37
  let dlen = field 2 33 tmp
  let flen = field 2 35 tmp
  buf ← read_full ((dlen + flen) % 2 ^ 16)
  if leb dlen (length buf)
      then pure (
          mem_map (field 8 0 tmp) (field 8 8 tmp) (field 1 16 tmp) (field 8 17 tmp) (field 8 25 tmp)
            (take dlen buf) (drop dlen buf))
      else (λ src. panic)

abbrev pub unpack_mem_unmap : Read Op
unpack_mem_unmap = do tmp ← read_full 16; pure (mem_unmap (field 8 0 tmp) (field 8 8 tmp))

abbrev pub unpack_mem_prot : Read Op
unpack_mem_prot = do
  tmp ← read_full 17
  pure (mem_prot (field 8 0 tmp) (field 8 8 tmp) (field 1 16 tmp))

-- `n` nil values, as `make` leaves them.
abbrev pub nulls : ℕ → Ops
nulls zero = nil
nulls (suc n) = cons null (nulls n)

abbrev pub cons_read : Op → Ops × Option Error → Ops × Option Error
cons_read op (ops, e) = (cons op ops, e)

-- An operation in front of the others, and its bytes added to theirs.
abbrev pub after_op : Op → ℕ → Outcome (Ops × Option Error) → Outcome (Ops × Option Error)
after_op op total (done r n rest) = done (cons_read op r) (total + n) rest
after_op op total (failed e n rest) = failed e (total + n) rest
after_op op total panic = panic
after_op op total stuck = stuck

-- What `unpackOps` does with the outcome for one operation; `more` reads the others. On an error it
-- returns the operations so far, nil for the rest, and the error wrapped.
abbrev pub next_op : ℕ → Outcome Op → Read (Ops × Option Error) → Outcome (Ops × Option Error)
next_op left (failed e total rest) more = done (nulls left, some (wrapped e)) total rest
next_op left (done op total rest) more = after_op op total (more rest)
next_op left panic more = panic
next_op left stuck more = stuck

-- `unpackOps(r, count)`, where `one` is `Unpack(r, true)`. It returns the list with the error.
unfoldable pub unpack_ops : Read Op → ℕ → Read (Ops × Option Error)
unpack_ops one zero src = done (nil, none) 0 src
unpack_ops one (suc count) src = next_op (suc count) (one src) (unpack_ops one count)

abbrev pub unpack_args : ℕ → List ℕ → List ℕ
unpack_args zero tmp = []
unpack_args (suc n) tmp = field 8 0 tmp ∷ unpack_args n (drop 8 tmp)

-- The inner `err` shadows the one that is returned, so an error of `unpackOps` is dropped.
abbrev pub unpack_syscall : Read Op → Read Op
unpack_syscall one = do
  tmp ← wrapping (read_full 15)
  let args = field 1 12 tmp
  tmp2 ← wrapping (read_full (8 * args))
  r ← unpack_ops one (field 2 13 tmp)
  pure (syscall (field 4 0 tmp) (field 8 4 tmp) (unpack_args args tmp2) [] r.0)

abbrev pub return_frame : (ℕ → Ops → Op) → ℕ → Ops × Option Error → Read Op
return_frame make pid (ops, none) = pure (make pid ops)
return_frame make pid (ops, some e) = fail e

-- `OpFrame.Unpack`, which `OpKeyframe.Unpack` calls on itself.
abbrev pub unpack_frame : (ℕ → Ops → Op) → Read Op → Read Op
unpack_frame make one = do
  tmp ← wrapping (read_full 12)
  r ← unpack_ops one (field 4 8 tmp)
  return_frame make (field 8 0 tmp) r

-- The `Unpack` method of the operation that the first byte selects.
unfoldable pub unpack_body : Read Op → ℕ → Read Op
unpack_body one b =
    if b == op_nop
    then pure nop
    else if b == op_jmp
    then unpack_jmp
    else if b == op_step
    then unpack_step
    else if b == op_reg
    then unpack_reg
    else if b == op_sp_reg
    then unpack_sp_reg
    else if b == op_mem_read
    then unpack_mem_read
    else if b == op_mem_write
    then unpack_mem_write
    else if b == op_mem_map
    then unpack_mem_map
    else if b == op_mem_unmap
    then unpack_mem_unmap
    else if b == op_mem_prot
    then unpack_mem_prot
    else if b == op_syscall
    then unpack_syscall one
    else if b == op_frame
    then unpack_frame frame one
    else if b == op_keyframe
    then unpack_frame keyframe one
    else pure exit

-- `default:` of the switch
abbrev is_known : ℕ → Bool
is_known b = leb b op_exit

-- `Unpack(r, nested)`
unfoldable pub unpack : ℕ → Bool → Read Op
unpack zero nested src = stuck
unpack (suc fuel) nested [] = failed eof 0 []
unpack (suc fuel) nested (b ∷ src) =
    let one = unpack fuel true in
    if is_known b
    then (if nested && (b == op_frame || b == op_keyframe)
        then failed nested_frame 0 src
        else add_total 1 (unpack_body one b src))
    else failed (unknown_op b) 0 src
