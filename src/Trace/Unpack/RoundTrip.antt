-- ===== src/Trace/Unpack/RoundTrip.antt =====
-- `Unpack` reads back what `Pack` wrote, and leaves what follows it.
use usercorn.Base.{
  ℕ, suc, ◌+◌, ◌-◌, ◌*◌, ◌%◌, ◌^◌, ◌≤◌, ◌<◌, ◌≡◌, refl, ap, subst, ◌∙◌, max, Bool, true, false,
  ◌&&◌, ◌||◌, List, [], ◌∷◌, ◌++◌, length, All, IsU64, ◌==◌, arith, append-nil, some, drop,
  length-append, length-drop, length-replicate, replicate, append_assoc, none, le→leb,
}
use usercorn.Base.Bytes.{le}
use usercorn.Trace.Pack.Writes.{all_written}
use usercorn.Trace.Pack.Encode.{put_args, pack}
use usercorn.Trace.Op.{
  Op, Ops, null, nop, exit, jmp, step, reg, sp_reg, mem_read, mem_write, mem_map, mem_unmap,
  mem_prot, syscall, keyframe, frame, nil, cons, count, sizeof, sizeof_ops, op_frame, op_keyframe,
  op_exit,
}
use usercorn.Trace.Pack.Bytes.{encode, encode_ops, IsWhole, AreWhole, pack-encode}
use usercorn.Trace.Unpack.Reader.{done, add_total}
use usercorn.Trace.Unpack.Decode.{
  unpack_ops, unpack_body, unpack, unpack_sp_reg, unpack_mem_write, unpack_mem_map, unpack_syscall,
}
use usercorn.Trace.Unpack.Fields.{
  unpack_jmp_lem, unpack_mem_read_lem, unpack_step_lem, unpack_reg_lem, unpack_mem_unmap_lem,
  unpack_mem_prot_lem, unpack_sp_reg_lem, unpack_mem_write_lem, unpack_mem_map_lem,
  unpack_frame_lem, unpack_syscall_lem, map_header,
}

-- `unpackOps` takes no frame and no keyframe.
abbrev pub IsInner : Op → Type 0
IsInner (keyframe pid ops) = ⊥
IsInner (frame pid ops) = ⊥
IsInner op = Unit

-- Every field fits its place in the encoding.
abbrev mutual
  pub Fits : Op → Type 0
  Fits null = ⊥
  Fits nop = Unit
  Fits exit = Unit
  Fits (jmp addr size) = IsU64 addr × (size < 2 ^ 32)
  Fits (step size) = size < 256
  Fits (reg num val) = (num < 2 ^ 16) × IsU64 val
  Fits (sp_reg num val) = (num < 2 ^ 16) × (length val < 2 ^ 16)
  Fits (mem_read addr size) = IsU64 addr × (size < 2 ^ 32)
  Fits (mem_write addr bytes) = IsU64 addr × (length bytes < 2 ^ 32)
  Fits (mem_map addr size prot off len desc file) =
      IsU64 addr
      × IsU64 size
      × (prot < 256)
      × IsU64 off
      × IsU64 len
      × (length desc + length file < 2 ^ 16)
  Fits (mem_unmap addr size) = IsU64 addr × IsU64 size
  Fits (mem_prot addr size prot) = IsU64 addr × IsU64 size × (prot < 256)
  Fits (syscall num ret args desc ops) =
      (num < 2 ^ 32)
      × IsU64 ret
      × (length args < 256)
      × All IsU64 args
      × (count ops < 2 ^ 16)
      × AllFit ops
  Fits (keyframe pid ops) = IsU64 pid × (count ops < 2 ^ 32) × AllFit ops
  Fits (frame pid ops) = IsU64 pid × (count ops < 2 ^ 32) × AllFit ops

  pub AllFit : Ops → Type 0
  AllFit nil = Unit
  AllFit (cons op ops) = Fits op × IsInner op × AllFit ops

-- The encoding of a system call leaves its description out.
abbrev mutual
  pub strip : Op → Op
  strip (syscall num ret args desc ops) = syscall num ret args [] (strip_ops ops)
  strip (keyframe pid ops) = keyframe pid (strip_ops ops)
  strip (frame pid ops) = frame pid (strip_ops ops)
  strip op = op

  pub strip_ops : Ops → Ops
  strip_ops nil = nil
  strip_ops (cons op ops) = cons (strip op) (strip_ops ops)

-- How deep operations nest.
abbrev mutual
  pub depth : Op → ℕ
  depth (syscall num ret args desc ops) = suc (depth_ops ops)
  depth (keyframe pid ops) = suc (depth_ops ops)
  depth (frame pid ops) = suc (depth_ops ops)
  depth op = 0

  pub depth_ops : Ops → ℕ
  depth_ops nil = 0
  depth_ops (cons op ops) = max (depth op) (depth_ops ops)

abbrev pub Allowed : Bool → Op → Type 0
Allowed true op = IsInner op
Allowed false op = Unit

pub no_frame : (nested : Bool) → (nested && false) ≡ false
no_frame true = refl
no_frame false = refl

-- The first byte selects the method, unless it is unknown or a frame inside another.
pub known :
    (fuel : ℕ) (nested : Bool) (b : ℕ) (src : List ℕ)
    → b ≤ op_exit
    → (nested && (b == op_frame || b == op_keyframe)) ≡ false
    → unpack (suc fuel) nested (b ∷ src) ≡ add_total 1 (unpack_body (unpack fuel true) b src)
unfolding unpack
known fuel nested b src h e = rw (le→leb b op_exit h, e)

-- Where frames are refused, none is there.
top_frame :
    (nested : Bool) (op : Op) → (IsInner op → ⊥) → Allowed nested op → (nested && true) ≡ false
top_frame true op frames a = absurd (frames a)
top_frame false op frames a = refl

retotal : (op : Op) (rest : List ℕ) (m n : ℕ) → m ≡ n → done op m rest ≡ done op n rest
retotal op rest m n e = ap (λ t. done op t rest) e

-- `one` stands for `Unpack(r, true)` with any fuel that is enough for `ops`.
abbrev ReadsOps : ℕ → Ops → List ℕ → Type 0
ReadsOps fuel ops rest =
    unpack_ops (unpack fuel true) (count ops) (encode_ops ops ++ rest)
    ≡ done (strip_ops ops, none) (sizeof_ops ops) rest

read_ops_of_pos :
    (ops : Ops) (fuel : ℕ) (rest : List ℕ)
    → suc (depth_ops ops) ≤ fuel
    → ReadsOps (suc (fuel - 1)) ops rest
    → ReadsOps fuel ops rest
read_ops_of_pos ops fuel rest d read = subst (λ k. ReadsOps k ops rest) (omega arith) read

mutual
  unfolding unpack_body unpack_ops

  decode_lem :
      (op : Op) (nested : Bool) (fuel : ℕ) (rest : List ℕ)
      → Fits op
      → Allowed nested op
      → depth op ≤ fuel
      → unpack (suc fuel) nested (encode op ++ rest) ≡ done (strip op) (sizeof op) rest
  decode_lem null nested fuel rest h a d = absurd h
  decode_lem nop nested fuel rest h a d = known fuel nested 0 _ (omega arith) (no_frame nested)
  decode_lem exit nested fuel rest h a d = known fuel nested 13 _ (omega arith) (no_frame nested)
  decode_lem (jmp addr size) nested fuel rest h a d =
      known fuel nested 3 _ (omega arith) (no_frame nested)
      ∙ ap (add_total 1) (unpack_jmp_lem addr size rest h.0 h.1)
  decode_lem (step size) nested fuel rest h a d =
      known fuel nested 4 _ (omega arith) (no_frame nested)
      ∙ ap (add_total 1) (unpack_step_lem size rest h)
  decode_lem (reg num val) nested fuel rest h a d =
      known fuel nested 5 _ (omega arith) (no_frame nested)
      ∙ ap (add_total 1) (unpack_reg_lem num val rest h.0 h.1)
  decode_lem (sp_reg num val) nested fuel rest h a d =
      known fuel nested 6 _ (omega arith) (no_frame nested)
      ∙ ap (add_total 1) (
          ap
            (λ (t : List ℕ).
              unpack_sp_reg ((le 2 num ++ le 2 (length val % 2 ^ 16)) ++ (t ++ rest)))
            (append-nil val)
          ∙ unpack_sp_reg_lem num val rest h.0 h.1)
      ∙ retotal (sp_reg num val) rest (1 + (4 + length val)) _ (omega arith)
  decode_lem (mem_read addr size) nested fuel rest h a d =
      known fuel nested 7 _ (omega arith) (no_frame nested)
      ∙ ap (add_total 1) (unpack_mem_read_lem addr size rest h.0 h.1)
  decode_lem (mem_write addr bytes) nested fuel rest h a d =
      known fuel nested 8 _ (omega arith) (no_frame nested)
      ∙ ap (add_total 1) (
          ap
            (λ (t : List ℕ).
              unpack_mem_write ((le 8 addr ++ le 4 (length bytes % 2 ^ 32)) ++ (t ++ rest)))
            (append-nil bytes)
          ∙ unpack_mem_write_lem addr bytes rest h.0 h.1)
      ∙ retotal (mem_write addr bytes) rest (1 + (12 + length bytes)) _ (omega arith)
  decode_lem (mem_map addr size prot off len desc file) nested fuel rest h a d =
      known fuel nested 9 _ (omega arith) (no_frame nested)
      ∙ ap (add_total 1) (
          ap
            (λ (t : List ℕ).
              unpack_mem_map (map_header addr size prot off len desc file ++ ((desc ++ t) ++ rest)))
            (append-nil file)
          ∙ unpack_mem_map_lem addr size prot off len desc file rest h.0 h.1 h.2 h.3 h.4 h.5)
      ∙ retotal (mem_map addr size prot off len desc file) rest
          (1 + (37 + (length desc + length file))) _ (omega arith)
  decode_lem (mem_unmap addr size) nested fuel rest h a d =
      known fuel nested 10 _ (omega arith) (no_frame nested)
      ∙ ap (add_total 1) (unpack_mem_unmap_lem addr size rest h.0 h.1)
  decode_lem (mem_prot addr size prot) nested fuel rest h a d =
      known fuel nested 11 _ (omega arith) (no_frame nested)
      ∙ ap (add_total 1) (unpack_mem_prot_lem addr size prot rest h.0 h.1 h.2)
  decode_lem (syscall num ret args desc ops) nested fuel rest h a d =
      known fuel nested 12 _ (omega arith) (no_frame nested)
      ∙ ap (add_total 1) (
          ap
            (λ (t : List ℕ). unpack_syscall (unpack fuel true) (
              (le 4 num ++ (le 8 ret ++ (le 1 (length args % 256) ++ le 2 (count ops % 2 ^ 16))))
              ++ t))
            (append_assoc (all_written (put_args 16 args)) (encode_ops ops) rest)
          ∙ unpack_syscall_lem (unpack fuel true) (strip_ops ops) (count ops) (sizeof_ops ops)
              (encode_ops ops ++ rest) rest num ret args 16 none
              (read_ops_of_pos ops fuel rest d
                (decode_ops_lem ops (fuel - 1) rest h.5 (omega arith)))
              h.0 h.1 h.2 h.3 h.4)
      ∙ retotal (syscall num ret args [] (strip_ops ops)) rest
          (1 + (15 + length args * 8 + sizeof_ops ops)) _ (omega arith)
  decode_lem (keyframe pid ops) nested fuel rest h a d =
      known fuel nested 2 _ (omega arith) (top_frame nested (keyframe pid ops) (λ n. n) a)
      ∙ ap (add_total 1) (
          unpack_frame_lem (unpack fuel true) (strip_ops ops) (count ops) (sizeof_ops ops)
            (encode_ops ops ++ rest) rest keyframe pid
            (read_ops_of_pos ops fuel rest d (decode_ops_lem ops (fuel - 1) rest h.2 (omega arith)))
            h.0 h.1)
      ∙ retotal (keyframe pid (strip_ops ops)) rest (1 + (12 + sizeof_ops ops)) _ (omega arith)
  decode_lem (frame pid ops) nested fuel rest h a d =
      known fuel nested 1 _ (omega arith) (top_frame nested (frame pid ops) (λ n. n) a)
      ∙ ap (add_total 1) (
          unpack_frame_lem (unpack fuel true) (strip_ops ops) (count ops) (sizeof_ops ops)
            (encode_ops ops ++ rest) rest frame pid
            (read_ops_of_pos ops fuel rest d (decode_ops_lem ops (fuel - 1) rest h.2 (omega arith)))
            h.0 h.1)
      ∙ retotal (frame pid (strip_ops ops)) rest (1 + (12 + sizeof_ops ops)) _ (omega arith)

  decode_ops_lem :
      (ops : Ops) (fuel : ℕ) (rest : List ℕ)
      → AllFit ops
      → depth_ops ops ≤ fuel
      → ReadsOps (suc fuel) ops rest
  decode_ops_lem nil fuel rest h d = refl
  decode_ops_lem (cons op ops) fuel rest h d = rw (
    append_assoc (encode op) (encode_ops ops) rest,
    decode_lem op true fuel (encode_ops ops ++ rest) h.0 h.1 (omega arith),
    decode_ops_lem ops fuel rest h.2 (omega arith),
  )

mutual
  depth-le : (op : Op) → depth op ≤ sizeof op
  depth-le (syscall num ret args desc ops) = omega (arith, depth_ops-le ops)
  depth-le (keyframe pid ops) = omega (arith, depth_ops-le ops)
  depth-le (frame pid ops) = omega (arith, depth_ops-le ops)
  depth-le op = omega arith

  depth_ops-le : (ops : Ops) → depth_ops ops ≤ sizeof_ops ops
  depth_ops-le nil = omega arith
  depth_ops-le (cons op ops) = omega (arith, depth-le op, depth_ops-le ops)

mutual
  pub Fits→IsWhole : (op : Op) → Fits op → IsWhole op
  Fits→IsWhole null h = h
  Fits→IsWhole (syscall num ret args desc ops) h = AllFit→AreWhole ops h.5
  Fits→IsWhole (keyframe pid ops) h = AllFit→AreWhole ops h.2
  Fits→IsWhole (frame pid ops) h = AllFit→AreWhole ops h.2
  Fits→IsWhole op h = tt

  AllFit→AreWhole : (ops : Ops) → AllFit ops → AreWhole ops
  AllFit→AreWhole nil h = tt
  AllFit→AreWhole (cons op ops) h = (Fits→IsWhole op h.0, AllFit→AreWhole ops h.2)

-- Whatever `op` is, if its fields fit, `Unpack` reads it back from its encoding, with the fuel that
-- the length of the input gives, counts `Sizeof` bytes and leaves what follows.
pub unpack-encode :
    (op : Op) (nested : Bool) (rest : List ℕ)
    → Fits op
    → Allowed nested op
    → unpack (suc (length (encode op ++ rest))) nested (encode op ++ rest)
      ≡ done (strip op) (sizeof op) rest
unpack-encode op nested rest h a =
    decode_lem op nested (length (encode op ++ rest)) rest h a
      (omega (arith, depth-le op, length-append (encode op) rest, length-encode))
  where
    length-encode : length (encode op) ≡ sizeof op
    length-encode =
        (pack-encode op (replicate (sizeof op) 0) (Fits→IsWhole op h)
          (omega (arith, length-replicate {A = ℕ} (sizeof op) 0))).1

-- `Pack` into any buffer with room for the operation does not panic, and `Unpack` of that buffer
-- returns the operation (without descriptions of system calls), counts `Sizeof` bytes, and leaves
-- the part of the buffer behind them as it was. The fields fit their encodings, and the operation
-- is no frame if frames are refused.
pub unpack-pack :
    (op : Op) (nested : Bool) (p : List ℕ)
    → Fits op
    → Allowed nested op
    → sizeof op ≤ length p
    → (out : List ℕ) × (pack op p ≡ some out)
      × (length out ≡ length p)
      × (unpack (suc (length out)) nested out ≡ done (strip op) (sizeof op) (drop (sizeof op) p))
unpack-pack op nested p h a l =
    let (ran, e) = pack-encode op p (Fits→IsWhole op h) l in
    (
      encode op ++ drop (sizeof op) p,
      ran,
      omega (arith, e, length-append (encode op) (drop (sizeof op) p), length-drop (sizeof op) p),
      unpack-encode op nested (drop (sizeof op) p) h a,
    )
