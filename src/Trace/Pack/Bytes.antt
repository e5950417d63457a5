-- ===== src/Trace/Pack/Bytes.antt =====
-- What `Pack` writes: the encoding of the operation at the front of the buffer, and nothing else.
use usercorn.Base.{
  ℕ, ◌+◌, ◌*◌, ◌≤◌, ◌≡◌, ap, List, [], ◌∷◌, ◌++◌, Option, some, length, drop, arith, length-append,
  refl, le→leb, take_prefix, drop_prefix, drop-drop, length-drop, append_assoc,
}
use usercorn.Trace.Op.{
  Op, Ops, null, nop, exit, jmp, step, reg, sp_reg, mem_read, mem_write, mem_map, mem_unmap,
  mem_prot, syscall, keyframe, frame, nil, cons, sizeof, sizeof_ops,
}
use usercorn.Trace.Pack.Writes.{Write, writes, ◌>>=◌, IsContiguous, all_written, writes_contiguous}
use usercorn.Trace.Pack.Encode.{header, put_args, from, pack, pack_ops}

-- The encoding as one string of bytes.
abbrev mutual
  pub encode : Op → List ℕ
  encode (syscall num ret args desc ops) =
      all_written (header (syscall num ret args desc ops)) ++ encode_ops ops
  encode (keyframe pid ops) = all_written (header (keyframe pid ops)) ++ encode_ops ops
  encode (frame pid ops) = all_written (header (frame pid ops)) ++ encode_ops ops
  encode op = all_written (header op)

  pub encode_ops : Ops → List ℕ
  encode_ops nil = []
  encode_ops (cons op ops) = encode op ++ encode_ops ops

-- No operation in it is the nil interface value.
abbrev mutual
  pub IsWhole : Op → Type 0
  IsWhole null = ⊥
  IsWhole (syscall num ret args desc ops) = AreWhole ops
  IsWhole (keyframe pid ops) = AreWhole ops
  IsWhole (frame pid ops) = AreWhole ops
  IsWhole op = Unit

  pub AreWhole : Ops → Type 0
  AreWhole nil = Unit
  AreWhole (cons op ops) = IsWhole op × AreWhole ops

pub length-put_args :
    (at : ℕ) (args : List ℕ) → length (all_written (put_args at args)) ≡ length args * 8
length-put_args at [] = refl
length-put_args at (v ∷ args) = omega (arith, length-put_args (at + 8) args)

put_args-IsContiguous : (at : ℕ) (args : List ℕ) → IsContiguous at (put_args at args)
put_args-IsContiguous at [] = tt
put_args-IsContiguous at (v ∷ args) = (refl, put_args-IsContiguous (at + 8) args)

-- `p` with `bytes` stored over its front.
abbrev over : List ℕ → List ℕ → List ℕ
over bytes p = bytes ++ drop (length bytes) p

writes-over :
    (ws : List Write) (p : List ℕ)
    → IsContiguous 0 ws
    → length (all_written ws) ≤ length p
    → writes ws p ≡ some (over (all_written ws) p)
writes-over ws p c h = writes_contiguous ws [] p c h

from-over :
    (n : ℕ) (f : List ℕ → Option (List ℕ)) (front back p : List ℕ)
    → length front ≡ n
    → length front + length back ≤ length p
    → f (drop n p) ≡ some (over back (drop n p))
    → from n (over front p) f ≡ some (over (front ++ back) p)
from-over n f front back p e h ran =
    rw
      (
        le→leb n (length (over front p)) fits,
        drop_prefix front (drop (length front) p) e,
        take_prefix front (drop (length front) p) e,
        ran',
      )
      (ap some (
        rw (
          append_assoc front back,
          drop-drop (length front) (length back) p,
          length-append front back,
        )))
  where
    fits : n ≤ length (over front p)
    fits = omega (arith, length-append front (drop (length front) p), length-drop (length front) p)

    ran' : f (drop (length front) p) ≡ some (over back (drop (length front) p))
    ran' = rw e ran

-- An operation with no others inside.
leaf :
    (ws : List Write) (n : ℕ) (p : List ℕ)
    → IsContiguous 0 ws
    → length (all_written ws) ≡ n
    → n ≤ length p
    → (writes ws p ≡ some (over (all_written ws) p)) × (length (all_written ws) ≡ n)
leaf ws n p c e h = (writes-over ws p c (omega arith), e)

-- An operation with others behind its header.
group :
    (ws : List Write) (n : ℕ) (ops : Ops) (p : List ℕ)
    → IsContiguous 0 ws
    → length (all_written ws) ≡ n
    → n + sizeof_ops ops ≤ length p
    → (pack_ops ops (drop n p) ≡ some (over (encode_ops ops) (drop n p)))
      × (length (encode_ops ops) ≡ sizeof_ops ops)
    → ((writes ws p >>= λ p'. from n p' (pack_ops ops))
        ≡ some (over (all_written ws ++ encode_ops ops) p))
      × (length (all_written ws ++ encode_ops ops) ≡ n + sizeof_ops ops)
group ws n ops p c e h (ran, l) = (
  rw (writes-over ws p c (omega arith))
      (from-over n (pack_ops ops) (all_written ws) (encode_ops ops) p e (omega arith) ran),
  omega (arith, length-append (all_written ws) (encode_ops ops)),
)

-- `pack op` on a buffer with room for `op` stores the encoding over its front.
mutual
  unfolding pack

  pack_lem :
      (op : Op) (p : List ℕ)
      → IsWhole op
      → sizeof op ≤ length p
      → (pack op p ≡ some (over (encode op) p)) × (length (encode op) ≡ sizeof op)
  pack_lem null p w h = absurd w
  pack_lem nop p w h = leaf (header nop) 1 p (omega arith) refl h
  pack_lem exit p w h = leaf (header exit) 1 p (omega arith) refl h
  pack_lem (jmp addr size) p w h = leaf (header (jmp addr size)) 13 p (omega arith) refl h
  pack_lem (step size) p w h = leaf (header (step size)) 2 p (omega arith) refl h
  pack_lem (reg num val) p w h = leaf (header (reg num val)) 11 p (omega arith) refl h
  pack_lem (sp_reg num val) p w h =
      leaf (header (sp_reg num val)) _ p (omega arith) (omega (arith, length-append val [])) h
  pack_lem (mem_read addr size) p w h = leaf (header (mem_read addr size)) 13 p (omega arith) refl h
  pack_lem (mem_write addr bytes) p w h =
      leaf (header (mem_write addr bytes)) _ p (omega arith) (omega (arith, length-append bytes []))
        h
  pack_lem (mem_map addr size prot off len desc file) p w h =
      leaf (header (mem_map addr size prot off len desc file)) _ p (omega arith)
        (omega (arith, length-append desc (file ++ []), length-append file [])) h
  pack_lem (mem_unmap addr size) p w h =
      leaf (header (mem_unmap addr size)) 17 p (omega arith) refl h
  pack_lem (mem_prot addr size prot) p w h =
      leaf (header (mem_prot addr size prot)) 18 p (omega arith) refl h
  pack_lem (syscall num ret args desc ops) p w h =
      group (header (syscall num ret args desc ops)) _ ops p
        (refl, (refl, (refl, (refl, (refl, put_args-IsContiguous 16 args)))))
        (omega (arith, length-put_args 16 args)) h
        (pack_ops_lem ops (drop (16 + length args * 8) p) w
          (omega (arith, length-drop (16 + length args * 8) p)))
  pack_lem (keyframe pid ops) p w h =
      group (header (keyframe pid ops)) 13 ops p (omega arith) refl h
        (pack_ops_lem ops (drop 13 p) w (omega (arith, length-drop 13 p)))
  pack_lem (frame pid ops) p w h =
      group (header (frame pid ops)) 13 ops p (omega arith) refl h
        (pack_ops_lem ops (drop 13 p) w (omega (arith, length-drop 13 p)))

  pack_ops_lem :
      (ops : Ops) (p : List ℕ)
      → AreWhole ops
      → sizeof_ops ops ≤ length p
      → (pack_ops ops p ≡ some (over (encode_ops ops) p))
        × (length (encode_ops ops) ≡ sizeof_ops ops)
  pack_ops_lem nil p w h = (refl, refl)
  pack_ops_lem (cons op ops) p w h =
      let one = pack_lem op p w.0 (omega arith) in
      let more =
        pack_ops_lem ops (drop (sizeof op) p) w.1 (omega (arith, length-drop (sizeof op) p)) in
      (
        rw one.0 (
            from-over (sizeof op) (pack_ops ops) (encode op) (encode_ops ops) p one.1
              (omega (arith, one.1, more.1)) more.0),
        omega (arith, one.1, more.1, length-append (encode op) (encode_ops ops)),
      )

-- On an operation without nil entries, and a buffer of at least `Sizeof` bytes, `Pack` does not
-- panic, stores exactly `Sizeof` bytes, the encoding, at the front, and leaves the rest as it was.
pub pack-encode :
    (op : Op) (p : List ℕ)
    → IsWhole op
    → sizeof op ≤ length p
    → (pack op p ≡ some (encode op ++ drop (sizeof op) p)) × (length (encode op) ≡ sizeof op)
pack-encode op p w h = let (ran, l) = pack_lem op p w h in (rw l at ran, l)
