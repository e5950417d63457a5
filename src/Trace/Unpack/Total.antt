-- ===== src/Trace/Unpack/Total.antt =====
-- The decoder on any input: it ends, and it counts no more bytes than it takes.
use usercorn.Base.{◌*◌}
use usercorn.Base.{
  ℕ, zero, suc, ◌+◌, ◌≤◌, ◌<◌, Bool, true, false, ◌&&◌, ◌||◌, ◌==◌, leb, List, [], ◌∷◌, length,
  Option, none, some, if◌then◌else◌, arith, length-drop, Bool-cases, inl, inr,
}
use usercorn.Trace.Op.{
  Op, Ops, frame, keyframe, op_exit, nop, exit, op_nop, op_jmp, op_step, op_reg, op_sp_reg,
  op_mem_read, op_mem_write, op_mem_map, op_mem_unmap, op_mem_prot, op_syscall, op_frame,
  op_keyframe,
}
use usercorn.Trace.Unpack.Reader.{
  Error, Outcome, Read, done, failed, panic, stuck, add_total, then_read, wrap, wrapping, ◌>>=◌,
  pure, read_full,
}
use usercorn.Trace.Unpack.Decode.{
  field, unpack_jmp, unpack_step, unpack_reg, unpack_sp_reg, unpack_mem_read, unpack_mem_write,
  unpack_mem_map, unpack_mem_unmap, unpack_mem_prot, unpack_syscall, unpack_frame, return_frame,
  next_op, after_op, unpack_ops, unpack_body, unpack,
}

-- An outcome of a read from `n` bytes, other than a lack of fuel: the bytes counted and the bytes
-- left are no more than there were.
abbrev pub IsSound : {A : Type 0} → ℕ → Outcome A → Type 0
IsSound n (done a total rest) = total + length rest ≤ n
IsSound n (failed e total rest) = total + length rest ≤ n
IsSound n panic = Unit
IsSound n stuck = ⊥

-- A read that is sound on every input of at most `n` bytes.
abbrev SoundBelow : {A : Type 0} → ℕ → Read A → Type 0
SoundBelow n m = (src : List ℕ) → length src ≤ n → IsSound (length src) (m src)

read_full-SoundBelow : (k n : ℕ) → SoundBelow n (read_full k)
unfolding read_full
read_full-SoundBelow k n [] h = ground arith
read_full-SoundBelow k n (b ∷ src) h = elim (Bool-cases (leb k (length (b ∷ src)))) [
  | inl e ↦ rw e (ground (arith, length-drop k (b ∷ src)))
  | inr e ↦ rw e (omega arith)
]

add_total-IsSound :
    {A : Type 0} (k n m : ℕ) (o : Outcome A) → IsSound n o → k + n ≤ m → IsSound m (add_total k o)
add_total-IsSound k n m (done a total rest) h e = omega arith
add_total-IsSound k n m (failed x total rest) h e = omega arith
add_total-IsSound k n m panic h e = tt
add_total-IsSound k n m stuck h e = h

>>=-SoundBelow :
    {A B : Type 0} (n : ℕ) (m : Read A) (f : A → Read B)
    → SoundBelow n m
    → ((a : A) → SoundBelow n (f a))
    → SoundBelow n (m >>= f)
>>=-SoundBelow {A} {B} n m f hm hf src l = go (m src) (hm src l)
  where
    go : (o : Outcome A) → IsSound (length src) o → IsSound (length src) (then_read o f)
    go (done a total rest) h =
        add_total-IsSound total (length rest) (length src) (f a rest) (hf a rest (omega arith)) h
    go (failed e total rest) h = h
    go panic h = tt
    go stuck h = h

wrapping-SoundBelow : {A : Type 0} (n : ℕ) (m : Read A) → SoundBelow n m → SoundBelow n (wrapping m)
wrapping-SoundBelow {A} n m h src l = go (m src) (h src l)
  where
    go : (o : Outcome A) → IsSound (length src) o → IsSound (length src) (wrap o)
    go (done a total rest) k = k
    go (failed e total rest) k = k
    go panic k = k
    go stuck k = k

-- The same read, with its errors wrapped.
wrapped-SoundBelow : (k n : ℕ) → SoundBelow n (wrapping (read_full k))
wrapped-SoundBelow k n = wrapping-SoundBelow n (read_full k) (read_full-SoundBelow k n)

-- A record of fixed size, and what is made of it.
fixed : {A : Type 0} (n k : ℕ) (f : List ℕ → A) → SoundBelow n (read_full k >>= λ tmp. pure (f tmp))
fixed n k f =
    >>=-SoundBelow n (read_full k) (λ tmp. pure (f tmp)) (read_full-SoundBelow k n)
      (λ tmp src h. omega arith)

-- The same with bytes of a computed length behind it.
tailed :
    {A : Type 0} (n k : ℕ) (len : List ℕ → ℕ) (f : List ℕ → List ℕ → Read A)
    → ((tmp buf : List ℕ) → SoundBelow n (f tmp buf))
    → SoundBelow n (read_full k >>= λ tmp. read_full (len tmp) >>= f tmp)
tailed n k len f h = >>=-SoundBelow n (read_full k) _ (read_full-SoundBelow k n) (λ tmp.
    >>=-SoundBelow n (read_full (len tmp)) (f tmp) (read_full-SoundBelow (len tmp) n) (h tmp))

after_op-IsSound :
    (n k : ℕ) (op : Op) (total : ℕ) (r : Outcome (Ops × Option Error))
    → IsSound k r
    → total + k ≤ n
    → IsSound n (after_op op total r)
after_op-IsSound n k op total (done a m rest) h e = omega arith
after_op-IsSound n k op total (failed x m rest) h e = omega arith
after_op-IsSound n k op total panic h e = tt
after_op-IsSound n k op total stuck h e = h

next_op-IsSound :
    (n left : ℕ) (o : Outcome Op) (more : Read (Ops × Option Error))
    → IsSound n o
    → SoundBelow n more
    → IsSound n (next_op left o more)
next_op-IsSound n left (failed e total rest) more h hm = h
next_op-IsSound n left (done op total rest) more h hm =
    after_op-IsSound n (length rest) op total (more rest) (hm rest (omega arith)) h
next_op-IsSound n left panic more h hm = tt
next_op-IsSound n left stuck more h hm = h

module _ (n : ℕ) (one : Read Op) (one_sound : SoundBelow n one) where
  unpack_ops-SoundBelow : (count : ℕ) → SoundBelow n (unpack_ops one count)
  unfolding unpack_ops
  unpack_ops-SoundBelow zero src h = omega arith
  unpack_ops-SoundBelow (suc count) src h =
      next_op-IsSound (length src) (suc count) (one src) (unpack_ops one count) (one_sound src h)
        (λ rest k. unpack_ops-SoundBelow count rest (omega arith))

  unpack_syscall-SoundBelow : SoundBelow n (unpack_syscall one)
  unpack_syscall-SoundBelow =
      >>=-SoundBelow n (wrapping (read_full 15)) _ (wrapped-SoundBelow 15 n) (λ tmp.
        >>=-SoundBelow n (wrapping (read_full (8 * field 1 12 tmp))) _
          (wrapped-SoundBelow (8 * field 1 12 tmp) n)
          (λ tmp2.
            >>=-SoundBelow n (unpack_ops one (field 2 13 tmp)) _
              (unpack_ops-SoundBelow (field 2 13 tmp)) (λ r src h. omega arith)))

  return_frame-SoundBelow :
      (make : ℕ → Ops → Op) (pid : ℕ) (r : Ops × Option Error)
      → SoundBelow n (return_frame make pid r)
  return_frame-SoundBelow make pid (ops, none) src h = omega arith
  return_frame-SoundBelow make pid (ops, some e) src h = omega arith

  unpack_frame-SoundBelow : (make : ℕ → Ops → Op) → SoundBelow n (unpack_frame make one)
  unpack_frame-SoundBelow make =
      >>=-SoundBelow n (wrapping (read_full 12)) _ (wrapped-SoundBelow 12 n) (λ tmp.
        >>=-SoundBelow n (unpack_ops one (field 4 8 tmp)) _ (unpack_ops-SoundBelow (field 4 8 tmp))
          (return_frame-SoundBelow make (field 8 0 tmp)))

  unpack_mem_map-SoundBelow : SoundBelow n unpack_mem_map
  unpack_mem_map-SoundBelow = tailed n 37 _ _ (λ tmp buf src h.
      elim (Bool-cases (leb (field 2 33 tmp) (length buf))) [
        | inl e ↦ rw e (omega arith)
        | inr e ↦ rw e tt
      ])

  if-SoundBelow :
      (b : Bool) (x y : Read Op)
      → SoundBelow n x
      → SoundBelow n y
      → SoundBelow n (if b then x else y)
  if-SoundBelow true x y hx hy = hx
  if-SoundBelow false x y hx hy = hy

  exit-SoundBelow : SoundBelow n (pure exit)
  exit-SoundBelow src h = omega arith

  unpack_body-SoundBelow : (b : ℕ) → SoundBelow n (unpack_body one b)
  unfolding unpack_body
  unpack_body-SoundBelow b =
      if-SoundBelow (b == op_nop) (pure nop) _ (λ src h. omega arith)
        (if-SoundBelow (b == op_jmp) unpack_jmp _ (fixed n 12 _) (
          if-SoundBelow (b == op_step) unpack_step _ (fixed n 1 _) (
            if-SoundBelow (b == op_reg) unpack_reg _ (fixed n 10 _) (
              if-SoundBelow (b == op_sp_reg) unpack_sp_reg _
                (tailed n 4 _ _ (λ tmp buf src h. omega arith))
                (if-SoundBelow (b == op_mem_read) unpack_mem_read _ (fixed n 12 _) (
                  if-SoundBelow (b == op_mem_write) unpack_mem_write _
                    (tailed n 12 _ _ (λ tmp buf src h. omega arith))
                    (if-SoundBelow (b == op_mem_map) unpack_mem_map _ unpack_mem_map-SoundBelow (
                      if-SoundBelow (b == op_mem_unmap) unpack_mem_unmap _ (fixed n 16 _) (
                        if-SoundBelow (b == op_mem_prot) unpack_mem_prot _ (fixed n 17 _) (
                          if-SoundBelow (b == op_syscall) (unpack_syscall one) _
                            unpack_syscall-SoundBelow
                            (if-SoundBelow (b == op_frame) (unpack_frame frame one) _
                              (unpack_frame-SoundBelow frame)
                              (if-SoundBelow (b == op_keyframe) (unpack_frame keyframe one) _
                                (unpack_frame-SoundBelow keyframe) (exit-SoundBelow)))))))))))))

-- With more fuel than bytes `unpack` ends, whatever the bytes are; what it counts and what it leaves
-- are together no more than the input.
pub unpack-IsSound :
    (fuel : ℕ) (nested : Bool) (src : List ℕ)
    → length src < fuel
    → IsSound (length src) (unpack fuel nested src)
unfolding unpack
unpack-IsSound zero nested src h = absurd (omega arith)
unpack-IsSound (suc fuel) nested [] h = omega arith
unpack-IsSound (suc fuel) nested (b ∷ src) h =
    let body =
      add_total-IsSound 1 (length src) (length (b ∷ src)) (unpack_body (unpack fuel true) b src)
        (unpack_body-SoundBelow (length src) (unpack fuel true)
          (λ more k. unpack-IsSound fuel true more (omega arith)) b src (omega arith))
        (omega arith) in
    elim (Bool-cases (leb b op_exit)) [
      | inr unknown ↦ rw unknown (omega arith)
      | inl known ↦ elim (Bool-cases (nested && (b == op_frame || b == op_keyframe))) [
        | inl refused ↦ rw (known, refused) (omega arith)
        | inr allowed ↦ rw (known, allowed) body
      ]
    ]
