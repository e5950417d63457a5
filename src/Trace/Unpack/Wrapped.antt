-- ===== src/Trace/Unpack/Wrapped.antt =====
-- The errors of a frame are wrapped.
use usercorn.Base.{ℕ, zero, suc, List, Option, none, some}
use usercorn.Trace.Op.{Op, Ops}
use usercorn.Trace.Unpack.Reader.{
  Error, wrapped, Outcome, Read, done, failed, panic, stuck, add_total, then_read, wrap, ◌>>=◌,
  read_full,
}
use usercorn.Trace.Unpack.Decode.{field, after_op, next_op, unpack_ops, return_frame, unpack_frame}

abbrev pub IsWrapped : Error → Type 0
IsWrapped (wrapped e) = Unit {0}
IsWrapped e = ⊥

-- An error of the outcome is wrapped, so that it is not `io.EOF`.
abbrev pub FailsWrapped : {A : Type 0} → Outcome A → Type 0
FailsWrapped (failed e total rest) = IsWrapped e
FailsWrapped o = Unit {0}

abbrev OpsWrapped : Outcome (Ops × Option Error) → Type 0
OpsWrapped (done (ops, none) total rest) = Unit {0}
OpsWrapped (done (ops, some e) total rest) = IsWrapped e
OpsWrapped (failed e total rest) = ⊥
OpsWrapped o = Unit {0}

after_op-OpsWrapped :
    (op : Op) (total : ℕ) (o : Outcome (Ops × Option Error))
    → OpsWrapped o
    → OpsWrapped (after_op op total o)
after_op-OpsWrapped op total (done (ops, none) n rest) h = tt
after_op-OpsWrapped op total (done (ops, some e) n rest) h = h
after_op-OpsWrapped op total (failed e n rest) h = h
after_op-OpsWrapped op total panic h = tt
after_op-OpsWrapped op total stuck h = tt

next_op-OpsWrapped :
    (left : ℕ) (o : Outcome Op) (more : Read (Ops × Option Error))
    → ((src : List ℕ) → OpsWrapped (more src))
    → OpsWrapped (next_op left o more)
next_op-OpsWrapped left (done op total rest) more h =
    after_op-OpsWrapped op total (more rest) (h rest)
next_op-OpsWrapped left (failed e total rest) more h = tt
next_op-OpsWrapped left panic more h = tt
next_op-OpsWrapped left stuck more h = tt

unpack_ops-OpsWrapped : (one : Read Op) (n : ℕ) (src : List ℕ) → OpsWrapped (unpack_ops one n src)
unfolding unpack_ops
unpack_ops-OpsWrapped one zero src = tt
unpack_ops-OpsWrapped one (suc n) src =
    next_op-OpsWrapped (suc n) (one src) (unpack_ops one n) (unpack_ops-OpsWrapped one n)

pub add_total-FailsWrapped :
    {A : Type 0} (n : ℕ) (o : Outcome A) → FailsWrapped o → FailsWrapped (add_total n o)
add_total-FailsWrapped n (done a total rest) h = tt
add_total-FailsWrapped n (failed e total rest) h = h
add_total-FailsWrapped n panic h = tt
add_total-FailsWrapped n stuck h = tt

then_return-FailsWrapped :
    (make : ℕ → Ops → Op) (pid : ℕ) (o : Outcome (Ops × Option Error))
    → OpsWrapped o
    → FailsWrapped (then_read o (return_frame make pid))
then_return-FailsWrapped make pid (done (ops, none) total rest) h = tt
then_return-FailsWrapped make pid (done (ops, some e) total rest) h = h
then_return-FailsWrapped make pid (failed e total rest) h = absurd h
then_return-FailsWrapped make pid panic h = tt
then_return-FailsWrapped make pid stuck h = tt

pub unpack_frame-FailsWrapped :
    (make : ℕ → Ops → Op) (one : Read Op) (src : List ℕ) → FailsWrapped (unpack_frame make one src)
unpack_frame-FailsWrapped make one src = after_header (read_full 12 src)
  where
    after_header :
        (o : Outcome (List ℕ))
        → FailsWrapped (
            then_read
              (wrap o)
              (λ tmp. unpack_ops one (field 4 8 tmp) >>= return_frame make (field 8 0 tmp)))
    after_header (done tmp total rest) = add_total-FailsWrapped total _ (
        then_return-FailsWrapped make (field 8 0 tmp) (unpack_ops one (field 4 8 tmp) rest)
          (unpack_ops-OpsWrapped one (field 4 8 tmp) rest))
    after_header (failed e total rest) = tt
    after_header panic = tt
    after_header stuck = tt
