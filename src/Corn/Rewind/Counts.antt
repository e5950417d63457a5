-- ===== src/Corn/Rewind/Counts.antt =====
-- go/usercorn.go: where `Rewind` stops.
use usercorn.Base.{some}
use usercorn.Corn.Rewind.{confirms}
use usercorn.Base.{get_elem?}
use usercorn.Base.{
  ℕ, suc, ◌+◌, ◌-◌, ◌≤◌, ◌<◌, ◌≡◌, refl, ◌∙◌, ap, Bool, true, false, List, [], ◌∷◌, none, length,
  take, ltb, ◌==◌, arith, All, Bool-cases, inl, inr,
}
use usercorn.Trace.Op.{
  Op, Ops, null, nop, exit, jmp, step, reg, sp_reg, mem_read, mem_write, mem_map, mem_unmap,
  mem_prot, syscall, keyframe, frame, nil, cons,
}
use usercorn.Trace.Replay.{Replay, feed, flush, feed_all}
use usercorn.Trace.Replay.Laws.{feed_lem, steps_in, waiting, update_all-IsSame}
use usercorn.Corn.Rewind.{seek_loop}

-- The state after operations that are fed one at a time.
unfoldable pub feed_list : Replay → List Op → Replay
feed_list r [] = r
feed_list r (op ∷ ops) = feed_list (feed r op) ops

-- An operation as the callbacks get it: not a frame.
abbrev pub IsSingle : Op → Type 0
IsSingle (frame pid ops) = ⊥
IsSingle op = Unit {0}

abbrev pub is_step : Op → ℕ
is_step (step size) = 1
is_step op = 0

is_step-le : (op : Op) → is_step op ≤ 1
is_step-le (step size) = omega arith
is_step-le (keyframe pid ops) = omega arith
is_step-le (frame pid ops) = omega arith
is_step-le null = omega arith
is_step-le nop = omega arith
is_step-le exit = omega arith
is_step-le (jmp a s) = omega arith
is_step-le (reg n v) = omega arith
is_step-le (sp_reg n v) = omega arith
is_step-le (mem_read a s) = omega arith
is_step-le (mem_write a p) = omega arith
is_step-le (mem_map a s p o l d f) = omega arith
is_step-le (mem_unmap a s) = omega arith
is_step-le (mem_prot a s p) = omega arith
is_step-le (syscall n t a d o) = omega arith

-- The number of the instructions in a trace.
abbrev pub step_count : List Op → ℕ
step_count [] = 0
step_count (op ∷ ops) = is_step op + step_count ops

-- What feeding one operation does to the count.
record Counts (n : ℕ) (r r' : Replay) : Type 0 where
  pub pending : r'.pending ≡ none
  pub inscount : r'.inscount ≡ r.inscount + n

as_frame :
    (r : Replay) (ops : Ops)
    → r.pending ≡ none
    → Counts (length (steps_in ops)) r (feed r (frame 0 ops))
as_frame r ops e =
    let h = feed_lem r 0 ops in
    record {
      pending = h.0;
      inscount =
          h.2 ∙ ap (λ p. r.inscount + length (waiting p) + length (steps_in ops)) e ∙ omega arith;
    }

flush-none : (r : Replay) → r.pending ≡ none → flush r ≡ r
unfolding flush
flush-none r e = rw e refl

feed-Counts :
    (r : Replay) (op : Op) → IsSingle op → r.pending ≡ none → Counts (is_step op) r (feed r op)
unfolding feed feed_all
feed-Counts r (step size) h e = as_frame r (cons (step size) nil) e
feed-Counts r (keyframe pid ops) h e = rw (flush-none r e) (
    let same = update_all-IsSame r ops in
    record { pending = same.pending ∙ e; inscount = same.inscount ∙ omega arith })
feed-Counts r (frame pid ops) h e = absurd h
feed-Counts r null h e = as_frame r (cons null nil) e
feed-Counts r nop h e = as_frame r (cons nop nil) e
feed-Counts r exit h e = as_frame r (cons exit nil) e
feed-Counts r (jmp a s) h e = as_frame r (cons (jmp a s) nil) e
feed-Counts r (reg n v) h e = as_frame r (cons (reg n v) nil) e
feed-Counts r (sp_reg n v) h e = as_frame r (cons (sp_reg n v) nil) e
feed-Counts r (mem_read a s) h e = as_frame r (cons (mem_read a s) nil) e
feed-Counts r (mem_write a p) h e = as_frame r (cons (mem_write a p) nil) e
feed-Counts r (mem_map a s p o l d f) h e = as_frame r (cons (mem_map a s p o l d f) nil) e
feed-Counts r (mem_unmap a s) h e = as_frame r (cons (mem_unmap a s) nil) e
feed-Counts r (mem_prot a s p) h e = as_frame r (cons (mem_prot a s p) nil) e
feed-Counts r (syscall n t a d o) h e = as_frame r (cons (syscall n t a d o) nil) e

-- Where the loop over the operations stops for a count.
pub record Stops (target pos : ℕ) (ops : List Op) (r : Replay) (result : Bool × ℕ × Replay)
    : Type 0 where
  pub fed : ℕ
  pub inside : fed < length ops
  pub result_eq : result ≡ (true, pos + fed, feed_list r (take fed ops))
  pub inscount : (feed_list r (take fed ops)).inscount ≡ target

pub seek_loop-Stops :
    (target addr : ℕ) (ops : List Op) (r : Replay) (good : Bool) (pos : ℕ)
    → 0 < target
    → All IsSingle ops
    → r.pending ≡ none
    → r.inscount ≤ target
    → target < r.inscount + step_count ops
    → Stops target pos ops r (seek_loop target addr ops r good pos)
unfolding seek_loop feed_list
seek_loop-Stops target addr [] r good pos z h e l u = absurd (omega arith)
seek_loop-Stops target addr (op ∷ ops) r good pos z h e l u =
    let some_target : ltb 0 target ≡ true = ground arith in
    let counted : (target == 0) ≡ false = ground arith in
    elim (Bool-cases (r.inscount == target)) [
      | inl hit ↦
          let start : pos ≡ pos + 0 = omega arith in
          rw (some_target, hit)
            record {
              fed = 0;
              inside = omega arith;
              result_eq = ap (λ p. (true, p, r)) start;
              inscount = ground arith;
            }
      | inr miss ↦
          let fed = feed-Counts r op h.0 e in
          let one : is_step op ≤ 1 = is_step-le op in
          let not_yet : r.inscount < target = ground arith in
          let rest =
            seek_loop-Stops target addr ops (feed r op) good (pos + 1) z h.1 fed.pending
              (omega (arith, fed.inscount, one)) (omega (arith, fed.inscount)) in
          rw (some_target, miss, counted)
            record {
              fed = suc rest.fed;
              inside = omega (arith, rest.inside);
              result_eq =
                  rest.result_eq
                  ∙ ap (λ p. (true, p, feed_list (feed r op) (take rest.fed ops))) (omega arith);
              inscount = rest.inscount;
            }
    ]

pub feed_list-Counts :
    (r : Replay) (ops : List Op)
    → All IsSingle ops
    → r.pending ≡ none
    → (feed_list r ops).inscount ≡ r.inscount + step_count ops
unfolding feed_list
feed_list-Counts r [] h e = omega arith
feed_list-Counts r (op ∷ ops) h e =
    let one = feed-Counts r op h.0 e in
    omega (arith, feed_list-Counts (feed r op) ops h.1 one.pending, one.inscount)

-- No operation from the position `from` on, before which the pc is 0, says that the program is there.
abbrev pub NoneAtZero : ℕ → List Op → Replay → Type 0
NoneAtZero from ops r =
    (n : ℕ) (op : Op)
    → from ≤ n
    → get_elem? ops n ≡ some op
    → (feed_list r (take n ops)).pc ≡ 0
    → confirms 0 op ≡ false

-- The loop for the address 0, which is found already, passes such operations.
pub seek_loop-passes :
    (ops : List Op) (r : Replay) (pos : ℕ)
    → NoneAtZero 0 ops r
    → seek_loop 0 0 ops r true pos ≡ (true, pos + length ops - 1, feed_list r ops)
unfolding seek_loop feed_list
seek_loop-passes [] r pos h = ap (λ p. (true, p, r)) (omega arith)
seek_loop-passes (op ∷ ops) r pos h =
    let next : pos + 1 + length ops - 1 ≡ pos + suc (length ops) - 1 = omega arith in
    let rest =
      seek_loop-passes ops (feed r op) (pos + 1) (λ n o k. h (suc n) o (omega arith))
      ∙ ap (λ p. (true, p, feed_list (feed r op) ops)) next in
    elim (Bool-cases (r.pc == 0)) [
      | inl here ↦
          let away : confirms 0 op ≡ false = h 0 op (omega arith) refl (ground (arith, here)) in
          rw (here, away) rest
      | inr elsewhere ↦ rw elsewhere rest
    ]

-- From the start of a replay, whose pc is 0, to the end.
pub seek_loop-all :
    (ops : List Op) (r : Replay)
    → r.pc ≡ 0
    → 0 < step_count ops
    → NoneAtZero 1 ops r
    → seek_loop 0 0 ops r false 0 ≡ (true, length ops - 1, feed_list r ops)
unfolding seek_loop feed_list
seek_loop-all [] r z l h = absurd (omega arith)
seek_loop-all (op ∷ ops) r z l h =
    let here : (r.pc == 0) ≡ true = ground arith in
    let last : 0 + 1 + length ops - 1 ≡ suc (length ops) - 1 = omega arith in
    rw here (
      seek_loop-passes ops (feed r op) (0 + 1) (λ n o k. h (suc n) o (omega arith))
      ∙ ap (λ p. (true, p, feed_list (feed r op) ops)) last)
