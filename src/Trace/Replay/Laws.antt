-- ===== src/Trace/Replay/Laws.antt =====
-- What playing back leaves and shows.
use usercorn.Trace.Replay.{to_list}
use usercorn.Base.{
  ℕ, suc, ◌+◌, ◌≡◌, refl, ◌∙◌, ap, sym, List, [], ◌∷◌, ◌++◌, append-nil, append_assoc, Option, none,
  some, arith, length, length-append, Bool-cases, inl, inr, ◌==◌,
}
use usercorn.Trace.Op.{
  Op, Ops, null, nop, exit, jmp, step, reg, sp_reg, mem_read, mem_write, mem_map, mem_unmap,
  mem_prot, syscall, keyframe, frame, nil, cons,
}
use usercorn.Trace.Replay.{
  Replay, update, update_all, update_list, emit, flush, flush_pending, feed, feed_one, feed_all,
}

-- The sizes of the steps that have been emitted.
abbrev pub steps : List (Op × List Op) → List ℕ
steps [] = []
steps ((step size, effects) ∷ xs) = size ∷ steps xs
steps ((op, effects) ∷ xs) = steps xs

-- The sizes of the steps among operations.
abbrev pub steps_in : Ops → List ℕ
steps_in nil = []
steps_in (cons (step size) ops) = size ∷ steps_in ops
steps_in (cons op ops) = steps_in ops

steps-append : (xs ys : List (Op × List Op)) → steps (xs ++ ys) ≡ steps xs ++ steps ys
steps-append [] ys = refl
steps-append ((step size, effects) ∷ xs) ys = ap (◌∷◌ size) (steps-append xs ys)
steps-append ((null, effects) ∷ xs) ys = steps-append xs ys
steps-append ((nop, effects) ∷ xs) ys = steps-append xs ys
steps-append ((exit, effects) ∷ xs) ys = steps-append xs ys
steps-append ((jmp addr size, effects) ∷ xs) ys = steps-append xs ys
steps-append ((reg num val, effects) ∷ xs) ys = steps-append xs ys
steps-append ((sp_reg num val, effects) ∷ xs) ys = steps-append xs ys
steps-append ((mem_read addr size, effects) ∷ xs) ys = steps-append xs ys
steps-append ((mem_write addr p, effects) ∷ xs) ys = steps-append xs ys
steps-append ((mem_map addr size prot off len desc file, effects) ∷ xs) ys = steps-append xs ys
steps-append ((mem_unmap addr size, effects) ∷ xs) ys = steps-append xs ys
steps-append ((mem_prot addr size prot, effects) ∷ xs) ys = steps-append xs ys
steps-append ((syscall num ret args desc ops, effects) ∷ xs) ys = steps-append xs ys
steps-append ((keyframe pid ops, effects) ∷ xs) ys = steps-append xs ys
steps-append ((frame pid ops, effects) ∷ xs) ys = steps-append xs ys

-- What `update` leaves alone.
pub record IsSame (r r' : Replay) : Type 0 where
  pub emitted : r'.emitted ≡ r.emitted
  pub pending : r'.pending ≡ r.pending
  pub inscount : r'.inscount ≡ r.inscount

IsSame-refl : (r : Replay) → IsSame r r
IsSame-refl r = record { emitted = refl; pending = refl; inscount = refl }

IsSame-trans : (r s t : Replay) → IsSame r s → IsSame s t → IsSame r t
IsSame-trans r s t h k = record {
  emitted = k.emitted ∙ h.emitted;
  pending = k.pending ∙ h.pending;
  inscount = k.inscount ∙ h.inscount;
}

mutual
  unfolding update update_all

  update-IsSame : (r : Replay) (op : Op) → IsSame r (update r op)
  update-IsSame r (syscall num ret args desc ops) = update_all-IsSame r ops
  update-IsSame r (reg num val) = record {
    emitted = ground arith;
    pending = ground arith;
    inscount = ground arith;
  }
  update-IsSame r (mem_map addr size prot off len desc file) = record {
    emitted = refl;
    pending = refl;
    inscount = refl;
  }
  update-IsSame r op = record { emitted = refl; pending = refl; inscount = refl }

  pub update_all-IsSame : (r : Replay) (ops : Ops) → IsSame r (update_all r ops)
  update_all-IsSame r nil = IsSame-refl r
  update_all-IsSame r (cons op ops) =
      IsSame-trans r (update r op) (update_all (update r op) ops) (update-IsSame r op)
        (update_all-IsSame (update r op) ops)

update_list-IsSame : (r : Replay) (ops : List Op) → IsSame r (update_list r ops)
unfolding update_list
update_list-IsSame r [] = IsSame-refl r
update_list-IsSame r (op ∷ ops) =
    IsSame-trans r (update r op) (update_list (update r op) ops) (update-IsSame r op)
      (update_list-IsSame (update r op) ops)

abbrev pub waiting : Option ℕ → List ℕ
waiting none = []
waiting (some size) = size ∷ []

-- The steps that have been fed so far.
abbrev pub fed : Replay → List ℕ
fed r = steps r.emitted ++ waiting r.pending

abbrev pub counted : Replay → ℕ
counted r = r.inscount + length (waiting r.pending)

-- From `r` to `r'` the steps `ss` were fed.
record Feeds (r r' : Replay) (ss : List ℕ) : Type 0 where
  fed : fed r' ≡ fed r ++ ss
  counted : counted r' ≡ counted r + length ss

Feeds-refl : (r : Replay) → Feeds r r []
Feeds-refl r = record { fed = sym (append-nil (fed r)); counted = omega arith }

Feeds-trans : (r s t : Replay) (xs ys : List ℕ) → Feeds r s xs → Feeds s t ys → Feeds r t (xs ++ ys)
Feeds-trans r s t xs ys h k = record {
  fed = k.fed ∙ (ap (λ zs. zs ++ ys) h.fed ∙ append_assoc (fed r) xs ys);
  counted = omega (arith, h.counted, k.counted, length-append xs ys);
}

flush_pending-Feeds :
    (r : Replay) (p : Option ℕ)
    → r.pending ≡ p
    → Feeds r (flush_pending r p) [] × ((flush_pending r p).pending ≡ none)
unfolding emit
flush_pending-Feeds r none e = (Feeds-refl r, e)
flush_pending-Feeds r (some size) e =
    let shown = emit r (step size) r.effects in
    let before : Replay = record shown { inscount = suc shown.inscount } in
    let same =
      IsSame-trans before (update before (step size))
        (update_list (update before (step size)) r.effects) (update-IsSame before (step size))
        (update_list-IsSame (update before (step size)) r.effects) in
    (
      record {
        fed =
            ap (λ xs. xs ++ [])
              (ap steps same.emitted
                ∙ (steps-append r.emitted ((step size, r.effects) ∷ [])
                    ∙ ap (λ p. steps r.emitted ++ waiting p) (sym e)));
        counted = omega (arith, same.inscount, ap (λ p. length (waiting p)) e);
      },
      refl,
    )

flush-Feeds : (r : Replay) → Feeds r (flush r) [] × ((flush r).pending ≡ none)
unfolding flush
flush-Feeds r = flush_pending-Feeds r r.pending refl

-- What is emitted beside a step that waits.
emit-Feeds :
    (r : Replay) (op : Op) (effects : List Op)
    → steps ((op, effects) ∷ []) ≡ []
    → Feeds r (emit r op effects) []
unfolding emit
emit-Feeds r op effects h = record {
  fed =
      ap (λ xs. xs ++ waiting r.pending)
        (steps-append r.emitted ((op, effects) ∷ [])
          ∙ (ap (λ xs. steps r.emitted ++ xs) h ∙ append-nil (steps r.emitted)))
      ∙ sym (append-nil (fed r));
  counted = omega arith;
}

IsSame-Feeds : (r r' : Replay) → IsSame r r' → Feeds r r' []
IsSame-Feeds r r' h = record {
  fed =
      ap (λ p. steps r'.emitted ++ waiting p) h.pending
      ∙ (ap (λ xs. steps xs ++ waiting r.pending) h.emitted ∙ sym (append-nil (fed r)));
  counted = omega (arith, h.inscount, ap (λ p. length (waiting p)) h.pending);
}

jmp-Feeds :
    (r r' : Replay) (addr size : ℕ)
    → Feeds r r' []
    → Feeds r (update (emit r' (jmp addr size) []) (jmp addr size)) []
jmp-Feeds r r' addr size f =
    let op = jmp addr size in
    Feeds-trans r r' (update (emit r' op []) op) [] [] f (
      Feeds-trans r' (emit r' op []) (update (emit r' op []) op) [] [] (emit-Feeds r' op [] refl) (
        IsSame-Feeds (emit r' op []) (update (emit r' op []) op)
          (update-IsSame (emit r' op []) op)))

feed_one-Feeds : (r : Replay) (op : Op) → Feeds r (feed_one r op) (steps_in (cons op nil))
unfolding feed_one
feed_one-Feeds r (jmp addr size) = elim (Bool-cases (addr == r.pc)) [
  | inl here ↦ rw here (jmp-Feeds r r addr size (Feeds-refl r))
  | inr away ↦ rw away (jmp-Feeds r (flush r) addr size (flush-Feeds r).0)
]
feed_one-Feeds r (step size) =
    let (f, e) = flush-Feeds r in
    record {
      fed =
          ap (λ xs. xs ++ (size ∷ []))
            (sym (append-nil (steps (flush r).emitted))
              ∙ (ap (λ p. steps (flush r).emitted ++ waiting p) (sym e)
                  ∙ (f.fed ∙ append-nil (fed r))));
      counted = omega (arith, f.counted, ap (λ p. length (waiting p)) e);
    }
feed_one-Feeds r (syscall num ret args desc ops) =
    let op = syscall num ret args desc ops in
    Feeds-trans r (flush r) (emit (update (flush r) op) op (to_list ops)) [] [] (flush-Feeds r).0 (
      Feeds-trans (flush r) (update (flush r) op) (emit (update (flush r) op) op (to_list ops)) []
        [] (IsSame-Feeds (flush r) (update (flush r) op) (update-IsSame (flush r) op))
        (emit-Feeds (update (flush r) op) op (to_list ops) refl))
feed_one-Feeds r op = record { fed = sym (append-nil (fed r)); counted = omega arith }

steps_in-cons :
    (op : Op) (ops : Ops) → steps_in (cons op ops) ≡ steps_in (cons op nil) ++ steps_in ops
steps_in-cons (step size) ops = refl
steps_in-cons op ops = refl

feed_all-Feeds : (r : Replay) (ops : Ops) → Feeds r (feed_all r ops) (steps_in ops)
unfolding feed_all
feed_all-Feeds r nil = Feeds-refl r
feed_all-Feeds r (cons op ops) = rw (steps_in-cons op ops) (
    Feeds-trans r (feed_one r op) (feed_all (feed_one r op) ops) (steps_in (cons op nil))
      (steps_in ops) (feed_one-Feeds r op) (feed_all-Feeds (feed_one r op) ops))

-- After a frame no step waits: every step that was fed, before and in the frame, has been emitted,
-- once and in order, and has been counted once.
pub feed_lem :
    (r : Replay) (pid : ℕ) (ops : Ops)
    → ((feed r (frame pid ops)).pending ≡ none)
      × (steps (feed r (frame pid ops)).emitted ≡ fed r ++ steps_in ops)
      × ((feed r (frame pid ops)).inscount ≡ counted r + length (steps_in ops))
unfolding feed
feed_lem r pid ops =
    let (last, e) = flush-Feeds (feed_all r ops) in
    let all =
      Feeds-trans r (feed_all r ops) (flush (feed_all r ops)) (steps_in ops) []
        (feed_all-Feeds r ops) last in
    (
      e,
      sym (append-nil (steps (flush (feed_all r ops)).emitted))
          ∙ (ap (λ p. steps (flush (feed_all r ops)).emitted ++ waiting p) (sym e)
              ∙ (all.fed ∙ ap (λ xs. fed r ++ xs) (append-nil (steps_in ops)))),
      omega (
        arith,
        all.counted,
        ap (λ p. length (waiting p)) e,
        ap length (append-nil (steps_in ops)),
      ),
    )
