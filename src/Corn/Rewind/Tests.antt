-- ===== src/Corn/Rewind/Tests.antt =====
-- The theorems about `Rewind` at concrete inputs.
use usercorn.Base.{if◌then◌else◌, ◌==◌}
use usercorn.Base.{some_inj}
use usercorn.Base.{ℕ, zero, suc, ◌+◌, ◌≡◌, refl, true, List, [], ◌∷◌, none, some, arith}
use usercorn.Cpu.PackUint.{little}
use usercorn.Cpu.Mem.{new_mem}
use usercorn.Trace.Op.{Op, step, jmp, keyframe, nil, cons, reg}
use usercorn.Trace.Replay.{
  Replay, new_replay, feed, feed_one, flush, update, update_all, update_list, emit,
}
use usercorn.Task.{Task}
use usercorn.Corn.Rewind.{Rewinder, found, seek, fresh, copy_pages, rewind, rewound}
use usercorn.Corn.Rewind.Counts.{feed_list, NoneAtZero}
use usercorn.Corn.Rewind.Laws.{Back, InSync, replayed, rewind_lem, rewind_all_lem}

-- The keyframe of a start, a block at 100, and three instructions of four bytes.
abbrev ops : List Op
ops = keyframe 0 (cons (reg 3 6) nil) ∷ jmp 100 12 ∷ step 4 ∷ reg 3 7 ∷ step 4 ∷ step 4 ∷ []

abbrev task : Task
task = record { bits = 32; mem = []; cpu = new_mem 32 little; events = [] }

abbrev ran : Replay
ran = record (new_replay 4 32 little) {
  pc = 112;
  inscount = 3;
  regs = λ k. if k == 3 then some 7 else none;
}

abbrev state : Rewinder
state = record {
  enabled = true;
  rewind = ops;
  replay = ran;
  pc_reg = 5;
  regs = λ k. if k == 3 then 7 else 0;
  task = task;
}

state-InSync : InSync state
unfolding new_replay
state-InSync k v e = ground (arith, e)

copies :
    (n : ℕ) → (t : Task) × (copy_pages 1 (replayed state n).mem.pages state.task ≡ some (t, true))
unfolding copy_pages feed_list feed feed_one flush update update_all update_list emit new_replay
    new_mem
copies zero = (task, refl)
copies (suc zero) = (task, refl)
copies (suc (suc zero)) = (task, refl)
copies (suc (suc (suc zero))) = (task, refl)
copies (suc (suc (suc (suc zero)))) = (task, refl)
copies (suc (suc (suc (suc (suc zero))))) = (task, refl)
copies (suc (suc (suc (suc (suc (suc zero)))))) = (task, refl)
copies (suc (suc (suc (suc (suc (suc (suc n))))))) = (task, refl)

rewind_lem_example :
    (n : ℕ) × ((rewind 1 state 1 0).1 ≡ rewound)
    × ((rewind 1 state 1 0).0.replay.inscount + 1 ≡ 3)
    × Back state ((rewind 1 state 1 0).0) n
rewind_lem_example =
    rewind_lem 1 state 1 0 refl (tt, (tt, (tt, (tt, (tt, (tt, tt)))))) refl (omega arith)
      (omega arith) state-InSync copies

away : NoneAtZero 1 ops (fresh state)
unfolding feed_list feed feed_one flush update update_all update_list emit new_replay
away zero op l e z = absurd (omega arith)
away (suc zero) op l e z = rw (← some_inj e) refl
away (suc (suc zero)) op l e z = absurd (omega (arith, z))
away (suc (suc (suc zero))) op l e z = absurd (omega (arith, z))
away (suc (suc (suc (suc zero)))) op l e z = absurd (omega (arith, z))
away (suc (suc (suc (suc (suc zero))))) op l e z = absurd (omega (arith, z))
away (suc (suc (suc (suc (suc (suc n)))))) op l e z = absurd (cc)

rewind_all_lem_example :
    (seek state 3 0 ≡ found 5 (feed_list (fresh state) ops))
    × ((feed_list (fresh state) ops).inscount ≡ 3)
rewind_all_lem_example =
    rewind_all_lem state refl (tt, (tt, (tt, (tt, (tt, (tt, tt)))))) refl (omega arith) away
