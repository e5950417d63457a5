-- ===== src/Corn/Rewind/Laws.antt =====
-- go/usercorn.go: what `Rewind` brings back.
use usercorn.Corn.Rewind.Counts.{feed_list-Counts}
use usercorn.Corn.Rewind.Counts.{seek_loop-all, NoneAtZero}
use usercorn.Base.{
  ℕ, ◌+◌, ◌-◌, ◌<◌, ◌≡◌, refl, ◌∙◌, ap, true, false, Option, none, some, length, take, ltb, ◌==◌,
  arith, All, Bool-cases, inl, inr, if◌then◌else◌,
}
use usercorn.Trace.Replay.{Replay, new_replay}
use usercorn.Corn.Rewind.{
  Rewinder, found, seek, fresh, or_zero, new_reg, sync_regs, copy_pages, rewind, rewound,
}
use usercorn.Corn.Rewind.Counts.{feed_list, IsSingle, step_count, seek_loop-Stops}
use usercorn.Task.{Task}

-- The replay of the first `n` operations.
abbrev pub replayed : Rewinder → ℕ → Replay
replayed u n = feed_list (fresh u) (take n u.rewind)

-- A register that the replay knows, or the register of the cpu.
abbrev pub tracked : Option ℕ → (val new : ℕ) → ℕ
tracked none val new = val
tracked (some old) val new = new

-- The state after going back to the replay of the first `n` operations.
pub record Back (u u' : Rewinder) (n : ℕ) : Type 0 where
  pub inside : n < length u.rewind
  pub inscount : u'.replay.inscount ≡ (replayed u n).inscount
  pub mem : u'.replay.mem ≡ (replayed u n).mem
  pub known : u'.replay.regs ≡ (replayed u n).regs
  pub pc : u'.replay.pc ≡ (replayed u n).pc
  pub regs :
      (k : ℕ)
      → u'.regs k ≡ (
          if k == u.pc_reg
          then (replayed u n).pc
          else tracked (u.replay.regs k) (u.regs k) (or_zero ((replayed u n).regs k)))
  -- one operation more than was replayed
  pub kept : u'.rewind ≡ take (n + 1) u.rewind

-- The registers of the cpu are those of the replay, as far as it knows them.
abbrev pub InSync : Rewinder → Type 0
InSync u = (k v : ℕ) → u.replay.regs k ≡ some v → u.regs k ≡ v

new_reg-tracked :
    (val : ℕ) (old new : Option ℕ)
    → ((v : ℕ) → old ≡ some v → val ≡ v)
    → new_reg val old new ≡ tracked old val (or_zero new)
new_reg-tracked val none new h = refl
new_reg-tracked val (some old) new h = elim (Bool-cases (old == or_zero new)) [
  | inl e ↦ ground (arith, e, h old refl)
  | inr e ↦ rw e refl
]

-- Where `Rewind` by a number of instructions stops.
seek-found :
    (u : Rewinder) (by addr : ℕ)
    → u.enabled ≡ true
    → All IsSingle u.rewind
    → u.replay.inscount ≡ step_count u.rewind
    → 0 < by
    → by < u.replay.inscount
    → (n : ℕ) × (seek u by addr ≡ found n (replayed u n))
      × (n < length u.rewind)
      × ((replayed u n).inscount ≡ u.replay.inscount - by)
unfolding seek new_replay
seek-found u by addr e h c z l =
    let positive : ltb 0 by ≡ true = ground arith in
    let near : ltb u.replay.inscount by ≡ false = ground arith in
    let s =
      seek_loop-Stops (u.replay.inscount - by) addr u.rewind (fresh u) false 0 (omega arith) h refl
        (omega arith) (omega arith) in
    let start : 0 + s.fed ≡ s.fed = omega arith in
    (s.fed, rw (positive, near, s.result_eq, start) (simp e refl), s.inside, s.inscount)

module _ (fuel : ℕ) (u : Rewinder) (by addr : ℕ) where
  -- With rewinding enabled, over single operations, of which there are as many instructions as the
  -- replay has counted, and a number of instructions that is not 0 and less than that count: where
  -- the registers of the cpu are those of the replay and the pages of each prefix can be copied,
  -- `Rewind` goes back to a replay of a first part of the operations, which has counted exactly
  -- that many instructions less. The memory, the registers and the pc of the replay are those of
  -- that part; the registers of the cpu are set to them, those that the replay does not know stay,
  -- and one operation more than the part has is kept.
  pub rewind_lem :
      u.enabled ≡ true
      → All IsSingle u.rewind
      → u.replay.inscount ≡ step_count u.rewind
      → 0 < by
      → by < u.replay.inscount
      → InSync u
      → ((n : ℕ) → (t : Task) × (copy_pages fuel (replayed u n).mem.pages u.task ≡ some (t, true)))
      → (n : ℕ) × ((rewind fuel u by addr).1 ≡ rewound)
        × ((rewind fuel u by addr).0.replay.inscount + by ≡ u.replay.inscount)
        × Back u ((rewind fuel u by addr).0) n
  unfolding rewind sync_regs
  rewind_lem e h c z l k copies =
      let (n, stops, inside, counted) = seek-found u by addr e h c z l in
      let (t, copied) = copies n in
      rw (stops, copied)
        (
          n,
          refl,
          omega (arith, counted),
          record {
            inside = inside;
            inscount = refl;
            mem = refl;
            known = refl;
            pc = refl;
            regs = λ r.
                ap (λ v. if r == u.pc_reg then (replayed u n).pc else v)
                  (new_reg-tracked (u.regs r) (u.replay.regs r) ((replayed u n).regs r) (k r));
            kept = refl;
          },
        )

-- With rewinding enabled, over single operations, of which there are as many instructions as the replay
-- has counted, and at least one: if none behind the first is a step, or a jump to 0, at a place where the pc
-- is 0, `Rewind` by all instructions, with the address 0, replays all operations, so that it goes back by
-- none.
pub rewind_all_lem :
    (u : Rewinder)
    → u.enabled ≡ true
    → All IsSingle u.rewind
    → u.replay.inscount ≡ step_count u.rewind
    → 0 < u.replay.inscount
    → NoneAtZero 1 u.rewind (fresh u)
    → (seek u u.replay.inscount 0 ≡ found (length u.rewind - 1) (feed_list (fresh u) u.rewind))
      × ((feed_list (fresh u) u.rewind).inscount ≡ u.replay.inscount)
unfolding seek new_replay
rewind_all_lem u e h c z k =
    let positive : ltb 0 u.replay.inscount ≡ true = ground arith in
    let near : ltb u.replay.inscount u.replay.inscount ≡ false = ground arith in
    let none_left : u.replay.inscount - u.replay.inscount ≡ 0 = omega arith in
    let all = seek_loop-all u.rewind (fresh u) refl (omega arith) k in
    (
      rw (positive, near, none_left, all) (simp e refl),
      feed_list-Counts (fresh u) u.rewind h refl ∙ omega arith,
    )
