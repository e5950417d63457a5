-- ===== src/Posix/Init.antt =====
-- go/kernel/posix/kernel.go: the end of `StackInit`, from the alignment on.
use usercorn.Base.{ltb→le}
use usercorn.Base.{ltb→lt}
use usercorn.Base.{
  ℕ, ◌+◌, ◌-◌, ◌≤◌, ◌<◌, ◌%◌, ◌≡◌, refl, subst, Bool, true, List, length, ltb, ◌==◌, arith,
  Bool-cases, inl, inr,
}
use usercorn.Cpu.PackUint.{ByteOrder}
use usercorn.Cpu.Regs.{Regs, reg_read, reg_write, set}
use usercorn.Cpu.Regs as RegFile
use usercorn.Cpu.Space.Access.{Holds}
use usercorn.Task.Stack.{Machine}
use usercorn.Posix.{aligned, push_init}
use usercorn.Posix.Push.{OnStack, SameFrom, push_bytes-Pushed}
use usercorn.Posix.Layout.{Holds-same, SameFrom-trans, aligned_lem}

module _ (prot_exec sp lo hi base : ℕ) (order : ByteOrder) where
  -- The words of `StackInit` and the table behind them, from the stack pointer `low` on.
  pub record Init (m : Machine) (v : ℕ) (auxv init : List ℕ) (r : Machine × Bool) : Type 0 where
    pub machine : Machine
    pub low : ℕ
    pub done : r ≡ (machine, true)
    pub stack : OnStack sp lo hi base order machine low
    pub below : low ≤ v
    pub words : Holds machine.cpu.pages low init
    pub table : Holds machine.cpu.pages (low + length init) auxv
    pub even : (low + length auxv) % 16 ≡ 0
    pub same : SameFrom v m machine

  -- The stack pointer moved down.
  moved :
      (m : Machine) (v w : ℕ)
      → OnStack sp lo hi base order m v
      → w ≤ v
      → (r : Regs) × (reg_write m.regs sp w ≡ RegFile.ok r)
        × OnStack sp lo hi base order (record m { regs = r }) w
  unfolding reg_write
  moved m v w s l =
      let same : (sp == sp) ≡ true = ground arith in
      (
        record (m.regs) { vals = set m.regs.vals sp w },
        simp (s.at, s.fits w l) refl,
        record {
          run = s.run;
          full = s.full;
          order_eq = s.order_eq;
          at = rw same refl;
          small = omega (arith, s.small);
          fits = λ x i. s.fits x (omega arith);
          room = λ x i j. s.room x i (omega arith);
        },
      )

  pub push_init-Init :
      (m : Machine) (v : ℕ) (auxv init : List ℕ)
      → OnStack sp lo hi base order m v
      → 0 < length init
      → base + (31 + (length auxv + length init)) ≤ v
      → Init m v auxv init (push_init prot_exec sp auxv init m)
  unfolding push_init reg_read
  push_init-Init m v auxv init s z l =
      let w = aligned v (length init) in
      let (below, near, even) = aligned_lem v (length init) s.small (omega arith) in
      let (r, write, s') = moved m v w s below in
      let m1 : Machine = record m { regs = r } in
      elim (Bool-cases (ltb 0 (length auxv))) [
        | inl e ↦
            let table =
              push_bytes-Pushed prot_exec sp lo hi base order m1 w auxv s'
                (ltb→lt 0 (length auxv) e) (omega (arith, near)) in
            let last =
              push_bytes-Pushed prot_exec sp lo hi base order table.machine (w - length auxv) init
                table.stack z (omega (arith, near)) in
            record {
              machine = last.machine;
              low = w - length auxv - length init;
              done = simp (s.at, write, e, table.pushed, last.pushed) refl;
              stack = last.stack;
              below = omega (arith, below);
              words = last.holds;
              table =
                  subst (λ a. Holds last.machine.cpu.pages a auxv) (omega (arith, near))
                    (Holds-same table.machine last.machine (w - length auxv) (w - length auxv) auxv
                      last.same (omega arith) table.holds);
              even =
                  (let back : w - length auxv - length init + length auxv ≡ w - length init =
                      omega (arith, near) in
                    rw back (even (omega (arith, near))));
              same =
                  SameFrom-trans m table.machine last.machine (w - length auxv) v
                    (omega (arith, below)) (λ x b. table.same x (omega (arith, below))) last.same;
            }
        | inr e ↦
            let nothing = ltb→le 0 (length auxv) e in
            let last =
              push_bytes-Pushed prot_exec sp lo hi base order m1 w init s' z
                (omega (arith, near)) in
            record {
              machine = last.machine;
              low = w - length init;
              done = simp (s.at, write, e, last.pushed) refl;
              stack = last.stack;
              below = omega (arith, below);
              words = last.holds;
              table = λ k b. absurd (omega (arith, nothing));
              even =
                  (let back : w - length init + length auxv ≡ w - length init =
                      omega (arith, nothing) in
                    rw back (even (omega (arith, near))));
              same = λ x b. last.same x (omega (arith, below));
            }
      ]
