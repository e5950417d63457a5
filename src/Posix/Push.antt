-- ===== src/Posix/Push.antt =====
-- go/task.go: `PushBytes` in a part of the memory that is mapped, as the addresses see it.
use usercorn.Base.{
  ℕ, ◌+◌, ◌-◌, ◌≤◌, ◌<◌, ◌^◌, ◌≡◌, ◌≢◌, refl, ◌∙◌, ap, sym, subst, true, List, Option, none, some,
  length, get_elem?, ◌==◌, arith, Bool-cases, Option-cases, inl, inr, sub64, bit_and,
  get_elem?-some,
}
use usercorn.Cpu.Page.{Page}
use usercorn.Cpu.Mem.{mem_write}
use usercorn.Cpu.PackUint.{ByteOrder}
use usercorn.Cpu.Regs.{reg_read, reg_write, set}
use usercorn.Cpu.Space.{IsRun, cell}
use usercorn.Cpu.Space.Parts.{within}
use usercorn.Cpu.Space.Reads.{NonEmpty, byte_at}
use usercorn.Cpu.Space.Valid.{Mapped, allows}
use usercorn.Cpu.Space.Access.{Holds}
use usercorn.Cpu.Space.Put.{put, put_here, put_away}
use usercorn.Cpu.Space.Store.{write-Writes}
use usercorn.Task.Stack.{Machine, push_bytes}

-- A stack that can grow from `v` down to `base`.
pub record OnStack (sp lo hi base : ℕ) (order : ByteOrder) (m : Machine) (v : ℕ) : Type 0 where
  pub run : IsRun lo m.cpu.pages hi
  pub full : NonEmpty m.cpu.pages
  pub order_eq : m.cpu.order ≡ order
  pub at : m.regs.vals sp ≡ some v
  pub small : v < 2 ^ 64
  pub fits : (x : ℕ) → x ≤ v → bit_and x m.regs.mask ≡ x
  pub room : Mapped m.cpu.pages base v

-- The bytes from `v` on are the same.
abbrev pub SameFrom : ℕ → Machine → Machine → Type 0
SameFrom v m m' = (x : ℕ) → v ≤ x → cell m'.cpu.pages x ≡ cell m.cpu.pages x

allows-zero : (o : Option (ℕ × ℕ)) → allows 0 o ≡ true
allows-zero none = refl
allows-zero (some c) = refl

module _ (p : List ℕ) (addr : ℕ) where
  put-mapped : (x : ℕ) (c : Option (ℕ × ℕ)) → c ≢ none → put p addr x c ≢ none
  put-mapped x none h e = h refl
  put-mapped x (some c) h e = elim (Bool-cases (within addr (addr + length p) x)) [
    | inr out ↦ let gone = put_away p addr x (some c) out in cc
    | inl here ↦
        let (b, g) = get_elem?-some p (x - addr) (ground arith) in
        let new = put_here p addr x b c (some c) here g refl in cc
  ]

  put-Holds :
      (ps ps' : List Page)
      → Mapped ps addr (addr + length p)
      → ((x : ℕ) → cell ps' x ≡ put p addr x (cell ps x))
      → Holds ps' addr p
  put-Holds ps ps' h w k l =
      let (b, g) = get_elem?-some p k l in
      elim (Option-cases (cell ps (addr + k))) [
        | inl e ↦ absurd (h (addr + k) (omega arith) (omega arith) e)
        | inr (c, e) ↦
            let back : addr + k - addr ≡ k = omega arith in
            let inside : within addr (addr + length p) (addr + k) ≡ true = ground arith in
            g
            ∙ sym (
                ap byte_at (
                  w (addr + k)
                  ∙ put_here p addr (addr + k) b c (cell ps (addr + k)) inside
                      (ap (get_elem? p) back ∙ g) e))
      ]

module _ (prot_exec sp lo hi base : ℕ) (order : ByteOrder) where
  -- What a push of `p` makes of a machine.
  pub record Pushed (m : Machine) (v : ℕ) (p : List ℕ) : Type 0 where
    pub machine : Machine
    pub pushed : push_bytes prot_exec sp m p ≡ (machine, some (v - length p))
    pub stack : OnStack sp lo hi base order machine (v - length p)
    pub holds : Holds machine.cpu.pages (v - length p) p
    pub same : SameFrom v m machine

  pub push_bytes-Pushed :
      (m : Machine) (v : ℕ) (p : List ℕ)
      → OnStack sp lo hi base order m v
      → 0 < length p
      → base + length p ≤ v
      → Pushed m v p
  unfolding push_bytes reg_read reg_write mem_write
  push_bytes-Pushed m v p s z l =
      let addr = v - length p in
      let top : addr + length p ≡ v = omega arith in
      let range : Mapped m.cpu.pages addr (addr + length p) =
        λ x i j. s.room x (omega arith) (omega arith) in
      let down : sub64 v (length p) ≡ addr = omega (arith, s.small) in
      let (ps, e, w) =
        (write-Writes m.cpu.pages lo hi addr p 0 s.run s.full z (omega (arith, s.small))).writes
          range (λ x i j. allows-zero (cell m.cpu.pages x)) in
      let m' : Machine = record {
        regs = record (m.regs) { vals = set m.regs.vals sp addr };
        cpu = record (m.cpu) { pages = ps };
      } in
      let same : (sp == sp) ≡ true = ground arith in
      record {
        machine = m';
        pushed = simp (s.at, down, s.fits addr (omega arith), e) refl;
        stack = record {
          run = w.run;
          full = w.full s.full;
          order_eq = s.order_eq;
          at = rw same refl;
          small = omega (arith, s.small);
          fits = λ x i. s.fits x (omega arith);
          room = λ x i j.
              subst (λ c. c ≢ none) (sym (w.cells x))
                (put-mapped p addr x (cell m.cpu.pages x) (s.room x i (omega arith)));
        };
        holds = put-Holds p addr m.cpu.pages ps range w.cells;
        same = λ x i. w.cells x ∙ put_away p addr x (cell m.cpu.pages x) (ground arith);
      }
