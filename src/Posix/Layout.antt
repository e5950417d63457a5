-- ===== src/Posix/Layout.antt =====
-- go/kernel/posix/kernel.go: the layout of the stack that a program starts with.
use usercorn.Base.{ltb→le}
use usercorn.Base.{ltb→lt}
use usercorn.Base.{
  ℕ, suc, ◌+◌, ◌-◌, ◌≤◌, ◌<◌, ◌^◌, ◌%◌, ◌≡◌, refl, ◌∙◌, ap, sym, subst, List, [], ◌∷◌, some, length,
  ltb, arith, Bool-cases, inl, inr, length-append,
}
use usercorn.Cpu.Page.{Page}
use usercorn.Cpu.PackUint.{ByteOrder}
use usercorn.Cpu.Space.Reads.{byte_at}
use usercorn.Cpu.Space.Access.{Holds}
use usercorn.Task.Stack.{Machine}
use usercorn.Posix.{c_string, push_strings, aligned}
use usercorn.Posix.Push.{OnStack, SameFrom, push_bytes-Pushed}

pub Holds-same :
    (m m' : Machine) (v addr : ℕ) (p : List ℕ)
    → SameFrom v m m'
    → v ≤ addr
    → Holds m.cpu.pages addr p
    → Holds m'.cpu.pages addr p
Holds-same m m' v addr p s l h k b = h k b ∙ ap byte_at (sym (s (addr + k) (omega arith)))

pub SameFrom-trans :
    (m m' m'' : Machine) (v w : ℕ) → v ≤ w → SameFrom w m m' → SameFrom v m' m'' → SameFrom w m m''
SameFrom-trans m m' m'' v w l s t x b = t x (omega arith) ∙ s x b

-- Texts at their addresses, from `low` on, each with a byte 0 behind it.
abbrev pub StringsAt : ℕ → List Page → List ℕ → List (List ℕ) → Type 0
StringsAt low ps [] [] = Unit {0}
StringsAt low ps [] (s ∷ ss) = ⊥
StringsAt low ps (a ∷ as') [] = ⊥
StringsAt low ps (a ∷ as') (s ∷ ss) = (low ≤ a) × Holds ps a (c_string s) × StringsAt low ps as' ss

pub StringsAt-same :
    (m m' : Machine) (v low w : ℕ) (as' : List ℕ) (ss : List (List ℕ))
    → SameFrom v m m'
    → v ≤ low
    → w ≤ low
    → StringsAt low m.cpu.pages as' ss
    → StringsAt w m'.cpu.pages as' ss
StringsAt-same m m' v low w [] [] s l k h = tt
StringsAt-same m m' v low w [] (x ∷ ss) s l k h = h
StringsAt-same m m' v low w (a ∷ as') [] s l k h = h
StringsAt-same m m' v low w (a ∷ as') (x ∷ ss) s l k h = (
  omega (arith, h.0),
  Holds-same m m' v a (c_string x) s (omega (arith, h.0)) h.1,
  StringsAt-same m m' v low w as' ss s l k h.2,
)

abbrev pub total : List (List ℕ) → ℕ
total [] = 0
total (s ∷ ss) = length (c_string s) + total ss

module _ (prot_exec sp lo hi base : ℕ) (order : ByteOrder) where
  pub record AllPushed (m : Machine) (v : ℕ) (ss : List (List ℕ)) : Type 0 where
    pub machine : Machine
    pub addrs : List ℕ
    pub pushed : push_strings prot_exec sp ss m ≡ (machine, some addrs)
    pub counted : length addrs ≡ length ss
    pub stack : OnStack sp lo hi base order machine (v - total ss)
    pub strings : StringsAt (v - total ss) machine.cpu.pages addrs ss
    pub same : SameFrom v m machine

  pub push_strings-AllPushed :
      (ss : List (List ℕ)) (m : Machine) (v : ℕ)
      → OnStack sp lo hi base order m v
      → base + total ss ≤ v
      → AllPushed m v ss
  unfolding push_strings
  push_strings-AllPushed [] m v s l = record {
    machine = m;
    addrs = [];
    pushed = refl;
    counted = refl;
    stack = subst (OnStack sp lo hi base order m) (omega arith) s;
    strings = tt;
    same = λ x b. refl;
  }
  push_strings-AllPushed (t ∷ ss) m v s l =
      let p = c_string t in
      let some_byte : 0 < length p = omega (arith, length-append t (0 ∷ [])) in
      let one = push_bytes-Pushed prot_exec sp lo hi base order m v p s some_byte (omega arith) in
      let addr = v - length p in
      let rest = push_strings-AllPushed ss one.machine addr one.stack (omega arith) in
      let low : addr - total ss ≡ v - total (t ∷ ss) = omega arith in
      record {
        machine = rest.machine;
        addrs = addr ∷ rest.addrs;
        pushed = rw (one.pushed, rest.pushed) refl;
        counted = ap suc rest.counted;
        stack = subst (OnStack sp lo hi base order rest.machine) low rest.stack;
        strings = (
          omega arith,
          Holds-same one.machine rest.machine addr addr p rest.same (omega arith) one.holds,
          subst (λ w. StringsAt w rest.machine.cpu.pages rest.addrs ss) low rest.strings,
        );
        same = SameFrom-trans m one.machine rest.machine addr v (omega arith) one.same rest.same;
      }

-- The place for `n` bytes, below `v`, that leaves the stack pointer at a multiple of 16.
pub aligned_lem :
    (v n : ℕ)
    → v < 2 ^ 64
    → 31 ≤ v
    → (aligned v n ≤ v) × (v ≤ aligned v n + 31) × (n ≤ aligned v n → (aligned v n - n) % 16 ≡ 0)
aligned_lem v n b l = elim (Bool-cases (ltb 0 (n % 16))) [
  | inl e ↦ rw e (omega arith, omega arith, λ h. omega (arith, ltb→lt 0 (n % 16) e))
  | inr e ↦ rw e (omega arith, omega arith, λ h. omega (arith, ltb→le 0 (n % 16) e))
]
