-- ===== src/Linux/Tests.antt =====
-- The theorems about the stack of the start at concrete inputs.
use usercorn.Base.{lt→ltb}
use usercorn.Base.{ltb}
use usercorn.Base.{le→leb}
use usercorn.Base.{leb}
use usercorn.Base.{sym}
use usercorn.Base.{◌∙◌}
use usercorn.Base.{◌&&◌}
use usercorn.Base.{ap}
use usercorn.Base.{◌==◌}
use usercorn.Base.{get_elem?}
use usercorn.Base.{Bool-cases}
use usercorn.Base.{
  ℕ, zero, suc, ◌-◌, ◌<◌, ◌≡◌, ◌≢◌, refl, Bool, true, false, [], ◌∷◌, none, some, replicate, arith,
  inl, inr, bit_and,
}
use usercorn.Cpu.Page.{contains}
use usercorn.Cpu.PackUint.{little}
use usercorn.Cpu.Space.{cell, cell_in}
use usercorn.Task.Stack.{Machine}
use usercorn.Models.Segment.{contains_phys}
use usercorn.Linux.{Program, Host, linux_stack_init, phdr_addr}
use usercorn.Linux.Align.{Ready, linux_stack_init-Ready}
use usercorn.Posix.{stack_init}
use usercorn.Posix.Push.{OnStack}
use usercorn.Posix.Start.{Started, stack_init-Started}

abbrev machine : Machine
machine = record {
  regs = record { mask = 255; vals = λ k. some 240 };
  cpu = record {
    bits = 8;
    mask = 255;
    hooked = false;
    pages =
        record { addr = 0; size = 240; prot = 3; bytes = replicate 240 0; desc = []; file = none }
        ∷ [];
    order = little;
  };
}

-- Whether the numbers below `n` fit the mask.
abbrev fits_below : ℕ → Bool
fits_below zero = true
fits_below (suc n) = (bit_and n 255 == n) && fits_below n

fits_below-true : (n x : ℕ) → fits_below n ≡ true → x < n → bit_and x 255 ≡ x
fits_below-true zero x e h = absurd (omega arith)
fits_below-true (suc n) x e h = elim (Bool-cases (x == n)) [
  | inl same ↦
      let eq : x ≡ n = ground arith in
      let here : bit_and n 255 ≡ n = ground (arith, e) in ap (λ k. bit_and k 255) eq ∙ here ∙ sym eq
  | inr other ↦ fits_below-true n x (ground (arith, e)) (ground (arith, other))
]

page_room : (n x : ℕ) → x < n → get_elem? {A = ℕ} (replicate n 0) x ≡ some 0
page_room zero x h = absurd (omega arith)
page_room (suc n) zero h = refl
page_room (suc n) (suc x) h = page_room n x (omega arith)

machine-room : (x : ℕ) → x < 240 → cell machine.cpu.pages x ≢ none
unfolding cell cell_in contains
machine-room x h =
    let back : x - 0 ≡ x = omega arith in
    let low : leb 0 x ≡ true = le→leb 0 x (omega arith) in
    let high : ltb x 240 ≡ true = lt→ltb x 240 h in
    rw (low, high, back, page_room 240 x h) (λ e. cc)

machine-OnStack : OnStack 4 0 256 0 little machine 240
unfolding cell cell_in contains
machine-OnStack = record {
  run = (omega arith, record { fits = omega arith; filled = refl }, omega arith);
  full = (omega arith, tt);
  order_eq = refl;
  at = refl;
  small = omega arith;
  fits = λ x h. fits_below-true 241 x refl (omega arith);
  room = λ x l h. machine-room x h;
}

stack_init-Started_example :
    Started 4 4 0 256 0 little 8
      (inl refl)
      ((b'a' ∷ []) ∷ [])
      ((b'b' ∷ []) ∷ [])
      []
      machine
      240
      (stack_init 4 4 8 ((b'a' ∷ []) ∷ []) ((b'b' ∷ []) ∷ []) [] machine)
stack_init-Started_example =
    stack_init-Started 4 4 0 256 0 little 8 (inl refl) ((b'a' ∷ []) ∷ []) ((b'b' ∷ []) ∷ []) []
      machine 240 machine-OnStack (omega arith)

-- A program of 32 bits whose headers are in its first segment.
abbrev program : Program
program = record {
  arch = b'x' ∷ [];
  interp_base = 0;
  bin_entry = 4096;
  phdr_off = 52;
  phdr_count = 2;
  segments = record { off = 0; addr = 4096; size = 512; prot = 5 } ∷ [];
}

abbrev host : Host
host = record { random = replicate 16 7; uid = 1; euid = 1; gid = 1; egid = 1 }

linux_stack_init-Ready_example :
    Ready 4 4 0 256 0 little 4
      (inr refl)
      program
      host
      ((b'a' ∷ []) ∷ [])
      []
      (linux_stack_init 4 4 4 program host ((b'a' ∷ []) ∷ []) [] machine)
unfolding phdr_addr contains_phys
linux_stack_init-Ready_example =
    linux_stack_init-Ready 4 4 0 256 0 little 4 (inr refl) program host ((b'a' ∷ []) ∷ []) []
      machine 240 machine-OnStack (omega arith) (omega arith)
