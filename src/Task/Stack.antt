-- ===== src/Task/Stack.antt =====
-- go/task.go: the stack of a program, over the registers and the memory of a cpu. An error is `none`.
use usercorn.Base.{inr}
use usercorn.Base.{==_iff}
use usercorn.Base.{inl}
use usercorn.Base.{Bool-cases}
use usercorn.Base.{true}
use usercorn.Base.{
  ℕ, ◌-◌, ◌<◌, ◌≤◌, ◌^◌, ◌≡◌, refl, ◌∙◌, ap, sym, List, [], Option, none, some, length, replicate,
  add64, sub64, bit_and, arith, ◌==◌,
}
use usercorn.Cpu.MemSim.{write, ok}
use usercorn.Cpu.Mem.{Mem, Result, done, failed, panic, mem_write, mem_read_into}
use usercorn.Cpu.Page.{Page}
use usercorn.Cpu.Regs.{set, Regs, reg_read, reg_write}
use usercorn.Cpu.Regs as RegFile
use usercorn.Cpu.PackUint.{ByteOrder, pack_uint, unpack_uint}
use usercorn.Cpu.PackUint as PackUint
use usercorn.Cpu.Space.{IsRun}
use usercorn.Cpu.Space.Reads.{NonEmpty}
use usercorn.Cpu.Space.Store.{read-write}

pub record Machine : Type 0 where
  pub regs : Regs
  pub cpu : Mem

-- `sp` is the number of the stack pointer.
module _ (prot_exec sp : ℕ) where
  abbrev pub stored : Machine → ℕ → Result Mem → Machine × Option ℕ
  stored m addr (done c) = (record m { cpu = c }, some addr)
  stored m addr (failed e) = (m, none)
  stored m addr panic = (m, none)

  abbrev pub push_at : Machine → List ℕ → ℕ → RegFile.Result Regs → Machine × Option ℕ
  push_at m p addr (RegFile.err e) = (m, none)
  push_at m p addr (RegFile.ok r) = stored (record m { regs = r }) addr (mem_write m.cpu addr p)

  abbrev pub push_from : Machine → List ℕ → RegFile.Result ℕ → Machine × Option ℕ
  push_from m p (RegFile.err e) = (m, none)
  push_from m p (RegFile.ok v) =
      push_at m p (sub64 v (length p)) (reg_write m.regs sp (sub64 v (length p)))

  unfoldable pub push_bytes : Machine → List ℕ → Machine × Option ℕ
  push_bytes m p = push_from m p (reg_read m.regs sp)

  abbrev pub popped : Machine → List ℕ → RegFile.Result Regs → Machine × Option (List ℕ)
  popped m p (RegFile.err e) = (m, none)
  popped m p (RegFile.ok r) = (record m { regs = r }, some p)

  abbrev pub pop_at : Machine → ℕ → Result (List ℕ) → Machine × Option (List ℕ)
  pop_at m v (done p) = popped m p (reg_write m.regs sp (add64 v (length p)))
  pop_at m v (failed e) = (m, none)
  pop_at m v panic = (m, none)

  abbrev pub pop_from : Machine → List ℕ → RegFile.Result ℕ → Machine × Option (List ℕ)
  pop_from m buffer (RegFile.err e) = (m, none)
  pop_from m buffer (RegFile.ok v) = pop_at m v (mem_read_into prot_exec m.cpu buffer v)

  -- The buffer comes back filled.
  unfoldable pub pop_bytes : Machine → List ℕ → Machine × Option (List ℕ)
  pop_bytes m buffer = pop_from m buffer (reg_read m.regs sp)

module _ (prot_exec sp bsz : ℕ) where
  abbrev or_nothing : PackUint.Result (List ℕ × List ℕ) → List ℕ
  or_nothing (PackUint.ok (buf, p)) = p
  or_nothing (PackUint.err e) = []
  or_nothing PackUint.panic = []

  -- The error of `PackAddr` is dropped; what would be a panic is an empty slice here.
  unfoldable pub push : Machine → ℕ → Machine × Option ℕ
  push m n =
      push_bytes prot_exec sp m (or_nothing (pack_uint m.cpu.order bsz (some (replicate 8 0)) n))

  -- `UnpackAddr` panics where this is an error.
  abbrev unpacked : PackUint.Result ℕ → Option ℕ
  unpacked (PackUint.ok n) = some n
  unpacked (PackUint.err e) = none
  unpacked PackUint.panic = none

  abbrev pop_value : Machine × Option (List ℕ) → Machine × Option ℕ
  pop_value (m, none) = (m, none)
  pop_value (m, some p) = (m, unpacked (unpack_uint m.cpu.order bsz p))

  unfoldable pub pop : Machine → Machine × Option ℕ
  pop m = pop_value (pop_bytes prot_exec sp m (replicate bsz 0))

-- What `PushBytes` leaves to `PopBytes`: the same bytes, and the registers as they were before.
abbrev pub Pushed :
    (prot_exec sp : ℕ) → Machine → (addr : ℕ) → (p buffer : List ℕ) → Machine → Type 0
Pushed prot_exec sp m addr p buffer m' =
    (push_bytes prot_exec sp m p ≡ (m', some addr))
    × (reg_read m'.regs sp ≡ RegFile.ok addr)
    × (m'' : Machine) × (pop_bytes prot_exec sp m' buffer ≡ (m'', some p))
    × ((k : ℕ) → m''.regs.vals k ≡ m.regs.vals k)

set_back :
    (vals : ℕ → Option ℕ) (sp a v : ℕ)
    → vals sp ≡ some v
    → (j : ℕ) → set (set vals sp a) sp v j ≡ vals j
set_back vals sp a v at j = elim (Bool-cases (sp == j)) [
  | inl e ↦ rw e (sym at ∙ ap vals ((==_iff sp j).0 e))
  | inr e ↦ rw e refl
]

-- Bytes that are pushed, where the memory takes them, are at the address that is returned and that the
-- stack pointer then has, as many bytes below as were pushed; and popping as many gives them back and
-- leaves every register as it was. The stack pointer does not go below 0 or reach the end of the
-- address space, its two values fit the mask of the registers, and the pages are well formed.
pub pop_bytes-push_bytes :
    (prot_exec sp : ℕ) (m : Machine) (lo hi v : ℕ) (p buffer : List ℕ) (ps : List Page)
    → IsRun lo m.cpu.pages hi
    → NonEmpty m.cpu.pages
    → m.regs.vals sp ≡ some v
    → bit_and v m.regs.mask ≡ v
    → bit_and (v - length p) m.regs.mask ≡ v - length p
    → 0 < length p
    → length p ≤ v
    → v < 2 ^ 64
    → length buffer ≡ length p
    → write m.cpu.pages (v - length p) p 0 ≡ ok ps
    → (m' : Machine) × Pushed prot_exec sp m (v - length p) p buffer m'
unfolding push_bytes pop_bytes reg_read reg_write mem_write mem_read_into
pop_bytes-push_bytes prot_exec sp m lo hi v p buffer ps h z at top low s l k b e =
    let down : sub64 v (length p) ≡ v - length p = omega (arith, l, k) in
    let up : add64 (v - length p) (length p) ≡ v = omega (arith, l, k) in
    let same : (sp == sp) ≡ true = ground arith in
    let back =
      read-write prot_exec m.cpu.pages ps lo hi (v - length p) p buffer 0 h z s
        (omega (arith, l, k)) b e in
    let m' : Machine = record {
      regs = record (m.regs) { vals = set m.regs.vals sp (v - length p) };
      cpu = record (m.cpu) { pages = ps };
    } in
    let m'' : Machine = record m' { regs = record (m'.regs) { vals = set m'.regs.vals sp v } } in
    let found : m'.regs.vals sp ≡ some (v - length p) = ground (arith, same) in
    (
      m',
      (
        simp (at, down, low, e) refl,
        rw found refl,
        m'',
        simp (found, back, up, top) refl,
        set_back m.regs.vals sp (v - length p) v at,
      ),
    )
