-- ===== src/Cpu/Regs.antt =====
-- go/models/cpu/regs.go: a register file. The map is a function from register numbers.
use usercorn.Base.{
  ℕ, ◌-◌, ◌^◌, ◌/◌, ◌≡◌, refl, ap, List, [], ◌∷◌, Option, none, some, bit_and, ◌==◌, if◌then◌else◌,
  arith,
}

abbrev pub Vals : Type 0
Vals = ℕ → Option ℕ

pub record Regs : Type 0 where
  pub mask : ℕ
  pub vals : Vals

abbrev pub set : Vals → ℕ → ℕ → Vals
set vals enum val k = if enum == k then some val else vals k

-- `r.vals[e] = 0` for each register
abbrev zeroed : List ℕ → Vals → Vals
zeroed [] vals = vals
zeroed (e ∷ enums) vals = zeroed enums (set vals e 0)

-- `NewRegs(bits, enums)`; `^uint64(0) >> (64 - bits)` for at most 64 bits.
unfoldable pub new_regs : ℕ → List ℕ → Regs
new_regs bits enums = record {
  mask = (2 ^ 64 - 1) / 2 ^ (64 - bits);
  vals = zeroed enums (λ k. none);
}

pub data Error : Type 0 where
  invalid_register wrong_context : Error

pub data Result (A : Type 0) : Type 0 where
  ok : A → Result A
  err : Error → Result A

ok_inj : {A : Type 0} {a b : A} → ok a ≡ ok b → a ≡ b
ok_inj e = cc

abbrev or_invalid : Option ℕ → Result ℕ
or_invalid none = err invalid_register
or_invalid (some v) = ok v

unfoldable pub reg_read : Regs → ℕ → Result ℕ
reg_read r enum = or_invalid (r.vals enum)

abbrev write_known : Regs → ℕ → ℕ → Option ℕ → Result Regs
write_known r enum val none = err invalid_register
write_known r enum val (some old) = ok (record r { vals = set r.vals enum val })

unfoldable pub reg_write : Regs → ℕ → ℕ → Result Regs
reg_write r enum val = write_known r enum (bit_and val r.mask) (r.vals enum)

-- What a caller may pass as a context: none, a map of registers, or something else.
pub data Context : Type 0 where
  nothing : Context
  saved : Vals → Context
  other : Context

abbrev pub either : Option ℕ → Option ℕ → Option ℕ
either none old = old
either (some v) old = some v

-- `for k, v := range from { to[k] = v }`
abbrev pub copy_vals : Vals → Vals → Vals
copy_vals from to k = either (from k) (to k)

-- The map that is saved. A map that is given for reuse keeps its other keys.
unfoldable pub context_save : Regs → Context → Result Vals
context_save r nothing = ok (copy_vals r.vals (λ k. none))
context_save r (saved m) = ok (copy_vals r.vals m)
context_save r other = err wrong_context

unfoldable pub context_restore : Regs → Context → Result Regs
context_restore r nothing = err wrong_context
context_restore r (saved m) = ok (record r { vals = copy_vals m r.vals })
context_restore r other = err wrong_context

-- After a write to a register that exists, a read of it gives the value cut to the mask, a read of
-- any other register gives what it gave before; a write to one that does not exist fails.
pub reg_read-reg_write :
    (r : Regs) (enum k val : ℕ)
    → (r.vals enum ≡ none → reg_write r enum val ≡ err invalid_register)
      × ((old : ℕ)
          → r.vals enum ≡ some old
          → (r' : Regs) × (reg_write r enum val ≡ ok r')
            × (reg_read r' k ≡ (if enum == k then ok (bit_and val r.mask) else reg_read r k)))
unfolding reg_read reg_write
reg_read-reg_write r enum k val = (
  λ e. ground arith,
  λ old e. (record r { vals = set r.vals enum (bit_and val r.mask) }, ground arith, ground arith),
)

-- A saved context brings every register back: whatever is in the registers when the context is
-- restored, if they are the same registers, each has the value that it had when it was saved.
pub context_restore-context_save :
    (r r' : Regs) (m : Vals)
    → context_save r nothing ≡ ok m
    → ((k : ℕ) → r.vals k ≡ none → r'.vals k ≡ none)
    → (r'' : Regs) × (context_restore r' (saved m) ≡ ok r'')
      × ((k : ℕ) → reg_read r'' k ≡ reg_read r k)
unfolding context_save context_restore reg_read
context_restore-context_save r r' m e same = (
  record r' { vals = copy_vals m r'.vals },
  refl,
  λ k.
      let at : either (r.vals k) none ≡ m k = ap (λ (f : Vals). f k) (ok_inj e) in
      ground (arith, at, same k),
)
