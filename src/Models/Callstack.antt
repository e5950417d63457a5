-- ===== src/Models/Callstack.antt =====
-- go/models/callstack.go. The head of the list is the top of the stack, the last entry of the slice.
pub mod Order
use usercorn.Base.{ℕ, Bool, true, false, List, [], ◌∷◌, length, ltb, ◌==◌, not, if◌then◌else◌}

pub record Stackframe : Type 0 where
  pub pc : ℕ
  pub sp : ℕ

-- `Stackframe{}`
abbrev pub zero_frame : Stackframe
zero_frame = record { pc = 0; sp = 0 }

unfoldable pub empty : List Stackframe → Bool
empty s = length s == 0

unfoldable pub push : List Stackframe → ℕ → ℕ → List Stackframe
push s pc sp = record { pc = pc; sp = sp } ∷ s

unfoldable pub peek : List Stackframe → Stackframe
peek [] = zero_frame
peek (f ∷ s) = f

unfoldable pub pop : List Stackframe → List Stackframe × Stackframe
pop [] = ([], zero_frame)
pop (f ∷ s) = (s, f)

-- The stack as it is shown while `pc` runs.
unfoldable pub freeze : List Stackframe → ℕ → ℕ → List Stackframe
freeze [] pc sp = push [] pc sp
freeze (f ∷ s) pc sp = if not (f.pc == pc) then push (f ∷ s) pc sp else f ∷ s

-- `for !s.Empty() && sp > s.Peek().SP { s.Pop() }`
unfoldable pub unwind : List Stackframe → ℕ → List Stackframe
unwind [] sp = []
unwind (f ∷ s) sp = let rest = unwind s sp in if ltb f.sp sp then rest else f ∷ s

unfoldable pub update : List Stackframe → ℕ → ℕ → List Stackframe
unfolding push unwind
update [] pc sp = push [] pc sp
update (f ∷ s) pc sp =
    if ltb sp f.sp
    then push (f ∷ s) pc sp
    else if sp == f.sp
    then record f { pc = pc } ∷ s
    else unwind (f ∷ s) sp
