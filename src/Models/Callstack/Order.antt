-- ===== src/Models/Callstack/Order.antt =====
-- The stack pointers of a call stack fall towards its top, whatever the program does.
use usercorn.Base.{◌≢◌}
use usercorn.Base.{ℕ, ◌≤◌, ◌<◌, ◌≡◌, refl, List, [], ◌∷◌, ◌++◌, ltb, if◌then◌else◌, arith, All}
use usercorn.Models.Callstack.{Stackframe, update, unwind}

-- Each frame lies above the one on top of it.
abbrev pub IsNested : List Stackframe → Type 0
IsNested [] = Unit {0}
IsNested (f ∷ []) = Unit {0}
IsNested (f ∷ (g ∷ s)) = (f.sp < g.sp) × IsNested (g ∷ s)

-- The frames of a stack that lie above an address.
abbrev pub above : ℕ → List Stackframe → List Stackframe
above sp [] = []
above sp (f ∷ s) = if ltb sp f.sp then f ∷ above sp s else above sp s

IsNested-tail : (f : Stackframe) (s : List Stackframe) → IsNested (f ∷ s) → IsNested s
IsNested-tail f [] h = tt
IsNested-tail f (g ∷ s) h = h.1

unwind-IsNested : (s : List Stackframe) (sp : ℕ) → IsNested s → IsNested (unwind s sp)
unfolding unwind
unwind-IsNested [] sp h = tt
unwind-IsNested (f ∷ s) sp h = ground (arith, unwind-IsNested s sp (IsNested-tail f s h))

-- In nested frames all above the first are above it.
above-all :
    (f : Stackframe) (s : List Stackframe) (sp : ℕ) → IsNested (f ∷ s) → sp ≤ f.sp → above sp s ≡ s
above-all f [] sp h l = refl
above-all f (g ∷ s) sp h l = ground (arith, above-all g s sp h.1)

above-unwind : (s : List Stackframe) (sp : ℕ) → IsNested s → above sp (unwind s sp) ≡ above sp s
unfolding unwind
above-unwind [] sp h = refl
above-unwind (f ∷ s) sp h = ground (arith, above-unwind s sp (IsNested-tail f s h))

nested-All :
    (f : Stackframe) (s : List Stackframe) (sp : ℕ)
    → IsNested (f ∷ s)
    → sp ≤ f.sp
    → All (λ g. sp ≤ g.sp) s
nested-All f [] sp h l = tt
nested-All f (g ∷ s) sp h l = (omega arith, nested-All g s sp h.1 (omega arith))

unwind-All : (s : List Stackframe) (sp : ℕ) → IsNested s → All (λ f. sp ≤ f.sp) (unwind s sp)
unfolding unwind
unwind-All [] sp h = tt
unwind-All (f ∷ s) sp h = ground (arith, unwind-All s sp (IsNested-tail f s h), nested-All f s sp h)

unwinds :
    (s back : List Stackframe) (f : Stackframe)
    → All (λ g. g.sp < f.sp) s
    → unwind (s ++ (f ∷ back)) f.sp ≡ f ∷ back
unfolding unwind
unwinds [] back f h = ground arith
unwinds (g ∷ s) back f h = ground (arith, unwinds s back f h.1)

-- `Update` keeps the frames nested, leaves no frame below the new stack pointer, and keeps exactly
-- the frames that lie above it.
pub update_lem :
    (s : List Stackframe) (pc sp : ℕ)
    → IsNested s
    → IsNested (update s pc sp)
      × All (λ f. sp ≤ f.sp) (update s pc sp)
      × (above sp (update s pc sp) ≡ above sp s)
unfolding update
update_lem [] pc sp h = ground arith
update_lem (f ∷ []) pc sp h = ground arith
update_lem (f ∷ (g ∷ s)) pc sp h = (
  ground (arith, unwind-IsNested (g ∷ s) sp h.1),
  ground (arith, unwind-All (g ∷ s) sp h.1, nested-All g s sp h.1),
  ground (arith, above-unwind (g ∷ s) sp h.1, above-all g s sp h.1),
)

-- Where the program has left a deeper frame and is back at one that the stack has, that frame is on
-- top, as it was.
pub update_returns :
    (s back : List Stackframe) (f : Stackframe) (pc : ℕ)
    → All (λ g. g.sp < f.sp) s
    → s ≢ []
    → update (s ++ (f ∷ back)) pc f.sp ≡ f ∷ back
unfolding update
update_returns [] back f pc h l = absurd (l refl)
update_returns (g ∷ s) back f pc h l = ground (arith, unwinds (g ∷ s) back f h)
