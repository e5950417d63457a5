-- ===== src/Corn/Calls/Order.antt =====
-- go/usercorn.go, `Syscall`: which kernel is called, and what is told when.
use usercorn.Base.{map, ℕ, ◌≡◌, Bool, true, false, List, [], ◌∷◌, ◌++◌, Option, none, some, All}
use usercorn.Corn.Calls.{Sys, Report, before, after, Calls, Outcome, returned, failed, panicked}

-- What happens in a system call: a hook is told something, or the kernel is called.
pub data Event : Type 0 where
  told : Report → Event
  called : List ℕ → Event

module _ {K W : Type 0} (tell : Report → W → W) (lookup : K → List ℕ → Option (Sys W)) (num : ℕ)
    (name : List ℕ) where
  -- The state after events that happen one after the other.
  abbrev pub happen : Sys W → List Event → W → W
  happen sys [] w = w
  happen sys (told r ∷ es) w = happen sys es (tell r w)
  happen sys (called args ∷ es) w = happen sys es ((sys.call args w).1)

  -- The system call of the first kernel that has it.
  pub record IsFirst (kernels : List K) (sys : Sys W) : Type 0 where
    pub earlier : List K
    pub kernel : K
    pub later : List K
    pub split : kernels ≡ earlier ++ (kernel ∷ later)
    pub unknown : All (λ j. lookup j name ≡ none) earlier
    pub known : lookup kernel name ≡ some sys

  abbrev pub told_before : List ℕ → (args desc : List ℕ) → List Event
  told_before hooks args desc = map (λ v. told (before v num args desc)) hooks

  abbrev pub told_after : List ℕ → (args : List ℕ) → (ret : ℕ) → List ℕ → List Event
  told_after hooks args ret desc = map (λ v. told (after v num args ret desc)) hooks

  -- The hooks are told, the kernel is called once, and the hooks are told again.
  pub record Answered (hooks : List ℕ) (sys : Sys W) (args : List ℕ) (w : W) (o : Outcome W)
      : Type 0 where
    pub desc : List ℕ
    pub ret : ℕ
    pub ret_desc : List ℕ
    pub traced : desc ≡ sys.trace args w
    pub gives : ret ≡ (sys.call args (happen sys (told_before hooks args desc) w)).0
    pub traced_ret :
        ret_desc
        ≡ sys.trace_ret args ret (happen sys (told_before hooks args desc ++ (called args ∷ [])) w)
    pub outcome :
        o
        ≡ returned ret (
            happen sys
              (told_before hooks args desc ++ (called args ∷ told_after hooks args ret ret_desc))
              w)

  -- The ways in which a system call can end.
  pub data Answer (stub block : Bool) (kernels : List K) (hooks : List ℕ)
      (get_args : ℕ → Option (List ℕ)) (w : W) (o : Outcome W) : Type 0 where
    nameless :
        name ≡ [] → stub ≡ false → o ≡ panicked → Answer stub block kernels hooks get_args w o
    blocked : block ≡ true → o ≡ returned 0 w → Answer stub block kernels hooks get_args w o
    unreadable :
        (sys : Sys W)
        → IsFirst kernels sys
        → get_args sys.arity ≡ none
        → o ≡ failed w
        → Answer stub block kernels hooks get_args w o
    answered :
        (sys : Sys W)
        → IsFirst kernels sys
        → (args : List ℕ) → get_args sys.arity ≡ some args
        → Answered hooks sys args w o
        → Answer stub block kernels hooks get_args w o
    stubbed :
        All (λ j. lookup j name ≡ none) kernels
        → stub ≡ true
        → o ≡ returned 0 w
        → Answer stub block kernels hooks get_args w o
    missed :
        All (λ j. lookup j name ≡ none) kernels
        → stub ≡ false
        → o ≡ panicked
        → Answer stub block kernels hooks get_args w o
