-- ===== src/Models/Gate/Progress.antt =====
-- go/models/gate.go: no turn waits for ever.
use usercorn.Base.{suc}
use usercorn.Base.{ℕ, ◌≤◌, ◌<◌, ◌≡◌, ◌≢◌, refl, ◌∙◌, ap, sym, subst, Option, none, some, arith}
use usercorn.Models.Gate.{owning, Gate, Who, emulator_turn, client_turn, turn, Reachable}
use usercorn.Models.Gate.Phases.{
  Phase, before_owning, before_add, before_unlock, before_run, after_owning, after_add,
  after_unlock, after_run, locked, runs, sends_start, sent_start, sends_stop, sent_stop, unlocks,
  unlocked, relocked, state_of, after, turn-Phase, reachable,
}

-- The turns until the client has the lock.
abbrev phase_left : Phase → ℕ
phase_left before_owning = 0
phase_left before_add = 12
phase_left before_unlock = 11
phase_left before_run = 10
phase_left after_owning = 0
phase_left after_add = 13
phase_left after_unlock = 12
phase_left after_run = 11
phase_left locked = 9
phase_left runs = 8
phase_left sends_start = 7
phase_left sent_start = 6
phase_left sends_stop = 5
phase_left sent_stop = 4
phase_left unlocks = 3
phase_left unlocked = 2
phase_left relocked = 1

-- Turns, in any order, of which none starts where the client is outside of a call.
pub data Waiting : ℕ → Gate → Gate → Type 0 where
  here : {g : Gate} → Waiting 0 g g
  wait :
      {n : ℕ} {g h k : Gate} (who : Who)
      → g.client_at ≢ owning
      → turn who g ≡ some h
      → Waiting n h k
      → Waiting (suc n) g k

owns : (p : Phase) → (state_of p).client_at ≢ owning → phase_left p ≢ 0
owns before_owning h = absurd (h refl)
owns before_add h = λ e. absurd (omega (arith, e))
owns before_unlock h = λ e. absurd (omega (arith, e))
owns before_run h = λ e. absurd (omega (arith, e))
owns after_owning h = absurd (h refl)
owns after_add h = λ e. absurd (omega (arith, e))
owns after_unlock h = λ e. absurd (omega (arith, e))
owns after_run h = λ e. absurd (omega (arith, e))
owns locked h = λ e. absurd (omega (arith, e))
owns runs h = λ e. absurd (omega (arith, e))
owns sends_start h = λ e. absurd (omega (arith, e))
owns sent_start h = λ e. absurd (omega (arith, e))
owns sends_stop h = λ e. absurd (omega (arith, e))
owns sent_stop h = λ e. absurd (omega (arith, e))
owns unlocks h = λ e. absurd (omega (arith, e))
owns unlocked h = λ e. absurd (omega (arith, e))
owns relocked h = λ e. absurd (omega (arith, e))

abbrev Less : Option Phase → ℕ → Type 0
Less none n = Unit {0}
Less (some q) n = phase_left q < n

after-Less : (who : Who) (p : Phase) → phase_left p ≢ 0 → Less (after who p) (phase_left p)
after-Less emulator_turn before_owning h = absurd (h refl)
after-Less client_turn before_owning h = absurd (h refl)
after-Less emulator_turn before_add h = tt
after-Less client_turn before_add h = omega arith
after-Less emulator_turn before_unlock h = tt
after-Less client_turn before_unlock h = omega arith
after-Less emulator_turn before_run h = omega arith
after-Less client_turn before_run h = tt
after-Less emulator_turn after_owning h = absurd (h refl)
after-Less client_turn after_owning h = absurd (h refl)
after-Less emulator_turn after_add h = omega arith
after-Less client_turn after_add h = omega arith
after-Less emulator_turn after_unlock h = omega arith
after-Less client_turn after_unlock h = omega arith
after-Less emulator_turn after_run h = omega arith
after-Less client_turn after_run h = tt
after-Less emulator_turn locked h = omega arith
after-Less client_turn locked h = tt
after-Less emulator_turn runs h = omega arith
after-Less client_turn runs h = tt
after-Less emulator_turn sends_start h = omega arith
after-Less client_turn sends_start h = tt
after-Less emulator_turn sent_start h = tt
after-Less client_turn sent_start h = omega arith
after-Less emulator_turn sends_stop h = omega arith
after-Less client_turn sends_stop h = tt
after-Less emulator_turn sent_stop h = omega arith
after-Less client_turn sent_stop h = tt
after-Less emulator_turn unlocks h = omega arith
after-Less client_turn unlocks h = tt
after-Less emulator_turn unlocked h = tt
after-Less client_turn unlocked h = omega arith
after-Less emulator_turn relocked h = tt
after-Less client_turn relocked h = omega arith

after-left :
    (who : Who) (p q : Phase)
    → phase_left p ≢ 0
    → after who p ≡ some q
    → phase_left q < phase_left p
after-left who p q n e = subst (λ o. Less o (phase_left p)) e (after-Less who p n)

phase_left-bound : (p : Phase) → phase_left p ≤ 13
phase_left-bound before_owning = omega arith
phase_left-bound before_add = omega arith
phase_left-bound before_unlock = omega arith
phase_left-bound before_run = omega arith
phase_left-bound after_owning = omega arith
phase_left-bound after_add = omega arith
phase_left-bound after_unlock = omega arith
phase_left-bound after_run = omega arith
phase_left-bound locked = omega arith
phase_left-bound runs = omega arith
phase_left-bound sends_start = omega arith
phase_left-bound sent_start = omega arith
phase_left-bound sends_stop = omega arith
phase_left-bound sent_stop = omega arith
phase_left-bound unlocks = omega arith
phase_left-bound unlocked = omega arith
phase_left-bound relocked = omega arith

Waiting-left : (n : ℕ) (p : Phase) (g k : Gate) → g ≡ state_of p → Waiting n g k → n ≤ phase_left p
Waiting-left c p g k e here = omega arith
Waiting-left c p g k e (wait {n} {h} who o t w) =
    let (q, a, e') = turn-Phase who p g h e t in
    let rest = Waiting-left n q h k e' w in
    let less = after-left who p q (owns p (λ z. o (ap (λ r. r.client_at) e ∙ z))) a in
    omega (arith, rest, less)

-- A turn that does not block.
pub Enabled : Gate → Type 0
Enabled g = (who : Who) × (g' : Gate) × (turn who g ≡ some g')

state_of-Enabled : (p : Phase) → Enabled (state_of p)
unfolding Enabled turn
state_of-Enabled before_owning = (client_turn, state_of before_add, refl)
state_of-Enabled before_add = (client_turn, state_of before_unlock, refl)
state_of-Enabled before_unlock = (client_turn, state_of before_run, refl)
state_of-Enabled before_run = (emulator_turn, state_of locked, refl)
state_of-Enabled after_owning = (client_turn, state_of after_add, refl)
state_of-Enabled after_add = (client_turn, state_of after_unlock, refl)
state_of-Enabled after_unlock = (client_turn, state_of after_run, refl)
state_of-Enabled after_run = (emulator_turn, state_of before_run, refl)
state_of-Enabled locked = (emulator_turn, state_of runs, refl)
state_of-Enabled runs = (emulator_turn, state_of sends_start, refl)
state_of-Enabled sends_start = (emulator_turn, state_of sent_start, refl)
state_of-Enabled sent_start = (client_turn, state_of sends_stop, refl)
state_of-Enabled sends_stop = (emulator_turn, state_of sent_stop, refl)
state_of-Enabled sent_stop = (emulator_turn, state_of unlocks, refl)
state_of-Enabled unlocks = (emulator_turn, state_of unlocked, refl)
state_of-Enabled unlocked = (client_turn, state_of relocked, refl)
state_of-Enabled relocked = (client_turn, state_of after_owning, refl)

-- The gate always gets the lock back to a client that called `UnlockStopRelock`: in every state that
-- can be reached some turn does not block, and from there, in whatever order the turns come, there
-- are at most 13 before the client is outside of the call. The emulator stops by itself.
pub reachable_returns :
    (g : Gate) → Reachable g → Enabled g × ((n : ℕ) (k : Gate) → Waiting n g k → n ≤ 13)
reachable_returns g r =
    let (p, e) = reachable g r in
    (
      subst Enabled (sym e) (state_of-Enabled p),
      λ n k w. let l = Waiting-left n p g k e w in omega (arith, l, phase_left-bound p),
    )
