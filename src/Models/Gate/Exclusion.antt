-- ===== src/Models/Gate/Exclusion.antt =====
-- go/models/gate.go: who has the lock.
use usercorn.Base.{◌≡◌, refl, sym, subst, ◌⊎◌, inl, inr}
use usercorn.Models.Gate.{
  start_lock, running, stop_wait, owning, receive_start, emulator, client, Gate, Reachable,
}
use usercorn.Models.Gate.Phases.{
  Phase, before_owning, before_add, before_unlock, before_run, after_owning, after_add,
  after_unlock, after_run, locked, runs, sends_start, sent_start, sends_stop, sent_stop, unlocks,
  unlocked, relocked, state_of, reachable,
}

-- While the emulator runs it has the lock and the client waits to be told of the stop; while the
-- client is outside of a call it has the lock, and the emulator waits for it to start or to go on
-- from a stop.
pub Exclusive : Gate → Type 0
Exclusive g =
    (g.at ≡ running → (g.holder ≡ emulator) × (g.client_at ≡ receive_start))
    × (g.client_at ≡ owning → (g.holder ≡ client) × ((g.at ≡ start_lock) ⊎ (g.at ≡ stop_wait)))

state_of-Exclusive : (p : Phase) → Exclusive (state_of p)
unfolding Exclusive
state_of-Exclusive before_owning = (λ e. absurd (cc), λ e. (refl, inl refl))
state_of-Exclusive before_add = (λ e. absurd (cc), λ e. absurd (cc))
state_of-Exclusive before_unlock = (λ e. absurd (cc), λ e. absurd (cc))
state_of-Exclusive before_run = (λ e. absurd (cc), λ e. absurd (cc))
state_of-Exclusive after_owning = (λ e. absurd (cc), λ e. (refl, inr refl))
state_of-Exclusive after_add = (λ e. absurd (cc), λ e. absurd (cc))
state_of-Exclusive after_unlock = (λ e. absurd (cc), λ e. absurd (cc))
state_of-Exclusive after_run = (λ e. absurd (cc), λ e. absurd (cc))
state_of-Exclusive locked = (λ e. absurd (cc), λ e. absurd (cc))
state_of-Exclusive runs = (λ e. (refl, refl), λ e. absurd (cc))
state_of-Exclusive sends_start = (λ e. absurd (cc), λ e. absurd (cc))
state_of-Exclusive sent_start = (λ e. absurd (cc), λ e. absurd (cc))
state_of-Exclusive sends_stop = (λ e. absurd (cc), λ e. absurd (cc))
state_of-Exclusive sent_stop = (λ e. absurd (cc), λ e. absurd (cc))
state_of-Exclusive unlocks = (λ e. absurd (cc), λ e. absurd (cc))
state_of-Exclusive unlocked = (λ e. absurd (cc), λ e. absurd (cc))
state_of-Exclusive relocked = (λ e. absurd (cc), λ e. absurd (cc))

-- In every state that can be reached: while the emulator runs it has the lock and the client waits to
-- be told of the stop; and while the client is outside of a call it has the lock, and the emulator
-- waits to start or to go on from a stop.
pub reachable-Exclusive : (g : Gate) → Reachable g → Exclusive g
reachable-Exclusive g r =
    let (p, e) = reachable g r in subst Exclusive (sym e) (state_of-Exclusive p)
