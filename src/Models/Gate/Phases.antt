-- ===== src/Models/Gate/Phases.antt =====
-- go/models/gate.go: the states that can be reached, as a list.
use usercorn.Base.{◌≡◌, refl, ◌∙◌, ap, sym, List, [], ◌∷◌, Option, none, some}
use usercorn.Models.Gate.{
  Chan, start, stop, start_lock, start_wait, running, notify, stop_unlock, stop_wait, owning,
  add_stop, unlock, receive_start, group_add, receive_stop, lock, group_done, nobody, emulator,
  client, Gate, Who, emulator_turn, client_turn, turn, Reachable, first, next,
}

pub data Phase : Type 0 where
  before_owning before_add before_unlock before_run after_owning after_add after_unlock after_run
        locked runs sends_start sent_start sends_stop sent_stop unlocks unlocked relocked :
      Phase

abbrev pub both : List Chan
both = start ∷ stop ∷ []

abbrev pub state_of : Phase → Gate
state_of before_owning = record {
  at = start_lock;
  client_at = owning;
  holder = client;
  wg = 0;
  waiting = [];
}
state_of before_add = record {
  at = start_lock;
  client_at = add_stop;
  holder = client;
  wg = 0;
  waiting = start ∷ [];
}
state_of before_unlock = record {
  at = start_lock;
  client_at = unlock;
  holder = client;
  wg = 0;
  waiting = both;
}
state_of before_run = record {
  at = start_lock;
  client_at = receive_start;
  holder = nobody;
  wg = 0;
  waiting = both;
}
state_of after_owning = record {
  at = stop_wait;
  client_at = owning;
  holder = client;
  wg = 0;
  waiting = [];
}
state_of after_add = record {
  at = stop_wait;
  client_at = add_stop;
  holder = client;
  wg = 0;
  waiting = start ∷ [];
}
state_of after_unlock = record {
  at = stop_wait;
  client_at = unlock;
  holder = client;
  wg = 0;
  waiting = both;
}
state_of after_run = record {
  at = stop_wait;
  client_at = receive_start;
  holder = nobody;
  wg = 0;
  waiting = both;
}
state_of locked = record {
  at = start_wait;
  client_at = receive_start;
  holder = emulator;
  wg = 0;
  waiting = both;
}
state_of runs = record {
  at = running;
  client_at = receive_start;
  holder = emulator;
  wg = 0;
  waiting = both;
}
state_of sends_start = record {
  at = notify both;
  client_at = receive_start;
  holder = emulator;
  wg = 0;
  waiting = both;
}
state_of sent_start = record {
  at = notify (stop ∷ []);
  client_at = group_add;
  holder = emulator;
  wg = 0;
  waiting = both;
}
state_of sends_stop = record {
  at = notify (stop ∷ []);
  client_at = receive_stop;
  holder = emulator;
  wg = 1;
  waiting = both;
}
state_of sent_stop = record {
  at = notify [];
  client_at = lock;
  holder = emulator;
  wg = 1;
  waiting = both;
}
state_of unlocks = record {
  at = stop_unlock;
  client_at = lock;
  holder = emulator;
  wg = 1;
  waiting = [];
}
state_of unlocked = record {
  at = stop_wait;
  client_at = lock;
  holder = nobody;
  wg = 1;
  waiting = [];
}
state_of relocked = record {
  at = stop_wait;
  client_at = group_done;
  holder = client;
  wg = 1;
  waiting = [];
}

abbrev pub map_phase : Option Phase → Option Gate
map_phase none = none
map_phase (some p) = some (state_of p)

abbrev pub after : Who → Phase → Option Phase
after emulator_turn before_run = some locked
after emulator_turn after_owning = some before_owning
after emulator_turn after_add = some before_add
after emulator_turn after_unlock = some before_unlock
after emulator_turn after_run = some before_run
after emulator_turn locked = some runs
after emulator_turn runs = some sends_start
after emulator_turn sends_start = some sent_start
after emulator_turn sends_stop = some sent_stop
after emulator_turn sent_stop = some unlocks
after emulator_turn unlocks = some unlocked
after client_turn before_owning = some before_add
after client_turn before_add = some before_unlock
after client_turn before_unlock = some before_run
after client_turn after_owning = some after_add
after client_turn after_add = some after_unlock
after client_turn after_unlock = some after_run
after client_turn sent_start = some sends_stop
after client_turn unlocked = some relocked
after client_turn relocked = some after_owning
after emulator_turn before_owning = none
after emulator_turn before_add = none
after emulator_turn before_unlock = none
after client_turn before_run = none
after client_turn after_run = none
after client_turn locked = none
after client_turn runs = none
after client_turn sends_start = none
after emulator_turn sent_start = none
after client_turn sends_stop = none
after client_turn sent_stop = none
after client_turn unlocks = none
after emulator_turn unlocked = none
after emulator_turn relocked = none

turn-after : (who : Who) (p : Phase) → turn who (state_of p) ≡ map_phase (after who p)
unfolding turn
turn-after emulator_turn before_owning = refl
turn-after client_turn before_owning = refl
turn-after emulator_turn before_add = refl
turn-after client_turn before_add = refl
turn-after emulator_turn before_unlock = refl
turn-after client_turn before_unlock = refl
turn-after emulator_turn before_run = refl
turn-after client_turn before_run = refl
turn-after emulator_turn after_owning = refl
turn-after client_turn after_owning = refl
turn-after emulator_turn after_add = refl
turn-after client_turn after_add = refl
turn-after emulator_turn after_unlock = refl
turn-after client_turn after_unlock = refl
turn-after emulator_turn after_run = refl
turn-after client_turn after_run = refl
turn-after emulator_turn locked = refl
turn-after client_turn locked = refl
turn-after emulator_turn runs = refl
turn-after client_turn runs = refl
turn-after emulator_turn sends_start = refl
turn-after client_turn sends_start = refl
turn-after emulator_turn sent_start = refl
turn-after client_turn sent_start = refl
turn-after emulator_turn sends_stop = refl
turn-after client_turn sends_stop = refl
turn-after emulator_turn sent_stop = refl
turn-after client_turn sent_stop = refl
turn-after emulator_turn unlocks = refl
turn-after client_turn unlocks = refl
turn-after emulator_turn unlocked = refl
turn-after client_turn unlocked = refl
turn-after emulator_turn relocked = refl
turn-after client_turn relocked = refl

some_phase :
    (o : Option Phase) (g : Gate)
    → map_phase o ≡ some g
    → (p : Phase) × (o ≡ some p) × (g ≡ state_of p)
some_phase none g e = absurd (cc)
some_phase (some p) g e = (p, refl, cc)

-- A turn from a listed state.
pub turn-Phase :
    (who : Who) (p : Phase) (g g' : Gate)
    → g ≡ state_of p
    → turn who g ≡ some g'
    → (q : Phase) × (after who p ≡ some q) × (g' ≡ state_of q)
turn-Phase who p g g' e t =
    some_phase (after who p) g' (sym (turn-after who p) ∙ ap (turn who) (sym e) ∙ t)

pub reachable : (g : Gate) → Reachable g → (p : Phase) × (g ≡ state_of p)
reachable g first = (before_owning, refl)
reachable g' (next {g} who t r) =
    let (p, e) = reachable g r in let (q, a, e') = turn-Phase who p g g' e t in (q, e')
