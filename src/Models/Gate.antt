-- ===== src/Models/Gate.antt =====
-- go/models/gate.go: how the emulator and one client take turns. The emulator calls `Start` and `Stop`
-- in a loop (`Run` in go/usercorn.go), the client calls `UnlockStopRelock` again and again, as the
-- debugger, the scripts and the graphs do. A state says where each of the two goroutines is; a turn of
-- one of them is one operation on the gate. The mutex of a waiter is left out, since it is only taken
-- under the lock of the gate, and so is the list `start`, to which nothing is added here.
pub mod Phases
pub mod Exclusion
pub mod Progress
use usercorn.Base.{ℕ, ◌≡◌, ◌+◌, ◌-◌, List, [], ◌∷◌, ◌++◌, Option, none, some, ◌==◌, if◌then◌else◌}

-- The two channels that a client makes.
pub data Chan : Type 0 where
  start stop : Chan

-- The next operation of the emulator.
pub data Emulator : Type 0 where
  -- `Start`: take the lock, wait for the group
  start_lock start_wait : Emulator
  running : Emulator
  -- `Stop`: send to the channels that are left, give the lock back, wait for the group
  notify : List Chan → Emulator
  stop_unlock stop_wait : Emulator

-- The next operation of the client in `UnlockStopRelock`; `owning` while it is outside and has the
-- lock.
pub data Client : Type 0 where
  owning add_stop unlock : Client
  receive_start group_add receive_stop lock group_done : Client

pub data Holder : Type 0 where
  nobody emulator client : Holder

pub record Gate : Type 0 where
  pub at : Emulator
  pub client_at : Client
  pub holder : Holder
  -- the counter of the group
  pub wg : ℕ
  -- the channels of the waiter `stop`
  pub waiting : List Chan

pub data Who : Type 0 where
  emulator_turn client_turn : Who

-- A send on a channel goes on when the client receives from it.
abbrev received : Gate → List Chan → Chan → Client → Option Gate
received g rest start receive_start = some (record g { at = notify rest; client_at = group_add })
received g rest stop receive_stop = some (record g { at = notify rest; client_at = lock })
received g rest _ _ = none

abbrev take_lock : Gate → Holder → Gate → Option Gate
take_lock g nobody g' = some g'
take_lock g _ g' = none

abbrev emulator_step : Gate → Emulator → Option Gate
emulator_step g start_lock = take_lock g g.holder (record g { at = start_wait; holder = emulator })
emulator_step g start_wait = if g.wg == 0 then some (record g { at = running }) else none
emulator_step g running = some (record g { at = notify g.waiting })
emulator_step g (notify []) = some (record g { at = stop_unlock; waiting = [] })
emulator_step g (notify (c ∷ rest)) = received g rest c g.client_at
emulator_step g stop_unlock = some (record g { at = stop_wait; holder = nobody })
emulator_step g stop_wait = if g.wg == 0 then some (record g { at = start_lock }) else none

abbrev client_step : Gate → Client → Option Gate
client_step g owning = some (record g { client_at = add_stop; waiting = g.waiting ++ (start ∷ []) })
client_step g add_stop = some (record g { client_at = unlock; waiting = g.waiting ++ (stop ∷ []) })
client_step g unlock = some (record g { client_at = receive_start; holder = nobody })
client_step g receive_start = none
client_step g group_add = some (record g { client_at = receive_stop; wg = g.wg + 1 })
client_step g receive_stop = none
client_step g lock = take_lock g g.holder (record g { client_at = group_done; holder = client })
client_step g group_done = some (record g { client_at = owning; wg = g.wg - 1 })

-- What a turn leaves, if its operation does not block.
unfoldable pub turn : Who → Gate → Option Gate
turn emulator_turn g = emulator_step g g.at
turn client_turn g = client_step g g.client_at

-- The client has the lock before the emulator runs.
abbrev pub first_state : Gate
first_state = record { at = start_lock; client_at = owning; holder = client; wg = 0; waiting = [] }

pub data Reachable : Gate → Type 0 where
  first : Reachable first_state
  next : {g g' : Gate} (who : Who) → turn who g ≡ some g' → Reachable g → Reachable g'
