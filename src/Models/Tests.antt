-- ===== src/Models/Tests.antt =====
-- The theorems about the call stack, segments and the loop detector at concrete inputs.
use usercorn.Base.{arith}
use usercorn.Base.{refl, ◌+◌, ◌%◌}
use usercorn.Models.Status.{new_change, mask}
use usercorn.Models.Status.Masks.{MaskOk, mask-MaskOk}
use usercorn.Models.Gate.{
  Gate, turn, running, receive_start, emulator, start, stop, Reachable, first, next as then_turn,
  emulator_turn, client_turn,
}
use usercorn.Models.Gate.Exclusion.{Exclusive, reachable-Exclusive}
use usercorn.Models.Gate.Progress.{Waiting, Enabled, reachable_returns}
use usercorn.Base.{Option}
use usercorn.Base.{ℕ, ◌/◌, ◌≤◌, List, [], ◌∷◌, min}
use usercorn.Models.Callstack.{Stackframe}
use usercorn.Models.Segment.{Segment}
use usercorn.Models.Loop.Ring.{Loop}
use usercorn.Models.Loop.History.{remember}
use usercorn.Models.Loop.Detect.{LoopDetect, detect}
use usercorn.Models.Loop.Shortest.{ShortestRun, detect-ShortestRun}

abbrev at_frame : ℕ → ℕ → Stackframe
at_frame pc sp = record { pc = pc; sp = sp }

abbrev calls : List Stackframe
calls = at_frame 3 80 ∷ at_frame 2 90 ∷ at_frame 1 100 ∷ []

abbrev low : Segment
low = record { start = 10; end = 20; prot = 1 }

abbrev high : Segment
high = record { start = 15; end = 30; prot = 2 }

-- A ring of eight, of which a reset has left the addresses.
abbrev used : Loop
used = record { loop = 9 ∷ 9 ∷ 9 ∷ 9 ∷ 9 ∷ 9 ∷ 9 ∷ 9 ∷ []; index = 0; filled = 0 }

abbrev detector : LoopDetect
detector = record { history = used; current = Option.none; loops = 0; len = 4 }

-- More addresses than the ring holds, with 2 3 twice at their end.
abbrev seen : List ℕ
seen = 7 ∷ 7 ∷ 5 ∷ 6 ∷ 5 ∷ 1 ∷ 2 ∷ 3 ∷ 2 ∷ 3 ∷ []

detect-ShortestRun_example :
    ShortestRun seen
      (min 4 (min 10 8 / 2))
      (detect (record detector { history = remember used seen }))
detect-ShortestRun_example = detect-ShortestRun detector seen (omega arith) refl refl

abbrev while_running : Gate
while_running = record {
  at = running;
  client_at = receive_start;
  holder = emulator;
  wg = 0;
  waiting = start ∷ stop ∷ [];
}

-- The client calls, the emulator starts and runs.
reach_running : Reachable while_running
unfolding turn
reach_running = then_turn emulator_turn refl (
    then_turn emulator_turn refl
      (then_turn client_turn refl (then_turn client_turn refl (then_turn client_turn refl first))))

reachable-Exclusive_example : Exclusive while_running
reachable-Exclusive_example = reachable-Exclusive while_running reach_running

reachable_returns_example :
    Enabled while_running × ((n : ℕ) (k : Gate) → Waiting n while_running k → n ≤ 13)
reachable_returns_example = reachable_returns while_running reach_running

-- Two digits in base 16, as bytes.
abbrev two_digits : ℕ → ℕ → List ℕ
two_digits width val = (48 + val / 16) ∷ (48 + val % 16) ∷ []

mask-MaskOk_example : MaskOk (49 ∷ 51 ∷ []) (49 ∷ 50 ∷ []) (mask two_digits (new_change [] 19 18) 2)
unfolding new_change
mask-MaskOk_example = mask-MaskOk two_digits (new_change [] 19 18) 2 refl
