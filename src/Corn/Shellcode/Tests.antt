-- ===== src/Corn/Shellcode/Tests.antt =====
-- The theorem about shellcode at concrete inputs.
use usercorn.Base.{◌≡◌, refl, true, false, [], ◌∷◌, none, some}
use usercorn.Cpu.PackUint.{little}
use usercorn.Cpu.Mem.{new_mem}
use usercorn.Task.{Task}
use usercorn.Corn.Run.{Runner}
use usercorn.Corn.Shellcode.{Env, Machine, run_shellcode, run_asm}
use usercorn.Corn.Shellcode.Laws.{run_shellcode-regs}

-- A run that sets all registers to 9, and an assembler that gives two bytes.
abbrev env : Env
env = record {
  start = λ m addr until. (record m { regs = λ k. 9 }, true);
  stop = λ m. (m, true);
  asm = λ addr. some (b'a' ∷ b'b' ∷ []);
  pc_reg = 5;
  sp_reg = 4;
  prot_all = 7;
  prot_rx = 5;
  desc = [];
  fuel = 3;
}

abbrev task : Task
task = record { bits = 32; mem = []; cpu = new_mem 32 little; events = [] }

abbrev idle : Runner Machine
idle = record {
  running = false;
  trampolines = [];
  world = record { regs = λ k. k; task = task; stuck = false };
}

run_shellcode-regs_example :
    ((run_shellcode env idle 8192 (b'a' ∷ []) ((1, 77) ∷ []) none).0.world.regs 1 ≡ 1)
    × ((run_asm env idle 8192 ((1, 77) ∷ []) none).0.world.regs 1 ≡ 1)
run_shellcode-regs_example =
    run_shellcode-regs env ((1, 77) ∷ []) none 1 refl idle 8192 (b'a' ∷ []) refl
