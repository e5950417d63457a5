-- ===== src/Task/Tests.antt =====
-- The theorems about tasks at concrete inputs.
use usercorn.Base.{inr, some, ◌-◌, ◌^◌, replicate, ◌==◌, if◌then◌else◌}
use usercorn.Cpu.MemSim.{write, ok, range_valid, walk, write_loop}
use usercorn.Cpu.Pages.{bsearch, bsearch_loop}
use usercorn.Cpu.Page.{contains}
use usercorn.Task.Stack.{Machine, Pushed, pop_bytes-push_bytes}
use usercorn.Base.{◌≡◌, refl, [], ◌∷◌, none, arith}
use usercorn.Cpu.PackUint.{little}
use usercorn.Cpu.Mem.{new_mem}
use usercorn.Task.{Task, unmap_loop, new_page}
use usercorn.Task.{reserve_loop, last_page}
use usercorn.Task.Reserve.{Reserved, reserve_loop-Reserved}
use usercorn.Task.Mappings.{Unmapped, unmap_loop_lem}

-- Two mappings; the range of the first example is in the middle of the second.
abbrev task : Task
task = record {
  bits = 32;
  mem = new_page 4096 4096 ∷ new_page 16384 16384 ∷ [];
  cpu = new_mem 32 little;
  events = [];
}

unmap_loop_lem_example : Unmapped task 20480 4096 (unmap_loop 3 task 20480 4096)
unmap_loop_lem_example =
    unmap_loop_lem task 20480 4096 (omega arith, (omega arith, tt)) (omega arith) (omega arith)

-- From the first mapping on, on 64 bits, the first address with room for two pages is 8192.
reserve_loop-Reserved_example :
    Reserved task.mem 4096
      (last_page 64)
      8192
      (reserve_loop (2 ^ 52) task.mem 4096 (last_page 64) 8192)
reserve_loop-Reserved_example =
    reserve_loop-Reserved (2 ^ 52) task.mem 4096 (last_page 64) 8192
      (omega arith, (omega arith, tt)) (omega arith, (omega arith, tt)) (omega arith)
      (inr (1, omega arith, omega arith, λ x w. ground (arith, w))) (omega arith)

abbrev machine : Machine
machine = record {
  regs = record { mask = 2 ^ 32 - 1; vals = λ k. if k == 4 then some 4104 else none };
  cpu = record (new_mem 32 little) {
    pages =
        record { addr = 4100; size = 8; prot = 3; bytes = replicate 8 0; desc = []; file = none }
        ∷ [];
  };
}

pushed :
    write machine.cpu.pages 4101 (1 ∷ 2 ∷ 3 ∷ []) 0
    ≡ ok (
        record {
          addr = 4100;
          size = 8;
          prot = 3;
          bytes = 0 ∷ 1 ∷ 2 ∷ 3 ∷ 0 ∷ 0 ∷ 0 ∷ 0 ∷ [];
          desc = [];
          file = none;
        }
        ∷ [])
unfolding write range_valid bsearch bsearch_loop walk contains write_loop new_mem
pushed = refl

pop_bytes-push_bytes_example :
    (m' : Machine) × Pushed 4 4 machine 4101 (1 ∷ 2 ∷ 3 ∷ []) (0 ∷ 0 ∷ 0 ∷ []) m'
unfolding new_mem
pop_bytes-push_bytes_example =
    pop_bytes-push_bytes 4 4 machine 0 5000 4104 (1 ∷ 2 ∷ 3 ∷ []) (0 ∷ 0 ∷ 0 ∷ [])
      (record {
        addr = 4100;
        size = 8;
        prot = 3;
        bytes = 0 ∷ 1 ∷ 2 ∷ 3 ∷ 0 ∷ 0 ∷ 0 ∷ 0 ∷ [];
        desc = [];
        file = none;
      }
        ∷ [])
      (omega arith, record { fits = omega arith; filled = refl }, omega arith) (omega arith, tt)
      refl refl refl (omega arith) (omega arith) (omega arith) refl pushed
