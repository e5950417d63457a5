-- ===== src/Corn/Tests.antt =====
-- The theorems about the emulator at concrete inputs.
use usercorn.Cpu.Hooks.Kinds.{Enums, Hook, no_hooks, kind, hook_add, added}
use usercorn.Corn.Breaks.{CornHooks, Breakpoint, apply, applied, remove, remove-apply}
use usercorn.Base.{suc, Option, ◌==◌, if◌then◌else◌}
use usercorn.Corn.Calls.{Sys, Calls}
use usercorn.Base.{true, inr, ◌^◌}
use usercorn.Cpu.MemSim.{map}
use usercorn.Cpu.Mem.{Mem, mem_map, done}
use usercorn.Corn.Heap.{Heap}
use usercorn.Base.{ℕ, ◌≡◌, refl, [], ◌∷◌, none, some, arith, List}
use usercorn.Cpu.PackUint.{little}
use usercorn.Cpu.Mem.{new_mem}
use usercorn.Models.Segment.{SegmentData}
use usercorn.Task.{align, Task, new_page}
use usercorn.Corn.Load.{reserve_bias, bounds, bound_all, bound}
use usercorn.Corn.Bounds.{Moved, reserve_bias_lem}

-- Something is mapped where the binary would like to be.
abbrev wide : Task
wide = record { bits = 64; mem = new_page 4096 4096 ∷ []; cpu = new_mem 64 little; events = [] }

abbrev segments : List SegmentData
segments =
    record { off = 0; addr = 4096; size = 300; prot = 5 }
    ∷ record { off = 300; addr = 12388; size = 100; prot = 3 }
    ∷ []

reserve_bias_lem_example : Moved wide 0 segments (reserve_bias (2 ^ 52) wide 0 segments)
unfolding bounds bound_all bound align
reserve_bias_lem_example =
    reserve_bias_lem (2 ^ 52) wide 0 segments (omega arith, (omega arith, tt)) (omega arith, tt)
      (omega arith, tt) (omega arith) (omega arith)
      (inr (1, omega arith, omega arith, λ x w. ground (arith, w))) (omega arith)

-- Two kernels, of which the second has the system call.
abbrev doubled : Sys ℕ
doubled = record {
  arity = 1;
  trace = λ args w. w ∷ args;
  trace_ret = λ args ret w. ret ∷ w ∷ [];
  call = λ args w. (7, suc w);
}

abbrev second_has : ℕ → List ℕ → Option (Sys ℕ)
second_has k name = if k == 2 then some doubled else none

abbrev calls : Calls ℕ
calls = record { kernels = 1 ∷ 2 ∷ []; sys_hooks = 0 ∷ 1 ∷ []; next = 2 }

-- The heap ends within the last page of its mapping.
abbrev heap : Heap
heap = record {
  task = record { bits = 16; mem = new_page 4096 8192 ∷ []; cpu = new_mem 16 little; events = [] };
  brk = 8200;
}

abbrev taken : Mem
taken = record (new_mem 16 little) { pages = map [] 12288 0 0 true }

takes_empty : mem_map heap.task.cpu 12288 0 0 ≡ done taken
unfolding mem_map new_mem
takes_empty = refl

abbrev enums : Enums
enums = record {
  hook_intr = 1;
  hook_insn = 2;
  hook_code = 4;
  hook_block = 8;
  hook_mem_fetch = 4096;
  hook_mem_read = 1024;
  hook_mem_write = 2048;
  hook_mem_err = 1008;
  mem_fetch = 18;
  mem_read = 16;
  mem_write = 17;
}

abbrev unhooked : CornHooks
unhooked = record { cpu = no_hooks; hooks = [] }

abbrev at_main : Breakpoint
at_main = record { addr = 4096; sym = []; source = []; cb = 3; hooks = [] }

abbrev main_hook : Hook
main_hook = record { id = 0; htype = 4; start = 4096; end = 4097; mask = 0; cb = 3 }

main_added :
    hook_add enums no_hooks 4 3 4096 4097
    ≡ added (record no_hooks { next = 1; code = main_hook ∷ [] }) main_hook
unfolding hook_add kind
main_added = refl

remove-apply_example :
    (u' : CornHooks) × (b' : Breakpoint) × (apply enums unhooked at_main ≡ applied u' b')
    × (apply enums u' b' ≡ applied u' b')
    × (remove enums u' b' ≡ (record unhooked { cpu = record no_hooks { next = 1 } }, at_main))
remove-apply_example =
    remove-apply enums unhooked at_main (record no_hooks { next = 1; code = main_hook ∷ [] })
      main_hook (record { code = tt; block = tt; intr = tt; mem = tt; mem_fault = tt }) tt
      (refl, refl, refl) main_added
