-- ===== src/Debug/Tests.antt =====
-- The theorems about the debugger stub at concrete inputs.
use usercorn.Debug.Client.{lookup}
use usercorn.Debug.Text.{parse_from}
use usercorn.Base.{ℕ, ◌≡◌, refl, true, false, [], ◌∷◌, ◌++◌, arith, bit_xor}
use usercorn.Cpu.PackUint.{little}
use usercorn.Cpu.Regs.{new_regs}
use usercorn.Cpu.Mem.{new_mem}
use usercorn.Cpu.Hooks.Kinds.{Enums, no_hooks, on_code, kind}
use usercorn.Debug.Text.{codes, split_text, parse_uint}
use usercorn.Debug.Packet.{Link, frame, escape, unescape, packet, round}
use usercorn.Debug.Packet.Laws.{round-frame, unescape_drops}
use usercorn.Debug.Client.{Target, Client, again, panicked, handle, read_reg}
use usercorn.Debug.Client.Breaks.{breakpoint_lost, read_reg_panics}

abbrev link : Link
link = record { no_ack = false; no_ack_test = true }

round-frame_example :
    round link (frame (codes "a#b") ++ codes "+$c")
    ≡ packet link true (escape (codes "a#b")) (codes "+$c")
round-frame_example = round-frame link (codes "a#b") (codes "+$c")

unescape_drops_example : unescape (codes "m1{,400") ≡ codes "m1" ++ (bit_xor b',' 0x20 ∷ [])
unescape_drops_example =
    unescape_drops (codes "m1") (codes "400") b','
      (λ e. omega (arith, e), (λ e. omega (arith, e), tt))

-- Unicorn's values.
abbrev enums : Enums
enums = record {
  hook_intr = 1;
  hook_insn = 2;
  hook_code = 4;
  hook_block = 8;
  hook_mem_fetch = 4096;
  hook_mem_read = 1024;
  hook_mem_write = 2048;
  hook_mem_err = 1008;
  mem_fetch = 18;
  mem_read = 16;
  mem_write = 17;
}

abbrev target : Target
target = record { enums = enums; prot_exec = 4; bsz = 4; pc = 10; reg_list = 3 ∷ 0 ∷ []; xml = [] }

abbrev client : Client
client = record {
  link = link;
  breakpoints = [];
  hooks = no_hooks;
  mem = new_mem 32 little;
  regs = new_regs 32 (10 ∷ []);
  sent = [];
}

breakpoint_lost_example :
    (c1 : Client) × (c2 : Client) × (c3 : Client) × (handle target
        (λ c. c)
        client
        (codes "Z0,1000,1")
      ≡ again c1)
    × (handle target (λ c. c) c1 (codes "z0,1000,1") ≡ again c2)
    × (handle target (λ c. c) c2 (codes "Z0,1000,1") ≡ again c3)
    × (c3.sent ≡ c2.sent ++ (frame (codes "OK") ∷ []))
    × ((pc : ℕ) → on_code c3.hooks pc ≡ on_code no_hooks pc)
breakpoint_lost_example =
    breakpoint_lost target (λ c. c) client (codes "0,1000,1") 0x1000
      (unfold split_text parse_uint parse_from in refl) (unfold lookup in refl)
      (record { code = tt; block = tt; intr = tt; mem = tt; mem_fault = tt }) (unfold kind in refl)

read_reg_panics_example : read_reg target client (codes "8000000000000000") ≡ panicked
read_reg_panics_example =
    read_reg_panics target client (codes "8000000000000000")
      (unfold parse_uint parse_from in omega arith)
