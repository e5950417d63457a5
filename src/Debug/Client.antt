-- ===== src/Debug/Client.antt =====
-- go/debug/gdbstub.go: `gdbClient`. The emulator behind it has the memory, registers and hooks of
-- go/models/cpu; the lists that Usercorn keeps beside them are left out.
pub mod Breaks
use usercorn.Base.{
  ℕ, ◌+◌, ◌-◌, ◌^◌, Bool, true, false, ◌&&◌, ◌||◌, List, [], ◌∷◌, ◌++◌, Option, none, some, length,
  take, drop, replicate, get_elem?, ltb, leb, ◌==◌, if◌then◌else◌, add64,
}
use usercorn.Cpu.PackUint.{pack_uint}
use usercorn.Cpu.PackUint as PackUint
use usercorn.Cpu.Regs.{Regs, reg_read}
use usercorn.Cpu.Regs as RegFile
use usercorn.Cpu.Hooks.Kinds.{
  Enums, Hook, Hooks, Added, added, unknown_type, panic, hook_add, hook_del,
}
use usercorn.Cpu.Mem.{Mem, Result, done, failed, mem_read, mem_write}
use usercorn.Cpu.Mem as Memory
use usercorn.Debug.Text.{
  codes, same_text, cut, split_text, has_prefix, hex_encode, hex_decode, parse_uint,
}
use usercorn.Debug.Packet.{Link, frame, parse_range}

-- What does not change: the constants of the architecture, `regList` and the description `GdbXml`.
pub record Target : Type 0 where
  pub enums : Enums
  pub prot_exec : ℕ
  pub bsz : ℕ
  pub pc : ℕ
  pub reg_list : List ℕ
  pub xml : List ℕ

pub record Client : Type 0 where
  pub link : Link
  pub breakpoints : List (ℕ × Hook)
  pub hooks : Hooks
  pub mem : Mem
  pub regs : Regs
  -- what was written to the connection
  pub sent : List (List ℕ)

-- What a command does: the loop goes on or ends, or Go panics.
pub data Handled : Type 0 where
  again : Client → Handled
  detached : Client → Handled
  panicked : Handled

unfoldable pub send : Client → List ℕ → Client
send c s = record c { sent = c.sent ++ (frame s ∷ []) }

abbrev packed_text : PackUint.Result (List ℕ × List ℕ) → List ℕ
packed_text (PackUint.ok (buf, bs)) = hex_encode bs
packed_text (PackUint.err e) = []
packed_text PackUint.panic = []

unfoldable pub fmtaddr : Target → Client → ℕ → List ℕ
fmtaddr t c addr = packed_text (pack_uint c.mem.order t.bsz (some (replicate 8 0)) addr)

-- A register, 0 where it cannot be read.
abbrev or_zero : RegFile.Result ℕ → ℕ
or_zero (RegFile.ok v) = v
or_zero (RegFile.err e) = 0

unfoldable pub wait : Target → Client → Client
wait t c =
    let pc = or_zero (reg_read c.regs t.pc) in
    send c (codes "T00pc:" ++ (fmtaddr t c pc ++ codes ";thread:1;"))

unfoldable pub lookup : List (ℕ × Hook) → ℕ → Option Hook
lookup [] addr = none
lookup ((a, h) ∷ bs) addr = let rest = lookup bs addr in if a == addr then some h else rest

abbrev or_empty : Option (List ℕ) → List ℕ
or_empty none = []
or_empty (some s) = s

-- `tdesc[a : a+b]` with `b` cut to what there is; `a+b` wraps around.
unfoldable pub read_features : Target → Client → ℕ × ℕ → Handled
read_features t c (a, b) =
    let n = length t.xml in
    let b' = if ltb n (add64 a b) then n - a else b in
    if ltb a n
    then (if ltb (add64 a b') a then panicked else again (send c (b'm' ∷ take b' (drop a t.xml))))
    else again (send c (codes "l"))

abbrev xfer : Target → Client → List ℕ → Handled
xfer t c args =
    if has_prefix (codes "features:read:target.xml:") args
    then read_features t c (parse_range args)
    else again c

unfoldable pub query : Target → Client → (cmd args : List ℕ) → Handled
query t c cmd args =
    if same_text cmd (codes "Supported")
    then again (send c (codes "PacketSize=4000;qXfer:features:read+"))
    else if same_text cmd (codes "Attached")
    then again (send c (codes "1"))
    else if same_text cmd (codes "Symbol")
    then again (send c (codes "OK"))
    else if same_text cmd (codes "C")
    then again (send c (codes "OK"))
    else if same_text cmd (codes "Xfer")
    then xfer t c args
    else if same_text cmd (codes "TStatus")
    then again (send c (codes "T0"))
    else if same_text cmd (codes "Rcmd")
    then again (send c (codes "OK"))
    else again (send c [])

abbrev test_no_ack : Client → Client
test_no_ack c = record c { link = record (c.link) { no_ack_test = true } }

unfoldable pub set_query : Client → List ℕ → Client
set_query c cmd = if same_text cmd (codes "StartNoAckMode") then test_no_ack c else send c []

unfoldable pub resume_query : Client → List ℕ → Client
resume_query c cmd =
    if same_text cmd (codes "MustReplyEmpty") || same_text cmd (codes "Cont?") then send c [] else c

abbrev send_reg : Target → Client → Option ℕ → Handled
send_reg t c none = again (send c [])
send_reg t c (some v) =
    again (
      send c
        (if ltb 0 v then fmtaddr t c (or_zero (reg_read c.regs (v - 1))) else codes "00000000"))

-- `int(i)` is below zero from `2^63` on, so that the test passes and the index is out of range.
unfoldable pub read_reg : Target → Client → List ℕ → Handled
read_reg t c cmd =
    let i = parse_uint cmd in
    if leb (2 ^ 63) i then panicked else send_reg t c (get_elem? t.reg_list i)

abbrev send_mem : Client → Result (List ℕ) → Handled
send_mem c (done p) = again (send c (hex_encode p))
send_mem c (failed e) = again (send c [])
send_mem c Memory.panic = panicked

unfoldable pub read_mem : Target → Client → List ℕ → Handled
read_mem t c rest =
    let range = parse_range rest in send_mem c (mem_read t.prot_exec c.mem range.0 range.1)

abbrev stored : Client → Result Mem → Handled
stored c (done m) = again (record c { mem = m })
stored c (failed e) = again c
stored c Memory.panic = panicked

abbrev write_bytes : Client → ℕ → Option (List ℕ) → Handled
write_bytes c a none = again (send c [])
write_bytes c a (some p) = stored c (mem_write c.mem a p)

unfoldable pub write_mem : Client → List ℕ → Handled
write_mem c rest = write_bytes c (parse_range rest).0 (hex_decode rest)

-- The callbacks of the hooks that the stub adds.
abbrev pub break_callback : ℕ
break_callback = 0

abbrev pub step_callback : ℕ
step_callback = 1

-- `HookAdd` does not fail for the hooks that are added here; what would be an error is a panic here.
abbrev hooked : Client → ℕ → Added → Handled
hooked c addr (added hs h) =
    again (send (record c { hooks = hs; breakpoints = (addr, h) ∷ c.breakpoints }) (codes "OK"))
hooked c addr unknown_type = panicked
hooked c addr panic = panicked

abbrev add_break : Target → Client → ℕ → Option Hook → Handled
add_break t c addr (some h) = again (send c (codes "OK"))
add_break t c addr none =
    hooked c addr (hook_add t.enums c.hooks t.enums.hook_code break_callback addr (add64 addr 1))

-- The arguments of `Z` and `z`, if there are three.
abbrev pub break_addr : List (List ℕ) → Option ℕ
break_addr (k ∷ a ∷ n ∷ []) = some (parse_uint a)
break_addr _ = none

abbrev at_break : Target → Client → Option ℕ → Handled
at_break t c none = again c
at_break t c (some addr) = add_break t c addr (lookup c.breakpoints addr)

unfoldable pub add_breakpoint : Target → Client → List ℕ → Handled
add_breakpoint t c rest = at_break t c (break_addr (split_text b',' rest))

abbrev del_break : Target → Client → Option Hook → Client
del_break t c none = c
del_break t c (some h) = record c { hooks = hook_del t.enums c.hooks h }

abbrev del_at : Target → Client → Option ℕ → Handled
del_at t c none = again c
del_at t c (some addr) = again (send (del_break t c (lookup c.breakpoints addr)) (codes "OK"))

-- The hook is deleted, its entry among the breakpoints stays.
unfoldable pub remove_breakpoint : Target → Client → List ℕ → Handled
remove_breakpoint t c rest = del_at t c (break_addr (split_text b',' rest))

module _ (t : Target) (resume : Client → Client) where
  abbrev step_with : Client → Added → Handled
  step_with c (added hs h) =
      let run = resume (record c { hooks = hs }) in
      again (wait t (record run { hooks = hook_del t.enums run.hooks h }))
  step_with c unknown_type = panicked
  step_with c panic = panicked

  -- `resume` is what the emulator does until it stops.
  abbrev step_once : Client → Handled
  step_once c = step_with c (hook_add t.enums c.hooks t.enums.hook_code step_callback 1 0)

  abbrev command : Client → ℕ → List ℕ → List ℕ × Option (List ℕ) → Handled
  command c b rest (cmd, args) =
      if b == b'q'
      then query t c cmd (or_empty args)
      else if b == b'Q'
      then again (set_query c cmd)
      else if b == b'v'
      then again (resume_query c cmd)
      else if b == b'g'
      then again (send c (codes "00000000"))
      else if b == b'G'
      then again c
      else if b == b'p'
      then read_reg t c cmd
      else if b == b'm'
      then read_mem t c rest
      else if b == b'M'
      then write_mem c rest
      else if b == b'Z'
      then add_breakpoint t c rest
      else if b == b'z'
      then remove_breakpoint t c rest
      else if b == b'c'
      then again (wait t (resume c))
      else if b == b's'
      then step_once c
      else if b == b'?'
      then again (wait t c)
      else if b == b'H'
      then again (send c (codes "OK"))
      else if b == b'D'
      then detached c
      else if b == b'T'
      then again (send c (codes "OK"))
      else again c

  unfoldable pub handle : Client → List ℕ → Handled
  handle c [] = again c
  handle c (b ∷ rest) = command c b rest (cut b':' rest)
