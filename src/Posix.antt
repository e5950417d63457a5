-- ===== src/Posix.antt =====
-- go/kernel/posix/kernel.go: the stack that a program starts with. A text is the list of its bytes. The
-- stack operations are those of go/task.go.
pub mod Push
pub mod Words
pub mod Layout
pub mod Init
pub mod Start
use usercorn.Base.{
  ℕ, zero, suc, ◌+◌, ◌-◌, ◌*◌, ◌/◌, ◌%◌, ◌^◌, Bool, true, false, List, [], ◌∷◌, ◌++◌, Option, none,
  some, length, take, drop, replicate, ltb, if◌then◌else◌, sub64,
}
use usercorn.Cpu.PackUint.{ByteOrder, pack_uint}
use usercorn.Cpu.PackUint as PackUint
use usercorn.Cpu.Regs.{Regs, reg_read, reg_write}
use usercorn.Cpu.Regs as RegFile
use usercorn.Task.Stack.{Machine, push_bytes, push}

module _ (order : ByteOrder) (bsz : ℕ) where
  abbrev pub put_front : List ℕ → Option (List ℕ) → Option (List ℕ)
  put_front x none = none
  put_front x (some tail) = some (x ++ tail)

  abbrev pub pack_rest :
      (List ℕ → Option (List ℕ)) → PackUint.Result (List ℕ × List ℕ) → Option (List ℕ)
  pack_rest rest (PackUint.ok (buf, x)) =
      put_front (take (length x) buf) (rest (drop (length x) buf))
  pack_rest rest (PackUint.err e) = none
  pack_rest rest PackUint.panic = none

  -- The loop of `PackAddrs` over the rest of the buffer.
  unfoldable pub pack_loop : List ℕ → List ℕ → Option (List ℕ)
  pack_loop [] pos = some pos
  pack_loop (v ∷ addrs) pos = pack_rest (pack_loop addrs) (pack_uint order bsz (some pos) v)

  unfoldable pub pack_addrs : List ℕ → Option (List ℕ)
  pack_addrs addrs = pack_loop addrs (replicate (bsz * (length addrs + 1)) 0)

  -- `u.PackAddr(tmp[:], n)` with a buffer of eight bytes
  abbrev packed_word : PackUint.Result (List ℕ × List ℕ) → Option (List ℕ)
  packed_word (PackUint.ok (buf, x)) = some x
  packed_word (PackUint.err e) = none
  packed_word PackUint.panic = none

  unfoldable pub pack_addr : ℕ → Option (List ℕ)
  pack_addr n = packed_word (pack_uint order bsz (some (replicate 8 0)) n)

-- `[]byte(arg + "\x00")`
abbrev pub c_string : List ℕ → List ℕ
c_string arg = arg ++ (0 ∷ [])

-- The stack pointer, so that `size` more bytes leave it at a multiple of 16.
abbrev pub aligned : (v size : ℕ) → ℕ
aligned v size =
    let down = v / 16 * 16 in
    let off = size % 16 in if ltb 0 off then sub64 down (16 - off) else down

module _ (prot_exec sp : ℕ) where
  abbrev pub with_address : ℕ → Machine × Option (List ℕ) → Machine × Option (List ℕ)
  with_address addr (m, none) = (m, none)
  with_address addr (m, some addrs) = (m, some (addr ∷ addrs))

  abbrev pub string_pushed :
      (Machine → Machine × Option (List ℕ)) → Machine × Option ℕ → Machine × Option (List ℕ)
  string_pushed rest (m, none) = (m, none)
  string_pushed rest (m, some addr) = with_address addr (rest m)

  unfoldable pub push_strings : List (List ℕ) → Machine → Machine × Option (List ℕ)
  push_strings [] m = (m, some [])
  push_strings (arg ∷ args) m =
      string_pushed (push_strings args) (push_bytes prot_exec sp m (c_string arg))

  abbrev or_zero : RegFile.Result ℕ → ℕ
  or_zero (RegFile.ok v) = v
  or_zero (RegFile.err e) = 0

  -- Goes on where there was no error.
  abbrev pub then_on : (Machine → Machine × Bool) → Machine × Option ℕ → Machine × Bool
  then_on rest (m, none) = (m, false)
  then_on rest (m, some addr) = rest m

  abbrev finished : Machine × Option ℕ → Machine × Bool
  finished (m, none) = (m, false)
  finished (m, some addr) = (m, true)

  abbrev sp_set : (Machine → Machine × Bool) → Machine → RegFile.Result Regs → Machine × Bool
  sp_set rest m (RegFile.err e) = (m, false)
  sp_set rest m (RegFile.ok r) = rest (record m { regs = r })

  -- From the alignment on, for the words that the stack pointer is to point to.
  unfoldable pub push_init : (auxv init : List ℕ) → Machine → Machine × Bool
  push_init auxv init m =
      let last = λ (m' : Machine). finished (push_bytes prot_exec sp m' init) in
      let with_auxv = λ (m' : Machine).
        (if ltb 0 (length auxv) then then_on last (push_bytes prot_exec sp m' auxv) else last m') in
      sp_set with_auxv m
        (reg_write m.regs sp (aligned (or_zero (reg_read m.regs sp)) (length init)))

  abbrev pub init_words : Option (List ℕ) → (argv envp : Option (List ℕ)) → Option (List ℕ)
  init_words (some argc) (some argv) (some envp) = some (argc ++ (argv ++ envp))
  init_words argc argv envp = none

  abbrev pub push_words : (auxv : List ℕ) → Machine → Option (List ℕ) → Machine × Bool
  push_words auxv m none = (m, false)
  push_words auxv m (some init) = push_init auxv init m

  abbrev push_name : List (List ℕ) → (Machine → Machine × Bool) → Machine → Machine × Bool
  push_name [] rest m = rest m
  push_name (arg ∷ args) rest m = then_on rest (push_bytes prot_exec sp m (c_string arg))

  module _ (bsz : ℕ) where
    abbrev args_pushed : (auxv envp : List ℕ) → Machine × Option (List ℕ) → Machine × Bool
    args_pushed auxv envp (m, none) = (m, false)
    args_pushed auxv envp (m, some argv) = push_words auxv m (
        init_words (pack_addr m.cpu.order bsz (length argv)) (pack_addrs m.cpu.order bsz argv)
          (pack_addrs m.cpu.order bsz envp))

    abbrev env_pushed : List (List ℕ) → (auxv : List ℕ) → Machine × Option (List ℕ) → Machine × Bool
    env_pushed args auxv (m, none) = (m, false)
    env_pushed args auxv (m, some envp) = args_pushed auxv envp (push_strings args m)

    -- `StackInit`, and whether there was no error.
    unfoldable pub stack_init :
        (args env : List (List ℕ)) → (auxv : List ℕ) → Machine → Machine × Bool
    stack_init args env auxv m =
        then_on (push_name args (λ m'. env_pushed args auxv (push_strings env m')))
          (push prot_exec sp bsz m 0)
