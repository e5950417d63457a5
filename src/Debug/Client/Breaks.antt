-- ===== src/Debug/Client/Breaks.antt =====
-- go/debug/gdbstub.go: breakpoints that are set, removed and set again, and writes to memory.
use usercorn.Cpu.Hooks.Kinds.{new_hook}
use usercorn.Base.{le→leb}
use usercorn.Base.{add64}
use usercorn.Base.{
  ℕ, suc, ◌≡◌, refl, ◌∙◌, ap, List, [], ◌∷◌, ◌++◌, Option, none, some, arith, ◌≤◌, ◌^◌,
}
use usercorn.Cpu.Hooks.Kinds.{
  Enums, Hook, Hooks, added, kind, code_hook, hook_add, hook_del, on_code,
}
use usercorn.Cpu.Hooks.Laws.{IsValid, hook_del-hook_add}
use usercorn.Debug.Text.{codes, split_text, hex_decode, hex_pair, digit_value, parse_uint}
use usercorn.Debug.Packet.{frame}
use usercorn.Debug.Client.{
  Target, Client, again, panicked, send, lookup, break_addr, break_callback, add_breakpoint,
  remove_breakpoint, handle, write_mem, read_reg,
}

code_hook_added :
    (e : Enums) (hs : Hooks) (cb start end : ℕ)
    → kind e e.hook_code ≡ code_hook
    → (hs' : Hooks) × (h : Hook) × (hook_add e hs e.hook_code cb start end ≡ added hs' h)
unfolding hook_add
code_hook_added e hs cb start end k =
    let h = new_hook e code_hook hs e.hook_code cb start end in
    (record hs { next = suc hs.next; code = hs.code ++ (h ∷ []) }, h, rw k refl)

-- The client after a breakpoint that was not set.
abbrev with_break : Client → ℕ → Hooks → Hook → Client
with_break c addr hs h =
    send (record c { hooks = hs; breakpoints = (addr, h) ∷ c.breakpoints }) (codes "OK")

module _ (t : Target) (resume : Client → Client) (rest : List ℕ) (addr : ℕ)
    (a : break_addr (split_text b',' rest) ≡ some addr) where
  first_set :
      (c : Client) (hs : Hooks) (h : Hook)
      → lookup c.breakpoints addr ≡ none
      → hook_add t.enums c.hooks t.enums.hook_code break_callback addr (add64 addr 1) ≡ added hs h
      → handle t resume c (b'Z' ∷ rest) ≡ again (with_break c addr hs h)
  unfolding handle add_breakpoint
  first_set c hs h l e = rw (a, l, e) refl

  removed :
      (c : Client) (h : Hook)
      → lookup c.breakpoints addr ≡ some h
      → handle t resume c (b'z' ∷ rest)
        ≡ again (send (record c { hooks = hook_del t.enums c.hooks h }) (codes "OK"))
  unfolding handle remove_breakpoint
  removed c h l = rw (a, l) refl

  set_again :
      (c : Client) (h : Hook)
      → lookup c.breakpoints addr ≡ some h
      → handle t resume c (b'Z' ∷ rest) ≡ again (send c (codes "OK"))
  unfolding handle add_breakpoint
  set_again c h l = rw (a, l) refl

  found :
      (c : Client) (hs : Hooks) (h : Hook)
      → lookup (with_break c addr hs h).breakpoints addr ≡ some h
  unfolding lookup send
  found c hs h = ground arith

-- A breakpoint that is set, removed and set again at one address is not set, although the client is
-- told that it is: the hooks for instructions are called as before the first of the three commands.
-- It was not set before, and the constants of the hooks differ.
pub breakpoint_lost :
    (t : Target) (resume : Client → Client) (c : Client) (rest : List ℕ) (addr : ℕ)
    → break_addr (split_text b',' rest) ≡ some addr
    → lookup c.breakpoints addr ≡ none
    → IsValid c.hooks
    → kind t.enums t.enums.hook_code ≡ code_hook
    → (c1 : Client) × (c2 : Client) × (c3 : Client) × (handle t resume c (b'Z' ∷ rest) ≡ again c1)
      × (handle t resume c1 (b'z' ∷ rest) ≡ again c2)
      × (handle t resume c2 (b'Z' ∷ rest) ≡ again c3)
      × (c3.sent ≡ c2.sent ++ (frame (codes "OK") ∷ []))
      × ((pc : ℕ) → on_code c3.hooks pc ≡ on_code c.hooks pc)
unfolding send on_code
breakpoint_lost t resume c rest addr a l v k =
    let (hs, h, e) = code_hook_added t.enums c.hooks break_callback addr (add64 addr 1) k in
    let c1 = with_break c addr hs h in
    let c2 = send (record c1 { hooks = hook_del t.enums hs h }) (codes "OK") in
    let gone =
      hook_del-hook_add t.enums c.hooks hs t.enums.hook_code break_callback addr (add64 addr 1) h v
        e in
    (
      c1,
      c2,
      send c2 (codes "OK"),
      first_set t resume rest addr a c hs h l e,
      removed t resume rest addr a c1 h (found t resume rest addr a c hs h),
      set_again t resume rest addr a c2 h (found t resume rest addr a c hs h),
      refl,
      λ pc. ap (λ (x : Hooks). on_code x pc) gone,
    )

hex_pair-none : (x y : Option ℕ) → hex_pair x y none ≡ none
hex_pair-none none y = refl
hex_pair-none (some a) none = refl
hex_pair-none (some a) (some b) = refl

-- Bytes among which a comma stands are no hexadecimal digits.
hex_decode_comma : (s rest : List ℕ) → hex_decode (s ++ (b',' ∷ rest)) ≡ none
unfolding hex_decode
hex_decode_comma [] [] = refl
hex_decode_comma [] (d ∷ rest) = refl
hex_decode_comma (c ∷ []) rest = ground arith
hex_decode_comma (c ∷ d ∷ s) rest =
    ap (hex_pair (digit_value c) (digit_value d)) (hex_decode_comma s rest)
    ∙ hex_pair-none (digit_value c) (digit_value d)

-- The command to write memory never writes: its text is decoded together with the address and the
-- size, which a comma keeps apart, so that every such command is answered as an error.
pub write_mem_refused :
    (t : Target) (resume : Client → Client) (c : Client) (addr rest : List ℕ)
    → handle t resume c (b'M' ∷ (addr ++ (b',' ∷ rest))) ≡ again (send c [])
unfolding handle write_mem
write_mem_refused t resume c addr rest = rw (hex_decode_comma addr rest) refl

-- The command to read a register panics for every number from 2^63 on.
pub read_reg_panics :
    (t : Target) (c : Client) (cmd : List ℕ) → 2 ^ 63 ≤ parse_uint cmd → read_reg t c cmd ≡ panicked
unfolding read_reg
read_reg_panics t c cmd h = rw (le→leb (2 ^ 63) (parse_uint cmd) h) refl
