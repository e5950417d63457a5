-- ===== src/Corn/Breaks.antt =====
-- go/models/breakpoint.go and the lists of go/usercorn.go: breakpoints at addresses, and the hooks that
-- the emulator keeps. What the text of a breakpoint says is given: it is taken apart by a regular
-- expression. A pointer to a breakpoint is a number.
use usercorn.Base.{arith}
use usercorn.Cpu.Hooks.Laws.{IsValid, Older, hook_del-hook_add, hook_add-id, without-append}
use usercorn.Base.{
  ℕ, suc, ◌≡◌, refl, ap, sym, Bool, true, false, ◌&&◌, List, [], ◌∷◌, ◌++◌, Option, none, some,
  ◌==◌, if◌then◌else◌, add64,
}
use usercorn.Cpu.Hooks.Kinds.{
  Enums, Hook, Hooks, Added, added, unknown_type, panic, hook_add, hook_del, without,
}

-- The hooks of the cpu, and the list that the emulator keeps of its own.
pub record CornHooks : Type 0 where
  pub cpu : Hooks
  pub hooks : List Hook

pub data Hooked : Type 0 where
  hooked : CornHooks → Hook → Hooked
  refused panicked : Hooked

abbrev kept_hook : CornHooks → Added → Hooked
kept_hook u (added hs h) = hooked (record { cpu = hs; hooks = u.hooks ++ (h ∷ []) }) h
kept_hook u unknown_type = refused
kept_hook u panic = panicked

unfoldable pub corn_hook_add : Enums → CornHooks → (htype cb start end : ℕ) → Hooked
corn_hook_add e u htype cb start end = kept_hook u (hook_add e u.cpu htype cb start end)

unfoldable pub corn_hook_del : Enums → CornHooks → Hook → CornHooks
corn_hook_del e u h = record { cpu = hook_del e u.cpu h; hooks = without h.id u.hooks }

pub record Breakpoint : Type 0 where
  pub addr : ℕ
  pub sym : List ℕ
  pub source : List ℕ
  pub cb : ℕ
  -- the addresses that have a hook
  pub hooks : List (ℕ × Hook)

abbrev is_empty : List ℕ → Bool
is_empty [] = true
is_empty (c ∷ s) = false

-- The addresses of a breakpoint; symbols and lines are not looked up.
abbrev addrs_of : Breakpoint → List ℕ
addrs_of b = if is_empty b.sym && is_empty b.source then b.addr ∷ [] else []

abbrev already : List (ℕ × Hook) → ℕ → Bool
already [] addr = false
already ((a, h) ∷ hooks) addr = if a == addr then true else already hooks addr

-- What `Apply` leaves.
pub data Applied : Type 0 where
  applied error : CornHooks → Breakpoint → Applied
  panicked : Applied

module _ (e : Enums) where
  abbrev apply_hooked :
      (CornHooks → Breakpoint → Applied) → CornHooks → Breakpoint → (addr : ℕ) → Hooked → Applied
  apply_hooked rest u b addr (hooked u' h) =
      rest u' (record b { hooks = b.hooks ++ ((addr, h) ∷ []) })
  apply_hooked rest u b addr refused = error u b
  apply_hooked rest u b addr Hooked.panicked = panicked

  -- The loop over the addresses.
  unfoldable pub apply_all : List ℕ → CornHooks → Breakpoint → Applied
  apply_all [] u b = applied u b
  apply_all (addr ∷ addrs) u b =
      if already b.hooks addr
      then apply_all addrs u b
      else apply_hooked (apply_all addrs) u b addr
          (corn_hook_add e u e.hook_code b.cb addr (add64 addr 1))

  abbrev apply_some : List ℕ → CornHooks → Breakpoint → Applied
  apply_some [] u b = error u b
  apply_some (addr ∷ addrs) u b = apply_all (addr ∷ addrs) u b

  unfoldable pub apply : CornHooks → Breakpoint → Applied
  apply u b = apply_some (addrs_of b) u b

  unfoldable pub del_all : List (ℕ × Hook) → CornHooks → CornHooks
  del_all [] u = u
  del_all ((addr, h) ∷ hooks) u = del_all hooks (corn_hook_del e u h)

  unfoldable pub remove : CornHooks → Breakpoint → CornHooks × Breakpoint
  remove u b = (del_all b.hooks u, record b { hooks = [] })

-- The breakpoints of the emulator, the ones for what is mapped later among them.
pub record Breaks : Type 0 where
  pub u : CornHooks
  pub store : ℕ → Option Breakpoint
  pub next : ℕ
  pub breaks : List ℕ
  pub future_breaks : List ℕ

abbrev put : (ℕ → Option Breakpoint) → ℕ → Breakpoint → ℕ → Option Breakpoint
put store id b k = if id == k then some b else store k

abbrev with_applied : Breaks → ℕ → Applied → Option (Breaks × Bool)
with_applied s id (applied u b) = some (record s { u = u; store = put s.store id b }, true)
with_applied s id (error u b) = some (record s { u = u; store = put s.store id b }, false)
with_applied s id panicked = none

-- The new breakpoint has the number `next`; `none` stands for a panic, the Boolean for no error.
unfoldable pub break_add : Enums → Breaks → Breakpoint → (future : Bool) → Option (Breaks × Bool)
break_add e s b future =
    let s' : Breaks = record s {
      next = suc s.next;
      breaks = s.breaks ++ (s.next ∷ []);
      future_breaks = if future then s.future_breaks ++ (s.next ∷ []) else s.future_breaks;
    } in
    with_applied s' s.next (apply e s.u b)

unfoldable pub without_break : List ℕ → ℕ → List ℕ
without_break [] id = []
without_break (v ∷ ids) id = let rest = without_break ids id in if v == id then rest else v ∷ rest

abbrev removed : Enums → Breaks → ℕ → Option Breakpoint → Breaks
removed e s id none = s
removed e s id (some b) = let r = remove e s.u b in record s { u = r.0; store = put s.store id r.1 }

unfoldable pub break_del : Enums → Breaks → ℕ → Breaks
break_del e s id =
    removed e
      (record s {
        breaks = without_break s.breaks id;
        future_breaks = without_break s.future_breaks id;
      })
      id (s.store id)

-- A breakpoint at an address that has no hook yet.
abbrev pub IsFresh : Breakpoint → Type 0
IsFresh b = (b.sym ≡ []) × (b.source ≡ []) × (b.hooks ≡ [])

-- A fresh breakpoint whose hook can be added is applied with that one hook; applying it again changes
-- nothing; and removing it gives back the hooks of the cpu, but for the count of identities, the list of
-- the emulator and the breakpoint as they were.
pub remove-apply :
    (e : Enums) (u : CornHooks) (b : Breakpoint) (hs : Hooks) (h : Hook)
    → IsValid u.cpu
    → Older u.cpu.next u.hooks
    → IsFresh b
    → hook_add e u.cpu e.hook_code b.cb b.addr (add64 b.addr 1) ≡ added hs h
    → (u' : CornHooks) × (b' : Breakpoint) × (apply e u b ≡ applied u' b')
      × (apply e u' b' ≡ applied u' b')
      × (remove e u' b' ≡ (record u { cpu = record (u.cpu) { next = suc u.cpu.next } }, b))
unfolding apply apply_all remove del_all corn_hook_add corn_hook_del
remove-apply e u b hs h v o (s, r, n) a =
    let at : (b.addr == b.addr) ≡ true = ground arith in
    let gone = hook_del-hook_add e u.cpu hs e.hook_code b.cb b.addr (add64 b.addr 1) h v a in
    let id = hook_add-id e u.cpu hs e.hook_code b.cb b.addr (add64 b.addr 1) h v a in
    (
      record { cpu = hs; hooks = u.hooks ++ (h ∷ []) },
      record b { hooks = (b.addr, h) ∷ [] },
      simp (s, r, n, a) refl,
      simp (s, r, at) refl,
      simp (gone, id, without-append u.cpu.next u.hooks h o id)
          (ap
            (λ hooks. (
              record u { cpu = record (u.cpu) { next = suc u.cpu.next } },
              record b { hooks = hooks },
            ))
            (sym n)),
    )
