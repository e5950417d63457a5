-- ===== src/Cpu/Hooks/Laws.antt =====
-- Adding, running and deleting hooks.
use usercorn.Cpu.Hooks.Kinds.{del_kind}
use usercorn.Cpu.Hooks.Kinds.{del_from}
use usercorn.Cpu.Hooks.Kinds.{new_hook}
use usercorn.Cpu.Hooks.Kinds.{insn_hook}
use usercorn.Cpu.Hooks.Kinds.{add_to}
use usercorn.Base.{
  ℕ, suc, ◌<◌, ◌≡◌, ◌≢◌, ◌∙◌, ap, refl, Bool, true, false, ◌&&◌, List, [], ◌∷◌, ◌++◌, All, arith,
  if◌then◌else◌,
}
use usercorn.Cpu.Hooks.Kinds.{
  Enums, Hook, Hooks, contains, added, has, Kind, kind, hook_add, without, hook_del, run_at,
  run_mem, on_mem, run_fault, mem_hook, access_mask, block_hook, code_hook, intr_hook, insn_hook,
  fault_hook, no_hook, new_hook, add_to, del_from, del_kind, also_called,
}

-- Every hook has been given its identity.
abbrev pub Older : ℕ → List Hook → Type 0
Older n hs = All (λ h. h.id < n) hs

pub record IsValid (hs : Hooks) : Type 0 where
  pub code : Older hs.next hs.code
  pub block : Older hs.next hs.block
  pub intr : Older hs.next hs.intr
  pub mem : Older hs.next hs.mem
  pub mem_fault : Older hs.next hs.mem_fault

Older-suc : (n : ℕ) (hs : List Hook) → Older n hs → Older (suc n) hs
Older-suc n [] o = tt
Older-suc n (h ∷ hs) o = (omega arith, Older-suc n hs o.1)

Older-append :
    (n : ℕ) (hs : List Hook) (h : Hook) → Older n hs → h.id < n → Older n (hs ++ (h ∷ []))
Older-append n [] h o l = (l, tt)
Older-append n (v ∷ hs) h o l = (o.0, Older-append n hs h o.1 l)

pub without-append :
    (n : ℕ) (hs : List Hook) (h : Hook) → Older n hs → h.id ≡ n → without n (hs ++ (h ∷ [])) ≡ hs
unfolding without
without-append n [] h o e = ground arith
without-append n (v ∷ hs) h o e = ground (arith, without-append n hs h o.1)

del_kind_lem : (e : Enums) (htype : ℕ) → kind e htype ≢ insn_hook → del_kind e htype ≡ kind e htype
unfolding kind
del_kind_lem e htype h = ground arith

new_hook_fields :
    (e : Enums) (k : Kind) (hs : Hooks) (htype cb start end : ℕ)
    → ((new_hook e k hs htype cb start end).id ≡ hs.next)
      × ((new_hook e k hs htype cb start end).htype ≡ htype)
new_hook_fields e mem_hook hs htype cb start end = (refl, refl)
new_hook_fields e _ hs htype cb start end = (refl, refl)

add_del :
    (k : Kind) (hs hs' : Hooks) (h h' : Hook)
    → IsValid hs
    → h'.id ≡ hs.next
    → add_to k hs h' ≡ added hs' h
    → (k ≢ insn_hook) × (h ≡ h') × (del_from k hs' h.id ≡ record hs { next = suc hs.next })
add_del block_hook hs hs' h h' v i a =
    (λ e. cc, cc, ground (arith, without-append hs.next hs.block h' v.block i))
add_del code_hook hs hs' h h' v i a =
    (λ e. cc, cc, ground (arith, without-append hs.next hs.code h' v.code i))
add_del intr_hook hs hs' h h' v i a =
    (λ e. cc, cc, ground (arith, without-append hs.next hs.intr h' v.intr i))
add_del insn_hook hs hs' h h' v i a = absurd (cc)
add_del fault_hook hs hs' h h' v i a =
    (λ e. cc, cc, ground (arith, without-append hs.next hs.mem_fault h' v.mem_fault i))
add_del mem_hook hs hs' h h' v i a =
    (λ e. cc, cc, ground (arith, without-append hs.next hs.mem h' v.mem i))
add_del no_hook hs hs' h h' v i a = absurd (cc)

pub hook_add-id :
    (e : Enums) (hs hs' : Hooks) (htype cb start end : ℕ) (h : Hook)
    → IsValid hs
    → hook_add e hs htype cb start end ≡ added hs' h
    → h.id ≡ hs.next
unfolding hook_add
hook_add-id e hs hs' htype cb start end h v a =
    let new = new_hook e (kind e htype) hs htype cb start end in
    let fields = new_hook_fields e (kind e htype) hs htype cb start end in
    let r = add_del (kind e htype) hs hs' h new v fields.0 a in
    ap (λ (x : Hook). x.id) r.1 ∙ fields.0

-- Deleting the hook that `HookAdd` returned gives the hooks as they were before, but for the count
-- of identities: it takes away that hook and no other, from the list that it was added to.
pub hook_del-hook_add :
    (e : Enums) (hs hs' : Hooks) (htype cb start end : ℕ) (h : Hook)
    → IsValid hs
    → hook_add e hs htype cb start end ≡ added hs' h
    → hook_del e hs' h ≡ record hs { next = suc hs.next }
unfolding hook_add hook_del
hook_del-hook_add e hs hs' htype cb start end h v a =
    let fields = new_hook_fields e (kind e htype) hs htype cb start end in
    let r =
      add_del (kind e htype) hs hs' h (new_hook e (kind e htype) hs htype cb start end) v fields.0
        a in
    let type : h.htype ≡ htype = ap (λ (x : Hook). x.htype) r.1 ∙ fields.1 in
    rw (type, del_kind_lem e htype r.0) r.2

run_mem-append :
    (hs : List Hook) (h : Hook) (access addr : ℕ)
    → run_mem (hs ++ (h ∷ [])) access addr
      ≡ run_mem hs access addr ++ (if has access h.mask && contains h addr then h.cb ∷ [] else [])
unfolding run_mem
run_mem-append [] h access addr = refl
run_mem-append (v ∷ hs) h access addr = ground (arith, run_mem-append hs h access addr)

-- After a memory hook is added, an access calls the callbacks that it called before, in the same
-- order, and then the new one, if the hook is for such an access and its range has the address.
pub on_mem-hook_add :
    (e : Enums) (hs hs' : Hooks) (htype cb start end access addr : ℕ) (h : Hook)
    → kind e htype ≡ mem_hook
    → hook_add e hs htype cb start end ≡ added hs' h
    → on_mem hs' access addr
      ≡ on_mem hs access addr
        ++ (if has access (access_mask e htype) && contains h addr then cb ∷ [] else [])
unfolding hook_add on_mem
on_mem-hook_add e hs hs' htype cb start end access addr h k a =
    let new = new_hook e mem_hook hs htype cb start end in
    let a' : add_to mem_hook hs new ≡ added hs' h = rw k at a in
    ground (arith, a', run_mem-append hs.mem new access addr)

-- Callbacks in turn, up to the first that handles the fault.
abbrev pub until_handled : (ℕ → Bool) → List ℕ → List ℕ × Bool
until_handled handles [] = ([], false)
until_handled handles (cb ∷ cbs) =
    if handles cb then (cb ∷ [], true) else also_called cb (until_handled handles cbs)

-- `OnFault` calls the callbacks of the fault hooks whose range has the address, in the order in which
-- they were added, up to the first that handles the fault, and says whether one did.
pub run_fault_lem :
    (handles : ℕ → Bool) (hs : List Hook) (addr : ℕ)
    → run_fault handles hs addr ≡ until_handled handles (run_at hs addr)
unfolding run_fault run_at
run_fault_lem handles [] addr = refl
run_fault_lem handles (v ∷ hs) addr = ground (arith, run_fault_lem handles hs addr)
