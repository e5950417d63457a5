-- ===== src/Cpu/Hooks/Kinds.antt =====
-- The state, and what each operation does.
use usercorn.Base.{
  ℕ, suc, Bool, true, false, ◌&&◌, ◌||◌, List, [], ◌∷◌, ◌++◌, bit_and, bit_or, ltb, leb, ◌==◌,
  if◌then◌else◌,
}

-- Unicorn's constants.
pub record Enums : Type 0 where
  pub hook_intr : ℕ
  pub hook_insn : ℕ
  pub hook_code : ℕ
  pub hook_block : ℕ
  pub hook_mem_fetch : ℕ
  pub hook_mem_read : ℕ
  pub hook_mem_write : ℕ
  pub hook_mem_err : ℕ
  pub mem_fetch : ℕ
  pub mem_read : ℕ
  pub mem_write : ℕ

-- `hookInfo` with the callback and the identity of the hook.
pub record Hook : Type 0 where
  pub id : ℕ
  pub htype : ℕ
  pub start : ℕ
  pub end : ℕ
  pub mask : ℕ
  pub cb : ℕ

unfoldable pub contains : Hook → ℕ → Bool
contains h a = ltb h.end h.start || (leb h.start a && leb a h.end)

pub record Hooks : Type 0 where
  -- the identity of the next hook
  pub next : ℕ
  pub code : List Hook
  pub block : List Hook
  pub intr : List Hook
  pub mem : List Hook
  pub mem_fault : List Hook

abbrev pub no_hooks : Hooks
no_hooks = record { next = 0; code = []; block = []; intr = []; mem = []; mem_fault = [] }

pub data Added : Type 0 where
  added : Hooks → Hook → Added
  -- "Unknown hook type."
  unknown_type : Added
  -- instruction hooking is not implemented
  panic : Added

-- `htype & bits > 0`
abbrev pub has : ℕ → ℕ → Bool
has htype bits = ltb 0 (bit_and htype bits)

-- The list that a type of hook belongs to.
pub data Kind : Type 0 where
  block_hook code_hook intr_hook insn_hook fault_hook mem_hook no_hook : Kind

-- The order of the cases of the `switch`.
unfoldable pub kind : Enums → ℕ → Kind
kind e htype =
    if htype == e.hook_block
    then block_hook
    else if htype == e.hook_code
    then code_hook
    else if htype == e.hook_intr
    then intr_hook
    else if htype == e.hook_insn
    then insn_hook
    else if htype == e.hook_mem_err
    then fault_hook
    else if has htype (bit_or (bit_or e.hook_mem_read e.hook_mem_write) e.hook_mem_fetch)
    then mem_hook
    else no_hook

-- The accesses that a memory hook is for.
abbrev pub access_mask : Enums → ℕ → ℕ
access_mask e htype =
    let r = if has htype e.hook_mem_read then e.mem_read else 0 in
    let w = if has htype e.hook_mem_write then bit_or r e.mem_write else r in
    if has htype e.hook_mem_fetch then bit_or w e.mem_fetch else w

abbrev pub new_hook : Enums → Kind → Hooks → ℕ → ℕ → ℕ → ℕ → Hook
new_hook e mem_hook hs htype cb start end = record {
  id = hs.next;
  htype = htype;
  start = start;
  end = end;
  mask = access_mask e htype;
  cb = cb;
}
new_hook e other hs htype cb start end = record {
  id = hs.next;
  htype = htype;
  start = start;
  end = end;
  mask = 0;
  cb = cb;
}

abbrev pub add_to : Kind → Hooks → Hook → Added
add_to block_hook hs h = added (record hs { next = suc hs.next; block = hs.block ++ (h ∷ []) }) h
add_to code_hook hs h = added (record hs { next = suc hs.next; code = hs.code ++ (h ∷ []) }) h
add_to intr_hook hs h = added (record hs { next = suc hs.next; intr = hs.intr ++ (h ∷ []) }) h
add_to insn_hook hs h = panic
add_to fault_hook hs h =
    added (record hs { next = suc hs.next; mem_fault = hs.mem_fault ++ (h ∷ []) }) h
add_to mem_hook hs h = added (record hs { next = suc hs.next; mem = hs.mem ++ (h ∷ []) }) h
add_to no_hook hs h = unknown_type

unfoldable pub hook_add : Enums → Hooks → (htype cb start end : ℕ) → Added
hook_add e hs htype cb start end =
    add_to (kind e htype) hs (new_hook e (kind e htype) hs htype cb start end)

-- `for v := range list { if v != hh { tmp = append(tmp, v) } }`
unfoldable pub without : ℕ → List Hook → List Hook
without id [] = []
without id (v ∷ hs) = if v.id == id then without id hs else v ∷ without id hs

abbrev pub del_from : Kind → Hooks → ℕ → Hooks
del_from block_hook hs id = record hs { block = without id hs.block }
del_from code_hook hs id = record hs { code = without id hs.code }
del_from intr_hook hs id = record hs { intr = without id hs.intr }
del_from fault_hook hs id = record hs { mem_fault = without id hs.mem_fault }
del_from mem_hook hs id = record hs { mem = without id hs.mem }
del_from insn_hook hs id = hs
del_from no_hook hs id = hs

-- In `HookDel` instruction hooks have no case of their own.
abbrev pub del_kind : Enums → ℕ → Kind
del_kind e htype =
    if htype == e.hook_block
    then block_hook
    else if htype == e.hook_code
    then code_hook
    else if htype == e.hook_intr
    then intr_hook
    else if htype == e.hook_mem_err
    then fault_hook
    else if has htype (bit_or (bit_or e.hook_mem_read e.hook_mem_write) e.hook_mem_fetch)
    then mem_hook
    else no_hook

unfoldable pub hook_del : Enums → Hooks → Hook → Hooks
hook_del e hs h = del_from (del_kind e h.htype) hs h.id

-- The callbacks that are called, in order.
unfoldable pub run_at : List Hook → ℕ → List ℕ
run_at [] addr = []
run_at (v ∷ hs) addr = let rest = run_at hs addr in if contains v addr then v.cb ∷ rest else rest

unfoldable pub on_block : Hooks → ℕ → List ℕ
on_block hs addr = run_at hs.block addr

unfoldable pub on_code : Hooks → ℕ → List ℕ
on_code hs addr = run_at hs.code addr

abbrev all_callbacks : List Hook → List ℕ
all_callbacks [] = []
all_callbacks (v ∷ hs) = v.cb ∷ all_callbacks hs

unfoldable pub on_intr : Hooks → List ℕ
on_intr hs = all_callbacks hs.intr

unfoldable pub run_mem : List Hook → ℕ → ℕ → List ℕ
run_mem [] access addr = []
run_mem (v ∷ hs) access addr =
    let rest = run_mem hs access addr in
    if has access v.mask && contains v addr then v.cb ∷ rest else rest

unfoldable pub on_mem : Hooks → ℕ → ℕ → List ℕ
on_mem hs access addr = run_mem hs.mem access addr

-- The callbacks that `OnFault` calls, and whether one of them handled the fault.
abbrev pub also_called : ℕ → List ℕ × Bool → List ℕ × Bool
also_called cb (called, handled) = (cb ∷ called, handled)

-- `handles` says which callbacks return true.
unfoldable pub run_fault : (ℕ → Bool) → List Hook → ℕ → List ℕ × Bool
run_fault handles [] addr = ([], false)
run_fault handles (v ∷ hs) addr =
    let rest = run_fault handles hs addr in
    if contains v addr
    then (if handles v.cb then (v.cb ∷ [], true) else also_called v.cb rest)
    else rest

unfoldable pub on_fault : (ℕ → Bool) → Hooks → ℕ → List ℕ × Bool
on_fault handles hs addr = run_fault handles hs.mem_fault addr
