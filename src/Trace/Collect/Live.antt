-- ===== src/Trace/Collect/Live.antt =====
-- go/models/trace/trace.go: what is sent while the program runs is what the frames hold.
use usercorn.Trace.Collect.{mem_prot}
use usercorn.Trace.Collect.{mem_unmap}
use usercorn.Trace.Collect.{mem_write}
use usercorn.Trace.Collect.{mem_read}
use usercorn.Trace.Collect.{sys_post}
use usercorn.Trace.Collect.{flush_with}
use usercorn.Trace.Collect.{flush_sys_with}
use usercorn.Trace.Collect.{flush_step_with}
use usercorn.Trace.Collect.{changed_regs}
use usercorn.Trace.Collect.{before_jmp}
use usercorn.Trace.Collect.{filter_with}
use usercorn.Base.{◌%◌, ◌^◌, inr}
use usercorn.Trace.Collect.{filtered}
use usercorn.Trace.Collect.{call_in}
use usercorn.Base.{inl}
use usercorn.Base.{
  ℕ, ◌≡◌, refl, ◌∙◌, ap, sym, Bool, true, false, List, [], ◌∷◌, ◌++◌, Option, none, some,
  Bool-cases, ◌==◌, append_assoc, append-nil,
}
use usercorn.Trace.Op.{Op, step, jmp, exit}
use usercorn.Trace.Batch.{Item, MemBatch}
use usercorn.Trace.Collect.{
  Trace, Sys, Entry, Event, item, call, send, packed_with, place, place_all, append, append_sys,
  flush_filters, append_all, on_reg_update, flush_sys, flush_step, on_jmp, on_step, on_sys_pre,
  on_sys_post, on_exit, on_event, on_events, detach, at_block, at_code, at_regs, at_read, at_write,
  at_map, at_unmap, at_prot, on_mem_read, on_mem_write, on_mem_map, on_mem_unmap, on_mem_prot,
  map_op, before_sys, after_sys, at_exit, new_frame, in_frame, place_in, is_step,
}

abbrev pub all_entries : List (List Entry) → List Entry
all_entries [] = []
all_entries (frame ∷ frames) = frame ++ all_entries frames

abbrev pub in_frames : List (List Entry) → Option (List Entry) → List Entry
in_frames packed frame = all_entries (packed_with packed frame)

-- Attached, and in step with what was sent.
pub record IsLive (t : Trace) : Type 0 where
  pub attached : t.attached ≡ true
  pub sent : t.sent ≡ in_frames t.packed t.frame

all_entries-append :
    (xs ys : List (List Entry)) → all_entries (xs ++ ys) ≡ all_entries xs ++ all_entries ys
all_entries-append [] ys = refl
all_entries-append (x ∷ xs) ys =
    ap (λ zs. x ++ zs) (all_entries-append xs ys)
    ∙ sym (append_assoc x (all_entries xs) (all_entries ys))

all_entries-last :
    (xs : List (List Entry)) (frame : List Entry)
    → all_entries (xs ++ (frame ∷ [])) ≡ all_entries xs ++ frame
all_entries-last xs frame =
    all_entries-append xs (frame ∷ []) ∙ ap (λ zs. all_entries xs ++ zs) (append-nil frame)

-- One more entry in the open frame.
in_frames-last :
    (xs : List (List Entry)) (frame es : List Entry)
    → in_frames xs (some frame) ++ es ≡ in_frames xs (some (frame ++ es))
in_frames-last xs frame es =
    simp (all_entries-last xs frame, all_entries-last xs (frame ++ es), append_assoc) refl

send-IsLive :
    (t : Trace) (e : Entry)
    → t.attached ≡ true
    → t.sent ++ (e ∷ []) ≡ in_frames t.packed t.frame
    → IsLive (send t e)
unfolding send
send-IsLive t e a p = simp (a) (record { attached = refl; sent = p })

in_frames-packed_with :
    (xs : List (List Entry)) (frame : Option (List Entry)) (e : Entry)
    → in_frames xs frame ++ (e ∷ []) ≡ in_frames (packed_with xs frame) (some (e ∷ []))
in_frames-packed_with xs frame e = sym (all_entries-last (packed_with xs frame) (e ∷ []))

module _ (t : Trace) (h : IsLive t) where
  new_frame-IsLive : (e : Entry) → IsLive (new_frame t e)
  new_frame-IsLive e =
      send-IsLive _ e h.attached
        (ap (λ es. es ++ (e ∷ [])) h.sent ∙ in_frames-packed_with t.packed t.frame e)

  in_frame-IsLive :
      (frame : List Entry) (e : Entry) → t.frame ≡ some frame → IsLive (in_frame t frame e)
  in_frame-IsLive frame e p = send-IsLive _ e h.attached (
      ap (λ es. es ++ (e ∷ [])) (h.sent ∙ ap (in_frames t.packed) p)
      ∙ in_frames-last t.packed frame (e ∷ []))

  place_in-IsLive :
      (frame : Option (List Entry)) (sys : Option Sys) (i : Item) (adv : Bool)
      → t.frame ≡ frame
      → IsLive (place_in t frame sys i adv)
  place_in-IsLive none sys i adv p = new_frame-IsLive (item i)
  place_in-IsLive (some frame) none i true p = new_frame-IsLive (item i)
  place_in-IsLive (some frame) none i false p = in_frame-IsLive frame (item i) p
  place_in-IsLive (some frame) (some s) i adv p = elim (Bool-cases (is_step i)) [
    | inl e ↦ rw e (in_frame-IsLive frame (item i) p)
    | inr e ↦ rw e (record { attached = h.attached; sent = h.sent })
  ]

  place-IsLive : (i : Item) (adv : Bool) → IsLive (place t i adv)
  unfolding place
  place-IsLive i adv = place_in-IsLive t.frame t.syscall i adv refl

  call_in-IsLive :
      (frame : Option (List Entry)) (s : Sys) → t.frame ≡ frame → IsLive (call_in t frame s)
  call_in-IsLive none s p = new_frame-IsLive (call s)
  call_in-IsLive (some frame) s p = in_frame-IsLive frame (call s) p

  append_sys-IsLive : (s : Sys) → IsLive (append_sys t s)
  unfolding append_sys
  append_sys-IsLive s = call_in-IsLive t.frame s refl

place_all-IsLive :
    (items : List Item) (t : Trace) (adv : Bool) → IsLive t → IsLive (place_all t items adv)
unfolding place_all
place_all-IsLive [] t adv h = h
place_all-IsLive (i ∷ items) t adv h =
    place_all-IsLive items (place t i adv) false (place-IsLive t h i adv)

-- The fields that the frames and the callbacks do not depend on.
abbrev Kept : (t s : Trace) → Type 0
Kept t s =
    (s.attached ≡ t.attached) × (s.sent ≡ t.sent) × (s.packed ≡ t.packed) × (s.frame ≡ t.frame)

Kept-IsLive : (t s : Trace) → IsLive t → Kept t s → IsLive s
Kept-IsLive t s h (a, e, p, f) = record {
  attached = a ∙ h.attached;
  sent = e ∙ h.sent ∙ sym (ap (λ x. in_frames x t.frame) p) ∙ sym (ap (in_frames s.packed) f);
}

filtered-IsLive : (t : Trace) (sys : Option Sys) (op : Op) → IsLive t → IsLive (filtered t sys op).0
filtered-IsLive t none op h = with_filters t.filters
  where
    with_filters : (m : Option MemBatch) → IsLive (filter_with t m op).0
    with_filters none = h
    with_filters (some m) = Kept-IsLive t _ h (refl, refl, refl, refl)
filtered-IsLive t (some s) op h = h

append-IsLive : (t : Trace) (op : Op) (adv : Bool) → IsLive t → IsLive (append t op adv)
unfolding append
append-IsLive t op adv h =
    let r = filtered t t.syscall op in
    place_all-IsLive r.1 r.0 adv (filtered-IsLive t t.syscall op h)

append_all-IsLive : (ops : List Op) (t : Trace) → IsLive t → IsLive (append_all t ops)
unfolding append_all
append_all-IsLive [] t h = h
append_all-IsLive (op ∷ ops) t h =
    append_all-IsLive ops (append t op false) (append-IsLive t op false h)

flush_with-IsLive : (t : Trace) (m : Option MemBatch) → IsLive t → IsLive (flush_with t m)
flush_with-IsLive t none h = h
flush_with-IsLive t (some m) h =
    place_all-IsLive (usercorn.Trace.Batch.flush m.mem_ops) _ false
      (Kept-IsLive t _ h (refl, refl, refl, refl))

on_reg_update-IsLive : (t : Trace) (dump : List ℕ) → IsLive t → IsLive (on_reg_update t dump)
unfolding on_reg_update
on_reg_update-IsLive t dump h =
    append_all-IsLive (changed_regs t.pc_reg t.reg_enums t.regs dump) _
      (Kept-IsLive t _ h (refl, refl, refl, refl))

flush_sys_with-IsLive : (t : Trace) (s : Option Sys) → IsLive t → IsLive (flush_sys_with t s)
flush_sys_with-IsLive t none h = h
flush_sys_with-IsLive t (some s) h =
    append_sys-IsLive _ (Kept-IsLive t _ h (refl, refl, refl, refl)) s

flush_step_with-IsLive :
    (t : Trace) (dump : List ℕ) (size : Option ℕ) → IsLive t → IsLive (flush_step_with t dump size)
flush_step_with-IsLive t dump none h = h
flush_step_with-IsLive t dump (some size) h =
    Kept-IsLive _ _
      (append-IsLive (on_reg_update t dump) (step size) false (on_reg_update-IsLive t dump h))
      (refl, refl, refl, refl)

flush_step-IsLive : (t : Trace) (dump : List ℕ) → IsLive t → IsLive (flush_step t dump)
unfolding flush_step
flush_step-IsLive t dump h =
    flush_sys_with-IsLive _ t.syscall
      (flush_step_with-IsLive _ dump t.step (Kept-IsLive t _ h (refl, refl, refl, refl)))

before_jmp-IsLive :
    (t : Trace) (dump : List ℕ) (addr : ℕ) (size : Option ℕ)
    → IsLive t
    → IsLive (before_jmp t dump addr size)
before_jmp-IsLive t dump addr none h = h
before_jmp-IsLive t dump addr (some size) h = elim (Bool-cases (addr == t.step_addr)) [
  | inl e ↦ rw e h
  | inr e ↦ rw e (flush_step-IsLive t dump h)
]

on_step-IsLive :
    (t : Trace) (dump : List ℕ) (addr size : ℕ) → IsLive t → IsLive (on_step t dump addr size)
unfolding on_step
on_step-IsLive t dump addr size h = elim (Bool-cases (addr == t.step_addr)) [
  | inl e ↦ rw e h
  | inr e ↦ rw e (Kept-IsLive _ _ (flush_step-IsLive t dump h) (refl, refl, refl, refl))
]

sys_post-IsLive :
    (t : Trace) (dump : List ℕ) (ret : ℕ) (desc : List ℕ) (s : Option Sys)
    → IsLive t
    → IsLive (sys_post t dump ret desc s)
sys_post-IsLive t dump ret desc none h = h
sys_post-IsLive t dump ret desc (some s) h =
    on_reg_update-IsLive _ dump (Kept-IsLive t _ h (refl, refl, refl, refl))

on_event-IsLive : (t : Trace) (dump : List ℕ) (e : Event) → IsLive t → IsLive (on_event t dump e)
unfolding on_event on_mem_read on_mem_write on_mem_map on_mem_unmap on_mem_prot on_jmp on_sys_pre
    on_sys_post on_exit flush_sys
on_event-IsLive t dump (at_block addr size) h =
    append-IsLive _ (jmp addr size) true (before_jmp-IsLive t dump addr t.step h)
on_event-IsLive t dump (at_code addr size) h = on_step-IsLive t dump addr size h
on_event-IsLive t dump at_regs h = on_reg_update-IsLive t dump h
on_event-IsLive t dump (at_read addr size) h =
    append-IsLive t (mem_read addr (size % 2 ^ 32)) false h
on_event-IsLive t dump (at_write addr p) h = append-IsLive t (mem_write addr p) false h
on_event-IsLive t dump (at_map addr size prot desc file) h =
    append-IsLive t (map_op addr size prot desc file) false h
on_event-IsLive t dump (at_unmap addr size) h = append-IsLive t (mem_unmap addr size) false h
on_event-IsLive t dump (at_prot addr size prot) h =
    append-IsLive t (mem_prot addr size (prot % 256)) false h
on_event-IsLive t dump (before_sys num args desc) h =
    Kept-IsLive _ _ (flush_sys_with-IsLive t t.syscall h) (refl, refl, refl, refl)
on_event-IsLive t dump (after_sys ret desc) h = sys_post-IsLive t dump ret desc t.syscall h
on_event-IsLive t dump at_exit h =
    let s = append t exit false in flush_sys_with-IsLive s s.syscall (append-IsLive t exit false h)

pub on_events-IsLive : (es : List (List ℕ × Event)) (t : Trace) → IsLive t → IsLive (on_events t es)
unfolding on_events
on_events-IsLive [] t h = h
on_events-IsLive ((dump, e) ∷ es) t h =
    on_events-IsLive es (on_event t dump e) (on_event-IsLive t dump e h)

pub Detached : Trace → Type 0
Detached s = (s.sent ≡ all_entries s.packed) × (s.frame ≡ none) × (s.attached ≡ false)

pub detach-Detached : (t : Trace) (dump : List ℕ) → IsLive t → Detached (detach t dump)
unfolding detach flush_filters Detached
detach-Detached t dump h =
    let flushed =
      flush_step-IsLive (flush_with t t.filters) dump (flush_with-IsLive t t.filters h) in
    let a = h.attached in simp (a) (flushed.sent, refl, refl)
