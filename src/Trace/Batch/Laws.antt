-- ===== src/Trace/Batch/Laws.antt =====
-- What the filter passes on, and what a batch has.
use usercorn.Trace.Batch.{grows_up}
use usercorn.Trace.Batch.{retag}
use usercorn.Trace.Batch.{new_delta}
use usercorn.Base.{
  ℕ, ◌+◌, ◌<◌, ◌%◌, ◌^◌, ◌≡◌, refl, ◌∙◌, ap, sym, true, List, [], ◌∷◌, ◌++◌, append-nil,
  append_assoc, length, arith,
}
use usercorn.Trace.Op.{
  Op, null, nop, exit, jmp, step, reg, sp_reg, mem_read, mem_write, mem_map, mem_unmap, mem_prot,
  syscall, keyframe, frame,
}
use usercorn.Trace.Batch.{
  MemBatch, MemDelta, Item, plain, batch, update, log_ops, delta_ops, flush, filter, filter_all,
  batch_of,
}

-- The operations among what is passed on, without the batches.
abbrev pub plains : List Item → List Op
plains [] = []
plains (plain op ∷ items) = op ∷ plains items
plains (batch ops ∷ items) = plains items

plains-append : (xs ys : List Item) → plains (xs ++ ys) ≡ plains xs ++ plains ys
plains-append [] ys = refl
plains-append (plain op ∷ xs) ys = ap (◌∷◌ op) (plains-append xs ys)
plains-append (batch ops ∷ xs) ys = plains-append xs ys

plains-batch_of : (ops : List Op) → plains (batch_of ops) ≡ []
plains-batch_of [] = refl
plains-batch_of (op ∷ ops) = refl

plains-flush : (ops : List Op) → plains (flush ops) ≡ []
unfolding flush
plains-flush ops = plains-batch_of (delta_ops (log_ops [] ops))

plains-flush_then : (ops : List Op) (op : Op) → plains (flush ops ++ (plain op ∷ [])) ≡ op ∷ []
plains-flush_then ops op =
    plains-append (flush ops) (plain op ∷ []) ∙ ap (λ xs. xs ++ (op ∷ [])) (plains-flush ops)

plains-filter : (m : MemBatch) (op : Op) → plains (filter m op).1 ≡ op ∷ []
unfolding filter
plains-filter m (jmp addr size) = ground (arith, plains-flush_then m.mem_ops (jmp addr size))
plains-filter m (step size) = ground (arith, plains-flush_then m.mem_ops (step size))
plains-filter m (mem_read addr size) = refl
plains-filter m (mem_write addr p) = refl
plains-filter m null = refl
plains-filter m nop = refl
plains-filter m exit = refl
plains-filter m (reg num val) = refl
plains-filter m (sp_reg num val) = refl
plains-filter m (mem_map addr size prot off len desc file) = refl
plains-filter m (mem_unmap addr size) = refl
plains-filter m (mem_prot addr size prot) = refl
plains-filter m (syscall num ret args desc ops) = refl
plains-filter m (keyframe pid ops) = refl
plains-filter m (frame pid ops) = refl

-- The filter passes on every operation that it is given, once and in order; what it adds are batches.
pub plains-filter_all : (m : MemBatch) (ops : List Op) → plains (filter_all m ops).1 ≡ ops
unfolding filter_all
plains-filter_all m [] = refl
plains-filter_all m (op ∷ ops) =
    plains-append (filter m op).1 (filter_all (filter m op).0 ops).1
    ∙ rw (plains-filter m op) (ap (◌∷◌ op) (plains-filter_all (filter m op).0 ops))

-- Writes that follow each other in memory, from an address on.
abbrev pub writes_from : ℕ → List (List ℕ) → List Op
writes_from a [] = []
writes_from a (p ∷ ps) = mem_write a p ∷ writes_from (a + length p) ps

abbrev pub concat : List (List ℕ) → List ℕ
concat [] = []
concat (p ∷ ps) = p ++ concat ps

abbrev pub total : List (List ℕ) → ℕ
total [] = 0
total (p ∷ ps) = length p + total ps

abbrev up : MemDelta → List ℕ → MemDelta
up d p = record {
  addr = d.addr;
  last = p;
  bytes = d.bytes ++ p;
  size = d.size + length p;
  write = true;
  tag = retag d.tag grows_up;
}

-- A write at the end of the only delta.
extend_up :
    (d : MemDelta) (p : List ℕ)
    → d.write ≡ true
    → d.addr + d.size + length p < 2 ^ 64
    → d.size + length p < 2 ^ 32
    → update (d ∷ []) (d.addr + d.size) (length p % 2 ^ 32) p true ≡ up d p ∷ []
unfolding update
extend_up d p w h k = ground (arith, w, h, k)

grown :
    (d : MemDelta) (ps : List (List ℕ))
    → d.write ≡ true
    → d.addr + d.size + total ps < 2 ^ 64
    → d.size + total ps < 2 ^ 32
    → delta_ops (log_ops (d ∷ []) (writes_from (d.addr + d.size) ps))
      ≡ mem_write d.addr (d.bytes ++ concat ps) ∷ []
unfolding log_ops delta_ops
grown d [] w h k = rw (w, append-nil d.bytes)
grown d (p ∷ ps) w h k =
    let rest : List MemDelta → List Op =
      λ log. delta_ops (log_ops log (writes_from (d.addr + d.size + length p) ps)) in
    let from : ℕ → List Op = λ n. delta_ops (log_ops (up d p ∷ []) (writes_from n ps)) in
    ap rest (extend_up d p w (omega arith) (omega arith))
    ∙ (ap from (omega arith)
        ∙ (grown (up d p) ps refl (omega arith) (omega arith)
            ∙ ap (λ bs. mem_write d.addr bs ∷ []) (append_assoc d.bytes p (concat ps))))

-- Writes that follow each other upwards, of less than 2 ^ 32 bytes in all, become one batch with one
-- write, which has the bytes of all.
pub flush_upwards :
    (a : ℕ) (p : List ℕ) (ps : List (List ℕ))
    → a + total (p ∷ ps) < 2 ^ 64
    → total (p ∷ ps) < 2 ^ 32
    → flush (writes_from a (p ∷ ps)) ≡ batch (mem_write a (p ++ concat ps) ∷ []) ∷ []
unfolding flush log_ops update
flush_upwards a p ps h k =
    let d = new_delta a (length p % 2 ^ 32) p true in
    let n : d.size ≡ length p = omega arith in
    ap batch_of (
      ap (λ n. delta_ops (log_ops (d ∷ []) (writes_from (a + n) ps))) (sym n)
      ∙ grown d ps refl (omega (arith, n)) (omega (arith, n)))

-- A write right below an earlier one loses the bytes of the earlier one: the batch has only the
-- second write, whatever the first was.
pub flush_loses :
    (a : ℕ) (p q : List ℕ)
    → 0 < length p
    → length p < 2 ^ 32
    → a + length p < 2 ^ 64
    → flush (mem_write (a + length p) q ∷ mem_write a p ∷ []) ≡ batch (mem_write a p ∷ []) ∷ []
unfolding flush log_ops update delta_ops
flush_loses a p q z h k = ground (arith, z, h, k)
