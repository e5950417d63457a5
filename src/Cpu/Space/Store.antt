-- ===== src/Cpu/Space/Store.antt =====
-- go/models/cpu/memsim.go: `Write`, and `Read` after it.
use usercorn.Base.{ltb→le}
use usercorn.Cpu.Space.Put.{put_away}
use usercorn.Base.{ltb→lt}
use usercorn.Cpu.Space.Access.{Mapped-from}
use usercorn.Base.{lt→ltb}
use usercorn.Cpu.Space.Valid.{allows}
use usercorn.Cpu.Space.Access.{page_below}
use usercorn.Base.{le→leb}
use usercorn.Base.{Option-cases}
use usercorn.Base.{
  ℕ, ◌+◌, ◌-◌, ◌≤◌, ◌<◌, ◌^◌, ◌≡◌, ◌≢◌, refl, ◌∙◌, ap, sym, subst, inl, inr, true, false, List, [],
  ◌∷◌, ◌++◌, Option, none, some, length, take, drop, get_elem?, arith, Bool-cases, ltb, zero, suc,
}
use usercorn.Cpu.Page.{Page}
use usercorn.Cpu.MemSim.{
  Outcome, ok, err, read, write, write_loop, range_valid, write_unmapped, write_prot,
}
use usercorn.Cpu.Search.{get_elem?-IsPage}
use usercorn.Base.{get_elem?-some, list_ext}
use usercorn.Cpu.Space.{IsRun, cell}
use usercorn.Cpu.Space.Change.{IsRun-from}
use usercorn.Cpu.Space.Reads.{NonEmpty, byte_at, cell-inside, cell-behind}
use usercorn.Cpu.Space.Valid.{Mapped, Allowed}
use usercorn.Cpu.Space.Access.{range_valid-Valid, bsearch_cases, false_of, read-Reads}
use usercorn.Cpu.Space.Put.{put, Written}
use usercorn.Cpu.Space.Writes.{write_loop-Written}

-- The pages before the one that is found stay.
Written-take :
    (ps : List Page) (lo hi i addr : ℕ) (q : Page) (p : List ℕ) (tail : List Page)
    → IsRun lo ps hi
    → get_elem? ps i ≡ some q
    → q.addr ≤ addr
    → Written q.addr (drop i ps) hi addr p tail
    → Written lo ps hi addr p (take i ps ++ tail)
Written-take [] lo hi i addr q p tail h e l w = absurd (cc)
Written-take (m ∷ ps) lo hi zero addr q p tail h e l w =
    let below = (get_elem?-IsPage (m ∷ ps) lo hi zero q h e).1 in
    record { run = IsRun-from tail lo q.addr hi below w.run; full = w.full; cells = w.cells }
Written-take (m ∷ ps) lo hi (suc i) addr q p tail h e l w =
    let below = (get_elem?-IsPage ps (m.addr + m.size) hi i q h.2 e).1 in
    let r = Written-take ps (m.addr + m.size) hi i addr q p tail h.2 e l w in
    let rest = take i ps ++ tail in
    let own : IsRun m.addr (m ∷ ps) hi = (omega arith, h.1, h.2) in
    let new : IsRun m.addr (m ∷ rest) hi = (omega arith, h.1, r.run) in
    record {
      run = (h.0, h.1, r.run);
      full = λ z. (z.0, r.full z.1);
      cells = λ x. elim (Bool-cases (ltb x (m.addr + m.size))) [
        | inl low ↦
            let lt = ltb→lt x (m.addr + m.size) low in
            cell-inside m rest x hi new lt
            ∙ sym (
                put_away p addr x (cell (m ∷ ps) x) (ground (arith, lt, below))
                ∙ cell-inside m ps x hi own lt)
        | inr high ↦
            let le = ltb→le x (m.addr + m.size) high in
            cell-behind m rest x h.1 le
            ∙ (r.cells x ∙ ap (put p addr x) (sym (cell-behind m ps x h.1 le)))
      ];
    }

-- What `Write` of a range returns.
pub record Writes (lo : ℕ) (ps : List Page) (hi addr : ℕ) (p : List ℕ) (prot : ℕ)
    (r : Outcome (List Page)) : Type 0 where
  pub unmapped :
      ¬ Mapped ps addr (addr + length p)
      → r ≡ err (record { addr = addr; size = length p; enum = write_unmapped })
  pub refused :
      Mapped ps addr (addr + length p)
      → ¬ Allowed ps prot addr (addr + length p)
      → r ≡ err (record { addr = addr; size = length p; enum = write_prot })
  pub writes :
      Mapped ps addr (addr + length p)
      → Allowed ps prot addr (addr + length p)
      → (ps' : List Page) × (r ≡ ok ps') × Written lo ps hi addr p ps'

-- `Write` puts the buffer into the memory at its address if all of the range is mapped and under a
-- protection that allows the access: the memory stays well formed, and every other byte and every
-- protection is as it was; else it returns the error that says which of the two is not so. The pages
-- are well formed and not empty, and the range is not empty and does not reach the end of the address
-- space.
pub write-Writes :
    (ps : List Page) (lo hi addr : ℕ) (p : List ℕ) (prot : ℕ)
    → IsRun lo ps hi
    → NonEmpty ps
    → 0 < length p
    → addr + length p < 2 ^ 64
    → Writes lo ps hi addr p prot (write ps addr p prot)
unfolding write
write-Writes ps lo hi addr p prot h z s k =
    let v = range_valid-Valid ps lo hi addr (length p) prot h z s k in
    let rv = range_valid ps addr (length p) prot in
    record {
      unmapped =
          λ n. let no : rv.0 ≡ false = false_of rv.0 (λ e. n (v.mapped e)) in ground (arith, no);
      refused = λ m n.
          let no : rv.1 ≡ false = false_of rv.1 (λ e. n (v.allowed m e)) in
          ground (arith, no, v.reaches m);
      writes = λ m a. elim (bsearch_cases ps lo hi addr h) [
        | inl (missed, free) ↦ absurd (m addr (omega arith) (omega arith) free)
        | inr (i, q, found, inside, f) ↦
            let below = page_below q addr f.run.1 inside in
            let tail = write_loop (q ∷ f.rest) addr p in
            let done =
              write_loop-Written q f.rest hi addr p f.run (f.full z) inside k
                (Mapped-from ps hi i q f addr (addr + length p) below m) in
            (
              take i ps ++ tail,
              rw (v.reaches m, v.allows_all m a, found, f.dropped) refl,
              Written-take ps lo hi i addr q p tail h f.at below
                  (subst (λ ds. Written q.addr ds hi addr p tail) (sym f.dropped) done),
            )
      ];
    }

put_at :
    (p : List ℕ) (addr k b : ℕ) (c : Option (ℕ × ℕ))
    → k < length p
    → get_elem? p k ≡ some b
    → c ≢ none
    → byte_at (put p addr (addr + k) c) ≡ some b
put_at p addr k b none h e f = absurd (f refl)
put_at p addr k b (some c) h e f =
    let index : get_elem? p (addr + k - addr) ≡ some b = ap (get_elem? p) (omega arith) ∙ e in
    rw
      (
        le→leb addr (addr + k) (omega arith),
        lt→ltb (addr + k) (addr + length p) (omega arith),
        index,
      )
      refl

put_some : (p : List ℕ) (addr x : ℕ) (c : Option (ℕ × ℕ)) → c ≢ none → put p addr x c ≢ none
put_some p addr x none f = absurd (f refl)
put_some p addr x (some (b, q)) f = elim (Option-cases (get_elem? p (x - addr))) [
  | inl e ↦ λ g. ground (arith, e, g)
  | inr (v, e) ↦ λ g. ground (arith, e, g)
]

ok_inj : (a b : List Page) → ok a ≡ ok b → a ≡ b
ok_inj a b e = cc

any_access : (c : Option (ℕ × ℕ)) → allows 0 c ≡ true
any_access none = refl
any_access (some (b, q)) = refl

ok_valid :
    (ps ps' : List Page) (addr : ℕ) (p : List ℕ) (prot : ℕ)
    → write ps addr p prot ≡ ok ps'
    → ((range_valid ps addr (length p) prot).0 ≡ true)
      × ((range_valid ps addr (length p) prot).1 ≡ true)
unfolding write
ok_valid ps ps' addr p prot e = elim (Bool-cases (range_valid ps addr (length p) prot).0) [
  | inr bad ↦ absurd (ground (arith, bad, e))
  | inl yes_mapped ↦ elim (Bool-cases (range_valid ps addr (length p) prot).1) [
    | inr bad ↦ absurd (ground (arith, bad, yes_mapped, e))
    | inl yes_good ↦ (yes_mapped, yes_good)
  ]
]

-- A memory after a write reads as what was written.
read_written :
    (prot_exec : ℕ) (ps ps' : List Page) (lo hi addr : ℕ) (p buffer : List ℕ)
    → NonEmpty ps
    → 0 < length p
    → addr + length p < 2 ^ 64
    → length buffer ≡ length p
    → Mapped ps addr (addr + length p)
    → Written lo ps hi addr p ps'
    → read prot_exec ps' addr buffer 0 ≡ ok p
read_written prot_exec ps ps' lo hi addr p buffer z s k b m w =
    let r =
      read-Reads prot_exec ps' lo hi addr buffer 0 w.run (w.full z) (omega (arith, b))
        (omega (arith, b)) in
    let mapped : Mapped ps' addr (addr + length buffer) = λ x i j n.
      put_some p addr x (cell ps x) (m x i (omega (arith, b, j))) (sym (w.cells x) ∙ n) in
    let (p', e, len, holds) = r.reads mapped (λ x i j. any_access (cell ps' x)) in
    e
    ∙ ap ok (
        list_ext p' p (len ∙ b) (λ i l.
          let (c, at) = get_elem?-some p i (omega (arith, len, b, l)) in
          holds i l
          ∙ (ap byte_at (w.cells (addr + i))
              ∙ (put_at p addr i c (cell ps (addr + i)) (omega (arith, len, b, l)) at
                    (m (addr + i) (omega arith) (omega (arith, len, b, l)))
                  ∙ sym at))))

-- A `Read` of the range of a `Write` that returned no error gives what was written, with no access
-- asked for. The pages before the write are well formed and not empty, and the range is not empty and
-- does not reach the end of the address space.
pub read-write :
    (prot_exec : ℕ) (ps ps' : List Page) (lo hi addr : ℕ) (p buffer : List ℕ) (prot : ℕ)
    → IsRun lo ps hi
    → NonEmpty ps
    → 0 < length p
    → addr + length p < 2 ^ 64
    → length buffer ≡ length p
    → write ps addr p prot ≡ ok ps'
    → read prot_exec ps' addr buffer 0 ≡ ok p
read-write prot_exec ps ps' lo hi addr p buffer prot h z s k b e =
    let v = range_valid-Valid ps lo hi addr (length p) prot h z s k in
    let good = ok_valid ps ps' addr p prot e in
    let m = v.mapped good.0 in
    let (ps'', e', w) = (write-Writes ps lo hi addr p prot h z s k).writes m (v.allowed m good.1) in
    let same : ps'' ≡ ps' = ok_inj ps'' ps' (sym e' ∙ e) in
    read_written prot_exec ps ps' lo hi addr p buffer z s k b m
      (subst (Written lo ps hi addr p) same w)
