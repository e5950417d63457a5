-- ===== src/Cpu/Space/Access.antt =====
-- go/models/cpu/memsim.go: `RangeValid` and `Read`, against the abstract memory.
use usercorn.Base.{le→leb}
use usercorn.Cpu.Space.Valid.{allows}
use usercorn.Cpu.Search.{bsearch-none}
use usercorn.Base.{leb→le}
use usercorn.Base.{◌⊎◌}
use usercorn.Base.{
  ℕ, zero, suc, ◌+◌, ◌-◌, ◌≤◌, ◌<◌, ◌^◌, ◌≡◌, refl, ◌∙◌, ap, sym, subst, inl, inr, Bool, true,
  false, List, [], ◌∷◌, none, some, length, take, drop, min, get_elem?, arith, Bool-cases,
  Option-cases, if◌then◌else◌, add64, sub64, length-append, length-take, length-drop,
}
use usercorn.Cpu.Page.{Page, contains}
use usercorn.Cpu.Pages.{bsearch}
use usercorn.Cpu.Search.{bsearch_sound, get_elem?-IsPage}
use usercorn.Cpu.MemSim.{
  walk, range_valid, read_loop, read, is_fetch, Outcome, ok, err, fetch_unmapped, read_unmapped,
  fetch_prot, read_prot,
}
use usercorn.Cpu.Space.{IsPage, IsRun, cell}
use usercorn.Cpu.Space.Reads.{NonEmpty, byte_at, contains-inside, cell-behind, read_loop-cell}
use usercorn.Cpu.Space.Valid.{Mapped, Allowed, walk-Walked}

-- The pages from the one that the search found.
pub record From (ps : List Page) (hi i : ℕ) (q : Page) : Type 0 where
  pub rest : List Page
  pub at : get_elem? ps i ≡ some q
  pub dropped : drop i ps ≡ q ∷ rest
  pub run : IsRun q.addr (q ∷ rest) hi
  pub same : (x : ℕ) → q.addr ≤ x → cell ps x ≡ cell (q ∷ rest) x
  pub full : NonEmpty ps → NonEmpty (q ∷ rest)

pub From-page :
    (ps : List Page) (lo hi i : ℕ) (q : Page)
    → IsRun lo ps hi
    → get_elem? ps i ≡ some q
    → From ps hi i q
From-page [] lo hi i q h e = absurd (cc)
From-page (p ∷ ps) lo hi zero q h e =
    let same : p ≡ q = cc in
    subst (From (p ∷ ps) hi 0) same (record {
      rest = ps;
      at = refl;
      dropped = refl;
      run = (omega arith, h.1, h.2);
      same = λ x l. refl;
      full = λ z. z;
    })
From-page (p ∷ ps) lo hi (suc i) q h e =
    let f = From-page ps (p.addr + p.size) hi i q h.2 e in
    let above = (get_elem?-IsPage ps (p.addr + p.size) hi i q h.2 e).1 in
    record {
      rest = f.rest;
      at = e;
      dropped = f.dropped;
      run = f.run;
      same = λ x l. cell-behind p ps x h.1 (omega arith) ∙ f.same x l;
      full = λ z. f.full z.1;
    }

-- What the search finds for an address: nothing where it is free, else the page that has it.
pub bsearch_cases :
    (ps : List Page) (lo hi addr : ℕ)
    → IsRun lo ps hi
    → ((bsearch ps addr ≡ none) × (cell ps addr ≡ none))
      ⊎ ((i : ℕ) × (q : Page) × (bsearch ps addr ≡ some i)
          × (contains q addr ≡ true)
          × From ps hi i q)
bsearch_cases ps lo hi addr h = elim (Option-cases (bsearch ps addr)) [
  | inl missed ↦ inl (missed, bsearch-none ps lo hi addr h missed)
  | inr (i, found) ↦
      let (q, at, inside) = bsearch_sound ps addr i found in
      inr (i, q, found, inside, From-page ps lo hi i q h at)
]

pub page_below : (q : Page) (addr : ℕ) → IsPage q → contains q addr ≡ true → q.addr ≤ addr
page_below q addr h e = (contains-inside q addr h e).0

module _ (ps : List Page) (hi i : ℕ) (q : Page) (f : From ps hi i q) (a e : ℕ)
    (l : q.addr ≤ a) where
  pub Mapped-from : Mapped ps a e → Mapped (q ∷ f.rest) a e
  Mapped-from m x j k n = m x j k (f.same x (omega arith) ∙ n)

  Mapped-to : Mapped (q ∷ f.rest) a e → Mapped ps a e
  Mapped-to m x j k n = m x j k (sym (f.same x (omega arith)) ∙ n)

  Allowed-from : (prot : ℕ) → Allowed ps prot a e → Allowed (q ∷ f.rest) prot a e
  Allowed-from prot m x j k = ap (allows prot) (sym (f.same x (omega arith))) ∙ m x j k

  Allowed-to : (prot : ℕ) → Allowed (q ∷ f.rest) prot a e → Allowed ps prot a e
  Allowed-to prot m x j k = ap (allows prot) (f.same x (omega arith)) ∙ m x j k

-- What `RangeValid` says of a range.
pub record Valid (ps : List Page) (addr end prot : ℕ) (v : Bool × Bool) : Type 0 where
  pub mapped : v.0 ≡ true → Mapped ps addr end
  pub reaches : Mapped ps addr end → v.0 ≡ true
  pub allowed : Mapped ps addr end → v.1 ≡ true → Allowed ps prot addr end
  pub allows_all : Mapped ps addr end → Allowed ps prot addr end → v.1 ≡ true

-- `RangeValid` says of a range whether every address of it is mapped and, where it is, whether every
-- page of it allows the access. The pages are well formed and not empty, and the range is not empty
-- and does not reach the end of the address space.
pub range_valid-Valid :
    (ps : List Page) (lo hi addr size prot : ℕ)
    → IsRun lo ps hi
    → NonEmpty ps
    → 0 < size
    → addr + size < 2 ^ 64
    → Valid ps addr (addr + size) prot (range_valid ps addr size prot)
unfolding range_valid
range_valid-Valid ps lo hi addr size prot h z s k = elim (bsearch_cases ps lo hi addr h) [
  | inl (missed, free) ↦ rw missed (record {
    mapped = λ e. cc;
    reaches = λ f. absurd (f addr (omega arith) (omega arith) free);
    allowed = λ f. absurd (f addr (omega arith) (omega arith) free);
    allows_all = λ f. absurd (f addr (omega arith) (omega arith) free);
  })
  | inr (i, q, found, inside, f) ↦
      let e = addr + size in
      let below = page_below q addr f.run.1 inside in
      let w = walk-Walked q f.rest addr e hi prot true f.run (f.full z) inside (omega arith) in
      let wrap : add64 addr size ≡ e = omega arith in
      rw (found, f.dropped, wrap)
        (record {
          mapped = λ g.
              Mapped-to ps hi i q f addr e below
                (w.mapped (leb→le e (walk (q ∷ f.rest) addr e prot true).0 g));
          reaches = λ g.
              le→leb e (walk (q ∷ f.rest) addr e prot true).0
                (w.reaches (Mapped-from ps hi i q f addr e below g));
          allowed = λ g n.
              Allowed-to ps hi i q f addr e below prot
                (w.allowed (Mapped-from ps hi i q f addr e below g) n).1;
          allows_all = λ g n.
              w.allows_all (Mapped-from ps hi i q f addr e below g) refl
                (Allowed-from ps hi i q f addr e below prot n);
        })
]

pub length-read_loop :
    (ps : List Page) (addr : ℕ) (p : List ℕ) → length (read_loop ps addr p) ≡ length p
unfolding read_loop
length-read_loop [] addr p = refl
length-read_loop (m ∷ ps) addr p = elim (Bool-cases (contains m addr)) [
  | inr off ↦ rw off refl
  | inl on ↦
      let o = sub64 addr m.addr in
      let n = min (length p) (length m.bytes - o) in
      rw on (
        omega (
          arith,
          length-append (take n (drop o m.bytes)) (read_loop ps (add64 addr n) (drop n p)),
          length-read_loop ps (add64 addr n) (drop n p),
          length-take n (drop o m.bytes),
          length-drop o m.bytes,
          length-drop n p,
        ))
]

-- The bytes at an address and on.
abbrev pub Holds : List Page → ℕ → List ℕ → Type 0
Holds ps addr p = (k : ℕ) → k < length p → get_elem? p k ≡ byte_at (cell ps (addr + k))

pub false_of : (b : Bool) → ¬ (b ≡ true) → b ≡ false
false_of true h = absurd (h refl)
false_of false h = refl

-- What `Read` of a range returns.
pub record Reads (prot_exec : ℕ) (ps : List Page) (addr : ℕ) (p : List ℕ) (prot : ℕ)
    (r : Outcome (List ℕ)) : Type 0 where
  pub unmapped :
      ¬ Mapped ps addr (addr + length p)
      → r
        ≡ err (record {
          addr = addr;
          size = length p;
          enum = if is_fetch prot_exec prot then fetch_unmapped else read_unmapped;
        })
  pub refused :
      Mapped ps addr (addr + length p)
      → ¬ Allowed ps prot addr (addr + length p)
      → r
        ≡ err (record {
          addr = addr;
          size = length p;
          enum = if is_fetch prot_exec prot then fetch_prot else read_prot;
        })
  pub reads :
      Mapped ps addr (addr + length p)
      → Allowed ps prot addr (addr + length p)
      → (p' : List ℕ) × (r ≡ ok p') × (length p' ≡ length p) × Holds ps addr p'

-- `Read` into a buffer returns the bytes of the range if all of it is mapped and under a protection
-- that allows the access; else it returns the error that says which of the two is not so. The pages
-- are well formed and not empty, and the range is not empty and does not reach the end of the address
-- space.
pub read-Reads :
    (prot_exec : ℕ) (ps : List Page) (lo hi addr : ℕ) (p : List ℕ) (prot : ℕ)
    → IsRun lo ps hi
    → NonEmpty ps
    → 0 < length p
    → addr + length p < 2 ^ 64
    → Reads prot_exec ps addr p prot (read prot_exec ps addr p prot)
unfolding read
read-Reads prot_exec ps lo hi addr p prot h z s k =
    let v = range_valid-Valid ps lo hi addr (length p) prot h z s k in
    let rv = range_valid ps addr (length p) prot in
    record {
      unmapped =
          λ n. let no : rv.0 ≡ false = false_of rv.0 (λ e. n (v.mapped e)) in ground (arith, no);
      refused = λ m n.
          let no : rv.1 ≡ false = false_of rv.1 (λ e. n (v.allowed m e)) in
          ground (arith, no, v.reaches m);
      reads = λ m a. elim (bsearch_cases ps lo hi addr h) [
        | inl (missed, free) ↦ absurd (m addr (omega arith) (omega arith) free)
        | inr (i, q, found, inside, f) ↦
            let below = page_below q addr f.run.1 inside in
            let len = length-read_loop (q ∷ f.rest) addr p in
            (
              read_loop (q ∷ f.rest) addr p,
              rw (v.reaches m, v.allows_all m a, found, f.dropped) refl,
              len,
              λ j l.
                  read_loop-cell q f.rest hi addr j p f.run (f.full z) inside k (omega (arith, len))
                    (λ t g.
                      Mapped-from ps hi i q f addr (addr + length p) below m (addr + t)
                        (omega arith) (omega (arith, len)))
                  ∙ ap byte_at (sym (f.same (addr + j) (omega arith))),
            )
      ];
    }
