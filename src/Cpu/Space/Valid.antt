-- ===== src/Cpu/Space/Valid.antt =====
-- go/models/cpu/memsim.go: `RangeValid`, against the abstract memory.
use usercorn.Base.{leb→le}
use usercorn.Base.{ltb→lt}
use usercorn.Base.{get_elem?-some}
use usercorn.Base.{
  ℕ, ◌+◌, ◌-◌, ◌≤◌, ◌<◌, ◌≡◌, ◌≢◌, ◌∙◌, ap, sym, subst, inl, inr, Bool, true, false, not, ◌&&◌,
  ◌||◌, List, [], ◌∷◌, Option, none, some, get_elem?, arith, Bool-cases, Option-cases, ltb, leb,
  ◌==◌, bit_and, if◌then◌else◌,
}
use usercorn.Cpu.Page.{Page, contains, page_end}
use usercorn.Cpu.MemSim.{lacks, walk}
use usercorn.Cpu.Space.{IsPage, IsRun, cell, cell_in}
use usercorn.Cpu.Space.Reads.{NonEmpty, contains-inside, cell-inside, cell-behind, first_contains}

-- Whether an access under `prot` may touch what is at an address.
abbrev pub allows : ℕ → Option (ℕ × ℕ) → Bool
allows prot none = true
allows prot (some (b, p)) = not (ltb 0 prot && (p == 0 || not (bit_and p prot == prot)))

abbrev pub Mapped : List Page → ℕ → ℕ → Type 0
Mapped ps a e = (x : ℕ) → a ≤ x → x < e → cell ps x ≢ none

abbrev pub Allowed : List Page → ℕ → ℕ → ℕ → Type 0
Allowed ps prot a e = (x : ℕ) → a ≤ x → x < e → allows prot (cell ps x) ≡ true

-- An address of the first page.
pub cell-first :
    (m : Page) (ps : List Page) (x hi : ℕ)
    → IsRun m.addr (m ∷ ps) hi
    → m.addr ≤ x
    → x < m.addr + m.size
    → (b : ℕ) × (get_elem? m.bytes (x - m.addr) ≡ some b) × (cell (m ∷ ps) x ≡ some (b, m.prot))
unfolding cell_in contains
cell-first m ps x hi h l u =
    let (b, e) = get_elem?-some m.bytes (x - m.addr) (omega (arith, h.1.filled)) in
    (b, e, cell-inside m ps x hi h u ∙ ground (arith, h.1.fits, l, u, e))

-- What a walk from `addr` to `end` found.
pub record Walked (ps : List Page) (addr end prot : ℕ) (good : Bool) (w : ℕ × Bool) : Type 0 where
  pub mapped : end ≤ w.0 → Mapped ps addr end
  pub reaches : Mapped ps addr end → end ≤ w.0
  pub allowed : Mapped ps addr end → w.1 ≡ true → (good ≡ true) × Allowed ps prot addr end
  pub allows_all : Mapped ps addr end → good ≡ true → Allowed ps prot addr end → w.1 ≡ true

module _ (m : Page) (ps : List Page) (addr end hi prot : ℕ) (h : IsRun m.addr (m ∷ ps) hi)
    (l : m.addr ≤ addr) (u : addr < m.addr + m.size) (r : addr < end) where
  Allowed-lacks : Allowed (m ∷ ps) prot addr end → not (lacks prot m) ≡ true
  Allowed-lacks a =
      let (b, _, e) = cell-first m ps addr hi h l u in
      ap (allows prot) (sym e) ∙ a addr (omega arith) r

  lacks-allows :
      not (lacks prot m) ≡ true
      → (x : ℕ) → addr ≤ x
      → x < m.addr + m.size
      → allows prot (cell (m ∷ ps) x) ≡ true
  lacks-allows a x i j =
      let (b, _, e) = cell-first m ps x hi h (omega arith) j in ap (allows prot) e ∙ a

  cell-first_some : (x : ℕ) → addr ≤ x → x < m.addr + m.size → cell (m ∷ ps) x ≢ none
  cell-first_some x i j e = let (b, _, f) = cell-first m ps x hi h (omega arith) j in cc

  -- The walk ends in the first page.
  Walked-here :
      (good : Bool)
      → end ≤ m.addr + m.size
      → Walked (m ∷ ps) addr end prot good (m.addr + m.size, good && not (lacks prot m))
  Walked-here good d = record {
    mapped = λ _ x i j. cell-first_some x i (omega arith);
    reaches = λ _. d;
    allowed =
        λ _ g. (ground (arith, g), λ x i j. lacks-allows (ground (arith, g)) x i (omega arith));
    allows_all = λ _ g a. ground (arith, g, Allowed-lacks a);
  }

  -- The walk stops behind the first page, where nothing is mapped.
  Walked-short :
      (good : Bool)
      → m.addr + m.size < end
      → cell (m ∷ ps) (m.addr + m.size) ≡ none
      → Walked (m ∷ ps) addr end prot good (m.addr + m.size, good && not (lacks prot m))
  Walked-short good d e = record {
    mapped = λ f. absurd (omega (arith, f));
    reaches = λ f. absurd (f (m.addr + m.size) (omega arith) d e);
    allowed = λ f. absurd (f (m.addr + m.size) (omega arith) d e);
    allows_all = λ f. absurd (f (m.addr + m.size) (omega arith) d e);
  }

  behind : (x : ℕ) → m.addr + m.size ≤ x → cell (m ∷ ps) x ≡ cell ps x
  behind x i = cell-behind m ps x h.1 i

  Mapped-tail : m.addr + m.size < end → Mapped (m ∷ ps) addr end → Mapped ps (m.addr + m.size) end
  Mapped-tail d f x i j e = f x (omega arith) j (behind x i ∙ e)

  -- The walk goes on behind the first page.
  Walked-on :
      (good : Bool) (w : ℕ × Bool)
      → m.addr + m.size < end
      → Walked ps (m.addr + m.size) end prot (good && not (lacks prot m)) w
      → Walked (m ∷ ps) addr end prot good w
  Walked-on good w d k = record {
    mapped = λ f x i j. elim (Bool-cases (ltb x (m.addr + m.size))) [
      | inl here ↦ cell-first_some x i (ltb→lt x (m.addr + m.size) here)
      | inr on ↦ λ e. k.mapped f x (ground (arith, on)) j (sym (behind x (ground (arith, on))) ∙ e)
    ];
    reaches = λ f. k.reaches (Mapped-tail d f);
    allowed = λ f g.
        let (both, a) = k.allowed (Mapped-tail d f) g in
        (
          ground (arith, both),
          λ x i j. elim (Bool-cases (ltb x (m.addr + m.size))) [
            | inl here ↦ lacks-allows (ground (arith, both)) x i (ltb→lt x (m.addr + m.size) here)
            | inr on ↦ ap (allows prot) (behind x (ground (arith, on))) ∙ a x (ground (arith, on)) j
          ],
        );
    allows_all = λ f g a.
        k.allows_all (Mapped-tail d f) (ground (arith, g, Allowed-lacks a))
          (λ x i j. ap (allows prot) (sym (behind x i)) ∙ a x (omega arith) j);
  }

-- `Walked` follows what `walk` makes of the first page.
walk_first :
    (m : Page) (ps : List Page) (addr end prot : ℕ) (good : Bool)
    → contains m addr ≡ true
    → walk (m ∷ ps) addr end prot good ≡ (
        if leb end (page_end m)
        then (page_end m, good && not (lacks prot m))
        else walk ps (page_end m) end prot (good && not (lacks prot m)))
unfolding walk
walk_first m ps addr end prot good c = rw c

walk_miss :
    (m : Page) (ps : List Page) (addr end prot : ℕ) (good : Bool)
    → contains m addr ≡ false
    → walk (m ∷ ps) addr end prot good ≡ (addr, good)
unfolding walk
walk_miss m ps addr end prot good c = rw c

-- Behind a page, the next page of the run either has the next address or leaves it free.
pub next_free :
    (q : Page) (qs : List Page) (a hi : ℕ)
    → IsRun a (q ∷ qs) hi
    → 0 < q.size
    → contains q a ≡ false
    → cell (q ∷ qs) a ≡ none
next_free q qs a hi h z c = elim (Option-cases (cell (q ∷ qs) a)) [
  | inl e ↦ e
  | inr (b, e) ↦ absurd (let t = first_contains q qs a hi h z (λ n. cc) in cc)
]

page_end_lem : (m : Page) → IsPage m → page_end m ≡ m.addr + m.size
page_end_lem m h = omega (arith, h.fits)

walk_step :
    (m : Page) (ps : List Page) (addr end hi prot : ℕ) (good : Bool)
    → IsRun m.addr (m ∷ ps) hi
    → contains m addr ≡ true
    → addr < end
    → (m.addr + m.size < end
        → Walked
            (m ∷ ps)
            addr
            end
            prot
            good
            (walk ps (m.addr + m.size) end prot (good && not (lacks prot m))))
    → Walked (m ∷ ps) addr end prot good (walk (m ∷ ps) addr end prot good)
walk_step m ps addr end hi prot good h c r rest =
    let i = contains-inside m addr h.1 c in
    subst (Walked (m ∷ ps) addr end prot good) (sym (walk_first m ps addr end prot good c)) (
      rw (page_end_lem m h.1) (elim (Bool-cases (leb end (m.addr + m.size))) [
        | inl here ↦
            rw here (
              Walked-here m ps addr end hi prot h i.0 i.1 r good
                (leb→le end (m.addr + m.size) here))
        | inr on ↦ rw on (rest (ground (arith, on)))
      ]))

-- The walk from the page of `addr`.
pub walk-Walked :
    (m : Page) (ps : List Page) (addr end hi prot : ℕ) (good : Bool)
    → IsRun m.addr (m ∷ ps) hi
    → NonEmpty (m ∷ ps)
    → contains m addr ≡ true
    → addr < end
    → Walked (m ∷ ps) addr end prot good (walk (m ∷ ps) addr end prot good)
unfolding walk cell
walk-Walked m [] addr end hi prot good h z c r =
    let i = contains-inside m addr h.1 c in
    walk_step m [] addr end hi prot good h c r (λ d.
      Walked-short m [] addr end hi prot h i.0 i.1 r good d
        (cell-behind m [] (m.addr + m.size) h.1 (omega arith)))
walk-Walked m (q ∷ qs) addr end hi prot good h z c r =
    let i = contains-inside m addr h.1 c in
    let a = m.addr + m.size in
    walk_step m (q ∷ qs) addr end hi prot good h c r (λ d. elim (Bool-cases (contains q a)) [
      | inl on ↦
          Walked-on m (q ∷ qs) addr end hi prot h i.0 i.1 r good
            (walk (q ∷ qs) a end prot (good && not (lacks prot m))) d
            (walk-Walked q qs a end hi prot (good && not (lacks prot m)) (omega arith, h.2.1, h.2.2)
              z.1 on d)
      | inr off ↦
          subst (Walked (m ∷ q ∷ qs) addr end prot good)
            (sym (walk_miss q qs a end prot (good && not (lacks prot m)) off))
            (Walked-short m (q ∷ qs) addr end hi prot h i.0 i.1 r good d
              (cell-behind m (q ∷ qs) a h.1 (omega arith) ∙ next_free q qs a hi h.2 z.1.0 off))
    ])
