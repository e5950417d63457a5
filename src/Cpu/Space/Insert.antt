-- ===== src/Cpu/Space/Insert.antt =====
-- go/models/cpu/memsim.go: the sorting in `Map`, which puts a page into a run.
use usercorn.Base.{le→ltb}
use usercorn.Cpu.Space.Reads.{or_none}
use usercorn.Base.{max}
use usercorn.Base.{ltb→lt}
use usercorn.Base.{ltb→le}
use usercorn.Base.{◌≢◌}
use usercorn.Base.{All}
use usercorn.Base.{
  ℕ, ◌+◌, ◌≤◌, ◌<◌, ◌≡◌, ◌⊎◌, refl, ◌∙◌, ap, sym, inl, inr, true, false, List, [], ◌∷◌, ◌++◌,
  Option, none, some, arith, Bool-cases, ltb, if◌then◌else◌,
}
use usercorn.Cpu.Page.{Page}
use usercorn.Cpu.MemSim.{insert_page, sort}
use usercorn.Cpu.Space.{IsPage, IsRun, cell, cell_in, or_else}
use usercorn.Cpu.Space.Parts.{within}
use usercorn.Cpu.Space.Change.{cell_in-outside}
use usercorn.Cpu.Space.Reads.{NonEmpty, cell-behind}
use usercorn.Cpu.Space.Valid.{cell-first}

-- Nothing is mapped in a range.
abbrev pub Free : List Page → ℕ → ℕ → Type 0
Free ps a e = (x : ℕ) → a ≤ x → x < e → cell ps x ≡ none

-- Every page starts above an address.
abbrev Above : ℕ → List Page → Type 0
Above a ps = All (λ (p : Page). a < p.addr) ps

run-Above : (ps : List Page) (lo hi a : ℕ) → IsRun lo ps hi → NonEmpty ps → a < lo → Above a ps
run-Above [] lo hi a h z l = tt
run-Above (p ∷ ps) lo hi a h z l =
    (omega arith, run-Above ps (p.addr + p.size) hi a h.2 z.1 (omega arith))

insert_lowest : (q : Page) (ps : List Page) → Above q.addr ps → insert_page q ps ≡ q ∷ ps
unfolding insert_page
insert_lowest q [] h = refl
insert_lowest q (p ∷ ps) h = ground (arith, h.0)

insert-Above :
    (a : ℕ) (q : Page) (ps : List Page) → a < q.addr → Above a ps → Above a (insert_page q ps)
unfolding insert_page
insert-Above a q [] l h = (l, tt)
insert-Above a q (p ∷ ps) l h = elim (Bool-cases (ltb q.addr p.addr)) [
  | inl lower ↦ rw lower (l, h)
  | inr higher ↦ rw higher (h.0, insert-Above a q ps l h.1)
]

-- Sorting a run with one more page at its end puts the page in its place.
pub sort_run :
    (ps : List Page) (pg : Page) (lo hi : ℕ)
    → IsRun lo ps hi
    → NonEmpty ps
    → All (λ (p : Page). p.addr ≢ pg.addr) ps
    → sort (ps ++ (pg ∷ [])) ≡ insert_page pg ps
unfolding sort
sort_run [] pg lo hi h z d = unfold insert_page in refl
sort_run (q ∷ qs) pg lo hi h z d =
    let above = run-Above qs (q.addr + q.size) hi q.addr h.2 z.1 (omega (arith, z.0)) in
    ap (insert_page q) (sort_run qs pg (q.addr + q.size) hi h.2 z.1 d.1)
    ∙ elim (Bool-cases (ltb pg.addr q.addr)) [
      | inl lower ↦
          let l = ltb→lt pg.addr q.addr lower in
          let all = run-Above qs (q.addr + q.size) hi pg.addr h.2 z.1 (omega arith) in
          let not_first : ltb q.addr pg.addr ≡ false = le→ltb q.addr pg.addr (omega arith) in
          ap (insert_page q) (insert_lowest pg qs all)
          ∙ unfold insert_page in rw (lower, not_first) (ap (◌∷◌ pg) (insert_lowest q qs above))
      | inr higher ↦
          let l : q.addr < pg.addr = omega (arith, d.0, ltb→le pg.addr q.addr higher) in
          insert_lowest q (insert_page pg qs) (insert-Above q.addr pg qs l above)
          ∙ unfold insert_page in sym (rw higher refl)
    ]

-- A page of a run that a free range does not touch.
apart :
    (q : Page) (qs : List Page) (a e hi : ℕ)
    → IsRun q.addr (q ∷ qs) hi
    → 0 < q.size
    → a < e
    → Free (q ∷ qs) a e
    → (e ≤ q.addr) ⊎ (q.addr + q.size ≤ a)
apart q qs a e hi h z l f = elim (Bool-cases (ltb q.addr e)) [
  | inr above ↦ inl (ltb→le q.addr e above)
  | inl below ↦ elim (Bool-cases (ltb a (q.addr + q.size))) [
    | inr behind ↦ inr (ltb→le a (q.addr + q.size) behind)
    | inl meets ↦
        let x = max a q.addr in
        let b = ltb→lt q.addr e below in
        let m = ltb→lt a (q.addr + q.size) meets in
        let (c, _, used) = cell-first q qs x hi h (omega arith) (omega (arith, m)) in
        absurd (let free = f x (omega arith) (omega (arith, b)) in cc)
  ]
]

Free-tail :
    (q : Page) (qs : List Page) (a e : ℕ)
    → IsPage q
    → q.addr + q.size ≤ a
    → Free (q ∷ qs) a e
    → Free qs a e
Free-tail q qs a e h l f x i j = sym (cell-behind q qs x h (omega arith)) ∙ f x i j

or_first : (c d : Option (ℕ × ℕ)) → or_else c d ≡ none → c ≡ none
or_first none d e = refl
or_first (some c) d e = cc

-- A page in a free range of a run.
module _ (pg : Page) (k : IsPage pg) (s : 0 < pg.size) where
  pub insert-IsRun :
      (ps : List Page) (lo hi : ℕ)
      → IsRun lo ps hi
      → NonEmpty ps
      → lo ≤ pg.addr
      → pg.addr + pg.size ≤ hi
      → Free ps pg.addr (pg.addr + pg.size)
      → IsRun lo (insert_page pg ps) hi
  unfolding insert_page
  insert-IsRun [] lo hi h z l u f = (l, k, u)
  insert-IsRun (q ∷ qs) lo hi h z l u f =
      let own : IsRun q.addr (q ∷ qs) hi = (omega arith, h.1, h.2) in
      elim (Bool-cases (ltb pg.addr q.addr)) [
        | inl lower ↦
            let lt = ltb→lt pg.addr q.addr lower in
            rw lower (elim (apart q qs pg.addr (pg.addr + pg.size) hi own z.0 (omega arith) f) [
              | inl above ↦ (l, k, (above, h.1, h.2))
              | inr behind ↦ absurd (omega arith)
            ])
        | inr higher ↦
            let le = ltb→le pg.addr q.addr higher in
            rw higher (elim (apart q qs pg.addr (pg.addr + pg.size) hi own z.0 (omega arith) f) [
              | inl above ↦ absurd (omega arith)
              | inr behind ↦ (
                h.0,
                h.1,
                insert-IsRun qs (q.addr + q.size) hi h.2 z.1 behind u
                    (Free-tail q qs pg.addr (pg.addr + pg.size) h.1 behind f),
              )
            ])
      ]

  or_within :
      (x : ℕ) (c : Option (ℕ × ℕ))
      → (within pg.addr (pg.addr + pg.size) x ≡ true → c ≡ none)
      → or_else (cell_in pg x) c
        ≡ (if within pg.addr (pg.addr + pg.size) x then cell_in pg x else c)
  or_within x c h = elim (Bool-cases (within pg.addr (pg.addr + pg.size) x)) [
    | inl w ↦ rw (w, h w) (or_none (cell_in pg x))
    | inr o ↦ rw (o, cell_in-outside pg x k o) refl
  ]

  pub insert-cell :
      (ps : List Page) (lo hi x : ℕ)
      → IsRun lo ps hi
      → NonEmpty ps
      → Free ps pg.addr (pg.addr + pg.size)
      → cell (insert_page pg ps) x
        ≡ (if within pg.addr (pg.addr + pg.size) x then cell_in pg x else cell ps x)
  unfolding insert_page cell
  insert-cell [] lo hi x h z f = or_within x none (λ w. refl)
  insert-cell (q ∷ qs) lo hi x h z f =
      let own : IsRun q.addr (q ∷ qs) hi = (omega arith, h.1, h.2) in
      elim (Bool-cases (ltb pg.addr q.addr)) [
        | inl lower ↦
            rw lower
              (or_within x (cell (q ∷ qs) x) (λ w. f x (ground (arith, w)) (ground (arith, w))))
        | inr higher ↦
            let le = ltb→le pg.addr q.addr higher in
            rw higher (elim (apart q qs pg.addr (pg.addr + pg.size) hi own z.0 (omega arith) f) [
              | inl above ↦ absurd (omega arith)
              | inr behind ↦
                  let rest =
                    insert-cell qs (q.addr + q.size) hi x h.2 z.1
                      (Free-tail q qs pg.addr (pg.addr + pg.size) h.1 behind f) in
                  ap (or_else (cell_in q x)) rest
                  ∙ elim (Bool-cases (within pg.addr (pg.addr + pg.size) x)) [
                    | inl w ↦
                        let free =
                          or_first (cell_in q x) (cell qs x)
                            (f x (ground (arith, w)) (ground (arith, w))) in
                        rw (w, free) refl
                    | inr o ↦ rw o refl
                  ]
            ])
      ]

run_differs :
    (ps : List Page) (lo hi a : ℕ)
    → IsRun lo ps hi
    → NonEmpty ps
    → a < lo
    → All (λ (p : Page). p.addr ≢ a) ps
run_differs [] lo hi a h z l = tt
run_differs (q ∷ qs) lo hi a h z l =
    (λ same. omega (arith, same), run_differs qs (q.addr + q.size) hi a h.2 z.1 (omega arith))

-- A free range starts at no page.
pub differs :
    (ps : List Page) (lo hi a e : ℕ)
    → IsRun lo ps hi
    → NonEmpty ps
    → a < e
    → Free ps a e
    → All (λ (p : Page). p.addr ≢ a) ps
differs [] lo hi a e h z l f = tt
differs (q ∷ qs) lo hi a e h z l f =
    let own : IsRun q.addr (q ∷ qs) hi = (omega arith, h.1, h.2) in
    elim (apart q qs a e hi own z.0 l f) [
      | inl above ↦
          (λ same. omega (arith, same), run_differs qs (q.addr + q.size) hi a h.2 z.1 (omega arith))
      | inr behind ↦ (
        λ same. omega (arith, same, z.0),
        differs qs (q.addr + q.size) hi a e h.2 z.1 l (Free-tail q qs a e h.1 behind f),
      )
    ]
