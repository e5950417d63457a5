-- ===== src/Cpu/Space/Reads.antt =====
-- go/models/cpu/memsim.go: the loop of `Read`, against the abstract memory.
use usercorn.Base.{zero, suc, Option-cases, suc}
use usercorn.Base.{ltb→lt}
use usercorn.Base.{
  ℕ, ◌+◌, ◌-◌, ◌≤◌, ◌<◌, ◌^◌, ◌≡◌, ◌≢◌, refl, ◌∙◌, ap, sym, inl, inr, true, List, [], ◌∷◌, ◌++◌,
  Option, none, some, All, length, take, drop, min, get_elem?, arith, Bool-cases, add64, sub64, ltb,
  length-take, length-drop, get_elem?-take, get_elem?-drop,
}
use usercorn.Cpu.Page.{Page, contains}
use usercorn.Cpu.MemSim.{read_loop}
use usercorn.Cpu.Space.{IsPage, IsRun, cell, cell_in, or_else, cell-below}
use usercorn.Cpu.Space.Change.{cell_in-outside}

abbrev pub byte_at : Option (ℕ × ℕ) → Option ℕ
byte_at none = none
byte_at (some (b, prot)) = some b

pub get_elem?-left :
    (xs ys : List ℕ) (k : ℕ) → k < length xs → get_elem? (xs ++ ys) k ≡ get_elem? xs k
get_elem?-left [] ys k h = absurd (omega arith)
get_elem?-left (x ∷ xs) ys zero h = refl
get_elem?-left (x ∷ xs) ys (suc k) h = get_elem?-left xs ys k (omega arith)

pub get_elem?-right :
    (xs ys : List ℕ) (k n : ℕ)
    → length xs ≡ n
    → n ≤ k
    → get_elem? (xs ++ ys) k ≡ get_elem? ys (k - n)
get_elem?-right [] ys k n e h = ap (get_elem? ys) (omega arith)
get_elem?-right (x ∷ xs) ys zero n e h = absurd (omega arith)
get_elem?-right (x ∷ xs) ys (suc k) n e h =
    get_elem?-right xs ys k (length xs) refl (omega arith) ∙ ap (get_elem? ys) (omega arith)

-- No page is empty.
abbrev pub NonEmpty : List Page → Type 0
NonEmpty ps = All (λ (p : Page). 0 < p.size) ps

byte_in :
    (m : Page) (a : ℕ)
    → IsPage m
    → m.addr ≤ a
    → a < m.addr + m.size
    → byte_at (cell_in m a) ≡ get_elem? m.bytes (a - m.addr)
unfolding cell_in contains
byte_in m a h l u = elim (Option-cases (get_elem? m.bytes (a - m.addr))) [
  | inl e ↦ ground (arith, h.fits, l, u, e)
  | inr (b, e) ↦ ground (arith, h.fits, l, u, e)
]

-- The first page of a run has its first address, if that is mapped.
pub first_contains :
    (m : Page) (ps : List Page) (a hi : ℕ)
    → IsRun a (m ∷ ps) hi
    → 0 < m.size
    → cell (m ∷ ps) a ≢ none
    → contains m a ≡ true
unfolding contains
first_contains m ps a hi h z e = elim (Bool-cases (ltb a m.addr)) [
  | inl below ↦ absurd (
      e (
        cell-below (m ∷ ps) m.addr hi a (omega arith, h.1, h.2)
          (omega (arith, ltb→lt a m.addr below))))
  | inr at ↦ ground (arith, at, h.0, h.1.fits, z)
]

pub contains-inside :
    (m : Page) (a : ℕ) → IsPage m → contains m a ≡ true → (m.addr ≤ a) × (a < m.addr + m.size)
unfolding contains
contains-inside m a h e = ground (arith, h.fits)

pub or_none : (x : Option (ℕ × ℕ)) → or_else x none ≡ x
or_none none = refl
or_none (some x) = refl

pub cell-inside :
    (m : Page) (ps : List Page) (a hi : ℕ)
    → IsRun m.addr (m ∷ ps) hi
    → a < m.addr + m.size
    → cell (m ∷ ps) a ≡ cell_in m a
unfolding cell
cell-inside m ps a hi h u = rw (cell-below ps (m.addr + m.size) hi a h.2 u) (or_none (cell_in m a))

pub cell-behind :
    (m : Page) (ps : List Page) (a : ℕ)
    → IsPage m
    → m.addr + m.size ≤ a
    → cell (m ∷ ps) a ≡ cell ps a
unfolding cell
cell-behind m ps a h l = rw (cell_in-outside m a h (ground (arith, l))) refl

read_loop-cons :
    (m : Page) (ps : List Page) (addr n : ℕ) (p : List ℕ)
    → IsPage m
    → contains m addr ≡ true
    → addr + length p < 2 ^ 64
    → n ≡ min (length p) (length m.bytes - (addr - m.addr))
    → read_loop (m ∷ ps) addr p
      ≡ take n (drop (addr - m.addr) m.bytes) ++ read_loop ps (addr + n) (drop n p)
unfolding read_loop
read_loop-cons m ps addr n p h c b e =
    let i = contains-inside m addr h c in
    let o : sub64 addr m.addr ≡ addr - m.addr = omega (arith, i, h.fits) in
    let next : add64 addr n ≡ addr + n = omega arith in rw (c, o, sym e, next)

read_page :
    (m : Page) (ps : List Page) (hi addr k n : ℕ) (p rest : List ℕ)
    → IsRun m.addr (m ∷ ps) hi
    → m.addr ≤ addr
    → addr + k < m.addr + m.size
    → k < length p
    → n ≡ min (length p) (length m.bytes - (addr - m.addr))
    → get_elem? (take n (drop (addr - m.addr) m.bytes) ++ rest) k
      ≡ byte_at (cell (m ∷ ps) (addr + k))
read_page m ps hi addr k n p rest h l u j e =
    let o = addr - m.addr in
    let filled = h.1.filled in
    let len = length-take n (drop o m.bytes) in
    let len' = length-drop o m.bytes in
    get_elem?-left (take n (drop o m.bytes)) rest k (omega (arith, len, len', filled, e))
    ∙ (get_elem?-take n k (drop o m.bytes) (omega (arith, filled, e))
        ∙ (get_elem?-drop o k m.bytes
            ∙ (ap (get_elem? m.bytes) (omega arith)
                ∙ (sym (byte_in m (addr + k) h.1 (omega arith) u)
                    ∙ ap byte_at (sym (cell-inside m ps (addr + k) hi h u))))))

-- Behind the first page, whose end the loop has reached after `n` bytes.
read_behind :
    (m : Page) (ps : List Page) (hi addr k n : ℕ) (rest : List ℕ)
    → IsPage m
    → m.addr ≤ addr
    → addr + n ≡ m.addr + m.size
    → n ≤ k
    → get_elem? rest (k - n) ≡ byte_at (cell ps (addr + n + (k - n)))
    → get_elem? (take n (drop (addr - m.addr) m.bytes) ++ rest) k
      ≡ byte_at (cell (m ∷ ps) (addr + k))
read_behind m ps hi addr k n rest h l e j r =
    let o = addr - m.addr in
    let filled = h.filled in
    let len = length-take n (drop o m.bytes) in
    let len' = length-drop o m.bytes in
    get_elem?-right (take n (drop o m.bytes)) rest k n (omega (arith, len, len', filled)) j
    ∙ (r
        ∙ (ap (λ a. byte_at (cell ps a)) (omega arith)
            ∙ ap byte_at (sym (cell-behind m ps (addr + k) h (omega arith)))))

-- What the loop copies out of the first page.
abbrev room : Page → ℕ → List ℕ → ℕ
room m addr p = min (length p) (length m.bytes - (addr - m.addr))

-- One page, where the rest of the loop is right.
read_step :
    (m : Page) (ps : List Page) (hi addr k n : ℕ) (p : List ℕ)
    → IsRun m.addr (m ∷ ps) hi
    → contains m addr ≡ true
    → addr + length p < 2 ^ 64
    → k < length p
    → n ≡ room m addr p
    → (addr + n ≡ m.addr + m.size
        → m.addr + m.size ≤ addr + k
        → get_elem? (read_loop ps (addr + n) (drop n p)) (k - n)
          ≡ byte_at (cell ps (addr + n + (k - n))))
    → get_elem? (read_loop (m ∷ ps) addr p) k ≡ byte_at (cell (m ∷ ps) (addr + k))
read_step m ps hi addr k n p h c b l e r =
    let i = contains-inside m addr h.1 c in
    let filled = h.1.filled in
    ap (λ xs. get_elem? xs k) (read_loop-cons m ps addr n p h.1 c b e)
    ∙ elim (Bool-cases (ltb (addr + k) (m.addr + m.size))) [
      | inl inside ↦
          read_page m ps hi addr k n p (read_loop ps (addr + n) (drop n p)) h i.0
            (ltb→lt (addr + k) (m.addr + m.size) inside) l e
      | inr past ↦
          let out : m.addr + m.size ≤ addr + k = ground (arith, past) in
          let full : addr + n ≡ m.addr + m.size = omega (arith, filled) in
          read_behind m ps hi addr k n (read_loop ps (addr + n) (drop n p)) h.1 i.0 full
            (omega arith) (r full out)
    ]

-- Where the addresses up to `addr + k` are mapped, the loop of `Read` that starts at the page of
-- `addr` puts into the buffer at `k` the byte of `addr + k`. The pages are well formed and not empty,
-- and the buffer does not reach the end of the address space.
pub read_loop-cell :
    (m : Page) (ps : List Page) (hi addr k : ℕ) (p : List ℕ)
    → IsRun m.addr (m ∷ ps) hi
    → NonEmpty (m ∷ ps)
    → contains m addr ≡ true
    → addr + length p < 2 ^ 64
    → k < length p
    → ((j : ℕ) → j ≤ k → cell (m ∷ ps) (addr + j) ≢ none)
    → get_elem? (read_loop (m ∷ ps) addr p) k ≡ byte_at (cell (m ∷ ps) (addr + k))
unfolding cell
read_loop-cell m [] hi addr k p h z c b l u =
    read_step m [] hi addr k (room m addr p) p h c b l refl
      (λ full out. absurd (u k (omega arith) (cell-behind m [] (addr + k) h.1 out)))
read_loop-cell m (q ∷ qs) hi addr k p h z c b l u =
    let n = room m addr p in
    read_step m (q ∷ qs) hi addr k n p h c b l refl (λ full out.
      let len = length-drop n p in
      let run : IsRun (addr + n) (q ∷ qs) hi = (omega (arith, h.2.0), h.2.1, h.2.2) in
      let used : (j : ℕ) → j ≤ k - n → cell (q ∷ qs) (addr + n + j) ≢ none = λ j g e.
        u (n + j) (omega (arith, g)) (
          ap (cell (m ∷ q ∷ qs)) (omega arith)
          ∙ (cell-behind m (q ∷ qs) (addr + n + j) h.1 (omega arith) ∙ e)) in
      let head =
        first_contains q qs (addr + n) hi run z.1.0
          (λ e. used 0 (omega arith) (ap (cell (q ∷ qs)) (omega arith) ∙ e)) in
      read_loop-cell q qs hi (addr + n) (k - n) (drop n p) (omega arith, h.2.1, h.2.2) z.1 head
        (omega (arith, len)) (omega (arith, len)) used)
