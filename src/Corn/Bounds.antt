-- ===== src/Corn/Bounds.antt =====
-- go/usercorn.go: a dynamic binary is mapped where nothing was.
use usercorn.Base.{
  ℕ, ◌+◌, ◌-◌, ◌≤◌, ◌<◌, ◌^◌, ◌≡◌, ◌≢◌, refl, subst, true, false, List, [], ◌∷◌, Option, none, some,
  All, arith, add64, sub64,
}
use usercorn.Cpu.Page.{Page}
use usercorn.Cpu.Space.Parts.{within}
use usercorn.Models.Segment.{SegmentData}
use usercorn.Task.{Task, mem_reserve, hint, reserve_loop, align, last_page}
use usercorn.Task.Mappings.{IsMapping, covers}
use usercorn.Task.Reserve.{tried, Reserved, Taken, HasBytes, StaysInside, reserve_loop-Reserved}
use usercorn.Corn.Load.{bound, bound_all, bounds, map_low, reserve_bias, not_above, biased}

-- A segment does not reach the end of the address space.
abbrev pub Fits : SegmentData → Type 0
Fits s = s.addr + s.size < 2 ^ 64

-- A segment that is not empty is between the bounds.
abbrev Bounded : ℕ × ℕ → SegmentData → Type 0
Bounded (low, high) s = s.size ≢ 0 → (low ≤ s.addr) × (s.addr + s.size ≤ high)

-- Bounds that are at least as wide.
abbrev Wider : ℕ × ℕ → ℕ × ℕ → Type 0
Wider (l, h) (l', h') = (l' ≤ l) × (h ≤ h')

bound-Wider : (b : ℕ × ℕ) (s : SegmentData) → Wider b (bound b s)
unfolding bound
bound-Wider (l, h) s = ground arith

bound-Bounded : (b : ℕ × ℕ) (s : SegmentData) → Fits s → Bounded (bound b s) s
unfolding bound
bound-Bounded (l, h) s f n = ground arith

Bounded-Wider : (b c : ℕ × ℕ) (s : SegmentData) → Wider b c → Bounded b s → Bounded c s
Bounded-Wider (l, h) (l', h') s w f n = let g = f n in (omega (arith, w.0), omega (arith, w.1))

bound_all-Wider : (ss : List SegmentData) (b : ℕ × ℕ) → Wider b (bound_all b ss)
unfolding bound_all
bound_all-Wider [] (l, h) = (omega arith, omega arith)
bound_all-Wider (s ∷ ss) b =
    let first = bound-Wider b s in
    let rest = bound_all-Wider ss (bound b s) in
    (omega (arith, first.0, rest.0), omega (arith, first.1, rest.1))

bound_all-Bounded :
    (ss : List SegmentData) (b : ℕ × ℕ) → All Fits ss → All (Bounded (bound_all b ss)) ss
unfolding bound_all
bound_all-Bounded [] b f = tt
bound_all-Bounded (s ∷ ss) b f = (
  Bounded-Wider (bound b s) (bound_all (bound b s) ss) s (bound_all-Wider ss (bound b s))
      (bound-Bounded b s f.0),
  bound_all-Bounded ss (bound b s) f.1,
)

-- Rounded to pages, a range has at least its size.
align-size : (addr size : ℕ) → addr + size + 8192 < 2 ^ 64 → size ≤ (align addr size).1
unfolding align
align-size addr size h = omega arith

-- A segment of a binary that is moved so that `low` is at `p`.
moved :
    (p low high a z : ℕ)
    → low ≤ a
    → a + z ≤ high
    → p + (high - low) < 2 ^ 64
    → high < 2 ^ 64
    → add64 (sub64 p low) a ≡ p + (a - low)
moved p low high a z l u f g = omega arith

bound-high : (b : ℕ × ℕ) (s : SegmentData) → b.1 < 2 ^ 64 → (bound b s).1 < 2 ^ 64
unfolding bound
bound-high (l, h) s k = ground arith

bound_all-high : (ss : List SegmentData) (b : ℕ × ℕ) → b.1 < 2 ^ 64 → (bound_all b ss).1 < 2 ^ 64
unfolding bound_all
bound_all-high [] b k = k
bound_all-high (s ∷ ss) b k = bound_all-high ss (bound b s) (bound-high b s k)

not_above-Bounded : (b : ℕ × ℕ) (s : SegmentData) → Bounded b s → Bounded (not_above b) s
not_above-Bounded (l, h) s f n = let g = f n in ground (arith, g.0, g.1)

All-map :
    {P Q : SegmentData → Type 0}
    → ((s : SegmentData) → P s → Q s)
    → (ss : List SegmentData) → All P ss
    → All Q ss
All-map f [] h = tt
All-map f (s ∷ ss) h = (f s h.0, All-map f ss h.1)

bounds-Bounded : (ss : List SegmentData) → All Fits ss → All (Bounded (bounds ss)) ss
unfolding bounds
bounds-Bounded ss f =
    All-map (not_above-Bounded (bound_all (2 ^ 64 - 1, 0) ss)) ss
      (bound_all-Bounded ss (2 ^ 64 - 1, 0) f)

bounds-order : (ss : List SegmentData) → ((bounds ss).0 ≤ (bounds ss).1) × ((bounds ss).1 < 2 ^ 64)
unfolding bounds
bounds-order ss = let k = bound_all-high ss (2 ^ 64 - 1, 0) (omega arith) in (ground (arith, k), k)

-- Where a segment goes when `low` goes to `p`: onto addresses that no mapping has.
abbrev pub Placed : (ms : List Page) (low p bias : ℕ) → SegmentData → Type 0
Placed ms low p bias s =
    s.size ≢ 0
    → (add64 bias s.addr ≡ p + (s.addr - low))
      × ((x : ℕ)
          → within (add64 bias s.addr) (add64 bias s.addr + s.size) x ≡ true
          → covers ms x ≡ false)

inside :
    (p low high a z size x : ℕ)
    → low ≤ a
    → a + z ≤ high
    → high - low ≤ size
    → within (p + (a - low)) (p + (a - low) + z) x ≡ true
    → within p (p + size) x ≡ true
inside p low high a z size x l u k w = ground (arith, w)

placed :
    (ms : List Page) (low high p size : ℕ) (s : SegmentData)
    → high < 2 ^ 64
    → p + size < 2 ^ 64
    → high - low ≤ size
    → ((x : ℕ) → within p (p + size) x ≡ true → covers ms x ≡ false)
    → Bounded (low, high) s
    → Placed ms low p (sub64 p low) s
placed ms low high p size s g k z free b n =
    let in_bounds = b n in
    let at = moved p low high s.addr s.size in_bounds.0 in_bounds.1 (omega arith) g in
    (
      at,
      λ x w. free x (
          inside p low high s.addr s.size size x in_bounds.0 in_bounds.1 z
            (subst (λ a. within a (a + s.size) x ≡ true) at w)),
    )

-- The range that is asked for.
abbrev pub asked : (force : ℕ) → List SegmentData → ℕ × ℕ
asked force ss = align (map_low force (bounds ss).0) (sub64 (bounds ss).1 (bounds ss).0)

asked-size :
    (force : ℕ) (ss : List SegmentData)
    → map_low force (bounds ss).0 + (bounds ss).1 + 8192 < 2 ^ 64
    → (bounds ss).1 - (bounds ss).0 ≤ (asked force ss).1
asked-size force ss a =
    let (o, h) = bounds-order ss in
    let d : sub64 (bounds ss).1 (bounds ss).0 ≡ (bounds ss).1 - (bounds ss).0 =
      omega (arith, o, h) in
    let wide =
      align-size (map_low force (bounds ss).0) (sub64 (bounds ss).1 (bounds ss).0)
        (omega (arith, a, d)) in
    omega (arith, wide, d)

hint_low : (force low : ℕ) → hint (map_low force low) false ≡ map_low force low
hint_low force low = ground arith

-- What `reserve_bias` returns for a page that was found.
abbrev pub Moved : Task → (force : ℕ) → List SegmentData → Option (Task × Option ℕ) → Type 0
Moved t force ss none = ⊥
Moved t force ss (some (t', none)) =
    (t' ≡ t)
    × ((k : ℕ)
        → tried (asked force ss).0 k < last_page t.bits
        → Taken t.mem (tried (asked force ss).0 k) (asked force ss).1)
Moved t force ss (some (t', some bias)) =
    (t' ≡ t) × (p : ℕ) × All (Placed t.mem (bounds ss).0 p bias) ss

-- The load bias of a dynamic binary moves all of its segments by one distance, onto addresses that no
-- mapping has, and the task stays as it is; there is none only if each range that is tried, a page after
-- the other, has an address that is mapped. The segments are not all empty, no segment and no mapping
-- reaches the end of the address space, no mapping is empty, and either the last address leaves room for
-- the whole binary and one more page, as on fewer than 64 bits, or one of the ranges in the address space
-- is free; the fuel is the number of pages.
pub reserve_bias_lem :
    (fuel : ℕ) (t : Task) (force : ℕ) (ss : List SegmentData)
    → All Fits ss
    → All IsMapping t.mem
    → All HasBytes t.mem
    → (bounds ss).0 < (bounds ss).1
    → map_low force (bounds ss).0 + (bounds ss).1 + 8192 < 2 ^ 64
    → StaysInside t.mem (asked force ss).0 (last_page t.bits) (asked force ss).1
    → last_page t.bits ≤ tried (asked force ss).0 fuel
    → Moved t force ss (reserve_bias fuel t force ss)
unfolding reserve_bias mem_reserve
reserve_bias_lem fuel t force ss f m y z a l u =
    let wide = asked-size force ss a in
    rw (hint_low force (bounds ss).0) (
      found (reserve_loop fuel t.mem (asked force ss).0 (last_page t.bits) (asked force ss).1) (
        reserve_loop-Reserved fuel t.mem (asked force ss).0 (last_page t.bits) (asked force ss).1 m
          y (omega (arith, wide, z)) l u))
  where
    found :
        (r : Option Page)
        → Reserved t.mem (asked force ss).0 (last_page t.bits) (asked force ss).1 r
        → Moved t force ss (biased (bounds ss).0 (some (t, r)))
    found none h = (refl, h)
    found (some page) (k, e, below, fits, free, first) = rw e (
      refl,
      tried (asked force ss).0 k,
      All-map
          (λ s b.
            placed t.mem (bounds ss).0 (bounds ss).1 (tried (asked force ss).0 k) (asked force ss).1
              s (bounds-order ss).1 fits (asked-size force ss a) free b)
          ss (bounds-Bounded ss f),
    )
