-- ===== src/Cpu/Space/Parts.antt =====
-- `slice` and `split` on a range inside a page: each part has the bytes of the page at its addresses.
use usercorn.Base.{some, ◌&&◌}
use usercorn.Base.{none}
use usercorn.Cpu.Page.{contains}
use usercorn.Base.{leb}
use usercorn.Cpu.Space.{cell_in}
use usercorn.Base.{Bool}
use usercorn.Base.{ap}
use usercorn.Base.{
  ℕ, ◌+◌, ◌-◌, ◌≤◌, ◌<◌, ◌≡◌, ◌∙◌, Option, length, get_elem?, drop, ltb, if◌then◌else◌, arith,
  sub64, add64, get_elem?-take, get_elem?-drop, length-take, length-drop,
}
use usercorn.Cpu.Page.{Page, page_end, slice, split, cut_right}
use usercorn.Cpu.Space.{IsPage}

pub record IsPart (p q : Page) : Type 0 where
  pub low : p.addr ≤ q.addr
  pub high : q.addr + q.size ≤ p.addr + p.size
  pub filled : length q.bytes ≡ q.size
  pub same : (i : ℕ) → i < q.size → get_elem? q.bytes i ≡ get_elem? p.bytes (q.addr - p.addr + i)

module _ (p : Page) (h : IsPage p) (s n : ℕ) (low : p.addr ≤ s)
    (high : s + n ≤ p.addr + p.size) where
  slice-IsPart : IsPart p (slice p s n)
  unfolding slice
  slice-IsPart = record {
    low = low;
    high = high;
    filled = omega (
      arith,
      h.fits,
      h.filled,
      length-take n (drop (sub64 s p.addr) p.bytes),
      length-drop (sub64 s p.addr) p.bytes,
    );
    same = λ i l.
        get_elem?-take n i (drop (sub64 s p.addr) p.bytes) l
        ∙ get_elem?-drop (sub64 s p.addr) i p.bytes
        ∙ ap (λ k. get_elem? p.bytes (k + i)) (omega (arith, h.fits));
  }

module _ (p : Page) (h : IsPage p) (s n : ℕ) (low : p.addr ≤ s)
    (high : s + n ≤ p.addr + p.size) where
  -- What is left when the right part is cut off.
  abbrev pub rest : Page
  rest = if ltb (add64 s n) (page_end p) then cut_right p (add64 s n) else p

  length-rest : length rest.bytes ≡ s + n - p.addr
  length-rest = ground (arith, h.fits, h.filled, length-take (sub64 (add64 s n) p.addr) p.bytes)

  rest_same : (i : ℕ) → p.addr + i < s + n → get_elem? rest.bytes i ≡ get_elem? p.bytes i
  rest_same i l = ground (arith, h.fits, get_elem?-take (sub64 (add64 s n) p.addr) i p.bytes)

  pub mid-IsPart : IsPart p (split p s n).mid
  unfolding split
  mid-IsPart = record {
    low = low;
    high = high;
    filled = ground (arith, h.fits, length-rest, length-drop (sub64 s p.addr) rest.bytes);
    same = λ i l.
        ground
          (arith, h.fits, rest_same (s - p.addr + i), get_elem?-drop (sub64 s p.addr) i rest.bytes);
  }

  pub left-IsPart : IsPart p (slice rest p.addr (sub64 s p.addr))
  unfolding slice
  left-IsPart = record {
    low = omega arith;
    high = omega (arith, h.fits);
    filled = ground (
      arith,
      h.fits,
      length-rest,
      length-take (sub64 s p.addr) (drop (sub64 p.addr p.addr) rest.bytes),
      length-drop (sub64 p.addr p.addr) rest.bytes,
    );
    same = λ i l. ground (
      arith,
      h.fits,
      rest_same i,
      get_elem?-take (sub64 s p.addr) i (drop (sub64 p.addr p.addr) rest.bytes),
      get_elem?-drop (sub64 p.addr p.addr) i rest.bytes,
    );
  }

  pub right-IsPart : IsPart p (slice p (add64 s n) (sub64 (page_end p) (add64 s n)))
  right-IsPart =
      slice-IsPart p h (add64 s n) (sub64 (page_end p) (add64 s n)) (omega (arith, h.fits))
        (omega (arith, h.fits))

-- Whether an address is in a range that does not wrap.
abbrev pub within : ℕ → ℕ → ℕ → Bool
within lo hi a = leb lo a && ltb a hi

-- A cell under another protection.
abbrev pub with_prot : ℕ → Option (ℕ × ℕ) → Option (ℕ × ℕ)
with_prot prot none = none
with_prot prot (some (b, old)) = some (b, prot)

-- What a part of a page maps.
pub cell_in-part :
    (p q : Page) (a : ℕ)
    → IsPage p
    → IsPart p q
    → cell_in q a
      ≡ (if within q.addr (q.addr + q.size) a then with_prot q.prot (cell_in p a) else none)
unfolding cell_in contains
cell_in-part p q a h k = ground (arith, h.fits, k.low, k.high, k.same (a - q.addr))

pub cell_in-IsPart :
    (p q : Page) (a : ℕ)
    → IsPage p
    → IsPart p q
    → q.prot ≡ p.prot
    → cell_in q a ≡ (if within q.addr (q.addr + q.size) a then cell_in p a else none)
unfolding cell_in contains
cell_in-IsPart p q a h k e = ground (arith, h.fits, k.low, k.high, k.same (a - q.addr))
