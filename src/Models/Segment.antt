-- ===== src/Models/Segment.antt =====
-- go/models/segment.go: half-open ranges of addresses.
use usercorn.Base.{◌⊎◌}
use usercorn.Base.{
  ℕ, ◌≤◌, ◌<◌, ◌≡◌, Bool, true, ◌&&◌, ◌||◌, ltb, leb, if◌then◌else◌, arith, add64, max, ◌↔◌,
}

pub record SegmentData : Type 0 where
  pub off : ℕ
  pub addr : ℕ
  pub size : ℕ
  pub prot : ℕ

unfoldable pub contains_phys : SegmentData → ℕ → Bool
contains_phys s a = leb s.off a && ltb a (add64 s.off s.size)

unfoldable pub contains_virt : SegmentData → ℕ → Bool
contains_virt s a = leb s.addr a && ltb a (add64 s.addr s.size)

pub record Segment : Type 0 where
  pub start : ℕ
  pub end : ℕ
  pub prot : ℕ

unfoldable pub overlaps : Segment → Segment → Bool
overlaps s o = leb o.start s.start && ltb s.start o.end || leb s.start o.start && ltb o.start s.end

-- `s.Merge(o)`, the new `s`.
unfoldable pub merge : Segment → Segment → Segment
merge s o = record s {
  start = if ltb o.start s.start then o.start else s.start;
  end = if ltb s.end o.end then o.end else s.end;
}

abbrev pub Inside : ℕ → Segment → Type 0
Inside a s = (s.start ≤ a) × (a < s.end)

-- Two segments that are not empty overlap exactly if some address is in both; then their merge has
-- exactly the addresses of the two.
pub overlaps-merge :
    (s o : Segment)
    → s.start < s.end
    → o.start < o.end
    → ((overlaps s o ≡ true) ↔ ((a : ℕ) × Inside a s × Inside a o))
      × (overlaps s o ≡ true → (a : ℕ) → Inside a (merge s o) → Inside a s ⊎ Inside a o)
      × ((a : ℕ) → Inside a s ⊎ Inside a o → Inside a (merge s o))
unfolding overlaps merge
overlaps-merge s o hs ho = (
  (λ e. (max s.start o.start, ground arith, ground arith), λ e. ground (arith, e.1, e.2)),
  λ e a i. ground arith,
  λ a i. ground arith,
)
