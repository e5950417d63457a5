-- ===== src/Models/Loop/Ring.antt =====
-- `Loop`, the ring. A ring of length 0 is not made: `Inc` would divide by it.
use native.Mathlib.Nat.{mod-lt}
use usercorn.Base.{
  ℕ, zero, suc, ◌+◌, ◌-◌, ◌*◌, ◌%◌, ◌<◌, ◌≡◌, refl, ap, List, [], ◌∷◌, length, replicate, ltb,
  if◌then◌else◌, arith,
}

pub record Loop : Type 0 where
  pub loop : List ℕ
  pub index : ℕ
  pub filled : ℕ

unfoldable pub new_loop : ℕ → Loop
new_loop n = record { loop = replicate n 0; index = 0; filled = 0 }

unfoldable pub inc : Loop → Loop
inc l = record l {
  filled = if ltb l.filled l.index then l.index else l.filled;
  index = (l.index + 1) % length l.loop;
}

-- `l.Loop[i] = v`
abbrev pub store : List ℕ → ℕ → ℕ → List ℕ
store [] i v = []
store (x ∷ xs) zero v = v ∷ xs
store (x ∷ xs) (suc i) v = x ∷ store xs i v

-- `l.Loop[i]`, which is in bounds while the index is.
abbrev pub at : List ℕ → ℕ → ℕ
at [] i = 0
at (x ∷ xs) zero = x
at (x ∷ xs) (suc i) = at xs i

unfoldable pub push : Loop → ℕ → Loop
unfolding inc
push l n = inc (record l { loop = store l.loop l.index n })

unfoldable pub next : Loop → Loop × ℕ
unfolding inc
next l = (inc l, at l.loop l.index)

-- Where entry `i` of `Ring(start, …)` comes from, with `back` for 1 - start, so that the source's
-- `l.Index - 1 + start + i` is index + i - back. Its `%` may be negative, and the loop behind it adds
-- the length until it is not: together they reduce modulo the length.
abbrev pub ring_index : Loop → (back i : ℕ) → ℕ
ring_index l back i = let n = length l.loop in (l.index + i + n * back - back) % n

-- The entries from `i` on, of at most `left`. An index above `filled` shortens the result by one
-- entry at its end, and is tried again.
unfoldable pub ring_loop : Loop → (back i left : ℕ) → List ℕ
ring_loop l back i zero = []
ring_loop l back i (suc left) =
    let idx = ring_index l back i in
    let skipped = ring_loop l back i left in
    let taken = ring_loop l back (i + 1) left in
    if ltb l.filled idx then skipped else at l.loop idx ∷ taken

-- `l.Ring(1 - back, dst)` with `n` entries in `dst`.
unfoldable pub ring : Loop → (back n : ℕ) → List ℕ
ring l back n = ring_loop l back 0 n

pub record IsValid (l : Loop) : Type 0 where
  pub index_fits : l.index < length l.loop
  pub filled_fits : l.filled < length l.loop

pub length-store : (xs : List ℕ) (i v : ℕ) → length (store xs i v) ≡ length xs
length-store [] i v = refl
length-store (x ∷ xs) zero v = refl
length-store (x ∷ xs) (suc i) v = ap suc (length-store xs i v)

inc-IsValid : (l : Loop) → IsValid l → IsValid (inc l)
unfolding inc
inc-IsValid l v = record {
  index_fits = mod-lt (l.index + 1) (omega (arith, v.index_fits));
  filled_fits = ground (arith, v.index_fits, v.filled_fits);
}

-- Every operation on a ring keeps its index and its fill mark within it, so that no access to the
-- ring is out of bounds.
pub ring-IsValid :
    (l : Loop) (n : ℕ)
    → IsValid l
    → IsValid (push l n) × IsValid (next l).0 × ((back i : ℕ) → ring_index l back i < length l.loop)
unfolding push next
ring-IsValid l n v = (
  inc-IsValid (record l { loop = store l.loop l.index n })
      (record {
        index_fits = omega (arith, v.index_fits, length-store l.loop l.index n);
        filled_fits = omega (arith, v.filled_fits, length-store l.loop l.index n);
      }),
  inc-IsValid l v,
  λ back i. mod-lt (l.index + i + length l.loop * back - back) (omega (arith, v.index_fits)),
)
