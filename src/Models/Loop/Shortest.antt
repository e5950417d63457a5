-- ===== src/Models/Loop/Shortest.antt =====
-- `LoopDetect.Detect` in terms of the addresses that it has been told.
use usercorn.Base.{
  ℕ, ◌+◌, ◌-◌, ◌*◌, ◌/◌, ◌≤◌, ◌<◌, ◌≡◌, sym, ap, ◌∙◌, subst, ◌↔◌, List, length, take, drop, Option,
  none, some, min, arith, length-take, length-drop,
}
use usercorn.Models.Loop.Ring.{Loop, ring}
use usercorn.Models.Loop.History.{Holds, remember, ring_lem, fresh-Holds}
use usercorn.Models.Loop.Detect.{LoopDetect, detect, Repeats, Shortest, detect-Shortest}

-- The last `k` addresses are the `k` before them once more.
abbrev pub RepeatsAtEnd : List ℕ → ℕ → Type 0
RepeatsAtEnd xs k = take k (drop (length xs - k) xs) ≡ take k (drop (length xs - k * 2) xs)

-- The shortest such run of at most `most` addresses.
abbrev pub ShortestRun : List ℕ → (most : ℕ) → Option Loop → Type 0
ShortestRun xs most none = (k : ℕ) → 0 < k → k ≤ most → ¬ RepeatsAtEnd xs k
ShortestRun xs most (some loop) =
    (k : ℕ) × (0 < k)
    × (k ≤ most)
    × RepeatsAtEnd xs k
    × (loop ≡ record { loop = take k (drop (length xs - k) xs); index = 0; filled = 0 })
    × ((j : ℕ) → 0 < j → j < k → ¬ RepeatsAtEnd xs j)

module _ (n : ℕ) (h : Loop) (xs : List ℕ) (z : 0 < n) (held : Holds n h xs) where
  module _ (k : ℕ) (l : k * 2 ≤ min (length xs) n) where
    newest : ring h k k ≡ take k (drop (length xs - k) xs)
    newest = ring_lem n h xs z held k k (omega (arith, l)) (omega (arith, l)) (omega arith)

    before : ring h (k * 2) k ≡ take k (drop (length xs - k * 2) xs)
    before = ring_lem n h xs z held (k * 2) k (omega (arith, l)) (omega (arith, l)) (omega arith)

    Repeats-iff : (0 < k) → Repeats h k ↔ RepeatsAtEnd xs k
    Repeats-iff positive = (
      λ r. sym newest ∙ r.0 ∙ before,
      λ r. (
        newest ∙ r ∙ sym before,
        ap length newest
            ∙ omega
                (arith, l, length-take k (drop (length xs - k) xs), length-drop (length xs - k) xs),
        positive,
      ),
    )

  -- In terms of the addresses.
  ShortestRun-Shortest :
      (most : ℕ) (o : Option Loop)
      → most * 2 ≤ min (length xs) n
      → Shortest h 1 most o
      → ShortestRun xs most o
  ShortestRun-Shortest most none l s =
      λ k p u r. s k p (omega arith) ((Repeats-iff k (omega (arith, l, u)) p).1 r)
  ShortestRun-Shortest most (some loop) l (k, p, u, r, e, first) =
      let fits : k * 2 ≤ min (length xs) n = omega (arith, l, u) in
      (
        k,
        p,
        omega (arith, u),
        (Repeats-iff k fits p).0 r,
        e ∙ ap (λ t. record { loop = t; index = 0; filled = 0 }) (newest k fits),
        λ j q v again. first j q v ((Repeats-iff j (omega (arith, fits, v)) q).1 again),
      )

-- After any addresses `xs`, which a history that has forgotten all has been told, `Detect` finds the
-- shortest run of addresses at their end that stands there twice in a row, among the lengths up to the
-- smaller of the detector's limit and half of the addresses that the history can still hold; it finds
-- none only if there is none.
pub detect-ShortestRun :
    (l : LoopDetect) (xs : List ℕ)
    → 0 < length l.history.loop
    → l.history.index ≡ 0
    → l.history.filled ≡ 0
    → ShortestRun xs
        (min l.len (min (length xs) (length l.history.loop) / 2))
        (detect (record l { history = remember l.history xs }))
detect-ShortestRun l xs z i f =
    let h = remember l.history xs in
    let n = length l.history.loop in
    let held = fresh-Holds l.history xs z i f in
    let limit : min l.len ((h.filled + 1) / 2) ≡ min l.len (min (length xs) n / 2) =
      omega (arith, held.filled, z) in
    ShortestRun-Shortest n h xs z held (min l.len (min (length xs) n / 2))
      (detect (record l { history = h })) (omega arith)
      (subst (λ m. Shortest h 1 m (detect (record l { history = h }))) limit
        (detect-Shortest (record l { history = h })))
