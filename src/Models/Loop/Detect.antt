-- ===== src/Models/Loop/Detect.antt =====
-- `LoopDetect`.
use usercorn.Base.{ltb→lt}
use usercorn.Base.{inr}
use usercorn.Base.{inl}
use usercorn.Base.{subst}
use usercorn.Base.{min}
use usercorn.Base.{◌↔◌}
use usercorn.Base.{Bool-cases}
use usercorn.Base.{
  ℕ, zero, suc, ◌+◌, ◌*◌, ◌/◌, ◌≤◌, ◌<◌, ◌≡◌, refl, Bool, true, false, ◌&&◌, not, List, [], ◌∷◌,
  length, Option, none, some, ltb, ◌==◌, if◌then◌else◌, arith,
}
use usercorn.Models.Loop.Ring.{Loop, new_loop, push, next, ring}

-- `equals(a, b, length)`
abbrev same : List ℕ → List ℕ → Bool
same [] [] = true
same [] (y ∷ ys) = false
same (x ∷ xs) [] = false
same (x ∷ xs) (y ∷ ys) = y == x && same xs ys

unfoldable pub equals : List ℕ → List ℕ → ℕ → Bool
equals a b n = length a == length b && (not (length a == 0) && (length a == n && same a b))

pub record LoopDetect : Type 0 where
  pub history : Loop
  pub current : Option Loop
  pub loops : ℕ
  pub len : ℕ

unfoldable pub new_loop_detect : ℕ → LoopDetect
new_loop_detect n = record { history = new_loop (n * 2); current = none; loops = 0; len = n }

-- The rounds of `Detect` from `n` on, `left` of them: `Ring(-n+1, …)` and `Ring(-n*2+1, …)`.
unfoldable pub detect_loop : Loop → (n left : ℕ) → Option Loop
detect_loop h n zero = none
detect_loop h n (suc left) =
    let found = ring h n n in
    let before = ring h (n * 2) n in
    let more = detect_loop h (n + 1) left in
    if equals found before n then some (record { loop = found; index = 0; filled = 0 }) else more

unfoldable pub detect : LoopDetect → Option Loop
detect l =
    let alt = (l.history.filled + 1) / 2 in
    detect_loop l.history 1 (if ltb alt l.len then alt else l.len)

pub record Answer : Type 0 where
  pub looping : Bool
  pub body : List ℕ
  pub count : ℕ

abbrev start_loop : LoopDetect → Option Loop → LoopDetect × Answer
start_loop l none = (l, record { looping = false; body = []; count = 0 })
start_loop l (some loop) = (
  record l { current = some loop; loops = 1 },
  record { looping = true; body = loop.loop; count = 1 },
)

-- `loop.Next()` changes the loop that `l` holds, and `idx` is its index before.
abbrev go_on : LoopDetect → Loop → ℕ → LoopDetect × Answer
go_on l loop addr =
    let (loop', expected) = next loop in
    let loops' = if loop.index == 0 then l.loops + 1 else l.loops in
    if expected == addr
    then (
      record l { current = some loop'; loops = loops' },
      record { looping = true; body = loop.loop; count = loops' },
    )
    else (
      record l { current = none; loops = 0 },
      record { looping = false; body = loop.loop; count = l.loops },
    )

abbrev update_from : LoopDetect → ℕ → Option Loop → LoopDetect × Answer
update_from l addr (some loop) = go_on l loop addr
update_from l addr none =
    let l' : LoopDetect = record l { history = push l.history addr } in start_loop l' (detect l')

unfoldable pub update : LoopDetect → ℕ → LoopDetect × Answer
update l addr = update_from l addr l.current

unfoldable pub reset : LoopDetect → LoopDetect
reset l = record l {
  current = none;
  loops = 0;
  history = record (l.history) { index = 0; filled = 0 };
}

same→eq : (xs ys : List ℕ) → same xs ys ≡ true → xs ≡ ys
same→eq [] [] e = refl
same→eq [] (y ∷ ys) e = cc
same→eq (x ∷ xs) [] e = cc
same→eq (x ∷ xs) (y ∷ ys) e = ground (arith, same→eq xs ys)

same_self : (xs : List ℕ) → same xs xs ≡ true
same_self [] = refl
same_self (x ∷ xs) = ground (arith, same_self xs)

equals_iff : (a b : List ℕ) (n : ℕ) → (equals a b n ≡ true) ↔ ((a ≡ b) × (length a ≡ n) × (0 < n))
unfolding equals
equals_iff a b n = (
  λ e. (same→eq a b (ground arith), ground arith, ground arith),
  λ (e, l, p). rw (← e) (ground (arith, same_self a)),
)

-- The last `n` addresses are the `n` before them once more, and there are `n`.
abbrev pub Repeats : Loop → ℕ → Type 0
Repeats h n = (ring h n n ≡ ring h (n * 2) n) × (length (ring h n n) ≡ n) × (0 < n)

-- What a search from `n` on over `left` lengths is to return.
abbrev pub Shortest : Loop → (n left : ℕ) → Option Loop → Type 0
Shortest h n left none = (k : ℕ) → n ≤ k → k < n + left → ¬ Repeats h k
Shortest h n left (some loop) =
    (k : ℕ) × (n ≤ k)
    × (k < n + left)
    × Repeats h k
    × (loop ≡ record { loop = ring h k k; index = 0; filled = 0 })
    × ((j : ℕ) → n ≤ j → j < k → ¬ Repeats h j)

first_fails : (h : Loop) (n : ℕ) → equals (ring h n n) (ring h (n * 2) n) n ≡ false → ¬ Repeats h n
first_fails h n miss r = cc (miss, (equals_iff (ring h n n) (ring h (n * 2) n) n).1 r)

at_or_after : (h : Loop) (n k : ℕ) → ¬ Repeats h n → n ≤ k → Repeats h k → suc n ≤ k
at_or_after h n k fails x r = elim (Bool-cases (ltb n k)) [
  | inl less ↦ ltb→lt n k less
  | inr eq ↦ absurd (fails (subst (Repeats h) (ground arith) r))
]

later :
    (h : Loop) (n left : ℕ) (o : Option Loop)
    → ¬ Repeats h n
    → Shortest h (n + 1) left o
    → Shortest h n (suc left) o
later h n left none fails s =
    λ k x y r. s k (omega (arith, at_or_after h n k fails x r)) (omega arith) r
later h n left (some loop) fails (k, x, y, r, e, first) = (
  k,
  omega arith,
  omega arith,
  r,
  e,
  λ j z w q. first j (omega (arith, at_or_after h n j fails z q)) w q,
)

detect_loop_lem : (h : Loop) (n left : ℕ) → Shortest h n left (detect_loop h n left)
unfolding detect_loop
detect_loop_lem h n zero = λ k x y r. absurd (omega arith)
detect_loop_lem h n (suc left) = elim (Bool-cases (equals (ring h n n) (ring h (n * 2) n) n)) [
  | inl hit ↦ rw hit (
    n,
    omega arith,
    omega arith,
    (equals_iff (ring h n n) (ring h (n * 2) n) n).0 hit,
    refl,
    λ j x y r. absurd (omega arith),
  )
  | inr miss ↦ rw miss (
      later h n left (detect_loop h (n + 1) left) (first_fails h n miss)
        (detect_loop_lem h (n + 1) left))
]

-- `Detect` finds the shortest run, in terms of `Ring`.
pub detect-Shortest :
    (l : LoopDetect) → Shortest l.history 1 (min l.len ((l.history.filled + 1) / 2)) (detect l)
unfolding detect
detect-Shortest l =
    subst (λ m. Shortest l.history 1 m (detect_loop l.history 1 (limit l))) (ground arith)
      (detect_loop_lem l.history 1 (limit l))
  where
    limit : LoopDetect → ℕ
    limit d = if ltb ((d.history.filled + 1) / 2) d.len then (d.history.filled + 1) / 2 else d.len
