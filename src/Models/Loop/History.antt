-- ===== src/Models/Loop/History.antt =====
-- The ring of `LoopDetect` holds the last addresses.
use native.Mathlib.Nat.{
  suc-mul, mod-lt, mod-add-mod, mod-eq_of_lt, mod-eq-sub-mod, add-mul-mod_self_left, div-add-mod,
}
use usercorn.Base.{
  ℕ, zero, suc, ◌+◌, ◌-◌, ◌*◌, ◌/◌, ◌%◌, ◌≤◌, ◌<◌, ◌≡◌, ◌≢◌, refl, sym, ap, ◌∙◌, subst, false, List,
  [], ◌∷◌, ◌++◌, length, take, drop, min, ltb, ◌==◌, arith, Bool-cases, inl, inr, length-append,
  append-nil, append_assoc,
}
use usercorn.Models.Loop.Ring.{
  Loop, inc, store, at, push, ring_index, ring_loop, ring, length-store,
}

-- The history after some addresses.
abbrev pub remember : Loop → List ℕ → Loop
remember h [] = h
remember h (x ∷ xs) = remember (push h x) xs

-- A ring of `n` entries holds the last of the addresses `xs`: the address at place `j` is at `j` modulo `n`.
pub record Holds (n : ℕ) (h : Loop) (xs : List ℕ) : Type 0 where
  pub size : length h.loop ≡ n
  pub index : h.index ≡ length xs % n
  pub filled : h.filled ≡ min (length xs) n - 1
  pub entries : (j : ℕ) → j < length xs → length xs ≤ j + n → at h.loop (j % n) ≡ at xs j

at-append : (xs : List ℕ) (v j : ℕ) → j < length xs → at (xs ++ (v ∷ [])) j ≡ at xs j
at-append [] v j h = absurd (omega arith)
at-append (x ∷ xs) v zero h = refl
at-append (x ∷ xs) v (suc j) h = at-append xs v j (omega arith)

at-last : (xs : List ℕ) (v : ℕ) → at (xs ++ (v ∷ [])) (length xs) ≡ v
at-last [] v = refl
at-last (x ∷ xs) v = at-last xs v

at-store : (xs : List ℕ) (i v : ℕ) → i < length xs → at (store xs i v) i ≡ v
at-store [] i v h = absurd (omega arith)
at-store (x ∷ xs) zero v h = refl
at-store (x ∷ xs) (suc i) v h = at-store xs i v (omega arith)

at-store_other : (xs : List ℕ) (i j v : ℕ) → i ≢ j → at (store xs i v) j ≡ at xs j
at-store_other [] i j v h = refl
at-store_other (x ∷ xs) zero zero v h = absurd (h refl)
at-store_other (x ∷ xs) zero (suc j) v h = refl
at-store_other (x ∷ xs) (suc i) zero v h = refl
at-store_other (x ∷ xs) (suc i) (suc j) v h = at-store_other xs i j v (λ e. h (ap suc e))

-- Two places less than `n` apart are at different entries.
mod-apart : (n j m : ℕ) → j < m → m < j + n → m % n ≢ j % n
mod-apart n j m l u e =
    let r : j % n < n = mod-lt j (omega arith) in
    let back : j + (m - j) ≡ m = omega arith in
    let t : (j % n + (m - j)) % n ≡ m % n = mod-add-mod j n (m - j) ∙ ap (λ x. x % n) back in
    elim (Bool-cases (ltb (j % n + (m - j)) n)) [
      | inl less ↦
          let s : (j % n + (m - j)) % n ≡ j % n + (m - j) = mod-eq_of_lt (ground (arith, less)) in
          omega (arith, s, t, e)
      | inr more ↦
          let s : (j % n + (m - j)) % n ≡ (j % n + (m - j) - n) % n =
            mod-eq-sub-mod (ground (arith, more)) in
          let q : (j % n + (m - j) - n) % n ≡ j % n + (m - j) - n =
            mod-eq_of_lt (omega (arith, r)) in
          let big : n ≤ j % n + (m - j) = ground (arith, more) in omega (arith, s, q, t, e, big)
    ]

push-Holds :
    (n : ℕ) (h : Loop) (xs : List ℕ) (v : ℕ)
    → 0 < n
    → Holds n h xs
    → Holds n (push h v) (xs ++ (v ∷ []))
unfolding push inc
push-Holds n h xs v z k =
    let longer : length (xs ++ (v ∷ [])) ≡ length xs + 1 =
      omega (arith, length-append xs (v ∷ [])) in
    let fits : length xs % n < n = mod-lt (length xs) z in
    let size = length-store h.loop h.index v ∙ k.size in
    record {
      size = size;
      index =
          ap (λ m. (h.index + 1) % m) size
          ∙ ap (λ i. (i + 1) % n) k.index
          ∙ mod-add-mod (length xs) n 1
          ∙ ap (λ m. m % n) (sym longer);
      filled = elim (Bool-cases (ltb (length xs) n)) [
        | inl less ↦
            let small : length xs % n ≡ length xs = mod-eq_of_lt (ground (arith, less)) in
            ground (arith, less, small, longer, k.index, k.filled)
        | inr full ↦ ground (arith, full, fits, longer, k.index, k.filled)
      ];
      entries = λ j l u. elim (Bool-cases (j == length xs)) [
        | inl last ↦
            let at_end : j ≡ length xs = ground (arith, last) in
            let place : j % n ≡ h.index = ap (λ m. m % n) at_end ∙ sym k.index in
            rw (place, at_end)
              (at-store h.loop h.index v (omega (arith, k.size, k.index, fits))
                ∙ sym (at-last xs v))
        | inr older ↦
            let before : j < length xs = ground (arith, older, l, longer) in
            let apart = mod-apart n j (length xs) before (omega (arith, u, longer)) in
            at-store_other h.loop h.index (j % n) v (λ e. apart (sym k.index ∙ e))
            ∙ k.entries j before (omega (arith, u, longer))
            ∙ sym (at-append xs v j before)
      ];
    }

remember-Holds :
    (n : ℕ) (h : Loop) (ys xs : List ℕ) → 0 < n → Holds n h ys → Holds n (remember h xs) (ys ++ xs)
remember-Holds n h ys [] z k = subst (Holds n h) (sym (append-nil ys)) k
remember-Holds n h ys (x ∷ xs) z k =
    subst (Holds n (remember (push h x) xs)) (append_assoc ys (x ∷ []) xs)
      (remember-Holds n (push h x) (ys ++ (x ∷ [])) xs z (push-Holds n h ys x z k))

drop-at : (xs : List ℕ) (p : ℕ) → p < length xs → drop p xs ≡ at xs p ∷ drop (p + 1) xs
drop-at [] p h = absurd (omega arith)
drop-at (x ∷ xs) zero h = refl
drop-at (x ∷ xs) (suc p) h =
    let e : suc p + 1 ≡ suc (p + 1) = omega arith in rw e (drop-at xs p (omega arith))

times-le : (n k : ℕ) → 0 < n → k ≤ n * k
times-le zero k h = absurd (omega arith)
times-le (suc n) k h = let e = suc-mul n k in omega (arith, e)

module _ (n : ℕ) (h : Loop) (xs : List ℕ) (z : 0 < n) (k : Holds n h xs) where
  ring_index_lem :
      (back i : ℕ) → back ≤ length xs → ring_index h back i ≡ (length xs - back + i) % n
  ring_index_lem back i l =
      let parts = div-add-mod (length xs) n in
      let wide = times-le n back z in
      let sum : length xs - back + i + n * back
          ≡ length xs % n + i + n * back - back + n * (length xs / n) =
        omega (arith, parts, wide) in
      ap (λ m. (h.index + i + m * back - back) % m) k.size
      ∙ ap (λ x. (x + i + n * back - back) % n) k.index
      ∙ sym (add-mul-mod_self_left (length xs % n + i + n * back - back) n (length xs / n))
      ∙ ap (λ x. x % n) (sym sum)
      ∙ add-mul-mod_self_left (length xs - back + i) n back

  not_skipped : (p : ℕ) → p < length xs → ltb h.filled (p % n) ≡ false
  not_skipped p l =
      let r : p % n < n = mod-lt p z in
      elim (Bool-cases (ltb (length xs) n)) [
        | inl less ↦
            let small : p % n ≡ p = mod-eq_of_lt (ground (arith, less, l)) in
            ground (arith, less, small, l, k.filled)
        | inr full ↦ ground (arith, full, r, k.filled)
      ]

  ring_loop_lem :
      (back i left : ℕ)
      → back ≤ length xs
      → back ≤ n
      → i + left ≤ back
      → ring_loop h back i left ≡ take left (drop (length xs - back + i) xs)
  unfolding ring_loop
  ring_loop_lem back i zero l u f = refl
  ring_loop_lem back i (suc left) l u f =
      let p = length xs - back + i in
      let e = ring_index_lem back i l in
      let known : p < length xs = omega arith in
      let inside = not_skipped p known in
      let rest = ring_loop_lem back (i + 1) left l u (omega arith) in
      let next : length xs - back + (i + 1) ≡ p + 1 = omega arith in
      rw (e, inside, k.entries p known (omega arith), drop-at xs p known, rest, next) refl

  -- `Ring` with the last `back` addresses in view gives the first `left` of them.
  pub ring_lem :
      (back left : ℕ)
      → back ≤ length xs
      → back ≤ n
      → left ≤ back
      → ring h back left ≡ take left (drop (length xs - back) xs)
  unfolding ring
  ring_lem back left l u f =
      ring_loop_lem back 0 left l u (omega arith) ∙ ap (λ p. take left (drop p xs)) (omega arith)

-- A history that has forgotten all holds what is pushed from then on.
pub fresh-Holds :
    (h : Loop) (xs : List ℕ)
    → 0 < length h.loop
    → h.index ≡ 0
    → h.filled ≡ 0
    → Holds (length h.loop) (remember h xs) xs
fresh-Holds h xs z i f = remember-Holds (length h.loop) h [] xs z (record {
  size = refl;
  index = i ∙ sym (mod-eq_of_lt z);
  filled = omega (arith, f);
  entries = λ j l u. absurd (omega (arith, l));
})
