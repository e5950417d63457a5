-- ===== src/Models/Status/Masks.antt =====
-- go/models/status.go: the masks of a change.
use usercorn.Base.{drop_all}
use usercorn.Base.{ltb→le}
use usercorn.Base.{ltb→lt}
use usercorn.Base.{drop-drop}
use usercorn.Base.{
  ℕ, zero, suc, ◌+◌, ◌-◌, ◌≤◌, ◌<◌, ◌≡◌, refl, ◌∙◌, ap, sym, Bool, true, false, not, List, [], ◌∷◌,
  ◌++◌, Option, none, some, length, get_elem?, take, drop, ltb, ◌==◌, arith, All, Bool-cases, inl,
  inr, get_elem?-some, get_elem?-take, get_elem?-drop, length-take, length-drop, append-nil,
}
use usercorn.Models.Status.{ChangeMask, Change, same_bool, part, mask_of, put_mask, mask_loop, mask}

part-drop : (s : List ℕ) (pos i : ℕ) → pos ≤ i → part s pos i ++ drop i s ≡ drop pos s
part-drop s zero zero h = refl
part-drop [] zero (suc i) h = refl
part-drop (x ∷ s) zero (suc i) h = ap (◌∷◌ x) (part-drop s zero i (omega arith))
part-drop s (suc pos) zero h = absurd (omega arith)
part-drop [] (suc pos) (suc i) h = refl
part-drop (x ∷ s) (suc pos) (suc i) h = part-drop s pos i (omega arith)

take_whole : (s : List ℕ) (n : ℕ) → length s ≤ n → take n s ≡ s
take_whole [] zero h = refl
take_whole [] (suc n) h = refl
take_whole (x ∷ s) zero h = absurd (omega arith)
take_whole (x ∷ s) (suc n) h = ap (◌∷◌ x) (take_whole s n (omega arith))

get-part :
    (s : List ℕ) (pos i j : ℕ) → pos + j < i → get_elem? (part s pos i) j ≡ get_elem? s (pos + j)
get-part s pos i j h = get_elem?-drop pos j (take i s) ∙ get_elem?-take i (pos + j) s h

-- The bytes at a place of the two texts: the same if `b`, else not.
abbrev pub AreSame : Bool → Option ℕ → Option ℕ → Type 0
AreSame b (some c) (some d) = (c == d) ≡ b
AreSame b none d = ⊥
AreSame b (some c) none = ⊥

-- A mask is not empty, its texts are of one length, and they differ at each place if it is changed, and at
-- none if it is not.
pub record IsMask (m : ChangeMask) : Type 0 where
  pub some_bytes : 0 < length m.new
  pub same_length : length m.old ≡ length m.new
  pub uniform :
      (j : ℕ) → j < length m.new → AreSame (not m.changed) (get_elem? m.new j) (get_elem? m.old j)

abbrev pub news : List ChangeMask → List ℕ
news [] = []
news (m ∷ ms) = m.new ++ news ms

abbrev pub olds : List ChangeMask → List ℕ
olds [] = []
olds (m ∷ ms) = m.old ++ olds ms

not-not : (b : Bool) → not (not b) ≡ b
not-not true = refl
not-not false = refl

same_bool-true : (a b : Bool) → same_bool a b ≡ true → a ≡ b
same_bool-true true b h = sym h
same_bool-true false true h = absurd (cc)
same_bool-true false false h = refl

same_bool-false : (a b : Bool) → same_bool a b ≡ false → a ≡ not b
same_bool-false true true h = absurd (cc)
same_bool-false true false h = refl
same_bool-false false true h = refl
same_bool-false false false h = absurd (cc)

get_first : (s : List ℕ) (i c : ℕ) (rest : List ℕ) → drop i s ≡ c ∷ rest → get_elem? s i ≡ some c
get_first [] zero c rest h = absurd (cc)
get_first (x ∷ s) zero c rest h = cc
get_first [] (suc i) c rest h = absurd (cc)
get_first (x ∷ s) (suc i) c rest h = get_first s i c rest h

drop_next : (s : List ℕ) (i c : ℕ) (rest : List ℕ) → drop i s ≡ c ∷ rest → drop (i + 1) s ≡ rest
drop_next s i c rest h = sym (drop-drop i 1 s) ∙ ap (drop 1) h

module _ (s1 s2 : List ℕ) (e : length s1 ≡ length s2) where
  -- The bytes from `pos` to `i` are all the same, or all different.
  Run : Bool → (pos i : ℕ) → Type 0
  Run b pos i = (j : ℕ) → pos ≤ j → j < i → AreSame b (get_elem? s1 j) (get_elem? s2 j)

  mask_of-IsMask :
      (pos i : ℕ) (b : Bool)
      → pos < i
      → i ≤ length s1
      → Run b pos i
      → IsMask (mask_of s1 s2 pos i b)
  unfolding Run
  mask_of-IsMask pos i b h l r =
      let n1 : length (part s1 pos i) ≡ i - pos =
        omega (arith, length-drop pos (take i s1), length-take i s1, l) in
      let n2 : length (part s2 pos i) ≡ i - pos =
        omega (arith, length-drop pos (take i s2), length-take i s2, l, e) in
      record {
        some_bytes = omega (arith, n1);
        same_length = n2 ∙ sym n1;
        uniform = λ j k.
            let k' : pos + j < i = omega (arith, n1, k) in
            rw (get-part s1 pos i j k', get-part s2 pos i j k', not-not b)
              (r (pos + j) (omega arith) k');
      }

  longer-Run :
      (b : Bool) (pos i c x : ℕ)
      → get_elem? s1 i ≡ some c
      → get_elem? s2 i ≡ some x
      → (c == x) ≡ b
      → Run b pos i
      → Run b pos (i + 1)
  unfolding Run
  longer-Run b pos i c x g h same r j l k = elim (Bool-cases (j == i)) [
    | inl eq ↦ let at : j ≡ i = ground arith in rw (at, g, h) same
    | inr other ↦ r j l (ground arith)
  ]

  record Masks (pos : ℕ) (r : Option (List ChangeMask)) : Type 0 where
    masks : List ChangeMask
    done : r ≡ some masks
    all_new : news masks ≡ drop pos s1
    all_old : olds masks ≡ drop pos s2
    good : All IsMask masks

  cons_mask :
      (pos i : ℕ) (m : ChangeMask) (r : Option (List ChangeMask))
      → pos < i
      → m.new ≡ part s1 pos i
      → m.old ≡ part s2 pos i
      → IsMask m
      → Masks i r
      → Masks pos (put_mask m r)
  cons_mask pos i m r lt a b good rest = rw (rest.done) record {
    masks = m ∷ rest.masks;
    done = refl;
    all_new = rw (a, rest.all_new) (part-drop s1 pos i (omega arith));
    all_old = rw (b, rest.all_old) (part-drop s2 pos i (omega arith));
    good = (good, rest.good);
  }

  mask_loop-Masks :
      (rest : List ℕ) (i pos : ℕ) (b : Bool)
      → drop i s1 ≡ rest
      → i + length rest ≡ length s1
      → pos ≤ i
      → Run b pos i
      → Masks pos (mask_loop s1 s2 rest i pos b)
  unfolding mask_loop Run
  mask_loop-Masks [] i pos b d n l r = elim (Bool-cases (ltb pos (length s1))) [
    | inl more ↦
        let t1 : part s1 pos (length s1) ≡ drop pos s1 =
          ap (drop pos) (take_whole s1 (length s1) (omega arith)) in
        let t2 : part s2 pos (length s1) ≡ drop pos s2 =
          ap (drop pos) (take_whole s2 (length s1) (omega (arith, e))) in
        rw more record {
          masks = mask_of s1 s2 pos (length s1) b ∷ [];
          done = refl;
          all_new = append-nil (part s1 pos (length s1)) ∙ t1;
          all_old = append-nil (part s2 pos (length s1)) ∙ t2;
          good = (
            mask_of-IsMask pos (length s1) b (ltb→lt pos (length s1) more) (omega arith)
                (λ j x y. r j x (omega (arith, n))),
            tt,
          );
        }
    | inr no_more ↦
        let past = ltb→le pos (length s1) no_more in
        rw no_more record {
          masks = [];
          done = refl;
          all_new = sym (drop_all pos s1 past);
          all_old = sym (drop_all pos s2 (omega (arith, past, e)));
          good = tt;
        }
  ]
  mask_loop-Masks (c ∷ rest) i pos b d n l r =
      let (x, g) = get_elem?-some s2 i (omega (arith, e, n)) in
      let here : get_elem? s1 i ≡ some c = get_first s1 i c rest d in
      let next = drop_next s1 i c rest d in
      let size : i + 1 + length rest ≡ length s1 = omega (arith, n) in
      elim (Bool-cases (same_bool (c == x) b)) [
        | inl same ↦
            rw (g, same)
              (mask_loop-Masks rest (i + 1) pos b next size (omega arith)
                (longer-Run b pos i c x here g (same_bool-true (c == x) b same) r))
        | inr flip ↦
            let one : Run (not b) i (i + 1) =
              longer-Run (not b) i i c x here g (same_bool-false (c == x) b flip)
                (λ j y z. absurd (omega (arith, y, z))) in
            elim (Bool-cases (ltb pos i)) [
              | inl more ↦
                  let lt = ltb→lt pos i more in
                  let more' = mask_loop-Masks rest (i + 1) i (not b) next size (omega arith) one in
                  rw (g, flip, more)
                    (cons_mask pos i (mask_of s1 s2 pos i b) _ lt refl refl
                      (mask_of-IsMask pos i b lt (omega (arith, n)) r) more')
              | inr no_more ↦
                  let at : pos ≡ i = omega (arith, l, ltb→le pos i no_more) in
                  rw (g, flip, no_more)
                    (mask_loop-Masks rest (i + 1) pos (not b) next size (omega arith)
                      (λ j y z. one j (omega (arith, at, y)) z))
            ]
      ]

-- The masks of a change: put together they are its two texts.
pub record MaskOk (new old : List ℕ) (r : Option (List ChangeMask)) : Type 0 where
  pub masks : List ChangeMask
  pub done : r ≡ some masks
  pub all_new : news masks ≡ new
  pub all_old : olds masks ≡ old
  pub good : All IsMask masks

-- When the formatted old and new value of a change have the same length, `Mask` returns masks whose new texts
-- put together are the new value and whose old texts put together are the old value, and each mask is not empty,
-- has two texts of one length, and differs at each of its places if it is marked as changed and at none if not.
pub mask-MaskOk :
    (hex : (width val : ℕ) → List ℕ) (c : Change) (bsz : ℕ)
    → length (hex bsz c.new) ≡ length (hex bsz c.old)
    → MaskOk (hex bsz c.new) (hex bsz c.old) (mask hex c bsz)
unfolding mask Run
mask-MaskOk hex c bsz e =
    let new = hex bsz c.new in
    let old = hex bsz c.old in
    let m =
      mask_loop-Masks new old e new 0 0 true refl (omega arith) (omega arith)
        (λ j y z. absurd (omega (arith, z))) in
    record {
      masks = m.masks;
      done = m.done;
      all_new = m.all_new;
      all_old = m.all_old;
      good = m.good;
    }
