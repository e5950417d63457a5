-- ===== src/Symbols/Sort.antt =====
-- go/models/debug/file.go: the order of the entries.
use usercorn.Base.{some_inj}
use usercorn.Base.{
  ℕ, zero, suc, ◌≤◌, ◌<◌, ◌≡◌, ap, sym, List, [], ◌∷◌, some, get_elem?, arith, All, Bool-cases, ◌⊎◌,
  inl, inr, true, false,
}
use usercorn.Symbols.{less, insert, sort}

module _ {A : Type 0} (start end : A → ℕ) where
  -- Two ranges without a common address.
  abbrev pub Disjoint : A → A → Type 0
  Disjoint a b = (end a ≤ start b) ⊎ (end b ≤ start a)

  abbrev pub NonEmpty : A → Type 0
  NonEmpty a = start a < end a

  abbrev pub IsDisjoint : List A → Type 0
  IsDisjoint [] = Unit {0}
  IsDisjoint (a ∷ as') = All (Disjoint a) as' × IsDisjoint as'

  abbrev pub IsSorted : List A → Type 0
  IsSorted [] = Unit {0}
  IsSorted (a ∷ as') = All (λ b. start a ≤ start b) as' × IsSorted as'

  module _ (P : A → Type 0) where
    All-insert : (a : A) (bs : List A) → P a → All P bs → All P (insert start end a bs)
    unfolding insert
    All-insert a [] p h = (p, tt)
    All-insert a (b ∷ bs) p h = elim (Bool-cases (less start end b a)) [
      | inl e ↦ rw e (h.0, All-insert a bs p h.1)
      | inr e ↦ rw e (p, h)
    ]

    pub All-sort : (as' : List A) → All P as' → All P (sort start end as')
    unfolding sort
    All-sort [] h = tt
    All-sort (a ∷ as') h = All-insert a (sort start end as') h.0 (All-sort as' h.1)

    All-uninsert : (a : A) (bs : List A) → All P (insert start end a bs) → P a × All P bs
    unfolding insert
    All-uninsert a [] = λ h. (h.0, tt)
    All-uninsert a (b ∷ bs) = elim (Bool-cases (less start end b a)) [
      | inl e ↦ rw e (λ h. let r = All-uninsert a bs h.1 in (r.0, (h.0, r.1)))
      | inr e ↦ rw e (λ h. (h.0, h.1))
    ]

    pub All-unsort : (as' : List A) → All P (sort start end as') → All P as'
    unfolding sort
    All-unsort [] h = tt
    All-unsort (a ∷ as') h =
        let r = All-uninsert a (sort start end as') h in (r.0, All-unsort as' r.1)

  Disjoint-sym : (a b : A) → Disjoint a b → Disjoint b a
  Disjoint-sym a b (inl h) = inr h
  Disjoint-sym a b (inr h) = inl h

  insert-IsDisjoint :
      (a : A) (bs : List A)
      → All (Disjoint a) bs
      → IsDisjoint bs
      → IsDisjoint (insert start end a bs)
  unfolding insert
  insert-IsDisjoint a [] h d = (tt, tt)
  insert-IsDisjoint a (b ∷ bs) h d = elim (Bool-cases (less start end b a)) [
    | inl e ↦
        rw e
          (All-insert (Disjoint b) a bs (Disjoint-sym a b h.0) d.0, insert-IsDisjoint a bs h.1 d.1)
    | inr e ↦ rw e (h, d)
  ]

  pub sort-IsDisjoint : (as' : List A) → IsDisjoint as' → IsDisjoint (sort start end as')
  unfolding sort
  sort-IsDisjoint [] d = tt
  sort-IsDisjoint (a ∷ as') d =
      insert-IsDisjoint a (sort start end as') (All-sort (Disjoint a) as' d.0)
        (sort-IsDisjoint as' d.1)

  less-le : (a b : A) → less start end b a ≡ true → start b ≤ start a
  unfolding less
  less-le a b e = ground arith

  not_less-le : (a b : A) → less start end b a ≡ false → start a ≤ start b
  unfolding less
  not_less-le a b e = ground arith

  above :
      (a b : A) (bs : List A)
      → start a ≤ start b
      → All (λ c. start b ≤ start c) bs
      → All (λ c. start a ≤ start c) bs
  above a b [] h k = tt
  above a b (c ∷ bs) h k = (omega (arith, k.0), above a b bs h k.1)

  insert-IsSorted : (a : A) (bs : List A) → IsSorted bs → IsSorted (insert start end a bs)
  unfolding insert
  insert-IsSorted a [] s = (tt, tt)
  insert-IsSorted a (b ∷ bs) s = elim (Bool-cases (less start end b a)) [
    | inl e ↦
        rw e
          (All-insert (λ c. start b ≤ start c) a bs (less-le a b e) s.0, insert-IsSorted a bs s.1)
    | inr e ↦ rw e ((not_less-le a b e, above a b bs (not_less-le a b e) s.0), s)
  ]

  pub sort-IsSorted : (as' : List A) → IsSorted (sort start end as')
  unfolding sort
  sort-IsSorted [] = tt
  sort-IsSorted (a ∷ as') = insert-IsSorted a (sort start end as') (sort-IsSorted as')

  abbrev pub Occurs : A → List A → Type 0
  Occurs a as' = (i : ℕ) × (get_elem? as' i ≡ some a)

  Occurs-front : (a b : A) (bs : List A) → Occurs b (a ∷ bs) → (b ≡ a) ⊎ Occurs b bs
  Occurs-front a b bs (zero, h) = inl (sym (some_inj h))
  Occurs-front a b bs (suc i, h) = inr (i, h)

  Occurs-behind :
      (a b c : A) (bs bs' : List A)
      → (Occurs b bs' → (b ≡ a) ⊎ Occurs b bs)
      → Occurs b (c ∷ bs')
      → (b ≡ a) ⊎ Occurs b (c ∷ bs)
  Occurs-behind a b c bs bs' f (zero, h) = inr (0, h)
  Occurs-behind a b c bs bs' f (suc i, h) = elim (f (i, h)) [
    | inl e ↦ inl e
    | inr (j, k) ↦ inr (suc j, k)
  ]

  Occurs-insert : (a b : A) (bs : List A) → Occurs b (insert start end a bs) → (b ≡ a) ⊎ Occurs b bs
  unfolding insert
  Occurs-insert a b [] = Occurs-front a b []
  Occurs-insert a b (c ∷ bs) = elim (Bool-cases (less start end c a)) [
    | inl e ↦ rw e (Occurs-behind a b c bs (insert start end a bs) (Occurs-insert a b bs))
    | inr e ↦ rw e (Occurs-front a b (c ∷ bs))
  ]

  pub Occurs-sort : (b : A) (as' : List A) → Occurs b (sort start end as') → Occurs b as'
  unfolding sort
  Occurs-sort b [] o = o
  Occurs-sort b (a ∷ as') o = elim (Occurs-insert a b (sort start end as') o) [
    | inl e ↦ (0, ap some (sym e))
    | inr h ↦ let r = Occurs-sort b as' h in (suc r.0, r.1)
  ]
