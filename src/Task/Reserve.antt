-- ===== src/Task/Reserve.antt =====
-- go/task.go: the search of `MemReserve` for a free range.
use usercorn.Task.{matches}
use usercorn.Base.{◌⊎◌}
use usercorn.Base.{◌∷◌}
use usercorn.Base.{ltb→lt}
use usercorn.Base.{
  ℕ, zero, suc, ◌+◌, ◌*◌, ◌≤◌, ◌<◌, ◌^◌, ◌≡◌, ◌∙◌, ap, sym, subst, inl, inr, true, false, List, [],
  ◌∷◌, ◌⊎◌, Option, none, some, All, ltb, arith, Bool-cases, Option-cases,
}
use usercorn.Cpu.Page.{Page}
use usercorn.Cpu.Space.Parts.{within}
use usercorn.Task.{mem_align, mapping, reserve_loop, new_page}
use usercorn.Task.Mappings.{IsMapping, covers, free}

-- The addresses that are tried.
abbrev pub tried : ℕ → ℕ → ℕ
tried i k = i + k * mem_align

-- Some address, or no address, of a range is mapped.
abbrev pub Taken : List Page → (addr size : ℕ) → Type 0
Taken ms addr size = (x : ℕ) × (within addr (addr + size) x ≡ true) × (covers ms x ≡ true)

abbrev pub Free : List Page → (addr size : ℕ) → Type 0
Free ms addr size = (x : ℕ) → within addr (addr + size) x ≡ true → covers ms x ≡ false

-- What the search from `i` should return.
abbrev pub Reserved : List Page → (i last size : ℕ) → Option Page → Type 0
Reserved ms i last size none = (k : ℕ) → tried i k < last → Taken ms (tried i k) size
Reserved ms i last size (some page) =
    (k : ℕ) × (page ≡ new_page (tried i k) size)
    × (tried i k < last)
    × (tried i k + size < 2 ^ 64)
    × Free ms (tried i k) size
    × ((j : ℕ) → j < k → Taken ms (tried i j) size)

-- The search stays in the address space: the last address leaves room for the range and one more page, or
-- a range that is tried before the end of the address space is free.
abbrev pub StaysInside : List Page → (i last size : ℕ) → Type 0
StaysInside ms i last size =
    (last + mem_align + size < 2 ^ 64)
    ⊎ ((k : ℕ) × (tried i k < last) × (tried i k + size < 2 ^ 64) × Free ms (tried i k) size)

-- A mapping that is not empty.
abbrev pub HasBytes : Page → Type 0
HasBytes m = 0 < m.size

-- The range of a mapping that is found has an address that is mapped.
mapping-Taken :
    (ms : List Page) (i size : ℕ) (m : Page)
    → All IsMapping ms
    → All HasBytes ms
    → 0 < size
    → i + size < 2 ^ 64
    → mapping ms i size ≡ some m
    → Taken ms i size
unfolding mapping
mapping-Taken [] i size m h y z b e = absurd (cc)
mapping-Taken (p ∷ ms) i size m h y z b e = elim (Bool-cases (matches p i size)) [
  | inr miss ↦
      let (x, w, c) = mapping-Taken ms i size m h.1 y.1 z b (ground (arith, miss, e)) in
      (x, w, ground (arith, c))
  | inl hit ↦ elim (Bool-cases (ltb i p.addr)) [
    | inl before ↦ (p.addr, ground (arith, hit, before, b, h.0), ground (arith, h.0, y.0))
    | inr behind ↦ (i, ground (arith, z), ground (arith, h.0, hit, behind))
  ]
]

tried-suc : (i k : ℕ) → tried (i + mem_align) k ≡ tried i (suc k)
tried-suc i k = omega arith

earlier-Taken :
    (ms : List Page) (i size k j : ℕ)
    → Taken ms i size
    → ((j : ℕ) → j < k → Taken ms (tried (i + mem_align) j) size)
    → j < suc k
    → Taken ms (tried i j) size
earlier-Taken ms i size k zero taken g l = subst (λ n. Taken ms n size) (omega arith) taken
earlier-Taken ms i size k (suc j) taken g l =
    subst (λ n. Taken ms n size) (tried-suc i j) (g j (omega arith))

none_back :
    (ms : List Page) (i last size : ℕ)
    → Taken ms i size
    → ((k : ℕ) → tried (i + mem_align) k < last → Taken ms (tried (i + mem_align) k) size)
    → (k : ℕ) → tried i k < last
    → Taken ms (tried i k) size
none_back ms i last size taken h zero l = subst (λ n. Taken ms n size) (omega arith) taken
none_back ms i last size taken h (suc k) l =
    subst (λ n. Taken ms n size) (tried-suc i k) (h k (omega arith))

-- One address more in front, which is taken.
Reserved-back :
    (ms : List Page) (i last size : ℕ) (r : Option Page)
    → Taken ms i size
    → Reserved ms (i + mem_align) last size r
    → Reserved ms i last size r
Reserved-back ms i last size none taken h = none_back ms i last size taken h
Reserved-back ms i last size (some page) taken (k, e, l, q, f, g) = (
  suc k,
  e ∙ ap (λ n. new_page n size) (tried-suc i k),
  omega arith,
  omega (arith, q),
  λ x w. f x (subst (λ n. within n (n + size) x ≡ true) (sym (tried-suc i k)) w),
  λ j. earlier-Taken ms i size k j taken g,
)

reserve_free :
    (fuel : ℕ) (ms : List Page) (i last size : ℕ)
    → ltb i last ≡ true
    → mapping ms i size ≡ none
    → reserve_loop (suc fuel) ms i last size ≡ some (new_page i size)
unfolding reserve_loop
reserve_free fuel ms i last size more e = rw (reserve_loop, more, e)

reserve_taken :
    (fuel : ℕ) (ms : List Page) (i last size : ℕ) (m : Page)
    → ltb i last ≡ true
    → i + mem_align < 2 ^ 64
    → mapping ms i size ≡ some m
    → reserve_loop (suc fuel) ms i last size ≡ reserve_loop fuel ms (i + mem_align) last size
unfolding reserve_loop
reserve_taken fuel ms i last size m more b e =
    rw (reserve_loop, more, e) (ap (λ n. reserve_loop fuel ms n last size) (omega arith))

-- A range that is tried and free is not taken.
not-Taken : (ms : List Page) (i size : ℕ) → Free ms i size → Taken ms i size → ⊥
not-Taken ms i size free (x, w, c) = absurd (cc (free x w, c))

module _ (ms : List Page) (last size : ℕ) where
  room_for : (i : ℕ) → i < last → StaysInside ms i last size → i + size < 2 ^ 64
  room_for i l (inl b) = omega arith
  room_for i l (inr (k, below, fits, free)) = omega (arith, fits)

  -- Past an address that is taken.
  StaysInside-next :
      (i : ℕ)
      → i < last
      → Taken ms i size
      → StaysInside ms i last size
      → (i + mem_align < 2 ^ 64) × StaysInside ms (i + mem_align) last size
  StaysInside-next i l taken (inl b) = (omega arith, inl b)
  StaysInside-next i l taken (inr (zero, below, fits, free)) =
      absurd (not-Taken ms i size (subst (λ n. Free ms n size) (omega arith) free) taken)
  StaysInside-next i l taken (inr (suc k, below, fits, free)) = (
    omega (arith, fits),
    inr (
      k,
      omega (arith, below),
      omega (arith, fits),
      subst (λ n. Free ms n size) (sym (tried-suc i k)) free,
    ),
  )

-- `MemReserve` without a fixed address takes the first range, in steps of one page from the hint, of
-- which no address is mapped; it fails only if each range up to the last has an address that is mapped.
-- The size is not 0, no mapping is empty or reaches the end of the address space, and either the last
-- address leaves room for the range and one more page, as it does on fewer than 64 bits, or one of the
-- ranges in the address space is free.
pub reserve_loop-Reserved :
    (fuel : ℕ) (ms : List Page) (i last size : ℕ)
    → All IsMapping ms
    → All HasBytes ms
    → 0 < size
    → StaysInside ms i last size
    → last ≤ tried i fuel
    → Reserved ms i last size (reserve_loop fuel ms i last size)
unfolding reserve_loop
reserve_loop-Reserved zero ms i last size h y z b f = λ k l. absurd (omega arith)
reserve_loop-Reserved (suc fuel) ms i last size h y z b f = elim (Bool-cases (ltb i last)) [
  | inr out ↦ rw out (λ k l. absurd (ground (arith, out, l)))
  | inl more ↦
      let below = ltb→lt i last more in
      let room = room_for ms last size i below b in
      elim (Option-cases (mapping ms i size)) [
        | inl unused ↦
            subst (Reserved ms i last size) (sym (reserve_free fuel ms i last size more unused)) (
              0,
              ap (λ n. new_page n size) (omega arith),
              omega arith,
              omega (arith, room),
              λ x w. free ms i size x h room unused (ground (arith, w)),
              λ j l. absurd (omega arith),
            )
        | inr (m, found) ↦
            let taken = mapping-Taken ms i size m h y z room found in
            let next = StaysInside-next ms last size i below taken b in
            subst (Reserved ms i last size)
              (sym (reserve_taken fuel ms i last size m more next.0 found))
              (Reserved-back ms i last size (reserve_loop fuel ms (i + mem_align) last size) taken (
                reserve_loop-Reserved fuel ms (i + mem_align) last size h y z next.1 (omega arith)))
      ]
]
