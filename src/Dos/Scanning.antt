-- ===== src/Dos/Scanning.antt =====
-- go/arch/x86_16/dos.go: `readUntilChar`, on the memory as the addresses see it.
use usercorn.Base.{ltb→le}
use usercorn.Base.{ltb→lt}
use usercorn.Base.{append-nil}
use usercorn.Base.{ltb}
use usercorn.Cpu.Space.Valid.{allows}
use usercorn.Base.{◌≢◌}
use usercorn.Base.{sym}
use usercorn.Base.{subst}
use usercorn.Base.{get_elem?-some}
use usercorn.Base.{ap}
use usercorn.Base.{All}
use usercorn.Base.{◌∙◌}
use usercorn.Base.{
  ℕ, zero, suc, ◌+◌, ◌-◌, ◌≤◌, ◌<◌, ◌^◌, ◌≡◌, refl, List, [], ◌∷◌, ◌++◌, length, take, replicate,
  get_elem?, Option, none, some, ◌==◌, true, false, arith, Bool-cases, inl, inr, some_inj, list_ext,
  length-take, length-replicate, length-append, get_elem?-take,
}
use usercorn.Cpu.Page.{Page}
use usercorn.Cpu.Mem.{Mem, mem_read_into}
use usercorn.Cpu.Space.{IsRun, cell}
use usercorn.Cpu.Space.Reads.{get_elem?-left, NonEmpty, byte_at}
use usercorn.Cpu.Space.Valid.{Mapped}
use usercorn.Cpu.Space.Access.{Holds, read-Reads}
use usercorn.Dos.{usercorn_read, scan_loop, scan_byte, read_until_char, Scan, found, out_of_fuel}

allows-zero : (o : Option (ℕ × ℕ)) → allows 0 o ≡ true
allows-zero none = refl
allows-zero (some c) = refl

abbrev pub Without : ℕ → List ℕ → Type 0
Without c s = All (λ x. (x == c) ≡ false) s

Without-get :
    (c : ℕ) (s : List ℕ) (j x : ℕ) → Without c s → get_elem? s j ≡ some x → (x == c) ≡ false
Without-get c [] j x w e = absurd (cc)
Without-get c (y ∷ s) zero x w e = ap (λ z. z == c) (some_inj (sym e)) ∙ w.0
Without-get c (y ∷ s) (suc j) x w e = Without-get c s j x w.1 e

get_elem?-at : (s t : List ℕ) → get_elem? (s ++ t) (length s) ≡ get_elem? t 0
get_elem?-at [] t = refl
get_elem?-at (x ∷ s) t = get_elem?-at s t

get_elem?-replicate : (n j x : ℕ) → j < n → get_elem? (replicate n x) j ≡ some x
get_elem?-replicate zero j x h = absurd (omega arith)
get_elem?-replicate (suc n) zero x h = refl
get_elem?-replicate (suc n) (suc j) x h = get_elem?-replicate n j x (omega arith)

Holds-cell :
    (ps : List Page) (addr : ℕ) (s : List ℕ) (k : ℕ)
    → Holds ps addr s
    → k < length s
    → cell ps (addr + k) ≢ none
Holds-cell ps addr s k h b e =
    let (x, g) = get_elem?-some s k b in
    let byte : byte_at (cell ps (addr + k)) ≡ some x = sym (h k b) ∙ g in
    let gone : byte_at (cell ps (addr + k)) ≡ none = ap byte_at e in cc

module _ (prot_exec : ℕ) (m : Mem) (lo hi addr : ℕ) (r : IsRun lo m.pages hi)
    (n : NonEmpty m.pages) where
  usercorn_read-Holds :
      (size : ℕ)
      → 0 < size
      → addr + size < 2 ^ 64
      → Mapped m.pages addr (addr + size)
      → (length (usercorn_read prot_exec m addr size) ≡ size)
        × Holds m.pages addr (usercorn_read prot_exec m addr size)
  unfolding usercorn_read mem_read_into
  usercorn_read-Holds size p b k =
      let len = length-replicate size 0 in
      let h =
        read-Reads prot_exec m.pages lo hi addr (replicate size 0) 0 r n (omega (arith, len))
          (omega (arith, len)) in
      let (got, e, l, holds) = h.reads (rw len k) (λ x i j. allows-zero (cell m.pages x)) in
      rw e (l ∙ len, holds)

  usercorn_read-unmapped :
      (size : ℕ)
      → 0 < size
      → addr + size < 2 ^ 64
      → ¬ Mapped m.pages addr (addr + size)
      → usercorn_read prot_exec m addr size ≡ replicate size 0
  unfolding usercorn_read mem_read_into
  usercorn_read-unmapped size p b k =
      let len = length-replicate {A = ℕ} size 0 in
      let h =
        read-Reads prot_exec m.pages lo hi addr (replicate size 0) 0 r n (omega (arith, len))
          (omega (arith, len)) in
      rw (h.unmapped (rw len k)) refl

  module _ (s t : List ℕ) (c : ℕ) (h : Holds m.pages addr (s ++ t)) (w : Without c s) where
    Mapped-Holds : (size : ℕ) → size ≤ length (s ++ t) → Mapped m.pages addr (addr + size)
    Mapped-Holds size b x i j =
        let e : addr + (x - addr) ≡ x = omega arith in
        subst (λ y. cell m.pages y ≢ none) e
          (Holds-cell m.pages addr (s ++ t) (x - addr) h (omega arith))

    -- A byte of what is read.
    usercorn_read-get :
        (size j : ℕ)
        → j < size
        → size ≤ length (s ++ t)
        → addr + size < 2 ^ 64
        → get_elem? (usercorn_read prot_exec m addr size) j ≡ get_elem? (s ++ t) j
    usercorn_read-get size j l b k =
        let (len, holds) = usercorn_read-Holds size (omega arith) k (Mapped-Holds size b) in
        holds j (omega (arith, len)) ∙ sym (h j (omega arith))

    -- A round at a byte of `s`.
    scan_past :
        (j : ℕ) (rest : Scan)
        → j < length s
        → addr + suc j < 2 ^ 64
        → (let mem = usercorn_read prot_exec m addr (suc j) in
            scan_byte c (suc j) rest mem (get_elem? mem j))
          ≡ rest
    scan_past j rest l k =
        let (x, e) = get_elem?-some s j l in
        let at = usercorn_read-get (suc j) j (omega arith) (omega (arith, length-append s t)) k in
        rw (at, get_elem?-left s t j l, e, Without-get c s j x w e) refl

  module _ (s : List ℕ) (c : ℕ) (w : Without c s) where
    -- The round at the byte that is looked for.
    scan_found :
        (rest : Scan)
        → Holds m.pages addr (s ++ (c ∷ []))
        → addr + suc (length s) < 2 ^ 64
        → (let mem = usercorn_read prot_exec m addr (suc (length s)) in
            scan_byte c (suc (length s)) rest mem (get_elem? mem (length s)))
          ≡ found s
    scan_found rest h k =
        let t = s ++ (c ∷ []) in
        let size : suc (length s) ≤ length t = omega (arith, length-append s (c ∷ [])) in
        let mem = usercorn_read prot_exec m addr (suc (length s)) in
        let get = λ (j : ℕ) (l : j < suc (length s)).
          usercorn_read-get s (c ∷ []) c h w (suc (length s)) j l size k in
        let (len, _) =
          usercorn_read-Holds (suc (length s)) (omega arith) k
            (Mapped-Holds s (c ∷ []) c h w (suc (length s)) size) in
        let back : suc (length s) - 1 ≡ length s = omega arith in
        let taken : length (take (length s) mem) ≡ length s =
          omega (arith, length-take (length s) mem, len) in
        let whole : take (length s) mem ≡ s = list_ext (take (length s) mem) s taken (λ i l.
          get_elem?-take (length s) i mem (omega (arith, taken, l))
          ∙ get i (omega (arith, taken, l))
          ∙ get_elem?-left s (c ∷ []) i (omega (arith, taken, l))) in
        let same : (c == c) ≡ true = ground arith in
        rw (get (length s) (omega arith), get_elem?-at s (c ∷ []), same, back, whole) refl

    scan_loop-found :
        (fuel j : ℕ)
        → Holds m.pages addr (s ++ (c ∷ []))
        → addr + suc (length s) < 2 ^ 64
        → j ≤ length s
        → length s < j + fuel
        → scan_loop prot_exec fuel m addr c (suc j) ≡ found s
    unfolding scan_loop
    scan_loop-found zero j h k b f = absurd (omega arith)
    scan_loop-found (suc fuel) j h k b f =
        let rest = scan_loop prot_exec fuel m addr c (suc j + 1) in
        let back : suc j - 1 ≡ j = omega arith in
        elim (Bool-cases (ltb j (length s))) [
          | inl more ↦
              let l = ltb→lt j (length s) more in
              let add : suc j + 1 ≡ suc (suc j) = omega arith in
              rw back (scan_past s (c ∷ []) c h w j rest l (omega (arith, l)))
              ∙ ap (scan_loop prot_exec fuel m addr c) add
              ∙ scan_loop-found fuel (suc j) h k (omega (arith, l)) (omega arith)
          | inr last ↦
              let e : j ≡ length s = omega (arith, b, ltb→le j (length s) last) in
              rw back (
                subst
                  (λ i.
                    scan_byte c (suc i) rest (usercorn_read prot_exec m addr (suc i))
                      (get_elem? (usercorn_read prot_exec m addr (suc i)) i)
                    ≡ found s)
                  (sym e) (scan_found rest h k))
        ]

    scan_loop-endless :
        (fuel j : ℕ)
        → Holds m.pages addr s
        → cell m.pages (addr + length s) ≡ none
        → c ≢ 0
        → addr + suc j + fuel < 2 ^ 64
        → scan_loop prot_exec fuel m addr c (suc j) ≡ out_of_fuel
    unfolding scan_loop
    scan_loop-endless zero j h u z k = refl
    scan_loop-endless (suc fuel) j h u z k =
        let rest = scan_loop prot_exec fuel m addr c (suc j + 1) in
        let add : suc j + 1 ≡ suc (suc j) = omega arith in
        let ih : rest ≡ out_of_fuel =
          ap (scan_loop prot_exec fuel m addr c) add
          ∙ scan_loop-endless fuel (suc j) h u z (omega arith) in
        let back : suc j - 1 ≡ j = omega arith in
        elim (Bool-cases (ltb j (length s))) [
          | inl more ↦
              let h' = subst (Holds m.pages addr) (sym (append-nil s)) h in
              rw back (scan_past s [] c h' w j rest (ltb→lt j (length s) more) (omega arith)) ∙ ih
          | inr past ↦
              let beyond = ltb→le j (length s) past in
              let gone =
                usercorn_read-unmapped (suc j) (omega arith) (omega arith)
                  (λ f. f (addr + length s) (omega arith) (omega (arith, beyond)) u) in
              let other : (0 == c) ≡ false = ground arith in
              rw (gone, back, get_elem?-replicate (suc j) j 0 (omega arith), other) ih
        ]

  -- On well-formed pages that are not empty and hold the text `s`, without the byte `c` in it, and
  -- behind it `c`: `readUntilChar` returns `s`, if it is given one round more than `s` has bytes.
  -- The text and `c` end below 2 ^ 64.
  pub read_until_char-found :
      (s : List ℕ) (c fuel : ℕ)
      → Without c s
      → Holds m.pages addr (s ++ (c ∷ []))
      → addr + suc (length s) < 2 ^ 64
      → length s < fuel
      → read_until_char prot_exec fuel m addr c ≡ found s
  unfolding read_until_char
  read_until_char-found s c fuel w h k f =
      scan_loop-found s c w fuel 0 h k (omega arith) (omega arith)

  -- On well-formed pages that are not empty and hold the text `s`, without the byte `c` in it, and have
  -- nothing mapped behind it: if `c` is not 0, then the loop of `readUntilChar` does not end within any
  -- number of rounds that stays below the end of the address space.
  pub read_until_char-endless :
      (s : List ℕ) (c fuel : ℕ)
      → Without c s
      → Holds m.pages addr s
      → cell m.pages (addr + length s) ≡ none
      → c ≢ 0
      → addr + suc fuel < 2 ^ 64
      → read_until_char prot_exec fuel m addr c ≡ out_of_fuel
  unfolding read_until_char
  read_until_char-endless s c fuel w h u z k = scan_loop-endless s c w fuel 0 h u z (omega arith)
