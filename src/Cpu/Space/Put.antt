-- ===== src/Cpu/Space/Put.antt =====
-- Bytes that are written into a list of bytes, and into the abstract memory.
use usercorn.Base.{ltb→lt}
use usercorn.Base.{
  ℕ, ◌+◌, ◌-◌, ◌≤◌, ◌≡◌, refl, ◌∙◌, ap, inl, inr, true, false, List, ◌++◌, Option, none, some,
  length, take, drop, get_elem?, arith, Bool-cases, ltb, if◌then◌else◌, length-append, length-take,
  length-drop, get_elem?-take, get_elem?-drop,
}
use usercorn.Cpu.Page.{Page}
use usercorn.Cpu.Space.{IsRun, cell}
use usercorn.Cpu.Space.Parts.{within}
use usercorn.Cpu.Space.Reads.{NonEmpty, get_elem?-left, get_elem?-right}

-- A byte that is written over what is at an address.
abbrev pub put_byte : Option ℕ → Option (ℕ × ℕ) → Option (ℕ × ℕ)
put_byte none c = c
put_byte (some v) none = none
put_byte (some v) (some (b, prot)) = some (v, prot)

-- The bytes `p`, written at `addr`.
abbrev pub put : List ℕ → ℕ → ℕ → Option (ℕ × ℕ) → Option (ℕ × ℕ)
put p addr x c = if within addr (addr + length p) x then put_byte (get_elem? p (x - addr)) c else c

pub put_here :
    (p : List ℕ) (addr x b : ℕ) (c : ℕ × ℕ) (d : Option (ℕ × ℕ))
    → within addr (addr + length p) x ≡ true
    → get_elem? p (x - addr) ≡ some b
    → d ≡ some c
    → put p addr x d ≡ some (b, c.1)
put_here p addr x b c d w e f = rw (w, e, f) refl

pub put_away :
    (p : List ℕ) (addr x : ℕ) (d : Option (ℕ × ℕ))
    → within addr (addr + length p) x ≡ false
    → put p addr x d ≡ d
put_away p addr x d w = rw w refl

pub put-drop :
    (p : List ℕ) (addr n x : ℕ) (c : Option (ℕ × ℕ))
    → n ≤ length p
    → addr + n ≤ x
    → put (drop n p) (addr + n) x c ≡ put p addr x c
put-drop p addr n x c h l =
    let index : n + (x - (addr + n)) ≡ x - addr = omega arith in
    let byte : get_elem? (drop n p) (x - (addr + n)) ≡ get_elem? p (x - addr) =
      get_elem?-drop n (x - (addr + n)) p ∙ ap (get_elem? p) index in
    let end : addr + n + length (drop n p) ≡ addr + length p = omega (arith, length-drop n p) in
    rw (byte, end) (ground (arith, l))

pub some_inj : (a b : ℕ) → some a ≡ some b → a ≡ b
some_inj a b e = cc

-- The pages after the write.
pub record Written (lo : ℕ) (ps : List Page) (hi addr : ℕ) (p : List ℕ) (ps' : List Page)
    : Type 0 where
  pub run : IsRun lo ps' hi
  pub full : NonEmpty ps → NonEmpty ps'
  pub cells : (x : ℕ) → cell ps' x ≡ put p addr x (cell ps x)

abbrev pub splice : List ℕ → ℕ → ℕ → List ℕ → List ℕ
splice xs o n p = take o xs ++ (take n p ++ drop (o + n) xs)

module _ (xs p : List ℕ) (o n : ℕ) (h : o + n ≤ length xs) (k : n ≤ length p) where
  pub length-splice : length (splice xs o n p) ≡ length xs
  length-splice = omega (
    arith,
    length-append (take o xs) (take n p ++ drop (o + n) xs),
    length-append (take n p) (drop (o + n) xs),
    length-take o xs,
    length-take n p,
    length-drop (o + n) xs,
  )

  pub get_elem?-splice :
      (i : ℕ)
      → get_elem? (splice xs o n p) i
        ≡ (if within o (o + n) i then get_elem? p (i - o) else get_elem? xs i)
  get_elem?-splice i = elim (Bool-cases (ltb i o)) [
    | inl before ↦
        let l = ltb→lt i o before in
        let out : within o (o + n) i ≡ false = ground (arith, l) in
        rw out (
          get_elem?-left (take o xs) (take n p ++ drop (o + n) xs) i
            (omega (arith, length-take o xs))
          ∙ get_elem?-take o i xs l)
    | inr after ↦
        let l : o ≤ i = ground (arith, after) in
        get_elem?-right (take o xs) (take n p ++ drop (o + n) xs) i o
          (omega (arith, length-take o xs)) l
        ∙ elim (Bool-cases (ltb i (o + n))) [
          | inl inside ↦
              let u = ltb→lt i (o + n) inside in
              let into : within o (o + n) i ≡ true = ground (arith, l, u) in
              rw into (
                get_elem?-left (take n p) (drop (o + n) xs) (i - o) (omega (arith, length-take n p))
                ∙ get_elem?-take n (i - o) p (omega arith))
          | inr past ↦
              let u : o + n ≤ i = ground (arith, past) in
              let out : within o (o + n) i ≡ false = ground (arith, u) in
              rw out (
                get_elem?-right (take n p) (drop (o + n) xs) (i - o) n
                  (omega (arith, length-take n p)) (omega arith)
                ∙ (get_elem?-drop (o + n) (i - o - n) xs ∙ ap (get_elem? xs) (omega arith)))
        ]
  ]
