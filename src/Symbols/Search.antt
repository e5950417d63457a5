-- ===== src/Symbols/Search.antt =====
-- go/models/debug/file.go: the binary searches, over entries in any order of which no two overlap.
use usercorn.Symbols.{with_distance}
use usercorn.Symbols.{line_end}
use usercorn.Symbols.{line_start}
use usercorn.Symbols.{SourceLine}
use usercorn.Symbols.{cache_source}
use usercorn.Symbols.{no_symbol}
use usercorn.Symbols.{file_line}
use usercorn.Base.{◌^◌}
use usercorn.Base.{ltb→le}
use usercorn.Base.{subst}
use usercorn.Base.{some_inj}
use usercorn.Base.{
  ℕ, zero, suc, ◌+◌, ◌-◌, ◌/◌, ◌≤◌, ◌<◌, ◌≡◌, refl, ◌∙◌, ap, sym, List, [], ◌∷◌, Option, none, some,
  length, get_elem?, ltb, leb, arith, All, Bool-cases, ◌⊎◌, inl, inr, get_elem?-some, ltb→lt,
  leb→le, sub64,
}
use usercorn.Symbols.{
  Symbol, DebugFile, probe, search_loop, search, sort, symbol_start, symbol_end, cache_sym,
  symbolicate,
}
use usercorn.Symbols.Sort.{
  Disjoint, NonEmpty, IsDisjoint, IsSorted, All-sort, All-unsort, sort-IsDisjoint, sort-IsSorted,
  Occurs, Occurs-sort,
}

Nat-cases : (i j : ℕ) → (i < j) ⊎ ((i ≡ j) ⊎ (j < i))
Nat-cases i j = elim (Bool-cases (ltb i j)) [
  | inl e ↦ inl (ltb→lt i j e)
  | inr e ↦ elim (Bool-cases (ltb j i)) [
    | inl f ↦ inr (inr (ltb→lt j i f))
    | inr f ↦ inr (inl (ground arith))
  ]
]

module _ {A : Type 0} (start end : A → ℕ) where
  abbrev pub Inside : ℕ → A → Type 0
  Inside addr e = (start e ≤ addr) × (addr < end e)

  All-get :
      (P : A → Type 0) (es : List A) (i : ℕ) (e : A) → All P es → get_elem? es i ≡ some e → P e
  All-get P [] i e h g = absurd (cc)
  All-get P (x ∷ es) zero e h g = subst P (some_inj g) (h.0)
  All-get P (x ∷ es) (suc i) e h g = All-get P es i e h.1 g

  -- Of two entries, the one in front ends before the other one starts.
  ordered :
      (es : List A) (i j : ℕ) (e f : A)
      → IsSorted start end es
      → IsDisjoint start end es
      → All (NonEmpty start end) es
      → get_elem? es i ≡ some e
      → get_elem? es j ≡ some f
      → i < j
      → end e ≤ start f
  ordered [] i j e f s d n g h l = absurd (cc)
  ordered (x ∷ es) i zero e f s d n g h l = absurd (omega arith)
  ordered (x ∷ es) (suc i) (suc j) e f s d n g h l =
      ordered es i j e f s.1 d.1 n.1 g h (omega arith)
  ordered (x ∷ es) zero (suc j) e f s d n g h l =
      let below = All-get (λ b. start x ≤ start b) es j f s.0 h in
      let wide = All-get (NonEmpty start end) es j f n.1 h in
      let same : x ≡ e = some_inj g in
      subst (λ y. end y ≤ start f) same
        (elim (All-get (Disjoint start end x) es j f d.0 h) [
          | inl p ↦ p
          | inr q ↦ absurd (omega (arith, q, below, wide))
        ])

  -- What a search in a part of the entries finds.
  abbrev Found : List A → (addr l hi : ℕ) → Option A → Type 0
  Found es addr l hi none =
      (i : ℕ) (e : A) → l ≤ i → i < hi → get_elem? es i ≡ some e → Inside addr e → ⊥
  Found es addr l hi (some e) = Inside addr e × Occurs start end e es

  module _ (es : List A) (addr l hi mid : ℕ) (e : A) (s : IsSorted start end es)
      (d : IsDisjoint start end es) (n : All (NonEmpty start end) es)
      (g : get_elem? es mid ≡ some e) (x : l ≤ mid) (y : mid < hi) where
    upper-Found :
        (upper : Option A)
        → end e ≤ addr
        → Found es addr (mid + 1) hi upper
        → Found es addr l hi upper
    upper-Found (some f) past r = r
    upper-Found none past r = λ i f a b h p. elim (Nat-cases i mid) [
      | inl lt ↦ absurd (
          omega (
            arith,
            ordered es i mid f e s d n h g lt,
            All-get (NonEmpty start end) es mid e n g,
            p,
          ))
      | inr (inl eq) ↦
          let same : f ≡ e = some_inj (sym h ∙ ap (get_elem? es) eq ∙ g) in
          let inside = subst (Inside addr) same p in omega (arith, inside, past)
      | inr (inr gt) ↦ r i f (omega arith) b h p
    ]

    lower-Found :
        (lower : Option A) → addr < start e → Found es addr l mid lower → Found es addr l hi lower
    lower-Found (some f) out r = r
    lower-Found none out r = λ i f a b h p. elim (Nat-cases i mid) [
      | inl lt ↦ r i f a lt h p
      | inr (inl eq) ↦
          let same : f ≡ e = some_inj (sym h ∙ ap (get_elem? es) eq ∙ g) in
          let inside = subst (Inside addr) same p in omega (arith, inside, out)
      | inr (inr gt) ↦ absurd (
          omega (
            arith,
            ordered es mid i e f s d n g h gt,
            All-get (NonEmpty start end) es mid e n g,
            p,
          ))
    ]

    probe-Found :
        (lower upper : Option A)
        → Found es addr l mid lower
        → Found es addr (mid + 1) hi upper
        → Found es addr l hi (probe start end addr (some e) lower upper)
    probe-Found lower upper below above = elim (Bool-cases (leb (end e) addr)) [
      | inl past ↦ rw past (upper-Found upper (leb→le (end e) addr past) above)
      | inr before ↦ elim (Bool-cases (ltb addr (start e))) [
        | inl out ↦ rw (before, out) (lower-Found lower (ltb→lt addr (start e) out) below)
        | inr here ↦
            rw (before, here) ((ltb→le addr (start e) here, ground (arith, before)), (mid, g))
      ]
    ]

  search_loop-Found :
      (fuel : ℕ) (es : List A) (addr l hi : ℕ)
      → IsSorted start end es
      → IsDisjoint start end es
      → All (NonEmpty start end) es
      → hi ≤ length es
      → hi ≤ l + fuel
      → Found es addr l hi (search_loop start end fuel es addr l hi)
  unfolding search_loop
  search_loop-Found zero es addr l hi s d n b f = λ i e x y g p. absurd (omega arith)
  search_loop-Found (suc fuel) es addr l hi s d n b f = elim (Bool-cases (ltb l hi)) [
    | inr done ↦ rw done (λ i e x y g p. omega (arith, ltb→le l hi done))
    | inl more ↦
        let less = ltb→lt l hi more in
        let mid = (l + (hi - 1)) / 2 in
        let (e, g) = get_elem?-some es mid (omega (arith, less, b)) in
        rw (more, g)
          (probe-Found es addr l hi mid e s d n g (omega (arith, less)) (omega (arith, less))
            (search_loop start end fuel es addr l mid)
            (search_loop start end fuel es addr (mid + 1) hi)
            (search_loop-Found fuel es addr l mid s d n (omega (arith, less))
              (omega (arith, less, f)))
            (search_loop-Found fuel es addr (mid + 1) hi s d n b (omega (arith, less, f))))
  ]

  get-All :
      (P : A → Type 0) (es : List A) → ((i : ℕ) (e : A) → get_elem? es i ≡ some e → P e) → All P es
  get-All P [] f = tt
  get-All P (x ∷ es) f = (f 0 x refl, get-All P es (λ i e h. f (suc i) e h))

  get_elem?-lt : (es : List A) (i : ℕ) (e : A) → get_elem? es i ≡ some e → i < length es
  get_elem?-lt [] i e h = absurd (cc)
  get_elem?-lt (x ∷ es) zero e h = omega arith
  get_elem?-lt (x ∷ es) (suc i) e h = let r = get_elem?-lt es i e h in omega (arith, r)

  -- What a search says of the entries, in any order.
  abbrev pub Searched : List A → ℕ → Option A → Type 0
  Searched es addr none = All (λ e. Inside addr e → ⊥) es
  Searched es addr (some e) = Inside addr e × Occurs start end e es

  Found-Searched :
      (es : List A) (addr : ℕ) (r : Option A)
      → Found (sort start end es) addr 0 (length (sort start end es)) r
      → Searched es addr r
  Found-Searched es addr (some e) f = (f.0, Occurs-sort start end e es f.1)
  Found-Searched es addr none f =
      All-unsort start end (λ e. Inside addr e → ⊥) es
        (get-All (λ e. Inside addr e → ⊥) (sort start end es)
          (λ i e h. f i e (omega arith) (get_elem?-lt (sort start end es) i e h) h))

  -- For entries in any order that are not empty and of which no two overlap, the binary search of the
  -- sorted entries finds one of them that contains the address, and none only if no entry does.
  pub search-sort :
      (es : List A) (addr : ℕ)
      → IsDisjoint start end es
      → All (NonEmpty start end) es
      → Searched es addr (search start end (sort start end es) addr)
  unfolding search
  search-sort es addr d n =
      let es' = sort start end es in
      Found-Searched es addr (search start end es' addr) (
        search_loop-Found (length es') es' addr 0 (length es') (sort-IsSorted start end es)
          (sort-IsDisjoint start end es d) (All-sort start end (NonEmpty start end) es n)
          (omega arith) (omega arith))

sub64-le : (a b : ℕ) → b ≤ a → a < 2 ^ 64 → sub64 a b ≡ a - b
sub64-le a b h k = omega (arith, h, k)

-- What `Symbolicate` says of the symbols: one of them that contains the address, with the distance from
-- its start, or the empty symbol at distance 0 if no symbol contains it.
abbrev pub Named : List Symbol → ℕ → Option Symbol → Symbol × ℕ → Type 0
Named ss addr (some e) r =
    (r ≡ (e, addr - e.start))
    × Inside symbol_start symbol_end addr e
    × Occurs symbol_start symbol_end e ss
Named ss addr none r =
    (r ≡ (no_symbol, 0)) × All (λ e. Inside symbol_start symbol_end addr e → ⊥) ss

Searched-Named :
    (ss : List Symbol) (addr : ℕ) (r : Option Symbol)
    → addr < 2 ^ 64
    → Searched symbol_start symbol_end ss addr r
    → (s : Option Symbol) × Named ss addr s (with_distance addr r)
Searched-Named ss addr none b s = (none, (refl, s))
Searched-Named ss addr (some e) b s =
    (some e, (ap (λ d. (e, d)) (sub64-le addr e.start s.0.0 b), s.0, s.1))

-- For the symbols of a file in any order, none of them empty and no two with a common address, and
-- an address below 2 ^ 64: after `CacheSym` the search of `Symbolicate` finds a symbol of the file
-- that contains the address, with the distance of the address from the start of the symbol, and it
-- gives the empty symbol at distance 0 only if no symbol of the file contains the address.
pub symbolicate-cache_sym :
    (m : DebugFile) (addr : ℕ)
    → IsDisjoint symbol_start symbol_end m.symbols
    → All (NonEmpty symbol_start symbol_end) m.symbols
    → addr < 2 ^ 64
    → (s : Option Symbol) × Named m.symbols addr s (symbolicate (cache_sym m) addr)
unfolding symbolicate cache_sym
symbolicate-cache_sym m addr d n b =
    Searched-Named m.symbols addr
      (search symbol_start symbol_end (sort symbol_start symbol_end m.symbols) addr) b
      (search-sort symbol_start symbol_end m.symbols addr d n)

-- The same for the source lines, after `CacheSource`.
pub file_line-cache_source :
    (m : DebugFile) (lines : List SourceLine) (addr : ℕ)
    → IsDisjoint line_start line_end lines
    → All (NonEmpty line_start line_end) lines
    → Searched line_start line_end lines addr (file_line (cache_source m lines) addr)
unfolding file_line cache_source
file_line-cache_source m lines addr d n = search-sort line_start line_end lines addr d n
