-- ===== src/Symbols.antt =====
-- go/models/debug/file.go: the symbols and the source lines of a file, and the searches in them. What
-- the DWARF reader and the file system give is in the lists. A text is the list of its bytes.
pub mod Sort
pub mod Search
mod Tests
use usercorn.Base.{
  ℕ, zero, suc, ◌+◌, ◌-◌, ◌/◌, Bool, true, false, ◌&&◌, ◌||◌, List, [], ◌∷◌, Option, none, some,
  length, get_elem?, ltb, leb, ◌==◌, if◌then◌else◌, sub64,
}

pub record Symbol : Type 0 where
  pub name : List ℕ
  pub start : ℕ
  pub end : ℕ
  pub dynamic : Bool

pub record SourceLine : Type 0 where
  pub start : ℕ
  pub end : ℕ
  pub line : ℕ
  pub source : List ℕ

unfoldable pub line_contains : SourceLine → ℕ → Bool
line_contains s addr = leb s.start addr && ltb addr s.end

abbrev pub same_name : List ℕ → List ℕ → Bool
same_name [] [] = true
same_name [] (d ∷ t) = false
same_name (c ∷ s) [] = false
same_name (c ∷ s) (d ∷ t) = c == d && same_name s t

pub record DebugFile : Type 0 where
  pub symbols : List Symbol
  pub source_map : List SourceLine
  pub symbol_map : List ℕ → Option Symbol

module _ {A : Type 0} (start end : A → ℕ) where
  unfoldable pub less : A → A → Bool
  less a b = ltb (start a) (start b) || (start a == start b && ltb (end a) (end b))

  unfoldable pub insert : A → List A → List A
  insert a [] = a ∷ []
  insert a (b ∷ bs) = let rest = insert a bs in if less b a then b ∷ rest else a ∷ b ∷ bs

  -- `sort.Sort`; the order of equal ranges is open in Go.
  unfoldable pub sort : List A → List A
  sort [] = []
  sort (a ∷ as') = insert a (sort as')

  -- The branches of a round; `lower` and `upper` are the next rounds.
  abbrev pub probe : ℕ → Option A → (lower upper : Option A) → Option A
  probe addr none lower upper = none
  probe addr (some e) lower upper =
      if leb (end e) addr then upper else (if ltb addr (start e) then lower else some e)

  -- `hi` is the source's `r + 1`. A round takes at least one entry off the range.
  unfoldable pub search_loop : ℕ → List A → (addr l hi : ℕ) → Option A
  search_loop zero es addr l hi = none
  search_loop (suc fuel) es addr l hi =
      let mid = (l + (hi - 1)) / 2 in
      let lower = search_loop fuel es addr l mid in
      let upper = search_loop fuel es addr (mid + 1) hi in
      if ltb l hi then probe addr (get_elem? es mid) lower upper else none

  unfoldable pub search : List A → ℕ → Option A
  search es addr = search_loop (length es) es addr 0 (length es)

abbrev pub symbol_start : Symbol → ℕ
symbol_start s = s.start

abbrev pub symbol_end : Symbol → ℕ
symbol_end s = s.end

abbrev pub line_start : SourceLine → ℕ
line_start s = s.start

abbrev pub line_end : SourceLine → ℕ
line_end s = s.end

-- `for _, sym := range m.Symbols { m.SymbolMap[sym.Name] = sym }`
unfoldable pub put_all : List Symbol → (List ℕ → Option Symbol) → List ℕ → Option Symbol
put_all [] m = m
put_all (s ∷ ss) m = put_all ss (λ name. if same_name s.name name then some s else m name)

unfoldable pub cache_sym : DebugFile → DebugFile
cache_sym m = record m {
  symbol_map = put_all m.symbols (λ name. none);
  symbols = sort symbol_start symbol_end m.symbols;
}

-- `lines` is what `buildSourceMap` returns.
unfoldable pub cache_source : DebugFile → List SourceLine → DebugFile
cache_source m lines = record m { source_map = sort line_start line_end lines }

abbrev pub no_symbol : Symbol
no_symbol = record { name = []; start = 0; end = 0; dynamic = false }

abbrev pub with_distance : ℕ → Option Symbol → Symbol × ℕ
with_distance addr none = (no_symbol, 0)
with_distance addr (some e) = (e, sub64 addr e.start)

unfoldable pub symbolicate : DebugFile → ℕ → Symbol × ℕ
symbolicate m addr = with_distance addr (search symbol_start symbol_end m.symbols addr)

abbrev pub or_no_symbol : Option Symbol → Symbol
or_no_symbol none = no_symbol
or_no_symbol (some s) = s

unfoldable pub symbol_lookup : DebugFile → List ℕ → Symbol
symbol_lookup m name = or_no_symbol (m.symbol_map name)

unfoldable pub file_line : DebugFile → ℕ → Option SourceLine
file_line m addr = search line_start line_end m.source_map addr
