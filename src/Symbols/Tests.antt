-- ===== src/Symbols/Tests.antt =====
-- The theorems about symbols at concrete inputs.
use usercorn.Base.{ℕ, [], ◌∷◌, Option, none, false, ◌≡◌, refl, arith, inl, inr}
use usercorn.Symbols.{
  Symbol, DebugFile, symbolicate, cache_sym, search, search_loop, sort, insert, less, no_symbol,
}
use usercorn.Symbols.Search.{Named, symbolicate-cache_sym}

abbrev symbol : ℕ → ℕ → Symbol
symbol lo hi = record { name = lo ∷ []; start = lo; end = hi; dynamic = false }

abbrev file : DebugFile
file = record {
  symbols = symbol 0x400 0x480 ∷ symbol 0x100 0x200 ∷ symbol 0x300 0x400 ∷ [];
  source_map = [];
  symbol_map = λ name. none;
}

in_the_last : symbolicate (cache_sym file) 0x440 ≡ (symbol 0x400 0x480, 0x40)
unfolding symbolicate cache_sym search search_loop sort insert less
in_the_last = refl

in_a_gap : symbolicate (cache_sym file) 0x280 ≡ (no_symbol, 0)
unfolding symbolicate cache_sym search search_loop sort insert less
in_a_gap = refl

symbolicate-cache_sym_example :
    (s : Option Symbol) × Named file.symbols 0x440 s (symbolicate (cache_sym file) 0x440)
symbolicate-cache_sym_example =
    symbolicate-cache_sym file 0x440
      ((inr (omega arith), (inr (omega arith), tt)), ((inl (omega arith), tt), (tt, tt)))
      (omega arith, (omega arith, (omega arith, tt))) (omega arith)
