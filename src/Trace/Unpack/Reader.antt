-- ===== src/Trace/Unpack/Reader.antt =====
-- An `io.Reader` as the list of the bytes that it still has, and a read that may fail.
use usercorn.Base.{ℕ, ◌+◌, List, [], ◌∷◌, length, take, drop, leb, if◌then◌else◌}

pub data Error : Type 0 where
  eof unexpected_eof nested_frame : Error
  unknown_op : ℕ → Error
  -- what `errors.Wrap` makes of an error, which is not the error itself
  wrapped : Error → Error

-- The Go functions return a value, the number of bytes that they count, and an error. `panic` is a
-- slice bound out of range. `stuck` is no Go outcome: the fuel of the model ran out.
pub data Outcome (A : Type 0) : Type 0 where
  done : A → (total : ℕ) (rest : List ℕ) → Outcome A
  failed : Error → (total : ℕ) (rest : List ℕ) → Outcome A
  panic stuck : Outcome A

-- Count `n` bytes that were read before.
abbrev pub add_total : {A : Type 0} → ℕ → Outcome A → Outcome A
add_total n (done a total rest) = done a (n + total) rest
add_total n (failed e total rest) = failed e (n + total) rest
add_total n panic = panic
add_total n stuck = stuck

abbrev pub Read : Type 0 → Type 0
Read A = List ℕ → Outcome A

abbrev pub then_read : {A B : Type 0} → Outcome A → (A → Read B) → Outcome B
then_read (done a total rest) f = add_total total (f a rest)
then_read (failed e total rest) f = failed e total rest
then_read panic f = panic
then_read stuck f = stuck

-- The outcome with its error wrapped.
abbrev pub wrap : {A : Type 0} → Outcome A → Outcome A
wrap (done a total rest) = done a total rest
wrap (failed e total rest) = failed (wrapped e) total rest
wrap panic = panic
wrap stuck = stuck

abbrev pub wrapping : {A : Type 0} → Read A → Read A
wrapping m src = wrap (m src)

infixl 5 ◌>>=◌
abbrev pub ◌>>=◌ : {A B : Type 0} → Read A → (A → Read B) → Read B
◌>>=◌ m f src = then_read (m src) f

abbrev pub pure : {A : Type 0} → A → Read A
pure a src = done a 0 src

abbrev pub fail : {A : Type 0} → Error → Read A
fail e src = failed e 0 src

-- `io.ReadFull` into `n` bytes.
unfoldable pub read_full : ℕ → Read (List ℕ)
read_full n [] = if leb n 0 then done [] 0 [] else failed eof 0 []
read_full n (b ∷ src) =
    if leb n (length (b ∷ src))
    then done (take n (b ∷ src)) n (drop n (b ∷ src))
    else failed unexpected_eof (length (b ∷ src)) []
