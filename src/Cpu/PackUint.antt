-- ===== src/Cpu/PackUint.antt =====
-- go/models/cpu/pack_uint.go: integers of 1, 2, 4 or 8 bytes in either byte order.
use mathlib.Core.List.{reverse-cons}
use usercorn.Base.{[], ◌∷◌, sym}
use mathlib.Core.List.{reverse-reverse}
use usercorn.Base.Bytes.{length-le}
use usercorn.Base.{take_prefix}
use usercorn.Base.{IsU64}
use usercorn.Base.{◌||◌}
use usercorn.Base.{
  ℕ, ◌≤◌, ◌<◌, ◌^◌, ◌%◌, ◌≡◌, refl, ◌∙◌, ap, List, ◌++◌, Option, none, some, Bool, length, take,
  drop, replicate, ltb, ◌==◌, if◌then◌else◌, arith, ◌⊎◌, inl, inr, length-append, le→ltb,
}
use mathlib.Core.List.{reverse}
use usercorn.Base.Bytes.{le, le_val, le_val-le}

-- The two byte orders of encoding/binary.
pub data ByteOrder : Type 0 where
  little big : ByteOrder

-- `order.PutUintN` of `n` bytes
abbrev pub put_uint : ByteOrder → ℕ → ℕ → List ℕ
put_uint little n v = le n v
put_uint big n v = reverse (le n v)

-- `order.UintN` of the first `n` bytes
abbrev pub get_uint : ByteOrder → ℕ → List ℕ → ℕ
get_uint little n buf = le_val (take n buf)
get_uint big n buf = le_val (reverse (take n buf))

pub data Error : Type 0 where
  buffer_too_small unsupported_size : Error

pub data Result (A : Type 0) : Type 0 where
  ok : A → Result A
  err : Error → Result A
  -- an index out of range
  panic : Result A

-- `make([]byte, size)` for a nil buffer
abbrev buffer : Option (List ℕ) → ℕ → List ℕ
buffer none size = replicate size 0
buffer (some buf) size = buf

-- The bytes of `n` cut to `size` bytes, if that is a size that the code knows.
abbrev pub packed : ByteOrder → ℕ → ℕ → Option (List ℕ)
packed order size n =
    if size == 8
    then some (put_uint order 8 n)
    else if size == 4
    then some (put_uint order 4 (n % 2 ^ 32))
    else if size == 2
    then some (put_uint order 2 (n % 2 ^ 16))
    else if size == 1
    then some (le 1 (n % 256))
    else none

abbrev stored : Option (List ℕ) → List ℕ → Result (List ℕ × List ℕ)
stored none buf = err unsupported_size
stored (some bs) buf = ok (bs ++ drop (length bs) buf, bs)

-- `PackUint(order, size, buf, n)`: the buffer afterwards, and its part that is returned.
unfoldable pub pack_uint : ByteOrder → ℕ → Option (List ℕ) → ℕ → Result (List ℕ × List ℕ)
pack_uint order size buf n =
    if ltb (length (buffer buf size)) size
    then err buffer_too_small
    else stored (packed order size n) (buffer buf size)

abbrev known_size : ℕ → Bool
known_size size = size == 8 || (size == 4 || (size == 2 || size == 1))

-- `UnpackUint(order, size, buf)`, which panics on a buffer that is too short.
unfoldable pub unpack_uint : ByteOrder → ℕ → List ℕ → Result ℕ
unpack_uint order size buf =
    if known_size size
    then (if ltb (length buf) size
        then panic
        else ok (get_uint (if size == 1 then little else order) size buf))
    else err unsupported_size

abbrev pub IsSize : ℕ → Type 0
IsSize size = (size ≡ 8) ⊎ (size ≡ 4) ⊎ (size ≡ 2) ⊎ (size ≡ 1)

length-reverse : (xs : List ℕ) → length (reverse xs) ≡ length xs
length-reverse [] = refl
length-reverse (x ∷ xs) =
    omega
      (arith, ap length (reverse-cons x xs), length-append (reverse xs) (x ∷ []), length-reverse xs)

pub length-put_uint : (order : ByteOrder) (n v : ℕ) → length (put_uint order n v) ≡ n
length-put_uint little n v = length-le n v
length-put_uint big n v = length-reverse (le n v) ∙ length-le n v

get_uint-put_uint :
    (order : ByteOrder) (n v : ℕ) (rest : List ℕ)
    → v < 256 ^ n
    → get_uint order n (put_uint order n v ++ rest) ≡ v
get_uint-put_uint little n v rest h =
    ap le_val (take_prefix (le n v) rest (length-le n v)) ∙ le_val-le n v h
get_uint-put_uint big n v rest h =
    ap (λ bs. le_val (reverse bs)) (take_prefix (reverse (le n v)) rest (length-put_uint big n v))
    ∙ ap le_val (reverse-reverse (le n v))
    ∙ le_val-le n v h

-- One byte is the same in both orders.
one_byte : (order : ByteOrder) (v : ℕ) → put_uint order 1 v ≡ le 1 v
one_byte little v = refl
one_byte big v = refl

packed_lem :
    (order : ByteOrder) (size n : ℕ)
    → IsSize size
    → IsU64 n
    → packed order size n ≡ some (put_uint order size (n % 256 ^ size))
packed_lem order size n (inl e) h = rw e (ap (λ v. some (put_uint order 8 v)) (omega arith))
packed_lem order size n (inr (inl e)) h = rw e
packed_lem order size n (inr (inr (inl e))) h = rw e
packed_lem order size n (inr (inr (inr e))) h = rw e (ap some (sym (one_byte order (n % 256))))

get_one : (order : ByteOrder) (buf : List ℕ) → le_val (take 1 buf) ≡ get_uint order 1 buf
get_one little buf = refl
get_one big [] = refl
get_one big (x ∷ buf) = refl

small : (size n : ℕ) → IsSize size → n % 256 ^ size < 256 ^ size
small size n (inl e) = rw e (omega arith)
small size n (inr (inl e)) = rw e (omega arith)
small size n (inr (inr (inl e))) = rw e (omega arith)
small size n (inr (inr (inr e))) = rw e (omega arith)

unpacked_lem :
    (order : ByteOrder) (size : ℕ) (buf : List ℕ)
    → IsSize size
    → size ≤ length buf
    → unpack_uint order size buf ≡ ok (get_uint order size buf)
unfolding unpack_uint
unpacked_lem order size buf (inl e) h = rw (e, le→ltb (length buf) 8 (omega arith))
unpacked_lem order size buf (inr (inl e)) h = rw (e, le→ltb (length buf) 4 (omega arith))
unpacked_lem order size buf (inr (inr (inl e))) h = rw (e, le→ltb (length buf) 2 (omega arith))
unpacked_lem order size buf (inr (inr (inr e))) h =
    rw (e, le→ltb (length buf) 1 (omega arith)) (ap ok (get_one order buf))

-- For each size that the code knows and either byte order, `PackUint` into a buffer with room for it
-- overwrites just the first `size` bytes, and `UnpackUint` of what it returns, whatever follows it,
-- gives the number cut to that many bytes.
pub unpack_uint-pack_uint :
    (order : ByteOrder) (size n : ℕ) (buf rest : List ℕ)
    → IsSize size
    → IsU64 n
    → size ≤ length buf
    → (bs : List ℕ) × (pack_uint order size (some buf) n ≡ ok (bs ++ drop size buf, bs))
      × (length bs ≡ size)
      × (unpack_uint order size (bs ++ rest) ≡ ok (n % 256 ^ size))
unfolding pack_uint
unpack_uint-pack_uint order size n buf rest s h l =
    let v = n % 256 ^ size in
    let bs = put_uint order size v in
    let len = length-put_uint order size v in
    (
      bs,
      rw (le→ltb (length buf) size l, packed_lem order size n s h, len),
      len,
      unpacked_lem order size (bs ++ rest) s (omega (arith, len, length-append bs rest))
          ∙ ap ok (get_uint-put_uint order size v rest (small size n s)),
    )
