-- ===== src/Posix/Words.antt =====
-- go/kernel/posix/kernel.go: the words of addresses, as bytes.
use usercorn.Base.{
  ℕ, zero, suc, ◌+◌, ◌*◌, ◌≤◌, ◌^◌, ◌%◌, ◌≡◌, refl, ◌∙◌, ap, List, [], ◌∷◌, ◌++◌, Option, none,
  some, length, take, drop, replicate, arith, inl, inr, length-append, length-replicate,
  take_prefix, drop_prefix, le→ltb,
}
use usercorn.Base.Bytes.{length-le}
use usercorn.Cpu.PackUint.{ByteOrder, pack_uint, packed, IsSize, put_uint, length-put_uint}
use usercorn.Cpu.PackUint as PackUint
use usercorn.Posix.{pack_loop, pack_addrs, pack_addr}

abbrev or_nothing : Option (List ℕ) → List ℕ
or_nothing none = []
or_nothing (some bs) = bs

replicate-add : (n m x : ℕ) → replicate (n + m) x ≡ replicate n x ++ replicate m x
replicate-add zero m x = ap (λ k. replicate k x) (omega arith)
replicate-add (suc n) m x =
    let e : suc n + m ≡ suc (n + m) = omega arith in rw e (ap (◌∷◌ x) (replicate-add n m x))

-- The bytes of a word.
unfoldable pub word : ByteOrder → ℕ → ℕ → List ℕ
word order bsz v = or_nothing (packed order bsz v)

-- Words one behind the other, and a word of zeros.
unfoldable pub words : ByteOrder → ℕ → List ℕ → List ℕ
words order bsz [] = replicate bsz 0
words order bsz (v ∷ vs) = word order bsz v ++ words order bsz vs

pub packed_word :
    (order : ByteOrder) (bsz v : ℕ)
    → IsSize bsz
    → (packed order bsz v ≡ some (word order bsz v)) × (length (word order bsz v) ≡ bsz)
unfolding word
packed_word order bsz v (inl e) = rw e (refl, length-put_uint order 8 v)
packed_word order bsz v (inr (inl e)) = rw e (refl, length-put_uint order 4 (v % 2 ^ 32))
packed_word order bsz v (inr (inr (inl e))) = rw e (refl, length-put_uint order 2 (v % 2 ^ 16))
packed_word order bsz v (inr (inr (inr e))) = rw e (refl, length-le 1 (v % 256))

drop-replicate : (n m x : ℕ) → drop n (replicate (n + m) x) ≡ replicate m x
drop-replicate n m x =
    ap (drop n) (replicate-add n m x)
    ∙ drop_prefix (replicate n x) (replicate m x) (length-replicate n x)

module _ (order : ByteOrder) (bsz : ℕ) (s : IsSize bsz) where
  pub length-word : (v : ℕ) → length (word order bsz v) ≡ bsz
  length-word v = (packed_word order bsz v s).1

  pub pack_uint-word :
      (v : ℕ) (buf : List ℕ)
      → bsz ≤ length buf
      → pack_uint order bsz (some buf) v
        ≡ PackUint.ok (word order bsz v ++ drop bsz buf, word order bsz v)
  unfolding pack_uint
  pack_uint-word v buf h =
      let (e, l) = packed_word order bsz v s in rw (le→ltb (length buf) bsz h, e, l) refl

  pub pack_addr-word : (v : ℕ) → bsz ≤ 8 → pack_addr order bsz v ≡ some (word order bsz v)
  unfolding pack_addr
  pack_addr-word v h =
      rw (pack_uint-word v (replicate 8 0) (omega (arith, length-replicate {A = ℕ} 8 0))) refl

  pack_loop-words :
      (addrs : List ℕ)
      → pack_loop order bsz addrs (replicate (bsz * (length addrs + 1)) 0)
        ≡ some (words order bsz addrs)
  unfolding pack_loop words
  pack_loop-words [] = let one : bsz * (0 + 1) ≡ bsz = omega arith in rw one refl
  pack_loop-words (v ∷ addrs) =
      let w = word order bsz v in
      let n = bsz * (length addrs + 1) in
      let size : bsz * (suc (length addrs) + 1) ≡ bsz + n = omega arith in
      let buf = replicate (bsz + n) 0 in
      let fits : bsz ≤ length buf = omega (arith, length-replicate {A = ℕ} (bsz + n) 0) in
      let rest : List ℕ = replicate n 0 in
      let cut : drop bsz buf ≡ rest = drop-replicate bsz n 0 in
      let packs : pack_uint order bsz (some buf) v ≡ PackUint.ok (w ++ rest, w) =
        pack_uint-word v buf fits ∙ ap (λ t. PackUint.ok (w ++ t, w)) cut in
      let behind : drop (length w) (w ++ rest) ≡ rest = drop_prefix w rest refl in
      let front : take (length w) (w ++ rest) ≡ w = take_prefix w rest refl in
      rw (size, packs, behind, front, pack_loop-words addrs) refl

  pub pack_addrs-words :
      (addrs : List ℕ) → pack_addrs order bsz addrs ≡ some (words order bsz addrs)
  unfolding pack_addrs
  pack_addrs-words addrs = pack_loop-words addrs

  pub length-words : (addrs : List ℕ) → length (words order bsz addrs) ≡ bsz * (length addrs + 1)
  unfolding words
  length-words [] = omega (arith, length-replicate {A = ℕ} bsz 0)
  length-words (v ∷ addrs) = omega (
    arith,
    length-append (word order bsz v) (words order bsz addrs),
    length-word v,
    length-words addrs,
  )
