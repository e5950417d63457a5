-- ===== src/Debug/Packet/Laws.antt =====
-- What is sent can be read; what `unescape` makes of it.
use usercorn.Base.{append-nil}
use usercorn.Base.{◌⊎◌}
use usercorn.Base.{inr}
use usercorn.Base.{inl}
use usercorn.Base.{
  ℕ, ◌≡◌, ◌≢◌, refl, ◌∙◌, ap, sym, true, false, List, [], ◌∷◌, ◌++◌, some, ◌==◌, bit_xor, arith,
  All, Bool-cases, append_assoc,
}
use usercorn.Debug.Text.{same_text}
use usercorn.Debug.Packet.{
  is_special, escape, unescape, unescape_from, checksum, frame, read_packet, Link, packet,
  check_packet, round, add_byte,
}

same_text_refl : (s : List ℕ) → same_text s s ≡ true
same_text_refl [] = refl
same_text_refl (c ∷ s) = ground (arith, same_text_refl s)

special-cases : (c : ℕ) → is_special c ≡ true → (c ≡ 35) ⊎ (c ≡ 36) ⊎ (c ≡ 125)
special-cases c h = ground (arith, h)

-- The byte that stands for a special one is not `#`.
escaped_byte : (c : ℕ) → is_special c ≡ true → (bit_xor c 0x20 == b'#') ≡ false
escaped_byte c h = elim (special-cases c h) [
  | inl e ↦ ap (λ d. bit_xor d 0x20 == b'#') e
  | inr (inl e) ↦ ap (λ d. bit_xor d 0x20 == b'#') e
  | inr (inr e) ↦ ap (λ d. bit_xor d 0x20 == b'#') e
]

-- What is escaped has no `#`, so that a reader stops only behind it.
read_packet-escape :
    (s rest : List ℕ) → read_packet (escape s ++ (b'#' ∷ rest)) ≡ some (escape s, rest)
unfolding read_packet escape
read_packet-escape [] rest = refl
read_packet-escape (c ∷ s) rest = elim (Bool-cases (is_special c)) [
  | inl special ↦ rw (special, escaped_byte c special, read_packet-escape s rest) refl
  | inr plain ↦ rw plain (ground (arith, plain, read_packet-escape s rest))
]

-- A round of the loop takes exactly one packet that was sent, with the right checksum, whatever it
-- holds and whatever follows it.
pub round-frame :
    (l : Link) (s rest : List ℕ) → round l (frame s ++ rest) ≡ packet l true (escape s) rest
unfolding round frame read_packet checksum
round-frame l s rest =
    let sum = checksum (escape s) in
    ap (λ xs. check_packet l (add_byte b'$' (read_packet xs)))
      (append_assoc (escape s) (b'#' ∷ sum) rest)
    ∙ (ap (λ r. check_packet l (add_byte b'$' r)) (read_packet-escape s (sum ++ rest))
        ∙ ap (λ good. packet l good (escape s) rest) (same_text_refl sum))

-- No byte of the payload is one that `escape` or `unescape` changes.
abbrev pub IsPlain : List ℕ → Type 0
IsPlain p = All (λ c. (is_special c ≡ false) × (c ≢ b'{')) p

-- `{` does not stand among the bytes.
abbrev pub NoBrace : List ℕ → Type 0
NoBrace p = All (λ c. c ≢ b'{') p

unescape_plain :
    (p rest : List ℕ) → NoBrace p → unescape_from false (p ++ rest) ≡ p ++ unescape_from false rest
unfolding unescape_from
unescape_plain [] rest h = refl
unescape_plain (c ∷ []) [] h = refl
unescape_plain (c ∷ []) (d ∷ rest) h = ground (arith, h.0)
unescape_plain (c ∷ d ∷ p) rest h = ground (arith, h.0, unescape_plain (d ∷ p) rest h.1)

unescape_rest : (p : List ℕ) → unescape_from true p ≡ []
unfolding unescape_from
unescape_rest [] = refl
unescape_rest (c ∷ p) = unescape_rest p

escape_plain : (p rest : List ℕ) → IsPlain p → escape (p ++ rest) ≡ p ++ escape rest
unfolding escape
escape_plain [] rest h = refl
escape_plain (c ∷ p) rest h = rw (h.0.0) (ap (◌∷◌ c) (escape_plain p rest h.1))

IsPlain-NoBrace : (p : List ℕ) → IsPlain p → NoBrace p
IsPlain-NoBrace [] h = tt
IsPlain-NoBrace (c ∷ p) h = (h.0.1, IsPlain-NoBrace p h.1)

escape_same : (p : List ℕ) → IsPlain p → escape p ≡ p
unfolding escape
escape_same [] h = refl
escape_same (c ∷ p) h = rw (h.0.0) (ap (◌∷◌ c) (escape_same p h.1))

-- `unescape` gives back what was sent only where `escape` changed nothing: it looks for `{` in place
-- of `}`. A payload of plain bytes comes back as it is; a plain payload with one special byte behind
-- it comes back with two bytes for that one.
pub unescape-escape :
    (p : List ℕ)
    → IsPlain p
    → (unescape (escape p) ≡ p)
      × ((c : ℕ)
          → is_special c ≡ true
          → unescape (escape (p ++ (c ∷ []))) ≡ p ++ (b'}' ∷ bit_xor c 0x20 ∷ []))
unfolding unescape escape unescape_from
unescape-escape p h =
    let brace = IsPlain-NoBrace p h in
    (
      ap unescape (escape_same p h)
          ∙ (ap (unescape_from false) (sym (append-nil p))
              ∙ (unescape_plain p [] brace ∙ append-nil p)),
      λ c e.
          ap unescape (escape_plain p (c ∷ []) h)
          ∙ (unescape_plain p (escape (c ∷ [])) brace ∙ rw e refl),
    )

-- Behind the first `{` with a byte behind it `unescape` keeps one byte and drops all others, however
-- many there are.
pub unescape_drops :
    (p rest : List ℕ) (d : ℕ)
    → NoBrace p
    → unescape (p ++ (b'{' ∷ d ∷ rest)) ≡ p ++ (bit_xor d 0x20 ∷ [])
unfolding unescape unescape_from
unescape_drops p rest d h =
    unescape_plain p (b'{' ∷ d ∷ rest) h
    ∙ ap (λ r. p ++ (bit_xor d 0x20 ∷ r)) (unescape_rest (d ∷ rest))
