-- ===== src/Trace/Pack/Writes.antt =====
-- The stores that `Pack` makes, as values, and what they do to a buffer.
use usercorn.Base.{
  ℕ, zero, suc, ◌+◌, ◌-◌, ◌≤◌, ◌≡◌, refl, ap, subst, ◌∙◌, List, [], ◌∷◌, ◌++◌, append_assoc, Option,
  none, some, length, take, drop, arith, leb, if◌then◌else◌, length-append, drop-drop, le→leb,
  take_prefix, drop_prefix, sym, length-drop, append-nil,
}

infixl 5 ◌>>=◌
abbrev pub ◌>>=◌ : {A B : Type 0} → Option A → (A → Option B) → Option B
none >>= f = none
some a >>= f = f a

pub data Write : Type 0 where
  -- `p[at] = b` and `order.PutUintN(p[at:], v)`, which need room for all their bytes
  put : (at : ℕ) (bytes : List ℕ) → Write
  -- `copy(p[at:], bytes)`, which stops at the end of the buffer
  copy : (at : ℕ) (bytes : List ℕ) → Write

abbrev poke : ℕ → List ℕ → List ℕ → List ℕ
poke at bytes p = take at p ++ (bytes ++ drop (at + length bytes) p)

pub write : Write → List ℕ → Option (List ℕ)
write (put at bytes) p = if leb (at + length bytes) (length p) then some (poke at bytes p) else none
write (copy at bytes) p =
    if leb at (length p) then some (poke at (take (length p - at) bytes) p) else none

pub writes : List Write → List ℕ → Option (List ℕ)
writes [] p = some p
writes (w ∷ ws) p = do p' ← write w p; writes ws p'

abbrev pub written : Write → List ℕ
written (put at bytes) = bytes
written (copy at bytes) = bytes

abbrev start : Write → ℕ
start (put at bytes) = at
start (copy at bytes) = at

abbrev pub all_written : List Write → List ℕ
all_written [] = []
all_written (w ∷ ws) = written w ++ all_written ws

-- Each store begins where the one before it ended.
abbrev pub IsContiguous : ℕ → List Write → Type 0
IsContiguous k [] = Unit
IsContiguous k (w ∷ ws) = (start w ≡ k) × IsContiguous (k + length (written w)) ws

-- Past a prefix of length `k` a drop leaves the rest.
drop_past :
    (k : ℕ) (done old : List ℕ) (n : ℕ) → length done ≡ k → drop (k + n) (done ++ old) ≡ drop n old
drop_past k done old n e = sym (drop-drop k n (done ++ old)) ∙ ap (drop n) (drop_prefix done old e)

poke_past :
    (at : ℕ) (bytes done old : List ℕ)
    → length done ≡ at
    → poke at bytes (done ++ old) ≡ (done ++ bytes) ++ drop (length bytes) old
poke_past at bytes done old e =
    rw (take_prefix done old e, drop_past at done old (length bytes) e)
      (sym (append_assoc done bytes (drop (length bytes) old)))

take_full : (n : ℕ) (xs : List ℕ) → length xs ≤ n → take n xs ≡ xs
take_full zero [] h = refl
take_full zero (x ∷ xs) h = absurd (omega arith)
take_full (suc n) [] h = refl
take_full (suc n) (x ∷ xs) h = ap (◌∷◌ x) (take_full n xs (omega arith))

write_next :
    (w : Write) (done old : List ℕ)
    → start w ≡ length done
    → length (written w) ≤ length old
    → write w (done ++ old) ≡ some ((done ++ written w) ++ drop (length (written w)) old)
unfolding write
write_next (put at bytes) done old s h =
    rw (le→leb (at + length bytes) (length (done ++ old)) (omega (arith, length-append done old)))
      (ap some (poke_past at bytes done old (sym s)))
write_next (copy at bytes) done old s h =
    rw
      (
        le→leb at (length (done ++ old)) (omega (arith, length-append done old)),
        take_full (length (done ++ old) - at) bytes (omega (arith, length-append done old)),
      )
      (ap some (poke_past at bytes done old (sym s)))

-- Contiguous stores that fit replace the bytes from where they start, and nothing else.
pub writes_contiguous :
    (ws : List Write) (done old : List ℕ)
    → IsContiguous (length done) ws
    → length (all_written ws) ≤ length old
    → writes ws (done ++ old)
      ≡ some ((done ++ all_written ws) ++ drop (length (all_written ws)) old)
unfolding writes
writes_contiguous [] done old c h = ap some (ap (λ d. d ++ old) (sym (append-nil done)))
writes_contiguous (w ∷ ws) done old c h =
    let fits = length-append (written w) (all_written ws) in
    rw (write_next w done old c.0 (omega (arith, fits))) (
      writes_contiguous ws (done ++ written w) (drop (length (written w)) old)
        (subst (λ k. IsContiguous k ws) (sym (length-append done (written w))) c.1)
        (omega (arith, fits, length-drop (length (written w)) old))
      ∙ ap some (
          rw (
            append_assoc done (written w) (all_written ws),
            drop-drop (length (written w)) (length (all_written ws)) old,
            fits,
          )))
