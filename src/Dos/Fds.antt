-- ===== src/Dos/Fds.antt =====
-- go/arch/x86_16/dos.go: the table of the file descriptors.
use usercorn.Base.{subst}
use usercorn.Base.{
  ℕ, zero, suc, ◌+◌, ◌≤◌, ◌<◌, ◌≡◌, refl, List, [], ◌∷◌, Option, none, some, ◌==◌, if◌then◌else◌,
  arith, Bool-cases, Option-cases, inl, inr,
}
use usercorn.Dos.{lookup, delete, put, num_fds, free_from, get_fd, free_fd, taken}

pub lookup-delete :
    (k j : ℕ) (m : List (ℕ × ℕ)) → lookup (delete k m) j ≡ (if k == j then none else lookup m j)
lookup-delete k j [] = ground arith
lookup-delete k j ((i, v) ∷ m) = ground (arith, lookup-delete k j m)

pub lookup-put :
    (k v j : ℕ) (m : List (ℕ × ℕ)) → lookup (put k v m) j ≡ (if k == j then some v else lookup m j)
lookup-put k v j m = ground (arith, lookup-delete k j m)

abbrev pub Used : List (ℕ × ℕ) → ℕ → Type 0
Used fds j = (v : ℕ) × (lookup fds j ≡ some v)

abbrev Lowest : List (ℕ × ℕ) → (i end : ℕ) → Option ℕ → Type 0
Lowest fds i end none = (j : ℕ) → i ≤ j → j < end → Used fds j
Lowest fds i end (some a) =
    (i ≤ a) × (a < end) × (lookup fds a ≡ none) × ((j : ℕ) → i ≤ j → j < a → Used fds j)

Lowest-behind :
    (fds : List (ℕ × ℕ)) (i end : ℕ) (r : Option ℕ)
    → Used fds i
    → Lowest fds (i + 1) end r
    → Lowest fds i end r
Lowest-behind fds i end none u l = λ j a b. elim (Bool-cases (i == j)) [
  | inl e ↦ let same : i ≡ j = ground arith in subst (Used fds) same u
  | inr e ↦ l j (ground arith) b
]
Lowest-behind fds i end (some x) u l = (
  omega (arith, l.0),
  l.1,
  l.2,
  λ j a b. elim (Bool-cases (i == j)) [
    | inl e ↦ let same : i ≡ j = ground arith in subst (Used fds) same u
    | inr e ↦ l.3 j (ground arith) b
  ],
)

free_from-Lowest : (n : ℕ) (fds : List (ℕ × ℕ)) (i : ℕ) → Lowest fds i (i + n) (free_from n fds i)
unfolding free_from
free_from-Lowest zero fds i = λ j a b. absurd (omega arith)
free_from-Lowest (suc n) fds i = elim (Option-cases (lookup fds i)) [
  | inl e ↦ rw e (omega arith, omega arith, e, λ j a b. absurd (omega arith))
  | inr (v, e) ↦
      let end : i + 1 + n ≡ i + suc n = omega arith in
      rw e (
        Lowest-behind fds i (i + suc n) (free_from n fds (i + 1)) (v, e)
          (subst (λ t. Lowest fds (i + 1) t (free_from n fds (i + 1))) end
            (free_from-Lowest n fds (i + 1))))
]

-- What `getFd` makes of the table: it is full and stays as it is, or the lowest free number is given.
abbrev pub Assigned : List (ℕ × ℕ) → ℕ → List (ℕ × ℕ) × Option ℕ → Type 0
Assigned fds fd (fds', none) = (fds' ≡ fds) × ((j : ℕ) → j < num_fds → Used fds j)
Assigned fds fd (fds', some i) =
    (i < num_fds)
    × (lookup fds i ≡ none)
    × ((j : ℕ) → j < i → Used fds j)
    × ((k : ℕ) → lookup fds' k ≡ (if i == k then some fd else lookup fds k))

taken-Assigned :
    (fds : List (ℕ × ℕ)) (fd : ℕ) (r : Option ℕ)
    → Lowest fds 0 num_fds r
    → Assigned fds fd (taken fds fd r)
taken-Assigned fds fd none l = (refl, λ j. l j (omega arith))
taken-Assigned fds fd (some i) l = (l.1, l.2, λ j. l.3 j (omega arith), λ k. lookup-put i fd k fds)

-- `getFd` gives the lowest number below 256 that the table does not have and enters the descriptor
-- of the host under it, and no other entry changes. It fails only if all 256 numbers are in use,
-- and then the table stays as it is.
pub get_fd-Assigned : (fds : List (ℕ × ℕ)) (fd : ℕ) → Assigned fds fd (get_fd fds fd)
unfolding get_fd
get_fd-Assigned fds fd =
    taken-Assigned fds fd (free_from num_fds fds 0) (free_from-Lowest num_fds fds 0)

-- What `freeFd` makes of the table.
pub free_fd-some :
    (fds : List (ℕ × ℕ)) (fd realfd : ℕ)
    → lookup fds fd ≡ some realfd
    → free_fd fds fd ≡ (delete fd fds, some realfd)
unfolding free_fd
free_fd-some fds fd realfd e = rw e refl
