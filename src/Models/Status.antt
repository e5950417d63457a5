-- ===== src/Models/Status.antt =====
-- go/models/status.go: what has changed in the registers. A text is the list of its bytes; `hex` is the
-- formatting of a number with leading zeros, which the Go library does.
pub mod Masks
use usercorn.Base.{
  ℕ, ◌+◌, Bool, true, false, not, ◌&&◌, ◌||◌, List, [], ◌∷◌, Option, none, some, length, get_elem?,
  take, drop, ltb, ◌==◌, if◌then◌else◌,
}

pub record ChangeMask : Type 0 where
  pub old : List ℕ
  pub new : List ℕ
  pub changed : Bool

pub record Change : Type 0 where
  pub old : ℕ
  pub new : ℕ
  pub enum : ℕ
  pub name : List ℕ

unfoldable pub new_change : List ℕ → (val old_val : ℕ) → Change
new_change name val old_val = record { old = old_val; new = val; enum = 0; name = name }

unfoldable pub changed : Change → Bool
changed c = not (c.old == c.new)

abbrev pub same_bool : Bool → Bool → Bool
same_bool true b = b
same_bool false b = not b

-- `s[pos:i]`
abbrev pub part : List ℕ → (pos i : ℕ) → List ℕ
part s pos i = drop pos (take i s)

abbrev pub mask_of : (s1 s2 : List ℕ) → (pos i : ℕ) → Bool → ChangeMask
mask_of s1 s2 pos i matching = record {
  new = part s1 pos i;
  old = part s2 pos i;
  changed = not matching;
}

abbrev pub put_mask : ChangeMask → Option (List ChangeMask) → Option (List ChangeMask)
put_mask m none = none
put_mask m (some ms) = some (m ∷ ms)

-- A round for the bytes `c` and `d`. `same` are the masks from the next byte on where the run goes on,
-- `from_pos` and `from_here` those where a run begins.
abbrev pub mask_step :
    (s1 s2 : List ℕ)
    → (c : ℕ) → (i pos : ℕ) → Bool
    → (same from_pos from_here : Option (List ChangeMask)) → Option ℕ
    → Option (List ChangeMask)
mask_step s1 s2 c i pos matching same from_pos from_here none = none
mask_step s1 s2 c i pos matching same from_pos from_here (some d) =
    if same_bool (c == d) matching
    then same
    else if ltb pos i
    then put_mask (mask_of s1 s2 pos i matching) from_here
    else from_pos

-- The loop of `Mask` over the rest of `s1`, and the last mask; `none` is an index out of range.
unfoldable pub mask_loop : (s1 s2 rest : List ℕ) → (i pos : ℕ) → Bool → Option (List ChangeMask)
mask_loop s1 s2 [] i pos matching =
    some (if ltb pos (length s1) then mask_of s1 s2 pos (length s1) matching ∷ [] else [])
mask_loop s1 s2 (c ∷ rest) i pos matching =
    mask_step s1 s2 c i pos matching (mask_loop s1 s2 rest (i + 1) pos matching)
      (mask_loop s1 s2 rest (i + 1) pos (not matching))
      (mask_loop s1 s2 rest (i + 1) i (not matching)) (get_elem? s2 i)

module _ (hex : (width val : ℕ) → List ℕ) where
  unfoldable pub mask : Change → ℕ → Option (List ChangeMask)
  mask c bsz = mask_loop (hex bsz c.new) (hex bsz c.old) (hex bsz c.new) 0 0 true

-- `Changes.Changed`, `Changes.Count` and `Changes.Find`
unfoldable pub changed_list : List Change → List Change
changed_list [] = []
changed_list (c ∷ cs) = if changed c then c ∷ changed_list cs else changed_list cs

unfoldable pub count_changed : List Change → ℕ
count_changed [] = 0
count_changed (c ∷ cs) = let rest = count_changed cs in if changed c then rest + 1 else rest

unfoldable pub find_change : List Change → ℕ → Option Change
find_change [] enum = none
find_change (c ∷ cs) enum =
    let rest = find_change cs enum in if c.enum == enum then some c else rest

-- `RegVal`, and `s.oldRegs` of a `StatusDiff`, which is nil at first.
pub record RegVal : Type 0 where
  pub enum : ℕ
  pub name : List ℕ
  pub is_default : Bool
  pub val : ℕ

abbrev pub old_reg : Option (ℕ → Option ℕ) → ℕ → ℕ
old_reg none enum = 0
old_reg (some m) enum = elim (m enum) [ none ↦ 0 | some v ↦ v ]

unfoldable pub change_list : Bool → Option (ℕ → Option ℕ) → List RegVal → List Change
change_list only_changed old_regs [] = []
change_list only_changed old_regs (r ∷ regs) =
    let rest = change_list only_changed old_regs regs in
    let change = new_change r.name r.val (old_reg old_regs r.enum) in
    if only_changed && not r.is_default
    then rest
    else if not only_changed || changed change
    then change ∷ rest
    else rest

unfoldable pub saved_regs : List RegVal → (ℕ → Option ℕ) → ℕ → Option ℕ
saved_regs [] m = m
saved_regs (r ∷ regs) m = saved_regs regs (λ k. if r.enum == k then some r.val else m k)

-- `StatusDiff.Changes`, over what `RegDump` returns: the changes and the next `s.oldRegs`.
unfoldable pub changes : Option (ℕ → Option ℕ) → Bool → List RegVal → List Change × (ℕ → Option ℕ)
changes old_regs only_changed regs =
    (change_list only_changed old_regs regs, saved_regs regs (λ k. none))
