-- ===== src/Trace/Collect/Keyframe.antt =====
-- go/models/trace/trace.go: `Attach`, which describes the state so far in a keyframe, less the hooks
-- that it adds. The mappings, and what `MemRead` gives for a range, are arguments.
use usercorn.Trace.Collect.{map_op}
use usercorn.Base.{subst}
use usercorn.Base.{◌∙◌}
use usercorn.Base.{ap}
use usercorn.Base.{==_iff}
use usercorn.Base.{suc}
use usercorn.Base.{inr}
use usercorn.Base.{inl}
use usercorn.Base.{Bool-cases}
use usercorn.Base.{
  ℕ, ◌≡◌, ◌≢◌, refl, Bool, true, false, List, [], ◌∷◌, ◌++◌, Option, none, some, ◌==◌,
  if◌then◌else◌, replicate, length, get_elem?, arith,
}
use usercorn.Cpu.Page.{Page}
use usercorn.Trace.Op.{Op, mem_write}
use usercorn.Trace.Batch.{MemBatch, plain}
use usercorn.Trace.Collect.{Trace, Entry, item, on_reg_update, on_events, Event, detach}
use usercorn.Trace.Collect.Live.{IsLive, Detached, detach-Detached, on_events-IsLive}

unfoldable pub trim_left : List ℕ → List ℕ
trim_left [] = []
trim_left (b ∷ xs) = let rest = trim_left xs in if b == 0 then rest else b ∷ xs

abbrev before_right : ℕ → List ℕ → List ℕ
before_right b [] = if b == 0 then [] else b ∷ []
before_right b (x ∷ xs) = b ∷ x ∷ xs

unfoldable pub trim_right : List ℕ → List ℕ
trim_right [] = []
trim_right (b ∷ xs) = before_right b (trim_right xs)

-- `bytes.Trim(data, "\x00")`
unfoldable pub trim : List ℕ → List ℕ
trim xs = trim_right (trim_left xs)

abbrev page_with : Page → Option (List ℕ) → Option (List Op) → Option (List Op)
page_with m (some bytes) (some ops) =
    some (map_op m.addr m.size m.prot m.desc m.file ∷ mem_write m.addr (trim bytes) ∷ ops)
page_with m _ _ = none

-- The loop of `Attach` over the mappings; nothing when a mapping cannot be read.
unfoldable pub map_ops : (ℕ → ℕ → Option (List ℕ)) → List Page → Option (List Op)
map_ops read [] = some []
map_ops read (m ∷ ms) = page_with m (read m.addr m.size) (map_ops read ms)

pub data Attached : Type 0 where
  already failed : Attached
  -- the keyframe that is packed and sent
  keyed : List Entry → Attached

abbrev emptied : Option MemBatch → Option MemBatch
emptied none = none
emptied (some m) = some (record m { mem_ops = [] })

abbrev entries : List Op → List Entry
entries [] = []
entries (op ∷ ops) = item (plain op) ∷ entries ops

abbrev opened : Option (List Entry) → List Entry
opened none = []
opened (some frame) = frame

-- What follows the keyframe is counted from here.
abbrev attach_with : Trace → List Entry → Option (List Op) → Trace × Attached
attach_with t es none = (record t { frame = none }, failed)
attach_with t es (some ops) = (
  record t { frame = none; attached = true; filters = emptied t.filters; packed = []; sent = [] },
  keyed (es ++ entries ops),
)

-- The registers, in a frame that is dropped.
abbrev with_regs : Trace → List ℕ → Trace
with_regs t dump =
    on_reg_update (record t { regs = replicate (length t.reg_enums) 0; frame = some [] }) dump

unfoldable pub attach : Trace → List ℕ → (ℕ → ℕ → Option (List ℕ)) → List Page → Trace × Attached
attach t dump read ms =
    let u = with_regs t dump in
    if t.attached then (t, already) else attach_with u (opened u.frame) (map_ops read ms)

trim_left-zeros : (xs : List ℕ) → (n : ℕ) × (xs ≡ replicate n 0 ++ trim_left xs)
unfolding trim_left
trim_left-zeros [] = (0, refl)
trim_left-zeros (b ∷ xs) = elim (Bool-cases (b == 0)) [
  | inl e ↦
      let (n, p) = trim_left-zeros xs in
      (suc n, rw e (simp ((==_iff b 0).0 e) (ap (λ ys. 0 ∷ ys) p)))
  | inr e ↦ (0, rw e refl)
]

trim_right-zeros : (xs : List ℕ) → (n : ℕ) × (xs ≡ trim_right xs ++ replicate n 0)
unfolding trim_right
trim_right-zeros [] = (0, refl)
trim_right-zeros (b ∷ xs) = let (n, p) = trim_right-zeros xs in before n (trim_right xs) p
  where
    before :
        (n : ℕ) (ys : List ℕ)
        → xs ≡ ys ++ replicate n 0
        → (k : ℕ) × (b ∷ xs ≡ before_right b ys ++ replicate k 0)
    before n [] p = elim (Bool-cases (b == 0)) [
      | inl e ↦ (suc n, rw e (simp ((==_iff b 0).0 e) (ap (λ ys. 0 ∷ ys) p)))
      | inr e ↦ (n, rw e (ap (λ ys. b ∷ ys) p))
    ]
    before n (y ∷ ys) p = (n, ap (λ ys. b ∷ ys) p)

-- Not the bytes of a memory that starts with a zero.
pub StartsNonzero : List ℕ → Type 0
StartsNonzero xs = get_elem? xs 0 ≢ some 0

nonzero : {b : ℕ} → (b == 0) ≡ false → some b ≢ some 0
nonzero {b} e h = let z : b ≡ 0 = cc (h) in ground (arith, z)

trim_left-StartsNonzero : (xs : List ℕ) → StartsNonzero (trim_left xs)
unfolding trim_left StartsNonzero
trim_left-StartsNonzero [] = λ h. cc
trim_left-StartsNonzero (b ∷ xs) = elim (Bool-cases (b == 0)) [
  | inl e ↦ rw e (trim_left-StartsNonzero xs)
  | inr e ↦ rw e (λ h. nonzero e h)
]

trim_right-StartsNonzero : (xs : List ℕ) → StartsNonzero xs → StartsNonzero (trim_right xs)
unfolding trim_right StartsNonzero
trim_right-StartsNonzero [] h = h
trim_right-StartsNonzero (b ∷ xs) h = with_rest (trim_right xs)
  where
    with_rest : (ys : List ℕ) → get_elem? (before_right b ys) 0 ≢ some 0
    with_rest [] = elim (Bool-cases (b == 0)) [ inl e ↦ rw e (λ k. cc) | inr e ↦ rw e h ]
    with_rest (y ∷ ys) = h

trim_lem :
    (xs : List ℕ)
    → (n : ℕ) × (k : ℕ) × (xs ≡ replicate n 0 ++ (trim xs ++ replicate k 0))
      × StartsNonzero (trim xs)
unfolding trim
trim_lem xs =
    let (n, p) = trim_left-zeros xs in
    let (k, q) = trim_right-zeros (trim_left xs) in
    (
      n,
      k,
      p ∙ ap (λ ys. replicate n 0 ++ ys) q,
      trim_right-StartsNonzero (trim_left xs) (trim_left-StartsNonzero xs),
    )

-- What the keyframe says of a mapping `m` whose bytes are `xs`: its place, and then a write at its
-- first address of what is left of `xs` less `n` zeros in front and `k` zeros behind. What is written
-- never starts with a zero, so with `n` zeros in front the write puts each byte `n` too low.
pub map_ops-zeros :
    (read : ℕ → ℕ → Option (List ℕ)) (m : Page) (ms : List Page) (xs : List ℕ) (ops : List Op)
    → read m.addr m.size ≡ some xs
    → map_ops read (m ∷ ms) ≡ some ops
    → (n : ℕ) × (k : ℕ) × (bytes : List ℕ) × (rest : List Op) × (ops
        ≡ map_op m.addr m.size m.prot m.desc m.file ∷ mem_write m.addr bytes ∷ rest)
      × (xs ≡ replicate n 0 ++ (bytes ++ replicate k 0))
      × StartsNonzero bytes
unfolding map_ops
map_ops-zeros read m ms xs ops p q = with_rest (map_ops read ms) (simp p at q)
  where
    with_rest :
        (rest : Option (List Op))
        → page_with m (some xs) rest ≡ some ops
        → (n : ℕ) × (k : ℕ) × (bytes : List ℕ) × (rest : List Op) × (ops
            ≡ map_op m.addr m.size m.prot m.desc m.file ∷ mem_write m.addr bytes ∷ rest)
          × (xs ≡ replicate n 0 ++ (bytes ++ replicate k 0))
          × StartsNonzero bytes
    with_rest none e = absurd (cc)
    with_rest (some rest) e = let (n, k, r, z) = trim_lem xs in (n, k, trim xs, rest, cc, r, z)

keyed_failed : {kf : List Entry} → failed ≢ keyed kf
keyed_failed p = cc

keyed_already : {kf : List Entry} → already ≢ keyed kf
keyed_already p = cc

attach_with-IsLive :
    (t u : Trace) (es kf : List Entry) (ops : Option (List Op))
    → attach_with t es ops ≡ (u, keyed kf)
    → IsLive u
attach_with-IsLive t u es kf none p = absurd (keyed_failed (ap (λ r. r.1) p))
attach_with-IsLive t u es kf (some ops) p =
    subst IsLive (ap (λ r. r.0) p) (record { attached = refl; sent = refl })

not_then {ℓ} : {A : Type ℓ} → (b : Bool) {x y r : A} → (if b then x else y) ≡ r → x ≢ r → y ≡ r
not_then true p h = absurd (h p)
not_then false p h = p

attach-IsLive :
    (t u : Trace) (dump : List ℕ) (read : ℕ → ℕ → Option (List ℕ)) (ms : List Page)
    (kf : List Entry)
    → attach t dump read ms ≡ (u, keyed kf)
    → IsLive u
unfolding attach
attach-IsLive t u dump read ms kf p =
    attach_with-IsLive (with_regs t dump) u (opened (with_regs t dump).frame) kf (map_ops read ms)
      (not_then t.attached p (λ q. keyed_already (ap (λ r. r.1) q)))

-- After `Attach` with a keyframe, any events and `Detach`: what the callbacks were given since the
-- keyframe is what the packed frames hold, frame by frame and in the same order, no frame is left
-- open, and the collector is not attached.
pub attach-detach :
    (t u : Trace) (dump : List ℕ) (read : ℕ → ℕ → Option (List ℕ)) (ms : List Page)
    (kf : List Entry) (es : List (List ℕ × Event)) (last : List ℕ)
    → attach t dump read ms ≡ (u, keyed kf)
    → Detached (detach (on_events u es) last)
attach-detach t u dump read ms kf es last p =
    detach-Detached (on_events u es) last
      (on_events-IsLive es u (attach-IsLive t u dump read ms kf p))
