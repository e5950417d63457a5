-- ===== src/Base/Bytes.antt =====
-- encoding/binary: the fixed-width integers of a byte order.
use Prim.Native.Nat.{ℕ, zero, suc, ◌+◌, ◌*◌, ◌/◌, ◌%◌, ◌^◌, ◌<◌}
use mathlib.Core.Path.{◌≡◌, refl, ap}
use mathlib.Core.List.{List, [], ◌∷◌}
use native.Mathlib.Omega.{arith}
use native.Mathlib.Nat.{pow-suc}
use usercorn.Base.Lists.{length}

-- The `k` low bytes of `v`, lowest first (`LittleEndian.PutUint`).
abbrev pub le : ℕ → ℕ → List ℕ
le zero v = []
le (suc k) v = (v % 256) ∷ le k (v / 256)

-- The number that bytes stand for, lowest first (`LittleEndian.Uint`).
abbrev pub le_val : List ℕ → ℕ
le_val [] = 0
le_val (b ∷ bs) = b + 256 * le_val bs

pub length-le : (k v : ℕ) → length (le k v) ≡ k
length-le zero v = refl
length-le (suc k) v = ap suc (length-le k (v / 256))

pub le_val-le : (k v : ℕ) → v < 256 ^ k → le_val (le k v) ≡ v
le_val-le zero v h = omega arith
le_val-le (suc k) v h = omega (arith, le_val-le k (v / 256) (omega (arith, pow-suc 256 k)))
