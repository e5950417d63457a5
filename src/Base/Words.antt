-- ===== src/Base/Words.antt =====
-- Go's unsigned arithmetic on 64 bits, with its wrap-around.
use Prim.Native.Nat.{ℕ, ◌+◌, ◌-◌, ◌%◌, ◌^◌, ◌<◌}

-- uint64 a + b
abbrev pub add64 : ℕ → ℕ → ℕ
add64 a b = (a + b) % 2 ^ 64

-- uint64 a - b
abbrev pub sub64 : ℕ → ℕ → ℕ
sub64 a b = (a + 2 ^ 64 - b) % 2 ^ 64

abbrev pub IsU64 : ℕ → Type 0
IsU64 a = a < 2 ^ 64

abbrev pub IsByte : ℕ → Type 0
IsByte b = b < 256
