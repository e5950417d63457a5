-- ===== src/Linux.antt =====
-- go/kernel/linux/elf_auxv.go and `StackInit` of go/kernel/linux/kernel.go, behind `MapStack`: the
-- auxiliary vector of a program. The random bytes and the numbers of the user are arguments; the
-- library struc packs a size_t as a word of the program.
pub mod Align
mod Tests
use usercorn.Base.{
  ℕ, ◌+◌, ◌*◌, Bool, true, false, List, [], ◌∷◌, ◌++◌, Option, none, some, ltb, if◌then◌else◌, ◌==◌,
  add64, length,
}
use usercorn.Cpu.PackUint.{ByteOrder, packed}
use usercorn.Models.Segment.{SegmentData, contains_phys}
use usercorn.Task.Stack.{Machine, push_bytes}
use usercorn.Posix.{c_string, stack_init}

-- What the loader says of a program.
pub record Program : Type 0 where
  pub arch : List ℕ
  pub interp_base : ℕ
  pub bin_entry : ℕ
  pub phdr_off : ℕ
  pub phdr_count : ℕ
  pub segments : List SegmentData

-- What the host says: the bytes of `rand.Read`, and the user and group.
pub record Host : Type 0 where
  pub random : List ℕ
  pub uid : ℕ
  pub euid : ℕ
  pub gid : ℕ
  pub egid : ℕ

-- The loop over the segments.
unfoldable pub phdr_addr : List SegmentData → ℕ → ℕ
phdr_addr [] off = off
phdr_addr (s ∷ ss) off =
    let rest = phdr_addr ss off in if contains_phys s off then add64 off s.addr else rest

abbrev pub phdr_ent : ℕ → ℕ
phdr_ent bits = if bits == 32 then 32 else 56

-- The entries about the headers of the program, if it has any.
abbrev pub phdr_entries : (bits addr count : ℕ) → List (ℕ × ℕ)
phdr_entries bits addr count =
    if ltb 0 addr then (3, addr) ∷ (4, phdr_ent bits) ∷ (5, count) ∷ [] else []

-- The main table.
abbrev pub main_entries : Program → Host → (platform_addr rand_addr : ℕ) → List (ℕ × ℕ)
main_entries p host platform_addr rand_addr =
    (6, 4096)
    ∷ (7, p.interp_base)
    ∷ (8, 0)
    ∷ (9, p.bin_entry)
    ∷ (11, host.uid)
    ∷ (12, host.euid)
    ∷ (13, host.gid)
    ∷ (14, host.egid)
    ∷ (15, platform_addr)
    ∷ (17, 100)
    ∷ (25, rand_addr)
    ∷ (0, 0)
    ∷ []

abbrev pub entries : (bits : ℕ) → Program → Host → (platform_addr rand_addr : ℕ) → List (ℕ × ℕ)
entries bits p host platform_addr rand_addr =
    phdr_entries bits (phdr_addr p.segments p.phdr_off) p.phdr_count
    ++ main_entries p host platform_addr rand_addr

module _ (order : ByteOrder) (bsz : ℕ) where
  abbrev pub packed_entry : Option (List ℕ) → Option (List ℕ) → Option (List ℕ) → Option (List ℕ)
  packed_entry (some t) (some v) (some rest) = some (t ++ (v ++ rest))
  packed_entry t v rest = none

  unfoldable pub pack_auxv : List (ℕ × ℕ) → Option (List ℕ)
  pack_auxv [] = some []
  pack_auxv ((t, v) ∷ auxv) =
      packed_entry (packed order bsz t) (packed order bsz v) (pack_auxv auxv)

module _ (prot_exec sp bsz : ℕ) (p : Program) (host : Host) where
  abbrev pub auxv_packed : (args env : List (List ℕ)) → Machine → Option (List ℕ) → Machine × Bool
  auxv_packed args env m none = (m, false)
  auxv_packed args env m (some auxv) = stack_init prot_exec sp bsz args env auxv m

  abbrev pub platform_pushed :
      (args env : List (List ℕ)) → (rand_addr : ℕ) → Machine × Option ℕ → Machine × Bool
  platform_pushed args env rand_addr (m, none) = (m, false)
  platform_pushed args env rand_addr (m, some platform_addr) =
      auxv_packed args env m
        (pack_auxv m.cpu.order bsz (entries (8 * bsz) p host platform_addr rand_addr))

  abbrev pub random_pushed : (args env : List (List ℕ)) → Machine × Option ℕ → Machine × Bool
  random_pushed args env (m, none) = (m, false)
  random_pushed args env (m, some rand_addr) =
      platform_pushed args env rand_addr (push_bytes prot_exec sp m (c_string p.arch))

  -- `StackInit`: `SetupElfAuxv` and then the stack.
  unfoldable pub linux_stack_init : (args env : List (List ℕ)) → Machine → Machine × Bool
  linux_stack_init args env m = random_pushed args env (push_bytes prot_exec sp m host.random)
