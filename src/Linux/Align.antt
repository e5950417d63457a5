-- ===== src/Linux/Align.antt =====
-- go/kernel/linux/elf_auxv.go: the size of the auxiliary vector, and what it does to the stack pointer.
use usercorn.Base.{replicate}
use usercorn.Base.{length-replicate}
use usercorn.Base.{
  ℕ, ◌+◌, ◌-◌, ◌*◌, ◌≤◌, ◌<◌, ◌%◌, ◌≡◌, refl, ◌∙◌, ap, Bool, true, false, ◌&&◌, List, [], ◌∷◌, ◌++◌,
  some, length, ltb, ◌==◌, if◌then◌else◌, arith, Bool-cases, inl, inr, ◌⊎◌, length-append,
}
use usercorn.Cpu.PackUint.{ByteOrder, IsSize}
use usercorn.Task.Stack.{Machine}
use usercorn.Posix.{c_string}
use usercorn.Posix.Push.{OnStack, push_bytes-Pushed}
use usercorn.Posix.Words.{word, packed_word}
use usercorn.Posix.Start.{needed, stack_init-Started}
use usercorn.Linux.{Program, Host, phdr_addr, entries, pack_auxv, linux_stack_init}

-- The bytes of the entries.
record Packed (order : ByteOrder) (bsz : ℕ) (auxv : List (ℕ × ℕ)) : Type 0 where
  bytes : List ℕ
  packs : pack_auxv order bsz auxv ≡ some bytes
  size : length bytes ≡ 2 * (bsz * length auxv)

pack_auxv-Packed :
    (order : ByteOrder) (bsz : ℕ) (auxv : List (ℕ × ℕ)) → IsSize bsz → Packed order bsz auxv
unfolding pack_auxv
pack_auxv-Packed order bsz [] s = record { bytes = []; packs = refl; size = omega arith }
pack_auxv-Packed order bsz ((t, v) ∷ auxv) s =
    let rest = pack_auxv-Packed order bsz auxv s in
    let (e, l) = packed_word order bsz t s in
    let (f, k) = packed_word order bsz v s in
    record {
      bytes = word order bsz t ++ (word order bsz v ++ rest.bytes);
      packs = rw (e, f, rest.packs) refl;
      size = omega (
        arith,
        length-append (word order bsz t) (word order bsz v ++ rest.bytes),
        length-append (word order bsz v) rest.bytes,
        l,
        k,
        rest.size,
      );
    }

-- The number of the entries.
abbrev pub entry_count : Program → ℕ
entry_count p = if ltb 0 (phdr_addr p.segments p.phdr_off) then 15 else 12

length-entries :
    (bits : ℕ) (p : Program) (host : Host) (a b : ℕ)
    → length (entries bits p host a b) ≡ entry_count p
length-entries bits p host a b = elim (Bool-cases (ltb 0 (phdr_addr p.segments p.phdr_off))) [
  | inl e ↦ rw e refl
  | inr e ↦ rw e refl
]

-- A word of 8 or 4 bytes.
abbrev pub IsWord : ℕ → Type 0
IsWord bsz = (bsz ≡ 8) ⊎ (bsz ≡ 4)

pub IsWord-IsSize : (bsz : ℕ) → IsWord bsz → IsSize bsz
IsWord-IsSize bsz (inl e) = inl e
IsWord-IsSize bsz (inr e) = inr (inl e)

-- Where the stack pointer is modulo 16.
abbrev pub off_by : (bsz : ℕ) → Program → ℕ
off_by bsz p = if bsz == 4 && ltb 0 (phdr_addr p.segments p.phdr_off) then 8 else 0

off_by-low :
    (bsz low size : ℕ) (p : Program)
    → IsWord bsz
    → size ≡ 2 * (bsz * entry_count p)
    → (low + size) % 16 ≡ 0
    → low % 16 ≡ off_by bsz p
off_by-low bsz low size p (inl eight) e h =
    let wide : (bsz == 4) ≡ false = ground arith in
    elim (Bool-cases (ltb 0 (phdr_addr p.segments p.phdr_off))) [
      | inl f ↦
          let n : size ≡ 2 * (8 * 15) = e ∙ rw (eight, f) refl in rw wide (omega (arith, n, h))
      | inr f ↦
          let n : size ≡ 2 * (8 * 12) = e ∙ rw (eight, f) refl in rw wide (omega (arith, n, h))
    ]
off_by-low bsz low size p (inr four) e h =
    let narrow : (bsz == 4) ≡ true = ground arith in
    elim (Bool-cases (ltb 0 (phdr_addr p.segments p.phdr_off))) [
      | inl f ↦
          let n : size ≡ 2 * (4 * 15) = e ∙ rw (four, f) refl in
          rw (narrow, f) (omega (arith, n, h))
      | inr f ↦
          let n : size ≡ 2 * (4 * 12) = e ∙ rw (four, f) refl in
          rw (narrow, f) (omega (arith, n, h))
    ]

module _ (prot_exec sp lo hi base : ℕ) (order : ByteOrder) (bsz : ℕ) (w : IsWord bsz) (p : Program)
    (host : Host) where
  pub record Ready (args env : List (List ℕ)) (r : Machine × Bool) : Type 0 where
    pub machine : Machine
    pub low : ℕ
    pub done : r ≡ (machine, true)
    pub at : machine.regs.vals sp ≡ some low
    pub off : low % 16 ≡ off_by bsz p

  -- The bytes that the stack needs at most.
  abbrev pub all_needed : (args env : List (List ℕ)) → ℕ
  all_needed args env =
      length host.random
      + length (c_string p.arch)
      + needed prot_exec sp lo hi base order bsz (IsWord-IsSize bsz w) args env
          (replicate (2 * (bsz * entry_count p)) 0)

  -- On well-formed memory that is mapped for as many bytes below the stack pointer as are needed,
  -- and for words of 8 or 4 bytes, `StackInit` of Linux succeeds, and the stack pointer is a
  -- multiple of 16, but for a program of 32 bits with the address of its headers in the auxiliary
  -- vector, where it is 8 modulo 16.
  pub linux_stack_init-Ready :
      (args env : List (List ℕ)) (m : Machine) (v : ℕ)
      → OnStack sp lo hi base order m v
      → 0 < length host.random
      → base + all_needed args env ≤ v
      → Ready args env (linux_stack_init prot_exec sp bsz p host args env m)
  unfolding linux_stack_init
  linux_stack_init-Ready args env m v s z l =
      let size = IsWord-IsSize bsz w in
      let zeros = length-replicate {A = ℕ} (2 * (bsz * entry_count p)) 0 in
      let name = length-append p.arch (0 ∷ []) in
      let rand =
        push_bytes-Pushed prot_exec sp lo hi base order m v host.random s z
          (omega (arith, zeros)) in
      let v1 = v - length host.random in
      let platform =
        push_bytes-Pushed prot_exec sp lo hi base order rand.machine v1 (c_string p.arch) rand.stack
          (omega (arith, name)) (omega (arith, zeros)) in
      let v2 = v1 - length (c_string p.arch) in
      let auxv = entries (8 * bsz) p host v2 v1 in
      let packs = pack_auxv-Packed order bsz auxv size in
      let bytes : length packs.bytes ≡ 2 * (bsz * entry_count p) =
        packs.size ∙ ap (λ n. 2 * (bsz * n)) (length-entries (8 * bsz) p host v2 v1) in
      let start =
        stack_init-Started prot_exec sp lo hi base order bsz size args env packs.bytes
          platform.machine v2 platform.stack (omega (arith, zeros, bytes)) in
      record {
        machine = start.machine;
        low = start.low;
        done = rw (rand.pushed, platform.pushed, platform.stack.order_eq, packs.packs) start.done;
        at = start.at;
        off = off_by-low bsz start.low (length packs.bytes) p w bytes start.even;
      }
