-- ===== src/Cpu/Mem.antt =====
-- go/models/cpu/mem.go: the memory behind the interface of a cpu. Where hooks are attached, a method
-- reports to them what it did; here the report is returned beside the result.
use usercorn.Base.{
  ℕ, ◌-◌, ◌^◌, ◌/◌, ◌≡◌, Bool, true, false, List, Option, none, some, take, replicate, bit_and, ltb,
  ◌==◌, if◌then◌else◌, add64, arith,
}
use usercorn.Cpu.Page.{Page}
use usercorn.Cpu.MemSim.{
  MemError, Fault, Outcome, ok, err, range_valid, read, write, map, unmap, protect, is_fetch,
}
use usercorn.Cpu.PackUint.{ByteOrder, pack_uint, unpack_uint}
use usercorn.Cpu.PackUint

pub record Mem : Type 0 where
  pub bits : ℕ
  pub mask : ℕ
  -- whether `NewHooks` has been given this memory
  pub hooked : Bool
  pub pages : List Page
  pub order : ByteOrder

-- `^uint64(0) >> (64 - bits)`
unfoldable pub new_mem : ℕ → ByteOrder → Mem
new_mem bits order = record {
  bits = bits;
  mask = (2 ^ 64 - 1) / 2 ^ (64 - bits);
  hooked = false;
  pages = List.[];
  order = order;
}

pub data Error : Type 0 where
  outside_range not_mapped size_too_large : Error
  memory : MemError → Error
  packing : PackUint.Error → Error

pub data Result (A : Type 0) : Type 0 where
  done : A → Result A
  failed : Error → Result A
  panic : Result A

-- The memory after a call whose error is dropped.
abbrev pub or_same : Mem → Result Mem → Mem
or_same m (done m') = m'
or_same m (failed e) = m
or_same m panic = m

-- `addr+size&m.mask != addr+size`: in Go `&` binds tighter than `+`.
unfoldable pub mem_map : Mem → (addr size prot : ℕ) → Result Mem
mem_map m addr size prot =
    if add64 addr (bit_and size m.mask) == add64 addr size
    then done (record m { pages = map m.pages addr size prot true })
    else failed outside_range

unfoldable pub mem_prot : Mem → (addr size prot : ℕ) → Result Mem
mem_prot m addr size prot =
    if (range_valid m.pages addr size 0).0
    then done (record m { pages = protect m.pages addr size prot })
    else failed not_mapped

unfoldable pub mem_unmap : Mem → (addr size : ℕ) → Result Mem
mem_unmap m addr size =
    if (range_valid m.pages addr size 0).0
    then done (record m { pages = unmap m.pages addr size })
    else failed not_mapped

abbrev written : Mem → Outcome (List Page) → Result Mem
written m (ok ps) = done (record m { pages = ps })
written m (err e) = failed (memory e)

unfoldable pub mem_write : Mem → ℕ → List ℕ → Result Mem
mem_write m addr p = written m (write m.pages addr p 0)

unfoldable pub mem_zero : Mem → (addr size : ℕ) → Result Mem
mem_zero m addr size = mem_write m addr (replicate size 0)

abbrev was_read : Outcome (List ℕ) → Result (List ℕ)
was_read (ok p) = done p
was_read (err e) = failed (memory e)

-- What a method reports to the hooks.
pub data Access : Type 0 where
  fetch_access read_access write_access : Access

pub data Report : Type 0 where
  on_fault : Fault → (addr size val : ℕ) → Report
  on_mem : Access → (addr size val : ℕ) → Report

abbrev hooks_get : Mem → Report → Option Report
hooks_get m r = if m.hooked then some r else none

module _ (prot_exec : ℕ) where
  unfoldable pub mem_read_into : Mem → List ℕ → ℕ → Result (List ℕ)
  mem_read_into m p addr = was_read (read prot_exec m.pages addr p 0)

  unfoldable pub mem_read : Mem → (addr size : ℕ) → Result (List ℕ)
  mem_read m addr size = mem_read_into m (replicate size 0) addr

  abbrev report_read :
      Mem → (addr size prot : ℕ) → Outcome (List ℕ) → Result (List ℕ) × Option Report
  report_read m addr size prot (err e) =
      (failed (memory e), hooks_get m (on_fault e.enum addr size 0))
  report_read m addr size prot (ok p) = (
    done p,
    hooks_get m
        (on_mem (if is_fetch prot_exec prot then fetch_access else read_access) addr size 0),
  )

  unfoldable pub read_prot : Mem → (addr size prot : ℕ) → Result (List ℕ) × Option Report
  read_prot m addr size prot =
      report_read m addr size prot (read prot_exec m.pages addr (replicate size 0) prot)

  abbrev unpacked : PackUint.Result ℕ → Result ℕ
  unpacked (PackUint.ok v) = done v
  unpacked (PackUint.err e) = failed (packing e)
  unpacked PackUint.panic = panic

  abbrev unpack_read : ByteOrder → ℕ → Result (List ℕ) → Result ℕ
  unpack_read order size (done p) = unpacked (unpack_uint order size p)
  unpack_read order size (failed e) = failed e
  unpack_read order size panic = panic

  unfoldable pub read_uint : Mem → (addr size prot : ℕ) → Result ℕ × Option Report
  read_uint m addr size prot =
      if ltb 8 size
      then (failed size_too_large, none)
      else (unpack_read m.order size (read_prot m addr size prot).0, (read_prot m addr size prot).1)

unfoldable pub write_prot : Mem → ℕ → List ℕ → ℕ → Outcome (List Page)
write_prot m addr p prot = write m.pages addr p prot

abbrev report_write : Mem → (addr size val : ℕ) → Outcome (List Page) → Result Mem × Option Report
report_write m addr size val (err e) =
    (failed (memory e), hooks_get m (on_fault e.enum addr size val))
report_write m addr size val (ok ps) =
    (done (record m { pages = ps }), hooks_get m (on_mem write_access addr size val))

abbrev write_packed :
    Mem → (addr size prot val : ℕ) → PackUint.Result (List ℕ × List ℕ) → Result Mem × Option Report
write_packed m addr size prot val (PackUint.ok (buf, bs)) =
    report_write m addr size val (write_prot m addr (take size buf) prot)
write_packed m addr size prot val (PackUint.err e) = (failed (packing e), none)
write_packed m addr size prot val PackUint.panic = (panic, none)

unfoldable pub write_uint : Mem → (addr size prot val : ℕ) → Result Mem × Option Report
write_uint m addr size prot val =
    if ltb 8 size
    then (failed size_too_large, none)
    else write_packed m addr size prot val (pack_uint m.order size (some (replicate 8 0)) val)

-- `MemMap` accepts every region whose size alone fits the mask, wherever it lies: the address is not
-- held against the mask.
pub mem_map_any_addr :
    (m : Mem) (addr size prot : ℕ)
    → bit_and size m.mask ≡ size
    → mem_map m addr size prot ≡ done (record m { pages = map m.pages addr size prot true })
unfolding mem_map
mem_map_any_addr m addr size prot h = rw h (ground arith)
