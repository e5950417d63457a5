-- ===== src/Corn/Load.antt =====
-- go/usercorn.go: `mapBinary` and the start of the heap in `NewUsercorn`. What the loader says of a
-- file is a record, and `Data` of a segment an argument. The list of merged segments is left out: the
-- source does not use it. A trace does not record what is written here.
use usercorn.Base.{
  ℕ, ◌-◌, ◌*◌, ◌/◌, ◌^◌, Bool, true, false, not, ◌&&◌, List, [], ◌∷◌, Option, none, some, ltb, leb,
  ◌==◌, if◌then◌else◌, add64, sub64, bit_and,
}
use usercorn.Cpu.Page.{Page}
use usercorn.Cpu.Mem.{Mem, Result, done, failed, panic, mem_write}
use usercorn.Models.Segment.{SegmentData}
use usercorn.Task.{Task, mmap, mem_reserve}

pub record Binary : Type 0 where
  pub segments : List SegmentData
  pub name : List ℕ
  pub entry : ℕ
  pub dynamic : Bool

-- One round of the loop that finds the bounds.
unfoldable pub bound : ℕ × ℕ → SegmentData → ℕ × ℕ
bound (low, high) s =
    let end = add64 s.addr s.size in
    if s.size == 0
    then (low, high)
    else (if ltb s.addr low then s.addr else low, if ltb high end then end else high)

unfoldable pub bound_all : ℕ × ℕ → List SegmentData → ℕ × ℕ
bound_all b [] = b
bound_all b (s ∷ ss) = bound_all (bound b s) ss

abbrev pub not_above : ℕ × ℕ → ℕ × ℕ
not_above (low, high) = (if ltb high low then high else low, high)

unfoldable pub bounds : List SegmentData → ℕ × ℕ
bounds ss = not_above (bound_all (2 ^ 64 - 1, 0) ss)

-- The load bias of an interpreter leaves room for the heap at the end of the binary.
abbrev pub interp_bias : (force brk : ℕ) → ℕ
interp_bias force brk =
    let barrier = add64 brk (8 * 1024 * 1024) in if leb force barrier then barrier else force

abbrev pub map_low : (force low : ℕ) → ℕ
map_low force low = if ltb 0 force then force else if low == 0 then 0x100_0000 else low

abbrev pub biased : ℕ → Option (Task × Option Page) → Option (Task × Option ℕ)
biased low none = none
biased low (some (t, none)) = some (t, none)
biased low (some (t, some page)) = some (t, some (sub64 page.addr low))

-- The load bias of a dynamic binary; `none` inside where no memory can be reserved.
unfoldable pub reserve_bias : ℕ → Task → (force : ℕ) → List SegmentData → Option (Task × Option ℕ)
reserve_bias fuel t force ss =
    let (low, high) = bounds ss in
    biased low (mem_reserve fuel t (map_low force low) (sub64 high low) false)

-- `fuel` bounds the rounds of `MemUnmap`; with too few of them the result is `none`.
module _ (fuel prot_all : ℕ) (segment_bytes : SegmentData → Option (List ℕ)) where
  abbrev map_next : (Task → Option (Task × Bool)) → Option (Task × ℕ × Bool) → Option (Task × Bool)
  map_next rest none = none
  map_next rest (some (t, addr, true)) = rest t
  map_next rest (some (t, addr, false)) = some (t, false)

  -- The forced mappings of the segments, and whether there was no error.
  unfoldable pub map_segments :
      (bias : ℕ) (desc name : List ℕ) → List SegmentData → Task → Option (Task × Bool)
  map_segments bias desc name [] t = some (t, true)
  map_segments bias desc name (s ∷ ss) t = map_next (map_segments bias desc name ss) (
      mmap fuel t (add64 bias s.addr) s.size (if s.prot == 0 then prot_all else s.prot) true desc
        (some (record { name = name; off = s.off; len = s.size })))

  abbrev write_next : (Task → Task × Bool) → Task → Result Mem → Task × Bool
  write_next rest t (done m) = rest (record t { cpu = m })
  write_next rest t (failed e) = (t, false)
  write_next rest t panic = (t, false)

  abbrev write_bytes : (Task → Task × Bool) → Task → ℕ → Option (List ℕ) → Task × Bool
  write_bytes rest t addr none = (t, false)
  write_bytes rest t addr (some p) = write_next rest t (mem_write t.cpu addr p)

  -- The contents of the segments, and whether there was no error.
  unfoldable pub write_segments : (bias : ℕ) → List SegmentData → Task → Task × Bool
  write_segments bias [] t = (t, true)
  write_segments bias (s ∷ ss) t =
      write_bytes (write_segments bias ss) t (add64 bias s.addr) (segment_bytes s)

  -- The load bias and the entry, or an error.
  abbrev with_entry : Binary → ℕ → Task × Bool → Task × Option (ℕ × ℕ)
  with_entry b bias (t, true) = (t, some (bias, add64 bias b.entry))
  with_entry b bias (t, false) = (t, none)

  abbrev filled : Binary → ℕ → Option (Task × Bool) → Option (Task × Option (ℕ × ℕ))
  filled b bias none = none
  filled b bias (some (t, false)) = some (t, none)
  filled b bias (some (t, true)) = some (with_entry b bias (write_segments bias b.segments t))

  abbrev with_bias : Binary → List ℕ → Option (Task × Option ℕ) → Option (Task × Option (ℕ × ℕ))
  with_bias b desc none = none
  with_bias b desc (some (t, none)) = some (t, none)
  with_bias b desc (some (t, some bias)) =
      filled b bias (map_segments bias desc b.name b.segments t)

  -- The part of `mapBinary` that a binary and its interpreter share. `force` is the load bias that is
  -- asked for.
  unfoldable pub map_one : Task → Binary → (force : ℕ) → List ℕ → Option (Task × Option (ℕ × ℕ))
  map_one t b force desc =
      with_bias b desc
        (if b.dynamic then reserve_bias fuel t force b.segments else some (t, some force))

  -- What `mapBinary` returns: the base of the interpreter, the entry, the base, and the entry of the
  -- binary itself.
  pub record Loaded : Type 0 where
    pub interp_base : ℕ
    pub entry : ℕ
    pub base : ℕ
    pub real_entry : ℕ

  abbrev with_interp :
      (base real_entry : ℕ) → Option (Task × Option (ℕ × ℕ)) → Option (Task × Option Loaded)
  with_interp base real_entry none = none
  with_interp base real_entry (some (t, none)) = some (t, none)
  with_interp base real_entry (some (t, some (bias, entry))) =
      some (
        t,
        some (record { interp_base = bias; entry = entry; base = base; real_entry = real_entry }),
      )

  abbrev then_interp :
      Binary
      → Option Binary
      → (force_interp : ℕ) → List ℕ
      → Option (Task × Option (ℕ × ℕ))
      → Option (Task × Option Loaded)
  then_interp b interp force desc none = none
  then_interp b interp force desc (some (t, none)) = some (t, none)
  then_interp b none force desc (some (t, some (bias, entry))) =
      some (t, some (record { interp_base = 0; entry = entry; base = bias; real_entry = entry }))
  then_interp b (some i) force desc (some (t, some (bias, entry))) =
      with_interp bias entry (map_one t i (interp_bias force (bounds b.segments).1) desc)

  -- `interp` is the interpreter, if the binary has one that is not skipped.
  unfoldable pub map_binary :
      Task
      → Binary
      → Option Binary
      → (force force_interp : ℕ) → (exe_desc interp_desc : List ℕ) → Option (Task × Option Loaded)
  map_binary t b interp force force_interp exe_desc interp_desc =
      then_interp b interp force_interp interp_desc (map_one t b force exe_desc)

-- The start of the heap: the end of the last segment that can be written.
unfoldable pub last_written : (prot_write base : ℕ) → List SegmentData → ℕ → ℕ
last_written prot_write base [] brk = brk
last_written prot_write base (s ∷ ss) brk =
    let end = add64 (add64 base s.addr) s.size in
    let written = not (bit_and s.prot prot_write == 0) in
    last_written prot_write base ss (if written && ltb brk end then end else brk)

-- `(brk + 4096) & ^4095`
abbrev page_up : ℕ → ℕ
page_up brk = if ltb 0 brk then add64 brk 4096 / 4096 * 4096 else brk

unfoldable pub first_brk : (prot_write base : ℕ) → List SegmentData → ℕ
first_brk prot_write base ss = page_up (last_written prot_write base ss 0)
