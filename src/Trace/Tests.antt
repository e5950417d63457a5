-- ===== src/Trace/Tests.antt =====
-- The theorems about traces at concrete inputs.
use usercorn.Trace.Unpack.Reader.{read_full}
use usercorn.Base.{inl}
use usercorn.Trace.Unpack.Reader.{unexpected_eof}
use usercorn.Trace.Unpack.Decode.{unpack_body}
use usercorn.Trace.Unpack.Reader.{wrapped}
use usercorn.Trace.Batch.{plain}
use usercorn.Base.{Option}
use usercorn.Base.{
  ℕ, suc, ◌+◌, ◌≡◌, refl, true, false, List, [], ◌∷◌, ◌++◌, length, drop, replicate, some, none,
  arith, ◌∙◌, length-replicate,
}
use usercorn.Trace.Op.{Op, nil, cons, jmp, step, syscall, frame, null, sizeof, mem_map}
use usercorn.Trace.Pack.Encode.{pack}
use usercorn.Trace.Pack.Bytes.{encode, pack-encode}
use usercorn.Trace.Unpack.Reader.{done, eof}
use usercorn.Trace.Unpack.Decode.{unpack, unpack_ops}
use usercorn.Trace.Unpack.RoundTrip.{strip, strip_ops, unpack-pack}
use usercorn.Trace.Unpack.Total.{unpack-IsSound, IsSound}
use usercorn.Trace.Op.{Ops, mem_write, reg}
use usercorn.Cpu.PackUint.{little}
use usercorn.Trace.Batch.{filter_all, batch}
use usercorn.Trace.Batch
use usercorn.Trace.Batch.Laws.{flush_loses}
use usercorn.Trace.Replay.{Replay, new_replay, feed}
use usercorn.Trace.Replay.Laws.{steps, steps_in, fed, counted, feed_lem}
use usercorn.Trace.Collect.{
  Trace, Event, Entry, item, on_events, detach, at_block, at_code, before_sys, at_write, after_sys,
}
use usercorn.Trace.Collect.Live.{Detached}
use usercorn.Cpu.Page.{Page}
use usercorn.Base.{Option}
use usercorn.Trace.Batch.{plain}
use usercorn.Trace.Collect.{on_reg_update, changed_regs, append_all}
use usercorn.Trace.Collect.Keyframe.{
  keyed, trim, trim_left, trim_right, attach, attach-detach, map_ops, map_ops-zeros, StartsNonzero,
}
use usercorn.Trace.Unpack.Reader.{failed as read_failed}
use usercorn.Trace.File.{next as next_frame, write_frames, read_frames, read_frames-write_frames}

-- A frame with a jump and a system call that itself holds a step.
abbrev calls : Op
calls = syscall 4 7 (1 ∷ 0x1_0000 ∷ []) (0x41 ∷ []) (cons (step 3) nil)

abbrev sample : Op
sample = frame 9 (cons (jmp 0x40_1000 5) (cons calls nil))

abbrev buffer : List ℕ
buffer = replicate 70 0xee

pack-encode_example :
    (pack sample buffer ≡ some (encode sample ++ drop (sizeof sample) buffer))
    × (length (encode sample) ≡ sizeof sample)
pack-encode_example = pack-encode sample buffer (tt, ((tt, tt), tt)) (omega arith)

unpack-pack_example :
    (out : List ℕ) × (pack sample buffer ≡ some out)
    × (length out ≡ length buffer)
    × (unpack (suc (length out)) false out
        ≡ done (strip sample) (sizeof sample) (drop (sizeof sample) buffer))
unpack-pack_example = unpack-pack sample false buffer (omega arith) tt (omega arith)

-- A frame that is cut off within its header.
cut : next_frame (1 ∷ 9 ∷ 0 ∷ []) ≡ read_failed (wrapped unexpected_eof) 3 []
unfolding next_frame unpack unpack_body read_full
cut = refl

read_frames-write_frames_example :
    (bytes : List ℕ) × (write_frames [] (cons sample (cons sample nil)) ≡ some bytes)
    × (read_frames 3 bytes ≡ some (strip_ops (cons sample (cons sample nil)), none))
    × (read_frames 3 (bytes ++ (1 ∷ 9 ∷ 0 ∷ []))
        ≡ some (strip_ops (cons sample (cons sample nil)), some (wrapped unexpected_eof)))
read_frames-write_frames_example =
    read_frames-write_frames (cons sample (cons sample nil)) 1 (9 ∷ 0 ∷ []) []
      (wrapped unexpected_eof) 3 (omega arith) (inl refl) cut

unpack-IsSound_example : IsSound 3 (unpack 4 true (4 ∷ 7 ∷ 99 ∷ []))
unpack-IsSound_example = unpack-IsSound 4 true (4 ∷ 7 ∷ 99 ∷ []) (omega arith)

-- The input ends behind a system call that announces two operations.
nothing_left :
    unpack_ops (unpack 1 true) 2 [] ≡ done (cons null (cons null nil), some (wrapped eof)) 0 []
unfolding unpack_ops unpack
nothing_left = refl

half_full : (n : ℕ) → n ≡ 40_000 → length (replicate {A = ℕ} n 0) ≡ 40_000
half_full n e = length-replicate n 0 ∙ e

flush_loses_example :
    Batch.flush (mem_write 10 (3 ∷ []) ∷ mem_write 8 (1 ∷ 2 ∷ []) ∷ [])
    ≡ batch (mem_write 8 (1 ∷ 2 ∷ []) ∷ []) ∷ []
flush_loses_example = flush_loses 8 (1 ∷ 2 ∷ []) (3 ∷ []) (omega arith) (omega arith) (omega arith)

-- A player at which one step waits.
abbrev player : Replay
player = record (new_replay 4 32 little) { pending = some 5 }

abbrev played : Ops
played = cons (step 2) (cons (reg 4 100) (cons (jmp 64 3) (cons (step 1) nil)))

feed_lem_example :
    ((feed player (frame 1 played)).pending ≡ none)
    × (steps (feed player (frame 1 played)).emitted ≡ fed player ++ steps_in played)
    × ((feed player (frame 1 played)).inscount ≡ counted player + length (steps_in played))
feed_lem_example = feed_lem player 1 played

-- A collector that is not attached, of a machine with two registers.
abbrev idle : Trace
idle = record {
  reg_enums = 1 ∷ 2 ∷ [];
  pc_reg = 2;
  regs = [];
  frame = none;
  syscall = none;
  step = none;
  step_addr = 0;
  filters = some (record { mem_ops = []; pc = 0; selfjmp = false });
  attached = false;
  packed = [];
  sent = [];
}

abbrev stack_page : Page
stack_page = record { addr = 0x1000; size = 4; prot = 3; bytes = []; desc = 0x73 ∷ []; file = none }

abbrev read_page : ℕ → ℕ → Option (List ℕ)
read_page addr size = some (0 ∷ 7 ∷ 0 ∷ 0 ∷ [])

abbrev run : List (List ℕ × Event)
run =
    (0 ∷ 0x10 ∷ [], at_block 0x10 4)
    ∷ (0 ∷ 0x10 ∷ [], at_code 0x10 2)
    ∷ (5 ∷ 0x12 ∷ [], at_code 0x12 2)
    ∷ (5 ∷ 0x12 ∷ [], before_sys 1 (3 ∷ []) [])
    ∷ (5 ∷ 0x12 ∷ [], at_write 0x1001 (9 ∷ []))
    ∷ (9 ∷ 0x14 ∷ [], after_sys 3 [])
    ∷ (9 ∷ 0x14 ∷ [], at_block 0x20 4)
    ∷ []

-- What `Attach` leaves, and the keyframe.
abbrev idle_attached : Trace
idle_attached = (attach idle (0 ∷ 0x10 ∷ []) read_page (stack_page ∷ [])).0

abbrev first_ops : List Op
first_ops = mem_map 0x1000 4 3 0 0 (0x73 ∷ []) [] ∷ mem_write 0x1000 (7 ∷ []) ∷ []

abbrev first_keyframe : List Entry
first_keyframe =
    item (plain (mem_map 0x1000 4 3 0 0 (0x73 ∷ []) []))
    ∷ item (plain (mem_write 0x1000 (7 ∷ [])))
    ∷ []

first_maps : map_ops read_page (stack_page ∷ []) ≡ some first_ops
unfolding map_ops trim trim_left trim_right
first_maps = refl

keyed_first :
    attach idle (0 ∷ 0x10 ∷ []) read_page (stack_page ∷ []) ≡ (idle_attached, keyed first_keyframe)
unfolding attach on_reg_update changed_regs append_all map_ops trim trim_left trim_right
keyed_first = refl

attach-detach_example : Detached (detach (on_events idle_attached run) (9 ∷ 0x20 ∷ []))
attach-detach_example =
    attach-detach idle idle_attached (0 ∷ 0x10 ∷ []) read_page (stack_page ∷ []) first_keyframe run
      (9 ∷ 0x20 ∷ []) keyed_first

map_ops-zeros_example :
    (n : ℕ) × (k : ℕ) × (bytes : List ℕ) × (rest : List Op) × (first_ops
      ≡ mem_map 0x1000 4 3 0 0 (0x73 ∷ []) [] ∷ mem_write 0x1000 bytes ∷ rest)
    × (◌≡◌ {A = List ℕ} (0 ∷ 7 ∷ 0 ∷ 0 ∷ []) (replicate n 0 ++ (bytes ++ replicate k 0)))
    × StartsNonzero bytes
map_ops-zeros_example =
    map_ops-zeros read_page stack_page [] (0 ∷ 7 ∷ 0 ∷ 0 ∷ []) first_ops refl first_maps
