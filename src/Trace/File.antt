-- ===== src/Trace/File.antt =====
-- go/models/trace/tracefile.go: the frames of a trace, written one after the other and read back.
-- The header goes through the package struc and the frames through snappy; both are left out, so a
-- stream is here the bytes that `TraceWriter` hands to the compressor.
use usercorn.Trace.Op.{keyframe}
use usercorn.Base.{inr}
use usercorn.Base.{true}
use usercorn.Trace.Op.{frame}
use usercorn.Base.{subst}
use usercorn.Trace.Unpack.Reader.{unknown_op}
use usercorn.Base.{inl}
use usercorn.Trace.Op.{op_keyframe}
use usercorn.Trace.Unpack.Reader.{wrapped}
use usercorn.Base.{◌⊎◌}
use usercorn.Trace.Unpack.Decode.{unpack_body}
use usercorn.Trace.Op.{op_frame}
use usercorn.Base.{◌∷◌}
use usercorn.Base.{
  ℕ, zero, suc, ◌≡◌, refl, sym, ap, ◌∙◌, List, [], ◌++◌, length, replicate, Option, none, some,
  false, arith, append-nil, append_assoc, length-replicate, drop_all,
}
use usercorn.Trace.Op.{Op, Ops, nil, cons, count, sizeof}
use usercorn.Trace.Unpack.Wrapped.{
  IsWrapped, FailsWrapped, add_total-FailsWrapped, unpack_frame-FailsWrapped,
}
use usercorn.Trace.Pack.Writes.{◌>>=◌}
use usercorn.Trace.Pack.Encode.{pack}
use usercorn.Trace.Pack.Bytes.{encode, encode_ops, pack-encode}
use usercorn.Trace.Unpack.Reader.{
  Error, unexpected_eof, nested_frame, unknown_op, Outcome, done, failed, panic, stuck, eof,
}
use usercorn.Trace.Unpack.Decode.{unpack}
use usercorn.Trace.Unpack.RoundTrip.{Fits, Fits→IsWhole, strip, strip_ops, unpack-encode}

-- `tmp := make([]byte, frame.Sizeof()); frame.Pack(tmp); t.zw.Write(tmp)`
pub write_frame : List ℕ → Op → Option (List ℕ)
write_frame written op = do tmp ← pack op (replicate (sizeof op) 0); some (written ++ tmp)

pub write_frames : List ℕ → Ops → Option (List ℕ)
write_frames written nil = some written
write_frames written (cons op ops) = do written' ← write_frame written op; write_frames written' ops

-- `TraceReader.Next`, with fuel for any nesting in `src`.
unfoldable pub next : List ℕ → Outcome Op
next src = unpack (suc (length src)) false src

abbrev cons_frame : Op → Option (Ops × Option Error) → Option (Ops × Option Error)
cons_frame op none = none
cons_frame op (some (ops, e)) = some (cons op ops, e)

-- The loop of cmd/trace: it ends at `io.EOF` without an error, and at another error, a wrapped one too, with
-- it.
-- `none` is a panic.
pub read_frames : ℕ → List ℕ → Option (Ops × Option Error)
read_frames zero src = none
read_frames (suc fuel) src = elim (next src) [
  | done op total rest ↦ cons_frame op (read_frames fuel rest)
  | failed e total rest ↦ some (nil, elim e [ eof ↦ none | other ↦ some other ])
  | panic ↦ none
  | stuck ↦ none
]

-- Frames of which every field fits.
abbrev pub FramesFit : Ops → Type 0
FramesFit nil = Unit
FramesFit (cons op ops) = Fits op × FramesFit ops

write_frame-encode :
    (written : List ℕ) (op : Op) → Fits op → write_frame written op ≡ some (written ++ encode op)
unfolding write_frame
write_frame-encode written op h =
    let (ran, e) =
      pack-encode op (replicate (sizeof op) 0) (Fits→IsWhole op h)
        (omega (arith, length-replicate {A = ℕ} (sizeof op) 0)) in
    rw (
      ran,
      drop_all {A = ℕ} (sizeof op) (replicate (sizeof op) 0)
          (omega (arith, length-replicate {A = ℕ} (sizeof op) 0)),
      append-nil (encode op),
    )

write_frames-encode :
    (written : List ℕ) (ops : Ops)
    → FramesFit ops
    → write_frames written ops ≡ some (written ++ encode_ops ops)
unfolding write_frames
write_frames-encode written nil h = ap some (sym (append-nil written))
write_frames-encode written (cons op ops) h = rw (write_frame-encode written op h.0) (
    write_frames-encode (written ++ encode op) ops h.1
    ∙ ap some (append_assoc written (encode op) (encode_ops ops)))

next-encode :
    (op : Op) (rest : List ℕ)
    → Fits op
    → next (encode op ++ rest) ≡ done (strip op) (sizeof op) rest
unfolding next
next-encode op rest h = unpack-encode op false rest h tt

-- The byte of a frame or of a keyframe.
abbrev pub IsFrameByte : ℕ → Type 0
IsFrameByte b = (b ≡ op_frame) ⊎ (b ≡ op_keyframe)

next-FailsWrapped : (b : ℕ) (src : List ℕ) → IsFrameByte b → FailsWrapped (next (b ∷ src))
unfolding next unpack unpack_body
next-FailsWrapped b src (inl e) = rw e (
    add_total-FailsWrapped 1 _
      (unpack_frame-FailsWrapped frame (unpack (length (b ∷ src)) true) src))
next-FailsWrapped b src (inr e) = rw e (
    add_total-FailsWrapped 1 _
      (unpack_frame-FailsWrapped keyframe (unpack (length (b ∷ src)) true) src))

-- The loop at a frame that it cannot read.
read_broken :
    (b : ℕ) (src rest : List ℕ) (e : Error) (total : ℕ)
    → IsFrameByte b
    → next (b ∷ src) ≡ failed e total rest
    → read_frames 1 (b ∷ src) ≡ some (nil, some e)
unfolding read_frames
read_broken b src rest e total f h =
    go e h (subst (λ o. FailsWrapped o) h (next-FailsWrapped b src f))
  where
    go :
        (x : Error)
        → next (b ∷ src) ≡ failed x total rest
        → IsWrapped x
        → read_frames 1 (b ∷ src) ≡ some (nil, some x)
    go (wrapped x) k w = rw (read_frames, k) refl
    go eof k w = absurd w
    go unexpected_eof k w = absurd w
    go nested_frame k w = absurd w
    go (unknown_op n) k w = absurd w

abbrev after_frames : Ops → Option (Ops × Option Error) → Option (Ops × Option Error)
after_frames nil r = r
after_frames (cons op ops) r = cons_frame (strip op) (after_frames ops r)

after_frames-nil :
    (ops : Ops) (e : Option Error) → after_frames ops (some (nil, e)) ≡ some (strip_ops ops, e)
after_frames-nil nil e = refl
after_frames-nil (cons op ops) e = ap (cons_frame (strip op)) (after_frames-nil ops e)

read_frames_step :
    (op : Op) (fuel : ℕ) (src : List ℕ)
    → Fits op
    → read_frames (suc fuel) (encode op ++ src) ≡ cons_frame (strip op) (read_frames fuel src)
unfolding read_frames
read_frames_step op fuel src h = rw (read_frames, next-encode op src h) refl

-- The loop over frames and what stands behind them.
read_frames-encode :
    (ops : Ops) (src : List ℕ)
    → FramesFit ops
    → read_frames (suc (count ops)) (encode_ops ops ++ src) ≡ after_frames ops (read_frames 1 src)
read_frames-encode nil src h = refl
read_frames-encode (cons op ops) src h =
    ap (read_frames (suc (suc (count ops)))) (append_assoc (encode op) (encode_ops ops) src)
    ∙ read_frames_step op (suc (count ops)) (encode_ops ops ++ src) h.0
    ∙ ap (cons_frame (strip op)) (read_frames-encode ops src h.1)

nothing : read_frames 1 [] ≡ some (nil, none)
unfolding read_frames next unpack
nothing = refl

-- Frames whose fields fit can be written without a panic, and the reader's loop over what was
-- written returns them in order, without descriptions of system calls, and ends without an error. Where
-- a frame that cannot be read stands behind them, such as one that is cut off, the loop returns the
-- same frames, and ends with the error.
pub read_frames-write_frames :
    (ops : Ops) (b : ℕ) (src rest : List ℕ) (e : Error) (total : ℕ)
    → FramesFit ops
    → IsFrameByte b
    → next (b ∷ src) ≡ failed e total rest
    → (bytes : List ℕ) × (write_frames [] ops ≡ some bytes)
      × (read_frames (suc (count ops)) bytes ≡ some (strip_ops ops, none))
      × (read_frames (suc (count ops)) (bytes ++ (b ∷ src)) ≡ some (strip_ops ops, some e))
read_frames-write_frames ops b src rest e total h f k = (
  encode_ops ops,
  write_frames-encode [] ops h,
  ap (read_frames (suc (count ops))) (sym (append-nil (encode_ops ops)))
      ∙ read_frames-encode ops [] h
      ∙ ap (after_frames ops) nothing
      ∙ after_frames-nil ops none,
  read_frames-encode ops (b ∷ src) h
      ∙ ap (after_frames ops) (read_broken b src rest e total f k)
      ∙ after_frames-nil ops (some e),
)
