-- ===== src/Trace/Unpack/Errors.antt =====
-- Two kinds of input on which the decoder does not do what its callers rely on.
use usercorn.Base.{
  ℕ, suc, true, ◌+◌, ◌*◌, ◌%◌, ◌^◌, ◌≤◌, ◌<◌, ◌≡◌, refl, ap, ◌∙◌, Bool, List, [], ◌∷◌, ◌++◌, length,
  take, All, IsU64, some, arith, lt→leb, length-append, length-take, append-nil,
}
use usercorn.Base.Bytes.{le, le_val}
use usercorn.Trace.Op.{Ops, syscall, mem_map}
use usercorn.Trace.Pack.Writes.{all_written}
use usercorn.Trace.Pack.Encode.{put_args}
use usercorn.Trace.Pack.Bytes.{encode}
use usercorn.Trace.Unpack.Reader.{Error, done, panic, add_total}
use usercorn.Trace.Unpack.Decode.{unpack_ops, unpack_body, unpack, unpack_mem_map}
use usercorn.Trace.Unpack.Fields.{
  map_header, read_full_enough, read_full-append, u16_field, unpack_syscall_lem,
}
use usercorn.Trace.Unpack.RoundTrip.{known, no_frame}

-- If `unpackOps` reports an error for the operations inside a system call, `Unpack` of the system
-- call returns no error, and a system call with the incomplete list that `unpackOps` gave up with.
pub syscall_drops_error :
    (fuel : ℕ) (nested : Bool) (num ret n : ℕ) (args src rest : List ℕ) (ops : Ops) (e : Error)
    (total : ℕ)
    → (num < 2 ^ 32) × IsU64 ret × (length args < 256) × All IsU64 args × (n < 2 ^ 16)
    → unpack_ops (unpack fuel true) n src ≡ done (ops, some e) total rest
    → unpack (suc fuel) nested (
        (12 ∷ (le 4 num ++ (le 8 ret ++ (le 1 (length args % 256) ++ le 2 (n % 2 ^ 16)))))
        ++ (all_written (put_args 16 args) ++ src))
      ≡ done (syscall num ret args [] ops) (1 + (15 + length args * 8 + total)) rest
unfolding unpack_body
syscall_drops_error fuel nested num ret n args src rest ops e total h fails =
    known fuel nested 12 _ (omega arith) (no_frame nested)
    ∙ ap (add_total 1) (
        unpack_syscall_lem (unpack fuel true) ops n total src rest num ret args 16 (some e) fails
          h.0 h.1 h.2 h.3 h.4)

-- The lengths of the two texts are added as uint16.
mem_map_wraps :
    (addr size prot off len : ℕ) (desc file rest : List ℕ)
    → length desc < 2 ^ 16
    → length file < 2 ^ 16
    → 2 ^ 16 ≤ length desc + length file
    → unpack_mem_map (map_header addr size prot off len desc file ++ ((desc ++ file) ++ rest))
      ≡ panic
mem_map_wraps addr size prot off len desc file rest hd hf wide =
    let d = le_val (le 2 (length desc % 2 ^ 16)) in
    let f = le_val (le 2 (length file % 2 ^ 16)) in
    let ed : d ≡ length desc = u16_field (length desc) hd in
    let ef : f ≡ length file = u16_field (length file) hf in
    let n = (d + f) % 2 ^ 16 in
    let src = (desc ++ file) ++ rest in
    let shorter : n < d = omega (arith, ed, ef) in
    rw (
      read_full-append (map_header addr size prot off len desc file) src 37 refl,
      read_full_enough n src
          (omega (arith, ed, ef, length-append (desc ++ file) rest, length-append desc file)),
      lt→leb d (length (take n src)) (omega (arith, length-take n src, shorter)),
    )

-- Whenever the two texts of a mapping are each shorter than 2^16 bytes and together are not, `Pack`
-- writes an encoding on which `Unpack` panics.
pub mem_map_panics :
    (fuel : ℕ) (nested : Bool) (addr size prot off len : ℕ) (desc file rest : List ℕ)
    → length desc < 2 ^ 16
    → length file < 2 ^ 16
    → 2 ^ 16 ≤ length desc + length file
    → unpack (suc fuel) nested (encode (mem_map addr size prot off len desc file) ++ rest) ≡ panic
unfolding unpack_body
mem_map_panics fuel nested addr size prot off len desc file rest hd hf wide =
    known fuel nested 9 _ (omega arith) (no_frame nested)
    ∙ ap (add_total 1) (
        ap
          (λ (t : List ℕ).
            unpack_mem_map (map_header addr size prot off len desc file ++ ((desc ++ t) ++ rest)))
          (append-nil file)
        ∙ mem_map_wraps addr size prot off len desc file rest hd hf wide)
