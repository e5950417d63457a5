-- ===== src/Trace/Unpack/Fields.antt =====
-- Each `Unpack` method reads back the fields that its `Pack` stored.
use usercorn.Trace.Unpack.Reader.{Error}
use usercorn.Base.{
  ℕ, zero, suc, ◌+◌, ◌*◌, ◌%◌, ◌^◌, ◌≤◌, ◌<◌, ◌≡◌, refl, sym, ap, ◌∙◌, List, [], ◌∷◌, ◌++◌, length,
  take, drop, All, IsU64, arith, length-append, le→leb, take_prefix, drop_prefix, none, Option,
}
use usercorn.Base.Bytes.{le, le_val, le_val-le}
use usercorn.Trace.Op.{
  Op, Ops, jmp, step, reg, sp_reg, mem_read, mem_write, mem_map, mem_unmap, mem_prot, syscall,
}
use usercorn.Trace.Unpack.Reader.{Read, done, read_full}
use usercorn.Trace.Unpack.Decode.{
  unpack_jmp, unpack_step, unpack_reg, unpack_sp_reg, unpack_mem_read, unpack_mem_write,
  unpack_mem_map, unpack_mem_unmap, unpack_mem_prot, unpack_syscall, unpack_args, unpack_ops,
  unpack_frame,
}
use usercorn.Trace.Pack.Writes.{all_written}
use usercorn.Trace.Pack.Encode.{put_args}
use usercorn.Trace.Pack.Bytes.{length-put_args}

pub read_full_enough :
    (n : ℕ) (src : List ℕ) → n ≤ length src → read_full n src ≡ done (take n src) n (drop n src)
unfolding read_full
read_full_enough zero [] h = refl
read_full_enough (suc n) [] h = absurd (omega arith)
read_full_enough n (b ∷ src) h = rw (le→leb n (length (b ∷ src)) h)

pub read_full-append :
    (xs rest : List ℕ) (n : ℕ) → length xs ≡ n → read_full n (xs ++ rest) ≡ done xs n rest
read_full-append xs rest n e =
    read_full_enough n (xs ++ rest) (omega (arith, length-append xs rest))
    ∙ (λ i. done (take_prefix xs rest e i) n (drop_prefix xs rest e i))

pub u16_field : (n : ℕ) → n < 2 ^ 16 → le_val (le 2 (n % 2 ^ 16)) ≡ n
u16_field n h = le_val-le 2 (n % 2 ^ 16) (omega arith) ∙ omega arith

u32_field : (n : ℕ) → n < 2 ^ 32 → le_val (le 4 (n % 2 ^ 32)) ≡ n
u32_field n h = le_val-le 4 (n % 2 ^ 32) (omega arith) ∙ omega arith

u8_field : (n : ℕ) → n < 256 → le_val (le 1 (n % 256)) ≡ n
u8_field n h = omega arith

pub unpack_jmp_lem :
    (addr size : ℕ) (rest : List ℕ)
    → IsU64 addr
    → size < 2 ^ 32
    → unpack_jmp ((le 8 addr ++ le 4 size) ++ rest) ≡ done (jmp addr size) 12 rest
unpack_jmp_lem addr size rest h k =
    rw (read_full-append (le 8 addr ++ le 4 size) rest 12 refl)
      (λ i. done (jmp (le_val-le 8 addr h i) (le_val-le 4 size k i)) 12 rest)

pub unpack_mem_read_lem :
    (addr size : ℕ) (rest : List ℕ)
    → IsU64 addr
    → size < 2 ^ 32
    → unpack_mem_read ((le 8 addr ++ le 4 size) ++ rest) ≡ done (mem_read addr size) 12 rest
unpack_mem_read_lem addr size rest h k =
    rw (read_full-append (le 8 addr ++ le 4 size) rest 12 refl)
      (λ i. done (mem_read (le_val-le 8 addr h i) (le_val-le 4 size k i)) 12 rest)

pub unpack_step_lem :
    (size : ℕ) (rest : List ℕ)
    → size < 256
    → unpack_step (le 1 size ++ rest) ≡ done (step size) 1 rest
unpack_step_lem size rest h =
    rw (read_full-append (le 1 size) rest 1 refl) (λ i. done (step (le_val-le 1 size h i)) 1 rest)

pub unpack_reg_lem :
    (num val : ℕ) (rest : List ℕ)
    → num < 2 ^ 16
    → IsU64 val
    → unpack_reg ((le 2 num ++ le 8 val) ++ rest) ≡ done (reg num val) 10 rest
unpack_reg_lem num val rest h k =
    rw (read_full-append (le 2 num ++ le 8 val) rest 10 refl)
      (λ i. done (reg (le_val-le 2 num h i) (le_val-le 8 val k i)) 10 rest)

pub unpack_mem_unmap_lem :
    (addr size : ℕ) (rest : List ℕ)
    → IsU64 addr
    → IsU64 size
    → unpack_mem_unmap ((le 8 addr ++ le 8 size) ++ rest) ≡ done (mem_unmap addr size) 16 rest
unpack_mem_unmap_lem addr size rest h k =
    rw (read_full-append (le 8 addr ++ le 8 size) rest 16 refl)
      (λ i. done (mem_unmap (le_val-le 8 addr h i) (le_val-le 8 size k i)) 16 rest)

pub unpack_mem_prot_lem :
    (addr size prot : ℕ) (rest : List ℕ)
    → IsU64 addr
    → IsU64 size
    → prot < 256
    → unpack_mem_prot ((le 8 addr ++ le 8 size ++ le 1 prot) ++ rest)
      ≡ done (mem_prot addr size prot) 17 rest
unpack_mem_prot_lem addr size prot rest h k p =
    rw (read_full-append (le 8 addr ++ le 8 size ++ le 1 prot) rest 17 refl) (λ i.
      done (mem_prot (le_val-le 8 addr h i) (le_val-le 8 size k i) (le_val-le 1 prot p i)) 17 rest)

pub unpack_sp_reg_lem :
    (num : ℕ) (val rest : List ℕ)
    → num < 2 ^ 16
    → length val < 2 ^ 16
    → unpack_sp_reg ((le 2 num ++ le 2 (length val % 2 ^ 16)) ++ (val ++ rest))
      ≡ done (sp_reg num val) (4 + length val) rest
unpack_sp_reg_lem num val rest h k =
    let n = le_val (le 2 (length val % 2 ^ 16)) in
    let e : n ≡ length val = u16_field (length val) k in
    rw
      (
        read_full-append (le 2 num ++ le 2 (length val % 2 ^ 16)) (val ++ rest) 4 refl,
        read_full-append val rest n (sym e),
      )
      (let t : 4 + (n + 0) ≡ 4 + length val = omega (arith, e) in
        λ i. done (sp_reg (le_val-le 2 num h i) val) (t i) rest)

pub unpack_mem_write_lem :
    (addr : ℕ) (bytes rest : List ℕ)
    → IsU64 addr
    → length bytes < 2 ^ 32
    → unpack_mem_write ((le 8 addr ++ le 4 (length bytes % 2 ^ 32)) ++ (bytes ++ rest))
      ≡ done (mem_write addr bytes) (12 + length bytes) rest
unpack_mem_write_lem addr bytes rest h k =
    let n = le_val (le 4 (length bytes % 2 ^ 32)) in
    let e : n ≡ length bytes = u32_field (length bytes) k in
    rw
      (
        read_full-append (le 8 addr ++ le 4 (length bytes % 2 ^ 32)) (bytes ++ rest) 12 refl,
        read_full-append bytes rest n (sym e),
      )
      (let t : 12 + (n + 0) ≡ 12 + length bytes = omega (arith, e) in
        λ i. done (mem_write (le_val-le 8 addr h i) bytes) (t i) rest)

unpack_args-put_args :
    (at : ℕ) (args : List ℕ)
    → All IsU64 args
    → unpack_args (length args) (all_written (put_args at args)) ≡ args
unpack_args-put_args at [] h = refl
unpack_args-put_args at (v ∷ args) h =
    λ i. le_val-le 8 v h.0 i ∷ unpack_args-put_args (at + 8) args h.1 i

-- The header that precedes the two texts of an `OpMemMap`, without its first byte.
abbrev pub map_header : (addr size prot off len : ℕ) (desc file : List ℕ) → List ℕ
map_header addr size prot off len desc file =
    le 8 addr
    ++ (le 8 size
        ++ (le 1 prot
            ++ (le 8 off
                ++ (le 8 len ++ (le 2 (length desc % 2 ^ 16) ++ le 2 (length file % 2 ^ 16))))))

module _ (addr size prot off len : ℕ) (desc file rest : List ℕ) (addr_fits : IsU64 addr)
    (size_fits : IsU64 size) (prot_fits : prot < 256) (off_fits : IsU64 off) (len_fits : IsU64 len)
    (text_fits : length desc + length file < 2 ^ 16) where
  pub unpack_mem_map_lem :
      unpack_mem_map (map_header addr size prot off len desc file ++ ((desc ++ file) ++ rest))
      ≡ done (mem_map addr size prot off len desc file) (37 + (length desc + length file)) rest
  unpack_mem_map_lem =
      let d = le_val (le 2 (length desc % 2 ^ 16)) in
      let f = le_val (le 2 (length file % 2 ^ 16)) in
      let ed : d ≡ length desc = u16_field (length desc) (omega arith) in
      let ef : f ≡ length file = u16_field (length file) (omega arith) in
      let n = (d + f) % 2 ^ 16 in
      let en : length (desc ++ file) ≡ n = omega (arith, ed, ef, length-append desc file) in
      rw
        (
          read_full-append (map_header addr size prot off len desc file) ((desc ++ file) ++ rest) 37
              refl,
          read_full-append (desc ++ file) rest n en,
          le→leb d (length (desc ++ file)) (omega (arith, ed, length-append desc file)),
        )
        (let t : 37 + (n + 0) ≡ 37 + (length desc + length file) = omega (arith, ed, ef) in
          λ i.
            done
              (mem_map (le_val-le 8 addr addr_fits i) (le_val-le 8 size size_fits i)
                (le_val-le 1 prot prot_fits i) (le_val-le 8 off off_fits i)
                (le_val-le 8 len len_fits i) (take_prefix desc file (sym ed) i)
                (drop_prefix desc file (sym ed) i))
              (t i) rest)

module _ (one : Read Op) (ops : Ops) (n total : ℕ) (src rest : List ℕ) where
  pub unpack_frame_lem :
      (make : ℕ → Ops → Op) (pid : ℕ)
      → unpack_ops one n src ≡ done (ops, none) total rest
      → IsU64 pid
      → n < 2 ^ 32
      → unpack_frame make one ((le 8 pid ++ le 4 (n % 2 ^ 32)) ++ src)
        ≡ done (make pid ops) (12 + total) rest
  unpack_frame_lem make pid read_ops h k =
      rw
        (
          read_full-append (le 8 pid ++ le 4 (n % 2 ^ 32)) src 12 refl,
          ap (λ c. unpack_ops one c src) (u32_field n k),
          read_ops,
        )
        (let t : 12 + (total + 0) ≡ 12 + total = omega arith in
          λ i. done (make (le_val-le 8 pid h i) ops) (t i) rest)

  pub unpack_syscall_lem :
      (num ret : ℕ) (args : List ℕ) (at : ℕ) (e : Option Error)
      → unpack_ops one n src ≡ done (ops, e) total rest
      → num < 2 ^ 32
      → IsU64 ret
      → length args < 256
      → All IsU64 args
      → n < 2 ^ 16
      → unpack_syscall one (
          (le 4 num ++ (le 8 ret ++ (le 1 (length args % 256) ++ le 2 (n % 2 ^ 16))))
          ++ (all_written (put_args at args) ++ src))
        ≡ done (syscall num ret args [] ops) (15 + length args * 8 + total) rest
  unpack_syscall_lem num ret args at e read_ops h k l all m =
      let a = le_val (le 1 (length args % 256)) in
      let ea : a ≡ length args = u8_field (length args) l in
      rw
        (
          read_full-append
              (le 4 num ++ (le 8 ret ++ (le 1 (length args % 256) ++ le 2 (n % 2 ^ 16))))
              (all_written (put_args at args) ++ src) 15 refl,
          read_full-append (all_written (put_args at args)) src (8 * a)
              (omega (arith, ea, length-put_args at args)),
          ap (λ c. unpack_ops one c src) (u16_field n m),
          read_ops,
        )
        (let t : 15 + (8 * a + (total + 0)) ≡ 15 + length args * 8 + total = omega (arith, ea) in
          λ i.
            done
              (syscall (le_val-le 4 num h i) (le_val-le 8 ret k i)
                ((ap (λ c. unpack_args c (all_written (put_args at args))) ea
                    ∙ unpack_args-put_args at args all)
                  i)
                [] ops)
              (t i) rest)
