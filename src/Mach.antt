-- ===== src/Mach.antt =====
-- go/kernel/mach/ports.go: the messages to the kernel of Mach, and the replies to them. What the library
-- struc unpacks from a message is an argument, and it packs a structure field by field, little-endian.
-- A reply is the list of the writes to the memory, in order.
pub mod Replies
mod Tests
use usercorn.Base.{
  ℕ, zero, suc, ◌+◌, ◌-◌, ◌*◌, ◌%◌, ◌^◌, Bool, true, false, ◌||◌, List, [], ◌∷◌, ◌++◌, length,
  replicate, ltb, ◌==◌, if◌then◌else◌, add64,
}
use usercorn.Base.Bytes.{le}

unfoldable pub task_self_trap : ℕ
task_self_trap = 1

unfoldable pub thread_self_trap : ℕ
thread_self_trap = 3

unfoldable pub mach_reply_port : ℕ
mach_reply_port = 4

unfoldable pub host_self_trap : ℕ
host_self_trap = 2

-- `mach_msg_header_t`; the fields are words of 32 bits.
pub record Header : Type 0 where
  pub bits : ℕ
  pub size : ℕ
  pub remote_port : ℕ
  pub local_port : ℕ
  pub voucher_port : ℕ
  pub id : ℕ

-- The size that reflection gives for `mach_msg_header_t`, which has no padding.
abbrev pub header_size : ℕ
header_size = 24

unfoldable pub pack_header : Header → List ℕ
pack_header h =
    le 4 h.bits
    ++ (le 4 h.size
        ++ (le 4 h.remote_port ++ (le 4 h.local_port ++ (le 4 h.voucher_port ++ le 4 h.id))))

-- The descriptor of a reply with one port: `mach_msg_body_t` and `mach_msg_port_descriptor_t`.
unfoldable pub pack_port : (name : ℕ) → List ℕ
pack_port name = le 4 1 ++ (le 4 name ++ (le 4 0 ++ (le 2 0 ++ (le 1 17 ++ le 1 0))))

abbrev pub port_reply_size : ℕ
port_reply_size = 16

-- `host_info_request`
pub record HostInfo : Type 0 where
  pub ndr : List ℕ
  pub flavor : ℕ
  pub out_cnt : ℕ

-- The size that reflection gives for `host_info_reply`, and for the slice in it.
abbrev pub host_info_reply_size : ℕ
host_info_reply_size = 40

abbrev pub slice_size : ℕ
slice_size = 24

-- `reply.Host_info_out`, of at least eight words; -10 is 2 ^ 32 - 10.
abbrev pub priorities : ℕ → List ℕ
priorities n = 0 ∷ 0 ∷ 0 ∷ 0 ∷ 0 ∷ 10 ∷ 10 ∷ (2 ^ 32 - 10) ∷ replicate (n - 8) 0

abbrev pub pack_words : List ℕ → List ℕ
pack_words [] = []
pack_words (w ∷ ws) = le 4 w ++ pack_words ws

-- The library sets the count, which has the tag `sizeof`, to the length of the slice.
unfoldable pub pack_host_info : HostInfo → List ℕ
pack_host_info args =
    args.ndr ++ (le 4 0 ++ (le 4 args.out_cnt ++ pack_words (priorities args.out_cnt)))

abbrev pub trailer : List ℕ
trailer = le 4 0 ++ le 4 0

-- `msg.Pack(&header)`, `msgBody.Pack(&reply)` and `msgTrailer.Pack(&trailer)`
abbrev pub reply_writes : ℕ → Header → List ℕ → List (ℕ × List ℕ)
reply_writes addr header body =
    (addr, pack_header header)
    ∷ (add64 addr header_size, body)
    ∷ (add64 addr header.size, trailer)
    ∷ []

-- The header of a reply; `|= 0x80000000` behind `&= 0xFF` is a sum.
abbrev pub reply_header : Header → (complex size : ℕ) → Header
reply_header h complex size = record h {
  id = (h.id + 100) % 2 ^ 32;
  remote_port = h.local_port;
  local_port = 0;
  bits = h.bits % 256 + complex;
  size = size;
}

pub data Reply : Type 0 where
  replied : List (ℕ × List ℕ) → Reply
  panic : Reply

abbrev pub port_reply : ℕ → Header → ℕ → Reply
port_reply addr h name =
    replied
      (reply_writes addr (reply_header h (2 ^ 31) (header_size + port_reply_size)) (pack_port name))

-- A flavor that is not implemented panics, and so does an index behind the slice.
unfoldable pub host_info : ℕ → Header → HostInfo → Reply
host_info addr h args =
    let size = header_size + host_info_reply_size + 4 * 8 - slice_size in
    if args.flavor == 5
    then (if ltb args.out_cnt 8
        then panic
        else replied (reply_writes addr (reply_header h 0 size) (pack_host_info args)))
    else panic

-- `MachMsgTrap`; `args` is what a `host_info_request` unpacks to.
unfoldable pub mach_msg_trap : ℕ → Header → HostInfo → Reply
mach_msg_trap addr h args =
    if h.id == 3409
    then port_reply addr h 11
    else (if h.id == 200
        then host_info addr h args
        else (if h.id == 206
            then port_reply addr h 13
            else (if h.id == 3418 then port_reply addr h 14 else panic)))
