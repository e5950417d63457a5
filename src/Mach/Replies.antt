-- ===== src/Mach/Replies.antt =====
-- go/kernel/mach/ports.go: the size of a reply and the place of its trailer.
use usercorn.Base.{sym}
use usercorn.Base.{subst}
use usercorn.Base.{ltb→le}
use usercorn.Base.{ltb→lt}
use usercorn.Base.{
  ℕ, ◌+◌, ◌-◌, ◌*◌, ◌%◌, ◌^◌, ◌≤◌, ◌<◌, ◌≡◌, refl, true, false, List, [], ◌∷◌, ◌++◌, length, ltb,
  ◌==◌, add64, Bool-cases, inl, inr, ◌⊎◌, arith, length-append, length-replicate,
}
use usercorn.Base.Bytes.{le, length-le}
use usercorn.Mach.{
  Header, HostInfo, Reply, replied, panic, pack_header, pack_port, pack_host_info, pack_words,
  priorities, reply_header, reply_writes, port_reply, host_info, mach_msg_trap, trailer,
  header_size, port_reply_size,
}

length-pack_header : (h : Header) → length (pack_header h) ≡ 24
unfolding pack_header
length-pack_header h = refl

length-pack_port : (name : ℕ) → length (pack_port name) ≡ 16
unfolding pack_port
length-pack_port name = refl

length-pack_words : (ws : List ℕ) → length (pack_words ws) ≡ 4 * length ws
length-pack_words [] = refl
length-pack_words (w ∷ ws) =
    omega (arith, length-append (le 4 w) (pack_words ws), length-le 4 w, length-pack_words ws)

length-priorities : (n : ℕ) → 8 ≤ n → length (priorities n) ≡ n
length-priorities n h = omega (arith, length-replicate {A = ℕ} (n - 8) 0)

length-pack_host_info :
    (args : HostInfo)
    → length args.ndr ≡ 8
    → 8 ≤ args.out_cnt
    → length (pack_host_info args) ≡ 16 + 4 * args.out_cnt
unfolding pack_host_info
length-pack_host_info args n h =
    let words = pack_words (priorities args.out_cnt) in
    omega (
      arith,
      length-append args.ndr (le 4 0 ++ (le 4 args.out_cnt ++ words)),
      length-append (le 4 0) (le 4 args.out_cnt ++ words),
      length-append (le 4 args.out_cnt) words,
      length-le 4 0,
      length-le 4 args.out_cnt,
      length-pack_words (priorities args.out_cnt),
      length-priorities args.out_cnt h,
    )

-- A reply of which `extra` bytes lie behind the size that its header says. The trailer is written behind
-- that size, so that it stands behind the reply if there are none, and else in it.
pub record Replied (addr : ℕ) (h : Header) (extra : ℕ) (r : Reply) : Type 0 where
  pub header : Header
  pub body : List ℕ
  pub writes :
      r
      ≡ replied (
          (addr, pack_header header)
          ∷ (add64 addr 24, body)
          ∷ (add64 addr header.size, trailer)
          ∷ [])
  pub size : header.size + extra ≡ length (pack_header header) + length body
  pub id : header.id ≡ (h.id + 100) % 2 ^ 32
  pub port : header.remote_port ≡ h.local_port

port_reply-Replied : (addr : ℕ) (h : Header) (name : ℕ) → Replied addr h 0 (port_reply addr h name)
port_reply-Replied addr h name =
    let header = reply_header h (2 ^ 31) (header_size + port_reply_size) in
    record {
      header = header;
      body = pack_port name;
      writes = refl;
      size = omega (arith, length-pack_header header, length-pack_port name);
      id = refl;
      port = refl;
    }

-- The ids of the requests for a port.
abbrev pub AsksPort : ℕ → Type 0
AsksPort id = (id ≡ 3409) ⊎ ((id ≡ 206) ⊎ (id ≡ 3418))

-- The reply to a request for a port has the id of the request and 100, goes to the local port of
-- the request, and is as long as its header says, with the trailer right behind it.
pub port_replies_lem :
    (addr : ℕ) (h : Header) (args : HostInfo)
    → AsksPort h.id
    → Replied addr h 0 (mach_msg_trap addr h args)
unfolding mach_msg_trap
port_replies_lem addr h args (inl e) =
    let reply : mach_msg_trap addr h args ≡ port_reply addr h 11 = ground arith in
    subst (Replied addr h 0) (sym reply) (port_reply-Replied addr h 11)
port_replies_lem addr h args (inr (inl e)) =
    let reply : mach_msg_trap addr h args ≡ port_reply addr h 13 = ground arith in
    subst (Replied addr h 0) (sym reply) (port_reply-Replied addr h 13)
port_replies_lem addr h args (inr (inr e)) =
    let reply : mach_msg_trap addr h args ≡ port_reply addr h 14 = ground arith in
    subst (Replied addr h 0) (sym reply) (port_reply-Replied addr h 14)

-- The reply to a request for the priorities of the host, whose record of the data representation
-- has 8 bytes: for fewer than 8 words the kernel panics, for 8 the reply is as long as its header
-- says, and for more it is longer by four bytes for each further word, so that the trailer
-- overwrites a part of it.
pub host_info_lem :
    (addr : ℕ) (h : Header) (args : HostInfo)
    → h.id ≡ 200
    → args.flavor ≡ 5
    → length args.ndr ≡ 8
    → ((args.out_cnt < 8) × (mach_msg_trap addr h args ≡ panic))
      ⊎ ((8 ≤ args.out_cnt) × Replied addr h (4 * (args.out_cnt - 8)) (mach_msg_trap addr h args))
unfolding mach_msg_trap host_info
host_info_lem addr h args i f n =
    let other : (h.id == 3409) ≡ false = ground arith in
    let asked : (h.id == 200) ≡ true = ground arith in
    let known : (args.flavor == 5) ≡ true = ground arith in
    elim (Bool-cases (ltb args.out_cnt 8)) [
      | inl few ↦ inl (ltb→lt args.out_cnt 8 few, simp (other, asked, known, few) refl)
      | inr enough ↦
          let b = ltb→le args.out_cnt 8 enough in
          let header = reply_header h 0 72 in
          let r : mach_msg_trap addr h args
              ≡ replied (reply_writes addr header (pack_host_info args)) =
            simp (other, asked, known, enough) refl in
          inr (
            b,
            record {
              header = header;
              body = pack_host_info args;
              writes = r;
              size = omega (arith, length-pack_header header, length-pack_host_info args n b);
              id = refl;
              port = refl;
            },
          )
    ]
