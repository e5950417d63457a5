-- ===== src/Dos.antt =====
-- go/arch/x86_16/dos.go: the system calls of DOS. The files of the host and its terminal are
-- reached through `Host`, whose state is a parameter. The registers are AX, as 16 bits, and the
-- flags; the memory is that of go/models/cpu, which the library memio passes reads and writes on
-- to. Handlers take their arguments as the codec of the calls gives them.
pub mod Fds
pub mod Scanning
pub mod Calls
mod Tests
use usercorn.Base.{
  ℕ, zero, suc, ◌+◌, ◌-◌, ◌*◌, ◌/◌, ◌%◌, ◌^◌, Bool, true, false, ◌||◌, List, [], ◌∷◌, ◌++◌, Option,
  none, some, length, get_elem?, take, replicate, ltb, ◌==◌, if◌then◌else◌,
}
use usercorn.Cpu.Mem.{Mem, Result, done, failed, panic, or_same, mem_read_into, mem_write}

-- `map[int]int`
abbrev pub lookup : List (ℕ × ℕ) → ℕ → Option ℕ
lookup [] k = none
lookup ((j, v) ∷ m) k = if j == k then some v else lookup m k

abbrev pub delete : ℕ → List (ℕ × ℕ) → List (ℕ × ℕ)
delete k [] = []
delete k ((j, v) ∷ m) = let rest = delete k m in if j == k then rest else (j, v) ∷ rest

abbrev pub put : ℕ → ℕ → List (ℕ × ℕ) → List (ℕ × ℕ)
put k v m = (k, v) ∷ delete k m

abbrev pub num_fds : ℕ
num_fds = 256

-- A round of the loop of `getFd`: the number `i`, if the table does not have it.
abbrev pub free_or : Option ℕ → (i : ℕ) → (rest : Option ℕ) → Option ℕ
free_or none i rest = some i
free_or (some v) i rest = rest

-- The loop from `i` on, with `n` rounds left.
unfoldable pub free_from : ℕ → List (ℕ × ℕ) → ℕ → Option ℕ
free_from zero fds i = none
free_from (suc n) fds i = free_or (lookup fds i) i (free_from n fds (i + 1))

abbrev pub taken : List (ℕ × ℕ) → ℕ → Option ℕ → List (ℕ × ℕ) × Option ℕ
taken fds fd none = (fds, none)
taken fds fd (some i) = (put i fd fds, some i)

-- `getFd`; `none` is the number 0xFFFF with an error.
unfoldable pub get_fd : List (ℕ × ℕ) → ℕ → List (ℕ × ℕ) × Option ℕ
get_fd fds fd = taken fds fd (free_from num_fds fds 0)

abbrev pub released : List (ℕ × ℕ) → ℕ → Option ℕ → List (ℕ × ℕ) × Option ℕ
released fds fd none = (fds, none)
released fds fd (some realfd) = (delete fd fds, some realfd)

-- `freeFd`; `none` is the number 0xFFFF with an error.
unfoldable pub free_fd : List (ℕ × ℕ) → ℕ → List (ℕ × ℕ) × Option ℕ
free_fd fds fd = released fds fd (lookup fds fd)

abbrev or_ffff : Option ℕ → ℕ
or_ffff none = 0xffff
or_ffff (some fd) = fd

abbrev or_zero : Option ℕ → ℕ
or_zero none = 0
or_zero (some fd) = fd

-- What a read or a write of the host returns: its count, as an int of 64 bits, the bytes that were
-- read, and whether it succeeded.
pub record Moved : Type 0 where
  pub count : ℕ
  pub bytes : List ℕ
  pub success : Bool

pub record Host (S : Type 0) : Type 0 where
  pub open_file : S → (name : List ℕ) → (mode perm : ℕ) → S × Option ℕ
  pub close_file : S → (fd : ℕ) → S × Bool
  pub read_file : S → (fd len : ℕ) → S × Moved
  pub write_file : S → (fd : ℕ) → List ℕ → S × Moved
  pub unlink_file : S → (name : List ℕ) → S × Bool
  pub scan_char : S → S × ℕ
  pub print_char : S → ℕ → S

pub record Dos (S : Type 0) : Type 0 where
  pub fds : List (ℕ × ℕ)
  pub ax : ℕ
  pub flags : ℕ
  pub mem : Mem
  pub host : S
  -- the exit status, after `Exit`
  pub exit : Option ℕ

abbrev pub new_fds : List (ℕ × ℕ)
new_fds = (0, 0) ∷ (1, 1) ∷ (2, 2) ∷ []

-- `MemRead` of go/usercorn.go: the buffer of zeros, where the range cannot be read.
abbrev pub or_zeros : ℕ → Result (List ℕ) → List ℕ
or_zeros size (done p) = p
or_zeros size (failed e) = replicate size 0
or_zeros size panic = replicate size 0

pub data Scan : Type 0 where
  found : List ℕ → Scan
  -- an index out of range
  crash : Scan
  out_of_fuel : Scan

-- A round of the loop of `readUntilChar`. `char != c || i == 1` fails as soon as the last byte is `c`.
abbrev pub scan_byte : (c i : ℕ) → (rest : Scan) → List ℕ → Option ℕ → Scan
scan_byte c i rest mem none = crash
scan_byte c i rest mem (some char) = if char == c then found (take (i - 1) mem) else rest

module _ (prot_exec : ℕ) where
  unfoldable pub usercorn_read : Mem → (addr size : ℕ) → List ℕ
  usercorn_read m addr size = or_zeros size (mem_read_into prot_exec m (replicate size 0) addr)

  unfoldable pub scan_loop : ℕ → Mem → (addr c i : ℕ) → Scan
  scan_loop zero m addr c i = out_of_fuel
  scan_loop (suc fuel) m addr c i =
      let rest = scan_loop fuel m addr c (i + 1) in
      let mem = usercorn_read m addr i in scan_byte c i rest mem (get_elem? mem (i - 1))

  unfoldable pub read_until_char : ℕ → Mem → (addr c : ℕ) → Scan
  read_until_char fuel m addr c = scan_loop fuel m addr c 1

module _ {S : Type 0} where
  -- `flags | 1`, or `flags & 0xfffffffe`
  abbrev pub set_flag_c : Bool → Dos S → Dos S
  set_flag_c true k = record k { flags = k.flags / 2 * 2 + 1 }
  set_flag_c false k = record k { flags = k.flags % 2 ^ 32 / 2 * 2 }

  abbrev pub write_ax : ℕ → Dos S → Dos S
  write_ax v k = record k { ax = v % 2 ^ 16 }

  abbrev pub write_al : ℕ → Dos S → Dos S
  write_al v k = record k { ax = k.ax / 256 * 256 + v % 256 }

  abbrev pub refused : Dos S → Dos S
  refused k = set_flag_c true (write_ax 0xffff k)

  abbrev pub refused_unless : Bool → Dos S → Dos S
  refused_unless true k = k
  refused_unless false k = write_ax 0xffff (set_flag_c true k)

  unfoldable pub terminate : Dos S → Dos S
  terminate k = record k { exit = some 0 }

  unfoldable pub terminate_with_code : Dos S → ℕ → Dos S
  terminate_with_code k code = record k { exit = some code }

  unfoldable pub get_dos_version : Dos S → Dos S × ℕ
  get_dos_version k = (write_ax 7 k, 7)

  module _ (os : Host S) where
    unfoldable pub char_in : Dos S → ℕ → Dos S × ℕ
    char_in k buf =
        let (s, char) = os.scan_char k.host in
        (record k { host = s; mem = or_same k.mem (mem_write k.mem buf (char ∷ [])) }, char)

    unfoldable pub char_out : Dos S → ℕ → Dos S × ℕ
    char_out k char = (record k { host = os.print_char k.host (char % 256) }, char % 256)

    abbrev opened_as : Dos S → List (ℕ × ℕ) × Option ℕ → Dos S × ℕ
    opened_as k (fds, none) = (refused k, 0xffff)
    opened_as k (fds, some dosfd) =
        (write_ax dosfd (set_flag_c false (record k { fds = fds })), dosfd)

    abbrev pub opened : Dos S → Option ℕ → Dos S × ℕ
    opened k none = (refused k, 0xffff)
    opened k (some realfd) = opened_as k (get_fd k.fds realfd)

    unfoldable pub open_file : Dos S → List ℕ → ℕ → Dos S × ℕ
    open_file k filename mode =
        let (s, realfd) = os.open_file k.host filename mode 0o666 in
        opened (record k { host = s }) realfd

    unfoldable pub close : Dos S → ℕ → Dos S
    close k fd =
        let (fds, realfd) = free_fd k.fds fd in
        let (s, success) = os.close_file k.host (or_ffff realfd) in
        write_ax 0 (set_flag_c false (refused_unless success (record k { fds = fds; host = s })))

    -- `copy` of what was read over a buffer of zeros
    abbrev filled : ℕ → List ℕ → List ℕ
    filled len bytes = take len (bytes ++ replicate (len - length bytes) 0)

    unfoldable pub read : Dos S → (fd buf len : ℕ) → Dos S × ℕ
    read k fd buf len =
        let (s, got) = os.read_file k.host fd len in
        let k1 = refused_unless got.success (record k { host = s }) in
        let k2 = record k1 { mem = or_same k1.mem (mem_write k1.mem buf (filled len got.bytes)) } in
        (write_ax got.count (set_flag_c false k2), got.count)

    abbrev is_some : Option ℕ → Bool
    is_some none = false
    is_some (some x) = true

    module _ (prot_exec : ℕ) where
      unfoldable pub write : Dos S → (fd buf n : ℕ) → Dos S × ℕ
      write k fd buf n =
          let mem = usercorn_read prot_exec k.mem buf n in
          let realfd = lookup k.fds fd in
          let k1 = refused_unless (is_some realfd) k in
          let (s, sent) = os.write_file k1.host (or_zero realfd) mem in
          let k2 = refused_unless sent.success (record k1 { host = s }) in
          (write_ax sent.count (set_flag_c false k2), sent.count)

      -- `none` where the source panics or the fuel does not suffice.
      abbrev displayed : Dos S → Scan → Option (Dos S × ℕ)
      displayed k (found mem) =
          let (s, sent) = os.write_file k.host 1 mem in
          some (write_al 0x24 (record k { host = s }), 0x24)
      displayed k crash = none
      displayed k out_of_fuel = none

      unfoldable pub display : ℕ → Dos S → ℕ → Option (Dos S × ℕ)
      display fuel k buf = displayed k (read_until_char prot_exec fuel k.mem buf b'$')

      abbrev created : Dos S → Scan → Option (Dos S × ℕ)
      created k (found name) = some (open_file k name (0o100 + 0o1000 + 2))
      created k crash = none
      created k out_of_fuel = none

      -- O_CREAT, O_TRUNC and O_RDWR are Linux's.
      unfoldable pub create_or_truncate : ℕ → Dos S → ℕ → Option (Dos S × ℕ)
      create_or_truncate fuel k buf = created k (read_until_char prot_exec fuel k.mem buf b'$')

    abbrev unlinked : Dos S → Bool → Dos S × ℕ
    unlinked k true = (write_ax 0 (set_flag_c false k), 0)
    unlinked k false = (refused k, 0xffff)

    unfoldable pub unlink : Dos S → List ℕ → Dos S × ℕ
    unlink k filename =
        let (s, success) = os.unlink_file k.host filename in
        unlinked (record k { host = s }) success
