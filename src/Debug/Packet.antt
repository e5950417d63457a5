-- ===== src/Debug/Packet.antt =====
-- go/debug/gdbstub.go: the packets on the wire.
pub mod Laws
use usercorn.Base.{
  ℕ, ◌+◌, ◌%◌, Bool, true, false, not, ◌&&◌, ◌||◌, List, [], ◌∷◌, ◌++◌, Option, none, some, ◌==◌,
  if◌then◌else◌, bit_xor,
}
use usercorn.Debug.Text.{hex_byte, same_text, split_text, last_part, parse_uint}

abbrev pub is_special : ℕ → Bool
is_special c = c == b'#' || (c == b'$' || c == b'}')

unfoldable pub escape : List ℕ → List ℕ
escape [] = []
escape (c ∷ p) =
    let rest = escape p in if is_special c then b'}' ∷ bit_xor c 0x20 ∷ rest else c ∷ rest

-- The loop of `unescape`. Once `escaped` is set nothing resets it, so that the rest is skipped.
unfoldable pub unescape_from : Bool → List ℕ → List ℕ
unescape_from escaped [] = []
unescape_from true (c ∷ p) = unescape_from true p
unescape_from false (c ∷ []) = c ∷ []
unescape_from false (c ∷ d ∷ p) =
    let skipped = unescape_from true (d ∷ p) in
    let rest = unescape_from false (d ∷ p) in
    if c == b'{' then bit_xor d 0x20 ∷ skipped else c ∷ rest

unfoldable pub unescape : List ℕ → List ℕ
unescape p = unescape_from false p

unfoldable pub sum_from : ℕ → List ℕ → ℕ
sum_from chk [] = chk
sum_from chk (c ∷ p) = sum_from ((chk + c) % 256) p

unfoldable pub checksum : List ℕ → List ℕ
checksum p = hex_byte (sum_from 0 p)

abbrev range_of : List (List ℕ) → ℕ × ℕ
range_of (a ∷ b ∷ []) = (parse_uint a, parse_uint b)
range_of _ = (0, 0)

unfoldable pub parse_range : List ℕ → ℕ × ℕ
parse_range s = range_of (split_text b',' (last_part (split_text b':' s)))

-- What `Send` writes.
unfoldable pub frame : List ℕ → List ℕ
frame s = b'$' ∷ (escape s ++ (b'#' ∷ checksum (escape s)))

pub record Link : Type 0 where
  pub no_ack : Bool
  pub no_ack_test : Bool

-- The bytes before the first `#` and those behind it (`ReadBytes`); `none` at the end of the input.
abbrev pub add_byte : ℕ → Option (List ℕ × List ℕ) → Option (List ℕ × List ℕ)
add_byte c none = none
add_byte c (some (s, rest)) = some (c ∷ s, rest)

unfoldable pub read_packet : List ℕ → Option (List ℕ × List ℕ)
read_packet [] = none
read_packet (c ∷ input) =
    let rest = read_packet input in if c == b'#' then some ([], input) else add_byte c rest

-- One round of the loop of `Run`.
pub data Round : Type 0 where
  -- the input ended
  closed : Link → Round
  -- the byte 3, which the other goroutine takes from the input
  interrupt : Link → List ℕ → Round
  -- the bytes between the first byte and `#`, whether the checksum is theirs, and what follows
  packet : Link → Bool → List ℕ → List ℕ → Round
  -- a slice whose end is before its start
  panic : Round

abbrev pub check_packet : Link → Option (List ℕ × List ℕ) → Round
check_packet l none = closed l
check_packet l (some (s, [])) = closed l
check_packet l (some (s, c ∷ [])) = closed l
check_packet l (some ([], c ∷ d ∷ rest)) = panic
check_packet l (some (lead ∷ s, c ∷ d ∷ rest)) =
    packet l (same_text (checksum s) (c ∷ d ∷ [])) s rest

abbrev pub got_ack : Link → ℕ → Link
got_ack l b = record { no_ack = l.no_ack || (l.no_ack_test && b == b'+'); no_ack_test = false }

unfoldable pub round : Link → List ℕ → Round
round l [] = closed l
round l (b ∷ input) =
    if b == 3
    then interrupt l input
    else if b == b'+' || b == b'-'
    then check_packet (got_ack l b) (read_packet input)
    else check_packet l (read_packet (b ∷ input))
