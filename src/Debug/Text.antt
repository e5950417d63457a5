-- ===== src/Debug/Text.antt =====
-- The text functions of the Go library that go/debug/gdbstub.go calls. A text is the list of its bytes.
use Prim.Native.Char.{code}
use Prim.Native.String.{String}
use usercorn.Base.{
  ℕ, ◌+◌, ◌-◌, ◌*◌, ◌/◌, ◌%◌, ◌^◌, Bool, true, false, ◌&&◌, List, [], ◌∷◌, ◌++◌, Option, none, some,
  ltb, leb, ◌==◌, if◌then◌else◌,
}

-- The bytes of a text in ASCII.
abbrev pub codes : String → List ℕ
codes String.[] = []
codes (String.◌∷◌ c s) = code c ∷ codes s

abbrev pub same_text : List ℕ → List ℕ → Bool
same_text [] [] = true
same_text [] (d ∷ t) = false
same_text (c ∷ s) [] = false
same_text (c ∷ s) (d ∷ t) = c == d && same_text s t

-- The text before the first `sep`, and the text behind it, if there is one (`SplitN` with 2).
abbrev pub cut_byte : ℕ → List ℕ × Option (List ℕ) → List ℕ × Option (List ℕ)
cut_byte c (head, tail) = (c ∷ head, tail)

unfoldable pub cut : ℕ → List ℕ → List ℕ × Option (List ℕ)
cut sep [] = ([], none)
cut sep (c ∷ s) = let rest = cut sep s in if c == sep then ([], some s) else cut_byte c rest

-- `strings.Split(s, sep)` for a separator of one byte; there is always a part.
abbrev pub to_first : ℕ → List (List ℕ) → List (List ℕ)
to_first c [] = (c ∷ []) ∷ []
to_first c (part ∷ parts) = (c ∷ part) ∷ parts

unfoldable pub split_text : ℕ → List ℕ → List (List ℕ)
split_text sep [] = [] ∷ []
split_text sep (c ∷ s) =
    let rest = split_text sep s in if c == sep then [] ∷ rest else to_first c rest

abbrev pub last_part : List (List ℕ) → List ℕ
last_part [] = []
last_part (part ∷ []) = part
last_part (part ∷ more ∷ parts) = last_part (more ∷ parts)

abbrev pub has_prefix : List ℕ → List ℕ → Bool
has_prefix [] t = true
has_prefix (c ∷ s) [] = false
has_prefix (c ∷ s) (d ∷ t) = c == d && has_prefix s t

-- A digit, lower case (`%02x`, `hex.EncodeToString`).
abbrev pub hex_digit : ℕ → ℕ
hex_digit d = if ltb d 10 then b'0' + d else b'a' + (d - 10)

abbrev pub hex_byte : ℕ → List ℕ
hex_byte b = hex_digit (b / 16) ∷ hex_digit (b % 16) ∷ []

unfoldable pub hex_encode : List ℕ → List ℕ
hex_encode [] = []
hex_encode (b ∷ p) = hex_byte b ++ hex_encode p

-- The value of a digit of either case.
abbrev pub digit_value : ℕ → Option ℕ
digit_value c =
    if leb b'0' c && leb c b'9'
    then some (c - b'0')
    else if leb b'a' c && leb c b'f'
    then some (c - b'a' + 10)
    else if leb b'A' c && leb c b'F'
    then some (c - b'A' + 10)
    else none

abbrev pub hex_pair : Option ℕ → Option ℕ → Option (List ℕ) → Option (List ℕ)
hex_pair (some a) (some b) (some p) = some ((16 * a + b) ∷ p)
hex_pair _ _ _ = none

-- `hex.DecodeString`, `none` for an error: an odd length, or a byte that is no digit.
unfoldable pub hex_decode : List ℕ → Option (List ℕ)
hex_decode [] = some []
hex_decode (c ∷ []) = none
hex_decode (c ∷ d ∷ s) = hex_pair (digit_value c) (digit_value d) (hex_decode s)

-- `strconv.ParseUint(s, 16, 0)` with its error dropped: 0 for no number, the greatest number of 64
-- bits for one that is too large.
abbrev pub next_value : (ℕ → ℕ) → ℕ → Option ℕ → ℕ
next_value more n none = 0
next_value more n (some d) = if leb (2 ^ 60) n then 2 ^ 64 - 1 else more (16 * n + d)

unfoldable pub parse_from : List ℕ → ℕ → ℕ
parse_from [] n = n
parse_from (c ∷ s) n = next_value (parse_from s) n (digit_value c)

unfoldable pub parse_uint : List ℕ → ℕ
parse_uint s = parse_from s 0
