-- ===== src/Io/Text.antt =====
-- What internal/io/io.go uses of Go's standard library: `bufio.Reader.ReadString`,
-- `io.ReadFull`, `strings.TrimSpace`, `strings.IndexRune`, `strconv.ParseInt`, `strconv.Itoa`.
pub mod Lines
pub mod Trim
use lspwatch.Common.{
  ℕ, zero, suc, ◌+◌, ◌-◌, ◌*◌, ◌/◌, ◌%◌, ◌^◌, Bool, true, false, ◌&&◌, ◌||◌, Option, none, some,
  List, [], ◌∷◌, ◌++◌, reverse, ltb, leb, ◌==◌, if◌then◌else◌, Bytes, length, take, drop,
}
use lspwatch.Common.Int.{ℤ, pos, negsuc}

-- How a source ends: `io.EOF`, or another error, which a closed source repeats.
pub data Ending : Type 0 where
  at_eof : Ending
  broken : ℕ → Ending

-- What a `bufio.Reader` has still to deliver, and how that ends.
pub record Stream : Type 0 where
  pub bytes : Bytes
  pub ending : Ending

pub record Piece : Type 0 where
  pub line : Bytes
  pub rest : Bytes
  pub found : Bool

-- `ReadString(delimiter)`: up to and with the delimiter, or all there is.
unfoldable pub read_string : ℕ → Bytes → Piece
read_string d [] = record { line = []; rest = []; found = false }
read_string d (c ∷ cs) =
    let more = read_string d cs in
    if c == d
    then record { line = c ∷ []; rest = cs; found = true }
    else record { line = c ∷ more.line; rest = more.rest; found = more.found }

-- The white space of `unicode.IsSpace` that a text begins with, in bytes of UTF-8; 0 if none.
abbrev pub ascii_space : ℕ → Bool
ascii_space c = (leb 9 c && leb c 13) || c == 32

abbrev pub space_in_3 : ℕ → ℕ → ℕ → Bool
space_in_3 a b c =
    (a == 0xe1 && b == 0x9a && c == 0x80)
    || (a == 0xe2
        && b == 0x80
        && ((leb 0x80 c && leb c 0x8a) || c == 0xa8 || c == 0xa9 || c == 0xaf))
    || (a == 0xe2 && b == 0x81 && c == 0x9f)
    || (a == 0xe3 && b == 0x80 && c == 0x80)

abbrev pub space_in_2 : ℕ → ℕ → Bool
space_in_2 a b = a == 0xc2 && (b == 0x85 || b == 0xa0)

unfoldable pub space_first : Bytes → ℕ
space_first [] = 0
space_first (a ∷ []) = if ascii_space a then 1 else 0
space_first (a ∷ b ∷ []) = if ascii_space a then 1 else if space_in_2 a b then 2 else 0
space_first (a ∷ b ∷ c ∷ cs) =
    if ascii_space a then 1 else if space_in_2 a b then 2 else if space_in_3 a b c then 3 else 0

-- The same for the end of a text, which is given backwards.
unfoldable pub space_last : Bytes → ℕ
space_last [] = 0
space_last (a ∷ []) = if ascii_space a then 1 else 0
space_last (b ∷ a ∷ []) = if ascii_space b then 1 else if space_in_2 a b then 2 else 0
space_last (c ∷ b ∷ a ∷ _) =
    if ascii_space c then 1 else if space_in_2 b c then 2 else if space_in_3 a b c then 3 else 0

-- Drop white space as long as there is any; the number counts the bytes of a character still to go.
unfoldable pub trim_front : (Bytes → ℕ) → ℕ → Bytes → Bytes
trim_front width skip [] = []
trim_front width zero (c ∷ cs) =
    let trimmed = trim_front width (width (c ∷ cs) - 1) cs in
    if width (c ∷ cs) == 0 then c ∷ cs else trimmed
trim_front width (suc skip) (c ∷ cs) = trim_front width skip cs

unfoldable pub trim_space : Bytes → Bytes
unfolding trim_front space_first space_last
trim_space s = reverse (trim_front space_last 0 (reverse (trim_front space_first 0 s)))

-- `strings.IndexRune` at an ASCII character; -1 is `none`.
unfoldable pub index_rune : Bytes → ℕ → Option ℕ
index_rune [] r = none
index_rune (c ∷ cs) r =
    let later = index_rune cs r in
    if c == r then some 0 else elim later [ none ↦ none | some i ↦ some (suc i) ]

abbrev pub is_digit : ℕ → Bool
is_digit c = leb b'0' c && leb c b'9'

-- The value of a run of decimal digits, after `n`; `none` at any other byte.
unfoldable pub digits_value : ℕ → Bytes → Option ℕ
digits_value n [] = some n
digits_value n (c ∷ cs) =
    let value = digits_value (n * 10 + (c - b'0')) cs in if is_digit c then value else none

abbrev pub in_int32 : ℕ → Option ℤ
in_int32 n = if ltb n (2 ^ 31) then some (pos n) else none

abbrev pub in_int32_neg : ℕ → Option ℤ
in_int32_neg n =
    if n == 0 then some (pos 0) else if leb n (2 ^ 31) then some (negsuc (n - 1)) else none

abbrev bind_number : Option ℕ → (ℕ → Option ℤ) → Option ℤ
bind_number none f = none
bind_number (some n) f = f n

abbrev unsigned : Bytes → Option ℕ
unfolding digits_value
unsigned [] = none
unsigned (c ∷ cs) = digits_value 0 (c ∷ cs)

-- `strconv.ParseInt(s, 10, 32)`; a syntax and a range error are both `none`.
unfoldable pub parse_int : Bytes → Option ℤ
unfolding digits_value
parse_int [] = none
parse_int (c ∷ cs) =
    if c == b'+'
    then bind_number (unsigned cs) in_int32
    else if c == b'-'
    then bind_number (unsigned cs) in_int32_neg
    else bind_number (digits_value 0 (c ∷ cs)) in_int32
