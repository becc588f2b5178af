-- ===== src/Base/Text.antt =====
-- The functions of Go's `strings`, `strconv` and `encoding/hex` that the program calls, over texts
-- of Unicode scalar values.
use Prim.Native.Nat.{ℕ, zero, suc, ◌+◌, ◌-◌, ◌*◌, ◌/◌, ◌%◌}
use Prim.Native.Char.{Char, code}
use Prim.Native.String.{String, [], ◌∷◌, ◌++◌}
use mathlib.Core.Bool.{Bool, true, false, ◌&&◌, ◌||◌}
use mathlib.Core.Option.{Option, none, some}
use mathlib.Core.List.{List}
use text.Mathlib.Text.{◌==◌}
use yunxiao_workflow_agent.Base.Tests.{any, ltb, leb, nat_beq, if◌then◌else◌}
use yunxiao_workflow_agent.Base.Int.{ℤ, pos, negsuc, in_int64}

abbrev pub is_empty : String → Bool
is_empty [] = true
is_empty (c ∷ s) = false

-- The character of `to` that stands where `c` stands in `from`, or else `c`.
abbrev pub translate : String → String → Char → Char
translate (a ∷ from) (b ∷ to) c = if nat_beq (code a) (code c) then b else translate from to c
translate _ _ c = c

abbrev pub upper_letters : String
upper_letters = "ABCDEFGHIJKLMNOPQRSTUVWXYZ"

abbrev pub lower_letters : String
lower_letters = "abcdefghijklmnopqrstuvwxyz"

-- `strings.ToLower` and `strings.ToUpper`: ASCII by the tables, any other character by `rune`.
unfoldable pub to_lower : (Char → Char) → String → String
to_lower rune [] = []
to_lower rune (c ∷ s) =
    (if ltb (code c) 128 then translate upper_letters lower_letters c else rune c) ∷ to_lower rune s

unfoldable pub to_upper : (Char → Char) → String → String
to_upper rune [] = []
to_upper rune (c ∷ s) =
    (if ltb (code c) 128 then translate lower_letters upper_letters c else rune c) ∷ to_upper rune s

-- `unicode.IsSpace`
abbrev pub is_space : ℕ → Bool
is_space n =
    leb 9 n && leb n 13
    || nat_beq n 32
    || nat_beq n 0x85
    || nat_beq n 0xA0
    || nat_beq n 0x1680
    || leb 0x2000 n && leb n 0x200A
    || nat_beq n 0x2028
    || nat_beq n 0x2029
    || nat_beq n 0x202F
    || nat_beq n 0x205F
    || nat_beq n 0x3000

unfoldable pub trim_left : String → String
trim_left [] = []
trim_left (c ∷ s) = if is_space (code c) then trim_left s else c ∷ s

unfoldable pub trim_right : String → String
trim_right [] = []
trim_right (c ∷ s) =
    let rest = trim_right s in if is_empty rest && is_space (code c) then [] else c ∷ rest

-- `strings.TrimSpace`
unfoldable pub trim_space : String → String
unfolding trim_left trim_right
trim_space s = trim_right (trim_left s)

-- The rest of the text after the prefix, if it begins with it.
unfoldable pub cut_prefix : String → String → Option String
cut_prefix [] s = some s
cut_prefix (a ∷ p) [] = none
cut_prefix (a ∷ p) (c ∷ s) = if nat_beq (code a) (code c) then cut_prefix p s else none

-- `strings.TrimPrefix(s, prefix)`
unfoldable pub trim_prefix : String → String → String
unfolding cut_prefix
trim_prefix s prefix = elim (cut_prefix prefix s) [ none ↦ s | some rest ↦ rest ]

-- `firstNonEmpty`
unfoldable pub first_non_empty : List String → String
first_non_empty List.[] = ""
first_non_empty (List.◌∷◌ v vs) = if is_empty v then first_non_empty vs else v

-- The character at a place; beyond the end, the digit "0", which no caller asks for.
abbrev pub nth : String → ℕ → Char
nth [] n = "0"
nth (c ∷ s) zero = c
nth (c ∷ s) (suc n) = nth s n

abbrev pub digit : ℕ → Char
digit n = nth "0123456789abcdef" n

-- The decimal digits of a number, before `acc`.
unfoldable pub format_from : ℕ → ℕ → String → String
format_from zero n acc = acc
format_from (suc fuel) n acc =
    let rest = format_from fuel (n / 10) (digit (n % 10) ∷ acc) in
    if ltb n 10 then digit n ∷ acc else rest

-- The fuel is enough: a number has fewer digits than its successor counts.
unfoldable pub format_nat : ℕ → String
unfolding format_from
format_nat n = format_from (suc n) n []

-- `strconv.FormatInt(x, 10)`, and `%d`
unfoldable pub format_int : ℤ → String
unfolding format_nat
format_int (pos n) = format_nat n
format_int (negsuc n) = "-" ++ format_nat (suc n)

-- The number that decimal digits denote, after those read into `n`.
unfoldable pub parse_digits : ℕ → String → Option ℕ
parse_digits n [] = some n
parse_digits n (c ∷ s) =
    if leb b'0' (code c) && leb (code c) b'9'
    then parse_digits (n * 10 + (code c - b'0')) s
    else none

-- A magnitude of at least one digit.
unfoldable pub parse_nat : String → Option ℕ
unfolding parse_digits
parse_nat [] = none
parse_nat (c ∷ s) = parse_digits 0 (c ∷ s)

abbrev pub negate : ℕ → ℤ
negate zero = pos 0
negate (suc n) = negsuc n

abbrev pub within_int64 : ℤ → Option ℤ
within_int64 z = if in_int64 z then some z else none

-- `strconv.Atoi`: a sign, then digits; out of the range of `int64` it fails.
unfoldable pub atoi : String → Option ℤ
unfolding parse_nat
atoi [] = none
atoi (c ∷ s) =
    if nat_beq (code c) b'-'
    then elim (parse_nat s) [ none ↦ none | some n ↦ within_int64 (negate n) ]
    else if nat_beq (code c) b'+'
    then elim (parse_nat s) [ none ↦ none | some n ↦ within_int64 (pos n) ]
    else elim (parse_nat (c ∷ s)) [ none ↦ none | some n ↦ within_int64 (pos n) ]

-- `hex.EncodeToString`
unfoldable pub hex_encode : List ℕ → String
hex_encode List.[] = []
hex_encode (List.◌∷◌ b bs) = digit (b / 16) ∷ digit (b % 16) ∷ hex_encode bs

-- `s[:n]` on a text of ASCII characters.
unfoldable pub take_text : ℕ → String → String
take_text zero s = []
take_text (suc n) [] = []
take_text (suc n) (c ∷ s) = c ∷ take_text n s

-- One of the texts of the list.
abbrev pub one_of : List String → String → Bool
one_of words s = any (λ w. s == w) words
