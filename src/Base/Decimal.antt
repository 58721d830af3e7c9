-- ===== src/Base/Decimal.antt =====
-- The parts of Go's strconv and strings that the code uses, over bytes: FormatInt and ParseInt in
-- base 10, Lines, CutPrefix.
use Prim.Native.Char.{code}
use spacetest.Base.{
  ℕ, zero, suc, ◌+◌, ◌-◌, ◌*◌, ◌/◌, ◌%◌, ◌^◌, ℤ, pos, negsuc, String, Bool, true, false, ◌||◌, List,
  [], ◌∷◌, ◌++◌, Option, none, some, ltb, ◌==◌, if◌then◌else◌,
}

abbrev pub Bytes : Type 0
Bytes = List ℕ

-- The bytes of an ASCII text.
abbrev pub codes : String → Bytes
codes String.[] = []
codes (String.◌∷◌ c s) = code c ∷ codes s

-- The digits of a number in front of `out`; the fuel is above the number.
unfoldable pub digits : ℕ → ℕ → Bytes → Bytes
digits zero n out = out
digits (suc fuel) n out =
    let longer = digits fuel (n / 10) ((b'0' + n % 10) ∷ out) in
    if n / 10 == 0 then (b'0' + n % 10) ∷ out else longer

unfoldable pub format_uint : ℕ → Bytes
format_uint n = digits (suc n) n []

-- strconv.FormatInt(x, 10)
unfoldable pub format_int : ℤ → Bytes
format_int (pos n) = format_uint n
format_int (negsuc n) = b'-' ∷ format_uint (suc n)

-- the loop of strconv.ParseUint(s, 10, 32)
unfoldable pub scan : Bytes → ℕ → Option ℕ
scan [] n = some n
scan (c ∷ s) n =
    let d = c - b'0' in
    if ltb c b'0' || ltb b'9' c
    then none
    else if ltb (2 ^ 32 - 1) (n * 10 + d)
    then none
    else scan s (n * 10 + d)

unfoldable pub parse_uint32 : Bytes → Option ℕ
parse_uint32 [] = none
parse_uint32 (c ∷ s) = scan (c ∷ s) 0

abbrev in_range : Bool → Option ℕ → Option ℤ
in_range neg none = none
in_range false (some n) = if ltb n (2 ^ 31) then some (pos n) else none
in_range true (some zero) = some (pos 0)
in_range true (some (suc n)) = if ltb n (2 ^ 31) then some (negsuc n) else none

-- strconv.ParseInt(s, 10, 32); `none` is any of its errors
unfoldable pub parse_int32 : Bytes → Option ℤ
parse_int32 [] = none
parse_int32 (c ∷ s) =
    if c == b'+'
    then in_range false (parse_uint32 s)
    else if c == b'-'
    then in_range true (parse_uint32 s)
    else in_range false (parse_uint32 (c ∷ s))

-- strings.Lines: each line with its newline, the last one perhaps without
unfoldable pub lines_from : Bytes → Bytes → List Bytes
lines_from [] [] = []
lines_from (c ∷ line) [] = (c ∷ line) ∷ []
lines_from line (c ∷ s) = elim (c == 10) [
  | true ↦ (line ++ c ∷ []) ∷ lines_from [] s
  | false ↦ lines_from (line ++ c ∷ []) s
]

unfoldable pub lines : Bytes → List Bytes
lines s = lines_from [] s

-- strings.CutPrefix
unfoldable pub cut_prefix : Bytes → Bytes → Option Bytes
cut_prefix s [] = some s
cut_prefix [] (p ∷ prefix) = none
cut_prefix (c ∷ s) (p ∷ prefix) = if c == p then cut_prefix s prefix else none

-- `value[:len(value)-1]` of a value that is not empty
unfoldable pub drop_last : Bytes → Bytes
drop_last [] = []
drop_last (c ∷ []) = []
drop_last (c ∷ d ∷ s) = c ∷ drop_last (d ∷ s)
