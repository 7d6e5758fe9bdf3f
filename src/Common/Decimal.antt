-- ===== src/Common/Decimal.antt =====
-- Decimal text: `fmt.Sprint` of an unsigned integer, and `strconv.ParseUint(s, 10, 64)`.
pub mod RoundTrip
use Prim.Native.Nat.{ℕ, zero, suc, ◌+◌, ◌-◌, ◌*◌, ◌/◌, ◌%◌, ◌^◌}
use Prim.Native.Char.{Char, code}
use Prim.Native.String.{String, [], ◌∷◌, char_at}
use mathlib.Core.Bool.{Bool, ◌||◌}
use mathlib.Core.Option.{Option, none, some}
use openmvn.Common.Tests.{ltb, leb, if◌then◌else◌}

abbrev pub max_uint64 : ℕ
max_uint64 = 2 ^ 64 - 1

-- The character of a digit.
unfoldable pub digit : ℕ → Char
digit d = char_at "0123456789" d

-- The loop of the formatter: the last digit is put in front of those already written. Each of the
-- rounds of the fuel writes one digit.
unfoldable pub print_from : ℕ → ℕ → String → String
print_from zero n out = out
print_from (suc fuel) n out =
    let rest = print_from fuel (n / 10) (digit (n % 10) ∷ out) in
    if ltb n 10 then digit n ∷ out else rest

-- A uint64 has at most 20 digits.
unfoldable pub print_uint : ℕ → String
unfolding print_from
print_uint n = print_from 20 n []

-- One round of the parser: no digit, or a value that leaves the range, is an error.
unfoldable pub push_digit : ℕ → ℕ → Option ℕ
push_digit n c =
    if ltb c b'0' || ltb b'9' c
    then none
    else if ltb max_uint64 (n * 10 + (c - b'0'))
    then none
    else some (n * 10 + (c - b'0'))

unfoldable pub parse_from : ℕ → String → Option ℕ
parse_from n [] = some n
parse_from n (c ∷ s) = elim (push_digit n (code c)) [ none ↦ none | some m ↦ parse_from m s ]

unfoldable pub parse_uint : String → Option ℕ
unfolding parse_from push_digit
parse_uint [] = none
parse_uint (c ∷ s) = parse_from 0 (c ∷ s)
