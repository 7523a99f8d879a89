-- ===== src/Base/Decimal.antt =====
-- The decimal text of a number: `%d`, strconv.Itoa.
use Prim.Native.Nat.{ℕ, zero, suc, ◌+◌, ◌-◌, ◌*◌, ◌/◌, ◌%◌, ◌^◌}
use mathlib.Core.Bool.{◌&&◌}
use mathlib.Core.List.{List, [], ◌∷◌}
use mathlib.Core.Option.{Option, none, some}
use Prim.Native.String.{String, ◌++◌}
use shelly_operator.Base.Int.{ℤ, pos, negsuc}
use shelly_operator.Base.Tests.{ltb, leb, eqb, if◌then◌else◌}

abbrev pub digit : ℕ → String
digit d =
    if eqb d 0
    then "0"
    else if eqb d 1
    then "1"
    else if eqb d 2
    then "2"
    else if eqb d 3
    then "3"
    else if eqb d 4
    then "4"
    else if eqb d 5
    then "5"
    else if eqb d 6
    then "6"
    else if eqb d 7
    then "7"
    else if eqb d 8
    then "8"
    else "9"

-- A number has at most as many digits as it counts ones, and one more.
unfoldable pub digits : ℕ → ℕ → String
digits zero n = ""
digits (suc fuel) n =
    let rest = digits fuel (n / 10) in if ltb n 10 then digit n else rest ++ digit (n % 10)

unfoldable pub itoa : ℕ → String
unfolding digits
itoa n = digits (suc n) n

unfoldable pub itoa_int : ℤ → String
unfolding itoa
itoa_int (pos n) = itoa n
itoa_int (negsuc n) = "-" ++ itoa (suc n)

-- strconv.Atoi on the code points of a text: an optional sign and one or more decimal digits, of a
-- number that a signed integer of 64 bits holds.
unfoldable pub parse_digits : ℕ → List ℕ → Option ℕ
parse_digits n [] = some n
parse_digits n (c ∷ cs) =
    let rest = parse_digits (10 * n + (c - 48)) cs in if leb 48 c && leb c 57 then rest else none

unfoldable pub parse_decimal : List ℕ → Option ℕ
unfolding parse_digits
parse_decimal [] = none
parse_decimal (c ∷ cs) = parse_digits 0 (c ∷ cs)

abbrev pub positive_int : Option ℕ → Option ℤ
positive_int none = none
positive_int (some n) = if ltb n (2 ^ 63) then some (pos n) else none

abbrev pub negative_int : Option ℕ → Option ℤ
negative_int none = none
negative_int (some zero) = some (pos 0)
negative_int (some (suc n)) = if ltb n (2 ^ 63) then some (negsuc n) else none

unfoldable pub atoi : List ℕ → Option ℤ
unfolding parse_decimal
atoi [] = none
atoi (c ∷ cs) =
    if eqb c 45
    then negative_int (parse_decimal cs)
    else if eqb c 43
    then positive_int (parse_decimal cs)
    else positive_int (parse_decimal (c ∷ cs))
