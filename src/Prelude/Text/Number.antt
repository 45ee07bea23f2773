-- ===== src/Prelude/Text/Number.antt =====
-- Decimal numbers as texts: `strconv.Itoa`, `strconv.Atoi` and `strconv.ParseUint(s, 10, 64)`.
use Prim.Native.Nat.{ℕ, zero, suc, ◌+◌, ◌-◌, ◌*◌, ◌/◌, ◌%◌, ◌^◌}
use mathlib.Core.Bool.{Bool, true, false, ◌&&◌}
use mathlib.Core.Option.{Option, none, some}
use mathlib.Core.List.{[], ◌∷◌}
use my_safe.Prelude.Tests.{ltb, leb, ◌==◌, if◌then◌else◌}
use my_safe.Prelude.Int.{ℤ, pos, negsuc}
use my_safe.Prelude.Text.Defs.{Text}

-- The digits in front of `rest`; the fuel bounds their number.
show_from : ℕ → ℕ → Text → Text
show_from zero n rest = rest
show_from (suc fuel) n rest =
    let more = show_from fuel (n / 10) ((n % 10 + b'0') ∷ rest) in
    if ltb n 10 then (n + b'0') ∷ rest else more

-- A number below 2 ^ 64 has at most 20 digits.
unfoldable pub show_nat : ℕ → Text
unfolding show_from
show_nat n = show_from 20 n []

unfoldable pub show_int : ℤ → Text
unfolding show_nat
show_int (pos n) = show_nat n
show_int (negsuc n) = b'-' ∷ show_nat (n + 1)

is_digit : ℕ → Bool
is_digit c = leb b'0' c && leb c b'9'

-- The value of the digits read behind `acc`; `none` at any other byte.
value_from : ℕ → Text → Option ℕ
unfolding is_digit
value_from acc [] = some acc
value_from acc (c ∷ s) = if is_digit c then value_from (acc * 10 + (c - b'0')) s else none

-- `ParseUint(s, 10, 64)`: `none` on a syntax error and out of range.
unfoldable pub parse_uint64 : Text → Option ℕ
unfolding value_from
parse_uint64 [] = none
parse_uint64 (c ∷ s) = elim (value_from 0 (c ∷ s)) [
  | none ↦ none
  | some n ↦ if ltb n (2 ^ 64) then some n else none
]

negative_of : ℕ → ℤ
negative_of zero = pos 0
negative_of (suc n) = negsuc n

signed_value : Bool → Option ℕ → Option ℤ
unfolding negative_of
signed_value negative none = none
signed_value true (some n) = if leb n (2 ^ 63) then some (negative_of n) else none
signed_value false (some n) = if ltb n (2 ^ 63) then some (pos n) else none

digits_of : Text → Option ℕ
unfolding value_from
digits_of [] = none
digits_of (c ∷ s) = value_from 0 (c ∷ s)

-- `Atoi`: an optional sign and digits, within an `int64`.
unfoldable pub atoi : Text → Option ℤ
unfolding signed_value digits_of
atoi [] = none
atoi (c ∷ s) =
    if c == b'-'
    then signed_value true (digits_of s)
    else if c == b'+'
    then signed_value false (digits_of s)
    else signed_value false (digits_of (c ∷ s))
