-- ===== src/Prelude/Text/Lines.antt =====
-- Texts taken apart as `bufio.Scanner`, `strings.Fields`, `strings.Trim` and `strconv.ParseUint` do.
use Prim.Native.Nat.{ℕ, zero, suc, ◌+◌, ◌-◌, ◌*◌, ◌^◌, ◌<◌}
use mathlib.Core.Path.{◌≡◌}
use mathlib.Core.Logic.{inl, inr}
use mathlib.Core.Bool.{◌&&◌, ◌||◌}
use mathlib.Core.Option.{Option, none, some}
use mathlib.Core.List.{List, [], ◌∷◌, ◌++◌, reverse}
use native.Mathlib.Omega.{arith}
use my_safe.Prelude.Tests.{Bool-cases, Option-cases, ◌==◌, leb, ltb, if◌then◌else◌}
use my_safe.Prelude.Lists.{length}
use my_safe.Prelude.Text.Defs.{Text, is_empty, split_byte, space_width}

abbrev pub newline : ℕ
newline = 10

-- `bufio.MaxScanTokenSize`: a line that long ends the scan.
abbrev max_scan_token_size : ℕ
max_scan_token_size = 2 ^ 16

-- A line without a carriage return at its end.
unfoldable pub drop_cr : Text → Text
drop_cr line = elim (reverse line) [ [] ↦ line | c ∷ rest ↦ if c == 13 then reverse rest else line ]

-- The last part is a line only if there is something in it.
scan_from : List Text → List Text
unfolding drop_cr
scan_from [] = []
scan_from (part ∷ []) =
    if is_empty part || leb max_scan_token_size (length part) then [] else drop_cr part ∷ []
scan_from (part ∷ next ∷ parts) =
    let rest = scan_from (next ∷ parts) in
    if leb max_scan_token_size (length part) then [] else drop_cr part ∷ rest

-- The lines that a `bufio.Scanner` gives.
unfoldable pub scan_lines : Text → List Text
unfolding scan_from split_byte
scan_lines content = scan_from (split_byte newline content)

-- `cur` holds the field that is read, `k` bytes are left of a space.
fields_from : ℕ → Text → Text → List Text
fields_from k cur [] = if is_empty cur then [] else cur ∷ []
fields_from (suc k) cur (c ∷ s) = fields_from k cur s
fields_from zero cur (c ∷ s) = elim (space_width (c ∷ s)) [
  | zero ↦ fields_from zero (cur ++ c ∷ []) s
  | suc w ↦ let rest = fields_from w [] s in if is_empty cur then rest else cur ∷ rest
]

-- `strings.Fields`
unfoldable pub fields : Text → List Text
unfolding fields_from space_width
fields s = fields_from 0 [] s

trim_front : ℕ → Text → Text
trim_front b [] = []
trim_front b (c ∷ s) = if c == b then trim_front b s else c ∷ s

-- `strings.Trim` at one byte.
unfoldable pub trim_byte : ℕ → Text → Text
unfolding trim_front
trim_byte b s = reverse (trim_front b (reverse (trim_front b s)))

hex_digit : ℕ → Option ℕ
hex_digit c =
    if leb b'0' c && leb c b'9'
    then some (c - b'0')
    else if leb b'a' c && leb c b'f'
    then some (c - b'a' + 10)
    else if leb b'A' c && leb c b'F'
    then some (c - b'A' + 10)
    else none

hex_from : ℕ → Text → Option ℕ
unfolding hex_digit
hex_from acc [] = some acc
hex_from acc (c ∷ s) = elim (hex_digit c) [ none ↦ none | some d ↦ hex_from (acc * 16 + d) s ]

-- `strconv.ParseUint(s, 16, bits)`
unfoldable pub parse_hex : ℕ → Text → Option ℕ
unfolding hex_from
parse_hex bits [] = none
parse_hex bits (c ∷ s) = elim (hex_from 0 (c ∷ s)) [
  | none ↦ none
  | some n ↦ if ltb n (2 ^ bits) then some n else none
]

-- A number of 16 bits is below 65536.
pub parse_hex-lt : (s : Text) (n : ℕ) → parse_hex 16 s ≡ some n → n < 65536
unfolding parse_hex
parse_hex-lt [] n h = absurd (cc h)
parse_hex-lt (c ∷ s) n h = elim (Option-cases (hex_from 0 (c ∷ s))) [
  | inl bad ↦ absurd (cc (rw (bad, parse_hex) at h))
  | inr (m, good) ↦ elim (Bool-cases (ltb m (2 ^ 16))) [
    | inr over ↦ absurd (cc (rw (good, over, parse_hex) at h))
    | inl fits ↦ let same : m ≡ n = cc (rw (good, fits, parse_hex) at h) in ground arith
  ]
]
