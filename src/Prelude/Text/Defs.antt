-- ===== src/Prelude/Text/Defs.antt =====
-- Go strings as their bytes, and what the sources use of the package `strings`.
use Prim.Native.Nat.{ℕ, zero, suc, ◌+◌}
use Prim.Native.Char.{code}
use Prim.Native.String.{String}
use mathlib.Core.Path.{◌≡◌, refl}
use mathlib.Core.Logic.{◌↔◌}
use mathlib.Core.Bool.{Bool, true, false, ◌&&◌, ◌||◌}
use mathlib.Core.List.{List, [], ◌∷◌, ◌++◌, reverse}
use mathlib.Core.Option.{Option, none, some}
use native.Mathlib.Omega.{arith}
use my_safe.Prelude.Tests.{◌==◌, leb, ==_iff, if◌then◌else◌}

abbrev pub Text : Type 0
Text = List ℕ

-- The bytes of an ASCII literal.
abbrev pub codes : String → Text
codes String.[] = []
codes (String.◌∷◌ c s) = code c ∷ codes s

unfoldable pub text_eq : Text → Text → Bool
text_eq [] [] = true
text_eq (a ∷ s) (b ∷ t) = a == b && text_eq s t
text_eq _ _ = false

pub text_eq_iff : (s t : Text) → (text_eq s t ≡ true) ↔ (s ≡ t)
unfolding text_eq
text_eq_iff [] [] = (λ _. refl, λ _. refl)
text_eq_iff [] (b ∷ t) = ground arith
text_eq_iff (a ∷ s) [] = ground arith
text_eq_iff (a ∷ s) (b ∷ t) = ground (arith, text_eq_iff s t, ==_iff a b)

pub text_eq_refl : (s : Text) → text_eq s s ≡ true
text_eq_refl s = (text_eq_iff s s).1 refl

-- `s == ""`
abbrev pub is_empty {ℓ} : {A : Type ℓ} → List A → Bool
is_empty [] = true
is_empty (_ ∷ _) = false

abbrev pub elem_byte : ℕ → Text → Bool
elem_byte c [] = false
elem_byte c (d ∷ s) = c == d || elem_byte c s

-- `strings.ContainsAny(s, chars)`, at ASCII `chars`.
unfoldable pub contains_any : Text → Text → Bool
contains_any [] chars = false
contains_any (c ∷ s) chars = elem_byte c chars || contains_any s chars

-- What is left of `s` behind `p`, the result of `strings.CutPrefix`.
unfoldable pub cut_prefix : Text → Text → Option Text
cut_prefix s [] = some s
cut_prefix [] (p ∷ ps) = none
cut_prefix (c ∷ s) (p ∷ ps) = let rest = cut_prefix s ps in if c == p then rest else none

unfoldable pub has_prefix : Text → Text → Bool
has_prefix s [] = true
has_prefix [] (p ∷ ps) = false
has_prefix (c ∷ s) (p ∷ ps) = c == p && has_prefix s ps

unfoldable pub has_suffix : Text → Text → Bool
unfolding has_prefix
has_suffix s p = has_prefix (reverse s) (reverse p)

-- `strings.Contains(s, t)`
unfoldable pub contains : Text → Text → Bool
unfolding has_prefix
contains [] t = is_empty t
contains (c ∷ s) t = has_prefix (c ∷ s) t || contains s t

-- How many bytes the white space at the front of a string takes (0: there is none): the ASCII
-- spaces, U+0085, U+00A0, U+1680, U+2000 to U+200A, U+2028, U+2029, U+202F, U+205F and U+3000.
wide_space : ℕ → ℕ → ℕ → Bool
wide_space a b c =
    (a == 0xe1 && b == 0x9a && c == 0x80)
    || (a == 0xe2 && b == 0x80 && (leb 0x80 c && leb c 0x8a || c == 0xa8 || c == 0xa9 || c == 0xaf))
    || (a == 0xe2 && b == 0x81 && c == 0x9f)
    || (a == 0xe3 && b == 0x80 && c == 0x80)

ascii_space : ℕ → Bool
ascii_space c = leb 9 c && leb c 13 || c == 32

two_byte_space : ℕ → ℕ → Bool
two_byte_space a b = a == 0xc2 && (b == 0x85 || b == 0xa0)

unfoldable pub space_width : Text → ℕ
unfolding wide_space ascii_space two_byte_space
space_width [] = 0
space_width (a ∷ []) = if ascii_space a then 1 else 0
space_width (a ∷ b ∷ []) = if ascii_space a then 1 else if two_byte_space a b then 2 else 0
space_width (a ∷ b ∷ c ∷ s) =
    if ascii_space a then 1 else if two_byte_space a b then 2 else if wide_space a b c then 3 else 0

-- The same at the end of a string, which is given backwards.
space_width_back : Text → ℕ
unfolding wide_space ascii_space two_byte_space
space_width_back [] = 0
space_width_back (a ∷ []) = if ascii_space a then 1 else 0
space_width_back (a ∷ b ∷ []) = if ascii_space a then 1 else if two_byte_space b a then 2 else 0
space_width_back (a ∷ b ∷ c ∷ s) =
    if ascii_space a then 1 else if two_byte_space b a then 2 else if wide_space c b a then 3 else 0

-- `k` bytes are left of a space that is being skipped.
trim_from : (Text → ℕ) → ℕ → Text → Text
trim_from width k [] = []
trim_from width (suc k) (c ∷ s) = trim_from width k s
trim_from width zero (c ∷ s) = elim (width (c ∷ s)) [ zero ↦ c ∷ s | suc w ↦ trim_from width w s ]

-- `strings.TrimSpace`
unfoldable pub trim_space : Text → Text
unfolding trim_from space_width space_width_back
trim_space s = reverse (trim_from space_width_back 0 (reverse (trim_from space_width 0 s)))

-- `strings.TrimSpace(s) == ""`: nothing is left when white space is taken off the front.
unfoldable pub blank : Text → Bool
unfolding trim_from space_width
blank s = is_empty (trim_from space_width 0 s)

-- `strings.ToLower`. Of the letters outside ASCII only U+212A and U+0130 have an ASCII lower case;
-- the others are left as they stand, which no search for an ASCII text can tell.
lower_from : ℕ → Text → Text
lower_from k [] = []
lower_from (suc k) (c ∷ s) = lower_from k s
lower_from zero (c ∷ s) =
    if leb b'A' c && leb c b'Z'
    then (c + 32) ∷ lower_from 0 s
    else if has_prefix (c ∷ s) (0xe2 ∷ 0x84 ∷ 0xaa ∷ [])
    then b'k' ∷ lower_from 2 s
    else if has_prefix (c ∷ s) (0xc4 ∷ 0xb0 ∷ [])
    then b'i' ∷ lower_from 1 s
    else c ∷ lower_from 0 s

unfoldable pub to_lower : Text → Text
unfolding lower_from has_prefix
to_lower s = lower_from 0 s

-- `strings.ReplaceAll(s, a, b)` at single bytes.
unfoldable pub replace_byte : ℕ → ℕ → Text → Text
replace_byte a b [] = []
replace_byte a b (c ∷ s) = (if c == a then b else c) ∷ replace_byte a b s

-- `strings.Cut` at one byte: `none` if the byte is not there.
unfoldable pub cut_byte : ℕ → Text → Option (Text × Text)
cut_byte sep [] = none
cut_byte sep (c ∷ s) =
    let rest = cut_byte sep s in
    if c == sep then some ([], s) else elim rest [ none ↦ none | some (a, b) ↦ some (c ∷ a, b) ]

-- `strings.Split` at one byte; `cur` holds the part that is read.
split_from : ℕ → Text → Text → List Text
split_from sep cur [] = cur ∷ []
split_from sep cur (c ∷ s) = elim (c == sep) [
  | true ↦ cur ∷ split_from sep [] s
  | false ↦ split_from sep (cur ++ c ∷ []) s
]

unfoldable pub split_byte : ℕ → Text → List Text
unfolding split_from
split_byte sep s = split_from sep [] s

-- `strings.Compare`, bytewise.
pub data Order : Type 0 where
  before same after : Order

unfoldable pub text_compare : Text → Text → Order
text_compare [] [] = same
text_compare [] (b ∷ t) = before
text_compare (a ∷ s) [] = after
text_compare (a ∷ s) (b ∷ t) =
    let rest = text_compare s t in if leb b a then if a == b then rest else after else before
