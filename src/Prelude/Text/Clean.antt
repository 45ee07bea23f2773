-- ===== src/Prelude/Text/Clean.antt =====
-- `path.Clean` on a rooted path: empty and `.` elements go, and `..` takes one element back.

use mathlib.Core.Path.{◌≡◌, sym, ◌∙◌}
use mathlib.Core.Logic.{◌⊎◌, inl, inr}
use mathlib.Core.Bool.{Bool, true, not, ◌&&◌}
use mathlib.Core.List.{List, [], ◌∷◌, ◌++◌, reverse, reverse-append}
use my_safe.Prelude.Tests.{if◌then◌else◌, Bool-cases}
use my_safe.Prelude.Lists.{All, All-append}
use my_safe.Prelude.Text.Defs.{Text, text_eq, is_empty, split_byte}

abbrev pub dot : Text
dot = b'.' ∷ []

abbrev pub dot_dot : Text
dot_dot = b'.' ∷ b'.' ∷ []

-- An element that `path.Clean` keeps.
abbrev pub is_plain : Text → Bool
is_plain e = not (is_empty e) && not (text_eq e dot) && not (text_eq e dot_dot)

abbrev drop_last : List Text → List Text
drop_last [] = []
drop_last (_ ∷ out) = out

-- `out` holds the elements kept so far, the last one first.
resolve : List Text → List Text → List Text
resolve out [] = reverse out
resolve out (e ∷ es) =
    resolve (if is_plain e then e ∷ out else if text_eq e dot_dot then drop_last out else out) es

pub render : List Text → Text
render [] = []
render (e ∷ es) = (b'/' ∷ e) ++ render es

unfoldable pub clean_rooted : Text → Text
unfolding resolve render split_byte text_eq
clean_rooted s =
    let es = resolve [] (split_byte b'/' s) in if is_empty es then b'/' ∷ [] else render es

abbrev pub IsPlain : Text → Type 0
IsPlain e = is_plain e ≡ true

All-drop_last : (out : List Text) → All IsPlain out → All IsPlain (drop_last out)
All-drop_last [] h = tt
All-drop_last (e ∷ out) h = h.1

All-reverse {ℓ} : {A : Type ℓ} (P : A → Type 0) (xs : List A) → All P xs → All P (reverse xs)
All-reverse P [] h = tt
All-reverse P (x ∷ xs) h =
    rw (reverse-append (x ∷ []) xs)
      (All-append P (reverse xs) (x ∷ []) (All-reverse P xs h.1) (h.0, tt))

resolve-IsPlain : (out es : List Text) → All IsPlain out → All IsPlain (resolve out es)
unfolding resolve
resolve-IsPlain out [] h = All-reverse IsPlain out h
resolve-IsPlain out (e ∷ es) h = elim (Bool-cases (is_plain e)) [
  | inl p ↦ rw p (resolve-IsPlain (e ∷ out) es (p, h))
  | inr n ↦ rw n (elim (Bool-cases (text_eq e dot_dot)) [
    | inl d ↦ rw d (resolve-IsPlain (drop_last out) es (All-drop_last out h))
    | inr d ↦ rw d (resolve-IsPlain out es h)
  ])
]

-- A path that `path.Clean` leaves alone is `/`, or `/e1/e2/…` of elements that are not empty, not
-- `.` and not `..`.
pub clean_rooted-IsPlain :
    (s : Text)
    → clean_rooted s ≡ s
    → (s ≡ b'/' ∷ []) ⊎ ((es : List Text) × All IsPlain es × (s ≡ render es))
unfolding clean_rooted
clean_rooted-IsPlain s h = elim (Bool-cases (is_empty (resolve [] (split_byte b'/' s)))) [
  | inl e ↦ inl (sym h ∙ rw e)
  | inr n ↦
      inr (resolve [] (split_byte b'/' s), resolve-IsPlain [] (split_byte b'/' s) tt, sym h ∙ rw n)
]
