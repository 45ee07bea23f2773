-- ===== src/Detector/Ssh/Lines/Parts.antt =====
-- The parts of a log between newlines: they hold no newline, and with the rest they are the log.
use my_safe.Prelude.{
  ℕ, ◌≡◌, ◌≢◌, All, refl, sym, ap, ◌∙◌, ◌⊎◌, inl, inr, List, [], ◌∷◌, ◌++◌, arith, ◌==◌, Bool-cases,
}
use mathlib.Core.Path.{subst}
use my_safe.Prelude.Text.{Text}
use my_safe.Detector.Ssh.Lines.{complete_parts, onto}

-- The parts with a newline behind each.
abbrev pub join : List Text → Text
join [] = []
join (part ∷ parts) = part ++ 10 ∷ join parts

pub append_assoc : (a b c : Text) → (a ++ b) ++ c ≡ a ++ (b ++ c)
append_assoc [] b c = refl
append_assoc (x ∷ a) b c = ap (λ t. x ∷ t) (append_assoc a b c)

pub join-append : (ps qs : List Text) → join (ps ++ qs) ≡ join ps ++ join qs
join-append [] qs = refl
join-append (p ∷ ps) qs = rw (join-append ps qs) (sym (append_assoc p (10 ∷ join ps) (join qs)))

join-onto :
    (c : ℕ) (parts : List Text) (rest : Text)
    → ((join (onto c parts) ++ rest) ≡ (c ∷ (join parts ++ rest))) ⊎ (parts ≡ [])
join-onto c [] rest = inr refl
join-onto c (p ∷ parts) rest = inl refl

-- A text without a newline.
abbrev pub IsLine : Text → Type 0
IsLine t = All (λ (c : ℕ). c ≢ 10) t

onto-IsLine : (c : ℕ) (parts : List Text) → c ≢ 10 → All IsLine parts → All IsLine (onto c parts)
onto-IsLine c [] other h = tt
onto-IsLine c (p ∷ parts) other h = ((other, h.0), h.1)

pub complete_parts-IsLine : (t : Text) → All IsLine (complete_parts t)
unfolding complete_parts
complete_parts-IsLine [] = tt
complete_parts-IsLine (c ∷ cs) = elim (Bool-cases (c == 10)) [
  | inl newline ↦ rw newline (tt, complete_parts-IsLine cs)
  | inr other ↦
      rw other (onto-IsLine c (complete_parts cs) (λ e. ground arith) (complete_parts-IsLine cs))
]

pub All-front : (ps qs all : List Text) → all ≡ ps ++ qs → All IsLine all → All IsLine ps
All-front [] qs all e h = tt
All-front (p ∷ ps) qs [] e h = absurd (cc e)
All-front (p ∷ ps) qs (a ∷ all) e h =
    let same : a ≡ p = cc e in (subst IsLine same h.0, All-front ps qs all (cc e) h.1)

-- A text is its complete parts, and a line that has not ended.
pub joined : (t : Text) → (rest : Text) × (t ≡ join (complete_parts t) ++ rest) × IsLine rest
unfolding complete_parts
joined [] = ([], refl, tt)
joined (c ∷ cs) =
    let (rest, e, line) = joined cs in
    elim (Bool-cases (c == 10)) [
      | inl newline ↦ let is : c ≡ 10 = ground arith in (rest, rw newline (cc (is, e)), line)
      | inr other ↦ elim (join-onto c (complete_parts cs) rest) [
        | inl split ↦ (rest, rw other (ap (λ t. c ∷ t) e ∙ sym split), line)
        | inr nothing ↦
            let all : cs ≡ rest = rw nothing at e in
            (c ∷ cs, rw (other, nothing) refl, ((λ e. ground arith), subst IsLine (sym all) line))
      ]
    ]

pub complete_parts_none-IsLine : (t : Text) → complete_parts t ≡ [] → IsLine t
complete_parts_none-IsLine t h =
    let (rest, e, line) = joined t in let all : t ≡ rest = rw h at e in subst IsLine (sym all) line
