-- ===== src/Prelude/Maps.antt =====
-- Association lists as maps: each key once.
use Prim.Native.Nat.{◌≤◌}
use mathlib.Core.Path.{◌≡◌, refl, sym, subst}
use mathlib.Core.Logic.{inl, inr}
use mathlib.Core.Bool.{true, false}
use mathlib.Core.Option.{none, some}
use mathlib.Core.List.{[], ◌∷◌}
use native.Mathlib.Omega.{arith}
use my_safe.Prelude.Tests.{Bool-cases, Option-cases}
use my_safe.Prelude.Lists.{length, All}
use my_safe.Prelude.Text.{Text, text_eq, text_eq_iff, text_eq_refl}
use my_safe.Prelude.Dict.{
  Dict, lookup, insert, erase, is_some, lookup-insert, lookup-erase, length-erase-lt,
}

text_eq-sym : (j k : Text) → text_eq j k ≡ false → text_eq k j ≡ false
text_eq-sym j k h = elim (Bool-cases (text_eq k j)) [
  | inr away ↦ away
  | inl it ↦ absurd (cc (h, (text_eq_iff j k).1 (sym ((text_eq_iff k j).0 it))))
]

module _ {V : Type 0} where
  abbrev pub IsMap : Dict V → Type 0
  IsMap [] = Unit
  IsMap ((k, v) ∷ m) = (lookup k m ≡ none) × IsMap m

  pub IsMap-insert : (k : Text) (v : V) (m : Dict V) → IsMap m → IsMap (insert k v m)
  unfolding insert lookup
  IsMap-insert k v [] h = (refl, tt)
  IsMap-insert k v ((j, w) ∷ m) h = elim (Bool-cases (text_eq j k)) [
    | inl it ↦ rw it h
    | inr away ↦
        rw away (rw (lookup-insert k j v m, text_eq-sym j k away) h.0, IsMap-insert k v m h.1)
  ]

  pub IsMap-erase : (k : Text) (m : Dict V) → IsMap m → IsMap (erase k m)
  unfolding erase
  IsMap-erase k [] h = tt
  IsMap-erase k ((j, w) ∷ m) h = elim (Bool-cases (text_eq j k)) [
    | inl it ↦ rw it (IsMap-erase k m h.1)
    | inr away ↦ rw away (rw (lookup-erase k j m, text_eq-sym j k away) h.0, IsMap-erase k m h.1)
  ]

  -- A map all of whose keys are in another one is no longer than that.
  pub length-le_keys :
      {W : Type 0} (m : Dict V) (n : Dict W)
      → IsMap m
      → ((k : Text) → is_some (lookup k m) ≡ true → is_some (lookup k n) ≡ true)
      → length m ≤ length n
  unfolding lookup
  length-le_keys [] n h sub = omega arith
  length-le_keys ((k, v) ∷ m) n h sub = elim (Option-cases (lookup k n)) [
    | inl gone ↦ absurd (cc (gone, sub k (rw (text_eq_refl k) refl)))
    | inr (w, there) ↦
        let shorter = length-erase-lt k w n there in
        let rest : length m ≤ length (erase k n) = length-le_keys m (erase k n) h.1 (λ j in_m.
          elim (Bool-cases (text_eq k j)) [
            | inl it ↦ absurd (cc (in_m, h.0, (text_eq_iff k j).0 it))
            | inr away ↦ rw (lookup-erase k j n, away) (sub j (rw away in_m))
          ]) in
        omega arith
  ]

module _ {ℓ} {V : Type 0} (P : Text × V → Type ℓ) where
  pub All-insert : (k : Text) (v : V) (m : Dict V) → P (k, v) → All P m → All P (insert k v m)
  unfolding insert
  All-insert k v [] p h = (p, tt)
  All-insert k v ((j, w) ∷ m) p h = elim (Bool-cases (text_eq j k)) [
    | inl it ↦ rw it (rw ((text_eq_iff j k).0 it) p, h.1)
    | inr other ↦ rw other (h.0, All-insert k v m p h.1)
  ]

  pub All-erase : (k : Text) (m : Dict V) → All P m → All P (erase k m)
  unfolding erase
  All-erase k [] h = tt
  All-erase k ((j, w) ∷ m) h = elim (Bool-cases (text_eq j k)) [
    | inl it ↦ rw it (All-erase k m h.1)
    | inr other ↦ rw other (h.0, All-erase k m h.1)
  ]

  pub All-lookup : (k : Text) (v : V) (m : Dict V) → lookup k m ≡ some v → All P m → P (k, v)
  unfolding lookup
  All-lookup k v [] e h = absurd (cc e)
  All-lookup k v ((j, w) ∷ m) e h = elim (Bool-cases (text_eq j k)) [
    | inl it ↦
        let same : w ≡ v = cc (rw it at e) in
        subst (λ (x : Text × V). P x) (cc ((text_eq_iff j k).0 it, same)) h.0
    | inr other ↦ All-lookup k v m (rw other at e) h.1
  ]
