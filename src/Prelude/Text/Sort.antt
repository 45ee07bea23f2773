-- ===== src/Prelude/Text/Sort.antt =====
-- `sort.Strings`: texts in bytewise order.
use Prim.Native.Nat.{suc}
use mathlib.Core.Path.{◌≡◌, refl}
use mathlib.Core.Logic.{◌⊎◌, inl, inr}
use mathlib.Core.List.{List, [], ◌∷◌}
use native.Mathlib.Omega.{arith}
use my_safe.Prelude.Lists.{length, Has}
use my_safe.Prelude.Text.Defs.{Text, Order, before, same, after, text_compare}

insert_text : Text → List Text → List Text
insert_text s [] = s ∷ []
insert_text s (t ∷ ts) =
    let rest = insert_text s ts in elim (text_compare s t) [ after ↦ t ∷ rest | _ ↦ s ∷ t ∷ ts ]

unfoldable pub sort_texts : List Text → List Text
unfolding insert_text text_compare
sort_texts [] = []
sort_texts (s ∷ ts) = insert_text s (sort_texts ts)

Has-insert_text : (x s : Text) (ts : List Text) → Has x (insert_text s ts) → (x ≡ s) ⊎ Has x ts
unfolding insert_text
Has-insert_text x s [] h = h
Has-insert_text x s (t ∷ ts) h = pick (text_compare s t) h (Has-insert_text x s ts)
  where
    pick :
        (o : Order)
        → Has x (elim o [ after ↦ t ∷ insert_text s ts | _ ↦ s ∷ t ∷ ts ])
        → (Has x (insert_text s ts) → (x ≡ s) ⊎ Has x ts)
        → (x ≡ s) ⊎ Has x (t ∷ ts)
    pick before g ih = g
    pick same g ih = g
    pick after (inl e) ih = inr (inl e)
    pick after (inr r) ih = elim (ih r) [ inl e ↦ inl e | inr q ↦ inr (inr q) ]

pub Has-sort_texts : (x : Text) (ts : List Text) → Has x (sort_texts ts) → Has x ts
unfolding sort_texts
Has-sort_texts x [] h = h
Has-sort_texts x (t ∷ ts) h = elim (Has-insert_text x t (sort_texts ts) h) [
  | inl e ↦ inl e
  | inr r ↦ inr (Has-sort_texts x ts r)
]

length-insert_text : (s : Text) (ts : List Text) → length (insert_text s ts) ≡ suc (length ts)
unfolding insert_text
length-insert_text s [] = refl
length-insert_text s (t ∷ ts) = ground (arith, length-insert_text s ts)

pub length-sort_texts : (ts : List Text) → length (sort_texts ts) ≡ length ts
unfolding sort_texts
length-sort_texts [] = refl
length-sort_texts (t ∷ ts) =
    omega (arith, length-insert_text t (sort_texts ts), length-sort_texts ts)

Has-insert_text_from : (x s : Text) (ts : List Text) → (x ≡ s) ⊎ Has x ts → Has x (insert_text s ts)
unfolding insert_text
Has-insert_text_from x s [] h = h
Has-insert_text_from x s (t ∷ ts) h = pick (text_compare s t) h (Has-insert_text_from x s ts)
  where
    pick :
        (o : Order)
        → (x ≡ s) ⊎ Has x (t ∷ ts)
        → ((x ≡ s) ⊎ Has x ts → Has x (insert_text s ts))
        → Has x (elim o [ after ↦ t ∷ insert_text s ts | _ ↦ s ∷ t ∷ ts ])
    pick before g ih = g
    pick same g ih = g
    pick after (inl e) ih = inr (ih (inl e))
    pick after (inr (inl e)) ih = inl e
    pick after (inr (inr r)) ih = inr (ih (inr r))

pub Has-sort_texts_from : (x : Text) (ts : List Text) → Has x ts → Has x (sort_texts ts)
unfolding sort_texts
Has-sort_texts_from x [] h = h
Has-sort_texts_from x (t ∷ ts) (inl e) = Has-insert_text_from x t (sort_texts ts) (inl e)
Has-sort_texts_from x (t ∷ ts) (inr r) =
    Has-insert_text_from x t (sort_texts ts) (inr (Has-sort_texts_from x ts r))
