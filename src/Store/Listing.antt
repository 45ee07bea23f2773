-- ===== src/Store/Listing.antt =====
-- Listings of internal/store/memory.go: the limit, and newest first.
use my_safe.Prelude.{
  ℕ, zero, suc, ◌≤◌, List, [], ◌∷◌, arith, ltb, length, take, drop, All, ◌++◌, take-append-drop,
  Bool-cases, inl, inr, if◌then◌else◌, length-take-le, All-take, All-drop,
}
use mathlib.Core.List.{Perm}
use mathlib.Core.List.Perm
use my_safe.Prelude.Int.{ℤ, pos, negsuc}

-- `normalizeLimit`
unfoldable pub normalize_limit : ℤ → ℕ
normalize_limit (negsuc n) = 100
normalize_limit (pos zero) = 100
normalize_limit (pos (suc n)) = if ltb 500 (suc n) then 500 else suc n

pub normalize_limit_bounds : (n : ℤ) → (1 ≤ normalize_limit n) × (normalize_limit n ≤ 500)
unfolding normalize_limit
normalize_limit_bounds (negsuc n) = omega arith
normalize_limit_bounds (pos zero) = omega arith
normalize_limit_bounds (pos (suc n)) = ground arith

-- `sort.Slice` by a time, the latest first. The library promises no order among equal times; this is
-- the stable one.
module _ {ℓ} {A : Type ℓ} (time : A → ℕ) where
  insert_latest : A → List A → List A
  insert_latest x [] = x ∷ []
  insert_latest x (y ∷ ys) =
      let rest = insert_latest x ys in if ltb (time x) (time y) then y ∷ rest else x ∷ y ∷ ys

  unfoldable pub latest_first : List A → List A
  unfolding insert_latest
  latest_first [] = []
  latest_first (x ∷ xs) = insert_latest x (latest_first xs)

  -- The sort, cut off at the limit.
  unfoldable pub listing : ℤ → List A → List A
  unfolding latest_first normalize_limit
  listing limit xs = take (normalize_limit limit) (latest_first xs)

module _ {ℓ} {A : Type ℓ} (time : A → ℕ) where
  abbrev pub AllAtMost : ℕ → List A → Type 0
  AllAtMost t xs = All (λ y. time y ≤ t) xs

  abbrev pub Descending : List A → Type 0
  Descending [] = Unit
  Descending (x ∷ xs) = AllAtMost (time x) xs × Descending xs

  AllAtMost-weaken : (s t : ℕ) (xs : List A) → s ≤ t → AllAtMost s xs → AllAtMost t xs
  AllAtMost-weaken s t [] h a = tt
  AllAtMost-weaken s t (x ∷ xs) h a = (omega arith, AllAtMost-weaken s t xs h a.1)

  AllAtMost-insert_latest :
      (t : ℕ) (x : A) (xs : List A)
      → time x ≤ t
      → AllAtMost t xs
      → AllAtMost t (insert_latest time x xs)
  unfolding insert_latest
  AllAtMost-insert_latest t x [] h a = (h, tt)
  AllAtMost-insert_latest t x (y ∷ ys) h a = elim (Bool-cases (ltb (time x) (time y))) [
    | inl lt ↦ rw lt (a.0, AllAtMost-insert_latest t x ys h a.1)
    | inr ge ↦ rw ge (h, a)
  ]

  Descending-insert_latest :
      (x : A) (xs : List A) → Descending xs → Descending (insert_latest time x xs)
  unfolding insert_latest
  Descending-insert_latest x [] d = (tt, tt)
  Descending-insert_latest x (y ∷ ys) d = elim (Bool-cases (ltb (time x) (time y))) [
    | inl lt ↦ rw lt (
      AllAtMost-insert_latest (time y) x ys (ground arith) d.0,
      Descending-insert_latest x ys d.1,
    )
    | inr ge ↦ rw ge ((ground arith, AllAtMost-weaken (time y) (time x) ys (ground arith) d.0), d)
  ]

  Descending-latest_first : (xs : List A) → Descending (latest_first time xs)
  unfolding latest_first
  Descending-latest_first [] = tt
  Descending-latest_first (x ∷ xs) =
      Descending-insert_latest x (latest_first time xs) (Descending-latest_first xs)

  perm-insert_latest : (x : A) (xs : List A) → Perm (insert_latest time x xs) (x ∷ xs)
  unfolding insert_latest
  perm-insert_latest x [] = Perm.refl (x ∷ [])
  perm-insert_latest x (y ∷ ys) = elim (Bool-cases (ltb (time x) (time y))) [
    | inl lt ↦ rw lt (Perm.trans (Perm.cons y (perm-insert_latest x ys)) (Perm.swap x y ys))
    | inr ge ↦ rw ge (Perm.refl (x ∷ y ∷ ys))
  ]

  perm-latest_first : (xs : List A) → Perm (latest_first time xs) xs
  unfolding latest_first
  perm-latest_first [] = Perm.refl []
  perm-latest_first (x ∷ xs) =
      Perm.trans (perm-insert_latest x (latest_first time xs)) (Perm.cons x (perm-latest_first xs))

  -- Everything behind the cut is at most as late as everything before it.
  cut_Descending :
      (n : ℕ) (xs : List A)
      → Descending xs
      → Descending (take n xs) × All (λ x. AllAtMost (time x) (drop n xs)) (take n xs)
  cut_Descending zero xs d = (tt, tt)
  cut_Descending (suc n) [] d = (tt, tt)
  cut_Descending (suc n) (x ∷ xs) d =
      let (sorted, late) = cut_Descending n xs d.1 in
      (
        (All-take (λ y. time y ≤ time x) n xs d.0, sorted),
        (All-drop (λ y. time y ≤ time x) n xs d.0, late),
      )

  -- A listing has at most 500 entries, the latest first, and with the entries that it leaves out it
  -- is the whole collection, none of which is later than a listed one.
  pub listing-newest :
      (limit : ℤ) (xs : List A)
      → (length (listing time limit xs) ≤ 500)
        × Descending (listing time limit xs)
        × ((rest : List A) × Perm (listing time limit xs ++ rest) xs
            × All (λ x. AllAtMost (time x) rest) (listing time limit xs))
  unfolding listing
  listing-newest limit xs =
      let n = normalize_limit limit in
      let ys = latest_first time xs in
      let (sorted, late) = cut_Descending n ys (Descending-latest_first xs) in
      (
        omega (arith, normalize_limit_bounds limit, length-take-le {ℓ} n ys),
        sorted,
        (drop n ys, rw take-append-drop (perm-latest_first xs), late),
      )

  All-insert_latest {κ} :
      (P : A → Type κ) (x : A) (xs : List A) → P x → All P xs → All P (insert_latest time x xs)
  unfolding insert_latest
  All-insert_latest P x [] p h = (p, tt)
  All-insert_latest P x (y ∷ ys) p h = elim (Bool-cases (ltb (time x) (time y))) [
    | inl lt ↦ rw lt (h.0, All-insert_latest P x ys p h.1)
    | inr ge ↦ rw ge (p, h)
  ]

  All-latest_first {κ} : (P : A → Type κ) (xs : List A) → All P xs → All P (latest_first time xs)
  unfolding latest_first
  All-latest_first P [] h = tt
  All-latest_first P (x ∷ xs) h =
      All-insert_latest P x (latest_first time xs) h.0 (All-latest_first P xs h.1)

  -- What holds of every entry holds of every listed one.
  pub All-listing {κ} :
      (P : A → Type κ) (limit : ℤ) (xs : List A) → All P xs → All P (listing time limit xs)
  unfolding listing
  All-listing P limit xs h =
      All-take P (normalize_limit limit) (latest_first time xs) (All-latest_first P xs h)
