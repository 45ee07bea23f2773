-- ===== src/Detector/Ssh/Recent.antt =====
-- What `pruneFailures` keeps.
use my_safe.Prelude.{
  ◌≡◌, refl, ap, ◌∙◌, inl, inr, false, none, some, List, [], ◌∷◌, arith, true, Bool-cases,
  Option-cases,
}
use my_safe.Prelude.Int.{ℤ, ltb_ℤ}
use my_safe.Prelude.Text.{Text, text_eq, text_eq_iff}
use my_safe.Prelude.Dict.{Dict, lookup, lookup-insert, lookup-erase}
use my_safe.Detector.Ssh.{
  DetectorState, Failure, recent, attempts_of, prune_ip, prune_entries, prune_failures,
}

-- Its own attempts, less those before the cutoff, are left of an address that `prune_ip` goes over.
prune_ip_self :
    (now cutoff : ℤ) (ip : Text) (kept : List Failure) (s : DetectorState)
    → attempts_of (lookup ip (prune_ip now cutoff ip kept s).failures) ≡ kept
unfolding prune_ip
prune_ip_self now cutoff ip [] s = ground (arith, lookup-erase ip ip s.failures, text_eq_iff ip ip)
prune_ip_self now cutoff ip (a ∷ kept) s =
    ground (arith, lookup-insert ip ip (a ∷ kept) s.failures, text_eq_iff ip ip)

prune_ip_other :
    (now cutoff : ℤ) (ip j : Text) (kept : List Failure) (s : DetectorState)
    → text_eq ip j ≡ false
    → lookup j (prune_ip now cutoff ip kept s).failures ≡ lookup j s.failures
unfolding prune_ip
prune_ip_other now cutoff ip j [] s h = ground (arith, lookup-erase ip j s.failures)
prune_ip_other now cutoff ip j (a ∷ kept) s h =
    ground (arith, lookup-insert ip j (a ∷ kept) s.failures)

-- No two entries have one key, as in every map of Go.
abbrev pub UniqueKeys {ℓ} : {V : Type ℓ} → Dict V → Type ℓ
UniqueKeys [] = Unit
UniqueKeys ((k, v) ∷ m) = (lookup k m ≡ none) × UniqueKeys m

prune_entries_other :
    (now cutoff : ℤ) (entries : Dict (List Failure)) (s : DetectorState) (ip : Text)
    → lookup ip entries ≡ none
    → lookup ip (prune_entries now cutoff entries s).failures ≡ lookup ip s.failures
unfolding prune_entries lookup
prune_entries_other now cutoff [] s ip h = refl
prune_entries_other now cutoff ((k, xs) ∷ entries) s ip h =
    let absent : lookup ip entries ≡ none = ground arith in
    prune_entries_other now cutoff entries (prune_ip now cutoff k (recent cutoff xs) s) ip absent
    ∙ prune_ip_other now cutoff k ip (recent cutoff xs) s (ground arith)

prune_entries_found :
    (now cutoff : ℤ) (entries : Dict (List Failure)) (s : DetectorState) (ip : Text)
    (xs : List Failure)
    → UniqueKeys entries
    → lookup ip entries ≡ some xs
    → attempts_of (lookup ip (prune_entries now cutoff entries s).failures) ≡ recent cutoff xs
unfolding prune_entries lookup
prune_entries_found now cutoff [] s ip xs u h = absurd (cc h)
prune_entries_found now cutoff ((k, ys) ∷ entries) s ip xs u h = elim (Bool-cases (text_eq k ip)) [
  | inr other ↦
      prune_entries_found now cutoff entries (prune_ip now cutoff k (recent cutoff ys) s) ip xs u.1
        (rw other at h)
  | inl it ↦
      let e : k ≡ ip = (text_eq_iff k ip).0 it in
      let same : ys ≡ xs = cc (rw it at h) in
      ap attempts_of (
        prune_entries_other now cutoff entries (prune_ip now cutoff k (recent cutoff ys) s) ip
          (rw e at u.0))
      ∙ rw (← e, ← same) (prune_ip_self now cutoff k (recent cutoff ys) s)
]

-- What is left of a list of attempts without those before the cutoff: each of the others, in order.
pub data Pruned (cutoff : ℤ) : List Failure → List Failure → Type 0 where
  done : Pruned cutoff [] []
  dropped :
      {a : Failure} {xs kept : List Failure}
      → ltb_ℤ a.at cutoff ≡ true
      → Pruned cutoff xs kept
      → Pruned cutoff (a ∷ xs) kept
  held :
      {a : Failure} {xs kept : List Failure}
      → ltb_ℤ a.at cutoff ≡ false
      → Pruned cutoff xs kept
      → Pruned cutoff (a ∷ xs) (a ∷ kept)

recent-Pruned : (cutoff : ℤ) (xs : List Failure) → Pruned cutoff xs (recent cutoff xs)
unfolding recent
recent-Pruned cutoff [] = done
recent-Pruned cutoff (a ∷ xs) = elim (Bool-cases (ltb_ℤ a.at cutoff)) [
  | inl old ↦ rw old (dropped old (recent-Pruned cutoff xs))
  | inr new ↦ rw new (held new (recent-Pruned cutoff xs))
]

-- After `pruneFailures` each address has exactly those of its attempts that are not before the cutoff,
-- in their order. No address is twice in the map of attempts.
pub prune_failures_lem :
    (now cutoff : ℤ) (s : DetectorState) (ip : Text)
    → UniqueKeys s.failures
    → Pruned cutoff
        (attempts_of (lookup ip s.failures))
        (attempts_of (lookup ip (prune_failures now cutoff s).failures))
unfolding prune_failures
prune_failures_lem now cutoff s ip u = elim (Option-cases (lookup ip s.failures)) [
  | inl absent ↦
      let gone = prune_entries_other now cutoff s.failures s ip absent ∙ absent in
      rw (gone, absent) done
  | inr (xs, found) ↦
      let kept = prune_entries_found now cutoff s.failures s ip xs u found in
      rw (kept, found) (recent-Pruned cutoff xs)
]
