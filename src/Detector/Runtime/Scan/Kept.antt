-- ===== src/Detector/Runtime/Scan/Kept.antt =====
-- What a scan of internal/detector/runtimewatch/runtimewatch.go puts into its maps stays in order.
use my_safe.Prelude.{
  ℕ, ◌==◌, ◌≤◌, ◌≡◌, refl, inl, inr, Bool, true, false, not, ◌&&◌, [], ◌∷◌, arith, All, length,
  Bool-cases, Option-cases,
}
use mathlib.Core.Path.{subst}
use my_safe.Prelude.Text.{
  Text, text_eq, text_eq_iff, is_empty, Order, before, same, after, text_compare,
}
use my_safe.Prelude.Dict.{Dict, lookup, insert, is_some, lookup-insert}
use my_safe.Prelude.Maps.{IsMap, IsMap-insert, All-insert}
use my_safe.Detector.Ssh.State.{valid_sha256}
use my_safe.Detector.Runtime.{ProcessEntry, PortEntry}
use my_safe.Detector.Runtime.Capture.{Captured}
use my_safe.Detector.Runtime.Maps.{keep_family, current_names, add_name, name_key, mark_known}
use my_safe.Detector.Runtime.State.{is_known, valid_process}
use my_safe.Detector.Runtime.State.Checks.{IsProcess, IsPort}

-- A process as it is read, which gets its generation in the state.
abbrev pub IsSeen : Text × ProcessEntry → Type 0
IsSeen (identity, p) = valid_process identity (record p { last_seen = 1 }) ≡ true

-- What `capture` gives: entries that are in order, and no more processes than may be known.
pub record IsCaptured (max_known : ℕ) (c : Captured) : Type 0 where
  pub processes : All IsSeen c.processes
  pub few : length c.processes ≤ max_known
  pub ports : All IsPort c.ports

seen-IsProcess :
    (k : Text) (p : ProcessEntry) (g : ℕ)
    → 1 ≤ g
    → IsSeen (k, p)
    → IsProcess (k, record p { last_seen = g })
unfolding valid_process
seen-IsProcess k p g h seen = let dated : (g == 0) ≡ false = ground arith in rw dated seen

not_empty : (t : Text) → valid_sha256 t ≡ true → is_empty t ≡ false
unfolding valid_sha256
not_empty [] h = absurd (cc h)
not_empty (c ∷ t) h = refl

-- The parts of a valid process that are used: its key is its identity, which is a hash.
pub seen_identity :
    (k : Text) (p : ProcessEntry)
    → IsSeen (k, p)
    → (text_eq k p.identity ≡ true) × (valid_sha256 k ≡ true)
unfolding valid_process
seen_identity k p h = (ground arith, ground arith)

seen_named : (k : Text) (p : ProcessEntry) → IsSeen (k, p) → is_empty p.identity ≡ false
seen_named k p h =
    let (it, hash) = seen_identity k p h in
    subst (λ (t : Text). is_empty t ≡ false) ((text_eq_iff k p.identity).0 it) (not_empty k hash)

pub mark_known-All :
    (g : ℕ) (ps known : Dict ProcessEntry)
    → 1 ≤ g
    → All IsSeen ps
    → All IsProcess known
    → All IsProcess (mark_known g ps known)
unfolding mark_known
mark_known-All g [] known h seen valid = valid
mark_known-All g ((k, p) ∷ ps) known h seen valid =
    mark_known-All g ps (insert k (record p { last_seen = g }) known) h seen.1 (
      All-insert IsProcess k (record p { last_seen = g }) known (seen-IsProcess k p g h seen.0)
        valid)

pub mark_known-IsMap :
    (g : ℕ) (ps known : Dict ProcessEntry) → IsMap known → IsMap (mark_known g ps known)
unfolding mark_known
mark_known-IsMap g [] known h = h
mark_known-IsMap g ((k, p) ∷ ps) known h =
    mark_known-IsMap g ps (insert k (record p { last_seen = g }) known)
      (IsMap-insert k (record p { last_seen = g }) known h)

insert-known :
    (i k : Text) (p : ProcessEntry) (g : ℕ) (known : Dict ProcessEntry)
    → IsSeen (k, p)
    → is_known (lookup i known) ≡ true
    → is_known (lookup i (insert k (record p { last_seen = g }) known)) ≡ true
insert-known i k p g known seen h = elim (Bool-cases (text_eq k i)) [
  | inr away ↦ rw (lookup-insert k i (record p { last_seen = g }) known, away) h
  | inl it ↦
      rw (lookup-insert k i (record p { last_seen = g }) known, it) (rw (seen_named k p seen) refl)
]

mark_known-keeps :
    (i : Text) (g : ℕ) (ps known : Dict ProcessEntry)
    → All IsSeen ps
    → is_known (lookup i known) ≡ true
    → is_known (lookup i (mark_known g ps known)) ≡ true
unfolding mark_known
mark_known-keeps i g [] known seen h = h
mark_known-keeps i g ((k, p) ∷ ps) known seen h =
    mark_known-keeps i g ps (insert k (record p { last_seen = g }) known) seen.1
      (insert-known i k p g known seen.0 h)

pub mark_known-known :
    (i : Text) (g : ℕ) (ps known : Dict ProcessEntry)
    → All IsSeen ps
    → is_some (lookup i ps) ≡ true
    → is_known (lookup i (mark_known g ps known)) ≡ true
unfolding mark_known lookup
mark_known-known i g [] known seen h = absurd (cc h)
mark_known-known i g ((k, p) ∷ ps) known seen h =
    let known' : Dict ProcessEntry = insert k (record p { last_seen = g }) known in
    elim (Bool-cases (text_eq k i)) [
      | inr away ↦ mark_known-known i g ps known' seen.1 (rw away at h)
      | inl it ↦ mark_known-keeps i g ps known' seen.1 (
          rw (lookup-insert k i (record p { last_seen = g }) known, it)
            (rw (seen_named k p seen.0) refl))
    ]

-- Every name stands for an identity that has `Q`.
module _ (Q : Text → Type 0) where
  add_name-All :
      (key identity : Text) (names : Dict Text)
      → Q identity
      → All (λ (n : Text × Text). Q n.1) names
      → All (λ (n : Text × Text). Q n.1) (add_name key identity names)
  unfolding add_name
  add_name-All key identity names q all = elim (Option-cases (lookup key names)) [
    | inl new ↦ rw (new, All) (All-insert (λ (n : Text × Text). Q n.1) key identity names q all)
    | inr (selected, there) ↦ rw (there, All) (pick (text_compare identity selected))
  ]
    where
      pick :
          (o : Order)
          → All
              (λ (n : Text × Text). Q n.1)
              (elim o [ before ↦ insert key identity names | same ↦ names | after ↦ names ])
      pick before = All-insert (λ (n : Text × Text). Q n.1) key identity names q all
      pick same = all
      pick after = all

  pub current_names-All :
      (ps : Dict ProcessEntry) (names : Dict Text)
      → All (λ (e : Text × ProcessEntry). Q e.0) ps
      → All (λ (n : Text × Text). Q n.1) names
      → All (λ (n : Text × Text). Q n.1) (current_names ps names)
  unfolding current_names
  current_names-All [] names q all = all
  current_names-All ((k, p) ∷ ps) names q all =
      current_names-All ps (add_name (name_key p) k names) q.1
        (add_name-All (name_key p) k names q.0 all)

pub keep_family-All :
    (complete : Bool) (family : Text) (previous ports : Dict PortEntry)
    → All IsPort previous
    → All IsPort ports
    → All IsPort (keep_family complete family previous ports)
unfolding keep_family
keep_family-All complete family [] ports old all = all
keep_family-All complete family ((k, p) ∷ previous) ports old all =
    elim (Bool-cases (not complete && text_eq p.family family)) [
      | inl kept ↦ rw kept (
          keep_family-All complete family previous (insert k p ports) old.1
            (All-insert IsPort k p ports old.0 all))
      | inr gone ↦ rw gone (keep_family-All complete family previous ports old.1 all)
    ]
