-- ===== src/Detector/Runtime/Scan/Sources.antt =====
-- Where the events of a runtime scan come from: none is of a port that has not changed.
use my_safe.Prelude.{
  ℕ, ◌+◌, ◌≡◌, refl, sym, inl, inr, Bool, true, false, ◌||◌, Option, none, some, List, [], ◌∷◌,
  ◌++◌, All, All-append, Has, length, ltb, leb, Bool-cases,
}
use mathlib.Core.Path.{subst}
use my_safe.Prelude.Text.{Text, text_eq, is_empty}
use my_safe.Prelude.Dict.{Dict, lookup, is_some}
use my_safe.Domain.{Time, Event}
use my_safe.Detector.Runtime.{
  ProcessEntry, RuntimeState, RuntimeIssue, PortEntry, port_event, runtime_event, process_event,
  process_drift_event,
}
use my_safe.Detector.Runtime.Capture.{Captured}
use my_safe.Detector.Runtime.Maps.{
  append_bounded, append_all, union_keys, next_ports, current_names, sort_issues,
}
use my_safe.Detector.Runtime.Scan.{
  changes, first_seen, drift_of, drifts, port_changes, coverage_events, overflow_event,
  with_overflow, scan_events, issues_hash, only,
}
use my_safe.Detector.Runtime.Scan.Listed.{HasChanged}
use my_safe.Detector.Runtime.Scan.Ports.{port_kind, IsOfChange, other_kind, change_at-IsOfChange}

append_all-All :
    (P : Event → Type 0) (limit : ℕ) (events more : List Event)
    → All P events
    → All P more
    → All P (append_all limit events more)
unfolding append_all append_bounded
append_all-All P limit events [] old new = old
append_all-All P limit events (e ∷ more) old new = elim (Bool-cases (ltb (length events) limit)) [
  | inl room ↦ rw room (
      append_all-All P limit (events ++ e ∷ []) more (All-append P events (e ∷ []) old (new.0, tt))
        new.1)
  | inr full ↦ rw full (append_all-All P limit events more old new.1)
]

All-Has : (P : Event → Type 0) (x : Event) (xs : List Event) → All P xs → Has x xs → P x
All-Has P x [] h there = absurd there
All-Has P x (y ∷ xs) h (inl it) = subst P (sym it) h.0
All-Has P x (y ∷ xs) h (inr later) = All-Has P x xs h.1 later

only-All : (P : Event → Type 0) (b : Bool) (xs : List Event) → All P xs → All P (only b xs)
only-All P true xs h = h
only-All P false xs h = tt

module _ (sha256 : Text → Text) (encode_issues : List RuntimeIssue → Text)
    (max_known max_events : ℕ) (now : Time) (s : RuntimeState) (c : Captured) where
  abbrev Fine : Event → Type 0
  Fine = IsOfChange sha256 encode_issues max_known max_events now s c

  first_seen-Fine :
      (ps : Dict ProcessEntry)
      → All Fine (first_seen sha256 encode_issues max_known max_events now s ps)
  unfolding first_seen process_event runtime_event text_eq
  first_seen-Fine [] = tt
  first_seen-Fine ((identity, p) ∷ ps) = elim (Bool-cases (is_some (lookup identity s.known))) [
    | inl old ↦ rw old (first_seen-Fine ps)
    | inr new ↦ rw new (
      other_kind sha256 encode_issues max_known max_events now s c
          (process_event sha256 p now s.generation) refl refl,
      first_seen-Fine ps,
    )
  ]

  drift_of-Fine :
      (identity : Text) (old : Option Text) (p : Option ProcessEntry)
      → All Fine (drift_of sha256 encode_issues max_known max_events now s identity old p)
  unfolding drift_of process_drift_event runtime_event text_eq
  drift_of-Fine identity none p = tt
  drift_of-Fine identity (some old) none = tt
  drift_of-Fine identity (some old) (some p) =
      elim (Bool-cases (is_empty old || text_eq old identity)) [
        | inl same ↦ rw same tt
        | inr drifted ↦ rw drifted (
          other_kind sha256 encode_issues max_known max_events now s c
              (process_drift_event sha256 p old now s.generation) refl refl,
          tt,
        )
      ]

  drifts-Fine :
      (ps : Dict ProcessEntry) (names : Dict Text)
      → All Fine (drifts sha256 encode_issues max_known max_events now s ps names)
  unfolding drifts
  drifts-Fine ps [] = tt
  drifts-Fine ps ((key, identity) ∷ names) =
      All-append Fine _ _ (drift_of-Fine identity (lookup key s.names) (lookup identity ps))
        (drifts-Fine ps names)

  port_changes-Fine :
      (keys : List Text)
      → All Fine
          (port_changes sha256 encode_issues max_known max_events now s keys (next_ports s.ports c))
  unfolding port_changes
  port_changes-Fine [] = tt
  port_changes-Fine (key ∷ keys) =
      All-append Fine _ _
        (change_at-IsOfChange sha256 encode_issues max_known max_events now s c key)
        (port_changes-Fine keys)

  changes-Fine : All Fine (changes sha256 encode_issues max_known max_events now true s c)
  unfolding changes
  changes-Fine =
      All-append Fine _ _
        (only-All Fine c.process_complete _ (
          All-append Fine _ _ (first_seen-Fine c.processes)
            (drifts-Fine c.processes (current_names c.processes []))))
        (port_changes-Fine (union_keys s.ports (next_ports s.ports c)))

  coverage_events-Fine :
      (issues : List RuntimeIssue) (hash : Text)
      → All Fine (coverage_events sha256 encode_issues max_known max_events now true s issues hash)
  unfolding coverage_events runtime_event text_eq
  coverage_events-Fine issues hash = elim (Bool-cases (text_eq hash s.coverage_hash)) [
    | inl same ↦ rw same tt
    | inr new ↦ elim (Bool-cases (is_empty issues)) [
      | inr limited ↦
          rw (new, limited)
            (other_kind sha256 encode_issues max_known max_events now s c _ refl refl, tt)
      | inl fine ↦ elim (Bool-cases (is_empty s.coverage_hash)) [
        | inl was_fine ↦ rw (new, fine, was_fine) tt
        | inr restored ↦
            rw (new, fine, restored)
              (other_kind sha256 encode_issues max_known max_events now s c _ refl refl, tt)
      ]
    ]
  ]

  with_overflow-Fine :
      (events : List Event)
      → All Fine events
      → All Fine (with_overflow sha256 encode_issues max_known max_events now s.generation events)
  unfolding with_overflow overflow_event runtime_event text_eq
  with_overflow-Fine events h = elim (Bool-cases (leb max_events (length events))) [
    | inr room ↦ rw room h
    | inl full ↦ rw full (
        All-append Fine events _ h (
          other_kind sha256 encode_issues max_known max_events now s c
              (overflow_event sha256 encode_issues max_known max_events now s.generation) refl refl,
          tt,
        ))
  ]

  -- Only what changed is reported: an event of a scan that says that a port has opened or closed is the
  -- event of a port that is new, or is gone from a table that was read to its end.
  pub scan_events-IsOfChange :
      (x : Event) (opened : Bool)
      → Has x (scan_events sha256 encode_issues max_known max_events now true s c)
      → x.kind ≡ port_kind opened
      → (key : Text) × (p : PortEntry) × HasChanged s c key p opened
        × (x ≡ port_event sha256 p opened now s.generation)
  unfolding scan_events
  scan_events-IsOfChange x opened there kind =
      let issues = sort_issues c.issues in
      let hash = issues_hash sha256 encode_issues max_known max_events now issues in
      let all : All Fine (scan_events sha256 encode_issues max_known max_events now true s c) =
        with_overflow-Fine _ (
          append_all-All Fine (max_events + 1) _ _
            (append_all-All Fine max_events [] _ tt changes-Fine)
            (coverage_events-Fine issues hash)) in
      All-Has Fine x _ all there opened kind
