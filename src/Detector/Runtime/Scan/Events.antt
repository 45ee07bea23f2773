-- ===== src/Detector/Runtime/Scan/Events.antt =====
-- The events of a runtime scan are bounded, and none is lost without a word.
use my_safe.Prelude.{
  ℕ, ◌+◌, ◌≤◌, refl, ◌⊎◌, inl, inr, Bool, List, [], ◌∷◌, arith, length, length-append, ltb, leb,
  Has, Has-append_left, Has-append_right, Bool-cases,
}
use my_safe.Prelude.Text.{Text}
use my_safe.Domain.{Time, Event}
use my_safe.Detector.Runtime.{RuntimeState, RuntimeIssue}
use my_safe.Detector.Runtime.Capture.{Captured}
use my_safe.Detector.Runtime.Maps.{append_bounded, append_all, sort_issues}
use my_safe.Detector.Runtime.Scan.{
  changes, coverage_events, overflow_event, with_overflow, scan_events, issues_hash,
}

append_bounded-le :
    (limit : ℕ) (events : List Event) (e : Event)
    → length events ≤ limit
    → length (append_bounded limit events e) ≤ limit
unfolding append_bounded
append_bounded-le limit events e h = elim (Bool-cases (ltb (length events) limit)) [
  | inl room ↦ rw room (rw (length-append events (e ∷ [])) (ground arith))
  | inr full ↦ rw full h
]

append_all-le :
    (limit : ℕ) (events more : List Event)
    → length events ≤ limit
    → length (append_all limit events more) ≤ limit
unfolding append_all
append_all-le limit events [] h = h
append_all-le limit events (e ∷ more) h =
    append_all-le limit (append_bounded limit events e) more (append_bounded-le limit events e h)

-- What is in the list stays in it, and it only grows.
append_bounded-Has :
    (limit : ℕ) (x e : Event) (events : List Event)
    → Has x events
    → Has x (append_bounded limit events e)
unfolding append_bounded
append_bounded-Has limit x e events h = elim (Bool-cases (ltb (length events) limit)) [
  | inl room ↦ rw room (Has-append_left x events (e ∷ []) h)
  | inr full ↦ rw full h
]

append_all-Has :
    (limit : ℕ) (x : Event) (events more : List Event)
    → Has x events
    → Has x (append_all limit events more)
unfolding append_all
append_all-Has limit x events [] h = h
append_all-Has limit x events (e ∷ more) h =
    append_all-Has limit x (append_bounded limit events e) more
      (append_bounded-Has limit x e events h)

append_bounded-grows :
    (limit : ℕ) (events : List Event) (e : Event)
    → length events ≤ length (append_bounded limit events e)
unfolding append_bounded
append_bounded-grows limit events e = elim (Bool-cases (ltb (length events) limit)) [
  | inl room ↦ rw room (rw (length-append events (e ∷ [])) (ground arith))
  | inr full ↦ rw full (omega arith)
]

append_all-grows :
    (limit : ℕ) (events more : List Event) → length events ≤ length (append_all limit events more)
unfolding append_all
append_all-grows limit events [] = omega arith
append_all-grows limit events (e ∷ more) = omega (
  arith,
  append_bounded-grows limit events e,
  append_all-grows limit (append_bounded limit events e) more,
)

-- An event that is offered is taken, unless the list has become full.
append_all-cases :
    (limit : ℕ) (x : Event) (events more : List Event)
    → Has x more
    → Has x (append_all limit events more) ⊎ (limit ≤ length (append_all limit events more))
unfolding append_all
append_all-cases limit x events [] h = absurd h
append_all-cases limit x events (e ∷ more) (inr later) =
    append_all-cases limit x (append_bounded limit events e) more later
append_all-cases limit x events (e ∷ more) (inl it) =
    elim (Bool-cases (ltb (length events) limit)) [
      | inl room ↦ inl (
          append_all-Has limit x (append_bounded limit events e) more
            (rw (room, append_bounded) (Has-append_right x events (e ∷ []) (inl it))))
      | inr full ↦
          let grown = append_bounded-grows limit events e in
          inr (ground (arith, append_all-grows limit (append_bounded limit events e) more))
    ]

module _ (sha256 : Text → Text) (encode_issues : List RuntimeIssue → Text)
    (max_known max_events : ℕ) (now : Time) where
  with_overflow-le :
      (generation : ℕ) (events : List Event)
      → length events ≤ max_events + 1
      → length (with_overflow sha256 encode_issues max_known max_events now generation events)
        ≤ max_events + 2
  unfolding with_overflow
  with_overflow-le generation events h = elim (Bool-cases (leb max_events (length events))) [
    | inl full ↦ rw full (
        rw
          (length-append events
            (overflow_event sha256 encode_issues max_known max_events now generation ∷ []))
          (omega arith))
    | inr room ↦ rw room (omega arith)
  ]

  -- The changes that are taken, and the events on the coverage.
  abbrev found_by : Bool → RuntimeState → Captured → List Event
  found_by exists previous c =
      append_all max_events []
        (changes sha256 encode_issues max_known max_events now exists previous c)

  abbrev coverage_of : Bool → RuntimeState → Captured → List Event
  coverage_of exists previous c =
      coverage_events sha256 encode_issues max_known max_events now exists previous
        (sort_issues c.issues)
        (issues_hash sha256 encode_issues max_known max_events now (sort_issues c.issues))

  -- A scan gives at most two events more than the limit: one on coverage and one on the limit.
  pub scan_events-le :
      (exists : Bool) (previous : RuntimeState) (c : Captured)
      → length (scan_events sha256 encode_issues max_known max_events now exists previous c)
        ≤ max_events + 2
  unfolding scan_events
  scan_events-le exists previous c =
      let found = found_by exists previous c in
      let few : length found ≤ max_events =
        append_all-le max_events []
          (changes sha256 encode_issues max_known max_events now exists previous c) (omega arith) in
      with_overflow-le previous.generation
        (append_all (max_events + 1) found (coverage_of exists previous c))
        (append_all-le (max_events + 1) found (coverage_of exists previous c) (omega arith))

  with_overflow-Has :
      (generation : ℕ) (x : Event) (events : List Event)
      → Has x events ⊎ (max_events ≤ length events)
      → let reported =
          with_overflow sha256 encode_issues max_known max_events now generation events in
        Has x reported
        ⊎ Has (overflow_event sha256 encode_issues max_known max_events now generation) reported
  unfolding with_overflow
  with_overflow-Has generation x events h = elim (Bool-cases (leb max_events (length events))) [
    | inl full ↦ rw full (inr (Has-append_right _ events _ (inl refl)))
    | inr room ↦ rw room (elim h [ inl there ↦ inl there | inr many ↦ absurd (ground arith) ])
  ]

  -- A change that a scan finds is reported, or the event of an overflow is.
  pub scan_events-Has :
      (exists : Bool) (previous : RuntimeState) (c : Captured) (x : Event)
      → Has x (changes sha256 encode_issues max_known max_events now exists previous c)
      → let reported =
          scan_events sha256 encode_issues max_known max_events now exists previous c in
        Has x reported
        ⊎ Has
            (overflow_event sha256 encode_issues max_known max_events now previous.generation)
            reported
  unfolding scan_events
  scan_events-Has exists previous c x h =
      let found = found_by exists previous c in
      let covered = coverage_of exists previous c in
      with_overflow-Has previous.generation x (append_all (max_events + 1) found covered)
        (elim (append_all-cases max_events x []
          (changes sha256 encode_issues max_known max_events now exists previous c) h) [
            | inl taken ↦ inl (append_all-Has (max_events + 1) x found covered taken)
            | inr full ↦ inr (omega (arith, append_all-grows (max_events + 1) found covered, full))
          ])
