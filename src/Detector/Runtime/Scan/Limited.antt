-- ===== src/Detector/Runtime/Scan/Limited.antt =====
-- What a runtime scan does with the ports of a table that it cannot read to its end.
use my_safe.Prelude.{
  ℕ, ◌≡◌, refl, ◌∙◌, inl, inr, Bool, true, false, not, ◌&&◌, none, some, List, [], ◌∷◌, Bool-cases,
}
use my_safe.Prelude.Text.{Text, text_eq, text_eq_iff}
use my_safe.Prelude.Dict.{Dict, lookup, insert, lookup-insert}
use my_safe.Prelude.Maps.{IsMap}
use my_safe.Domain.{Time}
use my_safe.Detector.Runtime.{RuntimeState, RuntimeIssue, PortEntry, tcp4, tcp6}
use my_safe.Detector.Runtime.Capture.{Captured}
use my_safe.Detector.Runtime.Maps.{keep_family, next_ports}
use my_safe.Detector.Runtime.Scan.{next_state}
use my_safe.Detector.Runtime.Scan.Listed.{IsLimited, keep_family-absent}

-- Once a port is there as it was known, it stays so.
keep_family-again :
    (complete : Bool) (family key : Text) (p : PortEntry) (previous ports : Dict PortEntry)
    → IsMap previous
    → lookup key previous ≡ some p
    → lookup key ports ≡ some p
    → lookup key (keep_family complete family previous ports) ≡ some p
unfolding keep_family lookup
keep_family-again complete family key p [] ports is_map h there = there
keep_family-again complete family key p ((k, q) ∷ previous) ports is_map h there =
    elim (Bool-cases (text_eq k key)) [
      | inl it ↦
          let the_port : q ≡ p = cc (rw it at h) in
          let gone : lookup key previous ≡ none = rw ((text_eq_iff k key).0 it) at is_map.0 in
          elim (Bool-cases (not complete && text_eq q.family family)) [
            | inl kept ↦ rw kept (
                keep_family-absent complete family key previous (insert k q ports) gone
                ∙ rw (lookup-insert k key q ports, it, the_port) refl)
            | inr skipped ↦
                rw skipped (keep_family-absent complete family key previous ports gone ∙ there)
          ]
      | inr away ↦ elim (Bool-cases (not complete && text_eq q.family family)) [
        | inl kept ↦ rw kept (
            keep_family-again complete family key p previous (insert k q ports) is_map.1
              (rw away at h) (rw (lookup-insert k key q ports, away) there))
        | inr skipped ↦
            rw skipped
              (keep_family-again complete family key p previous ports is_map.1 (rw away at h) there)
      ]
    ]

keep_family-known :
    (family key : Text) (p : PortEntry) (previous ports : Dict PortEntry)
    → IsMap previous
    → lookup key previous ≡ some p
    → p.family ≡ family
    → lookup key (keep_family false family previous ports) ≡ some p
unfolding keep_family lookup
keep_family-known family key p [] ports is_map h same = absurd (cc h)
keep_family-known family key p ((k, q) ∷ previous) ports is_map h same =
    elim (Bool-cases (text_eq k key)) [
      | inl it ↦
          let the_port : q ≡ p = cc (rw it at h) in
          let gone : lookup key previous ≡ none = rw ((text_eq_iff k key).0 it) at is_map.0 in
          let listed : text_eq q.family family ≡ true =
            (text_eq_iff q.family family).1 (cc (the_port, same)) in
          rw listed (
            keep_family-absent false family key previous (insert k q ports) gone
            ∙ rw (lookup-insert k key q ports, it, the_port) refl)
      | inr away ↦ elim (Bool-cases (text_eq q.family family)) [
        | inl kept ↦ rw kept (
            keep_family-known family key p previous (insert k q ports) is_map.1 (rw away at h) same)
        | inr skipped ↦
            rw skipped (keep_family-known family key p previous ports is_map.1 (rw away at h) same)
      ]
    ]

next_ports-known :
    (key : Text) (p : PortEntry) (previous : Dict PortEntry) (c : Captured)
    → IsMap previous
    → lookup key previous ≡ some p
    → IsLimited c p
    → lookup key (next_ports previous c) ≡ some p
unfolding next_ports
next_ports-known key p previous c is_map h (inl (same, limited)) =
    keep_family-again c.tcp6_complete tcp6 key p previous
      (keep_family c.tcp4_complete tcp4 previous c.ports) is_map h
      (rw limited (keep_family-known tcp4 key p previous c.ports is_map h same))
next_ports-known key p previous c is_map h (inr (same, limited)) = rw limited (
    keep_family-known tcp6 key p previous (keep_family c.tcp4_complete tcp4 previous c.ports) is_map
      h same)

module _ (sha256 : Text → Text) (encode_issues : List RuntimeIssue → Text)
    (max_known max_events : ℕ) (now : Time) (s : RuntimeState) (c : Captured) where
  -- While the table of its family cannot be read to its end, a port that was known stays in the state as it was
  -- known, whatever is listed. No port of the state before is there twice.
  pub next_state-IsLimited :
      (generation : ℕ) (key : Text) (p : PortEntry)
      → IsMap s.ports
      → lookup key s.ports ≡ some p
      → IsLimited c p
      → lookup key (next_state sha256 encode_issues max_known max_events now s c generation).ports
        ≡ some p
  unfolding next_state
  next_state-IsLimited generation key p is_map h limited =
      next_ports-known key p s.ports c is_map h limited
