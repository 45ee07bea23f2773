-- ===== src/Detector/Runtime/Scan/Ports.antt =====
-- The ports of a runtime scan: what opens and closes is found, and nothing is said of a table that was not read to
-- its end.
use my_safe.Prelude.{
  ℕ, ◌≡◌, refl, sym, ◌⊎◌, inl, inr, All, Bool, true, false, none, some, List, [], ◌∷◌, Has,
  Has-append_left, Has-append_right, Bool-cases, Option-cases,
}
use mathlib.Core.Path.{subst}
use my_safe.Prelude.Text.{Text, codes, text_eq, text_eq_iff}
use my_safe.Prelude.Text.Sort.{Has-sort_texts_from}
use my_safe.Prelude.Dict.{Dict, lookup, is_some}
use my_safe.Prelude.Maps.{IsMap}
use my_safe.Domain.{Time, Event}
use my_safe.Detector.Runtime.{RuntimeState, RuntimeIssue, PortEntry, runtime_event, port_event}
use my_safe.Detector.Runtime.Capture.{Captured}
use my_safe.Detector.Runtime.Maps.{keys_of, new_keys, union_keys, next_ports}
use my_safe.Detector.Runtime.Scan.{changes, port_change, port_changes, scan_events, overflow_event}
use my_safe.Detector.Runtime.Scan.Listed.{
  HasChanged, Differs, HasChanged-Differs, Differs-HasChanged,
}
use my_safe.Detector.Runtime.Scan.Events.{scan_events-Has}

-- A key of a map is among the keys that are walked.
keys_of-Has :
    {A : Type 0} (key : Text) (a : A) (m : Dict A) → lookup key m ≡ some a → Has key (keys_of m)
unfolding lookup keys_of
keys_of-Has key a [] h = absurd (cc h)
keys_of-Has key a ((k, x) ∷ m) h = elim (Bool-cases (text_eq k key)) [
  | inl it ↦ inl (sym ((text_eq_iff k key).0 it))
  | inr away ↦ inr (keys_of-Has key a m (rw away at h))
]

new_keys-Has :
    {A : Type 0} (key : Text) (a : A) (left right : Dict A)
    → lookup key left ≡ none
    → lookup key right ≡ some a
    → Has key (new_keys left right)
unfolding lookup new_keys
new_keys-Has key a left [] fresh h = absurd (cc h)
new_keys-Has key a left ((k, x) ∷ right) fresh h = elim (Bool-cases (text_eq k key)) [
  | inl it ↦
      let same : k ≡ key = (text_eq_iff k key).0 it in
      let none_there : lookup k left ≡ none = rw same fresh in
      rw (none_there, new_keys) (inl (sym same))
  | inr away ↦
      let rest = new_keys-Has key a left right fresh (rw away at h) in
      elim (Bool-cases (is_some (lookup k left))) [
        | inl old ↦ rw (old, new_keys) rest
        | inr new ↦ rw (new, new_keys) (inr rest)
      ]
]

union_keys-left :
    {A : Type 0} (key : Text) (a : A) (left right : Dict A)
    → lookup key left ≡ some a
    → Has key (union_keys left right)
unfolding union_keys
union_keys-left key a left right h =
    Has-sort_texts_from key _
      (Has-append_left key (keys_of left) (new_keys left right) (keys_of-Has key a left h))

union_keys-right :
    {A : Type 0} (key : Text) (a : A) (left right : Dict A)
    → lookup key left ≡ none
    → lookup key right ≡ some a
    → Has key (union_keys left right)
unfolding union_keys
union_keys-right key a left right fresh h = Has-sort_texts_from key _ (
    Has-append_right key (keys_of left) (new_keys left right)
      (new_keys-Has key a left right fresh h))

-- The kind of the event of a port.
abbrev pub port_kind : Bool → Text
port_kind true = codes "runtime.port.opened"
port_kind false = codes "runtime.port.closed"

module _ (sha256 : Text → Text) (encode_issues : List RuntimeIssue → Text)
    (max_known max_events : ℕ) (now : Time) where
  module _ (s : RuntimeState) (c : Captured) where
    abbrev pub change_at : Text → List Event
    change_at key =
        port_change sha256 encode_issues max_known max_events now s (lookup key s.ports)
          (lookup key (next_ports s.ports c))

    port_changes-Has :
        (x : Event) (key : Text) (keys : List Text)
        → Has key keys
        → Has x (change_at key)
        → Has x (
            port_changes sha256 encode_issues max_known max_events now s keys
              (next_ports s.ports c))
    unfolding port_changes
    port_changes-Has x key [] at_key h = absurd at_key
    port_changes-Has x key (k ∷ keys) (inl it) h =
        Has-append_left x (change_at k) _ (subst (λ (q : Text). Has x (change_at q)) it h)
    port_changes-Has x key (k ∷ keys) (inr later) h =
        Has-append_right x _ _ (port_changes-Has x key keys later h)

    change_at-Has :
        (x : Event) (key : Text)
        → Has key (union_keys s.ports (next_ports s.ports c))
        → Has x (change_at key)
        → Has x (changes sha256 encode_issues max_known max_events now true s c)
    unfolding changes
    change_at-Has x key at_key h = Has-append_right x _ _ (port_changes-Has x key _ at_key h)

    -- The event is reported, or there is the event of an overflow.
    abbrev pub IsReported : Event → Type 0
    IsReported x =
        let reported = scan_events sha256 encode_issues max_known max_events now true s c in
        Has x reported
        ⊎ Has (overflow_event sha256 encode_issues max_known max_events now s.generation) reported

    change_at-Differs :
        (key : Text) (p : PortEntry) (opened : Bool)
        → Differs s c key p opened
        → Has key (union_keys s.ports (next_ports s.ports c))
          × Has (port_event sha256 p opened now s.generation) (change_at key)
    unfolding port_change
    change_at-Differs key p true (fresh, listening) = (
      union_keys-right key p s.ports (next_ports s.ports c) fresh listening,
      rw (fresh, listening, port_change) (inl refl),
    )
    change_at-Differs key p false (was, gone) = (
      union_keys-left key p s.ports (next_ports s.ports c) was,
      rw (was, gone, port_change) (inl refl),
    )

    -- A port that is new, or is gone from a table that was read to its end, is reported as opened or closed, or the
    -- event of an overflow is there. No port of the state before is there twice.
    pub scan_events-HasChanged :
        (key : Text) (p : PortEntry) (opened : Bool)
        → IsMap s.ports
        → HasChanged s c key p opened
        → IsReported (port_event sha256 p opened now s.generation)
    scan_events-HasChanged key p opened is_map changed =
        let (walked, there) =
          change_at-Differs key p opened (HasChanged-Differs s c key p opened is_map changed) in
        let x : Event = port_event sha256 p opened now s.generation in
        scan_events-Has sha256 encode_issues max_known max_events now true s c x
          (change_at-Has x key walked there)

    -- An event that says that a port has opened or closed says it of a port that is new or gone.
    abbrev pub IsOfChange : Event → Type 0
    IsOfChange x =
        (opened : Bool)
        → x.kind ≡ port_kind opened
        → (key : Text) × (p : PortEntry) × HasChanged s c key p opened
          × (x ≡ port_event sha256 p opened now s.generation)

    pub other_kind :
        (x : Event)
        → text_eq x.kind (port_kind true) ≡ false
        → text_eq x.kind (port_kind false) ≡ false
        → IsOfChange x
    other_kind x no_open no_close true e =
        let it = (text_eq_iff x.kind (port_kind true)).1 e in absurd (cc (no_open, it))
    other_kind x no_open no_close false e =
        let it = (text_eq_iff x.kind (port_kind false)).1 e in absurd (cc (no_close, it))

    port_event-IsOfChange :
        (key : Text) (p : PortEntry) (opened : Bool)
        → Differs s c key p opened
        → IsOfChange (port_event sha256 p opened now s.generation)
    unfolding port_event runtime_event text_eq
    port_event-IsOfChange key p true h true e = (key, p, Differs-HasChanged s c key p true h, refl)
    port_event-IsOfChange key p false h false e =
        (key, p, Differs-HasChanged s c key p false h, refl)
    port_event-IsOfChange key p true h false e =
        let it = (text_eq_iff (port_kind true) (port_kind false)).1 e in absurd (cc it)
    port_event-IsOfChange key p false h true e =
        let it = (text_eq_iff (port_kind false) (port_kind true)).1 e in absurd (cc it)

    pub change_at-IsOfChange : (key : Text) → All IsOfChange (change_at key)
    unfolding port_change
    change_at-IsOfChange key = elim (Option-cases (lookup key s.ports)) [
      | inl fresh ↦ elim (Option-cases (lookup key (next_ports s.ports c))) [
        | inl unlisted ↦ rw (fresh, unlisted, port_change) tt
        | inr (p, listening) ↦
            rw (fresh, listening, port_change)
              (port_event-IsOfChange key p true (fresh, listening), tt)
      ]
      | inr (p, was) ↦ elim (Option-cases (lookup key (next_ports s.ports c))) [
        | inl gone ↦ rw (was, gone, port_change) (port_event-IsOfChange key p false (was, gone), tt)
        | inr (q, listening) ↦ rw (was, listening, port_change) tt
      ]
    ]
