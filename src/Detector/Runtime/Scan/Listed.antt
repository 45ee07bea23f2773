-- ===== src/Detector/Runtime/Scan/Listed.antt =====
-- Which ports a runtime scan finds opened or closed: `nextPorts` against what is listed.
use my_safe.Prelude.{
  ◌≡◌, refl, sym, ◌∙◌, ◌⊎◌, inl, inr, Bool, true, false, not, ◌&&◌, none, some, [], ◌∷◌, Bool-cases,
  Option-cases,
}
use my_safe.Prelude.Text.{Text, text_eq, text_eq_iff}
use my_safe.Prelude.Dict.{Dict, lookup, insert, is_some, lookup-insert}
use my_safe.Prelude.Maps.{IsMap}
use my_safe.Detector.Runtime.{RuntimeState, PortEntry, tcp4, tcp6}
use my_safe.Detector.Runtime.Capture.{Captured}
use my_safe.Detector.Runtime.Maps.{keep_family, next_ports}

-- Ports that are put into a map stay in it.
insert-is_some :
    (key k : Text) (p : PortEntry) (m : Dict PortEntry)
    → is_some (lookup key m) ≡ true
    → is_some (lookup key (insert k p m)) ≡ true
insert-is_some key k p m h = elim (Bool-cases (text_eq k key)) [
  | inl it ↦ rw (lookup-insert k key p m, it) refl
  | inr away ↦ rw (lookup-insert k key p m, away) h
]

keep_family-is_some :
    (complete : Bool) (family key : Text) (previous ports : Dict PortEntry)
    → is_some (lookup key ports) ≡ true
    → is_some (lookup key (keep_family complete family previous ports)) ≡ true
unfolding keep_family
keep_family-is_some complete family key [] ports h = h
keep_family-is_some complete family key ((k, p) ∷ previous) ports h =
    elim (Bool-cases (not complete && text_eq p.family family)) [
      | inl kept ↦ rw kept (
          keep_family-is_some complete family key previous (insert k p ports)
            (insert-is_some key k p ports h))
      | inr gone ↦ rw gone (keep_family-is_some complete family key previous ports h)
    ]

keep_family-keeps :
    (family key : Text) (p : PortEntry) (previous ports : Dict PortEntry)
    → lookup key previous ≡ some p
    → p.family ≡ family
    → is_some (lookup key (keep_family false family previous ports)) ≡ true
unfolding keep_family lookup
keep_family-keeps family key p [] ports h same = absurd (cc h)
keep_family-keeps family key p ((k, q) ∷ previous) ports h same =
    elim (Bool-cases (text_eq k key)) [
      | inl it ↦
          let the_port : q ≡ p = cc (rw it at h) in
          let listed : text_eq q.family family ≡ true =
            (text_eq_iff q.family family).1 (cc (the_port, same)) in
          rw listed (
            keep_family-is_some false family key previous (insert k q ports)
              (rw (lookup-insert k key q ports, it) refl))
      | inr away ↦ elim (Bool-cases (text_eq q.family family)) [
        | inl kept ↦
            rw kept (keep_family-keeps family key p previous (insert k q ports) (rw away at h) same)
        | inr gone ↦ rw gone (keep_family-keeps family key p previous ports (rw away at h) same)
      ]
    ]

-- The table of the port's family was not read to its end.
abbrev pub IsLimited : Captured → PortEntry → Type 0
IsLimited c p =
    ((p.family ≡ tcp4) × (c.tcp4_complete ≡ false))
    ⊎ ((p.family ≡ tcp6) × (c.tcp6_complete ≡ false))

pub next_ports-keeps :
    (key : Text) (p : PortEntry) (previous : Dict PortEntry) (c : Captured)
    → lookup key previous ≡ some p
    → IsLimited c p
    → is_some (lookup key (next_ports previous c)) ≡ true
unfolding next_ports
next_ports-keeps key p previous c h (inl (same, limited)) =
    keep_family-is_some c.tcp6_complete tcp6 key previous
      (keep_family c.tcp4_complete tcp4 previous c.ports)
      (rw limited (keep_family-keeps tcp4 key p previous c.ports h same))
next_ports-keeps key p previous c h (inr (same, limited)) = rw limited (
    keep_family-keeps tcp6 key p previous (keep_family c.tcp4_complete tcp4 previous c.ports) h
      same)

-- A port that was not there is not kept.
pub keep_family-absent :
    (complete : Bool) (family key : Text) (previous ports : Dict PortEntry)
    → lookup key previous ≡ none
    → lookup key (keep_family complete family previous ports) ≡ lookup key ports
unfolding keep_family lookup
keep_family-absent complete family key [] ports h = refl
keep_family-absent complete family key ((k, q) ∷ previous) ports h =
    elim (Bool-cases (text_eq k key)) [
      | inl it ↦ absurd (cc (rw it at h))
      | inr away ↦ elim (Bool-cases (not complete && text_eq q.family family)) [
        | inl kept ↦ rw kept (
            keep_family-absent complete family key previous (insert k q ports) (rw away at h)
            ∙ rw (lookup-insert k key q ports, away) refl)
        | inr gone ↦ rw gone (keep_family-absent complete family key previous ports (rw away at h))
      ]
    ]

-- A port whose table was read to its end, or is another one, is not kept.
keep_family-drops :
    (complete : Bool) (family key : Text) (p : PortEntry) (previous ports : Dict PortEntry)
    → IsMap previous
    → lookup key previous ≡ some p
    → (not complete && text_eq p.family family) ≡ false
    → lookup key (keep_family complete family previous ports) ≡ lookup key ports
unfolding keep_family lookup
keep_family-drops complete family key p [] ports is_map h read = absurd (cc h)
keep_family-drops complete family key p ((k, q) ∷ previous) ports is_map h read =
    elim (Bool-cases (text_eq k key)) [
      | inl it ↦
          let the_port : q ≡ p = cc (rw it at h) in
          let the_key : k ≡ key = (text_eq_iff k key).0 it in
          rw (the_port, read)
            (keep_family-absent complete family key previous ports (rw the_key at is_map.0))
      | inr away ↦ elim (Bool-cases (not complete && text_eq q.family family)) [
        | inl kept ↦ rw kept (
            keep_family-drops complete family key p previous (insert k q ports) is_map.1
              (rw away at h) read
            ∙ rw (lookup-insert k key q ports, away) refl)
        | inr gone ↦
            rw gone
              (keep_family-drops complete family key p previous ports is_map.1 (rw away at h) read)
      ]
    ]

unlimited :
    (complete : Bool) (family : Text) (p : PortEntry)
    → ((p.family ≡ family) × (complete ≡ false) → ⊥)
    → (not complete && text_eq p.family family) ≡ false
unlimited true family p h = refl
unlimited false family p h = elim (Bool-cases (text_eq p.family family)) [
  | inl it ↦ absurd (h ((text_eq_iff p.family family).0 it, refl))
  | inr other ↦ other
]

-- The port at the key is new: it is listed, and was not known. Or it is gone: it was known, is not listed,
-- and the table of its family was read to its end.
abbrev pub HasChanged : RuntimeState → Captured → Text → PortEntry → Bool → Type 0
HasChanged s c key p true = (lookup key s.ports ≡ none) × (lookup key c.ports ≡ some p)
HasChanged s c key p false =
    (lookup key s.ports ≡ some p) × (lookup key c.ports ≡ none) × (¬ IsLimited c p)

-- The same from the ports that the next state has.
abbrev pub Differs : RuntimeState → Captured → Text → PortEntry → Bool → Type 0
Differs s c key p true = (lookup key s.ports ≡ none) × (lookup key (next_ports s.ports c) ≡ some p)
Differs s c key p false = (lookup key s.ports ≡ some p) × (lookup key (next_ports s.ports c) ≡ none)

module _ (s : RuntimeState) (c : Captured) where
  next_ports-absent :
      (key : Text)
      → lookup key s.ports ≡ none
      → lookup key (next_ports s.ports c) ≡ lookup key c.ports
  unfolding next_ports
  next_ports-absent key h =
      keep_family-absent c.tcp6_complete tcp6 key s.ports
        (keep_family c.tcp4_complete tcp4 s.ports c.ports) h
      ∙ keep_family-absent c.tcp4_complete tcp4 key s.ports c.ports h

  pub HasChanged-Differs :
      (key : Text) (p : PortEntry) (opened : Bool)
      → IsMap s.ports
      → HasChanged s c key p opened
      → Differs s c key p opened
  unfolding next_ports
  HasChanged-Differs key p true is_map (fresh, listed) =
      (fresh, next_ports-absent key fresh ∙ listed)
  HasChanged-Differs key p false is_map (was, gone, whole) = (
    was,
    keep_family-drops c.tcp6_complete tcp6 key p s.ports
          (keep_family c.tcp4_complete tcp4 s.ports c.ports) is_map was
          (unlimited c.tcp6_complete tcp6 p (λ h. whole (inr h)))
        ∙ keep_family-drops c.tcp4_complete tcp4 key p s.ports c.ports is_map was
            (unlimited c.tcp4_complete tcp4 p (λ h. whole (inl h)))
        ∙ gone,
  )

  next_ports-listed :
      (key : Text)
      → is_some (lookup key c.ports) ≡ true
      → is_some (lookup key (next_ports s.ports c)) ≡ true
  unfolding next_ports
  next_ports-listed key h =
      keep_family-is_some c.tcp6_complete tcp6 key s.ports
        (keep_family c.tcp4_complete tcp4 s.ports c.ports)
        (keep_family-is_some c.tcp4_complete tcp4 key s.ports c.ports h)

  pub Differs-HasChanged :
      (key : Text) (p : PortEntry) (opened : Bool)
      → Differs s c key p opened
      → HasChanged s c key p opened
  Differs-HasChanged key p true (fresh, listening) =
      (fresh, sym (next_ports-absent key fresh) ∙ listening)
  Differs-HasChanged key p false (was, gone) = (
    was,
    elim (Option-cases (lookup key c.ports)) [
      | inl unlisted ↦ unlisted
      | inr (q, listed) ↦
          let there = next_ports-listed key (rw listed refl) in absurd (cc (rw gone at there))
    ],
    (λ limited.
        let there = next_ports-keeps key p s.ports c was limited in absurd (cc (rw gone at there))),
  )
