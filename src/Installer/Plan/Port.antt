-- ===== src/Installer/Plan/Port.antt =====
-- The port that internal/installer/inspect.go chooses for the gateway.
use my_safe.Prelude.{
  ℕ, zero, suc, ◌+◌, ◌==◌, ==_iff, ◌≤◌, ◌<◌, ◌≡◌, refl, ap, ◌⊎◌, inl, inr, true, false, List, arith,
  Bool-cases,
}
use my_safe.Prelude.Int.{pos}
use my_safe.Installer.Inspect.{Environment}
use my_safe.Installer.Plan.{uses_port, free_port_from, first_free_port, used_ports, planned_port}

-- The first free port, if there is one.
record IsFirstFree (used : List ℕ) (port end found : ℕ) : Type 0 where
  free : uses_port found used ≡ false
  from_start : port ≤ found
  to_end : found < end
  first : (p : ℕ) → port ≤ p → p < found → uses_port p used ≡ true

taken_from :
    (used : List ℕ) (port p : ℕ)
    → uses_port port used ≡ true
    → port ≤ p
    → (port + 1 ≤ p → uses_port p used ≡ true)
    → uses_port p used ≡ true
taken_from used port p taken low rest = elim (Bool-cases (p == port)) [
  | inl same ↦ rw ((==_iff p port).0 same) taken
  | inr other ↦ rest (ground arith)
]

free_port_from-cases :
    (used : List ℕ) (count port : ℕ)
    → ((free_port_from used count port ≡ 0)
        × ((p : ℕ) → port ≤ p → p < port + count → uses_port p used ≡ true))
      ⊎ IsFirstFree used port (port + count) (free_port_from used count port)
unfolding free_port_from
free_port_from-cases used zero port = inl (refl, λ p low high. absurd (omega arith))
free_port_from-cases used (suc count) port = elim (Bool-cases (uses_port port used)) [
  | inr unused ↦ rw unused (
      inr (record {
        free = unused;
        from_start = omega arith;
        to_end = omega arith;
        first = λ p low high. absurd (omega arith);
      }))
  | inl taken ↦ rw taken (elim (free_port_from-cases used count (port + 1)) [
    | inl (nothing_free, all) ↦ inl (
      nothing_free,
      λ p low high. taken_from used port p taken low (λ more. all p more (omega arith)),
    )
    | inr found ↦ inr (record {
      free = found.free;
      from_start = omega (arith, found.from_start);
      to_end = omega (arith, found.to_end);
      first = λ p low high. taken_from used port p taken low (λ more. found.first p more high);
    })
  ])
]

-- The port of a plan that is not given: among 18081 to 18180 and not in use, unless they all are.
abbrev pub IsPlanned : Environment → ℕ → Type 0
IsPlanned e p = (uses_port p (used_ports e) ≡ false) × (18081 ≤ p) × (p ≤ 18180)

pub planned_port-cases :
    (e : Environment)
    → (planned_port e (pos 0) ≡ pos 0)
      ⊎ ((p : ℕ) × (planned_port e (pos 0) ≡ pos p) × IsPlanned e p)
unfolding planned_port first_free_port
planned_port-cases e = elim (free_port_from-cases (used_ports e) 100 18081) [
  | inl (nothing_free, all) ↦ inl (ap pos nothing_free)
  | inr found ↦ inr (
    free_port_from (used_ports e) 100 18081,
    refl,
    (found.free, found.from_start, omega (arith, found.to_end)),
  )
]
