-- ===== src/Detector/Runtime/Scan/Valid.antt =====
-- What a scan of internal/detector/runtimewatch/runtimewatch.go leaves is a state that can be saved.
use my_safe.Prelude.{
  ℕ, ◌+◌, ◌==◌, ◌≤◌, ◌<◌, ◌≡◌, refl, inl, inr, ◌⊎◌, true, ltb, ◌++◌, Option, none, some, List, [],
  ◌∷◌, arith, All, length, Bool-cases, Option-cases,
}
use my_safe.Prelude.Text.{Text, text_eq, text_eq_refl}
use my_safe.Prelude.Dict.{Dict, lookup, is_some}
use my_safe.Prelude.Maps.{IsMap}
use my_safe.Domain.{Time, Event}
use my_safe.Detector.Ssh.State.{valid_sha256}
use my_safe.Detector.Runtime.{ProcessEntry, PortEntry, RuntimeState, RuntimeIssue, tcp4, tcp6}
use my_safe.Detector.Runtime.Capture.{Captured, ProcItem, Table, capture}
use my_safe.Detector.Runtime.Capture.Processes.{IsHash, capture-IsCaptured}
use my_safe.Detector.Runtime.Maps.{prune_known, next_ports, keep_family, current_names, mark_known}
use my_safe.Detector.Runtime.Maps.Prune.{prune_known_lem, prune_known-IsMap, prune_known-All}
use my_safe.Detector.Runtime.State.{
  is_known, validate_runtime_state, save_state, max_state_bytes, too_large,
}
use my_safe.Detector.Runtime.State.Checks.{
  IsProcess, IsName, IsPort, validate_runtime_state-none, none-IsRuntimeState,
}
use my_safe.Detector.Runtime.Scan.{
  Scanned, exhausted, scanned, next_state, scan, no_state, max_generation,
}
use my_safe.Detector.Runtime.Scan.Kept.{
  IsSeen, IsCaptured, seen_identity, mark_known-All, mark_known-IsMap, mark_known-known,
  current_names-All, keep_family-All,
}

-- A state that can be saved, and has each process once.
abbrev pub IsSaved : ℕ → RuntimeState → Type 0
IsSaved max_known s = (validate_runtime_state max_known s ≡ none) × IsMap s.known

-- The state before the scan, if there is one.
abbrev pub AllSaved : ℕ → Option RuntimeState → Type 0
AllSaved max_known none = Unit
AllSaved max_known (some s) = IsSaved max_known s

-- What the scan would save.
abbrev pub Leaves : ℕ → Scanned → Type 0
Leaves max_known exhausted = Unit
Leaves max_known (scanned events next) = IsSaved max_known next

-- What the commit of a scan does where files can be written: it saves the state, unless its JSON is too large.
abbrev pub Commits : (RuntimeState → Text) → ℕ → Scanned → Type 0
Commits encode max_known exhausted = Unit
Commits encode max_known (scanned events next) =
    let file : Text = encode next ++ 10 ∷ [] in
    IsSaved max_known next
    × ((save_state encode true max_known next ≡ (none, some file))
        ⊎ ((max_state_bytes < length file)
            × (save_state encode true max_known next ≡ (some too_large, none))))

IsSaved-Commits :
    (encode : RuntimeState → Text) (max_known : ℕ) (events : List Event) (s : RuntimeState)
    → IsSaved max_known s
    → Commits encode max_known (scanned events s)
unfolding save_state
IsSaved-Commits encode max_known events s (valid, is_map) = (
  (valid, is_map),
  elim (Bool-cases (ltb max_state_bytes (length (encode s ++ 10 ∷ [])))) [
    | inl large ↦ inr (ground arith, rw (valid, large, save_state) refl)
    | inr fits ↦ inl (rw (valid, fits, save_state) refl)
  ],
)

Leaves-Commits :
    (encode : RuntimeState → Text) (max_known : ℕ) (x : Scanned)
    → Leaves max_known x
    → Commits encode max_known x
Leaves-Commits encode max_known exhausted h = tt
Leaves-Commits encode max_known (scanned events next) h =
    IsSaved-Commits encode max_known events next h

-- What is used of the state before the scan.
record IsBefore (max_known : ℕ) (s : RuntimeState) : Type 0 where
  few : length s.known ≤ max_known
  processes : All IsProcess s.known
  names : All (IsName s.known) s.names
  ports : All IsPort s.ports
  is_map : IsMap s.known

keys_there :
    (m n : Dict ProcessEntry)
    → ((k : Text) → is_some (lookup k m) ≡ true → is_some (lookup k n) ≡ true)
    → All (λ (e : Text × ProcessEntry). is_some (lookup e.0 n) ≡ true) m
unfolding lookup
keys_there [] n sub = tt
keys_there ((k, p) ∷ m) n sub = (
  sub k (rw (text_eq_refl k) refl),
  keys_there m n (λ j h.
      sub j (elim (Bool-cases (text_eq k j)) [ inl it ↦ rw it refl | inr away ↦ rw away h ])),
)

-- A process that is seen, by its identity.
Named : Dict ProcessEntry → Text → Type 0
Named ps i = (is_some (lookup i ps) ≡ true) × (valid_sha256 i ≡ true)

All-Named :
    (m n : Dict ProcessEntry)
    → All (λ (e : Text × ProcessEntry). is_some (lookup e.0 n) ≡ true) m
    → All IsSeen m
    → All (λ (e : Text × ProcessEntry). Named n e.0) m
unfolding Named
All-Named [] n there seen = tt
All-Named ((k, p) ∷ m) n there seen =
    ((there.0, (seen_identity k p seen.0).1), All-Named m n there.1 seen.1)

names_known :
    (ps known : Dict ProcessEntry) (names : Dict Text)
    → ((i : Text) → is_some (lookup i ps) ≡ true → is_known (lookup i known) ≡ true)
    → All (λ (n : Text × Text). Named ps n.1) names
    → All (IsName known) names
unfolding Named
names_known ps known [] sub h = tt
names_known ps known ((k, i) ∷ names) sub h =
    ((h.0.1, sub i h.0.0), names_known ps known names sub h.1)

module _ (sha256 : Text → Text) (encode_issues : List RuntimeIssue → Text)
    (max_known max_events : ℕ) (now : Time) where
  module _ (c : Captured) (ok : IsCaptured max_known c) where
    next_ports-All :
        (previous : Dict PortEntry) → All IsPort previous → All IsPort (next_ports previous c)
    unfolding next_ports
    next_ports-All previous old =
        keep_family-All c.tcp6_complete tcp6 previous
          (keep_family c.tcp4_complete tcp4 previous c.ports) old
          (keep_family-All c.tcp4_complete tcp4 previous c.ports old ok.ports)

    next_state-IsSaved :
        (s : RuntimeState) (g : ℕ)
        → 1 ≤ g
        → IsBefore max_known s
        → IsSaved max_known (next_state sha256 encode_issues max_known max_events now s c g)
    unfolding next_state Named
    next_state-IsSaved s g dated h = elim (Bool-cases c.process_complete) [
      | inr partial ↦ (
        validate_runtime_state-none max_known _ (
            rw partial (record {
              schema = refl;
              generation = dated;
              few = h.few;
              processes = h.processes;
              names = h.names;
              ports = next_ports-All s.ports h.ports;
            })),
        rw partial h.is_map,
      )
      | inl complete ↦
          let marked : Dict ProcessEntry = mark_known g c.processes s.known in
          let is_map : IsMap marked = mark_known-IsMap g c.processes s.known h.is_map in
          let (few, active) = prune_known_lem c.processes max_known marked is_map ok.few in
          let known_there : (i : Text)
              → is_some (lookup i c.processes) ≡ true
              → is_known (lookup i (prune_known max_known c.processes marked)) ≡ true =
            λ i there. elim (Option-cases (lookup i c.processes)) [
              | inl gone ↦ absurd (cc (rw gone at there))
              | inr (q, running) ↦
                  rw (active i q running)
                    (mark_known-known i g c.processes s.known ok.processes there)
            ] in
          let names =
            current_names-All (Named c.processes) c.processes []
              (All-Named c.processes c.processes
                (keys_there c.processes c.processes (λ k there. there)) ok.processes)
              tt in
          (
            validate_runtime_state-none max_known _ (
                rw complete (record {
                  schema = refl;
                  generation = dated;
                  few = few;
                  processes =
                      prune_known-All IsProcess max_known c.processes marked
                        (mark_known-All g c.processes s.known dated ok.processes h.processes);
                  names =
                      names_known c.processes (prune_known max_known c.processes marked)
                        (current_names c.processes []) known_there names;
                  ports = next_ports-All s.ports h.ports;
                })),
            rw complete (prune_known-IsMap max_known c.processes marked is_map),
          )
    ]

    -- The same from what is captured, if that is in order.
    scan-IsSaved :
        (previous : Option RuntimeState)
        → AllSaved max_known previous
        → Leaves max_known (scan sha256 encode_issues max_known max_events now previous c)
    unfolding scan
    scan-IsSaved none h =
        next_state-IsSaved no_state 1 (omega arith)
          (record { few = omega arith; processes = tt; names = tt; ports = tt; is_map = tt })
    scan-IsSaved (some s) (valid, is_map) =
        let known = none-IsRuntimeState max_known s valid in
        elim (Bool-cases (s.generation == max_generation)) [
          | inl last ↦ rw last tt
          | inr more ↦ rw more (
              next_state-IsSaved s (s.generation + 1) (omega arith) (record {
                few = known.few;
                processes = known.processes;
                names = known.names;
                ports = known.ports;
                is_map = is_map;
              }))
        ]

module _ (sha256 : Text → Text) (hashes : (t : Text) → IsHash (sha256 t))
    (encode_issues : List RuntimeIssue → Text) (max_processes max_known max_events max_ports : ℕ)
    (now : Time) where
  -- Whatever /proc shows, a scan leaves a state that validateState accepts and that has each process once,
  -- unless the generations are exhausted. Where files can be written its commit saves it, unless its JSON is larger
  -- than 16 MiB. The state before, if there is one, is such a state, no more processes are read than may be known,
  -- and SHA-256 gives 32 bytes.
  pub scan-capture-IsSaved :
      (encode : RuntimeState → Text) (proc : Option (List ProcItem)) (tcp_table tcp6_table : Table)
      (previous : Option RuntimeState)
      → max_processes ≤ max_known
      → AllSaved max_known previous
      → Commits encode max_known (
          scan sha256 encode_issues max_known max_events now previous
            (capture sha256 max_processes max_ports proc tcp_table tcp6_table))
  scan-capture-IsSaved encode proc tcp_table tcp6_table previous few saved =
      let c : Captured = capture sha256 max_processes max_ports proc tcp_table tcp6_table in
      Leaves-Commits encode max_known _ (
        scan-IsSaved sha256 encode_issues max_known max_events now c
          (capture-IsCaptured sha256 hashes max_processes max_known max_ports proc tcp_table
            tcp6_table few)
          previous saved)
