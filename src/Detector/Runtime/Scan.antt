-- ===== src/Detector/Runtime/Scan.antt =====
-- `Scan` of internal/detector/runtimewatch/runtimewatch.go, from the state that is loaded to the one that its commit
-- saves. `encode_issues` is the JSON of the issues.
pub mod Events
pub mod Listed
pub mod Limited
pub mod Ports
pub mod Sources
pub mod Kept
pub mod Valid
use my_safe.Prelude.{
  ℕ, ◌-◌, ◌+◌, ◌^◌, ◌==◌, Bool, true, false, not, ◌||◌, ◌&&◌, Option, none, some, List, [], ◌∷◌,
  ◌++◌, length, ltb, leb, if◌then◌else◌,
}
use my_safe.Prelude.Text.{Text, codes, text_eq, is_empty}
use my_safe.Prelude.Text.Number.{show_nat}
use my_safe.Prelude.Dict.{Dict, lookup, is_some}
use my_safe.Domain.{Time, Event, severity_info, severity_medium, severity_high}
use my_safe.Domain.Json.{num, bool, end, field}
use my_safe.Detector.Ssh.{hex}
use my_safe.Detector.Runtime.{
  ProcessEntry, PortEntry, RuntimeState, RuntimeIssue, runtime_event, process_event,
  process_drift_event, port_event, coverage_evidence,
}
use my_safe.Detector.Runtime.Capture.{Captured}
use my_safe.Detector.Runtime.Maps.{
  append_all, prune_known, union_keys, next_ports, current_names, mark_known, sort_issues,
}

pub data Scanned : Type 0 where
  exhausted : Scanned
  scanned : List Event → RuntimeState → Scanned

-- The zero value of a state, which stands for a state that is not there.
abbrev pub no_state : RuntimeState
no_state = record {
  schema_version = 0;
  generation = 0;
  coverage_hash = [];
  known = [];
  names = [];
  ports = [];
}

abbrev pub previous_of : Option RuntimeState → RuntimeState
previous_of none = no_state
previous_of (some s) = s

abbrev pub max_generation : ℕ
max_generation = 2 ^ 64 - 1

abbrev pub only : Bool → List Event → List Event
only b events = if b then events else []

module _ (sha256 : Text → Text) (encode_issues : List RuntimeIssue → Text)
    (max_known max_events : ℕ) (now : Time) where
  module _ (previous : RuntimeState) where
    unfoldable pub first_seen : Dict ProcessEntry → List Event
    unfolding lookup process_event
    first_seen [] = []
    first_seen ((identity, p) ∷ processes) =
        let rest = first_seen processes in
        if is_some (lookup identity previous.known)
        then rest
        else process_event sha256 p now previous.generation ∷ rest

    unfoldable pub drift_of : Text → Option Text → Option ProcessEntry → List Event
    unfolding process_drift_event
    drift_of identity none p = []
    drift_of identity (some old) none = []
    drift_of identity (some old) (some p) =
        if is_empty old || text_eq old identity
        then []
        else process_drift_event sha256 p old now previous.generation ∷ []

    -- An entry for each name whose identity is another one than before.
    unfoldable pub drifts : Dict ProcessEntry → Dict Text → List Event
    unfolding drift_of lookup
    drifts processes [] = []
    drifts processes ((key, identity) ∷ names) =
        drift_of identity (lookup key previous.names) (lookup identity processes)
        ++ drifts processes names

    unfoldable pub port_change : Option PortEntry → Option PortEntry → List Event
    unfolding port_event
    port_change none (some opened) = port_event sha256 opened true now previous.generation ∷ []
    port_change (some closed) none = port_event sha256 closed false now previous.generation ∷ []
    port_change _ _ = []

    unfoldable pub port_changes : List Text → Dict PortEntry → List Event
    unfolding port_change lookup
    port_changes [] ports = []
    port_changes (key ∷ keys) ports =
        port_change (lookup key previous.ports) (lookup key ports) ++ port_changes keys ports

  -- `hashValue` of the issues.
  unfoldable pub issues_hash : List RuntimeIssue → Text
  unfolding hex
  issues_hash issues =
      let encoded = encode_issues issues in
      if text_eq encoded (codes "[]") || text_eq encoded (codes "null")
      then []
      else hex (sha256 encoded)

  -- The events of a change in what could be read; `exists` is whether there was a state.
  unfoldable pub coverage_events : Bool → RuntimeState → List RuntimeIssue → Text → List Event
  unfolding runtime_event coverage_evidence
  coverage_events exists previous issues hash =
      if text_eq hash previous.coverage_hash
      then []
      else if not (is_empty issues)
      then runtime_event sha256 (codes "runtime.coverage_limited") severity_medium
          (codes "Runtime process or port coverage is limited") now previous.generation
          (codes "coverage:" ++ hash) (coverage_evidence sha256 issues)
        ∷ []
      else if exists && not (is_empty previous.coverage_hash)
      then runtime_event sha256 (codes "runtime.coverage_restored") severity_info
          (codes "Runtime process and port coverage was restored") now previous.generation
          (codes "coverage-restored") (field (codes "read_only") (bool true) end)
        ∷ []
      else []

  unfoldable pub overflow_event : ℕ → Event
  unfolding runtime_event
  overflow_event generation =
      runtime_event sha256 (codes "runtime.change_overflow") severity_high
        (codes "Runtime changes reached the per-cycle event limit") now generation
        (codes "overflow")
        (field (codes "event_limit") (num (show_nat max_events))
          (field (codes "read_only") (bool true) end))

  unfoldable pub with_overflow : ℕ → List Event → List Event
  unfolding overflow_event
  with_overflow generation events =
      if leb max_events (length events) then events ++ overflow_event generation ∷ [] else events

  -- The changes of a scan: processes, then ports.
  unfoldable pub changes : Bool → RuntimeState → Captured → List Event
  unfolding first_seen drifts current_names port_changes union_keys next_ports
  changes exists previous c =
      let ports = next_ports previous.ports c in
      only (exists && c.process_complete) (
        first_seen previous c.processes
        ++ drifts previous c.processes (current_names c.processes []))
      ++ only exists (port_changes previous (union_keys previous.ports ports) ports)

  unfoldable pub scan_events : Bool → RuntimeState → Captured → List Event
  unfolding changes coverage_events with_overflow append_all sort_issues issues_hash
  scan_events exists previous c =
      let issues = sort_issues c.issues in
      with_overflow previous.generation (
        append_all (max_events + 1) (append_all max_events [] (changes exists previous c))
          (coverage_events exists previous issues (issues_hash issues)))

  unfoldable pub next_state : RuntimeState → Captured → ℕ → RuntimeState
  unfolding prune_known mark_known current_names next_ports sort_issues issues_hash
  next_state previous c generation =
      let known =
        prune_known max_known c.processes (mark_known generation c.processes previous.known) in
      record {
        schema_version = 1;
        generation = generation;
        coverage_hash = issues_hash (sort_issues c.issues);
        known = if c.process_complete then known else previous.known;
        names = if c.process_complete then current_names c.processes [] else previous.names;
        ports = next_ports previous.ports c;
      }

  -- `Scan`, without the saving.
  unfoldable pub scan : Option RuntimeState → Captured → Scanned
  unfolding scan_events next_state
  scan none c = scanned (scan_events false no_state c) (next_state no_state c 1)
  scan (some s) c =
      if s.generation == max_generation
      then exhausted
      else scanned (scan_events true s c) (next_state s c (s.generation + 1))
