-- ===== src/Detector/Runtime.antt =====
-- internal/detector/runtimewatch/runtimewatch.go: the processes and the listening ports of a host. SHA-256 is a
-- parameter.
pub mod Capture
pub mod Config
pub mod Maps
pub mod State
pub mod Scan
use my_safe.Prelude.{
  ℕ, ◌-◌, ◌==◌, Bool, true, not, ◌||◌, ◌&&◌, some, List, [], ◌∷◌, ◌++◌, length, take, drop, ltb,
  if◌then◌else◌,
}
use my_safe.Prelude.Text.{Text, codes, text_eq, is_empty, contains_any, has_prefix, has_suffix}
use my_safe.Prelude.Text.Number.{show_nat}
use my_safe.Prelude.Dict.{Dict}
use my_safe.Domain.{Time, Event, severity_info, severity_low, severity_medium, severity_high}
use my_safe.Domain.Json.{Fields, Items, bool, num, str, arr, obj, end, field, nil, item}
use my_safe.Detector.Ssh.{hex}

pub record ProcessEntry : Type 0 where
  pub identity : Text
  pub name : Text
  pub uid : ℕ
  pub executable : Text
  pub last_seen : ℕ

pub record PortEntry : Type 0 where
  pub key : Text
  pub family : Text
  pub port : ℕ
  pub scope : Text
  pub protocol : Text

pub record RuntimeState : Type 0 where
  pub schema_version : ℕ
  pub generation : ℕ
  pub coverage_hash : Text
  pub known : Dict ProcessEntry
  pub names : Dict Text
  pub ports : Dict PortEntry

-- `issue`
pub record RuntimeIssue : Type 0 where
  pub area : Text
  pub reason : Text

abbrev pub tcp4 : Text
tcp4 = codes "tcp4"

abbrev pub tcp6 : Text
tcp6 = codes "tcp6"

abbrev pub wildcard : Text
wildcard = codes "wildcard"

abbrev pub loopback : Text
loopback = codes "loopback"

abbrev pub specific : Text
specific = codes "specific"

abbrev control_bytes : Text
control_bytes = 0 ∷ 13 ∷ 10 ∷ []

-- `validExecutable`
unfoldable pub valid_executable : Text → Bool
valid_executable path = not (ltb 512 (length path)) && not (contains_any path control_bytes)

-- `validProcessName`
unfoldable pub valid_process_name : Text → Bool
valid_process_name name =
    not (is_empty name) && not (ltb 128 (length name)) && not (contains_any name control_bytes)

abbrev deleted : Text
deleted = codes " (deleted)"

-- `suspiciousExecutable`
unfoldable pub suspicious_executable : Text → Bool
suspicious_executable path =
    let gone = has_suffix path deleted in
    let clean = if gone then take (length path - length deleted) path else path in
    has_prefix clean (codes "/tmp/")
    || has_prefix clean (codes "/var/tmp/")
    || has_prefix clean (codes "/dev/shm/")
    || gone

with_executable : Text → Fields → Fields
with_executable path evidence =
    if is_empty path then evidence else field (codes "executable") (str path) evidence

abbrev read_only : Fields
read_only = field (codes "read_only") (bool true) end

module _ (sha256 : Text → Text) where
  -- `runtimeEvent`
  unfoldable pub runtime_event : Text → Text → Text → Time → ℕ → Text → Fields → Event
  unfolding hex
  runtime_event kind severity summary now generation key evidence = record {
    id = codes "evt_run_" ++ hex (take 12 (sha256 (kind ++ 0 ∷ show_nat generation ++ 0 ∷ key)));
    agent_id = [];
    kind = kind;
    severity = severity;
    summary = summary;
    occurred_at = now;
    received_at = 0;
    evidence = some evidence;
  }

  -- `processEvent`, which is always called for a first sight.
  unfoldable pub process_event : ProcessEntry → Time → ℕ → Event
  unfolding runtime_event with_executable suspicious_executable
  process_event p now generation =
      let severity =
        if suspicious_executable p.executable
        then severity_high
        else if p.uid == 0
        then severity_medium
        else severity_low in
      runtime_event (codes "runtime.process.first_seen") severity
        (codes "A previously unseen process identity is running") now generation
        (codes "first_seen:" ++ p.identity)
        (with_executable p.executable (
          field (codes "name") (str p.name) (field (codes "uid") (num (show_nat p.uid)) read_only)))

  -- `processDriftEvent`
  unfoldable pub process_drift_event : ProcessEntry → Text → Time → ℕ → Event
  unfolding runtime_event with_executable
  process_drift_event p previous_identity now generation =
      runtime_event (codes "runtime.process.identity_changed") severity_high
        (codes "A process name is now backed by a different executable identity") now generation
        (p.identity ++ codes ":" ++ previous_identity)
        (with_executable p.executable (
          field (codes "name") (str p.name) (
            field (codes "uid") (num (show_nat p.uid)) (
              field (codes "previous_identity") (str previous_identity)
                (field (codes "current_identity") (str p.identity) read_only)))))

  -- `portEvent`
  unfoldable pub port_event : PortEntry → Bool → Time → ℕ → Event
  unfolding runtime_event
  port_event p opened now generation =
      let exposed = text_eq p.scope wildcard || text_eq p.scope specific in
      let change = if opened then codes "opened" else codes "closed" in
      runtime_event (if opened then codes "runtime.port.opened" else codes "runtime.port.closed")
        (if opened then (if exposed then severity_high else severity_medium) else severity_info)
        (if opened
          then codes "A new TCP listening socket opened"
          else codes "A TCP listening socket closed")
        now generation (p.key ++ codes ":" ++ change)
        (field (codes "protocol") (str p.protocol) (
          field (codes "family") (str p.family) (
            field (codes "port") (num (show_nat p.port)) (
              field (codes "scope") (str p.scope)
                (field (codes "change") (str change) read_only)))))

  issue_items : List RuntimeIssue → Items
  issue_items [] = nil
  issue_items (i ∷ issues) =
      item (obj (field (codes "area") (str i.area) (field (codes "reason") (str i.reason) end)))
        (issue_items issues)

  -- `coverageEvidence`, with at most 20 issues.
  unfoldable pub coverage_evidence : List RuntimeIssue → Fields
  unfolding issue_items
  coverage_evidence issues =
      field (codes "issue_count") (num (show_nat (length issues)))
        (field (codes "issues") (arr (issue_items (take 20 issues))) read_only)
