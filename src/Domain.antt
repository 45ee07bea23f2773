-- ===== src/Domain.antt =====
-- internal/domain: the data that the Agent, the Gateway and the control plane share (model.go), and
-- its validation (validate.go). The types are here; `Validate` has the validators.
pub mod Json
pub mod Validate
use my_safe.Prelude.{ℕ, Bool, ◌||◌, Option, List}
use my_safe.Prelude.Int.{ℤ}
use my_safe.Prelude.Text.{Text, codes, text_eq}
use my_safe.Domain.Json.{Fields}

-- Nanoseconds since Go's zero time, the first instant of year 1: `IsZero` is a test for 0.
abbrev pub Time : Type 0
Time = ℕ

abbrev pub severity_info : Text
severity_info = codes "info"

abbrev pub severity_low : Text
severity_low = codes "low"

abbrev pub severity_medium : Text
severity_medium = codes "medium"

abbrev pub severity_high : Text
severity_high = codes "high"

abbrev pub severity_critical : Text
severity_critical = codes "critical"

-- `Severity.Valid`
unfoldable pub severity_valid : Text → Bool
unfolding text_eq
severity_valid s =
    text_eq s severity_info
    || text_eq s severity_low
    || text_eq s severity_medium
    || text_eq s severity_high
    || text_eq s severity_critical

pub record Agent : Type 0 where
  pub id : Text
  pub machine_id : Text
  pub hostname : Text
  pub version : Text
  pub platform : Text
  pub architecture : Text
  pub credential_hash : Text
  pub registered_at : Time
  pub last_seen_at : Time

pub record Heartbeat : Type 0 where
  pub agent_version : Text
  pub queue_depth : ℤ
  pub sent_at : Time

-- `evidence` is `none` for a nil map.
pub record Event : Type 0 where
  pub id : Text
  pub agent_id : Text
  pub kind : Text
  pub severity : Text
  pub summary : Text
  pub occurred_at : Time
  pub received_at : Time
  pub evidence : Option Fields

pub record AlertFilter : Type 0 where
  pub severity : Text
  pub limit : ℤ

pub record Policy : Type 0 where
  pub id : Text
  pub agent_id : Text
  pub revision : ℤ
  pub file_integrity_enabled : Bool
  pub file_watch_paths : List Text
  pub ssh_auth_enabled : Bool
  pub ssh_threshold : ℤ
  pub ssh_window_seconds : ℤ
  pub runtime_watch_enabled : Bool
  pub updated_at : Time

pub record AuditLog : Type 0 where
  pub id : Text
  pub actor : Text
  pub action : Text
  pub resource : Text
  pub occurred_at : Time
  pub details : Option Fields
