-- ===== src/Store/Contract.antt =====
-- internal/store/store.go: the interface of a repository, as operations on a state of its own.
use my_safe.Prelude.{ℕ, List}
use my_safe.Prelude.Int.{ℤ}
use my_safe.Prelude.Text.{Text}
use my_safe.Domain.{Agent, Event, Heartbeat, AlertFilter, Policy, AuditLog}

-- `ErrNotFound`, `ErrConflict`, and any other error of an implementation.
pub data StoreError : Type 0 where
  not_found conflict failure : StoreError

pub data Stored {ℓ} (A : Type ℓ) : Type ℓ where
  ok : A → Stored A
  err : StoreError → Stored A

-- The interface `Store`. A call returns its result and the state that it leaves.
pub record Store : Type 1 where
  pub State : Type 0
  pub create_agent : Agent → State → Stored (Unit {0}) × State
  pub agent_by_id : Text → State → Stored Agent
  pub agent_by_machine_id : Text → State → Stored Agent
  pub update_heartbeat : Text → Heartbeat → State → Stored (Unit {0}) × State
  pub list_agents : ℤ → State → Stored (List Agent)
  pub save_events : List Event → State → Stored ℕ × State
  pub list_alerts : AlertFilter → State → Stored (List Event)
  pub policy_for_agent : Text → State → Stored Policy
  pub save_policy_and_audit : Policy → ℤ → AuditLog → State → Stored (Unit {0}) × State
  pub list_audit_logs : ℤ → State → Stored (List AuditLog)
