-- ===== src/Control/Queries/Exposure.antt =====
-- What the listings of the control plane do not give away.
use my_safe.Prelude.{◌≡◌, refl, inl, inr, List, [], ◌∷◌, map, All, Bool-cases, Option-cases}
use my_safe.Prelude.Int.{ℤ}
use my_safe.Prelude.Text.{Text}
use my_safe.Prelude.Dict.{values}
use my_safe.Domain.{Agent, AuditLog}
use my_safe.Security.Redact.Laws.{HidesAll, redact_map-HidesAll}
use my_safe.Store.Contract.{Store, Stored, ok, err}
use my_safe.Store.Listing.{All-listing}
use my_safe.Store.Memory.{Memory, memory_store, without_credential, list_agents as stored_agents}
use my_safe.Control.{
  Config, Request, Response, problem, registered, heartbeat_accepted, events_accepted,
  agents_listed, alerts_listed, policy_found, audit_logs_listed,
}
use my_safe.Control.Auth.{authorize_token}
use my_safe.Control.Queries.{
  query_limit, list_agents, list_audit_logs, agents_answer, audit_answer, redact_log,
}

-- No credential hash is in a list of Agents, and no secret in the details of audit records.
abbrev pub IsDiscreet : Response → Type 0
IsDiscreet (agents_listed agents) = All (λ (a : Agent). a.credential_hash ≡ []) agents
IsDiscreet (audit_logs_listed logs) = All (λ (l : AuditLog). HidesAll l.details) logs
IsDiscreet (problem code d) = Unit
IsDiscreet (registered code a) = Unit
IsDiscreet heartbeat_accepted = Unit
IsDiscreet (events_accepted a b) = Unit
IsDiscreet (alerts_listed l) = Unit
IsDiscreet (policy_found p) = Unit

without_credentials :
    (agents : List Agent)
    → All (λ (a : Agent). a.credential_hash ≡ []) (map without_credential agents)
without_credentials [] = tt
without_credentials (a ∷ agents) = (refl, without_credentials agents)

redacted_logs :
    (logs : List AuditLog) → All (λ (l : AuditLog). HidesAll l.details) (map redact_log logs)
redacted_logs [] = tt
redacted_logs (l ∷ logs) = (redact_map-HidesAll l.details, redacted_logs logs)

module _ (sha256 : Text → Text) (c : Config) where
  listed_agents-IsDiscreet :
      (n : ℤ) (s : Memory) → IsDiscreet (agents_answer sha256 memory_store c (stored_agents n s))
  unfolding agents_answer stored_agents
  listed_agents-IsDiscreet n s =
      All-listing (λ (a : Agent). a.registered_at) (λ (a : Agent). a.credential_hash ≡ []) n
        (map without_credential (values s.agents)) (without_credentials (values s.agents))

  list_agents-IsDiscreet :
      (r : Request) (raw_limit : Text) (s : Memory)
      → IsDiscreet (list_agents sha256 memory_store c r raw_limit s)
  unfolding list_agents
  list_agents-IsDiscreet r raw_limit s =
      elim (Bool-cases (authorize_token sha256 r c.admin_token)) [
        | inr n ↦ rw n tt
        | inl y ↦ elim (Option-cases (query_limit raw_limit)) [
          | inl bad ↦ rw (y, bad) tt
          | inr (n, good) ↦ rw (y, good) (listed_agents-IsDiscreet n s)
        ]
      ]

  audit_answer-IsDiscreet :
      (st : Store) (x : Stored (List AuditLog)) → IsDiscreet (audit_answer sha256 st c x)
  unfolding audit_answer
  audit_answer-IsDiscreet st (ok logs) = redacted_logs logs
  audit_answer-IsDiscreet st (err e) = tt

  list_audit_logs-IsDiscreet :
      (st : Store) (r : Request) (raw_limit : Text) (s : st.State)
      → IsDiscreet (list_audit_logs sha256 st c r raw_limit s)
  unfolding list_audit_logs
  list_audit_logs-IsDiscreet st r raw_limit s =
      elim (Bool-cases (authorize_token sha256 r c.admin_token)) [
        | inr n ↦ rw n tt
        | inl y ↦ elim (Option-cases (query_limit raw_limit)) [
          | inl bad ↦ rw (y, bad) tt
          | inr (n, good) ↦ rw (y, good) (audit_answer-IsDiscreet st (st.list_audit_logs n s))
        ]
      ]

  -- Whoever asks and for whatever limit, a list of Agents from the repository in memory has no credential
  -- hash, and a list of audit records has the marker in place of every value under a sensitive key.
  pub listings-IsDiscreet :
      (r : Request) (raw_limit : Text) (s : Memory)
      → IsDiscreet (list_agents sha256 memory_store c r raw_limit s)
        × IsDiscreet (list_audit_logs sha256 memory_store c r raw_limit s)
  listings-IsDiscreet r raw_limit s =
      (list_agents-IsDiscreet r raw_limit s, list_audit_logs-IsDiscreet memory_store r raw_limit s)
